-- ===== src/Docs/Rows.antt =====
-- The rows of web/src/routes/docs.tsx: which are open, and what becomes of them as the configuration
-- arrives. React keeps the state of the rows whose `key` is still there.
use haste_server.Prelude.{
  ℕ, zero, suc, ◌≡◌, refl, sym, ap, ◌∙◌, Bool, true, false, not, List, [], ◌∷◌, ◌++◌, Option, none,
  some, map, any, Memᴰ, any_complete, map_complete, &&-eq-true, if◌then◌else◌, Bool-cases, inl, inr,
}
use mathlib.Core.Path.{subst}
use haste_server.Text.{Text, codes, text_eq, text_eq_refl}
use haste_server.Text.Distinct.{is_distinct}
use haste_server.Api.{ServerConfig}
use haste_server.Docs.{Method, get, post, Endpoint, endpoints, stats, listed}
use haste_server.Docs.Trying.{TryIt, open_form}

unfoldable pub method_name : Method → Text
method_name get = codes "GET"
method_name post = codes "POST"

-- `endpoint.method + endpoint.path`
unfoldable pub row_key : Endpoint → Text
row_key e = method_name e.method ++ e.path

-- A row: with the form to try it, while it is open.
pub record Row : Type 0 where
  pub endpoint : Endpoint
  pub form : Option TryIt

pub record DocsPage : Type 0 where
  pub config : ServerConfig
  pub rows : List Row

unfoldable pub closed : Endpoint → Row
closed e = record { endpoint = e; form = none }

-- `setOpen((v) => !v)`: what is in the form goes with it, and it comes back empty.
unfoldable pub toggle_form : Endpoint → Option TryIt → Option TryIt
toggle_form e none = some (open_form e)
toggle_form e (some form) = none

unfoldable pub toggle : ℕ → List Row → List Row
toggle n [] = []
toggle zero (r ∷ rows) = record r { form = toggle_form r.endpoint r.form } ∷ rows
toggle (suc n) (r ∷ rows) = r ∷ toggle n rows

unfoldable pub open_docs : ServerConfig → DocsPage
open_docs config = record { config = config; rows = map closed (listed config) }

unfoldable pub on_toggle : ℕ → DocsPage → DocsPage
on_toggle n page = record page { rows = toggle n page.rows }

-- The state that is kept under a key.
unfoldable pub kept_form : Text → List Row → Option TryIt
kept_form key [] = none
kept_form key (r ∷ rows) =
    let later = kept_form key rows in if text_eq (row_key r.endpoint) key then r.form else later

-- The configuration arrives, and the list is rendered anew.
unfoldable pub on_config : ServerConfig → DocsPage → DocsPage
on_config config page = record {
  config = config;
  rows = map (λ e. record { endpoint = e; form = kept_form (row_key e) page.rows }) (listed config);
}

-- What is typed into a form, and what it is answered.
unfoldable pub change : ℕ → TryIt → List Row → List Row
change n form [] = []
change zero form (r ∷ rows) =
    record r { form = elim r.form [ none ↦ none | some before ↦ some form ] } ∷ rows
change (suc n) form (r ∷ rows) = r ∷ change n form rows

pub data Reach : DocsPage → Type 0 where
  opened : (config : ServerConfig) → Reach (open_docs config)
  toggled : (n : ℕ) {page : DocsPage} → Reach page → Reach (on_toggle n page)
  changed :
      (n : ℕ) (form : TryIt) {page : DocsPage}
      → Reach page
      → Reach (record page { rows = change n form page.rows })
  configured :
      (config : ServerConfig) {page : DocsPage} → Reach page → Reach (on_config config page)

abbrev pub endpoints_of : List Row → List Endpoint
endpoints_of rows = map (λ (r : Row). r.endpoint) rows

map-endpoint :
    (form : Endpoint → Option TryIt) (es : List Endpoint)
    → endpoints_of (map (λ e. record { endpoint = e; form = form e }) es) ≡ es
map-endpoint form [] = refl
map-endpoint form (e ∷ es) = ap (λ l. e ∷ l) (map-endpoint form es)

toggle-endpoints : (n : ℕ) (rows : List Row) → endpoints_of (toggle n rows) ≡ endpoints_of rows
unfolding toggle
toggle-endpoints n [] = refl
toggle-endpoints zero (r ∷ rows) = refl
toggle-endpoints (suc n) (r ∷ rows) = ap (λ l. r.endpoint ∷ l) (toggle-endpoints n rows)

change-endpoints :
    (n : ℕ) (form : TryIt) (rows : List Row) → endpoints_of (change n form rows) ≡ endpoints_of rows
unfolding change
change-endpoints n form [] = refl
change-endpoints zero form (r ∷ rows) = refl
change-endpoints (suc n) form (r ∷ rows) = ap (λ l. r.endpoint ∷ l) (change-endpoints n form rows)

-- However the reader opens and closes rows and types into their forms, and whenever the configuration
-- arrives, there is one row for each endpoint that the configuration in force lists, in its order.
pub Reach-listed : {page : DocsPage} → Reach page → endpoints_of page.rows ≡ listed page.config
unfolding open_docs closed on_toggle on_config
Reach-listed (opened config) = map-endpoint (λ _. none) (listed config)
Reach-listed (toggled n {page} r) = toggle-endpoints n page.rows ∙ Reach-listed r
Reach-listed (changed n form {page} r) = change-endpoints n form page.rows ∙ Reach-listed r
Reach-listed (configured config {page} r) =
    map-endpoint (λ e. kept_form (row_key e) page.rows) (listed config)

listed-distinct : (config : ServerConfig) → is_distinct (map row_key (listed config)) ≡ true
unfolding listed endpoints row_key method_name is_distinct
listed-distinct config = shown config.stats_public
  where
    shown :
        (o : Option Bool)
        → is_distinct (
            map row_key (elim o [
              | none ↦ endpoints
              | some b ↦ if b then endpoints ++ stats ∷ [] else endpoints
            ]))
          ≡ true
    shown none = refl
    shown (some true) = refl
    shown (some false) = refl

kept_form-here :
    (key : Text) (r : Row) (rows : List Row)
    → text_eq (row_key r.endpoint) key ≡ true
    → kept_form key (r ∷ rows) ≡ r.form
unfolding kept_form
kept_form-here key r rows h = ap (λ b. if b then r.form else kept_form key rows) h

kept_form-later :
    (key : Text) (r : Row) (rows : List Row)
    → text_eq (row_key r.endpoint) key ≡ false
    → kept_form key (r ∷ rows) ≡ kept_form key rows
unfolding kept_form
kept_form-later key r rows h = ap (λ b. if b then r.form else kept_form key rows) h

keys-endpoints :
    (rows : List Row) → map (λ (r : Row). row_key r.endpoint) rows ≡ map row_key (endpoints_of rows)
keys-endpoints [] = refl
keys-endpoints (r ∷ rows) = ap (λ l. row_key r.endpoint ∷ l) (keys-endpoints rows)

-- Where no key stands twice, each row finds its own state.
kept_form-own :
    (rows : List Row) (r : Row)
    → is_distinct (map (λ (q : Row). row_key q.endpoint) rows) ≡ true
    → Memᴰ r rows
    → kept_form (row_key r.endpoint) rows ≡ r.form
unfolding is_distinct
kept_form-own [] r h m = elim m [ ]
kept_form-own (q ∷ rows) r h (Memᴰ.head e) =
    subst (λ (o : Row). kept_form (row_key o.endpoint) (q ∷ rows) ≡ o.form) (sym e)
      (kept_form-here (row_key q.endpoint) q rows (text_eq_refl (row_key q.endpoint)))
kept_form-own (q ∷ rows) r h (Memᴰ.tail m) =
    let keys = map (λ (o : Row). row_key o.endpoint) rows in
    let (fresh, rest) =
      &&-eq-true (not (any (text_eq (row_key q.endpoint)) keys)) (is_distinct keys) h in
    elim (Bool-cases (text_eq (row_key q.endpoint) (row_key r.endpoint))) [
      | inl same ↦
          let there =
            any_complete (text_eq (row_key q.endpoint)) keys
              (map_complete (λ (o : Row). row_key o.endpoint) rows m) same in
          absurd (cc (sym fresh ∙ ap not there))
      | inr differs ↦
          kept_form-later (row_key r.endpoint) q rows differs ∙ kept_form-own rows r rest m
    ]

-- When the configuration arrives, every row whose endpoint is still listed is as it was, open or closed,
-- with all that was typed into its form and the answer in it.
pub on_config-keeps :
    (config : ServerConfig) (r : Row) {page : DocsPage}
    → Reach page
    → Memᴰ r page.rows
    → Memᴰ r.endpoint (listed config)
    → Memᴰ r (on_config config page).rows
unfolding on_config
on_config-keeps config r {page} reached m l =
    let distinct =
      ap is_distinct (keys-endpoints page.rows ∙ ap (map row_key) (Reach-listed reached))
      ∙ listed-distinct page.config in
    subst
      (λ (o : Option TryIt).
        Memᴰ (record { endpoint = r.endpoint; form = o }) (on_config config page).rows)
      (kept_form-own page.rows r distinct m)
      (map_complete (λ e. record { endpoint = e; form = kept_form (row_key e) page.rows })
        (listed config) l)
