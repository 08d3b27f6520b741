-- ===== src/Docs/Coverage.antt =====
-- The texts and the codes of the endpoints of web/src/routes/docs.tsx.
use haste_server.Prelude.{
  ℕ, ◌≡◌, ◌⊎◌, inl, inr, refl, sym, ap, Bool, true, false, List, [], ◌∷◌, ◌++◌, append-nil, Option,
  none, some, all, any, map, if◌then◌else◌, Memᴰ, All, All-append, any_sound, all_sound,
}
use mathlib.Core.Path.{subst}
use haste_server.Text.{Text, codes, text_eq, text_eq_iff, contains}
use haste_server.I18n.Completeness.{message_keys, IsComplete, message_keys-IsComplete}
use haste_server.I18n.Locales.{Locale}
use haste_server.Api.{ServerConfig}
use haste_server.Docs.{Field, Endpoint, stats, endpoints, listed, replace_first, path_for}

abbrev pub optional : Option Text → List Text
optional none = []
optional (some s) = s ∷ []

-- The keys of the texts that the page shows of an endpoint.
abbrev pub text_keys : Endpoint → List Text
text_keys e =
    e.summary
    ∷ (optional e.note
        ++ (map (λ (f : Field). f.desc) (e.params ++ e.body)
            ++ map (λ (r : ℕ × Text). r.1) e.responses))

-- The path ends in the place for a code, which is put there whatever it is, and the parameter is
-- described; or the path is fixed, and there is no such parameter.
abbrev pub HasItsCode : Endpoint → Type 0
HasItsCode e =
    ((before : Text) × (e.path ≡ before ++ codes "{code}")
      × ((code : Text) → path_for code e ≡ before ++ code)
      × (any (λ f. text_eq f.name (codes "code")) e.params ≡ true))
    ⊎ ((contains e.path (codes "{code}") ≡ false)
        × ((code : Text) → path_for code e ≡ e.path)
        × (any (λ f. text_eq f.name (codes "code")) e.params ≡ false))

endpoints-HasItsCode : All HasItsCode endpoints
unfolding endpoints path_for replace_first
endpoints-HasItsCode = (
  inr (refl, (λ code. refl), refl),
  (
    inl (
      codes "/api/pastes/",
      refl,
      (λ code. ap (λ s. codes "/api/pastes/" ++ s) (append-nil code)),
      refl,
    ),
    (
      inl (codes "/raw/", refl, (λ code. ap (λ s. codes "/raw/" ++ s) (append-nil code)), refl),
      (
        inl (
          codes "/download/",
          refl,
          (λ code. ap (λ s. codes "/download/" ++ s) (append-nil code)),
          refl,
        ),
        (
          inr (refl, (λ code. refl), refl),
          (
            inr (refl, (λ code. refl), refl),
            (
              inr (refl, (λ code. refl), refl),
              (
                inl (
                  codes "/documents/",
                  refl,
                  (λ code. ap (λ s. codes "/documents/" ++ s) (append-nil code)),
                  refl,
                ),
                tt,
              ),
            ),
          ),
        ),
      ),
    ),
  ),
)

stats-HasItsCode : HasItsCode stats
unfolding path_for replace_first
stats-HasItsCode = inr (refl, (λ code. refl), refl)

is_key : Text → Bool
is_key key = any (λ k. text_eq k key) message_keys

endpoints-texts : all (λ e. all is_key (text_keys e)) (endpoints ++ stats ∷ []) ≡ true
unfolding endpoints is_key message_keys
endpoints-texts = refl

All-member :
    (P : Endpoint → Type 0) (es : List Endpoint) {e : Endpoint} → All P es → Memᴰ e es → P e
All-member P [] h m = elim m [ ]
All-member P (x ∷ es) (p, h) (Memᴰ.head same) = subst P (sym same) p
All-member P (x ∷ es) (p, h) (Memᴰ.tail m) = All-member P es h m

Memᴰ-append : (es fs : List Endpoint) {e : Endpoint} → Memᴰ e es → Memᴰ e (es ++ fs)
Memᴰ-append [] fs m = elim m [ ]
Memᴰ-append (x ∷ es) fs (Memᴰ.head same) = Memᴰ.head same
Memᴰ-append (x ∷ es) fs (Memᴰ.tail m) = Memᴰ.tail (Memᴰ-append es fs m)

-- Whatever the configuration shows is among the endpoints and the totals.
pub listed-all :
    (config : ServerConfig) {e : Endpoint}
    → Memᴰ e (listed config)
    → Memᴰ e (endpoints ++ stats ∷ [])
unfolding listed
listed-all config m = shown config.stats_public m
  where
    shown :
        (o : Option Bool) {e : Endpoint}
        → Memᴰ e (elim o [
          | none ↦ endpoints
          | some b ↦ if b then endpoints ++ stats ∷ [] else endpoints
        ])
        → Memᴰ e (endpoints ++ stats ∷ [])
    shown none m = Memᴰ-append endpoints (stats ∷ []) m
    shown (some true) m = m
    shown (some false) m = Memᴰ-append endpoints (stats ∷ []) m

is_key-Memᴰ : (key : Text) → is_key key ≡ true → Memᴰ key message_keys
unfolding is_key
is_key-Memᴰ key h =
    let (k, m, e) = any_sound (λ k. text_eq k key) message_keys h in
    subst (λ k. Memᴰ k message_keys) ((text_eq_iff k key).0 e) m

-- Every endpoint that the page lists, the corpus totals where they are served included: its path ends
-- in the place for a code, which is replaced by any code whatever, and a `code` parameter is
-- described, or the path is fixed and none is; and each of its texts has one in every language.
pub listed-HasItsCode :
    (config : ServerConfig) (e : Endpoint) (locale : Locale) (key : Text)
    → Memᴰ e (listed config)
    → Memᴰ key (text_keys e)
    → HasItsCode e × IsComplete locale key
listed-HasItsCode config e locale key m k =
    let member = listed-all config m in
    (
      All-member HasItsCode (endpoints ++ stats ∷ [])
          (All-append HasItsCode endpoints (stats ∷ []) endpoints-HasItsCode (stats-HasItsCode, tt))
          member,
      (message_keys-IsComplete locale key (
          is_key-Memᴰ key (
            all_sound is_key (text_keys e)
              (all_sound (λ d. all is_key (text_keys d)) (endpoints ++ stats ∷ []) endpoints-texts
                member)
              k))),
    )
