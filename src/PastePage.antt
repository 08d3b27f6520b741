-- ===== src/PastePage.antt =====
-- web/src/routes/paste.tsx: loading a paste, its line selection and the page's shortcuts.
pub mod Loading
pub mod Links
pub mod Shortcuts
pub mod Toolbar
pub mod Handoff
pub mod StatusBar
pub mod View
pub mod Keys
mod Tests
mod ViewTests
use haste_server.Prelude.{
  ℕ, ◌+◌, Bool, true, false, not, ◌&&◌, ◌||◌, List, [], ◌∷◌, ◌++◌, Option, none, some, ◌==◌,
  if◌then◌else◌, length, any,
}
use haste_server.Text.{Text, codes, text_eq, is_empty, split, lower}
use haste_server.Lines.{LineRange, parse_line_hash, format_line_hash, select_line, clamp_range}
use haste_server.Api.{Paste, ApiError, Failure, api_error, other}
use haste_server.Languages.{plain}

-- The state, with the number of the request whose answer still counts: the others were cancelled.
pub record Page : Type 0 where
  pub code : Text
  pub paste : Option Paste
  pub error : Option ApiError
  pub live : Option ℕ
  pub next_request : ℕ

-- `paste?.key === code`
unfoldable pub has_key : Text → Option Paste → Bool
has_key code none = false
has_key code (some p) = text_eq p.key code

-- `fetchPaste(code)`, whose answer is set while the request is not cancelled.
unfoldable pub fetch_again : Page → Page
fetch_again page = record page {
  paste = none;
  error = none;
  live = some page.next_request;
  next_request = page.next_request + 1;
}

-- The effect on `[code, paste]`: its cleanup cancels the request before it.
unfoldable pub load : Page → Page
load page = if has_key page.code page.paste then record page { live = none } else fetch_again page

-- The effect until it has nothing more to do: where it dropped a paste, it runs once more.
unfoldable pub settle_from : Option Paste → Page → Page
settle_from none page = load page
settle_from (some p) page = if text_eq p.key page.code then load page else load (load page)

unfoldable pub settle : Page → Page
settle page = settle_from page.paste page

-- The page as it opens: the paste that was handed over, if it is of this code.
unfoldable pub open_page : Text → Option Paste → Page
open_page code handoff = settle (record {
  code = code;
  paste = if has_key code handoff then handoff else none;
  error = none;
  live = none;
  next_request = 0;
})

-- Another code in the address.
unfoldable pub on_code : Text → Page → Page
on_code code page = if text_eq code page.code then page else settle (record page { code = code })

is_live : ℕ → Option ℕ → Bool
is_live id none = false
is_live id (some n) = n == id

unfoldable pub on_result : ℕ → Paste → Page → Page
unfolding is_live
on_result id result page =
    if is_live id page.live then settle (record page { paste = some result }) else page

-- `err instanceof ApiError ? err : new ApiError(0, "unknown", …)`
unfoldable pub error_of : Failure → ApiError
error_of (api_error e) = e
error_of other = record {
  status = 0;
  code = codes "unknown";
  message = codes "Could not load paste.";
}

unfoldable pub on_failure : ℕ → Failure → Page → Page
unfolding is_live error_of
on_failure id failure page =
    if is_live id page.live then record page { error = some (error_of failure) } else page

unfoldable pub content_of : Option Text → Text
content_of none = []
content_of (some s) = s

-- `paste.language || detectLanguage(paste.content ?? "")`
unfoldable pub language : (Text → Text) → Option Paste → Text
unfolding content_of
language detect none = plain
language detect (some p) =
    if is_empty (content_of p.language)
    then detect (content_of p.content)
    else content_of p.language

-- `paste?.content ? paste.content.split("\n").length : 0`
unfoldable pub line_count : Option Paste → ℕ
unfolding content_of
line_count none = 0
line_count (some p) =
    if is_empty (content_of p.content) then 0 else length (split b'\n' (content_of p.content))

unfoldable pub selection : Text → Option Paste → Option LineRange
selection hash paste = clamp_range (parse_line_hash hash) (line_count paste)

-- The fragment that a click on a line number navigates to.
unfoldable pub on_select_line : Option LineRange → ℕ → Bool → Text
on_select_line current line extend = format_line_hash (select_line current line extend)

-- `window.location.href.split("#")[0]`
before_hash : Text → Text
before_hash [] = []
before_hash (c ∷ s) = let rest = before_hash s in if c == b'#' then [] else c ∷ rest

-- What `copyLink` copies.
unfoldable pub link : Text → Option Paste → Option LineRange → Text
unfolding before_hash
link href paste current =
    let base : Text = elim paste [ none ↦ before_hash href | some p ↦ p.url ] in
    elim current [ none ↦ base | some range ↦ base ++ format_line_hash range ]

-- `useDocumentTitle`: the title of the tab for a page that has something to say, or nothing.
unfoldable pub document_title : Option Text → Text
document_title none = codes "Haste"
document_title (some []) = codes "Haste"
document_title (some (c ∷ s)) = (c ∷ s) ++ codes " · Haste"

-- What the page hands to it; `label` names a language and `chars` is the translated count.
unfoldable pub page_title : (Text → Text) → (Text → Text) → (ℕ → Text) → Option Paste → Option Text
unfolding content_of
page_title detect label chars none = none
page_title detect label chars (some p) = some (
    if is_empty (content_of p.title)
    then label (language detect (some p)) ++ (codes " · " ++ chars p.chars)
    else content_of p.title)
