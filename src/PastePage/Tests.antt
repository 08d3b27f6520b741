-- ===== src/PastePage/Tests.antt =====
-- The page of a paste on concrete states.
use haste_server.Prelude.{◌≡◌, ◌↔◌, ◌⊎◌, refl, true, false, [], map, none, some, arith}
use haste_server.Text.{text_eq, text_eq_iff, codes, lower, split}
use haste_server.Lines.{select_line}
use haste_server.Api.{Paste, other}
use haste_server.PastePage.{
  settle, settle_from, load, has_key, fetch_again, Page, open_page, on_result, on_failure, on_code,
  selection, line_count, on_select_line,
}
use haste_server.PastePage.Loading.Address.{on_code-asks_twice}
use haste_server.PastePage.Loading.{opened, later, to_code, IsSettled, Reach-IsSettled}
use haste_server.PastePage.Loading.Cancelled.{here, stale_answer}
use haste_server.PastePage.Links.{on_select_line-selection}
use haste_server.PastePage.Shortcuts.{
  Press, IsHeard, IsShortcut, on_key_down, on_key_down-prevented,
}

abbrev pub paste : Paste
paste = record {
  key = codes "k7";
  url = codes "https://h/k7";
  raw_url = codes "https://h/raw/k7";
  download_url = codes "https://h/download/k7";
  filename = codes "k7.txt";
  language = some (codes "text");
  title = none;
  chars = 5;
  bytes = 5;
  created_at = codes "2026-01-01T00:00:00Z";
  expires_at = none;
  content = some (codes "a\nb\nc");
}

-- The reader opens a paste that was just created and goes on to another code.
Reach-IsSettled_example : IsSettled (on_code (codes "m2") (open_page (codes "k7") (some paste)))
Reach-IsSettled_example =
    Reach-IsSettled (later (opened (codes "k7") (some paste)) (to_code (codes "m2")))

abbrev waiting : Page
waiting = record { code = codes "m2"; paste = none; error = none; live = some 1; next_request = 2 }

-- The answer of request 0 arrives while request 1 is waited for.
stale_answer_example :
    (on_result 0 paste waiting ≡ waiting) × (on_failure 0 other waiting ≡ waiting)
unfolding on_code open_page settle settle_from load has_key fetch_again
stale_answer_example =
    stale_answer 0 (codes "m2") paste other (opened (codes "k7") none) refl
      (λ e. cc ((text_eq_iff (codes "m2") (codes "k7")).1 e)) here

on_select_line-selection_example :
    selection (on_select_line (selection (codes "#L3") (some paste)) 2 true) (some paste)
    ≡ some (select_line (selection (codes "#L3") (some paste)) 2 true)
unfolding line_count split
on_select_line-selection_example =
    on_select_line-selection (codes "#L3") (some paste) 2 true (omega arith) (omega arith)
      (omega arith)

abbrev press : Press
press = record {
  key = codes "R";
  meta_key = false;
  ctrl_key = false;
  alt_key = false;
  is_content_editable = false;
  tag_name = codes "BODY";
}

on_key_down-prevented_example :
    (((on_key_down press [] waiting none).1 ≡ true)
      ↔ (IsHeard press waiting × IsShortcut (map lower press.key)))
    × (((on_key_down press [] waiting none).1 ≡ true)
        ⊎ (on_key_down press [] waiting none ≡ ([], false)))
on_key_down-prevented_example = on_key_down-prevented press [] waiting none

abbrev shown_page : Page
shown_page = record {
  code = codes "k7";
  paste = some paste;
  error = none;
  live = none;
  next_request = 0;
}

on_code-asks_twice_example :
    let after = on_code (codes "m2") shown_page in
    (after.code ≡ codes "m2")
    × (after.paste ≡ none)
    × (after.next_request ≡ 2)
    × (after.live ≡ some 1)
on_code-asks_twice_example =
    on_code-asks_twice (codes "m2") shown_page paste refl refl (λ e. differ ((text_eq_iff _ _).1 e))
  where
    differ : text_eq (codes "m2") (codes "k7") ≡ true → ⊥
    differ h = cc h
