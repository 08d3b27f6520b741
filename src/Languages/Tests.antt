-- ===== src/Languages/Tests.antt =====
-- Detection and what it rests on, on concrete texts.
use haste_server.Prelude.{◌≤◌, false, filter, ◌≡◌, ◌⊎◌, ◌<◌, ◌↔◌, refl, true, some, Memᴰ, length}
use haste_server.Text.{Text, codes}
use haste_server.Languages.{LanguageOption, plain, languages}
use haste_server.Languages.{catalogue}
use haste_server.Languages.Picker.{picker_label}
use haste_server.Languages.Menu.{
  Item, Picker, auto, select, auto_item, language_item, items, items-select,
}
use haste_server.Languages.Rules.{rules}
use haste_server.Languages.Detection.{detect_language, sample_of}
use haste_server.Languages.Detection.Laws.{
  Decided, Undecided, detect_language-Decided, detect_language-languages,
}

detect_language-Decided_example :
    ((length (sample_of (codes "package main\n")) < 12)
      × (detect_language (codes "package main\n") ≡ plain))
    ⊎ ((12 ≤ length (sample_of (codes "package main\n")))
        × (Decided rules
              (sample_of (codes "package main\n"))
              (detect_language (codes "package main\n"))
            ⊎ Undecided rules
                (sample_of (codes "package main\n"))
                (detect_language (codes "package main\n"))))
detect_language-Decided_example = detect_language-Decided (codes "package main\n")

detect_language-languages_example :
    (l : LanguageOption) × Memᴰ l languages × (l.id ≡ detect_language (codes "package main\n"))
detect_language-languages_example = detect_language-languages (codes "package main\n")

abbrev open_picker : Picker
open_picker = record { value = auto; is_open = true }

abbrev named : Text → Text
named id = id

abbrev log : LanguageOption
log = record { id = codes "log"; label = codes "Log"; aliases = some (codes "logs syslog output") }

abbrev log_item : Item
log_item = language_item named (codes "Auto") plain auto log

log-Memᴰ : Memᴰ log_item (items named (codes "Auto") plain auto)
unfolding items languages catalogue
log-Memᴰ = Memᴰ.tail (Memᴰ.tail (Memᴰ.head refl))

-- Log is chosen where nothing was; the other item that is looked at is the first.
abbrev first_item : Item
first_item = auto_item named (codes "Auto") plain (codes "log")

first-Memᴰ : Memᴰ first_item (items named (codes "Auto") plain (codes "log"))
unfolding items
first-Memᴰ = Memᴰ.head refl

items-select_example :
    let after = select (codes "log") open_picker in
    (after.is_open ≡ false)
    × (picker_label named (codes "Auto") after.value plain ≡ named (codes "log"))
    × (length (filter (λ (k : Item). k.checked) (items named (codes "Auto") plain after.value)) ≡ 1)
    × ((first_item.checked ≡ true) ↔ (first_item.value ≡ codes "log"))
unfolding select language_item
items-select_example =
    items-select named (codes "Auto") plain open_picker log_item first_item log-Memᴰ first-Memᴰ
