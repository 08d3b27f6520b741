-- ===== src/Clipboard/Tests.antt =====
-- Copying over plain http, where only `execCommand` is there.
use haste_server.Prelude.{refl, true, [], ◌∷◌, none, some, arith}
use haste_server.Text.{codes}
use haste_server.Clipboard.{Platform, Desk, copy_text}
use haste_server.Clipboard.Laws.{Leaves, copy_text-Leaves}

abbrev insecure : Platform
insecure = record { write_text = none; copy_command = some true; api_value = λ s. s }

abbrev desk : Desk
desk = record { clipboard = codes "old"; body = record { id = 0; value = [] } ∷ []; next_id = 1 }

copy_text-Leaves_example : Leaves (codes "new") desk (copy_text insecure (codes "new") desk)
copy_text-Leaves_example = copy_text-Leaves insecure (codes "new") desk ((omega arith), tt) refl
