-- ===== src/Storage/Memory.antt =====
-- A store in memory, which has the law of the interface.
use mathlib.Core.Option
use mathlib.Core.Path.{subst}
use haste_server.Prelude.{◌≡◌, refl, false, Option, some, List, ◌∷◌}
use haste_server.Text.{Text, text_eq, text_eq_refl}
use haste_server.Text.Objects.{get}
use haste_server.Storage.Api.{StorageApi}

abbrev pub write : List (Text × Text) → Text → Text → Option (List (Text × Text))
write store key value = some ((key, value) ∷ store)

abbrev pub read : List (Text × Text) → Text → Option (Option Text)
read store key = some (get key store)

pub read-write :
    (store : List (Text × Text)) (key value : Text) {store' : List (Text × Text)}
    → write store key value ≡ some store'
    → read store' key ≡ some (some value)
unfolding get
read-write store key value {store'} h =
    subst (λ s. read s key ≡ some (some value)) (Option.some-injective _ _ h)
      (found store key value)
  where
    found :
        (store : List (Text × Text)) (key value : Text)
        → read ((key, value) ∷ store) key ≡ some (some value)
    found store key value = rw (get, text_eq_refl) refl

pub read-write_other :
    (store : List (Text × Text)) (key value other : Text) {store' : List (Text × Text)}
    → write store key value ≡ some store'
    → text_eq key other ≡ false
    → read store' other ≡ read store other
unfolding get
read-write_other store key value other {store'} h differs =
    subst (λ s. read s other ≡ read store other) (Option.some-injective _ _ h)
      (rw (get, differs) refl)

abbrev pub memory : StorageApi
memory = record {
  Store = List (Text × Text);
  get_item = read;
  set_item = write;
  get_item-set_item = read-write;
  get_item-set_item_other = read-write_other;
}
