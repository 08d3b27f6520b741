-- ===== src/Storage/Api.antt =====
-- `localStorage`, which the browser implements: reading and writing may throw.
use haste_server.Prelude.{◌≡◌, refl, false, inl, inr, Option, none, some, Option-cases}
use haste_server.Text.{Text, text_eq}

-- `none` stands for a call that throws; `some none` for `getItem` returning null.
pub record StorageApi : Type 1 where
  pub Store : Type 0
  pub get_item : Store → Text → Option (Option Text)
  pub set_item : Store → Text → Text → Option Store
  -- An item that was written without a throw is read back.
  pub get_item-set_item :
      (store : Store) (key value : Text) {store' : Store}
      → set_item store key value ≡ some store'
      → get_item store' key ≡ some (some value)
  -- An item under another key reads as before.
  pub get_item-set_item_other :
      (store : Store) (key value other : Text) {store' : Store}
      → set_item store key value ≡ some store'
      → text_eq key other ≡ false
      → get_item store' other ≡ get_item store other

-- `try { localStorage.setItem(…) } catch {}`: a write that throws leaves the store as it was.
abbrev pub try_set : (api : StorageApi) → api.Store → Text → Text → api.Store
try_set api store key value = elim (api.set_item store key value) [ none ↦ store | some s ↦ s ]

-- Whether a write throws or not, what stands under another key is not touched.
pub get_item-try_set :
    (api : StorageApi) (store : api.Store) (key value other : Text)
    → text_eq key other ≡ false
    → api.get_item (try_set api store key value) other ≡ api.get_item store other
get_item-try_set api store key value other differs =
    elim (Option-cases (api.set_item store key value)) [
      | inl throws ↦ rw (try_set, throws) refl
      | inr (s, written) ↦
          rw (try_set, written) (api.get_item-set_item_other store key value other written differs)
    ]
