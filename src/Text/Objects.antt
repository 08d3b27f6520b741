-- ===== src/Text/Objects.antt =====
-- Plain objects used as dictionaries: own properties by name.
use haste_server.Prelude.{Option, none, some, List, [], ◌∷◌, String, if◌then◌else◌}
use haste_server.Text.Base.{Text, codes, text_eq}

-- `object[key]` for a key that is no property of `Object.prototype`.
unfoldable pub get {ℓ} : {V : Type ℓ} → Text → List (Text × V) → Option V
get key [] = none
get key ((k, v) ∷ rest) = if text_eq k key then some v else get key rest

-- An object literal of text.
abbrev pub object : List (String × String) → List (Text × Text)
object [] = []
object ((k, v) ∷ rest) = (codes k, codes v) ∷ object rest

-- The names that every plain object inherits from `Object.prototype`.
abbrev pub inherited_names : List Text
inherited_names =
    codes "constructor"
    ∷ codes "hasOwnProperty"
    ∷ codes "isPrototypeOf"
    ∷ codes "propertyIsEnumerable"
    ∷ codes "toLocaleString"
    ∷ codes "toString"
    ∷ codes "valueOf"
    ∷ codes "__proto__"
    ∷ codes "__defineGetter__"
    ∷ codes "__defineSetter__"
    ∷ codes "__lookupGetter__"
    ∷ codes "__lookupSetter__"
    ∷ []
