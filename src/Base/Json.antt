-- ===== src/Base/Json.antt =====
-- Values of JSON as Python has them after `json.loads`. `F` stands for floats, and a number is
-- the float that `float` makes of it; the keys of an object are distinct, as those of a dict.
use shiden_api.Base.Tests.{if◌then◌else◌, ◌>>=◌}
use shiden_api.Base.Text.{Text, text_eq}
use mathlib.Core.Bool.{Bool}
use mathlib.Core.List.{List, [], ◌∷◌, map}
use mathlib.Core.Option.{Option, none, some}
use mathlib.Core.Path.{◌≡◌, refl, ap}

mutual
  pub data Json (F : Type 0) : Type 0 where
    null : Json F
    boolean : Bool → Json F
    number : F → Json F
    text : Text → Json F
    array : Items F → Json F
    object : Fields F → Json F

  pub data Items (F : Type 0) : Type 0 where
    no_items : Items F
    item : Json F → Items F → Items F

  pub data Fields (F : Type 0) : Type 0 where
    no_fields : Fields F
    field : Text → Json F → Fields F → Fields F

-- What the program uses of `json`, `datetime` and `float`. `C` stands for the content of a file and
-- `S` for a `datetime`; `none` is JSONDecodeError, or ValueError.
pub record JsonLib (C F S : Type 0) : Type 0 where
  pub dumps : Json F → C
  pub loads : C → Option (Json F)
  pub fromisoformat : Text → Option S
  pub str_of : Json F → Text
  pub float_text : Text → Option F
  pub float_boolean : Bool → F

module _ {F : Type 0} where
  -- `d.get(key)`
  abbrev pub find_field : Text → Fields F → Option (Json F)
  find_field key no_fields = none
  find_field key (field k v fs) = if text_eq k key then some v else find_field key fs

  abbrev pub items_of : Items F → List (Json F)
  items_of no_items = []
  items_of (item j js) = j ∷ items_of js

  abbrev pub keys_of : Fields F → List (Json F)
  keys_of no_fields = []
  keys_of (field k v fs) = text k ∷ keys_of fs

  -- `for x in value`; `none` is the TypeError of a value that has no iterator.
  abbrev pub iterate : Json F → Option (List (Json F))
  iterate (array js) = some (items_of js)
  iterate (object fs) = some (keys_of fs)
  iterate (text s) = some (map (λ c. text (c ∷ [])) s)
  iterate _ = none

  abbrev pub items_from : List (Json F) → Items F
  items_from [] = no_items
  items_from (j ∷ js) = item j (items_from js)

  pub items_of-items_from : (js : List (Json F)) → items_of (items_from js) ≡ js
  items_of-items_from [] = refl
  items_of-items_from (j ∷ js) = ap (◌∷◌ j) (items_of-items_from js)

module _ {C F S : Type 0} (lib : JsonLib C F S) where
  -- `datetime.fromisoformat(v)`: a TypeError unless `v` is a string.
  abbrev pub datetime_of : Json F → Option S
  datetime_of (text s) = lib.fromisoformat s
  datetime_of _ = none

  -- `float(v) if v is not None else None`, of what `get` returned.
  abbrev pub nullable_float : Option (Json F) → Option (Option F)
  nullable_float none = some none
  nullable_float (some null) = some none
  nullable_float (some (number x)) = some (some x)
  nullable_float (some (boolean b)) = some (some (lib.float_boolean b))
  nullable_float (some (text s)) = do x ← lib.float_text s; some (some x)
  nullable_float (some _) = none
