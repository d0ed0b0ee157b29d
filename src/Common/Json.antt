-- ===== src/Common/Json.antt =====
-- The values of JSON, as the source holds a parsed document, and the reading of their properties.
-- A number is a whole number here.
use Prim.Native.Nat.{ℕ, suc, ◌+◌}
use mathlib.Core.Bool.{Bool, true, false, not}
use mathlib.Core.List.{List, [], ◌∷◌}
use mathlib.Core.Option.{Option, none, some}
use splunk_otel_js.Common.Tests.{if◌then◌else◌, ◌==◌}
use splunk_otel_js.Common.Equality.{◌===◌, nat_eq, list_eq}
use splunk_otel_js.Common.Texts.{Text, is_empty}
use splunk_otel_js.Common.Int.{ℤ, pos, negsuc}

mutual
  pub data Json : Type 0 where
    null : Json
    boolean : Bool → Json
    number : ℤ → Json
    text : Text → Json
    array : Items → Json
    object : Fields → Json

  pub data Items : Type 0 where
    nil : Items
    cons : Json → Items → Items

  pub data Fields : Type 0 where
    end : Fields
    field : Text → Json → Fields → Fields

unfoldable pub find_field : Text → Fields → Option Json
find_field k end = none
find_field k (field j v fs) = let rest = find_field k fs in if j === k then some v else rest

-- `value.key` of an object; of anything else, and for a key that is not there, it is `undefined`.
unfoldable pub property : Text → Json → Option Json
unfolding find_field
property k (object fs) = find_field k fs
property k _ = none

-- `value?.key`.
abbrev pub property? : Text → Option Json → Option Json
property? k none = none
property? k (some v) = property k v

abbrev pub to_list : Items → List Json
to_list nil = []
to_list (cons v vs) = v ∷ to_list vs

-- `Object.entries`.
abbrev pub entries : Fields → List (Text × Json)
entries end = []
entries (field k v fs) = (k, v) ∷ entries fs

-- Whether a value counts as true.
abbrev pub truthy : Option Json → Bool
truthy none = false
truthy (some null) = false
truthy (some (boolean b)) = b
truthy (some (number (pos n))) = not (n == 0)
truthy (some (number (negsuc n))) = true
truthy (some (text t)) = not (is_empty t)
truthy (some (array _)) = true
truthy (some (object _)) = true

-- `typeof value === 'string'`, `Array.isArray(value)`, a record, and a number.
abbrev pub as_text : Option Json → Option Text
as_text (some (text t)) = some t
as_text _ = none

abbrev pub as_items : Option Json → Option (List Json)
as_items (some (array vs)) = some (to_list vs)
as_items _ = none

abbrev pub as_fields : Option Json → Option Fields
as_fields (some (object fs)) = some fs
as_fields _ = none

-- The number of values in a value, itself included.
unfoldable mutual
  pub size : Json → ℕ
  size (array vs) = suc (items_size vs)
  size (object fs) = suc (fields_size fs)
  size _ = 1

  pub items_size : Items → ℕ
  items_size nil = 0
  items_size (cons v vs) = size v + items_size vs

  pub fields_size : Fields → ℕ
  fields_size end = 0
  fields_size (field k v fs) = size v + fields_size fs
