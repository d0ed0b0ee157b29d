-- ===== src/JsonSchema/Types.antt =====
-- The types that packages/jsonschema-to-typescript/src/generate.ts gives to schemas: resolveType and
-- the functions below it.
-- A schema is a JSON value of the type `Schema`; a property of another type counts as missing.
pub mod Classify
pub mod Laws
use mathlib.Core.Option
use splunk_otel_js.Common.{
  ℕ, zero, suc, Bool, true, false, not, ◌&&◌, ◌||◌, Option, none, some, List, [], ◌∷◌, ◌++◌, map,
  Text, codes, ◌===◌, ◌==◌, nat_eq, list_eq, if◌then◌else◌, is_some, ltb, leb, length, is_empty,
  join, is_positive, ℤ, pos, option_eq,
}
use splunk_otel_js.Common.Json.{
  Json, null, boolean, number, text, array, object, Fields, end, field, property, truthy, as_text,
  as_items, as_fields, entries, size,
}
use splunk_otel_js.JsonSchema.Order.{has, ref_name}

-- `type`, and `additionalProperties`.
pub data TypeField : Type 0 where
  untyped : TypeField
  one : Text → TypeField
  many : List Text → TypeField

pub data AdditionalProperties : Type 0 where
  nothing anything : AdditionalProperties
  each : Json → AdditionalProperties

abbrev pub texts : List Json → List Text
texts [] = []
texts (text t ∷ vs) = t ∷ texts vs
texts (_ ∷ vs) = texts vs

abbrev pub type_of : Json → TypeField
type_of s = elim (property (codes "type") s) [
  | some (text t) ↦ one t
  | some (array vs) ↦ (elim (as_items (some (array vs))) [
    | none ↦ untyped
    | some xs ↦ many (texts xs)
  ])
  | _ ↦ untyped
]

abbrev pub additional : Option Json → AdditionalProperties
additional (some (boolean true)) = anything
additional (some (object fs)) = each (object fs)
additional _ = nothing

abbrev pub additional_properties : Json → AdditionalProperties
additional_properties s = additional (property (codes "additionalProperties") s)

abbrev pub has_properties : Json → Bool
has_properties s = truthy (property (codes "properties") s)

-- The members of `enum`, if there is one.
abbrev pub enum_of : Json → Option (List Text)
enum_of s = elim (as_items (property (codes "enum") s)) [ none ↦ none | some vs ↦ some (texts vs) ]

-- `$ref`, if it is not empty.
abbrev pub ref_of : Json → Option Text
ref_of s = elim (as_text (property (codes "$ref") s)) [
  | none ↦ none
  | some r ↦ if is_empty r then none else some r
]

unfoldable pub map_primitive : Text → Text
map_primitive t =
    if t === codes "string"
    then codes "string"
    else if t === codes "integer" || t === codes "number"
    then codes "number"
    else if t === codes "boolean"
    then codes "boolean"
    else if t === codes "null"
    then codes "null"
    else if t === codes "object"
    then codes "object"
    else codes "unknown"

abbrev pub or_null : Bool → Text → Text
or_null nullable t = if nullable then t ++ codes " | null" else t

-- Whether `null` is among the types.
abbrev pub is_nullable : TypeField → Bool
is_nullable (many ts) = has (codes "null") ts
is_nullable _ = false

unfoldable pub wrap_nullable : Text → TypeField → Text
wrap_nullable t type = if is_nullable type then codes "(" ++ t ++ codes ") | null" else t

abbrev pub quoted : Text → Text
quoted v = codes "'" ++ v ++ codes "'"

abbrev pub members : List Text → Text
members vs = join (codes " | ") (map quoted vs)

abbrev pub without_null : List Text → List Text
without_null [] = []
without_null (t ∷ ts) = let rest = without_null ts in if t === codes "null" then rest else t ∷ rest

abbrev pub base_type : List Text → Text
unfolding map_primitive
base_type (t ∷ []) = map_primitive t
base_type _ = codes "unknown"

abbrev pub starts_object : List Text → Bool
starts_object [] = false
starts_object (t ∷ ts) = t === codes "object"

abbrev pub record_of : Text → Text
record_of t = codes "Record<string, " ++ t ++ codes ">"

-- What `resolveType` makes of a schema: a text, or one around the type of a schema within.
pub data Shape : Type 0 where
  plain : Text → Shape
  around : Json → (Text → Text) → Shape

abbrev pub map_shape : (Text → Text) → Text → AdditionalProperties → Shape
map_shape wrap unwrapped nothing = plain (wrap unwrapped)
map_shape wrap unwrapped anything = plain (wrap (codes "Record<string, unknown>"))
map_shape wrap unwrapped (each v) = around v (λ t. wrap (record_of t))

abbrev pub shape_of_many : List Text → Json → Shape
unfolding map_primitive
shape_of_many ts s =
    let null? = has (codes "null") ts in
    let others = without_null ts in
    if starts_object others && not (has_properties s)
    then map_shape (or_null null?) (codes "object") (additional_properties s)
    else plain (or_null null? (base_type others))

abbrev pub has_min_items : Json → Bool
has_min_items s = elim (property (codes "minItems") s) [
  | some (number n) ↦ is_positive n
  | _ ↦ false
]

abbrev pub array_of : Bool → Text → Text
array_of non_empty t =
    if non_empty then codes "[" ++ t ++ codes ", ..." ++ t ++ codes "[]]" else t ++ codes "[]"

abbrev pub item_shape : Bool → Option Json → Shape
item_shape non_empty (some (object fs)) = around (object fs) (array_of non_empty)
item_shape non_empty _ = plain (array_of non_empty (codes "unknown"))

abbrev pub shape_of_array : Json → Shape
shape_of_array s = item_shape (has_min_items s) (property (codes "items") s)

abbrev pub shape_of_object : Json → Shape
shape_of_object s =
    if has_properties s
    then plain (codes "object")
    else map_shape (λ t. t) (codes "object") (additional_properties s)

abbrev pub shape_of_one : Text → Json → Shape
unfolding map_primitive
shape_of_one t s =
    if t === codes "array"
    then shape_of_array s
    else if t === codes "object"
    then shape_of_object s
    else plain (map_primitive t)

abbrev pub shape_of_type : TypeField → Json → Shape
shape_of_type untyped s = plain (codes "unknown")
shape_of_type (one t) s = shape_of_one t s
shape_of_type (many ts) s = shape_of_many ts s

abbrev pub shape_from : Option Text → Option (List Text) → Json → Shape
unfolding ref_name wrap_nullable
shape_from (some r) vs s = plain (ref_name r)
shape_from none (some vs) s = plain (wrap_nullable (members vs) (type_of s))
shape_from none none s = shape_of_type (type_of s) s

unfoldable pub shape_of : Json → Shape
shape_of s = shape_from (ref_of s) (enum_of s) s

abbrev pub finish : (Json → Option Text) → Shape → Option Text
finish resolve (plain t) = some t
finish resolve (around v wrap) = Option.map wrap (resolve v)

-- `resolveType`; `none` stands for a recursion deeper than the fuel.
unfoldable pub resolve_type : ℕ → Json → Option Text
unfolding shape_of
resolve_type zero s = none
resolve_type (suc fuel) s = finish (resolve_type fuel) (shape_of s)
