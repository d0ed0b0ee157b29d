-- ===== src/JsonSchema/Types/Classify.antt =====
-- classifyDef of packages/jsonschema-to-typescript/src/generate.ts: which kind of type a definition
-- becomes.
use splunk_otel_js.Common.{
  ℕ, Bool, true, false, not, ◌&&◌, ◌||◌, Option, none, some, Text, codes, ◌===◌, ◌==◌, nat_eq,
  list_eq, if◌then◌else◌, is_some, ltb, length, pos, option_eq,
}
use splunk_otel_js.Common.Json.{Json, boolean, number, property, truthy, as_fields, entries}
use splunk_otel_js.JsonSchema.Order.{has}
use splunk_otel_js.JsonSchema.Types.{type_of, has_properties, enum_of, one, many}

-- `isDiscriminatedUnion`, `isMarkerType` and `isNullableObjectWithProps`.
abbrev pub is_one : Option Json → Bool
is_one (some (number (pos n))) = n == 1
is_one _ = false

abbrev pub property_count : Json → ℕ
property_count s = elim (as_fields (property (codes "properties") s)) [
  | none ↦ 0
  | some fs ↦ length (entries fs)
]

abbrev pub is_discriminated_union : Json → Bool
is_discriminated_union s =
    is_one (property (codes "minProperties") s)
    && is_one (property (codes "maxProperties") s)
    && ltb 1 (property_count s)

abbrev pub many_has : Text → Json → Bool
many_has t s = elim (type_of s) [ many ts ↦ has t ts | _ ↦ false ]

abbrev pub is_nullable_object : Json → Bool
is_nullable_object s = many_has (codes "object") s && many_has (codes "null") s

abbrev pub is_false : Option Json → Bool
is_false (some (boolean false)) = true
is_false _ = false

abbrev pub is_marker_type : Json → Bool
is_marker_type s =
    is_nullable_object s
    && not (has_properties s)
    && not (is_some (enum_of s))
    && is_false (property (codes "additionalProperties") s)

-- What `classifyDef` returns.
pub data Kind : Type 0 where
  enum marker discriminated_union open_map nullable_object object_kind string_alias unknown : Kind

abbrev pub is_type : Text → Json → Bool
is_type t s = elim (type_of s) [ one u ↦ u === t | _ ↦ false ]

abbrev pub is_open : Json → Bool
is_open s = truthy (property (codes "additionalProperties") s) && not (has_properties s)

abbrev pub is_object_type : Json → Bool
is_object_type s = is_type (codes "object") s || many_has (codes "object") s

unfoldable pub classify_def : Json → Kind
classify_def s =
    if is_some (enum_of s)
    then enum
    else if is_marker_type s
    then marker
    else if is_discriminated_union s
    then discriminated_union
    else if is_object_type s && is_open s
    then open_map
    else if is_nullable_object s && has_properties s
    then nullable_object
    else if is_object_type s
    then object_kind
    else if many_has (codes "string") s
    then string_alias
    else unknown
