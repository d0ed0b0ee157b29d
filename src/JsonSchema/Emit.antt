-- ===== src/JsonSchema/Emit.antt =====
-- The lines that packages/jsonschema-to-typescript/src/generate.ts writes: the functions that emit a
-- definition, and generateTypes. Each gives its lines where the source pushes them.
pub mod Interfaces
pub mod Laws
use mathlib.Core.Option
use splunk_otel_js.Common.{
  ℕ, zero, suc, ◌+◌, Bool, true, false, not, ◌&&◌, ◌||◌, Option, none, some, List, [], ◌∷◌, ◌++◌,
  map, Text, codes, ◌===◌, ◌==◌, nat_eq, list_eq, if◌then◌else◌, is_some, ltb, leb, length,
  is_empty, join, split, trim, find, or_else,
}
use splunk_otel_js.Common.Json.{
  Json, null, boolean, number, text, array, object, Fields, end, field, property, truthy, as_text,
  as_items, as_fields, entries, size,
}
use splunk_otel_js.JsonSchema.Order.{has, Definitions, topological_sort}
use splunk_otel_js.JsonSchema.Types.{
  resolve_type, members, or_null, enum_of, is_nullable, type_of, additional_properties, nothing,
  anything, each, AdditionalProperties, record_of, texts,
}
use splunk_otel_js.JsonSchema.Types.Classify.{
  Kind, enum, marker, discriminated_union, open_map, nullable_object, object_kind, string_alias,
  unknown, classify_def, many_has,
}
use splunk_otel_js.JsonSchema.Emit.Interfaces.{
  resolve, strip_newlines, indent, doc_line, emit_js_doc, is_letter, all_word, is_identifier,
  quote_prop_name, index_signature_type, description_of, properties_of, required_of, property_lines,
  append_lines, all_properties, index_lines, interface_lines, has_named_props,
  emit_object_interface, emit_nullable_object_type, emit_discriminated_union,
}

abbrev pub export_type : Text → Text → List Text
export_type name t = (codes "export type " ++ name ++ codes " = " ++ t ++ codes ";") ∷ []

unfoldable pub emit_enum_type : Text → Json → List Text
emit_enum_type name def =
    let choices = members (or_else (enum_of def) []) in
    export_type name
      (if is_nullable (type_of def) then codes "(" ++ choices ++ codes ") | null" else choices)

unfoldable pub emit_marker_type : Text → List Text
emit_marker_type name = export_type name (codes "Record<string, never> | null")

abbrev pub map_value : AdditionalProperties → Option Text
unfolding resolve
map_value nothing = some (codes "unknown")
map_value anything = some (codes "unknown")
map_value (each v) = resolve v

unfoldable pub emit_open_map : Text → Json → Option (List Text)
unfolding map_value
emit_open_map name def =
    Option.map (λ t. export_type name (record_of t)) (map_value (additional_properties def))

-- The `switch` of the loop over the definitions.
unfoldable pub emit_kind : Kind → Text → Json → Option (List Text)
unfolding emit_enum_type emit_marker_type emit_discriminated_union emit_nullable_object_type
    emit_object_interface emit_open_map
emit_kind enum name def = some (emit_enum_type name def)
emit_kind marker name def = some (emit_marker_type name)
emit_kind discriminated_union name def = emit_discriminated_union name def
emit_kind nullable_object name def = emit_nullable_object_type name def
emit_kind object_kind name def = emit_object_interface name def
emit_kind open_map name def = emit_open_map name def
emit_kind string_alias name def =
    some (export_type name (or_null (many_has (codes "null") def) (codes "string")))
emit_kind unknown name def = some (
    (codes "// WARNING: Could not classify $def '" ++ name ++ codes "'")
    ∷ export_type name (codes "unknown"))

-- One turn of that loop.
unfoldable pub emit_definition : Text → Json → Option (List Text)
unfolding emit_kind classify_def emit_js_doc
emit_definition name def =
    append_lines (some (emit_js_doc (description_of def) 0))
      (append_lines (emit_kind (classify_def def) name def) (some ([] ∷ [])))

unfoldable pub emit_definitions : Definitions → List Text → Option (List Text)
unfolding emit_definition
emit_definitions definitions [] = some []
emit_definitions definitions (name ∷ names) =
    append_lines
      (elim (find name definitions) [ none ↦ some [] | some def ↦ emit_definition name def ])
      (emit_definitions definitions names)

abbrev pub definitions_of : Json → Definitions
definitions_of schema = elim (as_fields (property (codes "$defs") schema)) [
  | none ↦ []
  | some fs ↦ entries fs
]

abbrev pub banner : List Text
banner =
    codes "/* This file is auto-generated by packages/generate-config-types.ts. Do not edit. */"
    ∷ []
    ∷ []

abbrev pub title_of : Json → Option Text
title_of schema = elim (description_of schema) [
  | some t ↦ some t
  | none ↦ as_text (property (codes "title") schema)
]

-- `GeneratorStats`, with the lines that `output` joins.
pub record GeneratorStats : Type 0 where
  pub lines : List Text
  pub def_count : ℕ

abbrev pub output : GeneratorStats → Text
output g = join (10 ∷ []) g.lines

-- `generateTypes`, for the order of the definitions.
abbrev pub all_lines : Json → List Text → Option (List Text)
unfolding emit_definitions emit_object_interface emit_js_doc
all_lines schema sorted = append_lines (some banner) (
    append_lines (emit_definitions (definitions_of schema) sorted) (
      append_lines (some (emit_js_doc (title_of schema) 0)) (
        append_lines (emit_object_interface (codes "OpenTelemetryConfiguration") schema)
          (some ([] ∷ [])))))

-- The names are taken in the order in which they were pushed.
abbrev pub oldest_first : List Text → List Text → List Text
oldest_first [] done = done
oldest_first (x ∷ xs) done = oldest_first xs (x ∷ done)

unfoldable pub generate_types : Json → Option GeneratorStats
unfolding topological_sort all_lines
generate_types schema = elim (topological_sort (definitions_of schema)) [
  | none ↦ none
  | some sorted ↦
      Option.map (λ ls. record { lines = ls; def_count = length sorted })
        (all_lines schema (oldest_first sorted []))
]
