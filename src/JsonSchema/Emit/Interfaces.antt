-- ===== src/JsonSchema/Emit/Interfaces.antt =====
-- The lines of an interface that packages/jsonschema-to-typescript/src/generate.ts writes: the
-- comments, the properties and the index signature. Each function gives its lines where the source
-- pushes them.
-- A record with keys that are whole numbers keeps its order here.
use mathlib.Core.Option
use splunk_otel_js.Common.{
  ℕ, zero, suc, Bool, true, false, ◌&&◌, ◌||◌, Option, none, some, List, [], ◌∷◌, ◌++◌, map, Text,
  codes, ◌==◌, nat_eq, list_eq, if◌then◌else◌, ltb, leb, length, is_empty, split, trim,
}
use splunk_otel_js.Common.Json.{Json, property, as_text, as_items, as_fields, entries, size}
use splunk_otel_js.JsonSchema.Order.{has}
use splunk_otel_js.JsonSchema.Types.{
  resolve_type, additional_properties, nothing, anything, each, AdditionalProperties, texts,
}

unfoldable pub resolve : Json → Option Text
unfolding resolve_type
resolve s = resolve_type (size s) s

-- `replace(/\n+$/, '')`.
abbrev pub strip_newlines : Text → Text
strip_newlines [] = []
strip_newlines (c ∷ s) =
    let rest = strip_newlines s in if is_empty rest && c == 10 then [] else c ∷ rest

abbrev pub indent : ℕ → Text
indent zero = []
indent (suc n) = codes "  " ++ indent n

abbrev pub doc_line : Text → Text → Text
doc_line prefix line =
    if is_empty (trim line) then prefix ++ codes " *" else prefix ++ codes " * " ++ line

-- `emitJSDoc`.
unfoldable pub emit_js_doc : Option Text → ℕ → List Text
emit_js_doc none level = []
emit_js_doc (some description) level =
    let prefix = indent level in
    if is_empty description
    then []
    else (prefix ++ codes "/**") ∷ map (doc_line prefix) (split 10 (strip_newlines description))
      ++ (prefix ++ codes " */") ∷ []

-- `quotePropName`.
abbrev pub is_letter : ℕ → Bool
is_letter c = (leb b'a' c && leb c b'z') || (leb b'A' c && leb c b'Z') || c == b'_' || c == b'$'

abbrev pub all_word : Text → Bool
all_word [] = true
all_word (c ∷ s) = let rest = all_word s in (is_letter c || (leb b'0' c && leb c b'9')) && rest

abbrev pub is_identifier : Text → Bool
is_identifier [] = false
is_identifier (c ∷ s) = is_letter c && all_word s

unfoldable pub quote_prop_name : Text → Text
quote_prop_name name = if is_identifier name then name else codes "'" ++ name ++ codes "'"

-- `indexSignatureType`: `none` if a type was not resolved, `some none` for `undefined`.
unfoldable pub index_signature_type : AdditionalProperties → Bool → Option (Option Text)
unfolding resolve
index_signature_type nothing has_named = some none
index_signature_type anything has_named = some (some (codes "unknown"))
index_signature_type (each v) has_named =
    Option.map (λ t. some (if has_named then t ++ codes " | undefined" else t)) (resolve v)

abbrev pub description_of : Json → Option Text
description_of s = as_text (property (codes "description") s)

abbrev pub properties_of : Json → List (Text × Json)
properties_of s = elim (as_fields (property (codes "properties") s)) [
  | none ↦ []
  | some fs ↦ entries fs
]

abbrev pub required_of : Json → List Text
required_of s = elim (as_items (property (codes "required") s)) [ none ↦ [] | some vs ↦ texts vs ]

-- One property of an interface: its comment and its line.
unfoldable pub property_lines : Bool → Text × Json → Option (List Text)
unfolding resolve emit_js_doc quote_prop_name
property_lines required (name, def) =
    Option.map
      (λ t.
        emit_js_doc (description_of def) 1
        ++ (codes "  "
            ++ quote_prop_name name
            ++ (if required then [] else codes "?")
            ++ codes ": "
            ++ t
            ++ codes ";")
          ∷ [])
      (resolve def)

unfoldable pub append_lines : Option (List Text) → Option (List Text) → Option (List Text)
append_lines (some xs) (some ys) = some (xs ++ ys)
append_lines _ _ = none

unfoldable pub all_properties : (Text → Bool) → List (Text × Json) → Option (List Text)
unfolding property_lines
all_properties is_required [] = some []
all_properties is_required ((name, def) ∷ props) =
    append_lines (property_lines (is_required name) (name, def)) (all_properties is_required props)

abbrev pub index_lines : Option (Option Text) → Option (List Text)
index_lines none = none
index_lines (some none) = some []
index_lines (some (some t)) =
    some (if is_empty t then [] else (codes "  [key: string]: " ++ t ++ codes ";") ∷ [])

-- The lines of an interface, from whether a property is required and whether the index signature
-- counts as one beside named properties.
unfoldable pub interface_lines : Text → (Text → Bool) → Bool → Json → Option (List Text)
unfolding all_properties index_signature_type
interface_lines name is_required has_named def =
    append_lines (some ((codes "export interface " ++ name ++ codes " {") ∷ [])) (
      append_lines (all_properties is_required (properties_of def)) (
        append_lines (index_lines (index_signature_type (additional_properties def) has_named))
          (some (codes "}" ∷ []))))

abbrev pub has_named_props : Json → Bool
has_named_props def = ltb 0 (length (properties_of def))

unfoldable pub emit_object_interface : Text → Json → Option (List Text)
unfolding interface_lines
emit_object_interface name def =
    interface_lines name (λ p. has p (required_of def)) (has_named_props def) def

unfoldable pub emit_nullable_object_type : Text → Json → Option (List Text)
unfolding interface_lines
emit_nullable_object_type name def =
    interface_lines name (λ p. has p (required_of def)) (has_named_props def) def

unfoldable pub emit_discriminated_union : Text → Json → Option (List Text)
unfolding interface_lines
emit_discriminated_union name def = interface_lines name (λ p. false) true def
