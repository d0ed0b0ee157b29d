-- ===== src/JsonSchema/Emit/Laws.antt =====
-- The whole of generateTypes of packages/jsonschema-to-typescript/src/generate.ts.
use mathlib.Core.Option
use splunk_otel_js.Common.{
  Bool, true, false, Option, none, some, List, [], ◌∷◌, ◌++◌, Text, codes, ◌≡◌, refl, ap, arith,
  find, length, nat_eq, list_eq,
}
use splunk_otel_js.Common.Json.{Json, size}
use splunk_otel_js.JsonSchema.Order.{has, Definitions, topological_sort, is_defined}
use splunk_otel_js.JsonSchema.Order.Graph.{IsDistinct, IsOrdered}
use splunk_otel_js.JsonSchema.Order.Sorting.{topological_sort-IsOrdered}
use splunk_otel_js.JsonSchema.Types.{
  nothing, anything, each, AdditionalProperties, additional_properties,
}
use splunk_otel_js.JsonSchema.Types.Classify.{
  Kind, enum, marker, discriminated_union, open_map, nullable_object, object_kind, string_alias,
  unknown, classify_def,
}
use splunk_otel_js.JsonSchema.Types.Laws.{resolve_type-returns}
use splunk_otel_js.JsonSchema.Emit.{
  emit_open_map, map_value, emit_kind, emit_definition, emit_definitions, all_lines, oldest_first,
  generate_types, GeneratorStats, definitions_of, title_of, banner,
}
use splunk_otel_js.JsonSchema.Emit.Interfaces.{
  resolve, append_lines, property_lines, all_properties, index_signature_type, index_lines,
  interface_lines, has_named_props, required_of, properties_of, emit_object_interface,
  emit_nullable_object_type, emit_discriminated_union, emit_js_doc,
}

-- A result that is there.
abbrev Returns {ℓ} : {A : Type ℓ} → Option A → Type ℓ
Returns {A = A} o = (a : A) × (o ≡ some a)

map-Returns {ℓ κ} :
    {A : Type ℓ} {B : Type κ} (f : A → B) (o : Option A) → Returns o → Returns (Option.map f o)
map-Returns f o (a, e) = (f a, ap (Option.map f) e)

append_lines-Returns :
    (x y : Option (List Text)) → Returns x → Returns y → Returns (append_lines x y)
unfolding append_lines
append_lines-Returns x y (a, p) (b, q) = (a ++ b, rw (p, q) refl)

resolve-Returns : (s : Json) → Returns (resolve s)
unfolding resolve
resolve-Returns s = resolve_type-returns (size s) s (omega arith)

index_lines-Returns : (o : Option (Option Text)) → Returns o → Returns (index_lines o)
index_lines-Returns none (a, h) = cc h
index_lines-Returns (some none) h = ([], refl)
index_lines-Returns (some (some t)) h = (_, refl)

index_signature_type-Returns :
    (a : AdditionalProperties) (b : Bool) → Returns (index_signature_type a b)
unfolding index_signature_type
index_signature_type-Returns nothing b = (none, refl)
index_signature_type-Returns anything b = (some (codes "unknown"), refl)
index_signature_type-Returns (each v) b = map-Returns _ (resolve v) (resolve-Returns v)

all_properties-Returns : (r : Text → Bool) (ps : List (Text × Json)) → Returns (all_properties r ps)
unfolding all_properties property_lines
all_properties-Returns r [] = ([], refl)
all_properties-Returns r ((n, d) ∷ ps) =
    append_lines-Returns _ _ (map-Returns _ (resolve d) (resolve-Returns d))
      (all_properties-Returns r ps)

interface_lines-Returns :
    (name : Text) (r : Text → Bool) (b : Bool) (def : Json) → Returns (interface_lines name r b def)
unfolding interface_lines
interface_lines-Returns name r b def =
    append_lines-Returns _ _ (_, refl)
      (append_lines-Returns _ _ (all_properties-Returns r (properties_of def)) (
        append_lines-Returns _ _
          (index_lines-Returns _ (index_signature_type-Returns (additional_properties def) b))
          (_, refl)))

map_value-Returns : (a : AdditionalProperties) → Returns (map_value a)
unfolding map_value
map_value-Returns nothing = (_, refl)
map_value-Returns anything = (_, refl)
map_value-Returns (each v) = resolve-Returns v

emit_kind-Returns : (k : Kind) (name : Text) (def : Json) → Returns (emit_kind k name def)
unfolding emit_kind emit_discriminated_union emit_nullable_object_type emit_object_interface
    emit_open_map
emit_kind-Returns enum name def = (_, refl)
emit_kind-Returns marker name def = (_, refl)
emit_kind-Returns discriminated_union name def = interface_lines-Returns name (λ p. false) true def
emit_kind-Returns nullable_object name def =
    interface_lines-Returns name (λ p. has p (required_of def)) (has_named_props def) def
emit_kind-Returns object_kind name def =
    interface_lines-Returns name (λ p. has p (required_of def)) (has_named_props def) def
emit_kind-Returns open_map name def =
    map-Returns _ _ (map_value-Returns (additional_properties def))
emit_kind-Returns string_alias name def = (_, refl)
emit_kind-Returns unknown name def = (_, refl)

emit_definition-Returns : (name : Text) (def : Json) → Returns (emit_definition name def)
unfolding emit_definition
emit_definition-Returns name def =
    append_lines-Returns _ _ (_, refl)
      (append_lines-Returns _ _ (emit_kind-Returns (classify_def def) name def) (_, refl))

-- What one name contributes.
emit_found-Returns :
    (name : Text) (o : Option Json)
    → Returns (elim o as (λ _. Option (List Text)) [
      | none ↦ some []
      | some def ↦ emit_definition name def
    ])
emit_found-Returns name none = ([], refl)
emit_found-Returns name (some def) = emit_definition-Returns name def

emit_definitions-Returns :
    (ds : Definitions) (names : List Text) → Returns (emit_definitions ds names)
unfolding emit_definitions
emit_definitions-Returns ds [] = ([], refl)
emit_definitions-Returns ds (name ∷ names) =
    append_lines-Returns _ _ (emit_found-Returns name (find name ds))
      (emit_definitions-Returns ds names)

top-Returns :
    (schema : Json) → Returns (emit_object_interface (codes "OpenTelemetryConfiguration") schema)
unfolding emit_object_interface
top-Returns schema =
    interface_lines-Returns (codes "OpenTelemetryConfiguration") (λ p. has p (required_of schema))
      (has_named_props schema) schema

all_lines-parts :
    (schema : Json) (names body last : List Text)
    → emit_definitions (definitions_of schema) names ≡ some body
    → emit_object_interface (codes "OpenTelemetryConfiguration") schema ≡ some last
    → all_lines schema names
      ≡ some (banner ++ (body ++ (emit_js_doc (title_of schema) 0 ++ (last ++ [] ∷ []))))
unfolding all_lines append_lines
all_lines-parts schema names body last b l = rw (b, l) refl

generate_types-parts :
    (schema : Json) (sorted ls : List Text)
    → topological_sort (definitions_of schema) ≡ some sorted
    → all_lines schema (oldest_first sorted []) ≡ some ls
    → generate_types schema ≡ some (record { lines = ls; def_count = length sorted })
unfolding generate_types
generate_types-parts schema sorted ls e a = ground (arith, e, a)

-- The generator returns for any schema, and it writes the definitions in an order in which each
-- stands once, and what a definition refers to stands before it unless that leads back to it.
pub generate_types-IsOrdered :
    (schema : Json)
    → let ds = definitions_of schema in
      (g : GeneratorStats) × (sorted : List Text) × (body : List Text) × (last : List Text)
      × (generate_types schema ≡ some g)
      × (emit_definitions ds (oldest_first sorted []) ≡ some body)
      × (emit_object_interface (codes "OpenTelemetryConfiguration") schema ≡ some last)
      × (g.lines ≡ banner ++ (body ++ (emit_js_doc (title_of schema) 0 ++ (last ++ [] ∷ []))))
      × (g.def_count ≡ length sorted)
      × IsDistinct sorted
      × ((n : Text) → has n sorted ≡ is_defined ds n)
      × IsOrdered ds sorted
generate_types-IsOrdered schema =
    let ds = definitions_of schema in
    let (sorted, e, distinct, defined, ordered) = topological_sort-IsOrdered ds in
    let (body, b) = emit_definitions-Returns ds (oldest_first sorted []) in
    let (last, l) = top-Returns schema in
    let lines = banner ++ (body ++ (emit_js_doc (title_of schema) 0 ++ (last ++ [] ∷ []))) in
    (
      record { lines = lines; def_count = length sorted },
      sorted,
      body,
      last,
      generate_types-parts schema sorted lines e
          (all_lines-parts schema (oldest_first sorted []) body last b l),
      b,
      l,
      refl,
      refl,
      distinct,
      defined,
      ordered,
    )
