-- ===== src/JsonSchema/Tests.antt =====
-- The generator of types at concrete inputs.
use splunk_otel_js.Common.{
  some, List, [], ◌∷◌, ◌++◌, Text, codes, ◌≡◌, refl, nat_eq, list_eq, String, arith, length,
  starts_with,
}
use splunk_otel_js.Common.Json.{
  Json, text, array, object, nil, cons, Fields, end, field, size, property, find_field,
}
use splunk_otel_js.JsonSchema.Order.{
  topological_sort, visit_all, visit, visit_refs, refs_of, collect_refs, ref_name, remove_first,
  has, is_defined,
}
use splunk_otel_js.JsonSchema.Order.Graph.{IsDistinct, IsOrdered}
use splunk_otel_js.JsonSchema.Types.{resolve_type}
use splunk_otel_js.JsonSchema.Types.Laws.{resolve_type-nullable}
use splunk_otel_js.JsonSchema.Emit.{
  generate_types, definitions_of, GeneratorStats, emit_definitions, oldest_first, banner, title_of,
}
use splunk_otel_js.JsonSchema.Emit.Interfaces.{emit_object_interface, emit_js_doc}
use splunk_otel_js.JsonSchema.Emit.Laws.{generate_types-IsOrdered}

abbrev word : String → Json
word s = text (codes s)

abbrev pair : String → Json → Fields → Fields
pair k v fs = field (codes k) v fs

-- A property that is a number or null.
abbrev ratio : Json
ratio = object (
    pair "type" (array (cons (word "number") (cons (word "null") nil)))
      (pair "description" (word "The ratio.") end))

-- Two definitions, the first of which refers to the second.
abbrev schema : Json
schema = object (
    pair "title" (word "A schema") (
      pair "properties"
        (object (pair "sampler" (object (pair "$ref" (word "#/$defs/Sampler") end)) end))
        (pair "$defs"
          (object (
            pair "Sampler"
              (object (
                pair "type" (word "object") (
                  pair "properties"
                    (object (
                      pair "ratio" ratio
                        (pair "mode" (object (pair "$ref" (word "#/$defs/Mode") end)) end)))
                    (pair "required" (array (cons (word "ratio") nil)) end))))
              (pair "Mode"
                (object (
                  pair "type" (word "string")
                    (pair "enum" (array (cons (word "on") (cons (word "off") nil))) end)))
                end)))
          end)))

resolve_type-nullable_example : (t : Text) × (resolve_type 10 ratio ≡ some (t ++ codes " | null"))
unfolding size property find_field
resolve_type-nullable_example =
    resolve_type-nullable 10 ratio (codes "number" ∷ codes "null" ∷ []) (omega arith) refl refl refl
      refl

generate_types-IsOrdered_example :
    let ds = definitions_of schema in
    (g : GeneratorStats) × (sorted : List Text) × (body : List Text) × (last : List Text)
    × (generate_types schema ≡ some g)
    × (emit_definitions ds (oldest_first sorted []) ≡ some body)
    × (emit_object_interface (codes "OpenTelemetryConfiguration") schema ≡ some last)
    × (g.lines ≡ banner ++ (body ++ (emit_js_doc (title_of schema) 0 ++ (last ++ [] ∷ []))))
    × (g.def_count ≡ length sorted)
    × IsDistinct sorted
    × ((n : Text) → has n sorted ≡ is_defined ds n)
    × IsOrdered ds sorted
generate_types-IsOrdered_example = generate_types-IsOrdered schema

topological_sort-schema :
    topological_sort (definitions_of schema) ≡ some (codes "Sampler" ∷ codes "Mode" ∷ [])
unfolding property topological_sort visit_all visit visit_refs refs_of collect_refs ref_name
    remove_first starts_with
topological_sort-schema = refl
