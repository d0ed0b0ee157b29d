-- ===== src/Configuration/Tracing.antt =====
-- What src/configuration.ts reads of a document for the tracing: the samplers, the propagators, the
-- list of resource attributes, the detectors and the captured parameters.
-- The values of a document have the types that the source declares for them; reading a property of
-- `null` throws.
use splunk_otel_js.Common.{
  Option, none, some, List, [], ◌∷◌, ◌++◌, map, Text, codes, String, ◌===◌, nat_eq, list_eq,
  if◌then◌else◌, is_some, trim, split, or_else,
}
use splunk_otel_js.Common.Yaml.{
  Yaml, null, text, sequence, mapping, Items, nil, cons, Fields, end, field, property,
}
use splunk_otel_js.Configuration.Env.{deduplicate}
use splunk_otel_js.Configuration.Document.{
  Checked, returned, thrown, ◌>>=◌, get_instrumentation_conf, at,
}
use splunk_otel_js.Configuration.Instrumentations.{show_all}

-- The samplers of the library, by their classes and arguments; a ratio that is not there or `null` is
-- `none`.
pub data SimpleSampler : Type 0 where
  always_on_sampler always_off_sampler : SimpleSampler
  trace_id_ratio_based_sampler : Option Yaml → SimpleSampler

pub data Sampler : Type 0 where
  simple : SimpleSampler → Sampler
  parent_based_sampler : SimpleSampler → List (Option SimpleSampler) → Sampler

-- `value.key`, which throws for `null`.
unfoldable pub read_property : String → Yaml → Checked (Option Yaml)
unfolding property
read_property k null = thrown
read_property k v = returned (property (some v) k)

abbrev pub not_null : Option Yaml → Option Yaml
not_null (some null) = none
not_null v = v

unfoldable pub ratio_based : Yaml → Checked (Option SimpleSampler)
unfolding read_property
ratio_based v =
    read_property "ratio" v >>= (λ r. returned (some (trace_id_ratio_based_sampler (not_null r))))

unfoldable pub by_ratio : Option Yaml → Checked (Option SimpleSampler)
unfolding ratio_based
by_ratio none = returned none
by_ratio (some v) = ratio_based v

-- `makeSampler` of a sampler that is neither absent nor `null`.
unfoldable pub simple_sampler : Yaml → Checked (Option SimpleSampler)
unfolding property by_ratio
simple_sampler s =
    if is_some (property (some s) "always_on")
    then returned (some always_on_sampler)
    else if is_some (property (some s) "always_off")
    then returned (some always_off_sampler)
    else by_ratio (property (some s) "trace_id_ratio_based")

unfoldable pub make_sampler : Option Yaml → Checked (Option SimpleSampler)
unfolding simple_sampler
make_sampler none = returned none
make_sampler (some null) = returned none
make_sampler (some s) = simple_sampler s

unfoldable pub make_of : String → Yaml → Checked (Option SimpleSampler)
unfolding read_property make_sampler
make_of k parent = read_property k parent >>= make_sampler

unfoldable pub make_parent_based : Yaml → Checked (Option Sampler)
unfolding make_of
make_parent_based parent = make_of "root" parent >>= (λ root.
    make_of "remote_parent_sampled" parent >>= (λ a.
      make_of "remote_parent_not_sampled" parent >>= (λ b.
        make_of "local_parent_sampled" parent >>= (λ c.
          make_of "local_parent_not_sampled" parent >>= (λ d.
            returned (
              some
                (parent_based_sampler (or_else root always_on_sampler) (a ∷ b ∷ c ∷ d ∷ []))))))))

abbrev pub as_sampler : Option SimpleSampler → Checked (Option Sampler)
as_sampler none = returned none
as_sampler (some s) = returned (some (simple s))

unfoldable pub by_parent : Option Yaml → Yaml → Checked (Option Sampler)
unfolding make_parent_based by_ratio property
by_parent (some parent) s = make_parent_based parent
by_parent none s = by_ratio (property (some s) "trace_id_ratio_based") >>= as_sampler

unfoldable pub root_sampler : Yaml → Checked (Option Sampler)
unfolding by_parent
root_sampler null = thrown
root_sampler s =
    if is_some (property (some s) "always_on")
    then returned (some (simple always_on_sampler))
    else if is_some (property (some s) "always_off")
    then returned (some (simple always_off_sampler))
    else by_parent (property (some s) "parent_based") s

unfoldable pub sampler_of : Option Yaml → Checked (Option Sampler)
unfolding root_sampler
sampler_of none = returned (some (simple always_on_sampler))
sampler_of (some s) = root_sampler s

-- `configGetSampler`.
unfoldable pub config_get_sampler : Option Yaml → Checked (Option Sampler)
unfolding sampler_of at
config_get_sampler none = returned none
config_get_sampler (some config) = sampler_of (at config "tracer_provider" "sampler")

-- `resourceFromString`: the attributes, the last of a name being the one that counts.
abbrev pub set_attribute : Text → Text → List (Text × Text) → List (Text × Text)
set_attribute k v [] = (k, v) ∷ []
set_attribute k v ((l, w) ∷ m) =
    let rest = set_attribute k v m in if k === l then (l, v) ∷ m else (l, w) ∷ rest

abbrev pub assign : List Text → List (Text × Text) → List (Text × Text)
assign (k ∷ v ∷ []) m = set_attribute k v m
assign _ m = m

abbrev pub assign_all : List Text → List (Text × Text) → List (Text × Text)
assign_all [] m = m
assign_all (s ∷ ss) m = assign_all ss (assign (split b'=' (trim s)) m)

unfoldable pub resource_from_string : Text → List (Text × Text)
resource_from_string s = assign_all (split b',' s) []

-- `configGetPropagators`.
abbrev pub field_names : Fields → List Text
field_names end = []
field_names (field k v fs) = codes k ∷ field_names fs

abbrev pub composite_names : Items → List Text
composite_names nil = []
composite_names (cons (mapping fs) vs) = field_names fs ++ composite_names vs
composite_names (cons _ vs) = composite_names vs

abbrev pub composite_of : Option Yaml → List Text
composite_of (some (sequence vs)) = composite_names vs
composite_of _ = []

abbrev pub composite_list_of : Option Yaml → Text
composite_list_of (some (text t)) = t
composite_list_of _ = []

unfoldable pub config_get_propagators : Option Yaml → Option (List Text)
unfolding deduplicate at
config_get_propagators none = none
config_get_propagators (some config) = some (
    deduplicate (
      composite_of (at config "propagator" "composite")
      ++ map trim (split b',' (composite_list_of (at config "propagator" "composite_list")))))

-- `getConfigResourceDetectors`.
abbrev pub detectors_of : Option Yaml → Option Items
unfolding property
detectors_of none = none
detectors_of (some v) = elim (property (some v) "detectors") [
  | some (sequence vs) ↦ some vs
  | _ ↦ some nil
]

unfoldable pub get_config_resource_detectors : Option Yaml → Option Items
unfolding detectors_of at
get_config_resource_detectors none = none
get_config_resource_detectors (some config) =
    detectors_of (at config "resource" "detection/development")

-- `configGetUriParameterCapture`.
unfoldable pub config_get_uri_parameter_capture : Option Yaml → List Text
unfolding get_instrumentation_conf property show_all
config_get_uri_parameter_capture none = []
config_get_uri_parameter_capture (some config) =
    elim (property (get_instrumentation_conf config "http") "capture_uri_parameters") [
      | some (sequence vs) ↦ show_all vs
      | _ ↦ []
    ]
