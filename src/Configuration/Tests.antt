-- ===== src/Configuration/Tests.antt =====
-- The theorems on src/configuration at concrete inputs, and tests of the definitions.
use splunk_otel_js.Common.{
  String, Option, none, some, [], ◌++◌, Text, codes, ◌===◌, nat_eq, list_eq, ◌≡◌, refl,
  if◌then◌else◌,
}
use splunk_otel_js.Common.{true, false, ◌∷◌, trim, trim_start, is_space}
use splunk_otel_js.Common.Yaml.{Yaml, null, boolean, mapping, field, end, property, find_field}
use splunk_otel_js.Configuration.Document.{splunk_config, returned, thrown, at}
use splunk_otel_js.Configuration.Tracing.{
  config_get_sampler, simple, always_on_sampler, sampler_of, root_sampler, by_parent, by_ratio,
  ratio_based, read_property, resource_from_string, config_get_propagators,
}
use splunk_otel_js.Configuration.Instrumentations.{
  get_instrumentations_to_load, reject_both, bundled_instrumentations,
}
use splunk_otel_js.Configuration.Instrumentations.Laws.{
  enabled_of, get_instrumentations_to_load-declared,
}
use splunk_otel_js.Configuration.Env.{UrlParser, get_non_empty_env_var, get_env_array, deduplicate}
use splunk_otel_js.Configuration.Substitute.{env_substitute}
use splunk_otel_js.Configuration.Substitute.Reader.{plain, read}
use splunk_otel_js.Configuration.Substitute.Simulation.{env_substitute-read}

-- An environment in which only HOST has a value.
abbrev environ : Text → Option Text
environ n = if n === codes "HOST" then some (codes "otel") else none

a_value :
    env_substitute (codes "http://${HOST}:${env:PORT:-4318}/$$") environ
    ≡ codes "http://otel:4318/$"
unfolding env_substitute
a_value = refl

a_lone_dollar : env_substitute (codes "a$") environ ≡ codes "a"
unfolding env_substitute
a_lone_dollar = refl

env_substitute-read_example :
    env_substitute (codes "x${HOST}") environ ≡ read environ plain (codes "x${HOST}")
env_substitute-read_example = env_substitute-read (codes "x${HOST}") environ

abbrev settings : Text → Option Text
settings n =
    if n === codes "SPLUNK_A"
    then some (codes " Yes ")
    else if n === codes "OTEL_EXPORTER_OTLP_ENDPOINT"
    then some (codes "http://h/b")
    else none

abbrev slashed : Text → Option Text
slashed n = if n === codes "OTEL_EXPORTER_OTLP_ENDPOINT" then some (codes "http://h/b/") else none

-- A parser that takes every text for a URL without a path.
abbrev url : UrlParser
url = record { path_of = λ u. some (codes "/"); with_path = λ u p. u ++ p }

no_duplicates : get_env_array (λ n. some (codes "a,b,a")) [] ≡ some (codes "a" ∷ codes "b" ∷ [])
unfolding get_env_array deduplicate get_non_empty_env_var trim trim_start is_space
no_duplicates = refl

spaced_duplicates : get_env_array (λ n. some (codes "a, a")) [] ≡ some (codes "a" ∷ codes "a" ∷ [])
unfolding get_env_array deduplicate get_non_empty_env_var trim trim_start is_space
spaced_duplicates = refl

-- A document that asks for no bundled instrumentations, and disables that of DNS.
abbrev unbundled : Yaml
unbundled = mapping (
    field "distribution"
      (mapping (
        field "splunk"
          (mapping (
            field "use_bundled_instrumentations" (boolean false) (
              field "instrumentations"
                (mapping (field "dns" (mapping (field "disabled" (boolean true) end)) end)) end)))
          end))
      end)

get_instrumentations_to_load-declared_example :
    get_instrumentations_to_load settings (some unbundled)
    ≡ reject_both (returned (enabled_of unbundled bundled_instrumentations))
unfolding splunk_config property find_field
get_instrumentations_to_load-declared_example =
    get_instrumentations_to_load-declared settings unbundled

-- A document with one sampler.
abbrev sampled : String → Yaml → Yaml
sampled k v =
    mapping (field "tracer_provider" (mapping (field "sampler" (mapping (field k v end)) end)) end)

always_on_null :
    config_get_sampler (some (sampled "always_on" null))
    ≡ returned (some (simple always_on_sampler))
unfolding config_get_sampler sampler_of root_sampler at property find_field
always_on_null = refl

ratio_null : config_get_sampler (some (sampled "trace_id_ratio_based" null)) ≡ thrown
unfolding config_get_sampler sampler_of root_sampler by_parent by_ratio ratio_based at property
    find_field read_property
ratio_null = refl

-- A value with an equals sign is lost.
equals_lost : resource_from_string (codes "a=b, token=x=y") ≡ (codes "a", codes "b") ∷ []
unfolding resource_from_string trim trim_start is_space
equals_lost = refl

no_composite_list : config_get_propagators (some (mapping end)) ≡ some ([] ∷ [])
unfolding config_get_propagators deduplicate at property find_field trim trim_start
no_composite_list = refl
