-- ===== src/Configuration/Document.antt =====
-- The reading of the declarative configuration in src/configuration.ts: fetchConfigValue and the
-- readers above it, and the choice of instrumentations in src/instrumentations/index.ts.
-- The values of a document have the types that the source declares for them; a number is a whole one.
use splunk_otel_js.Common.{
  Bool, true, false, Option, none, some, List, [], ◌∷◌, ◌++◌, Text, codes, String, ◌===◌, nat_eq,
  list_eq, string_eq, if◌then◌else◌, is_some,
}
use splunk_otel_js.Common.Yaml.{
  Yaml, null, boolean, text, sequence, mapping, Items, nil, cons, property,
}

-- A result, or an error that the source throws.
pub data Checked {ℓ} (A : Type ℓ) : Type ℓ where
  returned : A → Checked A
  thrown : Checked A

infixl 5 ◌>>=◌
abbrev pub ◌>>=◌ {ℓ κ} : {A : Type ℓ} {B : Type κ} → Checked A → (A → Checked B) → Checked B
returned a >>= f = f a
thrown >>= f = thrown

unfoldable pub splunk_config : Yaml → Option Yaml
unfolding property
splunk_config config = property (property (some config) "distribution") "splunk"

unfoldable pub at : Yaml → String → String → Option Yaml
unfolding property
at config a b = property (property (some config) a) b

unfoldable pub limit : Yaml → String → String → Option Yaml
unfolding property at
limit config provider name = property (at config provider "limits") name

-- `splunkConfig(config)?.profiling`, and its `always_on?.cpu_profiler`.
unfoldable pub profiling_of : Yaml → Option Yaml
unfolding splunk_config
profiling_of config = property (splunk_config config) "profiling"

unfoldable pub cpu_profiler_of : Option Yaml → Option Yaml
unfolding property
cpu_profiler_of profiling = property (property profiling "always_on") "cpu_profiler"

-- `value !== undefined`.
abbrev pub present : Option Yaml → Option Yaml
present v = some (boolean (is_some v))

-- `findAttributeValue`.
unfoldable pub is_named : Text → Yaml → Bool
unfolding property
is_named name v = elim (property (some v) "name") [ some (text t) ↦ t === name | _ ↦ false ]

unfoldable pub find_attribute_value : Text → Items → Option Yaml
unfolding property
find_attribute_value name nil = none
find_attribute_value name (cons v vs) =
    let rest = find_attribute_value name vs in
    if is_named name v then property (some v) "value" else rest

unfoldable pub service_name_of : Yaml → Option Yaml
unfolding at find_attribute_value
service_name_of config = elim (at config "resource" "attributes") [
  | some (sequence vs) ↦ find_attribute_value (codes "service.name") vs
  | _ ↦ none
]

-- `getInstrumentationConf`, whose property the caller takes if it is a Boolean.
abbrev pub boolean_only : Option Yaml → Option Yaml
boolean_only (some (boolean b)) = some (boolean b)
boolean_only _ = none

abbrev pub text_only : Option Yaml → Option Yaml
text_only (some (text t)) = some (text t)
text_only _ = none

abbrev pub sequence_only : Option Yaml → Option Yaml
sequence_only (some (sequence vs)) = some (sequence vs)
sequence_only _ = none

unfoldable pub get_instrumentation_conf : Yaml → String → Option Yaml
unfolding splunk_config
get_instrumentation_conf config name =
    property (property (splunk_config config) "instrumentations") name

abbrev pub is_true : Option Yaml → Option Yaml
is_true (some (boolean b)) = some (boolean b)
is_true _ = some (boolean false)

-- `cpuProfiler === null || typeof cpuProfiler === 'object'`.
abbrev pub enables_profiler : Option Yaml → Bool
enables_profiler (some null) = true
enables_profiler (some (mapping _)) = true
enables_profiler (some (sequence _)) = true
enables_profiler _ = false

-- The cases of the `switch` of `fetchConfigValue`.
abbrev pub Cases : Type 0
Cases = List (Text × (Yaml → Option Yaml))

unfoldable pub limit_cases : Cases
unfolding limit at
limit_cases =
    (codes "OTEL_ATTRIBUTE_COUNT_LIMIT", λ c. at c "attribute_limits" "attribute_count_limit")
    ∷ (
      codes "OTEL_ATTRIBUTE_VALUE_LENGTH_LIMIT",
      λ c. at c "attribute_limits" "attribute_value_length_limit",
    )
    ∷ (
      codes "OTEL_EVENT_ATTRIBUTE_COUNT_LIMIT",
      λ c. limit c "tracer_provider" "event_attribute_count_limit",
    )
    ∷ (
      codes "OTEL_LINK_ATTRIBUTE_COUNT_LIMIT",
      λ c. limit c "tracer_provider" "link_attribute_count_limit",
    )
    ∷ (
      codes "OTEL_SPAN_ATTRIBUTE_COUNT_LIMIT",
      λ c. limit c "tracer_provider" "attribute_count_limit",
    )
    ∷ (
      codes "OTEL_SPAN_ATTRIBUTE_VALUE_LENGTH_LIMIT",
      λ c. limit c "tracer_provider" "attribute_value_length_limit",
    )
    ∷ (codes "OTEL_SPAN_EVENT_COUNT_LIMIT", λ c. limit c "tracer_provider" "event_count_limit")
    ∷ (codes "OTEL_SPAN_LINK_COUNT_LIMIT", λ c. limit c "tracer_provider" "link_count_limit")
    ∷ (
      codes "OTEL_LOGRECORD_ATTRIBUTE_COUNT_LIMIT",
      λ c. limit c "logger_provider" "attribute_count_limit",
    )
    ∷ (
      codes "OTEL_LOGRECORD_ATTRIBUTE_VALUE_LENGTH_LIMIT",
      λ c. limit c "logger_provider" "attribute_value_length_limit",
    )
    ∷ []

unfoldable pub profiling_cases : Cases
unfolding property profiling_of cpu_profiler_of
profiling_cases =
    (
      codes "SPLUNK_PROFILER_ENABLED",
      λ c. some (boolean (enables_profiler (cpu_profiler_of (profiling_of c)))),
    )
    ∷ (
      codes "SPLUNK_PROFILER_LOGS_ENDPOINT",
      λ c.
          text_only
            (property (property (property (profiling_of c) "exporter") "otlp_log_http") "endpoint"),
    )
    ∷ (
      codes "SPLUNK_SNAPSHOT_PROFILER_ENABLED",
      λ c. present (property (profiling_of c) "callgraphs"),
    )
    ∷ (
      codes "SPLUNK_PROFILER_CALL_STACK_INTERVAL",
      λ c. property (cpu_profiler_of (profiling_of c)) "sampling_interval",
    )
    ∷ (
      codes "SPLUNK_CPU_PROFILER_COLLECTION_INTERVAL",
      λ c. property (cpu_profiler_of (profiling_of c)) "collection_interval",
    )
    ∷ (
      codes "SPLUNK_PROFILER_MEMORY_ENABLED",
      λ c. present (property (property (profiling_of c) "always_on") "memory_profiler"),
    )
    ∷ (
      codes "SPLUNK_SNAPSHOT_PROFILER_SAMPLING_INTERVAL",
      λ c. property (property (profiling_of c) "callgraphs") "sampling_interval",
    )
    ∷ (
      codes "SPLUNK_SNAPSHOT_SELECTION_PROBABILITY",
      λ c. property (property (profiling_of c) "callgraphs") "selection_probability",
    )
    ∷ (
      codes "SPLUNK_SNAPSHOT_SELECTION_RATE",
      λ c. property (property (profiling_of c) "callgraphs") "selection_probability",
    )
    ∷ []

unfoldable pub splunk_cases : Cases
unfolding property splunk_config get_instrumentation_conf
splunk_cases =
    (
      codes "SPLUNK_AUTOINSTRUMENT_PACKAGE_NAMES",
      λ c. sequence_only (property (splunk_config c) "package_name_filter"),
    )
    ∷ (
      codes "SPLUNK_DEBUG_METRICS_ENABLED",
      λ c. property (splunk_config c) "debug_metrics_enabled",
    )
    ∷ (
      codes "OTEL_INSTRUMENTATION_COMMON_DEFAULT_ENABLED",
      λ c. property (splunk_config c) "use_bundled_instrumentations",
    )
    ∷ (codes "SPLUNK_REALM", λ c. none)
    ∷ (
      codes "SPLUNK_TRACE_RESPONSE_HEADER_ENABLED",
      λ c.
          boolean_only
            (property (get_instrumentation_conf c "http") "trace_response_header_enabled"),
    )
    ∷ (
      codes "SPLUNK_NEXTJS_FIX_ENABLED",
      λ c. is_true (
          property (property (property (splunk_config c) "general") "js")
            "nextjs_cardinality_reduction"),
    )
    ∷ (codes "SPLUNK_OPAMP_ENABLED", λ c. present (property (splunk_config c) "opamp"))
    ∷ (codes "SPLUNK_OPAMP_ENDPOINT", λ c. property (property (splunk_config c) "opamp") "endpoint")
    ∷ (
      codes "SPLUNK_OPAMP_REMOTE_CONFIG",
      λ c.
          is_true
            (property (property (property (splunk_config c) "opamp") "features") "remote_config"),
    )
    ∷ (codes "SPLUNK_ACCESS_TOKEN", λ c. none)
    ∷ (
      codes "SPLUNK_RUNTIME_METRICS_ENABLED",
      λ c. present (property (splunk_config c) "runtime_metrics"),
    )
    ∷ (
      codes "SPLUNK_RUNTIME_METRICS_COLLECTION_INTERVAL",
      λ c. property (property (splunk_config c) "runtime_metrics") "collection_interval",
    )
    ∷ (
      codes "SPLUNK_REDIS_INCLUDE_COMMAND_ARGS",
      λ c. boolean_only (property (get_instrumentation_conf c "redis") "include_command_args"),
    )
    ∷ (
      codes "SPLUNK_GRAPHQL_RESOLVE_SPANS_ENABLED",
      λ c. boolean_only (property (get_instrumentation_conf c "graphql") "resolve_spans_enabled"),
    )
    ∷ []

unfoldable pub signal_cases : Cases
unfolding property service_name_of
signal_cases =
    (codes "OTEL_LOG_LEVEL", λ c. property (some c) "log_level")
    ∷ (codes "OTEL_SERVICE_NAME", λ c. service_name_of c)
    ∷ (codes "SPLUNK_AUTOMATIC_LOG_COLLECTION", λ c. present (property (some c) "logger_provider"))
    ∷ (
      codes "SPLUNK_INSTRUMENTATION_METRICS_ENABLED",
      λ c. present (property (some c) "meter_provider"),
    )
    ∷ (codes "SPLUNK_METRICS_ENABLED", λ c. present (property (some c) "meter_provider"))
    ∷ (codes "SPLUNK_TRACING_ENABLED", λ c. present (property (some c) "tracer_provider"))
    ∷ []

unfoldable pub cases : Cases
unfolding limit_cases profiling_cases splunk_cases signal_cases
cases = limit_cases ++ (profiling_cases ++ (splunk_cases ++ signal_cases))
