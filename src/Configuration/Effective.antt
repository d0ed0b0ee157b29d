-- ===== src/Configuration/Effective.antt =====
-- The effective declarative configuration of src/configuration.ts, which the OpAMP client reports:
-- getEffectiveDeclarativeConfig and the projections below it.
-- The document that is written is given as a value, without its text. The values of the loaded
-- document have the types that the source declares for them; a number is a whole one.
pub mod Profiling
use splunk_otel_js.Common.{
  ℕ, Bool, true, false, not, ◌&&◌, ◌||◌, Option, none, some, List, [], ◌∷◌, Text, codes, String,
  if◌then◌else◌, is_some, or_else, pos,
}
use splunk_otel_js.Common.Yaml.{
  Yaml, null, boolean, number, text, sequence, mapping, Items, nil, cons, Fields, end, field,
  property,
}
use splunk_otel_js.Opamp.EffectiveState.{EffectiveState}
use splunk_otel_js.Configuration.Env.{
  UrlParser, ensure_resource_path, resolve_otlp_exporter_url, get_non_empty_env_var,
  get_env_value_by_precedence,
}
use splunk_otel_js.Configuration.Document.{splunk_config, profiling_of, at}

-- A field that is set if there is a value, and an object that is kept if it has a field.
abbrev pub set_if : Option Yaml → String → Fields → Fields
set_if none k fs = fs
set_if (some v) k fs = field k v fs

abbrev pub non_empty : Fields → Option Yaml
non_empty end = none
non_empty (field k v fs) = some (mapping (field k v fs))

-- `value ?? …`: neither absent nor `null`.
abbrev pub not_null : Option Yaml → Option Yaml
not_null (some null) = none
not_null v = v

abbrev pub a_number : Option ℕ → Option Yaml
a_number none = none
a_number (some n) = some (number (pos n))

-- `a ?? b ?? c`.
abbrev pub first_of : Option Yaml → Option Yaml → Yaml → Yaml
first_of (some a) b c = a
first_of none b c = or_else (not_null b) c

-- `featureRunning`.
abbrev pub feature_running : Bool → Option Bool → Bool
feature_running configured (some true) = true
feature_running configured (some false) = false
feature_running configured none = configured

abbrev pub when : Bool → Yaml → Option Yaml
when b v = if b then some v else none

abbrev pub one_field : String → Yaml → Yaml
one_field k v = mapping (field k v end)

-- `projectProfiling`.
abbrev pub cpu_running : Option Yaml → EffectiveState → Bool
unfolding property
cpu_running profiling s =
    feature_running (is_some (property (property profiling "always_on") "cpu_profiler"))
      s.profiler_enabled

abbrev pub memory_running : Option Yaml → EffectiveState → Bool
unfolding property
memory_running profiling s =
    feature_running (is_some (property (property profiling "always_on") "memory_profiler"))
      s.memory_profiler_enabled

abbrev pub callgraphs_running : Option Yaml → EffectiveState → Bool
unfolding property
callgraphs_running profiling s =
    feature_running (is_some (property profiling "callgraphs")) s.snapshot_profiler_enabled

-- The report, from which of the CPU profiler, the memory profiler and the callgraphs run, and what
-- stands for their intervals and for the memory profiler.
abbrev pub always_on_fields : Bool → Bool → Yaml → Yaml → Fields
always_on_fields cpu memory interval memory_value =
    set_if (when cpu (one_field "sampling_interval" interval)) "cpu_profiler"
      (set_if (when (memory && cpu) memory_value) "memory_profiler" end)

abbrev pub splunk_profiling : Option Yaml → Option Yaml
splunk_profiling none = none
splunk_profiling (some v) = some (one_field "splunk" (one_field "profiling" v))

abbrev pub profiling_report : Bool → Bool → Bool → Yaml → Yaml → Yaml → Option Yaml
profiling_report cpu memory callgraphs interval memory_value callgraphs_interval =
    splunk_profiling (
      non_empty (
        set_if (non_empty (always_on_fields cpu memory interval memory_value)) "always_on" (
          set_if (when callgraphs (one_field "sampling_interval" callgraphs_interval)) "callgraphs"
            end)))

abbrev pub cpu_interval : Option Yaml → EffectiveState → Yaml
unfolding property
cpu_interval profiling s =
    first_of (a_number s.call_stack_interval)
      (property (property (property profiling "always_on") "cpu_profiler") "sampling_interval")
      (number (pos 1_000))

abbrev pub memory_value : Option Yaml → Yaml
unfolding property
memory_value profiling =
    or_else (not_null (property (property profiling "always_on") "memory_profiler")) (mapping end)

abbrev pub callgraphs_interval : Option Yaml → EffectiveState → Yaml
unfolding property
callgraphs_interval profiling s =
    first_of (a_number s.snapshot_sampling_interval)
      (property (property profiling "callgraphs") "sampling_interval") (number (pos 1))

unfoldable pub project_profiling : Option Yaml → EffectiveState → Option Yaml
unfolding cpu_running memory_running callgraphs_running cpu_interval memory_value
    callgraphs_interval
project_profiling profiling s =
    profiling_report (cpu_running profiling s) (memory_running profiling s)
      (callgraphs_running profiling s) (cpu_interval profiling s) (memory_value profiling)
      (callgraphs_interval profiling s)

-- `SignalName`, `OTLP_HTTP_RESOURCE_PATHS`, `OTLP_SIGNAL_ENDPOINT_KEYS` and
-- `OTLP_SIGNAL_RESOURCE_PATHS`.
pub data SignalName : Type 0 where
  traces metrics logs : SignalName

abbrev pub http_resource_path : SignalName → Option Text
http_resource_path traces = some (codes "/v1/traces")
http_resource_path metrics = some (codes "/v1/metrics")
http_resource_path logs = none

abbrev pub signal_endpoint_key : SignalName → Text
signal_endpoint_key traces = codes "OTEL_EXPORTER_OTLP_TRACES_ENDPOINT"
signal_endpoint_key metrics = codes "OTEL_EXPORTER_OTLP_METRICS_ENDPOINT"
signal_endpoint_key logs = codes "OTEL_EXPORTER_OTLP_LOGS_ENDPOINT"

abbrev pub signal_resource_path : SignalName → Text
signal_resource_path traces = codes "/v1/traces"
signal_resource_path metrics = codes "/v1/metrics"
signal_resource_path logs = codes "/v1/logs"

abbrev pub text_of : Option Yaml → Option Text
text_of (some (text t)) = some t
text_of _ = none

abbrev pub unless_off : Option Bool → Option Yaml → Option Yaml
unless_off (some false) v = none
unless_off _ v = v

abbrev pub around : String → Option Yaml → Option Yaml
around k none = none
around k (some v) = some (one_field k v)

abbrev pub project_all : (Yaml → Option Yaml) → Items → Items
project_all project nil = nil
project_all project (cons v vs) =
    let rest = project_all project vs in elim (project v) [ none ↦ rest | some w ↦ cons w rest ]

abbrev pub list_under : String → Items → Option Yaml
list_under k nil = none
list_under k (cons v vs) = some (one_field k (sequence (cons v vs)))

abbrev pub endpoint_of : (Option Text → Text) → Option Yaml → Option Yaml
unfolding property
endpoint_of resolve none = none
endpoint_of resolve (some v) =
    some (one_field "endpoint" (text (resolve (text_of (property (some v) "endpoint")))))

module _ (url : UrlParser) (environ : Text → Option Text) where
  abbrev pub configured_http : SignalName → Text → Text
  unfolding ensure_resource_path
  configured_http signal t = elim (http_resource_path signal) [
    | none ↦ t
    | some path ↦ or_else (ensure_resource_path url (some t) path) t
  ]

  abbrev pub omitted : SignalName → Text → Text
  unfolding resolve_otlp_exporter_url
  omitted signal protocol =
      resolve_otlp_exporter_url url environ none protocol (signal_endpoint_key signal)
        (signal_resource_path signal)

  abbrev pub http_endpoint : SignalName → Option Text → Text
  unfolding configured_http omitted
  http_endpoint signal (some t) = configured_http signal t
  http_endpoint signal none = omitted signal (codes "http/protobuf")

  abbrev pub grpc_endpoint : SignalName → Option Text → Text
  unfolding omitted
  grpc_endpoint signal (some t) = t
  grpc_endpoint signal none = omitted signal (codes "grpc")

  -- `projectExporterEndpoint`.
  unfoldable pub project_exporter_endpoint : SignalName → Option Yaml → Option Yaml
  unfolding http_endpoint grpc_endpoint endpoint_of
  project_exporter_endpoint signal exporter = non_empty (
      set_if (endpoint_of (http_endpoint signal) (not_null (property exporter "otlp_http")))
        "otlp_http"
        (set_if (endpoint_of (grpc_endpoint signal) (not_null (property exporter "otlp_grpc")))
          "otlp_grpc" end))

  -- `projectSignalProcessor`.
  unfoldable pub project_signal_processor : SignalName → Yaml → Option Yaml
  unfolding project_exporter_endpoint
  project_signal_processor signal processor =
      let exporter_of : String → Option Yaml = λ k.
        around "exporter"
          (project_exporter_endpoint signal (property (property (some processor) k) "exporter")) in
      non_empty (set_if (exporter_of "batch") "batch" (set_if (exporter_of "simple") "simple" end))

  -- One metric reader of `projectMeterProvider`.
  abbrev pub project_reader : Yaml → Option Yaml
  unfolding project_exporter_endpoint
  project_reader reader = around "periodic" (
      around "exporter" (
        project_exporter_endpoint metrics
          (property (property (some reader) "periodic") "exporter")))

  -- `projectProcessorList`, and `projectMeterProvider`.
  unfoldable pub project_processor_list : SignalName → Option Yaml → Option Yaml
  unfolding project_signal_processor
  project_processor_list signal (some (sequence vs)) =
      list_under "processors" (project_all (project_signal_processor signal) vs)
  project_processor_list signal _ = none

  unfoldable pub project_meter_provider : Option Yaml → Option Yaml
  unfolding project_reader
  project_meter_provider (some (sequence vs)) = list_under "readers" (project_all project_reader vs)
  project_meter_provider _ = none

  abbrev pub file_name : Text → Yaml
  unfolding get_non_empty_env_var
  file_name key = elim (get_non_empty_env_var environ key) [ none ↦ null | some t ↦ text t ]

  -- `getEffectiveDeclarativeConfig`, on the loaded document and the effective state.
  unfoldable pub get_effective_declarative_config : Yaml → EffectiveState → Yaml
  unfolding project_processor_list project_meter_provider project_profiling file_name at
      profiling_of
  get_effective_declarative_config config s = mapping (
      field "otel_config_file" (file_name (codes "OTEL_CONFIG_FILE")) (
        field "otel_experimental_config_file" (file_name (codes "OTEL_EXPERIMENTAL_CONFIG_FILE")) (
          set_if
            (unless_off s.tracing_enabled
              (project_processor_list traces (at config "tracer_provider" "processors")))
            "tracer_provider"
            (set_if
              (unless_off s.metrics_enabled
                (project_meter_provider (at config "meter_provider" "readers")))
              "meter_provider"
              (set_if
                (unless_off s.logging_enabled
                  (project_processor_list logs (at config "logger_provider" "processors")))
                "logger_provider"
                (set_if (project_profiling (profiling_of config) s) "distribution" end))))))

  -- `effectiveDeclarativeConfigName`.
  unfoldable pub effective_declarative_config_name : Text
  unfolding get_env_value_by_precedence
  effective_declarative_config_name =
      or_else
        (get_env_value_by_precedence environ
          (codes "OTEL_CONFIG_FILE" ∷ codes "OTEL_EXPERIMENTAL_CONFIG_FILE" ∷ []) none)
        (codes "config.yaml")
