-- ===== src/Configuration/Effective/Profiling.antt =====
-- The report of the profilers in src/configuration.ts against the reading of a remote configuration
-- in src/opamp/OpAMPClient.ts.
use splunk_otel_js.Common.{
  ℕ, ℤ, Bool, true, false, ◌&&◌, Option, none, some, Text, String, ◌≡◌, refl, sym, ◌∙◌, arith,
  if◌then◌else◌, pos, ◌===◌, string_eq,
}
use splunk_otel_js.Common.Yaml.{Yaml, number, mapping, Fields, end, property, find_field}
use splunk_otel_js.Opamp.EffectiveState.{EffectiveState}
use splunk_otel_js.Opamp.RemoteConfig.{RemoteProfilingConfig, profiling_config}
use splunk_otel_js.Configuration.Env.{UrlParser}
use splunk_otel_js.Configuration.Document.{profiling_of, at}
use splunk_otel_js.Configuration.Effective.{
  project_profiling, get_effective_declarative_config, cpu_running, memory_running,
  callgraphs_running, project_processor_list, project_meter_provider, unless_off, traces, logs,
  profiling_report, cpu_interval, callgraphs_interval, memory_value, feature_running, set_if,
  one_field,
}

-- The report of the profiling alone.
abbrev pub reported : Option Yaml → Yaml
reported none = mapping end
reported (some d) = one_field "distribution" d

abbrev pub interval_if : Bool → ℕ → Option ℤ
interval_if b n = if b then some (pos n) else none

-- What is asked for when a report is read as a remote configuration.
abbrev pub as_running : Bool → ℕ → Bool → Bool → ℕ → RemoteProfilingConfig
as_running cpu interval memory callgraphs callgraphs_interval = record {
  cpu_enabled = cpu;
  cpu_interval = interval_if cpu interval;
  memory_enabled = memory && cpu;
  callgraphs_enabled = callgraphs;
  callgraphs_interval = interval_if callgraphs callgraphs_interval;
}

profiling_report-read :
    (cpu memory callgraphs : Bool) (n m : ℕ) (x v y : Yaml)
    → (cpu ≡ true → x ≡ number (pos n))
    → (callgraphs ≡ true → y ≡ number (pos m))
    → profiling_config (reported (profiling_report cpu memory callgraphs x v y))
      ≡ as_running cpu n memory callgraphs m
unfolding profiling_config property find_field
profiling_report-read true true true n m x v y p q = rw (p refl, q refl) refl
profiling_report-read true true false n m x v y p q = rw (p refl) refl
profiling_report-read true false true n m x v y p q = rw (p refl, q refl) refl
profiling_report-read true false false n m x v y p q = rw (p refl) refl
profiling_report-read false true true n m x v y p q = rw (q refl) refl
profiling_report-read false true false n m x v y p q = refl
profiling_report-read false false true n m x v y p q = rw (q refl) refl
profiling_report-read false false false n m x v y p q = refl

feature_running-known :
    (configured b : Bool) (r : Option Bool) → r ≡ some b → feature_running configured r ≡ b
feature_running-known configured b none h = cc h
feature_running-known configured b (some true) h = cc h
feature_running-known configured b (some false) h = cc h

cpu_running-known :
    (profiling : Option Yaml) (s : EffectiveState) (b : Bool)
    → s.profiler_enabled ≡ some b
    → cpu_running profiling s ≡ b
unfolding cpu_running
cpu_running-known profiling s b h = feature_running-known _ b s.profiler_enabled h

memory_running-known :
    (profiling : Option Yaml) (s : EffectiveState) (b : Bool)
    → s.memory_profiler_enabled ≡ some b
    → memory_running profiling s ≡ b
unfolding memory_running
memory_running-known profiling s b h = feature_running-known _ b s.memory_profiler_enabled h

callgraphs_running-known :
    (profiling : Option Yaml) (s : EffectiveState) (b : Bool)
    → s.snapshot_profiler_enabled ≡ some b
    → callgraphs_running profiling s ≡ b
unfolding callgraphs_running
callgraphs_running-known profiling s b h = feature_running-known _ b s.snapshot_profiler_enabled h

cpu_interval-known :
    (profiling : Option Yaml) (s : EffectiveState) (n : ℕ)
    → s.call_stack_interval ≡ some n
    → cpu_interval profiling s ≡ number (pos n)
unfolding cpu_interval
cpu_interval-known profiling s n h = rw h refl

callgraphs_interval-known :
    (profiling : Option Yaml) (s : EffectiveState) (n : ℕ)
    → s.snapshot_sampling_interval ≡ some n
    → callgraphs_interval profiling s ≡ number (pos n)
unfolding callgraphs_interval
callgraphs_interval-known profiling s n h = rw h refl

-- Where the components recorded what runs, the report reads back as a remote configuration that asks
-- for just that, whatever the loaded document declares.
pub project_profiling-read :
    (profiling : Option Yaml) (s : EffectiveState) (cpu memory callgraphs : Bool) (n m : ℕ)
    → s.profiler_enabled ≡ some cpu
    → s.memory_profiler_enabled ≡ some memory
    → s.snapshot_profiler_enabled ≡ some callgraphs
    → (cpu ≡ true → s.call_stack_interval ≡ some n)
    → (callgraphs ≡ true → s.snapshot_sampling_interval ≡ some m)
    → profiling_config (reported (project_profiling profiling s))
      ≡ as_running cpu n memory callgraphs m
unfolding project_profiling
project_profiling-read profiling s cpu memory callgraphs n m a b c d e =
    let cpu_known = cpu_running-known profiling s cpu a in
    let memory_known = memory_running-known profiling s memory b in
    let callgraphs_known = callgraphs_running-known profiling s callgraphs c in
    rw (cpu_known, memory_known, callgraphs_known)
      (profiling_report-read cpu memory callgraphs n m (cpu_interval profiling s)
        (memory_value profiling) (callgraphs_interval profiling s)
        (λ h. cpu_interval-known profiling s n (d h))
        (λ h. callgraphs_interval-known profiling s m (e h)))

set_if-other :
    (v : Option Yaml) (k l : String) (fs : Fields)
    → (k === l) ≡ false
    → find_field l (set_if v k fs) ≡ find_field l fs
unfolding find_field
set_if-other none k l fs h = refl
set_if-other (some v) k l fs h = ground (arith, h)

set_if-last : (v : Option Yaml) → find_field "distribution" (set_if v "distribution" end) ≡ v
unfolding find_field
set_if-last none = refl
set_if-last (some v) = refl

property-reported : (v : Option Yaml) → property (some (reported v)) "distribution" ≡ v
unfolding property find_field
property-reported none = refl
property-reported (some v) = refl

profiling_config-agree :
    (d e : Yaml)
    → property (some d) "distribution" ≡ property (some e) "distribution"
    → profiling_config d ≡ profiling_config e
unfolding profiling_config
profiling_config-agree d e h = rw h refl

get_effective_declarative_config-distribution :
    (url : UrlParser) (environ : Text → Option Text) (config : Yaml) (s : EffectiveState)
    → property (some (get_effective_declarative_config url environ config s)) "distribution"
      ≡ project_profiling (profiling_of config) s
unfolding get_effective_declarative_config property find_field
get_effective_declarative_config-distribution url environ config s =
    let report = project_profiling (profiling_of config) s in
    let last = set_if report "distribution" end in
    let loggers =
      unless_off s.logging_enabled
        (project_processor_list url environ logs (at config "logger_provider" "processors")) in
    let meters =
      unless_off s.metrics_enabled
        (project_meter_provider url environ (at config "meter_provider" "readers")) in
    let tracers =
      unless_off s.tracing_enabled
        (project_processor_list url environ traces (at config "tracer_provider" "processors")) in
    let l = set_if loggers "logger_provider" last in
    let m = set_if meters "meter_provider" l in
    set_if-other tracers "tracer_provider" "distribution" m refl
    ∙ (set_if-other meters "meter_provider" "distribution" l refl
        ∙ (set_if-other loggers "logger_provider" "distribution" last refl ∙ set_if-last report))

-- The whole report reads as that of the profiling alone.
pub get_effective_declarative_config-read :
    (url : UrlParser) (environ : Text → Option Text) (config : Yaml) (s : EffectiveState)
    → profiling_config (get_effective_declarative_config url environ config s)
      ≡ profiling_config (reported (project_profiling (profiling_of config) s))
get_effective_declarative_config-read url environ config s =
    let report = project_profiling (profiling_of config) s in
    profiling_config-agree (get_effective_declarative_config url environ config s) (reported report)
      (get_effective_declarative_config-distribution url environ config s
        ∙ sym (property-reported report))
