-- ===== src/Profiling/Controller/Report.antt =====
-- The effective configuration that src/configuration.ts reports of the profilers, pushed back to the
-- controller of src/profiling/ProfilingController.ts.
use splunk_otel_js.Common.{
  ℕ, ◌<◌, Bool, true, false, Option, none, some, ◌≡◌, refl, ◌∙◌, ap, arith, subst, sym, Text,
  is_some,
}
use splunk_otel_js.Common.Yaml.{Yaml}
use splunk_otel_js.Opamp.EffectiveState.{EffectiveState}
use splunk_otel_js.Opamp.RemoteConfig.{RemoteProfilingConfig, profiling_config}
use splunk_otel_js.Configuration.Env.{UrlParser}
use splunk_otel_js.Configuration.Document.{profiling_of}
use splunk_otel_js.Configuration.Effective.{project_profiling, get_effective_declarative_config}
use splunk_otel_js.Configuration.Effective.Profiling.{
  as_running, reported, project_profiling-read, get_effective_declarative_config-read,
}
use splunk_otel_js.Profiling.Start.{Process, ProfilingOptions}
use splunk_otel_js.Profiling.Controller.{
  RunningProfiler, Controller, apply_cpu_memory, positive, effective_interval,
}
use splunk_otel_js.Profiling.Controller.Refinement.{view, contract, Reported}
use splunk_otel_js.Profiling.Controller.Again.{apply_cpu_memory_settled}

-- The effective state, with what the snapshot profiler recorded.
abbrev pub effective_state : Controller → EffectiveState
effective_state c = record c.process.effective {
  snapshot_profiler_enabled = some c.snapshots.enabled_state;
  snapshot_sampling_interval = some c.snapshots.interval_state;
}

abbrev pub interval_of : Option RunningProfiler → ℕ
interval_of none = 0
interval_of (some r) = r.sampling_interval

abbrev pub memory_of : Option RunningProfiler → Bool
memory_of none = false
memory_of (some r) = r.memory_enabled

-- The remote configuration that asks for what runs.
abbrev pub what_runs : Controller → RemoteProfilingConfig
what_runs c =
    as_running (is_some c.running) (interval_of c.running) (memory_of c.running)
      c.snapshots.enabled_state c.snapshots.interval_state

read_back :
    (profiling : Option Yaml) (c : Controller) (o : Option RunningProfiler)
    → c.running ≡ o
    → Reported o c.process
    → profiling_config (reported (project_profiling profiling (effective_state c)))
      ≡ as_running
          (is_some o)
          (interval_of o)
          (memory_of o)
          c.snapshots.enabled_state
          c.snapshots.interval_state
read_back profiling c none e (_, enabled, memory) =
    project_profiling-read profiling (effective_state c) false false c.snapshots.enabled_state 0
      c.snapshots.interval_state enabled memory refl (λ h. cc h) (λ h. refl)
read_back profiling c (some r) e (_, _, _, enabled, interval, memory) =
    project_profiling-read profiling (effective_state c) true r.memory_enabled
      c.snapshots.enabled_state r.sampling_interval c.snapshots.interval_state enabled memory refl
      (λ h. interval) (λ h. refl)

-- Where the controller says what runs, the report of the effective configuration, read as a remote
-- configuration, asks for what runs, whatever the loaded document declares.
pub profiling_config-report :
    (url : UrlParser) (environ : Text → Option Text) (config : Yaml) (c : Controller)
    → Reported c.running c.process
    → profiling_config (get_effective_declarative_config url environ config (effective_state c))
      ≡ what_runs c
profiling_config-report url environ config c h =
    get_effective_declarative_config-read url environ config (effective_state c)
    ∙ read_back (profiling_of config) c c.running refl h

contract-what_runs :
    (o : Option RunningProfiler) (extension b : Bool) (base : ProfilingOptions) (m : ℕ)
    → (is_some o ≡ true → extension ≡ true)
    → (is_some o ≡ true → 0 < interval_of o)
    → let asked = as_running (is_some o) (interval_of o) (memory_of o) b m in
      contract extension (effective_interval base (positive asked.cpu_interval)) asked (view o)
      ≡ (none, view o)
contract-what_runs none extension b base m x l = refl
contract-what_runs (some r) extension b base m x l = ground (arith, x refl, l refl)

extension_there :
    (o : Option RunningProfiler) (p : Process)
    → Reported o p
    → is_some o ≡ true
    → p.extension ≡ true
extension_there none p h e = cc e
extension_there (some r) p h e = h.0

apply_what_runs :
    (turned : Bool) (c : Controller)
    → Reported c.running c.process
    → (is_some c.running ≡ true → 0 < interval_of c.running)
    → apply_cpu_memory turned (what_runs c) c ≡ (none, c)
apply_what_runs turned c h l =
    let same =
      contract-what_runs c.running c.process.extension c.snapshots.enabled_state c.base_options
        c.snapshots.interval_state (extension_there c.running c.process h) l in
    apply_cpu_memory_settled turned (what_runs c) c (view c.running) h (sym (ap (λ x. x.1) same))
    ∙ ap (λ x. (x.0, c)) same

-- To push that report back succeeds and changes nothing of the CPU and memory profilers.
pub apply_cpu_memory-report :
    (url : UrlParser) (environ : Text → Option Text) (config : Yaml) (c : Controller)
    (turned : Bool)
    → Reported c.running c.process
    → (is_some c.running ≡ true → 0 < interval_of c.running)
    → let report = get_effective_declarative_config url environ config (effective_state c) in
      apply_cpu_memory turned (profiling_config report) c ≡ (none, c)
apply_cpu_memory-report url environ config c turned h l =
    subst (λ r. apply_cpu_memory turned r c ≡ (none, c))
      (sym (profiling_config-report url environ config c h)) (apply_what_runs turned c h l)
