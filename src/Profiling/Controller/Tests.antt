-- ===== src/Profiling/Controller/Tests.antt =====
-- The theorems on the profiling controller at concrete inputs.
use splunk_otel_js.Common.{arith, true, false, none, some, List, [], ◌∷◌, ◌≡◌, ◌↔◌, refl, pos}
use splunk_otel_js.Opamp.RemoteConfig.{RemoteProfilingConfig, profiling_config}
use splunk_otel_js.Common.Yaml.{Yaml, null, mapping, field, end}
use splunk_otel_js.Configuration.Env.{UrlParser}
use splunk_otel_js.Configuration.Effective.{get_effective_declarative_config}
use splunk_otel_js.Profiling.Controller.Report.{effective_state, apply_cpu_memory-report}
use splunk_otel_js.Opamp.EffectiveState.{empty_state, record_effective_state}
use splunk_otel_js.Tracing.Snapshots.{Snapshots, start_snapshot_profiling}
use splunk_otel_js.Profiling.Start.{
  ProfilingOptions, Process, turn, immediate, run_immediates, start_profiling, start_native,
  record_disabled, record_enabled, stop_session,
}
use splunk_otel_js.Profiling.Controller.{
  RunningProfiler, Controller, new_controller, start_initial, start_cpu, stop_cpu, apply_cpu_memory,
  apply_callgraphs, apply, join_failures, enable_cpu,
}
use splunk_otel_js.Profiling.Controller.Refinement.{Reported}
use splunk_otel_js.Profiling.Controller.Histories.{
  Step, pushed, stopped, turned_loop, run, step, boot,
}
use splunk_otel_js.Profiling.Controller.Outcomes.{
  Parts, can_apply, apply-independent, apply-accepts,
}
use splunk_otel_js.Profiling.Controller.Again.{apply_idempotent}
use splunk_otel_js.Profiling.Controller.Memory.{IsLost, run-stop_cpu-IsLost}

abbrev base : ProfilingOptions
base = record { callstack_interval = 1_000; memory_profiling_enabled = true }

abbrev idle : Process
idle = record {
  extension = true;
  effective = empty_state;
  tracing_context_manager = false;
  profiling_context_manager = false;
  native = record {
    running = false;
    interval = 0;
    v8_profiler_running = false;
    sampling_heap = false;
  };
  next_id = 0;
  immediates = [];
  cpu_timers = [];
  memory_timers = [];
}

abbrev snapshots : Snapshots
snapshots =
    start_snapshot_profiling false 10 true (record { running = false; interval = 1; filters = [] })

abbrev faster : RemoteProfilingConfig
faster = record {
  cpu_enabled = true;
  cpu_interval = some (pos 500);
  memory_enabled = true;
  callgraphs_enabled = true;
  callgraphs_interval = none;
}

abbrev memory_only : RemoteProfilingConfig
memory_only = record {
  cpu_enabled = false;
  cpu_interval = none;
  memory_enabled = true;
  callgraphs_enabled = true;
  callgraphs_interval = some (pos 20);
}

-- Started with memory profiling, before and after the event loop turned.
abbrev fresh : Controller
fresh = boot true base idle snapshots

abbrev turned : Controller
turned = run (turned_loop ∷ []) fresh

abbrev history : List Step
history = turned_loop ∷ pushed true memory_only ∷ stopped false ∷ []

apply-independent_example :
    let (m, d) = apply true memory_only fresh in
    let (e, by_cpu) = apply_cpu_memory true memory_only fresh in
    let (f, by_callgraphs) = apply_callgraphs memory_only fresh in
    (m ≡ join_failures e f) × Parts by_cpu by_callgraphs d
apply-independent_example = apply-independent true memory_only fresh

Reported-fresh : Reported fresh.running fresh.process
unfolding boot start_initial start_cpu start_profiling start_native record_enabled
    record_effective_state new_controller
Reported-fresh = (refl, refl, refl, refl, refl, refl)

apply-accepts_example : ((apply true faster fresh).0 ≡ none) ↔ (can_apply faster fresh ≡ true)
apply-accepts_example = apply-accepts true faster fresh Reported-fresh

apply_idempotent_example :
    apply false memory_only (apply true memory_only fresh).1 ≡ apply true memory_only fresh
apply_idempotent_example = apply_idempotent true false memory_only fresh Reported-fresh

abbrev first_run : RunningProfiler
first_run = record {
  session = record { id = 0; options = base };
  sampling_interval = 1_000;
  memory_enabled = true;
}

run-stop_cpu-IsLost_example :
    IsLost (run (pushed true faster ∷ turned_loop ∷ []) (stop_cpu false turned)).process.native
unfolding run step boot start_initial start_cpu start_profiling start_native record_enabled turn
    run_immediates immediate new_controller
run-stop_cpu-IsLost_example =
    run-stop_cpu-IsLost false turned first_run (pushed true faster ∷ turned_loop ∷ []) refl refl
      refl

-- After a stop and another start with memory profiling, the heap is not sampled, though the state
-- says that it is.
memory_restarted :
    let c = run (stopped false ∷ pushed false faster ∷ turned_loop ∷ []) turned in
    (c.process.effective.memory_profiler_enabled ≡ some true)
    × (c.process.native.sampling_heap ≡ false)
unfolding run step boot new_controller start_initial start_cpu stop_cpu apply apply_cpu_memory
    enable_cpu apply_callgraphs start_profiling start_native record_enabled record_disabled
    record_effective_state turn run_immediates immediate stop_session start_snapshot_profiling
memory_restarted = (refl, refl)

-- A parser of URLs that finds no path, and a document that declares a memory profiler.
abbrev no_paths : UrlParser
no_paths = record { path_of = λ t. none; with_path = λ t p. t }

abbrev declares_memory : Yaml
declares_memory = mapping (
    field "distribution"
      (mapping (
        field "splunk"
          (mapping (
            field "profiling"
              (mapping (field "always_on" (mapping (field "memory_profiler" null end)) end)) end))
          end))
      end)

apply_cpu_memory-report_example :
    let report =
      get_effective_declarative_config no_paths
        (λ t. none)
        declares_memory
        (effective_state fresh) in
    apply_cpu_memory true (profiling_config report) fresh ≡ (none, fresh)
unfolding boot start_initial start_cpu start_profiling start_native record_enabled new_controller
apply_cpu_memory-report_example =
    apply_cpu_memory-report no_paths (λ t. none) declares_memory fresh true Reported-fresh
      (λ h. omega arith)
