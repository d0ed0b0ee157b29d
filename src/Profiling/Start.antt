-- ===== src/Profiling/Start.antt =====
-- startProfiling of src/profiling/index.ts, with the part of the native extension that it drives
-- (src/native_ext/profiling.cpp and memory_profiling.cpp): the one CPU profiler of its name, and the
-- heap profiler of V8.
-- A sampled profile and its exporters are left out; a timer stands for the collection that it does.
use splunk_otel_js.Common.{
  ℕ, ◌+◌, Bool, true, false, not, List, [], ◌∷◌, ◌++◌, some, if◌then◌else◌, without,
}
use splunk_otel_js.Opamp.EffectiveState.{EffectiveState, empty_state, record_effective_state}

-- `running` and the interval of the CPU profiler; `v8ProfilerRunning`, and whether V8 samples the
-- heap.
pub record NativeProfilers : Type 0 where
  pub running : Bool
  pub interval : ℕ
  pub v8_profiler_running : Bool
  pub sampling_heap : Bool

-- `stop` of the extension.
abbrev pub stop_native : NativeProfilers → NativeProfilers
stop_native n = record n { running = false }

abbrev pub start_memory_profiling : NativeProfilers → NativeProfilers
start_memory_profiling n =
    if n.v8_profiler_running
    then n
    else record n { v8_profiler_running = true; sampling_heap = true }

abbrev pub stop_memory_profiling : NativeProfilers → NativeProfilers
stop_memory_profiling n =
    if not n.v8_profiler_running then n else record n { sampling_heap = false }

-- What of `ProfilingOptions` the start depends on.
pub record ProfilingOptions : Type 0 where
  pub callstack_interval : ℕ
  pub memory_profiling_enabled : Bool

-- The variables that a call of `startProfiling` closes over; `id` tells its timers from others'.
pub record Session : Type 0 where
  pub id : ℕ
  pub options : ProfilingOptions

-- Whether the extension can be loaded, the effective state, the two context managers, the native
-- profilers, the `setImmediate` callbacks that wait, and the collection timers that are armed.
pub record Process : Type 0 where
  pub extension : Bool
  pub effective : EffectiveState
  pub tracing_context_manager : Bool
  pub profiling_context_manager : Bool
  pub native : NativeProfilers
  pub next_id : ℕ
  pub immediates : List Session
  pub cpu_timers : List ℕ
  pub memory_timers : List ℕ

abbrev pub disabled_patch : EffectiveState
disabled_patch = record empty_state {
  profiler_enabled = some false;
  memory_profiler_enabled = some false;
}

abbrev pub enabled_patch : ProfilingOptions → EffectiveState
enabled_patch o = record empty_state {
  profiler_enabled = some true;
  call_stack_interval = some o.callstack_interval;
  memory_profiler_enabled = some o.memory_profiling_enabled;
}

unfoldable pub record_disabled : Process → Process
record_disabled p = record p { effective = record_effective_state disabled_patch p.effective }

unfoldable pub record_enabled : ProfilingOptions → Process → Process
record_enabled o p = record p { effective = record_effective_state (enabled_patch o) p.effective }

-- The context manager is enabled unless that of tracing is; it is never disabled again.
abbrev pub ensure_profiling_context_manager : Process → Process
ensure_profiling_context_manager p =
    if p.tracing_context_manager then p else record p { profiling_context_manager = true }

-- `startProfiling`: it does not start without the extension, throws if the native profiler runs
-- already, or returns a session to be stopped.
pub data StartResult : Type 0 where
  not_started thrown : StartResult
  started : Session → StartResult

unfoldable pub start_native : ProfilingOptions → Process → StartResult × Process
start_native o p =
    if p.native.running
    then (thrown, p)
    else (let session : Session = record { id = p.next_id; options = o } in
        (
          started session,
          record p {
            native = record p.native { running = true; interval = o.callstack_interval };
            next_id = p.next_id + 1;
            immediates = p.immediates ++ session ∷ [];
          },
        ))

unfoldable pub start_profiling : ProfilingOptions → Process → StartResult × Process
unfolding record_disabled record_enabled start_native
start_profiling o p =
    if not p.extension
    then (not_started, record_disabled p)
    else start_native o (ensure_profiling_context_manager (record_enabled o p))

-- The `setImmediate` callback.
unfoldable pub immediate : Session → Process → Process
immediate s p =
    let collecting = record p { cpu_timers = s.id ∷ p.cpu_timers } in
    if s.options.memory_profiling_enabled
    then record collecting {
      native = start_memory_profiling collecting.native;
      memory_timers = s.id ∷ collecting.memory_timers;
    }
    else collecting

unfoldable pub run_immediates : List Session → Process → Process
unfolding immediate
run_immediates [] p = p
run_immediates (s ∷ ss) p = run_immediates ss (immediate s p)

-- A turn of the event loop: the callbacks that wait are run, in their order.
unfoldable pub turn : Process → Process
unfolding run_immediates
turn p = run_immediates p.immediates (record p { immediates = [] })

-- `stop` of what `startProfiling` returned, up to the export that it awaits. A timer that is not
-- armed yet is `undefined`, and clearing it does nothing.
abbrev pub stop_memory : Session → Process → Process
stop_memory s p =
    if s.options.memory_profiling_enabled
    then record p {
      memory_timers = without s.id p.memory_timers;
      native = stop_memory_profiling p.native;
    }
    else p

unfoldable pub stop_session : Session → Process → Process
stop_session s p =
    let stopped = stop_memory s p in
    record stopped {
      cpu_timers = without s.id stopped.cpu_timers;
      native = stop_native stopped.native;
    }
