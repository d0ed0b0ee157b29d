-- ===== src/Profiling/Controller.antt =====
-- ProfilingController of src/profiling/ProfilingController.ts, on the process of Profiling/Start.antt
-- and the snapshot profiler of Tracing/Snapshots.antt.
-- The queue runs one call at a time, so a call is one function; `turned` tells whether the event
-- loop turned while the call waited for the stop of a session.
pub mod Refinement
pub mod Histories
pub mod Outcomes
pub mod Again
pub mod Memory
pub mod Report
mod Tests
use splunk_otel_js.Common.{
  ℕ, Bool, true, false, not, ◌&&◌, Option, none, some, List, [], ◌∷◌, ◌++◌, Text, codes, ◌≡◌, ◌==◌,
  ◌===◌, nat_eq, bool_eq, option_eq, if◌then◌else◌, ℤ, is_positive, magnitude, is_some,
}
use splunk_otel_js.Opamp.RemoteConfig.{RemoteProfilingConfig}
use splunk_otel_js.Tracing.Snapshots.{Snapshots, set_snapshot_profiling_active}
use splunk_otel_js.Profiling.Start.{
  ProfilingOptions, Session, Process, not_started, thrown, started, record_disabled,
  start_profiling, turn, stop_session,
}

pub record RunningProfiler : Type 0 where
  pub session : Session
  pub sampling_interval : ℕ
  pub memory_enabled : Bool

-- The fields of the controller, and what it acts on.
pub record Controller : Type 0 where
  pub base_options : ProfilingOptions
  pub running : Option RunningProfiler
  pub callgraphs_active : Bool
  pub callgraphs_sampling_interval : Option ℕ
  pub process : Process
  pub snapshots : Snapshots

unfoldable pub new_controller : ProfilingOptions → Process → Snapshots → Controller
new_controller o p s = record {
  base_options = o;
  running = none;
  callgraphs_active = false;
  callgraphs_sampling_interval = none;
  process = p;
  snapshots = s;
}

-- What `_apply` collects.
pub data Failure : Type 0 where
  memory_without_cpu extension_unavailable already_running callgraphs_inactive : Failure

abbrev pub message : Failure → Text
message memory_without_cpu =
    codes "memory_profiler requires cpu_profiler to be enabled; ignoring memory_profiler"
message extension_unavailable =
    codes "cpu_profiler requested but the profiling extension is unavailable"
message already_running = codes "CpuProfiler: profiler already running."
message callgraphs_inactive =
    codes "callgraphs requested but snapshot profiling could not be activated"

-- `_startCpu`; `none` stands for `true`, a failure for `false`, which the caller throws for, or for
-- the error that the native profiler throws.
unfoldable pub start_cpu : ℕ → Bool → Controller → Option Failure × Controller
unfolding start_profiling
start_cpu interval memory c =
    let (result, p) =
      start_profiling
        (record c.base_options { callstack_interval = interval; memory_profiling_enabled = memory })
        c.process in
    elim result [
      | not_started ↦ (some extension_unavailable, record c { process = p })
      | thrown ↦ (some already_running, record c { process = p })
      | started s ↦ (
        none,
        record c {
          process = p;
          running =
              some (record { session = s; sampling_interval = interval; memory_enabled = memory });
        },
      )
    ]

-- `startInitial` does not look at what `_startCpu` returns, but lets it throw.
abbrev pub only_thrown : Option Failure → Option Failure
only_thrown (some already_running) = some already_running
only_thrown _ = none

unfoldable pub start_initial : Bool → Controller → Option Failure × Controller
unfolding start_cpu record_disabled
start_initial enabled c =
    if enabled
    then (let (e, d) =
          start_cpu c.base_options.callstack_interval c.base_options.memory_profiling_enabled c in
        (only_thrown e, d))
    else (none, record c { process = record_disabled c.process })

-- `_stopCpu`, and so `stopAll`.
unfoldable pub stop_cpu : Bool → Controller → Controller
unfolding stop_session turn record_disabled
stop_cpu turned c = elim c.running [
  | none ↦ c
  | some r ↦
      (let stopped = stop_session r.session c.process in
        record c {
          running = none;
          process = record_disabled (if turned then turn stopped else stopped);
        })
]

-- A requested interval, if it is a positive number.
abbrev pub positive : Option ℤ → Option ℕ
positive none = none
positive (some n) = if is_positive n then some (magnitude n) else none

abbrev pub effective_interval : ProfilingOptions → Option ℕ → ℕ
effective_interval base none = base.callstack_interval
effective_interval base (some n) = n

-- The interval that `_applyCpuMemory` goes for.
abbrev pub requested_interval : RemoteProfilingConfig → Controller → ℕ
requested_interval config c = effective_interval c.base_options (positive config.cpu_interval)

abbrev pub unchanged : RunningProfiler → ℕ → Bool → Bool
unchanged r interval memory = r.sampling_interval == interval && r.memory_enabled === memory

-- `_applyCpuMemory`.
unfoldable pub enable_cpu : Bool → ℕ → Bool → Controller → Option Failure × Controller
unfolding start_cpu stop_cpu
enable_cpu turned interval memory c = elim c.running [
  | none ↦ start_cpu interval memory c
  | some r ↦
      (if unchanged r interval memory
        then (none, c)
        else start_cpu interval memory (stop_cpu turned c))
]

unfoldable pub apply_cpu_memory :
    Bool → RemoteProfilingConfig → Controller → Option Failure × Controller
unfolding enable_cpu stop_cpu
apply_cpu_memory turned config c =
    if config.cpu_enabled
    then enable_cpu turned (requested_interval config c) config.memory_enabled c
    else if config.memory_enabled
    then (some memory_without_cpu, c)
    else (none, stop_cpu turned c)

-- `_applyCallgraphs`.
unfoldable pub keep_callgraphs : Bool → Option ℕ → Controller → Controller
keep_callgraphs effective interval c =
    let changed =
      effective && is_some interval && not (interval === c.callgraphs_sampling_interval) in
    record c {
      callgraphs_active = effective;
      callgraphs_sampling_interval = if changed then interval else c.callgraphs_sampling_interval;
    }

unfoldable pub apply_callgraphs : RemoteProfilingConfig → Controller → Option Failure × Controller
unfolding keep_callgraphs set_snapshot_profiling_active
apply_callgraphs config c =
    let interval = positive config.callgraphs_interval in
    let (effective, s) =
      set_snapshot_profiling_active config.callgraphs_enabled interval c.snapshots in
    let set = record c { snapshots = s } in
    if config.callgraphs_enabled && not effective
    then (some callgraphs_inactive, set)
    else (none, keep_callgraphs effective interval set)

-- The message of the error that `_apply` throws, if any.
abbrev pub join_failures : Option Failure → Option Failure → Option Text
join_failures none none = none
join_failures (some e) none = some (message e)
join_failures none (some f) = some (message f)
join_failures (some e) (some f) = some (message e ++ codes "; " ++ message f)

-- `_apply`.
unfoldable pub apply : Bool → RemoteProfilingConfig → Controller → Option Text × Controller
unfolding apply_cpu_memory apply_callgraphs
apply turned config c =
    let (e, d) = apply_cpu_memory turned config c in
    let (f, d') = apply_callgraphs config d in (join_failures e f, d')
