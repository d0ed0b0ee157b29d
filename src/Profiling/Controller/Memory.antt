-- ===== src/Profiling/Controller/Memory.antt =====
-- The heap profiler of V8 under the controller of src/profiling/ProfilingController.ts, with
-- `v8ProfilerRunning` of src/native_ext/memory_profiling.cpp.
use splunk_otel_js.Common.{
  ℕ, Bool, true, false, none, some, List, [], ◌∷◌, ◌≡◌, if◌then◌else◌, arith, subst, sym, member,
}
use splunk_otel_js.Opamp.RemoteConfig.{RemoteProfilingConfig}
use splunk_otel_js.Opamp.EffectiveState.{record_effective_state}
use splunk_otel_js.Profiling.Start.{
  NativeProfilers, Session, Process, immediate, run_immediates, turn, stop_session, start_profiling,
  start_native, record_enabled, record_disabled,
}
use splunk_otel_js.Profiling.Controller.{
  RunningProfiler, Controller, stop_cpu, start_cpu, enable_cpu, requested_interval,
  apply_cpu_memory, apply,
}
use splunk_otel_js.Profiling.Controller.Histories.{
  Step, pushed, stopped, turned_loop, step, run, apply_callgraphs-rest,
}

-- V8 samples no more, and `v8ProfilerRunning` says that it does.
abbrev pub IsLost : NativeProfilers → Type 0
IsLost n = (n.v8_profiler_running ≡ true) × (n.sampling_heap ≡ false)

immediate-IsLost : (s : Session) (p : Process) → IsLost p.native → IsLost (immediate s p).native
unfolding immediate
immediate-IsLost s p h = ground (arith, h)

run_immediates-IsLost :
    (ss : List Session) (p : Process) → IsLost p.native → IsLost (run_immediates ss p).native
unfolding run_immediates
run_immediates-IsLost [] p h = h
run_immediates-IsLost (s ∷ ss) p h =
    run_immediates-IsLost ss (immediate s p) (immediate-IsLost s p h)

turn-IsLost : (p : Process) → IsLost p.native → IsLost (turn p).native
unfolding turn
turn-IsLost p h = run_immediates-IsLost p.immediates (record p { immediates = [] }) h

turn_if-IsLost :
    (turned : Bool) (p : Process) → IsLost p.native → IsLost (if turned then turn p else p).native
turn_if-IsLost true p h = turn-IsLost p h
turn_if-IsLost false p h = h

stop_session-IsLost :
    (s : Session) (p : Process) → IsLost p.native → IsLost (stop_session s p).native
unfolding stop_session
stop_session-IsLost s p h = ground (arith, h)

stop_cpu-IsLost :
    (turned : Bool) (c : Controller)
    → IsLost c.process.native
    → IsLost (stop_cpu turned c).process.native
unfolding stop_cpu record_disabled
stop_cpu-IsLost turned c h =
    elim c.running as (λ o. IsLost (stop_cpu turned (record c { running = o })).process.native) [
      | none ↦ h
      | some r ↦
          turn_if-IsLost turned (stop_session r.session c.process)
            (stop_session-IsLost r.session c.process h)
    ]

start_cpu-IsLost :
    (interval : ℕ) (memory : Bool) (c : Controller)
    → IsLost c.process.native
    → IsLost (start_cpu interval memory c).1.process.native
unfolding start_cpu start_profiling start_native record_enabled record_disabled
start_cpu-IsLost interval memory c h = ground (arith, h)

apply_cpu_memory-IsLost :
    (turned : Bool) (config : RemoteProfilingConfig) (c : Controller)
    → IsLost c.process.native
    → IsLost (apply_cpu_memory turned config c).1.process.native
unfolding apply_cpu_memory enable_cpu
apply_cpu_memory-IsLost turned config c h =
    let interval = requested_interval config c in
    let stopped = stop_cpu-IsLost turned c h in
    ground (
      arith,
      h,
      stopped,
      start_cpu-IsLost interval config.memory_enabled c h,
      start_cpu-IsLost interval config.memory_enabled (stop_cpu turned c) stopped,
    )

step-IsLost :
    (s : Step) (c : Controller) → IsLost c.process.native → IsLost (step s c).process.native
unfolding step apply
step-IsLost (pushed turned config) c h =
    let d = (apply_cpu_memory turned config c).1 in
    let (process, _, _) = apply_callgraphs-rest config d in
    subst (λ p. IsLost p.native) (sym process) (apply_cpu_memory-IsLost turned config c h)
step-IsLost (stopped turned) c h = stop_cpu-IsLost turned c h
step-IsLost turned_loop c h = turn-IsLost c.process h

run-IsLost :
    (ss : List Step) (c : Controller) → IsLost c.process.native → IsLost (run ss c).process.native
unfolding run
run-IsLost [] c h = h
run-IsLost (s ∷ ss) c h = run-IsLost ss (step s c) (step-IsLost s c h)

stop_cpu-process :
    (turned : Bool) (c : Controller) (r : RunningProfiler)
    → c.running ≡ some r
    → let stopped = stop_session r.session c.process in
      (stop_cpu turned c).process ≡ record_disabled (if turned then turn stopped else stopped)
unfolding stop_cpu
stop_cpu-process turned c r e = ground (arith, e)

stop_session-loses :
    (s : Session) (p : Process)
    → s.options.memory_profiling_enabled ≡ true
    → p.native.v8_profiler_running ≡ true
    → IsLost (stop_session s p).native
unfolding stop_session
stop_session-loses s p m v = ground (arith, m, v)

-- Once a session with memory profiling is stopped after the heap profiler was started, V8 samples the
-- heap no more, whatever is pushed, stopped or turned afterwards.
pub run-stop_cpu-IsLost :
    (turned : Bool) (c : Controller) (r : RunningProfiler) (ss : List Step)
    → c.running ≡ some r
    → r.session.options.memory_profiling_enabled ≡ true
    → c.process.native.v8_profiler_running ≡ true
    → IsLost (run ss (stop_cpu turned c)).process.native
unfolding record_disabled
run-stop_cpu-IsLost turned c r ss e m v = run-IsLost ss (stop_cpu turned c) (
    subst (λ p. IsLost p.native) (sym (stop_cpu-process turned c r e))
      (turn_if-IsLost turned (stop_session r.session c.process)
        (stop_session-loses r.session c.process m v)))

-- A session that is stopped before its callback ran, and then the callback.
turn-stop_session :
    (s : Session) (p : Process)
    → s.options.memory_profiling_enabled ≡ true
    → p.immediates ≡ s ∷ []
    → p.native.v8_profiler_running ≡ false
    → let q = turn (record_disabled (stop_session s p)) in
      (q.native.sampling_heap ≡ true)
      × (member s.id q.memory_timers ≡ true)
      × (member s.id q.cpu_timers ≡ true)
      × (q.native.running ≡ false)
      × (q.effective.memory_profiler_enabled ≡ some false)
unfolding record_disabled stop_session turn run_immediates immediate record_effective_state
turn-stop_session s p m i v = ground (arith, m, i, v)

-- If a session with memory profiling is stopped before its callback ran, then the callback starts the
-- heap profiler and arms both timers of the session, while nothing runs and the effective state says
-- that the memory profiler is off.
turn-stop_cpu :
    (c : Controller) (r : RunningProfiler)
    → c.running ≡ some r
    → r.session.options.memory_profiling_enabled ≡ true
    → c.process.immediates ≡ r.session ∷ []
    → c.process.native.v8_profiler_running ≡ false
    → let p = turn (stop_cpu false c).process in
      (p.native.sampling_heap ≡ true)
      × (member r.session.id p.memory_timers ≡ true)
      × (member r.session.id p.cpu_timers ≡ true)
      × (p.native.running ≡ false)
      × (p.effective.memory_profiler_enabled ≡ some false)
turn-stop_cpu c r e m i v =
    rw (stop_cpu-process false c r e) (turn-stop_session r.session c.process m i v)
