-- ===== src/Profiling/Controller/Refinement.antt =====
-- The controller of src/profiling/ProfilingController.ts against its contract: what the remote
-- configuration asks for is what runs and what is reported.
use splunk_otel_js.Common.{
  ℕ, Bool, true, false, Option, none, some, List, [], ◌∷◌, ◌≡◌, refl, if◌then◌else◌, arith, subst,
  Option-cases, Bool-cases, inl, inr, same_bool_iff, ==_iff, nat_eq, bool_eq,
}
use splunk_otel_js.Opamp.RemoteConfig.{RemoteProfilingConfig}
use splunk_otel_js.Opamp.EffectiveState.{record_effective_state}
use splunk_otel_js.Profiling.Start.{
  Session, Process, record_disabled, record_enabled, start_native, start_profiling, immediate,
  run_immediates, turn, stop_session,
}
use splunk_otel_js.Profiling.Controller.{
  RunningProfiler, Controller, Failure, memory_without_cpu, extension_unavailable, start_cpu,
  stop_cpu, requested_interval, enable_cpu, apply_cpu_memory, unchanged,
}

-- What runs, as the contract sees it: nothing, or a profiler with an interval and a memory switch.
abbrev pub Wanted : Type 0
Wanted = Option (ℕ × Bool)

abbrev pub view : Option RunningProfiler → Wanted
view none = none
view (some r) = some (r.sampling_interval, r.memory_enabled)

-- The contract: the failure to report and what runs afterwards, from whether the extension is there,
-- the interval to go for, the configuration and what ran before.
abbrev pub contract : Bool → ℕ → RemoteProfilingConfig → Wanted → Option Failure × Wanted
contract extension interval config before =
    if config.cpu_enabled
    then if extension
      then (none, some (interval, config.memory_enabled))
      else (some extension_unavailable, none)
    else if config.memory_enabled
    then (some memory_without_cpu, before)
    else (none, none)

-- The native profiler and the effective state say what the controller says.
abbrev pub Reported : Option RunningProfiler → Process → Type 0
Reported none p =
    (p.native.running ≡ false)
    × (p.effective.profiler_enabled ≡ some false)
    × (p.effective.memory_profiler_enabled ≡ some false)
Reported (some r) p =
    (p.extension ≡ true)
    × (p.native.running ≡ true)
    × (p.native.interval ≡ r.sampling_interval)
    × (p.effective.profiler_enabled ≡ some true)
    × (p.effective.call_stack_interval ≡ some r.sampling_interval)
    × (p.effective.memory_profiler_enabled ≡ some r.memory_enabled)

-- What a turn of the event loop leaves alone.
abbrev pub Unturned : Process → Process → Type 0
Unturned p q =
    (q.extension ≡ p.extension)
    × (q.native.running ≡ p.native.running)
    × (q.native.interval ≡ p.native.interval)
    × (q.effective ≡ p.effective)

immediate-Unturned : (s : Session) (p : Process) → Unturned p (immediate s p)
unfolding immediate
immediate-Unturned s p = ground arith

run_immediates-Unturned : (ss : List Session) (p : Process) → Unturned p (run_immediates ss p)
unfolding run_immediates
run_immediates-Unturned [] p = (refl, refl, refl, refl)
run_immediates-Unturned (s ∷ ss) p =
    ground (arith, immediate-Unturned s p, run_immediates-Unturned ss (immediate s p))

pub turn-Unturned : (p : Process) → Unturned p (turn p)
unfolding turn
turn-Unturned p = run_immediates-Unturned p.immediates (record p { immediates = [] })

pub turn-Reported : (o : Option RunningProfiler) (p : Process) → Reported o p → Reported o (turn p)
turn-Reported none p h = ground (arith, turn-Unturned p, h)
turn-Reported (some r) p h = ground (arith, turn-Unturned p, h)

stop_session-off :
    (s : Session) (p : Process)
    → ((stop_session s p).native.running ≡ false) × ((stop_session s p).extension ≡ p.extension)
unfolding stop_session
stop_session-off s p = ground arith

record_disabled-Reported :
    (p : Process)
    → p.native.running ≡ false
    → Reported none (record_disabled p) × ((record_disabled p).extension ≡ p.extension)
unfolding record_disabled record_effective_state
record_disabled-Reported p h = ((h, refl, refl), refl)

turn_if-Unturned : (turned : Bool) (p : Process) → Unturned p (if turned then turn p else p)
turn_if-Unturned true p = turn-Unturned p
turn_if-Unturned false p = (refl, refl, refl, refl)

-- What no call changes.
abbrev pub Fixed : Controller → Controller → Type 0
Fixed c d = (d.process.extension ≡ c.process.extension) × (d.base_options ≡ c.base_options)

-- A stop leaves nothing running and reports so.
pub stop_cpu-Reported :
    (turned : Bool) (c : Controller)
    → Reported c.running c.process
    → ((stop_cpu turned c).running ≡ none)
      × Reported none (stop_cpu turned c).process
      × Fixed c (stop_cpu turned c)
unfolding stop_cpu
stop_cpu-Reported turned c h = elim (Option-cases c.running) [
  | inl e ↦ ground (arith, e, subst (λ o. Reported o c.process) e h)
  | inr (r, e) ↦
      (let stopped = stop_session r.session c.process in
        ground (
          arith,
          e,
          stop_session-off r.session c.process,
          turn_if-Unturned turned stopped,
          record_disabled-Reported (if turned then turn stopped else stopped),
        ))
]

-- A start from nothing succeeds exactly with the extension, and reports what it did.
pub start_cpu-Reported :
    (interval : ℕ) (memory : Bool) (c : Controller)
    → c.running ≡ none
    → Reported none c.process
    → let (e, d) = start_cpu interval memory c in
      (e ≡ (if c.process.extension then none else some extension_unavailable))
      × (view d.running ≡ (if c.process.extension then some (interval, memory) else none))
      × Reported d.running d.process
      × Fixed c d
unfolding start_cpu start_profiling start_native record_enabled record_disabled
    record_effective_state
start_cpu-Reported interval memory c e h = ground (arith, e, h)

enable_cpu-contract :
    (turned : Bool) (interval : ℕ) (memory : Bool) (c : Controller)
    → Reported c.running c.process
    → let (e, d) = enable_cpu turned interval memory c in
      (e ≡ (if c.process.extension then none else some extension_unavailable))
      × (view d.running ≡ (if c.process.extension then some (interval, memory) else none))
      × Reported d.running d.process
      × Fixed c d
unfolding enable_cpu
enable_cpu-contract turned interval memory c h = elim (Option-cases c.running) [
  | inl e ↦
      ground
        (arith, e, start_cpu-Reported interval memory c e (subst (λ o. Reported o c.process) e h))
  | inr (r, e) ↦
      (let stopped = stop_cpu turned c in
        let (none_runs, off, kept) = stop_cpu-Reported turned c h in
        let from_off = start_cpu-Reported interval memory stopped none_runs off in
        elim (Bool-cases (unchanged r interval memory)) [
          | inl same ↦ ground (
            arith,
            e,
            same,
            h,
            subst (λ o. Reported o c.process) e h,
            ==_iff r.sampling_interval interval,
            same_bool_iff r.memory_enabled memory,
          )
          | inr other ↦ ground (arith, e, other, from_off, kept)
        ])
]

-- `_applyCpuMemory` does what the contract says, and reports it, on every branch.
pub apply_cpu_memory-contract :
    (turned : Bool) (config : RemoteProfilingConfig) (c : Controller)
    → Reported c.running c.process
    → let (e, d) = apply_cpu_memory turned config c in
      ((e, view d.running)
        ≡ contract c.process.extension (requested_interval config c) config (view c.running))
      × Reported d.running d.process
      × Fixed c d
unfolding apply_cpu_memory
apply_cpu_memory-contract turned config c h = ground (
  arith,
  h,
  enable_cpu-contract turned (requested_interval config c) config.memory_enabled c h,
  stop_cpu-Reported turned c h,
)
