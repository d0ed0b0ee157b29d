-- ===== src/Profiling/Controller/Again.antt =====
-- A configuration that is pushed to the controller of src/profiling/ProfilingController.ts again.
use splunk_otel_js.Common.{
  ℕ, Bool, true, false, Option, none, some, ◌≡◌, refl, ◌∙◌, ap, arith, subst, sym, nat_eq, bool_eq,
  option_eq, same_bool_iff, ==_iff,
}
use splunk_otel_js.Opamp.RemoteConfig.{RemoteProfilingConfig}
use splunk_otel_js.Opamp.EffectiveState.{record_effective_state}
use splunk_otel_js.Tracing.Snapshots.Again.{set_snapshot_profiling_active_again}
use splunk_otel_js.Profiling.Start.{Process, record_disabled, start_profiling}
use splunk_otel_js.Profiling.Controller.{
  RunningProfiler, Controller, stop_cpu, start_cpu, enable_cpu, requested_interval,
  apply_cpu_memory, apply_callgraphs, keep_callgraphs, apply, positive, effective_interval,
  unchanged, extension_unavailable,
}
use splunk_otel_js.Profiling.Controller.Refinement.{
  Wanted, view, contract, Reported, apply_cpu_memory-contract,
}
use splunk_otel_js.Profiling.Controller.Histories.{apply_callgraphs-rest}

-- What was applied is applied.
apply_callgraphs_again :
    (config : RemoteProfilingConfig) (c : Controller)
    → apply_callgraphs config (apply_callgraphs config c).1 ≡ apply_callgraphs config c
unfolding apply_callgraphs keep_callgraphs
apply_callgraphs_again config c =
    let interval = positive config.callgraphs_interval in
    let again =
      set_snapshot_profiling_active_again config.callgraphs_enabled interval c.snapshots in
    ground (arith, again)

record_disabled_same : (p : Process) → Reported none p → record_disabled p ≡ p
unfolding record_disabled record_effective_state
record_disabled_same p h = ground (arith, h)

start_cpu_unavailable :
    (interval : ℕ) (memory : Bool) (c : Controller)
    → c.process.extension ≡ false
    → Reported none c.process
    → start_cpu interval memory c ≡ (some extension_unavailable, c)
unfolding start_cpu start_profiling
start_cpu_unavailable interval memory c h v = ground (arith, h, record_disabled_same c.process v)

view-some :
    (o : Option RunningProfiler) (interval : ℕ) (memory : Bool)
    → view o ≡ some (interval, memory)
    → (r : RunningProfiler) × (o ≡ some r) × (unchanged r interval memory ≡ true)
view-some none interval memory h = cc h
view-some (some r) interval memory h = (
  r,
  refl,
  ground (arith, h, ==_iff r.sampling_interval interval, same_bool_iff r.memory_enabled memory),
)

view-none : (o : Option RunningProfiler) → view o ≡ none → o ≡ none
view-none none h = refl
view-none (some r) h = cc h

enable_cpu_settled :
    (turned : Bool) (interval : ℕ) (memory : Bool) (d : Controller)
    → d.process.extension ≡ true
    → view d.running ≡ some (interval, memory)
    → enable_cpu turned interval memory d ≡ (none, d)
unfolding enable_cpu
enable_cpu_settled turned interval memory d x v =
    let (r, e, same) = view-some d.running interval memory v in ground (arith, e, same)

enable_cpu_unavailable :
    (turned : Bool) (interval : ℕ) (memory : Bool) (d : Controller)
    → d.process.extension ≡ false
    → Reported d.running d.process
    → view d.running ≡ none
    → enable_cpu turned interval memory d ≡ (some extension_unavailable, d)
unfolding enable_cpu
enable_cpu_unavailable turned interval memory d x h v =
    let e = view-none d.running v in
    ground
      (arith, e, start_cpu_unavailable interval memory d x (subst (λ o. Reported o d.process) e h))

stop_cpu_settled : (turned : Bool) (d : Controller) → view d.running ≡ none → stop_cpu turned d ≡ d
unfolding stop_cpu
stop_cpu_settled turned d v = ground (arith, view-none d.running v)

-- Where the contract's outcome is what runs already, nothing changes.
pub apply_cpu_memory_settled :
    (turned : Bool) (config : RemoteProfilingConfig) (d : Controller) (before : Wanted)
    → Reported d.running d.process
    → let (e, after) = contract d.process.extension (requested_interval config d) config before in
      view d.running ≡ after → apply_cpu_memory turned config d ≡ (e, d)
unfolding apply_cpu_memory
apply_cpu_memory_settled turned config d before h v =
    let interval = requested_interval config d in
    let memory = config.memory_enabled in
    ground (
      arith,
      v,
      enable_cpu_settled turned interval memory d,
      enable_cpu_unavailable turned interval memory d,
      stop_cpu_settled turned d,
      h,
    )

-- Where the controller says what runs, to push a configuration once more has the same outcome, a
-- failure included, and changes nothing.
pub apply_idempotent :
    (first second : Bool) (config : RemoteProfilingConfig) (c : Controller)
    → Reported c.running c.process
    → apply second config (apply first config c).1 ≡ apply first config c
unfolding apply
apply_idempotent first second config c h =
    let (e, b) = apply_cpu_memory first config c in
    let (f, d) = apply_callgraphs config b in
    let (q, reported, (kept, base)) = apply_cpu_memory-contract first config c h in
    let (process, running, base') = apply_callgraphs-rest config b in
    let before = view c.running in
    let reported_d : Reported d.running d.process =
      subst (λ o. Reported o d.process) (sym running)
        (subst (λ p. Reported b.running p) (sym process) reported) in
    let same_contract : contract d.process.extension (requested_interval config d) config before
        ≡ contract c.process.extension (requested_interval config c) config before =
      ap (λ p. contract p.extension (requested_interval config d) config before) process
      ∙ ap (λ x. contract x (requested_interval config d) config before) kept
      ∙ ap
          (λ o.
            contract c.process.extension (effective_interval o (positive config.cpu_interval))
              config before)
          (base' ∙ base) in
    let settled =
      apply_cpu_memory_settled second config d before reported_d
        (ap view running ∙ ap (λ x. x.1) q ∙ sym (ap (λ x. x.1) same_contract)) in
    let first_again : apply_cpu_memory second config d ≡ (e, d) =
      settled ∙ ap (λ x. (x.0, d)) (same_contract ∙ sym q) in
    ground (arith, first_again, apply_callgraphs_again config b)
