-- ===== src/Start/Laws.antt =====
-- The life cycle of src/start.ts.
pub mod Reports
use splunk_otel_js.Common.{
  not, ◌&&◌, Bool, true, false, ◌||◌, Option, none, some, if◌then◌else◌, ◌≡◌, refl, sym, ap, subst,
  ◌∙◌, arith, Bool-cases, inl, inr,
}
use splunk_otel_js.Opamp.EffectiveState.{EffectiveState, empty_state, record_effective_state}
use splunk_otel_js.Start.{
  Feature, Settings, Running, Outcome, ended, failed, checked, with_feature, start, start_enabled,
  start_opamp, start_metrics, start_logging, start_tracing, run_tracing, set_logging,
  start_snapshots, with_snapshots, record_state, own_controller, is_feature_enabled, stop,
  stop_at_once,
}
use splunk_otel_js.Configuration.Document.{Checked, returned, thrown}
use splunk_otel_js.Profiling.Controller.{Controller, Failure}
use splunk_otel_js.Start.Laws.Reports.{
  recorded, IsTracingReported, IsReported, IsIdle, with_feature_lem, Idle, start_logging-IsReported,
}

run_tracing-IsReported :
    (r : Running) (next : Running → Outcome)
    → ((recorded r).tracing_enabled ≡ some true)
    → ((t : Running)
        → IsTracingReported t
        → t.logging ≡ r.logging
        → (t.has_controller ≡ r.has_controller) × (t.metrics ≡ r.metrics)
        → (next t).did_return ≡ true
        → IsReported (next t).left)
    → (run_tracing r next).did_return ≡ true
    → IsReported (run_tracing r next).left
unfolding run_tracing
run_tracing-IsReported r next h keep e = elim (Bool-cases r.is_started) [
  | inl y ↦ ground (arith, y, e)
  | inr n ↦
      let equal : run_tracing r next ≡ next (record r { tracing = true; is_started = true }) =
        rw n refl in
      subst (λ (o : Outcome). IsReported o.left) (sym equal)
        (keep _ (h, refl) refl (refl, refl) (ap (λ (o : Outcome). o.did_return) (sym equal) ∙ e))
]

start_tracing-IsReported :
    (s : Settings) (remote profiler opamp : Bool) (r : Running)
    → Idle r
    → (start_tracing s remote profiler opamp r).did_return ≡ true
    → IsReported (start_tracing s remote profiler opamp r).left
unfolding start_tracing record_state record_effective_state
start_tracing-IsReported s remote profiler opamp r (c, (t, l, m)) e =
    with_feature_lem IsReported s.tracing _ r _ go e
  where
    next : Running → Outcome
    next = start_logging s remote profiler opamp

    go :
        (b : Bool)
        → (let recorded = record_state (record empty_state { tracing_enabled = some b }) r in
            if b then run_tracing recorded next else next recorded).did_return
          ≡ true
        → IsReported
            (let recorded = record_state (record empty_state { tracing_enabled = some b }) r in
              if b then run_tracing recorded next else next recorded).left
    go true d =
        run_tracing-IsReported _ next refl
          (λ u h p q.
            start_logging-IsReported s remote profiler opamp u h (p ∙ l) (q.0 ∙ c, q.1 ∙ m))
          d
    go false d =
        start_logging-IsReported s remote profiler opamp _
          (ap some (sym t), ap (λ b. not b || r.is_started) t) l (c, m) d

start_snapshots-Idle :
    (s : Settings) (remote : Bool) (r : Running) → Idle r → Idle (start_snapshots s remote r)
unfolding start_snapshots with_snapshots record_state
start_snapshots-Idle s remote r h = elim (Bool-cases s.snapshot_profiling) [
  | inl y ↦ ground arith
  | inr n ↦ elim (Bool-cases remote) [ inl y' ↦ ground arith | inr n' ↦ ground arith ]
]

own_controller-IsReported :
    (s : Settings) (remote profiler opamp : Bool) (r : Running) (c : Option Failure × Controller)
    → IsIdle r
    → (own_controller s remote profiler opamp r c).did_return ≡ true
    → IsReported (own_controller s remote profiler opamp r c).left
unfolding own_controller
own_controller-IsReported s remote profiler opamp r (some x, c) h e = ground arith
own_controller-IsReported s remote profiler opamp r (none, c) h e =
    start_tracing-IsReported s remote profiler opamp _ (start_snapshots-Idle s remote _ (refl, h)) e

start_enabled-IsReported :
    (s : Settings) (r : Running)
    → IsIdle r
    → (start_enabled s r).did_return ≡ true
    → IsReported (start_enabled s r).left
unfolding start_enabled
start_enabled-IsReported s r h e =
    with_feature_lem IsReported s.opamp _ r _
      (λ o.
        with_feature_lem IsReported s.profiling _ r _
          (λ p. own_controller-IsReported s _ p o r _ h))
      e

-- Nothing that `stop` looks at.
abbrev pub IsStopped : Running → Type 0
IsStopped r =
    (r.tracing ≡ false)
    × (r.logging ≡ false)
    × (r.metrics ≡ false)
    × (r.opamp ≡ false)
    × (r.secureapp ≡ false)
    × (r.has_controller ≡ false)

pub stop-IsStopped : (turned : Bool) (r : Running) → IsStopped (stop turned r)
unfolding stop stop_at_once
stop-IsStopped turned r = elim (Bool-cases r.has_controller) [
  | inl y ↦ ground arith
  | inr n ↦ ground arith
]

start-refuses : (s : Settings) (r : Running) → r.has_controller ≡ true → start s r ≡ failed r
unfolding start
start-refuses s r h = elim (Bool-cases r.logging) [
  | inl y ↦ ground arith
  | inr n ↦ elim (Bool-cases r.metrics) [ inl y ↦ ground arith | inr n' ↦ ground arith ]
]

pub start-stopped :
    (s : Settings) (r : Running)
    → IsStopped r
    → start s r ≡ (if s.disabled then ended r else start_enabled s r)
unfolding start
start-stopped s r (t, l, m, o, a, c) = rw (t, l, m, c)

start-returned :
    (s : Settings) (r : Running)
    → (start s r).did_return ≡ true
    → r.logging || r.metrics || r.has_controller || r.tracing ≡ false
unfolding start
start-returned s r e = elim (Bool-cases (r.logging || r.metrics || r.has_controller || r.tracing)) [
  | inl y ↦ elim-false (sym (ap (λ (o : Outcome). o.did_return) (refused y)) ∙ e)
  | inr n ↦ n
]
  where
    refused :
        (r.logging || r.metrics || r.has_controller || r.tracing ≡ true) → start s r ≡ failed r
    refused y = rw (y)

    elim-false : false ≡ true → r.logging || r.metrics || r.has_controller || r.tracing ≡ false
    elim-false x = ground arith

returned-IsIdle :
    (r : Running) → r.logging || r.metrics || r.has_controller || r.tracing ≡ false → IsIdle r
returned-IsIdle r n = ground arith

start-start_enabled :
    (s : Settings) (r : Running)
    → r.logging || r.metrics || r.has_controller || r.tracing ≡ false
    → s.disabled ≡ false
    → start s r ≡ start_enabled s r
unfolding start
start-start_enabled s r n d = rw (n, d)

pub start-Reported :
    (s : Settings) (r : Running)
    → (start s r).did_return ≡ true
    → s.disabled ≡ false
    → IsReported (start s r).left
start-Reported s r e d =
    let n = start-returned s r e in
    let i = start-start_enabled s r n d in
    subst (λ (o : Outcome). IsReported o.left) (sym i)
      (start_enabled-IsReported s r (returned-IsIdle r n)
        (ap (λ (o : Outcome). o.did_return) (sym i) ∙ e))

-- A start that returns, with a document that is not disabled, leaves a controller and an effective
-- state that tells, for the tracing, the logging and the metrics, which of them run; the start after
-- it is refused and changes nothing; and a stop leaves start.ts with no part that it counts as running
-- and no controller, so that a start after it gets past the guard. What the profilers still have
-- pending then is not spoken of.
pub start-IsReported :
    (s again : Settings) (turned : Bool) (r : Running)
    → (start s r).did_return ≡ true
    → s.disabled ≡ false
    → IsReported (start s r).left
      × (start again (start s r).left ≡ failed (start s r).left)
      × IsStopped (stop turned (start s r).left)
      × (start again (stop turned (start s r).left) ≡ (
          if again.disabled
          then ended (stop turned (start s r).left)
          else start_enabled again (stop turned (start s r).left)))
start-IsReported s again turned r e d =
    let reported = start-Reported s r e d in
    let stopped = stop-IsStopped turned (start s r).left in
    (reported, start-refuses again _ reported.0, stopped, start-stopped again _ stopped)
