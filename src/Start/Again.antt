-- ===== src/Start/Again.antt =====
-- Why src/start.ts does not trace a second time in a process: `isStarted` of src/tracing/index.ts.
use splunk_otel_js.Common.{
  Bool, true, false, Option, none, some, if◌then◌else◌, ◌≡◌, refl, ap, ◌∙◌, arith, Bool-cases, inl,
  inr,
}
use splunk_otel_js.Opamp.EffectiveState.{empty_state}
use splunk_otel_js.Configuration.Document.{Checked, returned, thrown}
use splunk_otel_js.Profiling.Controller.{Controller, Failure}
use splunk_otel_js.Start.{
  Feature, Settings, Running, Outcome, ended, checked, with_feature, start, start_enabled,
  start_tracing, run_tracing, start_logging, start_snapshots, with_snapshots, record_state,
  own_controller, is_feature_enabled, stop, stop_at_once,
}
use splunk_otel_js.Start.Laws.Reports.{IsReported}
use splunk_otel_js.Start.Laws.{start-Reported, stop-IsStopped, start-stopped}

checked-fails :
    (c : Checked Bool) (r : Running) (next : Bool → Outcome)
    → ((b : Bool) → (next b).did_return ≡ false)
    → (checked c r next).did_return ≡ false
checked-fails thrown r next h = refl
checked-fails (returned b) r next h = h b

with_feature-fails :
    (f : Feature) (d : Bool) (r : Running) (next : Bool → Outcome)
    → ((b : Bool) → (next b).did_return ≡ false)
    → (with_feature f d r next).did_return ≡ false
unfolding with_feature
with_feature-fails f d r next h = checked-fails (is_feature_enabled f d) r next h

run_tracing-fails :
    (r : Running) (next : Running → Outcome)
    → r.is_started ≡ true
    → (run_tracing r next).did_return ≡ false
unfolding run_tracing
run_tracing-fails r next h = rw h refl

start_tracing-fails :
    (s : Settings) (remote profiler opamp : Bool) (r : Running)
    → is_feature_enabled s.tracing true ≡ returned true
    → r.is_started ≡ true
    → (start_tracing s remote profiler opamp r).did_return ≡ false
unfolding start_tracing with_feature record_state
start_tracing-fails s remote profiler opamp r f h = rw f (
    run_tracing-fails (record_state (record empty_state { tracing_enabled = some true }) r)
      (start_logging s remote profiler opamp) h)

start_snapshots-is_started :
    (s : Settings) (remote : Bool) (r : Running)
    → (start_snapshots s remote r).is_started ≡ r.is_started
unfolding start_snapshots with_snapshots record_state
start_snapshots-is_started s remote r = elim (Bool-cases s.snapshot_profiling) [
  | inl y ↦ ground arith
  | inr n ↦ elim (Bool-cases remote) [ inl y' ↦ ground arith | inr n' ↦ ground arith ]
]

own_controller-fails :
    (s : Settings) (remote profiler opamp : Bool) (r : Running) (c : Option Failure × Controller)
    → is_feature_enabled s.tracing true ≡ returned true
    → r.is_started ≡ true
    → (own_controller s remote profiler opamp r c).did_return ≡ false
unfolding own_controller
own_controller-fails s remote profiler opamp r (some x, c) f h = refl
own_controller-fails s remote profiler opamp r (none, c) f h =
    start_tracing-fails s remote profiler opamp _ f (start_snapshots-is_started s remote _ ∙ h)

start_enabled-fails :
    (s : Settings) (r : Running)
    → is_feature_enabled s.tracing true ≡ returned true
    → r.is_started ≡ true
    → (start_enabled s r).did_return ≡ false
unfolding start_enabled
start_enabled-fails s r f h =
    with_feature-fails s.opamp _ r _
      (λ o. with_feature-fails s.profiling _ r _ (λ p. own_controller-fails s _ p o r _ f h))

stop-is_started : (turned : Bool) (r : Running) → (stop turned r).is_started ≡ r.is_started
unfolding stop stop_at_once
stop-is_started turned r = elim (Bool-cases r.has_controller) [
  | inl y ↦ ground arith
  | inr n ↦ ground arith
]

traced : (r : Running) → IsReported r → r.tracing ≡ true → r.is_started ≡ true
traced r h t = ground arith

-- After a start that returned with tracing on, and a stop, every further start with tracing enabled
-- and a document that is not disabled ends in an exception.
pub start-stop-fails :
    (s again : Settings) (turned : Bool) (r : Running)
    → (start s r).did_return ≡ true
    → s.disabled ≡ false
    → (start s r).left.tracing ≡ true
    → again.disabled ≡ false
    → is_feature_enabled again.tracing true ≡ returned true
    → (start again (stop turned (start s r).left)).did_return ≡ false
start-stop-fails s again turned r e d t a f =
    let was = traced (start s r).left (start-Reported s r e d) t in
    let stopped = stop turned (start s r).left in
    let enters = start-stopped again stopped (stop-IsStopped turned (start s r).left) in
    ap (λ (o : Outcome). o.did_return) enters
    ∙ ap (λ b. (if b then ended stopped else start_enabled again stopped).did_return) a
    ∙ (start_enabled-fails again stopped f (stop-is_started turned (start s r).left ∙ was))
