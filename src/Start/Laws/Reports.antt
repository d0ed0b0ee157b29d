-- ===== src/Start/Laws/Reports.antt =====
-- What the features of src/start.ts record in the effective state.
use splunk_otel_js.Common.{
  not, ◌&&◌, Bool, true, false, ◌||◌, some, if◌then◌else◌, ◌≡◌, refl, sym, ap, arith,
}
use splunk_otel_js.Opamp.EffectiveState.{EffectiveState, empty_state, record_effective_state}
use splunk_otel_js.Start.{
  Feature, Settings, Running, Outcome, checked, with_feature, start_opamp, start_metrics,
  start_logging, set_logging, record_state, is_feature_enabled,
}
use splunk_otel_js.Configuration.Document.{Checked, returned, thrown}

-- The effective state that the running components recorded.
abbrev pub recorded : Running → EffectiveState
recorded r = r.controller.process.effective

-- The effective state tells whether the tracing runs, and if it does, startTracing was called.
abbrev pub IsTracingReported : Running → Type 0
IsTracingReported r =
    ((recorded r).tracing_enabled ≡ some r.tracing) × (not r.tracing || r.is_started ≡ true)

-- The effective state tells which signals run.
abbrev pub IsReported : Running → Type 0
IsReported r =
    (r.has_controller ≡ true)
    × IsTracingReported r
    × ((recorded r).logging_enabled ≡ some r.logging)
    × ((recorded r).metrics_enabled ≡ some r.metrics)

abbrev pub IsIdle : Running → Type 0
IsIdle r = (r.tracing ≡ false) × (r.logging ≡ false) × (r.metrics ≡ false)

checked_lem :
    (P : Running → Type 0) (c : Checked Bool) (r : Running) (next : Bool → Outcome)
    → ((b : Bool) → (next b).did_return ≡ true → P (next b).left)
    → (checked c r next).did_return ≡ true
    → P (checked c r next).left
checked_lem _ thrown r next h e = ground arith
checked_lem _ (returned b) r next h e = h b e

pub with_feature_lem :
    (P : Running → Type 0) (f : Feature) (d : Bool) (r : Running) (next : Bool → Outcome)
    → ((b : Bool) → (next b).did_return ≡ true → P (next b).left)
    → (with_feature f d r next).did_return ≡ true
    → P (with_feature f d r next).left
unfolding with_feature
with_feature_lem P f d r next h e = checked_lem P (is_feature_enabled f d) r next h e

start_opamp-IsReported : (b : Bool) (r : Running) → IsReported r → IsReported (start_opamp b r).left
unfolding start_opamp
start_opamp-IsReported true r h = h
start_opamp-IsReported false r h = h

record_metrics :
    (b : Bool) (r : Running)
    → r.has_controller ≡ true
    → IsTracingReported r
    → (recorded r).logging_enabled ≡ some r.logging
    → r.metrics ≡ false
    → IsReported (
        let s = record_state (record empty_state { metrics_enabled = some b }) r in
        if b then record s { metrics = true } else s)
unfolding record_state record_effective_state
record_metrics true r h t l m = (h, t, l, refl)
record_metrics false r h t l m = (h, t, l, ap some (sym m))

start_metrics-IsReported :
    (s : Settings) (remote profiler opamp : Bool) (r : Running)
    → r.has_controller ≡ true
    → IsTracingReported r
    → (recorded r).logging_enabled ≡ some r.logging
    → r.metrics ≡ false
    → (start_metrics s remote profiler opamp r).did_return ≡ true
    → IsReported (start_metrics s remote profiler opamp r).left
unfolding start_metrics
start_metrics-IsReported s remote profiler opamp r h t l m e =
    with_feature_lem IsReported s.metrics _ r _
      (λ b _. start_opamp-IsReported opamp _ (record_metrics b r h t l m)) e

-- What the steps before the tracing, the logging and the metrics leave.
abbrev pub Idle : Running → Type 0
Idle r = (r.has_controller ≡ true) × IsIdle r

set_logging-tracing :
    (l b : Bool) (r : Running)
    → IsTracingReported r
    → r.logging ≡ false
    → (r.has_controller ≡ true) × (r.metrics ≡ false)
    → ((set_logging l b r).has_controller ≡ true)
      × IsTracingReported (set_logging l b r)
      × ((recorded (set_logging l b r)).logging_enabled ≡ some (set_logging l b r).logging)
      × ((set_logging l b r).metrics ≡ false)
unfolding set_logging record_state record_effective_state
set_logging-tracing true b r t h (c, m) = (c, t, refl, m)
set_logging-tracing false b r t h (c, m) = (c, t, ap some (sym h), m)

pub start_logging-IsReported :
    (s : Settings) (remote profiler opamp : Bool) (r : Running)
    → IsTracingReported r
    → r.logging ≡ false
    → (r.has_controller ≡ true) × (r.metrics ≡ false)
    → (start_logging s remote profiler opamp r).did_return ≡ true
    → IsReported (start_logging s remote profiler opamp r).left
unfolding start_logging
start_logging-IsReported s remote profiler opamp r t h c e =
    with_feature_lem IsReported s.secureapp _ r _
      (λ b. with_feature_lem IsReported s.logging _ r _ (λ l e'.
        let k = set_logging-tracing (l || b) (b && s.secureapp_found) r t h c in
        start_metrics-IsReported s remote profiler opamp _ k.0 k.1 k.2 k.3 e'))
      e
