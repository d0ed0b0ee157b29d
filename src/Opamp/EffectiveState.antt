-- ===== src/Opamp/EffectiveState.antt =====
-- src/opamp/effective-state.ts: what the components report that they came up with.
-- A field that nobody recorded is `none`; an endpoint can be recorded as `null`. What the snapshot
-- profiler records is kept with it, in Tracing/Snapshots.antt, and stands here for the reports.
use splunk_otel_js.Common.{ℕ, Bool, Option, none, some, Text}

pub record EffectiveState : Type 0 where
  pub tracing_enabled : Option Bool
  pub metrics_enabled : Option Bool
  pub logging_enabled : Option Bool
  pub traces_endpoint : Option (Option Text)
  pub metrics_endpoint : Option (Option Text)
  pub logs_endpoint : Option (Option Text)
  pub profiler_enabled : Option Bool
  pub memory_profiler_enabled : Option Bool
  pub call_stack_interval : Option ℕ
  pub snapshot_profiler_enabled : Option Bool
  pub snapshot_sampling_interval : Option ℕ

-- The state of the module before anything is recorded, and after `resetEffectiveState`.
abbrev pub empty_state : EffectiveState
empty_state = record {
  tracing_enabled = none;
  metrics_enabled = none;
  logging_enabled = none;
  traces_endpoint = none;
  metrics_endpoint = none;
  logs_endpoint = none;
  profiler_enabled = none;
  memory_profiler_enabled = none;
  call_stack_interval = none;
  snapshot_profiler_enabled = none;
  snapshot_sampling_interval = none;
}

abbrev pub override {ℓ} : {A : Type ℓ} → Option A → Option A → Option A
override none old = old
override (some new) old = some new

-- `recordEffectiveState` on the patch and the state.
unfoldable pub record_effective_state : EffectiveState → EffectiveState → EffectiveState
record_effective_state p s = record {
  tracing_enabled = override p.tracing_enabled s.tracing_enabled;
  metrics_enabled = override p.metrics_enabled s.metrics_enabled;
  logging_enabled = override p.logging_enabled s.logging_enabled;
  traces_endpoint = override p.traces_endpoint s.traces_endpoint;
  metrics_endpoint = override p.metrics_endpoint s.metrics_endpoint;
  logs_endpoint = override p.logs_endpoint s.logs_endpoint;
  profiler_enabled = override p.profiler_enabled s.profiler_enabled;
  memory_profiler_enabled = override p.memory_profiler_enabled s.memory_profiler_enabled;
  call_stack_interval = override p.call_stack_interval s.call_stack_interval;
  snapshot_profiler_enabled = override p.snapshot_profiler_enabled s.snapshot_profiler_enabled;
  snapshot_sampling_interval = override p.snapshot_sampling_interval s.snapshot_sampling_interval;
}
