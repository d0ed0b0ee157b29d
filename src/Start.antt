-- ===== src/Start.antt =====
-- src/start.ts: the start and the stop of the distribution, on the profiling controller and the
-- snapshot profiler. Of the other signals it keeps whether they run.
-- The values of the variables are arguments, as getNonEmptyConfigVar and getConfigBoolean read them.
pub mod Laws
pub mod Again
pub mod Tests
use splunk_otel_js.Common.{
  ℕ, Bool, true, false, not, ◌&&◌, ◌||◌, Option, none, some, Text, if◌then◌else◌, or_else,
}
use splunk_otel_js.Opamp.EffectiveState.{EffectiveState, empty_state, record_effective_state}
use splunk_otel_js.Configuration.Env.{BooleanResult, parse_env_boolean_string}
use splunk_otel_js.Configuration.Document.{Checked, returned, thrown}
use splunk_otel_js.Tracing.Snapshots.{Snapshots, start_snapshot_profiling, stop_snapshot_profiling}
use splunk_otel_js.Profiling.Start.{ProfilingOptions, Process}
use splunk_otel_js.Profiling.Controller.{
  Controller, new_controller, Failure, start_initial, stop_cpu,
}

-- A feature of `Options` that is `undefined` is `none`; an options object counts as true. Beside it
-- stands the text of its variable.
pub record Feature : Type 0 where
  pub option : Option Bool
  pub variable : Option Text

-- What `start` reads: whether the document is disabled, the features, and the settings of the
-- profilers; `snapshot_interval` and `has_handle` are those of the snapshot profiler,
-- and `secureapp_found` is whether `startSecureapp` gives an agent.
pub record Settings : Type 0 where
  pub disabled : Bool
  pub tracing : Feature
  pub metrics : Feature
  pub logging : Feature
  pub profiling : Feature
  pub opamp : Feature
  pub secureapp : Feature
  pub remote_config : Bool
  pub snapshot_profiling : Bool
  pub profiling_options : ProfilingOptions
  pub snapshot_interval : ℕ
  pub has_handle : Bool
  pub secureapp_found : Bool

-- `RunningState`: a field tells whether it is not `null`. The process and the snapshot profiler
-- stand in the controller, whether it is running or not; `is_started` is the variable of
-- src/tracing/index.ts.
pub record Running : Type 0 where
  pub metrics : Bool
  pub tracing : Bool
  pub logging : Bool
  pub opamp : Bool
  pub secureapp : Bool
  pub has_controller : Bool
  pub is_started : Bool
  pub controller : Controller

-- `isFeatureEnabled`.
abbrev pub or_default : BooleanResult → Bool → Checked Bool
or_default BooleanResult.missing default_value = returned default_value
or_default BooleanResult.thrown default_value = thrown
or_default (BooleanResult.boolean b) default_value = returned b

unfoldable pub is_feature_enabled : Feature → Bool → Checked Bool
is_feature_enabled f default_value = elim f.option [
  | some b ↦ returned b
  | none ↦ or_default (parse_env_boolean_string f.variable) default_value
]

-- How a call ends: it returned or threw, and what it left.
pub record Outcome : Type 0 where
  pub did_return : Bool
  pub left : Running

abbrev pub ended : Running → Outcome
ended r = record { did_return = true; left = r }

abbrev pub failed : Running → Outcome
failed r = record { did_return = false; left = r }

abbrev pub checked : Checked Bool → Running → (Bool → Outcome) → Outcome
checked thrown r next = failed r
checked (returned b) r next = next b

unfoldable pub with_feature : Feature → Bool → Running → (Bool → Outcome) → Outcome
unfolding is_feature_enabled
with_feature f default_value r next = checked (is_feature_enabled f default_value) r next

unfoldable pub record_state : EffectiveState → Running → Running
unfolding record_effective_state
record_state patch r = record r {
  controller = record r.controller {
    process = record r.controller.process {
      effective = record_effective_state patch r.controller.process.effective;
    };
  };
}

-- The steps of `start`, the last first: OpAMP, the metrics, logging with secureapp, the tracing, the
-- snapshot profiler, and the controller.
unfoldable pub start_opamp : Bool → Running → Outcome
start_opamp enabled r = ended (if enabled then record r { opamp = true } else r)

unfoldable pub start_metrics : Settings → Bool → Bool → Bool → Running → Outcome
unfolding with_feature start_opamp record_state
start_metrics s remote profiler opamp r =
    with_feature s.metrics (remote || (profiler && s.profiling_options.memory_profiling_enabled)) r
      (λ enabled.
        let recorded = record_state (record empty_state { metrics_enabled = some enabled }) r in
        start_opamp opamp (if enabled then record recorded { metrics = true } else recorded))

unfoldable pub set_logging : Bool → Bool → Running → Running
unfolding record_state
set_logging logging secureapp r =
    let recorded = record_state (record empty_state { logging_enabled = some logging }) r in
    record recorded {
      logging = if logging then true else recorded.logging;
      secureapp = if secureapp then true else recorded.secureapp;
    }

unfoldable pub start_logging : Settings → Bool → Bool → Bool → Running → Outcome
unfolding with_feature start_metrics set_logging
start_logging s remote profiler opamp r = with_feature s.secureapp false r (λ secureapp.
    with_feature s.logging false r (λ logging.
      start_metrics s remote profiler opamp
        (set_logging (logging || secureapp) (secureapp && s.secureapp_found) r)))

-- `startTracing` asserts that it was not called before; `stopTracing` does not take that back.
unfoldable pub run_tracing : Running → (Running → Outcome) → Outcome
run_tracing r next =
    if r.is_started then failed r else next (record r { tracing = true; is_started = true })

unfoldable pub start_tracing : Settings → Bool → Bool → Bool → Running → Outcome
unfolding with_feature start_logging record_state run_tracing
start_tracing s remote profiler opamp r = with_feature s.tracing true r (λ enabled.
    let recorded = record_state (record empty_state { tracing_enabled = some enabled }) r in
    let next = start_logging s remote profiler opamp in
    if enabled then run_tracing recorded next else next recorded)

unfoldable pub with_snapshots : Settings → Bool → Running → Running
unfolding start_snapshot_profiling
with_snapshots s active r = record r {
  controller = record r.controller {
    snapshots =
        start_snapshot_profiling active s.snapshot_interval s.has_handle
          r.controller.snapshots.native;
  };
}

abbrev pub start_snapshots : Settings → Bool → Running → Running
unfolding with_snapshots record_state
start_snapshots s remote r =
    if s.snapshot_profiling
    then with_snapshots s true r
    else if remote
    then with_snapshots s false r
    else record_state (record empty_state { snapshot_profiler_enabled = some false }) r

unfoldable pub own_controller :
    Settings → Bool → Bool → Bool → Running → Option Failure × Controller → Outcome
unfolding start_snapshots start_tracing
own_controller s remote profiler opamp r (some e, c) = failed (record r { controller = c })
own_controller s remote profiler opamp r (none, c) =
    start_tracing s remote profiler opamp
      (start_snapshots s remote (record r { controller = c; has_controller = true }))

unfoldable pub start_enabled : Settings → Running → Outcome
unfolding with_feature own_controller start_initial new_controller
start_enabled s r = with_feature s.opamp false r (λ opamp.
    with_feature s.profiling false r (λ profiler.
      own_controller s (opamp && s.remote_config) profiler opamp r (
        start_initial profiler
          (new_controller s.profiling_options r.controller.process r.controller.snapshots))))

-- `start`.
unfoldable pub start : Settings → Running → Outcome
unfolding start_enabled
start s r =
    if r.logging || r.metrics || r.has_controller || r.tracing
    then failed r
    else if s.disabled
    then ended r
    else start_enabled s r

-- `stop`: what it does at once, and then the stop that the controller has queued.
unfoldable pub stop_at_once : Running → Running
unfolding stop_snapshot_profiling
stop_at_once r = record r {
  opamp = false;
  logging = false;
  metrics = false;
  tracing = false;
  secureapp = false;
  has_controller = false;
  controller = record r.controller {
    snapshots = stop_snapshot_profiling r.controller.snapshots;
    process = record r.controller.process { effective = empty_state };
  };
}

unfoldable pub stop : Bool → Running → Running
unfolding stop_at_once stop_cpu
stop turned r =
    let stopped = stop_at_once r in
    if r.has_controller
    then record stopped { controller = stop_cpu turned stopped.controller }
    else stopped
