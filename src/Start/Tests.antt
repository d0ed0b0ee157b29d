-- ===== src/Start/Tests.antt =====
-- The life cycle of src/start.ts at concrete inputs.
use splunk_otel_js.Common.{true, false, none, some, [], ◌≡◌, refl, if◌then◌else◌}
use splunk_otel_js.Opamp.EffectiveState.{empty_state}
use splunk_otel_js.Tracing.Snapshots.{start_snapshot_profiling}
use splunk_otel_js.Profiling.Start.{Process}
use splunk_otel_js.Profiling.Controller.{new_controller}
use splunk_otel_js.Configuration.Env.{parse_env_boolean_string}
use splunk_otel_js.Start.{
  is_feature_enabled, Feature, Settings, Running, start, stop, start_enabled, ended, failed,
}
use splunk_otel_js.Configuration.Document.{returned}
use splunk_otel_js.Start.Again.{start-stop-fails}
use splunk_otel_js.Start.Laws.{start-IsReported, IsStopped}
use splunk_otel_js.Start.Laws.Reports.{IsReported}

abbrev unset : Feature
unset = record { option = none; variable = none }

abbrev on : Feature
on = record { option = some true; variable = none }

abbrev settings : Settings
settings = record {
  disabled = false;
  tracing = unset;
  metrics = unset;
  logging = unset;
  profiling = on;
  opamp = on;
  secureapp = on;
  remote_config = true;
  snapshot_profiling = false;
  profiling_options = record { callstack_interval = 1_000; memory_profiling_enabled = false };
  snapshot_interval = 10;
  has_handle = true;
  secureapp_found = false;
}

abbrev process : Process
process = record {
  extension = true;
  effective = empty_state;
  tracing_context_manager = false;
  profiling_context_manager = false;
  native = record {
    running = false;
    interval = 0;
    v8_profiler_running = false;
    sampling_heap = false;
  };
  next_id = 0;
  immediates = [];
  cpu_timers = [];
  memory_timers = [];
}

abbrev idle : Running
idle = record {
  metrics = false;
  tracing = false;
  logging = false;
  opamp = false;
  secureapp = false;
  has_controller = false;
  is_started = false;
  controller =
      new_controller (record { callstack_interval = 1_000; memory_profiling_enabled = false })
        process
        (start_snapshot_profiling false 10 true
          (record { running = false; interval = 1; filters = [] }));
}

first_returns : (start settings idle).did_return ≡ true
unfolding start parse_env_boolean_string
first_returns = refl

-- The tracing runs by default, the logging for secureapp, and the metrics for the remote configuration.
first_runs :
    ((start settings idle).left.tracing ≡ true)
    × ((start settings idle).left.logging ≡ true)
    × ((start settings idle).left.metrics ≡ true)
    × ((start settings idle).left.opamp ≡ true)
unfolding start parse_env_boolean_string
first_runs = (refl, refl, refl, refl)

first_traces : (start settings idle).left.tracing ≡ true
unfolding start parse_env_boolean_string
first_traces = refl

settings_trace : is_feature_enabled settings.tracing true ≡ returned true
unfolding is_feature_enabled parse_env_boolean_string
settings_trace = refl

start-IsReported_example :
    IsReported (start settings idle).left
    × (start settings (start settings idle).left ≡ failed (start settings idle).left)
    × IsStopped (stop true (start settings idle).left)
    × (start settings (stop true (start settings idle).left) ≡ (
        if settings.disabled
        then ended (stop true (start settings idle).left)
        else start_enabled settings (stop true (start settings idle).left)))
start-IsReported_example = start-IsReported settings settings true idle first_returns refl

start-stop-fails_example :
    (start settings (stop true (start settings idle).left)).did_return ≡ false
start-stop-fails_example =
    start-stop-fails settings settings true idle first_returns refl first_traces refl settings_trace
