-- ===== src/Tracing/Options/Tests.antt =====
-- The theorems on the options of the tracing at concrete inputs.
use splunk_otel_js.Common.{ℤ, pos, true, false, Option, none, some, [], ◌∷◌, Text, codes, ◌≡◌, refl}
use splunk_otel_js.Common.Yaml.{Yaml, null, mapping, field, end, property, find_field}
use splunk_otel_js.Configuration.Tracing.{config_get_uri_parameter_capture}
use splunk_otel_js.Configuration.Env.{get_env_boolean, get_non_empty_env_var}
use splunk_otel_js.Configuration.Document.{returned, at}
use splunk_otel_js.Tracing.Options.{
  StartTracingOptions, TracingOptions, ChosenSampler, Limits, set_default_options, tracing_options,
  create_sampler, with_sampler, limits, with_limits, with_timing, with_database, factory_of,
  server_timing,
}
use splunk_otel_js.Tracing.Options.Laws.{IsCoherent, set_default_options-IsCoherent}

abbrev no_numbers : Text → Option ℤ
no_numbers t = none

abbrev unset : Text → Option Text
unset key = none

abbrev given : StartTracingOptions
given = record {
  access_token = some (codes "t");
  realm = some (codes "us0");
  endpoint = none;
  has_sampler = true;
  server_timing_enabled = false;
  database_trace_context_propagation_enabled = false;
  capture_http_request_uri_params = none;
  has_span_exporter_factory = false;
}

abbrev null_limit : Yaml
null_limit =
    mapping (field "attribute_limits" (mapping (field "attribute_count_limit" null end)) end)

limit_is_null : at null_limit "attribute_limits" "attribute_count_limit" ≡ some null
unfolding at property find_field
limit_is_null = refl

abbrev default_limits : Limits
default_limits = record {
  attribute_count_limit = pos 128;
  attribute_value_length_limit = pos 12_000;
  span_attribute_value_length_limit = pos 12_000;
  span_attribute_count_limit = pos 128;
  link_count_limit = pos 1_000;
  event_count_limit = pos 128;
  attribute_per_event_count_limit = pos 128;
  attribute_per_link_count_limit = pos 128;
}

-- The option that is false is not taken over: the variable that is not set counts as true.
abbrev made : TracingOptions
made = record {
  realm = some (codes "us0");
  endpoint = none;
  access_token = codes "t";
  server_timing_enabled = true;
  capture_http_request_uri_params = [];
  sampler = ChosenSampler.given;
  limits = default_limits;
  database_trace_context_propagation_enabled = false;
  exporter_types = some (codes "otlp" ∷ []);
}

given-made : set_default_options no_numbers unset none false given ≡ returned made
unfolding set_default_options tracing_options create_sampler with_sampler limits with_limits
    with_timing with_database factory_of get_non_empty_env_var server_timing get_env_boolean
    config_get_uri_parameter_capture
given-made = refl

set_default_options-IsCoherent_example : IsCoherent no_numbers unset none false made
set_default_options-IsCoherent_example =
    set_default_options-IsCoherent no_numbers unset none false given made given-made
