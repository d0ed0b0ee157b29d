-- ===== src/Exporters/Tests.antt =====
-- The theorems on the OTLP exporters at concrete inputs.
use splunk_otel_js.Common.{
  Option, none, some, Text, codes, ◌≡◌, refl, ◌===◌, nat_eq, list_eq, if◌then◌else◌,
}
use splunk_otel_js.Configuration.Env.{UrlParser, get_env_value_by_precedence, get_non_empty_env_var}
use splunk_otel_js.Configuration.Document.{returned}
use splunk_otel_js.Opamp.EffectiveState.{empty_state, record_effective_state}
use splunk_otel_js.Exporters.{
  Options, Exporter, http, traces, metrics, otlp_exporter, token_headers,
}
use splunk_otel_js.Exporters.Laws.{
  otlp_exporter-recorded, otlp_exporter-realm_ignored, env_endpoint,
}

abbrev urls : UrlParser
urls = record {
  path_of = λ t. if t === codes "http://c" then some (codes "/") else some (codes "/v2");
  with_path = λ t p. codes "http://c/v1/traces";
}

abbrev unset : Text → Option Text
unset key = none

abbrev explicit : Options
explicit = record {
  realm = some (codes "us0");
  endpoint = some (codes "http://c");
  access_token = codes "t";
}

abbrev by_realm : Options
by_realm = record { realm = some (codes "us0"); endpoint = none; access_token = codes "t" }

abbrev sent_to : Exporter
sent_to = http (some (codes "http://c/v1/traces")) (some (token_headers (codes "t")))

explicit_made : (otlp_exporter unset urls traces explicit empty_state).0 ≡ returned sent_to
unfolding otlp_exporter get_non_empty_env_var
explicit_made = refl

otlp_exporter-recorded_example :
    (otlp_exporter unset urls traces explicit empty_state).1
    ≡ record_effective_state (traces.recorded (codes "http://c/v1/traces")) empty_state
otlp_exporter-recorded_example =
    otlp_exporter-recorded unset urls traces explicit empty_state sent_to
      (codes "http://c/v1/traces") explicit_made refl

nothing_set : env_endpoint unset urls metrics ≡ none
unfolding get_env_value_by_precedence get_non_empty_env_var
nothing_set = refl

otlp_exporter-realm_ignored_example :
    otlp_exporter unset urls traces explicit empty_state
    ≡ otlp_exporter unset urls traces (record explicit { realm = none }) empty_state
otlp_exporter-realm_ignored_example =
    otlp_exporter-realm_ignored unset urls traces explicit empty_state refl
