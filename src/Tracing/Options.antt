-- ===== src/Tracing/Options.antt =====
-- The options of the tracing: src/tracing/options.ts, with the exporters of Exporters.antt.
-- Resources, names of services and instrumentations are left out; factories that an application gives
-- in the options are not called here. JavaScript's `||` takes a Boolean option that is false for none.
pub mod Processors
pub mod Laws
mod Tests
use splunk_otel_js.Common.{
  ℤ, pos, Bool, true, false, not, ◌&&◌, ◌||◌, Option, none, some, List, [], ◌∷◌, ◌++◌, Text, codes,
  ◌===◌, nat_eq, list_eq, if◌then◌else◌, or_else, is_some, is_empty,
}
use splunk_otel_js.Common.Yaml.{Yaml}
use splunk_otel_js.Configuration.Env.{get_non_empty_env_var, get_env_array, one_of}
use splunk_otel_js.Configuration.Document.{Checked, returned, thrown, ◌>>=◌}
use splunk_otel_js.Configuration.Instrumentations.{get_non_empty_config_var, get_config_boolean}
use splunk_otel_js.Configuration.Numbers.{get_config_number}
use splunk_otel_js.Configuration.Tracing.{
  Sampler, config_get_sampler, config_get_uri_parameter_capture,
}
use splunk_otel_js.Tracing.RuleBasedSampler.{SamplerRules, create_rule_based_sampler}

-- What `createSampler` gives: the one of the application, the one that samples all, the rules, or the
-- one of the document; none leaves the choice to the library.
pub data ChosenSampler : Type 0 where
  given always_on undetermined : ChosenSampler
  rules : SamplerRules → ChosenSampler
  configured : Sampler → ChosenSampler

abbrev pub rule_sampler : Checked SamplerRules → Checked ChosenSampler
rule_sampler (returned r) = returned (rules r)
rule_sampler thrown = thrown

pub record Limits : Type 0 where
  pub attribute_count_limit : ℤ
  pub attribute_value_length_limit : ℤ
  pub span_attribute_value_length_limit : ℤ
  pub span_attribute_count_limit : ℤ
  pub link_count_limit : ℤ
  pub event_count_limit : ℤ
  pub attribute_per_event_count_limit : ℤ
  pub attribute_per_link_count_limit : ℤ

abbrev pub default_attribute_value_length_limit : ℤ
default_attribute_value_length_limit = pos 12_000

abbrev pub default_span_link_count_limit : ℤ
default_span_link_count_limit = pos 1_000

abbrev pub default_count_limit : ℤ
default_count_limit = pos 128

-- `StartTracingOptions`: a text that is empty or missing is `none`, and a factory is `true`.
pub record StartTracingOptions : Type 0 where
  pub access_token : Option Text
  pub realm : Option Text
  pub endpoint : Option Text
  pub has_sampler : Bool
  pub server_timing_enabled : Bool
  pub database_trace_context_propagation_enabled : Bool
  pub capture_http_request_uri_params : Option (List Text)
  pub has_span_exporter_factory : Bool

-- `TracingOptions`. The default exporter factory is the list of the types that it makes; `none` is
-- that of the application.
pub record TracingOptions : Type 0 where
  pub realm : Option Text
  pub endpoint : Option Text
  pub access_token : Text
  pub server_timing_enabled : Bool
  pub capture_http_request_uri_params : List Text
  pub sampler : ChosenSampler
  pub limits : Limits
  pub database_trace_context_propagation_enabled : Bool
  pub exporter_types : Option (List Text)

abbrev pub supported_exporter_types : List Text
supported_exporter_types = codes "console" ∷ codes "otlp" ∷ codes "none" ∷ []

abbrev pub are_valid_exporter_types : List Text → Bool
are_valid_exporter_types [] = true
are_valid_exporter_types (t ∷ ts) =
    let rest = are_valid_exporter_types ts in one_of t supported_exporter_types && rest

-- `a || b`, on an option and a reader that is called only then.
abbrev pub enabled_or : Bool → Checked Bool → Checked Bool
enabled_or true b = returned true
enabled_or false b = b

abbrev pub first_of : Option Text → Option Text → Option Text
first_of (some a) b = some a
first_of none b = b

-- The environment, the document, and whether the document has a `tracer_provider`.
module _ (parse_float : Text → Option ℤ) (environ : Text → Option Text) (global : Option Yaml)
    (has_tracer_provider : Bool) where
  abbrev pub number : Text → ℤ → Checked ℤ
  unfolding get_config_number
  number key default_value = get_config_number parse_float environ global (key ∷ []) default_value

  abbrev pub env_sampler : Option Text → Checked ChosenSampler
  unfolding create_rule_based_sampler get_non_empty_env_var
  env_sampler none = returned always_on
  env_sampler (some name) =
      if name === codes "rules"
      then rule_sampler (
          create_rule_based_sampler
            (get_non_empty_env_var environ (codes "OTEL_TRACES_SAMPLER_ARG")))
      else returned undetermined

  abbrev pub own_sampler : Checked (Option Sampler) → Checked ChosenSampler
  unfolding env_sampler get_non_empty_env_var
  own_sampler thrown = thrown
  own_sampler (returned (some s)) = returned (configured s)
  own_sampler (returned none) =
      env_sampler (get_non_empty_env_var environ (codes "OTEL_TRACES_SAMPLER"))

  unfoldable pub create_sampler : Bool → Checked ChosenSampler
  unfolding own_sampler config_get_sampler
  create_sampler has_sampler =
      if has_sampler then returned given else own_sampler (config_get_sampler global)

  -- `generalLimits` and `spanLimits`, in the order in which they are read.
  unfoldable pub limits : Checked Limits
  unfolding number
  limits = number (codes "OTEL_ATTRIBUTE_COUNT_LIMIT") default_count_limit >>= (λ a.
      number (codes "OTEL_ATTRIBUTE_VALUE_LENGTH_LIMIT") default_attribute_value_length_limit
      >>= (λ b.
          number (codes "OTEL_SPAN_ATTRIBUTE_VALUE_LENGTH_LIMIT")
            default_attribute_value_length_limit
          >>= (λ c. number (codes "OTEL_SPAN_ATTRIBUTE_COUNT_LIMIT") default_count_limit >>= (λ d.
              number (codes "OTEL_SPAN_LINK_COUNT_LIMIT") default_span_link_count_limit >>= (λ e.
                number (codes "OTEL_SPAN_EVENT_COUNT_LIMIT") default_count_limit >>= (λ f.
                  number (codes "OTEL_EVENT_ATTRIBUTE_COUNT_LIMIT") default_count_limit >>= (λ g.
                    number (codes "OTEL_LINK_ATTRIBUTE_COUNT_LIMIT") default_count_limit >>= (λ h.
                      returned (record {
                        attribute_count_limit = a;
                        attribute_value_length_limit = b;
                        span_attribute_value_length_limit = c;
                        span_attribute_count_limit = d;
                        link_count_limit = e;
                        event_count_limit = f;
                        attribute_per_event_count_limit = g;
                        attribute_per_link_count_limit = h;
                      })))))))))

  unfoldable pub get_exporter_types : Option Text → Checked (List Text)
  unfolding get_env_array
  get_exporter_types realm =
      let types =
        or_else (get_env_array environ (codes "OTEL_TRACES_EXPORTER")) (codes "otlp" ∷ []) in
      if is_some realm && not (one_of (codes "otlp") types)
      then thrown
      else if are_valid_exporter_types types
      then returned types
      else thrown

  -- `defaultSpanExporterFactory`: the types, or none if the document has a provider.
  unfoldable pub default_span_exporter_factory : Option Text → Checked (List Text)
  unfolding get_exporter_types
  default_span_exporter_factory realm =
      if has_tracer_provider then returned [] else get_exporter_types realm

  abbrev pub as_option : Checked (List Text) → Checked (Option (List Text))
  as_option (returned ts) = returned (some ts)
  as_option thrown = thrown

  unfoldable pub factory_of : Bool → Option Text → Checked (Option (List Text))
  unfolding default_span_exporter_factory
  factory_of true realm = returned none
  factory_of false realm = as_option (default_span_exporter_factory realm)

  abbrev pub server_timing : StartTracingOptions → Checked Bool
  unfolding get_config_boolean
  server_timing o =
      enabled_or o.server_timing_enabled
        (get_config_boolean environ global (codes "SPLUNK_TRACE_RESPONSE_HEADER_ENABLED") true)

  abbrev pub database_propagation : StartTracingOptions → Checked Bool
  unfolding get_config_boolean
  database_propagation o = enabled_or o.database_trace_context_propagation_enabled (
      get_config_boolean environ global (codes "SPLUNK_DB_TRACE_CONTEXT_PROPAGATION_ENABLED") false)

  -- The object that is returned, and the steps in front of it, the last first.
  abbrev pub made_options :
      StartTracingOptions
      → Option Text
      → Text
      → ChosenSampler
      → Limits
      → Bool
      → Bool
      → Option (List Text)
      → TracingOptions
  made_options o realm token sampler l timing database types = record {
    realm = realm;
    endpoint = o.endpoint;
    access_token = token;
    server_timing_enabled = timing;
    capture_http_request_uri_params =
        or_else o.capture_http_request_uri_params (config_get_uri_parameter_capture global);
    sampler = sampler;
    limits = l;
    database_trace_context_propagation_enabled = database;
    exporter_types = types;
  }

  unfoldable pub with_database :
      StartTracingOptions
      → Option Text
      → Text
      → ChosenSampler
      → Limits
      → Bool
      → Bool
      → Checked TracingOptions
  with_database o realm token sampler l timing database =
      factory_of o.has_span_exporter_factory realm
      >>= (λ types. returned (made_options o realm token sampler l timing database types))

  unfoldable pub with_timing :
      StartTracingOptions
      → Option Text
      → Text
      → ChosenSampler
      → Limits
      → Bool
      → Checked TracingOptions
  with_timing o realm token sampler l timing =
      database_propagation o >>= with_database o realm token sampler l timing

  unfoldable pub with_limits :
      StartTracingOptions → Option Text → Text → ChosenSampler → Limits → Checked TracingOptions
  with_limits o realm token sampler l = server_timing o >>= with_timing o realm token sampler l

  unfoldable pub with_sampler :
      StartTracingOptions → Option Text → Text → ChosenSampler → Checked TracingOptions
  with_sampler o realm token sampler = limits >>= with_limits o realm token sampler

  unfoldable pub tracing_options : StartTracingOptions → Option Text → Text → Checked TracingOptions
  tracing_options o realm token = create_sampler o.has_sampler >>= with_sampler o realm token

  -- `_setDefaultOptions`.
  unfoldable pub set_default_options : StartTracingOptions → Checked TracingOptions
  set_default_options o =
      let token =
        or_else
          (first_of o.access_token
            (get_non_empty_config_var environ global (codes "SPLUNK_ACCESS_TOKEN")))
          [] in
      let realm =
        first_of o.realm (get_non_empty_config_var environ global (codes "SPLUNK_REALM")) in
      if is_some realm && is_empty token then thrown else tracing_options o realm token
