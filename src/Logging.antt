-- ===== src/Logging.antt =====
-- Logging: src/logging/index.ts. Resources and names of services are left out; a provider stands as its
-- processors and limits.
pub mod Laws
mod Tests
use splunk_otel_js.Common.{
  ℤ, pos, Bool, true, false, not, ◌&&◌, Option, none, some, List, [], ◌∷◌, ◌++◌, map, Text, codes,
  ◌===◌, nat_eq, list_eq, if◌then◌else◌, or_else, set_key,
}
use splunk_otel_js.Common.Yaml.{Yaml}
use splunk_otel_js.Configuration.Env.{
  UrlParser, get_env_array, one_of, ensure_resource_path, resolve_otlp_exporter_url,
}
use splunk_otel_js.Configuration.Document.{Checked, returned, thrown, ◌>>=◌}
use splunk_otel_js.Configuration.Numbers.{get_config_number}
use splunk_otel_js.Opamp.EffectiveState.{EffectiveState, empty_state, record_effective_state}

abbrev pub supported_exporter_types : List Text
supported_exporter_types = codes "console" ∷ codes "otlp" ∷ codes "none" ∷ []

abbrev pub are_valid_exporter_types : List Text → Bool
are_valid_exporter_types [] = true
are_valid_exporter_types (t ∷ ts) =
    let rest = are_valid_exporter_types ts in one_of t supported_exporter_types && rest

-- The arguments of the constructors of OpenTelemetry.
pub record OtlpSettings : Type 0 where
  pub url : Option Text
  pub headers : Option (List (Text × Text))
  pub gzip : Bool
  pub timeout : Option ℤ

pub data LogExporter : Type 0 where
  console : LogExporter
  otlp : Option Text → LogExporter
  configured_otlp : OtlpSettings → LogExporter

-- The exporters of a document. `none` stands for `undefined`, and for `null` where the source does not
-- tell the two apart: `console: null` counts as there, `headers: null` is `some none`, and
-- `otlp_http: null` is `some none`.
pub record OtlpConfig : Type 0 where
  pub endpoint : Option Text
  pub headers : Option (Option (List (Text × Option Text)))
  pub compression : Option Text
  pub timeout : Option ℤ

pub record ExporterConfig : Type 0 where
  pub console : Bool
  pub otlp_http : Option (Option OtlpConfig)

pub record BatchConfig : Type 0 where
  pub exporter : ExporterConfig
  pub max_export_batch_size : Option ℤ
  pub schedule_delay : Option ℤ
  pub export_timeout : Option ℤ
  pub max_queue_size : Option ℤ

pub data ProcessorConfig : Type 0 where
  batch : BatchConfig → ProcessorConfig
  simple : ExporterConfig → ProcessorConfig
  other : ProcessorConfig

pub data LogRecordProcessor : Type 0 where
  default_batch : LogExporter → LogRecordProcessor
  batch : LogExporter → BatchConfig → LogRecordProcessor
  simple : LogExporter → LogRecordProcessor

-- `nameStringValuePairsToRecord`.
abbrev pub assign_pairs : List (Text × Option Text) → List (Text × Text) → List (Text × Text)
assign_pairs [] r = r
assign_pairs ((k, none) ∷ ps) r = assign_pairs ps r
assign_pairs ((k, some v) ∷ ps) r = assign_pairs ps (set_key k v r)

-- It iterates over `null`, which throws.
abbrev pub name_string_value_pairs_to_record :
    Option (Option (List (Text × Option Text))) → Checked (Option (List (Text × Text)))
name_string_value_pairs_to_record none = returned none
name_string_value_pairs_to_record (some none) = thrown
name_string_value_pairs_to_record (some (some ps)) = returned (some (assign_pairs ps []))

abbrev pub is_gzip : Option Text → Bool
is_gzip none = false
is_gzip (some c) = c === codes "gzip"

abbrev pub otlp_settings : OtlpConfig → Option (List (Text × Text)) → OtlpSettings
otlp_settings c headers = record {
  url = c.endpoint;
  headers = headers;
  gzip = is_gzip c.compression;
  timeout = c.timeout;
}

-- A field of `otlp_http: null` is read, which throws.
abbrev pub configured_exporter : Option OtlpConfig → Checked LogExporter
configured_exporter none = thrown
configured_exporter (some o) =
    name_string_value_pairs_to_record o.headers
    >>= (λ headers. returned (configured_otlp (otlp_settings o headers)))

-- `toExporter`.
unfoldable pub to_exporter : ExporterConfig → Checked LogExporter
to_exporter c =
    if c.console
    then returned console
    else (elim c.otlp_http [ some o ↦ configured_exporter o | none ↦ thrown ])

-- `accepts` is whether the constructors of a processor and of its exporter take their arguments, or
-- throw.
module _ (accepts : LogRecordProcessor → Bool) where
  abbrev pub made : LogRecordProcessor → Checked LogRecordProcessor
  made p = if accepts p then returned p else thrown

  -- The body of the loop over the processors of the document: no processor, or one.
  unfoldable pub processor_of : ProcessorConfig → Checked (List LogRecordProcessor)
  unfolding to_exporter
  processor_of (ProcessorConfig.batch c) =
      to_exporter c.exporter
      >>= (λ e. made (LogRecordProcessor.batch e c) >>= (λ p. returned (p ∷ [])))
  processor_of (ProcessorConfig.simple c) =
      to_exporter c >>= (λ e. made (LogRecordProcessor.simple e) >>= (λ p. returned (p ∷ [])))
  processor_of ProcessorConfig.other = returned []

  unfoldable pub config_processors : List ProcessorConfig → Checked (List LogRecordProcessor)
  unfolding processor_of
  config_processors [] = returned []
  config_processors (p ∷ ps) =
      processor_of p >>= (λ q. config_processors ps >>= (λ qs. returned (q ++ qs)))

  -- `processors` that are missing cannot be iterated over.
  unfoldable pub document_processors :
      Option (List ProcessorConfig) → Checked (List LogRecordProcessor)
  unfolding config_processors
  document_processors none = thrown
  document_processors (some ps) = config_processors ps

  abbrev pub make_all : List LogRecordProcessor → Checked (List LogRecordProcessor)
  make_all [] = returned []
  make_all (p ∷ ps) = made p >>= (λ q. make_all ps >>= (λ qs. returned (q ∷ qs)))

  abbrev pub all_default :
      List LogExporter × EffectiveState → Checked (List LogRecordProcessor) × EffectiveState
  all_default (es, s) = (make_all (map LogRecordProcessor.default_batch es), s)

abbrev pub logs_key : Text
logs_key = codes "OTEL_EXPORTER_OTLP_LOGS_ENDPOINT"

module _ (environ : Text → Option Text) (url : UrlParser) where
  abbrev pub record_logs_endpoint : Option Text → EffectiveState → EffectiveState
  unfolding resolve_otlp_exporter_url record_effective_state
  record_logs_endpoint endpoint s =
      record_effective_state
        (record empty_state {
          logs_endpoint = some (
              some (
                resolve_otlp_exporter_url url environ endpoint (codes "http/protobuf") logs_key
                  (codes "/v1/logs")));
        })
        s

  -- The `flatMap` of `createExporters`; no type that is left throws.
  unfoldable pub make_exporters :
      Option Text → List Text → EffectiveState → List LogExporter × EffectiveState
  unfolding record_logs_endpoint ensure_resource_path
  make_exporters endpoint [] s = ([], s)
  make_exporters endpoint (t ∷ ts) s =
      let next = if t === codes "otlp" then record_logs_endpoint endpoint s else s in
      let (es, left) = make_exporters endpoint ts next in
      (
        if t === codes "otlp"
            then otlp (ensure_resource_path url endpoint (codes "/v1/logs")) ∷ es
            else if t === codes "console"
            then console ∷ es
            else es,
        left,
      )

  unfoldable pub default_log_record_processor_factory :
      (LogRecordProcessor → Bool)
      → Option (Option (List ProcessorConfig))
      → Option Text
      → EffectiveState
      → Checked (List LogRecordProcessor) × EffectiveState
  unfolding make_exporters document_processors get_env_array
  default_log_record_processor_factory accepts none endpoint s =
      let types =
        or_else (get_env_array environ (codes "OTEL_LOGS_EXPORTER")) (codes "otlp" ∷ []) in
      if are_valid_exporter_types types
      then all_default accepts (make_exporters endpoint types s)
      else (thrown, s)
  default_log_record_processor_factory accepts (some processors) endpoint s =
      (document_processors accepts processors, s)

-- `logRecordLimits` of `startLogging`: the general limits are the defaults of those of the logs.
pub record LogRecordLimits : Type 0 where
  pub attribute_count_limit : ℤ
  pub attribute_value_length_limit : ℤ

module _ (parse_float : Text → Option ℤ) (environ : Text → Option Text) (global : Option Yaml) where
  abbrev pub number_or : Text → Text → ℤ → Checked ℤ
  unfolding get_config_number
  number_or key general default_value =
      get_config_number parse_float environ global (general ∷ []) default_value
      >>= (λ n. get_config_number parse_float environ global (key ∷ []) n)

  unfoldable pub log_record_limits : Checked LogRecordLimits
  unfolding number_or
  log_record_limits =
      number_or (codes "OTEL_LOGRECORD_ATTRIBUTE_COUNT_LIMIT") (codes "OTEL_ATTRIBUTE_COUNT_LIMIT")
        (pos 128)
      >>= (λ a.
          number_or (codes "OTEL_LOGRECORD_ATTRIBUTE_VALUE_LENGTH_LIMIT")
            (codes "OTEL_ATTRIBUTE_VALUE_LENGTH_LIMIT") (pos 12_000)
          >>= (λ b.
              returned (record { attribute_count_limit = a; attribute_value_length_limit = b })))
