-- ===== src/Logging/Tests.antt =====
-- The theorem on the logging at a concrete input.
use splunk_otel_js.Common.{zero, ℤ, pos, Bool, true, false, none, some, [], ◌∷◌, ◌≡◌, refl}
use splunk_otel_js.Logging.{
  ProcessorConfig, ExporterConfig, OtlpConfig, LogRecordProcessor, LogExporter, configured_otlp,
  to_exporter, config_processors,
}
use splunk_otel_js.Logging.Laws.{count_of, any_refused, config_processors-counted}

abbrev to_console : ExporterConfig
to_console = record { console = true; otlp_http = none }

abbrev timeout_of : ℤ → OtlpConfig
timeout_of n = record { endpoint = none; headers = none; compression = none; timeout = some n }

abbrev null_headers : OtlpConfig
null_headers = record (timeout_of (pos 5)) { headers = some none }

abbrev to_otlp : OtlpConfig → ExporterConfig
to_otlp c = record { console = false; otlp_http = some (some c) }

-- Constructors that refuse a timeout of 0.
abbrev accepts_exporter : LogExporter → Bool
accepts_exporter (configured_otlp s) = elim s.timeout [
  | none ↦ true
  | some (pos zero) ↦ false
  | some _ ↦ true
]
accepts_exporter _ = true

abbrev accepts : LogRecordProcessor → Bool
accepts (LogRecordProcessor.simple e) = accepts_exporter e
accepts _ = true

config_processors-counted_example :
    count_of (
      config_processors accepts (
        ProcessorConfig.simple to_console
        ∷ ProcessorConfig.simple (to_otlp (timeout_of (pos 5)))
        ∷ []))
    ≡ some 2
unfolding to_exporter
config_processors-counted_example =
    config_processors-counted accepts (
      ProcessorConfig.simple to_console
      ∷ ProcessorConfig.simple (to_otlp (timeout_of (pos 5)))
      ∷ [])

zero_timeout :
    any_refused accepts (ProcessorConfig.simple (to_otlp (timeout_of (pos 0))) ∷ []) ≡ true
unfolding to_exporter
zero_timeout = refl

no_headers : any_refused accepts (ProcessorConfig.simple (to_otlp null_headers) ∷ []) ≡ true
unfolding to_exporter
no_headers = refl
