-- ===== src/Tracing/Options/Processors.antt =====
-- The span processors and the propagators of src/tracing/options.ts.
use splunk_otel_js.Common.{
  ℤ, Bool, Option, none, some, List, [], ◌∷◌, ◌++◌, map, Text, codes, ◌===◌, nat_eq, list_eq,
  if◌then◌else◌, or_else,
}
use splunk_otel_js.Common.Yaml.{Yaml}
use splunk_otel_js.Configuration.Env.{UrlParser, get_env_array}
use splunk_otel_js.Configuration.Document.{Checked, returned, thrown, ◌>>=◌}
use splunk_otel_js.Configuration.Tracing.{config_get_propagators}
use splunk_otel_js.Opamp.EffectiveState.{EffectiveState}
use splunk_otel_js.Exporters.{
  Recorded, with_rest, then_rest, Options, Exporter, ExporterConfig, console,
  otlp_span_exporter_factory, to_span_exporter, SslCredentials,
}

-- The options of a batch processor of the document.
pub record BatchConfig : Type 0 where
  pub exporter : ExporterConfig
  pub max_export_batch_size : Option ℤ
  pub schedule_delay : Option ℤ
  pub export_timeout : Option ℤ
  pub max_queue_size : Option ℤ

pub data ProcessorConfig : Type 0 where
  batch : BatchConfig → ProcessorConfig
  simple : ExporterConfig → ProcessorConfig
  other : ProcessorConfig

-- A batch processor that the environment asks for has no options.
pub data SpanProcessor : Type 0 where
  next_js : SpanProcessor
  default_batch : Exporter → SpanProcessor
  batch : Exporter → BatchConfig → SpanProcessor
  simple : Exporter → SpanProcessor

pub data Propagator : Type 0 where
  baggage tracecontext b3multi b3 xray : Propagator

-- `create_ssl` is as in Exporters, and `accepts` whether the constructors of a processor and of its
-- exporter take their arguments, or throw.
module _ (environ : Text → Option Text) (url : UrlParser) (read_file : Text → Option Text)
    (create_ssl : SslCredentials → Bool) (accepts : SpanProcessor → Bool) where
  -- The exporters of the default factory: `flatMap` over the types.
  unfoldable pub span_exporters : Options → List Text → EffectiveState → Recorded (List Exporter)
  unfolding otlp_span_exporter_factory
  span_exporters o [] s = (returned [], s)
  span_exporters o (t ∷ ts) s =
      let rest = span_exporters o ts in
      if t === codes "otlp"
      then then_rest (otlp_span_exporter_factory environ url o s) rest
      else if t === codes "console"
      then with_rest console (rest s)
      else rest s

  abbrev pub made : SpanProcessor → Checked SpanProcessor
  made p = if accepts p then returned p else thrown

  abbrev pub make_all : List SpanProcessor → Checked (List SpanProcessor)
  make_all [] = returned []
  make_all (p ∷ ps) = made p >>= (λ q. make_all ps >>= (λ qs. returned (q ∷ qs)))

  abbrev pub made_with : (Exporter → SpanProcessor) → Option Exporter → Checked (List SpanProcessor)
  made_with processor none = returned []
  made_with processor (some e) = made (processor e) >>= (λ p. returned (p ∷ []))

  abbrev pub batches : Bool → Recorded (List Exporter) → Recorded (List SpanProcessor)
  batches next_js_fix (thrown, s) = (thrown, s)
  batches next_js_fix (returned es, s) = (
    make_all (map SpanProcessor.default_batch es)
        >>= (λ ps. returned ((if next_js_fix then SpanProcessor.next_js ∷ [] else []) ++ ps)),
    s,
  )

  -- The body of the loop over the processors of the document.
  abbrev pub processor_of : ProcessorConfig → Checked (List SpanProcessor)
  unfolding to_span_exporter
  processor_of (ProcessorConfig.batch c) =
      to_span_exporter url read_file create_ssl c.exporter
      >>= made_with (λ e. SpanProcessor.batch e c)
  processor_of (ProcessorConfig.simple c) =
      to_span_exporter url read_file create_ssl c >>= made_with SpanProcessor.simple
  processor_of ProcessorConfig.other = returned []

  unfoldable pub config_processors : List ProcessorConfig → Checked (List SpanProcessor)
  unfolding processor_of
  config_processors [] = returned []
  config_processors (p ∷ ps) =
      processor_of p >>= (λ q. config_processors ps >>= (λ qs. returned (q ++ qs)))

  -- `processors` that are missing cannot be iterated over.
  unfoldable pub document_processors : Option (List ProcessorConfig) → Checked (List SpanProcessor)
  unfolding config_processors
  document_processors none = thrown
  document_processors (some processors) = config_processors processors

  -- On the processors of the provider of the document, if there is one, whether the Next.js fix is enabled, and the types of the
  -- default factory.
  unfoldable pub default_span_processor_factory :
      Option (Option (List ProcessorConfig))
      → Bool
      → Options
      → List Text
      → EffectiveState
      → Recorded (List SpanProcessor)
  unfolding span_exporters document_processors
  default_span_processor_factory none next_js_fix o types s =
      batches next_js_fix (span_exporters o types s)
  default_span_processor_factory (some processors) next_js_fix o types s =
      (document_processors processors, s)

-- The `switch` over a key, in front of the propagators of the keys behind it.
abbrev pub cons_propagator : Text → List Propagator → List Propagator
cons_propagator key ps =
    if key === codes "baggage"
    then Propagator.baggage ∷ ps
    else if key === codes "tracecontext"
    then Propagator.tracecontext ∷ ps
    else if key === codes "b3multi"
    then Propagator.b3multi ∷ ps
    else if key === codes "b3"
    then Propagator.b3 ∷ ps
    else if key === codes "xray"
    then Propagator.xray ∷ ps
    else ps

abbrev pub propagators_of : List Text → List Propagator
propagators_of [] = []
propagators_of (key ∷ keys) = cons_propagator key (propagators_of keys)

-- `defaultPropagatorFactory`: the parts of the composite, in their order.
unfoldable pub default_propagator_factory : (Text → Option Text) → Option Yaml → List Propagator
unfolding config_get_propagators get_env_array
default_propagator_factory environ global = propagators_of (
    or_else (config_get_propagators global) (
      or_else (get_env_array environ (codes "OTEL_PROPAGATORS"))
        (codes "tracecontext" ∷ codes "baggage" ∷ [])))
