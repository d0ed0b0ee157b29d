-- ===== src/Metrics/Provider.antt =====
-- The provider of the metrics in src/metrics/index.ts: its options, the readers and the views, with
-- getDebugMetricsViews of src/metrics/debug_metrics.ts. Resources and names of services are left out.
-- A reader stands as the arguments of its constructor, and the provider as its readers and views.
pub mod Laws
use splunk_otel_js.Common.{
  ℤ, pos, Bool, true, false, not, ◌&&◌, ◌||◌, Option, none, some, List, [], ◌∷◌, ◌++◌, map, Text,
  codes, ◌===◌, nat_eq, list_eq, if◌then◌else◌, or_else, is_some, is_empty,
}
use splunk_otel_js.Common.Yaml.{Yaml}
use splunk_otel_js.Configuration.Env.{UrlParser, get_env_array, one_of}
use splunk_otel_js.Configuration.Document.{Checked, returned, thrown, ◌>>=◌}
use splunk_otel_js.Configuration.Instrumentations.{get_non_empty_config_var, get_config_boolean}
use splunk_otel_js.Configuration.Numbers.{get_config_number}
use splunk_otel_js.Opamp.EffectiveState.{EffectiveState}
use splunk_otel_js.Exporters.{
  Recorded, with_rest, then_rest, Options, Exporter, ExporterConfig, console, create_otlp_exporter,
  to_metric_exporter, SslCredentials,
}
use splunk_otel_js.Metrics.Views.{
  View, ViewOptions, to_view_options, AggregationOption, explicit_bucket_histogram,
}

abbrev pub supported_exporter_types : List Text
supported_exporter_types = codes "console" ∷ codes "otlp" ∷ codes "none" ∷ []

-- `types.every(...)`.
abbrev pub are_valid_exporter_types : List Text → Bool
are_valid_exporter_types [] = true
are_valid_exporter_types (t ∷ ts) =
    let rest = are_valid_exporter_types ts in one_of t supported_exporter_types && rest

pub record ReaderConfig : Type 0 where
  pub pull : Bool
  pub periodic : Option (ExporterConfig × (Option ℤ × Option ℤ))

pub record MeterProviderConfig : Type 0 where
  pub readers : Option (List ReaderConfig)
  pub views : Option (List View)

-- `PeriodicExportingMetricReader`.
pub record Reader : Type 0 where
  pub exporter : Exporter
  pub export_interval : Option ℤ
  pub export_timeout : Option ℤ

pub record MeterProvider : Type 0 where
  pub views : List ViewOptions
  pub readers : List Reader

pub record MetricsOptions : Type 0 where
  pub otlp : Options
  pub export_interval : ℤ
  pub views : Option (List ViewOptions)
  pub debug_metrics_enabled : Bool
  pub runtime_metrics_enabled : Bool
  pub runtime_metrics_collection_interval : ℤ

-- A reader of the exporters that the environment names.
abbrev pub default_reader : ℤ → Exporter → Reader
default_reader interval e = record {
  exporter = e;
  export_interval = some interval;
  export_timeout = none;
}

-- `accepts` is whether the constructors of a reader and of its exporter take their arguments, or throw.
-- The effective state is the same wherever they are called, since every OTLP exporter that is made
-- records the same.
module _ (accepts : Reader → Bool) where
  abbrev pub made : Reader → Checked Reader
  made r = if accepts r then returned r else thrown

  abbrev pub make_all : List Reader → Checked (List Reader)
  make_all [] = returned []
  make_all (r ∷ rs) = made r >>= (λ q. make_all rs >>= (λ qs. returned (q ∷ qs)))

  abbrev pub readers_of : ℤ → Recorded (List Exporter) → Recorded (List Reader)
  readers_of interval (thrown, s) = (thrown, s)
  readers_of interval (returned es, s) = (make_all (map (default_reader interval) es), s)

  abbrev pub made_with : Option ℤ → Option ℤ → Option Exporter → Checked (List Reader)
  made_with interval timeout none = returned []
  made_with interval timeout (some e) =
      made (record { exporter = e; export_interval = interval; export_timeout = timeout })
      >>= (λ r. returned (r ∷ []))

module _ (environ : Text → Option Text) (url : UrlParser) (read_file : Text → Option Text)
    (create_ssl : SslCredentials → Bool) (accepts : Reader → Bool) where
  -- The `flatMap` of `createExporters`.
  unfoldable pub make_exporters : Options → List Text → EffectiveState → Recorded (List Exporter)
  unfolding create_otlp_exporter
  make_exporters o [] s = (returned [], s)
  make_exporters o (t ∷ ts) s =
      let rest = make_exporters o ts in
      if t === codes "otlp"
      then then_rest (create_otlp_exporter environ url o s) rest
      else if t === codes "console"
      then with_rest console (rest s)
      else rest s

  unfoldable pub create_exporters : Options → EffectiveState → Recorded (List Exporter)
  unfolding make_exporters get_env_array
  create_exporters o s =
      let types =
        or_else (get_env_array environ (codes "OTEL_METRICS_EXPORTER")) (codes "otlp" ∷ []) in
      if are_valid_exporter_types types then make_exporters o types s else (thrown, s)

  -- The body of the loop over the readers of the document: no reader, or one.
  unfoldable pub reader_of : ReaderConfig → Checked (List Reader)
  unfolding to_metric_exporter
  reader_of r = if r.pull then returned [] else (elim r.periodic [
    | none ↦ returned []
    | some (e, (interval, timeout)) ↦
        to_metric_exporter url read_file create_ssl e >>= made_with accepts interval timeout
  ])

  unfoldable pub config_readers : List ReaderConfig → Checked (List Reader)
  unfolding reader_of
  config_readers [] = returned []
  config_readers (r ∷ rs) = reader_of r >>= (λ q. config_readers rs >>= (λ qs. returned (q ++ qs)))

  -- `readers` that are missing cannot be iterated over.
  unfoldable pub document_readers : Option (List ReaderConfig) → Checked (List Reader)
  unfolding config_readers
  document_readers none = thrown
  document_readers (some rs) = config_readers rs

  -- `none` is no document or no `meter_provider` in it, and `some none` is `meter_provider: null`.
  unfoldable pub default_metric_reader_factory :
      Option (Option MeterProviderConfig) → MetricsOptions → EffectiveState → Recorded (List Reader)
  unfolding create_exporters document_readers
  default_metric_reader_factory none o s =
      readers_of accepts o.export_interval (create_exporters o.otlp s)
  default_metric_reader_factory (some none) o s = (returned [], s)
  default_metric_reader_factory (some (some c)) o s = (document_readers c.readers, s)

abbrev pub debug_view : Text → ViewOptions
debug_view instrument = record {
  name = none;
  description = none;
  attributes_processors = none;
  aggregation = some (
      explicit_bucket_histogram (some true)
        (pos 1_000_000 ∷ pos 100_000_000 ∷ pos 1_000_000_000 ∷ pos 10_000_000_000 ∷ []));
  aggregation_cardinality_limit = none;
  instrument_type = none;
  instrument_name = some instrument;
  instrument_unit = none;
  meter_name = none;
  meter_version = none;
  meter_schema_url = none;
}

abbrev pub get_debug_metrics_views : List ViewOptions
get_debug_metrics_views = map debug_view (
    codes "splunk.profiler.cpu.start.duration"
    ∷ codes "splunk.profiler.cpu.stop.duration"
    ∷ codes "splunk.profiler.cpu.process.duration"
    ∷ [])

abbrev pub debug_views : MetricsOptions → List ViewOptions
debug_views o = if o.debug_metrics_enabled then get_debug_metrics_views else []

-- What follows the readers: the views are those of the options, or else of the document; of
-- `meter_provider: null` the source reads `views`, which throws.
unfoldable pub views_of :
    Option (Option MeterProviderConfig) → MetricsOptions → Checked (List ViewOptions)
unfolding to_view_options
views_of none o = returned (or_else o.views [])
views_of (some none) o = thrown
views_of (some (some c)) o = returned (or_else o.views (map to_view_options (or_else c.views [])))

abbrev pub provider :
    MetricsOptions → Checked (List ViewOptions) → List Reader → Checked MeterProvider
provider o thrown readers = thrown
provider o (returned views) readers =
    returned (record { views = views ++ debug_views o; readers = readers })

abbrev pub build_with :
    Option (Option MeterProviderConfig)
    → MetricsOptions
    → Recorded (List Reader)
    → Recorded MeterProvider
unfolding views_of
build_with config o (thrown, s) = (thrown, s)
build_with config o (returned readers, s) = (provider o (views_of config o) readers, s)

-- `buildMeterProvider`, on the factory of the options.
unfoldable pub build_meter_provider :
    (EffectiveState → Recorded (List Reader))
    → Option (Option MeterProviderConfig)
    → MetricsOptions
    → EffectiveState
    → Recorded MeterProvider
unfolding build_with
build_meter_provider metric_reader_factory config o s =
    build_with config o (metric_reader_factory s)
