-- ===== src/Metrics/Tests.antt =====
-- The theorems on the metrics at concrete inputs.
use splunk_otel_js.Common.{
  ℕ, pos, ◌+ℤ◌, Bool, true, false, not, is_some, if◌then◌else◌, Option, none, some, List, [], ◌∷◌,
  Text, codes, ◌≡◌, refl, find, nat_eq, list_eq,
}
use splunk_otel_js.Configuration.Env.{UrlParser}
use splunk_otel_js.Metrics.Views.{IncludeExclude, process}
use splunk_otel_js.Metrics.Views.Laws.{find-process}
use splunk_otel_js.Metrics.Runtime.{Runtime, V8Type, GcType, gc_pause, reset_counters}
use splunk_otel_js.Metrics.Runtime.Laws.{
  Step, collection, interval_fired, stopped, started, run, happened,
}
use splunk_otel_js.Exporters.{SslCredentials}
use splunk_otel_js.Metrics.Provider.{MetricsOptions, MeterProviderConfig, Reader, ReaderConfig}
use splunk_otel_js.Metrics.Provider.Laws.{is_refused}

abbrev keys : IncludeExclude
keys = record {
  included = some (codes "host" ∷ codes "port" ∷ []);
  excluded = some (codes "port" ∷ []);
}

abbrev attributes : List (Text × ℕ)
attributes = (codes "port", 80) ∷ (codes "host", 7) ∷ (codes "user", 3) ∷ []

find-process_example : find (codes "host") (process keys attributes) ≡ some 7
find-process_example = find-process keys attributes (codes "host")

-- With excluded keys alone, no attribute is left.
process_excluded :
    process (record { included = none; excluded = some (codes "port" ∷ []) }) attributes ≡ []
unfolding process
process_excluded = refl

abbrev fresh : Runtime
fresh = record {
  started = true;
  stats = reset_counters;
  runtime_counters = reset_counters;
  interval = true;
  calls = [];
}

abbrev steps : List Step
steps =
    collection V8Type.scavenge (pos 100) (pos 5)
    ∷ interval_fired
    ∷ stopped
    ∷ collection V8Type.other (pos 3) (pos 2)
    ∷ started
    ∷ collection V8Type.scavenge (pos 7) (pos 4)
    ∷ []

abbrev later : Runtime
later = run steps fresh

reported_total : happened gc_pause GcType.all steps ≡ pos 11
unfolding ◌+ℤ◌
reported_total = refl

abbrev options : MetricsOptions
options = record {
  otlp = record { realm = none; endpoint = none; access_token = [] };
  export_interval = pos 30_000;
  views = none;
  debug_metrics_enabled = false;
  runtime_metrics_enabled = true;
  runtime_metrics_collection_interval = pos 5_000;
}

abbrev no_urls : UrlParser
no_urls = record { path_of = λ t. none; with_path = λ t p. t }

abbrev no_variables : Text → Option Text
no_variables key = none

-- A document with one reader that has a file for the client's key and none for its certificate.
abbrev grpc_reader : ReaderConfig
grpc_reader = record {
  pull = false;
  periodic = some (
    record {
      otlp_http = none;
      otlp_grpc = some (record {
        endpoint = none;
        tls = some (record { ca_file = none; key_file = some (codes "key"); cert_file = none });
        headers = none;
        compression = none;
        timeout = none;
        temporality_preference = none;
      });
      console = false;
    },
    (none, none),
  );
}

abbrev document : MeterProviderConfig
document = record { readers = some (grpc_reader ∷ []); views = none }

-- A `createSsl` that wants both of the key and the chain, or neither.
abbrev create_ssl : SslCredentials → Bool
create_ssl c = if is_some c.private_key then is_some c.cert_chain else not (is_some c.cert_chain)

abbrev files : Text → Option Text
files path = some path

abbrev accepts : Reader → Bool
accepts r = true

document_refused :
    is_refused no_variables no_urls files create_ssl accepts (some (some document)) options ≡ true
document_refused = refl
