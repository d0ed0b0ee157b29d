-- ===== src/Exporters.antt =====
-- The exporters that the signals are given: the OTLP exporters of src/tracing/options.ts and
-- src/metrics/index.ts, chosen by the environment or by a document, with src/configuration/convert.ts.
-- An exporter of OpenTelemetry stands as the arguments of its constructor.
pub mod Laws
mod Tests
use splunk_otel_js.Common.{
  ℤ, Bool, true, false, not, ◌&&◌, Option, none, some, List, [], ◌∷◌, ◌++◌, Text, codes, String,
  ◌===◌, nat_eq, list_eq, string_eq, if◌then◌else◌, or_else, is_some, is_empty, set_key,
}
use splunk_otel_js.Configuration.Env.{
  UrlParser, get_env_value_by_precedence, ensure_resource_path, resolve_otlp_exporter_url,
}
use splunk_otel_js.Configuration.Document.{Checked, returned, thrown, ◌>>=◌}
use splunk_otel_js.Opamp.EffectiveState.{EffectiveState, empty_state, record_effective_state}

-- What the factories of two signals differ in.
pub record Signal : Type 0 where
  pub protocol_keys : List Text
  pub signal_endpoint_key : Text
  pub ingest_path : Text
  pub resource_path : Text
  pub recorded : Text → EffectiveState

abbrev pub traces : Signal
traces = record {
  protocol_keys =
      codes "OTEL_EXPORTER_OTLP_TRACES_PROTOCOL" ∷ codes "OTEL_EXPORTER_OTLP_PROTOCOL" ∷ [];
  signal_endpoint_key = codes "OTEL_EXPORTER_OTLP_TRACES_ENDPOINT";
  ingest_path = codes "/v2/trace/otlp";
  resource_path = codes "/v1/traces";
  recorded = λ u. record empty_state { traces_endpoint = some (some u) };
}

abbrev pub metrics : Signal
metrics = record {
  protocol_keys =
      codes "OTEL_EXPORTER_OTLP_METRICS_PROTOCOL" ∷ codes "OTEL_EXPORTER_OTLP_PROTOCOL" ∷ [];
  signal_endpoint_key = codes "OTEL_EXPORTER_OTLP_METRICS_ENDPOINT";
  ingest_path = codes "/v2/datapoint/otlp";
  resource_path = codes "/v1/metrics";
  recorded = λ u. record empty_state { metrics_endpoint = some (some u) };
}

-- The fields of the options that are read. A realm is no empty text, and `none` where the source has
-- `undefined` or an empty one.
pub record Options : Type 0 where
  pub realm : Option Text
  pub endpoint : Option Text
  pub access_token : Text

pub record Choice : Type 0 where
  pub protocol : Text
  pub endpoint : Option Text

abbrev pub http_protobuf : Text
http_protobuf = codes "http/protobuf"

abbrev pub ingest_url : Text → Text → Text
ingest_url realm path =
    codes "https://ingest." ++ (realm ++ (codes ".observability.splunkcloud.com" ++ path))

-- `SpanExporter` and `PushMetricExporter`.
pub record HttpSettings : Type 0 where
  pub url : Option Text
  pub headers : List (Text × Text)
  pub timeout : Option ℤ
  pub gzip : Bool
  pub ca : Option Text
  pub cert : Option Text
  pub key : Option Text
  pub temporality : Option Text

-- The arguments of `credentials.createSsl` of grpc-js, in its order.
pub record SslCredentials : Type 0 where
  pub root_certs : Option Text
  pub private_key : Option Text
  pub cert_chain : Option Text

pub record GrpcSettings : Type 0 where
  pub url : Option Text
  pub metadata : List (Text × Text)
  pub timeout : Option ℤ
  pub gzip : Bool
  pub credentials : Option SslCredentials
  pub temporality : Option Text

pub data Exporter : Type 0 where
  console : Exporter
  grpc : Option Text → List (Text × Text) → Exporter
  http : Option Text → Option (List (Text × Text)) → Exporter
  configured_http : HttpSettings → Exporter
  configured_grpc : GrpcSettings → Exporter

-- The result of a call that may throw, with the effective state that it leaves.
abbrev pub Recorded : Type 0 → Type 0
Recorded A = Checked A × EffectiveState

abbrev pub with_rest : Exporter → Recorded (List Exporter) → Recorded (List Exporter)
with_rest e (returned es, s) = (returned (e ∷ es), s)
with_rest e (thrown, s) = (thrown, s)

abbrev pub then_rest :
    Checked Exporter × EffectiveState
    → (EffectiveState → Recorded (List Exporter))
    → Recorded (List Exporter)
then_rest (returned e, s) rest = with_rest e (rest s)
then_rest (thrown, s) rest = (thrown, s)

abbrev pub token_headers : Text → List (Text × Text)
token_headers token = (codes "X-SF-TOKEN", token) ∷ []

module _ (environ : Text → Option Text) (url : UrlParser) where
  unfoldable pub choose : Signal → Options → Choice
  unfolding get_env_value_by_precedence
  choose s o =
      let named =
        or_else (get_env_value_by_precedence environ s.protocol_keys none) http_protobuf in
      let env_endpoint =
        get_env_value_by_precedence environ
          (s.signal_endpoint_key ∷ codes "OTEL_EXPORTER_OTLP_ENDPOINT" ∷ []) none in
      elim o.realm [
        | none ↦ record { protocol = named; endpoint = o.endpoint }
        | some realm ↦
            (if not (is_some o.endpoint) && not (is_some env_endpoint)
              then record {
                protocol = http_protobuf;
                endpoint = some (ingest_url realm s.ingest_path);
              }
              else record { protocol = named; endpoint = o.endpoint })
      ]

  -- The `switch` on the protocol.
  unfoldable pub make_exporter : Signal → Text → Choice → Checked Exporter
  unfolding ensure_resource_path
  make_exporter s token c =
      if c.protocol === codes "grpc"
      then returned (grpc c.endpoint (if is_empty token then [] else token_headers token))
      else if c.protocol === http_protobuf
      then returned (
          http (ensure_resource_path url c.endpoint s.resource_path)
            (if is_empty token then none else some (token_headers token)))
      else thrown

  -- The endpoint is recorded first, whether the exporter can be made or not.
  unfoldable pub otlp_exporter :
      Signal → Options → EffectiveState → Checked Exporter × EffectiveState
  unfolding choose make_exporter resolve_otlp_exporter_url record_effective_state
  otlp_exporter s o state =
      let c = choose s o in
      let resolved =
        resolve_otlp_exporter_url url environ c.endpoint c.protocol s.signal_endpoint_key
          s.resource_path in
      (make_exporter s o.access_token c, record_effective_state (s.recorded resolved) state)

  unfoldable pub otlp_span_exporter_factory :
      Options → EffectiveState → Checked Exporter × EffectiveState
  unfolding otlp_exporter
  otlp_span_exporter_factory = otlp_exporter traces

  unfoldable pub create_otlp_exporter : Options → EffectiveState → Checked Exporter × EffectiveState
  unfolding otlp_exporter
  create_otlp_exporter = otlp_exporter metrics

-- The exporters of a document. `none` stands for `undefined`, and for `null` where the source does not
-- tell the two apart.
pub record Tls : Type 0 where
  pub ca_file : Option Text
  pub key_file : Option Text
  pub cert_file : Option Text

abbrev pub no_tls : Tls
no_tls = record { ca_file = none; key_file = none; cert_file = none }

-- `tls` of gRPC is read with `=== undefined`: `some no_tls` stands for `null` too.
pub record OtlpConfig : Type 0 where
  pub endpoint : Option Text
  pub tls : Option Tls
  pub headers : Option (List (Text × Option Text))
  pub compression : Option Text
  pub timeout : Option ℤ
  pub temporality_preference : Option Text

pub record ExporterConfig : Type 0 where
  pub otlp_http : Option OtlpConfig
  pub otlp_grpc : Option OtlpConfig
  pub console : Bool

-- The loop over the headers, on the object or the metadata that it fills.
abbrev pub add_headers : List (Text × Option Text) → List (Text × Text) → List (Text × Text)
add_headers [] headers = headers
add_headers ((k, none) ∷ hs) headers = add_headers hs headers
add_headers ((k, some v) ∷ hs) headers = add_headers hs (set_key k v headers)

-- `toCompression`: whether it is GZIP.
abbrev pub to_compression : Option Text → Bool
to_compression none = false
to_compression (some key) = key === codes "gzip"

-- `toAggregationTemporalityPreference`.
abbrev pub to_aggregation_temporality_preference : Option Text → Option Text
to_aggregation_temporality_preference none = none
to_aggregation_temporality_preference (some p) =
    if p === codes "cumulative"
    then some p
    else if p === codes "delta"
    then some p
    else if p === codes "low_memory"
    then some p
    else none

-- `readFileContent` on a reader of files, which gives nothing where it throws.
abbrev pub read_file_content : (Text → Option Text) → Option Text → Option Text
read_file_content read_file none = none
read_file_content read_file (some path) = read_file path

-- `create_ssl` is whether `credentials.createSsl` of grpc-js takes its arguments, or throws.
module _ (url : UrlParser) (read_file : Text → Option Text)
    (create_ssl : SslCredentials → Bool) where
  unfoldable pub configured_http_exporter : Signal → Option Text → OtlpConfig → Exporter
  unfolding ensure_resource_path
  configured_http_exporter s temporality c =
      let tls = or_else c.tls no_tls in
      configured_http (record {
        url = ensure_resource_path url c.endpoint s.resource_path;
        headers = add_headers (or_else c.headers []) [];
        timeout = c.timeout;
        gzip = to_compression c.compression;
        ca = read_file_content read_file tls.ca_file;
        cert = read_file_content read_file tls.cert_file;
        key = read_file_content read_file tls.key_file;
        temporality = temporality;
      })

  abbrev pub created_ssl : SslCredentials → Checked (Option SslCredentials)
  created_ssl c = if create_ssl c then returned (some c) else thrown

  unfoldable pub ssl_credentials : Option Tls → Checked (Option SslCredentials)
  ssl_credentials none = returned none
  ssl_credentials (some tls) = created_ssl (record {
    root_certs = read_file_content read_file tls.cert_file;
    private_key = read_file_content read_file tls.key_file;
    cert_chain = read_file_content read_file tls.ca_file;
  })

  unfoldable pub configured_grpc_exporter : Option Text → OtlpConfig → Checked (Option Exporter)
  unfolding ssl_credentials
  configured_grpc_exporter temporality c = ssl_credentials c.tls >>= (λ credentials. returned (
      some (
        configured_grpc (record {
          url = c.endpoint;
          metadata = add_headers (or_else c.headers []) [];
          timeout = c.timeout;
          gzip = to_compression c.compression;
          credentials = credentials;
          temporality = temporality;
        }))))

  -- `toSpanExporter`.
  unfoldable pub to_span_exporter : ExporterConfig → Checked (Option Exporter)
  unfolding configured_http_exporter configured_grpc_exporter
  to_span_exporter c = elim c.otlp_http [
    | some h ↦ returned (some (configured_http_exporter traces none h))
    | none ↦ (elim c.otlp_grpc [
      | some g ↦ configured_grpc_exporter none g
      | none ↦ returned (if c.console then some console else none)
    ])
  ]

  -- `toMetricExporter`.
  unfoldable pub to_metric_exporter : ExporterConfig → Checked (Option Exporter)
  unfolding configured_http_exporter configured_grpc_exporter
  to_metric_exporter c = elim c.otlp_http [
    | some h ↦ returned (
        some (
          configured_http_exporter metrics
            (to_aggregation_temporality_preference h.temporality_preference) h))
    | none ↦ (elim c.otlp_grpc [
      | some g ↦
          configured_grpc_exporter (to_aggregation_temporality_preference g.temporality_preference)
            g
      | none ↦ returned (if c.console then some console else none)
    ])
  ]
