-- ===== src/Metrics/Provider/Laws.antt =====
-- When the metrics of src/metrics/index.ts cannot be set up.
use splunk_otel_js.Common.{
  ℤ, if◌then◌else◌, Bool, true, false, not, ◌||◌, Option, none, some, List, [], ◌∷◌, Text, codes,
  ◌===◌, ===_iff, nat_eq, list_eq, or_else, ◌≡◌, refl, arith, Bool-cases, inl, inr,
}
use splunk_otel_js.Configuration.Env.{UrlParser, get_env_array}
use splunk_otel_js.Configuration.Document.{Checked, returned, thrown}
use splunk_otel_js.Opamp.EffectiveState.{EffectiveState}
use splunk_otel_js.Exporters.{
  Recorded, Exporter, console, choose, make_exporter, metrics, http_protobuf, SslCredentials,
  ExporterConfig, read_file_content, to_metric_exporter,
}
use splunk_otel_js.Metrics.Provider.{
  MeterProviderConfig, MetricsOptions, are_valid_exporter_types, readers_of, Reader, ReaderConfig,
  default_reader,
}

abbrev pub is_thrown {ℓ} : {A : Type ℓ} → Checked A → Bool
is_thrown thrown = true
is_thrown (returned a) = false

abbrev pub is_supported : Text → Bool
is_supported protocol = protocol === codes "grpc" || protocol === http_protobuf

swapped : (x y : Text) → (x === y) ≡ (y === x)
swapped x y = elim (Bool-cases (x === y)) [
  | inl h ↦ ground (arith, h, ===_iff x y, ===_iff y x)
  | inr h ↦ elim (Bool-cases (y === x)) [
    | inl k ↦ ground (arith, h, k, ===_iff x y, ===_iff y x)
    | inr k ↦ rw (h, k) refl
  ]
]

or_assoc : (a b c : Bool) → ((a || b) || c) ≡ (a || (b || c))
or_assoc true b c = refl
or_assoc false b c = refl

-- What the constructors say of an exporter that was made.
module _ (accepts : Reader → Bool) (interval : ℤ) where
  abbrev pub is_rejected : Checked Exporter → Bool
  is_rejected thrown = false
  is_rejected (returned e) = not (accepts (default_reader interval e))

  throws : Recorded (List Exporter) → Bool
  throws r = is_thrown (readers_of accepts interval r).0

module _ (environ : Text → Option Text) (url : UrlParser) (read_file : Text → Option Text)
    (create_ssl : SslCredentials → Bool) (accepts : Reader → Bool) where
  -- Whether an exporter that the environment names cannot be made: the OTLP exporter with a protocol
  -- that is neither of the two, or one that the constructors refuse.
  abbrev pub type_refused : MetricsOptions → Text → Bool
  type_refused o t =
      if t === codes "otlp"
      then not (is_supported (choose environ url metrics o.otlp).protocol)
        || is_rejected accepts o.export_interval (
            make_exporter environ url metrics o.otlp.access_token
              (choose environ url metrics o.otlp))
      else if t === codes "console"
      then is_rejected accepts o.export_interval (returned console)
      else false

  abbrev pub any_type_refused : MetricsOptions → List Text → Bool
  any_type_refused o [] = false
  any_type_refused o (t ∷ ts) = type_refused o t || any_type_refused o ts

  -- The types of the exporters that the environment names.
  abbrev pub exporter_types : List Text
  exporter_types =
      or_else (get_env_array environ (codes "OTEL_METRICS_EXPORTER")) (codes "otlp" ∷ [])

  -- Whether an exporter of the document is one over gRPC whose TLS files `createSsl` refuses.
  abbrev pub ssl_refused : ExporterConfig → Bool
  ssl_refused e = elim e.otlp_http [
    | some h ↦ false
    | none ↦ (elim e.otlp_grpc [
      | none ↦ false
      | some g ↦ (elim g.tls [
        | none ↦ false
        | some tls ↦ not (
            create_ssl (record {
              root_certs = read_file_content read_file tls.cert_file;
              private_key = read_file_content read_file tls.key_file;
              cert_chain = read_file_content read_file tls.ca_file;
            }))
      ])
    ])
  ]

  abbrev pub reader_rejected : Option ℤ → Option ℤ → Checked (Option Exporter) → Bool
  reader_rejected interval timeout thrown = false
  reader_rejected interval timeout (returned none) = false
  reader_rejected interval timeout (returned (some e)) =
      not (accepts (record { exporter = e; export_interval = interval; export_timeout = timeout }))

  abbrev pub reader_refused : ReaderConfig → Bool
  reader_refused r = if r.pull then false else (elim r.periodic [
    | none ↦ false
    | some (e, (interval, timeout)) ↦
        ssl_refused e
        || reader_rejected interval timeout (to_metric_exporter url read_file create_ssl e)
  ])

  abbrev pub any_reader_refused : List ReaderConfig → Bool
  any_reader_refused [] = false
  any_reader_refused (r ∷ rs) = reader_refused r || any_reader_refused rs

  -- Whether the provider with the default readers cannot be built. Without a `meter_provider` in a
  -- document: the environment names an exporter that does not exist, or one that cannot be made. With
  -- `meter_provider: null`: always. With any other: the readers are missing, or the TLS files of one are
  -- refused, or its constructors refuse what they are given.
  abbrev pub is_refused : Option (Option MeterProviderConfig) → MetricsOptions → Bool
  is_refused none o =
      not (are_valid_exporter_types exporter_types) || any_type_refused o exporter_types
  is_refused (some none) o = true
  is_refused (some (some c)) o = elim c.readers [ none ↦ true | some rs ↦ any_reader_refused rs ]
