-- ===== src/Exporters/Laws.antt =====
-- What the OTLP exporters of src/tracing/options.ts and src/metrics/index.ts are given.
use splunk_otel_js.Common.{
  true, false, ◌||◌, [], ◌∷◌, Option, none, some, Text, codes, ◌===◌, nat_eq, list_eq,
  if◌then◌else◌, is_some, is_empty, ◌≡◌, refl, ap, arith, Bool-cases, Option-cases, inl, inr,
}
use splunk_otel_js.Configuration.Env.{
  UrlParser, get_env_value_by_precedence, ensure_resource_path, resolve_otlp_exporter_url,
}
use splunk_otel_js.Configuration.Document.{returned}
use splunk_otel_js.Opamp.EffectiveState.{EffectiveState, record_effective_state}
use splunk_otel_js.Exporters.{
  Signal, Options, Choice, Exporter, grpc, http, console, configured_http, configured_grpc, choose,
  make_exporter, otlp_exporter, http_protobuf, ingest_url, token_headers,
}

-- The URL that the constructor of an exporter is given, if any.
abbrev pub url_of : Exporter → Option Text
url_of (grpc u m) = u
url_of (http u h) = u
url_of (configured_http s) = s.url
url_of (configured_grpc s) = s.url
url_of console = none

module _ (environ : Text → Option Text) (url : UrlParser) where
  abbrev resolved : Signal → Choice → Text
  resolved s c =
      resolve_otlp_exporter_url url environ c.endpoint c.protocol s.signal_endpoint_key
        s.resource_path

  grpc_resolved :
      (s : Signal) (token : Text) (c : Choice) (e : Exporter) (v : Text)
      → (c.protocol === codes "grpc") ≡ true
      → make_exporter environ url s token c ≡ returned e
      → url_of e ≡ some v
      → resolved s c ≡ v
  unfolding make_exporter resolve_otlp_exporter_url ensure_resource_path
  grpc_resolved s token c e v g h u =
      let given : c.endpoint ≡ some v = ground (arith, g, h, u) in rw (given, g)

  nowhere : (s : Signal) → ensure_resource_path url none s.resource_path ≡ none
  unfolding ensure_resource_path
  nowhere s = refl

  http_resolved :
      (s : Signal) (token : Text) (c : Choice) (e : Exporter) (v : Text)
      → (c.protocol === codes "grpc") ≡ false
      → (c.protocol === http_protobuf) ≡ true
      → make_exporter environ url s token c ≡ returned e
      → url_of e ≡ some v
      → resolved s c ≡ v
  unfolding make_exporter resolve_otlp_exporter_url
  http_resolved s token c e v g p h u =
      let given : ensure_resource_path url c.endpoint s.resource_path ≡ some v =
        ground (arith, g, p, h, u) in
      elim (Option-cases c.endpoint) [
        | inl missing ↦ ground (arith, missing, given, nowhere s)
        | inr (w, there) ↦ ground (arith, there, given, g)
      ]

  make_exporter-resolved :
      (s : Signal) (token : Text) (c : Choice) (e : Exporter) (v : Text)
      → make_exporter environ url s token c ≡ returned e
      → url_of e ≡ some v
      → resolved s c ≡ v
  unfolding make_exporter resolve_otlp_exporter_url ensure_resource_path
  make_exporter-resolved s token c e v h u = elim (Bool-cases (c.protocol === codes "grpc")) [
    | inl g ↦ grpc_resolved s token c e v g h u
    | inr n ↦ elim (Bool-cases (c.protocol === http_protobuf)) [
      | inl p ↦ http_resolved s token c e v n p h u
      | inr q ↦ ground (arith, h, n, q)
    ]
  ]

  -- Whenever an OTLP exporter of traces or of metrics is made and its constructor is given a URL, the
  -- effective state takes up that URL for the signal, with the resource path if it has one.
  pub otlp_exporter-recorded :
      (s : Signal) (o : Options) (state : EffectiveState) (e : Exporter) (v : Text)
      → (otlp_exporter environ url s o state).0 ≡ returned e
      → url_of e ≡ some v
      → (otlp_exporter environ url s o state).1 ≡ record_effective_state (s.recorded v) state
  unfolding otlp_exporter
  otlp_exporter-recorded s o state e v h u =
      ap (λ r. record_effective_state (s.recorded r) state)
        (make_exporter-resolved s o.access_token (choose environ url s o) e v h u)

  abbrev pub env_endpoint : Signal → Option Text
  env_endpoint s =
      get_env_value_by_precedence environ
        (s.signal_endpoint_key ∷ codes "OTEL_EXPORTER_OTLP_ENDPOINT" ∷ []) none

  choose-ignored :
      (s : Signal) (o : Options)
      → is_some o.endpoint || is_some (env_endpoint s) ≡ true
      → choose environ url s o ≡ choose environ url s (record o { realm = none })
  unfolding choose
  choose-ignored s o h = elim (Option-cases o.realm) [
    | inl e ↦ ground (arith, e)
    | inr (r, e) ↦ elim (Bool-cases (is_some o.endpoint)) [
      | inl y ↦ ground (arith, e, y)
      | inr n ↦ ground (arith, e, n, h)
    ]
  ]

  choose-realm :
      (s : Signal) (o : Options) (r : Text)
      → o.realm ≡ some r
      → o.endpoint ≡ none
      → env_endpoint s ≡ none
      → choose environ url s o
        ≡ record { protocol = http_protobuf; endpoint = some (ingest_url r s.ingest_path) }
  unfolding choose
  choose-realm s o r e g h = rw (e, g, h)

  ensured :
      (u path resource_path : Text)
      → url.path_of u ≡ some path
      → (path === codes "/") ≡ false
      → ensure_resource_path url (some u) resource_path ≡ some u
  unfolding ensure_resource_path
  ensured u path resource_path p root = ground (arith, p, root)

  -- A realm with no endpoint in the options or in the environment: whatever the protocol in the
  -- environment, the exporter sends to the realm over HTTP, with the access token if there is one, and
  -- the effective state takes up the URL. The parser of URLs is to find a path that is not the root.
  otlp_exporter-realm :
      (s : Signal) (o : Options) (state : EffectiveState) (r path : Text)
      → o.realm ≡ some r
      → o.endpoint ≡ none
      → env_endpoint s ≡ none
      → url.path_of (ingest_url r s.ingest_path) ≡ some path
      → (path === codes "/") ≡ false
      → otlp_exporter environ url s o state ≡ (
        returned (
            http
              (some (ingest_url r s.ingest_path))
              (if is_empty o.access_token then none else some (token_headers o.access_token))),
        record_effective_state (s.recorded (ingest_url r s.ingest_path)) state,
      )
  unfolding otlp_exporter make_exporter resolve_otlp_exporter_url
  otlp_exporter-realm s o state r path e g h p root =
      rw
        (choose-realm s o r e g h, ensured (ingest_url r s.ingest_path) path s.resource_path p root)
        refl

  -- A realm beside an endpoint, in the options or in the environment, changes nothing: the exporter, its
  -- protocol and the effective state are those without a realm.
  pub otlp_exporter-realm_ignored :
      (s : Signal) (o : Options) (state : EffectiveState)
      → is_some o.endpoint || is_some (env_endpoint s) ≡ true
      → otlp_exporter environ url s o state
        ≡ otlp_exporter environ url s (record o { realm = none }) state
  unfolding otlp_exporter
  otlp_exporter-realm_ignored s o state h =
      ap
        (λ c. (
          make_exporter environ url s o.access_token c,
          record_effective_state (s.recorded (resolved s c)) state,
        ))
        (choose-ignored s o h)
