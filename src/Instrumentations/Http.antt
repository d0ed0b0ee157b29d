-- ===== src/Instrumentations/Http.antt =====
-- The hooks of the HTTP instrumentation: src/instrumentations/http.ts.
-- A hook of an application is a function on the span or the response. Headers are kept by the lower
-- case of their names, as Node.js does; `getHeader` gives the array that is kept, so `push` changes
-- the header. The parser of URLs gives nothing where it throws.
pub mod Laws
use splunk_otel_js.Common.{
  ℕ, ◌%◌, Bool, true, false, not, Option, none, some, List, [], ◌∷◌, ◌++◌, map, Text, codes, ◌==◌,
  ◌===◌, nat_eq, list_eq, if◌then◌else◌, or_else, is_empty, find, set_key, has,
}
use splunk_otel_js.Configuration.Env.{lower_case}

pub record SpanContext : Type 0 where
  pub trace_id : Text
  pub span_id : Text
  pub trace_flags : ℕ

pub record Span : Type 0 where
  pub context : SpanContext
  pub attributes : List (Text × List Text)

-- A parameter of a query, and the query.
pub data Parameter : Type 0 where
  one : Text → Parameter
  many : List Text → Parameter

abbrev pub Parameters : Type 0
Parameters = List (Text × Parameter)

-- `request instanceof IncomingMessage`, and its `url`.
pub record Request : Type 0 where
  pub is_incoming : Bool
  pub url : Option Text

pub data HeaderValue : Type 0 where
  text : Text → HeaderValue
  number : ℕ → HeaderValue
  array : List Text → HeaderValue

-- `response instanceof ServerResponse`, and its headers.
pub record Response : Type 0 where
  pub is_server : Bool
  pub headers : List (Text × HeaderValue)

abbrev pub RequestHook : Type 0
RequestHook = Request → Span → Span

abbrev pub ResponseHook : Type 0
ResponseHook = Span → Response → Response

-- `captureHttpRequestUriParams`.
pub data Capture : Type 0 where
  keys : List Text → Capture
  process : (Parameters → Span → Span) → Capture

pub record Options : Type 0 where
  pub capture_http_request_uri_params : Capture
  pub server_timing_enabled : Bool

pub record Config : Type 0 where
  pub request_hook : Option RequestHook
  pub response_hook : Option ResponseHook

unfoldable pub should_add_request_hook : Capture → Bool
should_add_request_hook (keys []) = false
should_add_request_hook _ = true

-- `k.replace(/\./g, '_')`.
abbrev pub normalize : Text → Text
normalize k = map (λ c. if c == b'.' then b'_' else c) k

-- The keys of `new Map(...)`: each once, where it stands first.
abbrev pub first_keys : List Text → List Text → List Text
first_keys seen [] = []
first_keys seen (k ∷ ks) =
    let rest = first_keys (k ∷ seen) ks in if has k seen then rest else k ∷ rest

abbrev pub values_of : Parameter → List Text
values_of (one t) = t ∷ []
values_of (many ts) = ts

abbrev pub set_attribute : Text → List Text → List (Text × List Text) → List (Text × List Text)
set_attribute name [] attributes = attributes
set_attribute name (v ∷ vs) attributes = set_key name (v ∷ vs) attributes

abbrev pub attribute_name : Text → Text
attribute_name key = codes "http.request.param." ++ normalize key

-- The loop of the hook of `captureUriParamByKeys`, on the attributes of the span.
unfoldable pub capture_keys :
    List Text → Parameters → List (Text × List Text) → List (Text × List Text)
capture_keys [] params attributes = attributes
capture_keys (k ∷ ks) params attributes = capture_keys ks params (elim (find k params) [
  | none ↦ attributes
  | some p ↦ set_attribute (attribute_name k) (values_of p) attributes
])

-- The hook of the response: `appendHeader`.
abbrev pub appended : Option HeaderValue → Text → Option HeaderValue
appended none value = some (text value)
appended (some (text existing)) value = some (text (existing ++ (codes ", " ++ value)))
appended (some (array existing)) value = some (array (existing ++ value ∷ []))
appended (some (number n)) value = none

abbrev pub set_header : Text → Option HeaderValue → Response → Response
set_header name none r = r
set_header name (some v) r = record r { headers = set_key (lower_case name) v r.headers }

unfoldable pub append_header : Text → Text → Response → Response
append_header name value r = set_header name (appended (find (lower_case name) r.headers) value) r

-- `(traceFlags & TraceFlags.SAMPLED) === TraceFlags.SAMPLED`, where SAMPLED is 1.
abbrev pub sampled : ℕ → Bool
sampled flags = flags % 2 == 1

abbrev pub traceparent : SpanContext → Text
traceparent c =
    codes "traceparent;desc=\"00-"
    ++ (c.trace_id
        ++ (codes "-"
            ++ (c.span_id
                ++ (codes "-"
                    ++ ((if sampled c.trace_flags then codes "01" else codes "00")
                        ++ codes "\"")))))

module _ (is_span_context_valid : SpanContext → Bool) (parse_query : Text → Option Parameters) where
  unfoldable pub parse_url_params : Request → Parameters
  parse_url_params request = elim request.url [ none ↦ [] | some u ↦ or_else (parse_query u) [] ]

  abbrev pub incoming_request_hook : Capture → RequestHook
  unfolding parse_url_params capture_keys
  incoming_request_hook (keys ks) request span = record span {
    attributes = capture_keys (first_keys [] ks) (parse_url_params request) span.attributes;
  }
  incoming_request_hook (process f) request span = f (parse_url_params request) span

  unfoldable pub create_http_request_hook : Options → RequestHook
  unfolding incoming_request_hook
  create_http_request_hook o request span =
      if not (is_span_context_valid span.context)
      then span
      else if request.is_incoming
      then incoming_request_hook o.capture_http_request_uri_params request span
      else span

  unfoldable pub server_timing_hook : ResponseHook
  unfolding append_header
  server_timing_hook span response =
      if not response.is_server
      then response
      else if not (is_span_context_valid span.context)
      then response
      else append_header (codes "Server-Timing") (traceparent span.context)
          (append_header (codes "Access-Control-Expose-Headers") (codes "Server-Timing") response)

  -- The hook of the instrumentation, and then that of the application.
  abbrev pub before_request : RequestHook → Option RequestHook → Option RequestHook
  before_request hook none = some hook
  before_request hook (some original) = some (λ request span. original request (hook request span))

  abbrev pub before_response : ResponseHook → Option ResponseHook → Option ResponseHook
  before_response hook none = some hook
  before_response hook (some original) = some (λ span response. original span (hook span response))

  unfoldable pub configure_http_instrumentation : Options → Config → Config
  unfolding should_add_request_hook create_http_request_hook server_timing_hook
  configure_http_instrumentation o config = record {
    request_hook =
        if should_add_request_hook o.capture_http_request_uri_params
        then before_request (create_http_request_hook o) config.request_hook
        else config.request_hook;
    response_hook =
        if o.server_timing_enabled
        then before_response server_timing_hook config.response_hook
        else config.response_hook;
  }

  -- The source repeats the code for the instrumentation by diagnostics channels.
  unfoldable pub configure_http_dc_instrumentation : Options → Config → Config
  unfolding configure_http_instrumentation
  configure_http_dc_instrumentation = configure_http_instrumentation
