-- ===== src/Instrumentations/Http/Laws.antt =====
-- What the hooks of src/instrumentations/http.ts do to a response.
use splunk_otel_js.Common.{
  Bool, true, false, Option, none, some, List, [], ◌∷◌, ◌++◌, Text, codes, lower, join, decimal,
  ◌===◌, ===_refl, nat_eq, list_eq, if◌then◌else◌, find, find-set_key, append_assoc, ◌≡◌, refl, sym,
  ap, ◌∙◌, arith,
}
use splunk_otel_js.Configuration.Env.{lower_case}
use splunk_otel_js.Instrumentations.Http.{
  SpanContext, Span, HeaderValue, text, number, array, Response, Parameters, appended, set_header,
  append_header, server_timing_hook, traceparent,
}

-- The text that a header sends, and the values that it lists.
abbrev pub rendered : Option HeaderValue → Text
rendered none = []
rendered (some (text t)) = t
rendered (some (number n)) = decimal n
rendered (some (array vs)) = join (codes ", ") vs

abbrev pub listed : Option HeaderValue → List Text
listed none = []
listed (some (text t)) = t ∷ []
listed (some (number n)) = decimal n ∷ []
listed (some (array vs)) = vs

abbrev pub is_number : Option HeaderValue → Bool
is_number (some (number n)) = true
is_number _ = false

abbrev pub header : Text → Response → Option HeaderValue
header name r = find (lower_case name) r.headers

kept : Option HeaderValue → Option HeaderValue → Option HeaderValue
kept none old = old
kept (some new) old = some new

find-set_header :
    (name other : Text) (v : Option HeaderValue) (r : Response)
    → header other (set_header name v r)
      ≡ (if lower_case other === lower_case name then kept v (header other r) else header other r)
unfolding kept
find-set_header name other none r = ground arith
find-set_header name other (some v) r =
    find-set_key (lower_case other) (lower_case name) v r.headers

appended-rendered :
    (old : Option HeaderValue) (value : Text)
    → is_number old ≡ false
    → rendered (kept (appended old value) old) ≡ join (codes ", ") (listed old ++ value ∷ [])
unfolding kept
appended-rendered none value h = refl
appended-rendered (some (text t)) value h = sym (append_assoc t (codes ", ") value)
appended-rendered (some (array vs)) value h = refl
appended-rendered (some (number n)) value h = cc h

append_header-rendered :
    (name value : Text) (r : Response)
    → is_number (header name r) ≡ false
    → rendered (header name (append_header name value r))
      ≡ join (codes ", ") (listed (header name r) ++ value ∷ [])
unfolding append_header
append_header-rendered name value r h =
    let new = kept (appended (header name r) value) (header name r) in
    let written : header name (append_header name value r) ≡ new =
      find-set_header name name (appended (header name r) value) r
      ∙ rw (===_refl (lower_case name)) refl in
    ap rendered written ∙ appended-rendered (header name r) value h

append_header-other :
    (name other value : Text) (r : Response)
    → (lower_case other === lower_case name) ≡ false
    → header other (append_header name value r) ≡ header other r
unfolding append_header
append_header-other name other value r h =
    find-set_header name other (appended (header name r) value) r ∙ rw h refl

abbrev pub timing : Text
timing = codes "Server-Timing"

abbrev pub expose : Text
expose = codes "Access-Control-Expose-Headers"

distinct : (lower_case timing === lower_case expose) ≡ false
unfolding lower
distinct = refl

distinct_back : (lower_case expose === lower_case timing) ≡ false
unfolding lower
distinct_back = refl

module _ (is_span_context_valid : SpanContext → Bool) (parse_query : Text → Option Parameters) where
  hooked :
      (span : Span) (r : Response)
      → r.is_server ≡ true
      → is_span_context_valid span.context ≡ true
      → server_timing_hook is_span_context_valid parse_query span r
        ≡ append_header timing (traceparent span.context) (append_header expose timing r)
  unfolding server_timing_hook
  hooked span r s v = rw (s, v) refl

  -- A response of a server, for a span with a valid context: what the two headers of the hook send is
  -- what they sent before with one value more at the end, whether they were absent, a text or an array,
  -- and every other header stays as it was.
  pub server_timing_hook-rendered :
      (span : Span) (r : Response) (other : Text)
      → r.is_server ≡ true
      → is_span_context_valid span.context ≡ true
      → is_number (header timing r) ≡ false
      → is_number (header expose r) ≡ false
      → (lower_case other === lower_case timing) ≡ false
      → (lower_case other === lower_case expose) ≡ false
      → (rendered (header timing (server_timing_hook is_span_context_valid parse_query span r))
          ≡ join (codes ", ") (listed (header timing r) ++ traceparent span.context ∷ []))
        × (rendered (header expose (server_timing_hook is_span_context_valid parse_query span r))
            ≡ join (codes ", ") (listed (header expose r) ++ timing ∷ []))
        × (header other (server_timing_hook is_span_context_valid parse_query span r)
            ≡ header other r)
  server_timing_hook-rendered span r other s v t x n m =
      let first = append_header expose timing r in
      let same : header timing first ≡ header timing r =
        append_header-other expose timing timing r distinct in
      let h = hooked span r s v in
      (
        ap (λ q. rendered (header timing q)) h
            ∙ append_header-rendered timing (traceparent span.context) first (ap is_number same ∙ t)
            ∙ ap (λ o. join (codes ", ") (listed o ++ traceparent span.context ∷ [])) same,
        ap (λ q. rendered (header expose q)) h
            ∙ ap rendered
                (append_header-other timing expose (traceparent span.context) first distinct_back)
            ∙ append_header-rendered expose timing r x,
        ap (header other) h
            ∙ append_header-other timing other (traceparent span.context) first n
            ∙ append_header-other expose other timing r m,
      )
