-- ===== src/Tracing/NextJs/Laws.antt =====
-- The names that src/tracing/NextJsSpanProcessor.ts gives to the spans of requests.
use splunk_otel_js.Common.{
  ℕ, false, some, [], ◌∷◌, Text, codes, ◌==◌, nat_eq, list_eq, option_eq, if◌then◌else◌, lookup,
  before, ◌≡◌, refl, ap, arith, lookup-put, ===_iff, Bool-cases, inl, inr,
}
use splunk_otel_js.Tracing.NextJs.{Span, Processor, on_start, has_query, begin_request, begin_other}

has_query-before : (t : Text) → has_query (before b'?' t) ≡ false
unfolding before
has_query-before [] = refl
has_query-before (c ∷ t) = elim (Bool-cases (c == b'?')) [
  | inl here_it_is ↦ ground (arith, here_it_is)
  | inr other ↦ ground (arith, other, has_query-before t)
]

begin_request-named :
    (id : ℕ) (s : Span) (p : Processor)
    → lookup id p.spans ≡ some s
    → let q = begin_request id s p in
      (q.handle_request_span ≡ some id)
      × ((t : Span) × (lookup id q.spans ≡ some t) × (has_query t.name ≡ false))
unfolding before
begin_request-named id s p h = elim (Bool-cases (has_query s.name)) [
  | inl query ↦
      (let named : Span = record s { name = before b'?' s.name } in
        (
          ground (arith, query, h),
          (named, ground (arith, query, h, lookup-put id named p.spans), has_query-before s.name),
        ))
  | inr plain ↦ (ground (arith, plain), (s, ground (arith, plain, h), plain))
]

on_start-begin_request :
    (id : ℕ) (s : Span) (p : Processor)
    → lookup id p.spans ≡ some s
    → s.span_type ≡ some (codes "BaseServer.handleRequest")
    → on_start id p ≡ begin_request id s p
unfolding on_start begin_request
on_start-begin_request id s p h e =
    rw (h, on_start)
      (ap (λ b. if b then begin_request id s p else begin_other s p)
        ((===_iff s.span_type (some (codes "BaseServer.handleRequest"))).1 e))

-- When the span of a request starts, it is the one under way, and its name has no query.
pub on_start-request :
    (id : ℕ) (s : Span) (p : Processor)
    → lookup id p.spans ≡ some s
    → s.span_type ≡ some (codes "BaseServer.handleRequest")
    → let q = on_start id p in
      (q.handle_request_span ≡ some id)
      × ((t : Span) × (lookup id q.spans ≡ some t) × (has_query t.name ≡ false))
on_start-request id s p h e = rw (on_start-begin_request id s p h e) (begin_request-named id s p h)
