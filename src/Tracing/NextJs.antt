-- ===== src/Tracing/NextJs.antt =====
-- NextJsSpanProcessor of src/tracing/NextJsSpanProcessor.ts, on a store of the spans: an object is
-- named by a number, and a span by that of the object.
pub mod Laws
use splunk_otel_js.Common.{
  ℕ, Bool, true, false, not, ◌&&◌, Option, none, some, List, [], ◌∷◌, ◌++◌, Text, codes, ◌===◌,
  ◌==◌, nat_eq, list_eq, option_eq, if◌then◌else◌, is_empty, or_else, lookup, put, before,
}

-- What the processor reads of a span: its name, its id, that of its parent, and the attributes, if
-- they are there with the type that is tested.
pub record Span : Type 0 where
  pub name : Text
  pub span_id : Text
  pub parent_id : Option Text
  pub span_type : Option Text
  pub span_name : Option Text
  pub route : Option Text
  pub rsc : Bool
  pub method : Option Text

-- `handleRequestSpan`, and the spans.
pub record Processor : Type 0 where
  pub handle_request_span : Option ℕ
  pub spans : List (ℕ × Span)

-- `updateName`.
abbrev pub update_name : ℕ → Text → Processor → Processor
update_name id name p = elim (lookup id p.spans) [
  | none ↦ p
  | some s ↦ record p { spans = put id (record s { name = name }) p.spans }
]

-- `indexOf('?')` and `slice` up to it.
abbrev pub has_query : Text → Bool
has_query [] = false
has_query (c ∷ s) = let rest = has_query s in if c == b'?' then true else rest

abbrev pub begin_request : ℕ → Span → Processor → Processor
begin_request id s p =
    let kept = record p { handle_request_span = some id } in
    if has_query s.name then update_name id (before b'?' s.name) kept else kept

abbrev pub route_name : Span → Text → Text
route_name request route =
    (if request.rsc then codes "rsc " else []) ++ (or_else request.method [] ++ b' ' ∷ route)

abbrev pub is_page_of : Span → Span → Bool
is_page_of s request =
    s.span_name === some (codes "resolve page components") && s.parent_id === some request.span_id

abbrev pub name_route : ℕ → Span → Span → Processor → Processor
name_route id s request p = elim s.route [
  | none ↦ p
  | some route ↦ (if is_page_of s request then update_name id (route_name request route) p else p)
]

abbrev pub begin_other : Span → Processor → Processor
begin_other s p = elim p.handle_request_span [
  | none ↦ p
  | some id ↦ (elim (lookup id p.spans) [ none ↦ p | some request ↦ name_route id s request p ])
]

-- `onStart` of a span that is in the store.
unfoldable pub on_start : ℕ → Processor → Processor
on_start id p = elim (lookup id p.spans) [
  | none ↦ p
  | some s ↦
      (if s.span_type === some (codes "BaseServer.handleRequest")
        then begin_request id s p
        else begin_other s p)
]

-- `onEnd`.
unfoldable pub on_end : ℕ → Processor → Processor
on_end id p =
    if p.handle_request_span === some id then record p { handle_request_span = none } else p
