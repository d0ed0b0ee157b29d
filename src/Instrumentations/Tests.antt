-- ===== src/Instrumentations/Tests.antt =====
-- The theorem on the response hook at a concrete input.
use splunk_otel_js.Common.{
  Bool, true, false, Option, none, some, [], ◌∷◌, Text, codes, lower, join, ◌++◌, ◌===◌, nat_eq,
  list_eq, ◌≡◌, refl, ap,
}
use splunk_otel_js.Configuration.Env.{lower_case}
use splunk_otel_js.Instrumentations.Http.{
  SpanContext, Span, array, Response, Parameters, server_timing_hook, traceparent,
}
use splunk_otel_js.Instrumentations.Http.Laws.{
  header, rendered, listed, is_number, timing, expose, server_timing_hook-rendered,
}

abbrev all_valid : SpanContext → Bool
all_valid c = true

abbrev no_query : Text → Option Parameters
no_query t = none

abbrev span : Span
span = record {
  context = record { trace_id = codes "ab"; span_id = codes "c"; trace_flags = 1 };
  attributes = [];
}

abbrev response : Response
response = record {
  is_server = true;
  headers = (codes "server-timing", array (codes "db;dur=5" ∷ [])) ∷ [];
}

timing_listed : header timing response ≡ some (array (codes "db;dur=5" ∷ []))
unfolding lower
timing_listed = refl

expose_absent : header expose response ≡ none
unfolding lower
expose_absent = refl

other_names :
    ((lower_case (codes "Vary") === lower_case timing) ≡ false)
    × ((lower_case (codes "Vary") === lower_case expose) ≡ false)
unfolding lower
other_names = (refl, refl)

abbrev after : Response
after = server_timing_hook all_valid no_query span response

server_timing_hook-rendered_example :
    (rendered (header timing after)
      ≡ join (codes ", ") (listed (header timing response) ++ traceparent span.context ∷ []))
    × (rendered (header expose after)
        ≡ join (codes ", ") (listed (header expose response) ++ timing ∷ []))
    × (header (codes "Vary") after ≡ header (codes "Vary") response)
server_timing_hook-rendered_example =
    server_timing_hook-rendered all_valid no_query span response (codes "Vary") refl refl
      (ap is_number timing_listed) (ap is_number expose_absent) other_names.0 other_names.1
