-- ===== src/Tracing/Tests.antt =====
-- The theorems on src/tracing at concrete inputs.
use splunk_otel_js.Common.{
  Text, codes, trim, trim_start, is_space, before, List, ◌∷◌, nat_eq, list_eq, ℕ, ◌<◌, String, true,
  false, Option, none, some, [], ◌≡◌, ◌≢◌, refl, arith, ◌===◌, string_eq, ===_iff, ===_refl,
  if◌then◌else◌, lookup, member,
}
use splunk_otel_js.Configuration.Document.{returned, ◌>>=◌}
use splunk_otel_js.Tracing.RuleBasedSampler.{
  create_rule_based_sampler, select_composable_sampler, sampler_rules,
}
use splunk_otel_js.Tracing.RuleBasedSampler.Laws.{write, create_rule_based_sampler-write}
use splunk_otel_js.Tracing.NextJs
use splunk_otel_js.Tracing.NextJs.{Span, Processor}
use splunk_otel_js.Tracing.Snapshots.{
  Native, Snapshots, SpanStart, start_snapshot_profiling, on_start, on_end, linger_fired,
  stop_snapshot_profiling, trace_snapshot_begin, trace_snapshot_end,
}
use splunk_otel_js.Tracing.Snapshots.Balance.{
  span_started, span_ended, handle, Reach, here, next, stop-at_rest, on_end-on_start,
}
use splunk_otel_js.Tracing.Snapshots.Linger.{linger_fired-on_start}
use splunk_otel_js.Tracing.Snapshots.Propagator.{Api}

abbrev at_rest : Native
at_rest = record { running = false; interval = 1; filters = [] }

abbrev started : Snapshots
started = start_snapshot_profiling true 10 true at_rest

-- An entry span of trace 7 with the id `id`.
abbrev entry_span : ℕ → SpanStart
entry_span id = record {
  span = record { trace_id = 7; span_id = id; is_remote = false };
  parent = some (record { trace_id = 7; span_id = 1; is_remote = true });
  baggage = some (some "highest");
}

abbrev one_span : Snapshots
one_span = handle started (span_started (entry_span 2))

abbrev two_spans : Snapshots
two_spans = handle one_span (span_started (entry_span 3))

abbrev ended : Snapshots
ended = handle one_span (span_ended 2)

Reach-ended : Reach started ended
unfolding start_snapshot_profiling
Reach-ended = next (next here (span_started (entry_span 2)) refl) (span_ended 2) tt

stop-at_rest_example :
    ((stop_snapshot_profiling ended).native.filters ≡ [])
    × ((stop_snapshot_profiling ended).native.running ≡ false)
stop-at_rest_example = stop-at_rest true 10 true at_rest refl refl Reach-ended

on_end-on_start_example :
    let v = on_end 2 (on_start (entry_span 2) started) in
    (v.active_snapshots ≡ started.active_snapshots)
    × (v.snapshot_spans ≡ started.snapshot_spans)
    × (v.native.filters ≡ started.native.filters)
unfolding start_snapshot_profiling
on_end-on_start_example = on_end-on_start (entry_span 2) started refl refl

linger_fired-on_start_example :
    let begun = on_start (entry_span 4) ended in
    let v = linger_fired 0 begun in
    (member 0 begun.armed ≡ true)
    × (v.native.running ≡ false)
    × (lookup 4 v.snapshot_spans ≡ some 7)
    × (0 < v.active_snapshots)
unfolding start_snapshot_profiling handle on_start on_end trace_snapshot_begin trace_snapshot_end
linger_fired-on_start_example =
    linger_fired-on_start (entry_span 4) 0 ended refl refl refl refl refl

-- An interface whose baggage is a function, and whose sampler takes the even traces.
abbrev set_key : (String → Option String) → String → String → String → Option String
set_key b k v l = if l === k then some v else b l

set_key_same : (b : String → Option String) (k v : String) → set_key b k v k ≡ some v
set_key_same b k v = ground (arith, ===_refl k)

set_key_other : (b : String → Option String) (k l v : String) → l ≢ k → set_key b k v l ≡ b l
set_key_other b k l v n = ground (arith, ===_iff l k)

abbrev api : Api
api = record {
  Context = Option ℕ × Option (String → Option String);
  Baggage = String → Option String;
  trace_id = λ c. c.0;
  get_baggage = λ c. c.1;
  set_baggage = λ c b. (c.0, some b);
  create_baggage = set_key (λ l. none);
  get_entry = λ b k. b k;
  set_entry = set_key;
  sampled = λ t. (elim t [ ℕ.zero ↦ true | ℕ.suc _ ↦ false ]);
  get-set = λ c b. refl;
  get-create = set_key_same (λ l. none);
  get-create_other = set_key_other (λ l. none);
  get-set_entry = set_key_same;
  get-set_other = set_key_other;
}

abbrev context : Option ℕ × Option (String → Option String)
context = (some 5, none)

abbrev dropped : List Text
dropped = codes "/health" ∷ codes "/ready" ∷ []

create_rule_based_sampler-write_example :
    create_rule_based_sampler (some (write dropped (codes "parentbased_always_on")))
    ≡ select_composable_sampler (codes "parentbased_always_on")
      >>= (λ s. returned (sampler_rules dropped s))
unfolding trim trim_start is_space
create_rule_based_sampler-write_example =
    create_rule_based_sampler-write dropped (codes "parentbased_always_on")
      ((refl, refl, refl), ((refl, refl, refl), tt)) refl refl

-- A request, and the page that Next.js resolves for it.
abbrev request : Span
request = record {
  name = codes "GET /users?id=7";
  span_id = codes "a";
  parent_id = none;
  span_type = some (codes "BaseServer.handleRequest");
  span_name = none;
  route = none;
  rsc = true;
  method = some (codes "GET");
}

abbrev page : Span
page = record {
  name = codes "resolve page components";
  span_id = codes "b";
  parent_id = some (codes "a");
  span_type = none;
  span_name = some (codes "resolve page components");
  route = some (codes "/users");
  rsc = false;
  method = none;
}

abbrev traced : Processor
traced = NextJs.on_start 2 (
    NextJs.on_start 1
      (record { handle_request_span = none; spans = (1, request) ∷ (2, page) ∷ [] }))

page_names_request : lookup 1 traced.spans ≡ some (record request { name = codes "rsc GET /users" })
unfolding NextJs.on_start before
page_names_request = refl
