-- ===== src/Tracing/Snapshots/Linger.antt =====
-- What ends the collection for a snapshot under way (src/tracing/snapshots/Snapshots.ts).
use splunk_otel_js.Common.{
  ℕ, ◌+◌, ◌<◌, Bool, true, false, ◌&&◌, some, List, [], ◌∷◌, ◌≡◌, ◌==◌, ◌===◌, string_eq, option_eq,
  refl, arith, lookup, erase, member, lookup-put, member-without, ==_iff,
}
use splunk_otel_js.Tracing.Snapshots.{
  Snapshots, SpanStart, trace_snapshot_begin, trace_snapshot_end, on_start, on_end, linger_fired,
  should_process,
}

-- Whether the processor looks at a span: it is the first of its process in a selected trace.
abbrev pub is_entry : SpanStart → Bool
is_entry s = should_process s.parent && s.baggage === some (some "highest")

-- A span that begins a snapshot has its id under way and its trace filtered, and the native profiler
-- runs.
on_start-begins :
    (s : SpanStart) (w : Snapshots)
    → is_entry s ≡ true
    → w.active ≡ true
    → w.has_handle ≡ true
    → let v = on_start s w in
      (lookup s.span.span_id v.snapshot_spans ≡ some s.span.trace_id)
      × (member s.span.trace_id v.native.filters ≡ true)
      × (v.native.running ≡ true)
      × (v.active_snapshots ≡ w.active_snapshots + 1)
unfolding on_start trace_snapshot_begin
on_start-begins s w e a k = ground (
  arith,
  e,
  lookup-put s.span.span_id s.span.trace_id w.snapshot_spans,
  ==_iff s.span.trace_id s.span.trace_id,
)

-- When a snapshot begins while the timer that lingers after the one before is armed, the timer
-- still fires: the native profiler stands still then, although the snapshot is under way.
pub linger_fired-on_start :
    (s : SpanStart) (id : ℕ) (w : Snapshots)
    → is_entry s ≡ true
    → w.active ≡ true
    → w.has_handle ≡ true
    → w.stop_timeout ≡ some id
    → member id w.armed ≡ true
    → let begun = on_start s w in
      let v = linger_fired id begun in
      (member id begun.armed ≡ true)
      × (v.native.running ≡ false)
      × (lookup s.span.span_id v.snapshot_spans ≡ some s.span.trace_id)
      × (0 < v.active_snapshots)
unfolding on_start trace_snapshot_begin linger_fired
linger_fired-on_start s id w e a k t m =
    ground (arith, e, lookup-put s.span.span_id s.span.trace_id w.snapshot_spans)

-- When two spans of one trace are under way, the end of one takes away the filter of both.
on_end-shared_trace :
    (a b t : ℕ) (w : Snapshots)
    → w.has_handle ≡ true
    → lookup a w.snapshot_spans ≡ some t
    → lookup b w.snapshot_spans ≡ some t
    → (a == b) ≡ false
    → (lookup b (on_end a w).snapshot_spans ≡ some t)
      × (member t (on_end a w).native.filters ≡ false)
unfolding on_end trace_snapshot_end
on_end-shared_trace a b t w k e f n =
    ground
      (arith, e, lookup-erase a b w.snapshot_spans, member-without t t w.native.filters, ==_iff t t)
  where
    lookup-erase :
        (a b : ℕ) (m : List (ℕ × ℕ)) → (a == b) ≡ false → lookup b (erase a m) ≡ lookup b m
    lookup-erase a b [] n = refl
    lookup-erase a b ((l, c) ∷ m) n =
        ground (arith, lookup-erase a b m, ==_iff a b, ==_iff a l, ==_iff b l)
