-- ===== src/Tracing/Snapshots/Balance.antt =====
-- What holds of the snapshot profiler (src/tracing/snapshots) after any history of spans, timers
-- and switches.
use splunk_otel_js.Common.{
  sym, not, if◌then◌else◌, subst, ℕ, ◌<◌, Bool, true, false, ◌&&◌, Option, none, some, List, [],
  ◌∷◌, ◌≡◌, refl, ◌∙◌, arith, lookup-put, erase-put_fresh, without_fresh, length, lookup, put,
  erase, values, member, distinct, length-put_fresh, length-erase, member-put, member-put_same,
  member-erase, member-distinct, Within, Within-map, Within-without, remove_all-Within, Bool-cases,
  Option-cases, inl, inr, option_eq, string_eq,
}
use splunk_otel_js.Tracing.Snapshots.{
  Native, Snapshots, SpanStart, start_snapshot_profiling, make_exporter, trace_snapshot_begin,
  trace_snapshot_end, on_start, on_end, linger_fired, linger_exported, stop, set_active,
  set_sampling_interval, set_snapshot_profiling_active, stop_snapshot_profiling, drop_snapshots,
  add_trace_id_filter, request_interval,
}

-- What can happen to a registered profiler.
pub data Event : Type 0 where
  span_started : SpanStart → Event
  span_ended : ℕ → Event
  exporter_made timer_exported shut_down : Event
  timer_fired : ℕ → Event
  toggled : Bool → Option ℕ → Event

unfoldable pub handle : Snapshots → Event → Snapshots
handle w (span_started s) = on_start s w
handle w (span_ended id) = on_end id w
handle w exporter_made = make_exporter w
handle w (timer_fired id) = linger_fired id w
handle w timer_exported = linger_exported w
handle w (toggled active interval) = (set_snapshot_profiling_active active interval w).1
handle w shut_down = stop_snapshot_profiling w

-- When it can: a span starts with an id that no span under way has, and a timer fires that is armed.
abbrev pub IsEnabled : Snapshots → Event → Type 0
IsEnabled w (span_started s) = lookup s.span.span_id w.snapshot_spans ≡ none
IsEnabled w (timer_fired id) = member id w.armed ≡ true
IsEnabled w timer_exported = 0 < w.exporting
IsEnabled w _ = Unit

pub data Reach (w : Snapshots) : Snapshots → Type 0 where
  here : Reach w w
  next : {v : Snapshots} → Reach w v → (e : Event) → IsEnabled v e → Reach w (handle v e)

pub record Balanced (w : Snapshots) : Type 0 where
  pub counted : w.registered ≡ true → w.active_snapshots ≡ length w.snapshot_spans
  pub filtered : Within w.native.filters (values w.snapshot_spans)
  pub idle : w.active ≡ false → (w.snapshot_spans ≡ []) × (w.native.running ≡ false)
  pub recorded : w.registered ≡ true → w.enabled_state ≡ (w.active && w.has_handle)
  pub shut : w.registered ≡ false → w.active ≡ false
  pub absent : w.has_handle ≡ false → (w.native.filters ≡ []) × (w.native.running ≡ false)

Within-add :
    (t : ℕ) (fs ys : List ℕ) (n : Native)
    → n.filters ≡ fs
    → member t ys ≡ true
    → Within fs ys
    → Within (add_trace_id_filter t n).filters ys
Within-add t fs ys n e h v = elim (Bool-cases (member t n.filters)) [
  | inl old ↦ ground (arith, old, e, v)
  | inr new ↦ ground (arith, new, e, v, h)
]

on_start-Balanced :
    (s : SpanStart) (w : Snapshots)
    → lookup s.span.span_id w.snapshot_spans ≡ none
    → Balanced w
    → Balanced (on_start s w)
unfolding on_start
on_start-Balanced s w h v = ground (
  arith,
  length-put_fresh s.span.span_id s.span.trace_id w.snapshot_spans,
  Within-map w.native.filters (values w.snapshot_spans)
      (values (put s.span.span_id s.span.trace_id w.snapshot_spans))
      (λ x. member-put x s.span.span_id s.span.trace_id w.snapshot_spans h) v.filtered,
  member-put_same s.span.span_id s.span.trace_id w.snapshot_spans h,
)

on_end-Balanced : (id : ℕ) (w : Snapshots) → Balanced w → Balanced (on_end id w)
unfolding on_end trace_snapshot_end
on_end-Balanced id w v = elim (Option-cases (lookup id w.snapshot_spans)) [
  | inl e ↦ ground (arith, e)
  | inr (t, e) ↦ ground (
    arith,
    length-erase id t w.snapshot_spans e,
    Within-without t w.native.filters (values w.snapshot_spans) (values (erase id w.snapshot_spans))
        (λ x n. member-erase x id t w.snapshot_spans e n) v.filtered,
  )
]

-- Without the snapshots under way, no filter is left.
filters_dropped : (w : Snapshots) → Balanced w → (drop_snapshots w).native.filters ≡ []
filters_dropped w v = ground (
  arith,
  remove_all-Within (distinct (values w.snapshot_spans)) w.native.filters (
      Within-map w.native.filters (values w.snapshot_spans) (distinct (values w.snapshot_spans))
        (λ x e. member-distinct x (values w.snapshot_spans) ∙ e) v.filtered),
)

stop-Balanced : (w : Snapshots) → Balanced w → Balanced (stop_snapshot_profiling w)
unfolding stop_snapshot_profiling stop
stop-Balanced w v = ground (arith, filters_dropped w v)

request_interval-Balanced :
    (interval : Option ℕ) (w : Snapshots) → Balanced w → Balanced (request_interval interval w)
unfolding set_sampling_interval
request_interval-Balanced none w v = v
request_interval-Balanced (some interval) w v = ground arith

request_interval_same :
    (interval : Option ℕ) (w : Snapshots)
    → ((request_interval interval w).registered ≡ w.registered)
      × ((request_interval interval w).has_handle ≡ w.has_handle)
unfolding set_sampling_interval
request_interval_same none w = (refl, refl)
request_interval_same (some interval) w = ground arith

set_active-Balanced :
    (active : Bool) (w : Snapshots)
    → w.registered ≡ true
    → Balanced w
    → Balanced
        (record (set_active (active && w.has_handle) w) { enabled_state = active && w.has_handle })
unfolding set_active
set_active-Balanced active w r v = elim (Bool-cases (active && w.has_handle)) [
  | inl on ↦ rw (on, set_active) (ground (arith, on))
  | inr off ↦ rw (off, set_active) (ground (arith, filters_dropped w v))
]

-- The end of `setSnapshotProfilingActive`.
switched : Bool → Option ℕ → Snapshots → Snapshots
switched active interval w =
    record (set_active (active && w.has_handle) (request_interval interval w)) {
      enabled_state = active && w.has_handle;
    }

switched-Balanced :
    (active : Bool) (interval : Option ℕ) (w : Snapshots)
    → w.registered ≡ true
    → Balanced w
    → Balanced (switched active interval w)
unfolding switched
switched-Balanced active interval w kept v =
    let (r, k) = request_interval_same interval w in
    let asked = request_interval interval w in
    subst (λ h. Balanced (record (set_active (active && h) asked) { enabled_state = active && h }))
      k (set_active-Balanced active asked (r ∙ kept) (request_interval-Balanced interval w v))

toggled_to : Bool → Bool → Option ℕ → Snapshots → Bool × Snapshots
unfolding switched
toggled_to registered active interval w =
    if not registered then (false, w) else (active && w.has_handle, switched active interval w)

toggled-Balanced :
    (active : Bool) (interval : Option ℕ) (w : Snapshots)
    → Balanced w
    → Balanced (set_snapshot_profiling_active active interval w).1
unfolding set_snapshot_profiling_active switched toggled_to
toggled-Balanced active interval w v = elim (Bool-cases w.registered) [
  | inl kept ↦
      subst (λ r. Balanced (toggled_to r active interval w).1) (sym kept)
        (switched-Balanced active interval w kept v)
  | inr gone ↦ subst (λ r. Balanced (toggled_to r active interval w).1) (sym gone) v
]

handle-Balanced : (w : Snapshots) (e : Event) → IsEnabled w e → Balanced w → Balanced (handle w e)
unfolding handle
handle-Balanced w (span_started s) h v = on_start-Balanced s w h v
handle-Balanced w (span_ended id) h v = on_end-Balanced id w v
handle-Balanced w exporter_made h v = unfold make_exporter in ground arith
handle-Balanced w (timer_fired id) h v = unfold linger_fired in ground arith
handle-Balanced w timer_exported h v = unfold linger_exported in ground arith
handle-Balanced w (toggled active interval) h v = toggled-Balanced active interval w v
handle-Balanced w shut_down h v = stop-Balanced w v

start-Balanced :
    (active : Bool) (interval : ℕ) (has_handle : Bool) (native : Native)
    → native.filters ≡ []
    → native.running ≡ false
    → Balanced (start_snapshot_profiling active interval has_handle native)
unfolding start_snapshot_profiling
start-Balanced active interval has_handle native e f = ground arith

pub Reach-start-Balanced :
    (active : Bool) (interval : ℕ) (has_handle : Bool) (native : Native) {w : Snapshots}
    → native.filters ≡ []
    → native.running ≡ false
    → Reach (start_snapshot_profiling active interval has_handle native) w
    → Balanced w
Reach-start-Balanced active interval has_handle native e f here =
    start-Balanced active interval has_handle native e f
Reach-start-Balanced active interval has_handle native e f (next {v = u} r event h) =
    handle-Balanced u event h (Reach-start-Balanced active interval has_handle native e f r)

Within-none : (xs : List ℕ) → Within xs [] → xs ≡ []
Within-none [] h = refl
Within-none (x ∷ xs) (e, h) = cc e

-- After any such history, shutting down leaves the native profiler at rest, as the next start finds
-- it: it stands still, and no filter is left.
pub stop-at_rest :
    (active : Bool) (interval : ℕ) (has_handle : Bool) (native : Native) {w : Snapshots}
    → native.filters ≡ []
    → native.running ≡ false
    → Reach (start_snapshot_profiling active interval has_handle native) w
    → ((stop_snapshot_profiling w).native.filters ≡ [])
      × ((stop_snapshot_profiling w).native.running ≡ false)
unfolding stop_snapshot_profiling stop
stop-at_rest active interval has_handle native {w} e f r =
    let v = Reach-start-Balanced active interval has_handle native e f r in
    ground (arith, filters_dropped w v, Within-none w.native.filters)

-- A span that starts and ends again, with an id that no span under way has and a trace that has no
-- filter, leaves the count, the spans under way and the filters as they were.
pub on_end-on_start :
    (s : SpanStart) (w : Snapshots)
    → lookup s.span.span_id w.snapshot_spans ≡ none
    → member s.span.trace_id w.native.filters ≡ false
    → let v = on_end s.span.span_id (on_start s w) in
      (v.active_snapshots ≡ w.active_snapshots)
      × (v.snapshot_spans ≡ w.snapshot_spans)
      × (v.native.filters ≡ w.native.filters)
unfolding on_end on_start trace_snapshot_end trace_snapshot_begin
on_end-on_start s w h m = ground (
  arith,
  h,
  m,
  lookup-put s.span.span_id s.span.trace_id w.snapshot_spans,
  erase-put_fresh s.span.span_id s.span.trace_id w.snapshot_spans,
  without_fresh s.span.trace_id w.native.filters,
)
