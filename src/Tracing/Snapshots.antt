-- ===== src/Tracing/Snapshots.antt =====
-- Snapshot profiling: SnapshotProfiler of src/tracing/snapshots/Snapshots.ts with its span processor
-- of SnapshotSpanProcessor.ts, and the part of the native profiler that it drives
-- (src/native_ext/profiling.cpp).
-- An async callback is cut at its await. A trace id stands for the hash that the native table keeps,
-- and the collected samples are left out.
pub mod Balance
pub mod Linger
pub mod Propagator
pub mod Again
use splunk_otel_js.Common.{
  ℕ, ◌+◌, ◌-◌, ◌<◌, String, Bool, true, false, not, ◌&&◌, Option, none, some, List, [], ◌∷◌, ◌≡◌,
  ◌==◌, ◌===◌, string_eq, option_eq, if◌then◌else◌, is_some, ltb, lookup, put, erase, values,
  member, without, remove_all, distinct,
}

-- The native profiler that the handle names.
pub record Native : Type 0 where
  pub running : Bool
  pub interval : ℕ
  pub filters : List ℕ

-- The fields of SnapshotProfiler and of its processor, whether it is the one registered, the
-- effective state that was recorded, the native profiler, and the event loop: the armed linger
-- timers and the linger callbacks that wait for their export. `has_handle` is `profilerHandle >= 0`;
-- `exporter_interval` is `none` until the exporter is made.
pub record Snapshots : Type 0 where
  pub has_handle : Bool
  pub active : Bool
  pub active_snapshots : ℕ
  pub stop_timeout : Option ℕ
  pub sampling_interval : ℕ
  pub exporter_interval : Option ℕ
  pub snapshot_spans : List (ℕ × ℕ)
  pub stamped : List ℕ
  pub registered : Bool
  pub enabled_state : Bool
  pub interval_state : ℕ
  pub native : Native
  pub armed : List ℕ
  pub next_timer : ℕ
  pub exporting : ℕ

-- `SpanContext`, and what `onStart` is given: the parent in the context, if any, and the baggage, if
-- any, as its entry for the snapshot volume, if any.
pub record SpanContext : Type 0 where
  pub trace_id : ℕ
  pub span_id : ℕ
  pub is_remote : Bool

pub record SpanStart : Type 0 where
  pub span : SpanContext
  pub parent : Option SpanContext
  pub baggage : Option (Option String)

-- The operations of the native profiler; without a handle they do nothing.
abbrev pub native_do : (Native → Native) → Snapshots → Snapshots
native_do f w = if w.has_handle then record w { native = f w.native } else w

abbrev pub add_trace_id_filter : ℕ → Native → Native
add_trace_id_filter t n = record n {
  filters = if member t n.filters then n.filters else t ∷ n.filters;
}

abbrev pub remove_trace_id_filter : ℕ → Native → Native
remove_trace_id_filter t n = record n { filters = without t n.filters }

abbrev pub remove_trace_id_filters : List ℕ → Native → Native
remove_trace_id_filters ts n = record n { filters = remove_all ts n.filters }

abbrev pub start_cpu_profiler : Native → Native
start_cpu_profiler n = record n { running = true }

abbrev pub stop_cpu_profiler : Native → Native
stop_cpu_profiler n = record n { running = false }

abbrev pub configure : ℕ → Native → Native
configure interval n = record n { interval = interval }

-- The constructor, as `startSnapshotProfiling` calls it, on the native profiler as it was before.
unfoldable pub start_snapshot_profiling : Bool → ℕ → Bool → Native → Snapshots
start_snapshot_profiling active interval has_handle native = record {
  has_handle = has_handle;
  active = active;
  active_snapshots = 0;
  stop_timeout = none;
  sampling_interval = interval;
  exporter_interval = none;
  snapshot_spans = [];
  stamped = [];
  registered = true;
  enabled_state = active && has_handle;
  interval_state = interval;
  native = if has_handle then configure interval native else native;
  armed = [];
  next_timer = 0;
  exporting = 0;
}

-- The `setImmediate` of the constructor.
unfoldable pub make_exporter : Snapshots → Snapshots
make_exporter w = record w { exporter_interval = some w.sampling_interval }

abbrev pub sync_exporter : Snapshots → Snapshots
sync_exporter w =
    if w.active_snapshots == 0 && not (is_some w.stop_timeout)
    then record w {
      exporter_interval = elim w.exporter_interval [
        | none ↦ none
        | some _ ↦ some w.sampling_interval
      ];
    }
    else w

-- `traceSnapshotBegin`: whether a snapshot began.
unfoldable pub trace_snapshot_begin : ℕ → Snapshots → Bool × Snapshots
trace_snapshot_begin t w =
    if not w.active
    then (false, w)
    else (let begun =
          native_do (λ n. start_cpu_profiler (add_trace_id_filter t n)) (sync_exporter w) in
        (true, record begun { active_snapshots = begun.active_snapshots + 1 }))

abbrev pub clear_stop_timeout : Snapshots → Snapshots
clear_stop_timeout w = elim w.stop_timeout [
  | none ↦ w
  | some id ↦ record w { stop_timeout = none; armed = without id w.armed }
]

-- `traceSnapshotEnd`.
unfoldable pub trace_snapshot_end : ℕ → Snapshots → Snapshots
trace_snapshot_end t w =
    let counted = record w { active_snapshots = w.active_snapshots - 1 } in
    let cleared = clear_stop_timeout (native_do (remove_trace_id_filter t) counted) in
    if cleared.active_snapshots == 0
    then record cleared {
      stop_timeout = some cleared.next_timer;
      armed = cleared.next_timer ∷ cleared.armed;
      next_timer = cleared.next_timer + 1;
    }
    else cleared

-- `shouldProcessContext`.
abbrev pub should_process : Option SpanContext → Bool
should_process none = true
should_process (some p) = p.is_remote

-- `onStart`.
unfoldable pub on_start : SpanStart → Snapshots → Snapshots
unfolding trace_snapshot_begin
on_start s w =
    if should_process s.parent && s.baggage === some (some "highest")
    then (let (began, begun) = trace_snapshot_begin s.span.trace_id w in
        if began
        then record begun {
          stamped = s.span.span_id ∷ begun.stamped;
          snapshot_spans = put s.span.span_id s.span.trace_id begun.snapshot_spans;
        }
        else begun)
    else w

-- `onEnd`.
unfoldable pub on_end : ℕ → Snapshots → Snapshots
unfolding trace_snapshot_end
on_end id w = elim (lookup id w.snapshot_spans) [
  | none ↦ w
  | some t ↦
      (let ended = trace_snapshot_end t w in
        record ended { snapshot_spans = erase id ended.snapshot_spans })
]

-- The callback of the linger timer, up to its await and from there on.
unfoldable pub linger_fired : ℕ → Snapshots → Snapshots
linger_fired id w =
    let stopped = native_do stop_cpu_profiler w in
    record stopped { armed = without id stopped.armed; exporting = stopped.exporting + 1 }

unfoldable pub linger_exported : Snapshots → Snapshots
linger_exported w = record w { stop_timeout = none; exporting = w.exporting - 1 }

-- `clearActiveSnapshots`, with the removal of the filters that its callers do next.
abbrev pub drop_snapshots : Snapshots → Snapshots
drop_snapshots w =
    let dropped = native_do (remove_trace_id_filters (distinct (values w.snapshot_spans))) w in
    record dropped { snapshot_spans = [] }

-- `stop`; the timer is disarmed, and `stopTimeout` kept.
unfoldable pub stop : Snapshots → Snapshots
stop w =
    let dropped = drop_snapshots (record w { active = false }) in
    let cleared : Snapshots = elim dropped.stop_timeout [
      | none ↦ dropped
      | some id ↦ record dropped { armed = without id dropped.armed }
    ] in
    native_do stop_cpu_profiler cleared

-- `setActive`.
unfoldable pub set_active : Bool → Snapshots → Snapshots
set_active true w = if w.active then w else record w { active = true }
set_active false w =
    if not w.active
    then w
    else (let cleared = clear_stop_timeout (record w { active = false }) in
        native_do stop_cpu_profiler (drop_snapshots (record cleared { active_snapshots = 0 })))

-- `setSamplingInterval`.
unfoldable pub set_sampling_interval : ℕ → Snapshots → Snapshots
set_sampling_interval interval w =
    if w.sampling_interval == interval
    then w
    else native_do (configure interval) (record w { sampling_interval = interval })

abbrev pub request_interval : Option ℕ → Snapshots → Snapshots
unfolding set_sampling_interval
request_interval none w = w
request_interval (some interval) w =
    if ltb 0 interval
    then record (set_sampling_interval interval w) { interval_state = interval }
    else w

-- `setSnapshotProfilingActive`: whether the profiler is active afterwards.
unfoldable pub set_snapshot_profiling_active : Bool → Option ℕ → Snapshots → Bool × Snapshots
unfolding set_active set_sampling_interval
set_snapshot_profiling_active active interval w =
    if not w.registered
    then (false, w)
    else (let effective = active && w.has_handle in
        (
          effective,
          record (set_active effective (request_interval interval w)) { enabled_state = effective },
        ))

-- `stopSnapshotProfiling`.
unfoldable pub stop_snapshot_profiling : Snapshots → Snapshots
unfolding stop
stop_snapshot_profiling w = if not w.registered then w else stop (record w { registered = false })
