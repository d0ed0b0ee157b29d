-- ===== src/Tracing/Snapshots/Again.antt =====
-- Switching the snapshot profiler of src/tracing/snapshots/Snapshots.ts to the same state again.
use splunk_otel_js.Common.{
  ℕ, Bool, true, false, ◌&&◌, Option, none, some, ◌≡◌, refl, ◌∙◌, ap, arith, ltb,
}
use splunk_otel_js.Tracing.Snapshots.{
  Snapshots, set_snapshot_profiling_active, set_active, set_sampling_interval, request_interval,
}

-- The interval is the requested one already.
abbrev IsRequested : Option ℕ → Snapshots → Type 0
IsRequested none w = Unit
IsRequested (some n) w = ltb 0 n ≡ true → (w.sampling_interval ≡ n) × (w.interval_state ≡ n)

request_interval-IsRequested : (i : Option ℕ) (w : Snapshots) → IsRequested i (request_interval i w)
unfolding request_interval set_sampling_interval
request_interval-IsRequested none w = tt
request_interval-IsRequested (some n) w = ground arith

request_interval_same : (i : Option ℕ) (w : Snapshots) → IsRequested i w → request_interval i w ≡ w
unfolding request_interval set_sampling_interval
request_interval_same none w h = refl
request_interval_same (some n) w h = ground (arith, h)

set_active-fields :
    (a : Bool) (w : Snapshots)
    → let v = set_active a w in
      (v.active ≡ a)
      × (v.sampling_interval ≡ w.sampling_interval)
      × (v.interval_state ≡ w.interval_state)
      × (v.registered ≡ w.registered)
      × (v.has_handle ≡ w.has_handle)
unfolding set_active
set_active-fields true w = ground arith
set_active-fields false w = ground arith

set_active_same : (a : Bool) (w : Snapshots) → w.active ≡ a → set_active a w ≡ w
unfolding set_active
set_active_same true w h = ground (arith, h)
set_active_same false w h = ground (arith, h)

request_interval-fields :
    (i : Option ℕ) (w : Snapshots)
    → ((request_interval i w).registered ≡ w.registered)
      × ((request_interval i w).has_handle ≡ w.has_handle)
unfolding request_interval set_sampling_interval
request_interval-fields none w = (refl, refl)
request_interval-fields (some n) w = ground arith

IsRequested-transport :
    (i : Option ℕ) (v w : Snapshots)
    → v.sampling_interval ≡ w.sampling_interval
    → v.interval_state ≡ w.interval_state
    → IsRequested i w
    → IsRequested i v
IsRequested-transport none v w p q h = tt
IsRequested-transport (some n) v w p q h = ground (arith, p, q, h)

abbrev enabled_as : Bool → Snapshots → Snapshots
enabled_as a w = record w { enabled_state = a }

set_active-enabled_as :
    (a : Bool) (w : Snapshots)
    → w.active ≡ a
    → enabled_as a (set_active a (enabled_as a w)) ≡ enabled_as a w
set_active-enabled_as a w h = ap (enabled_as a) (set_active_same a (enabled_as a w) h)

request_interval-enabled_as :
    (a : Bool) (i : Option ℕ) (w : Snapshots)
    → IsRequested i w
    → request_interval i (enabled_as a w) ≡ enabled_as a w
request_interval-enabled_as a none w h = request_interval_same none (enabled_as a w) tt
request_interval-enabled_as a (some n) w h = request_interval_same (some n) (enabled_as a w) h

-- Once switched, to switch to the same once more changes nothing.
pub set_snapshot_profiling_active_again :
    (active : Bool) (interval : Option ℕ) (s : Snapshots)
    → set_snapshot_profiling_active active interval
        (set_snapshot_profiling_active active interval s).1
      ≡ set_snapshot_profiling_active active interval s
unfolding set_snapshot_profiling_active
set_snapshot_profiling_active_again active interval s =
    let a = active && s.has_handle in
    let i = request_interval interval s in
    let w = set_active a i in
    let (is_a, p, q, r, g) = set_active-fields a i in
    let (r', g') = request_interval-fields interval s in
    let requested =
      IsRequested-transport interval w i p q (request_interval-IsRequested interval s) in
    let again = set_active-enabled_as a w is_a in
    let still = request_interval-enabled_as a interval w requested in
    ground (arith, r ∙ r', g ∙ g', again, still)
