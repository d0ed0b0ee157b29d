-- ===== src/Opamp/Backoff/Bounds.antt =====
-- How long the delays of src/opamp/backoff.ts are, alone and in a row.
use splunk_otel_js.Common.{
  ℕ, ◌+◌, ◌*◌, ◌^◌, ◌≤◌, ◌<◌, min, max, ◌≡◌, refl, ap, none, arith, List, [], ◌∷◌, length,
}
use splunk_otel_js.Opamp.Backoff.{Backoff, next_delay, set_min_delay, reset, jitter_limit}

-- Neither a failure was counted nor a delay asked for.
abbrev pub IsAtRest : Backoff → Type 0
IsAtRest b = (b.failures ≡ 0) × (b.min_delay_override ≡ none)

pub next_delay_at_rest :
    (b : Backoff) (normal jitter : ℕ) → IsAtRest b → next_delay b normal jitter ≡ (normal, b)
unfolding next_delay
next_delay_at_rest b normal jitter r = ground arith

pub reset-IsAtRest : (b : Backoff) → IsAtRest (reset b)
unfolding reset
reset-IsAtRest b = ground arith

-- The delay asked for by the server is respected by the next delay, which is otherwise between
-- the exponential delay, cut at the limit, and the limit and the jitter; it is asked for once.
pub next_delay-set_min_delay :
    (b : Backoff) (least normal jitter : ℕ)
    → jitter < jitter_limit
    → let (delay, b') = next_delay (set_min_delay b least) normal jitter in
      (least ≤ delay)
      × (min (b.base * 2 ^ b.failures) b.limit ≤ delay)
      × (delay < max (b.limit + jitter_limit) (least + 1))
      × (b'.failures ≡ b.failures + 1)
      × (b'.min_delay_override ≡ none)
unfolding next_delay set_min_delay
next_delay-set_min_delay b least normal jitter h = ground arith

-- The object after a row of polls that all count as failures, one for each jitter.
pub run_delays : Backoff → ℕ → List ℕ → Backoff
run_delays b normal [] = b
run_delays b normal (jitter ∷ js) = run_delays (next_delay b normal jitter).1 normal js

next_delay_counting :
    (b : Backoff) (normal jitter : ℕ)
    → 0 < b.failures
    → b.min_delay_override ≡ none
    → next_delay b normal jitter
      ≡ (min (b.base * 2 ^ b.failures) b.limit + jitter, record b { failures = b.failures + 1 })
unfolding next_delay
next_delay_counting b normal jitter h k = ground arith

run_delays-failures :
    (b : Backoff) (normal : ℕ) (js : List ℕ)
    → 0 < b.failures
    → b.min_delay_override ≡ none
    → run_delays b normal js ≡ record b { failures = b.failures + length js }
unfolding run_delays
run_delays-failures b normal [] h k = ground arith
run_delays-failures b normal (j ∷ js) h k = rw (next_delay_counting b normal j h k) (
    ground (
      arith,
      run_delays-failures (record b { failures = b.failures + 1 }) normal js (omega arith) k,
    ))

-- Once a delay was asked for, the delay after any row of further ones with no reset between is
-- exponential in the length of the row, cut at the limit, plus the jitter.
next_delay-run_delays :
    (b : Backoff) (least normal jitter j : ℕ) (js : List ℕ)
    → (next_delay (run_delays (set_min_delay b least) normal (j ∷ js)) normal jitter).0
      ≡ min (b.base * 2 ^ (b.failures + 1 + length js)) b.limit + jitter
unfolding run_delays
next_delay-run_delays b least normal jitter j js =
    rw (first, run_delays-failures after normal js (omega arith) refl)
      (ap (λ (p : ℕ × Backoff). p.0)
        (next_delay_counting (record after { failures = b.failures + 1 + length js }) normal jitter
          (omega arith) refl))
  where
    after : Backoff
    after = record b { failures = b.failures + 1; min_delay_override = none }

    first : (next_delay (set_min_delay b least) normal j).1 ≡ after
    first = unfold next_delay set_min_delay in ground arith
