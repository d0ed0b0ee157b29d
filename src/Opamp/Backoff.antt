-- ===== src/Opamp/Backoff.antt =====
-- src/opamp/backoff.ts, the delay between polls.
-- Delays are whole nanoseconds: the source's milliseconds are doubles, and the only fractional
-- ones are a retry delay given in nanoseconds and the random jitter. The jitter is an argument.
pub mod Bounds
use splunk_otel_js.Common.{
  ℕ, ◌+◌, ◌*◌, ◌^◌, min, max, Bool, true, false, not, ◌&&◌, Option, none, some, ◌==◌, is_some,
  if◌then◌else◌,
}

-- Nanoseconds in a millisecond.
abbrev pub ms : ℕ
ms = 1_000_000

-- `Math.random() * 1_000` stays below this.
abbrev pub jitter_limit : ℕ
jitter_limit = 1_000 * ms

pub record Backoff : Type 0 where
  pub base : ℕ
  pub limit : ℕ
  pub failures : ℕ
  pub min_delay_override : Option ℕ

unfoldable pub new_backoff : ℕ → ℕ → Backoff
new_backoff base limit = record {
  base = base;
  limit = limit;
  failures = 0;
  min_delay_override = none;
}

abbrev pub at_least : Option ℕ → ℕ → ℕ
at_least none delay = delay
at_least (some least) delay = max delay least

-- `nextDelay`; the delay and the object afterwards.
unfoldable pub next_delay : Backoff → ℕ → ℕ → ℕ × Backoff
next_delay b normal jitter =
    if b.failures == 0 && not (is_some b.min_delay_override) then (normal, b) else (
      at_least b.min_delay_override (min (b.base * 2 ^ b.failures) b.limit + jitter),
      record b { failures = b.failures + 1; min_delay_override = none },
    )

unfoldable pub set_min_delay : Backoff → ℕ → Backoff
set_min_delay b delay = record b { min_delay_override = some delay }

unfoldable pub reset : Backoff → Backoff
reset b = record b { failures = 0; min_delay_override = none }
