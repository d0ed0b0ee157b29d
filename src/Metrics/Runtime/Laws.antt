-- ===== src/Metrics/Runtime/Laws.antt =====
-- What the runtime metrics of src/metrics/index.ts report of the collections.
use splunk_otel_js.Common.{
  ℕ, ℤ, pos, ◌+ℤ◌, Bool, false, ◌&&◌, ◌||◌, Option, none, some, List, [], ◌∷◌, ◌==◌, if◌then◌else◌,
}
use splunk_otel_js.Metrics.Runtime.{
  GcType, all, index, V8Type, stats_index, Instrument, gc_size, gc_pause, gc_count, Call, Runtime,
  gc_epilogue, event_loop_prepare, start_runtime_metrics, value_of, tick, stop_runtime_metrics,
}

abbrev pub instrument_index : Instrument → ℕ
instrument_index gc_size = 0
instrument_index gc_pause = 1
instrument_index gc_count = 2

-- What the calls add to an instrument under the attribute of a type.
abbrev pub reported : Instrument → GcType → List Call → ℤ
reported i t [] = pos 0
reported i t (c ∷ cs) =
    let rest = reported i t cs in
    if instrument_index i == instrument_index c.instrument && index t == index c.gc_type
    then rest +ℤ c.value
    else rest

-- What happens: a collection, a turn of the event loop, the interval, a start and a stop.
pub data Step : Type 0 where
  collection : V8Type → ℤ → ℤ → Step
  turn : ℤ → Step
  interval_fired started stopped : Step

abbrev pub step : Step → Runtime → Runtime
step (collection k c d) w = gc_epilogue k c d w
step (turn l) w = event_loop_prepare l w
step interval_fired w = tick w
step started w = start_runtime_metrics w
step stopped w = stop_runtime_metrics w

abbrev pub run : List Step → Runtime → Runtime
run [] w = w
run (s ∷ ss) w = run ss (step s w)

-- What a collection counts for.
abbrev pub amount : Instrument → ℤ → ℤ → ℤ
amount gc_size c d = c
amount gc_pause c d = d
amount gc_count c d = pos 1

abbrev pub is_named : GcType → Option GcType → Bool
is_named t none = false
is_named t (some k) = index t == index k

abbrev pub is_of : GcType → V8Type → Bool
is_of t k = index t == index all || is_named t (stats_index k)

abbrev pub happened : Instrument → GcType → List Step → ℤ
happened i t [] = pos 0
happened i t (collection k c d ∷ ss) =
    let rest = happened i t ss in if is_of t k then amount i c d +ℤ rest else rest
happened i t (s ∷ ss) = happened i t ss

-- What was reported, with what the native counters hold.
abbrev pub measured : Instrument → GcType → Runtime → ℤ
measured i t w = reported i t w.calls +ℤ value_of i (w.stats.gc t)

-- One step adds to what is measured what it counts for.
abbrev pub counted : Instrument → GcType → Step → ℤ
counted i t (collection k c d) = if is_of t k then amount i c d else pos 0
counted i t s = pos 0
