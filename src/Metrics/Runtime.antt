-- ===== src/Metrics/Runtime.antt =====
-- The runtime metrics: startMetrics of src/metrics/index.ts with its interval, and the counters of the
-- native extension that it reads (src/native_ext/metrics.cpp).
-- The sums are whole numbers: they stay far below what an int64_t holds. The calls of `Counter.add`
-- are kept in a list, the newest first.
pub mod Laws
use splunk_otel_js.Common.{
  ℕ, suc, ℤ, pos, ◌+ℤ◌, ltb_ℤ, Bool, true, false, not, ◌&&◌, Option, none, some, List, [], ◌∷◌,
  ◌==◌, if◌then◌else◌,
}

-- `GcType`.
pub data GcType : Type 0 where
  all scavenge mark_sweep_compact incremental_marking process_weak_callbacks : GcType

abbrev pub index : GcType → ℕ
index all = 0
index GcType.scavenge = 1
index GcType.mark_sweep_compact = 2
index GcType.incremental_marking = 3
index GcType.process_weak_callbacks = 4

pub record Counters : Type 0 where
  pub min : ℤ
  pub max : ℤ
  pub sum : ℤ
  pub count : ℕ

abbrev pub no_counters : Counters
no_counters = record { min = pos 0; max = pos 0; sum = pos 0; count = 0 }

unfoldable pub add : ℤ → Counters → Counters
add value c =
    let first = c.count == 0 in
    record {
      min = if first then value else if ltb_ℤ value c.min then value else c.min;
      max = if first then value else if ltb_ℤ c.max value then value else c.max;
      sum = c.sum +ℤ value;
      count = suc c.count;
    }

pub record GcCounters : Type 0 where
  pub collected : Counters
  pub duration : Counters

-- `stats`, and what `collect` returns.
pub record NativeCounters : Type 0 where
  pub event_loop_lag : Counters
  pub gc : GcType → GcCounters

abbrev pub reset_counters : NativeCounters
reset_counters = record {
  event_loop_lag = no_counters;
  gc = λ t. record { collected = no_counters; duration = no_counters };
}

-- What `GcEpilogue` adds to the counters of one type.
unfoldable pub add_gc : GcType → ℤ → ℤ → NativeCounters → NativeCounters
unfolding add
add_gc k collected duration n = record n {
  gc = λ t.
      if index t == index k
      then record {
        collected = add collected (n.gc t).collected;
        duration = add duration (n.gc t).duration;
      }
      else n.gc t;
}

-- The counters that `startMetrics` creates, and a call of `add` on one.
pub data Instrument : Type 0 where
  gc_size gc_pause gc_count : Instrument

pub record Call : Type 0 where
  pub instrument : Instrument
  pub gc_type : GcType
  pub value : ℤ

-- The native extension, `runtimeCounters` as the gauges of the lag read it, whether the interval is
-- set, and the calls.
pub record Runtime : Type 0 where
  pub started : Bool
  pub stats : NativeCounters
  pub runtime_counters : NativeCounters
  pub interval : Bool
  pub calls : List Call

-- `v8::GCType`, and `GetGcStatsIndex`.
pub data V8Type : Type 0 where
  scavenge mark_sweep_compact incremental_marking process_weak_callbacks other : V8Type

abbrev pub stats_index : V8Type → Option GcType
stats_index V8Type.scavenge = some GcType.scavenge
stats_index V8Type.mark_sweep_compact = some GcType.mark_sweep_compact
stats_index V8Type.incremental_marking = some GcType.incremental_marking
stats_index V8Type.process_weak_callbacks = some GcType.process_weak_callbacks
stats_index V8Type.other = none

-- `GcEpilogue`, a callback that `StartCounters` adds.
unfoldable pub gc_epilogue : V8Type → ℤ → ℤ → Runtime → Runtime
unfolding add_gc
gc_epilogue kind collected duration w =
    if w.started
    then record w {
      stats = add_gc all collected duration (elim (stats_index kind) [
        | none ↦ w.stats
        | some k ↦ add_gc k collected duration w.stats
      ]);
    }
    else w

-- `EventLoopPrepareCallback`.
unfoldable pub event_loop_prepare : ℤ → Runtime → Runtime
unfolding add
event_loop_prepare loop_time w =
    if w.started
    then record w {
      stats = record w.stats { event_loop_lag = add loop_time w.stats.event_loop_lag };
    }
    else w

-- The part of `startMetrics` behind the loading of the extension.
unfoldable pub start_runtime_metrics : Runtime → Runtime
start_runtime_metrics w = record w { started = true; runtime_counters = w.stats; interval = true }

abbrev pub value_of : Instrument → GcCounters → ℤ
value_of gc_size c = c.collected.sum
value_of gc_pause c = c.duration.sum
value_of gc_count c = pos c.collected.count

-- `recordGcSumMetric` and `recordGcCountMetric`: one call for each type, in the order of the keys.
abbrev pub record_gc : Instrument → NativeCounters → List GcType → List Call → List Call
record_gc i counters [] calls = calls
record_gc i counters (t ∷ ts) calls =
    record_gc i counters ts
      (record { instrument = i; gc_type = t; value = value_of i (counters.gc t) } ∷ calls)

abbrev pub gc_types : List GcType
gc_types =
    all ∷ GcType.scavenge ∷ GcType.mark_sweep_compact ∷ GcType.incremental_marking
    ∷ GcType.process_weak_callbacks ∷ []

-- The callback of the interval.
unfoldable pub tick : Runtime → Runtime
tick w =
    if w.interval
    then record w {
      runtime_counters = w.stats;
      stats = reset_counters;
      calls =
          record_gc gc_count w.stats gc_types
            (record_gc gc_pause w.stats gc_types (record_gc gc_size w.stats gc_types w.calls));
    }
    else w

-- `stop`.
unfoldable pub stop_runtime_metrics : Runtime → Runtime
stop_runtime_metrics w = record w { interval = false }
