-- ===== src/Profiling/Controller/Outcomes.antt =====
-- Which pushes of the remote configuration the controller of src/profiling/ProfilingController.ts
-- accepts, what it says of the others, and what a repeated push does.
use splunk_otel_js.Common.{
  ℕ, Bool, true, not, ◌&&◌, ◌||◌, Option, none, some, ◌≡◌, ◌↔◌, ap, if◌then◌else◌, arith, nat_eq,
  bool_eq, option_eq,
}
use splunk_otel_js.Opamp.RemoteConfig.{RemoteProfilingConfig}
use splunk_otel_js.Tracing.Snapshots.{set_snapshot_profiling_active}
use splunk_otel_js.Profiling.Controller.{
  Controller, Failure, stop_cpu, start_cpu, enable_cpu, requested_interval, apply_cpu_memory,
  apply_callgraphs, keep_callgraphs, apply, join_failures,
}
use splunk_otel_js.Profiling.Controller.Refinement.{Reported, apply_cpu_memory-contract}

start_cpu-callgraphs :
    (interval : ℕ) (memory : Bool) (c : Controller)
    → let d = (start_cpu interval memory c).1 in
      (d.snapshots ≡ c.snapshots)
      × (d.callgraphs_active ≡ c.callgraphs_active)
      × (d.callgraphs_sampling_interval ≡ c.callgraphs_sampling_interval)
unfolding start_cpu
start_cpu-callgraphs interval memory c = ground arith

stop_cpu-callgraphs :
    (turned : Bool) (c : Controller)
    → let d = stop_cpu turned c in
      (d.snapshots ≡ c.snapshots)
      × (d.callgraphs_active ≡ c.callgraphs_active)
      × (d.callgraphs_sampling_interval ≡ c.callgraphs_sampling_interval)
unfolding stop_cpu
stop_cpu-callgraphs turned c = ground arith

apply_cpu_memory-callgraphs :
    (turned : Bool) (config : RemoteProfilingConfig) (c : Controller)
    → let d = (apply_cpu_memory turned config c).1 in
      (d.snapshots ≡ c.snapshots)
      × (d.callgraphs_active ≡ c.callgraphs_active)
      × (d.callgraphs_sampling_interval ≡ c.callgraphs_sampling_interval)
unfolding apply_cpu_memory enable_cpu
apply_cpu_memory-callgraphs turned config c =
    let interval = requested_interval config c in
    ground (
      arith,
      start_cpu-callgraphs interval config.memory_enabled c,
      start_cpu-callgraphs interval config.memory_enabled (stop_cpu turned c),
      stop_cpu-callgraphs turned c,
    )

-- A controller put together from what the CPU part left and what the callgraphs part left.
abbrev pub Parts : Controller → Controller → Controller → Type 0
Parts by_cpu by_callgraphs d =
    (d.process ≡ by_cpu.process)
    × (d.running ≡ by_cpu.running)
    × (d.snapshots ≡ by_callgraphs.snapshots)
    × (d.callgraphs_active ≡ by_callgraphs.callgraphs_active)
    × (d.callgraphs_sampling_interval ≡ by_callgraphs.callgraphs_sampling_interval)

apply_callgraphs-Parts :
    (config : RemoteProfilingConfig) (c d : Controller)
    → d.snapshots ≡ c.snapshots
    → d.callgraphs_active ≡ c.callgraphs_active
    → d.callgraphs_sampling_interval ≡ c.callgraphs_sampling_interval
    → let (f, u) = apply_callgraphs config c in
      let (g, v) = apply_callgraphs config d in (g ≡ f) × Parts d u v
unfolding apply_callgraphs keep_callgraphs
apply_callgraphs-Parts config c d p q r = ground (arith, p, q, r)

-- A push does the CPU part and the callgraphs part as if each were alone, whether the other fails or
-- not, and its error says what failed of the two.
pub apply-independent :
    (turned : Bool) (config : RemoteProfilingConfig) (c : Controller)
    → let (m, d) = apply turned config c in
      let (e, by_cpu) = apply_cpu_memory turned config c in
      let (f, by_callgraphs) = apply_callgraphs config c in
      (m ≡ join_failures e f) × Parts by_cpu by_callgraphs d
unfolding apply
apply-independent turned config c =
    let (e, by_cpu) = apply_cpu_memory turned config c in
    let (p, q, r) = apply_cpu_memory-callgraphs turned config c in
    let (same, kept) = apply_callgraphs-Parts config c by_cpu p q r in
    (ap (join_failures e) same, kept)

-- Whether a configuration can be applied in full.
abbrev pub can_apply : RemoteProfilingConfig → Controller → Bool
can_apply config c =
    (if config.cpu_enabled then c.process.extension else not config.memory_enabled)
    && (not config.callgraphs_enabled || (c.snapshots.registered && c.snapshots.has_handle))

join_failures-none : (e f : Option Failure) → (join_failures e f ≡ none) ↔ ((e ≡ none) × (f ≡ none))
join_failures-none none none = ground arith
join_failures-none none (some _) = ground arith
join_failures-none (some _) none = ground arith
join_failures-none (some _) (some _) = ground arith

apply_callgraphs-outcome :
    (config : RemoteProfilingConfig) (c : Controller)
    → ((apply_callgraphs config c).0 ≡ none) ↔ (
        (not config.callgraphs_enabled || (c.snapshots.registered && c.snapshots.has_handle))
        ≡ true)
unfolding apply_callgraphs set_snapshot_profiling_active
apply_callgraphs-outcome config c = ground arith

-- Where the controller says what runs, a push succeeds exactly if the extension is there for a CPU
-- profiler, the memory profiler is not asked for without it, and callgraphs are only asked for with a
-- snapshot profiler that is registered and has its native handle.
pub apply-accepts :
    (turned : Bool) (config : RemoteProfilingConfig) (c : Controller)
    → Reported c.running c.process
    → ((apply turned config c).0 ≡ none) ↔ (can_apply config c ≡ true)
apply-accepts turned config c h =
    let e = (apply_cpu_memory turned config c).0 in
    let f = (apply_callgraphs config c).0 in
    ground (
      arith,
      (apply-independent turned config c).0,
      join_failures-none e f,
      apply_callgraphs-outcome config c,
      ap (λ x. x.0) (apply_cpu_memory-contract turned config c h).0,
    )
