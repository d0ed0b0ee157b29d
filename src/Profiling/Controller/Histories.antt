-- ===== src/Profiling/Controller/Histories.antt =====
-- The controller of src/profiling/ProfilingController.ts over histories: pushes of the remote
-- configuration, stops, and turns of the event loop, in any order.
use splunk_otel_js.Common.{Bool, List, [], ◌∷◌, ◌≡◌, ◌∙◌, ap, arith, subst, sym}
use splunk_otel_js.Opamp.RemoteConfig.{RemoteProfilingConfig}
use splunk_otel_js.Tracing.Snapshots.{Snapshots}
use splunk_otel_js.Profiling.Start.{ProfilingOptions, Process, turn}
use splunk_otel_js.Profiling.Controller.{
  Controller, new_controller, start_initial, stop_cpu, apply_cpu_memory, apply_callgraphs,
  keep_callgraphs, apply,
}
use splunk_otel_js.Profiling.Controller.Refinement.{
  Reported, turn-Unturned, turn-Reported, stop_cpu-Reported, apply_cpu_memory-contract,
}

-- What happens to a controller: a push, a stop, and a turn of the event loop.
pub data Step : Type 0 where
  pushed : Bool → RemoteProfilingConfig → Step
  stopped : Bool → Step
  turned_loop : Step

unfoldable pub step : Step → Controller → Controller
step (pushed turned config) c = (apply turned config c).1
step (stopped turned) c = stop_cpu turned c
step turned_loop c = record c { process = turn c.process }

unfoldable pub run : List Step → Controller → Controller
unfolding step
run [] c = c
run (s ∷ ss) c = run ss (step s c)

-- The controller says what runs, and the extension and the base options are still the same.
abbrev pub Honest : Bool → ProfilingOptions → Controller → Type 0
Honest extension o c =
    Reported c.running c.process × (c.process.extension ≡ extension) × (c.base_options ≡ o)

pub apply_callgraphs-rest :
    (config : RemoteProfilingConfig) (c : Controller)
    → let d = (apply_callgraphs config c).1 in
      (d.process ≡ c.process) × (d.running ≡ c.running) × (d.base_options ≡ c.base_options)
unfolding apply_callgraphs keep_callgraphs
apply_callgraphs-rest config c = ground arith

module _ (extension : Bool) (o : ProfilingOptions) where
  apply_callgraphs-Honest :
      (config : RemoteProfilingConfig) (c : Controller)
      → Honest extension o c
      → Honest extension o (apply_callgraphs config c).1
  apply_callgraphs-Honest config c (h, e, b) =
      let (process, running, base) = apply_callgraphs-rest config c in
      (
        subst (λ r. Reported r (apply_callgraphs config c).1.process) (sym running)
            (subst (λ p. Reported c.running p) (sym process) h),
        ap (λ p. p.extension) process ∙ e,
        base ∙ b,
      )

  stop_cpu-Honest :
      (turned : Bool) (c : Controller)
      → Honest extension o c
      → Honest extension o (stop_cpu turned c)
  stop_cpu-Honest turned c (h, e, b) =
      let (none_runs, off, (kept, base)) = stop_cpu-Reported turned c h in
      (subst (λ r. Reported r (stop_cpu turned c).process) (sym none_runs) off, kept ∙ e, base ∙ b)

  step-Honest : (s : Step) (c : Controller) → Honest extension o c → Honest extension o (step s c)
  unfolding step apply
  step-Honest (pushed turned config) c (h, e, b) =
      let d = (apply_cpu_memory turned config c).1 in
      let (_, reported, (kept, base)) = apply_cpu_memory-contract turned config c h in
      apply_callgraphs-Honest config d (reported, kept ∙ e, base ∙ b)
  step-Honest (stopped turned) c v = stop_cpu-Honest turned c v
  step-Honest turned_loop c (h, e, b) =
      let (kept, _, _, _) = turn-Unturned c.process in
      (turn-Reported c.running c.process h, kept ∙ e, b)

  pub run-Honest :
      (ss : List Step) (c : Controller) → Honest extension o c → Honest extension o (run ss c)
  unfolding run
  run-Honest [] c v = v
  run-Honest (s ∷ ss) c v = run-Honest ss (step s c) (step-Honest s c v)

-- The controller as `start` makes it.
unfoldable pub boot : Bool → ProfilingOptions → Process → Snapshots → Controller
unfolding new_controller
boot enabled o p s = (start_initial enabled (new_controller o p s)).1
