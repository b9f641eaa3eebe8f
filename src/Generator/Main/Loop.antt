-- ===== src/Generator/Main/Loop.antt =====
-- The loop of `main` in generator/src/main.py over the steps of the profile, with its signal handler,
-- its `finally` and its exit code, on the engine and interleaved with the engine's threads.
pub mod Begun
pub mod Schedule
pub mod Follows
pub mod Ends
use analytics_testing.Base.{ℕ, Bool, true, false, Option, none, some, List, [], ◌∷◌, if◌then◌else◌}
use analytics_testing.Base.Float.{Float}
use analytics_testing.Generator.Main.{StopRules, should_stop}
use analytics_testing.Generator.Engine.State.{Step, StepResult, Outcome, Pacer, idle, Engine}
use analytics_testing.Generator.Engine.Pacing.{begin_step}
use analytics_testing.Generator.Engine.{Event, begin, pace, work, interrupt, shut_down, act}

-- Where `main` stands, with the steps that its loop has not come to: at the head of the loop, past
-- the look at `interrupted` and before the first line of `run_step`, in `run_step`, out of the loop
-- by a `break` or an exception, out of it after the last step, and past the `finally`.
pub data Stage (F : Type 0) : Type 0 where
  choosing : List (Step F) → Stage F
  entering : Step F → List (Step F) → Stage F
  stepping : List (Step F) → Stage F
  broken : List (Step F) → Stage F
  exhausted : Stage F
  closed : List (Step F) → Stage F

-- `interrupted`, the engine and the stage; `step_results` is the engine's `results`.
pub record MainRun (F : Type 0) : Type 0 where
  pub engine : Engine F
  pub interrupted : Bool
  pub stage : Stage F

-- What moves next: the main thread between two calls of `run_step` (the wall clock and the monotonic
-- one), the main thread in `run_step`, a worker, or a signal.
pub data Move (F : Type 0) : Type 0 where
  go_on : F → F → Move F
  pacer_moves : F → Bool → Move F
  worker_moves : ℕ → ℕ → Outcome F → Move F
  signal : Move F

module _ {F : Type 0} where
  -- The steps that the loop has not come to.
  abbrev pub remaining : Stage F → List (Step F)
  remaining (choosing rest) = rest
  remaining (entering step rest) = step ∷ rest
  remaining (stepping rest) = rest
  remaining (broken rest) = rest
  remaining exhausted = []
  remaining (closed rest) = rest

  -- The result that `run_step` has returned.
  abbrev pub last_result : List (StepResult F) → Option (StepResult F)
  last_result [] = none
  last_result (r ∷ []) = some r
  last_result (r ∷ s ∷ rs) = last_result (s ∷ rs)

  -- `5 if engine.abort_reason else 0`
  abbrev pub exit_code : Engine F → ℕ
  exit_code e = elim e.abort_reason [ none ↦ 0 | some _ ↦ 5 ]

module _ {F : Type 0} ⦃fl : Float F⦄ where
  -- `engine.run_step(step)` begins, or raises.
  abbrev pub enter : Step F → List (Step F) → F → F → MainRun F → MainRun F
  enter step rest wall clock m = elim (begin_step step wall clock m.engine) [
    | none ↦ record m { stage = broken (step ∷ rest) }
    | some _ ↦ record m { engine = act (begin step wall clock) m.engine; stage = stepping rest }
  ]

  -- `_should_stop` after a step.
  abbrev pub stops_after : StopRules F → F → Engine F → Bool
  stops_after rules clock e = elim (last_result e.results) [
    | none ↦ false
    | some r ↦ should_stop rules r clock e.metrics
  ]

  abbrev pub leave : StopRules F → List (Step F) → F → MainRun F → MainRun F
  leave rules rest clock m =
      if stops_after rules clock m.engine
      then record m { stage = broken rest }
      else record m { stage = choosing rest }

  -- The main thread stays in `run_step` until that returns.
  abbrev pub return_from : Pacer F → StopRules F → List (Step F) → F → MainRun F → MainRun F
  return_from idle rules rest clock m = leave rules rest clock m
  return_from _ rules rest clock m = m

  -- The main thread at its stage.
  unfoldable pub main_from : Stage F → StopRules F → F → F → MainRun F → MainRun F
  main_from (choosing []) rules wall clock m = record m { stage = exhausted }
  main_from (choosing (step ∷ rest)) rules wall clock m =
      if m.interrupted
      then record m { stage = broken (step ∷ rest) }
      else record m { stage = entering step rest }
  main_from (entering step rest) rules wall clock m = enter step rest wall clock m
  main_from (stepping rest) rules wall clock m = return_from m.engine.pacer rules rest clock m
  main_from (broken rest) rules wall clock m = record m {
    engine = act shut_down m.engine;
    stage = closed rest;
  }
  main_from exhausted rules wall clock m = record m {
    engine = act shut_down m.engine;
    stage = closed [];
  }
  main_from (closed rest) rules wall clock m = m

  unfoldable pub move : StopRules F → Move F → MainRun F → MainRun F
  unfolding main_from
  move rules (go_on wall clock) m = main_from m.stage rules wall clock m
  move rules (pacer_moves now flag) m = record m { engine = act (pace now flag) m.engine }
  move rules (worker_moves w now outcome) m = record m {
    engine = act (work w now outcome) m.engine;
  }
  -- `_handle`
  move rules signal m = record m { engine = act interrupt m.engine; interrupted = true }

  unfoldable pub moves : StopRules F → List (Move F) → MainRun F → MainRun F
  unfolding move
  moves rules [] m = m
  moves rules (mv ∷ mvs) m = moves rules mvs (move rules mv m)

  -- `main` once the engine is started.
  abbrev pub main_of : List (Step F) → Engine F → MainRun F
  main_of steps e = record { engine = e; interrupted = false; stage = choosing steps }
