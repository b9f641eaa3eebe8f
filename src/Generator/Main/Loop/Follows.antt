-- ===== src/Generator/Main/Loop/Follows.antt =====
-- Every run of `main` of generator/src/main.py is a schedule of its engine, and follows the profile.
use mathlib.Core.List.{append-nil, append_assoc}
use analytics_testing.Base.{
  ℕ, ◌≡◌, ◌≢◌, refl, sym, ◌∙◌, ap, subst, Bool, true, false, Option, none, some, List, [], ◌∷◌,
  ◌++◌, map, arith, if◌then◌else◌,
}
use analytics_testing.Base.Float.{Float}
use analytics_testing.Generator.Metrics.State.{Metrics}
use analytics_testing.Generator.Payload.{PayloadFactory}
use analytics_testing.Generator.Main.{StopRules}
use analytics_testing.Generator.Main.Loop.{
  Stage, choosing, entering, stepping, broken, exhausted, closed, MainRun, Move, go_on, pacer_moves,
  worker_moves, signal, remaining, stops_after, return_from, enter, leave, main_from, move, moves,
  main_of,
}
use analytics_testing.Generator.Engine.State.{Step, Pacer, idle, Engine, Workload}
use analytics_testing.Generator.Engine.Pacing.{begin_step}
use analytics_testing.Generator.Engine.Tiling.Once.{start-eq-some}
use analytics_testing.Generator.Engine.{
  Event, begin, pace, work, interrupt, initial, start, act, run,
}
use analytics_testing.Generator.Main.Loop.Begun.{
  step_of_result, opened, begun, Closed, Keeps, pace-Keeps, work-Keeps, interrupt-Keeps,
  shut_down-Keeps,
}
use analytics_testing.Generator.Main.Loop.Schedule.{moves-schedule}

module _ {F : Type 0} ⦃fl : Float F⦄ where
  -- The main thread is at the head of its loop, or about to begin, only outside `run_step`.
  abbrev pub Between : Stage F → Pacer F → Type 0
  Between (choosing rest) p = p ≡ idle
  Between (entering step rest) p = p ≡ idle
  Between _ p = Unit

  -- The steps that have begun are the first of the profile, and the loop has the others before it.
  pub record IsFollowing (steps : List (Step F)) (m : MainRun F) : Type 0 where
    pub plan : begun m.engine ++ remaining m.stage ≡ steps
    pub closed : Closed m.engine
    pub between : Between m.stage m.engine.pacer

  Keeps-IsFollowing :
      (steps : List (Step F)) (m : MainRun F) (ev : Event F) (flag : Bool)
      → Keeps ev m.engine
      → IsFollowing steps m
      → IsFollowing steps (record m { engine = act ev m.engine; interrupted = flag })
  unfolding Keeps
  Keeps-IsFollowing steps m ev flag k h = record {
    plan = ap (λ x. x ++ remaining m.stage) k.0 ∙ h.plan;
    closed = k.1;
    between = still m.stage h.between;
  }
    where
      still : (s : Stage F) → Between s m.engine.pacer → Between s (act ev m.engine).pacer
      still (choosing rest) b = k.2 b
      still (entering step rest) b = k.2 b
      still (stepping rest) b = tt
      still (broken rest) b = tt
      still exhausted b = tt
      still (closed rest) b = tt

  -- `run_step` opens the step that it is given.
  pub begin-begun :
      (step : Step F) (wall clock : F) (e e' : Engine F)
      → begin_step step wall clock e ≡ some e'
      → e.pacer ≡ idle
      → Closed e
      → (begun (act (begin step wall clock) e) ≡ begun e ++ step ∷ [])
        × Closed (act (begin step wall clock) e)
  unfolding act begin_step
  begin-begun step wall clock e e' found at h =
      let same : act (begin step wall clock) e ≡ e' = ground (arith, at, found) in
      let opens : (e'.results ≡ e.results) × (opened e'.step ≡ step ∷ []) × (e'.pacer ≢ idle) =
        ground (arith, found) in
      let all : begun e' ≡ begun e ++ step ∷ [] =
        rw (opens.0, opens.1, h at, append-nil (map step_of_result e.results)) refl in
      subst (λ x. (begun x ≡ begun e ++ step ∷ []) × Closed x) (sym same)
        (all, λ q. absurd (opens.2 q))

  enter-IsFollowing :
      (steps : List (Step F)) (step : Step F) (rest : List (Step F)) (wall clock : F)
      (m : MainRun F)
      → begun m.engine ++ step ∷ rest ≡ steps
      → Closed m.engine
      → m.engine.pacer ≡ idle
      → IsFollowing steps (enter step rest wall clock m)
  enter-IsFollowing steps step rest wall clock m plan shut_ at =
      by_begin (begin_step step wall clock m.engine) refl
    where
      by_begin :
          (o : Option (Engine F))
          → begin_step step wall clock m.engine ≡ o
          → IsFollowing steps (enter step rest wall clock m)
      by_begin none q = rw (enter, q) (record { plan = plan; closed = shut_; between = tt })
      by_begin (some e') q =
          let new = begin-begun step wall clock m.engine e' q at shut_ in
          rw (enter, q)
            (record {
              plan =
                  ap (λ x. x ++ rest) new.0 ∙ append_assoc (begun m.engine) (step ∷ []) rest ∙ plan;
              closed = new.1;
              between = tt;
            })

  leave-IsFollowing :
      (rules : StopRules F) (steps rest : List (Step F)) (clock : F) (m : MainRun F) (b : Bool)
      → stops_after rules clock m.engine ≡ b
      → begun m.engine ++ rest ≡ steps
      → Closed m.engine
      → m.engine.pacer ≡ idle
      → IsFollowing steps (leave rules rest clock m)
  leave-IsFollowing rules steps rest clock m true q plan shut_ at =
      rw (leave, q) (record { plan = plan; closed = shut_; between = tt })
  leave-IsFollowing rules steps rest clock m false q plan shut_ at =
      rw (leave, q) (record { plan = plan; closed = shut_; between = at })

  return-IsFollowing :
      (rules : StopRules F) (steps rest : List (Step F)) (clock : F) (m : MainRun F) (p : Pacer F)
      → m.engine.pacer ≡ p
      → begun m.engine ++ rest ≡ steps
      → IsFollowing steps m
      → IsFollowing steps (return_from p rules rest clock m)
  return-IsFollowing rules steps rest clock m idle at plan h =
      leave-IsFollowing rules steps rest clock m _ refl plan h.closed at
  return-IsFollowing rules steps rest clock m _ at plan h = h

  main_from-IsFollowing :
      (rules : StopRules F) (steps : List (Step F)) (wall clock : F) (m : MainRun F) (s : Stage F)
      → m.stage ≡ s
      → IsFollowing steps m
      → IsFollowing steps (main_from s rules wall clock m)
  unfolding main_from Keeps
  main_from-IsFollowing rules steps wall clock m s at h =
      by_stage s (subst (λ s. begun m.engine ++ remaining s ≡ steps) at h.plan)
        (subst (λ s. Between s m.engine.pacer) at h.between)
    where
      by_choice :
          (step : Step F) (rest : List (Step F))
          → begun m.engine ++ step ∷ rest ≡ steps
          → m.engine.pacer ≡ idle
          → (cut : Bool)
          → IsFollowing steps (
              if cut
              then record m { stage = broken (step ∷ rest) }
              else record m { stage = entering step rest })
      by_choice step rest plan b true = record { plan = plan; closed = h.closed; between = tt }
      by_choice step rest plan b false = record { plan = plan; closed = h.closed; between = b }

      by_stage :
          (s : Stage F)
          → begun m.engine ++ remaining s ≡ steps
          → Between s m.engine.pacer
          → IsFollowing steps (main_from s rules wall clock m)
      by_stage (choosing []) plan b = record { plan = plan; closed = h.closed; between = tt }
      by_stage (choosing (step ∷ rest)) plan b = by_choice step rest plan b m.interrupted
      by_stage (entering step rest) plan b =
          enter-IsFollowing steps step rest wall clock m plan h.closed b
      by_stage (stepping rest) plan b =
          return-IsFollowing rules steps rest clock m m.engine.pacer refl plan h
      by_stage (broken rest) plan b =
          let k = shut_down-Keeps m.engine h.closed in
          record { plan = ap (λ x. x ++ rest) k.0 ∙ plan; closed = k.1; between = tt }
      by_stage exhausted plan b =
          let k = shut_down-Keeps m.engine h.closed in
          record { plan = ap (λ x. x ++ []) k.0 ∙ plan; closed = k.1; between = tt }
      by_stage (closed rest) plan b = h

  pub move-IsFollowing :
      (rules : StopRules F) (steps : List (Step F)) (mv : Move F) (m : MainRun F)
      → IsFollowing steps m
      → IsFollowing steps (move rules mv m)
  unfolding move
  move-IsFollowing rules steps (go_on wall clock) m h =
      main_from-IsFollowing rules steps wall clock m m.stage refl h
  move-IsFollowing rules steps (pacer_moves now flag) m h =
      Keeps-IsFollowing steps m (pace now flag) m.interrupted
        (pace-Keeps now flag m.engine h.closed) h
  move-IsFollowing rules steps (worker_moves w now outcome) m h =
      Keeps-IsFollowing steps m (work w now outcome) m.interrupted
        (work-Keeps w now outcome m.engine h.closed) h
  move-IsFollowing rules steps signal m h =
      Keeps-IsFollowing steps m interrupt true (interrupt-Keeps m.engine h.closed) h

  pub moves-IsFollowing :
      (rules : StopRules F) (steps : List (Step F)) (mvs : List (Move F)) (m : MainRun F)
      → IsFollowing steps m
      → IsFollowing steps (moves rules mvs m)
  unfolding moves
  moves-IsFollowing rules steps [] m h = h
  moves-IsFollowing rules steps (mv ∷ mvs) m h =
      moves-IsFollowing rules steps mvs (move rules mv m) (move-IsFollowing rules steps mv m h)

  pub main_of-IsFollowing :
      (cfg : Workload) (workers : ℕ) (f : PayloadFactory F) (metrics : Metrics F) (e₀ : Engine F)
      (steps : List (Step F))
      → start cfg workers f metrics ≡ some e₀
      → IsFollowing steps (main_of steps e₀)
  unfolding initial
  main_of-IsFollowing cfg workers f metrics e₀ steps started =
      subst (λ e. IsFollowing steps (main_of steps e))
        (start-eq-some cfg workers f metrics e₀ started).1
        (record { plan = refl; closed = λ q. refl; between = refl })

  -- Under every interleaving, whatever the clocks, the network and the signals: what `main` makes its
  -- engine do is a schedule of the engine, and the steps with a result, then the one that is open, then
  -- the ones that the loop has not come to are the steps of the profile, each once and in order.
  pub main_follows :
      (cfg : Workload) (workers : ℕ) (f : PayloadFactory F) (metrics : Metrics F) (e₀ : Engine F)
      (rules : StopRules F) (steps : List (Step F)) (mvs : List (Move F))
      → start cfg workers f metrics ≡ some e₀
      → let m = moves rules mvs (main_of steps e₀) in
        ((evs : List (Event F)) × (m.engine ≡ run evs e₀))
        × (begun m.engine ++ remaining m.stage ≡ steps)
  main_follows cfg workers f metrics e₀ rules steps mvs started =
      let fresh = main_of-IsFollowing cfg workers f metrics e₀ steps started in
      (
        moves-schedule rules mvs (main_of steps e₀),
        (moves-IsFollowing rules steps mvs (main_of steps e₀) fresh).plan,
      )
