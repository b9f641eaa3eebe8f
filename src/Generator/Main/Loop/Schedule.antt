-- ===== src/Generator/Main/Loop/Schedule.antt =====
-- What `main` of generator/src/main.py makes its engine do is a schedule of the engine.
use analytics_testing.Base.{
  ◌≡◌, refl, sym, ◌∙◌, ap, Bool, true, false, Option, none, some, List, [], ◌∷◌, if◌then◌else◌,
}
use analytics_testing.Base.Float.{Float}
use analytics_testing.Generator.Main.{StopRules}
use analytics_testing.Generator.Main.Loop.{
  Stage, choosing, entering, stepping, broken, exhausted, closed, MainRun, Move, go_on, pacer_moves,
  worker_moves, signal, stops_after, return_from, enter, main_from, move, moves,
}
use analytics_testing.Generator.Engine.State.{Step, Pacer, idle, Engine}
use analytics_testing.Generator.Engine.Pacing.{begin_step}
use analytics_testing.Generator.Engine.{Event, begin, pace, work, interrupt, shut_down, act, run}

module _ {F : Type 0} ⦃fl : Float F⦄ where
  -- The moves of `main` are moves of its engine, or none.
  abbrev taken : Option (Event F) → List (Event F) → List (Event F)
  taken none evs = evs
  taken (some ev) evs = ev ∷ evs

  abbrev act_of : Option (Event F) → Engine F → Engine F
  act_of none e = e
  act_of (some ev) e = act ev e

  run-taken :
      (o : Option (Event F)) (evs : List (Event F)) (e : Engine F)
      → run (taken o evs) e ≡ run evs (act_of o e)
  unfolding run
  run-taken none evs e = refl
  run-taken (some ev) evs e = refl

  IsEvent : MainRun F → MainRun F → Type 0
  IsEvent m' m = (o : Option (Event F)) × (m'.engine ≡ act_of o m.engine)

  return_from-IsEvent :
      (rules : StopRules F) (rest : List (Step F)) (clock : F) (m : MainRun F) (p : Pacer F)
      → IsEvent (return_from p rules rest clock m) m
  unfolding IsEvent
  return_from-IsEvent rules rest clock m idle = (none, by_rule (stops_after rules clock m.engine))
    where
      by_rule :
          (b : Bool)
          → (if b
              then record m { stage = broken rest }
              else record m { stage = choosing rest }).engine
            ≡ m.engine
      by_rule true = refl
      by_rule false = refl
  return_from-IsEvent rules rest clock m _ = (none, refl)

  enter-IsEvent :
      (step : Step F) (rest : List (Step F)) (wall clock : F) (m : MainRun F)
      → IsEvent (enter step rest wall clock m) m
  unfolding IsEvent
  enter-IsEvent step rest wall clock m = by_begin (begin_step step wall clock m.engine) refl
    where
      by_begin :
          (o : Option (Engine F))
          → begin_step step wall clock m.engine ≡ o
          → IsEvent (enter step rest wall clock m) m
      by_begin none q = rw (enter, IsEvent, q) (none, refl)
      by_begin (some e') q = rw (enter, IsEvent, q) (some (begin step wall clock), refl)

  main_from-IsEvent :
      (rules : StopRules F) (wall clock : F) (m : MainRun F) (s : Stage F)
      → IsEvent (main_from s rules wall clock m) m
  unfolding main_from IsEvent
  main_from-IsEvent rules wall clock m (choosing []) = (none, refl)
  main_from-IsEvent rules wall clock m (choosing (step ∷ rest)) = by_choice m.interrupted
    where
      by_choice :
          (cut : Bool)
          → IsEvent
              (if cut
                then record m { stage = broken (step ∷ rest) }
                else record m { stage = entering step rest })
              m
      by_choice true = (none, refl)
      by_choice false = (none, refl)
  main_from-IsEvent rules wall clock m (entering step rest) = enter-IsEvent step rest wall clock m
  main_from-IsEvent rules wall clock m (stepping rest) =
      return_from-IsEvent rules rest clock m m.engine.pacer
  main_from-IsEvent rules wall clock m (broken rest) = (some shut_down, refl)
  main_from-IsEvent rules wall clock m exhausted = (some shut_down, refl)
  main_from-IsEvent rules wall clock m (closed rest) = (none, refl)

  move-IsEvent : (rules : StopRules F) (mv : Move F) (m : MainRun F) → IsEvent (move rules mv m) m
  unfolding move IsEvent
  move-IsEvent rules (go_on wall clock) m = main_from-IsEvent rules wall clock m m.stage
  move-IsEvent rules (pacer_moves now flag) m = (some (pace now flag), refl)
  move-IsEvent rules (worker_moves w now outcome) m = (some (work w now outcome), refl)
  move-IsEvent rules signal m = (some interrupt, refl)

  pub moves-schedule :
      (rules : StopRules F) (mvs : List (Move F)) (m : MainRun F)
      → (evs : List (Event F)) × ((moves rules mvs m).engine ≡ run evs m.engine)
  unfolding moves run IsEvent
  moves-schedule rules [] m = ([], refl)
  moves-schedule rules (mv ∷ mvs) m =
      let (evs, q) = moves-schedule rules mvs (move rules mv m) in
      let (o, one) = move-IsEvent rules mv m in
      (taken o evs, q ∙ ap (run evs) one ∙ sym (run-taken o evs m.engine))
