-- ===== src/Generator/Main/Loop/Ends.antt =====
-- What `main` of generator/src/main.py begins after a signal, or once its loop is left.
use analytics_testing.Base.{
  ℕ, ◌≡◌, refl, ap, sym, subst, ◌∙◌, Bool, true, false, ◌||◌, ◌⊎◌, inl, inr, ◌++◌, Option, none,
  some, List, [], ◌∷◌, if◌then◌else◌, arith,
}
use analytics_testing.Base.Float.{Float}
use analytics_testing.Generator.Metrics.State.{Metrics}
use analytics_testing.Generator.Payload.{PayloadFactory}
use analytics_testing.Generator.Main.{StopRules}
use analytics_testing.Generator.Main.Loop.{
  Stage, choosing, entering, stepping, broken, exhausted, closed, MainRun, Move, go_on, pacer_moves,
  worker_moves, signal, stops_after, return_from, enter, main_from, move, moves, main_of,
}
use analytics_testing.Generator.Main.Loop.Begun.{begun, Closed, Keeps, pace-Keeps, work-Keeps}
use analytics_testing.Generator.Main.Loop.Follows.{
  Between, begin-begun, IsFollowing, move-IsFollowing, moves-IsFollowing, main_of-IsFollowing,
}
use analytics_testing.Generator.Engine.State.{Step, Pacer, idle, Engine, Workload}
use analytics_testing.Generator.Engine.Pacing.{begin_step}
use analytics_testing.Generator.Engine.{begin, start, act, shut}

module _ {F : Type 0} where
  -- The loop is left, or a signal is seen before the next step.
  abbrev pub is_done : Bool → Stage F → Bool
  is_done interrupted (choosing rest) = interrupted
  is_done interrupted (entering step rest) = false
  is_done interrupted (stepping rest) = interrupted
  is_done interrupted _ = true

  -- The loop is left.
  abbrev pub is_out : Stage F → Bool
  is_out (choosing rest) = false
  is_out (entering step rest) = false
  is_out (stepping rest) = false
  is_out _ = true

  -- The step that is past the look at `interrupted` and has not begun.
  abbrev pub pending : Stage F → List (Step F)
  pending (entering step rest) = step ∷ []
  pending _ = []

  is_done-signal : (b : Bool) (s : Stage F) → is_done b s ≡ true → is_done true s ≡ true
  is_done-signal b (entering step rest) h = cc h
  is_done-signal b _ h = refl

module _ {F : Type 0} ⦃fl : Float F⦄ where
  -- No step begins from `m` to `m'`, and none will.
  IsQuiet : MainRun F → MainRun F → Type 0
  IsQuiet m' m = (begun m'.engine ≡ begun m.engine) × (is_done m'.interrupted m'.stage ≡ true)

  return_from-IsQuiet :
      (rules : StopRules F) (rest : List (Step F)) (clock : F) (m : MainRun F) (p : Pacer F)
      → m.interrupted ≡ true
      → m.stage ≡ stepping rest
      → IsQuiet (return_from p rules rest clock m) m
  unfolding IsQuiet
  return_from-IsQuiet rules rest clock m idle q at = by_rule (stops_after rules clock m.engine)
    where
      by_rule :
          (b : Bool)
          → IsQuiet
              (if b then record m { stage = broken rest } else record m { stage = choosing rest })
              m
      by_rule true = (refl, ground (arith, q))
      by_rule false = (refl, ground (arith, q))
  return_from-IsQuiet rules rest clock m _ q at = (refl, ground (arith, q))

  main_from-IsQuiet :
      (rules : StopRules F) (wall clock : F) (m : MainRun F) (s : Stage F)
      → m.stage ≡ s
      → is_done m.interrupted s ≡ true
      → IsQuiet (main_from s rules wall clock m) m
  unfolding main_from IsQuiet act shut
  main_from-IsQuiet rules wall clock m (choosing []) at h = (refl, ground (arith, h))
  main_from-IsQuiet rules wall clock m (choosing (step ∷ rest)) at h = by_choice m.interrupted refl
    where
      by_choice :
          (cut : Bool)
          → m.interrupted ≡ cut
          → IsQuiet
              (if cut
                then record m { stage = broken (step ∷ rest) }
                else record m { stage = entering step rest })
              m
      by_choice true q = (refl, ground (arith, q))
      by_choice false q = ground (arith, h, q)
  main_from-IsQuiet rules wall clock m (entering step rest) at h = cc h
  main_from-IsQuiet rules wall clock m (stepping rest) at h =
      return_from-IsQuiet rules rest clock m m.engine.pacer (ground (arith, h)) at
  main_from-IsQuiet rules wall clock m (broken rest) at h = (refl, ground arith)
  main_from-IsQuiet rules wall clock m exhausted at h = (refl, ground arith)
  main_from-IsQuiet rules wall clock m (closed rest) at h = (refl, ground (arith, at))

  move-IsQuiet :
      (rules : StopRules F) (steps : List (Step F)) (mv : Move F) (m : MainRun F)
      → IsFollowing steps m
      → is_done m.interrupted m.stage ≡ true
      → IsQuiet (move rules mv m) m
  unfolding move IsQuiet Keeps act
  move-IsQuiet rules steps (go_on wall clock) m f h =
      main_from-IsQuiet rules wall clock m m.stage refl h
  move-IsQuiet rules steps (pacer_moves now flag) m f h =
      ((pace-Keeps now flag m.engine f.closed).0, h)
  move-IsQuiet rules steps (worker_moves w now outcome) m f h =
      ((work-Keeps w now outcome m.engine f.closed).0, h)
  move-IsQuiet rules steps signal m f h = (refl, is_done-signal m.interrupted m.stage h)

  moves-IsQuiet :
      (rules : StopRules F) (steps : List (Step F)) (mvs : List (Move F)) (m : MainRun F)
      → IsFollowing steps m
      → is_done m.interrupted m.stage ≡ true
      → IsQuiet (moves rules mvs m) m
  unfolding moves IsQuiet
  moves-IsQuiet rules steps [] m f h = (refl, h)
  moves-IsQuiet rules steps (mv ∷ mvs) m f h =
      let one = move-IsQuiet rules steps mv m f h in
      let more =
        moves-IsQuiet rules steps mvs (move rules mv m) (move-IsFollowing rules steps mv m f)
          one.1 in
      (more.0 ∙ one.0, more.1)

  -- From `m` to `m'` no step begins but perhaps one of the list.
  abbrev pub AtMost : List (Step F) → MainRun F → MainRun F → Type 0
  AtMost late m' m = (begun m'.engine ≡ begun m.engine) ⊎ (begun m'.engine ≡ begun m.engine ++ late)

  enter-AtMost :
      (rules : StopRules F) (steps : List (Step F)) (mvs : List (Move F)) (step : Step F)
      (rest : List (Step F)) (wall clock : F) (m : MainRun F)
      → m.interrupted ≡ true
      → m.engine.pacer ≡ idle
      → Closed m.engine
      → IsFollowing steps (enter step rest wall clock m)
      → AtMost (step ∷ []) (moves rules mvs (enter step rest wall clock m)) m
  unfolding IsQuiet
  enter-AtMost rules steps mvs step rest wall clock m cut at closed_ next =
      by_begin (begin_step step wall clock m.engine) refl
    where
      by_begin :
          (o : Option (Engine F))
          → begin_step step wall clock m.engine ≡ o
          → AtMost (step ∷ []) (moves rules mvs (enter step rest wall clock m)) m
      by_begin none q =
          let same : enter step rest wall clock m ≡ record m { stage = broken (step ∷ rest) } =
            rw (enter, q) refl in
          let quiet =
            moves-IsQuiet rules steps mvs (record m { stage = broken (step ∷ rest) })
              (subst (IsFollowing steps) same next) refl in
          inl (ap (λ x. begun (moves rules mvs x).engine) same ∙ quiet.0)
      by_begin (some e') q =
          let m' : MainRun F = record m {
            engine = act (begin step wall clock) m.engine;
            stage = stepping rest;
          } in
          let same : enter step rest wall clock m ≡ m' = rw (enter, q) refl in
          let quiet = moves-IsQuiet rules steps mvs m' (subst (IsFollowing steps) same next) cut in
          inr (
            ap (λ x. begun (moves rules mvs x).engine) same
            ∙ quiet.0
            ∙ (begin-begun step wall clock m.engine e' q at closed_).0)

  after-AtMost :
      (late : List (Step F)) (m'' m' m : MainRun F)
      → begun m'.engine ≡ begun m.engine
      → AtMost late m'' m'
      → AtMost late m'' m
  after-AtMost late m'' m' m same (inl q) = inl (q ∙ same)
  after-AtMost late m'' m' m same (inr q) = inr (q ∙ ap (λ x. x ++ late) same)

  entering-AtMost :
      (rules : StopRules F) (steps : List (Step F)) (step : Step F) (rest : List (Step F))
      (mvs : List (Move F)) (m : MainRun F)
      → IsFollowing steps m
      → m.stage ≡ entering step rest
      → m.interrupted ≡ true
      → AtMost (step ∷ []) (moves rules mvs m) m
  unfolding moves move main_from Keeps act
  entering-AtMost rules steps step rest [] m f at cut = inl refl
  entering-AtMost rules steps step rest (go_on wall clock ∷ mvs) m f at cut =
      let same : move rules (go_on wall clock) m ≡ enter step rest wall clock m =
        ap (λ s. main_from s rules wall clock m) at in
      let next =
        subst (IsFollowing steps) same (move-IsFollowing rules steps (go_on wall clock) m f) in
      subst (λ x. AtMost (step ∷ []) (moves rules mvs x) m) (sym same)
        (enter-AtMost rules steps mvs step rest wall clock m cut
          (subst (λ s. Between s m.engine.pacer) at f.between) f.closed next)
  entering-AtMost rules steps step rest (pacer_moves now flag ∷ mvs) m f at cut =
      let m' = move rules (pacer_moves now flag) m in
      after-AtMost _ (moves rules mvs m') m' m (pace-Keeps now flag m.engine f.closed).0 (
        entering-AtMost rules steps step rest mvs m'
          (move-IsFollowing rules steps (pacer_moves now flag) m f) at cut)
  entering-AtMost rules steps step rest (worker_moves w now outcome ∷ mvs) m f at cut =
      let m' = move rules (worker_moves w now outcome) m in
      after-AtMost _ (moves rules mvs m') m' m (work-Keeps w now outcome m.engine f.closed).0 (
        entering-AtMost rules steps step rest mvs m'
          (move-IsFollowing rules steps (worker_moves w now outcome) m f) at cut)
  entering-AtMost rules steps step rest (signal ∷ mvs) m f at cut =
      let m' = move rules signal m in
      after-AtMost _ (moves rules mvs m') m' m refl (
        entering-AtMost rules steps step rest mvs m' (move-IsFollowing rules steps signal m f) at
          refl)

  moves-AtMost :
      (rules : StopRules F) (steps : List (Step F)) (mvs : List (Move F)) (m : MainRun F)
      → IsFollowing steps m
      → (m.interrupted || is_out m.stage) ≡ true
      → AtMost (pending m.stage) (moves rules mvs m) m
  unfolding IsQuiet
  moves-AtMost rules steps mvs m f h = by_stage m.stage refl
    where
      quiet :
          is_done m.interrupted m.stage ≡ true
          → (late : List (Step F)) → AtMost late (moves rules mvs m) m
      quiet done late = inl (moves-IsQuiet rules steps mvs m f done).0

      by_stage : (s : Stage F) → m.stage ≡ s → AtMost (pending s) (moves rules mvs m) m
      by_stage (entering step rest) at =
          entering-AtMost rules steps step rest mvs m f at (ground (arith, h, at))
      by_stage s at = quiet (ground (arith, h, at)) (pending s)

  -- Once a signal has come, or the loop is left by its end, a stop rule or an exception, whatever
  -- happens from there begins no step, except the one that had already passed the look at
  -- `interrupted`: the steps that have a result or are open are the same, or that one more.
  pub main_begins_no_more :
      (cfg : Workload) (workers : ℕ) (f : PayloadFactory F) (metrics : Metrics F) (e₀ : Engine F)
      (rules : StopRules F) (steps : List (Step F)) (before after : List (Move F))
      → start cfg workers f metrics ≡ some e₀
      → let m = moves rules before (main_of steps e₀) in
        (m.interrupted || is_out m.stage) ≡ true → AtMost (pending m.stage) (moves rules after m) m
  main_begins_no_more cfg workers f metrics e₀ rules steps before after started out =
      let fresh = main_of-IsFollowing cfg workers f metrics e₀ steps started in
      moves-AtMost rules steps after (moves rules before (main_of steps e₀))
        (moves-IsFollowing rules steps before (main_of steps e₀) fresh) out
