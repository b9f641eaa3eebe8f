-- ===== src/Tests/Loops.antt =====
-- A profile of two steps in `main` of generator/src/main.py, and one that a signal cuts short.
use analytics_testing.Base.{◌≡◌, refl, none, List, [], ◌∷◌, ◌++◌}
use analytics_testing.Base.Float.{Milli, milli_float}
use analytics_testing.Generator.Engine.State.{Step}
use analytics_testing.Generator.Engine.{Event, begin, pace, work, interrupt, shut_down, run}
use analytics_testing.Generator.Main.{StopRules}
use analytics_testing.Generator.Main.Loop.{
  Move, go_on, pacer_moves, worker_moves, signal, main_of, moves, remaining,
}
use analytics_testing.Generator.Main.Loop.Begun.{begun}
use analytics_testing.Generator.Main.Loop.Follows.{main_follows}
use analytics_testing.Generator.Main.Loop.Ends.{AtMost, pending, main_begins_no_more}
use analytics_testing.Tests.Runs.{workload, factory, metrics, engine, step, events, started}

abbrev no_rules : StopRules Milli
no_rules = record {
  accepted_ratio_below = none;
  error_rate_above = none;
  latency_p99_ms_above = none;
}

abbrev steeper : Step Milli
steeper = record { index = 1; rps = 4000; duration_seconds = 2000 }

abbrev profile : List (Step Milli)
profile = step ∷ steeper ∷ []

-- The moves of `main` and its threads on a schedule.
abbrev as_moves : List (Event Milli) → List (Move Milli)
as_moves [] = []
as_moves (begin s wall clock ∷ evs) = go_on wall clock ∷ go_on wall clock ∷ as_moves evs
as_moves (pace now flag ∷ evs) = pacer_moves now flag ∷ as_moves evs
as_moves (work w now outcome ∷ evs) = worker_moves w now outcome ∷ as_moves evs
as_moves (interrupt ∷ evs) = signal ∷ as_moves evs
as_moves (shut_down ∷ evs) = go_on 0 0 ∷ as_moves evs

-- The first step to its end, and the second one begun.
abbrev two_steps : List (Move Milli)
two_steps = as_moves events ++ go_on 2000 2000 ∷ go_on 2000 2000 ∷ go_on 2000 2000 ∷ []

main_follows_example :
    let m = moves no_rules two_steps (main_of profile engine) in
    ((evs : List (Event Milli)) × (m.engine ≡ run evs engine))
    × (begun m.engine ++ remaining m.stage ≡ step ∷ steeper ∷ [])
main_follows_example =
    main_follows workload 2 factory metrics engine no_rules profile two_steps started

-- A signal between the look at `interrupted` and the second step.
abbrev cut : List (Move Milli)
cut = as_moves events ++ go_on 2000 2000 ∷ go_on 2000 2000 ∷ signal ∷ []

main_begins_no_more_example :
    let m = moves no_rules cut (main_of profile engine) in
    AtMost (pending m.stage) (moves no_rules two_steps m) m
unfolding moves
main_begins_no_more_example =
    main_begins_no_more workload 2 factory metrics engine no_rules profile cut two_steps started
      refl
