-- ===== src/Generator/Config/Steps.antt =====
-- `_positive` and `_build_steps` of generator/src/config.py. A `ConfigError`, and the exception that a
-- value of another kind raises, is `none`. Python's `float` on a text is the argument `parse`.
use analytics_testing.Base.{
  ℕ, ◌+◌, ◌≡◌, ◌<◌, refl, Bool, true, false, not, ◌&&◌, ◌||◌, String, Option, none, some, List, [],
  ap₂, str_eq, ◌==◌, ◌∷◌, map, length, All, if◌then◌else◌, arith,
}
use analytics_testing.Base.Int.{pos, negsuc}
use analytics_testing.Base.Float.{Float}
use analytics_testing.Generator.Payload.Stamping.{seqs_from}
use analytics_testing.Generator.Engine.State.{Step}
use analytics_testing.Generator.Config.{
  Node, null, flag, number, decimal, text, sequence, mapping, Items, no_items, item, no_entries,
  find,
}

module _ {F : Type 0} ⦃fl : Float F⦄ (parse : String → Option F) where
  open fl use {lit, sub, lt, le}

  -- `float(value)`, where a missing key is `None`.
  unfoldable pub to_float : Option (Node F) → Option F
  to_float (some (flag b)) = some (if b then lit 1 1 else lit 0 1)
  to_float (some (number (pos n))) = some (lit n 1)
  to_float (some (number (negsuc n))) = some (sub (lit 0 1) (lit (n + 1) 1))
  to_float (some (decimal x)) = some x
  to_float (some (text s)) = parse s
  to_float _ = none

  abbrev pub is_zero_float : F → Bool
  is_zero_float x = le x (lit 0 1) && le (lit 0 1) x

  -- The test of `_positive`.
  abbrev pub out_of_range : Bool → F → Bool
  out_of_range allow_zero x = lt x (lit 0 1) || is_zero_float x && not allow_zero

  abbrev pub checked : Bool → Option F → Option F
  checked allow_zero none = none
  checked allow_zero (some x) = if out_of_range allow_zero x then none else some x

  unfoldable pub positive : Bool → Option (Node F) → Option F
  unfolding to_float
  positive allow_zero value = checked allow_zero (to_float value)

  abbrev pair_step : ℕ → Option F → Option F → Option (Step F)
  pair_step i none _ = none
  pair_step i (some rps) none = none
  pair_step i (some rps) (some duration) =
      some (record { index = i; rps = rps; duration_seconds = duration })

  -- The step of one entry of `steps`; an entry that is no mapping has no `get`.
  abbrev step_of : ℕ → Node F → Option (Step F)
  step_of i (mapping s) =
      pair_step i (positive false (find "rps" s)) (positive false (find "duration_seconds" s))
  step_of i _ = none

  abbrev cons_step : Option (Step F) → Option (List (Step F)) → Option (List (Step F))
  cons_step none _ = none
  cons_step (some s) none = none
  cons_step (some s) (some ss) = some (s ∷ ss)

  -- The loop over `enumerate(raw_steps)` from index `i`.
  unfoldable pub steps_from : ℕ → Items F → Option (List (Step F))
  unfolding positive
  steps_from i no_items = some []
  steps_from i (item s rest) = cons_step (step_of i s) (steps_from (i + 1) rest)

  -- `not value`, where a missing key is `None`.
  abbrev pub is_falsy : Option (Node F) → Bool
  is_falsy none = true
  is_falsy (some null) = true
  is_falsy (some (flag b)) = not b
  is_falsy (some (number (pos n))) = n == 0
  is_falsy (some (number (negsuc n))) = false
  is_falsy (some (decimal x)) = is_zero_float x
  is_falsy (some (text s)) = str_eq s ""
  is_falsy (some (sequence no_items)) = true
  is_falsy (some (mapping no_entries)) = true
  is_falsy (some _) = false

  -- `enumerate` of another kind fails, at the latest at its first element.
  abbrev steps_of : Option (Node F) → Option (List (Step F))
  steps_of (some (sequence raw)) = steps_from 0 raw
  steps_of _ = none

  -- `_build_steps`, for the target rate and the duration of the workload.
  unfoldable pub build_steps : Option (Node F) → F → F → Option (List (Step F))
  unfolding steps_from
  build_steps raw target_rps duration =
      if is_falsy raw
      then some (record { index = 0; rps = target_rps; duration_seconds = duration } ∷ [])
      else steps_of raw

  -- The rate and the duration have passed `_positive`.
  abbrev pub IsRunnable : Step F → Type 0
  IsRunnable s =
      (out_of_range false s.rps ≡ false) × (out_of_range false s.duration_seconds ≡ false)

  step_of-IsRunnable :
      (i : ℕ) (n : Node F) (s : Step F) → step_of i n ≡ some s → (s.index ≡ i) × IsRunnable s
  unfolding positive
  step_of-IsRunnable i n s h = ground (arith, h)

  -- Indices in order from `i`, and each step runnable.
  abbrev pub InOrder : ℕ → List (Step F) → Type 0
  InOrder i steps = (map (λ s. s.index) steps ≡ seqs_from i (length steps)) × All IsRunnable steps

  -- `len(raw_steps)`
  abbrev pub length_items : Items F → ℕ
  length_items no_items = 0
  length_items (item s rest) = length_items rest + 1

  steps_from-InOrder :
      (i : ℕ) (raw : Items F) (steps : List (Step F))
      → steps_from i raw ≡ some steps
      → InOrder i steps × (length steps ≡ length_items raw)
  unfolding steps_from
  steps_from-InOrder i no_items steps h = ground (arith, h)
  steps_from-InOrder i (item n rest) steps h =
      by_step (steps_from-InOrder (i + 1) rest) (step_of i n) refl (steps_from (i + 1) rest) refl
    where
      by_step :
          ((later : List (Step F))
            → steps_from (i + 1) rest ≡ some later
            → InOrder (i + 1) later × (length later ≡ length_items rest))
          → (o : Option (Step F)) → step_of i n ≡ o
          → (os : Option (List (Step F))) → steps_from (i + 1) rest ≡ os
          → InOrder i steps × (length steps ≡ length_items (item n rest))
      by_step ih none e os es = ground (arith, h, e)
      by_step ih (some s) e none es = ground (arith, h, e, es)
      by_step ih (some s) e (some later) es =
          let one = step_of-IsRunnable i n s e in
          let more = ih later es in
          let same : steps ≡ s ∷ later = ground (arith, h, e, es) in
          rw same ((ap₂ ◌∷◌ one.0 more.0.0, (one.1, more.0.1)), omega (arith, more.1))

  -- The steps of a staircase are never empty, they are numbered 0, 1, ... in order, and each has a
  -- rate and a duration that are neither negative nor 0, if those of the workload are so.
  pub build_steps-InOrder :
      (raw : Option (Node F)) (target_rps duration : F) (steps : List (Step F))
      → out_of_range false target_rps ≡ false
      → out_of_range false duration ≡ false
      → build_steps raw target_rps duration ≡ some steps
      → InOrder 0 steps × (0 < length steps)
  unfolding build_steps
  build_steps-InOrder raw target_rps duration steps rate time h =
      by_raw raw h
        (λ items (e : steps_from 0 items ≡ some steps). steps_from-InOrder 0 items steps e)
    where
      by_raw :
          (o : Option (Node F))
          → build_steps o target_rps duration ≡ some steps
          → ((items : Items F)
              → steps_from 0 items ≡ some steps
              → InOrder 0 steps × (length steps ≡ length_items items))
          → InOrder 0 steps × (0 < length steps)
      by_raw (some (sequence (item n rest))) h from =
          let x = from (item n rest) h in (x.0, omega (arith, x.1))
      by_raw o h from = ground (arith, h, rate, time)
