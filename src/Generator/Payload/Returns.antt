-- ===== src/Generator/Payload/Returns.antt =====
-- Draws of generator/src/payload.py and of generator/src/payload_ai_txn.py that always return.
use analytics_testing.Base.{◌<◌, String, List, [], ◌∷◌, length, map, All, arith}
use analytics_testing.Base.Int.{ℤ, ◌≤ℤ◌}
use analytics_testing.Base.Float.{Float}
use analytics_testing.Base.Random.{
  Random, IsRandom, IsWeights, weighted_choice, choice, Returns, Always-return, Always-bind,
  Always-if, Always-repeat, Always-choice, Always-weighted_choice, random-Returns, uniform-Returns,
}
use analytics_testing.Generator.Payload.Data.{TokenRange, or_default}
use analytics_testing.Generator.Payload.Draws.{SeverityNumbers, draw_latency, pad_body}
use analytics_testing.Base.Decimal.{hex_digits}

abbrev pub IsTokenRange : TokenRange → Type 0
IsTokenRange t = t.lowest ≤ℤ t.highest

abbrev all_of : {A : Type 0} (xs : List A) → All (λ _. Unit {0}) xs
all_of [] = tt
all_of (x ∷ xs) = (tt, all_of xs)

-- `xs or [x]` is not empty.
pub or_default-nonempty : {A : Type 0} (x : A) (xs : List A) → 0 < length (or_default (x ∷ []) xs)
or_default-nonempty x [] = omega arith
or_default-nonempty x (y ∷ ys) = omega arith

module _ {F R : Type 0} ⦃fl : Float F⦄ (g : Random F R) (laws : IsRandom F R g)
    (severities : SeverityNumbers) where
  open fl use {lit, lt}

  pub choice-Returns : {A : Type 0} (xs : List A) → 0 < length xs → Returns (choice g xs)
  choice-Returns xs h = Always-choice g laws xs h (all_of xs)

  pub weighted_choice-Returns :
      {A : Type 0} (xs : List (A × F))
      → IsWeights (map (λ p. p.1) xs)
      → Returns (weighted_choice g xs)
  weighted_choice-Returns xs h = Always-weighted_choice g laws xs h (all_of _)

  pub draw_latency-Returns : (a b c d : F) → Returns (draw_latency g a b c d)
  unfolding draw_latency
  draw_latency-Returns a b c d = Always-bind (random-Returns g laws) λ u _.
      Always-if (lt u (lit 50 100)) (uniform-Returns g laws (lit 1 1) a) (
        Always-if (lt u (lit 95 100)) (uniform-Returns g laws a b)
          (Always-if (lt u (lit 99 100)) (uniform-Returns g laws b c) (uniform-Returns g laws c d)))

  pub pad_body-Returns : (n : ℤ) (head : String) → Returns (pad_body g n head)
  unfolding pad_body
  pad_body-Returns n head = Always-if _ (Always-return head tt) (
      Always-bind (Always-repeat _ (choice-Returns hex_digits (omega arith)))
        λ pad _. Always-return _ tt)
