-- ===== src/Generator/Payload/Bounds.antt =====
-- The bounds of the body that generator/src/payload.py draws.
use Prim.Native.Char.{Char}
use Prim.Native.String.{◌++◌ as str_append, count}
use text.Mathlib.TextLemmas.{length-append, length-cons}
use analytics_testing.Base.{
  ℕ, zero, suc, ◌+◌, ◌-◌, ◌≤◌, ◌<◌, max, ◌≡◌, refl, ap, ◌∙◌, ◌⊎◌, ltb, true, false, String, some,
  List, [], ◌∷◌, length, if◌then◌else◌, ◌==◌, arith,
}
use analytics_testing.Base.Int.{pos, ◌-ℤ◌, clamp_ℤ}
use analytics_testing.Base.Float.{Float}
use analytics_testing.Base.Decimal.{hex_digits}
use analytics_testing.Base.Random.{
  Random, IsRandom, Draw, return, ◌>>=◌, repeat, choice, Always, Always-return, Always-bind,
  Always-imp, Always-repeat, Always-choice,
}
use analytics_testing.Generator.Payload.Data.{PayloadData}
use analytics_testing.Generator.Payload.Draws.{lorem, join, pad_body, build_body}

module _ {F R : Type 0} ⦃fl : Float F⦄ (g : Random F R) (laws : IsRandom F R g) where
  count-join : (cs : List Char) → count (join cs) ≡ length cs
  unfolding join
  count-join [] = refl
  count-join (c ∷ cs) = length-cons c (join cs) ∙ ap suc (count-join cs)

  count-padded :
      (head : String) (cs : List Char) (n k : ℕ)
      → length cs ≡ k
      → n ≡ count head + 1 + k
      → count (str_append head (str_append " " (join cs))) ≡ n
  count-padded head cs n k h e =
      let one : count " " ≡ 1 = refl in
      let inner : count (str_append " " (join cs)) ≡ 1 + length cs =
        omega (arith, one, length-append " " (join cs), count-join cs) in
      omega (arith, length-append head (str_append " " (join cs)), inner, h, e)

  abbrev draw_pad : ℕ → String → Draw R String
  draw_pad k head = do
    pad ← repeat k (choice g hex_digits)
    return (str_append head (str_append " " (join pad)))

  abbrev padded_length : ℕ → String → ℕ
  padded_length n head = if ltb (count head + 1) n then n else count head

  draw_pad_length :
      (k n : ℕ) (head : String)
      → k ≡ n - (count head + 1)
      → Always
          (λ b. count b ≡ padded_length n head)
          (if k == 0 then return head else draw_pad k head)
  draw_pad_length zero n head e = Always-return head (ground arith)
  draw_pad_length (suc k) n head e =
      let long : ltb (count head + 1) n ≡ true = ground arith in
      let drawn : (suc k == 0) ≡ false = ground arith in
      rw (long, drawn)
        (Always-bind
          (Always-repeat (suc k)
            (Always-choice g laws {P = λ _. Unit} hex_digits (omega arith) (ground arith)))
          λ pad q. Always-return _ (count-padded head pad n (suc k) q.0 (omega (arith, e))))

  pub pad_body_length :
      (n : ℕ) (head : String)
      → Always (λ b. count b ≡ padded_length n head) (pad_body g (pos n) head)
  unfolding pad_body ◌-ℤ◌
  pad_body_length n head =
      draw_pad_length (clamp_ℤ (pos n -ℤ pos (count head + 1))) n head (ground arith)

  -- `_build_body` returns a text of exactly `body_bytes` characters if that is 28 or more, and of at
  -- most 26 characters or `body_bytes` otherwise, one short of it at the least.
  pub build_body_length :
      (d : PayloadData F) (n : ℕ)
      → d.body_bytes ≡ some (pos n)
      → Always
          (λ b. (n ≤ count b + 1) × (count b ≤ max n 26) × ((count b ≡ n) ⊎ (n < 28)))
          (build_body g d)
  unfolding build_body
  build_body_length d n e = rw e (
      Always-bind
        (Always-choice g laws {P = λ head. count head ≤ 26} lorem (omega arith) (ground arith))
        λ head short. Always-imp (λ b q. within_target head b short q) (pad_body_length n head))
    where
      within_target :
          (head b : String)
          → count head ≤ 26
          → count b ≡ padded_length n head
          → (n ≤ count b + 1) × (count b ≤ max n 26) × ((count b ≡ n) ⊎ (n < 28))
      within_target head b short q = ground arith
