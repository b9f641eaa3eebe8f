-- ===== src/Base/Float.antt =====
-- What the program does with a `float`: literals, arithmetic, comparisons and rounding.
use Prim.Native.Nat.{ℕ, ◌+◌, ◌-◌, ◌*◌, ◌/◌, ◌%◌, ◌≤◌, ◌<◌}
use mathlib.Core.Path.{◌≡◌, refl}
use mathlib.Core.Bool.{Bool, true, false}
use mathlib.Core.Logic.{◌⊎◌}
use mathlib.Core.Option.{Option, none, some}
use native.Mathlib.Omega.{arith}
use native.Mathlib.Nat.{
  mul-le-mul_right, mul-le-mul_left, div-mul-le_self, le-div_iff_mul-le, le_of_mul-le-mul_right,
}
use analytics_testing.Base.Tests.{ltb, leb, leb→le, le→leb, ◌==◌, if◌then◌else◌}
use analytics_testing.Base.Int.{ℤ, pos, negsuc, ◌≤ℤ◌}

pub record Float (F : Type 0) : Type 0 where
  -- The literal `n / d`; `lit n 1` is also the float of the integer `n`.
  pub lit : ℕ → ℕ → F
  pub add : F → F → F
  pub sub : F → F → F
  pub mul : F → F → F
  pub div : F → F → F
  pub lt : F → F → Bool
  pub le : F → F → Bool
  -- `int(round(x))`: the nearest integer, ties to the even one.
  pub round_int : F → ℤ
  -- `round(x, digits)`
  pub round_to : ℕ → F → F
  -- `int(x)` of a finite `x`: towards zero.
  pub trunc : F → ℤ

-- `float(n)`
abbrev pub float_ℤ : {F : Type 0} ⦃fl : Float F⦄ → ℤ → F
float_ℤ ⦃fl⦄ (pos n) = fl.lit n 1
float_ℤ ⦃fl⦄ (negsuc n) = fl.sub (fl.lit 0 1) (fl.lit (n + 1) 1)

infix 4 ◌≼◌
abbrev pub ◌≼◌ : {F : Type 0} ⦃f : Float F⦄ → F → F → Type 0
◌≼◌ ⦃f⦄ x y = f.le x y ≡ true

-- Neither an infinity nor NaN: their difference with themselves is NaN.
abbrev pub is_finite : {F : Type 0} ⦃f : Float F⦄ → F → Bool
is_finite ⦃f⦄ x = f.le (f.sub x x) (f.lit 0 1)

-- `int(x)`, `none` where it raises: for an infinity or NaN.
abbrev pub int_of : {F : Type 0} ⦃f : Float F⦄ → F → Option ℤ
int_of ⦃f⦄ x = if is_finite x then some (f.trunc x) else none

-- Python's `min(a, b)` and `max(a, b)`: the first argument unless the second is better.
abbrev pub min_f : {F : Type 0} ⦃f : Float F⦄ → F → F → F
min_f ⦃f⦄ a b = if f.lt b a then b else a

abbrev pub max_f : {F : Type 0} ⦃f : Float F⦄ → F → F → F
max_f ⦃f⦄ a b = if f.lt a b then b else a

-- The IEEE laws that the program relies on. NaN is the value that is not `<=` itself, and the
-- order is total away from it.
pub record IsOrdered (F : Type 0) ⦃f : Float F⦄ : Type 0 where
  pub lit_mono : (a b c d : ℕ) → 0 < b → 0 < d → a * d ≤ c * b → f.lit a b ≼ f.lit c d
  pub refl_of_le : (x y : F) → x ≼ y → (x ≼ x) × (y ≼ y)
  pub le_trans : (x y z : F) → x ≼ y → y ≼ z → x ≼ z
  pub le_total : (x y : F) → x ≼ x → y ≼ y → (x ≼ y) ⊎ (y ≼ x)

-- Rounding is monotone: of a fraction of a count, of a sum with a literal, and to an integer.
pub record IsMonotone (F : Type 0) ⦃f : Float F⦄ : Type 0 where
  pub mul_mono :
      (x y : F) (n : ℕ)
      → f.lit 0 1 ≼ x
      → x ≼ y
      → y ≼ f.lit 1 1
      → f.mul x (f.lit n 1) ≼ f.mul y (f.lit n 1)
  pub add_mono : (x y : F) (n d : ℕ) → x ≼ y → f.add x (f.lit n d) ≼ f.add y (f.lit n d)
  pub round_mono : (x y : F) → x ≼ y → f.round_int x ≤ℤ f.round_int y
  pub round_to_mono : (x y : F) (n : ℕ) → x ≼ y → f.round_to n x ≼ f.round_to n y

-- A number type that meets the laws: multiples of 1/1000.
abbrev pub Milli : Type 0
Milli = ℕ

abbrev round_half_even : ℕ → ℕ
round_half_even x =
    let q = x / 1000 in
    let r = x % 1000 in if ltb r 500 then q else if r == 500 then q + q % 2 else q + 1

instance abbrev pub milli_float : Float Milli
milli_float = record {
  lit = λ n d. n * 1000 / d;
  add = λ x y. x + y;
  sub = λ x y. x - y;
  mul = λ x y. x * y / 1000;
  div = λ x y. x * 1000 / y;
  lt = ltb;
  le = leb;
  round_int = λ x. pos (round_half_even x);
  round_to = λ n x. x;
  trunc = λ x. pos (x / 1000);
}

milli_lit_mono :
    (a b c d : ℕ) → 0 < b → 0 < d → a * d ≤ c * b → leb (a * 1000 / b) (c * 1000 / d) ≡ true
milli_lit_mono a b c d hb hd h =
    let q = a * 1000 / b in
    let below = mul-le-mul_right d (div-mul-le_self (a * 1000) b) in
    let scaled : q * d * b ≤ c * 1000 * b = omega (arith, below, h) in
    le→leb _ _ ((le-div_iff_mul-le hd).1 (le_of_mul-le-mul_right scaled hb))

pub Milli-IsOrdered : IsOrdered Milli
Milli-IsOrdered = record {
  lit_mono = milli_lit_mono;
  refl_of_le = λ x y h. ground arith;
  le_trans = λ x y z h k. ground arith;
  le_total = λ x y h k. ground arith;
}

mul-div_mono : (x y m : ℕ) → x ≤ y → x * m / 1000 ≤ y * m / 1000
mul-div_mono x y m h = let p : x * m ≤ y * m = grind arith in omega (arith, p)

round_half_even_mono : (x y : ℕ) → x ≤ y → round_half_even x ≤ round_half_even y
round_half_even_mono x y h = ground arith

pub Milli-IsMonotone : IsMonotone Milli
Milli-IsMonotone = record {
  mul_mono = λ x y n lo h hi. le→leb _ _ (mul-div_mono x y (n * 1000 / 1) (leb→le x y h));
  add_mono = λ x y n d h. ground arith;
  round_mono = λ x y h. ground (arith, round_half_even_mono x y);
  round_to_mono = λ x y n h. h;
}

-- Integers up to 2^53 and their quarters up to 2^53 quarters are floats, so a sum that is rounded does
-- not pass such an integer that the exact one does not pass, a product of an integer with quarters is
-- exact there, and `int` leaves less than 1 over below 2^53.
pub record IsBounded (F : Type 0) ⦃f : Float F⦄ : Type 0 where
  pub add_le :
      (x y : F) (a b : ℕ)
      → a + b ≤ 9007199254740992
      → x ≼ f.lit a 1
      → y ≼ f.lit b 1
      → f.add x y ≼ f.lit (a + b) 1
  pub mul_quarters_le :
      (n a m : ℕ)
      → n ≤ 9007199254740992
      → a ≤ 9007199254740992
      → n * a ≤ 9007199254740992
      → m ≤ 9007199254740992
      → n * a ≤ m * 4
      → f.mul (f.lit n 1) (f.lit a 4) ≼ f.lit m 1
  pub trunc_lt :
      (x : F)
      → f.lit 0 1 ≼ x
      → f.lt x (f.lit 9007199254740992 1) ≡ true
      → (k : ℕ) × (f.trunc x ≡ pos k) × (f.lt x (f.lit (k + 1) 1) ≡ true)
  pub lt_of_lt_of_le : (x y z : F) → f.lt x y ≡ true → y ≼ z → f.lt x z ≡ true
  pub lt_irrefl : (x : F) → f.lt x x ≡ false
  pub le_of_lt : (x y : F) → f.lt x y ≡ true → x ≼ y

milli_mul_le :
    (n a d m : ℕ)
    → 0 < d
    → n * a ≤ m * d
    → leb (n * 1000 / 1 * (a * 1000 / d) / 1000) (m * 1000 / 1) ≡ true
milli_mul_le n a d m hd h =
    let q = a * 1000 / d in
    let below : n * (q * d) ≤ n * (a * 1000) = mul-le-mul_left n (div-mul-le_self (a * 1000) d) in
    let scaled : n * q * d ≤ m * 1000 * d = grind arith in
    let whole : n * 1000 / 1 ≡ n * 1000 = omega arith in
    let product : n * 1000 * q ≡ n * q * 1000 = grind arith in
    let shown : n * 1000 / 1 * q ≡ n * q * 1000 = rw whole product in
    let bound : n * q ≤ m * 1000 = le_of_mul-le-mul_right scaled hd in
    rw shown (ground (arith, bound))

pub Milli-IsBounded : IsBounded Milli
Milli-IsBounded = record {
  add_le = λ x y a b r h k. ground arith;
  mul_quarters_le = λ n a m _ _ _ _ h. milli_mul_le n a 4 m (omega arith) h;
  trunc_lt = λ x h k. (x / 1000, refl, ground arith);
  lt_of_lt_of_le = λ x y z h k. ground arith;
  lt_irrefl = λ x. ground arith;
  le_of_lt = λ x y h. ground arith;
}
