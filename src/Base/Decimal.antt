-- ===== src/Base/Decimal.antt =====
-- Python's `str` of a whole number, its hexadecimal format, and the number that a text of digits means.
use Prim.Native.Char.{Char, code}
use Prim.Native.Nat.{ℕ, zero, suc, ◌+◌, ◌-◌, ◌*◌, ◌/◌, ◌%◌, ◌<◌}
use Prim.Native.String.{String, ◌++◌ as str_append}
use mathlib.Core.Path.{◌≡◌, refl, ◌∙◌}
use mathlib.Core.Bool.{Bool, ◌&&◌}
use mathlib.Core.List.{List, [], ◌∷◌, ◌++◌}
use mathlib.Core.Option.{Option, none, some}
use mathlib.Core.Logic.{◌≢◌}
use text.Mathlib.TextLemmas.{cons-ne-nil}
use native.Mathlib.Omega.{arith}
use analytics_testing.Base.Tests.{ltb, leb, if◌then◌else◌}
use analytics_testing.Base.Lists.{length, get_or}
use analytics_testing.Base.Int.{ℤ, pos, negsuc}

abbrev pub digits : List Char
digits = "0" ∷ "1" ∷ "2" ∷ "3" ∷ "4" ∷ "5" ∷ "6" ∷ "7" ∷ "8" ∷ "9" ∷ []

abbrev pub hex_digits : List Char
hex_digits = digits ++ ("a" ∷ "b" ∷ "c" ∷ "d" ∷ "e" ∷ "f" ∷ [])

unfoldable pub digit_char : ℕ → Char
digit_char d = get_or digits d "0"

-- The digits of `n` in front of a text; no number has more digits than its successor counts.
unfoldable pub put_digits : ℕ → ℕ → String → String
put_digits zero n rest = rest
put_digits (suc fuel) n rest =
    let longer = put_digits fuel (n / 10) (String.◌∷◌ (digit_char (n % 10)) rest) in
    if ltb n 10 then String.◌∷◌ (digit_char n) rest else longer

-- `str(n)`
unfoldable pub show_nat : ℕ → String
unfolding put_digits digit_char
show_nat n = put_digits (suc n) n ""

unfoldable pub show_int : ℤ → String
unfolding show_nat
show_int (pos n) = show_nat n
show_int (negsuc n) = str_append "-" (show_nat (n + 1))

-- `f"{n:0{width}x}"` of a number below 16 to the width
unfoldable pub show_hex : ℕ → ℕ → String
show_hex zero n = ""
show_hex (suc width) n =
    str_append (show_hex width (n / 16)) (String.◌∷◌ (get_or hex_digits (n % 16) "0") "")

abbrev pub is_digit : Char → Bool
is_digit c = leb 48 (code c) && leb (code c) 57

-- The number that the digits mean after those that mean `n`; `none` at another character.
unfoldable pub read_digits : ℕ → String → Option ℕ
read_digits n String.[] = some n
read_digits n (String.◌∷◌ c s) =
    let rest = read_digits (n * 10 + (code c - 48)) s in if is_digit c then rest else none

-- `int(text)` of a text without a sign.
unfoldable pub read_nat : String → Option ℕ
unfolding read_digits
read_nat String.[] = none
read_nat (String.◌∷◌ c s) = read_digits 0 (String.◌∷◌ c s)

-- The codes of the characters count up from `k`.
abbrev CountsFrom : ℕ → List Char → Type 0
CountsFrom k [] = Unit
CountsFrom k (c ∷ cs) = (code c ≡ k) × CountsFrom (k + 1) cs

code-get_or :
    (k : ℕ) (cs : List Char) (d : ℕ)
    → CountsFrom k cs
    → d < length cs
    → code (get_or cs d "0") ≡ k + d
code-get_or k [] d h lt = elim lt [ ]
code-get_or k (c ∷ cs) zero h lt = omega (arith, h.0)
code-get_or k (c ∷ cs) (suc d) h lt = omega (arith, code-get_or (k + 1) cs d h.1 (omega arith))

code-digit_char : (d : ℕ) → d < 10 → code (digit_char d) ≡ 48 + d
unfolding digit_char
code-digit_char d h =
    code-get_or 48 digits d
      (refl, (refl, (refl, (refl, (refl, (refl, (refl, (refl, (refl, (refl, tt)))))))))) h

read-digit :
    (n d : ℕ) (s : String)
    → d < 10
    → read_digits n (String.◌∷◌ (digit_char d) s) ≡ read_digits (n * 10 + d) s
unfolding read_digits
read-digit n d s h =
    let value : 48 + d - 48 ≡ d = omega arith in rw (code-digit_char d h, value) (ground arith)

read_digits-put_digits :
    (fuel n : ℕ) (s : String) → n < fuel → read_digits 0 (put_digits fuel n s) ≡ read_digits n s
unfolding put_digits
read_digits-put_digits zero n s h = elim h [ ]
read_digits-put_digits (suc fuel) n s h = ground (
  arith,
  read-digit 0 n s,
  read_digits-put_digits fuel (n / 10) (String.◌∷◌ (digit_char (n % 10)) s),
  read-digit (n / 10) (n % 10) s,
)

put_digits-ne-nil : (fuel n : ℕ) (s : String) → s ≢ String.[] → put_digits fuel n s ≢ String.[]
unfolding put_digits
put_digits-ne-nil zero n s h = h
put_digits-ne-nil (suc fuel) n s h = ground (
  arith,
  cons-ne-nil (digit_char n) s,
  put_digits-ne-nil fuel (n / 10) (String.◌∷◌ (digit_char (n % 10)) s) (cons-ne-nil _ _),
)

show_nat-ne-nil : (n : ℕ) → show_nat n ≢ String.[]
unfolding show_nat put_digits
show_nat-ne-nil n = ground (
  arith,
  cons-ne-nil (digit_char n) "",
  put_digits-ne-nil n (n / 10) (String.◌∷◌ (digit_char (n % 10)) "") (cons-ne-nil _ _),
)

read_nat-read_digits : (s : String) → s ≢ String.[] → read_nat s ≡ read_digits 0 s
unfolding read_nat
read_nat-read_digits String.[] h = absurd (h refl)
read_nat-read_digits (String.◌∷◌ c s) h = refl

-- Reading what was written.
pub read_nat-show_nat : (n : ℕ) → read_nat (show_nat n) ≡ some n
unfolding show_nat read_digits
read_nat-show_nat n =
    read_nat-read_digits (show_nat n) (show_nat-ne-nil n)
    ∙ read_digits-put_digits (suc n) n "" (omega arith)
