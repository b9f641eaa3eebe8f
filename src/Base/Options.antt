-- ===== src/Base/Options.antt =====
-- Computations that may raise, where the exception is not told apart: `none`. The two binds stay
-- shut, so that proofs meet them as they are written.
use mathlib.Core.Path.{◌≡◌, refl}
use mathlib.Core.Bool.{Bool, true, false}
use mathlib.Core.Option.{Option, none, some}

infixl 5 ◌>>=◌ ◌>>◌
unfoldable pub ◌>>=◌ {ℓ κ} : {A : Type ℓ} {B : Type κ} → Option A → (A → Option B) → Option B
none >>= k = none
some a >>= k = k a

unfoldable pub ◌>>◌ {κ} : {B : Type κ} → Option (Unit {0}) → Option B → Option B
unfolding ◌>>=◌
m >> k = m >>= λ _. k

-- `if not test: raise ...`
abbrev pub guard : Bool → Option (Unit {0})
guard true = some tt
guard false = none

-- What a successful computation went through.
pub >>=-eq-some {ℓ κ} :
    {A : Type ℓ} {B : Type κ} (m : Option A) (k : A → Option B) {b : B}
    → (m >>= k) ≡ some b
    → (a : A) × (m ≡ some a) × (k a ≡ some b)
unfolding ◌>>=◌
>>=-eq-some none k h = cc h
>>=-eq-some (some a) k h = (a, refl, h)

pub >>-eq-some {κ} :
    {B : Type κ} (t : Bool) (k : Option B) {b : B}
    → (guard t >> k) ≡ some b
    → (t ≡ true) × (k ≡ some b)
unfolding ◌>>◌ ◌>>=◌
>>-eq-some true k h = (refl, h)
>>-eq-some false k h = cc h

pub some-inj {ℓ} : {A : Type ℓ} {a b : A} → some a ≡ some b → a ≡ b
some-inj h = cc h
