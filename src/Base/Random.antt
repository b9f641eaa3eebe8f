-- ===== src/Base/Random.antt =====
-- Python's `random.Random` as an interface, and computations that draw from it and may raise.
use Prim.Native.Nat.{ℕ, zero, suc, ◌<◌, ◌^◌}
use mathlib.Core.Path.{◌≡◌, refl, ap, ◌∙◌}
use mathlib.Core.Bool.{Bool, true, false}
use mathlib.Core.Option.{Option, none, some}
use mathlib.Core.List.{List, [], ◌∷◌, map}
use native.Mathlib.Omega.{arith}
use analytics_testing.Base.Tests.{if◌then◌else◌}
use analytics_testing.Base.Lists.{
  length, length-map, get_elem?, get_elem?-found, All, All-get_elem?, all, any,
}
use analytics_testing.Base.Int.{ℤ, ◌≤ℤ◌, leb_ℤ}
use analytics_testing.Base.Float.{Float, ◌≼◌, is_finite}

-- The methods of a generator in the state `R`; each returns its answer and the next state.
pub record Random (F R : Type 0) : Type 0 where
  -- `random.Random(seed)`
  pub seeded : ℤ → R
  pub random : R → F × R
  pub uniform : F → F → R → F × R
  -- `randrange(n)`, which picks the position in `choice`.
  pub below : ℕ → R → ℕ × R
  -- `randint(a, b)` with `a <= b`
  pub randint : ℤ → ℤ → R → ℤ × R
  pub getrandbits : ℕ → R → ℕ × R
  -- The position that `choices(..., weights, k=1)` picks; `none` is its `ValueError`.
  pub choices : List F → R → Option (ℕ × R)

-- The total of the weights, as `choices` accumulates it.
abbrev pub total_from : {F : Type 0} ⦃f : Float F⦄ → F → List F → F
total_from t [] = t
total_from ⦃f⦄ t (w ∷ ws) = total_from (f.add t w) ws

-- No weight is negative, some weight is positive, and their total is finite.
abbrev pub IsWeights : {F : Type 0} ⦃f : Float F⦄ → List F → Type 0
IsWeights ⦃f⦄ ws =
    (all (λ w. f.le (f.lit 0 1) w) ws ≡ true)
    × (any (λ w. f.lt (f.lit 0 1) w) ws ≡ true)
    × (is_finite (total_from (f.lit 0 1) ws) ≡ true)

-- What the documentation of the module promises.
pub record IsRandom (F R : Type 0) ⦃f : Float F⦄ (g : Random F R) : Type 0 where
  pub uniform_mem :
      (a b : F) (r : R) → a ≼ b → (a ≼ (g.uniform a b r).0) × ((g.uniform a b r).0 ≼ b)
  pub below_lt : (n : ℕ) (r : R) → 0 < n → (g.below n r).0 < n
  pub randint_mem :
      (a b : ℤ) (r : R) → a ≤ℤ b → (a ≤ℤ (g.randint a b r).0) × ((g.randint a b r).0 ≤ℤ b)
  pub getrandbits_lt : (n : ℕ) (r : R) → (g.getrandbits n r).0 < 2 ^ n
  pub choices_lt :
      (ws : List F) (r : R)
      → IsWeights ws
      → (i : ℕ) × (r' : R) × (g.choices ws r ≡ some (i, r')) × (i < length ws)

-- A computation that draws; `none` is an exception.
abbrev pub Draw : Type 0 → Type 0 → Type 0
Draw R A = R → Option (A × R)

module _ {R A B : Type 0} where
  abbrev pub resume : (A → Draw R B) → Option (A × R) → Option (B × R)
  resume k none = none
  resume k (some (a, r)) = k a r

  infixl 5 ◌>>=◌
  abbrev pub ◌>>=◌ : Draw R A → (A → Draw R B) → Draw R B
  ◌>>=◌ m k r = resume k (m r)

module _ {R A : Type 0} where
  abbrev pub return : A → Draw R A
  return a r = some (a, r)

  abbrev pub raised : Draw R A
  raised r = none

-- An exception unless the test holds.
unfoldable pub require : {R : Type 0} → Bool → Draw R (Unit {0})
require b r = if b then some (tt, r) else none

module _ {R A : Type 0} where
  -- `[m() for _ in range(n)]`
  unfoldable pub repeat : ℕ → Draw R A → Draw R (List A)
  repeat zero m = return []
  repeat (suc n) m = do a ← m; rest ← repeat n m; return (a ∷ rest)

  -- What `x` holds, or an exception.
  abbrev pub get_or_raise : Option A → Draw R A
  get_or_raise none = raised
  get_or_raise (some a) = return a

module _ {F R : Type 0} (g : Random F R) where
  unfoldable pub random : Draw R F
  random r = some (g.random r)

  unfoldable pub uniform : F → F → Draw R F
  uniform a b r = some (g.uniform a b r)

  unfoldable pub getrandbits : ℕ → Draw R ℕ
  getrandbits n r = some (g.getrandbits n r)

  -- An empty range is a `ValueError`.
  unfoldable pub randint : ℤ → ℤ → Draw R ℤ
  randint a b r = if leb_ℤ a b then some (g.randint a b r) else none

  -- `choice`; an empty list is an `IndexError`.
  unfoldable pub choice : {A : Type 0} → List A → Draw R A
  choice [] r = none
  choice (x ∷ xs) r =
      let (i, r') = g.below (length (x ∷ xs)) r in get_or_raise (get_elem? (x ∷ xs) i) r'

  -- `choices(keys, weights=..., k=1)[0]` of a dictionary's keys and values.
  unfoldable pub weighted_choice : {A : Type 0} → List (A × F) → Draw R A
  weighted_choice xs r =
      resume (λ i. get_or_raise (get_elem? (map (λ p. p.0) xs) i)) (g.choices (map (λ p. p.1) xs) r)

-- Whatever the state, the computation returns, and what it returns has the property.
abbrev pub Always : {R A : Type 0} → (A → Type 0) → Draw R A → Type 0
Always {R} {A} Q m = (r : R) → (a : A) × (r' : R) × (m r ≡ some (a, r')) × Q a

abbrev pub Returns : {R A : Type 0} → Draw R A → Type 0
Returns m = Always (λ _. Unit {0}) m

module _ {R A B : Type 0} where
  pub Always-bind :
      {P : A → Type 0} {Q : B → Type 0} {m : Draw R A} {k : A → Draw R B}
      → Always P m
      → ((a : A) → P a → Always Q (k a))
      → Always Q (m >>= k)
  Always-bind {k = k} h hk r =
      let (a, r', e, p) = h r in
      let (b, r'', e', q) = hk a p r' in (b, r'', ap (resume k) e ∙ e', q)

module _ {R : Type 0} where
  pub Always-return : {A : Type 0} {Q : A → Type 0} (a : A) → Q a → Always {R = R} Q (return a)
  Always-return a q r = (a, r, refl, q)

  pub require-Returns : (b : Bool) → b ≡ true → Returns {R = R} (require b)
  unfolding require
  require-Returns b h r = (tt, r, rw h refl, tt)

module _ {R A : Type 0} where
  pub Always-imp :
      {P Q : A → Type 0} {m : Draw R A} → ((a : A) → P a → Q a) → Always P m → Always Q m
  Always-imp f h r = let (a, r', e, p) = h r in (a, r', e, f a p)

  pub Always-if :
      {Q : A → Type 0} {m k : Draw R A} (b : Bool)
      → Always Q m
      → Always Q k
      → Always Q (if b then m else k)
  Always-if true h k = h
  Always-if false h k = k

  pub Always-repeat :
      {P : A → Type 0} {m : Draw R A} (n : ℕ)
      → Always P m
      → Always (λ xs. (length xs ≡ n) × All P xs) (repeat n m)
  unfolding repeat
  Always-repeat zero h = Always-return [] (refl, tt)
  Always-repeat (suc n) h = Always-bind h λ a p.
      Always-bind (Always-repeat n h) λ rest q. Always-return (a ∷ rest) (ap suc q.0, (p, q.1))

module _ {F R : Type 0} ⦃f : Float F⦄ (g : Random F R) (laws : IsRandom F R g) where
  pub random-Returns : Returns (random g)
  unfolding random
  random-Returns r = ((g.random r).0, (g.random r).1, refl, tt)

  pub uniform-Returns : (a b : F) → Returns (uniform g a b)
  unfolding uniform
  uniform-Returns a b r = ((g.uniform a b r).0, (g.uniform a b r).1, refl, tt)

  pub Always-uniform : (a b : F) → a ≼ b → Always (λ x. (a ≼ x) × (x ≼ b)) (uniform g a b)
  unfolding uniform
  Always-uniform a b h r =
      ((g.uniform a b r).0, (g.uniform a b r).1, refl, laws.uniform_mem a b r h)

  pub Always-randint : (a b : ℤ) → a ≤ℤ b → Always (λ x. (a ≤ℤ x) × (x ≤ℤ b)) (randint g a b)
  unfolding randint
  Always-randint a b h r =
      let e : leb_ℤ a b ≡ true = ground arith in
      ((g.randint a b r).0, (g.randint a b r).1, rw e refl, laws.randint_mem a b r h)

  pub Always-getrandbits : (n : ℕ) → Always (λ x. x < 2 ^ n) (getrandbits g n)
  unfolding getrandbits
  Always-getrandbits n r =
      ((g.getrandbits n r).0, (g.getrandbits n r).1, refl, laws.getrandbits_lt n r)

  pub Always-choice :
      {A : Type 0} {P : A → Type 0} (xs : List A)
      → 0 < length xs
      → All P xs
      → Always P (choice g xs)
  unfolding choice
  Always-choice [] h p r = elim h [ ]
  Always-choice {P = P} (x ∷ xs) h p r =
      let (a, e) = get_elem?-found (x ∷ xs) _ (laws.below_lt (length (x ∷ xs)) r h) in
      (
        a,
        (g.below (length (x ∷ xs)) r).1,
        ap (λ o. get_or_raise o (g.below (length (x ∷ xs)) r).1) e,
        All-get_elem? P (x ∷ xs) _ a p e,
      )

  pub Always-weighted_choice :
      {A : Type 0} {P : A → Type 0} (xs : List (A × F))
      → IsWeights (map (λ p. p.1) xs)
      → All P (map (λ p. p.0) xs)
      → Always P (weighted_choice g xs)
  unfolding weighted_choice
  Always-weighted_choice {P = P} xs h p r =
      let (i, r', e, lt) = laws.choices_lt (map (λ p. p.1) xs) r h in
      let lt' : i < length (map (λ p. p.0) xs) =
        omega (arith, lt, length-map (λ p. p.0) xs, length-map (λ p. p.1) xs) in
      let (a, found) = get_elem?-found (map (λ p. p.0) xs) i lt' in
      (
        a,
        r',
        ap (resume _) e ∙ ap (λ o. get_or_raise o r') found,
        All-get_elem? P (map (λ p. p.0) xs) i a p found,
      )
