-- ===== src/Base/Sorting.antt =====
-- Python's `sorted`: an insertion sort, stable, by the order that the caller compares with.
use Prim.Native.Nat.{ℕ, zero, suc, ◌≤◌}
use mathlib.Core.Path.{◌≡◌, refl, ap, ◌∙◌}
use mathlib.Core.Bool.{Bool, true}
use mathlib.Core.Logic.{◌⊎◌, inl, inr}
use mathlib.Core.Option.{some}
use mathlib.Core.List.{List, [], ◌∷◌}
use native.Mathlib.Omega.{arith}
use analytics_testing.Base.Tests.{if◌then◌else◌, Bool-cases}
use analytics_testing.Base.Lists.{length, get_elem?, All, All-imp, All-get_elem?}

module _ {ℓ κ} {A : Type ℓ} where
  -- `R` holds from each entry to each later one.
  abbrev pub AllPairs : (A → A → Type κ) → List A → Type κ
  AllPairs R [] = Unit
  AllPairs R (x ∷ xs) = All (R x) xs × AllPairs R xs

module _ {ℓ} {A : Type ℓ} (le : A → A → Bool) where
  unfoldable pub insert : A → List A → List A
  insert x [] = x ∷ []
  insert x (y ∷ ys) = if le x y then x ∷ y ∷ ys else y ∷ insert x ys

  unfoldable pub sort : List A → List A
  unfolding insert
  sort [] = []
  sort (x ∷ xs) = insert x (sort xs)

  abbrev pub IsSorted : List A → Type 0
  IsSorted = AllPairs (λ x y. le x y ≡ true)

  length-insert : (x : A) (ys : List A) → length (insert x ys) ≡ suc (length ys)
  unfolding insert
  length-insert x [] = refl
  length-insert x (y ∷ ys) = ground (arith, length-insert x ys)

  pub length-sort : (xs : List A) → length (sort xs) ≡ length xs
  unfolding sort
  length-sort [] = refl
  length-sort (x ∷ xs) = length-insert x (sort xs) ∙ ap suc (length-sort xs)

  All-insert {κ} : (P : A → Type κ) (x : A) (ys : List A) → P x → All P ys → All P (insert x ys)
  unfolding insert
  All-insert P x [] p ps = (p, tt)
  All-insert P x (y ∷ ys) p ps = elim (Bool-cases (le x y)) [
    | inl e ↦ rw e (p, ps)
    | inr e ↦ rw e (ps.0, All-insert P x ys p ps.1)
  ]

  pub All-sort {κ} : (P : A → Type κ) (xs : List A) → All P xs → All P (sort xs)
  unfolding sort
  All-sort P [] ps = tt
  All-sort P (x ∷ xs) ps = All-insert P x (sort xs) ps.0 (All-sort P xs ps.1)

  insert-All {κ} : (P : A → Type κ) (x : A) (ys : List A) → All P (insert x ys) → P x × All P ys
  unfolding insert
  insert-All P x [] ps = ps
  insert-All P x (y ∷ ys) ps = elim (Bool-cases (le x y)) [
    | inl e ↦ rw e at ps
    | inr e ↦
        let qs : P y × All P (insert x ys) = rw e at ps in
        let rest = insert-All P x ys qs.1 in (rest.0, (qs.0, rest.1))
  ]

  pub sort-All {κ} : (P : A → Type κ) (xs : List A) → All P (sort xs) → All P xs
  unfolding sort
  sort-All P [] ps = tt
  sort-All P (x ∷ xs) ps = let qs = insert-All P x (sort xs) ps in (qs.0, sort-All P xs qs.1)

  -- Among comparable entries `sort` puts every entry before those that are no less.
  module _ {κ} (P : A → Type κ) where
    IsSorted-insert :
        (total : (x y : A) → P x → P y → (le x y ≡ true) ⊎ (le y x ≡ true))
        (trans : (x y z : A) → le x y ≡ true → le y z ≡ true → le x z ≡ true) (x : A) (ys : List A)
        → P x
        → All P ys
        → IsSorted ys
        → IsSorted (insert x ys)
    unfolding insert
    IsSorted-insert total trans x [] p ps s = (tt, tt)
    IsSorted-insert total trans x (y ∷ ys) p ps s = elim (Bool-cases (le x y)) [
      | inl e ↦ rw e ((e, All-imp (λ z h. trans x y z e h) ys s.0), s)
      | inr e ↦
          let below : le y x ≡ true = elim (total x y p ps.0) [ inl h ↦ cc (h, e) | inr h ↦ h ] in
          rw e (
            All-insert (λ z. le y z ≡ true) x ys below s.0,
            IsSorted-insert total trans x ys p ps.1 s.1,
          )
    ]

    pub IsSorted-sort :
        (total : (x y : A) → P x → P y → (le x y ≡ true) ⊎ (le y x ≡ true))
        (trans : (x y z : A) → le x y ≡ true → le y z ≡ true → le x z ≡ true) (xs : List A)
        → All P xs
        → IsSorted (sort xs)
    unfolding sort
    IsSorted-sort total trans [] ps = tt
    IsSorted-sort total trans (x ∷ xs) ps =
        IsSorted-insert total trans x (sort xs) ps.0 (All-sort P xs ps.1)
          (IsSorted-sort total trans xs ps.1)

  -- A symmetric relation between all entries does not depend on their order.
  module _ {κ} (R : A → A → Type κ) (symm : (x y : A) → R x y → R y x) where
    AllPairs-insert :
        (x : A) (ys : List A) → All (R x) ys → AllPairs R ys → AllPairs R (insert x ys)
    unfolding insert
    AllPairs-insert x [] h s = (tt, tt)
    AllPairs-insert x (y ∷ ys) h s = elim (Bool-cases (le x y)) [
      | inl e ↦ rw e (h, s)
      | inr e ↦ rw e (All-insert (R y) x ys (symm x y h.0) s.0, AllPairs-insert x ys h.1 s.1)
    ]

    pub AllPairs-sort : (xs : List A) → AllPairs R xs → AllPairs R (sort xs)
    unfolding sort
    AllPairs-sort [] h = tt
    AllPairs-sort (x ∷ xs) h =
        AllPairs-insert x (sort xs) (All-sort (R x) xs h.0) (AllPairs-sort xs h.1)

    insert-AllPairs :
        (x : A) (ys : List A) → AllPairs R (insert x ys) → All (R x) ys × AllPairs R ys
    unfolding insert
    insert-AllPairs x [] h = (tt, tt)
    insert-AllPairs x (y ∷ ys) h = elim (Bool-cases (le x y)) [
      | inl e ↦ rw e at h
      | inr e ↦
          let g : All (R y) (insert x ys) × AllPairs R (insert x ys) = rw e at h in
          let a = insert-All (R y) x ys g.0 in
          let b = insert-AllPairs x ys g.1 in ((symm y x a.0, b.0), (a.1, b.1))
    ]

    pub sort-AllPairs : (xs : List A) → AllPairs R (sort xs) → AllPairs R xs
    unfolding sort
    sort-AllPairs [] h = tt
    sort-AllPairs (x ∷ xs) h =
        let g = insert-AllPairs x (sort xs) h in (sort-All (R x) xs g.0, sort-AllPairs xs g.1)

  -- In a sorted list a later entry is no less, an entry itself included.
  pub get_elem?-IsSorted :
      (xs : List A) (i j : ℕ) (a b : A)
      → IsSorted xs
      → All (λ x. le x x ≡ true) xs
      → i ≤ j
      → get_elem? xs i ≡ some a
      → get_elem? xs j ≡ some b
      → le a b ≡ true
  get_elem?-IsSorted [] i j a b s r h p q = cc
  get_elem?-IsSorted (x ∷ xs) zero zero a b s r h p q = ground arith
  get_elem?-IsSorted (x ∷ xs) zero (suc j) a b s r h p q =
      let g = All-get_elem? (λ y. le x y ≡ true) xs j b s.0 q in ground (arith, g)
  get_elem?-IsSorted (x ∷ xs) (suc i) zero a b s r h p q = absurd (omega arith)
  get_elem?-IsSorted (x ∷ xs) (suc i) (suc j) a b s r h p q =
      get_elem?-IsSorted xs i j a b s.1 r.1 (omega arith) p q
