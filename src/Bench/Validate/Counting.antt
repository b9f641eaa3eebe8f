-- ===== src/Bench/Validate/Counting.antt =====
-- The grouping and counting queries of bench/validate_correctness.py against lists without repeats.
use analytics_testing.Base.{
  ℕ, ◌≤◌, ◌<◌, ◌≡◌, ◌≢◌, ◌↔◌, refl, Bool, true, false, ◌||◌, List, [], ◌∷◌, any, length, eq_iff,
  All, arith, Bool-cases, inl, inr,
}
use analytics_testing.Base.Int.{ℤ, eqb_ℤ, eqb_ℤ→eq, eqb_ℤ-refl}
use analytics_testing.Base.Sorting.{AllPairs}
use analytics_testing.Bench.Validate.Queries.{Key, key_eq, bump, groups, repeated, distinct}

pub key_eq→eq : (j k : Key) → key_eq j k ≡ true → j ≡ k
key_eq→eq j k h = ground (arith, eq_iff j.0 k.0, eqb_ℤ→eq j.1 k.1)

pub key_eq_refl : (k : Key) → key_eq k k ≡ true
key_eq_refl k = ground (arith, eq_iff k.0 k.0, eqb_ℤ-refl k.1)

-- The key heads a group.
abbrev listed : Key → List (Key × ℕ) → Bool
listed k [] = false
listed k ((j, c) ∷ g) = key_eq j k || listed k g

-- Every group has a row.
abbrev Counted : List (Key × ℕ) → Type 0
Counted [] = Unit
Counted ((j, c) ∷ g) = (1 ≤ c) × Counted g

bump-Counted : (k : Key) (g : List (Key × ℕ)) → Counted g → Counted (bump k g)
unfolding bump
bump-Counted k [] h = ground arith
bump-Counted k ((j, c) ∷ g) h = ground (arith, bump-Counted k g h.1)

groups-Counted : (ks : List Key) → Counted (groups ks)
unfolding groups
groups-Counted [] = tt
groups-Counted (k ∷ ks) = bump-Counted k (groups ks) (groups-Counted ks)

-- Adding a row to a listed key makes its group count; adding one to a new key changes nothing.
repeated-bump :
    (k : Key) (g : List (Key × ℕ))
    → Counted g
    → (listed k g ≡ true → 0 < repeated (bump k g))
      × (listed k g ≡ false → repeated (bump k g) ≡ repeated g)
      × (repeated g ≤ repeated (bump k g))
unfolding repeated bump
repeated-bump k [] h = ground arith
repeated-bump k ((j, c) ∷ g) h = let ih = repeated-bump k g h.1 in ground (arith, ih.0, ih.1, ih.2)

listed-bump : (i k : Key) (g : List (Key × ℕ)) → listed i (bump k g) ≡ (key_eq k i || listed i g)
unfolding bump
listed-bump i k [] = ground arith
listed-bump i k ((j, c) ∷ g) = elim (Bool-cases (key_eq j k)) [
  | inl e ↦ let same = key_eq→eq j k e in rw (e, bump) (ground (arith, same))
  | inr e ↦ rw (e, bump) (ground (arith, listed-bump i k g))
]

listed-groups : (i : Key) (ks : List Key) → listed i (groups ks) ≡ any (λ k. key_eq k i) ks
unfolding groups
listed-groups i [] = refl
listed-groups i (k ∷ ks) = ground (arith, listed-bump i k (groups ks), listed-groups i ks)

abbrev pub AllDistinct : List Key → Type 0
AllDistinct = AllPairs (λ j k. j ≢ k)

absent→All : (i : Key) (ks : List Key) → any (λ k. key_eq k i) ks ≡ false → All (λ k. i ≢ k) ks
absent→All i [] h = tt
absent→All i (k ∷ ks) h = (
  λ e. let r : key_eq k i ≡ true = rw e (key_eq_refl k) in ground (arith, r),
  absent→All i ks (ground arith),
)

All→absent : (i : Key) (ks : List Key) → All (λ k. i ≢ k) ks → any (λ k. key_eq k i) ks ≡ false
All→absent i [] h = refl
All→absent i (k ∷ ks) h = ground (arith, All→absent i ks h.1, key_eq→eq k i, h.0)

-- No group has two rows exactly when no two rows have the same key.
pub repeated-eq-zero : (ks : List Key) → (repeated (groups ks) ≡ 0) ↔ AllDistinct ks
unfolding groups repeated
repeated-eq-zero [] = (λ h. tt, λ h. refl)
repeated-eq-zero (k ∷ ks) =
    let b = repeated-bump k (groups ks) (groups-Counted ks) in
    let l = listed-groups k ks in
    let ih = repeated-eq-zero ks in
    (
      λ h. (absent→All k ks (ground (arith, b.0, l)), ih.0 (omega (arith, b.2, h))),
      λ h. let a = All→absent k ks h.0 in ground (arith, b.1, l, a, ih.1 h.1),
    )

pub distinct-le : (ss : List ℤ) → distinct ss ≤ length ss
unfolding distinct
distinct-le [] = omega arith
distinct-le (s ∷ ss) = ground (arith, distinct-le ss)

-- Values that are all different are all counted.
pub distinct-eq-length : (ss : List ℤ) → AllPairs (λ s t. s ≢ t) ss → distinct ss ≡ length ss
unfolding distinct
distinct-eq-length [] h = refl
distinct-eq-length (s ∷ ss) h = ground (arith, distinct-eq-length ss h.1, not_any s ss h.0)
  where
    not_any : (s : ℤ) (ss : List ℤ) → All (λ t. s ≢ t) ss → any (eqb_ℤ s) ss ≡ false
    not_any s [] h = refl
    not_any s (t ∷ ss) h = ground (arith, eqb_ℤ→eq s t, h.0, not_any s ss h.1)
