-- ===== src/Generator/Metrics/Percentile.antt =====
-- `percentile` of generator/src/metrics.py, over sorted latencies.
use analytics_testing.Base.{
  ℕ, ◌-◌, ◌≤◌, min, max, ◌≡◌, refl, some, List, [], ◌∷◌, length, get_or, get_elem?,
  get_elem?-get_or, All, arith,
}
use analytics_testing.Base.Int.{pos_part, pos_part_mono}
use analytics_testing.Base.Float.{Float, IsOrdered, IsMonotone, ◌≼◌}
use analytics_testing.Base.Sorting.{IsSorted, get_elem?-IsSorted}

module _ {F : Type 0} ⦃fl : Float F⦄ where
  open fl use {lit, add, mul, le, round_int}

  -- `max(1, min(n, int(round(q * n + 0.5))))`; a negative integer is raised to 1, as 0 is.
  unfoldable pub rank : ℕ → F → ℕ
  rank n q = max 1 (min n (pos_part (round_int (add (mul q (lit n 1)) (lit 1 2)))))

  unfoldable pub percentile : List F → F → F
  unfolding rank
  percentile [] q = lit 0 1
  percentile (x ∷ []) q = x
  percentile (x ∷ y ∷ xs) q =
      let values = x ∷ y ∷ xs in get_or values (rank (length values) q - 1) x

  pub rank_bounds : (n : ℕ) (q : F) → 1 ≤ n → (1 ≤ rank n q) × (rank n q ≤ n)
  unfolding rank
  rank_bounds n q h = omega arith

  pub rank_mono :
      IsMonotone F → (n : ℕ) (p q : F) → lit 0 1 ≼ p → p ≼ q → q ≼ lit 1 1 → rank n p ≤ rank n q
  unfolding rank
  rank_mono laws n p q lo h hi =
      let rounded = λ (x : F). round_int (add (mul x (lit n 1)) (lit 1 2)) in
      let sums = laws.add_mono _ _ 1 2 (laws.mul_mono p q n lo h hi) in
      omega (arith, pos_part_mono (rounded p) (rounded q) (laws.round_mono _ _ sums))

  -- The percentile of a list that is not empty is one of its entries, at a position in range.
  percentile-get_elem? :
      (x : F) (xs : List F) (q : F)
      → get_elem? (x ∷ xs) (rank (length (x ∷ xs)) q - 1) ≡ some (percentile (x ∷ xs) q)
  unfolding percentile
  percentile-get_elem? x [] q =
      let b = rank_bounds 1 q (omega arith) in let e : rank 1 q - 1 ≡ 0 = omega arith in rw e
  percentile-get_elem? x (y ∷ xs) q =
      let b = rank_bounds (length (x ∷ y ∷ xs)) q (omega arith) in
      get_elem?-get_or (x ∷ y ∷ xs) _ x (omega arith)

  -- Over sorted latencies a larger quantile has no smaller percentile.
  pub percentile_mono :
      IsOrdered F
      → IsMonotone F
      → (xs : List F) (p q : F) → IsSorted le xs
      → All (λ x. x ≼ x) xs
      → lit 0 1 ≼ p
      → p ≼ q
      → q ≼ lit 1 1
      → percentile xs p ≼ percentile xs q
  percentile_mono ord laws [] p q s r lo h hi =
      unfold percentile in ord.lit_mono 0 1 0 1 (omega arith) (omega arith) (omega arith)
  percentile_mono ord laws (x ∷ xs) p q s r lo h hi =
      let m = rank_mono laws (length (x ∷ xs)) p q lo h hi in
      get_elem?-IsSorted le (x ∷ xs) _ _ _ _ s r (omega (arith, m)) (percentile-get_elem? x xs p)
        (percentile-get_elem? x xs q)

  -- No percentile of sorted latencies passes the last of them, nor goes below the first.
  pub percentile_bounds :
      (x : F) (xs : List F) (q : F)
      → IsSorted le (x ∷ xs)
      → All (λ y. y ≼ y) (x ∷ xs)
      → (x ≼ percentile (x ∷ xs) q) × (percentile (x ∷ xs) q ≼ get_or (x ∷ xs) (length xs) x)
  percentile_bounds x xs q s r =
      let b = rank_bounds (length (x ∷ xs)) q (omega arith) in
      let at = percentile-get_elem? x xs q in
      (
        get_elem?-IsSorted le (x ∷ xs) 0 _ _ _ s r (omega arith) refl at,
        get_elem?-IsSorted le (x ∷ xs) _ (length xs) _ _ s r (omega (arith, b.1)) at
            (get_elem?-get_or (x ∷ xs) (length xs) x (omega arith)),
      )
