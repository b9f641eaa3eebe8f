-- ===== src/Generator/Payload/Ranges.antt =====
-- `seq_ranges_overlap` of generator/src/payload.py, against "some two ranges intersect".
use analytics_testing.Base.{
  ℕ, ◌≤◌, ◌<◌, ◌≡◌, refl, ◌⊎◌, inl, inr, ◌↔◌, Bool, true, false, ◌||◌, List, [], ◌∷◌, All, All-imp,
  ltb, leb, ◌==◌, if◌then◌else◌, arith,
}
use analytics_testing.Base.Sorting.{
  sort, IsSorted, IsSorted-sort, AllPairs, AllPairs-sort, sort-AllPairs, All-sort,
}

-- `(lo, hi)`, both ends included.
abbrev pub SeqRange : Type 0
SeqRange = ℕ × ℕ

-- The order of Python's tuples.
unfoldable pub range_le : SeqRange → SeqRange → Bool
range_le (a, b) (c, d) = if ltb a c then true else if a == c then leb b d else false

-- `any(ordered[i][1] >= ordered[i + 1][0] for i in ...)`
unfoldable pub neighbours_overlap : List SeqRange → Bool
neighbours_overlap [] = false
neighbours_overlap (x ∷ []) = false
neighbours_overlap (x ∷ y ∷ rest) = leb y.0 x.1 || neighbours_overlap (y ∷ rest)

unfoldable pub seq_ranges_overlap : List SeqRange → Bool
unfolding neighbours_overlap range_le
seq_ranges_overlap ranges = neighbours_overlap (sort range_le ranges)

-- No number lies in both.
abbrev pub Apart : SeqRange → SeqRange → Type 0
Apart r s = (r.1 < s.0) ⊎ (s.1 < r.0)

-- A range that is not reversed.
abbrev pub IsRange : SeqRange → Type 0
IsRange r = r.0 ≤ r.1

range_le_total :
    (r s : SeqRange) → IsRange r → IsRange s → (range_le r s ≡ true) ⊎ (range_le s r ≡ true)
unfolding range_le
range_le_total r s _ _ = ground arith

range_le_trans :
    (r s t : SeqRange) → range_le r s ≡ true → range_le s t ≡ true → range_le r t ≡ true
unfolding range_le
range_le_trans r s t h k = ground arith

Apart-symm : (r s : SeqRange) → Apart r s → Apart s r
Apart-symm r s (inl h) = inr h
Apart-symm r s (inr h) = inl h

-- Among sorted ranges neighbours apart make all apart.
below_all :
    (x y : SeqRange) (rest : List SeqRange)
    → x.1 < y.0
    → IsSorted range_le (y ∷ rest)
    → All (Apart x) (y ∷ rest)
unfolding range_le
below_all x y rest h s =
    (inl h, All-imp (λ z (k : range_le y z ≡ true). inl (ground arith)) rest s.0)

sorted-Apart :
    (xs : List SeqRange) → IsSorted range_le xs → neighbours_overlap xs ≡ false → AllPairs Apart xs
unfolding neighbours_overlap
sorted-Apart [] s h = tt
sorted-Apart (x ∷ []) s h = (tt, tt)
sorted-Apart (x ∷ y ∷ rest) s h =
    (below_all x y rest (ground arith) s.1, sorted-Apart (y ∷ rest) s.1 (ground arith))

Apart-sorted :
    (xs : List SeqRange)
    → All IsRange xs
    → IsSorted range_le xs
    → AllPairs Apart xs
    → neighbours_overlap xs ≡ false
unfolding neighbours_overlap range_le
Apart-sorted [] r s h = refl
Apart-sorted (x ∷ []) r s h = refl
Apart-sorted (x ∷ y ∷ rest) r s h =
    ground (arith, Apart-sorted (y ∷ rest) r.1 s.1 h.1, s.0.0, h.0.0, r.0, r.1.0)

-- `seq_ranges_overlap` answers False exactly when every two of the ranges are apart, if no range is
-- reversed.
pub seq_ranges_overlap_iff :
    (ranges : List SeqRange)
    → All IsRange ranges
    → (seq_ranges_overlap ranges ≡ false) ↔ AllPairs Apart ranges
unfolding seq_ranges_overlap
seq_ranges_overlap_iff ranges r =
    let s = IsSorted-sort range_le IsRange range_le_total range_le_trans ranges r in
    (
      λ h. sort-AllPairs range_le Apart Apart-symm ranges (sorted-Apart _ s h),
      λ h.
          Apart-sorted _ (All-sort range_le IsRange ranges r) s
            (AllPairs-sort range_le Apart Apart-symm ranges h),
    )
