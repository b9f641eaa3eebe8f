-- ===== src/Bench/Validate/Verdicts.antt =====
-- When the validator says PASS, and what a PASS means for the rows of the run.
use analytics_testing.Base.{
  ℕ, ◌+◌, ◌-◌, ◌≤◌, ◌≡◌, ◌↔◌, refl, Bool, true, false, not, List, [], ◌∷◌, all, length, map, ltb,
  ◌==◌, All, arith,
}
use analytics_testing.Base.Int.{pos, ◌-ℤ◌, ◌+ℤ◌, sub_ℕ, eqb_ℤ, clamp_ℤ}
use analytics_testing.Bench.Validate.Queries.{
  Row, of_gen, keys_of, seqs_of, groups, repeated, distinct,
}
use analytics_testing.Bench.Validate.Counting.{AllDistinct, repeated-eq-zero}
use analytics_testing.Bench.Validate.{
  Manifest, GeneratorEntry, GeneratorReport, Lake, CheckName, pass, report_generator, validate,
  failed_if, verdict_of,
}

-- The numbers that the manifest says this generator gave out.
abbrev pub span : GeneratorEntry → ℕ
span g = clamp_ℤ (g.seq_max -ℤ g.seq_min +ℤ pos 1)

-- What is missing of the generator's numbers is no more than what was never acknowledged.
abbrev pub Explained : Manifest → List Row → GeneratorEntry → Type 0
Explained m rows g =
    span g ≤ distinct (seqs_of (of_gen g.gen_id rows)) + (m.total_offered - m.total_accepted)

abbrev contiguous : Manifest → List Row → List GeneratorEntry → Bool
contiguous m rows gs =
    all (λ (r : GeneratorReport). not (ltb 0 r.missing_seq_unaccounted_for))
      (map (report_generator m rows) gs)

contiguous_iff :
    (m : Manifest) (rows : List Row) (gs : List GeneratorEntry)
    → (contiguous m rows gs ≡ true) ↔ All (Explained m rows) gs
unfolding report_generator
contiguous_iff m rows [] = (λ h. tt, λ h. refl)
contiguous_iff m rows (g ∷ gs) =
    let ih = contiguous_iff m rows gs in
    (λ h. (ground arith, ih.0 (ground arith)), λ h. let r = ih.1 h.1 in ground (arith, r))

verdict_iff :
    (a b c : Bool) (x y z : CheckName)
    → (verdict_of (failed_if a x (failed_if b y (failed_if c z []))) ≡ pass)
      ↔ ((a ≡ true) × (b ≡ true) × (c ≡ true))
verdict_iff true true true x y z = (λ h. (refl, refl, refl), λ h. refl)
verdict_iff true true false x y z = (λ h. ground arith, λ h. ground arith)
verdict_iff true false c x y z = (λ h. ground arith, λ h. ground arith)
verdict_iff false b c x y z = (λ h. ground arith, λ h. ground arith)

-- The verdict is PASS exactly when as many rows landed as were acknowledged, no (gen_id, seq) landed
-- twice, and of each generator's span no more numbers are missing than were never acknowledged.
pub pass_iff :
    (m : Manifest) (lake : Lake) (window rows : List Row)
    → ((validate m lake window rows).verdict ≡ pass) ↔ (
        (length rows ≡ m.total_accepted)
        × AllDistinct (keys_of rows)
        × All (Explained m rows) m.generators)
unfolding validate
pass_iff m lake window rows =
    let v =
      verdict_iff (eqb_ℤ (sub_ℕ (length rows) m.total_accepted) (pos 0))
        (repeated (groups (keys_of rows)) == 0) (contiguous m rows m.generators) _ _ _ in
    let r = repeated-eq-zero (keys_of rows) in
    let c = contiguous_iff m rows m.generators in
    (
      λ h. let p = v.0 h in (ground (arith, p.0), r.0 (ground (arith, p.1)), c.0 p.2),
      λ h. v.1 (ground (arith, h.0), (let z = r.1 h.1 in ground (arith, z)), c.1 h.2),
    )
