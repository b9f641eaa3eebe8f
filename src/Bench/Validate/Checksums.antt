-- ===== src/Bench/Validate/Checksums.antt =====
-- The column checksums of bench/validate_correctness.py, and their comparison with a baseline, which
-- is to show that a compaction changed nothing. The two columns of timestamps are not compared there,
-- and are left out.
use mathlib.Core.Logic.{∥∥₁_elim}
use mathlib.Core.List.{Perm}
use analytics_testing.Base.{
  ℕ, ◌≡◌, ◌↔◌, String, Option, none, some, List, [], ◌∷◌, ◌++◌, length, sum_by, ◌==◌, if◌then◌else◌,
  arith,
}
use analytics_testing.Base.Int.{ℤ}
use analytics_testing.Base.Shuffles.{sum_by-Permᴰ, length-Permᴰ}
use analytics_testing.Bench.Validate.Queries.{Row}
use analytics_testing.Bench.Validate.{Report, pass, fail, checksums_stable}

-- DuckDB's `hash`, on a text and on an integer.
pub record Hashes : Type 0 where
  pub text : Option String → ℕ
  pub integer : Option ℤ → ℕ

-- `result['checksums']`, the columns that are compared.
pub record Checksums : Type 0 where
  pub rows : ℕ
  pub gen_id : ℕ
  pub seq : ℕ
  pub body : ℕ
  pub severity_text : ℕ

unfoldable pub checksums : Hashes → List Row → Checksums
checksums h rs = record {
  rows = length rs;
  gen_id = sum_by (λ (r : Row). h.text r.gen_id) rs;
  seq = sum_by (λ (r : Row). h.integer r.seq) rs;
  body = sum_by (λ (r : Row). h.text r.body) rs;
  severity_text = sum_by (λ (r : Row). h.text r.severity_text) rs;
}

pub data Column : Type 0 where
  rows_column gen_id_column seq_column body_column severity_text_column : Column

abbrev differs : Column → ℕ → ℕ → List Column → List Column
differs c before after rest = if before == after then rest else c ∷ rest

abbrev every_column : List Column
every_column = rows_column ∷ gen_id_column ∷ seq_column ∷ body_column ∷ severity_text_column ∷ []

-- `differing`: a file without checksums, or with those of a query that failed, has none of the
-- columns, and two missing columns are equal.
unfoldable pub differing : Option Checksums → Option Checksums → List Column
differing none none = []
differing none (some a) = every_column
differing (some b) none = every_column
differing (some b) (some a) = differs rows_column b.rows a.rows (
    differs gen_id_column b.gen_id a.gen_id (
      differs seq_column b.seq a.seq (
        differs body_column b.body a.body
          (differs severity_text_column b.severity_text a.severity_text []))))

abbrev fails_on : List Column → Report → Report
fails_on [] result = result
fails_on (_ ∷ _) result = record result {
  verdict = fail;
  failed_checks = result.failed_checks ++ checksums_stable ∷ [];
}

-- The comparison in `main`, where `--baseline` names a file.
unfoldable pub with_baseline : Option Checksums → Option Checksums → Report → Report
unfolding differing
with_baseline before after result = fails_on (differing before after) result

with_baseline_same :
    (before after : Checksums) (result : Report)
    → before ≡ after
    → with_baseline (some before) (some after) result ≡ result
unfolding with_baseline
with_baseline_same before after result e = ground (arith, e)

-- Against a baseline the verdict is PASS exactly when it is PASS without and all five checksums are
-- those of the baseline.
pub with_baseline_iff :
    (before after : Checksums) (result : Report)
    → ((with_baseline (some before) (some after) result).verdict ≡ pass)
      ↔ ((result.verdict ≡ pass) × (before ≡ after))
unfolding with_baseline
with_baseline_iff before after result =
    (λ h. (ground (arith, h), ground (arith, h)), λ h. ground (arith, h.0, h.1))

Checksums-IsSet : IsSet Checksums
Checksums-IsSet = hlevel

-- A compaction that only reorders the rows changes no checksum, so that the comparison with the
-- baseline leaves the result as it is.
pub reordering_is_stable :
    (h : Hashes) (before after : List Row) (result : Report)
    → Perm before after
    → with_baseline (some (checksums h before)) (some (checksums h after)) result ≡ result
unfolding checksums
reordering_is_stable h before after result perm =
    let same : checksums h before ≡ checksums h after = ∥∥₁_elim perm (Checksums-IsSet _ _) (λ p.
      ground (
        arith,
        length-Permᴰ before after p,
        sum_by-Permᴰ (λ (r : Row). h.text r.gen_id) before after p,
        sum_by-Permᴰ (λ (r : Row). h.integer r.seq) before after p,
        sum_by-Permᴰ (λ (r : Row). h.text r.body) before after p,
        sum_by-Permᴰ (λ (r : Row). h.text r.severity_text) before after p,
      )) in
    with_baseline_same (checksums h before) (checksums h after) result same
