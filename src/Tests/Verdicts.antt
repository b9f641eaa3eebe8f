-- ===== src/Tests/Verdicts.antt =====
-- The validator of bench/validate_correctness.py on small tables.
use mathlib.Core.List.{Permᴰ}
use analytics_testing.Base.{
  if◌then◌else◌, str_eq, ◌+◌, ℕ, ◌≡◌, ◌≢◌, ◌↔◌, refl, String, some, none, List, [], ◌∷◌, All,
  length, arith,
}
use analytics_testing.Base.Int.{pos, clamp_ℤ, ◌+ℤ◌, ◌-ℤ◌}
use analytics_testing.Base.Sorting.{AllPairs}
use analytics_testing.Bench.Validate.{
  Manifest, GeneratorEntry, Lake, Report, pass, validate, check_run,
}
use analytics_testing.Bench.Validate.Queries.{Row, of_gen, keys_of, seqs_of, distinct}
use analytics_testing.Bench.Validate.Counting.{AllDistinct}
use analytics_testing.Bench.Validate.Checksums.{
  Hashes, checksums, with_baseline, with_baseline_iff, reordering_is_stable,
}
use analytics_testing.Bench.Validate.Unordered.{verdict_unordered}
use analytics_testing.Bench.Validate.Verdicts.{Explained, pass_iff}
use analytics_testing.Bench.Validate.SingleGenerator.{exact_landing, pass_means_exact}

abbrev row_of_gen : String → ℕ → Row
row_of_gen id n = record {
  gen_id = some id;
  seq = some (pos n);
  timestamp = 5;
  severity_text = some "INFO";
  body = some "order placed";
}

abbrev gen : GeneratorEntry
gen = record { gen_id = some "gen-a"; seq_min = pos 0; seq_max = pos 2 }

-- Three numbers given out, two of them acknowledged.
abbrev contract : Manifest
contract = record {
  generators = gen ∷ [];
  total_offered = 3;
  total_accepted = 2;
  total_rejected = 1;
}

abbrev rows : List Row
rows = row_of_gen "gen-a" 2 ∷ row_of_gen "gen-a" 0 ∷ []

abbrev lake : Lake
lake = record { rows = rows; watermark = some 2 }

pass_iff_example :
    ((validate contract lake rows rows).verdict ≡ pass)
    ↔ ((length rows ≡ 2) × AllDistinct (keys_of rows) × All (Explained contract rows) (gen ∷ []))
pass_iff_example = pass_iff contract lake rows rows

two_distinct : AllPairs (λ s t. s ≢ t) (seqs_of rows)
unfolding seqs_of
two_distinct = (((λ e. ground (arith, e)), tt), (tt, tt))

exact_landing_example : (validate contract lake rows rows).verdict ≡ pass
unfolding ◌+ℤ◌ ◌-ℤ◌
exact_landing_example =
    exact_landing contract lake rows rows gen "gen-a" refl refl
      ((refl, (λ e. ground (arith, e))), ((refl, (λ e. ground (arith, e))), tt)) two_distinct refl
      (omega arith)

pass_means_exact_example :
    (distinct (seqs_of (of_gen (some "gen-a") rows)) ≡ 2)
    × (length (of_gen (some "gen-a") rows) ≡ length rows)
    × (length (seqs_of (of_gen (some "gen-a") rows)) ≡ length rows)
unfolding ◌+ℤ◌ ◌-ℤ◌
pass_means_exact_example =
    pass_means_exact contract lake rows rows gen refl refl (omega arith) exact_landing_example

abbrev hashes : Hashes
hashes = record {
  text = λ o. elim o [ none ↦ 3 | some t ↦ if str_eq t "gen-a" then 11 else 5 ];
  integer = λ o. elim o [ none ↦ 3 | some z ↦ clamp_ℤ z + 7 ];
}

abbrev compacted : List Row
compacted = row_of_gen "gen-a" 0 ∷ row_of_gen "gen-a" 2 ∷ []

abbrev report : Report
report = validate contract lake rows rows

reordering_is_stable_example :
    with_baseline (some (checksums hashes rows)) (some (checksums hashes compacted)) report ≡ report
reordering_is_stable_example =
    reordering_is_stable hashes rows compacted report ∣ Permᴰ.swap refl refl ∣₁

with_baseline_iff_example :
    ((with_baseline (some (checksums hashes rows)) (some (checksums hashes [])) report).verdict
      ≡ pass)
    ↔ ((report.verdict ≡ pass) × (checksums hashes rows ≡ checksums hashes []))
with_baseline_iff_example = with_baseline_iff (checksums hashes rows) (checksums hashes []) report

abbrev compacted_lake : Lake
compacted_lake = record { rows = compacted; watermark = none }

verdict_unordered_example :
    (check_run contract lake 0 100).verdict ≡ (check_run contract compacted_lake 0 100).verdict
verdict_unordered_example =
    verdict_unordered contract lake compacted_lake 0 100 ∣ Permᴰ.swap refl refl ∣₁
