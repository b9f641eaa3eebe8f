-- ===== src/Bench/Validate.antt =====
-- bench/validate_correctness.py: the rows that landed in the lake against manifest.json. A query is
-- a function on the list of rows, NULL is `none`, and a comparison with NULL selects nothing.
pub mod Queries
pub mod Counting
pub mod Verdicts
pub mod SingleGenerator
pub mod Checksums
pub mod Unordered
use analytics_testing.Base.{
  ℕ, zero, suc, ◌+◌, ◌-◌, ◌≡◌, Bool, true, false, not, ◌&&◌, ◌||◌, String, Option, none, some, List,
  [], ◌∷◌, ◌++◌, all, any, length, map, select, ltb, leb, ◌==◌, if◌then◌else◌, str_eq,
}
use analytics_testing.Base.Int.{ℤ, pos, ◌+ℤ◌, ◌-ℤ◌, sub_ℕ, clamp_ℤ, eqb_ℤ}
use Queries.{
  Row, Key, in_window, has_gen_id, of_gen, keys_of, seqs_of, groups, repeated, excess, distinct,
}

-- One entry of `generators` in manifest.json, its defaults filled in.
pub record GeneratorEntry : Type 0 where
  pub gen_id : Option String
  pub seq_min : ℤ
  pub seq_max : ℤ

-- The fields of manifest.json that the validator reads.
pub record Manifest : Type 0 where
  pub generators : List GeneratorEntry
  pub total_offered : ℕ
  pub total_accepted : ℕ
  pub total_rejected : ℕ

-- What the database holds when the queries run; `watermark` is the sum of the row counts in the
-- window, or `none` if that query raises.
pub record Lake : Type 0 where
  pub rows : List Row
  pub watermark : Option ℕ

pub data Verdict : Type 0 where
  pass : Verdict
  fail : Verdict

pub data CheckName : Type 0 where
  row_count duplicates contiguity checksums_stable : CheckName

-- One entry of `per_generator`.
pub record GeneratorReport : Type 0 where
  pub gen_id : Option String
  pub expected_span : ℕ
  pub landed_rows : ℕ
  pub distinct_seq : ℕ
  pub missing_seq_unaccounted_for : ℕ

-- The result of `validate`; a check that was not evaluated has `none` for its `pass`.
pub record Report : Type 0 where
  pub landed : ℕ
  pub rows_in_window : ℕ
  pub foreign_rows_in_window : ℤ
  pub rows_missing_identity : ℕ
  pub delta : ℤ
  pub row_count_pass : Bool
  pub duplicate_keys : ℕ
  pub excess_rows : ℕ
  pub duplicates_pass : Bool
  pub per_generator : List GeneratorReport
  pub contiguity_pass : Bool
  pub watermark_pass : Option Bool
  pub failed_checks : List CheckName
  pub verdict : Verdict

-- `[g.get('gen_id') for g in generators if g.get('gen_id')]`
abbrev pub ids_of : List GeneratorEntry → List String
ids_of [] = []
ids_of (g ∷ gs) =
    let rest = ids_of gs in
    elim g.gen_id [ none ↦ rest | some id ↦ if str_eq id "" then rest else id ∷ rest ]

-- The view `run_rows` of `build_view`: the rows of the manifest's generators, or of the whole window
-- where it names none.
unfoldable pub run_rows : List String → List Row → List Row
run_rows [] rows = rows
run_rows (id ∷ ids) rows = select (λ r. has_gen_id (id ∷ ids) r) rows

-- The body of the loop over the generators.
unfoldable pub report_generator : Manifest → List Row → GeneratorEntry → GeneratorReport
report_generator m rows g =
    let own = of_gen g.gen_id rows in
    let expected_span = clamp_ℤ (g.seq_max -ℤ g.seq_min +ℤ pos 1) in
    let distinct_seq = distinct (seqs_of own) in
    let unacked_budget = m.total_offered - m.total_accepted in
    record {
      gen_id = g.gen_id;
      expected_span = expected_span;
      landed_rows = length own;
      distinct_seq = distinct_seq;
      missing_seq_unaccounted_for = expected_span - distinct_seq - unacked_budget;
    }

abbrev failed_if : Bool → CheckName → List CheckName → List CheckName
failed_if true name rest = rest
failed_if false name rest = name ∷ rest

abbrev verdict_of : List CheckName → Verdict
verdict_of [] = pass
verdict_of (_ ∷ _) = fail

-- `validate`, over the window's rows and the run's rows.
unfoldable pub validate : Manifest → Lake → List Row → List Row → Report
unfolding report_generator
validate m lake window rows =
    let landed = length rows in
    let delta = sub_ℕ landed m.total_accepted in
    let duplicate_keys = repeated (groups (keys_of rows)) in
    let reports = map (report_generator m rows) m.generators in
    let row_count_pass = eqb_ℤ delta (pos 0) in
    let duplicates_pass = duplicate_keys == 0 in
    let contiguity_pass =
      all (λ (g : GeneratorReport). not (ltb 0 g.missing_seq_unaccounted_for)) reports in
    let failed_checks =
      failed_if row_count_pass row_count
        (failed_if duplicates_pass duplicates (failed_if contiguity_pass contiguity [])) in
    record {
      landed = landed;
      rows_in_window = length window;
      foreign_rows_in_window = sub_ℕ (length window) landed;
      rows_missing_identity = length rows - length (keys_of rows);
      delta = delta;
      row_count_pass = row_count_pass;
      duplicate_keys = duplicate_keys;
      excess_rows = excess (groups (keys_of rows));
      duplicates_pass = duplicates_pass;
      per_generator = reports;
      contiguity_pass = contiguity_pass;
      watermark_pass = elim lake.watermark [ none ↦ none | some wm ↦ some (wm == length window) ];
      failed_checks = failed_checks;
      verdict = verdict_of failed_checks;
    }

-- `build_view` and `validate` in `main`: the window is from `run_start` to `run_end`.
unfoldable pub check_run : Manifest → Lake → ℕ → ℕ → Report
unfolding run_rows validate
check_run m lake run_start run_end =
    let window = select (in_window run_start run_end) lake.rows in
    validate m lake window (run_rows (ids_of m.generators) window)
