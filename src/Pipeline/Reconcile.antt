-- ===== src/Pipeline/Reconcile.antt =====
-- One run from the generator's first record to the validator's verdict.
use mathlib.Core.Logic.{∥∥₁_elim}
use mathlib.Core.List.{Perm, Permᴰ}
use analytics_testing.Base.{
  ℕ, suc, ◌-◌, ◌≡◌, ◌≢◌, ◌≤◌, ◌<◌, refl, sym, ◌∙◌, Bool, false, some, List, [], ◌∷◌, ◌==◌, select,
  All, All-imp, length, sum_by, Bool-cases, inl, inr, arith, eq_iff, str_eq, if◌then◌else◌,
}
use analytics_testing.Base.Int.{pos, ◌+ℤ◌, ◌-ℤ◌}
use analytics_testing.Base.Float.{Float}
use analytics_testing.Base.Sorting.{AllPairs}
use analytics_testing.Generator.Metrics.State.{Metrics}
use analytics_testing.Generator.Payload.{PayloadFactory}
use analytics_testing.Generator.Main.{manifest, seq_min_of, seq_max_of}
use analytics_testing.Generator.Engine.State.{Engine, Workload, StepResult, idle}
use analytics_testing.Generator.Engine.{Event, start, run}
use analytics_testing.Generator.Engine.Signed.{Signed, IsSignedFactory, start-Signed}
use analytics_testing.Generator.Engine.Spans.{LastFits, Spans, start-Spans}
use analytics_testing.Generator.Engine.Tiling.Once.{IsStocked, IsAtRest, never_sent_twice}
use analytics_testing.Generator.Engine.Ledger.Totals.{
  start-IsSound, totals_reconcile, totals_bounded,
}
use analytics_testing.Bench.Validate.{
  Lake, Verdict, pass, fail, validate, check_run, run_rows, ids_of, GeneratorEntry,
}
use analytics_testing.Bench.Validate.Queries.{Row, in_window}
use analytics_testing.Bench.Validate.Verdicts.{span}
use analytics_testing.Bench.Validate.SingleGenerator.{IsOwn, exact_landing}
use analytics_testing.Pipeline.{read_manifest}
use analytics_testing.Pipeline.Landing.{
  landed, landed-facts, hits-landed, length-landed, once→AllPairs, AllPairs-seqs_of, HasNumber,
  Differ, row_hit,
}
use analytics_testing.Base.Shuffles.{All-Permᴰ, AllPairs-Permᴰ, length-Permᴰ}

Differ-symm : (r s : Row) → Differ r s → Differ s r
Differ-symm r s h = λ e. h (sym e)

Verdict-IsSet : IsSet Verdict
Verdict-IsSet = hlevel

module _ {F : Type 0} where
  -- The last step gave out nothing: it starts where the numbers given out end.
  abbrev pub ends_empty : List (StepResult F) → ℕ → Bool
  ends_empty [] next = false
  ends_empty (r ∷ []) next = r.seq_start == next
  ends_empty (r ∷ s ∷ rs) next = ends_empty (s ∷ rs) next

  -- The generator's entry in the manifest.
  abbrev entry : Engine F → GeneratorEntry
  entry e = record {
    gen_id = some e.factory.gen_id;
    seq_min = pos (seq_min_of e.results);
    seq_max = seq_max_of e.results;
  }

  -- Where the last step ends, and that the engine has given out something if that step has.
  LastEnds : List (StepResult F) → ℕ → Type 0
  LastEnds rs next =
      (seq_max_of rs ≡ pos (if ends_empty rs next then next else next - 1))
      × (ends_empty rs next ≡ false → 0 < next)

  seq_max-LastFits :
      (r : StepResult F) (rs : List (StepResult F)) (next : ℕ)
      → LastFits (r ∷ rs) next
      → LastEnds (r ∷ rs) next
  unfolding LastEnds
  seq_max-LastFits r [] next h = ground (arith, h.0, h.1)
  seq_max-LastFits r (s ∷ rs) next h = seq_max-LastFits s rs next h

  -- An empty last step makes the span one number too long.
  span-entry :
      (e : Engine F)
      → Spans e
      → e.pacer ≡ idle
      → span (entry e) ≡ (if ends_empty e.results e.next_seq then suc e.next_seq else e.next_seq)
  unfolding LastEnds ◌+ℤ◌ ◌-ℤ◌
  span-entry e s at = by_results e.results refl
    where
      by_results :
          (rs : List (StepResult F))
          → e.results ≡ rs
          → span (entry e)
            ≡ (if ends_empty e.results e.next_seq then suc e.next_seq else e.next_seq)
      by_results [] eq = ground (arith, at, eq, s.first, s.opened)
      by_results (r ∷ rs) eq =
          let fits : LastFits (r ∷ rs) e.next_seq = rw (at, eq) at s.last in
          let l = seq_max-LastFits r rs e.next_seq fits in
          ground (arith, eq, s.first, s.opened, l.0, l.1)

  -- The verdict on the engine's manifest is PASS unless the last step is empty, and FAIL if it is.
  Judged : Engine F → Verdict → Type 0
  Judged e v = v ≡ (if ends_empty e.results e.next_seq then fail else pass)

  Judged-IsProp : (e : Engine F) (v : Verdict) → IsProp (Judged e v)
  unfolding Judged Verdict-IsSet
  Judged-IsProp e v = hlevel

  ids_of-entry :
      (e : Engine F) → e.factory.gen_id ≢ "" → ids_of (entry e ∷ []) ≡ e.factory.gen_id ∷ []
  ids_of-entry e named = elim (Bool-cases (str_eq e.factory.gen_id "")) [
    | inl same ↦ absurd (named ((eq_iff e.factory.gen_id "").0 same))
    | inr other ↦ rw other refl
  ]

  judge :
      (e : Engine F) (lake : Lake) (window rows : List Row)
      → (span (entry e) ≡ (if ends_empty e.results e.next_seq then suc e.next_seq else e.next_seq))
      → e.metrics.totals.records_offered ≡ e.next_seq
      → e.metrics.totals.records_accepted ≤ e.metrics.totals.records_offered
      → length (landed e.wire) ≡ e.metrics.totals.records_accepted
      → All (λ r. IsOwn e.factory.gen_id r × HasNumber r) (landed e.wire)
      → AllPairs Differ (landed e.wire)
      → Permᴰ rows (landed e.wire)
      → Judged e (validate (read_manifest (manifest e)) lake window rows).verdict
  unfolding read_manifest manifest Judged
  judge e lake window rows s offered le len facts apart p =
      let id = e.factory.gen_id in
      let all = landed e.wire in
      let own =
        All-imp (λ r h. h.0) rows (All-Permᴰ (λ r. IsOwn id r × HasNumber r) rows all p facts) in
      let differ = AllPairs-Permᴰ Differ Differ-symm rows all p apart in
      let v =
        exact_landing (read_manifest (manifest e)) lake window rows (entry e) id refl refl own
          (AllPairs-seqs_of rows differ) (length-Permᴰ rows all p ∙ len) le in
      elim (Bool-cases (ends_empty e.results e.next_seq)) [
        | inl empty ↦ rw (v, empty) (ground (arith, s, empty, offered))
        | inr full ↦ rw (v, full) (ground (arith, s, full, offered))
      ]

module _ {F : Type 0} ⦃fl : Float F⦄ where
  -- From a started engine with fresh counters and a stocked pool whose records all carry the factory's
  -- id, which is not empty, in `bench.gen_id`: under every schedule of the engine, once it is at rest,
  -- if the rows of the run that the validator finds are in some order those that the acknowledged
  -- RPCs landed, and neither a row more nor a row less, the verdict on the engine's own manifest is
  -- PASS unless the last step gave out nothing, and FAIL if it did.
  pub lossless_run :
      (cfg : Workload) (workers : ℕ) (f : PayloadFactory F) (m : Metrics F) (e₀ : Engine F)
      (evs : List (Event F)) (lake : Lake) (run_start run_end : ℕ)
      → IsStocked cfg.batch_size f
      → IsSignedFactory f
      → m.totals.records_offered ≡ 0
      → m.totals.records_accepted ≡ 0
      → m.totals.records_rejected ≡ 0
      → start cfg workers f m ≡ some e₀
      → IsAtRest (run evs e₀)
      → (run evs e₀).factory.gen_id ≢ ""
      → Perm
          (run_rows
            ((run evs e₀).factory.gen_id ∷ [])
            (select (in_window run_start run_end) lake.rows))
          (landed (run evs e₀).wire)
      → let e = run evs e₀ in
        let report = check_run (read_manifest (manifest e)) lake run_start run_end in
        report.verdict ≡ (if ends_empty e.results e.next_seq then fail else pass)
  unfolding check_run read_manifest manifest Judged validate
  lossless_run cfg workers f m e₀ evs lake run_start run_end stock signs o a r h rest named perm =
      let e = run evs e₀ in
      let id = e.factory.gen_id in
      let b = cfg.batch_size in
      let window = select (in_window run_start run_end) lake.rows in
      let rows = run_rows (id ∷ []) window in
      let t = totals_reconcile cfg workers f m e₀ evs stock o a r h rest in
      let s = span-entry e (start-Spans cfg workers f m e₀ evs stock o a r h) rest.pacer in
      let l = (start-IsSound cfg workers f m e₀ evs stock o a r h).1 in
      let made = start-Signed cfg workers f m e₀ evs signs h in
      let signed : Signed id e = rw (← made.gen_id) at made in
      let facts = landed-facts id b e.wire signed.wire l.numbered in
      let once : (n : ℕ) → sum_by (row_hit n) (landed e.wire) ≤ 1 = λ n.
        ground
          (arith, hits-landed id b n e.wire, (never_sent_twice cfg workers f m e₀ evs n stock h)) in
      let apart = once→AllPairs (landed e.wire) (All-imp (λ r g. g.1) (landed e.wire) facts) once in
      let some_rejected = (totals_bounded cfg workers f m e₀ evs stock o a r h).2 in
      let judged =
        ∥∥₁_elim perm
          (Judged-IsProp e (validate (read_manifest (manifest e)) lake window rows).verdict)
          (λ p.
            judge e lake window rows s t.0 (omega (arith, t.0, some_rejected))
              (length-landed id e.wire ∙ sym t.2) facts apart p) in
      rw (ids_of-entry e named) judged
