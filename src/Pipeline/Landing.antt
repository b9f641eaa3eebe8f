-- ===== src/Pipeline/Landing.antt =====
-- The rows that the acknowledged RPCs of a run land, before any compaction reorders them.
use analytics_testing.Base.{
  ℕ, zero, suc, ◌+◌, ◌/◌, ◌≤◌, ◌≡◌, ◌≢◌, refl, ap, String, Option, none, some, List, [], ◌∷◌, ◌++◌,
  map, All, All-append, length, length-append, length-map, sum_by, sum_by-append, if◌then◌else◌,
  ◌==◌, arith, Bool-cases, inl, inr, ◌∙◌, sym,
}
use analytics_testing.Base.Dict.{lookup}
use analytics_testing.Generator.Engine.Signed.{IsSigned, AllSigned}
use analytics_testing.Base.Int.{ℤ, pos, negsuc}
use analytics_testing.Base.Sorting.{AllPairs}
use analytics_testing.Bench.Validate.Queries.{Row, seqs_of}
use analytics_testing.Bench.Validate.SingleGenerator.{IsOwn}
use analytics_testing.Generator.Payload.{AnyValue, LogRecord, seq_of}
use analytics_testing.Generator.Engine.State.{Rpc, Outcome, answered, raised}
use analytics_testing.Generator.Engine.Tiling.Pool.{numbered}
use analytics_testing.Generator.Engine.Tiling.Weights.{hit, sent}
use analytics_testing.Generator.Engine.Ledger.Defs.{Numbered, wire_count, is_ok}

module _ {F : Type 0} where
  -- `TRY_CAST(... AS BIGINT)` of the attribute's text.
  abbrev pub cast_seq : Option (AnyValue F) → Option ℤ
  cast_seq (some (AnyValue.int_value z)) = some z
  cast_seq _ = none

  -- `element_at(attributes, 'bench.gen_id')[1]`, NULL where there is none.
  abbrev pub text_value : Option (AnyValue F) → Option String
  text_value (some (AnyValue.string_value s)) = some s
  text_value _ = none

  -- The row that a record becomes; timestamps are in microseconds.
  unfoldable pub row_of : LogRecord F → Row
  row_of r = record {
    gen_id = text_value (lookup "bench.gen_id" r.attributes);
    seq = cast_seq (seq_of r);
    timestamp = r.time_unix_nano / 1000;
    severity_text = some r.severity_text;
    body = some r.body;
  }

  abbrev pub rows_of : Rpc F → List Row
  rows_of rpc = elim rpc.outcome [
    | answered r ↦ if r.ok then map row_of rpc.records else []
    | raised ↦ []
  ]

  -- The rows of all RPCs that were acknowledged.
  unfoldable pub landed : List (Rpc F) → List Row
  landed [] = []
  landed (rpc ∷ wire) = rows_of rpc ++ landed wire

-- 1 if the row carries `n`.
abbrev pub row_hit : ℕ → Row → ℕ
row_hit n r = elim r.seq [
  | none ↦ 0
  | some z ↦ elim z [ pos m ↦ if m == n then 1 else 0 | negsuc m ↦ 0 ]
]

-- The row carries a natural number.
abbrev pub HasNumber : Row → Type 0
HasNumber r = (m : ℕ) × (r.seq ≡ some (pos m))

abbrev pub Differ : Row → Row → Type 0
Differ r s = r.seq ≢ s.seq

absent→Differ :
    (r : Row) (m : ℕ) (rows : List Row)
    → r.seq ≡ some (pos m)
    → sum_by (row_hit m) rows ≡ 0
    → All (Differ r) rows
absent→Differ r m [] e h = tt
absent→Differ r m (s ∷ rows) e h =
    (λ same. ground (arith, same), absent→Differ r m rows e (omega arith))

-- Numbers that are carried at most once are all different.
pub once→AllPairs :
    (rows : List Row)
    → All HasNumber rows
    → ((n : ℕ) → sum_by (row_hit n) rows ≤ 1)
    → AllPairs Differ rows
once→AllPairs [] h once = tt
once→AllPairs (r ∷ rows) ((m, e), hs) once =
    let one : row_hit m r ≡ 1 = ground (arith, e) in
    (
      absent→Differ r m rows e (omega (arith, one, once m)),
      once→AllPairs rows hs (λ n. omega (arith, once n)),
    )

All-seqs_of :
    (r : Row) (s : ℤ) (rows : List Row)
    → r.seq ≡ some s
    → All (Differ r) rows
    → All (λ t. s ≢ t) (seqs_of rows)
unfolding seqs_of
All-seqs_of r s [] e h = tt
All-seqs_of r s (q ∷ rows) e h = by_seq (All-seqs_of r s rows e h.1) q.seq refl
  where
    by_seq :
        All (λ t. s ≢ t) (seqs_of rows)
        → (o : Option ℤ) → q.seq ≡ o
        → All (λ t. s ≢ t) (seqs_of (q ∷ rows))
    by_seq ih none at = rw (at, seqs_of) ih
    by_seq ih (some t) at = rw (at, seqs_of) ((λ same. h.0 (e ∙ ap some same ∙ sym at)), ih)

pub AllPairs-seqs_of :
    (rows : List Row) → AllPairs Differ rows → AllPairs (λ s t. s ≢ t) (seqs_of rows)
unfolding seqs_of
AllPairs-seqs_of [] h = tt
AllPairs-seqs_of (r ∷ rows) h = by_seq (AllPairs-seqs_of rows h.1) r.seq refl
  where
    by_seq :
        AllPairs (λ s t. s ≢ t) (seqs_of rows)
        → (o : Option ℤ) → r.seq ≡ o
        → AllPairs (λ s t. s ≢ t) (seqs_of (r ∷ rows))
    by_seq ih none at = rw (at, seqs_of) ih
    by_seq ih (some s) at = rw (at, seqs_of) (All-seqs_of r s rows at h.0, ih)

module _ {F : Type 0} (id : String) where
  row-carries :
      (r : LogRecord F) (k : ℕ)
      → IsSigned id r
      → seq_of r ≡ some (AnyValue.int_value (pos k))
      → IsOwn id (row_of r) × HasNumber (row_of r)
  unfolding row_of
  row-carries r k signed e = ((ground (arith, signed), ground (arith, e)), (k, ground (arith, e)))

  rows-facts :
      (records : List (LogRecord F)) (b first : ℕ)
      → AllSigned id records
      → map seq_of records ≡ numbered first b
      → All (λ r. IsOwn id r × HasNumber r) (map row_of records)
  rows-facts [] b first h e = tt
  rows-facts (r ∷ records) zero first h e = ground arith
  rows-facts (r ∷ records) (suc b) first h e =
      let both : (seq_of r ≡ some (AnyValue.int_value (pos first)))
          × (map seq_of records ≡ numbered (first + 1) b) =
        ground (arith, e) in
      (row-carries r first h.0 both.0, rows-facts records b (first + 1) h.1 both.1)

  hit-row : (n : ℕ) (r : LogRecord F) → row_hit n (row_of r) ≡ hit n (seq_of r)
  unfolding row_of
  hit-row n r = by_value (seq_of r) refl
    where
      by_value : (o : Option (AnyValue F)) → seq_of r ≡ o → row_hit n (row_of r) ≡ hit n (seq_of r)
      by_value none at = ground (arith, at)
      by_value (some (AnyValue.int_value (pos m))) at = ground (arith, at)
      by_value (some (AnyValue.int_value (negsuc m))) at = ground (arith, at)
      by_value (some (AnyValue.bool_value v)) at = ground (arith, at)
      by_value (some (AnyValue.double_value v)) at = ground (arith, at)
      by_value (some (AnyValue.string_value v)) at = ground (arith, at)

  hits-rows :
      (n : ℕ) (records : List (LogRecord F))
      → sum_by (row_hit n) (map row_of records) ≡ sum_by (hit n) (map seq_of records)
  hits-rows n [] = refl
  hits-rows n (r ∷ records) = omega (arith, hit-row n r, hits-rows n records)

  rpc-facts :
      (b : ℕ) (rpc : Rpc F)
      → AllSigned id rpc.records
      → Numbered b rpc
      → All (λ r. IsOwn id r × HasNumber r) (rows_of rpc)
  rpc-facts b rpc signed (first, e) = by_outcome rpc.outcome refl
    where
      by_outcome :
          (o : Outcome F) → rpc.outcome ≡ o → All (λ r. IsOwn id r × HasNumber r) (rows_of rpc)
      by_outcome raised at = rw at tt
      by_outcome (answered r) at = elim (Bool-cases r.ok) [
        | inl good ↦ rw (at, good) (rows-facts rpc.records b first signed e)
        | inr bad ↦ rw (at, bad) tt
      ]

  pub landed-facts :
      (b : ℕ) (wire : List (Rpc F))
      → All (λ rpc. AllSigned id rpc.records) wire
      → All (Numbered b) wire
      → All (λ r. IsOwn id r × HasNumber r) (landed wire)
  unfolding landed
  landed-facts b [] s h = tt
  landed-facts b (rpc ∷ wire) s h =
      All-append (λ r. IsOwn id r × HasNumber r) (rows_of rpc) (landed wire)
        (rpc-facts b rpc s.0 h.0) (landed-facts b wire s.1 h.1)

  hits-rpc : (b n : ℕ) (rpc : Rpc F) → sum_by (row_hit n) (rows_of rpc) ≤ sent b n rpc
  hits-rpc b n rpc = let h = hits-rows n rpc.records in by_outcome rpc.outcome refl h
    where
      by_outcome :
          (o : Outcome F)
          → rpc.outcome ≡ o
          → sum_by (row_hit n) (map row_of rpc.records) ≡ sent b n rpc
          → sum_by (row_hit n) (rows_of rpc) ≤ sent b n rpc
      by_outcome raised at h = rw at (omega arith)
      by_outcome (answered r) at h = elim (Bool-cases r.ok) [
        | inl good ↦ rw (at, good) (omega (arith, h))
        | inr bad ↦ rw (at, bad) (omega arith)
      ]

  pub hits-landed :
      (b n : ℕ) (wire : List (Rpc F)) → sum_by (row_hit n) (landed wire) ≤ sum_by (sent b n) wire
  unfolding landed
  hits-landed b n [] = omega arith
  hits-landed b n (rpc ∷ wire) = omega (
    arith,
    sum_by-append (row_hit n) (rows_of rpc) (landed wire),
    hits-rpc b n rpc,
    hits-landed b n wire,
  )

  length-rows : (rpc : Rpc F) → length (rows_of rpc) ≡ wire_count is_ok rpc
  length-rows rpc = by_outcome rpc.outcome refl
    where
      by_outcome : (o : Outcome F) → rpc.outcome ≡ o → length (rows_of rpc) ≡ wire_count is_ok rpc
      by_outcome raised at = rw at refl
      by_outcome (answered r) at = elim (Bool-cases r.ok) [
        | inl good ↦ rw (at, good) (length-map row_of rpc.records)
        | inr bad ↦ rw (at, bad) refl
      ]

  pub length-landed : (wire : List (Rpc F)) → length (landed wire) ≡ sum_by (wire_count is_ok) wire
  unfolding landed
  length-landed [] = refl
  length-landed (rpc ∷ wire) =
      omega (arith, length-append (rows_of rpc) (landed wire), length-rows rpc, length-landed wire)
