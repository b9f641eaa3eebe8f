-- ===== src/Generator/Payload/Stamping.antt =====
-- What `stamp` of generator/src/payload.py writes, and which worker it writes for.
use analytics_testing.Base.{
  ℕ, zero, suc, ◌+◌, ◌*◌, ◌%◌, ◌<◌, ◌≡◌, ◌≢◌, refl, none, some, List, [], ◌∷◌, All, length, map, ap,
  ap₂, sym, arith,
}
use native.Mathlib.Decide.{dec_lt}
use native.Mathlib.Nat.{mod-lt, mod-eq_of_lt}
use analytics_testing.Base.Int.{pos}
use analytics_testing.Generator.Payload.{
  AnyValue, Attributes, LogRecord, RequestTemplate, find_seq_value, put_seq_value, stamp_records,
  stamp, seq_of, template_index,
}

-- `first, first + 1, ...`, `n` numbers.
abbrev pub seqs_from : ℕ → ℕ → List ℕ
seqs_from first zero = []
seqs_from first (suc n) = first ∷ seqs_from (first + 1) n

module _ {F : Type 0} where
  -- The record has the attribute that `stamp` writes to.
  abbrev pub IsTagged : LogRecord F → Type 0
  IsTagged r = seq_of r ≢ none

  find-put :
      (seq : ℕ) (attrs : Attributes F)
      → find_seq_value attrs ≢ none
      → find_seq_value (put_seq_value seq attrs) ≡ some (AnyValue.int_value (pos seq))
  unfolding find_seq_value put_seq_value
  find-put seq [] h = absurd (h refl)
  find-put seq ((k, v) ∷ rest) h = ground (arith, find-put seq rest)

  pub length-stamp_records :
      (now seq : ℕ) (rs : List (LogRecord F)) → length (stamp_records now seq rs) ≡ length rs
  unfolding stamp_records
  length-stamp_records now seq [] = refl
  length-stamp_records now seq (r ∷ rs) = ap suc (length-stamp_records now (seq + 1) rs)

  pub stamp_records-IsTagged :
      (now seq : ℕ) (rs : List (LogRecord F))
      → All IsTagged rs
      → All IsTagged (stamp_records now seq rs)
  unfolding stamp_records seq_of
  stamp_records-IsTagged now seq [] h = tt
  stamp_records-IsTagged now seq (r ∷ rs) h =
      (λ e. cc (find-put seq r.attributes h.0, e), stamp_records-IsTagged now (seq + 1) rs h.1)

  pub map-seq_of-stamp_records :
      (now seq : ℕ) (rs : List (LogRecord F))
      → All IsTagged rs
      → map seq_of (stamp_records now seq rs)
        ≡ map (λ n. some (AnyValue.int_value (pos n))) (seqs_from seq (length rs))
  unfolding stamp_records seq_of
  map-seq_of-stamp_records now seq [] h = refl
  map-seq_of-stamp_records now seq (r ∷ rs) h =
      ap₂ ◌∷◌ (find-put seq r.attributes h.0) (map-seq_of-stamp_records now (seq + 1) rs h.1)

  -- `stamp` gives the records of a template the sequence numbers first, first + 1, ... in order, and
  -- returns the number after the last, if each of the records has the `bench.seq` attribute.
  pub stamp_contiguous :
      (now first : ℕ) (t : RequestTemplate F)
      → All IsTagged t.records
      → let (t', next) = stamp now first t in
        (map seq_of t'.records
          ≡ map (λ n. some (AnyValue.int_value (pos n))) (seqs_from first (length t.records)))
        × (next ≡ first + length t'.records)
  unfolding stamp
  stamp_contiguous now first t h = (
    map-seq_of-stamp_records now first t.records h,
    ap (λ n. first + n) (sym (length-stamp_records now first t.records)),
  )

-- Row `v` of a table `n` wide ends before row `w` begins.
row-lt : (v w n x : ℕ) → v < w → x < n → v * n + x < w * n
row-lt v w n x h k = grind arith

pub template_index-lt :
    (workers variants w a : ℕ)
    → 0 < variants
    → w < workers
    → template_index workers variants w a < workers * variants
unfolding template_index
template_index-lt workers variants w a hv hw =
    rw (mod-eq_of_lt hw) (row-lt w workers variants (a % variants) hw (mod-lt a hv))

-- Two different workers of the pool never share a template, whatever variants they use, and every
-- index lies in the pool.
pub template_index_private :
    (workers variants v w a b : ℕ)
    → 0 < variants
    → v < workers
    → w < workers
    → v ≢ w
    → (template_index workers variants v a ≢ template_index workers variants w b)
      × (template_index workers variants v a < workers * variants)
unfolding template_index
template_index_private workers variants v w a b hv hw hw' ne =
    let x = mod-lt a hv in
    let y = mod-lt b hv in
    rw (mod-eq_of_lt hw, mod-eq_of_lt hw')
      (
        λ e. elim (dec_lt v w) [
          | yes p ↦ absurd (omega (arith, e, row-lt v w variants (a % variants) p x))
          | no p ↦
              absurd (omega (arith, e, row-lt w v variants (b % variants) (omega (arith, ne)) y))
        ],
        row-lt v workers variants (a % variants) hw x,
      )
