-- ===== src/Generator/AiTxn/Stamping.antt =====
-- What `stamp` of generator/src/payload_ai_txn.py writes, as a reader of the two fields sees it.
use analytics_testing.Base.{
  ℕ, suc, ◌+◌, ◌≡◌, ◌≢◌, refl, ap, ap₂, ◌∙◌, sym, true, false, String, Option, none, some, List, [],
  ◌∷◌, All, length, map, str_eq, eq_iff, if◌then◌else◌, arith,
}
use analytics_testing.Base.Dict.{contains}
use analytics_testing.Base.Decimal.{show_nat, read_nat, read_nat-show_nat}
use analytics_testing.Generator.Payload.{AnyValue, Attributes, LogRecord}
use analytics_testing.Generator.Payload.Stamping.{seqs_from}
use analytics_testing.Generator.AiTxn.{
  Handles, CustomerTemplate, find_handles, seen, both, find_seq_values, put_last, stamped,
  stamp_customer_records, stamp_customer,
}

module _ {F : Type 0} where
  -- What the last attribute of a key holds.
  abbrev last_of : String → Option (AnyValue F) → Attributes F → Option (AnyValue F)
  last_of key found [] = found
  last_of key found ((k, v) ∷ rest) = last_of key (if str_eq k key then some v else found) rest

  find_handles-last_of :
      (found : Handles F) (attrs : Attributes F)
      → find_handles found attrs
        ≡ (last_of "bench.seq" found.0 attrs, last_of "snx.sequence_id" found.1 attrs)
  unfolding find_handles
  find_handles-last_of found [] = refl
  find_handles-last_of found ((k, v) ∷ rest) =
      find_handles-last_of (seen found k v) rest
      ∙ ap₂ (λ b s. (last_of "bench.seq" b rest, last_of "snx.sequence_id" s rest))
          (seen_bench k v found) (seen_snx k v found)
    where
      seen_bench :
          (k : String) (v : AnyValue F) (found : Handles F)
          → (seen found k v).0 ≡ (if str_eq k "bench.seq" then some v else found.0)
      seen_bench k v found = ground arith

      seen_snx :
          (k : String) (v : AnyValue F) (found : Handles F)
          → (seen found k v).1 ≡ (if str_eq k "snx.sequence_id" then some v else found.1)
      seen_snx k v found = ground (
        arith,
        eq_iff k "bench.seq",
        eq_iff k "snx.sequence_id",
        eq_iff "bench.seq" "snx.sequence_id",
      )

  both-ne-none :
      (b s : AnyValue F) (attrs : Attributes F) → both (find_handles (some b, some s) attrs) ≢ none
  unfolding find_handles
  both-ne-none b s [] = λ e. cc e
  both-ne-none b s ((k, v) ∷ rest) =
      ground (arith, both-ne-none v s rest, both-ne-none b v rest, both-ne-none b s rest)

  -- Two attributes that stand there are found, whatever follows.
  pub find_seq_values-ne-none :
      (b id kind s : AnyValue F) (rest : Attributes F)
      → find_seq_values (
          ("bench.seq", b)
          ∷ ("bench.gen_id", id)
          ∷ ("log_type", kind)
          ∷ ("snx.sequence_id", s)
          ∷ rest)
        ≢ none
  unfolding find_seq_values find_handles
  find_seq_values-ne-none b id kind s rest = both-ne-none b s rest

  last_of-absent :
      (key : String) (found : Option (AnyValue F)) (attrs : Attributes F)
      → contains key attrs ≡ false
      → last_of key found attrs ≡ found
  last_of-absent key found [] h = refl
  last_of-absent key found ((k, v) ∷ rest) h = ground (arith, last_of-absent key found rest)

  last_of-put_last :
      (key : String) (v : AnyValue F) (found : Option (AnyValue F)) (attrs : Attributes F)
      → contains key attrs ≡ true
      → last_of key found (put_last key v attrs) ≡ some v
  unfolding put_last
  last_of-put_last key v found [] h = cc h
  last_of-put_last key v found ((k, w) ∷ rest) h = ground (
    arith,
    last_of-put_last key v found rest,
    last_of-put_last key v (some w) rest,
    last_of-absent key (some v) rest,
  )

  last_of-put_other :
      (key other : String) (v : AnyValue F) (found : Option (AnyValue F)) (attrs : Attributes F)
      → key ≢ other
      → last_of key found (put_last other v attrs) ≡ last_of key found attrs
  unfolding put_last
  last_of-put_other key other v found [] h = refl
  last_of-put_other key other v found ((k, w) ∷ rest) h = ground (
    arith,
    eq_iff k other,
    eq_iff k key,
    last_of-put_other key other v found rest h,
    last_of-put_other key other v (some w) rest h,
  )

  contains-put_last :
      (key other : String) (v : AnyValue F) (attrs : Attributes F)
      → contains key (put_last other v attrs) ≡ contains key attrs
  unfolding put_last
  contains-put_last key other v [] = refl
  contains-put_last key other v ((k, w) ∷ rest) = ground (arith, contains-put_last key other v rest)

  -- The record has the two attributes that `stamp` writes to.
  abbrev pub HasSequence : LogRecord F → Type 0
  HasSequence r =
      (contains "bench.seq" r.attributes ≡ true) × (contains "snx.sequence_id" r.attributes ≡ true)

  -- The number that a text holds, if the value is a text.
  abbrev pub number_of : AnyValue F → Option ℕ
  number_of (AnyValue.string_value s) = read_nat s
  number_of _ = none

  abbrev pub numbers_of : Option (AnyValue F × AnyValue F) → Option ℕ × Option ℕ
  numbers_of none = (none, none)
  numbers_of (some (b, s)) = (number_of b, number_of s)

  -- The two sequence numbers of a record.
  abbrev pub sequence_of : LogRecord F → Option ℕ × Option ℕ
  sequence_of r = numbers_of (find_seq_values r.attributes)

  find-stamped :
      (seq : ℕ) (attrs : Attributes F)
      → contains "bench.seq" attrs ≡ true
      → contains "snx.sequence_id" attrs ≡ true
      → find_seq_values (stamped seq attrs)
        ≡ some (AnyValue.string_value (show_nat seq), AnyValue.string_value (show_nat seq))
  unfolding find_seq_values
  find-stamped seq attrs hb hs =
      let s = AnyValue.string_value (show_nat seq) in
      let attrs' = put_last "bench.seq" s attrs in
      ap both (
        find_handles-last_of (none, none) (put_last "snx.sequence_id" s attrs')
        ∙ ap₂ (λ b t. (b, t))
            (last_of-put_other "bench.seq" "snx.sequence_id" s none attrs'
                (ground (arith, eq_iff "bench.seq" "snx.sequence_id"))
              ∙ last_of-put_last "bench.seq" s none attrs hb)
            (last_of-put_last "snx.sequence_id" s none attrs'
              (contains-put_last "snx.sequence_id" "bench.seq" s attrs ∙ hs)))

  stamped-sequence_of :
      (now seq : ℕ) (rs : List (LogRecord F))
      → All HasSequence rs
      → map sequence_of (stamp_customer_records now seq rs)
        ≡ map (λ n. (some n, some n)) (seqs_from seq (length rs))
  unfolding stamp_customer_records
  stamped-sequence_of now seq [] h = refl
  stamped-sequence_of now seq (r ∷ rs) h =
      let read = read_nat-show_nat seq in
      ap₂ ◌∷◌
        (ap numbers_of (find-stamped seq r.attributes h.0.0 h.0.1) ∙ ap₂ (λ b s. (b, s)) read read)
        (stamped-sequence_of now (seq + 1) rs h.1)

  length-stamp_customer_records :
      (now seq : ℕ) (rs : List (LogRecord F))
      → length (stamp_customer_records now seq rs) ≡ length rs
  unfolding stamp_customer_records
  length-stamp_customer_records now seq [] = refl
  length-stamp_customer_records now seq (r ∷ rs) =
      ap suc (length-stamp_customer_records now (seq + 1) rs)

  -- Read back as decimal numbers, both sequence fields of the stamped records are first, first + 1,
  -- ... in order, and `stamp` returns the number after the last, if each of the records has the
  -- attributes `bench.seq` and `snx.sequence_id`.
  pub stamp_customer_reads_back :
      (now first : ℕ) (t : CustomerTemplate F)
      → All HasSequence t.records
      → let (t', next) = stamp_customer now first t in
        (map sequence_of t'.records
          ≡ map (λ n. (some n, some n)) (seqs_from first (length t.records)))
        × (next ≡ first + length t'.records)
  unfolding stamp_customer
  stamp_customer_reads_back now first t h = (
    stamped-sequence_of now first t.records h,
    ap (λ n. first + n) (sym (length-stamp_customer_records now first t.records)),
  )
