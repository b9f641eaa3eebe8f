-- ===== src/Bench/Validate/SingleGenerator.antt =====
-- The validator on the manifest that one generator process writes.
use analytics_testing.Base.{
  ◌≤◌, ◌≡◌, ◌≢◌, ◌⊎◌, refl, ap, Bool, String, Option, none, some, List, [], ◌∷◌, length, map,
  select, eq_iff, All, arith, inl, inr, Bool-cases, leb, if◌then◌else◌,
}
use analytics_testing.Base.Int.{ℤ}
use analytics_testing.Base.Sorting.{AllPairs}
use analytics_testing.Bench.Validate.Queries.{Row, Key, of_gen, keys_of, seqs_of, distinct, is_gen}
use analytics_testing.Bench.Validate.Counting.{AllDistinct, distinct-le, distinct-eq-length}
use analytics_testing.Bench.Validate.{Manifest, GeneratorEntry, Lake, Verdict, pass, fail, validate}
use analytics_testing.Bench.Validate.Verdicts.{span, Explained, pass_iff}

length-select {ℓ} : {A : Type ℓ} (p : A → Bool) (xs : List A) → length (select p xs) ≤ length xs
length-select p [] = omega arith
length-select p (x ∷ xs) = ground (arith, length-select p xs)

length-seqs_of : (rows : List Row) → length (seqs_of rows) ≤ length rows
unfolding seqs_of
length-seqs_of [] = omega arith
length-seqs_of (r ∷ rows) = ground (arith, length-seqs_of rows)

length-of_gen : (id : Option String) (rows : List Row) → length (of_gen id rows) ≤ length rows
unfolding of_gen
length-of_gen id rows = length-select (is_gen id) rows

-- A PASS, where the manifest names one generator whose span is the number of records offered and no
-- more were acknowledged than offered, means that exactly as many different numbers of the generator
-- landed as were acknowledged, and that every row of the run is one of them: the row belongs to
-- the generator and carries a number.
pub pass_means_exact :
    (m : Manifest) (lake : Lake) (window rows : List Row) (g : GeneratorEntry)
    → m.generators ≡ g ∷ []
    → span g ≡ m.total_offered
    → m.total_accepted ≤ m.total_offered
    → (validate m lake window rows).verdict ≡ pass
    → let own = of_gen g.gen_id rows in
      (distinct (seqs_of own) ≡ m.total_accepted)
      × (length own ≡ length rows)
      × (length (seqs_of own) ≡ length rows)
pass_means_exact m lake window rows g one whole le h =
    let p = (pass_iff m lake window rows).0 h in
    let gens : All (Explained m rows) (g ∷ []) = rw one at p.2 in
    let own = of_gen g.gen_id rows in
    let a = distinct-le (seqs_of own) in
    let b = length-seqs_of own in
    let c = length-of_gen g.gen_id rows in
    (
      omega (arith, p.0, gens.0, whole, le, a, b, c),
      omega (arith, p.0, gens.0, whole, le, a, b, c),
      omega (arith, p.0, gens.0, whole, le, a, b, c),
    )

-- A row of the generator `id` with its number.
abbrev pub IsOwn : String → Row → Type 0
IsOwn id r = (r.gen_id ≡ some id) × (r.seq ≢ none)

of_gen-own : (id : String) (rows : List Row) → All (IsOwn id) rows → of_gen (some id) rows ≡ rows
unfolding of_gen
of_gen-own id [] h = refl
of_gen-own id (r ∷ rows) h = ground (arith, h.0.0, eq_iff id id, of_gen-own id rows h.1)

length-seqs_of-own :
    (id : String) (rows : List Row) → All (IsOwn id) rows → length (seqs_of rows) ≡ length rows
unfolding seqs_of
length-seqs_of-own id [] h = refl
length-seqs_of-own id (r ∷ rows) h = ground (arith, h.0.1, length-seqs_of-own id rows h.1)

abbrev key : String → ℤ → Key
key id s = (id, s)

keys_of-own :
    (id : String) (rows : List Row)
    → All (IsOwn id) rows
    → keys_of rows ≡ map (key id) (seqs_of rows)
unfolding keys_of seqs_of
keys_of-own id [] h = refl
keys_of-own id (r ∷ rows) h = ground (arith, h.0.0, h.0.1, keys_of-own id rows h.1)

All-keys :
    (id : String) (s : ℤ) (ss : List ℤ)
    → All (λ t. s ≢ t) ss
    → All (λ k. key id s ≢ k) (map (key id) ss)
All-keys id s [] h = tt
All-keys id s (t ∷ ss) h = (λ e. h.0 (ap (λ (k : Key). k.1) e), All-keys id s ss h.1)

AllDistinct-keys :
    (id : String) (ss : List ℤ) → AllPairs (λ s t. s ≢ t) ss → AllDistinct (map (key id) ss)
AllDistinct-keys id [] h = tt
AllDistinct-keys id (s ∷ ss) h = (All-keys id s ss h.0, AllDistinct-keys id ss h.1)

Verdict-cases : (v : Verdict) → (v ≡ pass) ⊎ (v ≡ fail)
Verdict-cases pass = inl refl
Verdict-cases fail = inr refl

module _ (m : Manifest) (lake : Lake) (window rows : List Row) (g : GeneratorEntry) (id : String)
    (one : m.generators ≡ g ∷ []) (named : g.gen_id ≡ some id) (own : All (IsOwn id) rows)
    (apart : AllPairs (λ s t. s ≢ t) (seqs_of rows)) (landed : length rows ≡ m.total_accepted)
    (le : m.total_accepted ≤ m.total_offered) where
  distinct-own : distinct (seqs_of (of_gen g.gen_id rows)) ≡ m.total_accepted
  distinct-own =
      rw
        (
          named,
          of_gen-own id rows own,
          distinct-eq-length (seqs_of rows) apart,
          length-seqs_of-own id rows own,
        )
        landed

  -- Where the manifest names one generator and no more records are acknowledged than offered, when
  -- the rows of the run are as many as the acknowledged records, each with the generator's id and a
  -- number of its own, the verdict is PASS if the generator's span is no more than the number of
  -- records offered, and FAIL if it is more.
  pub exact_landing :
      (validate m lake window rows).verdict ≡ (if leb (span g) m.total_offered then pass else fail)
  exact_landing =
      let d = distinct-own in
      let keys : AllDistinct (keys_of rows) =
        rw (keys_of-own id rows own) (AllDistinct-keys id (seqs_of rows) apart) in
      elim (Bool-cases (leb (span g) m.total_offered)) [
        | inl fits ↦
            let e : All (Explained m rows) (g ∷ []) = (ground (arith, d, le, fits), tt) in
            rw fits ((pass_iff m lake window rows).1 (landed, keys, rw one e))
        | inr over ↦ rw over (elim (Verdict-cases (validate m lake window rows).verdict) [
          | inl p ↦
              let q = ((pass_iff m lake window rows).0 p).2 in
              let e : All (Explained m rows) (g ∷ []) = rw one at q in
              absurd (ground (arith, d, le, over, e.0))
          | inr f ↦ f
        ])
      ]
