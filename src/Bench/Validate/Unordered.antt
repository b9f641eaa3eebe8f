-- ===== src/Bench/Validate/Unordered.antt =====
-- The queries of bench/validate_correctness.py on tables that hold the same rows in another order.
use mathlib.Core.Logic.{∥∥₁_elim}
use mathlib.Core.List.{Perm, Permᴰ}
use mathlib.Core.List.Permᴰ.{refl as Permᴰ_refl, symm as Permᴰ_symm}
use analytics_testing.Base.{
  ℕ, ◌≡◌, ◌≢◌, refl, sym, ap, ap₂, ◌∙◌, subst, Bool, Bool-cases, inl, inr, String, Option, none,
  some, List, [], ◌∷◌, select, any, All, if◌then◌else◌, arith,
}
use analytics_testing.Base.Int.{ℤ, eqb_ℤ, eqb_ℤ→eq}
use analytics_testing.Base.Shuffles.{AllPairs-Permᴰ, length-Permᴰ}
use analytics_testing.Bench.Validate.Queries.{
  Row, cons_some, key_of, keys_of, seqs_of, of_gen, is_gen, in_window, has_gen_id, distinct,
}
use analytics_testing.Bench.Validate.Verdicts.{Explained, pass_iff}
use analytics_testing.Bench.Validate.{
  Manifest, GeneratorEntry, Lake, Verdict, pass, fail, validate, check_run, run_rows, ids_of,
}

cons_some-Permᴰ {ℓ} :
    {A : Type ℓ} (o : Option A) (xs ys : List A)
    → Permᴰ xs ys
    → Permᴰ (cons_some o xs) (cons_some o ys)
cons_some-Permᴰ none xs ys p = p
cons_some-Permᴰ (some x) xs ys p = Permᴰ.cons refl p

cons_some-swap {ℓ} :
    {A : Type ℓ} (o u : Option A) (xs : List A)
    → Permᴰ (cons_some o (cons_some u xs)) (cons_some u (cons_some o xs))
cons_some-swap none u xs = Permᴰ_refl _
cons_some-swap (some x) none xs = Permᴰ_refl _
cons_some-swap (some x) (some y) xs = Permᴰ.swap refl refl

-- The values that `f` finds in a table.
abbrev kept {ℓ} : {A : Type ℓ} → (Row → Option A) → List Row → List A
kept f [] = []
kept f (r ∷ rs) = cons_some (f r) (kept f rs)

kept-Permᴰ {ℓ} :
    {A : Type ℓ} (f : Row → Option A) (xs ys : List Row)
    → Permᴰ xs ys
    → Permᴰ (kept f xs) (kept f ys)
kept-Permᴰ f _ _ Permᴰ.nil = Permᴰ.nil
kept-Permᴰ f _ _ (Permᴰ.cons {a = a} {b = b} {l₁ = xs} {l₂ = ys} e p) =
    subst (λ z. Permᴰ (kept f (a ∷ xs)) (kept f (z ∷ ys))) e
      (cons_some-Permᴰ (f a) (kept f xs) (kept f ys) (kept-Permᴰ f xs ys p))
kept-Permᴰ f _ _ (Permᴰ.swap {a = a} {b = b} {a' = c} {b' = d} {l = xs} e₁ e₂) =
    subst (λ z. Permᴰ (kept f (a ∷ b ∷ xs)) (kept f (c ∷ z ∷ xs))) e₁
      (subst (λ z. Permᴰ (kept f (a ∷ b ∷ xs)) (kept f (z ∷ a ∷ xs))) e₂
        (cons_some-swap (f a) (f b) (kept f xs)))
kept-Permᴰ f _ _ (Permᴰ.trans {l₁ = xs} {l₂ = ys} {l₃ = zs} p q) =
    Permᴰ.trans (kept-Permᴰ f xs ys p) (kept-Permᴰ f ys zs q)

keys_of-kept : (rows : List Row) → keys_of rows ≡ kept key_of rows
unfolding keys_of
keys_of-kept [] = refl
keys_of-kept (r ∷ rows) = ap (cons_some (key_of r)) (keys_of-kept rows)

seqs_of-kept : (rows : List Row) → seqs_of rows ≡ kept (λ r. r.seq) rows
unfolding seqs_of
seqs_of-kept [] = refl
seqs_of-kept (r ∷ rows) = ap (cons_some r.seq) (seqs_of-kept rows)

abbrev when : (Row → Bool) → Row → Option Row
when p r = if p r then some r else none

select-kept : (p : Row → Bool) (rows : List Row) → select p rows ≡ kept (when p) rows
select-kept p [] = refl
select-kept p (r ∷ rows) = elim (Bool-cases (p r)) [
  | inl own ↦ rw own (ap (λ rs. r ∷ rs) (select-kept p rows))
  | inr other ↦ rw other (select-kept p rows)
]

select-Permᴰ : (p : Row → Bool) (xs ys : List Row) → Permᴰ xs ys → Permᴰ (select p xs) (select p ys)
select-Permᴰ p xs ys d = rw (select-kept p xs, select-kept p ys) (kept-Permᴰ (when p) xs ys d)

any_swap : (s a b : ℤ) (xs : List ℤ) → any (eqb_ℤ s) (a ∷ b ∷ xs) ≡ any (eqb_ℤ s) (b ∷ a ∷ xs)
any_swap s a b xs = ground arith

distinct_swap : (a b : ℤ) (xs : List ℤ) → distinct (a ∷ b ∷ xs) ≡ distinct (b ∷ a ∷ xs)
unfolding distinct
distinct_swap a b xs = elim (Bool-cases (eqb_ℤ a b)) [
  | inl same ↦ let e = eqb_ℤ→eq a b same in ap₂ (λ x y. distinct (x ∷ y ∷ xs)) e (sym e)
  | inr other ↦ ground (arith, other)
]

any-Permᴰ : (s : ℤ) (xs ys : List ℤ) → Permᴰ xs ys → any (eqb_ℤ s) xs ≡ any (eqb_ℤ s) ys
any-Permᴰ s _ _ Permᴰ.nil = refl
any-Permᴰ s _ _ (Permᴰ.cons {l₁ = xs} {l₂ = ys} e p) = let ih = any-Permᴰ s xs ys p in cc
any-Permᴰ s _ _ (Permᴰ.swap {a = a} {b = b} {a' = c} {b' = d} {l = xs} e₁ e₂) =
    subst (λ z. any (eqb_ℤ s) (a ∷ b ∷ xs) ≡ any (eqb_ℤ s) (c ∷ z ∷ xs)) e₁
      (subst (λ z. any (eqb_ℤ s) (a ∷ b ∷ xs) ≡ any (eqb_ℤ s) (z ∷ a ∷ xs)) e₂ (any_swap s a b xs))
any-Permᴰ s _ _ (Permᴰ.trans {l₁ = xs} {l₂ = ys} {l₃ = zs} p q) =
    any-Permᴰ s xs ys p ∙ any-Permᴰ s ys zs q

distinct-Permᴰ : (xs ys : List ℤ) → Permᴰ xs ys → distinct xs ≡ distinct ys
unfolding distinct
distinct-Permᴰ _ _ Permᴰ.nil = refl
distinct-Permᴰ _ _ (Permᴰ.cons {a = a} {b = b} {l₁ = xs} {l₂ = ys} e p) =
    ground (arith, e, any-Permᴰ a xs ys p, distinct-Permᴰ xs ys p)
distinct-Permᴰ _ _ (Permᴰ.swap {a = a} {b = b} {a' = c} {b' = d} {l = xs} e₁ e₂) =
    subst (λ z. distinct (a ∷ b ∷ xs) ≡ distinct (c ∷ z ∷ xs)) e₁
      (subst (λ z. distinct (a ∷ b ∷ xs) ≡ distinct (z ∷ a ∷ xs)) e₂ (distinct_swap a b xs))
distinct-Permᴰ _ _ (Permᴰ.trans {l₁ = xs} {l₂ = ys} {l₃ = zs} p q) =
    distinct-Permᴰ xs ys p ∙ distinct-Permᴰ ys zs q

Explained-Permᴰ :
    (m : Manifest) (xs ys : List Row)
    → Permᴰ xs ys
    → (gs : List GeneratorEntry) → All (Explained m ys) gs
    → All (Explained m xs) gs
Explained-Permᴰ m xs ys p [] h = tt
Explained-Permᴰ m xs ys p (g ∷ gs) h =
    let own : Permᴰ (of_gen g.gen_id xs) (of_gen g.gen_id ys) =
      unfold of_gen in select-Permᴰ (is_gen g.gen_id) xs ys p in
    let seqs : Permᴰ (seqs_of (of_gen g.gen_id xs)) (seqs_of (of_gen g.gen_id ys)) =
      rw (seqs_of-kept (of_gen g.gen_id xs), seqs_of-kept (of_gen g.gen_id ys))
        (kept-Permᴰ (λ r. r.seq) _ _ own) in
    (omega (arith, distinct-Permᴰ _ _ seqs, h.0), Explained-Permᴰ m xs ys p gs h.1)

keys_of-Permᴰ : (xs ys : List Row) → Permᴰ xs ys → Permᴰ (keys_of xs) (keys_of ys)
keys_of-Permᴰ xs ys p = rw (keys_of-kept xs, keys_of-kept ys) (kept-Permᴰ key_of xs ys p)

pass-Permᴰ :
    (m : Manifest) (lake lake' : Lake) (window window' xs ys : List Row)
    → Permᴰ xs ys
    → (validate m lake window ys).verdict ≡ pass
    → (validate m lake' window' xs).verdict ≡ pass
pass-Permᴰ m lake lake' window window' xs ys p h =
    let q = (pass_iff m lake window ys).0 h in
    (pass_iff m lake' window' xs).1 (
      length-Permᴰ xs ys p ∙ q.0,
      AllPairs-Permᴰ (λ j k. j ≢ k) (λ j k n e. n (sym e)) _ _ (keys_of-Permᴰ xs ys p) q.1,
      Explained-Permᴰ m xs ys p m.generators q.2,
    )

same_verdict : (v v' : Verdict) → (v ≡ pass → v' ≡ pass) → (v' ≡ pass → v ≡ pass) → v ≡ v'
same_verdict pass v' to from = sym (to refl)
same_verdict fail pass to from = from refl
same_verdict fail fail to from = refl

run_rows-Permᴰ :
    (ids : List String) (xs ys : List Row) → Permᴰ xs ys → Permᴰ (run_rows ids xs) (run_rows ids ys)
unfolding run_rows
run_rows-Permᴰ [] xs ys p = p
run_rows-Permᴰ (id ∷ ids) xs ys p = select-Permᴰ (λ r. has_gen_id (id ∷ ids) r) xs ys p

Verdict-IsSet : IsSet Verdict
Verdict-IsSet = hlevel

-- The verdict does not depend on the order in which the lake holds its rows, nor on the watermark.
pub verdict_unordered :
    (m : Manifest) (lake lake' : Lake) (run_start run_end : ℕ)
    → Perm lake.rows lake'.rows
    → (check_run m lake run_start run_end).verdict ≡ (check_run m lake' run_start run_end).verdict
unfolding check_run
verdict_unordered m lake lake' run_start run_end perm =
    ∥∥₁_elim perm
      (Verdict-IsSet (check_run m lake run_start run_end).verdict
        (check_run m lake' run_start run_end).verdict)
      (λ p.
        let inside = in_window run_start run_end in
        let window = select inside lake.rows in
        let window' = select inside lake'.rows in
        let q = select-Permᴰ inside lake.rows lake'.rows p in
        let ids = ids_of m.generators in
        let d = run_rows-Permᴰ ids window window' q in
        same_verdict _ _
          (pass-Permᴰ m lake lake' window window' (run_rows ids window') (run_rows ids window)
            (Permᴰ_symm d))
          (pass-Permᴰ m lake' lake window' window (run_rows ids window) (run_rows ids window') d))
