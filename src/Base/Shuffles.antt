-- ===== src/Base/Shuffles.antt =====
-- Lists up to the order of their entries, since a table has none.
use mathlib.Core.Path.{◌≡◌, refl, sym, ap, ◌∙◌, subst}
use mathlib.Core.List.{List, Permᴰ}
use Prim.Native.Nat.{ℕ, suc}
use native.Mathlib.Omega.{arith}
use analytics_testing.Base.Lists.{All, length, sum_by}
use analytics_testing.Base.Sorting.{AllPairs}

module _ {ℓ κ} {A : Type ℓ} where
  pub All-Permᴰ : (P : A → Type κ) (xs ys : List A) → Permᴰ xs ys → All P ys → All P xs
  All-Permᴰ P _ _ Permᴰ.nil h = tt
  All-Permᴰ P _ _ (Permᴰ.cons {l₁ = xs} {l₂ = ys} e p) h =
      (subst P (sym e) h.0, All-Permᴰ P xs ys p h.1)
  All-Permᴰ P _ _ (Permᴰ.swap {l = xs} e₁ e₂) h =
      (subst P (sym e₁) h.1.0, (subst P (sym e₂) h.0, h.1.1))
  All-Permᴰ P _ _ (Permᴰ.trans {l₁ = xs} {l₂ = ys} {l₃ = zs} p q) h =
      All-Permᴰ P xs ys p (All-Permᴰ P ys zs q h)

  pub AllPairs-Permᴰ :
      (R : A → A → Type κ) (symm : (x y : A) → R x y → R y x) (xs ys : List A)
      → Permᴰ xs ys
      → AllPairs R ys
      → AllPairs R xs
  AllPairs-Permᴰ R symm _ _ Permᴰ.nil h = tt
  AllPairs-Permᴰ R symm _ _ (Permᴰ.cons {a = a} {b = b} {l₁ = xs} {l₂ = ys} e p) h = (
    All-Permᴰ (R a) xs ys p (subst (λ z. All (R z) ys) (sym e) h.0),
    AllPairs-Permᴰ R symm xs ys p h.1,
  )
  AllPairs-Permᴰ R symm _ _ (Permᴰ.swap {a = a} {b = b} {a' = a'} {b' = b'} {l = xs} e₁ e₂) h = (
    (
      symm b a (subst (λ z. R b z) (sym e₁) (subst (λ z. R z b') (sym e₂) h.0.0)),
      subst (λ z. All (R z) xs) (sym e₁) h.1.0,
    ),
    (subst (λ z. All (R z) xs) (sym e₂) h.0.1, h.1.1),
  )
  AllPairs-Permᴰ R symm _ _ (Permᴰ.trans {l₁ = xs} {l₂ = ys} {l₃ = zs} p q) h =
      AllPairs-Permᴰ R symm xs ys p (AllPairs-Permᴰ R symm ys zs q h)

pub length-Permᴰ {ℓ} : {A : Type ℓ} (xs ys : List A) → Permᴰ xs ys → length xs ≡ length ys
length-Permᴰ _ _ Permᴰ.nil = refl
length-Permᴰ _ _ (Permᴰ.cons {l₁ = xs} {l₂ = ys} e p) = ap suc (length-Permᴰ xs ys p)
length-Permᴰ _ _ (Permᴰ.swap e₁ e₂) = refl
length-Permᴰ _ _ (Permᴰ.trans {l₁ = xs} {l₂ = ys} {l₃ = zs} p q) =
    length-Permᴰ xs ys p ∙ length-Permᴰ ys zs q

pub sum_by-Permᴰ {ℓ} :
    {A : Type ℓ} (w : A → ℕ) (xs ys : List A) → Permᴰ xs ys → sum_by w xs ≡ sum_by w ys
sum_by-Permᴰ w _ _ Permᴰ.nil = refl
sum_by-Permᴰ w _ _ (Permᴰ.cons {l₁ = xs} {l₂ = ys} e p) =
    omega (arith, ap w e, sum_by-Permᴰ w xs ys p)
sum_by-Permᴰ w _ _ (Permᴰ.swap e₁ e₂) = omega (arith, ap w e₁, ap w e₂)
sum_by-Permᴰ w _ _ (Permᴰ.trans {l₁ = xs} {l₂ = ys} {l₃ = zs} p q) =
    sum_by-Permᴰ w xs ys p ∙ sum_by-Permᴰ w ys zs q
