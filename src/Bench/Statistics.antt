-- ===== src/Bench/Statistics.antt =====
-- The statistics of bench/report.py: `series`, `stats`, `linear_slope` and the steady window. The
-- functions of Python's `statistics` module are arguments.
use analytics_testing.Base.{
  ℕ, ◌-◌, ◌/◌, min, Bool, ◌&&◌, Option, none, some, List, [], ◌∷◌, length, get_or, drop,
  if◌then◌else◌, ltb,
}
use analytics_testing.Base.Int.{pos_part}
use analytics_testing.Base.Dict.{get_default}
use analytics_testing.Base.Float.{Float}
use analytics_testing.Base.Sorting.{sort}

-- What `stats` returns.
pub record Stats (F : Type 0) : Type 0 where
  pub n : ℕ
  pub lowest : F
  pub highest : F
  pub mean : F
  pub median : F
  pub p95 : F
  pub stdev : F

-- `steady_window`: the first quarter is dropped, unless the rows are few.
unfoldable pub steady_window : {A : Type 0} → List A → List A
steady_window rows = if ltb (length rows) 8 then rows else drop (length rows / 4) rows

-- `series`, of what a key holds in each row.
unfoldable pub series : {F : Type 0} → List (Option F) → List F
series [] = []
series (none ∷ rows) = series rows
series (some x ∷ rows) = x ∷ series rows

module _ {F : Type 0} ⦃fl : Float F⦄ where
  open fl use {lit, add, sub, mul, div, lt, le, trunc}

  abbrev pub is_zero : F → Bool
  is_zero x = le x (lit 0 1) && le (lit 0 1) x

  -- `sum(...)`
  unfoldable pub sum_from : F → List F → F
  sum_from total [] = total
  sum_from total (x ∷ xs) = sum_from (add total x) xs

  abbrev pub sum_f : List F → F
  sum_f = sum_from (lit 0 1)

  -- `sum((x - mx) * (y - my) for x, y in zip(xs, ys))`, its terms.
  unfoldable pub products : F → F → List F → List F → List F
  products mx my (x ∷ xs) (y ∷ ys) = mul (sub x mx) (sub y my) ∷ products mx my xs ys
  products mx my [] _ = []
  products mx my (x ∷ xs) [] = []

  -- The largest, after the first.
  unfoldable pub max_from : F → List F → F
  max_from best [] = best
  max_from best (x ∷ xs) = max_from (if lt best x then x else best) xs

  unfoldable pub last_from : F → List F → F
  last_from x [] = x
  last_from x (y ∷ ys) = last_from y ys

  module _ (fmean : List F → F) where
    -- `linear_slope`
    unfoldable pub linear_slope : List F → List F → Option F
    unfolding sum_from products
    linear_slope xs ys =
        let mx = fmean xs in
        let my = fmean ys in
        let denom = sum_f (products mx mx xs xs) in
        if ltb (length xs) 3
        then none
        else if is_zero denom
        then none
        else some (div (sum_f (products mx my xs ys)) denom)

    abbrev pub slope_or_zero : List F → List F → F
    slope_or_zero xs ys = get_default (lit 0 1) (linear_slope xs ys)

  module _ (fmean median pstdev : List F → F) where
    -- `stats` of values that are not none at all.
    unfoldable pub stats : List F → Option (Stats F)
    unfolding last_from
    stats [] = none
    stats (v ∷ vs) = elim (sort le (v ∷ vs)) [
      | [] ↦ none
      | x ∷ xs ↦
          let s = x ∷ xs in
          let n = length s in
          some (record {
            n = n;
            lowest = x;
            highest = last_from x xs;
            mean = fmean s;
            median = median s;
            p95 = get_or s (min (n - 1) (pos_part (trunc (mul (lit 95 100) (lit n 1))))) x;
            stdev = if ltb 1 n then pstdev s else lit 0 1;
          })
    ]
