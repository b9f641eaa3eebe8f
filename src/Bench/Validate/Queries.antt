-- ===== src/Bench/Validate/Queries.antt =====
-- The queries of bench/validate_correctness.py, as functions on rows.
use analytics_testing.Base.{
  ℕ, ◌+◌, ◌-◌, Bool, false, ◌&&◌, String, Option, none, some, List, [], ◌∷◌, any, select, ltb, leb,
  if◌then◌else◌, str_eq,
}
use analytics_testing.Base.Int.{ℤ, eqb_ℤ}

-- A row of the view `window_rows`: `seq` is `TRY_CAST(... AS BIGINT)`. Only whole microseconds since
-- the epoch are compared of the timestamp.
pub record Row : Type 0 where
  pub gen_id : Option String
  pub seq : Option ℤ
  pub timestamp : ℕ
  pub severity_text : Option String
  pub body : Option String

abbrev pub Key : Type 0
Key = String × ℤ

abbrev pub key_eq : Key → Key → Bool
key_eq (g, s) (h, t) = str_eq g h && eqb_ℤ s t

-- `timestamp >= run_start AND timestamp <= run_end`
unfoldable pub in_window : ℕ → ℕ → Row → Bool
in_window run_start run_end r = leb run_start r.timestamp && leb r.timestamp run_end

-- `gen_id IN (...)`
unfoldable pub has_gen_id : List String → Row → Bool
has_gen_id ids r = elim r.gen_id [ none ↦ false | some g ↦ any (str_eq g) ids ]

abbrev pub is_gen : Option String → Row → Bool
is_gen none r = false
is_gen (some g) r = elim r.gen_id [ none ↦ false | some h ↦ str_eq h g ]

-- `WHERE gen_id = ?`
unfoldable pub of_gen : Option String → List Row → List Row
of_gen g = select (is_gen g)

abbrev pub key_of : Row → Option Key
key_of r = elim r.gen_id [
  | none ↦ none
  | some g ↦ elim r.seq [ none ↦ none | some s ↦ some (g, s) ]
]

abbrev pub cons_some {ℓ} : {A : Type ℓ} → Option A → List A → List A
cons_some none xs = xs
cons_some (some x) xs = x ∷ xs

-- `WHERE gen_id IS NOT NULL AND seq IS NOT NULL`
unfoldable pub keys_of : List Row → List Key
keys_of [] = []
keys_of (r ∷ rs) = cons_some (key_of r) (keys_of rs)

-- The values of `seq` that are not NULL.
unfoldable pub seqs_of : List Row → List ℤ
seqs_of [] = []
seqs_of (r ∷ rs) = cons_some r.seq (seqs_of rs)

-- One more row of a group.
unfoldable pub bump : Key → List (Key × ℕ) → List (Key × ℕ)
bump k [] = (k, 1) ∷ []
bump k ((j, c) ∷ g) = if key_eq j k then (j, c + 1) ∷ g else (j, c) ∷ bump k g

-- `GROUP BY gen_id, seq` with `count(*)`
unfoldable pub groups : List Key → List (Key × ℕ)
unfolding bump
groups [] = []
groups (k ∷ ks) = bump k (groups ks)

-- How many groups are left by `HAVING count(*) > 1`.
unfoldable pub repeated : List (Key × ℕ) → ℕ
repeated [] = 0
repeated ((k, c) ∷ g) = (if ltb 1 c then 1 else 0) + repeated g

-- `sum(c - 1)` over those groups.
unfoldable pub excess : List (Key × ℕ) → ℕ
excess [] = 0
excess ((k, c) ∷ g) = (if ltb 1 c then c - 1 else 0) + excess g

-- `count(DISTINCT seq)`
unfoldable pub distinct : List ℤ → ℕ
distinct [] = 0
distinct (s ∷ ss) = (if any (eqb_ℤ s) ss then 0 else 1) + distinct ss
