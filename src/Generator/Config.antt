-- ===== src/Generator/Config.antt =====
-- generator/src/config.py: the documents that a configuration is read from, and their overlay.
pub mod Merge
pub mod Steps
pub mod Reach
pub mod Settings
pub mod Load
pub mod Accepted
use analytics_testing.Base.{
  ℕ, Bool, true, false, String, Option, none, some, List, [], ◌∷◌, if◌then◌else◌, str_eq,
}
use analytics_testing.Base.Int.{ℤ}

-- A document that `yaml.safe_load` returns; a `dict` keeps its entries in the order of insertion.
mutual
  pub data Node (F : Type 0) : Type 0 where
    null : Node F
    flag : Bool → Node F
    number : ℤ → Node F
    decimal : F → Node F
    text : String → Node F
    sequence : Items F → Node F
    mapping : Entries F → Node F

  pub data Items (F : Type 0) : Type 0 where
    no_items : Items F
    item : Node F → Items F → Items F

  pub data Entries (F : Type 0) : Type 0 where
    no_entries : Entries F
    entry : String → Node F → Entries F → Entries F

module _ {F : Type 0} where
  -- `d.get(k)`, where `none` is a missing key.
  unfoldable pub find : String → Entries F → Option (Node F)
  find k no_entries = none
  find k (entry j v rest) = if str_eq j k then some v else find k rest

  -- `d[k] = v`
  unfoldable pub put_entry : String → Node F → Entries F → Entries F
  put_entry k v no_entries = entry k v no_entries
  put_entry k v (entry j w rest) =
      if str_eq j k then entry j v rest else entry j w (put_entry k v rest)

unfoldable mutual
  unfolding find put_entry

  -- `_merge`, where `out` holds the entries merged so far.
  pub merge : {F : Type 0} → Entries F → Entries F → Entries F
  merge out no_entries = out
  merge out (entry key value rest) =
      merge (put_entry key (merge_value (find key out) value) out) rest

  -- The branch of `_merge` on one value: two mappings are merged, and any other value replaces.
  pub merge_value : {F : Type 0} → Option (Node F) → Node F → Node F
  merge_value (some (mapping old)) (mapping new) = mapping (merge old new)
  merge_value _ value = value

module _ {F : Type 0} where
  -- `{k: v for k, v in overrides.items() if v is not None}`
  unfoldable pub given : Entries F → Entries F
  given no_entries = no_entries
  given (entry k null rest) = given rest
  given (entry k v rest) = entry k v (given rest)

  -- `workload` in `load`: the generator's defaults, the profile's block, and the overrides.
  unfoldable pub workload_of : Entries F → Entries F → Entries F → Entries F
  unfolding merge given
  workload_of defaults profile overrides = merge (merge defaults profile) (given overrides)
