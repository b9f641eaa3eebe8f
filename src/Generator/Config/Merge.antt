-- ===== src/Generator/Config/Merge.antt =====
-- `_merge` of generator/src/config.py, path by path.
use analytics_testing.Base.{
  ◌≡◌, refl, ap, ◌∙◌, String, Option, none, some, List, [], ◌∷◌, if◌then◌else◌, str_eq, eq_iff,
  Bool-cases, inl, inr, arith,
}
use analytics_testing.Generator.Config.{
  Node, null, mapping, Entries, no_entries, entry, find, put_entry, merge, merge_value, given,
  workload_of,
}

module _ {F : Type 0} where
  -- No key stands twice.
  abbrev pub IsDict : Entries F → Type 0
  IsDict no_entries = Unit
  IsDict (entry k v rest) = (find k rest ≡ none) × IsDict rest

  -- What `_merge` makes of the two values at one key.
  abbrev pub overlay : Option (Node F) → Option (Node F) → Option (Node F)
  overlay old none = old
  overlay old (some value) = some (merge_value old value)

  find-put_entry :
      (k j : String) (v : Node F) (es : Entries F)
      → find k (put_entry j v es) ≡ (if str_eq j k then some v else find k es)
  unfolding find put_entry
  find-put_entry k j v no_entries = refl
  find-put_entry k j v (entry i w rest) =
      ground (arith, eq_iff j k, eq_iff i j, eq_iff i k, find-put_entry k j v rest)

  -- Merging two dictionaries overlays the values at each key.
  pub find-merge :
      (k : String) (base over : Entries F)
      → IsDict over
      → find k (merge base over) ≡ overlay (find k base) (find k over)
  unfolding find merge
  find-merge k base no_entries h = refl
  find-merge k base (entry j v rest) h =
      let new = merge_value (find j base) v in
      let ih = find-merge k (put_entry j new base) rest h.1 in
      let p = find-put_entry k j new base in
      elim (Bool-cases (str_eq j k)) [
        | inl same ↦
            let e = (eq_iff j k).0 same in
            let absent : find k rest ≡ none = rw e at h.0 in
            let read : find k (put_entry j new base) ≡ some new = rw same at p in
            let both : overlay (find k (put_entry j new base)) (find k rest) ≡ some new =
              rw (read, absent) refl in
            rw same (ih ∙ both ∙ ap (λ i. some (merge_value (find i base) v)) e)
        | inr other ↦
            let read : find k (put_entry j new base) ≡ find k base = rw other at p in
            rw other (ih ∙ ap (λ o. overlay o (find k rest)) read)
      ]

  -- What stands at the end of a path of keys.
  abbrev pub at_path : List String → Option (Node F) → Option (Node F)
  at_path [] o = o
  at_path (k ∷ ks) (some (mapping es)) = at_path ks (find k es)
  at_path (k ∷ ks) _ = none

  -- The value is no mapping, so it replaces what it meets.
  abbrev pub IsLeaf : Option (Node F) → Type 0
  IsLeaf none = ⊥
  IsLeaf (some (mapping es)) = ⊥
  IsLeaf (some v) = Unit

  -- The path leaves the document at a missing key.
  abbrev pub Misses : List String → Option (Node F) → Type 0
  Misses ks none = Unit
  Misses [] (some v) = ⊥
  Misses (k ∷ ks) (some (mapping es)) = Misses ks (find k es)
  Misses (k ∷ ks) (some v) = ⊥

  -- Every mapping on the path is a dictionary.
  abbrev pub DictsOn : List String → Option (Node F) → Type 0
  DictsOn (k ∷ ks) (some (mapping es)) = IsDict es × DictsOn ks (find k es)
  DictsOn _ _ = Unit

  -- `_merge`, nested mappings included: a value of `over` that is no mapping is the merged
  -- document's value at its path, whatever `base` has there or on the way, if the mappings of `over`
  -- on the path are dictionaries.
  pub leaf_replaces :
      (ks : List String) (old over : Option (Node F))
      → DictsOn ks over
      → IsLeaf (at_path ks over)
      → at_path ks (overlay old over) ≡ at_path ks over
  unfolding merge_value
  leaf_replaces [] old over d h = ground (arith, h)
  leaf_replaces (k ∷ ks) (some (mapping a)) (some (mapping b)) d h =
      rw (find-merge k a b d.0) (leaf_replaces ks (find k a) (find k b) d.1 h)
  leaf_replaces (k ∷ ks) old over d h = ground (arith, h)

  Misses-none : (ks : List String) (o : Option (Node F)) → Misses ks o → at_path ks o ≡ none
  Misses-none [] none h = refl
  Misses-none (k ∷ ks) (some (mapping es)) h = Misses-none ks (find k es) h
  Misses-none (k ∷ ks) none h = refl
  Misses-none ks o h = ground (arith, h)

  -- `_merge`, nested mappings included: at a path that leaves `over` at a missing key, the merged
  -- document has what `base` has there, if the mappings of `over` on the path are dictionaries.
  pub miss_keeps :
      (ks : List String) (old over : Option (Node F))
      → DictsOn ks over
      → Misses ks over
      → at_path ks (overlay old over) ≡ at_path ks old
  unfolding merge_value
  miss_keeps ks old none d h = refl
  miss_keeps (k ∷ ks) (some (mapping a)) (some (mapping b)) d h =
      rw (find-merge k a b d.0) (miss_keeps ks (find k a) (find k b) d.1 h)
  miss_keeps (k ∷ ks) old (some (mapping b)) d h = ground (arith, Misses-none ks (find k b) h)
  miss_keeps ks old over d h = ground (arith, h)

  -- A value that is given on the command line: `None` is none.
  abbrev pub non_null : Option (Node F) → Option (Node F)
  non_null (some null) = none
  non_null o = o

  abbrev pub first_of : Option (Node F) → Option (Node F) → Option (Node F)
  first_of none later = later
  first_of (some v) later = some v

  abbrev pub IsFlat : Option (Node F) → Type 0
  IsFlat (some (mapping es)) = ⊥
  IsFlat o = Unit

  find-given : (k : String) (es : Entries F) → IsDict es → find k (given es) ≡ non_null (find k es)
  unfolding find given
  find-given k no_entries h = refl
  find-given k (entry j null rest) h =
      let ih = find-given k rest h.1 in ground (arith, ih, h.0, eq_iff j k)
  find-given k (entry j v rest) h = let ih = find-given k rest h.1 in ground (arith, ih, h.0)

  given-IsDict : (es : Entries F) → IsDict es → IsDict (given es)
  unfolding find given
  given-IsDict no_entries h = tt
  given-IsDict (entry j null rest) h = given-IsDict rest h.1
  given-IsDict (entry j v rest) h =
      (ground (arith, find-given j rest h.1, h.0), given-IsDict rest h.1)

  overlay-flat : (old over : Option (Node F)) → IsFlat over → overlay old over ≡ first_of over old
  unfolding merge_value
  overlay-flat old over h = ground (arith, h)

  -- The precedence of the settings: the command line's value if one is given, else the profile's,
  -- else the default, for a setting that neither the profile nor the command line makes a mapping.
  pub settings_precedence :
      (k : String) (defaults profile overrides : Entries F)
      → IsDict profile
      → IsDict overrides
      → IsFlat (find k profile)
      → IsFlat (find k overrides)
      → find k (workload_of defaults profile overrides)
        ≡ first_of (non_null (find k overrides)) (first_of (find k profile) (find k defaults))
  unfolding workload_of
  settings_precedence k defaults profile overrides dp dov fp fo =
      let inner = find-merge k defaults profile dp in
      let outer =
        find-merge k (merge defaults profile) (given overrides) (given-IsDict overrides dov) in
      let shown : IsFlat (non_null (find k overrides)) = flat (find k overrides) fo in
      rw
        (
          outer,
          inner,
          find-given k overrides dov,
          overlay-flat (find k defaults) (find k profile) fp,
        )
        (overlay-flat _ _ shown)
    where
      flat : (o : Option (Node F)) → IsFlat o → IsFlat (non_null o)
      flat o h = ground (arith, h)
