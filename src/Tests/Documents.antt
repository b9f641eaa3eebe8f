-- ===== src/Tests/Documents.antt =====
-- The overlay and the steps of generator/src/config.py on small documents.
use analytics_testing.Base.{◌≡◌, refl, Option, some, [], ◌∷◌}
use analytics_testing.Base.Int.{pos}
use analytics_testing.Base.Float.{Milli, milli_float}
use analytics_testing.Generator.Config.{
  Node, null, number, mapping, Entries, no_entries, entry, find, workload_of,
}
use analytics_testing.Generator.Config.Merge.{
  overlay, at_path, leaf_replaces, miss_keeps, settings_precedence,
}

-- `{pipeline: {workers: 8, batch: 100}}` under `{pipeline: {workers: 16}}`.
abbrev old_document : Option (Node Milli)
old_document = some (
    mapping (
      entry "pipeline"
        (mapping (entry "workers" (number (pos 8)) (entry "batch" (number (pos 100)) no_entries)))
        no_entries))

abbrev new_document : Option (Node Milli)
new_document =
    some (
      mapping
        (entry "pipeline" (mapping (entry "workers" (number (pos 16)) no_entries)) no_entries))

leaf_replaces_example :
    at_path ("pipeline" ∷ "workers" ∷ []) (overlay old_document new_document)
    ≡ some (number (pos 16))
unfolding find
leaf_replaces_example =
    leaf_replaces ("pipeline" ∷ "workers" ∷ []) old_document new_document
      ((refl, tt), ((refl, tt), tt)) tt

miss_keeps_example :
    at_path ("pipeline" ∷ "batch" ∷ []) (overlay old_document new_document)
    ≡ some (number (pos 100))
unfolding find
miss_keeps_example =
    miss_keeps ("pipeline" ∷ "batch" ∷ []) old_document new_document ((refl, tt), ((refl, tt), tt))
      tt

abbrev defaults : Entries Milli
defaults = entry "target_rps" (number (pos 100)) (entry "workers" (number (pos 8)) no_entries)

abbrev profile : Entries Milli
profile = entry "target_rps" (number (pos 500)) no_entries

abbrev overrides : Entries Milli
overrides = entry "target_rps" (number (pos 900)) (entry "workers" null no_entries)

settings_precedence_example :
    find "target_rps" (workload_of defaults profile overrides) ≡ some (number (pos 900))
unfolding find
settings_precedence_example =
    settings_precedence "target_rps" defaults profile overrides (refl, tt) (refl, (refl, tt)) tt tt
