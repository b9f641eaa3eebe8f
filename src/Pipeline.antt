-- ===== src/Pipeline.antt =====
-- The generator and the validator together: what main.py writes is what validate_correctness.py
-- reads, and the collector between them lands the records of the RPCs that it acknowledges.
pub mod Landing
pub mod Reconcile
use analytics_testing.Base.{
  ℕ, Bool, true, false, String, Option, none, some, List, [], ◌∷◌, ◌++◌, map, if◌then◌else◌,
}
use analytics_testing.Base.Int.{ℤ, pos}
use analytics_testing.Bench.Validate.{Manifest}
use analytics_testing.Generator.Main.{RunManifest}

-- manifest.json as the validator reads it.
unfoldable pub read_manifest : RunManifest → Manifest
read_manifest m = record {
  generators = record { gen_id = some m.gen_id; seq_min = pos m.seq_min; seq_max = m.seq_max } ∷ [];
  total_offered = m.total_offered;
  total_accepted = m.total_accepted;
  total_rejected = m.total_rejected;
}
