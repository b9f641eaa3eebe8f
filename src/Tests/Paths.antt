-- ===== src/Tests/Paths.antt =====
-- A path of a small configuration, as scripts/lib/cfg.py reads it.
use analytics_testing.Base.{ℕ, ◌≡◌, refl, String, Option, none, some, List, [], ◌∷◌}
use analytics_testing.Base.Float.{Milli}
use analytics_testing.Generator.Config.{Node, text, mapping, no_entries, entry, find}
use analytics_testing.Scripts.Cfg.{keys, get, printed, failed}

abbrev no_index : String → Option ℕ
no_index s = none

abbrev parts : String → List String
parts path = "collector" ∷ path ∷ []

abbrev root : Node Milli
root = mapping (entry "collector" (mapping (entry "port" (text "${PORT}") no_entries)) no_entries)

no_mapping : keys no_index parts root "port" ≡ failed 3
unfolding keys find
no_mapping = refl

abbrev plain_text : Node Milli → String
plain_text n = "8815"

missing_key : get no_index parts plain_text plain_text root "host" none ≡ failed 3
unfolding get find
missing_key = refl

fallback :
    get no_index parts plain_text plain_text root "host" (some "localhost") ≡ printed "localhost"
unfolding get find
fallback = refl
