-- ===== src/Generator/Payload/Data.antt =====
-- The `data:` section of a profile, as generator/src/payload.py and generator/src/payload_ai_txn.py
-- read it: `none` and `[]` stand for a key that is missing.
use analytics_testing.Base.{Bool, String, Option, List, [], ◌∷◌, none, some}
pub use analytics_testing.Base.Dict.{get_default}
use analytics_testing.Base.Dict.{Dict}
use analytics_testing.Base.Int.{ℤ}

-- `latency_ms`
pub record Latencies (F : Type 0) : Type 0 where
  pub p50 : Option F
  pub p95 : Option F
  pub p99 : Option F
  pub top : Option F

-- `input_tokens` or `output_tokens`, with both of its keys.
pub record TokenRange : Type 0 where
  pub lowest : ℤ
  pub highest : ℤ

-- An entry of `pricing`.
pub record Price (F : Type 0) : Type 0 where
  pub input : Option F
  pub output : Option F

-- `model_traffic`; an empty list of models is not the same as none.
pub record ModelTraffic (F : Type 0) : Type 0 where
  pub enabled : Bool
  pub models : Option (List String)
  pub input_tokens : Option TokenRange
  pub output_tokens : Option TokenRange
  pub pricing : Dict (Price F)

pub record PayloadData (F : Type 0) : Type 0 where
  pub seed : Option ℤ
  pub service_names : List String
  pub environments : List String
  pub regions : List String
  pub tenant_id : Option String
  pub workspace_id : Option String
  pub severity_mix : List (String × F)
  pub http_status_mix : List (ℤ × F)
  pub latency : Latencies F
  pub model_traffic : ModelTraffic F
  pub body_bytes : Option ℤ
  pub mcp_tool_call_ratio : Option F

-- `d.get(key) or default`, for a list or a dictionary.
abbrev pub or_default {ℓ} : {A : Type ℓ} → List A → List A → List A
or_default d [] = d
or_default d (x ∷ xs) = x ∷ xs

-- `(d.get(key) or default)` for a list that may be missing.
abbrev pub or_missing {ℓ} : {A : Type ℓ} → List A → Option (List A) → List A
or_missing d none = d
or_missing d (some xs) = or_default d xs
