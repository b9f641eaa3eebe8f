-- ===== src/Generator/Main/Launch.antt =====
-- What `main` of generator/src/main.py does before the first step: it starts a run or exits with a
-- code. The reading of the typed settings out of `data:`, the random generator, the base64 decoder and
-- the state of the channel are arguments.
use analytics_testing.Base.{ℕ, Bool, String, Option, none, some, List, if◌then◌else◌, str_eq}
use analytics_testing.Base.Dict.{get_default}
use analytics_testing.Base.Int.{ℤ, pos, clamp_ℤ}
use analytics_testing.Base.Float.{Float}
use analytics_testing.Base.Random.{Random}
use analytics_testing.Generator.Payload.{Attributes, LogRecord, PayloadFactory}
use analytics_testing.Generator.Payload.Data.{PayloadData}
use analytics_testing.Generator.Payload.Draws.{SeverityNumbers}
use analytics_testing.Generator.Payload.Build.{payload_factory}
use analytics_testing.Generator.AiTxn.{AiTxnPayloadFactory, coverage_warning, oversize_error}
use analytics_testing.Generator.AiTxn.Pool.{ai_txn_factory}
use analytics_testing.Generator.Client.{NewSource, refused, made, new_source}
use analytics_testing.Generator.Config.{Node, number, text, Entries, find}
use analytics_testing.Generator.Config.Settings.{as_text, to_int}
use analytics_testing.Generator.Config.Load.{GeneratorConfig}

-- How `main` goes on: an exception, an exit code, or a run with one of the two payloads.
pub data Launch (F : Type 0) : Type 0 where
  raised : Launch F
  exited : ℕ → Launch F
  started : GeneratorConfig F → PayloadFactory F → Launch F
  started_ai_txn : GeneratorConfig F → AiTxnPayloadFactory F → Launch F

-- What `main` finds around it.
pub record Surroundings (F R : Type 0) : Type 0 where
  pub random : Random F R
  pub show_fixed : F → String
  pub severities : SeverityNumbers
  pub byte_size : Attributes F → List (LogRecord F) → ℕ
  pub decode : String → Option (List ℕ)
  pub parse : String → Option F
  pub parse_int : String → Option ℤ
  pub show : Node F → String
  pub lower : String → String
  pub read_data : Entries F → PayloadData F
  -- `str(uuid.uuid4())`
  pub gen_id : String
  -- `exporter.wait_ready(timeout_s=15)`
  pub ready : Bool
  -- `--dry-run`
  pub dry_run : Bool

module _ {F R : Type 0} ⦃fl : Float F⦄ (s : Surroundings F R) where
  -- `variants_per_worker`, where the caller names none.
  abbrev pub variants : ℕ
  variants = 4

  -- `str((cfg.data or {}).get("schema", "logs")).lower()`
  abbrev pub schema_of : GeneratorConfig F → String
  schema_of cfg = s.lower (
      as_text s.parse s.parse_int s.show s.lower
        (get_default (text "logs") (find "schema" cfg.data_)))

  -- `int((cfg.data or {}).get("customers", 100))`
  abbrev pub customers_of : GeneratorConfig F → Option ℤ
  customers_of cfg =
      to_int s.parse s.parse_int s.show s.lower
        (get_default (number (pos 100)) (find "customers" cfg.data_))

  abbrev pub unless_dry : Launch F → Launch F
  unless_dry launch = if s.dry_run then exited 0 else launch

  -- The checks on the ai_txn pool.
  unfoldable pub check_pool : GeneratorConfig F → Option (AiTxnPayloadFactory F) → Launch F
  check_pool cfg none = raised
  check_pool cfg (some f) = elim (coverage_warning f) [
    | some _ ↦ exited 5
    | none ↦ elim (oversize_error f) [
      | some _ ↦ exited 6
      | none ↦ unless_dry (started_ai_txn cfg f)
    ]
  ]

  abbrev pub ai_txn_pool : GeneratorConfig F → ℤ → Option (AiTxnPayloadFactory F)
  ai_txn_pool cfg customers =
      ai_txn_factory s.random s.show_fixed s.severities s.byte_size (s.read_data cfg.data_) s.gen_id
        (clamp_ℤ cfg.workload.batch_size) (clamp_ℤ cfg.workload.workers) variants
        (clamp_ℤ customers)

  unfoldable pub launch_ai_txn : GeneratorConfig F → Option ℤ → Launch F
  unfolding check_pool
  launch_ai_txn cfg none = raised
  launch_ai_txn cfg (some customers) = check_pool cfg (ai_txn_pool cfg customers)

  unfoldable pub launch_plain : GeneratorConfig F → Option (PayloadFactory F) → Launch F
  launch_plain cfg none = raised
  launch_plain cfg (some f) = unless_dry (started cfg f)

  -- The choice of the payload.
  abbrev pub launch_schema : GeneratorConfig F → Launch F
  launch_schema cfg =
      if str_eq (schema_of cfg) "ai_txn"
      then launch_ai_txn cfg (customers_of cfg)
      else launch_plain cfg (
          payload_factory s.random s.severities s.byte_size (s.read_data cfg.data_) s.gen_id
            (clamp_ℤ cfg.workload.batch_size) (clamp_ℤ cfg.workload.workers) variants)

  abbrev pub launch_connected : GeneratorConfig F → NewSource F → Launch F
  launch_connected cfg (refused e) = raised
  launch_connected cfg (made tokens) = if s.ready then launch_schema cfg else exited 4

  -- `main` up to the start of the engine, for the configuration; `none` is a `ConfigError`.
  unfoldable pub launch : Option (GeneratorConfig F) → Launch F
  unfolding launch_ai_txn launch_plain
  launch none = exited 2
  launch (some cfg) = launch_connected cfg (
      new_source s.decode cfg.auth.secret_b64 cfg.auth.ingestion_queue cfg.auth.subject
        cfg.auth.token_ttl_seconds)
