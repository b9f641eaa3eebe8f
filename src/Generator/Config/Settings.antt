-- ===== src/Generator/Config/Settings.antt =====
-- The settings that `load` of generator/src/config.py reads out of its mappings: target, auth, workload
-- and pipeline, each with its defaults and checks. A `ConfigError`, and any other exception, is `none`.
-- Python's `float`, `int` and `str` of other values and `str.lower` are arguments.
use package.text.Mathlib.Text.{find?}
use analytics_testing.Base.{
  ℕ, Bool, true, false, not, ◌||◌, String, Option, none, some, if◌then◌else◌, str_eq,
}
use analytics_testing.Base.Dict.{get_default}
use analytics_testing.Base.Int.{ℤ, pos, ◌+ℤ◌, ltb_ℤ}
use analytics_testing.Base.Float.{Float}
use analytics_testing.Base.Options.{◌>>=◌, ◌>>◌, guard}
use analytics_testing.Generator.Config.{
  Node, null, flag, number, decimal, text, mapping, Entries, no_entries, find,
}
use analytics_testing.Generator.Config.Steps.{to_float, positive, is_falsy}
use analytics_testing.Generator.Config.Reach.{Pipeline}

pub record Target (F : Type 0) : Type 0 where
  pub host : String
  pub port : ℤ
  pub tls : Bool
  pub rpc_timeout_seconds : F

pub record Auth : Type 0 where
  pub secret_b64 : String
  pub ingestion_queue : String
  pub subject : String
  pub token_ttl_seconds : ℤ

-- `class Workload` of this file.
pub record WorkloadConfig (F : Type 0) : Type 0 where
  pub target_rps : F
  pub duration_seconds : F
  pub ramp_up_seconds : F
  pub ramp_down_seconds : F
  pub workers : ℤ
  pub channels : ℤ
  pub batch_size : ℤ
  pub max_inflight : ℤ
  pub retry_mode : String
  pub abort_on_consecutive_failures : ℤ

-- `part in s`
abbrev pub has_part : String → String → Bool
has_part s part = elim (find? s part) [ none ↦ false | some _ ↦ true ]

module _ {F : Type 0} where
  -- A dictionary; another value has no `get`.
  abbrev pub as_mapping : Option (Node F) → Option (Entries F)
  as_mapping (some (mapping es)) = some es
  as_mapping _ = none

  -- Neither `None` nor the empty text.
  abbrev pub filled : Node F → Option (Node F)
  filled null = none
  filled (text s) = if str_eq s "" then none else some (text s)
  filled n = some n

  -- `_require`
  unfoldable pub require_key : String → Entries F → Option (Node F)
  require_key key es = find key es >>= filled

module _ {F : Type 0} ⦃fl : Float F⦄ (parse : String → Option F) (parse_int : String → Option ℤ)
    (show : Node F → String) (lower : String → String) where
  open fl use {lit, add, mul, div, lt, trunc}

  -- `d.get(key) or {}`, for a dictionary that is read.
  abbrev pub mapping_or_empty : Option (Node F) → Option (Entries F)
  mapping_or_empty o = if is_falsy parse o then some no_entries else as_mapping o

  -- `d.get(key) or {}`, passed on.
  abbrev pub or_empty : Option (Node F) → Node F
  or_empty o = if is_falsy parse o then mapping no_entries else get_default null o

  -- `str(value)`
  abbrev pub as_text : Node F → String
  as_text (text s) = s
  as_text n = show n

  -- `int(value)`
  unfoldable pub to_int : Node F → Option ℤ
  to_int (number n) = some n
  to_int (decimal x) = some (trunc x)
  to_int (flag b) = some (if b then pos 1 else pos 0)
  to_int (text s) = parse_int s
  to_int _ = none

  -- The mapping `target` of the generator.
  unfoldable pub read_target : Entries F → Option (Target F)
  unfolding require_key to_int
  read_target tgt = do
    host ← require_key "host" tgt
    port_node ← require_key "port" tgt
    port ← to_int port_node
    timeout ←
        positive parse false (some (get_default (number (pos 60)) (find "rpc_timeout_seconds" tgt)))
    guard (not (has_part (as_text host) "${"))
    some (record {
      host = as_text host;
      port = port;
      tls = not (is_falsy parse (find "tls" tgt));
      rpc_timeout_seconds = timeout;
    })

  unfoldable pub read_auth : Entries F → Option Auth
  unfolding require_key to_int
  read_auth au = do
    secret ← require_key "secret_b64" au
    guard (not (has_part (as_text secret) "${"))
    queue ← require_key "ingestion_queue" au
    ttl ← to_int (get_default (number (pos 3600)) (find "token_ttl_seconds" au))
    some (record {
      secret_b64 = as_text secret;
      ingestion_queue = as_text queue;
      subject = as_text (get_default (text "bench-generator") (find "subject" au));
      token_ttl_seconds = ttl;
    })

  -- `_positive(workload.get(key, default), ...)`
  abbrev pub positive_or : Bool → ℕ → String → Entries F → Option F
  positive_or allow_zero d key workload =
      positive parse allow_zero (some (get_default (number (pos d)) (find key workload)))

  -- `int(value or 0)`
  abbrev pub int_or_zero : Option (Node F) → Option ℤ
  int_or_zero o = if is_falsy parse o then some (pos 0) else to_int (get_default null o)

  abbrev pub retry_mode_of : Entries F → String
  retry_mode_of workload = lower (as_text (get_default (text "none") (find "retry_mode" workload)))

  -- The `Workload` of the overlaid settings.
  unfoldable pub read_workload : Entries F → Option (WorkloadConfig F)
  unfolding to_int
  read_workload workload = do
    let retry_mode = retry_mode_of workload
    guard (str_eq retry_mode "none" || str_eq retry_mode "polite")
    target_rps ← positive_or false 0 "target_rps" workload
    duration ← positive_or false 60 "duration_seconds" workload
    ramp_up ← positive_or true 0 "ramp_up_seconds" workload
    ramp_down ← positive_or true 0 "ramp_down_seconds" workload
    workers ← positive_or false 8 "workers" workload
    channels ← positive_or false 1 "channels" workload
    batch_size ← positive_or false 100 "batch_size" workload
    max_inflight ← positive_or false 64 "max_inflight" workload
    abort ← int_or_zero (find "abort_on_consecutive_failures" workload)
    guard (not (ltb_ℤ (trunc max_inflight) (trunc workers)))
    some (record {
      target_rps = target_rps;
      duration_seconds = duration;
      ramp_up_seconds = ramp_up;
      ramp_down_seconds = ramp_down;
      workers = trunc workers;
      channels = trunc channels;
      batch_size = trunc batch_size;
      max_inflight = trunc max_inflight;
      retry_mode = retry_mode;
      abort_on_consecutive_failures = abort;
    })

  -- `value + 250`
  abbrev pub add_250 : Node F → Option (Node F)
  add_250 (number n) = some (number (n +ℤ pos 250))
  add_250 (decimal x) = some (decimal (add x (lit 250 1)))
  add_250 (flag b) = some (number (if b then pos 251 else pos 250))
  add_250 _ = none

  unfoldable pub read_pipeline : Entries F → Entries F → Option (Pipeline F)
  unfolding to_int
  read_pipeline pl d = do
    delay ← to_float parse (some (get_default (number (pos 5000)) (find "max_delay_ms" pl)))
    bucket ← to_int (get_default (number (pos 16777216)) (find "min_bucket_size" pl))
    guess ← add_250 (get_default (number (pos 256)) (find "body_bytes" d))
    bytes ← to_int (get_default guess (find "approx_record_bytes" pl))
    some (record { max_delay_ms = delay; min_bucket_size = bucket; approx_record_bytes = bytes })
