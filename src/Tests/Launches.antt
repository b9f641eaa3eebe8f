-- ===== src/Tests/Launches.antt =====
-- A document that generator/src/config.py accepts, and a run that generator/src/main.py starts from it.
use analytics_testing.Generator.Client.{new_source}
use analytics_testing.Generator.Config.{
  find, Node, null, number, text, mapping, Entries, no_entries, entry, put_entry, merge,
  merge_value, given, workload_of,
}
use analytics_testing.Generator.Config.Settings.{
  to_int, require_key, read_target, read_auth, read_workload, read_pipeline,
}
use analytics_testing.Generator.Config.Load.{
  GeneratorConfig, expand, expand_entries, expand_items, warning_of, warnings_of, finish, assemble,
  load,
}
use analytics_testing.Generator.AiTxn.Pool.{
  ai_txn_factory, build_customer_pool, build_customer_template,
}
use analytics_testing.Base.Random.{
  choice, repeat, random, weighted_choice, uniform, randint, getrandbits, require,
}
use analytics_testing.Base.Int.{◌+ℤ◌, ◌-ℤ◌, ℤ, pos}
use analytics_testing.Generator.Payload.Draws.{
  draw_latency, pad_body, build_body, join, sample_latency,
}
use analytics_testing.Generator.AiTxn.{
  coverage_warning, approx_batch_bytes, oversize_error, oversize_of, AiTxnPayloadFactory,
  grpc_max_message_bytes,
}
use analytics_testing.Generator.AiTxn.Build.{
  build_customer_record, build_prompt, fallback_attributes, limit_attributes, mcp_attributes,
  req_attributes, res_attributes, sample_latency_seconds, snx_attributes, sometimes,
  token_attributes, usage_json,
}
use analytics_testing.Generator.Main.Launch.{
  check_pool, launch_ai_txn, launch, Surroundings, ai_txn_pool, started_ai_txn,
}
use analytics_testing.Base.{
  ℕ, ◌≡◌, ◌<◌, refl, true, false, String, Option, none, some, [], ◌∷◌, All, replicate,
}
use analytics_testing.Base.Float.{Milli, milli_float}
use analytics_testing.Base.Options.{◌>>=◌, ◌>>◌}
use analytics_testing.Generator.Config.Steps.{to_float, positive, build_steps}
use analytics_testing.Generator.Config.Reach.{flush_seconds, max_reachable_rps}
use analytics_testing.Generator.Config.Accepted.{IsAccepted, load-IsAccepted}
use analytics_testing.Base.Dict.{get_default}
use analytics_testing.Generator.Payload.Stamping.{seqs_from}
use analytics_testing.Generator.AiTxn.Pool.Coverage.{IsFed}
use analytics_testing.Generator.Main.Started.{started_run_covers}
use analytics_testing.Tests.Payloads.{
  counter, counter-IsRandom, plain, plain-IsAiTxnData, severities, byte_size, show_fixed,
}

abbrev no_number : String → Option Milli
no_number s = none

abbrev no_integer : String → Option ℤ
no_integer s = none

abbrev shown : Node Milli → String
shown n = "1"

abbrev same : String → String
same s = s

abbrev generator : Entries Milli
generator =
    entry "target"
      (mapping (entry "host" (text "collector") (entry "port" (number (pos 8815)) no_entries)))
      (entry "auth"
        (mapping
          (entry "secret_b64" (text "c2VjcmV0") (entry "ingestion_queue" (text "logs") no_entries)))
        (entry "workload"
          (mapping (
            entry "target_rps" (number (pos 20))
              (entry "workers" (number (pos 2)) (entry "batch_size" (number (pos 1)) no_entries))))
          (entry "data"
            (mapping
              (entry "schema" (text "ai_txn") (entry "customers" (number (pos 3)) no_entries)))
            no_entries)))

abbrev document : Node Milli
document = mapping (
    entry "generator" (mapping generator)
      (entry "profiles" (mapping (entry "smoke" null no_entries)) no_entries))

abbrev rate : Entries Milli
rate = entry "target_rps" (number (pos 1)) no_entries

abbrev accepted : GeneratorConfig Milli
accepted = record {
  profile = "smoke";
  target = record { host = "collector"; port = pos 8815; tls = false; rpc_timeout_seconds = 60000 };
  auth = record {
    secret_b64 = "c2VjcmV0";
    ingestion_queue = "logs";
    subject = "bench-generator";
    token_ttl_seconds = pos 3600;
  };
  workload = record {
    target_rps = 1000;
    duration_seconds = 60000;
    ramp_up_seconds = 0;
    ramp_down_seconds = 0;
    workers = pos 2;
    channels = pos 1;
    batch_size = pos 1;
    max_inflight = pos 64;
    retry_mode = "none";
    abort_on_consecutive_failures = pos 0;
  };
  steps = record { index = 0; rps = 1000; duration_seconds = 60000 } ∷ [];
  data_ = entry "schema" (text "ai_txn") (entry "customers" (number (pos 3)) no_entries);
  output = mapping no_entries;
  stop_when = mapping no_entries;
  fault = mapping no_entries;
  checkpoint_interval_seconds = 0;
  pipeline = record {
    max_delay_ms = 5000000;
    min_bucket_size = pos 16777216;
    approx_record_bytes = pos 506;
  };
  warnings = record { index = 0; ceiling = 400; flush = 5000; need = pos 5 } ∷ [];
}

is_accepted : load no_number no_integer shown same same document "smoke" rate ≡ some accepted
unfolding load assemble finish expand expand_entries expand_items read_target read_auth
    read_workload read_pipeline warnings_of warning_of workload_of build_steps require_key to_int
    positive to_float find put_entry merge merge_value given ◌>>=◌ ◌>>◌ ◌+ℤ◌ flush_seconds
    max_reachable_rps
is_accepted = refl

load-IsAccepted_example : IsAccepted no_number no_integer shown same accepted
load-IsAccepted_example =
    load-IsAccepted no_number no_integer shown same same document "smoke" rate accepted is_accepted

-- A channel that is ready, and the data of another test.
abbrev site : Surroundings Milli ℕ
site = record {
  random = counter;
  show_fixed = show_fixed;
  severities = severities;
  byte_size = byte_size;
  decode = λ secret. some (replicate 64 7);
  parse = no_number;
  parse_int = no_integer;
  show = shown;
  lower = same;
  read_data = λ d. plain;
  gen_id = "gen-a";
  ready = true;
  dry_run = false;
}

abbrev no_pool : AiTxnPayloadFactory Milli
no_pool = record {
  gen_id = "";
  batch_size = 0;
  workers = 0;
  variants_per_worker = 0;
  customers = 0;
  templates = [];
}

-- The pool of the run.
abbrev pool : AiTxnPayloadFactory Milli
pool = get_default no_pool (ai_txn_pool site accepted (pos 3))

is_started : launch site (some accepted) ≡ started_ai_txn accepted pool
unfolding new_source find to_int ai_txn_factory choice ◌+ℤ◌ repeat random weighted_choice
    draw_latency uniform randint getrandbits pad_body ◌-ℤ◌ require coverage_warning
    build_customer_record build_prompt fallback_attributes limit_attributes mcp_attributes
    req_attributes res_attributes sample_latency_seconds snx_attributes sometimes token_attributes
    usage_json build_customer_pool build_customer_template approx_batch_bytes oversize_error
    oversize_of check_pool launch_ai_txn launch build_body join sample_latency
is_started = refl

started_run_covers_example :
    (true ≡ true)
    × (false ≡ false)
    × All (IsFed pool) (seqs_from 1 pool.customers)
    × (approx_batch_bytes pool < grpc_max_message_bytes)
started_run_covers_example =
    started_run_covers site counter-IsRandom accepted accepted pool plain-IsAiTxnData is_started
