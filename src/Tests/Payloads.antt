-- ===== src/Tests/Payloads.antt =====
-- A generator of random numbers that counts, and the payloads of the two factories that it builds.
use Prim.Native.String.{count}
use analytics_testing.Base.{
  ℕ, zero, suc, ◌+◌, ◌-◌, ◌*◌, ◌%◌, ◌^◌, ◌≤◌, ◌<◌, max, ◌≡◌, refl, ap, sym, ◌⊎◌, ◌↔◌, true, String,
  Option, none, some, List, [], ◌∷◌, length, map, All, get_elem?, arith,
}
use native.Mathlib.Nat.{mod-lt, one-le-pow}
use analytics_testing.Base.Int.{pos, pos_part}
use analytics_testing.Base.Float.{Milli, milli_float}
use analytics_testing.Base.Random.{Random, IsRandom, IsWeights, Always}
use analytics_testing.Generator.Payload.{AnyValue, Attributes, LogRecord}
use analytics_testing.Generator.Payload.Data.{PayloadData}
use analytics_testing.Generator.Payload.Draws.{SeverityNumbers, build_body}
use analytics_testing.Generator.Payload.Bounds.{build_body_length}
use analytics_testing.Generator.AiTxn.{
  CustomerTemplate, AiTxnPayloadFactory, Oversize, stamp_customer, approx_batch_bytes,
  oversize_error, coverage_warning, grpc_max_message_bytes,
}
use analytics_testing.Generator.AiTxn.Stamping.{sequence_of, stamp_customer_reads_back}
use analytics_testing.Generator.AiTxn.Sizes.{oversize_suggestion}
use analytics_testing.Generator.AiTxn.Build.{build_customer_record}
use analytics_testing.Generator.AiTxn.Records.{
  IsAiTxnData, IsCustomerRecord, build_customer_record-IsCustomerRecord,
}
use analytics_testing.Generator.AiTxn.Pool.{ai_txn_factory}
use analytics_testing.Generator.AiTxn.Pool.Coverage.{
  IsRoundRobin, IsFed, IsFull, coverage_warning_iff, ai_txn_factory-IsRoundRobin,
}

abbrev pick : List ℕ → ℕ → Option (ℕ × ℕ)
pick [] r = none
pick (w ∷ ws) r = some (r % length (w ∷ ws), r + 1)

-- The state counts the draws.
abbrev pub counter : Random Milli ℕ
counter = record {
  seeded = λ s. pos_part s;
  random = λ r. (r * 137 % 1000, r + 1);
  uniform = λ a b r. (a + r % (b - a + 1), r + 1);
  below = λ n r. (r % n, r + 1);
  randint = λ a b r. (a, r + 1);
  getrandbits = λ n r. (r % 2 ^ n, r + 1);
  choices = pick;
}

pick_lt :
    (ws : List ℕ) (r : ℕ)
    → IsWeights ws
    → (i : ℕ) × (r' : ℕ) × (pick ws r ≡ some (i, r')) × (i < length ws)
pick_lt [] r h = absurd (cc h.1)
pick_lt (w ∷ ws) r h = (r % length (w ∷ ws), r + 1, refl, mod-lt r (omega arith))

pub counter-IsRandom : IsRandom Milli ℕ counter
counter-IsRandom = record {
  uniform_mem = λ a b r h. let m = mod-lt r {m = b - a + 1} (omega arith) in ground (arith, m);
  below_lt = λ n r h. mod-lt r h;
  randint_mem = λ a b r h. (omega arith, h);
  getrandbits_lt = λ n r. mod-lt r (one-le-pow n 2 (omega arith));
  choices_lt = pick_lt;
}

abbrev pub plain : PayloadData Milli
plain = record {
  seed = none;
  service_names = "gateway" ∷ "search" ∷ [];
  environments = [];
  regions = [];
  tenant_id = none;
  workspace_id = none;
  severity_mix = ("INFO", 900) ∷ ("ERROR", 100) ∷ [];
  http_status_mix = (pos 200, 900) ∷ (pos 429, 50) ∷ (pos 500, 50) ∷ [];
  latency = record { p50 = none; p95 = none; p99 = none; top = none };
  model_traffic = record {
    enabled = true;
    models = none;
    input_tokens = some (record { lowest = pos 10; highest = pos 20 });
    output_tokens = none;
    pricing = [];
  };
  body_bytes = some (pos 40);
  mcp_tool_call_ratio = none;
}

abbrev pub severities : SeverityNumbers
severities = record { trace = 1; debug = 5; info = 9; warn = 13; error = 17; fatal = 21 }

abbrev pub byte_size : Attributes Milli → List (LogRecord Milli) → ℕ
byte_size resource records = length resource * 30 + length records * 900

build_body_length_example :
    Always
      (λ b. (40 ≤ count b + 1) × (count b ≤ max 40 26) × ((count b ≡ 40) ⊎ (40 < 28)))
      (build_body counter plain)
build_body_length_example = build_body_length counter counter-IsRandom plain 40 refl

abbrev pub show_fixed : Milli → String
show_fixed x = "0.000"

pub plain-IsAiTxnData : IsAiTxnData plain
plain-IsAiTxnData = record {
  severities = (refl, refl, refl);
  statuses = (refl, refl, refl);
  actions = (refl, refl, refl);
  models = omega arith;
  input_tokens = omega arith;
  output_tokens = omega arith;
}

build_customer_record_example :
    Always
      (IsCustomerRecord "gen-a")
      (build_customer_record counter show_fixed severities plain "gen-a" 7)
build_customer_record_example =
    build_customer_record-IsCustomerRecord counter counter-IsRandom show_fixed severities plain
      "gen-a" 7 plain-IsAiTxnData

ai_txn_factory-IsRoundRobin_example :
    (f : AiTxnPayloadFactory Milli) × (ai_txn_factory counter show_fixed severities byte_size plain
        "gen-a" 2 2 4 5
      ≡ some f)
    × IsRoundRobin f
    × All (IsFull counter counter-IsRandom show_fixed severities byte_size "gen-a" 2) f.templates
ai_txn_factory-IsRoundRobin_example =
    ai_txn_factory-IsRoundRobin counter counter-IsRandom show_fixed severities byte_size plain
      "gen-a" 2 plain-IsAiTxnData 2 4 5

abbrev customer_record : LogRecord Milli
customer_record = record {
  time_unix_nano = 0;
  observed_time_unix_nano = 0;
  severity_number = 9;
  severity_text = "INFO";
  body = "";
  trace_id = 1;
  span_id = 2;
  attributes =
      ("bench.seq", AnyValue.string_value "0")
      ∷ ("log_type", AnyValue.string_value "http")
      ∷ ("snx.sequence_id", AnyValue.string_value "0")
      ∷ [];
}

abbrev customer_template : ℕ → CustomerTemplate Milli
customer_template c = record {
  resource = [];
  records = customer_record ∷ customer_record ∷ [];
  record_count = 2;
  approx_bytes = 5000000;
  customer_id = c;
}

stamp_customer_reads_back_example :
    let (t', next) = stamp_customer 9000 1099 (customer_template 1) in
    (map sequence_of t'.records ≡ (some 1099, some 1099) ∷ (some 1100, some 1100) ∷ [])
    × (next ≡ 1099 + length t'.records)
stamp_customer_reads_back_example =
    stamp_customer_reads_back 9000 1099 (customer_template 1) ((refl, refl), ((refl, refl), tt))

abbrev small_pool : AiTxnPayloadFactory Milli
small_pool = record {
  gen_id = "gen-a";
  batch_size = 5000;
  workers = 1;
  variants_per_worker = 2;
  customers = 2;
  templates = customer_template 1 ∷ customer_template 2 ∷ [];
}

abbrev refused : Oversize
refused = record { size = 5000000; per = 1000; safe = 3145 }

oversize_suggestion_example :
    (3145 < 5000) × (3145 * approx_batch_bytes small_pool < grpc_max_message_bytes * 5000)
unfolding oversize_error
oversize_suggestion_example =
    oversize_suggestion small_pool refused (omega arith) (omega arith) refl

small_pool-turn :
    (i : ℕ) (t : CustomerTemplate Milli)
    → get_elem? small_pool.templates i ≡ some t
    → t.customer_id ≡ i % 2 + 1
small_pool-turn zero t h =
    let same : customer_template 1 ≡ t = cc h in
    ap (λ (u : CustomerTemplate Milli). u.customer_id) (sym same)
small_pool-turn (suc zero) t h =
    let same : customer_template 2 ≡ t = cc h in
    ap (λ (u : CustomerTemplate Milli). u.customer_id) (sym same)
small_pool-turn (suc (suc i)) t h = cc h

small_pool-IsRoundRobin : IsRoundRobin small_pool
small_pool-IsRoundRobin = record {
  size = refl;
  any_customer = omega arith;
  in_turn = small_pool-turn;
}

coverage_warning_iff_example :
    (coverage_warning small_pool ≡ none) ↔ All (IsFed small_pool) (1 ∷ 2 ∷ [])
coverage_warning_iff_example = coverage_warning_iff small_pool small_pool-IsRoundRobin
