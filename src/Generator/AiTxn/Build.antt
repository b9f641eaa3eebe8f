-- ===== src/Generator/AiTxn/Build.antt =====
-- The construction of a log record in generator/src/payload_ai_txn.py. The random generator, the
-- format `.3f` of a float and the severity numbers of the protocol are arguments.
use Prim.Native.String.{◌++◌ as str_append}
use analytics_testing.Base.{ℕ, ◌*◌, Bool, not, ◌&&◌, String, List, [], ◌∷◌, ◌++◌, if◌then◌else◌}
use analytics_testing.Base.Int.{ℤ, pos, ◌+ℤ◌, leb_ℤ, ltb_ℤ, eqb_ℤ}
use analytics_testing.Base.Float.{Float}
use analytics_testing.Base.Decimal.{show_int, show_hex}
use analytics_testing.Base.Random.{
  Random, Draw, return, ◌>>=◌, random, uniform, getrandbits, randint, choice, weighted_choice,
}
use analytics_testing.Generator.Payload.{AnyValue, Attributes, LogRecord}
use analytics_testing.Generator.Payload.Data.{
  Latencies, TokenRange, ModelTraffic, PayloadData, get_default, or_default,
}
use analytics_testing.Generator.Payload.Draws.{SeverityNumbers, severity_of, draw_latency, pad_body}

-- `_STOP_REASONS`
abbrev pub stop_reasons : List String
stop_reasons = "[\"end_turn\"]" ∷ "[\"max_tokens\"]" ∷ "[\"stop_sequence\"]" ∷ "[\"tool_use\"]" ∷ []

-- `_USER_AGENTS`
abbrev pub user_agents : List String
user_agents =
    "anthropic-sdk-python/0.40.0" ∷ "anthropic-sdk-typescript/0.32.1" ∷ "openai-python/1.54.0"
    ∷ "langchain/0.3.7" ∷ "llamaindex/0.11.20" ∷ []

-- `_MCP_TOOLS`
abbrev pub mcp_tools : List String
mcp_tools = "read_file" ∷ "search_docs" ∷ "run_query" ∷ "fetch_url" ∷ "list_tables" ∷ []

-- `_MCP_SERVERS`
abbrev pub mcp_servers : List String
mcp_servers = "filesystem" ∷ "postgres" ∷ "web-search" ∷ "github" ∷ []

-- `_kv`: every value is a text.
abbrev pub kv : {F : Type 0} → String → String → String × AnyValue F
kv key value = (key, AnyValue.string_value value)

abbrev concat : List String → String
concat [] = ""
concat (s ∷ rest) = str_append s (concat rest)

-- `json.dumps(usage)`
unfoldable pub usage_json : ℤ → ℤ → ℤ → ℤ → String
usage_json input output creation reading = concat (
    "{\"input_tokens\": "
    ∷ show_int input
    ∷ ", \"output_tokens\": "
    ∷ show_int output
    ∷ ", \"cache_creation_input_tokens\": "
    ∷ show_int creation
    ∷ ", \"cache_read_input_tokens\": "
    ∷ show_int reading
    ∷ "}"
    ∷ [])

-- Tokens exist on a successful LLM call only.
abbrev pub has_usage : Bool → ℤ → Bool
has_usage is_mcp status = not is_mcp && (leb_ℤ (pos 200) status && ltb_ℤ status (pos 300))

abbrev pub llm_input_range : TokenRange
llm_input_range = record { lowest = pos 100; highest = pos 8000 }

abbrev pub llm_output_range : TokenRange
llm_output_range = record { lowest = pos 20; highest = pos 2000 }

abbrev pub text_of : Bool → String
text_of b = if b then "true" else "false"

module _ {F R : Type 0} ⦃fl : Float F⦄ (g : Random F R) (show_fixed : F → String) where
  open fl use {lit, mul, div, lt}

  -- `_sample_latency_seconds`
  unfoldable pub sample_latency_seconds : Latencies F → Draw R F
  sample_latency_seconds spec = do
    ms ←
        draw_latency g (get_default (lit 120 1) spec.p50) (get_default (lit 800 1) spec.p95)
          (get_default (lit 2500 1) spec.p99) (get_default (lit 15000 1) spec.top)
    return (div ms (lit 1000 1))

  -- `_build_prompt`
  unfoldable pub build_prompt : PayloadData F → Draw R String
  build_prompt d =
      pad_body g (get_default (pos 256) d.body_bytes)
        "Summarize the following document in three bullet points."

  -- The attributes by which a row is found again, and its kind.
  abbrev pub identity_attributes : String → Bool → Attributes F
  identity_attributes gen_id is_mcp =
      kv "bench.seq" "0"
      ∷ kv "bench.gen_id" gen_id
      ∷ kv "log_type" (if is_mcp then "mcp_tool_call" else "http")
      ∷ kv "snx.sequence_id" "0"
      ∷ []

  -- The rest of the `snx.` attributes.
  unfoldable pub snx_attributes : ℕ → F → Draw R (Attributes F)
  snx_attributes customer latency_s = do
    workspace ← randint g (pos 1) (pos 3)
    user ← randint g (pos 1) (pos 50)
    vkey ← randint g (pos 1) (pos 5)
    agent ← randint g (pos 1) (pos 12)
    model ← randint g (pos 0) (pos 2)
    action ←
        weighted_choice g (
          ("PACT_ALLOW", lit 94 100) ∷ ("PACT_CAUTION", lit 5 100) ∷ ("PACT_BLOCK", lit 1 100) ∷ [])
    return (
        kv "snx.workspace_id" (show_int (pos (customer * 10) +ℤ workspace))
        ∷ kv "snx.user_id" (show_int (pos (customer * 100) +ℤ user))
        ∷ kv "snx.vkey_id" (show_int (pos (customer * 10) +ℤ vkey))
        ∷ kv "snx.agent_id" (show_int agent)
        ∷ kv "snx.provider_id" "1"
        ∷ kv "snx.model_id" (show_int (pos 1 +ℤ model))
        ∷ kv "snx.cfg_ver" "7"
        ∷ kv "snx.latency" (show_fixed latency_s)
        ∷ kv "snx.gateway_latency" (show_fixed (mul latency_s (lit 2 100)))
        ∷ kv "snx.overall_action" action
        ∷ [])

  abbrev source_ip : ℤ → ℤ → ℤ → String
  source_ip a b c = concat ("10." ∷ show_int a ∷ "." ∷ show_int b ∷ "." ∷ show_int c ∷ [])

  -- The `req.` attributes.
  unfoldable pub req_attributes : PayloadData F → String → Draw R (Attributes F)
  unfolding build_prompt
  req_attributes d model = do
    a ← randint g (pos 0) (pos 255)
    b ← randint g (pos 0) (pos 255)
    c ← randint g (pos 1) (pos 254)
    port ← randint g (pos 20000) (pos 65000)
    ua ← choice g user_agents
    dbytes ← randint g (pos 800) (pos 8000)
    reqid ← getrandbits g 64
    prompt ← build_prompt d
    return (
        kv "req.method" "POST"
        ∷ kv "req.domain" "api.anthropic.com"
        ∷ kv "req.path" "/v1/messages"
        ∷ kv "req.model" model
        ∷ kv "req.source_ip" (source_ip a b c)
        ∷ kv "req.source_port" (show_int port)
        ∷ kv "req.ua" ua
        ∷ kv "req.dbytes" (show_int dbytes)
        ∷ kv "req.an-reqid" (str_append "msg_" (show_hex 16 reqid))
        ∷ kv "req.prompt" prompt
        ∷ [])

  -- The `res.` attributes of every record.
  unfoldable pub res_attributes : ℤ → Draw R (Attributes F)
  res_attributes status = do
    dbytes ← randint g (pos 200) (pos 6000)
    sse ← random g
    tier ← choice g ("standard" ∷ "priority" ∷ "batch" ∷ [])
    return (
        kv "res.status" (show_int status)
        ∷ kv "res.dbytes" (show_int dbytes)
        ∷ kv "res.c-type" "application/json"
        ∷ kv "res.sse" (text_of (lt sse (lit 30 100)))
        ∷ kv "res.service_tier" tier
        ∷ [])

  -- `rng.randint(0, top) if rng.random() < p else 0`
  unfoldable pub sometimes : F → ℤ → Draw R ℤ
  sometimes p top = do u ← random g; (if lt u p then randint g (pos 0) top else return (pos 0))

  unfoldable pub token_attributes : ModelTraffic F → F → Draw R (Attributes F)
  unfolding sometimes
  token_attributes traffic latency_s = do
    let tin = get_default llm_input_range traffic.input_tokens
    let tout = get_default llm_output_range traffic.output_tokens
    input ← randint g tin.lowest tin.highest
    output ← randint g tout.lowest tout.highest
    creation ← sometimes (lit 25 100) (pos 2000)
    reading ← sometimes (lit 35 100) (pos 8000)
    reason ← choice g stop_reasons
    share ← uniform g (lit 1 10) (lit 4 10)
    return (
        kv "res.token_usage" (usage_json input output creation reading)
        ∷ kv "llm.stop_reason" reason
        ∷ kv "llm.ttft" (show_fixed (mul latency_s share))
        ∷ [])

  -- The attributes of a rate limit.
  unfoldable pub limit_attributes : Draw R (Attributes F)
  limit_attributes = do
    after ← uniform g (lit 1 2) (lit 30 1)
    requests ← randint g (pos 0) (pos 50)
    tokens ← randint g (pos 0) (pos 5000)
    return (
        kv "llm.retry_after" (show_fixed after)
        ∷ kv "llm.rl.limit_requests" "4000"
        ∷ kv "llm.rl.remaining_requests" (show_int requests)
        ∷ kv "res.an-rlit" "400000"
        ∷ kv "llm.rl.remaining_tokens" (show_int tokens)
        ∷ [])

  unfoldable pub fallback_attributes : Draw R (Attributes F)
  fallback_attributes = do
    u ← random g
    return (
        kv "llm.user_prompt_suppressed" "false"
        ∷ kv "llm.fallback_triggered" (text_of (lt u (lit 2 100)))
        ∷ [])

  abbrev pub error_code : ℤ → Draw R (Attributes F)
  error_code status =
      if leb_ℤ (pos 400) status
      then (do
        code ← choice g ("TIMEOUT" ∷ "NOT_FOUND" ∷ "DENIED" ∷ [])
        return (kv "mcp.tool.error_code" code ∷ []))
      else return []

  unfoldable pub mcp_attributes : ℤ → Draw R (Attributes F)
  mcp_attributes status = do
    tool ← choice g mcp_tools
    server ← choice g mcp_servers
    call_seq ← randint g (pos 1) (pos 20)
    session ← getrandbits g 48
    code ← error_code status
    return (
        (kv "mcp.tool.name" tool
          ∷ kv "mcp.server.name" server
          ∷ kv "mcp.call_seq" (show_int call_seq)
          ∷ kv "mcp.session_id" (str_append "sess_" (show_hex 12 session))
          ∷ [])
        ++ code)

  -- `if test: attrs.append(...)`
  abbrev pub given_that : Bool → Draw R (Attributes F) → Draw R (Attributes F)
  given_that test m = if test then m else return []

  -- `_build_record`
  unfoldable pub build_customer_record :
      SeverityNumbers → PayloadData F → String → ℕ → Draw R (LogRecord F)
  unfolding sample_latency_seconds snx_attributes req_attributes res_attributes token_attributes
      limit_attributes fallback_attributes mcp_attributes
  build_customer_record severities d gen_id customer = do
    u ← random g
    let is_mcp = lt u (get_default (lit 15 100) d.mcp_tool_call_ratio)
    sev_name ← weighted_choice g (or_default (("INFO", lit 1 1) ∷ []) d.severity_mix)
    status ← weighted_choice g (or_default ((pos 200, lit 1 1) ∷ []) d.http_status_mix)
    latency_s ← sample_latency_seconds d.latency
    model ← choice g (get_default ("claude-opus-5" ∷ []) d.model_traffic.models)
    snx ← snx_attributes customer latency_s
    req ← req_attributes d model
    res ← res_attributes status
    usage ← given_that (has_usage is_mcp status) (token_attributes d.model_traffic latency_s)
    limits ← given_that (eqb_ℤ status (pos 429)) limit_attributes
    fallback ← fallback_attributes
    mcp ← given_that is_mcp (mcp_attributes status)
    trace_id ← getrandbits g 128
    span_id ← getrandbits g 64
    return (record {
      time_unix_nano = 0;
      observed_time_unix_nano = 0;
      severity_number = severity_of severities sev_name;
      severity_text = sev_name;
      body = "";
      trace_id = trace_id;
      span_id = span_id;
      attributes =
          identity_attributes gen_id is_mcp
          ++ (snx ++ (req ++ (res ++ (usage ++ (limits ++ (fallback ++ mcp))))));
    })
