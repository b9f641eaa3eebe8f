-- ===== src/Generator/Payload/Build.antt =====
-- The construction of the template pool in generator/src/payload.py. The random generator and the
-- wire size of a request are arguments.
use Prim.Native.String.{◌++◌ as str_append}
use analytics_testing.Base.{all, Bool, true, false}
use analytics_testing.Base.{
  ℕ, zero, suc, ◌+◌, ◌*◌, max, String, Option, none, some, List, [], ◌∷◌, ◌++◌, length,
  if◌then◌else◌,
}
use analytics_testing.Base.Dict.{lookup}
use analytics_testing.Base.Int.{ℤ, pos, ◌+ℤ◌, scale_ℤ, leb_ℤ}
use analytics_testing.Base.Float.{Float, float_ℤ}
use analytics_testing.Base.Decimal.{show_hex}
use analytics_testing.Base.Random.{
  Random, Draw, return, ◌>>=◌, repeat, require, getrandbits, randint, choice, weighted_choice,
}
use analytics_testing.Generator.Payload.{
  AnyValue, Attributes, LogRecord, RequestTemplate, PayloadFactory, find_seq_value,
}
use analytics_testing.Generator.Payload.Data.{
  TokenRange, Price, ModelTraffic, PayloadData, get_default, or_default, or_missing,
}
use analytics_testing.Generator.Payload.Draws.{
  SeverityNumbers, severity_of, sample_latency, build_body,
}

abbrev pub input_range : TokenRange
input_range = record { lowest = pos 100; highest = pos 4000 }

abbrev pub output_range : TokenRange
output_range = record { lowest = pos 20; highest = pos 1000 }

module _ {F R : Type 0} ⦃fl : Float F⦄ (g : Random F R) (severities : SeverityNumbers) where
  open fl use {lit, add, mul, div, round_to}

  -- `(cfg.get("pricing") or {}).get(model) or {}`
  abbrev price_of : String → ModelTraffic F → Price F
  price_of model cfg =
      get_default (record { input = none; output = none }) (lookup model cfg.pricing)

  abbrev usage_attributes : String → ℤ → ℤ → F → F → Attributes F
  usage_attributes model input_tokens output_tokens request_cost response_cost =
      ("gen_ai.request.model", AnyValue.string_value model)
      ∷ ("gen_ai.usage.input_tokens", AnyValue.int_value input_tokens)
      ∷ ("gen_ai.usage.output_tokens", AnyValue.int_value output_tokens)
      ∷ ("gen_ai.usage.total_tokens", AnyValue.int_value (input_tokens +ℤ output_tokens))
      ∷ ("gen_ai.cost.request_usd", AnyValue.double_value (round_to 8 request_cost))
      ∷ ("gen_ai.cost.response_usd", AnyValue.double_value (round_to 8 response_cost))
      ∷ (
        "gen_ai.cost.total_usd",
        AnyValue.double_value (round_to 8 (add request_cost response_cost)),
      )
      ∷ []

  -- The price of so many tokens, at a rate for a million of them.
  abbrev cost_of : ℤ → Option F → F
  cost_of tokens rate = mul (div (float_ℤ tokens) (lit 1000000 1)) (get_default (lit 0 1) rate)

  -- `_model_attributes`
  unfoldable pub model_attributes : ModelTraffic F → Draw R (Attributes F)
  model_attributes cfg =
      if cfg.enabled
      then (do
        model ← choice g (or_missing ("unknown-model" ∷ []) cfg.models)
        let tin = get_default input_range cfg.input_tokens
        let tout = get_default output_range cfg.output_tokens
        input_tokens ← randint g tin.lowest tin.highest
        output_tokens ← randint g tout.lowest tout.highest
        let price = price_of model cfg
        return (
            usage_attributes model input_tokens output_tokens (cost_of input_tokens price.input)
              (cost_of output_tokens price.output)))
      else return []

  abbrev pub base_attributes : String → String → ℤ → String → String → ℕ → ℤ → Attributes F
  base_attributes gen_id service status method action request_id latency_ms =
      ("bench.seq", AnyValue.int_value (pos 0))
      ∷ ("bench.gen_id", AnyValue.string_value gen_id)
      ∷ ("http.response.status_code", AnyValue.int_value status)
      ∷ ("http.request.method", AnyValue.string_value method)
      ∷ (
        "http.route",
        AnyValue.string_value (str_append "/v1/" (str_append service (str_append "/" action))),
      )
      ∷ ("request.id", AnyValue.string_value (show_hex 16 request_id))
      ∷ ("duration_ms", AnyValue.int_value latency_ms)
      ∷ ("error", AnyValue.bool_value (leb_ℤ (pos 400) status))
      ∷ []

  -- `_build_record`
  unfoldable pub build_record : PayloadData F → String → String → Draw R (LogRecord F)
  unfolding model_attributes
  build_record data_ gen_id service = do
    sev_name ← weighted_choice g (or_default (("INFO", lit 1 1) ∷ []) data_.severity_mix)
    status ← weighted_choice g (or_default ((pos 200, lit 1 1) ∷ []) data_.http_status_mix)
    latency_ms ← sample_latency g data_.latency
    method ← choice g ("GET" ∷ "POST" ∷ "PUT" ∷ "DELETE" ∷ [])
    action ← choice g ("items" ∷ "query" ∷ "batch" ∷ [])
    request_id ← getrandbits g 64
    model ← model_attributes data_.model_traffic
    body ← build_body g data_
    trace_id ← getrandbits g 128
    span_id ← getrandbits g 64
    return (record {
      time_unix_nano = 0;
      observed_time_unix_nano = 0;
      severity_number = severity_of severities sev_name;
      severity_text = sev_name;
      body = body;
      trace_id = trace_id;
      span_id = span_id;
      attributes =
          base_attributes gen_id service status method action request_id latency_ms ++ model;
    })

  -- `_find_seq_value` does not raise.
  abbrev pub has_handle : LogRecord F → Bool
  has_handle r = elim (find_seq_value r.attributes) [ none ↦ false | some _ ↦ true ]

  abbrev resource_of : PayloadData F → String → String → String → String → Attributes F
  resource_of data_ gen_id service environment region =
      ("service.name", AnyValue.string_value service)
      ∷ ("deployment.environment", AnyValue.string_value environment)
      ∷ ("cloud.region", AnyValue.string_value region)
      ∷ ("tenant.id", AnyValue.string_value (get_default "testing-tenant" data_.tenant_id))
      ∷ ("workspace.id", AnyValue.string_value (get_default "testing-workspace" data_.workspace_id))
      ∷ ("bench.gen_id", AnyValue.string_value gen_id)
      ∷ []

  module _ (byte_size : Attributes F → List (LogRecord F) → ℕ) where
    -- `_build_template`; `byte_size` is the `ByteSize()` of the request.
    unfoldable pub build_template : PayloadData F → String → ℕ → Draw R (RequestTemplate F)
    unfolding build_record find_seq_value
    build_template data_ gen_id batch_size = do
      service ← choice g (or_default ("service" ∷ []) data_.service_names)
      environment ← choice g (or_default ("prod" ∷ []) data_.environments)
      region ← choice g (or_default ("us-west-2" ∷ []) data_.regions)
      let resource = resource_of data_ gen_id service environment region
      live ← repeat batch_size (build_record data_ gen_id service)
      found ← require (all has_handle live)
      return (record {
        resource = resource;
        records = live;
        record_count = length live;
        approx_bytes = byte_size resource live;
      })

    -- `random.Random(self.seed * 1_000_003 + i)`
    abbrev pub stream : PayloadData F → ℕ → R
    stream data_ i = g.seeded (scale_ℤ 1000003 (get_default (pos 42) data_.seed) +ℤ pos i)

    abbrev pub cons_template :
        Option (RequestTemplate F × R)
        → Option (List (RequestTemplate F))
        → Option (List (RequestTemplate F))
    cons_template (some (t, r)) (some ts) = some (t ∷ ts)
    cons_template _ _ = none

    -- The loop of `_build_pool` from index `i`; `none` is an exception.
    unfoldable pub build_pool :
        PayloadData F → String → ℕ → ℕ → ℕ → Option (List (RequestTemplate F))
    unfolding build_template
    build_pool data_ gen_id batch_size i zero = some []
    build_pool data_ gen_id batch_size i (suc n) =
        cons_template (build_template data_ gen_id batch_size (stream data_ i))
          (build_pool data_ gen_id batch_size (i + 1) n)

    abbrev pub factory_of :
        String → ℕ → ℕ → ℕ → Option (List (RequestTemplate F)) → Option (PayloadFactory F)
    factory_of gen_id batch_size w v none = none
    factory_of gen_id batch_size w v (some templates) = some (record {
      gen_id = gen_id;
      batch_size = batch_size;
      workers = w;
      variants_per_worker = v;
      templates = templates;
    })

    -- `PayloadFactory.__init__`
    unfoldable pub payload_factory : PayloadData F → String → ℕ → ℕ → ℕ → Option (PayloadFactory F)
    unfolding build_pool
    payload_factory data_ gen_id batch_size workers variants =
        let w = max 1 workers in
        let v = max 1 variants in
        factory_of gen_id batch_size w v (build_pool data_ gen_id batch_size 0 (w * v))
