-- ===== src/Generator/AiTxn/Records.antt =====
-- What the records that generator/src/payload_ai_txn.py builds hold.
use analytics_testing.Base.{
  ℕ, ◌<◌, ◌≤◌, ◌≡◌, refl, ap, ◌∙◌, Bool, true, false, ◌||◌, String, none, some, List, [], ◌∷◌, ◌++◌,
  length, map, if◌then◌else◌, arith,
}
use analytics_testing.Base.Dict.{lookup, contains}
use analytics_testing.Base.Int.{ℤ, pos, leb_ℤ, eqb_ℤ}
use analytics_testing.Base.Float.{Float}
use analytics_testing.Base.Decimal.{show_int}
use analytics_testing.Base.Random.{
  Random, IsRandom, IsWeights, Draw, randint, Always, Returns, Always-return, Always-bind,
  Always-imp, Always-if, Always-randint, Always-getrandbits, random-Returns, uniform-Returns,
}
use analytics_testing.Generator.Payload.{AnyValue, Attributes, LogRecord}
use analytics_testing.Generator.Payload.Data.{
  Latencies, PayloadData, ModelTraffic, get_default, or_default,
}
use analytics_testing.Generator.Payload.Draws.{SeverityNumbers}
use analytics_testing.Generator.Payload.Returns.{
  IsTokenRange, weighted_choice-Returns, choice-Returns, draw_latency-Returns, pad_body-Returns,
}
use analytics_testing.Generator.AiTxn.Stamping.{HasSequence, find_seq_values-ne-none}
use analytics_testing.Generator.AiTxn.{find_seq_values}
use analytics_testing.Base.{◌≢◌}
use analytics_testing.Generator.AiTxn.Build.{
  llm_input_range, llm_output_range, stop_reasons, user_agents, mcp_tools, mcp_servers, has_usage,
  sample_latency_seconds, build_prompt, identity_attributes, snx_attributes, req_attributes,
  res_attributes, sometimes, token_attributes, limit_attributes, fallback_attributes, error_code,
  mcp_attributes, given_that, build_customer_record,
}

module _ {V : Type 0} where
  lookup-append-none :
      (k : String) (a b : List (String × V)) → lookup k a ≡ none → lookup k (a ++ b) ≡ lookup k b
  lookup-append-none k [] b h = refl
  lookup-append-none k ((j, v) ∷ a) b h = ground (arith, lookup-append-none k a b)

  lookup-append-some :
      (k : String) (v : V) (a b : List (String × V))
      → lookup k a ≡ some v
      → lookup k (a ++ b) ≡ some v
  lookup-append-some k v [] b h = cc h
  lookup-append-some k v ((j, w) ∷ a) b h = ground (arith, lookup-append-some k v a b)

  contains-append :
      (k : String) (a b : List (String × V)) → contains k (a ++ b) ≡ (contains k a || contains k b)
  contains-append k [] b = refl
  contains-append k ((j, w) ∷ a) b = ground (arith, contains-append k a b)

  contains-append-none :
      (k : String) (a b : List (String × V))
      → lookup k a ≡ none
      → contains k (a ++ b) ≡ contains k b
  contains-append-none k a b h =
      ap (λ o. elim o [ none ↦ false | some _ ↦ true ]) (lookup-append-none k a b h)

module _ {F : Type 0} where
  -- Neither of the two keys is there.
  abbrev IsQuiet : Attributes F → Type 0
  IsQuiet xs = (lookup "res.token_usage" xs ≡ none) × (lookup "res.status" xs ≡ none)

  -- The tokens are there if the test holds.
  abbrev IsUsage : Bool → Attributes F → Type 0
  IsUsage test xs = (contains "res.token_usage" xs ≡ test) × (lookup "res.status" xs ≡ none)

  abbrev IsAnswer : ℤ → Attributes F → Type 0
  IsAnswer status xs =
      (lookup "res.token_usage" xs ≡ none)
      × (lookup "res.status" xs ≡ some (AnyValue.string_value (show_int status)))

  abbrev pub IsCustomerRecord : String → LogRecord F → Type 0
  IsCustomerRecord gen_id r =
      (is_mcp : Bool) × (status : ℤ) × (lookup "log_type" r.attributes
        ≡ some (AnyValue.string_value (if is_mcp then "mcp_tool_call" else "http")))
      × (lookup "res.status" r.attributes ≡ some (AnyValue.string_value (show_int status)))
      × (contains "res.token_usage" r.attributes ≡ has_usage is_mcp status)
      × (lookup "bench.gen_id" r.attributes ≡ some (AnyValue.string_value gen_id))
      × HasSequence r
      × (find_seq_values r.attributes ≢ none)

module _ {F : Type 0} ⦃fl : Float F⦄ where
  open fl use {lit}

  -- The settings from which no draw raises.
  pub record IsAiTxnData (d : PayloadData F) : Type 0 where
    pub severities : IsWeights (map (λ p. p.1) (or_default (("INFO", lit 1 1) ∷ []) d.severity_mix))
    pub statuses :
        IsWeights (map (λ p. p.1) (or_default ((pos 200, lit 1 1) ∷ []) d.http_status_mix))
    pub actions : IsWeights (lit 94 100 ∷ lit 5 100 ∷ lit 1 100 ∷ [])
    pub models : 0 < length (get_default ("claude-opus-5" ∷ []) d.model_traffic.models)
    pub input_tokens : IsTokenRange (get_default llm_input_range d.model_traffic.input_tokens)
    pub output_tokens : IsTokenRange (get_default llm_output_range d.model_traffic.output_tokens)

module _ {F R : Type 0} ⦃fl : Float F⦄ (g : Random F R) (laws : IsRandom F R g)
    (show_fixed : F → String) (severities : SeverityNumbers) where
  open fl use {lit, lt}

  between : (a b : ℕ) → a ≤ b → Returns (randint g (pos a) (pos b))
  between a b h = Always-imp (λ _ _. tt) (Always-randint g laws (pos a) (pos b) (omega (arith, h)))

  snx_attributes-IsQuiet :
      (customer : ℕ) (latency : F)
      → IsWeights (lit 94 100 ∷ lit 5 100 ∷ lit 1 100 ∷ [])
      → Always IsQuiet (snx_attributes g show_fixed customer latency)
  unfolding snx_attributes
  snx_attributes-IsQuiet customer latency h = Always-bind (between 1 3 (omega arith)) λ workspace _.
      Always-bind (between 1 50 (omega arith)) λ user _.
        Always-bind (between 1 5 (omega arith)) λ vkey _.
          Always-bind (between 1 12 (omega arith)) λ agent _.
            Always-bind (between 0 2 (omega arith)) λ model _.
              Always-bind (weighted_choice-Returns g laws severities (_ ∷ _ ∷ _ ∷ []) h)
                λ action _. Always-return _ (refl, refl)

  req_attributes-IsQuiet :
      (d : PayloadData F) (model : String) → Always IsQuiet (req_attributes g show_fixed d model)
  unfolding req_attributes build_prompt
  req_attributes-IsQuiet d model = Always-bind (between 0 255 (omega arith)) λ a _.
      Always-bind (between 0 255 (omega arith)) λ b _.
        Always-bind (between 1 254 (omega arith)) λ c _.
          Always-bind (between 20000 65000 (omega arith)) λ port _.
            Always-bind (choice-Returns g laws severities user_agents (omega arith)) λ ua _.
              Always-bind (between 800 8000 (omega arith)) λ dbytes _.
                Always-bind (Always-getrandbits g laws 64) λ reqid _.
                  Always-bind (pad_body-Returns g laws severities _ _)
                    λ prompt _. Always-return _ (refl, refl)

  res_attributes-IsAnswer :
      (status : ℤ) → Always (IsAnswer status) (res_attributes g show_fixed status)
  unfolding res_attributes
  res_attributes-IsAnswer status = Always-bind (between 200 6000 (omega arith)) λ dbytes _.
      Always-bind (random-Returns g laws) λ sse _.
        Always-bind (choice-Returns g laws severities _ (omega arith))
          λ tier _. Always-return _ (refl, refl)

  sometimes-Returns : (p : F) (top : ℕ) → Returns (sometimes g show_fixed p (pos top))
  unfolding sometimes
  sometimes-Returns p top =
      Always-bind (random-Returns g laws)
        λ u _. Always-if _ (between 0 top (omega arith)) (Always-return (pos 0) tt)

  token_attributes-IsUsage :
      (traffic : ModelTraffic F) (latency : F)
      → IsTokenRange (get_default llm_input_range traffic.input_tokens)
      → IsTokenRange (get_default llm_output_range traffic.output_tokens)
      → Always (IsUsage true) (token_attributes g show_fixed traffic latency)
  unfolding token_attributes
  token_attributes-IsUsage traffic latency hi ho =
      Always-bind (Always-randint g laws _ _ hi) λ input _.
        Always-bind (Always-randint g laws _ _ ho) λ output _.
          Always-bind (sometimes-Returns (lit 25 100) 2000) λ creation _.
            Always-bind (sometimes-Returns (lit 35 100) 8000) λ reading _.
              Always-bind (choice-Returns g laws severities stop_reasons (omega arith)) λ reason _.
                Always-bind (uniform-Returns g laws _ _) λ share _. Always-return _ (refl, refl)

  limit_attributes-IsQuiet : Always IsQuiet (limit_attributes g show_fixed)
  unfolding limit_attributes
  limit_attributes-IsQuiet = Always-bind (uniform-Returns g laws _ _) λ after _.
      Always-bind (between 0 50 (omega arith)) λ requests _.
        Always-bind (between 0 5000 (omega arith)) λ tokens _. Always-return _ (refl, refl)

  fallback_attributes-IsQuiet : Always IsQuiet (fallback_attributes g show_fixed)
  unfolding fallback_attributes
  fallback_attributes-IsQuiet =
      Always-bind (random-Returns g laws) λ u _. Always-return _ (refl, refl)

  error_code-IsQuiet : (status : ℤ) → Always IsQuiet (error_code g show_fixed status)
  error_code-IsQuiet status =
      Always-if (leb_ℤ (pos 400) status)
        (Always-bind (choice-Returns g laws severities _ (omega arith))
          λ code _. Always-return _ (refl, refl))
        (Always-return [] (refl, refl))

  mcp_attributes-IsQuiet : (status : ℤ) → Always IsQuiet (mcp_attributes g show_fixed status)
  unfolding mcp_attributes
  mcp_attributes-IsQuiet status =
      Always-bind (choice-Returns g laws severities mcp_tools (omega arith)) λ tool _.
        Always-bind (choice-Returns g laws severities mcp_servers (omega arith)) λ server _.
          Always-bind (between 1 20 (omega arith)) λ call_seq _.
            Always-bind (Always-getrandbits g laws 48)
              λ session _. Always-bind (error_code-IsQuiet status) λ code q. Always-return _ q

  given_that-IsQuiet :
      {m : Draw R (Attributes F)} (test : Bool)
      → Always IsQuiet m
      → Always IsQuiet (given_that g show_fixed test m)
  given_that-IsQuiet test h = Always-if test h (Always-return [] (refl, refl))

  given_that-IsUsage :
      {m : Draw R (Attributes F)} (test : Bool)
      → Always (IsUsage true) m
      → Always (IsUsage test) (given_that g show_fixed test m)
  given_that-IsUsage true h = h
  given_that-IsUsage false h = Always-return [] (refl, refl)

  sample_latency_seconds-Returns :
      (spec : Latencies F) → Returns (sample_latency_seconds g show_fixed spec)
  unfolding sample_latency_seconds
  sample_latency_seconds-Returns spec =
      Always-bind (draw_latency-Returns g laws severities _ _ _ _) λ ms _. Always-return _ tt

  -- The three groups that hold the keys, among the quiet ones.
  assembled :
      (gen_id : String) (is_mcp test : Bool) (status : ℤ)
      (snx req res usage limits fallback mcp : Attributes F)
      → IsQuiet snx
      → IsQuiet req
      → IsAnswer status res
      → IsUsage test usage
      → IsQuiet limits
      → IsQuiet fallback
      → IsQuiet mcp
      → let xs =
          identity_attributes g show_fixed gen_id is_mcp
          ++ (snx ++ (req ++ (res ++ (usage ++ (limits ++ (fallback ++ mcp)))))) in
        (lookup "res.status" xs ≡ some (AnyValue.string_value (show_int status)))
        × (contains "res.token_usage" xs ≡ test)
  assembled gen_id is_mcp test status snx req res usage limits fallback mcp hs hr ha hu hl hf hm =
      let key : String = "res.token_usage" in
      let last = limits ++ (fallback ++ mcp) in
      let tail : contains key last ≡ false =
        contains-append-none key limits (fallback ++ mcp) hl.0
        ∙ contains-append-none key fallback mcp hf.0
        ∙ ap (λ o. elim o [ none ↦ false | some _ ↦ true ]) hm.0 in
      (
        lookup-append-none "res.status" snx _ hs.1
            ∙ lookup-append-none "res.status" req _ hr.1
            ∙ lookup-append-some "res.status" _ res _ ha.1,
        contains-append-none key snx _ hs.0
            ∙ contains-append-none key req _ hr.0
            ∙ contains-append-none key res _ ha.0
            ∙ contains-append key usage last
            ∙ either (contains key usage) (contains key last) test hu.0 tail,
      )
    where
      either : (a b t : Bool) → a ≡ t → b ≡ false → (a || b) ≡ t
      either a b t h k = ground (arith, h, k)

  -- `_build_record` never raises, and returns a record with the generator's id, both sequence fields,
  -- a `log_type` that is `http` or `mcp_tool_call`, its status, and token usage exactly for an http
  -- record with a status of 200 to 299, if the weights are usable (none negative, one positive, their
  -- sum finite), some model is given and no token range is reversed.
  pub build_customer_record-IsCustomerRecord :
      (d : PayloadData F) (gen_id : String) (customer : ℕ)
      → IsAiTxnData d
      → Always
          (IsCustomerRecord gen_id)
          (build_customer_record g show_fixed severities d gen_id customer)
  unfolding build_customer_record
  build_customer_record-IsCustomerRecord d gen_id customer h =
      Always-bind (random-Returns g laws) λ u _.
        let is_mcp = lt u (get_default (lit 15 100) d.mcp_tool_call_ratio) in
        Always-bind (weighted_choice-Returns g laws severities _ h.severities) λ sev _.
          Always-bind (weighted_choice-Returns g laws severities _ h.statuses) λ status _.
            Always-bind (sample_latency_seconds-Returns d.latency) λ latency _.
              Always-bind (choice-Returns g laws severities _ h.models) λ model _.
                Always-bind (snx_attributes-IsQuiet customer latency h.actions) λ snx hs.
                  Always-bind (req_attributes-IsQuiet d model) λ req hr.
                    Always-bind (res_attributes-IsAnswer status) λ res ha.
                      Always-bind
                        (given_that-IsUsage (has_usage is_mcp status) (
                          token_attributes-IsUsage d.model_traffic latency h.input_tokens
                            h.output_tokens))
                        λ usage hu.
                          Always-bind
                            (given_that-IsQuiet (eqb_ℤ status (pos 429)) limit_attributes-IsQuiet)
                            λ limits hl. Always-bind fallback_attributes-IsQuiet λ fallback hf.
                              Always-bind
                                (given_that-IsQuiet is_mcp (mcp_attributes-IsQuiet status))
                                λ mcp hm. Always-bind (Always-getrandbits g laws 128) λ trace_id _.
                                  Always-bind (Always-getrandbits g laws 64) λ span_id _.
                                    let (answer, tokens) =
                                      assembled gen_id is_mcp (has_usage is_mcp status) status snx
                                        req res usage limits fallback mcp hs hr ha hu hl hf hm in
                                    Always-return _ (
                                      is_mcp,
                                      status,
                                      refl,
                                      answer,
                                      tokens,
                                      refl,
                                      (refl, refl),
                                      find_seq_values-ne-none (AnyValue.string_value "0")
                                          (AnyValue.string_value gen_id)
                                          (AnyValue.string_value
                                            (if is_mcp then "mcp_tool_call" else "http"))
                                          (AnyValue.string_value "0")
                                          (snx
                                            ++ (req
                                                ++ (res
                                                    ++ (usage ++ (limits ++ (fallback ++ mcp)))))),
                                    )
