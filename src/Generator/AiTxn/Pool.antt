-- ===== src/Generator/AiTxn/Pool.antt =====
-- The construction of the template pool in generator/src/payload_ai_txn.py: one customer a template,
-- in turn. The random generator and the wire size of a request are arguments.
pub mod Coverage
use analytics_testing.Base.{all, Bool, true, false}
use analytics_testing.Base.{
  ℕ, zero, suc, ◌+◌, ◌*◌, ◌%◌, max, String, Option, none, some, List, [], ◌∷◌, length,
}
use analytics_testing.Base.Int.{pos, ◌+ℤ◌, scale_ℤ}
use analytics_testing.Base.Float.{Float}
use analytics_testing.Base.Decimal.{show_nat}
use analytics_testing.Base.Random.{Random, Draw, return, ◌>>=◌, repeat, require, choice}
use analytics_testing.Generator.Payload.{Attributes, LogRecord}
use analytics_testing.Generator.Payload.Data.{PayloadData, get_default, or_default}
use analytics_testing.Generator.Payload.Draws.{SeverityNumbers}
use analytics_testing.Generator.AiTxn.{find_seq_values, CustomerTemplate, AiTxnPayloadFactory}
use analytics_testing.Generator.AiTxn.Build.{kv, build_customer_record}

module _ {F R : Type 0} ⦃fl : Float F⦄ (g : Random F R) (show_fixed : F → String)
    (severities : SeverityNumbers) (byte_size : Attributes F → List (LogRecord F) → ℕ) where
  abbrev pub customer_resource : String → ℕ → String → Attributes F
  customer_resource gen_id customer_id region =
      kv "customer_id" (show_nat customer_id)
      ∷ kv "tenant_id" (show_nat customer_id)
      ∷ kv "sgwe_id" (show_nat (customer_id % 8 + 1))
      ∷ kv "cloud.region" region
      ∷ kv "service.name" "sentrinox-gateway-prod"
      ∷ kv "bench.gen_id" gen_id
      ∷ []

  -- `_find_seq_value` does not raise.
  abbrev pub has_handles : LogRecord F → Bool
  has_handles r = elim (find_seq_values r.attributes) [ none ↦ false | some _ ↦ true ]

  -- `_build_template`; `byte_size` is the `ByteSize()` of the request.
  unfoldable pub build_customer_template :
      PayloadData F → String → ℕ → ℕ → Draw R (CustomerTemplate F)
  unfolding build_customer_record find_seq_values
  build_customer_template d gen_id batch_size customer_id = do
    region ← choice g (or_default ("us-west-2" ∷ []) d.regions)
    let resource = customer_resource gen_id customer_id region
    live ← repeat batch_size (build_customer_record g show_fixed severities d gen_id customer_id)
    found ← require (all has_handles live)
    return (record {
      resource = resource;
      records = live;
      record_count = length live;
      approx_bytes = byte_size resource live;
      customer_id = customer_id;
    })

  -- `(i % self.customers) + 1`
  abbrev pub customer_of : ℕ → ℕ → ℕ
  customer_of customers i = i % customers + 1

  abbrev pub customer_stream : PayloadData F → ℕ → R
  customer_stream d i = g.seeded (scale_ℤ 1000003 (get_default (pos 42) d.seed) +ℤ pos i)

  abbrev pub cons_customer :
      Option (CustomerTemplate F × R)
      → Option (List (CustomerTemplate F))
      → Option (List (CustomerTemplate F))
  cons_customer (some (t, r)) (some ts) = some (t ∷ ts)
  cons_customer _ _ = none

  -- The loop of `_build_pool` from index `i`; `none` is an exception.
  unfoldable pub build_customer_pool :
      PayloadData F → String → ℕ → ℕ → ℕ → ℕ → Option (List (CustomerTemplate F))
  unfolding build_customer_template
  build_customer_pool d gen_id batch_size customers i zero = some []
  build_customer_pool d gen_id batch_size customers i (suc n) =
      cons_customer
        (build_customer_template d gen_id batch_size (customer_of customers i)
          (customer_stream d i))
        (build_customer_pool d gen_id batch_size customers (i + 1) n)

  abbrev pub ai_txn_of :
      String → ℕ → ℕ → ℕ → ℕ → Option (List (CustomerTemplate F)) → Option (AiTxnPayloadFactory F)
  ai_txn_of gen_id batch_size w v c none = none
  ai_txn_of gen_id batch_size w v c (some templates) = some (record {
    gen_id = gen_id;
    batch_size = batch_size;
    workers = w;
    variants_per_worker = v;
    customers = c;
    templates = templates;
  })

  -- `AiTxnPayloadFactory.__init__`
  unfoldable pub ai_txn_factory :
      PayloadData F → String → ℕ → ℕ → ℕ → ℕ → Option (AiTxnPayloadFactory F)
  unfolding build_customer_pool
  ai_txn_factory d gen_id batch_size workers variants customers =
      let w = max 1 workers in
      let v = max 1 variants in
      let c = max 1 customers in
      ai_txn_of gen_id batch_size w v c (build_customer_pool d gen_id batch_size c 0 (w * v))
