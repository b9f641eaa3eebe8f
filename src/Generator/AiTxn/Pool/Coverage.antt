-- ===== src/Generator/AiTxn/Pool/Coverage.antt =====
-- Which customers the pool of generator/src/payload_ai_txn.py reaches.
use analytics_testing.Base.{all, true}
use analytics_testing.Base.{
  ℕ, zero, suc, ◌+◌, ◌*◌, ◌%◌, ◌≤◌, ◌<◌, max, ◌≡◌, refl, ap, ap₂, subst, ◌↔◌, String, none, some,
  List, [], ◌∷◌, length, get_elem?, get_elem?-found, get_elem?-lt, All, arith,
}
use native.Mathlib.Nat.{mod-eq_of_lt, mod-le}
use analytics_testing.Base.Dict.{lookup}
use analytics_testing.Base.Float.{Float}
use analytics_testing.Base.Decimal.{show_nat}
use analytics_testing.Base.Random.{
  Random, IsRandom, Always, require-Returns, Always-return, Always-bind, Always-repeat,
}
use analytics_testing.Generator.Payload.{AnyValue, Attributes, LogRecord}
use analytics_testing.Generator.Payload.Stamping.{seqs_from}
use analytics_testing.Generator.Payload.Data.{PayloadData}
use analytics_testing.Generator.Payload.Draws.{SeverityNumbers}
use analytics_testing.Generator.Payload.Returns.{choice-Returns, or_default-nonempty}
use analytics_testing.Generator.AiTxn.{CustomerTemplate, AiTxnPayloadFactory, coverage_warning}
use analytics_testing.Generator.AiTxn.Records.{
  IsCustomerRecord, IsAiTxnData, build_customer_record-IsCustomerRecord,
}
use analytics_testing.Generator.AiTxn.Pool.{
  customer_stream, has_handles, build_customer_template, cons_customer, build_customer_pool,
  ai_txn_of, ai_txn_factory,
}

module _ {F : Type 0} where
  -- The templates carry the customers in turn.
  pub record IsRoundRobin (f : AiTxnPayloadFactory F) : Type 0 where
    pub size : length f.templates ≡ f.workers * f.variants_per_worker
    pub any_customer : 0 < f.customers
    pub in_turn :
        (i : ℕ) (t : CustomerTemplate F)
        → get_elem? f.templates i ≡ some t
        → t.customer_id ≡ i % f.customers + 1

  -- Some template of the pool feeds the customer.
  abbrev pub IsFed : AiTxnPayloadFactory F → ℕ → Type 0
  IsFed f c =
      (i : ℕ) × (t : CustomerTemplate F) × (get_elem? f.templates i ≡ some t) × (t.customer_id ≡ c)

  enough :
      (f : AiTxnPayloadFactory F)
      → coverage_warning f ≡ none
      → f.customers ≤ f.workers * f.variants_per_worker
  unfolding coverage_warning
  enough f h = ground arith

  no_warning :
      (f : AiTxnPayloadFactory F)
      → f.customers ≤ f.workers * f.variants_per_worker
      → coverage_warning f ≡ none
  unfolding coverage_warning
  no_warning f h = ground arith

  all-IsFed :
      (f : AiTxnPayloadFactory F)
      → IsRoundRobin f
      → f.customers ≤ f.workers * f.variants_per_worker
      → (k n : ℕ) → k + n ≤ f.customers
      → All (IsFed f) (seqs_from (k + 1) n)
  all-IsFed f h e k zero r = tt
  all-IsFed f h e k (suc n) r =
      let size = h.size in
      let (t, found) = get_elem?-found f.templates k (omega (arith, size, e, r)) in
      let turn : t.customer_id ≡ k % f.customers + 1 = h.in_turn k t found in
      let small : k % f.customers ≡ k = mod-eq_of_lt (omega (arith, r)) in
      ((k, t, found, omega (arith, turn, small)), all-IsFed f h e (k + 1) n (omega (arith, r)))

  last-IsFed :
      (f : AiTxnPayloadFactory F) (k n : ℕ)
      → All (IsFed f) (seqs_from (k + 1) (suc n))
      → IsFed f (k + suc n)
  last-IsFed f k zero h = h.0
  last-IsFed f k (suc n) h =
      let e : k + 1 + suc n ≡ k + suc (suc n) = omega arith in
      subst (IsFed f) e (last-IsFed f (k + 1) n h.1)

  highest-IsFed :
      (f : AiTxnPayloadFactory F) (c : ℕ) → 0 < c → All (IsFed f) (seqs_from 1 c) → IsFed f c
  highest-IsFed f zero r h = absurd (omega (arith, r))
  highest-IsFed f (suc n) r h =
      let e : 0 + suc n ≡ suc n = omega arith in subst (IsFed f) e (last-IsFed f 0 n h)

  fed_enough :
      (f : AiTxnPayloadFactory F)
      → IsRoundRobin f
      → IsFed f f.customers
      → f.customers ≤ f.workers * f.variants_per_worker
  fed_enough f h (i, t, found, e) =
      let turn = h.in_turn i t found in
      let inside = get_elem?-lt f.templates i t found in
      let size = h.size in
      let small : i % f.customers ≤ i = mod-le i f.customers in
      omega (arith, turn, inside, size, small, e)

  -- `coverage_warning` is silent exactly when each of the customers 1, 2, ... that are configured has a
  -- template in the pool, if the templates carry the customers in turn.
  pub coverage_warning_iff :
      (f : AiTxnPayloadFactory F)
      → IsRoundRobin f
      → (coverage_warning f ≡ none) ↔ All (IsFed f) (seqs_from 1 f.customers)
  coverage_warning_iff f h = (
    λ e. all-IsFed f h (enough f e) 0 f.customers (omega arith),
    λ fed. no_warning f (fed_enough f h (highest-IsFed f f.customers h.any_customer fed)),
  )

module _ {F R : Type 0} ⦃fl : Float F⦄ (g : Random F R) (laws : IsRandom F R g)
    (show_fixed : F → String) (severities : SeverityNumbers)
    (byte_size : Attributes F → List (LogRecord F) → ℕ) where
  -- A template of a customer, with a batch of records.
  abbrev pub IsCustomerTemplate : String → ℕ → ℕ → CustomerTemplate F → Type 0
  IsCustomerTemplate gen_id b c t =
      (t.customer_id ≡ c)
      × (lookup "customer_id" t.resource ≡ some (AnyValue.string_value (show_nat c)))
      × (length t.records ≡ b)
      × (t.record_count ≡ b)
      × All (IsCustomerRecord gen_id) t.records

  all-has_handles :
      (gen_id : String) (rs : List (LogRecord F))
      → All (IsCustomerRecord gen_id) rs
      → all (has_handles g show_fixed severities byte_size) rs ≡ true
  all-has_handles gen_id [] h = refl
  all-has_handles gen_id (r ∷ rs) h =
      let (_, _, _, _, _, _, _, found) = h.0 in ground (arith, all-has_handles gen_id rs h.1, found)

  build_customer_template-IsCustomerTemplate :
      (d : PayloadData F) (gen_id : String) (b c : ℕ)
      → IsAiTxnData d
      → Always
          (IsCustomerTemplate gen_id b c)
          (build_customer_template g show_fixed severities byte_size d gen_id b c)
  unfolding build_customer_template
  build_customer_template-IsCustomerTemplate d gen_id b c h =
      Always-bind (choice-Returns g laws severities _ (or_default-nonempty _ d.regions)) λ region _.
        Always-bind
          (Always-repeat b
            (build_customer_record-IsCustomerRecord g laws show_fixed severities d gen_id c h))
          λ live q.
            Always-bind (require-Returns _ (all-has_handles gen_id live q.1))
              λ _ _. Always-return _ (refl, refl, q.0, q.0, q.1)

  -- The templates from index `i` on carry their customers.
  abbrev InTurn : String → ℕ → ℕ → ℕ → List (CustomerTemplate F) → Type 0
  InTurn gen_id b c i [] = Unit
  InTurn gen_id b c i (t ∷ ts) =
      IsCustomerTemplate gen_id b (i % c + 1) t × InTurn gen_id b c (i + 1) ts

  -- A batch of records from which a row of the lake is found again.
  abbrev pub IsFull : String → ℕ → CustomerTemplate F → Type 0
  IsFull gen_id b t = (length t.records ≡ b) × All (IsCustomerRecord gen_id) t.records

  InTurn-IsFull :
      (gen_id : String) (b c i : ℕ) (ts : List (CustomerTemplate F))
      → InTurn gen_id b c i ts
      → All (IsFull gen_id b) ts
  InTurn-IsFull gen_id b c i [] h = tt
  InTurn-IsFull gen_id b c i (t ∷ ts) h =
      let (_, _, size, _, all) = h.0 in ((size, all), InTurn-IsFull gen_id b c (i + 1) ts h.1)

  InTurn-get :
      (gen_id : String) (b c i k : ℕ) (ts : List (CustomerTemplate F)) (t : CustomerTemplate F)
      → InTurn gen_id b c i ts
      → get_elem? ts k ≡ some t
      → IsCustomerTemplate gen_id b ((i + k) % c + 1) t
  InTurn-get gen_id b c i k [] t h e = cc e
  InTurn-get gen_id b c i zero (u ∷ ts) t h e =
      let same : u ≡ t = cc e in
      let start : i ≡ i + 0 = omega arith in
      subst (λ j. IsCustomerTemplate gen_id b (j % c + 1) t) start
        (subst (IsCustomerTemplate gen_id b (i % c + 1)) same h.0)
  InTurn-get gen_id b c i (suc k) (u ∷ ts) t h e =
      let next : i + 1 + k ≡ i + suc k = omega arith in
      subst (λ j. IsCustomerTemplate gen_id b (j % c + 1) t) next
        (InTurn-get gen_id b c (i + 1) k ts t h.1 e)

  module _ (d : PayloadData F) (gen_id : String) (b : ℕ) (h : IsAiTxnData d) where
    build_customer_pool-InTurn :
        (c i n : ℕ)
        → (ts : List (CustomerTemplate F)) × (build_customer_pool g show_fixed severities byte_size
              d gen_id b c i n
            ≡ some ts)
          × (length ts ≡ n)
          × InTurn gen_id b c i ts
    unfolding build_customer_pool
    build_customer_pool-InTurn c i zero = ([], refl, refl, tt)
    build_customer_pool-InTurn c i (suc n) =
        let (t, r, e, q) =
          build_customer_template-IsCustomerTemplate d gen_id b (i % c + 1) h
            (customer_stream g show_fixed severities byte_size d i) in
        let (ts, e', size, turn) = build_customer_pool-InTurn c (i + 1) n in
        (t ∷ ts, ap₂ (cons_customer g show_fixed severities byte_size) e e', ap suc size, (q, turn))

    -- The constructor never raises, and the factory that it makes has a template for each variant of
    -- each worker, which carry the customers 1, 2, ... in turn and have `batch_size` records with the
    -- generator's id, both sequence fields, a `log_type` and token usage where it is due, if the weights
    -- are usable (none negative, one positive, their sum finite), some model is given and no token
    -- range is reversed.
    pub ai_txn_factory-IsRoundRobin :
        (workers variants customers : ℕ)
        → (f : AiTxnPayloadFactory F) × (ai_txn_factory g show_fixed severities byte_size d gen_id b
              workers variants customers
            ≡ some f)
          × IsRoundRobin f
          × All (IsFull gen_id b) f.templates
    unfolding ai_txn_factory
    ai_txn_factory-IsRoundRobin workers variants customers =
        let w = max 1 workers in
        let v = max 1 variants in
        let c = max 1 customers in
        let (ts, e, size, turn) = build_customer_pool-InTurn c 0 (w * v) in
        (
          record {
            gen_id = gen_id;
            batch_size = b;
            workers = w;
            variants_per_worker = v;
            customers = c;
            templates = ts;
          },
          ap (ai_txn_of g show_fixed severities byte_size gen_id b w v c) e,
          record {
            size = size;
            any_customer = omega arith;
            in_turn = λ i t found.
                let start : 0 + i ≡ i = omega arith in
                subst (λ j. t.customer_id ≡ j % c + 1) start
                  (InTurn-get gen_id b c 0 i ts t turn found).0;
          },
          InTurn-IsFull gen_id b c 0 ts turn,
        )
