-- ===== src/Generator/Main/Started.antt =====
-- What holds of a run that `main` of generator/src/main.py starts.
use analytics_testing.Base.{
  ◌<◌, ◌≡◌, ◌≢◌, refl, ap, sym, ◌∙◌, subst, Bool, true, false, Option, none, some, All,
  if◌then◌else◌, arith,
}
use analytics_testing.Base.Int.{ℤ, clamp_ℤ}
use analytics_testing.Base.Float.{Float}
use analytics_testing.Base.Random.{IsRandom}
use analytics_testing.Base.Options.{some-inj}
use analytics_testing.Generator.Payload.{PayloadFactory}
use analytics_testing.Generator.Payload.Stamping.{seqs_from}
use analytics_testing.Generator.AiTxn.{
  AiTxnPayloadFactory, Uncovered, Oversize, coverage_warning, oversize_error, approx_batch_bytes,
  grpc_max_message_bytes,
}
use analytics_testing.Generator.AiTxn.Records.{IsAiTxnData}
use analytics_testing.Generator.AiTxn.Pool.Coverage.{
  IsRoundRobin, IsFed, coverage_warning_iff, ai_txn_factory-IsRoundRobin,
}
use analytics_testing.Generator.Client.{NewSource, made, refused}
use analytics_testing.Generator.Config.Load.{GeneratorConfig}
use analytics_testing.Generator.Main.Launch.{
  started_ai_txn, Surroundings, variants, check_pool, ai_txn_pool, launch_ai_txn, launch_plain,
  launch_schema, launch_connected, launch,
}

module _ {F R : Type 0} ⦃fl : Float F⦄ (s : Surroundings F R) where
  -- The checks that a started ai_txn pool has passed.
  passed :
      (cfg c : GeneratorConfig F) (o : Option (AiTxnPayloadFactory F)) (f : AiTxnPayloadFactory F)
      → check_pool s c o ≡ started_ai_txn cfg f
      → (o ≡ some f)
        × (c ≡ cfg)
        × (coverage_warning f ≡ none)
        × (oversize_error f ≡ none)
        × (s.dry_run ≡ false)
  unfolding check_pool
  passed cfg c none f h = cc h
  passed cfg c (some g) f h =
      by_checks (coverage_warning g) refl (oversize_error g) refl s.dry_run refl
    where
      by_checks :
          (w : Option Uncovered)
          → coverage_warning g ≡ w
          → (o : Option Oversize) → oversize_error g ≡ o
          → (d : Bool) → s.dry_run ≡ d
          → (some g ≡ some f)
            × (c ≡ cfg)
            × (coverage_warning f ≡ none)
            × (oversize_error f ≡ none)
            × (s.dry_run ≡ false)
      by_checks (some w) ew o eo d ed = ground (arith, h, ew)
      by_checks none ew (some o) eo d ed = ground (arith, h, ew, eo)
      by_checks none ew none eo true ed = ground (arith, h, ew, eo, ed)
      by_checks none ew none eo false ed =
          let same : started_ai_txn c g ≡ started_ai_txn cfg f = ground (arith, h, ew, eo, ed) in
          let pool : g ≡ f = cc same in
          (
            ap some pool,
            cc same,
            subst (λ p. coverage_warning p ≡ none) pool ew,
            subst (λ p. oversize_error p ≡ none) pool eo,
            ed,
          )

  from_pool :
      (cfg c : GeneratorConfig F) (o : Option ℤ) (f : AiTxnPayloadFactory F)
      → launch_ai_txn s c o ≡ started_ai_txn cfg f
      → (n : ℤ) × (check_pool s c (ai_txn_pool s c n) ≡ started_ai_txn cfg f)
  unfolding launch_ai_txn
  from_pool cfg c none f h = cc h
  from_pool cfg c (some n) f h = (n, h)

  plain_is_other :
      (cfg c : GeneratorConfig F) (o : Option (PayloadFactory F)) (f : AiTxnPayloadFactory F)
      → launch_plain s c o ≢ started_ai_txn cfg f
  unfolding launch_plain
  plain_is_other cfg c none f h = cc h
  plain_is_other cfg c (some g) f h = ground (arith, h)

  from_schema :
      (cfg c : GeneratorConfig F) (f : AiTxnPayloadFactory F) (b : Bool) (o : Option ℤ)
      (p : Option (PayloadFactory F))
      → (if b then launch_ai_txn s c o else launch_plain s c p) ≡ started_ai_txn cfg f
      → (n : ℤ) × (check_pool s c (ai_txn_pool s c n) ≡ started_ai_txn cfg f)
  from_schema cfg c f true o p h = from_pool cfg c o f h
  from_schema cfg c f false o p h = absurd (plain_is_other cfg c p f h)

  from_source :
      (cfg c : GeneratorConfig F) (f : AiTxnPayloadFactory F) (source : NewSource F) (b : Bool)
      → s.ready ≡ b
      → launch_connected s c source ≡ started_ai_txn cfg f
      → (s.ready ≡ true) × (n : ℤ) × (check_pool s c (ai_txn_pool s c n) ≡ started_ai_txn cfg f)
  from_source cfg c f (refused e) b eb h = cc h
  from_source cfg c f (made t) false eb h = ground (arith, h, eb)
  from_source cfg c f (made t) true eb h =
      let inner : launch_schema s c ≡ started_ai_txn cfg f = ground (arith, h, eb) in
      let (n, pool) = from_schema cfg c f _ _ _ inner in (eb, n, pool)

  -- A run of the ai_txn schema starts only on a channel that is ready and without --dry-run, each of
  -- the customers that its factory is configured for has a template in the pool, and the mean size of a
  -- batch is below the limit of gRPC, if the settings for the payload raise nothing: their weights are
  -- usable, some model is given and no token range is reversed.
  pub started_run_covers :
      (laws : IsRandom F R s.random)
      → (c cfg : GeneratorConfig F) (f : AiTxnPayloadFactory F) → IsAiTxnData (s.read_data c.data_)
      → launch s (some c) ≡ started_ai_txn cfg f
      → (s.ready ≡ true)
        × (s.dry_run ≡ false)
        × All (IsFed f) (seqs_from 1 f.customers)
        × (approx_batch_bytes f < grpc_max_message_bytes)
  unfolding launch oversize_error
  started_run_covers laws c cfg f usable h =
      let (ready, n, checked) = from_source cfg c f _ s.ready refl h in
      let (pool, same, covered, small, wet) = passed cfg c (ai_txn_pool s c n) f checked in
      let (g, e, turn, _) =
        ai_txn_factory-IsRoundRobin s.random laws s.show_fixed s.severities s.byte_size
          (s.read_data c.data_) s.gen_id (clamp_ℤ c.workload.batch_size) usable
          (clamp_ℤ c.workload.workers) (variants s) (clamp_ℤ n) in
      let turn' = subst IsRoundRobin (some-inj (sym e ∙ pool)) turn in
      (ready, wet, (coverage_warning_iff f turn').0 covered, ground (arith, small))
