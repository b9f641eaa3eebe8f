-- ===== src/Generator/Engine/Ledger/Totals.antt =====
-- What the ledger says of the totals of a run.
use analytics_testing.Base.{
  ℕ, zero, suc, ◌+◌, ◌≤◌, ◌≡◌, refl, subst, Option, none, some, List, [], ◌∷◌, All, sum_by,
  sum_by-replicate, replicate, arith, true,
}
use analytics_testing.Base.Float.{Float}
use analytics_testing.Generator.Metrics.State.{Metrics}
use analytics_testing.Generator.Payload.{PayloadFactory}
use analytics_testing.Generator.Engine.State.{WorkItem, Worker, waiting, Engine, Workload, Rpc}
use analytics_testing.Generator.Engine.{Event, initial, start, run}
use analytics_testing.Generator.Engine.Tiling.Once.{
  IsStocked, IsAtRest, holds_nothing, start-IsTiled, start-eq-some,
}
use analytics_testing.Generator.Engine.Ledger.Defs.{
  Ledger, WorkerSized, queue_size, load, pending, is_ok, is_refused, wire_count, rpc_size,
}
use analytics_testing.Generator.Engine.Ledger.Runs.{IsSound, run-IsSound}

waiting-sized : (F : Type 0) (b n : ℕ) → All (WorkerSized {F = F} b) (replicate n waiting)
waiting-sized F b zero = tt
waiting-sized F b (suc n) = (tt, waiting-sized F b n)

queue-at_rest :
    (b : ℕ) (q : List (Option WorkItem)) → All (λ o. o ≡ none) q → sum_by (queue_size b) q ≡ 0
queue-at_rest b [] h = refl
queue-at_rest b (o ∷ q) h = ground (arith, h.0, queue-at_rest b q h.1)

module _ {F : Type 0} where
  initial-Ledger :
      (cfg : Workload) (workers : ℕ) (f : PayloadFactory F) (m : Metrics F)
      → m.totals.records_offered ≡ 0
      → m.totals.records_accepted ≡ 0
      → m.totals.records_rejected ≡ 0
      → Ledger cfg.batch_size (initial cfg workers f m)
  unfolding initial
  initial-Ledger cfg workers f m o a r = ground (
    arith,
    waiting-sized F cfg.batch_size workers,
    sum_by-replicate (load {F = F} cfg.batch_size) workers waiting,
    sum_by-replicate (pending {F = F} is_ok) workers waiting,
    sum_by-replicate (pending {F = F} is_refused) workers waiting,
  )

  workers-at_rest :
      (b : ℕ) (ps : List (Worker F))
      → All (λ p. holds_nothing p ≡ true) ps
      → (sum_by (load b) ps ≡ 0)
        × (sum_by (pending is_ok) ps ≡ 0)
        × (sum_by (pending is_refused) ps ≡ 0)
  workers-at_rest b [] h = (refl, refl, refl)
  workers-at_rest b (p ∷ ps) h =
      let ih = workers-at_rest b ps h.1 in ground (arith, h.0, ih.0, ih.1, ih.2)

  -- An answer is an acknowledgement or a rejection or neither, never both.
  wire_counts-le :
      (wire : List (Rpc F))
      → sum_by (wire_count is_ok) wire + sum_by (wire_count is_refused) wire ≤ sum_by rpc_size wire
  wire_counts-le [] = omega arith
  wire_counts-le (rpc ∷ wire) = let ih = wire_counts-le wire in ground (arith, ih)

module _ {F : Type 0} ⦃fl : Float F⦄ where
  -- From a started engine with a full pool and fresh counters, every schedule keeps the engine
  -- sound: no number is lost or held twice, and the counters agree with the RPCs.
  pub start-IsSound :
      (cfg : Workload) (workers : ℕ) (f : PayloadFactory F) (m : Metrics F) (e₀ : Engine F)
      (evs : List (Event F))
      → IsStocked cfg.batch_size f
      → m.totals.records_offered ≡ 0
      → m.totals.records_accepted ≡ 0
      → m.totals.records_rejected ≡ 0
      → start cfg workers f m ≡ some e₀
      → IsSound cfg.batch_size (run evs e₀)
  start-IsSound cfg workers f m e₀ evs stock o a r h =
      let (fits, same) = start-eq-some cfg workers f m e₀ h in
      run-IsSound cfg.batch_size evs e₀ (
        start-IsTiled cfg workers f m e₀ stock h,
        subst (Ledger cfg.batch_size) same (initial-Ledger cfg workers f m o a r),
      )

  -- Under every schedule, from a started engine with a full pool and fresh counters: the records
  -- counted as accepted and as rejected are never more than the records sent that were answered so,
  -- nor together more than the numbers given out.
  pub totals_bounded :
      (cfg : Workload) (workers : ℕ) (f : PayloadFactory F) (m : Metrics F) (e₀ : Engine F)
      (evs : List (Event F))
      → IsStocked cfg.batch_size f
      → m.totals.records_offered ≡ 0
      → m.totals.records_accepted ≡ 0
      → m.totals.records_rejected ≡ 0
      → start cfg workers f m ≡ some e₀
      → let e = run evs e₀ in
        let t = e.metrics.totals in
        (t.records_accepted ≤ sum_by (wire_count is_ok) e.wire)
        × (t.records_rejected ≤ sum_by (wire_count is_refused) e.wire)
        × (t.records_accepted + t.records_rejected ≤ e.next_seq)
  totals_bounded cfg workers f m e₀ evs stock o a r h =
      let e = run evs e₀ in
      let l = (start-IsSound cfg workers f m e₀ evs stock o a r h).1 in
      let w = wire_counts-le e.wire in
      (
        omega (arith, l.accepts),
        omega (arith, l.rejects),
        omega (arith, l.accepts, l.rejects, l.held, w),
      )

  -- Under every schedule, from a started engine with a full pool and fresh counters: once the engine
  -- is at rest the three totals are exact. Offered is every number given out and every record sent,
  -- accepted the records of the RPCs that were acknowledged, rejected those of the RPCs answered
  -- RESOURCE_EXHAUSTED.
  pub totals_reconcile :
      (cfg : Workload) (workers : ℕ) (f : PayloadFactory F) (m : Metrics F) (e₀ : Engine F)
      (evs : List (Event F))
      → IsStocked cfg.batch_size f
      → m.totals.records_offered ≡ 0
      → m.totals.records_accepted ≡ 0
      → m.totals.records_rejected ≡ 0
      → start cfg workers f m ≡ some e₀
      → IsAtRest (run evs e₀)
      → let e = run evs e₀ in
        let t = e.metrics.totals in
        (t.records_offered ≡ e.next_seq)
        × (t.records_offered ≡ sum_by rpc_size e.wire)
        × (t.records_accepted ≡ sum_by (wire_count is_ok) e.wire)
        × (t.records_rejected ≡ sum_by (wire_count is_refused) e.wire)
  totals_reconcile cfg workers f m e₀ evs stock o a r h rest =
      let e = run evs e₀ in
      let l = (start-IsSound cfg workers f m e₀ evs stock o a r h).1 in
      let q = queue-at_rest cfg.batch_size e.queue rest.queue in
      let p = workers-at_rest cfg.batch_size e.workers rest.workers in
      ground (arith, l.offers, l.held, l.accepts, l.rejects, rest.pacer, q, p.0, p.1, p.2)
