-- ===== src/Generator/Engine/Tiling/Once.antt =====
-- The RPCs of a run of generator/src/loadgen.py against the contract of manifest.json: "a gap is loss,
-- a repeat is duplication".
use native.Mathlib.Nat.{le_of_mul-le-mul_right}
use analytics_testing.Base.{
  ℕ, zero, suc, ◌+◌, ◌*◌, ◌<◌, ◌≤◌, ◌≡◌, refl, ap, subst, Option, none, some, List, [], ◌∷◌, All,
  sum_by, sum_by-replicate, length, replicate, length-replicate, max, arith, Bool, true, false,
  get_elem?, String,
}
use analytics_testing.Base.Float.{Float}
use analytics_testing.Generator.Metrics.State.{Metrics}
use analytics_testing.Generator.Payload.{PayloadFactory, RequestTemplate, new_factory, build_from}
use analytics_testing.Generator.Engine.State.{
  WorkItem, idle, Worker, waiting, exited, Engine, Workload,
}
use analytics_testing.Generator.Engine.{Event, initial, start, run}
use analytics_testing.Generator.Engine.Tiling.Pool.{Pool, IsReady, Loaded}
use analytics_testing.Generator.Engine.Tiling.Weights.{within, queued, carried, sent, Tiling}
use analytics_testing.Generator.Engine.Tiling.Runs.{IsTiled, run-IsTiled}

-- A full pool of templates of `b` records that carry `bench.seq`.
pub record IsStocked {F : Type 0} (b : ℕ) (f : PayloadFactory F) : Type 0 where
  pub variants : 0 < f.variants_per_worker
  pub size : length f.templates ≡ f.workers * f.variants_per_worker
  pub ready : All (IsReady b) f.templates

module _ {F : Type 0} (build : ℕ → RequestTemplate F) where
  length-build_from : (i n : ℕ) → length (build_from build i n) ≡ n
  unfolding build_from
  length-build_from i zero = refl
  length-build_from i (suc n) = ap suc (length-build_from (i + 1) n)

  build_from-IsReady :
      (b : ℕ) → ((i : ℕ) → IsReady b (build i)) → (i n : ℕ) → All (IsReady b) (build_from build i n)
  unfolding build_from
  build_from-IsReady b h i zero = tt
  build_from-IsReady b h i (suc n) = (h i, build_from-IsReady b h (i + 1) n)

  -- The pool that the constructor builds is full, if `_build_template` builds such templates.
  pub new_factory-IsStocked :
      (id : String) (b workers variants : ℕ)
      → ((i : ℕ) → IsReady b (build i))
      → IsStocked b (new_factory build id b workers variants)
  unfolding new_factory
  new_factory-IsStocked id b workers variants h = record {
    variants = omega arith;
    size = length-build_from 0 (max 1 workers * max 1 variants);
    ready = build_from-IsReady b h 0 (max 1 workers * max 1 variants);
  }

Loaded-none :
    (F : Type 0) (n w : ℕ) (item : WorkItem)
    → ¬ Loaded (get_elem? (replicate {A = Worker F} n waiting) w) item
Loaded-none F zero w item l = l
Loaded-none F (suc n) zero item l = l
Loaded-none F (suc n) (suc w) item l = Loaded-none F n w item l

queued-at_rest :
    (b n : ℕ) (q : List (Option WorkItem)) → All (λ o. o ≡ none) q → sum_by (queued b n) q ≡ 0
queued-at_rest b n [] h = refl
queued-at_rest b n (o ∷ q) h = ground (arith, h.0, queued-at_rest b n q h.1)

module _ {F : Type 0} where
  -- The constructor accepts only a pool with templates for each worker.
  pub start-eq-some :
      (cfg : Workload) (workers : ℕ) (f : PayloadFactory F) (m : Metrics F) (e : Engine F)
      → start cfg workers f m ≡ some e
      → (workers * f.variants_per_worker ≤ length f.templates) × (initial cfg workers f m ≡ e)
  unfolding start
  start-eq-some cfg workers f m e h = ground arith

  initial-Pool :
      (cfg : Workload) (workers : ℕ) (f : PayloadFactory F) (m : Metrics F)
      → IsStocked cfg.batch_size f
      → workers * f.variants_per_worker ≤ length f.templates
      → Pool cfg.batch_size f (replicate workers waiting)
  initial-Pool cfg workers f m stock fits = record {
    variants = stock.variants;
    size = stock.size;
    crew =
        rw length-replicate
          (le_of_mul-le-mul_right (omega (arith, fits, stock.size)) stock.variants);
    ready = stock.ready;
    stamps = λ w item l. absurd (Loaded-none F workers w item l);
  }

  initial-Tiling :
      (cfg : Workload) (workers n : ℕ) (f : PayloadFactory F) (m : Metrics F)
      → Tiling cfg.batch_size n (initial cfg workers f m)
  unfolding initial
  initial-Tiling cfg workers n f m =
      ground (arith, sum_by-replicate (carried {F = F} cfg.batch_size n) workers waiting)

module _ {F : Type 0} where
  abbrev pub holds_nothing : Worker F → Bool
  holds_nothing waiting = true
  holds_nothing exited = true
  holds_nothing _ = false

  -- No step is open, the queue holds no item, and no worker is busy.
  pub record IsAtRest (e : Engine F) : Type 0 where
    pub pacer : e.pacer ≡ idle
    pub queue : All (λ o. o ≡ none) e.queue
    pub workers : All (λ p. holds_nothing p ≡ true) e.workers

module _ {F : Type 0} ⦃fl : Float F⦄ where
  pub start-IsTiled :
      (cfg : Workload) (workers : ℕ) (f : PayloadFactory F) (m : Metrics F) (e : Engine F)
      → IsStocked cfg.batch_size f
      → start cfg workers f m ≡ some e
      → IsTiled cfg.batch_size e
  unfolding initial
  start-IsTiled cfg workers f m e stock h =
      let (fits, same) = start-eq-some cfg workers f m e h in
      subst (IsTiled cfg.batch_size) same
        (initial-Pool cfg workers f m stock fits, λ n. initial-Tiling cfg workers n f m)

  carried-at_rest :
      (b n : ℕ) (ps : List (Worker F))
      → All (λ p. holds_nothing p ≡ true) ps
      → sum_by (carried b n) ps ≡ 0
  carried-at_rest b n [] h = refl
  carried-at_rest b n (p ∷ ps) h = ground (arith, h.0, carried-at_rest b n ps h.1)

  -- Under every schedule of the pacer, the workers, signals and shutdowns, from a started engine with
  -- a full pool: no sequence number is sent in two records, and none is sent that was not given out.
  pub never_sent_twice :
      (cfg : Workload) (workers : ℕ) (f : PayloadFactory F) (m : Metrics F) (e₀ : Engine F)
      (evs : List (Event F)) (n : ℕ)
      → IsStocked cfg.batch_size f
      → start cfg workers f m ≡ some e₀
      → let e = run evs e₀ in sum_by (sent cfg.batch_size n) e.wire ≤ within 0 e.next_seq n
  never_sent_twice cfg workers f m e₀ evs n stock h =
      let t = (run-IsTiled cfg.batch_size evs e₀ (start-IsTiled cfg workers f m e₀ stock h)).1 n in
      omega (arith, t.once)

  -- Under every schedule, from a started engine with a full pool: once the engine is at rest each
  -- number below `next_seq` has been sent exactly once, and no other number at all.
  pub sent_once :
      (cfg : Workload) (workers : ℕ) (f : PayloadFactory F) (m : Metrics F) (e₀ : Engine F)
      (evs : List (Event F)) (n : ℕ)
      → IsStocked cfg.batch_size f
      → start cfg workers f m ≡ some e₀
      → IsAtRest (run evs e₀)
      → let e = run evs e₀ in sum_by (sent cfg.batch_size n) e.wire ≡ within 0 e.next_seq n
  sent_once cfg workers f m e₀ evs n stock h r =
      let t = (run-IsTiled cfg.batch_size evs e₀ (start-IsTiled cfg workers f m e₀ stock h)).1 n in
      let e = run evs e₀ in
      ground (
        arith,
        t.once,
        r.pacer,
        queued-at_rest cfg.batch_size n e.queue r.queue,
        carried-at_rest cfg.batch_size n e.workers r.workers,
      )
