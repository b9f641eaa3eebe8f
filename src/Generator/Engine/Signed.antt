-- ===== src/Generator/Engine/Signed.antt =====
-- The attribute `bench.gen_id` of the records that generator/src/loadgen.py sends: `stamp` keeps it.
use analytics_testing.Base.{
  ℕ, ◌+◌, ◌≡◌, refl, ◌∙◌, subst, Bool, true, false, String, str_eq, eq_iff, Option, none, some,
  List, [], ◌∷◌, All, All-append, All-get_elem?, All-set, get_elem?, arith,
}
use analytics_testing.Base.Dict.{lookup}
use analytics_testing.Base.Float.{Float}
use analytics_testing.Generator.Metrics.State.{Metrics}
use analytics_testing.Generator.Payload.{
  AnyValue, Attributes, LogRecord, RequestTemplate, PayloadFactory, put_seq_value, stamp_records,
  stamp, template_for,
}
use analytics_testing.Generator.Engine.State.{
  WorkItem, Outcome, Worker, taken, sending, waiting, Engine, Workload,
}
use analytics_testing.Generator.Engine.Pacing.{begin_step}
use analytics_testing.Generator.Engine.Sending.{take_item, stamp_item, export, records_of}
use analytics_testing.Generator.Engine.{
  Event, work, initial, start, pace_from, work_from, shut, act, run,
}
use analytics_testing.Generator.Engine.Tiling.Once.{start-eq-some}

module _ {F : Type 0} (id : String) where
  -- The record carries the generator's id.
  abbrev pub IsSigned : LogRecord F → Type 0
  IsSigned r = lookup "bench.gen_id" r.attributes ≡ some (AnyValue.string_value id)

  abbrev pub AllSigned : List (LogRecord F) → Type 0
  AllSigned rs = All IsSigned rs

  lookup-put_seq_value :
      (seq : ℕ) (attrs : Attributes F)
      → lookup "bench.gen_id" (put_seq_value seq attrs) ≡ lookup "bench.gen_id" attrs
  unfolding put_seq_value
  lookup-put_seq_value seq [] = refl
  lookup-put_seq_value seq ((k, v) ∷ rest) =
      by_key (str_eq k "bench.seq") refl (lookup-put_seq_value seq rest)
    where
      by_key :
          (b : Bool)
          → str_eq k "bench.seq" ≡ b
          → lookup "bench.gen_id" (put_seq_value seq rest) ≡ lookup "bench.gen_id" rest
          → lookup "bench.gen_id" (put_seq_value seq ((k, v) ∷ rest))
            ≡ lookup "bench.gen_id" ((k, v) ∷ rest)
      by_key true q ih =
          let name : k ≡ "bench.seq" = (eq_iff k "bench.seq").0 q in
          let other : str_eq k "bench.gen_id" ≡ false = rw name refl in ground (arith, q, other)
      by_key false q ih = ground (arith, q, ih)

  stamp_records-AllSigned :
      (now seq : ℕ) (rs : List (LogRecord F)) → AllSigned rs → AllSigned (stamp_records now seq rs)
  unfolding stamp_records
  stamp_records-AllSigned now seq [] h = tt
  stamp_records-AllSigned now seq (r ∷ rs) h =
      (lookup-put_seq_value seq r.attributes ∙ h.0, stamp_records-AllSigned now (seq + 1) rs h.1)

  -- Every record of the pool and of the requests sent carries the factory's id.
  pub record Signed (e : Engine F) : Type 0 where
    pub gen_id : e.factory.gen_id ≡ id
    pub templates : All (λ t. AllSigned t.records) e.factory.templates
    pub wire : All (λ rpc. AllSigned rpc.records) e.wire

  abbrev SameRecords : Engine F → Engine F → Type 0
  SameRecords e' e = (e'.factory ≡ e.factory) × (e'.wire ≡ e.wire)

  SameRecords-Signed : (e' e : Engine F) → SameRecords e' e → Signed e → Signed e'
  SameRecords-Signed e' e s h = record {
    gen_id = rw s.0 h.gen_id;
    templates = rw s.0 h.templates;
    wire = rw s.1 h.wire;
  }

  take_item-SameRecords : (w : ℕ) (e : Engine F) → SameRecords (take_item w e) e
  unfolding take_item
  take_item-SameRecords w e = by_queue e.queue refl
    where
      by_queue : (q : List (Option WorkItem)) → e.queue ≡ q → SameRecords (take_item w e) e
      by_queue [] eq = rw (eq, take_item) (refl, refl)
      by_queue (item ∷ rest) eq = rw (eq, take_item) (refl, refl)

  stamp_item-Signed :
      (now w : ℕ) (item : WorkItem) (e : Engine F) → Signed e → Signed (stamp_item now w item e)
  unfolding stamp_item template_for stamp
  stamp_item-Signed now w item e h = by_template (template_for e.factory w item.variant) refl
    where
      by_template :
          (o : Option (RequestTemplate F))
          → template_for e.factory w item.variant ≡ o
          → Signed (stamp_item now w item e)
      by_template none q = rw (q, stamp_item) (SameRecords-Signed _ e (refl, refl) h)
      by_template (some t) q =
          let own =
            All-get_elem? (λ t. AllSigned t.records) e.factory.templates _ t h.templates q in
          rw (q, stamp_item)
            (record {
              gen_id = h.gen_id;
              templates =
                  All-set (λ t. AllSigned t.records) e.factory.templates _ _ h.templates
                    (stamp_records-AllSigned now item.seq_start t.records own);
              wire = h.wire;
            })

  export-Signed :
      (outcome : Outcome F) (w : ℕ) (item : WorkItem) (e : Engine F)
      → Signed e
      → Signed (export outcome w item e)
  unfolding export template_for
  export-Signed outcome w item e h = record {
    gen_id = h.gen_id;
    templates = h.templates;
    wire =
        All-append (λ rpc. AllSigned rpc.records) e.wire _ h.wire
          (by_template (template_for e.factory w item.variant) refl, tt);
  }
    where
      by_template :
          (o : Option (RequestTemplate F))
          → template_for e.factory w item.variant ≡ o
          → AllSigned (records_of o)
      by_template none q = tt
      by_template (some t) q =
          All-get_elem? (λ t. AllSigned t.records) e.factory.templates _ t h.templates q

module _ {F : Type 0} ⦃fl : Float F⦄ (id : String) where
  work_from-Signed :
      (p : Worker F) (w now : ℕ) (outcome : Outcome F) (e : Engine F)
      → Signed id e
      → Signed id (work_from p w now outcome e)
  unfolding work_from
  work_from-Signed waiting w now outcome e h =
      SameRecords-Signed id (take_item w e) e (take_item-SameRecords id w e) h
  work_from-Signed (taken item) w now outcome e h = stamp_item-Signed id now w item e h
  work_from-Signed (sending item) w now outcome e h = export-Signed id outcome w item e h
  work_from-Signed p w now outcome e h =
      SameRecords-Signed id (work_from p w now outcome e) e (ground arith) h

  act-Signed : (ev : Event F) (e : Engine F) → Signed id e → Signed id (act ev e)
  unfolding act pace_from shut begin_step
  act-Signed (work w now outcome) e h = by_worker (get_elem? e.workers w) refl
    where
      by_worker :
          (o : Option (Worker F))
          → get_elem? e.workers w ≡ o
          → Signed id (act (work w now outcome) e)
      by_worker none at = rw (at, act) h
      by_worker (some p) at = rw (at, act) (work_from-Signed p w now outcome e h)
  act-Signed ev e h = SameRecords-Signed id (act ev e) e (ground arith) h

  run-Signed : (evs : List (Event F)) (e : Engine F) → Signed id e → Signed id (run evs e)
  unfolding run
  run-Signed [] e h = h
  run-Signed (ev ∷ evs) e h = run-Signed evs (act ev e) (act-Signed ev e h)

module _ {F : Type 0} ⦃fl : Float F⦄ where
  -- The factory's templates carry its id.
  abbrev pub IsSignedFactory : PayloadFactory F → Type 0
  IsSignedFactory f = All (λ t. AllSigned f.gen_id t.records) f.templates

  pub start-Signed :
      (cfg : Workload) (workers : ℕ) (f : PayloadFactory F) (m : Metrics F) (e₀ : Engine F)
      (evs : List (Event F))
      → IsSignedFactory f
      → start cfg workers f m ≡ some e₀
      → Signed f.gen_id (run evs e₀)
  unfolding initial
  start-Signed cfg workers f m e₀ evs signed h = run-Signed f.gen_id evs e₀ (
      subst (Signed f.gen_id) (start-eq-some cfg workers f m e₀ h).1
        (record { gen_id = refl; templates = signed; wire = tt }))
