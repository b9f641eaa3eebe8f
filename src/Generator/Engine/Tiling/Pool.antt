-- ===== src/Generator/Engine/Tiling/Pool.antt =====
-- The templates of generator/src/payload.py under the engine: what the template of a worker between
-- `stamp` and the end of `export` holds.
use native.Mathlib.Decide.{ℕ_discrete}
use analytics_testing.Base.{
  ℕ, zero, suc, ◌*◌, ◌≤◌, ◌<◌, ◌≡◌, ◌≢◌, ◌∙◌, Option, some, List, [], ◌∷◌, All, All-set,
  All-get_elem?, length, length-set, get_elem?, get_elem?-set_self, get_elem?-set_ne, get_elem?-lt,
  get_elem?-found, set, map, arith,
}
use analytics_testing.Base.Int.{pos}
use analytics_testing.Generator.Payload.{
  AnyValue, RequestTemplate, PayloadFactory, seq_of, stamp, template_index, template_for,
}
use analytics_testing.Generator.Payload.Stamping.{
  IsTagged, seqs_from, length-stamp_records, stamp_records-IsTagged, map-seq_of-stamp_records,
  template_index_private, template_index-lt,
}
use analytics_testing.Generator.Engine.State.{WorkItem, Worker, stamped, sending}
use analytics_testing.Generator.Engine.Sending.{records_of}

module _ {F : Type 0} where
  -- The sequence numbers `first, first + 1, ...` as the records carry them.
  abbrev pub numbered : ℕ → ℕ → List (Option (AnyValue F))
  numbered first n = map (λ k. some (AnyValue.int_value (pos k))) (seqs_from first n)

  -- The worker's template is stamped for this item and not yet sent.
  abbrev pub Loaded : Option (Worker F) → WorkItem → Type 0
  Loaded (some (stamped i)) item = i ≡ item
  Loaded (some (sending i)) item = i ≡ item
  Loaded _ item = ⊥

  Loaded-lt :
      (workers : List (Worker F)) (w : ℕ) (item : WorkItem)
      → Loaded (get_elem? workers w) item
      → w < length workers
  Loaded-lt [] w item l = absurd l
  Loaded-lt (p ∷ ps) zero item l = omega arith
  Loaded-lt (p ∷ ps) (suc w) item l = omega (arith, Loaded-lt ps w item l)

  abbrev pub IsReady : ℕ → RequestTemplate F → Type 0
  IsReady b t = All IsTagged t.records × (length t.records ≡ b) × (t.record_count ≡ b)

  -- `b` is the batch size.
  pub record Pool (b : ℕ) (f : PayloadFactory F) (workers : List (Worker F)) : Type 0 where
    pub variants : 0 < f.variants_per_worker
    pub size : length f.templates ≡ f.workers * f.variants_per_worker
    pub crew : length workers ≤ f.workers
    pub ready : All (IsReady b) f.templates
    pub stamps :
        (w : ℕ) (item : WorkItem)
        → Loaded (get_elem? workers w) item
        → map seq_of (records_of (template_for f w item.variant)) ≡ numbered item.seq_start b

  -- A worker moves on, and what it has loaded it had loaded before.
  pub Pool-set :
      (b : ℕ) (f : PayloadFactory F) (workers : List (Worker F)) (w : ℕ) (p q : Worker F)
      → Pool b f workers
      → get_elem? workers w ≡ some p
      → ((item : WorkItem) → Loaded (some q) item → Loaded (some p) item)
      → Pool b f (set workers w q)
  Pool-set b f workers w p q h at keep = record {
    variants = h.variants;
    size = h.size;
    crew = rw length-set h.crew;
    ready = h.ready;
    stamps = λ v item l. elim (ℕ_discrete w v) [
      | yes e ↦
          let here : get_elem? (set workers w q) v ≡ some q =
            rw (← e) (get_elem?-set_self workers w q (get_elem?-lt workers w p at)) in
          let l' : Loaded (some p) item = keep item (rw here at l) in
          h.stamps v item (rw (← e, at) l')
      | no ne ↦ h.stamps v item (rw (get_elem?-set_ne workers w v q ne) at l)
    ];
  }

  -- Within the crew `template_for` finds a template.
  pub template_for-found :
      (b : ℕ) (f : PayloadFactory F) (workers : List (Worker F)) (w variant : ℕ)
      → Pool b f workers
      → w < f.workers
      → (t : RequestTemplate F) × (template_for f w variant ≡ some t)
  unfolding template_for
  template_for-found b f workers w variant h lt =
      let at = template_index-lt f.workers f.variants_per_worker w variant h.variants lt in
      get_elem?-found f.templates (template_index f.workers f.variants_per_worker w variant)
        (rw h.size at)

  -- The template that `template_for` returns is ready.
  pub template_for-IsReady :
      (b : ℕ) (f : PayloadFactory F) (workers : List (Worker F)) (w variant : ℕ)
      (t : RequestTemplate F)
      → Pool b f workers
      → template_for f w variant ≡ some t
      → IsReady b t
  unfolding template_for
  template_for-IsReady b f workers w variant t h e =
      All-get_elem? (IsReady b) f.templates
        (template_index f.workers f.variants_per_worker w variant) t h.ready e

  -- The pool with the template of worker `w` overwritten.
  abbrev pub overwrite : PayloadFactory F → ℕ → ℕ → RequestTemplate F → PayloadFactory F
  overwrite f w variant t = record f {
    templates = set f.templates (template_index f.workers f.variants_per_worker w variant) t;
  }

  overwrite_self :
      (b : ℕ) (f : PayloadFactory F) (workers : List (Worker F)) (w variant : ℕ)
      (t : RequestTemplate F)
      → Pool b f workers
      → w < f.workers
      → template_for (overwrite f w variant t) w variant ≡ some t
  unfolding template_for
  overwrite_self b f workers w variant t h lt =
      let at = template_index-lt f.workers f.variants_per_worker w variant h.variants lt in
      get_elem?-set_self f.templates (template_index f.workers f.variants_per_worker w variant) t
        (rw h.size at)

  overwrite_ne :
      (b : ℕ) (f : PayloadFactory F) (workers : List (Worker F)) (w v variant other : ℕ)
      (t : RequestTemplate F)
      → Pool b f workers
      → w < f.workers
      → v < f.workers
      → w ≢ v
      → template_for (overwrite f w variant t) v other ≡ template_for f v other
  unfolding template_for
  overwrite_ne b f workers w v variant other t h lw lv ne =
      get_elem?-set_ne f.templates _ _ t
        (template_index_private f.workers f.variants_per_worker w v variant other h.variants lw lv
          ne).0

  stamp-IsReady :
      (b now first : ℕ) (t : RequestTemplate F) → IsReady b t → IsReady b (stamp now first t).0
  unfolding stamp
  stamp-IsReady b now first t h = (
    stamp_records-IsTagged now first t.records h.0,
    length-stamp_records now first t.records ∙ h.1,
    h.2,
  )

  stamp-numbered :
      (b now first : ℕ) (t : RequestTemplate F)
      → IsReady b t
      → map seq_of (stamp now first t).0.records ≡ numbered first b
  unfolding stamp
  stamp-numbered b now first t h = rw (← h.1) (map-seq_of-stamp_records now first t.records h.0)

  -- A stamp loads the worker's own template, and leaves what the others have loaded.
  pub Pool-stamp :
      (b : ℕ) (f : PayloadFactory F) (workers : List (Worker F)) (now w : ℕ) (item : WorkItem)
      (p : Worker F) (t : RequestTemplate F)
      → Pool b f workers
      → get_elem? workers w ≡ some p
      → template_for f w item.variant ≡ some t
      → Pool b
          (overwrite f w item.variant (stamp now item.seq_start t).0)
          (set workers w (stamped item))
  Pool-stamp b f workers now w item p t h at found =
      let ready = template_for-IsReady b f workers w item.variant t h found in
      let t' = (stamp now item.seq_start t).0 in
      let lw : w < f.workers = omega (arith, get_elem?-lt workers w p at, h.crew) in
      record {
        variants = h.variants;
        size = length-set f.templates _ t' ∙ h.size;
        crew = rw length-set h.crew;
        ready = All-set (IsReady b) f.templates _ t' h.ready (stamp-IsReady b now _ t ready);
        stamps = λ v other l. elim (ℕ_discrete w v) [
          | yes e ↦
              let here : get_elem? (set workers w (stamped item)) v ≡ some (stamped item) =
                rw (← e)
                  (get_elem?-set_self workers w (stamped item) (get_elem?-lt workers w p at)) in
              let same : item ≡ other = rw here at l in
              rw (← e, ← same, overwrite_self b f workers w item.variant t' h lw)
                (stamp-numbered b now item.seq_start t ready)
          | no ne ↦
              let l' : Loaded (get_elem? workers v) other =
                rw (get_elem?-set_ne workers w v (stamped item) ne) at l in
              let lv : v < f.workers = omega (arith, Loaded-lt workers v other l', h.crew) in
              rw (overwrite_ne b f workers w v item.variant other.variant t' h lw lv ne)
                (h.stamps v other l')
        ];
      }
