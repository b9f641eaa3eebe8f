-- ===== src/Generator/Engine/Steps/Works.antt =====
-- The step counters under the moves of a worker.
use analytics_testing.Base.{
  ℕ, ◌+◌, ◌≡◌, refl, Option, none, some, List, [], ◌∷◌, sum_by, sum_by-set, get_elem?, set, arith,
}
use analytics_testing.Base.Float.{Float}
use analytics_testing.Base.Dict.{sum_values-increment}
use analytics_testing.Generator.Metrics.{record_inflight, record_success, record_failure}
use analytics_testing.Generator.Payload.{RequestTemplate, template_for}
use analytics_testing.Generator.Engine.State.{
  StepResult, WorkItem, Outcome, answered, raised, ExportResult, Worker, waiting, taken, stamped,
  sending, replied, landed, counted, noted, read_failures, failed_again, aborting, stopping, exited,
  Engine,
}
use analytics_testing.Generator.Engine.Sending.{
  take_item, stamp_item, count_reply, count_result, note_result,
}
use analytics_testing.Generator.Engine.{work_from}
use analytics_testing.Generator.Engine.Steps.Defs.{
  Steps, unnoted, unnoted_failures, unnoted_accepted, unnoted_rejected,
}

module _ {F : Type 0} where
  -- What one worker's move does to the sums over the workers.
  abbrev Exchange : Engine F → ℕ → Worker F → Worker F → Type 0
  Exchange e w p q =
      (sum_by unnoted (set e.workers w q) + unnoted p ≡ sum_by unnoted e.workers + unnoted q)
      × (sum_by unnoted_failures (set e.workers w q) + unnoted_failures p
          ≡ sum_by unnoted_failures e.workers + unnoted_failures q)
      × (sum_by unnoted_accepted (set e.workers w q) + unnoted_accepted p
          ≡ sum_by unnoted_accepted e.workers + unnoted_accepted q)
      × (sum_by unnoted_rejected (set e.workers w q) + unnoted_rejected p
          ≡ sum_by unnoted_rejected e.workers + unnoted_rejected q)

  exchange :
      (w : ℕ) (p q : Worker F) (e : Engine F) → get_elem? e.workers w ≡ some p → Exchange e w p q
  exchange w p q e at = (
    sum_by-set unnoted e.workers w p q at,
    sum_by-set unnoted_failures e.workers w p q at,
    sum_by-set unnoted_accepted e.workers w p q at,
    sum_by-set unnoted_rejected e.workers w p q at,
  )

  take_item-Steps :
      (w : ℕ) (e : Engine F)
      → get_elem? e.workers w ≡ some waiting
      → Steps e
      → Steps (take_item w e)
  unfolding take_item
  take_item-Steps w e at h = by_queue e.queue refl
    where
      by_queue : (q : List (Option WorkItem)) → e.queue ≡ q → Steps (take_item w e)
      by_queue [] eq = rw (eq, take_item) h
      by_queue (none ∷ rest) eq =
          let x = exchange w waiting exited e at in ground (arith, eq, x.0, x.1, x.2, x.3)
      by_queue (some i ∷ rest) eq =
          let x = exchange w waiting (taken i) e at in ground (arith, eq, x.0, x.1, x.2, x.3)

  stamp_item-Steps :
      (now w : ℕ) (item : WorkItem) (e : Engine F)
      → get_elem? e.workers w ≡ some (taken item)
      → Steps e
      → Steps (stamp_item now w item e)
  unfolding stamp_item
  stamp_item-Steps now w item e at h = by_template (template_for e.factory w item.variant) refl
    where
      by_template :
          (o : Option (RequestTemplate F))
          → template_for e.factory w item.variant ≡ o
          → Steps (stamp_item now w item e)
      by_template none eq =
          let x = exchange w (taken item) waiting e at in ground (arith, eq, x.0, x.1, x.2, x.3)
      by_template (some t) eq =
          let x = exchange w (taken item) (stamped item) e at in
          ground (arith, eq, x.0, x.1, x.2, x.3)

module _ {F : Type 0} ⦃fl : Float F⦄ where
  count_reply-Steps :
      (w : ℕ) (item : WorkItem) (outcome : Outcome F) (e : Engine F)
      → get_elem? e.workers w ≡ some (replied item outcome)
      → Steps e
      → Steps (count_reply w item outcome e)
  unfolding count_reply record_inflight
  count_reply-Steps w item (answered r) e at h =
      let x = exchange w (replied item (answered r)) (landed item r) e at in
      ground (arith, x.0, x.1, x.2, x.3)
  count_reply-Steps w item raised e at h =
      let x = exchange w (replied item raised) waiting e at in ground (arith, x.0, x.1, x.2, x.3)

  count_result-Steps :
      (w : ℕ) (item : WorkItem) (r : ExportResult F) (e : Engine F)
      → get_elem? e.workers w ≡ some (landed item r)
      → Steps e
      → Steps (count_result w item r e)
  unfolding count_result record_success record_failure
  count_result-Steps w item r e at h =
      let x = exchange w (landed item r) (counted item r) e at in ground (arith, x.0, x.1, x.2, x.3)

  -- The step takes the answer, or loses it if none is open.
  note_result-Steps :
      (w : ℕ) (item : WorkItem) (r : ExportResult F) (e : Engine F)
      → get_elem? e.workers w ≡ some (counted item r)
      → Steps e
      → Steps (note_result w item r e)
  unfolding note_result
  note_result-Steps w item r e at h = by_step e.step refl
    where
      by_step : (o : Option (StepResult F)) → e.step ≡ o → Steps (note_result w item r e)
      by_step none eq =
          let x = exchange w (counted item r) waiting e at in
          let y = exchange w (counted item r) (noted r) e at in
          ground (arith, eq, x.0, x.1, x.2, x.3, y.0, y.1, y.2, y.3)
      by_step (some s) eq =
          let x = exchange w (counted item r) waiting e at in
          let y = exchange w (counted item r) (noted r) e at in
          ground (
            arith,
            eq,
            x.0,
            x.1,
            x.2,
            x.3,
            y.0,
            y.1,
            y.2,
            y.3,
            sum_values-increment r.code s.errors_by_code,
          )

  pub work_from-Steps :
      (p : Worker F) (w now : ℕ) (outcome : Outcome F) (e : Engine F)
      → get_elem? e.workers w ≡ some p
      → Steps e
      → Steps (work_from p w now outcome e)
  unfolding work_from record_inflight
  work_from-Steps waiting w now outcome e at h = take_item-Steps w e at h
  work_from-Steps (taken item) w now outcome e at h = stamp_item-Steps now w item e at h
  work_from-Steps (stamped item) w now outcome e at h =
      let x = exchange w (stamped item) (sending item) e at in ground (arith, x.0, x.1, x.2, x.3)
  work_from-Steps (sending item) w now outcome e at h =
      let x = exchange w (sending item) (replied item outcome) e at in
      ground (arith, x.0, x.1, x.2, x.3)
  work_from-Steps (replied item r) w now outcome e at h = count_reply-Steps w item r e at h
  work_from-Steps (landed item r) w now outcome e at h = count_result-Steps w item r e at h
  work_from-Steps (counted item r) w now outcome e at h = note_result-Steps w item r e at h
  work_from-Steps (noted r) w now outcome e at h =
      let x = exchange w (noted r) (read_failures r e.consecutive_failures) e at in
      ground (arith, x.0, x.1, x.2, x.3)
  work_from-Steps (read_failures r k) w now outcome e at h =
      let x = exchange w (read_failures r k) (failed_again r) e at in
      ground (arith, x.0, x.1, x.2, x.3)
  work_from-Steps (aborting r) w now outcome e at h =
      let x = exchange w (aborting r) stopping e at in ground (arith, x.0, x.1, x.2, x.3)
  work_from-Steps stopping w now outcome e at h =
      let x = exchange w stopping waiting e at in ground (arith, x.0, x.1, x.2, x.3)
  work_from-Steps (failed_again r) w now outcome e at h =
      let x = exchange w (failed_again r) waiting e at in
      let y = exchange w (failed_again r) (aborting r) e at in
      ground (arith, x.0, x.1, x.2, x.3, y.0, y.1, y.2, y.3)
  work_from-Steps exited w now outcome e at h = h
