-- ===== src/Bench/Report.antt =====
-- bench/report.py: the trend of the backlog, the lag and the name of the bottleneck, on the statistics
-- of Bench/Statistics.
pub mod Bottleneck
pub mod Window
use analytics_testing.Base.{
  ℕ, zero, suc, ◌+◌, ◌-◌, ◌*◌, ◌/◌, min, Bool, true, false, not, ◌&&◌, ◌||◌, String, Option, none,
  some, List, [], ◌∷◌, length, get_or, map, drop, select, if◌then◌else◌, str_eq, ltb, ◌==◌,
}
use analytics_testing.Base.Int.{pos_part}
use analytics_testing.Base.Dict.{Dict, get_default, lookup, lookup_or}
use analytics_testing.Base.Float.{Float}
use analytics_testing.Bench.Statistics.{
  Stats, steady_window, series, is_zero, max_from, last_from, slope_or_zero, linear_slope, stats,
}
use analytics_testing.Base.Sorting.{sort}

-- A row of raw/pipeline.jsonl: what stands under `ts`, `catalog` and `watermark`, if it is a number.
pub record PipelineRow (F : Type 0) : Type 0 where
  pub ts : Option F
  pub backlog_files : Option F
  pub backlog_bytes : Option F
  pub lag_seconds : Option F

-- `totals` of generator.json.
pub record RunTotals (F : Type 0) : Type 0 where
  pub records_offered : ℕ
  pub records_accepted : ℕ
  pub records_rejected : ℕ
  pub stalled_ms : Option F
  pub duration_seconds : Option F

-- `class Run`, what the analysis reads of it; a host's rows are their `cpu_percent`.
pub record Run (F : Type 0) : Type 0 where
  pub transport : Option String
  pub totals : RunTotals F
  pub pipeline : List (PipelineRow F)
  pub hosts : Dict (List (Option F))

-- What `analyse_backlog` returns where it is available.
pub record Backlog (F : Type 0) : Type 0 where
  pub samples : ℕ
  pub discarded_warmup : ℕ
  pub files_first : F
  pub files_last : F
  pub files_slope_per_min : F
  pub bytes_slope_mib_per_min : F
  pub files_max : F

-- The answers of `bottleneck`, with the figures that their texts name.
pub data Constraint (F : Type 0) : Type 0 where
  not_direct : String → Constraint F
  nothing_offered : Constraint F
  ingestion_queue : ℕ → Constraint F
  accept_path : F → Constraint F
  compaction : F → Constraint F
  generator_bound : F → Constraint F
  inflight_bound : F → Constraint F
  cpu_on : List String → Constraint F
  not_reached : Constraint F

abbrev pub by_cpu : {F : Type 0} → List String → Constraint F
by_cpu [] = not_reached
by_cpu (r ∷ rs) = cpu_on (r ∷ rs)

module _ {F : Type 0} ⦃fl : Float F⦄ where
  open fl use {lit, add, sub, mul, div, lt, le, trunc}

  -- The rows that `analyse_backlog` looks at: their time, files and bytes.
  unfoldable pub usable : List (PipelineRow F) → List (F × F × F)
  usable [] = []
  usable (r ∷ rows) =
      let rest = usable rows in
      elim r.ts [
        | none ↦ rest
        | some t ↦ elim r.backlog_files [
          | none ↦ rest
          | some files ↦ (t, files, get_default (lit 0 1) r.backlog_bytes) ∷ rest
        ]
      ]

  -- `max(host_cpu, key=host_cpu.get)`, after the first entry.
  unfoldable pub top_from : String → F → Dict F → String
  top_from role v [] = role
  top_from role v ((k, w) ∷ rest) =
      let (k', w') = if lt v w then (k, w) else (role, v) in top_from k' w' rest

  abbrev pub top_is_generator : Dict F → Bool
  top_is_generator [] = false
  top_is_generator ((role, v) ∷ rest) = str_eq (top_from role v rest) "generator"

  -- `totals.get("duration_seconds", 0.0) or 1.0`
  abbrev pub duration_of : Option F → F
  duration_of none = lit 1 1
  duration_of (some d) = if is_zero d then lit 1 1 else d

  abbrev pub grows : Option (Backlog F) → Bool
  grows none = false
  grows (some b) = lt (lit 1 2) b.files_slope_per_min

  abbrev pub slope_of : Option (Backlog F) → F
  slope_of none = lit 0 1
  slope_of (some b) = b.files_slope_per_min

  abbrev pub ratio_of : RunTotals F → F
  ratio_of t = div (lit t.records_accepted 1) (lit t.records_offered 1)

  abbrev pub stall_share : RunTotals F → F
  stall_share t =
      div (get_default (lit 0 1) t.stalled_ms) (mul (duration_of t.duration_seconds) (lit 1000 1))

  -- The roles above 85%.
  abbrev pub saturated : Dict F → List String
  saturated cpu = map (λ p. p.0) (select (λ p. lt (lit 85 1) p.1) cpu)

  module _ (fmean : List F → F) where
    abbrev pub backlog_of : ℕ → List (F × F × F) → Option (Backlog F)
    backlog_of total [] = none
    backlog_of total ((t, f, b) ∷ rest) =
        let window = (t, f, b) ∷ rest in
        let xs = map (λ r. sub r.0 t) window in
        let files = map (λ r. r.1) rest in
        let nbytes = map (λ r. r.2) window in
        some (record {
          samples = length window;
          discarded_warmup = total - length window;
          files_first = f;
          files_last = last_from f files;
          files_slope_per_min = mul (slope_or_zero fmean xs (f ∷ files)) (lit 60 1);
          bytes_slope_mib_per_min =
              div (mul (slope_or_zero fmean xs nbytes) (lit 60 1)) (lit 1048576 1);
          files_max = max_from f files;
        })

    -- `analyse_backlog`; `none` is "not available".
    unfoldable pub analyse_backlog : List (PipelineRow F) → Option (Backlog F)
    unfolding steady_window usable linear_slope max_from last_from
    analyse_backlog rows =
        let pl = usable rows in
        if ltb (length pl) 4 then none else backlog_of (length pl) (steady_window pl)

    -- `host_cpu`
    unfoldable pub host_cpu : Dict (List (Option F)) → Dict F
    unfolding series
    host_cpu [] = []
    host_cpu ((role, rows) ∷ hosts) =
        let rest = host_cpu hosts in
        elim (series rows) [ [] ↦ rest | v ∷ vs ↦ (role, fmean (v ∷ vs)) ∷ rest ]

    -- `bottleneck`
    unfoldable pub bottleneck : Run F → Constraint F
    unfolding analyse_backlog host_cpu top_from
    bottleneck run =
        let transport = get_default "direct" run.transport in
        let totals = run.totals in
        let backlog = analyse_backlog run.pipeline in
        let cpu = host_cpu run.hosts in
        if not (str_eq transport "direct")
        then not_direct transport
        else if totals.records_offered == 0
        then nothing_offered
        else if ltb 0 totals.records_rejected
        then ingestion_queue totals.records_rejected
        else if lt (ratio_of totals) (lit 99 100)
        then accept_path (ratio_of totals)
        else if grows backlog
        then compaction (slope_of backlog)
        else if lt (lit 10 100) (stall_share totals)
        then (if top_is_generator cpu && lt (lit 80 1) (lookup_or "generator" (lit 0 1) cpu)
            then generator_bound (stall_share totals)
            else inflight_bound (stall_share totals))
        else by_cpu (saturated cpu)

  module _ (fmean median pstdev : List F → F) where
    -- `analyse_lag`
    unfoldable pub analyse_lag : List (PipelineRow F) → Option (Stats F)
    unfolding series stats
    analyse_lag rows =
        stats fmean median pstdev (select (le (lit 0 1)) (series (map (λ r. r.lag_seconds) rows)))
