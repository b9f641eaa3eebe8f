-- ===== src/Bench/Report/Window.antt =====
-- The window of samples that bench/report.py fits a trend through.
use analytics_testing.Base.{
  ℕ, zero, suc, ◌+◌, ◌-◌, ◌*◌, ◌/◌, ◌≤◌, ◌≡◌, some, List, [], ◌∷◌, length, drop, if◌then◌else◌, ltb,
  arith,
}
use analytics_testing.Base.Float.{Float}
use analytics_testing.Bench.Statistics.{steady_window}
use analytics_testing.Bench.Report.{PipelineRow, Backlog, usable, backlog_of, analyse_backlog}

length-drop : {A : Type 0} (n : ℕ) (xs : List A) → length (drop n xs) ≡ length xs - n
length-drop zero xs = omega arith
length-drop (suc n) [] = omega arith
length-drop (suc n) (x ∷ xs) = omega (arith, length-drop n xs)

length-steady_window :
    {A : Type 0} (rows : List A)
    → length (steady_window rows)
      ≡ (if ltb (length rows) 8 then length rows else length rows - length rows / 4)
unfolding steady_window
length-steady_window rows = ground (arith, length-drop (length rows / 4) rows)

module _ {F : Type 0} ⦃fl : Float F⦄ (fmean : List F → F) where
  backlog_of-counts :
      (total : ℕ) (window : List (F × F × F)) (b : Backlog F)
      → backlog_of fmean total window ≡ some b
      → (b.samples ≡ length window) × (b.discarded_warmup ≡ total - length window)
  backlog_of-counts total [] b e = cc e
  backlog_of-counts total (r ∷ rest) b e = ground (arith, e)

  -- Where `analyse_backlog` is available its trend is fitted through at least 4 samples, and the ones
  -- that are discarded as warm-up are the rest of the usable rows, at most a quarter of them.
  pub backlog_window :
      (rows : List (PipelineRow F)) (b : Backlog F)
      → analyse_backlog fmean rows ≡ some b
      → (4 ≤ b.samples)
        × (b.samples + b.discarded_warmup ≡ length (usable rows))
        × (4 * b.discarded_warmup ≤ length (usable rows))
  unfolding analyse_backlog
  backlog_window rows b e =
      let pl = usable rows in
      let size = length-steady_window pl in
      let many : 4 ≤ length pl = ground (arith, e) in
      let found : backlog_of fmean (length pl) (steady_window pl) ≡ some b =
        ground (arith, e, many) in
      let (samples, discarded) = backlog_of-counts (length pl) (steady_window pl) b found in
      ground (arith, size, many, samples, discarded)
