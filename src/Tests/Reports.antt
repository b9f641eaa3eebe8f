-- ===== src/Tests/Reports.antt =====
-- A run that held its rate, as bench/report.py reads it.
use analytics_testing.Base.{◌+◌, ◌/◌, ◌≡◌, refl, none, some, List, [], ◌∷◌, length}
use analytics_testing.Base.Float.{Milli, milli_float}
use analytics_testing.Bench.Report.{PipelineRow, Run, not_reached, bottleneck}

abbrev row : Milli → Milli → PipelineRow Milli
row t files = record {
  ts = some t;
  backlog_files = some files;
  backlog_bytes = none;
  lag_seconds = some 2000;
}

abbrev rows : List (PipelineRow Milli)
rows =
    row 0 9000
    ∷ row 1000 8000
    ∷ row 2000 5000
    ∷ row 3000 5000
    ∷ row 4000 5000
    ∷ row 5000 5000
    ∷ row 6000 5000
    ∷ row 7000 5000
    ∷ row 8000 5000
    ∷ []

abbrev total : List Milli → Milli
total [] = 0
total (x ∷ xs) = x + total xs

abbrev mean : List Milli → Milli
mean xs = total xs / length xs

abbrev held : Run Milli
held = record {
  transport = none;
  totals = record {
    records_offered = 1000;
    records_accepted = 1000;
    records_rejected = 0;
    stalled_ms = some 5000;
    duration_seconds = some 60000;
  };
  pipeline = rows;
  hosts = ("generator", some 40000 ∷ none ∷ []) ∷ ("collector", []) ∷ [];
}

held_its_rate : bottleneck mean held ≡ not_reached
unfolding bottleneck
held_its_rate = refl
