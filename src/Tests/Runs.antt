-- ===== src/Tests/Runs.antt =====
-- A step of two batches on two workers, one of which the collector refuses, with the engine of
-- generator/src/loadgen.py and the validator of bench/validate_correctness.py.
use mathlib.Core.List.{Perm, Permᴰ}
use mathlib.Core.Option.{some-ne-none}
use analytics_testing.Base.{
  ℕ, ◌+◌, ◌≡◌, ◌≢◌, ◌≤◌, refl, Bool, true, false, String, none, some, List, [], ◌∷◌, ◌++◌, sum_by,
  select, arith, eq_iff,
}
use analytics_testing.Base.Int.{pos, ◌+ℤ◌}
use analytics_testing.Base.Float.{Milli, milli_float}
use analytics_testing.Generator.Metrics.State.{Metrics}
use analytics_testing.Generator.Metrics.{
  new_metrics, record_failure, record_inflight, record_offered, record_success, set_step,
}
use analytics_testing.Generator.Payload.{
  AnyValue, LogRecord, RequestTemplate, PayloadFactory, new_factory, stamp, seq_of, template_for,
}
use analytics_testing.Generator.Main.{manifest}
use analytics_testing.Generator.Engine.State.{Step, Outcome, answered, Workload, Engine}
use analytics_testing.Generator.Engine.{Event, begin, pace, work, initial, start, run}
use analytics_testing.Generator.Engine.Tiling.Weights.{within, sent}
use analytics_testing.Generator.Engine.Tiling.Once.{
  IsStocked, new_factory-IsStocked, IsAtRest, sent_once, never_sent_twice,
}
use analytics_testing.Generator.Engine.Ledger.Defs.{wire_count, is_ok, is_refused, rpc_size}
use analytics_testing.Generator.Engine.Ledger.Totals.{totals_bounded, totals_reconcile}
use analytics_testing.Generator.Engine.Signed.{IsSignedFactory}
use analytics_testing.Generator.Engine.Spans.{Spans, start-Spans}
use analytics_testing.Bench.Validate.{Lake, pass, check_run, run_rows}
use analytics_testing.Bench.Validate.Queries.{Row, in_window, has_gen_id}
use analytics_testing.Pipeline.{read_manifest}
use analytics_testing.Pipeline.Landing.{landed, row_of}
use analytics_testing.Pipeline.Reconcile.{lossless_run}

abbrev log_record : LogRecord Milli
log_record = record {
  time_unix_nano = 0;
  observed_time_unix_nano = 0;
  severity_number = 9;
  severity_text = "INFO";
  body = "order placed";
  trace_id = 1;
  span_id = 1;
  attributes =
      ("route", AnyValue.string_value "/api/orders")
      ∷ ("bench.gen_id", AnyValue.string_value "gen-a")
      ∷ ("bench.seq", AnyValue.int_value (pos 0))
      ∷ [];
}

abbrev template : ℕ → RequestTemplate Milli
template i = record {
  resource = [];
  records = log_record ∷ log_record ∷ [];
  record_count = 2;
  approx_bytes = 300;
}

abbrev pub workload : Workload
workload = record {
  batch_size = 2;
  max_inflight = 4;
  polite = false;
  abort_on_consecutive_failures = 0;
}

abbrev pub factory : PayloadFactory Milli
factory = new_factory template "gen-a" 2 2 1

abbrev pub metrics : Metrics Milli
metrics = new_metrics "run-1" 1000 0

abbrev pub engine : Engine Milli
engine = initial workload 2 factory metrics

abbrev pub answer : Bool → String → Outcome Milli
answer ok code =
    answered (record { ok = ok; latency_s = 5; code = code; detail = ""; retry_after_s = 0 })

abbrev pub step : Step Milli
step = record { index = 0; rps = 2000; duration_seconds = 2000 }

-- The sections of the pacer that offer one batch at the time `now`.
abbrev pub one_batch : ℕ → List (Event Milli)
one_batch now =
    pace now false
    ∷ pace now false
    ∷ pace now false
    ∷ pace 0 false
    ∷ pace now false
    ∷ pace now false
    ∷ []

-- The sections of worker `w` on one item.
abbrev pub one_item : ℕ → Outcome Milli → List (Event Milli)
one_item w outcome =
    work w 7000 outcome
    ∷ work w 7000 outcome
    ∷ work w 7000 outcome
    ∷ work w 7000 outcome
    ∷ work w 7000 outcome
    ∷ work w 7000 outcome
    ∷ work w 7000 outcome
    ∷ work w 7000 outcome
    ∷ work w 7000 outcome
    ∷ work w 7000 outcome
    ∷ work w 7000 outcome
    ∷ []

abbrev pub events : List (Event Milli)
events =
    begin step 0 0 ∷ one_batch 0
    ++ one_item 1 (answer true "OK")
    ++ one_batch 1000
    ++ one_item 0 (answer false "RESOURCE_EXHAUSTED")
    ++ pace 2000 false ∷ pace 2000 false ∷ pace 2000 false ∷ []

pub factory-IsStocked : IsStocked 2 factory
unfolding seq_of
factory-IsStocked =
    new_factory-IsStocked template "gen-a" 2 2 1
      (λ i. (((λ e. some-ne-none _ e), ((λ e. some-ne-none _ e), tt)), refl, refl))

factory-IsSigned : IsSignedFactory factory
unfolding new_factory
factory-IsSigned = ((refl, (refl, tt)), ((refl, (refl, tt)), tt))

pub started : start workload 2 factory metrics ≡ some engine
unfolding start new_factory
started = refl

events-IsAtRest : IsAtRest (run events engine)
unfolding run new_metrics new_factory initial template_for record_failure record_inflight ◌+ℤ◌
    record_offered record_success set_step
events-IsAtRest = record { pacer = refl; queue = tt; workers = (refl, (refl, tt)) }

sent_once_example :
    sum_by (sent 2 3) (run events engine).wire ≡ within 0 (run events engine).next_seq 3
sent_once_example =
    sent_once workload 2 factory metrics engine events 3 factory-IsStocked started events-IsAtRest

never_sent_twice_example :
    sum_by (sent 2 3) (run events engine).wire ≤ within 0 (run events engine).next_seq 3
never_sent_twice_example =
    never_sent_twice workload 2 factory metrics engine events 3 factory-IsStocked started

totals_reconcile_example :
    ((run events engine).metrics.totals.records_offered ≡ 4)
    × ((run events engine).metrics.totals.records_offered
        ≡ sum_by rpc_size (run events engine).wire)
    × ((run events engine).metrics.totals.records_accepted ≡ 2)
    × ((run events engine).metrics.totals.records_rejected ≡ 2)
unfolding run new_metrics new_factory initial template_for record_failure record_inflight ◌+ℤ◌
    record_offered record_success set_step stamp
totals_reconcile_example =
    totals_reconcile workload 2 factory metrics engine events factory-IsStocked refl refl refl
      started events-IsAtRest

totals_bounded_example :
    ((run events engine).metrics.totals.records_accepted
      ≤ sum_by (wire_count is_ok) (run events engine).wire)
    × ((run events engine).metrics.totals.records_rejected
        ≤ sum_by (wire_count is_refused) (run events engine).wire)
    × ((run events engine).metrics.totals.records_accepted
          + (run events engine).metrics.totals.records_rejected
        ≤ (run events engine).next_seq)
unfolding new_metrics
totals_bounded_example =
    totals_bounded workload 2 factory metrics engine events factory-IsStocked refl refl refl started

start-Spans_example : Spans (run events engine)
unfolding new_metrics
start-Spans_example =
    start-Spans workload 2 factory metrics engine events factory-IsStocked refl refl refl started

abbrev row : String → ℕ → Row
row id n = record {
  gen_id = some id;
  seq = some (pos n);
  timestamp = 7;
  severity_text = some "INFO";
  body = some "order placed";
}

-- The lake holds the rows of the acknowledged batch in another order, and a foreign row.
abbrev lake : Lake
lake = record { rows = row "gen-a" 1 ∷ row "gen-b" 0 ∷ row "gen-a" 0 ∷ []; watermark = none }

rows-Perm :
    Perm
      (run_rows ("gen-a" ∷ []) (select (in_window 0 100) lake.rows))
      (landed (run events engine).wire)
unfolding run new_metrics new_factory initial template_for record_failure record_inflight ◌+ℤ◌
    record_offered record_success set_step run_rows in_window has_gen_id landed row_of stamp seq_of
rows-Perm = ∣ Permᴰ.swap refl refl ∣₁

named : (run events engine).factory.gen_id ≢ ""
unfolding run new_metrics new_factory initial template_for record_failure record_inflight ◌+ℤ◌
    record_offered record_success set_step
named = λ e. ground (arith, (eq_iff "gen-a" "").1 e)

lossless_run_example :
    (check_run (read_manifest (manifest (run events engine))) lake 0 100).verdict ≡ pass
unfolding run new_metrics new_factory initial template_for record_failure record_inflight ◌+ℤ◌
    record_offered record_success set_step
lossless_run_example =
    lossless_run workload 2 factory metrics engine events lake 0 100 factory-IsStocked
      factory-IsSigned refl refl refl started events-IsAtRest named rows-Perm
