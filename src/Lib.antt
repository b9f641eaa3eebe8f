-- ===== src/Lib.antt =====
-- The load generator, the correctness validator and the report of analytics-testing.
--
-- The program offers synthetic OTLP logs to a collector at a fixed rate, and then checks that what
-- was acknowledged is what landed in the lake.
-- generator/src/loadgen.py runs the steps of a profile: a pacer thread gives out ranges of
-- sequence numbers and queues them, worker threads stamp them into their private request templates
-- (generator/src/payload.py), send them, and count the answers (generator/src/metrics.py).
-- generator/src/main.py runs the steps and writes manifest.json, and bench/validate_correctness.py
-- compares the rows of the lake with it. The end of the chain is Pipeline/Reconcile.
--
-- Base holds the shared names: numbers, lists, dictionaries, sorting, and `Float`, the interface of
-- Python's floats. No theorem depends on a representation of floats: what one needs of IEEE
-- arithmetic it takes as `IsOrdered`, `IsMonotone` and `IsBounded`, which `Milli`, multiples of
-- 1/1000, meets. `IsBounded` asks for the order and, of whole numbers below 2^53 only, that sums
-- and products with quarters do not exceed the exact ones and that truncation stays below the
-- bound: what IEEE doubles do there without rounding. Base/Random has `Random`, the interface of
-- `random.Random` with the ranges that Python's documentation gives (`IsRandom`; `random.choices`
-- answers for weights of which none is negative, one is positive and the sum is finite), and
-- `Draw`, a computation that draws and may raise; `Always` says what holds of it at every state of
-- the generator. Base/Decimal has `str` of an integer and its reading back, Base/Options the binds
-- of `Option`, for code that raises.
--
-- Generator/Metrics is `class Metrics`, one function for each method that holds `_lock`, on the
-- records of Metrics/State, with `percentile` in Metrics/Percentile. The Prometheus mirror, the CSV
-- columns' formatting and the sampler thread's clock are left out: a sample is flushed by a call.
-- Generator/Payload is `RequestTemplate`, `PayloadFactory` and `seq_ranges_overlap`; what `stamp`
-- needs of a template, that each record has its `bench.seq` attribute, is `IsReady`. The
-- construction of a factory is Payload/Build on the settings of Payload/Data, with the latencies
-- and bodies in Payload/Draws, where `int` of an infinity or NaN raises, and what the draws return
-- in Payload/Returns. That a number fits in the 64 bits of its protobuf field is not modelled.
-- Generator/AiTxn is generator/src/payload_ai_txn.py, whose templates carry one customer each: the
-- stamping and the two checks on a pool, the builder of one record (AiTxn/Build) and the pool of
-- all customers (AiTxn/Pool). In both payloads the serialised size of a request, Python's `.3f`,
-- the numbers of the OTLP severities and the random generator are arguments, and `describe`, which
-- prints the settings, is left out. Generator/Engine is `class LoadGenerator` as a state machine.
-- `Engine/State` has the attributes and, for each thread, a program counter; `Engine/Pacing` and
-- `Engine/Sending` have one function for each section of the pacer's and of a worker's code between
-- two points where another thread may run (a lock, the queue, the network). An `Event` says which
-- thread moves next and what it reads of the clock and the network, `act` makes that move, and
-- `run` makes a list of them: a theorem on all lists holds of every interleaving, every answer of
-- the network and every signal. The test of the stop flag, the wait for a batch's turn and the
-- reservation under `_seq_lock` are
-- sections of their own, and so are, in `_record_failure`, the read and the write of the counter of
-- failures, the test of the limit, the write of `_abort_reason` and that of `_stop`. The two reads of
-- `_drain_inflight` are one section; after an exception in a worker its item is dropped, as the
-- handler of `_worker_loop` does. `wire` records the RPCs as the collector sees them, which the
-- program does not keep, and `results` what `run_step` has returned to `main`; the engine reads
-- neither. The logging, and the joins of `stop`, are left out. Every function is a structural
-- recursion, on a list or on the events, except the digits of a number in Base/Decimal, which run
-- on fuel, with the theorem there that the number itself is enough. Engine/Signed follows
-- `bench.gen_id` from the pool to the wire, Engine/Tiling a sequence number through queue, workers
-- and wire, Engine/Ledger the totals, Engine/Spans the ranges of the steps, Engine/Steps their
-- counters, and Engine/Aborts the stop flag. Generator/Client is `TokenSource` of
-- generator/src/otlp_client.py; the base64 decoder and the JWT encoder are arguments. Of float
-- addition and multiplication it takes `IsBounded`. Generator/Config is generator/src/config.py:
-- YAML documents, `_merge` and the overlay of the workload (Config/Merge), `_positive` and
-- `_build_steps` (Config/Steps), the ceiling of a rate (Config/Reach), the settings of each mapping
-- (Config/Settings) and `load` (Config/Load). The YAML parser, the substitution of environment
-- variables in one text and Python's conversions of texts are arguments; the description of a
-- profile and the messages of a `ConfigError` are left out. Generator/Main has `_should_stop` and
-- the manifest, and in Main/Launch what `main` does up to the start of the engine, with its exit
-- codes. Main/Loop is its loop over the steps with the signal handler and the `finally`, a move at
-- a time between those of the engine's threads; the look at `interrupted` and the start of
-- `run_step` are two moves. How `PayloadData` is read out of `data:`, the time and the state of the
-- channel are arguments; the metadata, the log and the printed summary are left out.
--
-- Bench/Validate is `validate` and `build_view`, each SQL query a function on the list of rows
-- (Validate/Queries), with the checksums and their comparison with a baseline in
-- Validate/Checksums, where DuckDB's `hash` is an argument. A timestamp is a whole number of
-- microseconds. The texts of the details and the connection to DuckDB are left out.
--
-- Bench/Report is the analysis of bench/report.py: the trend of the backlog, the lag, and the
-- bottleneck with the figures that its text names; Bench/Statistics has the steady window, the
-- slope and the statistics of a series. A row is what its keys hold, if that is a number; Python's
-- `statistics` is an argument. The rendering is left out.
--
-- Pipeline joins generator and validator: `read_manifest` is manifest.json as the validator reads
-- it, `landed` the rows of the acknowledged RPCs. That the lake holds these and no others of the
-- generator is a hypothesis of the theorem there, up to order, since a collector and a compactor
-- stand between.
--
-- Scripts/Cfg is scripts/lib/cfg.py, on the documents of Generator/Config: the look-up of a dotted
-- path, and what each subcommand prints or exits with. `str.split`, `json.dumps` and the reading
-- of an index are arguments; reading the file is left out.
--
-- Tests has each theorem at a concrete input.
pub mod Base
pub mod Generator
pub mod Bench
pub mod Pipeline
pub mod Scripts
mod Tests
