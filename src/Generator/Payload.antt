-- ===== src/Generator/Payload.antt =====
-- generator/src/payload.py: the request templates, their stamping, and the pool that is partitioned
-- by worker.
pub mod Ranges
pub mod Stamping
pub mod Data
pub mod Draws
pub mod Bounds
pub mod Build
pub mod Returns
use analytics_testing.Base.{
  ℕ, zero, suc, ◌+◌, ◌*◌, ◌%◌, max, Bool, true, false, String, Option, none, some, List, [], ◌∷◌,
  length, get_elem?, map, if◌then◌else◌, str_eq,
}
use analytics_testing.Base.Int.{ℤ, pos}

-- `common_pb2.AnyValue`, the kinds that `_kv` sets.
pub data AnyValue (F : Type 0) : Type 0 where
  bool_value : Bool → AnyValue F
  int_value : ℤ → AnyValue F
  double_value : F → AnyValue F
  string_value : String → AnyValue F

abbrev pub Attributes : Type 0 → Type 0
Attributes F = List (String × AnyValue F)

-- `logs_pb2.LogRecord`
pub record LogRecord (F : Type 0) : Type 0 where
  pub time_unix_nano : ℕ
  pub observed_time_unix_nano : ℕ
  pub severity_number : ℕ
  pub severity_text : String
  pub body : String
  pub trace_id : ℕ
  pub span_id : ℕ
  pub attributes : Attributes F

-- `class RequestTemplate`: the log records of the request. The handles `seq_values` and `records`
-- point into them, so a write through a handle is a write to a record.
pub record RequestTemplate (F : Type 0) : Type 0 where
  pub resource : Attributes F
  pub records : List (LogRecord F)
  pub record_count : ℕ
  pub approx_bytes : ℕ

module _ {F : Type 0} where
  -- `_find_seq_value`; `none` is the `RuntimeError`.
  unfoldable pub find_seq_value : Attributes F → Option (AnyValue F)
  find_seq_value [] = none
  find_seq_value ((k, v) ∷ rest) = if str_eq k "bench.seq" then some v else find_seq_value rest

  -- `value.int_value = seq`, through the handle that `_find_seq_value` returned.
  unfoldable pub put_seq_value : ℕ → Attributes F → Attributes F
  put_seq_value seq [] = []
  put_seq_value seq ((k, v) ∷ rest) =
      if str_eq k "bench.seq"
      then (k, AnyValue.int_value (pos seq)) ∷ rest
      else (k, v) ∷ put_seq_value seq rest

  -- The loop of `stamp`.
  unfoldable pub stamp_records : ℕ → ℕ → List (LogRecord F) → List (LogRecord F)
  unfolding put_seq_value
  stamp_records now_ns seq [] = []
  stamp_records now_ns seq (r ∷ rs) =
      record r {
        time_unix_nano = now_ns;
        observed_time_unix_nano = now_ns;
        attributes = put_seq_value seq r.attributes;
      }
      ∷ stamp_records now_ns (seq + 1) rs

  -- `RequestTemplate.stamp`: the template after it, and the next sequence number.
  unfoldable pub stamp : ℕ → ℕ → RequestTemplate F → RequestTemplate F × ℕ
  unfolding stamp_records
  stamp now_ns first_seq t = (
    record t { records = stamp_records now_ns first_seq t.records },
    first_seq + length t.records,
  )

  -- What a record says of its sequence number, as the collector reads it.
  unfoldable pub seq_of : LogRecord F → Option (AnyValue F)
  unfolding find_seq_value
  seq_of r = find_seq_value r.attributes

-- `class PayloadFactory`, what the engine reads of it.
pub record PayloadFactory (F : Type 0) : Type 0 where
  pub gen_id : String
  pub batch_size : ℕ
  pub workers : ℕ
  pub variants_per_worker : ℕ
  pub templates : List (RequestTemplate F)

module _ {F : Type 0} where
  -- The loop of `_build_pool` from index `i`, `n` templates long.
  unfoldable pub build_from : (ℕ → RequestTemplate F) → ℕ → ℕ → List (RequestTemplate F)
  build_from build i zero = []
  build_from build i (suc n) = build i ∷ build_from build (i + 1) n

  -- `__init__` with `_build_pool`; `build i` is `_build_template` on the i-th random stream.
  unfoldable pub new_factory : (ℕ → RequestTemplate F) → String → ℕ → ℕ → ℕ → PayloadFactory F
  unfolding build_from
  new_factory build gen_id batch_size workers variants =
      let w = max 1 workers in
      let v = max 1 variants in
      record {
        gen_id = gen_id;
        batch_size = batch_size;
        workers = w;
        variants_per_worker = v;
        templates = build_from build 0 (w * v);
      }

-- The index of `template_for(worker_id, variant)` in the pool.
unfoldable pub template_index : ℕ → ℕ → ℕ → ℕ → ℕ
template_index workers variants worker_id variant =
    worker_id % workers * variants + variant % variants

module _ {F : Type 0} where
  -- `template_for`; `none` is the `IndexError`.
  unfoldable pub template_for : PayloadFactory F → ℕ → ℕ → Option (RequestTemplate F)
  unfolding template_index
  template_for f worker_id variant =
      get_elem? f.templates (template_index f.workers f.variants_per_worker worker_id variant)
