-- ===== src/Generator/AiTxn.antt =====
-- generator/src/payload_ai_txn.py: the templates of the `ai_txn` schema, their stamping, and what the
-- factory says of its pool. The wire size of a request is an argument.
pub mod Stamping
pub mod Build
pub mod Records
pub mod Pool
pub mod Sizes
use analytics_testing.Base.{
  ℕ, zero, suc, ◌+◌, ◌*◌, ◌/◌, ◌%◌, max, Bool, true, false, not, ◌&&◌, String, Option, none, some,
  List, [], ◌∷◌, length, get_elem?, map, sum_by, if◌then◌else◌, str_eq, ltb, leb,
}
use analytics_testing.Base.Dict.{contains}
use analytics_testing.Base.Decimal.{show_nat}
use analytics_testing.Generator.Payload.{AnyValue, Attributes, LogRecord, template_index}

-- `class RequestTemplate` of this file. The handles `seq_values` and `records` point into the records
-- of the request, so a write through a handle is a write to a record.
pub record CustomerTemplate (F : Type 0) : Type 0 where
  pub resource : Attributes F
  pub records : List (LogRecord F)
  pub record_count : ℕ
  pub approx_bytes : ℕ
  pub customer_id : ℕ

-- The two variables `bench_v` and `snx_v`.
abbrev pub Handles : Type 0 → Type 0
Handles F = Option (AnyValue F) × Option (AnyValue F)

module _ {F : Type 0} where
  -- The body of the loop of `_find_seq_value`.
  abbrev pub seen : Handles F → String → AnyValue F → Handles F
  seen (bench_v, snx_v) k v =
      if str_eq k "bench.seq"
      then (some v, snx_v)
      else if str_eq k "snx.sequence_id"
      then (bench_v, some v)
      else (bench_v, snx_v)

  -- The loop: a later attribute of the same key replaces an earlier one.
  unfoldable pub find_handles : Handles F → Attributes F → Handles F
  find_handles found [] = found
  find_handles found ((k, v) ∷ rest) = find_handles (seen found k v) rest

  abbrev pub both : Handles F → Option (AnyValue F × AnyValue F)
  both (some b, some s) = some (b, s)
  both _ = none

  -- `_find_seq_value`; `none` is the `RuntimeError`.
  unfoldable pub find_seq_values : Attributes F → Option (AnyValue F × AnyValue F)
  unfolding find_handles
  find_seq_values attrs = both (find_handles (none, none) attrs)

  -- A write through the handle on the last attribute of that key.
  unfoldable pub put_last : String → AnyValue F → Attributes F → Attributes F
  put_last key v [] = []
  put_last key v ((k, w) ∷ rest) =
      let rest' = put_last key v rest in
      if str_eq k key && not (contains key rest) then (k, v) ∷ rest else (k, w) ∷ rest'

  abbrev pub stamped : ℕ → Attributes F → Attributes F
  stamped seq attrs =
      let s = AnyValue.string_value (show_nat seq) in
      put_last "snx.sequence_id" s (put_last "bench.seq" s attrs)

  -- The loop of `stamp`.
  unfoldable pub stamp_customer_records : ℕ → ℕ → List (LogRecord F) → List (LogRecord F)
  unfolding put_last
  stamp_customer_records now_ns seq [] = []
  stamp_customer_records now_ns seq (r ∷ rs) =
      record r {
        time_unix_nano = now_ns;
        observed_time_unix_nano = now_ns;
        attributes = stamped seq r.attributes;
      }
      ∷ stamp_customer_records now_ns (seq + 1) rs

  -- `RequestTemplate.stamp`: the template after it, and the next sequence number.
  unfoldable pub stamp_customer : ℕ → ℕ → CustomerTemplate F → CustomerTemplate F × ℕ
  unfolding stamp_customer_records
  stamp_customer now_ns first_seq t = (
    record t { records = stamp_customer_records now_ns first_seq t.records },
    first_seq + length t.records,
  )

-- `class AiTxnPayloadFactory`, its settings and its pool.
pub record AiTxnPayloadFactory (F : Type 0) : Type 0 where
  pub gen_id : String
  pub batch_size : ℕ
  pub workers : ℕ
  pub variants_per_worker : ℕ
  pub customers : ℕ
  pub templates : List (CustomerTemplate F)

-- The figures of the message of `oversize_error`.
pub record Oversize : Type 0 where
  pub size : ℕ
  pub per : ℕ
  pub safe : ℕ

-- The figures of the message of `coverage_warning`.
pub record Uncovered : Type 0 where
  pub pool : ℕ
  pub customers : ℕ

-- `GRPC_MAX_MESSAGE_BYTES`
abbrev pub grpc_max_message_bytes : ℕ
grpc_max_message_bytes = 4 * 1024 * 1024

-- `int(self.GRPC_MAX_MESSAGE_BYTES * 0.75)`, a product that a float holds exactly.
abbrev pub safe_message_bytes : ℕ
safe_message_bytes = 3 * 1024 * 1024

-- `oversize_error`, for the mean size of a batch.
unfoldable pub oversize_of : ℕ → ℕ → Option Oversize
oversize_of batch_size size =
    let per = size / max 1 batch_size in
    if leb grpc_max_message_bytes size
    then some (record { size = size; per = per; safe = safe_message_bytes / max 1 per })
    else none

module _ {F : Type 0} where
  -- `template_for`; `none` is the `IndexError`.
  unfoldable pub customer_template_for : AiTxnPayloadFactory F → ℕ → ℕ → Option (CustomerTemplate F)
  unfolding template_index
  customer_template_for f worker_id variant =
      get_elem? f.templates (template_index f.workers f.variants_per_worker worker_id variant)

  -- `approx_batch_bytes` of a pool that is not empty.
  unfoldable pub approx_batch_bytes : AiTxnPayloadFactory F → ℕ
  approx_batch_bytes f = sum_by (λ t. t.approx_bytes) f.templates / length f.templates

  unfoldable pub oversize_error : AiTxnPayloadFactory F → Option Oversize
  unfolding approx_batch_bytes oversize_of
  oversize_error f = oversize_of f.batch_size (approx_batch_bytes f)

  unfoldable pub coverage_warning : AiTxnPayloadFactory F → Option Uncovered
  coverage_warning f =
      let pool = f.workers * f.variants_per_worker in
      if ltb pool f.customers then some (record { pool = pool; customers = f.customers }) else none
