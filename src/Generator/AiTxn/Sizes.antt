-- ===== src/Generator/AiTxn/Sizes.antt =====
-- `oversize_error` of generator/src/payload_ai_txn.py against the limit of gRPC.
use analytics_testing.Base.{ℕ, ◌+◌, ◌*◌, ◌/◌, ◌≤◌, ◌<◌, max, ◌≡◌, some, arith}
use native.Mathlib.Decide.{dec_lt}
use native.Mathlib.Nat.{div-mul-le_self, lt-div-mul-add, mul-le-mul_left, mul-le-mul_right}
use analytics_testing.Generator.AiTxn.{
  AiTxnPayloadFactory, approx_batch_bytes, oversize_error, Oversize, grpc_max_message_bytes,
  safe_message_bytes, oversize_of,
}

-- The bytes per record, and the batch that is suggested.
figures :
    (batch size : ℕ) (e : Oversize)
    → 0 < batch
    → oversize_of batch size ≡ some e
    → (grpc_max_message_bytes ≤ size)
      × (e.per * batch ≤ size)
      × (size < e.per * batch + batch)
      × (e.safe * max 1 e.per ≤ safe_message_bytes)
unfolding oversize_of
figures batch size e hb h =
    let over : grpc_max_message_bytes ≤ size = ground arith in
    let per_eq : e.per ≡ size / batch = ground arith in
    let safe_eq : e.safe ≡ safe_message_bytes / max 1 e.per = ground arith in
    let low : e.per * batch ≤ size = rw per_eq (div-mul-le_self size batch) in
    let high : size < e.per * batch + batch = rw per_eq (lt-div-mul-add hb) in
    let room : e.safe * max 1 e.per ≤ safe_message_bytes =
      rw safe_eq (div-mul-le_self safe_message_bytes (max 1 e.per)) in
    (over, low, high, room)

-- So many records of the mean size stay below the limit.
scaled_below :
    (batch size per safe : ℕ)
    → 0 < batch
    → 4 ≤ per
    → size < per * batch + batch
    → safe * per ≤ safe_message_bytes
    → safe * size < grpc_max_message_bytes * batch
scaled_below batch size per safe hb hp high room =
    let quarter : safe * 4 ≤ safe * per = mul-le-mul_left safe hp in
    let whole : safe * size ≤ safe * (per * batch + batch) =
      mul-le-mul_left safe (omega (arith, high)) in
    let grouped : safe * (per * batch + batch) ≡ (safe * per + safe) * batch = grind arith in
    let few : safe * per + safe ≤ 3932160 = omega (arith, quarter, room) in
    let scaled : (safe * per + safe) * batch ≤ 3932160 * batch = mul-le-mul_right batch few in
    omega (arith, whole, grouped, scaled, hb)

suggested_below :
    (batch size per safe : ℕ)
    → 4 ≤ per
    → grpc_max_message_bytes ≤ size
    → size < per * batch + batch
    → safe * per ≤ safe_message_bytes
    → safe < batch
suggested_below batch size per safe hp over high room = elim (dec_lt safe batch) [
  | yes p ↦ p
  | no p ↦
      let most : per * batch ≤ per * safe = mul-le-mul_left per (omega (arith, p)) in
      let swapped : per * safe ≡ safe * per = grind arith in
      let quarter : safe * 4 ≤ safe * per = mul-le-mul_left safe hp in
      absurd (omega (arith, over, high, room, most, swapped, quarter, p))
]

module _ {F : Type 0} where
  -- Where `oversize_error` refuses a batch, the batch size that the message suggests is smaller, and
  -- that many records of the mean size stay below the limit, if the mean size of a record is at least
  -- 4 bytes.
  pub oversize_suggestion :
      (f : AiTxnPayloadFactory F) (e : Oversize)
      → 0 < f.batch_size
      → 4 ≤ e.per
      → oversize_error f ≡ some e
      → (e.safe < f.batch_size)
        × (e.safe * approx_batch_bytes f < grpc_max_message_bytes * f.batch_size)
  unfolding oversize_error
  oversize_suggestion f e hb hp h =
      let size = approx_batch_bytes f in
      let (over, low, high, room) = figures f.batch_size size e hb h in
      let at_least : max 1 e.per ≡ e.per = omega (arith, hp) in
      let room' : e.safe * e.per ≤ safe_message_bytes = rw at_least at room in
      (
        suggested_below f.batch_size size e.per e.safe hp over high room',
        scaled_below f.batch_size size e.per e.safe hb hp high room',
      )
