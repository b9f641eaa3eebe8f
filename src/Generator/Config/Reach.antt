-- ===== src/Generator/Config/Reach.antt =====
-- Whether a rate can be offered at all: `class Pipeline` of generator/src/config.py.
use analytics_testing.Base.{◌&&◌, Option, none, some, if◌then◌else◌}
use analytics_testing.Base.Int.{ℤ, pos, ◌+ℤ◌, mul_ℤ}
use analytics_testing.Base.Float.{Float, float_ℤ, min_f, max_f}
use analytics_testing.Base.Options.{◌>>=◌}

-- `class Pipeline`
pub record Pipeline (F : Type 0) : Type 0 where
  pub max_delay_ms : F
  pub min_bucket_size : ℤ
  pub approx_record_bytes : ℤ

module _ {F : Type 0} ⦃fl : Float F⦄ where
  open fl use {lit, mul, div, lt, le, trunc}

  -- A quotient; `none` is the `ZeroDivisionError`.
  abbrev pub quotient : F → F → Option F
  quotient x y = if le y (lit 0 1) && le (lit 0 1) y then none else some (div x y)

  -- `math.ceil`
  abbrev pub ceil : F → ℤ
  ceil x = let t = trunc x in if lt (float_ℤ t) x then t +ℤ pos 1 else t

  -- `flush_seconds`
  unfoldable pub flush_seconds : Pipeline F → F → Option F
  flush_seconds p offered_rps =
      let delay = div p.max_delay_ms (lit 1000 1) in
      if le offered_rps (lit 0 1) then some delay else (do
        seconds_to_fill ←
            quotient (float_ℤ p.min_bucket_size) (mul offered_rps (float_ℤ p.approx_record_bytes))
        some (min_f delay seconds_to_fill))

  -- `max_reachable_rps`
  unfoldable pub max_reachable_rps : Pipeline F → ℤ → ℤ → F → Option F
  unfolding flush_seconds
  max_reachable_rps p workers batch_size offered_rps = do
    flush ← flush_seconds p offered_rps
    some (div (float_ℤ (mul_ℤ workers batch_size)) (max_f (lit 1 1000000000) flush))
