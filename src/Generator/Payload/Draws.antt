-- ===== src/Generator/Payload/Draws.antt =====
-- The values that generator/src/payload.py draws for a record: its severity, its latency and its
-- body. The random generator is an argument, and so are the severity numbers of the protocol.
use Prim.Native.Char.{Char}
use Prim.Native.String.{◌++◌ as str_append, count}
use analytics_testing.Base.{ℕ, ◌+◌, String, List, [], ◌∷◌, if◌then◌else◌, str_eq, ◌==◌}
use analytics_testing.Base.Int.{ℤ, pos, ◌-ℤ◌, clamp_ℤ}
use analytics_testing.Base.Float.{Float, int_of}
use analytics_testing.Base.Decimal.{hex_digits}
use analytics_testing.Base.Random.{
  Random, Draw, return, get_or_raise, ◌>>=◌, repeat, random, uniform, choice,
}
use analytics_testing.Generator.Payload.Data.{Latencies, PayloadData, get_default}

-- The values of the protocol's `SeverityNumber`.
pub record SeverityNumbers : Type 0 where
  pub trace : ℕ
  pub debug : ℕ
  pub info : ℕ
  pub warn : ℕ
  pub error : ℕ
  pub fatal : ℕ

-- `_SEVERITY_NUMBER.get(name, SEVERITY_NUMBER_INFO)`
abbrev pub severity_of : SeverityNumbers → String → ℕ
severity_of n name =
    if str_eq name "TRACE"
    then n.trace
    else if str_eq name "DEBUG"
    then n.debug
    else if str_eq name "INFO"
    then n.info
    else if str_eq name "WARN"
    then n.warn
    else if str_eq name "ERROR"
    then n.error
    else if str_eq name "FATAL"
    then n.fatal
    else n.info

abbrev pub lorem : List String
lorem =
    "request completed" ∷ "cache miss on key" ∷ "upstream latency elevated"
    ∷ "retrying downstream call" ∷ "token budget consumed" ∷ "payload validated"
    ∷ "connection pool checkout" ∷ "rate limit bucket refilled" ∷ "model inference finished"
    ∷ "streamed response flushed" ∷ []

-- `"".join(...)`
unfoldable pub join : List Char → String
join [] = ""
join (c ∷ cs) = String.◌∷◌ c (join cs)

module _ {F R : Type 0} ⦃fl : Float F⦄ (g : Random F R) where
  open fl use {lit, lt, trunc}

  -- The piecewise distribution between the percentiles.
  unfoldable pub draw_latency : F → F → F → F → Draw R F
  draw_latency p50 p95 p99 top = do
    u ← random g
    (if lt u (lit 50 100)
        then uniform g (lit 1 1) p50
        else if lt u (lit 95 100)
        then uniform g p50 p95
        else if lt u (lit 99 100)
        then uniform g p95 p99
        else uniform g p99 top)

  -- `_sample_latency`
  unfoldable pub sample_latency : Latencies F → Draw R ℤ
  unfolding draw_latency
  sample_latency spec = do
    x ←
        draw_latency (get_default (lit 100 1) spec.p50) (get_default (lit 500 1) spec.p95)
          (get_default (lit 1500 1) spec.p99) (get_default (lit 10000 1) spec.top)
    get_or_raise (int_of x)

  -- A text of at least `target` characters after `head`, which both payloads build.
  unfoldable pub pad_body : ℤ → String → Draw R String
  unfolding join
  pad_body target head =
      let pad_len = clamp_ℤ (target -ℤ pos (count head + 1)) in
      if pad_len == 0 then return head else (do
        pad ← repeat pad_len (choice g hex_digits)
        return (str_append head (str_append " " (join pad))))

  -- `_build_body`
  unfoldable pub build_body : PayloadData F → Draw R String
  unfolding pad_body
  build_body data_ = do
    head ← choice g lorem
    pad_body (get_default (pos 256) data_.body_bytes) head
