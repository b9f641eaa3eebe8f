-- ===== src/Generator/Client.antt =====
-- generator/src/otlp_client.py: the token that authenticates each RPC. The base64 decoder and the JWT
-- encoder are arguments.
pub mod Tokens
use Prim.Native.String.{◌++◌ as str_append}
use analytics_testing.Base.{
  ℕ, zero, suc, ◌+◌, ◌%◌, max, Bool, true, false, String, Option, none, some, List, [], ◌∷◌, length,
  get_elem?, leb, ltb, if◌then◌else◌,
}
use analytics_testing.Base.Int.{ℤ, pos, ◌+ℤ◌, clamp_ℤ}
use analytics_testing.Base.Float.{Float}
use analytics_testing.Generator.Engine.State.{ExportResult, Outcome, answered}

-- The payload of the token.
pub record Claims : Type 0 where
  pub sub : String
  pub iat : ℤ
  pub exp : ℤ
  pub ingestion_queue : String

-- `class TokenSource`
pub record TokenSource (F : Type 0) : Type 0 where
  pub key : List ℕ
  pub alg : String
  pub queue : String
  pub subject : String
  pub ttl : ℕ
  pub token : String
  pub expires_at : F

-- The `ValueError`s of the constructor.
pub data SourceError : Type 0 where
  not_base64 : SourceError
  short_key : ℕ → SourceError

pub data NewSource (F : Type 0) : Type 0 where
  refused : SourceError → NewSource F
  made : TokenSource F → NewSource F

module _ {F : Type 0} ⦃fl : Float F⦄ where
  open fl use {lit, add, mul, lt, trunc}

  abbrev source_of_key : List ℕ → String → String → ℤ → NewSource F
  source_of_key key queue subject ttl_seconds =
      if ltb (length key) 32
      then refused (short_key (length key))
      else made (record {
        key = key;
        alg = if leb 64 (length key) then "HS512" else "HS256";
        queue = queue;
        subject = subject;
        ttl = max 60 (clamp_ℤ ttl_seconds);
        token = "";
        expires_at = lit 0 1;
      })

  -- `TokenSource.__init__`; `decode` is `base64.b64decode`, `none` where it raises.
  unfoldable pub new_source :
      (String → Option (List ℕ)) → String → String → String → ℤ → NewSource F
  new_source decode secret queue subject ttl_seconds = elim (decode secret) [
    | none ↦ refused not_base64
    | some key ↦ source_of_key key queue subject ttl_seconds
  ]

  -- The claims of a token that is minted at the time `now`.
  unfoldable pub claims_at : F → TokenSource F → Claims
  claims_at now s = record {
    sub = s.subject;
    iat = trunc now;
    exp = trunc now +ℤ pos s.ttl;
    ingestion_queue = s.queue;
  }

  -- `bearer` at the time `now`, under the lock: the token, and the source after it; `encode` is
  -- `jwt.encode`.
  unfoldable pub bearer :
      (Claims → List ℕ → String → String) → F → TokenSource F → String × TokenSource F
  unfolding claims_at
  bearer encode now s =
      if lt now s.expires_at
      then (s.token, s)
      else let token = str_append "Bearer " (encode (claims_at now s) s.key s.alg) in
        (token, record s { token = token; expires_at = add now (mul (lit s.ttl 1) (lit 3 4)) })
