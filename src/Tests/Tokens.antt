-- ===== src/Tests/Tokens.antt =====
-- A token source of generator/src/otlp_client.py through a renewal.
use analytics_testing.Base.{
  ℕ, ◌≡◌, ◌≤◌, refl, String, Option, some, List, [], ◌∷◌, All, length, replicate, arith,
}
use analytics_testing.Base.Int.{pos}
use analytics_testing.Base.Float.{Milli, milli_float, Milli-IsOrdered, Milli-IsBounded}
use analytics_testing.Generator.Client.{Claims, TokenSource, new_source, made}
use analytics_testing.Generator.Client.Tokens.{bearers, IsValid, IsTimely, tokens_never_expire}

-- A decoder and an encoder.
abbrev decode : String → Option (List ℕ)
decode secret = some (replicate 64 7)

abbrev encode : Claims → List ℕ → String → String
encode c key alg = alg

abbrev source : TokenSource Milli
source = record {
  key = replicate 64 7;
  alg = "HS512";
  queue = "logs";
  subject = "bench";
  ttl = 60;
  token = "";
  expires_at = 0;
}

source_made : new_source {F = Milli} decode "c2VjcmV0" "logs" "bench" (pos 30) ≡ made source
unfolding new_source
source_made = refl

-- In thousandths of a second: a first call, one before the token is due, and one after.
abbrev times : List Milli
times = 1000500 ∷ 1045000 ∷ 1046000 ∷ []

times-IsTimely : All (IsTimely source.ttl) times
times-IsTimely = (
  (refl, refl, λ k e. ground (arith, e)),
  ((refl, refl, λ k e. ground (arith, e)), ((refl, refl, λ k e. ground (arith, e)), tt)),
)

tokens_never_expire_example :
    (32 ≤ length source.key)
    × (60 ≤ source.ttl)
    × All (λ p. IsValid encode source p.0 p.1) (bearers encode times source)
tokens_never_expire_example =
    tokens_never_expire encode Milli-IsOrdered Milli-IsBounded decode "c2VjcmV0" "logs" "bench"
      (pos 30) source times source_made times-IsTimely
