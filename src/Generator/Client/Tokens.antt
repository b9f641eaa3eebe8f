-- ===== src/Generator/Client/Tokens.antt =====
-- The tokens of `TokenSource.bearer` (generator/src/otlp_client.py) over a sequence of calls.
use Prim.Native.String.{◌++◌ as str_append}
use analytics_testing.Base.{
  ℕ, Option, ◌+◌, ◌-◌, length, ◌≡◌, ◌≤◌, refl, ◌∙◌, true, Bool-cases, inl, inr, String, List, [],
  ◌∷◌, All, arith,
}
use analytics_testing.Base.Int.{ℤ, pos, ◌+ℤ◌}
use analytics_testing.Base.Float.{Float, ◌≼◌, IsOrdered, IsBounded}
use analytics_testing.Generator.Client.{Claims, TokenSource, made, new_source, claims_at, bearer}

abbrev pub exact_limit : ℕ
exact_limit = 2251799813685248

module _ {F : Type 0} ⦃fl : Float F⦄ where
  open fl use {lit, lt, trunc}

  -- A time since the epoch, before 2^53 seconds, whose expiry is at most 2^51.
  abbrev pub IsTimely : ℕ → F → Type 0
  IsTimely ttl now =
      (lit 0 1 ≼ now)
      × (lt now (lit 9007199254740992 1) ≡ true)
      × ((k : ℕ) → trunc now ≡ pos k → k + ttl ≤ exact_limit)

module _ {F : Type 0} ⦃fl : Float F⦄ (encode : Claims → List ℕ → String → String) where
  open fl use {lit, add, mul, lt, trunc}

  -- `bearer` called at the times of the list, in that order: each time with the token it returned.
  unfoldable pub bearers : List F → TokenSource F → List (F × String)
  unfolding bearer
  bearers [] s = []
  bearers (now ∷ later) s = let (token, s') = bearer encode now s in (now, token) ∷ bearers later s'

  -- The token is signed with the key and the algorithm of the source for its subject and queue, and
  -- it expires at a whole second after `now`.
  abbrev pub IsValid : TokenSource F → F → String → Type 0
  IsValid s now token =
      (c : Claims) × (exp : ℕ) × (token ≡ str_append "Bearer " (encode c s.key s.alg))
      × (c.sub ≡ s.subject)
      × (c.ingestion_queue ≡ s.queue)
      × (c.exp ≡ pos exp)
      × (lt now (lit exp 1) ≡ true)

  -- A token that is not due is valid; there is none before the first call.
  abbrev pub IsFresh : TokenSource F → Type 0
  IsFresh s = (t : F) → lit 0 1 ≼ t → lt t s.expires_at ≡ true → IsValid s t s.token

  abbrev SameSettings : TokenSource F → TokenSource F → Type 0
  SameSettings s s' =
      (s'.key ≡ s.key)
      × (s'.alg ≡ s.alg)
      × (s'.queue ≡ s.queue)
      × (s'.subject ≡ s.subject)
      × (s'.ttl ≡ s.ttl)

  module _ (ord : IsOrdered F) (bounds : IsBounded F) where
    -- A new token is good until three quarters of its time to live have passed.
    minted_good :
        (now t : F) (ttl k : ℕ)
        → lt now (lit (k + 1) 1) ≡ true
        → 60 ≤ ttl
        → k + ttl ≤ exact_limit
        → lt t (add now (mul (lit ttl 1) (lit 3 4))) ≡ true
        → lt t (lit (k + ttl) 1) ≡ true
    minted_good now t ttl k below long small h =
        let share =
          bounds.mul_quarters_le ttl 3 (ttl - 2) (omega arith) (omega arith) (omega arith)
            (omega arith) (omega arith) in
        let due =
          bounds.add_le now _ (k + 1) (ttl - 2) (omega arith) (bounds.le_of_lt _ _ below) share in
        let early =
          ord.lit_mono (k + 1 + (ttl - 2)) 1 (k + ttl) 1 (omega arith) (omega arith)
            (omega arith) in
        bounds.lt_of_lt_of_le t _ _ h (ord.le_trans _ _ _ due early)

    -- One call returns a valid token and leaves the source fresh.
    bearer-IsFresh :
        (now : F) (s : TokenSource F)
        → 60 ≤ s.ttl
        → IsTimely s.ttl now
        → IsFresh s
        → let (token, s') = bearer encode now s in
          IsValid s now token × IsFresh s' × SameSettings s s'
    unfolding bearer claims_at ◌+ℤ◌
    bearer-IsFresh now s long (born, bounded, small) h = elim (Bool-cases (lt now s.expires_at)) [
      | inl early ↦ rw early (h now born early, h, (refl, refl, refl, refl, refl))
      | inr due ↦
          let (k, whole, below) = bounds.trunc_lt now born bounded in
          let fits = small k whole in
          let next =
            ord.lit_mono (k + 1) 1 (k + s.ttl) 1 (omega arith) (omega arith) (omega arith) in
          let c = claims_at now s in
          let expiry : c.exp ≡ pos (k + s.ttl) = ground (arith, whole) in
          rw due (
            (c, k + s.ttl, refl, refl, refl, expiry, bounds.lt_of_lt_of_le _ _ _ below next),
            λ t born' early. (
              c,
              k + s.ttl,
              refl,
              refl,
              refl,
              expiry,
              minted_good now t s.ttl k below long fits early,
            ),
            (refl, refl, refl, refl, refl),
          )
    ]

    IsValid-same :
        (s₀ s : TokenSource F) (now : F) (token : String)
        → SameSettings s₀ s
        → IsValid s now token
        → IsValid s₀ now token
    IsValid-same s₀ s now token (key, alg, queue, subject, ttl)
          (c, exp, signed, sub, to, at, good) =
        (c, exp, rw (← key, ← alg) signed, rw (← subject) sub, rw (← queue) to, at, good)

    bearers-IsValid :
        (times : List F) (s₀ s : TokenSource F)
        → SameSettings s₀ s
        → 60 ≤ s.ttl
        → All (IsTimely s.ttl) times
        → IsFresh s
        → All (λ p. IsValid s₀ p.0 p.1) (bearers times s)
    unfolding bearers
    bearers-IsValid [] s₀ s same long timely h = tt
    bearers-IsValid (now ∷ later) s₀ s same long timely h =
        let s' = (bearer encode now s).1 in
        let x = bearer-IsFresh now s long timely.0 h in
        let (key, alg, queue, subject, ttl) = x.2 in
        let same' : SameSettings s₀ s' =
          (key ∙ same.0, alg ∙ same.1, queue ∙ same.2, subject ∙ same.3, ttl ∙ same.4) in
        (
          IsValid-same s₀ s now (bearer encode now s).0 same x.0,
          bearers-IsValid later s₀ s' same' (rw ttl long) (rw ttl timely.1) x.1,
        )

    -- A source that the constructor accepts has a key of at least 32 bytes and a time to live of at
    -- least 60 seconds, and every token that it ever returns is signed with that key for its subject
    -- and queue and expires after the time of the call, at whatever times and in whatever order
    -- `bearer` is called, if every time lies between the epoch and 2^53 seconds after it, and no expiry
    -- of a token minted at one is beyond 2^51.
    pub tokens_never_expire :
        (decode : String → Option (List ℕ)) (secret queue subject : String) (ttl_seconds : ℤ)
        (s : TokenSource F) (times : List F)
        → new_source decode secret queue subject ttl_seconds ≡ made s
        → All (IsTimely s.ttl) times
        → (32 ≤ length s.key) × (60 ≤ s.ttl) × All (λ p. IsValid s p.0 p.1) (bearers times s)
    unfolding new_source
    tokens_never_expire decode secret queue subject ttl_seconds s times h timely =
        let start : (32 ≤ length s.key) × (60 ≤ s.ttl) × (s.expires_at ≡ lit 0 1) =
          ground (arith, h) in
        let fresh : IsFresh s = λ t born early. absurd (
          ground (
            arith,
            start.2,
            born,
            early,
            bounds.lt_of_lt_of_le t (lit 0 1) t,
            bounds.lt_irrefl t,
          )) in
        (
          start.0,
          start.1,
          bearers-IsValid times s s (refl, refl, refl, refl, refl) start.1 timely fresh,
        )
