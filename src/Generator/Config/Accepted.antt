-- ===== src/Generator/Config/Accepted.antt =====
-- What holds of a configuration that `load` of generator/src/config.py returns.
use analytics_testing.Base.{
  ◌<◌, ◌≡◌, subst, Bool, true, false, not, ◌||◌, String, Option, none, some, List, length, str_eq,
  arith,
}
use analytics_testing.Base.Int.{ℤ, ◌≤ℤ◌, ltb_ℤ}
use analytics_testing.Base.Float.{Float}
use analytics_testing.Base.Options.{>>=-eq-some, >>-eq-some, some-inj}
use analytics_testing.Generator.Engine.State.{Step}
use analytics_testing.Generator.Config.{Node, Entries, find, workload_of}
use analytics_testing.Generator.Config.Steps.{
  positive, out_of_range, checked, to_float, InOrder, build_steps-InOrder,
}
use analytics_testing.Generator.Config.Settings.{
  Target, Auth, WorkloadConfig, has_part, read_target, read_auth, read_workload,
}
use analytics_testing.Generator.Config.Load.{GeneratorConfig, finish, assemble, load}

not-true : (b : Bool) → not b ≡ true → b ≡ false
not-true b h = ground (arith, h)

module _ {F : Type 0} ⦃fl : Float F⦄ (parse : String → Option F) (parse_int : String → Option ℤ)
    (show : Node F → String) (lower : String → String) where
  open fl use {trunc}

  positive-eq-some :
      (allow_zero : Bool) (o : Option (Node F)) (x : F)
      → positive parse allow_zero o ≡ some x
      → out_of_range parse allow_zero x ≡ false
  unfolding positive
  positive-eq-some allow_zero o x h = by_value (to_float parse o) h
    where
      by_value :
          (v : Option F)
          → checked parse allow_zero v ≡ some x
          → out_of_range parse allow_zero x ≡ false
      by_value none e = cc e
      by_value (some y) e = ground (arith, e)

  -- The workload has a rate and a duration, and its bound can be met.
  pub record IsWorkable (wl : WorkloadConfig F) : Type 0 where
    pub rate : out_of_range parse false wl.target_rps ≡ false
    pub duration : out_of_range parse false wl.duration_seconds ≡ false
    pub bound : wl.workers ≤ℤ wl.max_inflight
    pub mode : (str_eq wl.retry_mode "none" || str_eq wl.retry_mode "polite") ≡ true

  read_workload-IsWorkable :
      (w : Entries F) (wl : WorkloadConfig F)
      → read_workload parse parse_int show lower w ≡ some wl
      → IsWorkable wl
  unfolding read_workload
  read_workload-IsWorkable w wl h =
      let (mode, h₁) = >>-eq-some _ _ h in
      let (rate, rate_ok, h₂) = >>=-eq-some _ _ h₁ in
      let (duration, duration_ok, h₃) = >>=-eq-some _ _ h₂ in
      let (_, _, h₄) = >>=-eq-some _ _ h₃ in
      let (_, _, h₅) = >>=-eq-some _ _ h₄ in
      let (workers, _, h₆) = >>=-eq-some _ _ h₅ in
      let (_, _, h₇) = >>=-eq-some _ _ h₆ in
      let (_, _, h₈) = >>=-eq-some _ _ h₇ in
      let (max_inflight, _, h₉) = >>=-eq-some _ _ h₈ in
      let (_, _, h₁₀) = >>=-eq-some _ _ h₉ in
      let (bound, h₁₁) = >>-eq-some _ _ h₁₀ in
      subst IsWorkable (some-inj h₁₁) (record {
        rate = positive-eq-some false _ rate rate_ok;
        duration = positive-eq-some false _ duration duration_ok;
        bound = bound_of (trunc max_inflight) (trunc workers) bound;
        mode = mode;
      })
    where
      bound_of : (a b : ℤ) → not (ltb_ℤ a b) ≡ true → b ≤ℤ a
      bound_of a b h = ground arith

  read_target-host :
      (tgt : Entries F) (t : Target F)
      → read_target parse parse_int show lower tgt ≡ some t
      → has_part t.host "${" ≡ false
  unfolding read_target
  read_target-host tgt t h =
      let (host, _, h₁) = >>=-eq-some _ _ h in
      let (_, _, h₂) = >>=-eq-some _ _ h₁ in
      let (_, _, h₃) = >>=-eq-some _ _ h₂ in
      let (_, _, h₄) = >>=-eq-some _ _ h₃ in
      let (expanded, h₅) = >>-eq-some _ _ h₄ in
      subst (λ (t : Target F). has_part t.host "${" ≡ false) (some-inj h₅) (not-true _ expanded)

  read_auth-secret :
      (au : Entries F) (a : Auth)
      → read_auth parse parse_int show lower au ≡ some a
      → has_part a.secret_b64 "${" ≡ false
  unfolding read_auth
  read_auth-secret au a h =
      let (secret, _, h₁) = >>=-eq-some _ _ h in
      let (expanded, h₂) = >>-eq-some _ _ h₁ in
      let (_, _, h₃) = >>=-eq-some _ _ h₂ in
      let (_, _, h₄) = >>=-eq-some _ _ h₃ in
      subst (λ (a : Auth). has_part a.secret_b64 "${" ≡ false) (some-inj h₄) (not-true _ expanded)

  -- The address and the secret are expanded, the workload can run, and so can each step.
  pub record IsAccepted (cfg : GeneratorConfig F) : Type 0 where
    pub host : has_part cfg.target.host "${" ≡ false
    pub secret : has_part cfg.auth.secret_b64 "${" ≡ false
    pub workload : IsWorkable cfg.workload
    pub steps : InOrder parse 0 cfg.steps
    pub some_step : 0 < length cfg.steps

  finish-IsAccepted :
      (gen prof : Entries F) (profile : String) (t : Target F) (a : Auth) (wl : WorkloadConfig F)
      (steps : List (Step F)) (cfg : GeneratorConfig F)
      → has_part t.host "${" ≡ false
      → has_part a.secret_b64 "${" ≡ false
      → IsWorkable wl
      → InOrder parse 0 steps × (0 < length steps)
      → finish parse parse_int show lower gen prof profile t a wl steps ≡ some cfg
      → IsAccepted cfg
  unfolding finish
  finish-IsAccepted gen prof profile t a wl steps cfg host secret workable ordered h =
      let (_, _, h₁) = >>=-eq-some _ _ h in
      let (_, _, h₂) = >>=-eq-some _ _ h₁ in
      let (_, _, h₃) = >>=-eq-some _ _ h₂ in
      let (_, _, h₄) = >>=-eq-some _ _ h₃ in
      let (_, _, h₅) = >>=-eq-some _ _ h₄ in
      subst IsAccepted (some-inj h₅) (record {
        host = host;
        secret = secret;
        workload = workable;
        steps = ordered.0;
        some_step = ordered.1;
      })

  assemble-IsAccepted :
      (gen prof : Entries F) (profile : String) (overrides : Entries F) (cfg : GeneratorConfig F)
      → assemble parse parse_int show lower gen prof profile overrides ≡ some cfg
      → IsAccepted cfg
  unfolding assemble
  assemble-IsAccepted gen prof profile overrides cfg h =
      let (defaults, _, h₁) = >>=-eq-some _ _ h in
      let (block, _, h₂) = >>=-eq-some _ _ h₁ in
      let (tgt, _, h₃) = >>=-eq-some _ _ h₂ in
      let (target, is_target, h₄) = >>=-eq-some _ _ h₃ in
      let (au, _, h₅) = >>=-eq-some _ _ h₄ in
      let (auth, is_auth, h₆) = >>=-eq-some _ _ h₅ in
      let (wl, is_workload, h₇) = >>=-eq-some _ _ h₆ in
      let (steps, are_steps, h₈) = >>=-eq-some _ _ h₇ in
      let workable =
        read_workload-IsWorkable (workload_of defaults block overrides) wl is_workload in
      finish-IsAccepted gen prof profile target auth wl steps cfg
        (read_target-host tgt target is_target) (read_auth-secret au auth is_auth) workable
        (build_steps-InOrder parse (find "steps" prof) wl.target_rps wl.duration_seconds steps
          workable.rate workable.duration are_steps)
        h₈

  -- What `load` returns has a host and a secret without a variable that did not expand, a retry mode
  -- that is none or polite, no more workers than the bound on requests in flight, and at least one
  -- step, numbered 0, 1, ... in order, where the rates and durations of the workload and of each step
  -- are neither negative nor 0.
  pub load-IsAccepted :
      (sub : String → String) (document : Node F) (profile : String) (overrides : Entries F)
      (cfg : GeneratorConfig F)
      → load parse parse_int show lower sub document profile overrides ≡ some cfg
      → IsAccepted cfg
  unfolding load
  load-IsAccepted sub document profile overrides cfg h =
      let (_, _, h₁) = >>=-eq-some _ _ h in
      let (gen, _, h₂) = >>=-eq-some _ _ h₁ in
      let (_, _, h₃) = >>=-eq-some _ _ h₂ in
      let (_, _, h₄) = >>=-eq-some _ _ h₃ in
      let (prof, _, h₅) = >>=-eq-some _ _ h₄ in
      assemble-IsAccepted gen prof profile overrides cfg h₅
