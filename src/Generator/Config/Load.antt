-- ===== src/Generator/Config/Load.antt =====
-- `load` of generator/src/config.py, from the parsed document on. A `ConfigError`, and any other
-- exception, is `none`. The expansion of a text is an argument beside those of Config/Settings.
use analytics_testing.Base.{ℕ, String, Option, some, List, [], ◌∷◌, ◌++◌, if◌then◌else◌}
use analytics_testing.Base.Int.{ℤ, ltb_ℤ}
use analytics_testing.Base.Float.{Float, float_ℤ}
use analytics_testing.Base.Options.{◌>>=◌}
use analytics_testing.Generator.Engine.State.{Step}
use analytics_testing.Generator.Config.{
  Node, null, flag, number, decimal, text, sequence, mapping, Items, no_items, item, Entries,
  no_entries, entry, find, workload_of,
}
use analytics_testing.Generator.Config.Steps.{to_float, is_falsy, build_steps}
use analytics_testing.Generator.Config.Settings.{
  Target, Auth, WorkloadConfig, as_mapping, mapping_or_empty, or_empty, read_target, read_auth,
  read_workload, read_pipeline,
}
use analytics_testing.Generator.Config.Reach.{
  Pipeline, quotient, ceil, flush_seconds, max_reachable_rps,
}

-- The figures of a warning.
pub record Unreachable (F : Type 0) : Type 0 where
  pub index : ℕ
  pub ceiling : F
  pub flush : F
  pub need : ℤ

-- `class GeneratorConfig`; the description is left out.
pub record GeneratorConfig (F : Type 0) : Type 0 where
  pub profile : String
  pub target : Target F
  pub auth : Auth
  pub workload : WorkloadConfig F
  pub steps : List (Step F)
  pub data_ : Entries F
  pub output : Node F
  pub stop_when : Node F
  pub fault : Node F
  pub checkpoint_interval_seconds : F
  pub pipeline : Pipeline F
  pub warnings : List (Unreachable F)

-- `_expand`, where `sub` expands one text.
unfoldable mutual
  pub expand : {F : Type 0} → (String → String) → Node F → Node F
  expand sub (text s) = text (sub s)
  expand sub (mapping es) = mapping (expand_entries sub es)
  expand sub (sequence is) = sequence (expand_items sub is)
  expand sub null = null
  expand sub (flag b) = flag b
  expand sub (number n) = number n
  expand sub (decimal x) = decimal x

  pub expand_items : {F : Type 0} → (String → String) → Items F → Items F
  expand_items sub no_items = no_items
  expand_items sub (item n rest) = item (expand sub n) (expand_items sub rest)

  pub expand_entries : {F : Type 0} → (String → String) → Entries F → Entries F
  expand_entries sub no_entries = no_entries
  expand_entries sub (entry k v rest) = entry k (expand sub v) (expand_entries sub rest)

module _ {F : Type 0} ⦃fl : Float F⦄ (parse : String → Option F) (parse_int : String → Option ℤ)
    (show : Node F → String) (lower : String → String) where
  open fl use {lit, add, mul, div, lt, trunc}

  -- The warning of one step, where its rate is above the ceiling by more than 2%.
  unfoldable pub warning_of : Pipeline F → WorkloadConfig F → Step F → Option (List (Unreachable F))
  unfolding max_reachable_rps
  warning_of p wl step = do
    ceiling ← max_reachable_rps p wl.workers wl.batch_size step.rps
    (if lt (mul ceiling (lit 102 100)) step.rps
        then (do
          flush ← flush_seconds p step.rps
          need ← quotient (mul step.rps flush) (float_ℤ wl.batch_size)
          some (
              record { index = step.index; ceiling = ceiling; flush = flush; need = ceil need }
              ∷ []))
        else some [])

  -- The loop over the steps.
  unfoldable pub warnings_of :
      Pipeline F → WorkloadConfig F → List (Step F) → Option (List (Unreachable F))
  unfolding warning_of
  warnings_of p wl [] = some []
  warnings_of p wl (step ∷ steps) =
      let later = warnings_of p wl steps in
      do
        one ← warning_of p wl step
        rest ← (if ltb_ℤ wl.max_inflight wl.workers then some [] else later)
        some (one ++ rest)

  -- `load` once target, auth, workload and steps are read.
  unfoldable pub finish :
      Entries F
      → Entries F
      → String
      → Target F
      → Auth
      → WorkloadConfig F
      → List (Step F)
      → Option (GeneratorConfig F)
  finish gen prof profile target auth wl steps = do
    pl ← mapping_or_empty parse parse_int show lower (find "pipeline" gen)
    d ← mapping_or_empty parse parse_int show lower (find "data" gen)
    pipeline ← read_pipeline parse parse_int show lower pl d
    warnings ← warnings_of pipeline wl steps
    checkpoint ←
        (if is_falsy parse (find "checkpoint_interval_seconds" prof)
          then some (lit 0 1)
          else to_float parse (find "checkpoint_interval_seconds" prof))
    some (record {
      profile = profile;
      target = target;
      auth = auth;
      workload = wl;
      steps = steps;
      data_ = d;
      output = or_empty parse parse_int show lower (find "output" gen);
      stop_when = or_empty parse parse_int show lower (find "stop_when" prof);
      fault = or_empty parse parse_int show lower (find "fault" prof);
      checkpoint_interval_seconds = checkpoint;
      pipeline = pipeline;
      warnings = warnings;
    })

  -- `load` once the generator's mapping and that of the profile are found.
  unfoldable pub assemble : Entries F → Entries F → String → Entries F → Option (GeneratorConfig F)
  assemble gen prof profile overrides = do
    defaults ← mapping_or_empty parse parse_int show lower (find "workload" gen)
    block ← mapping_or_empty parse parse_int show lower (find "workload" prof)
    tgt ← mapping_or_empty parse parse_int show lower (find "target" gen)
    target ← read_target parse parse_int show lower tgt
    au ← mapping_or_empty parse parse_int show lower (find "auth" gen)
    auth ← read_auth parse parse_int show lower au
    wl ← read_workload parse parse_int show lower (workload_of defaults block overrides)
    steps ← build_steps parse (find "steps" prof) wl.target_rps wl.duration_seconds
    finish gen prof profile target auth wl steps

  -- `load`, for the document that `yaml.safe_load` returns and `sub`, the expansion of a text.
  unfoldable pub load : (String → String) → Node F → String → Entries F → Option (GeneratorConfig F)
  load sub document profile overrides = do
    raw ← mapping_or_empty parse parse_int show lower (some (expand sub document))
    gen ← as_mapping (find "generator" raw)
    profiles ← mapping_or_empty parse parse_int show lower (find "profiles" raw)
    chosen ← find profile profiles
    prof ← mapping_or_empty parse parse_int show lower (some chosen)
    assemble gen prof profile overrides
