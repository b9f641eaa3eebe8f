-- ===== src/Scripts/Cfg.antt =====
-- scripts/lib/cfg.py: a value out of a configuration file, with its variables expanded. The YAML parser
-- is left out; Python's `str.split` and the reading of an index are arguments.
use analytics_testing.Base.{
  ℕ, zero, suc, String, Option, none, some, List, [], ◌∷◌, str_eq, if◌then◌else◌,
}
use analytics_testing.Generator.Config.{
  Node, null, flag, sequence, mapping, Items, no_items, item, Entries, no_entries, entry, find,
}

-- How a subcommand ends: with a text on standard output, or with an exit code.
pub data Answer (A : Type 0) : Type 0 where
  printed : A → Answer A
  failed : ℕ → Answer A

module _ {F : Type 0} where
  -- `node[i]`
  unfoldable pub nth : ℕ → Items F → Option (Node F)
  nth i no_items = none
  nth zero (item n rest) = some n
  nth (suc i) (item n rest) = nth i rest

  -- The keys of a mapping.
  unfoldable pub child_keys : Entries F → List String
  child_keys no_entries = []
  child_keys (entry k v rest) = k ∷ child_keys rest

  -- `render_scalar`
  unfoldable pub render_scalar : (Node F → String) → (Node F → String) → Node F → String
  render_scalar dump show (flag b) = if b then "true" else "false"
  render_scalar dump show null = ""
  render_scalar dump show (mapping es) = dump (mapping es)
  render_scalar dump show (sequence is) = dump (sequence is)
  render_scalar dump show n = show n

  module _ (index : String → Option ℕ) where
    abbrev pub at_index : Option ℕ → Items F → Option (Node F)
    at_index none is = none
    at_index (some i) is = nth i is

    -- One part of the path; `index` is `int(part)` where `part.isdigit()`.
    unfoldable pub child : String → Node F → Option (Node F)
    unfolding nth
    child part (mapping es) = find part es
    child part (sequence is) = at_index (index part) is
    child part _ = none

    -- The loop of `dig`; `none` is `_MISSING`.
    unfoldable pub dig_parts : List String → Option (Node F) → Option (Node F)
    unfolding child
    dig_parts parts none = none
    dig_parts [] (some node) = some node
    dig_parts (part ∷ parts) (some node) = dig_parts parts (child part node)

    module _ (split : String → List String) where
      -- `dig`
      unfoldable pub dig : Node F → String → Option (Node F)
      unfolding dig_parts
      dig root dotted = if str_eq dotted "" then some root else dig_parts (split dotted) (some root)

      -- The subcommand `get`; `dump` is `json.dumps` and `show` is `str`.
      unfoldable pub get :
          (Node F → String) → (Node F → String) → Node F → String → Option String → Answer String
      unfolding dig render_scalar
      get dump show root path default = elim (dig root path) [
        | some value ↦ printed (render_scalar dump show value)
        | none ↦ elim default [ some d ↦ printed d | none ↦ failed 3 ]
      ]

      -- The subcommand `json`.
      unfoldable pub json : (Node F → String) → Node F → String → Answer String
      unfolding dig
      json dump root path = elim (dig root path) [
        | some value ↦ printed (dump value)
        | none ↦ failed 3
      ]

      abbrev pub answer_keys : Option (Node F) → Answer (List String)
      answer_keys (some (mapping es)) = printed (child_keys es)
      answer_keys _ = failed 3

      -- The subcommand `keys`.
      unfoldable pub keys : Node F → String → Answer (List String)
      unfolding dig child_keys
      keys root path = answer_keys (dig root path)
