-- ===== src/Process.antt =====
-- subscription/process.rs: the steps that remove and rewrite the nodes of a subscription.
pub mod Steps
pub mod Emoji
pub mod Moved
pub mod Preserves
pub mod Blind
pub mod Dedup
mod Tests
use Prim.Native.String.{len}
use tobira.Base.{
  ℕ, Bool, true, false, not, ◌&&◌, ◌||◌, Option, none, some, String, List, [], ◌∷◌, map, any,
  keep_if, is_empty, leb, code, if◌then◌else◌,
}
use tobira.Config.{PacketEncoding, ProcessStep}
use tobira.Node.{VMessNode}

-- The `regex` library.
pub record Regexes : Type 1 where
  pub Regex : Type 0
  pub compile : String → Option Regex
  pub is_match : Regex → String → Bool
  pub replace_all : Regex → String → String → String

-- Over the compiled patterns `R`.
pub record CompiledStep (R : Type 0) : Type 0 where
  pub filter_compiled : List R
  pub filter_source_compiled : List R
  pub rename_compiled : List (R × String)
  pub remove_emoji : Bool
  pub override_security : Option String
  pub packet_encoding : Option PacketEncoding
  pub remove : Bool
  pub invert : Bool

-- Bounds included.
abbrev pub within : ℕ → ℕ → ℕ → Bool
within low high r = leb low r && leb r high

pub is_emoji : ℕ → Bool
is_emoji r =
    within 0x1F600 0x1F64F r
    || within 0x1F300 0x1F5FF r
    || within 0x1F680 0x1F6FF r
    || within 0x1F1E0 0x1F1FF r
    || within 0x2600 0x26FF r
    || within 0x2700 0x27BF r
    || within 0xFE00 0xFE0F r
    || within 0x1F900 0x1F9FF r
    || within 0x1FA70 0x1FAFF r

pub strip_emoji : String → String
strip_emoji String.[] = String.[]
strip_emoji (String.◌∷◌ c s) =
    let rest = strip_emoji s in if not (is_emoji (code c)) then String.◌∷◌ c rest else rest

-- `if let Some(ref sec) = override_security`
abbrev pub override_with {ℓ} : {A : Type ℓ} → Option A → A → A
override_with none old = old
override_with (some new_value) old = new_value

module _ (r : Regexes) where
  open r use {Regex, compile, is_match, replace_all}

  -- Patterns that do not compile are left out.
  unfoldable pub compile_patterns : List String → List Regex
  compile_patterns [] = []
  compile_patterns (p ∷ patterns) =
      let rest = compile_patterns patterns in elim (compile p) [ none ↦ rest | some re ↦ re ∷ rest ]

  pub compile_rules : List (String × String) → List (Regex × String)
  compile_rules [] = []
  compile_rules ((pat, repl) ∷ rules) =
      let rest = compile_rules rules in
      elim (compile pat) [ none ↦ rest | some re ↦ (re, repl) ∷ rest ]

  pub from_step : ProcessStep → CompiledStep Regex
  unfolding compile_patterns compile_rules
  from_step step = record {
    filter_compiled = compile_patterns step.filter;
    filter_source_compiled = compile_patterns step.filter_source;
    rename_compiled = compile_rules step.rename;
    remove_emoji = step.remove_emoji;
    override_security = step.override_security;
    packet_encoding = step.packet_encoding;
    remove = step.remove;
    invert = step.invert;
  }

  -- No patterns match everything.
  abbrev pub matches : List Regex → String → Bool
  matches patterns text = is_empty patterns || any (λ re. is_match re text) patterns

  pub is_selected : CompiledStep Regex → VMessNode → Bool
  is_selected compiled node =
      let name_ok = matches compiled.filter_compiled node.name in
      let source_ok = matches compiled.filter_source_compiled node.source in
      let matched = name_ok && source_ok in if compiled.invert then not matched else matched

  pub rename_all : List (Regex × String) → String → String
  rename_all [] name = name
  rename_all ((re, repl) ∷ rules) name = rename_all rules (replace_all re name repl)

  -- What happens to a node that is selected by a step that does not remove.
  pub rewrite : CompiledStep Regex → VMessNode → VMessNode
  unfolding rename_all strip_emoji is_emoji
  rewrite compiled node =
      let renamed = rename_all compiled.rename_compiled node.name in
      record node {
        name = if compiled.remove_emoji then strip_emoji renamed else renamed;
        security = override_with compiled.override_security node.security;
        packet_encoding = override_with compiled.packet_encoding node.packet_encoding;
      }

  pub rewrite_selected : CompiledStep Regex → VMessNode → VMessNode
  unfolding rewrite is_selected
  rewrite_selected compiled node = if is_selected compiled node then rewrite compiled node else node

  pub apply_step : List VMessNode → CompiledStep Regex → List VMessNode
  unfolding rewrite_selected
  apply_step nodes compiled =
      if compiled.remove
      then keep_if (λ n. not (is_selected compiled n)) nodes
      else map (rewrite_selected compiled) nodes

  unfoldable pub apply_pipeline : List VMessNode → List ProcessStep → List VMessNode
  unfolding apply_step from_step
  apply_pipeline nodes [] = nodes
  apply_pipeline nodes (step ∷ steps) = apply_pipeline (apply_step nodes (from_step step)) steps
