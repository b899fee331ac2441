-- ===== src/Process/Moved.antt =====
-- subscription/process.rs: no step looks at where a node leads.
use tobira.Base.{
  ℕ, ◌≡◌, refl, ap, ◌∙◌, not, String, List, [], ◌∷◌, map, keep_if, Bool-cases, inl, inr,
}
use tobira.Config.{ProcessStep}
use tobira.Node.{VMessNode}
use tobira.Process.{
  Regexes, CompiledStep, from_step, is_selected, rewrite, rewrite_selected, apply_step,
  apply_pipeline,
}

-- The node with another server and port.
abbrev pub moved : String → ℕ → VMessNode → VMessNode
moved server port n = record n { server = server; port = port }

module _ (r : Regexes) (server : String) (port : ℕ) where
  open r use {Regex}

  keep_if-moved :
      (compiled : CompiledStep Regex) (ns : List VMessNode)
      → keep_if (λ n. not (is_selected r compiled n)) (map (moved server port) ns)
        ≡ map (moved server port) (keep_if (λ n. not (is_selected r compiled n)) ns)
  unfolding is_selected
  keep_if-moved compiled [] = refl
  keep_if-moved compiled (n ∷ ns) = elim (Bool-cases (not (is_selected r compiled n))) [
    | inl kept ↦
        rw (kept, is_selected) (ap (λ t. moved server port n ∷ t) (keep_if-moved compiled ns))
    | inr left ↦ rw (left, is_selected) (keep_if-moved compiled ns)
  ]

  rewrite_selected-moved :
      (compiled : CompiledStep Regex) (n : VMessNode)
      → rewrite_selected r compiled (moved server port n)
        ≡ moved server port (rewrite_selected r compiled n)
  unfolding rewrite_selected rewrite is_selected
  rewrite_selected-moved compiled n = elim (Bool-cases (is_selected r compiled n)) [
    | inl hit ↦ rw (hit, is_selected) refl
    | inr miss ↦ rw (miss, is_selected) refl
  ]

  map-moved :
      (compiled : CompiledStep Regex) (ns : List VMessNode)
      → map (rewrite_selected r compiled) (map (moved server port) ns)
        ≡ map (moved server port) (map (rewrite_selected r compiled) ns)
  map-moved compiled [] = refl
  map-moved compiled (n ∷ ns) = cc (rewrite_selected-moved compiled n, map-moved compiled ns)

  apply_step-moved :
      (compiled : CompiledStep Regex) (ns : List VMessNode)
      → apply_step r (map (moved server port) ns) compiled
        ≡ map (moved server port) (apply_step r ns compiled)
  unfolding apply_step
  apply_step-moved compiled ns = elim (Bool-cases compiled.remove) [
    | inl removes ↦ rw (removes, apply_step) (keep_if-moved compiled ns)
    | inr rewrites ↦ rw (rewrites, apply_step) (map-moved compiled ns)
  ]

  pub apply_pipeline-moved :
      (ns : List VMessNode) (steps : List ProcessStep)
      → apply_pipeline r (map (moved server port) ns) steps
        ≡ map (moved server port) (apply_pipeline r ns steps)
  unfolding apply_pipeline
  apply_pipeline-moved ns [] = refl
  apply_pipeline-moved ns (step ∷ steps) =
      ap (λ (t : List VMessNode). apply_pipeline r t steps) (apply_step-moved (from_step r step) ns)
      ∙ apply_pipeline-moved (apply_step r ns (from_step r step)) steps
