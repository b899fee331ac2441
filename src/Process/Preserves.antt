-- ===== src/Process/Preserves.antt =====
-- subscription/process.rs: what holds of each node, and of what a step makes of it, holds behind the
-- pipeline.
use tobira.Base.{◌≤◌, ◌≡◌, ◌≢◌, inl, inr, Bool, List, [], ◌∷◌, map, All, Bool-cases, keep_if}
use tobira.Config.{ProcessStep}
use tobira.Node.{VMessNode}
use tobira.Process.{
  Regexes, CompiledStep, from_step, is_selected, rewrite, rewrite_selected, apply_step,
  apply_pipeline,
}

All-keep_if :
    {A : Type 0} (P : A → Type 0) (p : A → Bool) (xs : List A) → All P xs → All P (keep_if p xs)
All-keep_if P p [] h = tt
All-keep_if P p (x ∷ xs) (here, h) = elim (Bool-cases (p x)) [
  | inl kept ↦ rw kept (here, All-keep_if P p xs h)
  | inr left ↦ rw left (All-keep_if P p xs h)
]

module _ (r : Regexes) (P : VMessNode → Type 0)
    (kept : (compiled : CompiledStep r.Regex) (n : VMessNode)
      → P n
      → P (rewrite r compiled n)) where
  open r use {Regex}

  map-All :
      (compiled : CompiledStep Regex) (ns : List VMessNode)
      → All P ns
      → All P (map (rewrite_selected r compiled) ns)
  unfolding rewrite_selected
  map-All compiled [] h = tt
  map-All compiled (n ∷ ns) (here, h) = elim (Bool-cases (is_selected r compiled n)) [
    | inl hit ↦ rw hit (kept compiled n here, map-All compiled ns h)
    | inr miss ↦ rw miss (here, map-All compiled ns h)
  ]

  apply_step-All :
      (compiled : CompiledStep Regex) (ns : List VMessNode)
      → All P ns
      → All P (apply_step r ns compiled)
  unfolding apply_step
  apply_step-All compiled ns h = elim (Bool-cases compiled.remove) [
    | inl removes ↦ rw (removes, apply_step) (All-keep_if P _ ns h)
    | inr rewrites ↦ rw (rewrites, apply_step) (map-All compiled ns h)
  ]

  pub apply_pipeline-All :
      (ns : List VMessNode) (steps : List ProcessStep)
      → All P ns
      → All P (apply_pipeline r ns steps)
  unfolding apply_pipeline
  apply_pipeline-All ns [] h = h
  apply_pipeline-All ns (step ∷ steps) h =
      apply_pipeline-All (apply_step r ns (from_step r step)) steps
        (apply_step-All (from_step r step) ns h)

-- A port, an address and a UUID, so that a connection can be made to it.
abbrev pub IsTarget : VMessNode → Type 0
IsTarget n = (1 ≤ n.port) × (n.port ≤ 65535) × (n.server ≢ "") × (n.uuid ≢ "")

pub apply_pipeline-IsTarget :
    (r : Regexes) (ns : List VMessNode) (steps : List ProcessStep)
    → All IsTarget ns
    → All IsTarget (apply_pipeline r ns steps)
unfolding rewrite
apply_pipeline-IsTarget r = apply_pipeline-All r IsTarget (λ compiled n h. h)

pub apply_pipeline-unlabelled :
    (r : Regexes) (ns : List VMessNode) (steps : List ProcessStep)
    → All (λ (n : VMessNode). n.source ≡ "") ns
    → All (λ (n : VMessNode). n.source ≡ "") (apply_pipeline r ns steps)
unfolding rewrite
apply_pipeline-unlabelled r = apply_pipeline-All r (λ n. n.source ≡ "") (λ compiled n h. h)
