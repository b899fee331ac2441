-- ===== src/Process/Blind.antt =====
-- subscription/process.rs: the steps that select by the name of the source, at nodes without one.
use tobira.Base.{
  ◌≡◌, refl, ap, ◌∙◌, inl, inr, Bool, false, not, List, [], ◌∷◌, ◌++◌, map, All, any, is_empty,
  keep_if, Bool-cases, arith, ◌&&◌, if◌then◌else◌,
}
use tobira.Config.{ProcessStep}
use tobira.Node.{VMessNode}
use tobira.Process.{
  Regexes, compile_patterns, from_step, is_selected, rewrite_selected, apply_step, apply_pipeline,
  matches,
}
use tobira.Process.Preserves.{apply_pipeline-unlabelled}

unselected :
    (invert name_ok source_ok : Bool)
    → invert ≡ false
    → source_ok ≡ false
    → (if invert then not (name_ok && source_ok) else (name_ok && source_ok)) ≡ false
unselected invert name_ok source_ok h k = ground arith

module _ (r : Regexes) where
  open r use {Regex, is_match}

  -- It is not inverted, and selects by patterns for the source, of which none matches the empty text.
  abbrev pub IsBlind : ProcessStep → Type 0
  IsBlind step =
      (step.invert ≡ false)
      × (is_empty (compile_patterns r step.filter_source) ≡ false)
      × (any (λ (re : Regex). is_match re "") (compile_patterns r step.filter_source) ≡ false)

  is_selected-blind :
      (step : ProcessStep) (n : VMessNode)
      → IsBlind step
      → n.source ≡ ""
      → is_selected r (from_step r step) n ≡ false
  unfolding is_selected from_step
  is_selected-blind step n (plain, some_pattern, none_matches) here =
      unselected step.invert (matches r (compile_patterns r step.filter) n.name)
        (matches r (compile_patterns r step.filter_source) n.source) plain
        (ap (matches r (compile_patterns r step.filter_source)) here
          ∙ rw (some_pattern, none_matches) refl)

  keep_if-blind :
      (step : ProcessStep) (ns : List VMessNode)
      → IsBlind step
      → All (λ (n : VMessNode). n.source ≡ "") ns
      → keep_if (λ n. not (is_selected r (from_step r step) n)) ns ≡ ns
  keep_if-blind step [] h k = refl
  keep_if-blind step (n ∷ ns) h (here, k) =
      rw (is_selected-blind step n h here) (ap (λ t. n ∷ t) (keep_if-blind step ns h k))

  map-blind :
      (step : ProcessStep) (ns : List VMessNode)
      → IsBlind step
      → All (λ (n : VMessNode). n.source ≡ "") ns
      → map (rewrite_selected r (from_step r step)) ns ≡ ns
  unfolding rewrite_selected
  map-blind step [] h k = refl
  map-blind step (n ∷ ns) h (here, k) =
      rw (is_selected-blind step n h here) (ap (λ t. n ∷ t) (map-blind step ns h k))

  apply_step-blind :
      (step : ProcessStep) (ns : List VMessNode)
      → IsBlind step
      → All (λ (n : VMessNode). n.source ≡ "") ns
      → apply_step r ns (from_step r step) ≡ ns
  unfolding apply_step
  apply_step-blind step ns h k = elim (Bool-cases (from_step r step).remove) [
    | inl removes ↦ rw (removes, apply_step) (keep_if-blind step ns h k)
    | inr rewrites ↦ rw (rewrites, apply_step) (map-blind step ns h k)
  ]

  pub apply_pipeline-blind :
      (ns : List VMessNode) (before after : List ProcessStep) (step : ProcessStep)
      → IsBlind step
      → All (λ (n : VMessNode). n.source ≡ "") ns
      → apply_pipeline r ns (before ++ step ∷ after) ≡ apply_pipeline r ns (before ++ after)
  unfolding apply_pipeline
  apply_pipeline-blind ns [] after step h k =
      ap (λ (t : List VMessNode). apply_pipeline r t after) (apply_step-blind step ns h k)
  apply_pipeline-blind ns (b ∷ before) after step h k =
      apply_pipeline-blind (apply_step r ns (from_step r b)) before after step h
        (apply_pipeline-unlabelled r ns (b ∷ []) k)
