-- ===== src/Process/Steps.antt =====
-- subscription/process.rs: the pipeline treats each node on its own, and never changes where it leads.
use tobira.Base.{
  ℕ, ◌+◌, ◌≡◌, inl, inr, refl, ap, ◌∙◌, Bool, true, not, String, List, [], ◌∷◌, ◌++◌, map, arith,
  keep_if, length, In, Bool-cases,
}
use tobira.Config.{ProcessStep}
use tobira.Node.{VMessNode}
use tobira.Process.{
  Regexes, CompiledStep, from_step, is_selected, rewrite, rewrite_selected, apply_step,
  apply_pipeline,
}

keep_if-append :
    {A : Type 0} (p : A → Bool) (xs ys : List A)
    → keep_if p (xs ++ ys) ≡ keep_if p xs ++ keep_if p ys
keep_if-append p [] ys = refl
keep_if-append p (x ∷ xs) ys = elim (Bool-cases (p x)) [
  | inl kept ↦ rw (kept, keep_if-append p xs ys) refl
  | inr left ↦ rw (left, keep_if-append p xs ys) refl
]

map-append : {A B : Type 0} (f : A → B) (xs ys : List A) → map f (xs ++ ys) ≡ map f xs ++ map f ys
map-append f [] ys = refl
map-append f (x ∷ xs) ys = ap (λ t. f x ∷ t) (map-append f xs ys)

-- Where the traffic of a node goes, and under which UUID.
abbrev pub target : VMessNode → String × ℕ × String × String
target n = (n.server, n.port, n.uuid, n.network)

In-keep_if :
    {A B : Type 0} (f : A → B) (p : A → Bool) (b : B) (xs : List A)
    → In b (map f (keep_if p xs))
    → In b (map f xs)
In-keep_if f p b [] h = h
In-keep_if f p b (x ∷ xs) h = elim (Bool-cases (p x)) [
  | inl kept ↦ elim (rw kept at h) [
    | inl same ↦ inl same
    | inr later ↦ inr (In-keep_if f p b xs later)
  ]
  | inr left ↦ inr (In-keep_if f p b xs (rw left at h))
]

module _ (r : Regexes) where
  open r use {Regex}

  apply_step-append :
      (compiled : CompiledStep Regex) (xs ys : List VMessNode)
      → apply_step r (xs ++ ys) compiled ≡ apply_step r xs compiled ++ apply_step r ys compiled
  unfolding apply_step
  apply_step-append compiled xs ys = elim (Bool-cases compiled.remove) [
    | inl removes ↦ rw removes (keep_if-append (λ n. not (is_selected r compiled n)) xs ys)
    | inr rewrites ↦ rw rewrites (map-append (rewrite_selected r compiled) xs ys)
  ]

  -- Each node is processed on its own and in its place: what the pipeline makes of two lists put
  -- together is what it makes of each, put together.
  pub apply_pipeline-append :
      (xs ys : List VMessNode) (steps : List ProcessStep)
      → apply_pipeline r (xs ++ ys) steps ≡ apply_pipeline r xs steps ++ apply_pipeline r ys steps
  unfolding apply_pipeline
  apply_pipeline-append xs ys [] = refl
  apply_pipeline-append xs ys (step ∷ steps) =
      ap (λ (t : List VMessNode). apply_pipeline r t steps)
        (apply_step-append (from_step r step) xs ys)
      ∙ apply_pipeline-append (apply_step r xs (from_step r step))
          (apply_step r ys (from_step r step)) steps

  rewrite_selected-target :
      (compiled : CompiledStep Regex) (n : VMessNode)
      → target (rewrite_selected r compiled n) ≡ target n
  unfolding rewrite_selected rewrite
  rewrite_selected-target compiled n = elim (Bool-cases (is_selected r compiled n)) [
    | inl hit ↦ rw hit refl
    | inr miss ↦ rw miss refl
  ]

  map-target :
      (compiled : CompiledStep Regex) (ns : List VMessNode)
      → map target (map (rewrite_selected r compiled) ns) ≡ map target ns
  map-target compiled [] = refl
  map-target compiled (n ∷ ns) = cc (rewrite_selected-target compiled n, map-target compiled ns)

  apply_step-target :
      (compiled : CompiledStep Regex) (ns : List VMessNode) (t : String × ℕ × String × String)
      → In t (map target (apply_step r ns compiled))
      → In t (map target ns)
  unfolding apply_step
  apply_step-target compiled ns t h = elim (Bool-cases compiled.remove) [
    | inl removes ↦ In-keep_if target (λ n. not (is_selected r compiled n)) t ns (rw removes at h)
    | inr rewrites ↦ rw (map-target compiled ns) at (rw rewrites at h)
  ]

  -- Server, port, UUID and network of every node that the pipeline answers are those of a node that it
  -- was given.
  pub apply_pipeline-target :
      (ns : List VMessNode) (steps : List ProcessStep) (t : String × ℕ × String × String)
      → In t (map target (apply_pipeline r ns steps))
      → In t (map target ns)
  unfolding apply_pipeline
  apply_pipeline-target ns [] t h = h
  apply_pipeline-target ns (step ∷ steps) t h =
      apply_step-target (from_step r step) ns t
        (apply_pipeline-target (apply_step r ns (from_step r step)) steps t h)

  -- The same step, with the selection turned round.
  abbrev pub inverted : CompiledStep Regex → CompiledStep Regex
  inverted compiled = record compiled { invert = not compiled.invert }

  is_selected-inverted :
      (compiled : CompiledStep Regex) (n : VMessNode)
      → is_selected r (inverted compiled) n ≡ not (is_selected r compiled n)
  unfolding is_selected
  is_selected-inverted compiled n = ground arith

  halves_length :
      (compiled : CompiledStep Regex) (ns : List VMessNode)
      → length (keep_if (λ n. not (is_selected r compiled n)) ns)
          + length (keep_if (λ n. not (is_selected r (inverted compiled) n)) ns)
        ≡ length ns
  halves_length compiled [] = omega arith
  halves_length compiled (n ∷ ns) =
      ground (arith, is_selected-inverted compiled n, halves_length compiled ns)

  -- A removing step and the same step inverted share the nodes out between them: none is lost or
  -- kept by both.
  pub apply_step-inverted :
      (compiled : CompiledStep Regex) (ns : List VMessNode)
      → compiled.remove ≡ true
      → length (apply_step r ns compiled) + length (apply_step r ns (inverted compiled)) ≡ length ns
  unfolding apply_step
  apply_step-inverted compiled ns removes = rw (removes, apply_step) (halves_length compiled ns)
