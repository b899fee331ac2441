-- ===== src/Process/Dedup/Best.antt =====
-- subscription/process.rs: which of the nodes of one name the address preferences keep.
use tobira.Base.{
  ℕ, ◌≤◌, ◌<◌, ◌≡◌, ◌⊎◌, inl, inr, refl, sym, ap, some, List, [], ◌∷◌, ◌++◌, arith, All, ltb,
  Bool-cases,
}
use tobira.Process.Dedup.{best_loop, best_index}

module _ (priority : ℕ → ℕ) where
  -- The first of the indices that have the greatest priority.
  abbrev pub IsFirstBest : List ℕ → ℕ → Type 0
  IsFirstBest indices b =
      (before : List ℕ) × (after : List ℕ) × (indices ≡ before ++ b ∷ after)
      × All (λ i. priority i < priority b) before
      × All (λ i. priority i ≤ priority b) after

  abbrev Outcome : List ℕ → ℕ → ℕ → Type 0
  Outcome indices b r =
      ((r ≡ b) × All (λ i. priority i ≤ priority b) indices)
      ⊎ ((priority b < priority r) × IsFirstBest indices r)

  improve :
      (i b r : ℕ) (indices : List ℕ)
      → priority b < priority i
      → Outcome indices i r
      → Outcome (i ∷ indices) b r
  improve i b r indices better (inl (same, all)) =
      inr (rw same better, ([], indices, ap (λ t. t ∷ indices) (sym same), tt, rw same all))
  improve i b r indices better (inr (more, (before, after, split, lower, others))) =
      inr (omega arith, (i ∷ before, after, ap (λ t. i ∷ t) split, (more, lower), others))

  stay :
      (i b r : ℕ) (indices : List ℕ)
      → priority i ≤ priority b
      → Outcome indices b r
      → Outcome (i ∷ indices) b r
  stay i b r indices worse (inl (same, all)) = inl (same, (worse, all))
  stay i b r indices worse (inr (more, (before, after, split, lower, others))) =
      inr (more, (i ∷ before, after, ap (λ t. i ∷ t) split, (omega arith, lower), others))

  best_loop_cases :
      (indices : List ℕ) (b : ℕ)
      → Outcome indices b (best_loop priority indices b (some (priority b)))
  unfolding best_loop
  best_loop_cases [] b = inl (refl, tt)
  best_loop_cases (i ∷ indices) b = elim (Bool-cases (ltb (priority b) (priority i))) [
    | inl better ↦
        rw (better, best_loop) (improve i b _ indices (ground arith) (best_loop_cases indices i))
    | inr worse ↦
        rw (worse, best_loop) (stay i b _ indices (ground arith) (best_loop_cases indices b))
  ]

  -- Of the indices of a name, the one chosen by an address preference has the greatest priority, and
  -- every index before it has less.
  pub best_index-IsFirstBest :
      (i : ℕ) (indices : List ℕ) → IsFirstBest (i ∷ indices) (best_index priority (i ∷ indices))
  unfolding best_index best_loop
  best_index-IsFirstBest i indices = elim (best_loop_cases indices i) [
    | inl (same, all) ↦ ([], indices, ap (λ t. t ∷ indices) (sym same), tt, rw same all)
    | inr (more, (before, after, split, lower, others)) ↦
        (i ∷ before, after, ap (λ t. i ∷ t) split, (more, lower), others)
  ]
