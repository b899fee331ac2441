-- ===== src/Process/Dedup/Preserves.antt =====
-- subscription/process.rs: what holds of each node whatever its name holds behind the deduplication.
use tobira.Base.{
  ℕ, suc, ◌+◌, inl, inr, Bool, String, List, [], ◌∷◌, All, Bool-cases, Option-cases, any, ◌==◌,
}
use tobira.Node.{VMessNode}
use tobira.Process.Dedup.{
  parse_strategy, deduplicate_nodes, rename_loop, keep_nodes, lookup, insert, is_rename,
}

module _ (P : VMessNode → Type 0)
    (renamed : (n : VMessNode) (name : String) → P n → P (record n { name = name })) where
  rename_loop-All :
      (seen : List (String × ℕ)) (ns : List VMessNode) → All P ns → All P (rename_loop seen ns)
  unfolding rename_loop
  rename_loop-All seen [] h = tt
  rename_loop-All seen (n ∷ ns) (here, h) = elim (Option-cases (lookup n.name seen)) [
    | inl fresh ↦ rw (fresh, rename_loop) (here, rename_loop-All (insert n.name 0 seen) ns h)
    | inr (count, found) ↦
        rw (found, rename_loop)
          (renamed n _ here, rename_loop-All (insert n.name (count + 1) seen) ns h)
  ]

  keep_nodes-All :
      (i : ℕ) (keep : List ℕ) (ns : List VMessNode) → All P ns → All P (keep_nodes i keep ns)
  unfolding keep_nodes
  keep_nodes-All i keep [] h = tt
  keep_nodes-All i keep (n ∷ ns) (here, h) = elim (Bool-cases (any (λ k. k == i) keep)) [
    | inl kept ↦ rw (kept, keep_nodes) (here, keep_nodes-All (suc i) keep ns h)
    | inr left ↦ rw (left, keep_nodes) (keep_nodes-All (suc i) keep ns h)
  ]

  pub deduplicate_nodes-All :
      (is_ipv4 is_ipv6 : String → Bool) (ns : List VMessNode) (strategy : String)
      → All P ns
      → All P (deduplicate_nodes is_ipv4 is_ipv6 ns strategy)
  unfolding deduplicate_nodes
  deduplicate_nodes-All is_ipv4 is_ipv6 ns strategy h =
      elim (Bool-cases (is_rename is_ipv4 is_ipv6 (parse_strategy strategy))) [
        | inl renames ↦ rw (renames, deduplicate_nodes) (rename_loop-All [] ns h)
        | inr keeps ↦ rw (keeps, deduplicate_nodes) (keep_nodes-All 0 _ ns h)
      ]
