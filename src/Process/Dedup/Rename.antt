-- ===== src/Process/Dedup/Rename.antt =====
-- subscription/process.rs: what the `Rename` strategy keeps of the nodes.
use tobira.Base.{
  ℕ, suc, ◌+◌, ◌≡◌, ◌≢◌, inl, inr, refl, ap, Bool, true, none, String, List, [], ◌∷◌, ◌++◌, map,
  arith, All, length, str_eq, eq_iff, Option-cases,
}
use tobira.Node.{VMessNode}
use tobira.Process.Dedup.{
  rename, parse_strategy, numbered, lookup, insert, rename_loop, deduplicate_nodes,
}

-- A node but for its name.
abbrev pub unnamed : VMessNode → VMessNode
unnamed n = record n { name = "" }

pub rename_loop-unnamed :
    (seen : List (String × ℕ)) (nodes : List VMessNode)
    → map unnamed (rename_loop seen nodes) ≡ map unnamed nodes
unfolding rename_loop
rename_loop-unnamed seen [] = refl
rename_loop-unnamed seen (n ∷ nodes) = elim (Option-cases (lookup n.name seen)) [
  | inl fresh ↦
      rw (fresh, rename_loop)
        (ap (λ t. unnamed n ∷ t) (rename_loop-unnamed (insert n.name 0 seen) nodes))
  | inr (count, found) ↦
      rw (found, rename_loop)
        (ap (λ t. unnamed n ∷ t) (rename_loop-unnamed (insert n.name (count + 1) seen) nodes))
]

lookup-insert_other :
    (k j : String) (v : ℕ) (seen : List (String × ℕ))
    → k ≢ j
    → lookup j seen ≡ none
    → lookup j (insert k v seen) ≡ none
lookup-insert_other k j v [] apart h = ground (arith, eq_iff k j)
lookup-insert_other k j v ((i, w) ∷ seen) apart h =
    ground (arith, eq_iff k j, eq_iff i k, eq_iff i j, lookup-insert_other k j v seen apart)

abbrev pub Keeps : List VMessNode → VMessNode → List VMessNode → Type 0
Keeps xs n result =
    (before : List VMessNode) × (after : List VMessNode) × (result ≡ before ++ n ∷ after)
    × (length before ≡ length xs)

rename_loop-Keeps :
    (seen : List (String × ℕ)) (xs ys : List VMessNode) (n : VMessNode)
    → lookup n.name seen ≡ none
    → All (λ x. x.name ≢ n.name) xs
    → Keeps xs n (rename_loop seen (xs ++ n ∷ ys))
unfolding rename_loop
rename_loop-Keeps seen [] ys n fresh h =
    ([], rename_loop (insert n.name 0 seen) ys, rw (fresh, rename_loop) refl, refl)
rename_loop-Keeps seen (x ∷ xs) ys n fresh (apart, h) = elim (Option-cases (lookup x.name seen)) [
  | inl new_name ↦
      let (before, after, split, len) =
        rename_loop-Keeps (insert x.name 0 seen) xs ys n
          (lookup-insert_other x.name n.name 0 seen apart fresh) h in
      (x ∷ before, after, rw (new_name, rename_loop) (ap (λ t. x ∷ t) split), ap suc len)
  | inr (count, found) ↦
      let (before, after, split, len) =
        rename_loop-Keeps (insert x.name (count + 1) seen) xs ys n
          (lookup-insert_other x.name n.name (count + 1) seen apart fresh) h in
      (
        record x { name = numbered x.name (count + 1) } ∷ before,
        after,
        rw (found, rename_loop)
            (ap (λ t. record x { name = numbered x.name (count + 1) } ∷ t) split),
        ap suc len,
      )
]

module _ (is_ipv4 is_ipv6 : String → Bool) where
  -- Under the `rename` strategy every node is kept in its place, and nothing but its name may change.
  pub deduplicate_nodes-unnamed :
      (nodes : List VMessNode) (strategy : String)
      → parse_strategy strategy ≡ rename
      → map unnamed (deduplicate_nodes is_ipv4 is_ipv6 nodes strategy) ≡ map unnamed nodes
  unfolding deduplicate_nodes
  deduplicate_nodes-unnamed nodes strategy is_rename =
      rw (is_rename, deduplicate_nodes) (rename_loop-unnamed [] nodes)

  -- Under the `rename` strategy the first node of a name stands unchanged in its place.
  pub deduplicate_nodes-Keeps :
      (xs ys : List VMessNode) (n : VMessNode) (strategy : String)
      → parse_strategy strategy ≡ rename
      → All (λ x. x.name ≢ n.name) xs
      → Keeps xs n (deduplicate_nodes is_ipv4 is_ipv6 (xs ++ n ∷ ys) strategy)
  unfolding deduplicate_nodes
  deduplicate_nodes-Keeps xs ys n strategy is_rename others =
      rw (is_rename, deduplicate_nodes) (rename_loop-Keeps [] xs ys n refl others)

  -- The `rename` strategy does not make names distinct: where the second of two nodes of one name is
  -- given a name that a later node has already, two nodes of that name result.
  pub rename_clash :
      (x y z : VMessNode) (strategy : String)
      → parse_strategy strategy ≡ rename
      → x.name ≡ y.name
      → z.name ≡ numbered y.name 1
      → x.name ≢ z.name
      → map
          (λ (n : VMessNode). n.name)
          (deduplicate_nodes is_ipv4 is_ipv6 (x ∷ y ∷ z ∷ []) strategy)
        ≡ x.name ∷ z.name ∷ z.name ∷ []
  unfolding deduplicate_nodes rename_loop
  rename_clash x y z strategy is_rename same taken apart =
      let hit : str_eq x.name y.name ≡ true = (eq_iff x.name y.name).1 same in
      let fresh : lookup z.name (insert y.name (0 + 1) (insert x.name 0 [])) ≡ none =
        ground (arith, eq_iff x.name z.name) in
      rw (is_rename, deduplicate_nodes)
        (rw (hit, rename_loop) (rw (fresh, rename_loop) (rw taken refl)))
