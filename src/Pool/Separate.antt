-- ===== src/Pool/Separate.antt =====
-- relay/transport/grpc.rs, `GrpcPool`: no two keys of the pool's map lead to one slot.
use tobira.Base.{
  ℕ, suc, ◌<◌, ◌≢◌, inl, inr, String, List, [], ◌∷◌, ◌++◌, arith, All, All-append, str_eq,
  Bool-cases,
}
use tobira.Pool.{remove_key}

-- No two keys of the map lead to one slot, and each slot was made.
abbrev pub AreSeparate : List (String × ℕ) → ℕ → Type 0
AreSeparate [] count = Unit
AreSeparate ((key, i) ∷ conns) count =
    (i < count) × All (λ e. e.1 ≢ i) conns × AreSeparate conns count

All-remove_key :
    (key : String) (i : ℕ) (conns : List (String × ℕ))
    → All (λ e. e.1 ≢ i) conns
    → All (λ e. e.1 ≢ i) (remove_key key conns)
All-remove_key key i [] h = tt
All-remove_key key i ((k, j) ∷ conns) (p, h) = elim (Bool-cases (str_eq key k)) [
  | inl same ↦ rw same (All-remove_key key i conns h)
  | inr other ↦ rw other (p, All-remove_key key i conns h)
]

pub remove_key-AreSeparate :
    (key : String) (count : ℕ) (conns : List (String × ℕ))
    → AreSeparate conns count
    → AreSeparate (remove_key key conns) count
remove_key-AreSeparate key count [] h = tt
remove_key-AreSeparate key count ((k, i) ∷ conns) (p, apart, h) = elim (Bool-cases (str_eq key k)) [
  | inl same ↦ rw same (remove_key-AreSeparate key count conns h)
  | inr other ↦
      rw other (p, All-remove_key key i conns apart, remove_key-AreSeparate key count conns h)
]

pub add-AreSeparate :
    (key : String) (count : ℕ) (conns : List (String × ℕ))
    → AreSeparate conns count
    → AreSeparate (conns ++ (key, count) ∷ []) (suc count)
add-AreSeparate key count [] h = (omega arith, tt, tt)
add-AreSeparate key count ((k, i) ∷ conns) (p, apart, h) =
    (omega arith, All-append _ conns _ apart (ground arith, tt), add-AreSeparate key count conns h)
