-- ===== src/Buf/Keeps.antt =====
-- buf.rs: what the pool keeps, whatever is put and taken.
use mathlib.Core.Path.{subst}
use native.Mathlib.Nat.{add-zero, zero-add}
use tobira.Base.{
  ℕ, zero, suc, ◌∙◌, ◌+◌, ◌≤◌, ◌<◌, ◌≡◌, refl, ap, inl, inr, some, List, [], ◌∷◌, ◌++◌, arith,
  length, get_or, set, pop, pop-eq-some, length-append, length-set, All, All-append,
  All-append_left, All-append_right, Option-cases, Bool-cases, ltb,
}
use tobira.Buf.{BytesMut, BufPool, class_for, get, put, new, bucket, set_bucket, max_pool_per_class}

pub class_for-lt : (n idx : ℕ) → class_for n ≡ some idx → idx < 7
unfolding class_for
class_for-lt n idx e = ground arith

-- A bucket of class `idx`: no more than 64 buffers, each of that class by its room.
abbrev pub IsBucket : ℕ → List BytesMut → Type 0
IsBucket idx bufs =
    (length bufs ≤ max_pool_per_class) × All (λ b. class_for b.capacity ≡ some idx) bufs

abbrev pub AreBuckets : ℕ → List (List BytesMut) → Type 0
AreBuckets idx [] = Unit
AreBuckets idx (bufs ∷ more) = IsBucket idx bufs × AreBuckets (suc idx) more

pub record IsValid (pool : BufPool) : Type 0 where
  pub one_per_class : length pool.buckets ≡ 7
  pub sorted_by_room : AreBuckets 0 pool.buckets

IsBucket-at :
    (from : ℕ) (bs : List (List BytesMut)) (i : ℕ)
    → AreBuckets from bs
    → i < length bs
    → IsBucket (from + i) (get_or bs i [])
IsBucket-at from [] i h lt = absurd (omega arith)
IsBucket-at from (b ∷ bs) zero h lt = rw add-zero h.0
IsBucket-at from (b ∷ bs) (suc i) h lt =
    subst (λ n. IsBucket n (get_or bs i [])) (omega arith)
      (IsBucket-at (suc from) bs i h.1 (omega arith))

set-AreBuckets :
    (from : ℕ) (bs : List (List BytesMut)) (i : ℕ) (b : List BytesMut)
    → AreBuckets from bs
    → IsBucket (from + i) b
    → AreBuckets from (set bs i b)
set-AreBuckets from [] i b h k = tt
set-AreBuckets from (c ∷ bs) zero b h k = (rw add-zero at k, h.1)
set-AreBuckets from (c ∷ bs) (suc i) b h k =
    (h.0, set-AreBuckets (suc from) bs i b h.1 (subst (λ n. IsBucket n b) (omega arith) k))

pub bucket-IsBucket :
    (pool : BufPool) (idx : ℕ) → IsValid pool → idx < 7 → IsBucket idx (bucket pool idx)
bucket-IsBucket pool idx v lt =
    rw zero-add at
      (IsBucket-at 0 pool.buckets idx v.sorted_by_room (omega (arith, v.one_per_class)))

set_bucket-IsValid :
    (pool : BufPool) (idx : ℕ) (bufs : List BytesMut)
    → IsValid pool
    → IsBucket idx bufs
    → IsValid (set_bucket pool idx bufs)
set_bucket-IsValid pool idx bufs v h = record {
  one_per_class = length-set pool.buckets idx bufs ∙ v.one_per_class;
  sorted_by_room = set-AreBuckets 0 pool.buckets idx bufs v.sorted_by_room (rw zero-add h);
}

pub new-IsValid : IsValid new
unfolding new
new-IsValid = record { one_per_class = refl; sorted_by_room = omega arith }

push-IsBucket :
    (idx : ℕ) (bufs : List BytesMut) (b : BytesMut)
    → IsBucket idx bufs
    → class_for b.capacity ≡ some idx
    → length bufs < max_pool_per_class
    → IsBucket idx (bufs ++ b ∷ [])
push-IsBucket idx bufs b h fits room =
    (omega (arith, length-append bufs (b ∷ [])), All-append _ bufs (b ∷ []) h.1 (fits, tt))

-- Whatever is put, each bucket holds at most 64 buffers, each of the bucket's class.
pub put-IsValid : (pool : BufPool) (b : BytesMut) → IsValid pool → IsValid (put pool b)
unfolding put
put-IsValid pool b v = elim (Option-cases (class_for b.capacity)) [
  | inl large ↦ rw (large, put) v
  | inr (idx, fits) ↦ elim (Bool-cases (ltb (length (bucket pool idx)) max_pool_per_class)) [
    | inl room ↦
        rw (fits, room, put)
          (set_bucket-IsValid pool idx _ v (
            push-IsBucket idx (bucket pool idx) b
              (bucket-IsBucket pool idx v (class_for-lt b.capacity idx fits)) fits (ground arith)))
    | inr full ↦ rw (fits, full, put) v
  ]
]

pub popped-IsBucket :
    (idx : ℕ) (bufs rest : List BytesMut) (b : BytesMut)
    → IsBucket idx bufs
    → pop bufs ≡ some (rest, b)
    → IsBucket idx rest × (class_for b.capacity ≡ some idx)
popped-IsBucket idx bufs rest b h e =
    let split : bufs ≡ rest ++ b ∷ [] = pop-eq-some bufs rest b e in
    let all : All (λ c. class_for c.capacity ≡ some idx) (rest ++ b ∷ []) = rw split at h.1 in
    (
      (omega (arith, ap length split, length-append rest (b ∷ [])), All-append_left _ rest _ all),
      (All-append_right _ rest (b ∷ []) all).0,
    )

module _ (alloc : ℕ → ℕ) where
  -- Taking a buffer keeps the pool valid.
  pub get-IsValid : (pool : BufPool) (n : ℕ) → IsValid pool → IsValid (get alloc pool n).1
  unfolding get
  get-IsValid pool n v = elim (Option-cases (class_for n)) [
    | inl large ↦ rw (large, get) v
    | inr (idx, fits) ↦ elim (Option-cases (pop (bucket pool idx))) [
      | inl empty ↦ rw (fits, empty, get) v
      | inr ((rest, b), taken) ↦
          rw (fits, taken, get)
            (set_bucket-IsValid pool idx rest v
              (popped-IsBucket idx (bucket pool idx) rest b
                (bucket-IsBucket pool idx v (class_for-lt n idx fits)) taken).0)
    ]
  ]
