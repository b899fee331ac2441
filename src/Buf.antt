-- ===== src/Buf.antt =====
-- buf.rs: a pool of byte buffers, bucketed by size class.
pub mod Keeps
pub mod Capacity
mod Tests
use tobira.Base.{
  ℕ, suc, ◌≤◌, ◌<◌, Option, none, some, List, [], ◌∷◌, ◌++◌, leb, ltb, if◌then◌else◌, length,
  get_or, set, position, pop,
}

-- A `BytesMut`: the room that it has, and the bytes that it holds.
pub record BytesMut : Type 0 where
  pub capacity : ℕ
  pub bytes : List ℕ

-- `BytesMut::clear` keeps the room.
abbrev pub clear : BytesMut → BytesMut
clear b = record b { bytes = [] }

abbrev pub size_classes : List ℕ
size_classes = 1024 ∷ 2048 ∷ 4096 ∷ 8192 ∷ 16384 ∷ 32768 ∷ 65536 ∷ []

abbrev pub max_pool_per_class : ℕ
max_pool_per_class = 64

pub record BufPool : Type 0 where
  pub buckets : List (List BytesMut)

-- One empty bucket for each class.
pub new : BufPool
new = record { buckets = [] ∷ [] ∷ [] ∷ [] ∷ [] ∷ [] ∷ [] ∷ [] }

pub class_for : ℕ → Option ℕ
class_for size = position (λ s. leb size s) size_classes

-- `buckets[idx]`: the pool has a bucket for each class, so the index is in range.
abbrev pub bucket : BufPool → ℕ → List BytesMut
bucket pool idx = get_or pool.buckets idx []

abbrev pub set_bucket : BufPool → ℕ → List BytesMut → BufPool
set_bucket pool idx bufs = record pool { buckets = set pool.buckets idx bufs }

-- `alloc n` is the room of `BytesMut::with_capacity(n)`, which may exceed `n`.
module _ (alloc : ℕ → ℕ) where
  abbrev pub with_capacity : ℕ → BytesMut
  with_capacity n = record { capacity = alloc n; bytes = [] }

  -- The buffer that is handed out, and the pool that is left.
  pub get : BufPool → ℕ → BytesMut × BufPool
  get pool min_size = elim (class_for min_size) [
    | none ↦ (with_capacity min_size, pool)
    | some idx ↦ elim (pop (bucket pool idx)) [
      | none ↦ (with_capacity (get_or size_classes idx 0), pool)
      | some (rest, buf) ↦ (clear buf, set_bucket pool idx rest)
    ]
  ]

pub put : BufPool → BytesMut → BufPool
put pool buf = elim (class_for buf.capacity) [
  | none ↦ pool
  | some idx ↦
      if ltb (length (bucket pool idx)) max_pool_per_class
      then set_bucket pool idx (bucket pool idx ++ buf ∷ [])
      else pool
]
