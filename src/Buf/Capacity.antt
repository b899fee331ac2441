-- ===== src/Buf/Capacity.antt =====
-- buf.rs: how much room a buffer from the pool has.
use tobira.Base.{
  inl, inr, ℕ, ◌*◌, ◌≤◌, ◌<◌, ◌≡◌, ap, ◌∙◌, some, List, [], ◌∷◌, ◌++◌, arith, length, get_or, pop,
  pop-append, Option-cases, get_or-set_self, set-set, set-get_or,
}
use tobira.Buf.{
  BytesMut, BufPool, class_for, get, put, bucket, set_bucket, clear, max_pool_per_class,
  size_classes,
}
use tobira.Buf.Keeps.{IsValid, bucket-IsBucket, class_for-lt, popped-IsBucket}

-- Two sizes of one class differ by less than a factor of two, above the smallest class.
class_for_close :
    (n c idx : ℕ) → class_for n ≡ some idx → class_for c ≡ some idx → 1024 < n → n < 2 * c
unfolding class_for
class_for_close n c idx p q h = ground arith

class_for-le : (n idx : ℕ) → class_for n ≡ some idx → n ≤ get_or size_classes idx 0
unfolding class_for
class_for-le n idx e = ground arith

put_room :
    (pool : BufPool) (b : BytesMut) (idx : ℕ)
    → class_for b.capacity ≡ some idx
    → length (bucket pool idx) < max_pool_per_class
    → put pool b ≡ set_bucket pool idx (bucket pool idx ++ b ∷ [])
unfolding put
put_room pool b idx fits room = rw (fits, put) (ground arith)

next_bucket :
    (pool : BufPool) (idx : ℕ) (bufs : List BytesMut)
    → IsValid pool
    → idx < 7
    → bucket (set_bucket pool idx bufs) idx ≡ bufs
next_bucket pool idx bufs v lt =
    get_or-set_self pool.buckets idx bufs [] (omega (arith, v.one_per_class))

module _ (alloc : ℕ → ℕ) where
  -- A buffer from the pool is empty, whatever it held when it was put back.
  pub get_cleared : (pool : BufPool) (n : ℕ) → (get alloc pool n).0.bytes ≡ []
  unfolding get
  get_cleared pool n = ground arith

  -- A request above 1024 bytes is served with more than half of the room that it asks for.
  pub get_half :
      (pool : BufPool) (n : ℕ)
      → ((m : ℕ) → m ≤ alloc m)
      → IsValid pool
      → 1024 < n
      → n < 2 * (get alloc pool n).0.capacity
  unfolding get
  get_half pool n grants v h = elim (Option-cases (class_for n)) [
    | inl large ↦ rw (large, get) (omega (arith, grants n))
    | inr (idx, fits) ↦ elim (Option-cases (pop (bucket pool idx))) [
      | inl empty ↦
          rw (fits, empty, get)
            (omega (arith, grants (get_or size_classes idx 0), class_for-le n idx fits))
      | inr ((rest, b), taken) ↦
          rw (fits, taken, get)
            (class_for_close n b.capacity idx fits
              (popped-IsBucket idx (bucket pool idx) rest b
                (bucket-IsBucket pool idx v (class_for-lt n idx fits)) taken).1
              h)
    ]
  ]

  get_popped :
      (pool : BufPool) (b : BytesMut) (n idx : ℕ) (rest : List BytesMut)
      → class_for n ≡ some idx
      → pop (bucket pool idx) ≡ some (rest, b)
      → get alloc pool n ≡ (clear b, set_bucket pool idx rest)
  unfolding get
  get_popped pool b n idx rest asked last = rw (asked, last, get)

  -- A buffer that is put into a bucket with room is the next one that a request of the same class
  -- gets, cleared, and the pool is then as it was.
  pub get-put :
      (pool : BufPool) (b : BytesMut) (n idx : ℕ)
      → IsValid pool
      → class_for b.capacity ≡ some idx
      → class_for n ≡ some idx
      → length (bucket pool idx) < max_pool_per_class
      → get alloc (put pool b) n ≡ (clear b, pool)
  get-put pool b n idx v fits asked room =
      let filled = set_bucket pool idx (bucket pool idx ++ b ∷ []) in
      let last : pop (bucket filled idx) ≡ some (bucket pool idx, b) =
        rw (next_bucket pool idx (bucket pool idx ++ b ∷ []) v (class_for-lt n idx asked))
          (pop-append (bucket pool idx) b) in
      ap (λ p. get alloc p n) (put_room pool b idx fits room)
      ∙ get_popped filled b n idx (bucket pool idx) asked last
      ∙ ap (λ bs. (clear b, record pool { buckets = bs }))
          (set-set pool.buckets idx _ (bucket pool idx) ∙ set-get_or pool.buckets idx [])

  -- A request is served with less room than it asks for, whenever a smaller buffer of its class
  -- was the last to be put into the class's bucket.
  pub get_undersized :
      (pool : BufPool) (b : BytesMut) (n idx : ℕ)
      → IsValid pool
      → class_for b.capacity ≡ some idx
      → class_for n ≡ some idx
      → length (bucket pool idx) < max_pool_per_class
      → b.capacity < n
      → (get alloc (put pool b) n).0.capacity < n
  get_undersized pool b n idx v fits asked room short =
      rw (get-put pool b n idx v fits asked room) short
