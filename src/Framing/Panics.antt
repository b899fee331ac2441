-- ===== src/Framing/Panics.antt =====
-- relay/transport/grpc.rs: what the payload decoder answers, and the payloads on which it panics.
use tobira.Base.{
  ℕ, suc, ◌+◌, ◌-◌, ◌^◌, ◌≤◌, ◌<◌, ◌≡◌, ap, some, none, List, ◌∷◌, arith, leb, if◌then◌else◌,
  length, take, drop, ok, err,
}
use tobira.Framing.{IsU64, read_varint, slice_order, decode_inner, decode_gun_payload}
use tobira.Framing.Varint.{read_varint_bounds}

one_add : (k : ℕ) → 1 + k ≡ suc k
one_add k = omega arith

decode_inner_cases :
    (tag : ℕ) (rest : List ℕ) (n k : ℕ)
    → IsU64 n
    → k ≤ length rest
    → k ≤ 10
    → length rest < 2 ^ 63
    → decode_inner (tag ∷ rest) (n, k) ≡ (
        if leb (2 ^ 64) (1 + k + n)
        then err slice_order
        else ok (if leb (k + n) (length rest) then some (take n (drop k rest)) else none))
unfolding decode_inner
decode_inner_cases tag rest n k hn hk small room =
    let drops : drop (1 + k) (tag ∷ rest) ≡ drop k rest =
      ap (λ m. drop m (tag ∷ rest)) (one_add k) in
    let width : 1 + k + n - (1 + k) ≡ n = omega arith in ground (arith, drops, width)

-- The answer to a payload whose length is read as `n` from `k` bytes: a panic if the end of the
-- data passes 2 ^ 64, else the `n` bytes after the length, or nothing where they are cut short.
pub decode_gun_payload_cases :
    (rest : List ℕ) (n k : ℕ)
    → read_varint rest ≡ some (n, k)
    → length rest < 2 ^ 63
    → decode_gun_payload (0x0a ∷ rest) ≡ (
        if leb (2 ^ 64) (1 + k + n)
        then err slice_order
        else ok (if leb (k + n) (length rest) then some (take n (drop k rest)) else none))
unfolding decode_gun_payload
decode_gun_payload_cases rest n k e room =
    let (hn, _, hk, small) = read_varint_bounds rest n k e in
    rw (e, decode_gun_payload) (decode_inner_cases 0x0a rest n k hn hk small room)
