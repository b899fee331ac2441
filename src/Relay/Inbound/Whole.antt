-- ===== src/Relay/Inbound/Whole.antt =====
-- relay/inbound/grpc.rs: a stream that goes through the core arrives there whole, behind its Auth ID.
use Prim.Native.Nat.{min}
use tobira.Base.{
  ℕ, zero, suc, ◌+◌, ◌-◌, ◌≤◌, ◌<◌, ◌≡◌, refl, sym, ap, ◌∙◌, inl, inr, true, some, List, [], ◌∷◌,
  ◌++◌, arith, leb, length, take, drop, is_empty, map, flatten, All, ok, Bool-cases, append_assoc,
  append-nil, length-append,
}
use tobira.Framing.{decode_grpc_frame_data}
use tobira.Framing.RoundTrip.{frame, decode-frame}
use tobira.Framing.Reader.{chunk, pending, Writer}
use tobira.Framing.Reader.Chunks.{
  IsDeliverable, next_frame-Reads, next_frame_done, append_empty, frames_length, or_true,
  length-flatten-map,
}
use tobira.Relay.Inbound.{skip_auth_id_bytes, decode_one, decode_cached, decode_later, decode_task}

pub decode_whole :
    (payload : List ℕ)
    → IsDeliverable payload
    → decode_grpc_frame_data (frame payload) ≡ ok (some payload)
decode_whole payload h =
    ap decode_grpc_frame_data (sym (append-nil (frame payload)))
    ∙ decode-frame payload [] (omega arith)
    ∙ ground arith

drop_append : (n : ℕ) (xs ys : List ℕ) → drop n (xs ++ ys) ≡ drop n xs ++ drop (n - length xs) ys
drop_append zero [] ys = refl
drop_append (suc n) [] ys = let same : suc n - 0 ≡ suc n = omega arith in rw same refl
drop_append zero (x ∷ xs) ys =
    let none_left : 0 - suc (length xs) ≡ 0 = omega arith in rw none_left refl
drop_append (suc n) (x ∷ xs) ys =
    let fewer : suc n - suc (length xs) ≡ n - length xs = omega arith in
    rw fewer (drop_append n xs ys)

drop-nil : (n : ℕ) → drop {A = ℕ} n [] ≡ []
drop-nil zero = refl
drop-nil (suc n) = refl

drop_long : (n : ℕ) (xs : List ℕ) → length xs ≤ n → drop n xs ≡ []
drop_long n [] h = drop-nil n
drop_long zero (x ∷ xs) h = absurd (omega arith)
drop_long (suc n) (x ∷ xs) h = drop_long n xs (omega arith)

-- What is dropped of two lists, one behind the other.
skip_join :
    (out xs ys : List ℕ) (n : ℕ)
    → (out ++ drop n xs) ++ drop (n - length xs) ys ≡ out ++ drop n (xs ++ ys)
skip_join out xs ys n =
    append_assoc out (drop n xs) (drop (n - length xs) ys)
    ∙ ap (λ t. out ++ t) (sym (drop_append n xs ys))

drop-min : (n : ℕ) (xs : List ℕ) → drop (min n (length xs)) xs ≡ drop n xs
drop-min n xs = elim (Bool-cases (leb n (length xs))) [
  | inl short ↦ let least : min n (length xs) ≡ n = ground arith in rw least refl
  | inr long ↦
      let least : min n (length xs) ≡ length xs = ground arith in
      rw least (drop_long (length xs) xs (omega arith) ∙ sym (drop_long n xs (ground arith)))
]

pub take_more : (n : ℕ) (xs ys : List ℕ) → n ≤ length xs → take n (xs ++ ys) ≡ take n xs
take_more zero xs ys h = refl
take_more (suc n) [] ys h = absurd (omega arith)
take_more (suc n) (x ∷ xs) ys h = ap (λ t. x ∷ t) (take_more n xs ys (omega arith))

module _ (writer : Writer) (takes : (out bytes : List ℕ) → writer.accepts out bytes ≡ true) where
  decode_one-frame :
      (skip : ℕ) (out payload : List ℕ)
      → IsDeliverable payload
      → decode_one writer skip out (frame payload)
        ≡ ok (skip - length payload, out ++ drop skip payload)
  unfolding decode_one skip_auth_id_bytes
  decode_one-frame skip out payload h =
      rw (decode_whole payload h, decode_one)
        (rw
          (
            drop-min skip payload,
            takes out (drop skip payload),
            or_true (is_empty (drop skip payload)),
          )
          (ap (λ n. ok (n, out ++ drop skip payload)) (omega arith)))

  decode_cached-frames :
      (payloads : List (List ℕ)) (skip : ℕ) (out : List ℕ)
      → All IsDeliverable payloads
      → decode_cached writer skip out (map frame payloads)
        ≡ ok (skip - length (flatten payloads), out ++ drop skip (flatten payloads))
  unfolding decode_cached
  decode_cached-frames [] skip out h =
      rw (drop-nil skip, append-nil) (ap (λ n. ok (n, out)) (omega arith))
  decode_cached-frames (p ∷ ps) skip out (d, h) =
      let fewer : skip - length p - length (flatten ps) ≡ skip - length (p ++ flatten ps) =
        omega (arith, length-append p (flatten ps)) in
      rw (decode_one-frame skip out p d) (
        decode_cached-frames ps (skip - length p) (out ++ drop skip p) h
        ∙ rw (fewer, skip_join out p (flatten ps) skip) refl)

  decode_later-frames :
      (payloads : List (List ℕ)) (fuel skip : ℕ) (out buf : List ℕ) (cs : List (List ℕ))
      → All IsDeliverable payloads
      → buf ++ flatten cs ≡ flatten (map frame payloads)
      → length payloads < fuel
      → decode_later writer fuel skip out buf (map chunk cs)
        ≡ ok (out ++ drop skip (flatten payloads))
  unfolding decode_later
  decode_later-frames ps zero skip out buf cs h e enough = absurd (omega arith)
  decode_later-frames [] (suc fuel) skip out buf cs h e enough =
      let (none_held, none_left) = append_empty buf (flatten cs) e in
      rw (none_held, decode_later)
        (rw (next_frame_done cs none_left) (rw (drop-nil skip, append-nil) refl))
  decode_later-frames (p ∷ ps) (suc fuel) skip out buf cs (d, h) e enough =
      let (buf', cs', reads, left) = next_frame-Reads p (flatten (map frame ps)) buf cs d e in
      let rest =
        decode_later-frames ps fuel (skip - length p) (out ++ drop skip p) buf' cs' h left
          (omega arith) in
      rw (reads, decode_later)
        (rw (decode_one-frame skip out p d) (
          (λ i.
            decode_later writer fuel (skip - length p) (out ++ drop skip p) (reads i).1 (reads i).2)
          ∙ rest
          ∙ ap ok (skip_join out p (flatten ps) skip)))

  -- The data of a body of frames, each at most 16 MiB long, is written to the core without its first 16
  -- bytes, whichever of the frames were read before for the Auth ID, and in whatever chunks the others
  -- arrive, if no write fails.
  pub decode_task-frames :
      (taken left : List (List ℕ)) (buf : List ℕ) (cs : List (List ℕ))
      → All IsDeliverable taken
      → All IsDeliverable left
      → buf ++ flatten cs ≡ flatten (map frame left)
      → decode_task writer (map frame taken) buf (map chunk cs)
        ≡ ok (drop 16 (flatten taken ++ flatten left))
  unfolding decode_task
  decode_task-frames taken left buf cs h k e =
      let fewer : length left ≤ length buf + pending (map chunk cs) = omega (
        arith,
        length-flatten-map cs,
        length-append buf (flatten cs),
        ap length e,
        frames_length left,
      ) in
      rw (decode_cached-frames taken 16 [] h) (
        decode_later-frames left (suc (length buf + pending (map chunk cs)))
          (16 - length (flatten taken)) ([] ++ drop 16 (flatten taken)) buf cs k e (omega arith)
        ∙ ap ok (skip_join [] (flatten taken) (flatten left) 16))
