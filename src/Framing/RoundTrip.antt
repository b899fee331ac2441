-- ===== src/Framing/RoundTrip.antt =====
-- relay/transport/grpc.rs: the frame decoder reads back what the frame encoder wrote.
use tobira.Base.{
  ℕ, ◌+◌, ◌-◌, ◌/◌, ◌%◌, ◌^◌, ◌≤◌, ◌<◌, ◌≡◌, refl, ap, ◌∙◌, none, some, List, [], ◌∷◌, ◌++◌, arith,
  leb, if◌then◌else◌, length, length-append, take, drop, take-append, drop-append, append_assoc,
  append-nil, ok,
}
use tobira.Buf.{BufPool}
use tobira.Buf.Capacity.{get_cleared}
use tobira.Framing.{
  varint_size, write_varint, outer_len, be_bytes, be_value, frame_into, encode_grpc_frame, slice,
  decode_inner, decode_gun_payload, decode_grpc_frame_data, max_grpc_frame_size,
}
use tobira.Framing.Varint.{write_varint-groups, length-write_varint, read-write_varint}

-- The protobuf message: a tag, the length of the data, the data.
unfoldable pub message : List ℕ → List ℕ
message payload = 0x0a ∷ (write_varint [] (length payload) ++ payload)

-- The frame: an uncompressed flag, the length of the message, the message.
unfoldable pub frame : List ℕ → List ℕ
frame payload = 0 ∷ (be_bytes (outer_len payload) ++ message payload)

-- Below 4 GiB the length field of a frame holds the length of its message.
abbrev pub Fits : List ℕ → Type 0
Fits payload = outer_len payload < 2 ^ 32

pub length-message :
    (payload : List ℕ) → Fits payload → length (message payload) ≡ outer_len payload
unfolding message
length-message payload h =
    let (len, _, _) = length-write_varint [] (length payload) (omega arith) in
    omega (arith, len, length-append (write_varint [] (length payload)) payload)

pub frame-length : (payload : List ℕ) → 5 ≤ length (frame payload)
unfolding frame
frame-length payload = omega arith

pub frame_into-frame :
    (held payload : List ℕ) → Fits payload → frame_into held payload ≡ held ++ frame payload
unfolding frame_into frame message
frame_into-frame held payload h =
    rw
      (
        write_varint-groups _ (length payload) (omega arith),
        write_varint-groups [] (length payload) (omega arith),
      )
      (simp append_assoc)

take_all : (xs : List ℕ) → take (length xs) xs ≡ xs
take_all [] = refl
take_all (x ∷ xs) = ap (λ t. x ∷ t) (take_all xs)

slice_back :
    (front payload : List ℕ)
    → slice (front ++ payload) (length front) (length front + length payload) ≡ ok payload
slice_back front payload =
    let rest : length front + length payload - length front ≡ length payload = omega arith in
    let whole : take (length front + length payload - length front)
          (drop (length front) (front ++ payload))
        ≡ payload =
      rw (drop-append front payload, rest) (take_all payload) in
    ground (arith, length-append front payload)

decode_inner_back :
    (front payload : List ℕ) (k : ℕ)
    → 1 + k ≡ length front
    → length front + length payload < 2 ^ 64
    → decode_inner (front ++ payload) (length payload, k) ≡ ok (some payload)
unfolding decode_inner
decode_inner_back front payload k e fits =
    let end : (1 + k + length payload) % 2 ^ 64 ≡ length front + length payload = omega arith in
    rw (decode_inner, end, e)
      (ground (arith, length-append front payload, slice_back front payload))

decode_message :
    (payload : List ℕ) → Fits payload → decode_gun_payload (message payload) ≡ ok (some payload)
unfolding decode_gun_payload message
decode_message payload h =
    let (len, _, _) = length-write_varint [] (length payload) (omega arith) in
    rw (read-write_varint (length payload) payload (omega arith), decode_gun_payload)
      (decode_inner_back (0x0a ∷ write_varint [] (length payload)) payload
        (varint_size (length payload)) (omega (arith, len)) (omega (arith, len)))

pub be_value_lem :
    (n : ℕ)
    → n < 2 ^ 32
    → be_value (n / 2 ^ 24 % 256) (n / 2 ^ 16 % 256) (n / 2 ^ 8 % 256) (n % 256) ≡ n
be_value_lem n h = omega arith

decode_body :
    (outer : ℕ) (body rest : List ℕ)
    → outer < 2 ^ 32
    → length body ≡ outer
    → decode_grpc_frame_data (0 ∷ (be_bytes outer ++ (body ++ rest)))
      ≡ (if leb outer max_grpc_frame_size then decode_gun_payload body else ok none)
unfolding decode_grpc_frame_data
decode_body outer body rest h len =
    let whole : take outer (body ++ rest) ≡ body = rw (← len) (take-append body rest) in
    rw (be_value_lem outer h) (ground (arith, length-append body rest))

-- The decoder gives back the data of a frame whatever follows it, if the message is at most 16 MiB
-- long, and rejects a longer frame.
pub decode-frame :
    (payload rest : List ℕ)
    → Fits payload
    → decode_grpc_frame_data (frame payload ++ rest)
      ≡ ok (if leb (outer_len payload) max_grpc_frame_size then some payload else none)
unfolding frame
decode-frame payload rest h =
    decode_body (outer_len payload) (message payload) rest h (length-message payload h)
    ∙ rw (decode_message payload h) (ground arith)

-- The decoder gives back the data of a frame that `encode_grpc_frame` builds in a buffer of the pool,
-- whatever the buffer held before, if the message is at most 16 MiB long, and rejects a longer frame.
-- The length of the message is taken to fit the four bytes of the header.
pub decode-encode_grpc_frame :
    (alloc : ℕ → ℕ) (pool : BufPool) (payload : List ℕ)
    → Fits payload
    → decode_grpc_frame_data (encode_grpc_frame alloc pool payload).0
      ≡ ok (if leb (outer_len payload) max_grpc_frame_size then some payload else none)
unfolding encode_grpc_frame
decode-encode_grpc_frame alloc pool payload h =
    rw (get_cleared alloc pool (5 + outer_len payload), frame_into-frame [] payload h)
      (rw (append-nil (frame payload)) at (decode-frame payload [] h))
