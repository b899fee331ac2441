-- ===== src/Framing/Tests.antt =====
-- relay/transport/grpc.rs, the framing: concrete runs, and the theorems at concrete inputs.
use native.Mathlib.Decide.{dec_lt}
use tobira.Base.{
  ℕ, ◌+◌, ◌<◌, ◌-◌, ◌^◌, ◌≡◌, ◌≢◌, refl, true, some, List, [], ◌∷◌, ◌++◌, arith, length, ok, err,
}
use tobira.Base.Order.{lt_wf}
use tobira.Buf
use tobira.Framing.{
  varint_size, size_loop, write_varint, write_loop, read_varint, read_loop, encode_grpc_frame,
  decode_gun_payload, decode_grpc_frame_data, slice_order,
}
use tobira.Framing.RoundTrip.{frame, message, decode-frame, decode-encode_grpc_frame}
use tobira.Framing.Panics.{decode_gun_payload_cases}
use tobira.Framing.Reader.{chunk, failed, stuck, Writer, grpc_to_raw}
use tobira.Framing.Reader.Ends.{grpc_to_raw-ne-stuck}

abbrev hello : List ℕ
hello = 104 ∷ 101 ∷ 108 ∷ 108 ∷ 111 ∷ []

hello-frame : frame hello ≡ 0 ∷ 0 ∷ 0 ∷ 0 ∷ 7 ∷ 0x0a ∷ 5 ∷ hello
unfolding frame message write_varint write_loop varint_size size_loop lt_wf dec_lt
hello-frame = refl

varint_300 : (write_varint [] 300 ≡ 0xac ∷ 0x02 ∷ []) × (varint_size 300 ≡ 2)
unfolding write_varint write_loop varint_size size_loop lt_wf dec_lt
varint_300 = (refl, refl)

abbrev three_hundred : List ℕ
three_hundred = 0xac ∷ 2 ∷ 7 ∷ []

two_bytes : read_varint three_hundred ≡ some (300, 2)
unfolding read_varint read_loop
two_bytes = refl

hello_fits : 1 + varint_size (length hello) + length hello < 2 ^ 32
unfolding varint_size size_loop lt_wf dec_lt
hello_fits = omega arith

decode-frame_example : decode_grpc_frame_data (frame hello ++ (1 ∷ [])) ≡ ok (some hello)
unfolding varint_size size_loop lt_wf dec_lt
decode-frame_example = decode-frame hello (1 ∷ []) (omega arith)

decode-encode_grpc_frame_example :
    decode_grpc_frame_data (encode_grpc_frame (λ n. n) Buf.new hello).0 ≡ ok (some hello)
unfolding varint_size size_loop lt_wf dec_lt
decode-encode_grpc_frame_example = decode-encode_grpc_frame (λ n. n) Buf.new hello (omega arith)

-- The largest u64 as a length, in ten bytes.
abbrev huge : List ℕ
huge = 255 ∷ 255 ∷ 255 ∷ 255 ∷ 255 ∷ 255 ∷ 255 ∷ 255 ∷ 255 ∷ 1 ∷ []

huge_value : read_varint huge ≡ some (2 ^ 64 - 1, 10)
unfolding read_varint read_loop
huge_value = refl

decode_gun_payload_cases_example : decode_gun_payload (0x0a ∷ huge) ≡ err slice_order
decode_gun_payload_cases_example =
    decode_gun_payload_cases huge (2 ^ 64 - 1) 10 huge_value (omega arith)

abbrev open_writer : Writer
open_writer = record { accepts = λ out bytes. true; closes = λ out. true }

grpc_to_raw-ne-stuck_example : (grpc_to_raw open_writer (chunk huge ∷ failed ∷ [])).0 ≢ stuck
grpc_to_raw-ne-stuck_example = grpc_to_raw-ne-stuck open_writer (chunk huge ∷ failed ∷ [])
