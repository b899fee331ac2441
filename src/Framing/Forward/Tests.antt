-- ===== src/Framing/Forward/Tests.antt =====
-- relay/transport/grpc.rs, the forwarding loops: concrete runs, and the theorems at concrete inputs.
use native.Mathlib.Decide.{dec_lt}
use tobira.Base.{ℕ, ◌≡◌, refl, true, List, [], ◌∷◌, ◌++◌, arith, map}
use tobira.Base.Order.{lt_wf}
use tobira.Framing.{frame_into, varint_size, size_loop, write_varint, write_loop}
use tobira.Framing.Reader.{chunk, Writer, grpc_to_raw, finished as written}
use tobira.Framing.Sender.{granted, send_grpc_data, send_loop}
use tobira.Framing.Forward.{Peer, Read, received, finish, raw_to_grpc}
use tobira.Framing.Forward.Delivery.{EndsStream, raw_to_grpc-grpc_to_raw}

abbrev open_writer : Writer
open_writer = record { accepts = λ out bytes. true; closes = λ out. true }

-- A peer that grants ten bytes, and then the rest.
abbrev slow_peer : Peer
slow_peer = record { taken = true; windows = granted 10 ∷ granted 100 ∷ [] }

abbrev hello : List ℕ
hello = 104 ∷ 101 ∷ 108 ∷ 108 ∷ 111 ∷ []

abbrev two_reads : List Read
two_reads = received hello slow_peer ∷ received (33 ∷ []) slow_peer ∷ received [] slow_peer ∷ []

abbrev hello_body : List ℕ
hello_body = 0 ∷ 0 ∷ 0 ∷ 0 ∷ 7 ∷ 0x0a ∷ 5 ∷ hello ++ 0 ∷ 0 ∷ 0 ∷ 0 ∷ 3 ∷ 0x0a ∷ 1 ∷ 33 ∷ []

abbrev hello_cut : List (List ℕ)
hello_cut =
    (0 ∷ 0 ∷ 0 ∷ 0 ∷ []) ∷ (7 ∷ 0x0a ∷ 5 ∷ hello) ∷ (0 ∷ 0 ∷ 0 ∷ 0 ∷ 3 ∷ 0x0a ∷ 1 ∷ 33 ∷ []) ∷ []

raw_to_grpc-grpc_to_raw_example :
    EndsStream (raw_to_grpc two_reads []).1
    × (grpc_to_raw open_writer (map chunk hello_cut) ≡ (written, hello ++ 33 ∷ []))
unfolding raw_to_grpc finish send_grpc_data send_loop frame_into write_varint write_loop varint_size
    size_loop lt_wf dec_lt
raw_to_grpc-grpc_to_raw_example =
    raw_to_grpc-grpc_to_raw open_writer (λ out bytes. refl) (λ out. refl) two_reads hello_cut
      (omega arith) refl refl refl

abbrev three_peers : List Peer
three_peers = slow_peer ∷ slow_peer ∷ slow_peer ∷ []
