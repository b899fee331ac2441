-- ===== src/Relay/Fast/Both/Tests.antt =====
-- relay/inbound/grpc.rs, the fast relay as a whole: the theorem at a concrete input.
use native.Mathlib.Decide.{dec_lt}
use tobira.Base.{ℕ, ◌≡◌, refl, true, false, none, List, [], ◌∷◌, ◌++◌, arith, map, flatten, ok}
use tobira.Base.Order.{lt_wf}
use tobira.Validator.{v4, Upstream, grpc}
use tobira.Pool.{free}
use tobira.Framing.{varint_size, size_loop, write_varint, write_loop}
use tobira.Framing.RoundTrip.{frame, message}
use tobira.Framing.Reader.{chunk, next_frame, split_frame}
use tobira.Framing.Sender.{DataFrame, granted, send_grpc_data, send_loop}
use tobira.Framing.Sender.Whole.{body}
use tobira.Framing.Forward.{Peer, Forwarded, forward_loop, finish, grpc_frames_to_grpc}
use tobira.Relay.Tunnel.{Opened, arrived, await_grpc_response_headers}
use tobira.Relay.Fast.{send_cached}
use tobira.Relay.Fast.Both.{Meets, relays, relay_grpc_to_grpc_fast}
use tobira.Relay.Fast.Both.Carries.{relay_fast-carries}

abbrev slow_peer : Peer
slow_peer = record { taken = true; windows = granted 3 ∷ granted 100 ∷ [] }

abbrev later_chunks : List (List ℕ)
later_chunks = (0 ∷ 3 ∷ 0x0a ∷ []) ∷ (1 ∷ 9 ∷ []) ∷ []

abbrev answer_chunks : List (List ℕ)
answer_chunks = (0 ∷ 0 ∷ 0 ∷ 0 ∷ 3 ∷ 0x0a ∷ 1 ∷ 7 ∷ []) ∷ []

abbrev meets : Meets
meets = record {
  buf = 0 ∷ 0 ∷ 0 ∷ [];
  request = map chunk later_chunks;
  peers = slow_peer ∷ slow_peer ∷ slow_peer ∷ [];
  causes = [];
  headers = arrived;
  response = map chunk answer_chunks;
  client = slow_peer ∷ slow_peer ∷ [];
}

abbrev far : Upstream
far = record {
  addr = "10.0.0.1:443";
  parsed_addr = record { ip = v4 0x0a000001; port = 443 };
  transport = grpc "tun" "a.example" "https://a.example:443/tun/Tun";
  tcp_fast_open = false;
}

abbrev opened : Opened
opened = (
  ok (record { service_name = "tun"; tls_sni = "a.example"; connection = 1 }),
  record {
    conns = [];
    slots = λ i. free none;
    slot_count = 0;
    next_conn_id = 1;
    idle_timeout = none;
  },
)

abbrev first_payloads : List (List ℕ)
first_payloads = (1 ∷ 2 ∷ 3 ∷ []) ∷ []

abbrev there : Forwarded × List DataFrame
there = send_cached (map frame first_payloads) meets.buf meets.request meets.peers []

abbrev back : Forwarded × List DataFrame
back = grpc_frames_to_grpc meets.response meets.client

program : Unit {0}
unfolding send_cached forward_loop grpc_frames_to_grpc next_frame split_frame finish send_grpc_data
    send_loop frame message write_varint write_loop varint_size size_loop lt_wf dec_lt
program = tt

carried :
    (relay_grpc_to_grpc_fast meets far (map frame first_payloads) opened).0 ≡ relays there back
unfolding relay_grpc_to_grpc_fast await_grpc_response_headers program
carried = refl

relay_fast-carries_example :
    (body there.1 ≡ flatten (map frame first_payloads) ++ flatten (map frame ((9 ∷ []) ∷ [])))
    × (body back.1 ≡ flatten answer_chunks)
unfolding program
relay_fast-carries_example =
    relay_fast-carries meets far first_payloads ((9 ∷ []) ∷ []) ((7 ∷ []) ∷ []) later_chunks
      answer_chunks opened there back refl refl (omega arith) refl refl (omega arith) carried refl
      refl
