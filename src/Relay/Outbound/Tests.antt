-- ===== src/Relay/Outbound/Tests.antt =====
-- relay/outbound/grpc.rs: a concrete relay, and the theorems at concrete inputs.
use native.Mathlib.Decide.{dec_lt}
use tobira.Base.{
  ℕ, ◌≡◌, refl, true, false, Option, none, some, List, [], ◌∷◌, ◌++◌, arith, map, flatten, ok,
  append_assoc, take, drop,
}
use tobira.Base.Order.{lt_wf}
use tobira.Auth.{Crypto}
use tobira.Validator.{v4, Upstream, Validator, grpc}
use tobira.Pool.{GrpcPool, free}
use tobira.Framing.{frame_into, varint_size, size_loop, write_varint, write_loop}
use tobira.Framing.RoundTrip.{frame, message}
use tobira.Framing.Reader.{Recv, chunk, Writer, Ended, grpc_to_raw}
use tobira.Framing.Sender.{DataFrame, granted, send_grpc_data, send_loop}
use tobira.Framing.Sender.Whole.{body}
use tobira.Framing.Forward.{Peer, Forwarded, received, finished, finish, raw_to_grpc}
use tobira.Relay.Inbound.{found, read_initial_auth, decode_task, relay_request}
use tobira.Relay.Core.{handle_stream}
use tobira.Relay.Core.Agree.{Agrees}
use tobira.Relay.Wait.{
  Joined, returned, cancelled, sends_done, receives_done, ticks, wait_grpc_relay,
}
use tobira.Relay.Tunnel.{Opened, arrived, await_grpc_response_headers}
use tobira.Relay.Outbound.{Meets, respond, relays, relay_grpc}
use tobira.Relay.Outbound.Delivers.{Writes, relay_grpc-delivers}
use tobira.Relay.Outbound.Chain.{relay_grpc-chained}

-- A peer that grants three bytes, and then the rest.
abbrev slow_peer : Peer
slow_peer = record { taken = true; windows = granted 3 ∷ granted 100 ∷ [] }

abbrev open_writer : Writer
open_writer = record { accepts = λ out bytes. true; closes = λ out. true }

abbrev answer_chunks : List (List ℕ)
answer_chunks = (0 ∷ 0 ∷ 0 ∷ 0 ∷ 3 ∷ 0x0a ∷ []) ∷ (1 ∷ 9 ∷ []) ∷ []

abbrev meets : Meets
meets = record {
  auth = slow_peer;
  reads = received (5 ∷ 6 ∷ []) slow_peer ∷ received [] slow_peer ∷ [];
  causes = [];
  headers = arrived;
  response = map chunk answer_chunks;
  writer = open_writer;
  idle_timeout = some 300000;
  events = sends_done returned ∷ ticks 1000 cancelled cancelled ∷ receives_done returned ∷ [];
  reached = 0;
}

abbrev id_of_sixteen : List ℕ
id_of_sixteen = 1 ∷ 2 ∷ 3 ∷ 4 ∷ 5 ∷ 6 ∷ 7 ∷ 8 ∷ 9 ∷ 10 ∷ 11 ∷ 12 ∷ 13 ∷ 14 ∷ 15 ∷ 16 ∷ []

abbrev far : Upstream
far = record {
  addr = "10.0.0.1:443";
  parsed_addr = record { ip = v4 0x0a000001; port = 443 };
  transport = grpc "tun" "a.example" "https://a.example:443/tun/Tun";
  tcp_fast_open = false;
}

abbrev empty_pool : GrpcPool
empty_pool = record {
  conns = [];
  slots = λ i. free none;
  slot_count = 0;
  next_conn_id = 1;
  idle_timeout = none;
}

abbrev opened : Opened
opened = (ok (record { service_name = "tun"; tls_sni = "a.example"; connection = 1 }), empty_pool)

abbrev sends : Forwarded × List DataFrame
sends =
    raw_to_grpc meets.reads
      (send_grpc_data true (frame_into [] id_of_sixteen) false slow_peer.windows).1

abbrev writes : Option Ended × List ℕ
writes = let (how, bytes) = grpc_to_raw open_writer meets.response in (some how, bytes)

abbrev both_end : Option (Joined × Joined)
both_end = some (returned, returned)

program : Unit {0}
unfolding raw_to_grpc finish send_grpc_data send_loop frame_into frame message write_varint
    write_loop varint_size size_loop lt_wf dec_lt
program = tt

relayed : (relay_grpc meets far id_of_sixteen opened).0 ≡ relays both_end sends writes
unfolding relay_grpc respond wait_grpc_relay await_grpc_response_headers program
relayed = refl

sent_all : sends.0 ≡ finished
unfolding program
sent_all = refl

answer_whole : flatten answer_chunks ≡ flatten (map frame ((9 ∷ []) ∷ []))
unfolding program
answer_whole = refl

relay_grpc-delivers_example :
    (body sends.1 ≡ flatten (map frame (id_of_sixteen ∷ (5 ∷ 6 ∷ []) ∷ [])))
    × (both_end ≡ wait_grpc_relay meets.idle_timeout meets.events)
    × Writes both_end (9 ∷ []) writes
unfolding program
relay_grpc-delivers_example =
    relay_grpc-delivers meets far id_of_sixteen opened both_end sends writes ((9 ∷ []) ∷ [])
      answer_chunks (λ out bytes. refl) (λ out. refl) refl (omega arith) (omega arith) refl
      answer_whole relayed sent_all

abbrev plain : Crypto
plain = record {
  Sha256 = List ℕ;
  sha_new = [];
  sha_update = λ s bytes. s ++ bytes;
  sha_finalize = λ s. s;
  sha_update_append = λ s a b. append_assoc s a b;
  md5 = λ bytes. bytes;
  aes_decrypt = λ key block. block;
  crc32 = λ bytes. 0;
}

abbrev no_entries : Validator
no_entries = record { entries = [] }

-- The two relays cut the stream where they like.
abbrev request_chunks : List (List ℕ)
request_chunks = take 7 (body sends.1) ∷ drop 7 (body sends.1) ∷ []

request_whole : flatten request_chunks ≡ body sends.1
unfolding program
request_whole = refl

relay_grpc-chained_example :
    (cached : List (List ℕ)) × (buf : List ℕ) × (rest : List Recv) × (read_initial_auth
        (map chunk request_chunks)
      ≡ found cached id_of_sixteen buf rest)
    × Agrees id_of_sixteen cached
        (handle_stream plain 0 no_entries (some id_of_sixteen))
        (relay_request plain 0 no_entries true (map chunk request_chunks))
    × (decode_task open_writer cached buf rest ≡ ok (5 ∷ 6 ∷ []))
relay_grpc-chained_example =
    relay_grpc-chained meets far id_of_sixteen opened both_end sends writes request_chunks plain 0
      no_entries open_writer (λ out bytes. refl) refl (omega arith) relayed sent_all request_whole
