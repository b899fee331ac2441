-- ===== src/Relay/Tests.antt =====
-- The relay: concrete runs, and the theorems at concrete inputs.
use native.Mathlib.Decide.{dec_lt}
use tobira.Base.{
  ℕ, ◌≡◌, refl, true, false, none, some, List, [], ◌∷◌, ◌++◌, arith, map, length, ok, append_assoc,
  if◌then◌else◌, ◌==◌,
}
use tobira.Base.Order.{lt_wf}
use tobira.Framing.{
  varint_size, size_loop, write_varint, write_loop, read_varint, read_loop, decode_inner,
  decode_gun_payload, decode_grpc_frame_data,
}
use tobira.Framing.RoundTrip.{frame, message}
use tobira.Framing.Reader.{Recv, chunk, next_frame, split_frame, Writer}
use tobira.Auth.{Crypto}
use tobira.Validator.{v4, Upstream, Validator, grpc}
use tobira.Pool.{free, GrpcPool, PooledConn, pool_key}
use tobira.Relay.Inbound.{Request, found, read_initial_auth, auth_loop, decode_task, relay_request}
use tobira.Relay.Inbound.Auth.{read_initial_auth-whole}
use tobira.Relay.Core.{handle_stream}
use tobira.Relay.Core.Agree.{Agrees, relay_request-Agrees}
use tobira.Relay.Tunnel.{Http2, open_grpc_tunnel}
use tobira.Relay.Tunnel.Reconnect.{open_grpc_tunnel-reconnects}

abbrev open_writer : Writer
open_writer = record { accepts = λ out bytes. true; closes = λ out. true }

-- Ten bytes and ten bytes.
abbrev ten : List ℕ
ten = 1 ∷ 2 ∷ 3 ∷ 4 ∷ 5 ∷ 6 ∷ 7 ∷ 8 ∷ 9 ∷ 10 ∷ []

abbrev two_frames : List (List ℕ)
two_frames =
    (0 ∷ 0 ∷ 0 ∷ []) ∷ (0 ∷ 12 ∷ 0x0a ∷ 10 ∷ ten ++ 0 ∷ 0 ∷ 0 ∷ 0 ∷ 12 ∷ 0x0a ∷ 10 ∷ ten) ∷ []

read_initial_auth-whole_example :
    (cached : List (List ℕ)) × (auth_id buf written : List ℕ) × (rest : List Recv)
    × (read_initial_auth (map chunk two_frames) ≡ found cached auth_id buf rest)
    × (decode_task open_writer cached buf rest ≡ ok written)
    × (length auth_id ≡ 16)
    × (auth_id ++ written ≡ ten ++ ten)
unfolding frame message write_varint write_loop varint_size size_loop lt_wf dec_lt
read_initial_auth-whole_example =
    read_initial_auth-whole open_writer (λ out bytes. refl) (ten ∷ ten ∷ []) two_frames
      (omega arith) refl (omega arith)

abbrev post : Request
post = record { method = "POST"; path = "/tun/Tun"; content_type = some "application/grpc+proto" }

abbrev plain : Crypto
plain = record {
  Sha256 = List ℕ;
  sha_new = [];
  sha_update = λ s bytes. s ++ bytes;
  sha_finalize = λ s. s;
  sha_update_append = λ s a b. append_assoc s a b;
  md5 = λ bytes. bytes;
  aes_decrypt = λ key block. block;
  crc32 = λ bytes. 0;
}

abbrev no_entries : Validator
no_entries = record { entries = [] }

relay_request-Agrees_example :
    Agrees
      (1 ∷ 2 ∷ 3 ∷ 4 ∷ 5 ∷ 6 ∷ 7 ∷ 8 ∷ 9 ∷ 10 ∷ 1 ∷ 2 ∷ 3 ∷ 4 ∷ 5 ∷ 6 ∷ [])
      (map frame (ten ∷ ten ∷ []))
      (handle_stream plain 0 no_entries
        (some (1 ∷ 2 ∷ 3 ∷ 4 ∷ 5 ∷ 6 ∷ 7 ∷ 8 ∷ 9 ∷ 10 ∷ 1 ∷ 2 ∷ 3 ∷ 4 ∷ 5 ∷ 6 ∷ [])))
      (relay_request plain 0 no_entries true (map chunk two_frames))
unfolding read_initial_auth auth_loop next_frame split_frame decode_grpc_frame_data
    decode_gun_payload decode_inner read_varint read_loop frame message write_varint write_loop
    varint_size size_loop lt_wf dec_lt
relay_request-Agrees_example =
    relay_request-Agrees plain 0 no_entries (map chunk two_frames) [] (map frame (ten ∷ ten ∷ []))
      (1 ∷ 2 ∷ 3 ∷ 4 ∷ 5 ∷ 6 ∷ 7 ∷ 8 ∷ 9 ∷ 10 ∷ 1 ∷ 2 ∷ 3 ∷ 4 ∷ 5 ∷ 6 ∷ []) [] refl

abbrev over_grpc : Upstream
over_grpc = record {
  addr = "10.0.0.1:443";
  parsed_addr = record { ip = v4 0x0a000001; port = 443 };
  transport = grpc "tun" "a.example" "https://a.example:443/tun/Tun";
  tcp_fast_open = false;
}

abbrev dead_conn : PooledConn
dead_conn = record { id = 1; last_used = 500 }

abbrev with_dead : GrpcPool
with_dead = record {
  conns = ("a.example:10.0.0.1:443", 0) ∷ [];
  slots = λ i. if i == 0 then free (some dead_conn) else free none;
  slot_count = 1;
  next_conn_id = 2;
  idle_timeout = none;
}

-- Connection 1 is dead, the others work.
abbrev http : Http2
http = record {
  connects = λ id. true;
  is_ready = λ id. if id == 1 then false else true;
  takes_request = λ id. true;
  builds_request = λ uri. true;
}

open_grpc_tunnel-reconnects_example :
    (q : GrpcPool) × (open_grpc_tunnel http 900 over_grpc with_dead
      ≡ some (ok (record { service_name = "tun"; tls_sni = "a.example"; connection = 2 }), q))
    × (q.slots 0 ≡ free (some (record { id = 2; last_used = 900 })))
unfolding pool_key
open_grpc_tunnel-reconnects_example =
    open_grpc_tunnel-reconnects http 900 0 over_grpc "tun" "a.example"
      "https://a.example:443/tun/Tun" refl refl with_dead refl dead_conn refl refl refl refl refl
