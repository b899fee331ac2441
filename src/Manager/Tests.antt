-- ===== src/Manager/Tests.antt =====
-- subscription/manager.rs: the theorem at a concrete input.
use tobira.Base.{
  ℕ, ◌≡◌, refl, Option, some, none, false, String, List, [], ◌∷◌, ◌++◌, err, append_assoc, str_eq,
  if◌then◌else◌,
}
use tobira.Config.{plain_packets}
use tobira.Node.{VMessNode}
use tobira.Auth.{Crypto}
use tobira.Validator
use tobira.Validator.{v4, SocketAddr, grpc, Validator}
use tobira.Manager.{build_validator, bad_address, node_addr}

abbrev plain : Crypto
plain = record {
  Sha256 = List ℕ;
  sha_new = [];
  sha_update = λ s bytes. s ++ bytes;
  sha_finalize = λ s. s;
  sha_update_append = λ s a b. append_assoc s a b;
  md5 = λ bytes. bytes;
  aes_decrypt = λ key block. block;
  crc32 = λ bytes. 0;
}

abbrev parse_addr : String → Option SocketAddr
parse_addr text =
    if str_eq text "10.0.0.1:443" then some (record { ip = v4 0x0a000001; port = 443 }) else none

abbrev parse_uri : String → Option String
parse_uri text = some text

abbrev at_host : String → VMessNode
at_host host = record {
  name = "n";
  source = "sub";
  server = host;
  port = 443;
  uuid = "550e8400-e29b-41d4-a716-446655440000";
  alter_id = 0;
  security = "auto";
  network = "grpc";
  tls = false;
  sni = "example.com";
  grpc_service_name = some "tun";
  ws_path = none;
  ws_host = none;
  packet_encoding = plain_packets;
}

-- A node with a domain name is enough for the whole table to be refused.
domain_refused :
    build_validator parse_addr parse_uri plain (at_host "example.com" ∷ [])
    ≡ err (bad_address "example.com:443")
unfolding build_validator node_addr
domain_refused = refl

abbrev table : Validator
table = record {
  entries =
      record {
        uuid = "550e8400-e29b-41d4-a716-446655440000";
        verifier = record {
          ecb_key =
              10 ∷ 17 ∷ 57 ∷ 47 ∷ 47 ∷ 124 ∷ 29 ∷ 25 ∷ 29 ∷ 24 ∷ 124 ∷ 23 ∷ 24 ∷ 26 ∷ 92 ∷ 92 ∷ [];
        };
        upstream = record {
          addr = "10.0.0.1:443";
          parsed_addr = record { ip = v4 0x0a000001; port = 443 };
          transport = grpc "tun" "example.com" "https://example.com:443/tun/Tun";
          tcp_fast_open = false;
        };
      }
      ∷ [];
}
