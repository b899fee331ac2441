-- ===== src/Process/Dedup/Tests.antt =====
-- subscription/process.rs: concrete runs of the deduplication, and the theorems at concrete inputs.
use tobira.Base.{
  ◌≡◌, ◌≢◌, refl, Bool, false, none, String, List, [], ◌∷◌, map, str_eq, eq_iff, arith,
}
use tobira.Config.{plain_packets}
use tobira.Node.{VMessNode}
use tobira.Process.Dedup.{parse_strategy, rename, numbered, deduplicate_nodes}
use tobira.Process.Dedup.Rename.{rename_clash}

abbrev node : String → String → VMessNode
node n s = record {
  name = n;
  source = "sub";
  server = s;
  port = 443;
  uuid = "u";
  alter_id = 0;
  security = "auto";
  network = "tcp";
  tls = false;
  sni = "";
  grpc_service_name = none;
  ws_path = none;
  ws_host = none;
  packet_encoding = plain_packets;
}

abbrev is_ipv4 : String → Bool
is_ipv4 text = str_eq text "10.0.0.1"

abbrev is_ipv6 : String → Bool
is_ipv6 text = str_eq text "::1"

abbrev three : List VMessNode
three = node "a" "::1" ∷ node "a" "10.0.0.1" ∷ node "b" "::1" ∷ []

renamed :
    deduplicate_nodes is_ipv4 is_ipv6 three ""
    ≡ node "a" "::1" ∷ node "a (1)" "10.0.0.1" ∷ node "b" "::1" ∷ []
unfolding deduplicate_nodes
renamed = refl

preferred :
    deduplicate_nodes is_ipv4 is_ipv6 three "prefer_ipv4"
    ≡ node "a" "10.0.0.1" ∷ node "b" "::1" ∷ []
unfolding deduplicate_nodes
preferred = refl

only_first : deduplicate_nodes is_ipv4 is_ipv6 three "first" ≡ node "a" "::1" ∷ node "b" "::1" ∷ []
unfolding deduplicate_nodes
only_first = refl

by_default : parse_strategy "" ≡ rename
unfolding parse_strategy
by_default = refl

other_name : ◌≢◌ {A = String} "a" "b"
other_name = ground (arith, eq_iff "a" "b")

numbered_a : "a (1)" ≡ numbered "a" 1
unfolding numbered
numbered_a = refl

longer_name : ◌≢◌ {A = String} "a" "a (1)"
longer_name = ground (arith, eq_iff "a" "a (1)")

rename_clash_example :
    map
      (λ (n : VMessNode). n.name)
      (deduplicate_nodes is_ipv4 is_ipv6
        (node "a" "::1" ∷ node "a" "10.0.0.1" ∷ node "a (1)" "::1" ∷ [])
        "")
    ≡ "a" ∷ "a (1)" ∷ "a (1)" ∷ []
rename_clash_example =
    rename_clash is_ipv4 is_ipv6 (node "a" "::1") (node "a" "10.0.0.1") (node "a (1)" "::1") ""
      by_default refl numbered_a longer_name
