-- ===== src/Validator.antt =====
-- vmess/validator.rs: the routing table from Auth IDs to upstreams.
pub mod Routing
pub mod Endpoints
mod Tests
use tobira.Base.{
  ℕ, Bool, true, false, Option, none, some, String, List, [], ◌∷◌, ◌++◌, any, str_eq, if◌then◌else◌,
  Result, ok, err, ◌>>=◌, length,
}
use tobira.Auth.{Crypto, AuthVerifier, UuidError, from_uuid, verify}

-- A socket address: the IP address as a number, with its version, and the port.
pub data IpAddr : Type 0 where
  v4 : ℕ → IpAddr
  v6 : ℕ → IpAddr

pub record SocketAddr : Type 0 where
  pub ip : IpAddr
  pub port : ℕ

-- `grpc service_name tls_sni request_uri`
pub data Transport : Type 0 where
  tcp : Transport
  grpc : String → String → String → Transport

pub record Upstream : Type 0 where
  pub addr : String
  pub parsed_addr : SocketAddr
  pub transport : Transport
  pub tcp_fast_open : Bool

pub record Entry : Type 0 where
  pub uuid : String
  pub verifier : AuthVerifier
  pub upstream : Upstream

pub record Validator : Type 0 where
  pub entries : List Entry

pub data TableError : Type 0 where
  duplicate_uuid : String → TableError
  invalid_uuid : UuidError → TableError
  kdf_panicked : TableError

abbrev pub contains : List String → String → Bool
contains seen uuid = any (str_eq uuid) seen

module _ (c : Crypto) where
  -- `AuthVerifier::from_uuid(&uuid)?`
  pub make_verifier : String → Result TableError AuthVerifier
  make_verifier uuid = elim (from_uuid c uuid) [
    | err e ↦ err (invalid_uuid e)
    | ok none ↦ err kdf_panicked
    | ok (some verifier) ↦ ok verifier
  ]

  -- The loop of `Validator::new` over the pairs; `seen` is a set.
  unfoldable pub new_loop :
      List String → List Entry → List (String × Upstream) → Result TableError Validator
  unfolding make_verifier
  new_loop seen entries [] = ok (record { entries = entries })
  new_loop seen entries ((uuid, upstream) ∷ pairs) =
      if contains seen uuid then err (duplicate_uuid uuid) else do
        verifier ← make_verifier uuid
        new_loop (uuid ∷ seen)
            (entries ++ record { uuid = uuid; verifier = verifier; upstream = upstream } ∷ []) pairs

  unfoldable pub new : List (String × Upstream) → Result TableError Validator
  unfolding new_loop
  new pairs = new_loop [] [] pairs

  -- The loop of `match_auth_id` over the entries. It takes no time: the clock, which the source reads for
  -- each entry, reads the same.
  pub match_entries : ℕ → List ℕ → List Entry → Option Upstream
  match_entries now auth_id [] = none
  match_entries now auth_id (entry ∷ entries) =
      if verify c now entry.verifier auth_id
      then some entry.upstream
      else match_entries now auth_id entries

  pub match_auth_id : ℕ → Validator → List ℕ → Option Upstream
  unfolding match_entries
  match_auth_id now validator auth_id = match_entries now auth_id validator.entries

-- The endpoint of an entry, if it is a gRPC upstream: its address and its SNI.
pub endpoint : Entry → Option (String × String)
endpoint entry = elim entry.upstream.transport [
  | tcp ↦ none
  | grpc service_name tls_sni request_uri ↦ some (entry.upstream.addr, tls_sni)
]

-- The set of endpoints, as a list in which a member may stand more than once.
unfoldable pub endpoints_of : List Entry → List (String × String)
endpoints_of [] = []
endpoints_of (entry ∷ entries) =
    let rest = endpoints_of entries in elim (endpoint entry) [ none ↦ rest | some e ↦ e ∷ rest ]

unfoldable pub grpc_endpoints : Validator → List (String × String)
unfolding endpoints_of
grpc_endpoints validator = endpoints_of validator.entries

pub len : Validator → ℕ
len validator = length validator.entries
