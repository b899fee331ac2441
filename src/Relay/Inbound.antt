-- ===== src/Relay/Inbound.antt =====
-- relay/inbound/grpc.rs: a client's gRPC stream, up to the choice of its upstream, and the task that
-- hands its data to the relay core.
pub mod Auth
pub mod Whole
pub mod Accepts
use Prim.Native.Nat.{min}
use Prim.Native.String.{◌++◌ as append}
use tobira.Base.{
  ℕ, zero, suc, ◌+◌, ◌-◌, Bool, true, false, not, ◌||◌, Option, none, some, String, List, [], ◌∷◌,
  ◌++◌, leb, ltb, if◌then◌else◌, length, take, drop, is_empty, str_eq, codes, Result, ok, err,
  ◌>>=◌,
}
use tobira.Http.{starts_with}
use tobira.Framing.{decode_grpc_frame_data, Panic}
use tobira.Framing.Reader.{
  Recv, ReadError, next_frame, pending, Ended, read_failed, write_failed, panicked, stuck, Writer,
}
use tobira.Auth.{Crypto}
use tobira.Validator.{Upstream, Validator, match_auth_id, Transport, tcp, grpc}

-- What `validate_request` reads of a request; a header that is no text counts as absent.
pub record Request : Type 0 where
  pub method : String
  pub path : String
  pub content_type : Option String

pub data Status : Type 0 where
  method_not_allowed : Status
  not_found : Status
  unsupported_media_type : Status

abbrev pub or_default : Option String → String
or_default none = ""
or_default (some s) = s

-- `format!("/{}/Tun", service_name)`
pub expected_path : String → String
expected_path service_name = append "/" (append service_name "/Tun")

-- `simple_response` of the status, or no response yet.
pub validate_request : Request → String → Option Status
unfolding expected_path
validate_request request service_name =
    if not (str_eq request.method "POST")
    then some method_not_allowed
    else if not (str_eq request.path (expected_path service_name))
    then some not_found
    else if not (starts_with (codes "application/grpc") (codes (or_default request.content_type)))
    then some unsupported_media_type
    else none

-- What `read_initial_auth` answers: the frames it took and the first 16 bytes of their data, with the
-- reader's buffer and the rest of the stream.
pub data AuthRead : Type 0 where
  found : List (List ℕ) → List ℕ → List ℕ → List Recv → AuthRead
  ended : AuthRead
  failed_read : ReadError → AuthRead
  stopped : Panic → AuthRead
  out_of_fuel : AuthRead

unfoldable pub auth_loop : ℕ → List ℕ → List Recv → List (List ℕ) → List ℕ → AuthRead
auth_loop zero buf incoming cached raw = out_of_fuel
auth_loop (suc fuel) buf incoming cached raw =
    let (answer, rest, more) = next_frame buf incoming in
    elim (ltb (length raw) 16) [
      | false ↦ found cached (take 16 raw) buf incoming
      | true ↦ elim answer [
        | err e ↦ failed_read e
        | ok none ↦ ended
        | ok (some frame) ↦ elim (decode_grpc_frame_data frame) [
          | err p ↦ stopped p
          | ok none ↦ auth_loop fuel rest more (cached ++ frame ∷ []) raw
          | ok (some bytes) ↦ auth_loop fuel rest more (cached ++ frame ∷ []) (raw ++ bytes)
        ]
      ]
    ]

-- Each round takes a frame of five bytes at least.
unfoldable pub read_initial_auth : List Recv → AuthRead
read_initial_auth incoming = auth_loop (suc (suc (pending incoming))) [] incoming [] []

-- The bytes behind the Auth ID, and how many of it are still to skip.
pub skip_auth_id_bytes : List ℕ → ℕ → List ℕ × ℕ
skip_auth_id_bytes bytes skip = let n = min skip (length bytes) in (drop n bytes, skip - n)

module _ (writer : Writer) where
  -- One frame of `decode_task`: what is still to skip, and what is written so far.
  pub decode_one : ℕ → List ℕ → List ℕ → Result Ended (ℕ × List ℕ)
  unfolding skip_auth_id_bytes
  decode_one skip out frame = elim (decode_grpc_frame_data frame) [
    | err p ↦ err (panicked p)
    | ok none ↦ ok (skip, out)
    | ok (some bytes) ↦
        let (after, left) = skip_auth_id_bytes bytes skip in
        if is_empty after || writer.accepts out after
        then ok (left, out ++ after)
        else err write_failed
  ]

  pub decode_cached : ℕ → List ℕ → List (List ℕ) → Result Ended (ℕ × List ℕ)
  unfolding decode_one
  decode_cached skip out [] = ok (skip, out)
  decode_cached skip out (frame ∷ frames) =
      decode_one skip out frame >>= (λ r. decode_cached r.0 r.1 frames)

  pub decode_later : ℕ → ℕ → List ℕ → List ℕ → List Recv → Result Ended (List ℕ)
  unfolding decode_one
  decode_later zero skip out buf incoming = err stuck
  decode_later (suc fuel) skip out buf incoming =
      let (answer, rest, more) = next_frame buf incoming in
      elim answer [
        | err e ↦ err (read_failed e)
        | ok none ↦ ok out
        | ok (some frame) ↦ decode_one skip out frame >>= (λ r. decode_later fuel r.0 r.1 rest more)
      ]

  -- `decode_task`: the bytes written to the core when the request stream has ended.
  pub decode_task : List (List ℕ) → List ℕ → List Recv → Result Ended (List ℕ)
  unfolding decode_cached decode_later
  decode_task cached buf incoming =
      decode_cached 16 [] cached
      >>= (λ r. decode_later (suc (length buf + pending incoming)) r.0 r.1 buf incoming)

-- `drain_grpc_request`: the bytes of data that are read and dropped, at least `drain_len` of them
-- unless the stream ends, fails or takes too long before.
pub drain_loop : ℕ → ℕ → ℕ → List ℕ → List Recv → ℕ
drain_loop zero drain_len drained buf incoming = drained
drain_loop (suc fuel) drain_len drained buf incoming =
    let (answer, rest, more) = next_frame buf incoming in
    elim (ltb drained drain_len) [
      | false ↦ drained
      | true ↦ elim answer [
        | err e ↦ drained
        | ok none ↦ drained
        | ok (some frame) ↦ elim (decode_grpc_frame_data frame) [
          | err p ↦ drained
          | ok none ↦ drain_loop fuel drain_len drained rest more
          | ok (some bytes) ↦ drain_loop fuel drain_len (drained + length bytes) rest more
        ]
      ]
    ]

-- Where `relay_request` takes a stream: it is drained and its response ended, or its frames go to a
-- gRPC upstream as they stand, or its data goes through the core.
pub data Route : Type 0 where
  drains : Route
  fast : Upstream → List (List ℕ) → Route
  via_core : Upstream → List (List ℕ) → List ℕ → Route
  aborts : Route

-- The dispatch on the upstream's transport.
abbrev pub route_to : Upstream → List (List ℕ) → List ℕ → Transport → Route
route_to upstream cached auth_id (grpc service_name tls_sni request_uri) = fast upstream cached
route_to upstream cached auth_id tcp = via_core upstream cached auth_id

-- The flag says whether the Auth ID was read before the timeout.
unfoldable pub relay_request : Crypto → ℕ → Validator → Bool → List Recv → Route
unfolding read_initial_auth
relay_request c now validator false incoming = drains
relay_request c now validator true incoming = elim (read_initial_auth incoming) [
  | ended ↦ drains
  | failed_read e ↦ drains
  | stopped p ↦ aborts
  | out_of_fuel ↦ aborts
  | found cached auth_id buf more ↦ elim (match_auth_id c now validator auth_id) [
    | none ↦ drains
    | some upstream ↦ route_to upstream cached auth_id upstream.transport
  ]
]
