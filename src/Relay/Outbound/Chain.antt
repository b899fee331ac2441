-- ===== src/Relay/Outbound/Chain.antt =====
-- relay/outbound/grpc.rs and relay/inbound/grpc.rs: a relay whose upstream is another one.
use tobira.Base.{
  ℕ, ◌≡◌, sym, ap, ◌∙◌, true, Option, List, ◌∷◌, arith, length, map, flatten, All, ok, some,
  length-append, append_cancel,
}
use tobira.Auth.{Crypto}
use tobira.Validator.{Upstream, Validator}
use tobira.Framing.Reader.{Recv, chunk, Writer, Ended}
use tobira.Framing.Sender.{DataFrame}
use tobira.Framing.Sender.Whole.{body}
use tobira.Framing.Forward.{Forwarded, finished}
use tobira.Framing.Forward.Delivery.{
  payloads, IsLimited, limited_IsDeliverable, payloads-IsDeliverable,
}
use tobira.Relay.Inbound.{found, read_initial_auth, decode_task, relay_request}
use tobira.Relay.Inbound.Auth.{read_initial_auth-whole}
use tobira.Relay.Core.{handle_stream}
use tobira.Relay.Core.Agree.{Agrees, relay_request-Agrees}
use tobira.Relay.Wait.{Joined}
use tobira.Relay.Tunnel.{Opened}
use tobira.Relay.Outbound.{Meets, relays, relay_grpc}
use tobira.Relay.Outbound.Delivers.{relay_grpc-sends}

-- A relay that is given an Auth ID of 16 bytes and reads that fit its buffer sends its stream to
-- the end over a gRPC tunnel to another relay, which reads the request in whatever chunks it
-- arrives: it finds just that Auth ID, leads it where it leads a raw stream with that Auth ID, and,
-- where that goes through the core and no write to it fails, hands on just the bytes that the first
-- relay read.
pub relay_grpc-chained :
    (m : Meets) (upstream : Upstream) (auth_id : List ℕ) (opened : Opened)
    (joined : Option (Joined × Joined)) (t1 : Forwarded × List DataFrame)
    (t2 : Option Ended × List ℕ) (cs : List (List ℕ)) (c : Crypto) (now : ℕ) (validator : Validator)
    (writer : Writer)
    → ((out bytes : List ℕ) → writer.accepts out bytes ≡ true)
    → length auth_id ≡ 16
    → All IsLimited m.reads
    → (relay_grpc m upstream auth_id opened).0 ≡ relays joined t1 t2
    → t1.0 ≡ finished
    → flatten cs ≡ body t1.1
    → (cached : List (List ℕ)) × (buf : List ℕ) × (rest : List Recv) × (read_initial_auth
          (map chunk cs)
        ≡ found cached auth_id buf rest)
      × Agrees auth_id cached
          (handle_stream c now validator (some auth_id))
          (relay_request c now validator true (map chunk cs))
      × (decode_task writer cached buf rest ≡ ok (flatten (payloads m.reads)))
relay_grpc-chained m upstream auth_id opened joined t1 t2 cs c now validator writer takes len
      limited run done arrives =
    let sends = relay_grpc-sends m upstream auth_id opened joined t1 t2 len limited run done in
    let ps = auth_id ∷ payloads m.reads in
    let (cached, first, buf, written, rest, read, decoded, sixteen, whole) =
      read_initial_auth-whole writer takes ps cs
        (limited_IsDeliverable auth_id (omega arith), payloads-IsDeliverable m.reads limited)
        (arrives ∙ sends) (omega (arith, length-append auth_id (flatten (payloads m.reads)))) in
    let (same, behind) =
      append_cancel first written auth_id (flatten (payloads m.reads)) (sixteen ∙ sym len) whole in
    let at = read ∙ ap (λ a. found cached a buf rest) same in
    (
      cached,
      buf,
      rest,
      at,
      relay_request-Agrees c now validator (map chunk cs) rest cached auth_id buf at,
      decoded ∙ ap ok behind,
    )
