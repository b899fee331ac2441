-- ===== src/Relay/Core/Agree.antt =====
-- relay/core.rs and relay/inbound/grpc.rs: both inbounds lead the same Auth ID to the same upstream.
use tobira.Base.{ℕ, ◌≡◌, refl, ap, ◌⊎◌, inl, inr, true, some, String, List, Option-cases}
use tobira.Auth.{Crypto}
use tobira.Validator.{Upstream, Validator, Transport, tcp, grpc, match_auth_id}
use tobira.Framing.Reader.{Recv}
use tobira.Relay.Inbound.{
  Route, drains, fast, via_core, found, route_to, read_initial_auth, relay_request,
}
use tobira.Relay.Core.{
  Handled, drained, relays, tcp_outbound, grpc_outbound, from_transport, handle_stream,
  relay_authenticated_stream,
}

Transport-cases : (t : Transport) → (t ≡ tcp) ⊎ ((s n r : String) × (t ≡ grpc s n r))
Transport-cases tcp = inl refl
Transport-cases (grpc s n r) = inr (s, n, r, refl)

-- What the raw inbound does with the Auth ID of a gRPC stream, by the route that the gRPC inbound takes.
abbrev pub Agrees : List ℕ → List (List ℕ) → Handled → Route → Type 0
Agrees auth_id cached handled route =
    ((handled ≡ drained) × (route ≡ drains))
    ⊎ ((u : Upstream) × (((handled ≡ relays tcp_outbound u auth_id)
            × (route ≡ via_core u cached auth_id))
          ⊎ ((handled ≡ relays grpc_outbound u auth_id) × (route ≡ fast u cached))))

-- A gRPC stream whose Auth ID is read in time goes where the raw inbound sends that Auth ID: to the same
-- upstream, over TCP through the core and over gRPC as it stands, or into the drain.
pub relay_request-Agrees :
    (c : Crypto) (now : ℕ) (validator : Validator) (incoming more : List Recv)
    (cached : List (List ℕ)) (auth_id buf : List ℕ)
    → read_initial_auth incoming ≡ found cached auth_id buf more
    → Agrees auth_id cached
        (handle_stream c now validator (some auth_id))
        (relay_request c now validator true incoming)
unfolding relay_request handle_stream relay_authenticated_stream from_transport
relay_request-Agrees c now validator incoming more cached auth_id buf read =
    elim (Option-cases (match_auth_id c now validator auth_id)) [
      | inl unknown ↦ inl (
        rw (unknown, handle_stream) refl,
        rw (read, relay_request) (rw (unknown, relay_request) refl),
      )
      | inr (u, known) ↦ elim (Transport-cases u.transport) [
        | inl plain ↦ inr (
          u,
          inl (
            rw (known, handle_stream) (ap (λ t. relays (from_transport t) u auth_id) plain),
            rw (read, relay_request)
                (rw (known, relay_request) (ap (route_to u cached auth_id) plain)),
          ),
        )
        | inr (s, n, r, framed) ↦ inr (
          u,
          inr (
            rw (known, handle_stream) (ap (λ t. relays (from_transport t) u auth_id) framed),
            rw (read, relay_request)
                (rw (known, relay_request) (ap (route_to u cached auth_id) framed)),
          ),
        )
      ]
    ]
