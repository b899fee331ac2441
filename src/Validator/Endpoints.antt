-- ===== src/Validator/Endpoints.antt =====
-- vmess/validator.rs: the gRPC endpoints of a table.
use tobira.Base.{
  ◌≡◌, ◌↔◌, ◌⊎◌, inl, inr, refl, sym, ap, ◌∙◌, none, some, String, List, [], ◌∷◌, In, Option-cases,
  arith,
}
use tobira.Validator.{
  Transport, tcp, grpc, Entry, Validator, endpoint, endpoints_of, grpc_endpoints,
}

-- The entry forwards by gRPC, to the given address with the given SNI.
abbrev pub IsGrpcTo : String × String → Entry → Type 0
IsGrpcTo p e =
    (service_name : String) × (request_uri : String) × (e.upstream.transport
      ≡ grpc service_name p.1 request_uri)
    × (e.upstream.addr ≡ p.0)

transport_cases :
    (t : Transport) → (t ≡ tcp) ⊎ ((s : String) × (n : String) × (r : String) × (t ≡ grpc s n r))
transport_cases tcp = inl refl
transport_cases (grpc s n r) = inr (s, n, r, refl)

some_eq : {A : Type 0} {x y : A} → some x ≡ some y → x ≡ y
some_eq e = cc

endpoint_iff : (p : String × String) (e : Entry) → (endpoint e ≡ some p) ↔ IsGrpcTo p e
unfolding endpoint
endpoint_iff p e = elim (transport_cases e.upstream.transport) [
  | inl t ↦ (λ h. absurd (ground (arith, t)), λ (s, r, q, a). absurd (cc))
  | inr (s, n, r, t) ↦ (
    λ h.
        let same : (e.upstream.addr, n) ≡ p = some_eq (rw (t, endpoint) at h) in
        (s, r, rw (← same) t, ap (λ (t : String × String). t.0) same),
    λ (s', r', q, a). rw (q, a, endpoint) refl,
  )
]

endpoints_of-skip :
    (e : Entry) (es : List Entry) → endpoint e ≡ none → endpoints_of (e ∷ es) ≡ endpoints_of es
unfolding endpoints_of
endpoints_of-skip e es h = rw (h, endpoints_of) refl

endpoints_of-keep :
    (e : Entry) (es : List Entry) (q : String × String)
    → endpoint e ≡ some q
    → endpoints_of (e ∷ es) ≡ q ∷ endpoints_of es
unfolding endpoints_of
endpoints_of-keep e es q h = rw (h, endpoints_of) refl

endpoints_of_to :
    (p : String × String) (es : List Entry)
    → In p (endpoints_of es)
    → (e : Entry) × In e es × IsGrpcTo p e
unfolding endpoints_of
endpoints_of_to p [] h = absurd h
endpoints_of_to p (e ∷ es) h = elim (Option-cases (endpoint e)) [
  | inl skipped ↦
      let (x, there, k) = endpoints_of_to p es (rw (endpoints_of-skip e es skipped) at h) in
      (x, inr there, k)
  | inr (q, found) ↦ elim (rw (endpoints_of-keep e es q found) at h) [
    | inl same ↦ (e, inl refl, (endpoint_iff p e).0 (found ∙ ap some (sym same)))
    | inr later ↦ let (x, there, k) = endpoints_of_to p es later in (x, inr there, k)
  ]
]

endpoints_of_from :
    (p : String × String) (es : List Entry) (x : Entry)
    → In x es
    → IsGrpcTo p x
    → In p (endpoints_of es)
unfolding endpoints_of
endpoints_of_from p [] x h k = absurd h
endpoints_of_from p (e ∷ es) x (inl same) k =
    let found : endpoint e ≡ some p = ap endpoint (sym same) ∙ (endpoint_iff p x).1 k in
    rw (endpoints_of-keep e es p found) (inl refl)
endpoints_of_from p (e ∷ es) x (inr there) k =
    let later = endpoints_of_from p es x there k in
    elim (Option-cases (endpoint e)) [
      | inl skipped ↦ rw (endpoints_of-skip e es skipped) later
      | inr (q, found) ↦ rw (endpoints_of-keep e es q found) (inr later)
    ]

-- The endpoints of a table are the addresses with the SNI of its gRPC upstreams: each of these, and
-- nothing else.
pub grpc_endpoints_iff :
    (p : String × String) (v : Validator)
    → In p (grpc_endpoints v) ↔ ((e : Entry) × In e v.entries × IsGrpcTo p e)
unfolding grpc_endpoints
grpc_endpoints_iff p v =
    (endpoints_of_to p v.entries, λ (e, here, k). endpoints_of_from p v.entries e here k)
