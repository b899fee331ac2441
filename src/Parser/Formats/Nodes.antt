-- ===== src/Parser/Formats/Nodes.antt =====
-- subscription/parser.rs: what holds of every node that a subscription yields.
use tobira.Base.{
  ℕ, zero, suc, ◌^◌, ◌≤◌, ◌<◌, ◌≡◌, ◌≢◌, refl, sym, ap, ◌∙◌, ◌⊎◌, inl, inr, false, some, String,
  List, [], ◌∷◌, arith, All, Bool-cases, Option-cases, str_eq, eq_iff, Result, ok, err, >>=-eq-ok,
  codes, ok_or, ◌>>=◌,
}
use Prim.Native.String.{◌++◌ as append}
use mathlib.Core.Path.{subst}
use tobira.Http.{starts_with, strip_prefix}
use tobira.Node.{VMessNode}
use tobira.Parser.{
  ℤ, pos, negsuc, V2rayNJson, ParseError, not_vmess, bad_url, bad_base64, bad_payload, invalid_port,
  missing_address, missing_uuid, or_text, to_u32, port_of, make_node, build_node,
}
use tobira.Parser.Fields.{deserialize}
use tobira.Parser.Formats.{
  Url, Libraries, choose_format, try_base64_decode, parse_base64_json, parse_url_format,
  url_format_fields, parse_shadowrocket_format, split_at, shadowrocket_fields, in_front,
  parse_vmess_link, keep_nodes, parse_subscription, lines, unwrap_or,
}

-- A node to which a connection can be made: a port, an address, a UUID, an encryption and an SNI. It
-- bears no source's name yet.
abbrev pub IsNode : VMessNode → Type 0
IsNode node =
    (1 ≤ node.port)
    × (node.port ≤ 65535)
    × (node.server ≢ "")
    × (node.uuid ≢ "")
    × (node.security ≢ "")
    × (node.sni ≢ "")
    × (node.alter_id < 2 ^ 32)
    × (node.source ≡ "")

abbrev node_in : VMessNode → Result ParseError VMessNode → VMessNode
node_in default (ok node) = node
node_in default (err e) = default

port_of-bounds : (z : ℤ) (p : ℕ) → port_of z ≡ some p → (1 ≤ p) × (p ≤ 65535)
unfolding port_of
port_of-bounds (pos zero) p e = cc
port_of-bounds (pos (suc n)) p e = ground arith
port_of-bounds (negsuc n) p e = cc

to_u32-bound : (z : ℤ) → to_u32 z < 2 ^ 32
unfolding to_u32
to_u32-bound (pos n) = omega arith
to_u32-bound (negsuc n) = omega arith

or_text-nonempty : (s default : String) → default ≢ "" → or_text s default ≢ ""
or_text-nonempty s default h = elim (Bool-cases (str_eq s "")) [
  | inl empty ↦ rw empty h
  | inr full ↦ rw full (λ e. ground (arith, eq_iff s ""))
]

nonempty : (s : String) → str_eq s "" ≡ false → s ≢ ""
nonempty s h e = ground (arith, eq_iff s "")

module _ (lowercase : String → String) where
  make_node-IsNode :
      (opts : V2rayNJson) (p : ℕ)
      → port_of opts.port ≡ some p
      → str_eq opts.add "" ≡ false
      → str_eq opts.id "" ≡ false
      → IsNode (make_node lowercase opts p)
  unfolding make_node
  make_node-IsNode opts p at add id =
      let (low, high) = port_of-bounds opts.port p at in
      (
        low,
        high,
        nonempty opts.add add,
        nonempty opts.id id,
        or_text-nonempty opts.scy "auto" (nonempty "auto" refl),
        or_text-nonempty opts.sni (or_text opts.host opts.add)
            (or_text-nonempty opts.host opts.add (nonempty opts.add add)),
        to_u32-bound opts.aid,
        refl,
      )

  build_node-IsNode :
      (opts : V2rayNJson) (node : VMessNode) → build_node lowercase opts ≡ ok node → IsNode node
  unfolding build_node
  build_node-IsNode opts node e = elim (Option-cases (port_of opts.port)) [
    | inl bad ↦
        let run : build_node lowercase opts ≡ err (invalid_port opts.port) =
          rw (bad, build_node) refl in
        absurd (cc (e, run))
    | inr (p, at) ↦ elim (Bool-cases (str_eq opts.add "")) [
      | inl missing ↦
          let run : build_node lowercase opts ≡ err missing_address =
            rw (at, build_node) (rw (missing, build_node) refl) in
          absurd (cc (e, run))
      | inr add ↦ elim (Bool-cases (str_eq opts.id "")) [
        | inl missing ↦
            let run : build_node lowercase opts ≡ err missing_uuid =
              rw (at, build_node) (rw (add, build_node) (rw (missing, build_node) refl)) in
            absurd (cc (e, run))
        | inr id ↦
            let run : build_node lowercase opts ≡ ok (make_node lowercase opts p) =
              rw (at, build_node) (rw (add, build_node) (rw (id, build_node) refl)) in
            subst IsNode (ap (node_in node) (sym run ∙ e)) (make_node-IsNode opts p at add id)
      ]
    ]
  ]

Result-cases :
    (r : Result ParseError VMessNode)
    → ((e : ParseError) × (r ≡ err e)) ⊎ ((node : VMessNode) × (r ≡ ok node))
Result-cases (err e) = inl (e, refl)
Result-cases (ok node) = inr (node, refl)

module _ (lib : Libraries) where
  json-IsNode : (s : String) (node : VMessNode) → parse_base64_json lib s ≡ ok node → IsNode node
  unfolding parse_base64_json
  json-IsNode s node e =
      let (json, a, later) = >>=-eq-ok (ok_or (try_base64_decode lib s) _) _ e in
      let (members, b, later') = >>=-eq-ok (ok_or (lib.parse_json json) _) _ later in
      let (opts, d, last) = >>=-eq-ok (deserialize members) _ later' in
      build_node-IsNode lib.lowercase opts node last

  shadowrocket-IsNode :
      (s : String) (u : Url) (node : VMessNode)
      → parse_shadowrocket_format lib s u ≡ ok node
      → IsNode node
  unfolding parse_shadowrocket_format
  shadowrocket-IsNode s u node e =
      let (decoded, a, later) =
        >>=-eq-ok (ok_or (try_base64_decode lib (in_front (split_at b'?' s) u.path)) bad_base64) _
          e in
      let (parts, b, later') = >>=-eq-ok (ok_or (split_at b':' decoded) bad_payload) _ later in
      let (authority, d, later'') =
        >>=-eq-ok (ok_or (lib.parse_url (append "vmess://" parts.1)) bad_url) _ later' in
      let (made, f, last) =
        >>=-eq-ok (build_node lib.lowercase (shadowrocket_fields u parts.0 authority)) _ later'' in
      subst IsNode (ap (node_in node) last)
        (build_node-IsNode lib.lowercase (shadowrocket_fields u parts.0 authority) made f)

  url-IsNode : (u : Url) (node : VMessNode) → parse_url_format lib u ≡ ok node → IsNode node
  unfolding parse_url_format
  url-IsNode u node e = build_node-IsNode lib.lowercase (url_format_fields u) node e

  choose_format-IsNode :
      (rest : String) (u : Url) (node : VMessNode)
      → choose_format lib rest u ≡ ok node
      → IsNode node
  choose_format-IsNode rest u node e = elim (Bool-cases (str_eq u.username "")) [
    | inl empty ↦ elim (Option-cases u.query) [
      | inl no_query ↦ json-IsNode rest node (rw no_query at (rw empty at e))
      | inr (query, some_query) ↦ shadowrocket-IsNode rest u node (rw some_query at (rw empty at e))
    ]
    | inr user ↦ url-IsNode u node (rw user at e)
  ]

  -- Whatever the libraries make of a link, a node that it is parsed to has a port from 1 to 65535, an
  -- address, a UUID, an encryption and an SNI that are not empty, an alter id of 32 bits, and no source's
  -- name yet.
  pub parse_vmess_link-IsNode :
      (link : String) (node : VMessNode) → parse_vmess_link lib link ≡ ok node → IsNode node
  unfolding parse_vmess_link
  parse_vmess_link-IsNode link node e =
      elim (Option-cases (strip_prefix "vmess://" (lib.trim link))) [
        | inl other ↦
            let run : parse_vmess_link lib link ≡ err not_vmess =
              rw (other, parse_vmess_link) refl in
            absurd (cc (e, run))
        | inr (rest, found) ↦
            let run : (ok_or (lib.parse_url (lib.trim link)) bad_url >>= choose_format lib rest)
                ≡ ok node =
              rw (found, parse_vmess_link) at e in
            let (u, a, last) = >>=-eq-ok (ok_or (lib.parse_url (lib.trim link)) _) _ run in
            choose_format-IsNode rest u node last
      ]

  keep_nodes-IsNode : (texts : List String) → All IsNode (keep_nodes lib texts)
  unfolding keep_nodes
  keep_nodes-IsNode [] = tt
  keep_nodes-IsNode (line ∷ more) =
      elim (Bool-cases (starts_with (codes "vmess://") (codes (lib.trim line)))) [
        | inr other ↦ rw (other, keep_nodes) (keep_nodes-IsNode more)
        | inl ours ↦ elim (Result-cases (parse_vmess_link lib (lib.trim line))) [
          | inl (e, bad) ↦ rw (ours, keep_nodes) (rw bad (keep_nodes-IsNode more))
          | inr (node, good) ↦
              rw (ours, keep_nodes)
                (rw good
                  (parse_vmess_link-IsNode (lib.trim line) node good, keep_nodes-IsNode more))
        ]
      ]

  -- Every node that a subscription's body yields has a port from 1 to 65535, an address, a UUID, an
  -- encryption and an SNI that are not empty, an alter id of 32 bits, and no source's name yet, whatever
  -- the libraries make of the body and its links.
  pub parse_subscription-IsNode : (body : String) → All IsNode (parse_subscription lib body)
  unfolding parse_subscription
  parse_subscription-IsNode body =
      keep_nodes-IsNode (lines (unwrap_or (try_base64_decode lib (lib.trim body)) body))
