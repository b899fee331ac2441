-- ===== src/Relay/Inbound/Auth.antt =====
-- relay/inbound/grpc.rs: `read_initial_auth` finds the Auth ID in however many frames it stands.
use tobira.Base.{
  ℕ, zero, suc, ◌+◌, ◌≤◌, ◌<◌, ◌≡◌, refl, sym, ap, ◌∙◌, inl, inr, true, false, List, [], ◌∷◌, ◌++◌,
  arith, ltb, length, take, map, flatten, All, ok, Bool-cases, append_assoc, append-nil,
  length-append, length-take, drop, All-append_left, All-append_right, flatten-append,
  take-append-drop,
}
use mathlib.Core.Path.{subst}
use tobira.Framing.RoundTrip.{frame}
use tobira.Framing.Reader.{Recv, chunk, pending, Writer}
use tobira.Framing.Reader.Chunks.{
  IsDeliverable, next_frame-Reads, frames_length, length-flatten-map,
}
use tobira.Relay.Inbound.{AuthRead, found, auth_loop, read_initial_auth, decode_task}
use tobira.Relay.Inbound.Whole.{decode_whole, take_more, decode_task-frames}

-- The frames that were taken, and the others, still in the buffer and the stream.
abbrev pub Splits : List (List ℕ) → List (List ℕ) → List ℕ → AuthRead → Type 0
Splits payloads cached raw answer =
    (taken left : List (List ℕ)) × (buf : List ℕ) × (cs : List (List ℕ)) × (payloads
      ≡ taken ++ left)
    × (answer
        ≡ found (cached ++ map frame taken) (take 16 (raw ++ flatten payloads)) buf (map chunk cs))
    × (buf ++ flatten cs ≡ flatten (map frame left))

auth_loop-full :
    (fuel : ℕ) (buf : List ℕ) (incoming : List Recv) (cached : List (List ℕ)) (raw more : List ℕ)
    → ltb (length raw) 16 ≡ false
    → auth_loop (suc fuel) buf incoming cached raw
      ≡ found (cached ++ []) (take 16 (raw ++ more)) buf incoming
unfolding auth_loop
auth_loop-full fuel buf incoming cached raw more full =
    rw (full, auth_loop) (rw (append-nil cached, take_more 16 raw more (ground arith)) refl)

auth_loop-Splits :
    (payloads : List (List ℕ)) (fuel : ℕ) (buf : List ℕ) (cs cached : List (List ℕ)) (raw : List ℕ)
    → All IsDeliverable payloads
    → buf ++ flatten cs ≡ flatten (map frame payloads)
    → 16 ≤ length raw + length (flatten payloads)
    → length payloads < fuel
    → Splits payloads cached raw (auth_loop fuel buf (map chunk cs) cached raw)
unfolding auth_loop
auth_loop-Splits ps zero buf cs cached raw h e long enough = absurd (omega arith)
auth_loop-Splits [] (suc fuel) buf cs cached raw h e long enough =
    let full : ltb (length raw) 16 ≡ false = ground arith in
    ([], [], buf, cs, refl, auth_loop-full fuel buf (map chunk cs) cached raw [] full, e)
auth_loop-Splits (p ∷ ps) (suc fuel) buf cs cached raw (d, h) e long enough =
    elim (Bool-cases (ltb (length raw) 16)) [
      | inr full ↦ (
        [],
        p ∷ ps,
        buf,
        cs,
        refl,
        auth_loop-full fuel buf (map chunk cs) cached raw (p ++ flatten ps) full,
        e,
      )
      | inl short ↦
          let (buf', cs', reads, rest) = next_frame-Reads p (flatten (map frame ps)) buf cs d e in
          let step : auth_loop (suc fuel) buf (map chunk cs) cached raw
              ≡ auth_loop fuel buf' (map chunk cs') (cached ++ frame p ∷ []) (raw ++ p) =
            rw (short, auth_loop)
              (rw (reads, auth_loop)
                (rw (decode_whole p d) (λ i.
                  auth_loop fuel (reads i).1 (reads i).2 (cached ++ frame p ∷ []) (raw ++ p)))) in
          let (taken, left, buf'', cs'', split, found_them, behind) =
            auth_loop-Splits ps fuel buf' cs' (cached ++ frame p ∷ []) (raw ++ p) h rest
              (omega (arith, length-append raw p, length-append p (flatten ps))) (omega arith) in
          (
            p ∷ taken,
            left,
            buf'',
            cs'',
            ap (λ t. p ∷ t) split,
            step
                ∙ found_them
                ∙ rw
                    (
                      append_assoc cached (frame p ∷ []) (map frame taken),
                      append_assoc raw p (flatten ps),
                    )
                    refl,
            behind,
          )
    ]

-- A body of frames, each at most 16 MiB long, that holds 16 bytes of data or more yields its first 16
-- bytes as the Auth ID, however it is cut into chunks, and what the core is then written is the rest of
-- the data, if no write fails: the Auth ID and the bytes behind it are the data of the stream.
pub read_initial_auth-whole :
    (writer : Writer)
    → ((out bytes : List ℕ) → writer.accepts out bytes ≡ true)
    → (payloads cs : List (List ℕ)) → All IsDeliverable payloads
    → flatten cs ≡ flatten (map frame payloads)
    → 16 ≤ length (flatten payloads)
    → (cached : List (List ℕ)) × (auth_id buf written : List ℕ) × (rest : List Recv)
      × (read_initial_auth (map chunk cs) ≡ found cached auth_id buf rest)
      × (decode_task writer cached buf rest ≡ ok written)
      × (length auth_id ≡ 16)
      × (auth_id ++ written ≡ flatten payloads)
unfolding read_initial_auth
read_initial_auth-whole writer takes payloads cs h e long =
    let (taken, left, buf, rest, split, found_them, behind) =
      auth_loop-Splits payloads _ [] cs [] [] h e (omega arith) (enough payloads cs e) in
    let (h_taken, h_left) = parts taken left (subst (All IsDeliverable) split h) in
    (
      map frame taken,
      take 16 (flatten payloads),
      buf,
      drop 16 (flatten taken ++ flatten left),
      map chunk rest,
      found_them,
      decode_task-frames writer takes taken left buf rest h_taken h_left behind,
      omega (arith, length-take 16 (flatten payloads)),
      ap (λ t. take 16 (flatten payloads) ++ drop 16 t)
            (sym (flatten-append taken left) ∙ ap flatten (sym split))
          ∙ take-append-drop 16 (flatten payloads),
    )
  where
    enough :
        (payloads cs : List (List ℕ))
        → flatten cs ≡ flatten (map frame payloads)
        → length payloads < suc (suc (pending (map chunk cs)))
    enough ps cs e = omega (arith, length-flatten-map cs, frames_length ps, ap length e)

    parts :
        (xs ys : List (List ℕ))
        → All IsDeliverable (xs ++ ys)
        → All IsDeliverable xs × All IsDeliverable ys
    parts xs ys h = (All-append_left IsDeliverable xs ys h, All-append_right IsDeliverable xs ys h)
