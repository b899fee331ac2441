-- ===== src/Framing/Sender/Whole.antt =====
-- relay/transport/grpc.rs: the frames that `send_grpc_data` sends are its bytes, in order.
use tobira.Base.{
  ℕ, zero, suc, ◌≡◌, ◌≢◌, refl, sym, ap, ◌∙◌, Bool, true, false, ◌&&◌, List, [], ◌∷◌, ◌++◌, take,
  drop, is_empty, All, append_assoc, append-nil, take-append-drop, All-append,
}
use tobira.Framing.Sender.{
  Window, granted, refused, closed, poll_failed, sent, aborted, data_error, DataFrame, send_loop,
  send_grpc_data,
}

-- The bytes of some frames.
abbrev pub body : List DataFrame → List ℕ
body [] = []
body ((bytes, ended) ∷ frames) = bytes ++ body frames

pub body-append : (fs gs : List DataFrame) → body (fs ++ gs) ≡ body fs ++ body gs
body-append [] gs = refl
body-append ((bytes, ended) ∷ fs) gs = rw (body-append fs gs, append_assoc)

-- Only the last frame may end the stream.
abbrev pub EndsLast : Bool → List DataFrame → Type 0
EndsLast end [] = Unit
EndsLast end ((bytes, ended) ∷ []) = ended ≡ end
EndsLast end ((bytes, ended) ∷ f ∷ frames) = (ended ≡ false) × EndsLast end (f ∷ frames)

AllOpen : List DataFrame → Type 0
AllOpen fs = All (λ f. f.1 ≡ false) fs

EndsLast-append :
    (end : Bool) (fs : List DataFrame) (bytes : List ℕ)
    → AllOpen fs
    → EndsLast end (fs ++ (bytes, end) ∷ [])
unfolding AllOpen
EndsLast-append end [] bytes h = refl
EndsLast-append end ((b, ended) ∷ []) bytes (p, h) = (p, refl)
EndsLast-append end ((b, ended) ∷ f ∷ fs) bytes (p, h) = (p, EndsLast-append end (f ∷ fs) bytes h)

chunk_back :
    (out : List DataFrame) (x n : ℕ) (bytes : List ℕ) (flag : Bool)
    → body (out ++ (x ∷ take n bytes, flag) ∷ []) ++ drop n bytes ≡ body out ++ x ∷ bytes
chunk_back out x n bytes flag =
    rw (body-append out ((x ∷ take n bytes, flag) ∷ []))
      (simp (append_assoc, append-nil, take-append-drop))

-- Unless `send_data` fails, what is sent and what is left are the bytes.
send_loop-body :
    (end : Bool) (bytes : List ℕ) (out : List DataFrame) (windows : List Window)
    → (send_loop end bytes out windows).0 ≢ aborted data_error
    → body (send_loop end bytes out windows).1 ++ (send_loop end bytes out windows).2
      ≡ body out ++ bytes
unfolding send_loop
send_loop-body end [] out windows h = refl
send_loop-body end (x ∷ bytes) out [] h = refl
send_loop-body end (x ∷ bytes) out (closed ∷ more) h = refl
send_loop-body end (x ∷ bytes) out (poll_failed ∷ more) h = refl
send_loop-body end (x ∷ bytes) out (granted zero ∷ more) h =
    send_loop-body end (x ∷ bytes) out more h
send_loop-body end (x ∷ bytes) out (granted (suc n) ∷ more) h =
    send_loop-body end (drop n bytes) _ more h ∙ chunk_back out x n bytes _
send_loop-body end (x ∷ bytes) out (refused zero ∷ more) h =
    send_loop-body end (x ∷ bytes) out more h
send_loop-body end (x ∷ bytes) out (refused (suc n) ∷ more) h = absurd (h refl)

-- While bytes are left no frame has ended the stream; afterwards the last one does as asked.
IsReady : Bool → List ℕ → List DataFrame → Type 0
IsReady end [] out = EndsLast end out
IsReady end (x ∷ bytes) out = AllOpen out

IsReady-step :
    (end : Bool) (chunk left : List ℕ) (out : List DataFrame)
    → AllOpen out
    → IsReady end left (out ++ (chunk, end && is_empty left) ∷ [])
unfolding IsReady AllOpen
IsReady-step true chunk [] out h = EndsLast-append true out chunk h
IsReady-step false chunk [] out h = EndsLast-append false out chunk h
IsReady-step true chunk (x ∷ left) out h = All-append _ out _ h (refl, tt)
IsReady-step false chunk (x ∷ left) out h = All-append _ out _ h (refl, tt)

send_loop-EndsLast :
    (end : Bool) (bytes : List ℕ) (out : List DataFrame) (windows : List Window)
    → IsReady end bytes out
    → (send_loop end bytes out windows).0 ≡ sent
    → EndsLast end (send_loop end bytes out windows).1
unfolding send_loop IsReady
send_loop-EndsLast end [] out windows r h = r
send_loop-EndsLast end (x ∷ bytes) out [] r h = cc
send_loop-EndsLast end (x ∷ bytes) out (closed ∷ more) r h = cc
send_loop-EndsLast end (x ∷ bytes) out (poll_failed ∷ more) r h = cc
send_loop-EndsLast end (x ∷ bytes) out (granted zero ∷ more) r h =
    send_loop-EndsLast end (x ∷ bytes) out more r h
send_loop-EndsLast end (x ∷ bytes) out (granted (suc n) ∷ more) r h =
    send_loop-EndsLast end (drop n bytes) _ more
      (IsReady-step end (x ∷ take n bytes) (drop n bytes) out r) h
send_loop-EndsLast end (x ∷ bytes) out (refused zero ∷ more) r h =
    send_loop-EndsLast end (x ∷ bytes) out more r h
send_loop-EndsLast end (x ∷ bytes) out (refused (suc n) ∷ more) r h = cc

-- Unless `send_data` fails, the frames sent and what is left make up the bytes, whatever windows the
-- peer grants, whether the call is done or not.
pub send_grpc_data-body :
    (taken : Bool) (bytes : List ℕ) (end : Bool) (windows : List Window)
    → (send_grpc_data taken bytes end windows).0 ≢ aborted data_error
    → body (send_grpc_data taken bytes end windows).1 ++ (send_grpc_data taken bytes end windows).2
      ≡ bytes
unfolding send_grpc_data
send_grpc_data-body true [] end windows h = refl
send_grpc_data-body false [] end windows h = refl
send_grpc_data-body true (x ∷ bytes) end windows h = send_loop-body end (x ∷ bytes) [] windows h
send_grpc_data-body false (x ∷ bytes) end windows h = send_loop-body end (x ∷ bytes) [] windows h

-- When the call is done, the last frame ends the stream exactly if that was asked for, and no frame
-- before it does.
pub send_grpc_data-EndsLast :
    (taken : Bool) (bytes : List ℕ) (end : Bool) (windows : List Window)
    → (send_grpc_data taken bytes end windows).0 ≡ sent
    → EndsLast end (send_grpc_data taken bytes end windows).1
unfolding send_grpc_data AllOpen IsReady
send_grpc_data-EndsLast true [] end windows h = refl
send_grpc_data-EndsLast false [] end windows h = cc
send_grpc_data-EndsLast true (x ∷ bytes) end windows h =
    send_loop-EndsLast end (x ∷ bytes) [] windows tt h
send_grpc_data-EndsLast false (x ∷ bytes) end windows h =
    send_loop-EndsLast end (x ∷ bytes) [] windows tt h

send_loop-nothing_left :
    (end : Bool) (bytes : List ℕ) (out : List DataFrame) (windows : List Window)
    → (send_loop end bytes out windows).0 ≡ sent
    → (send_loop end bytes out windows).2 ≡ []
unfolding send_loop
send_loop-nothing_left end [] out windows h = refl
send_loop-nothing_left end (x ∷ bytes) out [] h = cc
send_loop-nothing_left end (x ∷ bytes) out (closed ∷ more) h = cc
send_loop-nothing_left end (x ∷ bytes) out (poll_failed ∷ more) h = cc
send_loop-nothing_left end (x ∷ bytes) out (granted zero ∷ more) h =
    send_loop-nothing_left end (x ∷ bytes) out more h
send_loop-nothing_left end (x ∷ bytes) out (granted (suc n) ∷ more) h =
    send_loop-nothing_left end (drop n bytes) _ more h
send_loop-nothing_left end (x ∷ bytes) out (refused zero ∷ more) h =
    send_loop-nothing_left end (x ∷ bytes) out more h
send_loop-nothing_left end (x ∷ bytes) out (refused (suc n) ∷ more) h = cc

pub EndsLast-open : (fs : List DataFrame) → EndsLast false fs → All (λ f. f.1 ≡ false) fs
EndsLast-open [] h = tt
EndsLast-open ((bytes, ended) ∷ []) h = (h, tt)
EndsLast-open ((bytes, ended) ∷ f ∷ fs) (p, h) = (p, EndsLast-open (f ∷ fs) h)

-- A call that is done has sent all its bytes.
pub send_grpc_data-sent :
    (taken : Bool) (bytes : List ℕ) (end : Bool) (windows : List Window)
    → (send_grpc_data taken bytes end windows).0 ≡ sent
    → body (send_grpc_data taken bytes end windows).1 ≡ bytes
unfolding send_grpc_data
send_grpc_data-sent true [] end windows h = refl
send_grpc_data-sent false [] end windows h = cc
send_grpc_data-sent taken (x ∷ bytes) end windows h =
    let empty = send_loop-nothing_left end (x ∷ bytes) [] windows h in
    let whole = send_loop-body end (x ∷ bytes) [] windows (λ e. cc) in
    sym (append-nil (body (send_loop end (x ∷ bytes) [] windows).1))
    ∙ ap (λ t. body (send_loop end (x ∷ bytes) [] windows).1 ++ t) (sym empty)
    ∙ whole

-- The frame that ends a stream holds no bytes, whether it is taken or not.
pub send_grpc_data-empty :
    (taken end : Bool) (windows : List Window) → body (send_grpc_data taken [] end windows).1 ≡ []
unfolding send_grpc_data
send_grpc_data-empty true end windows = refl
send_grpc_data-empty false end windows = refl
