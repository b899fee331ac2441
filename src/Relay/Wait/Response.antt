-- ===== src/Relay/Wait/Response.antt =====
-- relay/inbound/grpc.rs, `relay_grpc_via_core`: when a relay through the core succeeds.
use tobira.Base.{◌≡◌, ◌⊎◌, ◌↔◌, inl, inr, refl, ap, ◌∙◌, Option, none, some, List, [], ◌∷◌, ◌++◌}
use tobira.Relay.Wait.{
  Joined, returned, failed, cancelled, panicked, CoreEvent, decode_done, relay_done, encode_done,
  Phase, all_running, request_ended, only_response, select_core, decode_result_to_result,
  relay_result_to_result,
}

-- How the relay was joined first, if it was.
abbrev pub first_relay : List CoreEvent → Option Joined
first_relay [] = none
first_relay (decode_done r ∷ events) = first_relay events
first_relay (encode_done r ∷ events) = first_relay events
first_relay (relay_done r ∷ events) = some r

-- How the task for the request was joined first, if it was before the relay.
abbrev pub first_decode : List CoreEvent → Option Joined
first_decode [] = none
first_decode (decode_done r ∷ events) = some r
first_decode (encode_done r ∷ events) = first_decode events
first_decode (relay_done r ∷ events) = none

abbrev pub IsResponding : List CoreEvent → Type 0
IsResponding [] = Unit
IsResponding (decode_done r ∷ events) = IsResponding events
IsResponding (encode_done r ∷ events) = ⊥
IsResponding (relay_done r ∷ events) = IsResponding events

-- The relay goes on, has returned, or has been aborted.
abbrev pub RelayIsSound : Option Joined → Type 0
RelayIsSound r = (r ≡ none) ⊎ ((r ≡ some returned) ⊎ (r ≡ some cancelled))

abbrev pub DecodeIsSound : Option Joined → Type 0
DecodeIsSound r = (r ≡ none) ⊎ (r ≡ some returned)

-- What comes before the end of the response, as far as it matters in a phase.
abbrev IsSound : Phase → List CoreEvent → Type 0
IsSound all_running before = RelayIsSound (first_relay before) × DecodeIsSound (first_decode before)
IsSound request_ended before = RelayIsSound (first_relay before)
IsSound only_response before = Unit

abbrev Succeeds : Phase → List CoreEvent → Type 0
Succeeds phase events =
    (before : List CoreEvent) × (later : List CoreEvent) × (events
      ≡ before ++ encode_done none ∷ later)
    × IsResponding before
    × IsSound phase before

select_core-Succeeds :
    (phase : Phase) (events : List CoreEvent)
    → select_core phase events ≡ some none
    → Succeeds phase events
unfolding select_core decode_result_to_result relay_result_to_result
select_core-Succeeds phase [] e = cc
select_core-Succeeds all_running (encode_done none ∷ events) e =
    ([], events, refl, tt, (inl refl, inl refl))
select_core-Succeeds request_ended (encode_done none ∷ events) e = ([], events, refl, tt, inl refl)
select_core-Succeeds only_response (encode_done none ∷ events) e = ([], events, refl, tt, tt)
select_core-Succeeds phase (encode_done (some x) ∷ events) e = cc
select_core-Succeeds all_running (decode_done returned ∷ events) e =
    let (before, later, whole, quiet, sound) = select_core-Succeeds request_ended events e in
    (
      decode_done returned ∷ before,
      later,
      ap (λ t. decode_done returned ∷ t) whole,
      quiet,
      (sound, inr refl),
    )
select_core-Succeeds all_running (decode_done failed ∷ events) e = cc
select_core-Succeeds all_running (decode_done cancelled ∷ events) e = cc
select_core-Succeeds all_running (decode_done panicked ∷ events) e = cc
select_core-Succeeds request_ended (decode_done r ∷ events) e =
    let (before, later, whole, quiet, sound) = select_core-Succeeds request_ended events e in
    (decode_done r ∷ before, later, ap (λ t. decode_done r ∷ t) whole, quiet, sound)
select_core-Succeeds only_response (decode_done r ∷ events) e =
    let (before, later, whole, quiet, sound) = select_core-Succeeds only_response events e in
    (decode_done r ∷ before, later, ap (λ t. decode_done r ∷ t) whole, quiet, tt)
select_core-Succeeds all_running (relay_done returned ∷ events) e =
    let (before, later, whole, quiet, sound) = select_core-Succeeds only_response events e in
    (
      relay_done returned ∷ before,
      later,
      ap (λ t. relay_done returned ∷ t) whole,
      quiet,
      (inr (inl refl), inl refl),
    )
select_core-Succeeds all_running (relay_done failed ∷ events) e = cc
select_core-Succeeds all_running (relay_done cancelled ∷ events) e =
    let (before, later, whole, quiet, sound) = select_core-Succeeds only_response events e in
    (
      relay_done cancelled ∷ before,
      later,
      ap (λ t. relay_done cancelled ∷ t) whole,
      quiet,
      (inr (inr refl), inl refl),
    )
select_core-Succeeds all_running (relay_done panicked ∷ events) e = cc
select_core-Succeeds request_ended (relay_done returned ∷ events) e =
    let (before, later, whole, quiet, sound) = select_core-Succeeds only_response events e in
    (
      relay_done returned ∷ before,
      later,
      ap (λ t. relay_done returned ∷ t) whole,
      quiet,
      inr (inl refl),
    )
select_core-Succeeds request_ended (relay_done failed ∷ events) e = cc
select_core-Succeeds request_ended (relay_done cancelled ∷ events) e =
    let (before, later, whole, quiet, sound) = select_core-Succeeds only_response events e in
    (
      relay_done cancelled ∷ before,
      later,
      ap (λ t. relay_done cancelled ∷ t) whole,
      quiet,
      inr (inr refl),
    )
select_core-Succeeds request_ended (relay_done panicked ∷ events) e = cc
select_core-Succeeds only_response (relay_done r ∷ events) e =
    let (before, later, whole, quiet, sound) = select_core-Succeeds only_response events e in
    (relay_done r ∷ before, later, ap (λ t. relay_done r ∷ t) whole, quiet, tt)

relay_kept :
    (later : List CoreEvent) (before : List CoreEvent)
    → IsResponding before
    → select_core only_response (before ++ encode_done none ∷ later) ≡ some none
unfolding select_core
relay_kept later [] q = refl
relay_kept later (decode_done r ∷ before) q = relay_kept later before q
relay_kept later (encode_done r ∷ before) q = absurd q
relay_kept later (relay_done r ∷ before) q = relay_kept later before q

sound_relay : (r : Joined) → RelayIsSound (some r) → (r ≡ returned) ⊎ (r ≡ cancelled)
sound_relay returned h = inl refl
sound_relay failed (inl h) = cc
sound_relay failed (inr (inl h)) = cc
sound_relay failed (inr (inr h)) = cc
sound_relay cancelled h = inr refl
sound_relay panicked (inl h) = cc
sound_relay panicked (inr (inl h)) = cc
sound_relay panicked (inr (inr h)) = cc

ended_kept :
    (later : List CoreEvent) (before : List CoreEvent)
    → IsResponding before
    → RelayIsSound (first_relay before)
    → select_core request_ended (before ++ encode_done none ∷ later) ≡ some none
unfolding select_core relay_result_to_result
ended_kept later [] q h = refl
ended_kept later (decode_done r ∷ before) q h = ended_kept later before q h
ended_kept later (encode_done r ∷ before) q h = absurd q
ended_kept later (relay_done r ∷ before) q h = elim (sound_relay r h) [
  | inl e ↦ rw e (relay_kept later before q)
  | inr e ↦ rw e (relay_kept later before q)
]

sound_decode : (r : Joined) → DecodeIsSound (some r) → r ≡ returned
sound_decode returned h = refl
sound_decode failed (inl h) = cc
sound_decode failed (inr h) = cc
sound_decode cancelled (inl h) = cc
sound_decode cancelled (inr h) = cc
sound_decode panicked (inl h) = cc
sound_decode panicked (inr h) = cc

all_kept :
    (later : List CoreEvent) (before : List CoreEvent)
    → IsResponding before
    → RelayIsSound (first_relay before)
    → DecodeIsSound (first_decode before)
    → select_core all_running (before ++ encode_done none ∷ later) ≡ some none
unfolding select_core decode_result_to_result relay_result_to_result
all_kept later [] q h d = refl
all_kept later (decode_done r ∷ before) q h d = rw (sound_decode r d) (ended_kept later before q h)
all_kept later (encode_done r ∷ before) q h d = absurd q
all_kept later (relay_done r ∷ before) q h d = elim (sound_relay r h) [
  | inl e ↦ rw e (relay_kept later before q)
  | inr e ↦ rw e (relay_kept later before q)
]

-- The task for the response is the first of its kind to end, and without an error; before that, the
-- relay has not ended but by returning or by being aborted, and the task for the request has not ended
-- while the relay went on but by returning.
abbrev pub Responds : List CoreEvent → Type 0
Responds events =
    (before : List CoreEvent) × (later : List CoreEvent) × (events
      ≡ before ++ encode_done none ∷ later)
    × IsResponding before
    × RelayIsSound (first_relay before)
    × DecodeIsSound (first_decode before)

-- A relay that goes through the core succeeds exactly if the task that sends the response ends without
-- an error and, before that, the relay ends by nothing but returning or being aborted, and the task for
-- the request, while the relay goes on, by nothing but returning.
pub select_core-sent :
    (events : List CoreEvent) → (select_core all_running events ≡ some none) ↔ Responds events
select_core-sent events = (
  λ e.
      let (before, later, whole, quiet, (relay, decode)) =
        select_core-Succeeds all_running events e in
      (before, later, whole, quiet, relay, decode),
  λ (before, later, whole, quiet, relay, decode).
      ap (select_core all_running) whole ∙ all_kept later before quiet relay decode,
)
