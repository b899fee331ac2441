-- ===== src/Relay/Wait.antt =====
-- The waits of the relay for its tasks: `wait_grpc_relay` of relay/outbound/grpc.rs, its twin
-- `wait_grpc_fast_relay` and the `select!` of `relay_grpc_via_core` of relay/inbound/grpc.rs, and the
-- idle timer of relay/activity.rs.
pub mod Ends
pub mod Response
mod Tests
use tobira.Base.{
  ℕ, zero, suc, ◌*◌, ◌/◌, ◌-◌, Bool, true, false, Option, none, some, List, [], ◌∷◌, leb, ltb,
  if◌then◌else◌, Result, ok, err,
}

-- `RelayActivity`: the time of the last activity, in milliseconds.
pub record RelayActivity : Type 0 where
  pub last_activity : ℕ

unfoldable pub mark : ℕ → RelayActivity → RelayActivity
mark now activity = record { last_activity = now }

unfoldable pub idle_for : ℕ → RelayActivity → ℕ
idle_for now activity = now - activity.last_activity

-- A quarter of the timeout, from one second to five.
unfoldable pub idle_check_interval : ℕ → ℕ
idle_check_interval idle_timeout =
    let quarter = idle_timeout / 4 in
    if ltb quarter 1000 then 1000 else if ltb 5000 quarter then 5000 else quarter

-- How a task was joined.
pub data Joined : Type 0 where
  returned : Joined
  failed : Joined
  cancelled : Joined
  panicked : Joined

-- What `select!` sees next: the task that sends is done, or the one that receives, or the timer ticks,
-- when the relay has been idle for a time. Tasks that are aborted then answer with the two results.
pub data WaitEvent : Type 0 where
  sends_done : Joined → WaitEvent
  receives_done : Joined → WaitEvent
  ticks : ℕ → Joined → Joined → WaitEvent

abbrev pub or_set : Option Joined → Joined → Option Joined
or_set none r = some r
or_set (some old) r = some old

-- A round of the loop: a branch whose result is set is off. Without a timeout there is no timer.
unfoldable pub wait_round :
    Option ℕ → Option Joined → Option Joined → WaitEvent → Option Joined × Option Joined
wait_round timeout r1 r2 (sends_done r) = (or_set r1 r, r2)
wait_round timeout r1 r2 (receives_done r) = (r1, or_set r2 r)
wait_round none r1 r2 (ticks idle a b) = (r1, r2)
wait_round (some timeout) r1 r2 (ticks idle a b) =
    if leb timeout idle then (or_set r1 a, or_set r2 b) else (r1, r2)

abbrev pub both : Option Joined → Option Joined → Option (Joined × Joined)
both (some a) (some b) = some (a, b)
both _ _ = none

-- The loop; `none` while it waits.
unfoldable pub wait_loop :
    Option ℕ → Option Joined → Option Joined → List WaitEvent → Option (Joined × Joined)
unfolding wait_round
wait_loop timeout r1 r2 [] = none
wait_loop timeout r1 r2 (e ∷ events) =
    let (s1, s2) = wait_round timeout r1 r2 e in
    elim (both s1 s2) [ some results ↦ some results | none ↦ wait_loop timeout s1 s2 events ]

unfoldable pub wait_grpc_relay : Option ℕ → List WaitEvent → Option (Joined × Joined)
unfolding wait_loop
wait_grpc_relay timeout events = wait_loop timeout none none events

-- `copy_bidirectional_with_idle_timeout`: the copy is done, or the timer ticks.
pub data CopyEvent : Type 0 where
  copied : Result Bool (ℕ × ℕ) → CopyEvent
  ticks_at : ℕ → CopyEvent

pub data CopyError : Type 0 where
  copy_failed : CopyError
  idle_too_long : ℕ → CopyError

unfoldable pub copy_bidirectional_with_idle_timeout :
    ℕ → List CopyEvent → Option (Result CopyError (ℕ × ℕ))
copy_bidirectional_with_idle_timeout timeout [] = none
copy_bidirectional_with_idle_timeout timeout (copied (ok counts) ∷ events) = some (ok counts)
copy_bidirectional_with_idle_timeout timeout (copied (err e) ∷ events) = some (err copy_failed)
copy_bidirectional_with_idle_timeout timeout (ticks_at idle ∷ events) =
    let later = copy_bidirectional_with_idle_timeout timeout events in
    if leb timeout idle then some (err (idle_too_long idle)) else later

-- The tasks of `relay_grpc_via_core`: the one that decodes the request, the relay, and the one that
-- encodes the response.
pub data CoreError : Type 0 where
  decode_failed : CoreError
  decode_join_failed : CoreError
  relay_failed : CoreError
  relay_join_failed : CoreError
  encode_failed : CoreError

pub decode_result_to_result : Joined → Option CoreError
decode_result_to_result returned = none
decode_result_to_result failed = some decode_failed
decode_result_to_result cancelled = some decode_join_failed
decode_result_to_result panicked = some decode_join_failed

pub relay_result_to_result : Joined → Option CoreError
relay_result_to_result returned = none
relay_result_to_result failed = some relay_failed
relay_result_to_result cancelled = none
relay_result_to_result panicked = some relay_join_failed

pub data CoreEvent : Type 0 where
  decode_done : Joined → CoreEvent
  relay_done : Joined → CoreEvent
  encode_done : Option CoreError → CoreEvent

-- Which tasks the `select!`s still wait for.
pub data Phase : Type 0 where
  all_running : Phase
  request_ended : Phase
  only_response : Phase

-- The result of `relay_grpc_via_core`, an error or none; nothing while it waits.
unfoldable pub select_core : Phase → List CoreEvent → Option (Option CoreError)
unfolding decode_result_to_result relay_result_to_result
select_core phase [] = none
select_core phase (encode_done r ∷ events) = some r
select_core all_running (decode_done r ∷ events) = elim (decode_result_to_result r) [
  | none ↦ select_core request_ended events
  | some e ↦ some (some e)
]
select_core request_ended (decode_done r ∷ events) = select_core request_ended events
select_core only_response (decode_done r ∷ events) = select_core only_response events
select_core all_running (relay_done r ∷ events) = elim (relay_result_to_result r) [
  | none ↦ select_core only_response events
  | some e ↦ some (some e)
]
select_core request_ended (relay_done r ∷ events) = elim (relay_result_to_result r) [
  | none ↦ select_core only_response events
  | some e ↦ some (some e)
]
select_core only_response (relay_done r ∷ events) = select_core only_response events
