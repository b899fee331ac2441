-- ===== src/Relay/Wait/Tests.antt =====
-- The waits of the relay: concrete runs, and the theorems at concrete inputs.
use tobira.Base.{◌≡◌, ◌↔◌, ◌⊎◌, refl, none, some, List, [], ◌∷◌, arith, inl, In}
use tobira.Relay.Wait.{
  WaitEvent, sends_done, receives_done, ticks, returned, cancelled, wait_grpc_relay, wait_loop,
  wait_round, CoreEvent, decode_done, encode_done, all_running, select_core,
}
use tobira.Relay.Wait.Ends.{Expires, IsOver, wait_grpc_relay-IsOver, wait_grpc_relay-own}
use tobira.Relay.Wait.Response.{Responds, select_core-sent}

abbrev two_results : List WaitEvent
two_results = sends_done returned ∷ ticks 100 cancelled cancelled ∷ receives_done returned ∷ []

wait_grpc_relay-own_example :
    Expires 5000 two_results
    ⊎ (In (sends_done returned) two_results × In (receives_done returned) two_results)
unfolding wait_grpc_relay wait_loop wait_round
wait_grpc_relay-own_example = wait_grpc_relay-own 5000 two_results returned returned refl

abbrev idle_tick : List WaitEvent
idle_tick = sends_done returned ∷ ticks 6000 cancelled cancelled ∷ []

wait_grpc_relay-IsOver_example : IsOver (wait_grpc_relay (some 5000) idle_tick)
wait_grpc_relay-IsOver_example = wait_grpc_relay-IsOver 5000 idle_tick (inl (omega arith))

abbrev whole_response : List CoreEvent
whole_response = decode_done returned ∷ encode_done none ∷ []

select_core-sent_example :
    (select_core all_running whole_response ≡ some none) ↔ Responds whole_response
select_core-sent_example = select_core-sent whole_response
