-- ===== src/Framing/Sender/Tests.antt =====
-- relay/transport/grpc.rs, the sender: concrete runs, and the theorems at concrete inputs.
use tobira.Base.{ℕ, ◌≡◌, refl, true, false, List, [], ◌∷◌}
use tobira.Framing.Sender.{Window, granted, sent, send_grpc_data, send_loop}

abbrev hello : List ℕ
hello = 104 ∷ 101 ∷ 108 ∷ 108 ∷ 111 ∷ []

abbrev two_windows : List Window
two_windows = granted 3 ∷ granted 0 ∷ granted 9 ∷ []

send_hello :
    send_grpc_data true hello true two_windows
    ≡ (sent, (104 ∷ 101 ∷ 108 ∷ [], false) ∷ (108 ∷ 111 ∷ [], true) ∷ [], [])
unfolding send_grpc_data send_loop
send_hello = refl
