-- ===== src/Framing/Causes.antt =====
-- relay/transport/grpc.rs: the errors by which a lost connection is told from a lost stream.
use tobira.Base.{◌≡◌, refl, Bool, true, false, List, [], ◌∷◌, any}

-- A cause in the chain of an error: an error of the HTTP/2 library that is one of input and output, or
-- a GOAWAY frame, or another; or none of the library.
pub data Cause : Type 0 where
  io : Cause
  go_away : Cause
  other_h2 : Cause
  foreign : Cause

pub is_h2_connection_error : Cause → Bool
is_h2_connection_error io = true
is_h2_connection_error go_away = true
is_h2_connection_error other_h2 = false
is_h2_connection_error foreign = false

pub is_grpc_connection_error : List Cause → Bool
unfolding is_h2_connection_error
is_grpc_connection_error causes = any is_h2_connection_error causes

lost_behind_another : is_grpc_connection_error (foreign ∷ go_away ∷ []) ≡ true
unfolding is_grpc_connection_error
lost_behind_another = refl

stream_reset : is_grpc_connection_error (foreign ∷ other_h2 ∷ []) ≡ false
unfolding is_grpc_connection_error
stream_reset = refl
