-- ===== src/Buf/Tests.antt =====
-- buf.rs: concrete runs, and the theorems at concrete inputs.
use tobira.Base.{ℕ, ◌<◌, ◌≡◌, refl, none, some, [], ◌∷◌, arith}
use tobira.Buf.{BytesMut, class_for, new, get, put}
use tobira.Buf.Keeps.{IsValid, new-IsValid, put-IsValid}
use tobira.Buf.Capacity.{get_undersized}

abbrev used : BytesMut
used = record { capacity = 1500; bytes = 7 ∷ [] }

abbrev exact : ℕ → ℕ
exact n = n

class_boundaries :
    (class_for 0 ≡ some 0)
    × (class_for 1024 ≡ some 0)
    × (class_for 1025 ≡ some 1)
    × (class_for 65536 ≡ some 6)
    × (class_for 65537 ≡ none)
unfolding class_for
class_boundaries = (refl, refl, refl, refl, refl)

used-IsValid : IsValid (put new used)
used-IsValid = put-IsValid new used new-IsValid

get_undersized_example : (get exact (put new used) 2000).0.capacity < 2000
unfolding class_for new
get_undersized_example =
    get_undersized exact new used 2000 1 new-IsValid refl refl (omega arith) (omega arith)
