-- ===== src/Process/Emoji.antt =====
-- subscription/process.rs: what is left of a name whose emoji are removed.
use Prim.Native.String.{String}
use tobira.Base.{ℕ, ◌≡◌, refl, false, codes, code, All, Bool-cases, inl, inr}
use tobira.Process.{is_emoji, strip_emoji}

abbrev pub IsPlain : ℕ → Type 0
IsPlain c = is_emoji c ≡ false

-- No emoji is left in a name that they were removed from.
pub strip_emoji-IsPlain : (s : String) → All IsPlain (codes (strip_emoji s))
unfolding strip_emoji
strip_emoji-IsPlain String.[] = tt
strip_emoji-IsPlain (String.◌∷◌ c s) = elim (Bool-cases (is_emoji (code c))) [
  | inl emoji ↦ rw emoji (strip_emoji-IsPlain s)
  | inr plain ↦ rw plain (plain, strip_emoji-IsPlain s)
]

-- A name without emoji is left as it is.
pub strip_emoji-plain : (s : String) → All IsPlain (codes s) → strip_emoji s ≡ s
unfolding strip_emoji
strip_emoji-plain String.[] h = refl
strip_emoji-plain (String.◌∷◌ c s) (plain, h) = rw (plain, strip_emoji-plain s h) refl
