-- ===== src/Parser/Fields/Decimal.antt =====
-- subscription/parser.rs: a number that was printed is read back.
use tobira.Base.{
  ℕ, zero, suc, ◌+◌, ◌-◌, ◌*◌, ◌/◌, ◌%◌, ◌^◌, ◌<◌, ◌≡◌, ◌≢◌, refl, ap, ◌∙◌, inl, inr, true, false,
  none, some, String, List, [], ◌∷◌, arith, leb, ◌==◌, code, Char, codes, Bool-cases, str_eq,
  eq_iff, ◌&&◌, ok,
}
use tobira.Process.Dedup.{digit, decimal}
use tobira.Parser.{pos}
use tobira.Parser.Fields.{
  digits, within, parse_unsigned, parse_codes, parse_i64, text, string_or_int,
}

code-digit : (d : ℕ) → d < 10 → code (digit d) ≡ 48 + d
code-digit zero h = refl
code-digit (suc zero) h = refl
code-digit (suc (suc zero)) h = refl
code-digit (suc (suc (suc zero))) h = refl
code-digit (suc (suc (suc (suc zero)))) h = refl
code-digit (suc (suc (suc (suc (suc zero))))) h = refl
code-digit (suc (suc (suc (suc (suc (suc zero)))))) h = refl
code-digit (suc (suc (suc (suc (suc (suc (suc zero))))))) h = refl
code-digit (suc (suc (suc (suc (suc (suc (suc (suc zero)))))))) h = refl
code-digit (suc (suc (suc (suc (suc (suc (suc (suc (suc zero))))))))) h = refl
code-digit (suc (suc (suc (suc (suc (suc (suc (suc (suc (suc d)))))))))) h = absurd (omega arith)

digits-digit :
    (m d : ℕ) (rest : List ℕ) → d < 10 → digits m (code (digit d) ∷ rest) ≡ digits (m * 10 + d) rest
unfolding digits
digits-digit m d rest h =
    let back : 48 + d - 48 ≡ d = omega arith in
    let good : (leb 48 (48 + d) && leb (48 + d) 57) ≡ true = ground arith in
    rw (code-digit d h) (rw good (ap (λ k. digits (m * 10 + k) rest) back))

digits-decimal :
    (fuel n : ℕ) (behind : String)
    → n < fuel
    → digits 0 (codes (decimal fuel n behind)) ≡ digits n (codes behind)
unfolding decimal
digits-decimal zero n behind h = absurd (omega arith)
digits-decimal (suc fuel) n behind h = elim (Bool-cases (n / 10 == 0)) [
  | inl small ↦
      rw (small, decimal)
        (digits-digit 0 (n % 10) (codes behind) (omega arith)
          ∙ ap (λ k. digits k (codes behind)) (ground arith))
  | inr large ↦
      rw (large, decimal)
        (digits-decimal fuel (n / 10) (String.◌∷◌ (digit (n % 10)) behind) (ground arith)
          ∙ digits-digit (n / 10) (n % 10) (codes behind) (omega arith)
          ∙ ap (λ k. digits k (codes behind)) (omega arith))
]

-- A list of digits reads as a number whatever the sign that a number may have.
parse_codes-digits :
    (cs : List ℕ) (n : ℕ)
    → cs ≢ []
    → digits 0 cs ≡ some n
    → n < 2 ^ 63
    → parse_codes cs ≡ some (pos n)
unfolding digits parse_codes parse_unsigned
parse_codes-digits [] n h e small = absurd (h refl)
parse_codes-digits (c ∷ cs) n h e small = elim (Bool-cases (leb 48 c && leb c 57)) [
  | inr bad ↦
      let none_read : digits 0 (c ∷ cs) ≡ none = rw (bad, digits) refl in absurd (cc (e, none_read))
  | inl good ↦
      let no_minus : (c == 45) ≡ false = ground arith in
      let no_plus : (c == 43) ≡ false = ground arith in
      let fits : leb n (2 ^ 63 - 1) ≡ true = ground arith in
      rw no_minus (rw no_plus (ap (within (2 ^ 63 - 1) (λ k. pos k)) e ∙ rw fits refl))
]

longer : (fuel n : ℕ) (c : Char) (s : String) → codes (decimal fuel n (String.◌∷◌ c s)) ≢ []
unfolding decimal
longer zero n c s = λ e. cc
longer (suc fuel) n c s = elim (Bool-cases (n / 10 == 0)) [
  | inl small ↦ rw (small, decimal) (λ e. cc)
  | inr large ↦ rw (large, decimal) (longer fuel (n / 10) (digit (n % 10)) (String.◌∷◌ c s))
]

decimal-full : (fuel n : ℕ) → codes (decimal (suc fuel) n "") ≢ []
unfolding decimal
decimal-full fuel n = elim (Bool-cases (n / 10 == 0)) [
  | inl small ↦ rw (small, decimal) (λ e. cc)
  | inr large ↦ rw (large, decimal) (longer fuel (n / 10) (digit (n % 10)) "")
]

-- A number below 2^63 that is printed as a text is read back from it.
pub string_or_int-decimal :
    (n : ℕ) → n < 2 ^ 63 → string_or_int (text (decimal (suc n) n "")) ≡ ok (pos n)
unfolding string_or_int parse_i64
string_or_int-decimal n h =
    let printed : String = decimal (suc n) n "" in
    let full : codes printed ≢ [] = decimal-full n n in
    let read : digits 0 (codes printed) ≡ some n = digits-decimal (suc n) n "" (omega arith) in
    let not_empty : str_eq printed "" ≡ false = elim (Bool-cases (str_eq printed "")) [
      | inl empty ↦
          let same : printed ≡ "" = ground (arith, eq_iff printed "") in
          absurd (full (ap codes same))
      | inr other ↦ other
    ] in
    rw not_empty (rw (parse_codes-digits (codes printed) n full read h) refl)
