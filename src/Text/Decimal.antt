-- ===== src/Text/Decimal.antt =====
-- Decimal digits: `String` of a natural number, and `Number` of its digits.
use zendesk_mcp_server.Base.{
  ℕ, zero, suc, ◌+◌, ◌-◌, ◌*◌, ◌/◌, ◌%◌, ◌≤◌, ◌<◌, ◌≡◌, ap, ◌∙◌, inl, inr, true, List, [], ◌∷◌,
  arith, ltb, if◌then◌else◌, ltb→lt, Bool-cases, length, number_key, text_key, All,
}
use zendesk_mcp_server.Text.{is_digit, number_from}

-- the digits of `n` before those of `s`, by fuel
unfoldable pub digits_from : ℕ → ℕ → List ℕ → List ℕ
digits_from zero n s = s
digits_from (suc fuel) n s =
    let more = digits_from fuel (n / 10) ((n % 10 + b'0') ∷ s) in
    if ltb n 10 then (n + b'0') ∷ s else more

unfoldable pub decimal : ℕ → List ℕ
unfolding digits_from
decimal n = digits_from (suc n) n []

abbrev pub AllDigits : List ℕ → Type 0
AllDigits = All (λ c. is_digit c ≡ true)

is_digit_of : (n : ℕ) → n < 10 → is_digit (n + b'0') ≡ true
unfolding is_digit
is_digit_of n h = ground arith

digits_from-IsDecimal :
    (fuel n : ℕ) (s : List ℕ)
    → n < fuel
    → AllDigits s
    → AllDigits (digits_from fuel n s)
      × (0 < length (digits_from fuel n s))
      × (number_from 0 (digits_from fuel n s) ≡ number_from n s)
unfolding digits_from number_from
digits_from-IsDecimal zero n s lt h = absurd (omega arith)
digits_from-IsDecimal (suc fuel) n s lt h = elim (Bool-cases (ltb n 10)) [
  | inl small ↦
      let below : n < 10 = ltb→lt n 10 small in
      let e : 0 * 10 + (n + b'0' - b'0') ≡ n = omega arith in
      rw small ((is_digit_of n below, h), omega arith, ap (λ m. number_from m s) e)
  | inr large ↦
      let least : 10 ≤ n = ground arith in
      let (digits, some_digit, value) =
        digits_from-IsDecimal fuel (n / 10) ((n % 10 + b'0') ∷ s) (omega arith)
          (is_digit_of (n % 10) (omega arith), h) in
      let e : n / 10 * 10 + (n % 10 + b'0' - b'0') ≡ n = omega arith in
      rw large (digits, some_digit, value ∙ ap (λ m. number_from m s) e)
]

pub decimal-AllDigits : (n : ℕ) → AllDigits (decimal n)
unfolding decimal
decimal-AllDigits n = (digits_from-IsDecimal (suc n) n [] (omega arith) tt).0

pub length-decimal_pos : (n : ℕ) → 0 < length (decimal n)
unfolding decimal
length-decimal_pos n = (digits_from-IsDecimal (suc n) n [] (omega arith) tt).1

pub number_from-decimal : (n : ℕ) → number_from 0 (decimal n) ≡ n
unfolding decimal number_from
number_from-decimal n = (digits_from-IsDecimal (suc n) n [] (omega arith) tt).2
