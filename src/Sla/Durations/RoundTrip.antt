-- ===== src/Sla/Durations/RoundTrip.antt =====
-- `parseDuration` on the texts of `formatMinutes`, both of utils/durations.ts.
use zendesk_mcp_server.Base.{
  ℕ, ◌+◌, ◌*◌, ◌/◌, ◌<◌, ◌≡◌, refl, ap, ◌∙◌, inl, inr, true, false, Option, none, some, List, [],
  ◌∷◌, ◌++◌, map, arith, ltb, leb, if◌then◌else◌, Bool-cases, length, length-append, ◌==◌,
  number_key, text_key, All, All-append,
}
use mathlib.Core.List.{append-nil, append_assoc}
use zendesk_mcp_server.Base.Int.{ℤ}
use zendesk_mcp_server.Text.{is_space, trim_start, trim_end, trim, is_digit, lower}
use zendesk_mcp_server.Text.Decimal.{
  decimal, AllDigits, decimal-AllDigits, length-decimal_pos, number_from-decimal,
}
use zendesk_mcp_server.Sla.Durations.{
  day, hour, span_digits, read_group, match_duration, unless_empty, parse_duration, duration_rest,
  duration_parts, join_parts, abs, format_minutes,
}

-- A digit, or a unit that `formatMinutes` writes: no space, and in lower case.
abbrev IsPlain : ℕ → Type 0
IsPlain c = (is_space c ≡ false) × (lower c ≡ c)

IsPlain-digit : (c : ℕ) → is_digit c ≡ true → IsPlain c
unfolding is_digit is_space lower
IsPlain-digit c h = (ground arith, ground arith)

All-IsPlain : (s : List ℕ) → AllDigits s → All IsPlain s
All-IsPlain [] h = tt
All-IsPlain (c ∷ s) h = (IsPlain-digit c h.0, All-IsPlain s h.1)

trim_end_plain : (s : List ℕ) → All IsPlain s → trim_end s ≡ s
unfolding trim_end
trim_end_plain [] h = refl
trim_end_plain (c ∷ s) h = ground (arith, trim_end_plain s h.1)

trim_start_plain : (s : List ℕ) → All IsPlain s → trim_start s ≡ s
unfolding trim_start
trim_start_plain [] h = refl
trim_start_plain (c ∷ s) h = rw h.0.0

lower_plain : (s : List ℕ) → All IsPlain s → map lower s ≡ s
lower_plain [] h = refl
lower_plain (c ∷ s) h = rw (h.0.1, lower_plain s h.1)

-- A run of digits ends at a unit.
span_digits-append :
    (ds : List ℕ) (unit : ℕ) (rest : List ℕ)
    → AllDigits ds
    → is_digit unit ≡ false
    → span_digits (ds ++ (unit ∷ rest)) ≡ (ds, unit ∷ rest)
unfolding span_digits
span_digits-append [] unit rest h u = rw u
span_digits-append (d ∷ ds) unit rest h u = rw (h.0, span_digits-append ds unit rest h.1 u)

read_group-join :
    (unit other n : ℕ) (parts : List (ℕ × ℕ))
    → is_digit other ≡ false
    → read_group unit (join_parts ((n, other) ∷ parts))
      ≡ (if other == unit then (n, join_parts parts) else (0, join_parts ((n, other) ∷ parts)))
unfolding read_group join_parts
read_group-join unit other n parts h = ground (
  arith,
  span_digits-append (decimal n) other (join_parts parts) (decimal-AllDigits n) h,
  length-decimal_pos n,
  number_from-decimal n,
)

read_group-empty : (unit : ℕ) → read_group unit (join_parts []) ≡ (0, [])
unfolding read_group join_parts
read_group-empty unit = refl

join_parts-empty : join_parts [] ≡ []
unfolding join_parts
join_parts-empty = refl

-- A unit with its number, if it is written.
abbrev segment : Option ℕ → ℕ → List (ℕ × ℕ)
segment none unit = []
segment (some n) unit = (n, unit) ∷ []

abbrev amount : Option ℕ → ℕ
amount none = 0
amount (some n) = n

d_unit : is_digit b'd' ≡ false
unfolding is_digit
d_unit = refl

h_unit : is_digit b'h' ≡ false
unfolding is_digit
h_unit = refl

m_unit : is_digit b'm' ≡ false
unfolding is_digit
m_unit = refl

-- The groups of the pattern on what follows the days: hours and minutes, each if it is written.
match-minutes :
    (m : Option ℕ)
    → (read_group b'm' (join_parts (segment m b'm')) ≡ (amount m, []))
      × ((unit : ℕ)
          → (b'm' == unit) ≡ false
          → read_group unit (join_parts (segment m b'm')) ≡ (0, join_parts (segment m b'm')))
match-minutes none = (read_group-empty b'm', λ unit h. rw (read_group-empty unit, join_parts-empty))
match-minutes (some m) = (
  rw (read_group-join b'm' b'm' m [] m_unit, join_parts-empty),
  λ unit h. rw (read_group-join unit b'm' m [] m_unit, h),
)

match-hours :
    (h m : Option ℕ)
    → (read_group b'h' (join_parts (segment h b'h' ++ segment m b'm'))
        ≡ (amount h, join_parts (segment m b'm')))
      × ((unit : ℕ)
          → (b'h' == unit) ≡ false
          → (b'm' == unit) ≡ false
          → read_group unit (join_parts (segment h b'h' ++ segment m b'm'))
            ≡ (0, join_parts (segment h b'h' ++ segment m b'm')))
match-hours none m = ((match-minutes m).1 b'h' refl, λ unit e f. (match-minutes m).1 unit f)
match-hours (some h) m = (
  rw (read_group-join b'h' b'h' h (segment m b'm') h_unit),
  λ unit e f. rw (read_group-join unit b'h' h (segment m b'm') h_unit, e),
)

match-days :
    (d h m : Option ℕ)
    → (read_group b'd' (join_parts (segment d b'd' ++ segment h b'h' ++ segment m b'm'))
        ≡ (amount d, join_parts (segment h b'h' ++ segment m b'm')))
      × (read_group b'w' (join_parts (segment d b'd' ++ segment h b'h' ++ segment m b'm'))
          ≡ (0, join_parts (segment d b'd' ++ segment h b'h' ++ segment m b'm')))
match-days none h m = ((match-hours h m).1 b'd' refl refl, (match-hours h m).1 b'w' refl refl)
match-days (some d) h m = (
  rw (read_group-join b'd' b'd' d (segment h b'h' ++ segment m b'm') d_unit),
  rw (read_group-join b'w' b'd' d (segment h b'h' ++ segment m b'm') d_unit),
)

match-segments :
    (d h m : Option ℕ)
    → match_duration (join_parts (segment d b'd' ++ segment h b'h' ++ segment m b'm'))
      ≡ some (amount d * day + amount h * hour + amount m)
unfolding match_duration
match-segments d h m =
    rw ((match-days d h m).1, (match-days d h m).0, (match-hours h m).0, (match-minutes m).0)
      (ap some (omega arith))

-- What `formatMinutes` writes, as its three units.
duration_parts-segments :
    (n : ℕ)
    → (d : Option ℕ) × (h : Option ℕ) × (m : Option ℕ) × (duration_parts n
        ≡ segment d b'd' ++ segment h b'h' ++ segment m b'm')
      × (amount d * day + amount h * hour + amount m ≡ n)
unfolding duration_parts
duration_parts-segments n =
    let rest = duration_rest n day in
    let last = duration_rest rest hour in
    elim (Bool-cases (leb day n)) [
      | inl days ↦ elim (Bool-cases (leb hour rest)) [
        | inl hours ↦ elim (Bool-cases (ltb 0 last)) [
          | inl more ↦ (some (n / day), some (rest / hour), some last, ground arith, ground arith)
          | inr done ↦ (some (n / day), some (rest / hour), none, ground arith, ground arith)
        ]
        | inr no_hours ↦ elim (Bool-cases (ltb 0 last)) [
          | inl more ↦ (some (n / day), none, some last, ground arith, ground arith)
          | inr done ↦ (some (n / day), none, none, ground arith, ground arith)
        ]
      ]
      | inr no_days ↦ elim (Bool-cases (leb hour rest)) [
        | inl hours ↦ elim (Bool-cases (ltb 0 last)) [
          | inl more ↦ (none, some (rest / hour), some last, ground arith, ground arith)
          | inr done ↦ (none, some (rest / hour), none, ground arith, ground arith)
        ]
        | inr no_hours ↦ (none, none, some last, ground arith, ground arith)
      ]
    ]

IsPlain-unit : IsPlain b'd' × IsPlain b'h' × IsPlain b'm'
unfolding is_space lower
IsPlain-unit = ((refl, refl), (refl, refl), (refl, refl))

join_parts-segment :
    (o : Option ℕ) (unit : ℕ) (parts : List (ℕ × ℕ))
    → IsPlain unit
    → All IsPlain (join_parts parts)
    → All IsPlain (join_parts (segment o unit ++ parts))
unfolding join_parts
join_parts-segment none unit parts h k = k
join_parts-segment (some n) unit parts h k =
    All-append IsPlain (decimal n) (unit ∷ join_parts parts)
      (All-IsPlain (decimal n) (decimal-AllDigits n)) (h, k)

join_parts-IsPlain :
    (d h m : Option ℕ)
    → All IsPlain (join_parts (segment d b'd' ++ segment h b'h' ++ segment m b'm'))
join_parts-IsPlain d h m =
    let (is_d, is_h, is_m) = IsPlain-unit in
    let last : All IsPlain (join_parts (segment m b'm')) =
      rw (append-nil (segment m b'm')) at
        (join_parts-segment m b'm' [] is_m (rw join_parts-empty tt)) in
    rw append_assoc (
      join_parts-segment d b'd' (segment h b'h' ++ segment m b'm') is_d
        (join_parts-segment h b'h' (segment m b'm') is_h last))

parse-plain :
    (s : List ℕ) (n : ℕ)
    → All IsPlain s
    → match_duration s ≡ some n
    → 0 < length s
    → parse_duration s ≡ some n
unfolding parse_duration trim
parse-plain s n plain h long =
    rw (trim_start_plain s plain, trim_end_plain s plain, lower_plain s plain) (go s h long)
  where
    go : (t : List ℕ) → match_duration t ≡ some n → 0 < length t → unless_empty t ≡ some n
    go [] e l = absurd (omega arith)
    go (c ∷ t) e l = e

length-duration_parts_pos : (n : ℕ) → 0 < length (duration_parts n)
unfolding duration_parts
length-duration_parts_pos n = ground arith

length-join_parts_pos : (parts : List (ℕ × ℕ)) → 0 < length parts → 0 < length (join_parts parts)
unfolding join_parts
length-join_parts_pos [] h = absurd (omega arith)
length-join_parts_pos ((n, unit) ∷ parts) h =
    omega (arith, length-append (decimal n) (unit ∷ join_parts parts), length-decimal_pos n)

-- Whatever whole number of minutes `formatMinutes` renders, `parseDuration` reads the text back as
-- the same number without its sign.
pub parse-format : (minutes : ℤ) → parse_duration (format_minutes minutes) ≡ some (abs minutes)
unfolding format_minutes
parse-format minutes =
    let (d, h, m, shape, total) = duration_parts-segments (abs minutes) in
    parse-plain (join_parts (duration_parts (abs minutes))) (abs minutes)
      (rw shape (join_parts-IsPlain d h m)) (rw shape (match-segments d h m ∙ ap some total))
      (length-join_parts_pos (duration_parts (abs minutes))
        (length-duration_parts_pos (abs minutes)))
