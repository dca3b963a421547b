-- ===== src/Sla/Durations.antt =====
-- utils/durations.ts: durations as text, `1d4h`, and as minutes. Minutes are whole numbers: on
-- these `Math.round` is the identity.
pub mod RoundTrip
use zendesk_mcp_server.Base.{
  ℕ, ◌+◌, ◌*◌, ◌/◌, ◌%◌, Option, none, some, List, [], ◌∷◌, ◌++◌, map, ltb, leb, if◌then◌else◌,
  ◌==◌, number_key, text_key,
}
use zendesk_mcp_server.Base.Int.{ℤ, pos_part, neg_part}
use zendesk_mcp_server.Text.{trim, is_digit, number_from, lower}
use zendesk_mcp_server.Text.Decimal.{decimal}

-- minutes in a week, a day, an hour
abbrev pub week : ℕ
week = 10080

abbrev pub day : ℕ
day = 1440

abbrev pub hour : ℕ
hour = 60

-- the longest run of digits, and what follows it
unfoldable pub span_digits : List ℕ → List ℕ × List ℕ
unfolding is_digit
span_digits [] = ([], [])
span_digits (c ∷ s) =
    let (digits, rest) = span_digits s in if is_digit c then (c ∷ digits, rest) else ([], c ∷ s)

abbrev pub close_group : ℕ → List ℕ → List ℕ → List ℕ → ℕ × List ℕ
close_group unit s [] rest = (0, s)
close_group unit s (d ∷ digits) [] = (0, s)
close_group unit s (d ∷ digits) (c ∷ rest) =
    if c == unit then (number_from 0 (d ∷ digits), rest) else (0, s)

-- `(?:(\d+)u)?` at the front of a text: the number, 0 where the group is skipped, and the rest.
-- Fewer digits than all leave a digit before the unit, so the run is read whole or not at all.
unfoldable pub read_group : ℕ → List ℕ → ℕ × List ℕ
unfolding span_digits number_from
read_group unit s = close_group unit s (span_digits s).0 (span_digits s).1

abbrev pub at_end : ℕ → List ℕ → Option ℕ
at_end minutes [] = some minutes
at_end minutes (c ∷ rest) = none

-- the regular expression `DURATION`, and the sum of its groups
unfoldable pub match_duration : List ℕ → Option ℕ
unfolding read_group
match_duration text =
    let (w, after_w) = read_group b'w' text in
    let (d, after_d) = read_group b'd' after_w in
    let (h, after_h) = read_group b'h' after_d in
    let (m, after_m) = read_group b'm' after_h in at_end (w * week + d * day + h * hour + m) after_m

abbrev pub unless_empty : List ℕ → Option ℕ
unless_empty [] = none
unless_empty (c ∷ s) = match_duration (c ∷ s)

unfoldable pub parse_duration : List ℕ → Option ℕ
unfolding match_duration trim lower
parse_duration raw = unless_empty (map lower (trim raw))

-- a number and its unit, as `parts` holds them
abbrev pub duration_part : ℕ → ℕ → ℕ → List (ℕ × ℕ)
duration_part rest unit size = if leb size rest then (rest / size, unit) ∷ [] else []

abbrev pub duration_rest : ℕ → ℕ → ℕ
duration_rest rest size = if leb size rest then rest % size else rest

abbrev pub minutes_part : ℕ → List (ℕ × ℕ) → List (ℕ × ℕ)
minutes_part rest [] = (rest, b'm') ∷ []
minutes_part rest (p ∷ parts) = if ltb 0 rest then (rest, b'm') ∷ [] else []

unfoldable pub duration_parts : ℕ → List (ℕ × ℕ)
duration_parts minutes =
    let days = duration_part minutes b'd' day in
    let after_days = duration_rest minutes day in
    let hours = duration_part after_days b'h' hour in
    let parts = days ++ hours in parts ++ minutes_part (duration_rest after_days hour) parts

-- `parts.join('')`
unfoldable pub join_parts : List (ℕ × ℕ) → List ℕ
unfolding decimal
join_parts [] = []
join_parts ((n, unit) ∷ parts) = decimal n ++ (unit ∷ join_parts parts)

-- `Math.abs`
abbrev pub abs : ℤ → ℕ
abs n = pos_part n + neg_part n

unfoldable pub format_minutes : ℤ → List ℕ
unfolding duration_parts join_parts
format_minutes minutes = join_parts (duration_parts (abs minutes))
