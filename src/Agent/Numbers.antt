-- ===== src/Agent/Numbers.antt =====
-- strconv.ParseInt(s, 10, 64) and fmt's %d, as llm-ops-agent/api/handlers.go uses them.
-- An int64 is its bits, a number below 2 ^ 64. The error of ParseInt, which the code drops, is left
-- out; what stands for the number then is modelled.
pub mod Roundtrip
use x_scope_hub_svc_plus.Prelude.{
  ℕ, zero, suc, ◌+◌, ◌-◌, ◌*◌, ◌/◌, ◌%◌, Bool, ◌&&◌, List, [], ◌∷◌, ◌==◌, ltb, leb, is_empty,
  if◌then◌else◌,
}
use x_scope_hub_svc_plus.Prelude.Text.{Text}

abbrev pub two_to_63 : ℕ
two_to_63 = 9223372036854775808

abbrev pub two_to_64 : ℕ
two_to_64 = 18446744073709551616

pub data Magnitude : Type 0 where
  number : ℕ → Magnitude
  syntax_error range_error : Magnitude

unfoldable pub is_digit : ℕ → Bool
is_digit c = leb b'0' c && leb c b'9'

-- strconv.ParseUint after the sign, with what has been read.
unfoldable pub digits_from : ℕ → Text → Magnitude
unfolding is_digit
digits_from n [] = number n
digits_from n (c ∷ s) =
    let next = n * 10 + (c - b'0') in
    let rest = digits_from next s in
    if is_digit c then (if leb two_to_64 next then range_error else rest) else syntax_error

unfoldable pub parse_uint : Text → Magnitude
unfolding digits_from
parse_uint s = if is_empty s then syntax_error else digits_from 0 s

-- The bits of an int64 with that sign; what is out of range stops at the end of the range.
unfoldable pub positive : Magnitude → ℕ
positive syntax_error = 0
positive range_error = two_to_63 - 1
positive (number n) = if leb two_to_63 n then two_to_63 - 1 else n

unfoldable pub negative : Magnitude → ℕ
negative syntax_error = 0
negative range_error = two_to_63
negative (number n) = if ltb two_to_63 n then two_to_63 else (two_to_64 - n) % two_to_64

unfoldable pub parse_int : Text → ℕ
unfolding parse_uint positive negative
parse_int [] = 0
parse_int (c ∷ s) =
    if c == b'-'
    then negative (parse_uint s)
    else if c == b'+'
    then positive (parse_uint s)
    else positive (parse_uint (c ∷ s))

-- The digits of a number before a text, from the last one on, with a bound on their number.
unfoldable pub digits : ℕ → ℕ → Text → Text
digits zero n rest = rest
digits (suc f) n rest =
    let here : Text = (b'0' + n % 10) ∷ rest in
    let more = digits f (n / 10) here in if ltb n 10 then here else more

-- %d of a number that is not negative
unfoldable pub decimal : ℕ → Text
unfolding digits
decimal n = digits (suc n) n []
