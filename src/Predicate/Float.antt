-- ===== src/Predicate/Float.antt =====
-- `float(s)` of a text, as an exact decimal.
use Prim.Native.Nat.{◌^◌}
use ld1_execution_gap_xair.Base.{
  ℕ, ◌+◌, ◌*◌, ◌-◌, suc, Bool, true, false, not, ◌&&◌, ◌||◌, Option, none, some, [], ◌∷◌, ◌==◌,
  if◌then◌else◌, leb,
}
use ld1_execution_gap_xair.Base.Int.{pos, ◌-ℤ◌}
use ld1_execution_gap_xair.Base.Text.{Text, txt, same_text}
use ld1_execution_gap_xair.Value.{Number}
use ld1_execution_gap_xair.Predicate.Scan.{is_digit, strip, lower}
use ld1_execution_gap_xair.Predicate.Parse.{is_empty}

-- Python's `float(s)` of a text: digits may have single underscores between them.
abbrev starts_digit : Text → Bool
starts_digit [] = false
starts_digit (c ∷ s) = is_digit c

unfoldable read_digits : ℕ → ℕ → Text → ℕ × ℕ × Text
read_digits v n [] = (v, n, [])
read_digits v n (c ∷ s) =
    let digit = is_digit c in
    let rest =
      read_digits (if digit then 10 * v + (c - b'0') else v) (if digit then suc n else n) s in
    if digit || (c == b'_' && (not (n == 0) && starts_digit s)) then rest else (v, n, c ∷ s)

-- the sign: whether it is a minus, and what follows
abbrev take_sign : Text → Bool × Text
take_sign [] = (false, [])
take_sign (c ∷ s) =
    if c == b'-' then (true, s) else if c == b'+' then (false, s) else (false, c ∷ s)

abbrev scaled : ℕ → ℕ → Bool → ℕ → ℕ × ℕ
scaled v k true e = (v, k + e)
scaled v k false e = if leb k e then (v * 10 ^ (e - k), 0) else (v, k - e)

abbrev exponent_end : ℕ → ℕ → Bool → ℕ × ℕ × Text → Option (ℕ × ℕ)
exponent_end v k negative (e, count, rest) =
    if count == 0 || not (is_empty rest) then none else some (scaled v k negative e)

abbrev exponent_sign : ℕ → ℕ → Bool × Text → Option (ℕ × ℕ)
exponent_sign v k (negative, s) = exponent_end v k negative (read_digits 0 0 s)

abbrev exponent : ℕ → ℕ → Text → Option (ℕ × ℕ)
exponent v k [] = some (v, k)
exponent v k (c ∷ s) = if c == b'e' || c == b'E' then exponent_sign v k (take_sign s) else none

abbrev fraction_end : ℕ → ℕ × ℕ × Text → Option (ℕ × ℕ)
fraction_end n (v, k, rest) = if n + k == 0 then none else exponent v k rest

abbrev fraction_part : ℕ × ℕ × Text → Option (ℕ × ℕ)
fraction_part (v, n, []) = fraction_end n (v, 0, [])
fraction_part (v, n, c ∷ s) =
    if c == b'.' then fraction_end n (read_digits v 0 s) else fraction_end n (v, 0, c ∷ s)

abbrev number_of : Bool → Option (ℕ × ℕ) → Option Number
number_of negative none = none
number_of true (some (v, k)) = some (Number.finite (pos 0 -ℤ pos v) k)
number_of false (some (v, k)) = some (Number.finite (pos v) k)

abbrev unsigned : Bool × Text → Option Number
unsigned (negative, s) =
    if same_text (lower s) (txt "inf") || same_text (lower s) (txt "infinity")
    then some (if negative then Number.neg_infinite else Number.infinite)
    else if same_text (lower s) (txt "nan")
    then some Number.nan
    else number_of negative (fraction_part (read_digits 0 0 s))

unfoldable pub to_float : Text → Option Number
unfolding read_digits
to_float s = unsigned (take_sign (strip s))
