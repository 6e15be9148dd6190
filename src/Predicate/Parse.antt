-- ===== src/Predicate/Parse.antt =====
-- `_PATTERN` and `_parse`: path, operator and literal of a stripped expression. A choice of the
-- regular expression is never undone by a later one: what follows a path, an operator or a run of
-- spaces cannot start with a character that belongs to it.
use ld1_execution_gap_xair.Base.{
  ℕ, ◌+◌, ◌*◌, ◌-◌, suc, Bool, true, false, not, ◌&&◌, ◌||◌, Option, none, some, [], ◌∷◌, ◌==◌,
  if◌then◌else◌,
}
use ld1_execution_gap_xair.Base.Int.{pos, ◌-ℤ◌}
use ld1_execution_gap_xair.Base.Text.{Text, txt, same_text}
use ld1_execution_gap_xair.Value.{Number, Value, bool, num, str}
use ld1_execution_gap_xair.Predicate.Scan.{is_digit, drop_spaces, take_path}

pub data Op : Type 0 where
  equal not_equal less at_most greater at_least : Op

-- A predicate, parsed; its literal is a text, a truth value or a number.
pub record Parsed : Type 0 where
  pub path : Text
  pub op : Op
  pub literal : Value

-- `==|!=|<=|>=|<|>|=`: the first character, and whether a `=` follows it
abbrev take_equals : Text → Bool × Text
take_equals [] = (false, [])
take_equals (c ∷ s) = if c == b'=' then (true, s) else (false, c ∷ s)

abbrev op_from : ℕ → Bool × Text → Option (Op × Text)
op_from c (wide, s) =
    if c == b'='
    then some (equal, s)
    else if c == b'!'
    then (if wide then some (not_equal, s) else none)
    else if c == b'<'
    then some (if wide then at_most else less, s)
    else if c == b'>'
    then some (if wide then at_least else greater, s)
    else none

unfoldable pub take_op : Text → Option (Op × Text)
take_op [] = none
take_op (c ∷ s) = op_from c (take_equals s)

-- `[^']*'$`, for the quote that is given
abbrev pub cons_some : ℕ → Option Text → Option Text
cons_some c none = none
cons_some c (some s) = some (c ∷ s)

abbrev pub is_empty : Text → Bool
is_empty [] = true
is_empty (c ∷ s) = false

unfoldable pub until_quote : ℕ → Text → Option Text
until_quote q [] = none
until_quote q (c ∷ s) =
    let rest = until_quote q s in
    if c == q then (if is_empty s then some [] else none) else cons_some c rest

-- `\d+(?:\.\d+)?$`: the digits so far as a number, and how many there are
unfoldable fraction : ℕ → ℕ → Text → Option (ℕ × ℕ)
fraction v k [] = if k == 0 then none else some (v, k)
fraction v k (c ∷ s) =
    let rest = fraction (10 * v + (c - b'0')) (suc k) s in if is_digit c then rest else none

unfoldable decimal : ℕ → ℕ → Text → Option (ℕ × ℕ)
unfolding fraction
decimal v n [] = if n == 0 then none else some (v, 0)
decimal v n (c ∷ s) =
    let rest = decimal (10 * v + (c - b'0')) (suc n) s in
    if is_digit c then rest else if c == b'.' && not (n == 0) then fraction v 0 s else none

abbrev signed : Bool → Option (ℕ × ℕ) → Option Value
signed negative none = none
signed true (some (v, k)) = some (num (Number.finite (pos 0 -ℤ pos v) k))
signed false (some (v, k)) = some (num (Number.finite (pos v) k))

unfoldable pub number_literal : Text → Option Value
unfolding decimal
number_literal [] = none
number_literal (c ∷ s) =
    if c == b'-' then signed true (decimal 0 0 s) else signed false (decimal 0 0 (c ∷ s))

abbrev text_literal : Option Text → Option Value
text_literal none = none
text_literal (some s) = some (str s)

unfoldable pub literal_of : Text → Option Value
literal_of [] = none
literal_of (c ∷ s) =
    if c == b'\''
    then text_literal (until_quote b'\'' s)
    else if c == b'"'
    then text_literal (until_quote b'"' s)
    else if same_text (c ∷ s) (txt "true") || same_text (c ∷ s) (txt "True")
    then some (bool true)
    else if same_text (c ∷ s) (txt "false") || same_text (c ∷ s) (txt "False")
    then some (bool false)
    else number_literal (c ∷ s)

abbrev with_literal : Text → Op → Option Value → Option Parsed
with_literal p o none = none
with_literal p o (some v) = some (record { path = p; op = o; literal = v })

abbrev with_op : Text → Option (Op × Text) → Option Parsed
with_op p none = none
with_op p (some (o, s)) = with_literal p o (literal_of (drop_spaces s))

abbrev pub with_path : Option (Text × Text) → Option Parsed
with_path none = none
with_path (some (p, s)) = with_op p (take_op (drop_spaces s))

unfoldable pub parse : Text → Option Parsed
parse s = with_path (take_path s)
