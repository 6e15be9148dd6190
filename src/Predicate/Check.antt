-- ===== src/Predicate/Check.antt =====
-- `check_expression` and `evaluate_predicates`. The wall clock is an oracle: `late n` says whether
-- the reading before the predicate of number `n` is past the bound.
use ld1_execution_gap_xair.Base.{
  ℕ, suc, Bool, true, false, not, ◌||◌, Option, none, some, List, [], ◌∷◌, if◌then◌else◌, length,
}
use ld1_execution_gap_xair.Base.Text.{Text, txt, same_text}
use ld1_execution_gap_xair.Value.{
  Number, Value, Fields, null, bool, num, str, obj, field_of, num_lt, num_eq,
}
use ld1_execution_gap_xair.Model.{
  Message, empty_expression, unsupported, missing_path, ill_typed, compared, Reason, eval_timeout,
  context_ok, safety_constraint_failed, precondition_failed, ActionIntent,
}
use ld1_execution_gap_xair.Predicate.Scan.{strip, lower, split_dots}
use ld1_execution_gap_xair.Predicate.Float.{to_float}
use ld1_execution_gap_xair.Predicate.Parse.{
  Op, equal, not_equal, less, at_most, greater, at_least, Parsed, parse,
}

-- `node.get(part)`
abbrev pub or_null : Option Value → Value
or_null none = null
or_null (some v) = v

-- `_resolve`, on the parts of the path
unfoldable pub resolve_parts : Value → List Text → Value
resolve_parts v [] = v
resolve_parts (obj fs) (k ∷ ks) = resolve_parts (or_null (field_of k fs)) ks
resolve_parts _ (k ∷ ks) = null

unfoldable pub resolve_path : Fields → Text → Value
resolve_path ctx path = resolve_parts (obj ctx) (split_dots path)

-- The context value and the literal, aligned: a text that stands for a truth value or a number is
-- read as one. None is an operand that is no number.
abbrev with_left : Value → Option Number → Option (Value × Value)
with_left right none = none
with_left right (some n) = some (num n, right)

abbrev with_right : Value → Option Number → Option (Value × Value)
with_right left none = none
with_right left (some n) = some (left, num n)

unfoldable pub align : Value → Value → Option (Value × Value)
align (str s) (bool b) =
    if same_text (lower s) (txt "true")
    then some (bool true, bool b)
    else if same_text (lower s) (txt "false")
    then some (bool false, bool b)
    else some (str s, bool b)
align (str s) (num n) = with_left (num n) (to_float s)
align (num n) (str s) = with_right (num n) (to_float s)
align l r = some (l, r)

abbrev same_bool : Bool → Bool → Bool
same_bool true b = b
same_bool false b = not b

-- `_ORDERING[op](left, right)` and `_EQUALITY[op](left, right)`, by the types they are defined for
unfoldable pub compare_numbers : Op → Number → Number → Bool
compare_numbers equal a b = num_eq a b
compare_numbers not_equal a b = not (num_eq a b)
compare_numbers less a b = num_lt a b
compare_numbers at_most a b = num_lt a b || num_eq a b
compare_numbers greater a b = num_lt b a
compare_numbers at_least a b = num_lt b a || num_eq b a

abbrev pub equality : Op → Bool → Option Bool
equality equal b = some b
equality not_equal b = some (not b)
equality _ b = none

unfoldable pub compare_values : Op → Value → Value → Option Bool
unfolding compare_numbers
compare_values op (num a) (num b) = some (compare_numbers op a b)
compare_values op (bool a) (bool b) = equality op (same_bool a b)
compare_values op (str a) (str b) = equality op (same_text a b)
compare_values op _ _ = none

abbrev pub verdict : Text → Option Bool → Bool × Message
verdict e none = (false, ill_typed e)
verdict e (some b) = (b, compared e)

abbrev pub compare_aligned : Op → Option (Value × Value) → Option Bool
compare_aligned op none = none
compare_aligned op (some (l, r)) = compare_values op l r

abbrev is_null : Value → Bool
is_null null = true
is_null _ = false

-- the value at the path, and the literal
unfoldable pub judge : Text → Op → Value → Value → Bool × Message
judge e op left literal =
    if is_null left
    then (false, missing_path e)
    else verdict e (compare_aligned op (align left literal))

abbrev pub check_parsed : Text → Fields → Option Parsed → Bool × Message
check_parsed e ctx none = (false, unsupported e)
check_parsed e ctx (some p) = judge e p.op (resolve_path ctx p.path) p.literal

abbrev pub check_stripped : Text → Fields → Bool × Message
check_stripped [] ctx = (false, empty_expression)
check_stripped (c ∷ e) ctx = check_parsed (c ∷ e) ctx (parse (c ∷ e))

unfoldable pub check_expression : Text → Fields → Bool × Message
check_expression e ctx = check_stripped (strip e) ctx

-- one turn of the loop: the clock, then the predicate
abbrev pub fail_with : (Message → Reason) → Bool × Message → Option Reason → Option Reason
fail_with label (true, m) rest = rest
fail_with label (false, m) rest = some (label m)

unfoldable pub first_failure :
    (Message → Reason) → (ℕ → Bool) → ℕ → List Text → Fields → Option Reason
first_failure label late n [] ctx = none
first_failure label late n (e ∷ es) ctx =
    let rest = first_failure label late (suc n) es ctx in
    if late n then some eval_timeout else fail_with label (check_expression e ctx) rest

abbrev pub reason_of : Option Reason → Bool × Reason
reason_of none = (true, context_ok)
reason_of (some r) = (false, r)

abbrev pub or_else : Option Reason → Option Reason → Option Reason
or_else none r = r
or_else (some r) _ = some r

-- `evaluate_predicates`, and `ContextValidator.validate` with a context
unfoldable pub evaluate_predicates : (ℕ → Bool) → List Text → List Text → Fields → Bool × Reason
evaluate_predicates late safety preconditions ctx = reason_of (
    or_else (first_failure safety_constraint_failed late 0 safety ctx)
      (first_failure precondition_failed late (length safety) preconditions ctx))

unfoldable pub validate_context : (ℕ → Bool) → ActionIntent → Fields → Bool × Reason
validate_context late i ctx = evaluate_predicates late i.safety_constraints i.preconditions ctx
