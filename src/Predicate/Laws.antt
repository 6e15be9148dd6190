-- ===== src/Predicate/Laws.antt =====
-- What a positive verdict of the evaluator means.
use ld1_execution_gap_xair.Base.{
  ℕ, suc, ◌≡◌, ◌↔◌, refl, Bool, true, false, ◌||◌, Option, none, some, List, [], ◌∷◌, arith, length,
  if◌then◌else◌,
}
use ld1_execution_gap_xair.Base.Text.{Text}
use ld1_execution_gap_xair.Value.{
  Number, Value, null, bool, num, str, arr, obj, Fields, num_lt, num_eq,
}
use ld1_execution_gap_xair.Model.{
  Message, Reason, eval_timeout, safety_constraint_failed, precondition_failed,
}
use ld1_execution_gap_xair.Predicate.Parse.{Op, equal, not_equal, less, at_most, greater, at_least}
use ld1_execution_gap_xair.Predicate.Check.{
  check_expression, judge, align, compare_values, compare_numbers, compare_aligned, equality,
  verdict, first_failure, evaluate_predicates, fail_with, or_else, reason_of,
}

-- each predicate is started before the bound and passes
abbrev pub AllPass : (ℕ → Bool) → ℕ → List Text → Fields → Type 0
AllPass late n [] ctx = Unit
AllPass late n (e ∷ es) ctx =
    (late n ≡ false) × ((check_expression e ctx).0 ≡ true) × AllPass late (suc n) es ctx

turn_iff :
    (label : Message → Reason) (l : Bool) (v : Bool × Message) (rest : Option Reason) {T : Type 0}
    → (rest ≡ none) ↔ T
    → ((if l then some eval_timeout else fail_with label v rest) ≡ none)
      ↔ ((l ≡ false) × (v.0 ≡ true) × T)
turn_iff label true v rest h = (λ e. cc e, λ p. cc p.0)
turn_iff label false (true, m) rest h = (λ e. (refl, refl, h.0 e), λ p. h.1 p.2)
turn_iff label false (false, m) rest h = (λ e. cc e, λ p. cc p.1)

first_failure_iff :
    (label : Message → Reason) (late : ℕ → Bool) (n : ℕ) (es : List Text) (ctx : Fields)
    → (first_failure label late n es ctx ≡ none) ↔ AllPass late n es ctx
unfolding first_failure
first_failure_iff label late n [] ctx = (λ _. tt, λ _. refl)
first_failure_iff label late n (e ∷ es) ctx =
    turn_iff label (late n) (check_expression e ctx) (first_failure label late (suc n) es ctx)
      (first_failure_iff label late (suc n) es ctx)

accepted_iff :
    (a b : Option Reason) → ((reason_of (or_else a b)).0 ≡ true) ↔ ((a ≡ none) × (b ≡ none))
accepted_iff none none = (λ e. (refl, refl), λ p. refl)
accepted_iff none (some r) = (λ e. cc e, λ p. cc p.1)
accepted_iff (some r) b = (λ e. cc e, λ p. cc p.0)

-- The predicates of an intent are accepted exactly if each of them, the safety constraints first, is
-- started before the time bound and passes.
pub evaluate_predicates_iff :
    (late : ℕ → Bool) (safety preconditions : List Text) (ctx : Fields)
    → ((evaluate_predicates late safety preconditions ctx).0 ≡ true)
      ↔ (AllPass late 0 safety ctx × AllPass late (length safety) preconditions ctx)
unfolding evaluate_predicates
evaluate_predicates_iff late safety preconditions ctx =
    let a =
      accepted_iff (first_failure safety_constraint_failed late 0 safety ctx)
        (first_failure precondition_failed late (length safety) preconditions ctx) in
    let s = first_failure_iff safety_constraint_failed late 0 safety ctx in
    let p = first_failure_iff precondition_failed late (length safety) preconditions ctx in
    (λ e. (s.0 (a.0 e).0, p.0 (a.0 e).1), λ q. a.1 (s.1 q.0, p.1 q.1))

-- the opposite operator
unfoldable pub opposite : Op → Op
opposite equal = not_equal
opposite not_equal = equal
opposite less = at_least
opposite at_least = less
opposite greater = at_most
opposite at_most = greater

num_lt_asym : (a b : Number) → num_lt a b ≡ true → num_lt b a || num_eq b a ≡ false
unfolding num_lt num_eq
num_lt_asym a b h = ground arith

compare_numbers-opposite :
    (op : Op) (a b : Number)
    → compare_numbers op a b ≡ true
    → compare_numbers (opposite op) a b ≡ false
unfolding compare_numbers opposite
compare_numbers-opposite op a b h = ground (arith, num_lt_asym a b, num_lt_asym b a)

equality-opposite :
    (e d : Text) (op : Op) (b : Bool)
    → (verdict e (equality op b)).0 ≡ true
    → (verdict d (equality (opposite op) b)).0 ≡ false
unfolding opposite
equality-opposite e d op b h = ground arith

compare_values-opposite :
    (e d : Text) (op : Op) (l r : Value)
    → (verdict e (compare_values op l r)).0 ≡ true
    → (verdict d (compare_values (opposite op) l r)).0 ≡ false
unfolding compare_values
compare_values-opposite e d op (num a) (num b) h = compare_numbers-opposite op a b h
compare_values-opposite e d op (bool a) (bool b) h = equality-opposite e d op _ h
compare_values-opposite e d op (str s) (str t) h = equality-opposite e d op _ h
compare_values-opposite e d op l r h = refl

aligned-opposite :
    (e d : Text) (op : Op) (o : Option (Value × Value))
    → (verdict e (compare_aligned op o)).0 ≡ true
    → (verdict d (compare_aligned (opposite op) o)).0 ≡ false
aligned-opposite e d op none h = refl
aligned-opposite e d op (some (l, r)) h = compare_values-opposite e d op l r h

-- A predicate and the one with the opposite operator never both pass on one value.
pub judge-opposite :
    (e d : Text) (op : Op) (left literal : Value)
    → (judge e op left literal).0 ≡ true
    → (judge d (opposite op) left literal).0 ≡ false
unfolding judge
judge-opposite e d op null literal h = refl
judge-opposite e d op (bool b) literal h = aligned-opposite e d op (align (bool b) literal) h
judge-opposite e d op (num n) literal h = aligned-opposite e d op (align (num n) literal) h
judge-opposite e d op (str s) literal h = aligned-opposite e d op (align (str s) literal) h
judge-opposite e d op (arr xs) literal h = aligned-opposite e d op (align (arr xs) literal) h
judge-opposite e d op (obj fs) literal h = aligned-opposite e d op (align (obj fs) literal) h
