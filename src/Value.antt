-- ===== src/Value.antt =====
-- The values of a JSON document: action parameters and the plant context.
pub mod Order
use Prim.Native.Nat.{◌^◌}
use ld1_execution_gap_xair.Base.{ℕ, Bool, true, false, suc, Option, none, some, if◌then◌else◌}
use ld1_execution_gap_xair.Base.Int.{ℤ, ◌*ℤ◌, ltb_ℤ, eq_ℤ}
use ld1_execution_gap_xair.Base.Text.{Text, same_text}

-- A Python number: an int, or a finite float, as the decimal `mantissa / 10 ^ places`, or one of the
-- three floats that are no number on the line. The rounding of decimals to doubles is left out, and
-- int and float are one type, as the evaluator treats them.
pub data Number : Type 0 where
  finite : (mantissa : ℤ) (places : ℕ) → Number
  infinite neg_infinite nan : Number

mutual
  pub data Value : Type 0 where
    null : Value
    bool : Bool → Value
    num : Number → Value
    str : Text → Value
    arr : Items → Value
    obj : Fields → Value

  pub data Items : Type 0 where
    nil : Items
    cons : Value → Items → Items

  pub data Fields : Type 0 where
    end : Fields
    field : Text → Value → Fields → Fields

-- `x * 0.5`
pub halve : Number → Number
halve (finite m k) = finite (5 *ℤ m) (suc k)
halve x = x

-- `a < b` and `a == b`
unfoldable pub num_lt : Number → Number → Bool
num_lt (finite m k) (finite n j) = ltb_ℤ (10 ^ j *ℤ m) (10 ^ k *ℤ n)
num_lt (finite m k) infinite = true
num_lt neg_infinite (finite n j) = true
num_lt neg_infinite infinite = true
num_lt _ _ = false

unfoldable pub num_eq : Number → Number → Bool
num_eq (finite m k) (finite n j) = eq_ℤ (10 ^ j *ℤ m) (10 ^ k *ℤ n)
num_eq infinite infinite = true
num_eq neg_infinite neg_infinite = true
num_eq _ _ = false

-- `d.get(key)` on an object
unfoldable pub field_of : Text → Fields → Option Value
field_of k end = none
field_of k (field j v fs) = if same_text j k then some v else field_of k fs
