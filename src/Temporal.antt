-- ===== src/Temporal.antt =====
-- xair/core/temporal_validator.py: the age of a decision at validation and at release.
-- Ages and bounds are integers of microseconds (a bound in milliseconds is multiplied by 1000);
-- the rounding of the source's floats is not modelled.
pub mod Laws
use ld1_execution_gap_xair.Base.{
  ◌≡◌, Bool, true, false, ◌&&◌, Option, none, some, arith, if◌then◌else◌,
}
use ld1_execution_gap_xair.Base.Int.{ℤ, pos, ◌+ℤ◌, ◌-ℤ◌, ◌*ℤ◌, ltb_ℤ, leb_ℤ}
use ld1_execution_gap_xair.Model.{
  ActionIntent, Timestamp, naive, aware, Reason, temporal_ok, future_skew, obsolete,
  deadline_exceeded,
}

pub record TemporalValidator : Type 0 where
  pub max_future_skew : ℤ
  pub clock_uncertainty : ℤ

-- A float read from the environment, in milliseconds.
pub data Reading : Type 0 where
  finite : (micros : ℤ) → Reading
  infinite neg_infinite nan : Reading

-- `__init__`: `none` is the ValueError. Comparisons with nan are false.
unfoldable pub make : ℤ → Reading → Option TemporalValidator
make skew (finite e) =
    if leb_ℤ (pos 0) e
    then some (record { max_future_skew = skew; clock_uncertainty = e })
    else none
make skew _ = none

unfoldable pub decision_epoch : ActionIntent → ℤ
decision_epoch i = elim i.timestamp_decision [ naive w ↦ w | aware w off ↦ w -ℤ off ]

-- `release_bound_ms`, in microseconds
unfoldable pub release_bound : ActionIntent → ℤ
release_bound i = elim i.deadline_ms [ none ↦ 1000 *ℤ i.freshness_window_ms | some d ↦ 1000 *ℤ d ]

unfoldable pub age_of : ActionIntent → ℤ → ℤ
age_of i now = now -ℤ decision_epoch i

-- `_future_skew`: whether the decision is ahead by more than the tolerance
unfoldable pub is_skewed : TemporalValidator → ℤ → Bool
is_skewed v age = ltb_ℤ age (pos 0 -ℤ v.max_future_skew)

-- the test of the deadline at validation
unfoldable pub past_deadline : ℤ → Option ℤ → Bool
past_deadline age none = false
past_deadline age (some d) = ltb_ℤ (1000 *ℤ d) age

unfoldable pub validate : TemporalValidator → ActionIntent → ℤ → Bool × Reason
unfolding is_skewed past_deadline
validate v i now =
    let age = age_of i now in
    let measured = age +ℤ v.clock_uncertainty in
    if is_skewed v age
    then (false, future_skew)
    else if ltb_ℤ (1000 *ℤ i.freshness_window_ms) measured
    then (false, obsolete)
    else if past_deadline measured i.deadline_ms
    then (false, deadline_exceeded)
    else (true, temporal_ok)

-- the word with which a refused release begins
abbrev late_reason : Option ℤ → Reason
late_reason none = obsolete
late_reason (some d) = deadline_exceeded

unfoldable pub validate_release : TemporalValidator → ActionIntent → ℤ → Bool × Reason
unfolding is_skewed release_bound
validate_release v i now =
    let age = age_of i now in
    if is_skewed v age
    then (false, future_skew)
    else if ltb_ℤ (release_bound i) (age +ℤ v.clock_uncertainty)
    then (false, late_reason i.deadline_ms)
    else (true, temporal_ok)
