-- ===== src/Temporal/Laws.antt =====
-- What an accepted age promises.
use ld1_execution_gap_xair.Base.{◌≡◌, ◌↔◌, true, Option, none, some, arith}
use ld1_execution_gap_xair.Base.Int.{ℤ, pos, ◌+ℤ◌, ◌-ℤ◌, ◌*ℤ◌, ◌≤ℤ◌, +ℤ_parts, int_laws}
use ld1_execution_gap_xair.Model.{ActionIntent}
use ld1_execution_gap_xair.Temporal.{
  TemporalValidator, Reading, make, release_bound, age_of, validate, validate_release,
}

-- the deadline, where one is declared
abbrev pub WithinDeadline : ℤ → Option ℤ → Type 0
WithinDeadline age none = Unit
WithinDeadline age (some d) = age ≤ℤ 1000 *ℤ d

-- Validation accepts exactly the intents whose measured age, widened by the clock uncertainty,
-- is within the freshness window and the deadline if there is one, and which are not further
-- ahead of the clock than the tolerance.
pub validate_iff :
    (v : TemporalValidator) (i : ActionIntent) (now : ℤ)
    → ((validate v i now).0 ≡ true) ↔ (
        (pos 0 -ℤ v.max_future_skew ≤ℤ age_of i now)
        × (age_of i now +ℤ v.clock_uncertainty ≤ℤ 1000 *ℤ i.freshness_window_ms)
        × WithinDeadline (age_of i now +ℤ v.clock_uncertainty) i.deadline_ms)
unfolding validate
validate_iff v i now = ground arith

-- If the clocks differ by no more than the declared uncertainty, the true age of an accepted
-- intent is within its freshness window and its deadline.
pub validate_true_age :
    (v : TemporalValidator) (i : ActionIntent) (now true_age : ℤ)
    → true_age ≤ℤ age_of i now +ℤ v.clock_uncertainty
    → (validate v i now).0 ≡ true
    → (true_age ≤ℤ 1000 *ℤ i.freshness_window_ms) × (true_age ≤ℤ release_bound i)
unfolding validate release_bound
validate_true_age v i now t h ok = ground arith

-- An intent that validation accepts would be accepted for release at the same instant.
pub validate→validate_release :
    (v : TemporalValidator) (i : ActionIntent) (now : ℤ)
    → (validate v i now).0 ≡ true
    → (validate_release v i now).0 ≡ true
unfolding validate validate_release
validate→validate_release v i now ok = ground arith

-- an age within the bound of a release: the deadline if one is declared, else the freshness window
abbrev pub WithinRelease : (age window : ℤ) → Option ℤ → Type 0
WithinRelease age window none = age ≤ℤ 1000 *ℤ window
WithinRelease age window (some d) = age ≤ℤ 1000 *ℤ d

-- If the clocks differ by no more than the declared uncertainty and an intent is accepted for release at
-- some time, then at this time and at every earlier one its true age is within its deadline, if it declares
-- one, and else within its freshness window: a refusal as late is never taken back.
pub validate_release-true_age :
    (v : TemporalValidator) (i : ActionIntent) (now later true_age : ℤ)
    → true_age ≤ℤ age_of i now +ℤ v.clock_uncertainty
    → now ≤ℤ later
    → (validate_release v i later).0 ≡ true
    → WithinRelease true_age i.freshness_window_ms i.deadline_ms
unfolding validate_release release_bound age_of
validate_release-true_age v i now later true_age t le ok = grind int_laws

-- The constructor accepts only a finite uncertainty that is not negative, so it only ever
-- tightens the bounds.
pub make_tightens :
    (skew : ℤ) (r : Reading) {v : TemporalValidator}
    → make skew r ≡ some v
    → (i : ActionIntent) (now : ℤ) → (validate v i now).0 ≡ true
    → age_of i now ≤ℤ 1000 *ℤ i.freshness_window_ms
unfolding make validate
make_tightens skew (Reading.finite e) {v} made i now ok =
    ground (arith, +ℤ_parts (age_of i now) v.clock_uncertainty)
make_tightens skew Reading.infinite made i now ok = cc
make_tightens skew Reading.neg_infinite made i now ok = cc
make_tightens skew Reading.nan made i now ok = cc
