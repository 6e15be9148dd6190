-- ===== src/Tests/Lifecycles.antt =====
-- The theorems about ages and the transition table at concrete inputs.
use ld1_execution_gap_xair.Base.{◌≡◌, ◌≤◌, refl, true, arith}
use ld1_execution_gap_xair.Base.Int.{ℤ, pos, ◌+ℤ◌, ◌-ℤ◌, ◌*ℤ◌, ◌≤ℤ◌}
use ld1_execution_gap_xair.Base.Text.{txt}
use ld1_execution_gap_xair.Model.{
  created, pending, validating, authorized, committed, released, unknown_effect, effect_confirmed,
}
use ld1_execution_gap_xair.Temporal.{
  TemporalValidator, age_of, decision_epoch, release_bound, validate, validate_release,
}
use ld1_execution_gap_xair.Temporal.Laws.{
  validate_true_age, validate→validate_release, WithinRelease, validate_release-true_age,
}
use ld1_execution_gap_xair.Lifecycle.{admissible, is_released}
use ld1_execution_gap_xair.Lifecycle.Graph.{
  Walk, stop, go, Visits, released_was_authorized, authorized_settles,
}
use ld1_execution_gap_xair.Tests.Fixtures.{resume}

abbrev clock : TemporalValidator
clock = record { max_future_skew = pos 1000000; clock_uncertainty = pos 2000 }

-- 400 ms after the decision
abbrev soon : ℤ
soon = pos 1400000

abbrev later : ℤ
later = pos 1450000

accepted_soon : (validate clock (resume (txt "a")) soon).0 ≡ true
unfolding validate ◌+ℤ◌ ◌-ℤ◌ ◌*ℤ◌ age_of decision_epoch
accepted_soon = refl

validate_true_age_example :
    (pos 401000 ≤ℤ 1000 *ℤ pos 500) × (pos 401000 ≤ℤ release_bound (resume (txt "a")))
unfolding ◌+ℤ◌ ◌-ℤ◌ age_of decision_epoch
validate_true_age_example =
    validate_true_age clock (resume (txt "a")) soon (pos 401000) (omega arith) accepted_soon

validate→validate_release_example : (validate_release clock (resume (txt "a")) soon).0 ≡ true
validate→validate_release_example =
    validate→validate_release clock (resume (txt "a")) soon accepted_soon

accepted_later : (validate_release clock (resume (txt "a")) later).0 ≡ true
unfolding validate_release ◌+ℤ◌ ◌-ℤ◌ ◌*ℤ◌ age_of decision_epoch
accepted_later = refl

validate_release-true_age_example :
    WithinRelease (pos 401000) (pos 500) (resume (txt "a")).deadline_ms
unfolding ◌+ℤ◌ ◌-ℤ◌ age_of decision_epoch
validate_release-true_age_example =
    validate_release-true_age clock (resume (txt "a")) soon later (pos 401000) (omega arith)
      (omega arith) accepted_later

to_released : Walk created 4 released
unfolding admissible
to_released =
    go {t = authorized}
      (go {t = validating} (go {t = pending} (go {t = created} (stop 0 refl) refl) refl) refl) refl

released_was_authorized_example : Visits to_released authorized
unfolding is_released
released_was_authorized_example = released_was_authorized refl refl to_released

resolved_late : Walk authorized 4 effect_confirmed
unfolding admissible
resolved_late =
    go {t = unknown_effect}
      (go {t = released} (go {t = committed} (go {t = authorized} (stop 0 refl) refl) refl) refl)
      refl

authorized_settles_example : 4 ≤ 4
authorized_settles_example = authorized_settles resolved_late
