-- ===== src/Tests/Runtimes.antt =====
-- The theorems about the reports at concrete inputs.
use ld1_execution_gap_xair.Base.{◌≡◌, ◌≢◌, refl, false, true, none, some, [], ◌∷◌, arith}
use ld1_execution_gap_xair.Base.Int.{pos}
use ld1_execution_gap_xair.Base.Text.{Text, txt, same_text, same_text_iff}
use ld1_execution_gap_xair.Base.Dict.{lookup, member}
use ld1_execution_gap_xair.Model.{
  authorized, committed, delayed, released, revoked, withheld, release, withhold, execute, delay,
  Reason, reported, read_set_version_changed_at_gate, IntentRecord, new_record,
}
use ld1_execution_gap_xair.Coordination.{check_conflict}
use ld1_execution_gap_xair.Lifecycle.{
  ok, err, get, moved, invalid_transition, transition, transition_from, admissible,
}
use ld1_execution_gap_xair.Lifecycle.Invariant.{Consistent}
use ld1_execution_gap_xair.Runtime.State.{XairRuntime, find_record, transition_to}
use ld1_execution_gap_xair.Runtime.Reports.{
  report_release, supervisory_revoke, set_release_decision,
}
use ld1_execution_gap_xair.Runtime.Calls.{revoke_call, perform}
use ld1_execution_gap_xair.Runtime.Gate.{gate_releases, gate_withholds}
use ld1_execution_gap_xair.Runtime.Errors.{AfterRaise, raise_leaves}
use ld1_execution_gap_xair.Runtime.Locks.{revoke_steals_lock, release_steals_lock}
use ld1_execution_gap_xair.Tests.Fixtures.{resume, at_state, runtime_with, plant}

abbrev why : Reason
why = reported (txt "gateway")

found_a : get (txt "a") plant.lifecycle ≡ some (at_state (txt "a") authorized (some execute))
unfolding get lookup same_text
found_a = refl

found_b : get (txt "b") plant.lifecycle ≡ some (at_state (txt "b") delayed (some delay))
unfolding get lookup same_text
found_b = refl

found_c : get (txt "c") plant.lifecycle ≡ some (at_state (txt "c") committed (some execute))
unfolding get lookup same_text
found_c = refl

b-ne-a : ◌≢◌ {A = Text} (txt "b") (txt "a")
unfolding same_text
b-ne-a e = cc ((same_text_iff (txt "b") (txt "a")).1 e)

a-Consistent : Consistent (at_state (txt "a") authorized (some execute))
unfolding new_record
a-Consistent = ground arith

c-Consistent : Consistent (at_state (txt "c") committed (some execute))
unfolding new_record
c-Consistent = ground arith

gate_releases_example :
    let (res, s') = report_release (txt "a") true why none (some (pos 7)) plant in
    (res
      ≡ ok (
          moved
            (set_release_decision release (at_state (txt "a") authorized (some execute)))
            released
            none
            why
            none))
    × (get (txt "a") s'.lifecycle
        ≡ some (
            moved
              (set_release_decision release (at_state (txt "a") authorized (some execute)))
              released
              none
              why
              none))
    × (s'.actuated ≡ resume (txt "a") ∷ [])
    × (member (txt "conveyor") s'.active_targets ≡ false)
unfolding new_record
gate_releases_example = gate_releases (txt "a") why none plant found_a a-Consistent refl

gate_withholds_example :
    let (res, s') = report_release (txt "a") true why none (some (pos 8)) plant in
    (res
      ≡ ok (
          moved
            (set_release_decision withhold (at_state (txt "a") authorized (some execute)))
            withheld
            none
            read_set_version_changed_at_gate
            none))
    × (s'.actuated ≡ [])
    × (member (txt "conveyor") s'.active_targets ≡ false)
unfolding new_record
gate_withholds_example =
    gate_withholds (txt "a") why none (pos 8) plant found_a a-Consistent refl (λ e. cc e)

abbrev released_a : IntentRecord
released_a = set_release_decision release (at_state (txt "a") released (some execute))

abbrev after_release : XairRuntime
after_release = runtime_with (record { records = (txt "a", released_a) ∷ []; audit = [] })

refused :
    (perform (revoke_call (txt "a") why) after_release).0
    ≡ err (invalid_transition (txt "a") released revoked)
unfolding perform supervisory_revoke find_record transition_to transition transition_from admissible
    get lookup same_text
refused = refl

raise_leaves_example :
    AfterRaise
      (invalid_transition (txt "a") released revoked)
      after_release
      (perform (revoke_call (txt "a") why) after_release).1
raise_leaves_example = raise_leaves (revoke_call (txt "a") why) after_release refused

revoke_steals_lock_example :
    let s' = (supervisory_revoke (txt "b") why plant).1 in
    (get (txt "a") s'.lifecycle ≡ some (at_state (txt "a") authorized (some execute)))
    × (check_conflict (resume (txt "d")) s'.active_targets ≡ false)
unfolding new_record
revoke_steals_lock_example =
    revoke_steals_lock (txt "b") (txt "a") why plant (resume (txt "d")) b-ne-a found_b refl found_a
      refl refl refl

c-ne-a : ◌≢◌ {A = Text} (txt "c") (txt "a")
unfolding same_text
c-ne-a e = cc ((same_text_iff (txt "c") (txt "a")).1 e)

release_steals_lock_example :
    let s' = (report_release (txt "c") true why none none plant).1 in
    (get (txt "a") s'.lifecycle ≡ some (at_state (txt "a") authorized (some execute)))
    × (check_conflict (resume (txt "d")) s'.active_targets ≡ false)
unfolding new_record
release_steals_lock_example =
    release_steals_lock (txt "c") (txt "a") why none none plant (resume (txt "d")) c-ne-a found_c
      c-Consistent refl found_a refl refl refl
