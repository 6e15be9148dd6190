-- ===== src/Runtime/Calls.antt =====
-- The reports that reach the runtime, with any arguments, as steps of the lifecycle.
use ld1_execution_gap_xair.Base.{
  ℕ, Bool, true, false, ◌≡◌, ◌∙◌, ap, Option, none, some, arith, Bool-cases, Option-cases, inl, inr,
}
use ld1_execution_gap_xair.Base.Int.{ℤ}
use ld1_execution_gap_xair.Base.Text.{Text, same_text_refl}
use ld1_execution_gap_xair.Model.{revoked, EffectStatus, Reason, IntentRecord, revoke}
use ld1_execution_gap_xair.Coordination.{release_target}
use ld1_execution_gap_xair.Lifecycle.{ok, err, invalid_transition, get, moved, admissible}
use ld1_execution_gap_xair.Lifecycle.Steps.{
  moves, Reach, here, Reach-one, Written, advanced, get-advanced,
}
use ld1_execution_gap_xair.Runtime.State.{
  XairRuntime, Action, ◌>>=◌, ◌>>◌, find_record, transition_to, release_lock,
}
use ld1_execution_gap_xair.Runtime.Reports.{
  record_commit, report_release, report_effect, supervisory_revoke,
}
use ld1_execution_gap_xair.Runtime.Advance.{
  transition_found, transition_refused, bind_ok, bind_err, find_record_lem, find_record_missing,
}
use ld1_execution_gap_xair.Runtime.Outcomes.{
  tracker_after, Does, Does-commit, Does-report, Does-effect,
}

-- a report, with its arguments
pub data Call : Type 0 where
  commit : Text → Bool → Reason → Option ℕ → Call
  release_report : Text → Bool → Reason → Option ℤ → Option ℤ → Call
  effect : Text → EffectStatus → Option Text → Call
  revoke_call : Text → Reason → Call

unfoldable pub perform : Call → Action IntentRecord
perform (commit id c why seq) = record_commit id c why seq
perform (release_report id c why ctx rs) = report_release id c why ctx rs
perform (effect id status detail) = report_effect id status detail
perform (revoke_call id why) = supervisory_revoke id why

found-Reach :
    {A : Type 0} (id : Text) (f : IntentRecord → Action A) (s : XairRuntime)
    → ((r : IntentRecord) → Does id r (f r))
    → Reach s.lifecycle (tracker_after ((find_record id >>= f) s))
unfolding find_record
found-Reach id f s d = elim (Option-cases (get id s.lifecycle)) [
  | inl missing ↦ rw (bind_err (find_record id) f s (find_record_missing id s missing)) here
  | inr (r, h) ↦ rw (bind_ok (find_record id) f s (find_record_lem id s h)) ((d r).at s h)
]

Written-none : (r : IntentRecord) → Written r r revoked
Written-none r = ground arith

unfoldable pub revoke_step : (id : Text) (why : Reason) → Action IntentRecord
revoke_step id why = transition_to id revoked (some revoke) why none

pub revoke_step_found :
    (id : Text) (why : Reason) (s : XairRuntime) (r : IntentRecord)
    → get id s.lifecycle ≡ some r
    → admissible r.state revoked ≡ true
    → revoke_step id why s ≡ (
      ok (moved r revoked (some revoke) why none),
      record s { lifecycle = advanced id r revoked (some revoke) why none s.lifecycle },
    )
unfolding revoke_step transition_to
revoke_step_found id why s r h a =
    rw (transition_found id revoked (some revoke) why none s.lifecycle r h a)

pub revoke_step_refused :
    (id : Text) (why : Reason) (s : XairRuntime) (r : IntentRecord)
    → get id s.lifecycle ≡ some r
    → admissible r.state revoked ≡ false
    → revoke_step id why s ≡ (err (invalid_transition id r.state revoked), s)
unfolding revoke_step transition_to
revoke_step_refused id why s r h a =
    rw (transition_refused id revoked (some revoke) why none s.lifecycle r h a)

-- A revoke that the table admits: the record moved, and its target set free.
pub revoke_lem :
    (id : Text) (why : Reason) (s : XairRuntime) (r : IntentRecord)
    → get id s.lifecycle ≡ some r
    → admissible r.state revoked ≡ true
    → (revoke_step id why >> (release_lock r.intent >> find_record id)) s ≡ (
      ok (moved r revoked (some revoke) why none),
      record s {
        lifecycle = advanced id r revoked (some revoke) why none s.lifecycle;
        active_targets = release_target r.intent s.active_targets;
      },
    )
unfolding release_lock
revoke_lem id why s r h a =
    bind_ok (revoke_step id why) (λ _. release_lock r.intent >> find_record id) s
      (revoke_step_found id why s r h a)
    ∙ find_record_lem id _
        (get-advanced id id r revoked (some revoke) why none s.lifecycle ∙ rw (same_text_refl id))

Does-revoke :
    (id : Text) (why : Reason) (r : IntentRecord)
    → Does id r (
        transition_to id revoked (some revoke) why none
        >> (release_lock r.intent >> find_record id))
unfolding revoke_step
Does-revoke id why r = record {
  at = λ s h. elim (Bool-cases (admissible r.state revoked)) [
    | inl a ↦ Reach-one (
        moves id r r revoked (some revoke) why none h (Written-none r) tt a
          (ap tracker_after (revoke_lem id why s r h a)))
    | inr a ↦
        rw
          (bind_err (revoke_step id why) (λ _. release_lock r.intent >> find_record id) s
            (revoke_step_refused id why s r h a))
          here
  ];
}

pub perform-Reach : (c : Call) (s : XairRuntime) → Reach s.lifecycle (tracker_after (perform c s))
unfolding perform record_commit report_release report_effect supervisory_revoke
perform-Reach (commit id c why seq) s = found-Reach id _ s (λ r. Does-commit id r c why seq)
perform-Reach (release_report id c why ctx rs) s =
    found-Reach id _ s (λ r. Does-report id r c why ctx rs)
perform-Reach (effect id status detail) s = found-Reach id _ s (λ r. Does-effect id r status detail)
perform-Reach (revoke_call id why) s = found-Reach id _ s (Does-revoke id why)
