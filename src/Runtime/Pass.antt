-- ===== src/Runtime/Pass.antt =====
-- Where the pass of an intent over the validators ends.
use ld1_execution_gap_xair.Base.{
  ℕ, suc, ◌≡◌, refl, sym, subst, ◌∙◌, Bool, true, false, Option, none, some, List, arith,
  Option-cases, inl, inr,
}
use ld1_execution_gap_xair.Base.Int.{ℤ}
use ld1_execution_gap_xair.Value.{Fields}
use ld1_execution_gap_xair.Base.Text.{Text, same_text_refl}
use ld1_execution_gap_xair.Model.{
  ActionIntent, IntentState, pending, validating, authorized, delayed, degraded, IntentRecord,
  DecisionOutcome, execute, delay, degrade, revoke, Reason, no_reason, same_state,
}
use ld1_execution_gap_xair.Coordination.{acquire}
use ld1_execution_gap_xair.Lifecycle.{Result, ok, err, get, moved, admissible}
use ld1_execution_gap_xair.Lifecycle.Steps.{advanced, get-advanced}
use ld1_execution_gap_xair.Runtime.State.{
  Metrics, XairRuntime, Action, ◌>>=◌, ◌>>◌, find_record, edit, transition_to, bump,
}
use ld1_execution_gap_xair.Runtime.Advance.{
  bind_ok, find_record_lem, transition_found, edited, edit_lem, find_edited,
}
use ld1_execution_gap_xair.Runtime.Admission.{action_class, apply_policy, mandated}
use ld1_execution_gap_xair.Runtime.Validation.{
  refused_state, queue_again, apply_degradation, degrade_to, Pass, is_validatable, is_stop,
  is_stale, snapshot_of, decide_on, validated, conclude, decide_with, choose, run_pass,
  get_or_register, process_intent,
}

-- the state after a transition of the record
abbrev pub moved_to :
    Text
    → IntentRecord
    → IntentState
    → Option DecisionOutcome
    → Reason
    → Option ℕ
    → XairRuntime
    → XairRuntime
moved_to id r t o why n s = record s { lifecycle = advanced id r t o why n s.lifecycle }

find_moved :
    (id : Text) (r : IntentRecord) (t : IntentState) (o : Option DecisionOutcome) (why : Reason)
    (n : Option ℕ) (s : XairRuntime)
    → get id (moved_to id r t o why n s).lifecycle ≡ some (moved r t o why n)
find_moved id r t o why n s = rw (get-advanced id id r t o why n s.lifecycle, same_text_refl id)

module _ {B : Type 0} (id : Text) (s : XairRuntime) {r : IntentRecord}
    (h : get id s.lifecycle ≡ some r) where
  then_transition :
      (t : IntentState) (o : Option DecisionOutcome) (why : Reason) (n : Option ℕ)
      (f : IntentRecord → Action B)
      → admissible r.state t ≡ true
      → (transition_to id t o why n >>= f) s ≡ f (moved r t o why n) (moved_to id r t o why n s)
  unfolding transition_to
  then_transition t o why n f ok_move =
      bind_ok (transition_to id t o why n) f s
        (rw (transition_found id t o why n s.lifecycle r h ok_move) refl)

  pub then_edit :
      (g : IntentRecord → IntentRecord) (f : Unit {0} → Action B)
      → (edit id g >>= f) s ≡ f tt (edited id (g r) s)
  then_edit g f = bind_ok (edit id g) f s (edit_lem id g s h)

-- the record of an intent in a pass, before its decision
abbrev pub entering : ActionIntent → IntentRecord → XairRuntime → IntentRecord
entering i r s =
    record (moved (moved r pending none no_reason none) validating none no_reason none) {
      action_class = action_class i s;
    }

-- the state in which it is decided on
abbrev pub entered : ActionIntent → IntentRecord → XairRuntime → XairRuntime
entered i r s =
    let r1 = moved r pending none no_reason none in
    let s1 = moved_to i.id r pending none no_reason none s in
    edited i.id (entering i r s) (moved_to i.id r1 validating none no_reason none s1)

pub find_entered :
    (i : ActionIntent) (r : IntentRecord) (s : XairRuntime)
    → get i.id (entered i r s).lifecycle ≡ some (entering i r s)
find_entered i r s = find_edited i.id (entering i r s) (
    moved_to i.id (moved r pending none no_reason none) validating none no_reason none
      (moved_to i.id r pending none no_reason none s))

pub entering-state :
    (i : ActionIntent) (r : IntentRecord) (s : XairRuntime) → (entering i r s).state ≡ validating
unfolding moved
entering-state i r s = refl

validatable_pending : (t : IntentState) → is_validatable t ≡ true → admissible t pending ≡ true
unfolding is_validatable same_state admissible
validatable_pending t h = ground arith

run_pass-choose :
    (c : Pass) (i : ActionIntent) (s : XairRuntime) {r : IntentRecord}
    → get i.id s.lifecycle ≡ some r
    → admissible r.state pending ≡ true
    → run_pass c i s ≡ choose c i (entered i r s) (entered i r s)
unfolding run_pass admissible moved action_class
run_pass-choose c i s {r} h ok_move =
    let r1 = moved r pending none no_reason none in
    let s1 = moved_to i.id r pending none no_reason none s in
    then_transition i.id s h pending none no_reason none _ ok_move
    ∙ then_transition i.id s1 (find_moved i.id r pending none no_reason none s) validating none
        no_reason none _ refl
    ∙ then_edit i.id (moved_to i.id r1 validating none no_reason none s1)
        (find_moved i.id r1 validating none no_reason none s1) _ _

pub process_intent-choose :
    (c : Pass) (i : ActionIntent) (s : XairRuntime) {r : IntentRecord}
    → get i.id s.lifecycle ≡ some r
    → is_validatable r.state ≡ true
    → process_intent c i s ≡ choose c i (entered i r s) (entered i r s)
unfolding process_intent get_or_register
process_intent-choose c i s {r} h v =
    rw (h, v) (run_pass-choose c i s h (validatable_pending r.state v))

-- a transition, its count, and the record that is returned
module _ (id : Text) (s : XairRuntime) {r : IntentRecord} (h : get id s.lifecycle ≡ some r) where
  pub ends :
      (t : IntentState) (o : Option DecisionOutcome) (why : Reason) (n : Option ℕ)
      (f : Metrics → Metrics)
      → admissible r.state t ≡ true
      → (transition_to id t o why n >> (bump f >> find_record id)) s ≡ (
        ok (moved r t o why n),
        record s { lifecycle = advanced id r t o why n s.lifecycle; metrics = f s.metrics },
      )
  unfolding bump
  ends t o why n f ok_move =
      then_transition id s h t o why n _ ok_move
      ∙ find_record_lem id _ (find_moved id r t o why n s)

  ends_queued :
      (t : IntentState) (o : Option DecisionOutcome) (why : Reason) (n : Option ℕ)
      (f : Metrics → Metrics) (requeue : Bool) (i : ActionIntent)
      → admissible r.state t ≡ true
      → (s' : XairRuntime) × ((transition_to id t o why n
              >> (bump f >> (queue_again requeue i >> find_record id)))
            s
          ≡ (ok (moved r t o why n), s'))
        × (s'.active_targets ≡ s.active_targets)
  unfolding bump
  ends_queued t o why n f true i ok_move = (
    _,
    then_transition id s h t o why n _ ok_move ∙ find_record_lem id _ (find_moved id r t o why n s),
    refl,
  )
  ends_queued t o why n f false i ok_move = (
    _,
    then_transition id s h t o why n _ ok_move ∙ find_record_lem id _ (find_moved id r t o why n s),
    refl,
  )

-- Where a pass ends, by its decision: the state of the record, and the targets that are taken.
abbrev pub Lands :
    DecisionOutcome × Reason → ActionIntent → List Text → Result IntentRecord × XairRuntime → Type 0
Lands (execute, why) i targets (ok r, s) =
    (r.state ≡ authorized) × (r.intent ≡ i) × (s.active_targets ≡ acquire i targets)
Lands (delay, why) i targets (ok r, s) = (r.state ≡ delayed) × (s.active_targets ≡ targets)
Lands (revoke, why) i targets (ok r, s) =
    (r.state ≡ refused_state why) × (s.active_targets ≡ targets)
Lands (degrade, why) i targets (ok r, s) =
    (r.state ≡ degraded) × (apply_degradation i ≡ some r.intent) × (s.active_targets ≡ targets)
Lands (degrade, why) i targets (err e, s) =
    (apply_degradation i ≡ none) × (s.active_targets ≡ targets)
Lands d i targets (err e, s) = ⊥

refused_admissible : (why : Reason) → admissible validating (refused_state why) ≡ true
unfolding admissible
refused_admissible why = ground arith

conclude-Lands :
    (c : Pass) (i : ActionIntent) (d : DecisionOutcome × Reason) (s : XairRuntime)
    {r : IntentRecord}
    → get i.id s.lifecycle ≡ some r
    → r.state ≡ validating
    → Lands d i s.active_targets (conclude c i d s)
unfolding conclude degrade_to admissible moved
conclude-Lands c i (execute, why) s {r} h v =
    let r' : IntentRecord = record r { intent = i } in
    let s1 : XairRuntime = record s { active_targets = acquire i s.active_targets } in
    subst (Lands (execute, why) i s.active_targets)
      (sym (
        then_edit i.id s1 h (λ r. record r { intent = i }) _
        ∙ ends i.id (edited i.id r' s1) (find_edited i.id r' s1) authorized (some execute) why
            (some c.latency) (λ m. record m { authorized = suc m.authorized }) (rw (v) refl)))
      (refl, refl, refl)
conclude-Lands c i (delay, why) s {r} h v =
    let (s', e, f) =
      ends_queued i.id s h delayed (some delay) why (some c.latency)
        (λ m. record m { delayed = suc m.delayed }) c.requeue i (rw (v) refl) in
    subst (Lands (delay, why) i s.active_targets) (sym e) (refl, f)
conclude-Lands c i (revoke, why) s {r} h v =
    subst (Lands (revoke, why) i s.active_targets)
      (sym (
        ends i.id s h (refused_state why) (some revoke) why (some c.latency)
          (λ m. record m { revoked = suc m.revoked }) (rw (v) (refused_admissible why))))
      (refl, refl)
conclude-Lands c i (degrade, why) s {r} h v = elim (Option-cases (apply_degradation i)) [
  | inl f ↦
      subst (λ o. Lands (degrade, why) i s.active_targets (degrade_to c i.id why o s)) (sym f)
        (f, refl)
  | inr (j, f) ↦
      let r' : IntentRecord = record r { intent = j } in
      let (s', e, g) =
        ends_queued i.id (edited i.id r' s) (find_edited i.id r' s) degraded (some degrade) why
          (some c.latency) (λ m. record m { degraded = suc m.degraded }) c.requeue j
          (rw (v) refl) in
      subst (λ o. Lands (degrade, why) i s.active_targets (degrade_to c i.id why o s)) (sym f)
        (subst (Lands (degrade, why) i s.active_targets)
          (sym (then_edit i.id s h (λ r. record r { intent = j }) _ ∙ e)) (refl, f, g))
]

apply_policy-id : (i : ActionIntent) (s : XairRuntime) → (apply_policy i s).0.id ≡ i.id
unfolding apply_policy
apply_policy-id i s = elim (Option-cases i.policy_added) [
  | inl e ↦ rw (e) refl
  | inr (a, e) ↦ rw (e) refl
]

decide_with-Lands :
    (c : Pass) (i : ActionIntent) (added : List Text) (snapshot : Fields) (version : ℤ)
    (s : XairRuntime) {r : IntentRecord}
    → get i.id s.lifecycle ≡ some r
    → r.state ≡ validating
    → Lands
        (decide_on c i snapshot s)
        i
        s.active_targets
        (decide_with c (i, added) (snapshot, version) s)
unfolding decide_with decide_on validated
decide_with-Lands c i added snapshot version s {r} h v =
    let r1 : IntentRecord = record r { intent = i; policy_predicates = added } in
    let s1 = edited i.id r1 s in
    let r2 = validated c i version r1 in
    subst (Lands (decide_on c i snapshot s) i s.active_targets)
      (sym (
        then_edit i.id s h (λ r. record r { intent = i; policy_predicates = added }) _
        ∙ then_edit i.id s1 (find_edited i.id r1 s) (validated c i version) _))
      (conclude-Lands c i (decide_on c i snapshot s) (edited i.id r2 s1) (find_edited i.id r2 s1) v)

-- A validation pass of an intent that is no stop, on a snapshot that is not stale, ends where the
-- decision on the intent with the policy's predicates says, and nowhere else: the record is
-- AUTHORIZED and its target taken exactly for EXECUTE, DELAYED for DELAY, REVOKED or EXPIRED for
-- REVOKE, and DEGRADED with the transformed intent for DEGRADE, where the only error is that of a
-- degradation that does not apply; no other decision takes or frees a target.
pub process_intent-Lands :
    (c : Pass) (i : ActionIntent) (s : XairRuntime) {r : IntentRecord}
    → get i.id s.lifecycle ≡ some r
    → is_validatable r.state ≡ true
    → is_stop (action_class i s) ≡ false
    → is_stale c.context_version s.context_version ≡ false
    → let j = (apply_policy i s).0 in
      Lands (decide_on c j (snapshot_of c s).0 s) j s.active_targets (process_intent c i s)
unfolding choose action_class apply_policy mandated decide_on
process_intent-Lands c i s {r} h v not_stop fresh =
    let j = (apply_policy i s).0 in
    let s' = entered i r s in
    rw (process_intent-choose c i s h v, not_stop, fresh)
      (decide_with-Lands c j (apply_policy i s).1 (snapshot_of c s).0 (snapshot_of c s).1 s'
        {r = entering i r s} (rw (apply_policy-id i s) (find_entered i r s)) (entering-state i r s))
