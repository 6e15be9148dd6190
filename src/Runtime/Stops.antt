-- ===== src/Runtime/Stops.antt =====
-- A stop through `process_intent`: it needs neither a context nor a free target.
use ld1_execution_gap_xair.Base.{◌≡◌, ◌∙◌, refl, sym, ap, subst, true, some, suc, []}
use ld1_execution_gap_xair.Base.Int.{ℤ, pos}
use ld1_execution_gap_xair.Model.{
  ActionIntent, IntentRecord, validating, authorized, execute, risk_reducing_action,
}
use ld1_execution_gap_xair.Lifecycle.{get, ok, moved, admissible}
use ld1_execution_gap_xair.Lifecycle.Steps.{advanced}
use ld1_execution_gap_xair.Runtime.State.{XairRuntime}
use ld1_execution_gap_xair.Runtime.Admission.{action_class}
use ld1_execution_gap_xair.Runtime.Advance.{edited, find_edited}
use ld1_execution_gap_xair.Runtime.Validation.{
  Pass, is_stop, is_validatable, authorize_stop, choose, process_intent,
}
use ld1_execution_gap_xair.Runtime.Pass.{
  then_edit, ends, entered, find_entered, entering-state, process_intent-choose,
}

abbrev stop_record : Pass → ActionIntent → ℤ → IntentRecord → IntentRecord
stop_record c i version r = record r {
  intent = record i { policy_added = some [] };
  context_version = version;
  read_set = [];
  read_set_version = pos 0;
  predicates = [];
  validation_latency = c.latency;
}

authorize_stop_lem :
    (c : Pass) (i : ActionIntent) (s : XairRuntime) {r : IntentRecord}
    → get i.id s.lifecycle ≡ some r
    → r.state ≡ validating
    → let q = stop_record c i s.context_version r in
      let s1 = edited i.id q s in
      authorize_stop c i s ≡ (
        ok (moved q authorized (some execute) risk_reducing_action (some c.latency)),
        record s1 {
          lifecycle =
              advanced i.id q authorized
                (some execute)
                risk_reducing_action
                (some c.latency)
                s1.lifecycle;
          metrics = record s1.metrics { authorized = suc s1.metrics.authorized };
        },
      )
unfolding authorize_stop admissible
authorize_stop_lem c i s {r} h v =
    let q = stop_record c i s.context_version r in
    then_edit i.id s h (stop_record c i s.context_version) _
    ∙ ends i.id (edited i.id q s) (find_edited i.id q s) authorized (some execute)
        risk_reducing_action (some c.latency) (λ m. record m { authorized = suc m.authorized })
        (subst (λ x. admissible x authorized ≡ true) (sym v) refl)

choose_stop :
    (c : Pass) (i : ActionIntent) (s : XairRuntime)
    → is_stop (action_class i s) ≡ true
    → choose c i s ≡ authorize_stop c i
unfolding choose
choose_stop c i s h = rw (h) refl

-- A stop in a state that can be validated is AUTHORIZED, whatever the clock, the context and the target locks
-- are, and takes no target.
pub process_intent-stop :
    (c : Pass) (i : ActionIntent) (s : XairRuntime) {r : IntentRecord}
    → get i.id s.lifecycle ≡ some r
    → is_validatable r.state ≡ true
    → is_stop (action_class i s) ≡ true
    → ((q : IntentRecord) × (s' : XairRuntime) × (process_intent c i s ≡ (ok q, s'))
        × (q.state ≡ authorized)
        × (s'.active_targets ≡ s.active_targets))
unfolding moved action_class
process_intent-stop c i s {r} h v k = (
  _,
  _,
  process_intent-choose c i s h v
      ∙ ap (λ m. m (entered i r s)) (choose_stop c i (entered i r s) k)
      ∙ authorize_stop_lem c i (entered i r s) (find_entered i r s) (entering-state i r s),
  refl,
  refl,
)
