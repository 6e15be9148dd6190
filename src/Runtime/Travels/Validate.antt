-- ===== src/Runtime/Travels/Validate.antt =====
-- The validation pass as steps of the lifecycle.
use ld1_execution_gap_xair.Base.{true, ◌≡◌, refl, Option, none, some, List, arith, inr}
use ld1_execution_gap_xair.Base.Text.{Text}
use ld1_execution_gap_xair.Model.{
  ActionIntent, delayed, degraded, IntentRecord, DecisionOutcome, execute, Reason,
}
use ld1_execution_gap_xair.Value.{Fields}
use ld1_execution_gap_xair.Base.Int.{ℤ}
use ld1_execution_gap_xair.Lifecycle.Steps.{OutcomeFor}
use ld1_execution_gap_xair.Runtime.State.{XairRuntime}
use ld1_execution_gap_xair.Runtime.Validation.{
  Pass, apply_degradation, validated, degrade_to, conclude, refused_state, authorize_stop,
  revoke_stale, decide_with, choose, run_pass, get_or_register, process_intent,
}
use ld1_execution_gap_xair.Runtime.Travels.{
  Travels, Travels-bind, Travels-pure, Travels-raise, Travels-gets, Travels-if, Travels-edit,
  keeps_id, keeps_key, is_before_release, Travels-transition, Travels-ends, Travels-ends_queued,
  Travels-takes, Travels-register_intent,
}

-- a degraded intent keeps its id
degraded_id : (i : ActionIntent) {j : ActionIntent} → apply_degradation i ≡ some j → j.id ≡ i.id
unfolding apply_degradation
degraded_id i h = ground arith

Travels-degrade_to :
    (c : Pass) (id : Text) (why : Reason) (o : Option ActionIntent)
    → ((j : ActionIntent) → o ≡ some j → j.id ≡ id)
    → Travels (degrade_to c id why o)
unfolding degrade_to
Travels-degrade_to c id why none k = Travels-raise _
Travels-degrade_to c id why (some i) k =
    Travels-bind _ _
      (Travels-edit id (λ r. record r { intent = i })
        (λ r. record {
          known_id = inr (k i refl);
          same_state = refl;
          same_outcome = refl;
          decision = refl;
          effect = refl;
          seq = refl;
        }))
      (λ _. Travels-ends_queued id degraded _ why _ _ c.requeue i refl tt)

refused-is_before_release : (why : Reason) → is_before_release (refused_state why) ≡ true
refused-is_before_release why = ground arith

refused-OutcomeFor : (why : Reason) (o : Option DecisionOutcome) → OutcomeFor (refused_state why) o
refused-OutcomeFor why o = ground arith

Travels-conclude :
    (c : Pass) (i : ActionIntent) (d : DecisionOutcome) (why : Reason)
    → Travels (conclude c i (d, why))
unfolding conclude
Travels-conclude c i DecisionOutcome.degrade why =
    Travels-degrade_to c i.id why (apply_degradation i) (λ j h. degraded_id i h)
Travels-conclude c i execute why =
    search (Travels-bind, Travels-edit, keeps_key, Travels-ends, Travels-takes)
Travels-conclude c i DecisionOutcome.delay why =
    Travels-ends_queued i.id delayed _ why _ _ c.requeue i refl tt
Travels-conclude c i DecisionOutcome.revoke why =
    Travels-ends i.id (refused_state why) _ why _ _ (refused-is_before_release why)
      (refused-OutcomeFor why _)

Travels-conclude_pair :
    (c : Pass) (i : ActionIntent) (d : DecisionOutcome × Reason) → Travels (conclude c i d)
Travels-conclude_pair c i d = Travels-conclude c i d.0 d.1

Travels-authorize_stop : (c : Pass) (i : ActionIntent) → Travels (authorize_stop c i)
unfolding authorize_stop
Travels-authorize_stop c i =
    search (Travels-bind, Travels-gets, Travels-edit, keeps_key, Travels-ends)

Travels-revoke_stale : (i : ActionIntent) → Travels (revoke_stale i)
unfolding revoke_stale
Travels-revoke_stale i = search (Travels-bind, Travels-gets, Travels-edit, keeps_id, Travels-ends)

Travels-decide_with :
    (c : Pass) (i : ActionIntent) (added : List Text) (snapshot : Fields) (version : ℤ)
    → Travels (decide_with c (i, added) (snapshot, version))
unfolding decide_with validated
Travels-decide_with c i added snapshot version =
    search (Travels-bind, Travels-gets, Travels-edit, keeps_key, keeps_id, Travels-conclude_pair)
      depth 9

Travels-decide_pair :
    (c : Pass) (p : ActionIntent × List Text) (q : Fields × ℤ) → Travels (decide_with c p q)
Travels-decide_pair c p q = Travels-decide_with c p.0 p.1 q.0 q.1

Travels-choose : (c : Pass) (i : ActionIntent) (s : XairRuntime) → Travels (choose c i s)
unfolding choose
Travels-choose c i s =
    search (Travels-if, Travels-authorize_stop, Travels-revoke_stale, Travels-decide_pair)

Travels-run_pass : (c : Pass) (i : ActionIntent) → Travels (run_pass c i)
unfolding run_pass
Travels-run_pass c i =
    search (Travels-bind, Travels-transition, Travels-gets, Travels-edit, keeps_id, Travels-choose)
      depth 9

Travels-get_or_register :
    (i : ActionIntent) (found : Option IntentRecord) → Travels (get_or_register i found)
unfolding get_or_register
Travels-get_or_register i (some r) = Travels-pure r
Travels-get_or_register i none = Travels-register_intent i

pub Travels-process_intent : (c : Pass) (i : ActionIntent) → Travels (process_intent c i)
unfolding process_intent
Travels-process_intent c i = search (
  Travels-bind, Travels-gets, Travels-get_or_register, Travels-if, Travels-run_pass, Travels-pure,
)
