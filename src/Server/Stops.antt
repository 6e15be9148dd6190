-- ===== src/Server/Stops.antt =====
-- A stop through the endpoint: neither the store nor a lock nor an old claim holds it back.
use ld1_execution_gap_xair.Base.{◌≡◌, ◌∙◌, refl, ap, true, false, none, some, arith, if◌then◌else◌}
use ld1_execution_gap_xair.Model.{
  ActionIntent, IntentRecord, authorized, degraded, same_state, new_record,
}
use ld1_execution_gap_xair.Lifecycle.{get, ok}
use ld1_execution_gap_xair.Runtime.State.{XairRuntime, pure}
use ld1_execution_gap_xair.Runtime.Advance.{bind_ok}
use ld1_execution_gap_xair.Runtime.Admission.{action_class, expire_seen, known, admit}
use ld1_execution_gap_xair.Runtime.Validation.{Pass, is_stop, is_validatable, process_intent}
use ld1_execution_gap_xair.Runtime.Stops.{process_intent-stop}
use ld1_execution_gap_xair.Server.Endpoints.{Server}
use ld1_execution_gap_xair.Server.Submission.{
  Ingress, answered, submit_intent, submit_admitted, submit_stop, validate_now, pass_on,
  record_stop,
}
use ld1_execution_gap_xair.Server.Retained.{admitted, admit_unknown, found_registered, run_ok}

not_degraded : (q : IntentRecord) → q.state ≡ authorized → same_state q.state degraded ≡ false
unfolding same_state
not_degraded q e = ground arith

validate_now-stop :
    (c : Pass) (i : ActionIntent) (s : XairRuntime) {r : IntentRecord}
    → get i.id s.lifecycle ≡ some r
    → is_validatable r.state ≡ true
    → is_stop (action_class i s) ≡ true
    → ((q : IntentRecord) × (s' : XairRuntime) × (validate_now c i s ≡ (ok q, s'))
        × (q.state ≡ authorized)
        × (s'.active_targets ≡ s.active_targets))
unfolding validate_now
validate_now-stop c i s h v k =
    let (q, s', e, a, t) = process_intent-stop c i s h v k in
    (
      q,
      s',
      bind_ok (process_intent c i)
            (λ r. if same_state r.state degraded then process_intent c r.intent else pure r) s e
          ∙ rw (not_degraded q a) refl,
      a,
      t,
    )

new_validatable : (i : ActionIntent) → is_validatable (new_record i).state ≡ true
unfolding is_validatable same_state new_record
new_validatable i = refl

admitted_stop :
    (g : Ingress) (i : ActionIntent) (sv : Server)
    → is_stop (action_class i sv.runtime) ≡ true
    → submit_admitted g i (new_record i) false sv ≡ submit_stop g i sv
unfolding submit_admitted
admitted_stop g i sv k = ground (arith, k)

-- An intent of the stop class that the process has no record of is answered AUTHORIZED, over whatever link to
-- the store, at whatever time, on whatever context, and whether its target is locked or its id claimed or
-- not.
pub submit_intent-stop :
    (g : Ingress) (i : ActionIntent) (sv : Server)
    → known i.id (expire_seen g.ticks sv.runtime) ≡ none
    → is_stop (action_class i (expire_seen g.ticks sv.runtime)) ≡ true
    → ((q : IntentRecord) × ((submit_intent g i sv).0 ≡ answered q false) × (q.state ≡ authorized))
unfolding submit_intent submit_stop action_class
submit_intent-stop g i sv h k =
    let s = expire_seen g.ticks sv.runtime in
    let rt = admitted g.ticks i s in
    let sv1 = record sv { runtime = rt } in
    let (q, s', e, a, t) =
      validate_now-stop (pass_on g none) i rt (found_registered i s.lifecycle) (new_validatable i)
        k in
    (
      q,
      ap (λ p. p.0)
          (run_ok (admit g.ticks false i) sv (λ (r, dup) sv'. submit_admitted g i r dup sv')
              (new_record i, false) rt (admit_unknown g.ticks i sv.runtime h)
            ∙ admitted_stop g i sv1 k
            ∙ run_ok (validate_now (pass_on g none) i) sv1
                (λ r sv'. (answered r false, record_stop g i r sv')) q s' e),
      a,
    )
