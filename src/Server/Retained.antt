-- ===== src/Server/Retained.antt =====
-- An id that another process admitted before.
use ld1_execution_gap_xair.Base.{ℕ, suc, ◌≡◌, refl, ap, ◌∙◌, false, none, some, arith}
use ld1_execution_gap_xair.Base.Text.{Text, txt, same_text_refl}
use ld1_execution_gap_xair.Base.Dict.{insert}
use ld1_execution_gap_xair.Model.{ActionIntent, revoked, revoke, reported, new_record}
use ld1_execution_gap_xair.Lifecycle.{LifecycleTracker, get, ok, err, moved, register, admissible}
use ld1_execution_gap_xair.Lifecycle.Invariant.{get-register}
use ld1_execution_gap_xair.Lifecycle.Steps.{get-advanced, advanced}
use ld1_execution_gap_xair.Runtime.State.{XairRuntime, Action, transition_to, bump, bind_result}
use ld1_execution_gap_xair.Runtime.Advance.{find_record_lem, transition_found}
use ld1_execution_gap_xair.Runtime.Admission.{
  action_class, expire_seen, known, admit, admit_known, admit_new, register_intent,
}
use ld1_execution_gap_xair.Runtime.Validation.{is_stop}
use ld1_execution_gap_xair.Server.Endpoints.{Server}
use ld1_execution_gap_xair.Server.Submission.{
  Ingress, Answer, rejected, broken, run, claim_intent, submit_intent, submit_admitted, refuse,
}

-- the runtime after the admission of an intent that it does not know
abbrev pub admitted : ℕ → ActionIntent → XairRuntime → XairRuntime
admitted clock i s = record s {
  seen = insert i.id clock s.seen;
  metrics = record s.metrics { intents_received = suc s.metrics.intents_received };
  lifecycle = register i s.lifecycle;
}

pub found_registered :
    (i : ActionIntent) (l : LifecycleTracker) → get i.id (register i l) ≡ some (new_record i)
found_registered i l = rw (get-register i i.id l, same_text_refl i.id) refl

admit_new_lem :
    (clock : ℕ) (i : ActionIntent) (s : XairRuntime)
    → admit_new clock false i s ≡ (ok (new_record i, false), admitted clock i s)
unfolding admit_new register_intent bump
admit_new_lem clock i s =
    ap (λ p. bind_result p (λ r s'. (ok (r, false), s')))
      (find_record_lem i.id (admitted clock i s) (found_registered i s.lifecycle))

pub admit_unknown :
    (clock : ℕ) (i : ActionIntent) (s : XairRuntime)
    → known i.id (expire_seen clock s) ≡ none
    → admit clock false i s ≡ (ok (new_record i, false), admitted clock i (expire_seen clock s))
unfolding admit admit_known
admit_unknown clock i s h =
    ap (λ x. admit_known clock false i x (expire_seen clock s)) h
    ∙ admit_new_lem clock i (expire_seen clock s)

abbrev pub after_restart : Text
after_restart = txt "duplicate_after_restart"

refuse_created :
    (i : ActionIntent) (sv : Server)
    → get i.id sv.runtime.lifecycle ≡ some (new_record i)
    → refuse after_restart i.id sv ≡ (
      rejected after_restart,
      record sv {
        runtime = record sv.runtime {
          lifecycle =
              advanced i.id
                (new_record i)
                revoked
                (some revoke)
                (reported after_restart)
                none
                sv.runtime.lifecycle;
        };
      },
    )
unfolding refuse transition_to admissible new_record
refuse_created i sv h = ground (
  arith,
  transition_found i.id revoked (some revoke) (reported after_restart) none sv.runtime.lifecycle
      (new_record i) h refl,
)

unclaimed :
    (g : Ingress) (i : ActionIntent) (sv : Server)
    → is_stop (action_class i sv.runtime) ≡ false
    → (claim_intent g.link i.id sv.claimed).0 ≡ false
    → submit_admitted g i (new_record i) false sv
      ≡ refuse after_restart i.id (record sv { claimed = (claim_intent g.link i.id sv.claimed).1 })
unfolding submit_admitted
unclaimed g i sv n c = ground (arith, n, c)

pub run_ok :
    {A : Type 0} (m : Action A) (sv : Server) (next : A → Server → Answer × Server) (a : A)
    (rt : XairRuntime)
    → m sv.runtime ≡ (ok a, rt)
    → run m sv next ≡ next a (record sv { runtime = rt })
run_ok m sv next a rt h =
    ap
      (λ p. elim p.0 [
        | ok b ↦ next b (record sv { runtime = p.1 })
        | err e ↦ (broken, record sv { runtime = p.1 })
      ])
      h

submit_unclaimed :
    (g : Ingress) (i : ActionIntent) (sv : Server)
    → known i.id (expire_seen g.ticks sv.runtime) ≡ none
    → is_stop (action_class i (expire_seen g.ticks sv.runtime)) ≡ false
    → (claim_intent g.link i.id sv.claimed).0 ≡ false
    → submit_intent g i sv
      ≡ refuse after_restart i.id (record sv {
        runtime = admitted g.ticks i (expire_seen g.ticks sv.runtime);
        claimed = (claim_intent g.link i.id sv.claimed).1;
      })
unfolding submit_intent action_class
submit_unclaimed g i sv h n c =
    let rt = admitted g.ticks i (expire_seen g.ticks sv.runtime) in
    run_ok (admit g.ticks false i) sv (λ (r, dup) sv'. submit_admitted g i r dup sv')
      (new_record i, false) rt (admit_unknown g.ticks i sv.runtime h)
    ∙ unclaimed g i (record sv { runtime = rt }) n c

-- An intent that is no stop and that this process has no record of, but whose id is claimed in Redis or
-- cannot be claimed, is REVOKED without a validation: its record was new, no target is locked and nothing
-- handed to the actuators, and the document and the log of the store stay as they are.
pub submit_intent-unclaimed :
    (g : Ingress) (i : ActionIntent) (sv : Server)
    → known i.id (expire_seen g.ticks sv.runtime) ≡ none
    → is_stop (action_class i (expire_seen g.ticks sv.runtime)) ≡ false
    → (claim_intent g.link i.id sv.claimed).0 ≡ false
    → let (x, sv') = submit_intent g i sv in
      let s = expire_seen g.ticks sv.runtime in
      (x ≡ rejected after_restart)
      × (get i.id sv'.runtime.lifecycle
          ≡ some (moved (new_record i) revoked (some revoke) (reported after_restart) none))
      × (sv'.runtime.active_targets ≡ s.active_targets)
      × (sv'.runtime.actuated ≡ s.actuated)
      × (sv'.store ≡ sv.store)
submit_intent-unclaimed g i sv h n c =
    let s = expire_seen g.ticks sv.runtime in
    let sv2 = record sv {
      runtime = admitted g.ticks i s;
      claimed = (claim_intent g.link i.id sv.claimed).1;
    } in
    rw (submit_unclaimed g i sv h n c ∙ refuse_created i sv2 (found_registered i s.lifecycle)) (
      refl,
      get-advanced i.id i.id (new_record i) revoked (some revoke) (reported after_restart) none
            (register i s.lifecycle)
          ∙ rw (same_text_refl i.id) refl,
      refl,
      refl,
      refl,
    )
