-- ===== src/Runtime/Locks.antt =====
-- The target locks under the reports: a report sets its target free whether or not its own intent
-- holds the lock.
use ld1_execution_gap_xair.Base.{
  true, false, ◌≡◌, ◌≢◌, ◌∙◌, refl, sym, subst, Option, none, some, arith,
}
use ld1_execution_gap_xair.Base.Int.{ℤ}
use ld1_execution_gap_xair.Base.Text.{Text, same_text_iff}
use ld1_execution_gap_xair.Base.Dict.{member-discard}
use ld1_execution_gap_xair.Model.{
  authorized, committed, delayed, revoke, revoked, release, released, Reason, ActionIntent,
  IntentRecord,
}
use ld1_execution_gap_xair.Coordination.{release_target, check_conflict}
use ld1_execution_gap_xair.Lifecycle.{get, admissible}
use ld1_execution_gap_xair.Lifecycle.Steps.{get-advanced}
use ld1_execution_gap_xair.Runtime.State.{XairRuntime, ◌>>◌, find_record, release_lock}
use ld1_execution_gap_xair.Lifecycle.Invariant.{Consistent}
use ld1_execution_gap_xair.Runtime.Reports.{
  supervisory_revoke, report_release, set_release_decision,
}
use ld1_execution_gap_xair.Runtime.Advance.{bind_ok, find_record_lem, closed}
use ld1_execution_gap_xair.Runtime.Gate.{committed_release, called}
use ld1_execution_gap_xair.Runtime.Calls.{revoke_step, revoke_lem}

free_after :
    (i : ActionIntent) (j : ActionIntent) (s : XairRuntime)
    → i.payload.target_entity ≡ j.payload.target_entity
    → check_conflict j (release_target i s.active_targets) ≡ false
unfolding check_conflict release_target
free_after i j s e = ground (
  arith,
  member-discard i.payload.target_entity j.payload.target_entity s.active_targets,
  same_text_iff i.payload.target_entity j.payload.target_entity,
)

-- Revoking a DELAYED intent takes the lock from the authorized intent that it was waiting for: the
-- other intent is still AUTHORIZED and its record untouched, and a third intent on its target no
-- longer meets a conflict.
pub revoke_steals_lock :
    (waiting holding : Text) (why : Reason) (s : XairRuntime) {w h : IntentRecord}
    (third : ActionIntent)
    → waiting ≢ holding
    → get waiting s.lifecycle ≡ some w
    → w.state ≡ delayed
    → get holding s.lifecycle ≡ some h
    → h.state ≡ authorized
    → w.intent.payload.target_entity ≡ h.intent.payload.target_entity
    → third.payload.target_entity ≡ h.intent.payload.target_entity
    → let s' = (supervisory_revoke waiting why s).1 in
      (get holding s'.lifecycle ≡ some h) × (check_conflict third s'.active_targets ≡ false)
unfolding supervisory_revoke admissible revoke_step
revoke_steals_lock waiting holding why s {w} {h} third ne gw dw gh ah same same3 =
    rw
      (bind_ok (find_record waiting)
          (λ r. revoke_step waiting why >> (release_lock r.intent >> find_record waiting)) s
          (find_record_lem waiting s gw)
        ∙ revoke_lem waiting why s w gw (subst (λ x. admissible x revoked ≡ true) (sym dw) refl))
      (
        ground (
          arith,
          get-advanced waiting holding w revoked (some revoke) why none s.lifecycle,
          same_text_iff waiting holding,
        ),
        free_after w.intent third s (same ∙ sym same3),
      )

-- In the atomic mode the target is set free at the commit and once more at the release report: a
-- second intent authorized on it in between is still AUTHORIZED when the report of the first has
-- taken its lock away, and a third intent no longer meets a conflict.
pub release_steals_lock :
    (first second : Text) (why : Reason) (ctx rs : Option ℤ) (s : XairRuntime) {f h : IntentRecord}
    (third : ActionIntent)
    → first ≢ second
    → get first s.lifecycle ≡ some f
    → Consistent f
    → f.state ≡ committed
    → get second s.lifecycle ≡ some h
    → h.state ≡ authorized
    → f.intent.payload.target_entity ≡ h.intent.payload.target_entity
    → third.payload.target_entity ≡ h.intent.payload.target_entity
    → let s' = (report_release first true why ctx rs s).1 in
      (get second s'.lifecycle ≡ some h) × (check_conflict third s'.active_targets ≡ false)
unfolding called closed
release_steals_lock first second why ctx rs s {f} {h} third ne gf cf fc gh ah same same3 =
    rw (committed_release first why ctx rs s gf cf fc) (
      ground (
        arith,
        get-advanced first second (set_release_decision release f) released none why none
            s.lifecycle,
        same_text_iff first second,
      ),
      ground (arith, free_after f.intent third s (same ∙ sym same3)),
    )
