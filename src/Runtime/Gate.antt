-- ===== src/Runtime/Gate.antt =====
-- What the reports do on each branch: the gate at the release of an authorized intent, replays, and
-- reports that are refused.
use ld1_execution_gap_xair.Base.{
  suc, Bool, true, false, ◌≡◌, ◌≢◌, ◌∙◌, refl, sym, ap, subst, Option, none, some, [], ◌∷◌, ◌++◌,
  arith, if◌then◌else◌, ◌||◌, ◌&&◌, Bool-cases, inl, inr,
}
use ld1_execution_gap_xair.Base.Int.{ℤ, eq_ℤ, eq_ℤ_iff}
use ld1_execution_gap_xair.Base.Text.{Text, same_text_refl}
use ld1_execution_gap_xair.Base.Dict.{member, member-discard}
use ld1_execution_gap_xair.Coordination.{release_target}
use ld1_execution_gap_xair.Lifecycle.Invariant.{Consistent}
use ld1_execution_gap_xair.Model.{
  authorized, committed, released, withheld, revoked, release, withhold, Reason,
  read_set_version_changed_at_gate, ActionIntent, IntentRecord, same_state,
}
use ld1_execution_gap_xair.Lifecycle.{Result, ok, err, callback_error, get, moved, admissible}
use ld1_execution_gap_xair.Runtime.State.{
  XairRuntime, Metrics, pure, ◌>>◌, find_record, reject, advance, release_lock, call_back,
}
use ld1_execution_gap_xair.Runtime.Reports.{
  gate_refusal, withhold_found, release_found, settle, report_decided, report_found, report_release,
  set_release_decision, wanted_decision,
}
use ld1_execution_gap_xair.Runtime.Advance.{
  advance_lem, close_lem, closed, bind_ok, find_record_lem, find_advanced,
}

-- the state after a released report: that of `closed`, with the callback made if there is one
unfoldable pub called : ActionIntent → XairRuntime → XairRuntime
called i s = if s.has_callback then record s { actuated = s.actuated ++ i ∷ [] } else s

-- what the caller is given then
unfoldable pub after_callback : ActionIntent → XairRuntime → IntentRecord → Result IntentRecord
after_callback i s r = if s.has_callback && s.callback_raises i then err callback_error else ok r

call_back_lem :
    (i : ActionIntent) (id : Text) (s : XairRuntime) {r : IntentRecord}
    → get id s.lifecycle ≡ some r
    → (call_back i >> find_record id) s ≡ (after_callback i s r, called i s)
unfolding call_back find_record called after_callback
call_back_lem i id s h = ground (arith, h)

abbrev pub count_release : Metrics → Metrics
count_release m = record m { released = suc m.released }

abbrev count_withhold : Metrics → Metrics
count_withhold m = record m { withheld = suc m.withheld }

pub release_lem :
    (r : IntentRecord) (id : Text) (why : Reason) (s : XairRuntime)
    → get id s.lifecycle ≡ some r
    → admissible r.state released ≡ true
    → release_found r id why s ≡ (
      after_callback r.intent s (moved (set_release_decision release r) released none why none),
      called r.intent
          (closed id r.intent (set_release_decision release r) released why count_release s),
    )
unfolding release_found closed release_lock after_callback
release_lem r id why s h a =
    bind_ok (advance id (set_release_decision release) released why count_release)
      (λ _. call_back r.intent >> find_record id) _
      (advance_lem id (set_release_decision release) released why count_release _ h a)
    ∙ call_back_lem r.intent id _
        (find_advanced id (set_release_decision release r) released why s.lifecycle)

authorized_open :
    (r : IntentRecord) (id : Text) (why : Reason) (ctx rs : Option ℤ)
    → r.state ≡ authorized
    → r.release_decision ≡ none
    → report_found r id true why ctx rs ≡ settle r id true why (gate_refusal r true ctx rs)
unfolding report_found report_decided same_state
authorized_open r id why ctx rs e d =
    ap (λ x. report_decided x r id true why ctx rs) d
    ∙ ap
        (λ x.
          if same_state x authorized || same_state r.state committed
          then settle r id true why (gate_refusal r true ctx rs)
          else reject r released why)
        e

refusal_at :
    (r : IntentRecord) (ctx : Option ℤ) (v : ℤ)
    → r.state ≡ authorized
    → gate_refusal r true ctx (some v)
      ≡ (if eq_ℤ v r.read_set_version then none else some read_set_version_changed_at_gate)
unfolding gate_refusal same_state
refusal_at r ctx v e = ground arith

versions_differ : (v w : ℤ) → v ≢ w → eq_ℤ v w ≡ false
versions_differ v w ne = elim (Bool-cases (eq_ℤ v w)) [
  | inl e ↦ absurd (ne ((eq_ℤ_iff v w).0 e))
  | inr e ↦ e
]

no_decision : {r : IntentRecord} → Consistent r → r.state ≡ authorized → r.release_decision ≡ none
no_decision c e = ground arith

-- An authorized intent whose gate saw the version that validation recorded, the callback made once
-- if there is one.
gate_match :
    (id : Text) (why : Reason) (ctx : Option ℤ) (s : XairRuntime) {r : IntentRecord}
    → get id s.lifecycle ≡ some r
    → Consistent r
    → r.state ≡ authorized
    → report_release id true why ctx (some r.read_set_version) s ≡ (
      after_callback r.intent s (moved (set_release_decision release r) released none why none),
      called r.intent
          (closed id r.intent (set_release_decision release r) released why count_release s),
    )
unfolding report_release settle admissible
gate_match id why ctx s {r} h c e =
    bind_ok (find_record id) (λ q. report_found q id true why ctx (some r.read_set_version)) s
      (find_record_lem id s h)
    ∙ ap (λ m. m s) (authorized_open r id why ctx (some r.read_set_version) e (no_decision c e))
    ∙ ap (λ x. settle r id true why x s)
        (refusal_at r ctx r.read_set_version e
          ∙ ap (λ b. if b then none else some read_set_version_changed_at_gate)
              ((eq_ℤ_iff r.read_set_version r.read_set_version).1 refl))
    ∙ release_lem r id why s h (subst (λ x. admissible x released ≡ true) (sym e) refl)

gate_mismatch :
    (id : Text) (why : Reason) (ctx : Option ℤ) (v : ℤ) (s : XairRuntime) {r : IntentRecord}
    → get id s.lifecycle ≡ some r
    → Consistent r
    → r.state ≡ authorized
    → v ≢ r.read_set_version
    → report_release id true why ctx (some v) s ≡ (
      ok (
          moved
            (set_release_decision withhold r)
            withheld
            none
            read_set_version_changed_at_gate
            none),
      closed id r.intent
          (set_release_decision withhold r)
          withheld
          read_set_version_changed_at_gate
          count_withhold
          s,
    )
unfolding report_release settle admissible withhold_found
gate_mismatch id why ctx v s {r} h c e ne =
    bind_ok (find_record id) (λ q. report_found q id true why ctx (some v)) s
      (find_record_lem id s h)
    ∙ ap (λ m. m s) (authorized_open r id why ctx (some v) e (no_decision c e))
    ∙ ap (λ x. settle r id true why x s)
        (refusal_at r ctx v e
          ∙ ap (λ b. if b then none else some read_set_version_changed_at_gate)
              (versions_differ v r.read_set_version ne))
    ∙ close_lem r.intent id (set_release_decision withhold) withheld
        read_set_version_changed_at_gate count_withhold s h
        (subst (λ x. admissible x withheld ≡ true) (sym e) refl)

committed_open :
    (r : IntentRecord) (id : Text) (why : Reason) (ctx rs : Option ℤ)
    → r.state ≡ committed
    → r.release_decision ≡ none
    → report_found r id true why ctx rs ≡ release_found r id why
unfolding report_found report_decided same_state settle gate_refusal
committed_open r id why ctx rs e d =
    ap (λ x. report_decided x r id true why ctx rs) d ∙ ground arith

-- A release reported for a committed intent is recorded whatever versions come with it.
pub committed_release :
    (id : Text) (why : Reason) (ctx rs : Option ℤ) (s : XairRuntime) {r : IntentRecord}
    → get id s.lifecycle ≡ some r
    → Consistent r
    → r.state ≡ committed
    → report_release id true why ctx rs s ≡ (
      after_callback r.intent s (moved (set_release_decision release r) released none why none),
      called r.intent
          (closed id r.intent (set_release_decision release r) released why count_release s),
    )
unfolding report_release admissible
committed_release id why ctx rs s {r} h c e =
    bind_ok (find_record id) (λ q. report_found q id true why ctx rs) s (find_record_lem id s h)
    ∙ ap (λ m. m s) (committed_open r id why ctx rs e (ground (arith, c.decision)))
    ∙ release_lem r id why s h (subst (λ x. admissible x released ≡ true) (sym e) refl)

-- The optimistic gate, when the version that the gateway observed is the recorded one: the callback is made
-- once if there is one, and the target is free. The answer is the RELEASED record, unless the callback
-- raises: its exception then reaches the caller, with the record RELEASED all the same.
pub gate_releases :
    (id : Text) (why : Reason) (ctx : Option ℤ) (s : XairRuntime) {r : IntentRecord}
    → get id s.lifecycle ≡ some r
    → Consistent r
    → r.state ≡ authorized
    → let (res, s') = report_release id true why ctx (some r.read_set_version) s in
      let q = moved (set_release_decision release r) released none why none in
      (res ≡ (if s.has_callback && s.callback_raises r.intent then err callback_error else ok q))
      × (get id s'.lifecycle ≡ some q)
      × (s'.actuated ≡ (if s.has_callback then s.actuated ++ r.intent ∷ [] else s.actuated))
      × (member r.intent.payload.target_entity s'.active_targets ≡ false)
unfolding called closed release_target after_callback
gate_releases id why ctx s {r} h c e = rw (gate_match id why ctx s h c e) (
  refl,
  ground (arith, find_advanced id (set_release_decision release r) released why s.lifecycle),
  ground arith,
  ground (
    arith,
    member-discard r.intent.payload.target_entity r.intent.payload.target_entity s.active_targets,
    same_text_refl r.intent.payload.target_entity,
  ),
)

-- The optimistic gate, when the observed read-set version is another than the recorded one,
-- whatever global version comes with it: the reported release becomes WITHHELD, no callback is
-- made, and the target is free.
pub gate_withholds :
    (id : Text) (why : Reason) (ctx : Option ℤ) (v : ℤ) (s : XairRuntime) {r : IntentRecord}
    → get id s.lifecycle ≡ some r
    → Consistent r
    → r.state ≡ authorized
    → v ≢ r.read_set_version
    → let (res, s') = report_release id true why ctx (some v) s in
      (res
        ≡ ok (
            moved
              (set_release_decision withhold r)
              withheld
              none
              read_set_version_changed_at_gate
              none))
      × (s'.actuated ≡ s.actuated)
      × (member r.intent.payload.target_entity s'.active_targets ≡ false)
unfolding closed release_target
gate_withholds id why ctx v s {r} h c e ne = rw (gate_mismatch id why ctx v s h c e ne) (
  refl,
  refl,
  ground (
    arith,
    member-discard r.intent.payload.target_entity r.intent.payload.target_entity s.active_targets,
    same_text_refl r.intent.payload.target_entity,
  ),
)

if_same {ℓ} : {A : Type ℓ} (b : Bool) (a : A) → (if b then a else a) ≡ a
if_same true a = refl
if_same false a = refl

-- A release report that repeats the decision taken returns the record and changes nothing.
pub release_replay :
    (id : Text) (c : Bool) (why : Reason) (ctx rs : Option ℤ) (s : XairRuntime) {r : IntentRecord}
    → get id s.lifecycle ≡ some r
    → r.release_decision ≡ some (wanted_decision c)
    → report_release id c why ctx rs s ≡ (ok r, s)
unfolding report_release report_found report_decided
release_replay id true why ctx rs s {r} h d =
    bind_ok (find_record id) (λ q. report_found q id true why ctx rs) s (find_record_lem id s h)
    ∙ ap (λ x. report_decided x r id true why ctx rs s) d
release_replay id false why ctx rs s {r} h d =
    bind_ok (find_record id) (λ q. report_found q id false why ctx rs) s (find_record_lem id s h)
    ∙ ap
        (λ x.
          (if same_state r.state revoked then pure r else report_decided x r id false why ctx rs) s)
        d
    ∙ ap (λ m. m s) (if_same (same_state r.state revoked) (pure r))
