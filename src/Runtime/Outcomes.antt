-- ===== src/Runtime/Outcomes.antt =====
-- The reports as steps of the lifecycle: whatever they are given, they do to the tracker only what
-- its step relation allows.
use ld1_execution_gap_xair.Base.{
  ℕ, Bool, true, false, ◌≡◌, ◌∙◌, refl, sym, ap, subst, Option, none, some, arith, if◌then◌else◌,
  ◌||◌,
}
use ld1_execution_gap_xair.Base.Int.{ℤ}
use ld1_execution_gap_xair.Base.Text.{Text}
use ld1_execution_gap_xair.Model.{
  IntentState, authorized, committed, released, withheld, ReleaseDecision, release, withhold,
  EffectStatus, confirmed, unknown, Reason, ActionIntent, IntentRecord, same_state, same_state→eq,
}
use ld1_execution_gap_xair.Lifecycle.{LifecycleTracker, Result, get, admissible}
use ld1_execution_gap_xair.Lifecycle.Steps.{
  Step, notes, moves, Reach, here, Reach-one, Written, OutcomeFor,
}
use ld1_execution_gap_xair.Runtime.State.{
  XairRuntime, Metrics, Action, pure, ◌>>◌, find_record, reject, advance, release_lock, call_back,
}
use ld1_execution_gap_xair.Runtime.Reports.{
  commit_found, withhold_found, release_found, settle, report_decided, report_found, effect_found,
  effect_target, set_commit_seq, set_release_decision, set_effect,
}
use ld1_execution_gap_xair.Runtime.Advance.{advance_lem, bind_ok}

-- the tracker of the state that a call leaves
abbrev pub tracker_after : {A : Type 0} → Result A × XairRuntime → LifecycleTracker
tracker_after p = p.1.lifecycle

-- A call that finds the record `r` of `id` takes the tracker only where its steps lead.
pub record Does {A : Type 0} (id : Text) (r : IntentRecord) (m : Action A) : Type 0 where
  pub at : (s : XairRuntime) → get id s.lifecycle ≡ some r → Reach s.lifecycle (tracker_after (m s))

module _ {A : Type 0} (id : Text) (r : IntentRecord) where
  Does-pure : (a : A) → Does id r (pure a)
  Does-pure a = record { at = λ s h. here }

  Does-reject : (t : IntentState) (why : Reason) → Does {A = A} id r (reject r t why)
  unfolding reject
  Does-reject t why = record { at = λ s h. Reach-one (notes r.intent.id _ refl) }

  Does-if :
      (b : Bool) (m n : Action A)
      → (b ≡ true → Does id r m)
      → (b ≡ false → Does id r n)
      → Does id r (if b then m else n)
  Does-if true m n dm dn = dm refl
  Does-if false m n dm dn = dn refl

-- a call that leaves the tracker as it is
abbrev pub LeavesTracker : {A : Type 0} → Action A → Type 0
LeavesTracker m = (s : XairRuntime) → tracker_after (m s) ≡ s.lifecycle

pub find_record-leaves : (id : Text) → LeavesTracker (find_record id)
unfolding find_record
find_record-leaves id s = ground arith

call_back-leaves : (i : ActionIntent) (id : Text) → LeavesTracker (call_back i >> find_record id)
unfolding find_record call_back
call_back-leaves i id s = ground arith

advance-Step :
    {A : Type 0} (id : Text) (f : IntentRecord → IntentRecord) (t : IntentState) (why : Reason)
    (count : Metrics → Metrics) (rest : Action A) (s : XairRuntime) {r : IntentRecord}
    → LeavesTracker rest
    → get id s.lifecycle ≡ some r
    → Written r (f r) t
    → OutcomeFor t none
    → admissible r.state t ≡ true
    → Step s.lifecycle (tracker_after ((advance id f t why count >> rest) s))
advance-Step id f t why count rest s {r} k h w o a = moves id r (f r) t none why none h w o a (
    ap tracker_after (
      bind_ok (advance id f t why count) (λ _. rest) s
        (advance_lem id f t why count s h (rw (w.same_state) a)))
    ∙ k _)

Does-close :
    {A : Type 0} (id : Text) (r : IntentRecord) (f : IntentRecord → IntentRecord) (t : IntentState)
    (why : Reason) (count : Metrics → Metrics) (rest : Action A)
    → LeavesTracker rest
    → Written r (f r) t
    → OutcomeFor t none
    → admissible r.state t ≡ true
    → Does id r (release_lock r.intent >> (advance id f t why count >> rest))
unfolding release_lock
Does-close id r f t why count rest k w o a = record {
  at = λ s h. Reach-one (advance-Step id f t why count rest _ k h w o a);
}

pub from_state :
    (r : IntentRecord) (t u : IntentState)
    → same_state r.state t ≡ true
    → admissible t u ≡ true
    → admissible r.state u ≡ true
from_state r t u e a = subst (λ x. admissible x u ≡ true) (sym (same_state→eq r.state t e)) a

-- The assignments before each move are those that the step relation asks for.
Written-set_commit_seq :
    (r : IntentRecord) (seq : Option ℕ) → Written r (set_commit_seq seq r) committed
Written-set_commit_seq r seq = ground arith

Written-withhold : (r : IntentRecord) → Written r (set_release_decision withhold r) withheld
Written-withhold r = ground arith

Written-release : (r : IntentRecord) → Written r (set_release_decision release r) released
Written-release r = ground arith

Written-set_effect :
    (r : IntentRecord) (status : EffectStatus) (detail : Option Text)
    → Written r (set_effect status detail r) (effect_target status)
Written-set_effect r status detail = ground arith

Does-committed :
    (id : Text) (r : IntentRecord) (why : Reason) (seq : Option ℕ) (count : Metrics → Metrics)
    → same_state r.state authorized ≡ true
    → Does id r (
        release_lock r.intent
        >> (advance id (set_commit_seq seq) committed why count >> find_record id))
unfolding admissible
Does-committed id r why seq count e =
    Does-close id r (set_commit_seq seq) committed why count (find_record id)
      (find_record-leaves id) (Written-set_commit_seq r seq) refl
      (from_state r authorized committed e refl)

Does-withheld :
    (id : Text) (r : IntentRecord) (why : Reason) (count : Metrics → Metrics)
    → admissible r.state withheld ≡ true
    → Does id r (
        release_lock r.intent
        >> (advance id (set_release_decision withhold) withheld why count >> find_record id))
Does-withheld id r why count a =
    Does-close id r (set_release_decision withhold) withheld why count (find_record id)
      (find_record-leaves id) (Written-withhold r) refl a

authorized→withheld :
    (r : IntentRecord) → same_state r.state authorized ≡ true → admissible r.state withheld ≡ true
unfolding admissible
authorized→withheld r e = from_state r authorized withheld e refl

pub Does-commit :
    (id : Text) (r : IntentRecord) (c : Bool) (why : Reason) (seq : Option ℕ)
    → Does id r (commit_found r id c why seq)
unfolding commit_found
Does-commit id r true why seq = search (Does-if, Does-pure, Does-reject, Does-committed)
Does-commit id r false why seq =
    search (Does-if, Does-pure, Does-reject, Does-withheld, authorized→withheld)

-- a state from which a release can be reported
abbrev pub is_open : IntentRecord → Bool
is_open r = same_state r.state authorized || same_state r.state committed

pub open_admits :
    (r : IntentRecord)
    → is_open r ≡ true
    → (admissible r.state released ≡ true) × (admissible r.state withheld ≡ true)
unfolding admissible same_state
open_admits r h = ground arith

Does-withhold :
    (id : Text) (r : IntentRecord) (why : Reason)
    → is_open r ≡ true
    → Does id r (withhold_found r id why)
unfolding withhold_found
Does-withhold id r why h = Does-withheld id r why _ (open_admits r h).1

Does-release :
    (id : Text) (r : IntentRecord) (why : Reason)
    → is_open r ≡ true
    → Does id r (release_found r id why)
unfolding release_found
Does-release id r why h =
    Does-close id r (set_release_decision release) released why _
      (call_back r.intent >> find_record id) (call_back-leaves r.intent id) (Written-release r) refl
      (open_admits r h).0

Does-settle :
    (id : Text) (r : IntentRecord) (c : Bool) (why : Reason) (refusal : Option Reason)
    → is_open r ≡ true
    → Does id r (settle r id c why refusal)
unfolding settle
Does-settle id r true why none h = Does-release id r why h
Does-settle id r false why none h = Does-withhold id r why h
Does-settle id r true why (some e) h = Does-withhold id r e h
Does-settle id r false why (some e) h = Does-withhold id r e h

Does-decided :
    (id : Text) (r : IntentRecord) (d : Option ReleaseDecision) (c : Bool) (why : Reason)
    (ctx rs : Option ℤ)
    → Does id r (report_decided d r id c why ctx rs)
unfolding report_decided
Does-decided id r (some d) c why ctx rs = search (Does-if, Does-pure, Does-reject)
Does-decided id r none c why ctx rs = search (Does-if, Does-reject, Does-settle)

pub Does-report :
    (id : Text) (r : IntentRecord) (c : Bool) (why : Reason) (ctx rs : Option ℤ)
    → Does id r (report_found r id c why ctx rs)
unfolding report_found
Does-report id r c why ctx rs = search (Does-if, Does-pure, Does-decided)

OutcomeFor-effect : (status : EffectStatus) → OutcomeFor (effect_target status) none
OutcomeFor-effect confirmed = refl
OutcomeFor-effect EffectStatus.failed = refl
OutcomeFor-effect unknown = refl

Does-move_effect :
    (id : Text) (r : IntentRecord) (status : EffectStatus) (detail : Option Text) (why : Reason)
    (count : Metrics → Metrics)
    → admissible r.state (effect_target status) ≡ true
    → Does id r
        (advance id (set_effect status detail) (effect_target status) why count >> find_record id)
Does-move_effect id r status detail why count a = record {
  at = λ s h. Reach-one (
      advance-Step id (set_effect status detail) (effect_target status) why count (find_record id) s
        (find_record-leaves id) h (Written-set_effect r status detail) (OutcomeFor-effect status)
        a);
}

pub Does-effect :
    (id : Text) (r : IntentRecord) (status : EffectStatus) (detail : Option Text)
    → Does id r (effect_found r id status detail)
unfolding effect_found
Does-effect id r status detail = search (Does-if, Does-pure, Does-reject, Does-move_effect)
