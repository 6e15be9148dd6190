-- ===== src/Lifecycle/Invariant.antt =====
-- What holds of every record in every state that the tracker reaches.
use ld1_execution_gap_xair.Base.{
  ℕ, Bool, true, false, ◌≡◌, Option, none, some, arith, if◌then◌else◌,
}
use ld1_execution_gap_xair.Base.Text.{Text, same_text, same_text_iff}
use ld1_execution_gap_xair.Base.Dict.{insert, lookup-insert, lookup-erase}
use ld1_execution_gap_xair.Model.{
  IntentState, created, pending, validating, authorized, delayed, degraded, revoked, expired,
  committed, released, withheld, effect_confirmed, unknown_effect, ReleaseDecision, release,
  withhold, EffectStatus, confirmed, unknown, DecisionOutcome, execute, Reason, ActionIntent,
  IntentRecord, new_record,
}
use ld1_execution_gap_xair.Lifecycle.{
  LifecycleTracker, get, register, forget, note, moved, admissible,
}
use ld1_execution_gap_xair.Lifecycle.Steps.{
  Step, registers, forgets, edits, Kept, notes, moves, Reach, here, next, Written, OutcomeFor,
  get-advanced,
}

-- The release decision and the effect status that a state stands for.
abbrev pub decision_of : IntentState → Option ReleaseDecision
decision_of released = some release
decision_of effect_confirmed = some release
decision_of IntentState.failed = some release
decision_of unknown_effect = some release
decision_of withheld = some withhold
decision_of _ = none

abbrev pub effect_of : IntentState → Option EffectStatus
effect_of effect_confirmed = some confirmed
effect_of IntentState.failed = some EffectStatus.failed
effect_of unknown_effect = some unknown
effect_of _ = none

-- the states of an intent that was authorized and has not been revoked since
abbrev pub is_granted : IntentState → Bool
is_granted authorized = true
is_granted committed = true
is_granted released = true
is_granted withheld = true
is_granted effect_confirmed = true
is_granted IntentState.failed = true
is_granted unknown_effect = true
is_granted _ = false

-- states in which no commit can have taken place
abbrev pub is_uncommitted : IntentState → Bool
is_uncommitted created = true
is_uncommitted pending = true
is_uncommitted validating = true
is_uncommitted authorized = true
is_uncommitted delayed = true
is_uncommitted degraded = true
is_uncommitted revoked = true
is_uncommitted expired = true
is_uncommitted _ = false

pub record Consistent (r : IntentRecord) : Type 0 where
  pub decision : r.release_decision ≡ decision_of r.state
  pub effect : r.effect_status ≡ effect_of r.state
  pub granted : is_granted r.state ≡ true → r.outcome ≡ some execute
  pub seq : is_uncommitted r.state ≡ true → r.commit_seq ≡ none

abbrev pub AllConsistent : LifecycleTracker → Type 0
AllConsistent l =
    (id : Text) (r : IntentRecord) → get id l ≡ some r → Consistent r × (r.intent.id ≡ id)

new_record-Consistent : (i : ActionIntent) → Consistent (new_record i)
unfolding new_record
new_record-Consistent i = ground arith

moved-Consistent :
    (r r' : IntentRecord) (t : IntentState) (o : Option DecisionOutcome) (why : Reason)
    (n : Option ℕ)
    → Consistent r
    → Written r r' t
    → OutcomeFor t o
    → admissible r.state t ≡ true
    → Consistent (moved r' t o why n)
unfolding moved admissible
moved-Consistent r r' t o why n c w f a = ground arith

pub get-register :
    (i : ActionIntent) (j : Text) (l : LifecycleTracker)
    → get j (register i l) ≡ (if same_text i.id j then some (new_record i) else get j l)
unfolding get register
get-register i j l = lookup-insert i.id j (new_record i) l.records

pub get-forget :
    (id j : Text) (l : LifecycleTracker)
    → get j (forget id l) ≡ (if same_text id j then none else get j l)
unfolding get forget
get-forget id j l = lookup-erase id j l.records

pub get-edited :
    (id j : Text) (r : IntentRecord) (l : LifecycleTracker)
    → get j (record l { records = insert id r l.records })
      ≡ (if same_text id j then some r else get j l)
unfolding get
get-edited id j r l = lookup-insert id j r l.records

Kept-Consistent : (id : Text) (r r' : IntentRecord) → Kept id r r' → Consistent r → Consistent r'
Kept-Consistent id r r' k c = record {
  decision = ground (arith, c.decision, k.decision, k.same_state);
  effect = ground (arith, c.effect, k.effect, k.same_state);
  granted = λ g. ground (arith, c.granted, k.same_outcome, k.same_state);
  seq = λ g. ground (arith, c.seq, k.seq, k.same_state);
}

pub get-note : (id j : Text) (why : Reason) (l : LifecycleTracker) → get j (note id why l) ≡ get j l
unfolding get note
get-note id j why l = ground arith

pub Step-AllConsistent : {l l' : LifecycleTracker} → Step l l' → AllConsistent l → AllConsistent l'
unfolding new_record moved
Step-AllConsistent {l} (registers i e) h id r g =
    ground (arith, get-register i id l, same_text_iff i.id id, h id r, new_record-Consistent i)
Step-AllConsistent {l} (forgets k q found s e) h id r g = ground (arith, get-forget k id l, h id r)
Step-AllConsistent {l} (edits k q q' found kept e) h id r g = ground (
  arith,
  get-edited k id q' l,
  same_text_iff k id,
  h id r,
  h k q found,
  kept.known_id,
  Kept-Consistent k q q' kept (h k q found).0,
)
Step-AllConsistent {l} (notes k why e) h id r g = ground (arith, get-note k id why l, h id r)
Step-AllConsistent {l} (moves k q q' t o why n found w f a e) h id r g = ground (
  arith,
  get-advanced k id q' t o why n l,
  same_text_iff k id,
  h id r,
  h k q found,
  moved-Consistent q q' t o why n (h k q found).0 w f a,
)

pub Reach-AllConsistent :
    {l l' : LifecycleTracker} → AllConsistent l → Reach l l' → AllConsistent l'
Reach-AllConsistent h here = h
Reach-AllConsistent h (next p st) = Step-AllConsistent st (Reach-AllConsistent h p)
