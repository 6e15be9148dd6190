-- ===== src/Lifecycle/Steps.antt =====
-- The lifecycle tracker as a step relation: what any method of the runtime may do to it.
use ld1_execution_gap_xair.Base.{◌⊎◌, ℕ, true, ◌≡◌, Option, none, some, arith, if◌then◌else◌}
use ld1_execution_gap_xair.Base.Text.{Text, same_text}
use ld1_execution_gap_xair.Base.Dict.{insert, lookup-insert}
use ld1_execution_gap_xair.Model.{
  IntentState, authorized, committed, released, withheld, effect_confirmed, unknown_effect,
  ReleaseDecision, release, withhold, EffectStatus, confirmed, unknown, DecisionOutcome, execute,
  Reason, ActionIntent, IntentRecord,
}
use ld1_execution_gap_xair.Lifecycle.{
  LifecycleTracker, get, register, forget, note, moved, admissible, is_settled, log_entry,
}

-- What is written into a record before it moves to a state: a release decision goes with a release
-- or a withholding, an effect status with an effect, a position in the log with a commit.
abbrev pub decision_at : IntentState → Option ReleaseDecision → Option ReleaseDecision
decision_at released old = some release
decision_at withheld old = some withhold
decision_at _ old = old

abbrev pub effect_at : IntentState → Option EffectStatus → Option EffectStatus
effect_at effect_confirmed old = some confirmed
effect_at IntentState.failed old = some EffectStatus.failed
effect_at unknown_effect old = some unknown
effect_at _ old = old

abbrev pub SeqAt : IntentState → Option ℕ → Option ℕ → Type 0
SeqAt committed old new = Unit
SeqAt _ old new = new ≡ old

pub record Written (r r' : IntentRecord) (t : IntentState) : Type 0 where
  pub same_id : r'.intent.id ≡ r.intent.id
  pub same_state : r'.state ≡ r.state
  pub same_outcome : r'.outcome ≡ r.outcome
  pub decision : r'.release_decision ≡ decision_at t r.release_decision
  pub effect : r'.effect_status ≡ effect_at t r.effect_status
  pub seq : SeqAt t r.commit_seq r'.commit_seq

-- The outcome that a move records: EXECUTE with an authorization, none after it.
abbrev pub OutcomeFor : IntentState → Option DecisionOutcome → Type 0
OutcomeFor authorized o = o ≡ some execute
OutcomeFor committed o = o ≡ none
OutcomeFor released o = o ≡ none
OutcomeFor withheld o = o ≡ none
OutcomeFor effect_confirmed o = o ≡ none
OutcomeFor IntentState.failed o = o ≡ none
OutcomeFor unknown_effect o = o ≡ none
OutcomeFor _ o = Unit

-- the tracker after a record was edited and moved
unfoldable pub advanced :
    Text
    → IntentRecord
    → IntentState
    → Option DecisionOutcome
    → Reason
    → Option ℕ
    → LifecycleTracker
    → LifecycleTracker
advanced id r t outcome why latency l =
    log_entry id t why outcome
      (record l { records = insert id (moved r t outcome why latency) (insert id r l.records) })

pub get-advanced :
    (id j : Text) (r : IntentRecord) (t : IntentState) (o : Option DecisionOutcome) (why : Reason)
    (n : Option ℕ) (l : LifecycleTracker)
    → get j (advanced id r t o why n l)
      ≡ (if same_text id j then some (moved r t o why n) else get j l)
unfolding get advanced log_entry
get-advanced id j r t o why n l = ground (
  arith,
  lookup-insert id j (moved r t o why n) (insert id r l.records),
  lookup-insert id j r l.records,
)

-- what a validation writes into the record under an id: not its state, nor what the reports write
pub record Kept (id : Text) (r r' : IntentRecord) : Type 0 where
  pub known_id : (r'.intent.id ≡ r.intent.id) ⊎ (r'.intent.id ≡ id)
  pub same_state : r'.state ≡ r.state
  pub same_outcome : r'.outcome ≡ r.outcome
  pub decision : r'.release_decision ≡ r.release_decision
  pub effect : r'.effect_status ≡ r.effect_status
  pub seq : r'.commit_seq ≡ r.commit_seq

pub data Step (l l' : LifecycleTracker) : Type 0 where
  registers : (i : ActionIntent) → l' ≡ register i l → Step l l'
  forgets :
      (id : Text) (r : IntentRecord)
      → get id l ≡ some r
      → is_settled r.state ≡ true
      → l' ≡ forget id l
      → Step l l'
  edits :
      (id : Text) (r r' : IntentRecord)
      → get id l ≡ some r
      → Kept id r r'
      → l' ≡ record l { records = insert id r' l.records }
      → Step l l'
  notes : (id : Text) (why : Reason) → l' ≡ note id why l → Step l l'
  moves :
      (id : Text) (r r' : IntentRecord) (t : IntentState) (o : Option DecisionOutcome)
      (why : Reason) (n : Option ℕ)
      → get id l ≡ some r
      → Written r r' t
      → OutcomeFor t o
      → admissible r.state t ≡ true
      → l' ≡ advanced id r' t o why n l
      → Step l l'

pub data Reach (l : LifecycleTracker) : LifecycleTracker → Type 0 where
  here : Reach l l
  next : {m n : LifecycleTracker} → Reach l m → Step m n → Reach l n

pub Reach-trans : {l m n : LifecycleTracker} → Reach l m → Reach m n → Reach l n
Reach-trans p here = p
Reach-trans p (next q st) = next (Reach-trans p q) st

pub Reach-one : {l m : LifecycleTracker} → Step l m → Reach l m
Reach-one st = next here st
