-- ===== src/Lifecycle.antt =====
-- xair/core/lifecycle.py: the transition table, and the tracker with its audit trail.
-- The time stamp of an audit entry is not modelled.
pub mod Graph
pub mod Steps
pub mod Invariant
pub mod Audit
use ld1_execution_gap_xair.Base.{
  ℕ, ◌≡◌, Bool, true, false, ◌&&◌, ◌||◌, Option, none, some, List, [], ◌∷◌, ◌++◌, if◌then◌else◌,
  is_some,
}
use ld1_execution_gap_xair.Base.Text.{Text}
use ld1_execution_gap_xair.Base.Dict.{Dict, lookup, insert, erase}
use ld1_execution_gap_xair.Model.{
  IntentState, created, pending, validating, authorized, delayed, degraded, revoked, expired,
  committed, released, withheld, effect_confirmed, failed, unknown_effect, DecisionOutcome, Reason,
  no_reason, ActionIntent, IntentRecord, new_record, same_state,
}

-- `ALLOWED_TRANSITIONS`
unfoldable pub allowed : IntentState → List IntentState
allowed created = pending ∷ revoked ∷ []
allowed pending = validating ∷ revoked ∷ []
allowed validating = authorized ∷ delayed ∷ degraded ∷ revoked ∷ expired ∷ []
allowed delayed = pending ∷ revoked ∷ expired ∷ []
allowed degraded = pending ∷ revoked ∷ expired ∷ []
allowed authorized = committed ∷ released ∷ withheld ∷ revoked ∷ []
allowed committed = released ∷ withheld ∷ []
allowed released = effect_confirmed ∷ IntentState.failed ∷ unknown_effect ∷ []
allowed unknown_effect = effect_confirmed ∷ IntentState.failed ∷ []
allowed withheld = []
allowed effect_confirmed = []
allowed IntentState.failed = []
allowed revoked = []
allowed expired = []

unfoldable pub contains_state : IntentState → List IntentState → Bool
contains_state s [] = false
contains_state s (t ∷ ts) = same_state s t || contains_state s ts

-- `new_state in ALLOWED_TRANSITIONS[state]`
unfoldable pub admissible : IntentState → IntentState → Bool
unfolding allowed contains_state same_state
admissible s t = contains_state t (allowed s)

abbrev is_empty : List IntentState → Bool
is_empty [] = true
is_empty (_ ∷ _) = false

-- `s in TERMINAL_STATES`
unfoldable pub is_terminal : IntentState → Bool
unfolding allowed
is_terminal s = is_empty (allowed s)

-- `s in SETTLED_STATES`
unfoldable pub is_settled : IntentState → Bool
unfolding is_terminal same_state
is_settled s = is_terminal s || same_state s unknown_effect

-- `s in RELEASED_STATES`
unfoldable pub is_released : IntentState → Bool
is_released released = true
is_released effect_confirmed = true
is_released IntentState.failed = true
is_released unknown_effect = true
is_released _ = false

pub data Error : Type 0 where
  key_error : Text → Error
  invalid_transition : Text → IntentState → IntentState → Error
  value_error : Error
  callback_error : Error

pub data Result {ℓ} (A : Type ℓ) : Type ℓ where
  ok : A → Result A
  err : Error → Result A

pub record AuditEntry : Type 0 where
  pub intent_id : Text
  pub state : IntentState
  pub outcome : Option DecisionOutcome
  pub reason : Reason

pub record LifecycleTracker : Type 0 where
  pub records : Dict IntentRecord
  pub audit : List AuditEntry

-- `_log`; the newest entry stands last
unfoldable pub log_entry :
    Text → IntentState → Reason → Option DecisionOutcome → LifecycleTracker → LifecycleTracker
log_entry id s reason outcome l = record l {
  audit =
      l.audit ++ (record { intent_id = id; state = s; outcome = outcome; reason = reason }) ∷ [];
}

unfoldable pub register : ActionIntent → LifecycleTracker → LifecycleTracker
unfolding log_entry
register i l =
    log_entry i.id created no_reason none
      (record l { records = insert i.id (new_record i) l.records })

unfoldable pub get : Text → LifecycleTracker → Option IntentRecord
get id l = lookup id l.records

unfoldable pub forget : Text → LifecycleTracker → LifecycleTracker
forget id l = record l { records = erase id l.records }

-- the fields that a transition writes
abbrev keep_or {ℓ} : {A : Type ℓ} → Option A → Option A → Option A
keep_or none old = old
keep_or (some a) old = some a

abbrev latency_or : Option ℕ → ℕ → ℕ
latency_or none old = old
latency_or (some n) old = n

unfoldable pub moved :
    IntentRecord → IntentState → Option DecisionOutcome → Reason → Option ℕ → IntentRecord
moved r s outcome reason latency = record r {
  state = s;
  outcome = keep_or outcome r.outcome;
  reason = reason;
  validation_latency = latency_or latency r.validation_latency;
}

-- the body of `transition` once the record is found
unfoldable pub transition_from :
    IntentRecord
    → Text
    → IntentState
    → Option DecisionOutcome
    → Reason
    → Option ℕ
    → LifecycleTracker
    → Result IntentRecord × LifecycleTracker
unfolding moved log_entry
transition_from r id s outcome reason latency l =
    if admissible r.state s
    then (let r' = moved r s outcome reason latency in
        (ok r', log_entry id s reason outcome (record l { records = insert id r' l.records })))
    else (err (invalid_transition id r.state s), l)

unfoldable pub transition :
    Text
    → IntentState
    → Option DecisionOutcome
    → Reason
    → Option ℕ
    → LifecycleTracker
    → Result IntentRecord × LifecycleTracker
unfolding transition_from get
transition id s outcome reason latency l = elim (get id l) [
  | none ↦ (err (key_error id), l)
  | some r ↦ transition_from r id s outcome reason latency l
]

-- `note`: an audit entry without a change of state
unfoldable pub note : Text → Reason → LifecycleTracker → LifecycleTracker
unfolding log_entry get
note id reason l = elim (get id l) [ none ↦ l | some r ↦ log_entry id r.state reason none l ]
