-- ===== src/Model.antt =====
-- xair/core/models.py: lifecycle states, decisions, intents and their records.
-- Times are integers of microseconds, the resolution of a Python datetime.
use ld1_execution_gap_xair.Base.{ℕ, Bool, true, false, Option, none, List, [], ◌==◌, ◌≡◌, arith}
use ld1_execution_gap_xair.Base.Int.{ℤ, pos, negsuc}
use ld1_execution_gap_xair.Base.Text.{Text}
use ld1_execution_gap_xair.Base.Dict.{Dict}
use ld1_execution_gap_xair.Value.{Value}

pub data IntentState : Type 0 where
  created pending validating authorized delayed degraded revoked expired : IntentState
  committed released withheld effect_confirmed failed unknown_effect : IntentState

pub data ReleaseDecision : Type 0 where
  release withhold : ReleaseDecision

pub data EffectStatus : Type 0 where
  confirmed failed unknown : EffectStatus

pub data DecisionOutcome : Type 0 where
  execute delay degrade revoke : DecisionOutcome

-- `DEGRADATION_POLICIES`
pub data DegradationPolicy : Type 0 where
  none_policy reduce_speed : DegradationPolicy

-- `ACTION_CLASSES` of runtime.py
pub data ActionClass : Type 0 where
  stop start motion reset shutdown other : ActionClass

pub record ActionDescriptor : Type 0 where
  pub action_type : Text
  pub target_entity : Text
  pub parameters : Dict Value
  pub degradation_policy : DegradationPolicy

-- A datetime: its wall-clock reading, and the offset from UTC if it carries one.
pub data Timestamp : Type 0 where
  naive : (wall : ℤ) → Timestamp
  aware : (wall offset : ℤ) → Timestamp

pub record ActionIntent : Type 0 where
  pub id : Text
  pub source : Text
  pub timestamp_decision : Timestamp
  pub freshness_window_ms : ℤ
  pub payload : ActionDescriptor
  pub deadline_ms : Option ℤ
  pub preconditions : List Text
  pub safety_constraints : List Text
  pub priority : ℤ
  pub correlation_id : Option Text
  pub policy_added : Option (List Text)

-- What the evaluator says of one expression.
pub data Message : Type 0 where
  empty_expression : Message
  unsupported missing_path ill_typed compared : Text → Message

-- The reason of a transition: one of the messages that the temporal validator, the predicate
-- evaluator, the decision engine and the runtime write, or the text that a report carries.
pub data Reason : Type 0 where
  no_reason temporal_ok future_skew obsolete deadline_exceeded : Reason
  context_ok eval_timeout : Reason
  safety_constraint_failed precondition_failed : Message → Reason
  target_busy degradation_policy_active valid : Reason
  risk_reducing_action stale_context_snapshot : Reason
  read_set_version_changed_at_gate context_version_changed_at_publish : Reason
  rejected_report : IntentState → Reason → Reason
  at_commit : Reason → Reason
  effect_report : EffectStatus → Reason
  reported : Text → Reason

pub record IntentRecord : Type 0 where
  pub intent : ActionIntent
  pub state : IntentState
  pub outcome : Option DecisionOutcome
  pub reason : Reason
  pub validation_latency : ℕ
  pub context_version : ℤ
  pub read_set : List Text
  pub read_set_version : ℤ
  pub policy_predicates : List Text
  pub predicates : List Text
  pub predicate_version : ℤ
  pub action_class : ActionClass
  pub release_decision : Option ReleaseDecision
  pub commit_seq : Option ℕ
  pub effect_status : Option EffectStatus
  pub effect_detail : Option Text

-- `IntentRecord(intent=intent, state=IntentState.CREATED)`
unfoldable pub new_record : ActionIntent → IntentRecord
new_record i = record {
  intent = i;
  state = created;
  outcome = none;
  reason = no_reason;
  validation_latency = 0;
  context_version = pos 0;
  read_set = [];
  read_set_version = pos 0;
  policy_predicates = [];
  predicates = [];
  predicate_version = negsuc 0;
  action_class = other;
  release_decision = none;
  commit_seq = none;
  effect_status = none;
  effect_detail = none;
}

-- Equality of states, decisions and outcomes, by their position in the enumeration.
abbrev rank : IntentState → ℕ
rank created = 0
rank pending = 1
rank validating = 2
rank authorized = 3
rank delayed = 4
rank degraded = 5
rank revoked = 6
rank expired = 7
rank committed = 8
rank released = 9
rank withheld = 10
rank effect_confirmed = 11
rank IntentState.failed = 12
rank unknown_effect = 13

unfoldable pub same_state : IntentState → IntentState → Bool
same_state s t = rank s == rank t

abbrev pub same_decision : ReleaseDecision → ReleaseDecision → Bool
same_decision release release = true
same_decision withhold withhold = true
same_decision _ _ = false

pub same_state→eq : (s t : IntentState) → same_state s t ≡ true → s ≡ t
unfolding same_state
same_state→eq s t h = ground arith

pub same_state_refl : (s : IntentState) → same_state s s ≡ true
unfolding same_state
same_state_refl s = ground arith
