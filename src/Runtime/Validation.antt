-- ===== src/Runtime/Validation.antt =====
-- `process_intent` and its callers: the pass of an intent over the validators. The intent that is
-- passed is the object that its record holds, as the callers of the runtime pass it.
use ld1_execution_gap_xair.Base.{
  ℕ, suc, Bool, true, false, ◌||◌, Option, none, some, List, [], ◌++◌, if◌then◌else◌,
}
use ld1_execution_gap_xair.Base.Int.{ℤ, pos, negsuc, ltb_ℤ}
use ld1_execution_gap_xair.Base.Text.{Text, txt}
use ld1_execution_gap_xair.Base.Dict.{Dict, lookup, insert}
use ld1_execution_gap_xair.Value.{
  Number, finite, Value, null, bool, num, str, arr, obj, Fields, halve,
}
use ld1_execution_gap_xair.Model.{
  ActionIntent, none_policy, reduce_speed, ActionClass, stop, IntentState, created, pending,
  validating, authorized, delayed, degraded, revoked, expired, IntentRecord, DecisionOutcome,
  execute, delay, degrade, revoke, Reason, no_reason, deadline_exceeded, risk_reducing_action,
  stale_context_snapshot, same_state,
}
use ld1_execution_gap_xair.Temporal.{validate}
use ld1_execution_gap_xair.Coordination.{check_conflict, acquire, decide_outcome, submit}
use ld1_execution_gap_xair.Lifecycle.{get, value_error}
use ld1_execution_gap_xair.Predicate.Float.{to_float}
use ld1_execution_gap_xair.Predicate.Check.{validate_context}
use ld1_execution_gap_xair.Versioning.{read_set, read_set_version, predicate_version}
use ld1_execution_gap_xair.Runtime.State.{
  XairRuntime, Action, pure, raise, gets, modify, ◌>>=◌, ◌>>◌, find_record, edit, transition_to,
  bump,
}
use ld1_execution_gap_xair.Runtime.Admission.{
  action_class, apply_policy, registered, register_intent,
}

-- What a pass takes from outside: the time of day, the clock of the predicate evaluation, the
-- measured latency, the snapshot with its versions, and whether a delayed intent is queued again.
pub record Pass : Type 0 where
  pub now : ℤ
  pub late : ℕ → Bool
  pub latency : ℕ
  pub context : Option Fields
  pub context_version : Option ℤ
  pub path_versions : Option (Dict ℤ)
  pub predicate_versions : Option (Dict ℤ)
  pub requeue : Bool

abbrev pub or_else {ℓ} : {A : Type ℓ} → Option A → A → A
or_else none a = a
or_else (some b) a = b

-- `float(params.get("speed_factor", 1.0))`, with what `float` takes
abbrev speed_of : Option Value → Option Number
speed_of none = some (finite (pos 1) 0)
speed_of (some (num n)) = some n
speed_of (some (bool true)) = some (finite (pos 1) 0)
speed_of (some (bool false)) = some (finite (pos 0) 0)
speed_of (some (str s)) = to_float s
speed_of (some null) = none
speed_of (some (arr xs)) = none
speed_of (some (obj fs)) = none

abbrev slowed : ActionIntent → Option Number → Option ActionIntent
slowed i none = none
slowed i (some n) = some (record i {
  payload = record i.payload {
    parameters = insert (txt "speed_factor") (num (halve n)) i.payload.parameters;
    degradation_policy = none_policy;
  };
})

-- `_apply_degradation`; none where it raises
unfoldable pub apply_degradation : ActionIntent → Option ActionIntent
apply_degradation i = elim i.payload.degradation_policy [
  | none_policy ↦ none
  | reduce_speed ↦ slowed i (speed_of (lookup (txt "speed_factor") i.payload.parameters))
]

-- `_VALIDATABLE_STATES`
unfoldable pub is_validatable : IntentState → Bool
is_validatable t = same_state t created || same_state t delayed || same_state t degraded

abbrev pub is_stop : ActionClass → Bool
is_stop stop = true
is_stop _ = false

-- the snapshot that is evaluated, and its version
abbrev pub snapshot_of : Pass → XairRuntime → Fields × ℤ
snapshot_of c s = elim c.context [
  | none ↦ (s.context, s.context_version)
  | some ctx ↦ (ctx, or_else c.context_version s.context_version)
]

-- `context_version is not None and context_version < installed`
abbrev pub is_stale : Option ℤ → ℤ → Bool
is_stale none installed = false
is_stale (some v) installed = ltb_ℤ v installed

abbrev all_predicates : ActionIntent → List Text
all_predicates i = i.safety_constraints ++ i.preconditions

-- the decision on an intent, on one snapshot
unfoldable pub decide_on : Pass → ActionIntent → Fields → XairRuntime → DecisionOutcome × Reason
decide_on c i snapshot s =
    let (temporal_is_ok, temporal_reason) = validate s.temporal i c.now in
    let (context_is_ok, context_reason) = validate_context c.late i snapshot in
    decide_outcome i temporal_is_ok temporal_reason context_is_ok context_reason
      (check_conflict i s.active_targets)

-- the fields of the record that a pass writes
abbrev read_version : Option (Dict ℤ) → List Text → ℤ → ℤ
read_version none paths version = version
read_version (some versions) paths version = read_set_version versions paths

abbrev truth_version : Option (Dict ℤ) → List Text → ℤ
truth_version none es = negsuc 0
truth_version (some versions) es = predicate_version versions es

unfoldable pub validated : Pass → ActionIntent → ℤ → IntentRecord → IntentRecord
validated c i version r =
    let paths = read_set (all_predicates i) in
    let es = registered (all_predicates i) in
    record r {
      context_version = version;
      read_set = paths;
      read_set_version = read_version c.path_versions paths version;
      predicates = es;
      predicate_version = truth_version c.predicate_versions es;
      validation_latency = c.latency;
    }

-- the end of a pass, by outcome
abbrev pub queue_again : Bool → ActionIntent → Action (Unit {0})
queue_again requeue i =
    modify (λ s. if requeue then record s { receiver = submit i s.receiver } else s)

unfoldable pub degrade_to : Pass → Text → Reason → Option ActionIntent → Action IntentRecord
degrade_to c id why none = raise value_error
degrade_to c id why (some i) = do
  edit id (λ r. record r { intent = i })
  transition_to id degraded (some degrade) why (some c.latency)
  bump (λ m. record m { degraded = suc m.degraded })
  queue_again c.requeue i
  find_record id

-- `reason.startswith("deadline")`
abbrev pub refused_state : Reason → IntentState
refused_state deadline_exceeded = expired
refused_state _ = revoked

unfoldable pub conclude : Pass → ActionIntent → DecisionOutcome × Reason → Action IntentRecord
conclude c i (degrade, reason) = degrade_to c i.id reason (apply_degradation i)
conclude c i (execute, reason) = do
  modify (λ s. record s { active_targets = acquire i s.active_targets })
  edit i.id (λ r. record r { intent = i })
  transition_to i.id authorized (some execute) reason (some c.latency)
  bump (λ m. record m { authorized = suc m.authorized })
  find_record i.id
conclude c i (delay, reason) = do
  transition_to i.id delayed (some delay) reason (some c.latency)
  bump (λ m. record m { delayed = suc m.delayed })
  queue_again c.requeue i
  find_record i.id
conclude c i (revoke, reason) = do
  transition_to i.id (refused_state reason) (some revoke) reason (some c.latency)
  bump (λ m. record m { revoked = suc m.revoked })
  find_record i.id

-- a stop: it is authorized on its schema alone, and takes no target
unfoldable pub authorize_stop : Pass → ActionIntent → Action IntentRecord
authorize_stop c i = do
  installed ← gets (λ s. s.context_version)
  edit i.id (λ r. record r {
    intent = record i { policy_added = some [] };
    context_version = installed;
    read_set = [];
    read_set_version = pos 0;
    predicates = [];
    validation_latency = c.latency;
  })
  transition_to i.id authorized (some execute) risk_reducing_action (some c.latency)
  bump (λ m. record m { authorized = suc m.authorized })
  find_record i.id

unfoldable pub revoke_stale : ActionIntent → Action IntentRecord
revoke_stale i = do
  installed ← gets (λ s. s.context_version)
  edit i.id (λ r. record r { context_version = installed })
  transition_to i.id revoked (some revoke) stale_context_snapshot none
  bump (λ m. record m { revoked = suc m.revoked })
  find_record i.id

-- the policy applied, the intent is decided on
unfoldable pub decide_with : Pass → ActionIntent × List Text → Fields × ℤ → Action IntentRecord
decide_with c (i, added) (snapshot, version) = do
  edit i.id (λ r. record r { intent = i; policy_predicates = added })
  decision ← gets (decide_on c i snapshot)
  edit i.id (validated c i version)
  conclude c i decision

unfoldable pub choose : Pass → ActionIntent → XairRuntime → Action IntentRecord
choose c i s =
    if is_stop (action_class i s)
    then authorize_stop c i
    else if is_stale c.context_version s.context_version
    then revoke_stale i
    else decide_with c (apply_policy i s) (snapshot_of c s)

unfoldable pub run_pass : Pass → ActionIntent → Action IntentRecord
run_pass c i = do
  transition_to i.id pending none no_reason none
  transition_to i.id validating none no_reason none
  cls ← gets (action_class i)
  edit i.id (λ r. record r { action_class = cls })
  s ← gets (λ s. s)
  choose c i s

unfoldable pub get_or_register : ActionIntent → Option IntentRecord → Action IntentRecord
get_or_register i (some r) = pure r
get_or_register i none = register_intent i

-- `process_intent`
unfoldable pub process_intent : Pass → ActionIntent → Action IntentRecord
process_intent c i = do
  found ← gets (λ s. get i.id s.lifecycle)
  r ← get_or_register i found
  if is_validatable r.state then run_pass c i else pure r
