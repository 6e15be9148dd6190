-- ===== src/Runtime/Reports.antt =====
-- The methods of `XAIRRuntime` that follow a validation: the commit, the release and the effect of
-- an intent, and its supervisory revoke.
use ld1_execution_gap_xair.Base.{
  ℕ, suc, Bool, true, false, not, ◌&&◌, ◌||◌, Option, none, some, if◌then◌else◌, is_some,
}
use ld1_execution_gap_xair.Base.Int.{ℤ, eq_ℤ}
use ld1_execution_gap_xair.Base.Text.{Text}
use ld1_execution_gap_xair.Model.{
  IntentState, authorized, committed, released, withheld, revoked, effect_confirmed, unknown_effect,
  ReleaseDecision, release, withhold, EffectStatus, confirmed, unknown, revoke, Reason,
  read_set_version_changed_at_gate, context_version_changed_at_publish, effect_report, no_reason,
  reported, IntentRecord, same_state, same_decision,
}
use ld1_execution_gap_xair.Lifecycle.{admissible}
use ld1_execution_gap_xair.Runtime.State.{
  Metrics, Action, pure, ◌>>=◌, ◌>>◌, find_record, advance, transition_to, reject, release_lock,
  call_back,
}

-- the assignments to the fields of a record
abbrev pub set_commit_seq : Option ℕ → IntentRecord → IntentRecord
set_commit_seq seq r = record r { commit_seq = seq }

abbrev pub set_release_decision : ReleaseDecision → IntentRecord → IntentRecord
set_release_decision d r = record r { release_decision = some d }

abbrev pub set_effect : EffectStatus → Option Text → IntentRecord → IntentRecord
set_effect status detail r = record r { effect_status = some status; effect_detail = detail }

abbrev is_decision : ReleaseDecision → Option ReleaseDecision → Bool
is_decision d none = false
is_decision d (some e) = same_decision d e

-- `record_commit` once the record is found
unfoldable pub commit_found : IntentRecord → Text → Bool → Reason → Option ℕ → Action IntentRecord
commit_found r id ok_commit reason seq =
    let target = if ok_commit then committed else withheld in
    if same_state r.state target && (ok_commit || is_decision withhold r.release_decision)
    then pure r
    else if same_state r.state authorized
    then (if ok_commit
        then (do
          release_lock r.intent
          advance id (set_commit_seq seq) committed reason
              (λ m. record m { committed = suc m.committed })
          find_record id)
        else (do
          release_lock r.intent
          advance id (set_release_decision withhold) withheld reason
              (λ m. record m { withheld = suc m.withheld })
          find_record id))
    else reject r target reason

-- `record_commit`
unfoldable pub record_commit : Text → Bool → Reason → Option ℕ → Action IntentRecord
record_commit id ok_commit reason seq = do
  r ← find_record id
  commit_found r id ok_commit reason seq

-- `v is not None and v != recorded`
abbrev differs : Option ℤ → ℤ → Bool
differs none recorded = false
differs (some v) recorded = not (eq_ℤ v recorded)

-- The versions that the gateway observed against those recorded at validation: the reason for which
-- a reported release is turned into a withheld one, if there is one.
unfoldable pub gate_refusal : IntentRecord → Bool → Option ℤ → Option ℤ → Option Reason
gate_refusal r was_released context_version read_set_version =
    if same_state r.state authorized && was_released
    then (if differs read_set_version r.read_set_version
        then some read_set_version_changed_at_gate
        else if not (is_some read_set_version) && differs context_version r.context_version
        then some context_version_changed_at_publish
        else none)
    else none

-- the two ends of `report_release`: the intent is withheld, or released
unfoldable pub withhold_found : IntentRecord → Text → Reason → Action IntentRecord
withhold_found r id reason = do
  release_lock r.intent
  advance id (set_release_decision withhold) withheld reason
      (λ m. record m { withheld = suc m.withheld })
  find_record id

unfoldable pub release_found : IntentRecord → Text → Reason → Action IntentRecord
release_found r id reason = do
  release_lock r.intent
  advance id (set_release_decision release) released reason
      (λ m. record m { released = suc m.released })
  call_back r.intent
  find_record id

unfoldable pub settle : IntentRecord → Text → Bool → Reason → Option Reason → Action IntentRecord
settle r id true why none = release_found r id why
settle r id false why none = withhold_found r id why
settle r id was_released why (some refusal) = withhold_found r id refusal

-- the states and the decisions that a report asks for
abbrev pub wanted_decision : Bool → ReleaseDecision
wanted_decision true = release
wanted_decision false = withhold

abbrev pub wanted_state : Bool → IntentState
wanted_state true = released
wanted_state false = withheld

-- A record that has its release decision already, and one that has none yet.
unfoldable pub report_decided :
    Option ReleaseDecision
    → IntentRecord
    → Text
    → Bool
    → Reason
    → Option ℤ
    → Option ℤ
    → Action IntentRecord
report_decided (some d) r id was_released reason context_version read_set_version =
    if same_decision d (wanted_decision was_released)
    then pure r
    else reject r (wanted_state was_released) reason
report_decided none r id was_released reason context_version read_set_version =
    if same_state r.state authorized || same_state r.state committed
    then settle r id was_released reason
        (gate_refusal r was_released context_version read_set_version)
    else reject r (wanted_state was_released) reason

-- `report_release` once the record is found
unfoldable pub report_found :
    IntentRecord → Text → Bool → Reason → Option ℤ → Option ℤ → Action IntentRecord
report_found r id was_released reason context_version read_set_version =
    if not was_released && same_state r.state revoked
    then pure r
    else report_decided r.release_decision r id was_released reason context_version read_set_version

-- `report_release`
unfoldable pub report_release : Text → Bool → Reason → Option ℤ → Option ℤ → Action IntentRecord
report_release id was_released reason context_version read_set_version = do
  r ← find_record id
  report_found r id was_released reason context_version read_set_version

-- the state that an effect report asks for
abbrev pub effect_target : EffectStatus → IntentState
effect_target confirmed = effect_confirmed
effect_target EffectStatus.failed = IntentState.failed
effect_target unknown = unknown_effect

abbrev count_effect : EffectStatus → Metrics → Metrics
count_effect confirmed m = record m { effect_confirmed = suc m.effect_confirmed }
count_effect EffectStatus.failed m = record m { effect_failed = suc m.effect_failed }
count_effect unknown m = record m { effect_unknown = suc m.effect_unknown }

-- `detail or status.value`
abbrev effect_reason : EffectStatus → Option Text → Reason
effect_reason status none = effect_report status
effect_reason status (some detail) = reported detail

abbrev detail_reason : Option Text → Reason
detail_reason none = no_reason
detail_reason (some detail) = reported detail

-- `report_effect` once the record is found; an empty detail is `none`
unfoldable pub effect_found : IntentRecord → Text → EffectStatus → Option Text → Action IntentRecord
effect_found r id status detail =
    if same_state r.state (effect_target status)
    then pure r
    else if admissible r.state (effect_target status)
    then (do
      advance id (set_effect status detail) (effect_target status) (effect_reason status detail)
          (count_effect status)
      find_record id)
    else reject r (effect_target status) (detail_reason detail)

-- `report_effect`
unfoldable pub report_effect : Text → EffectStatus → Option Text → Action IntentRecord
report_effect id status detail = do r ← find_record id; effect_found r id status detail

-- `supervisory_revoke`; the transition raises for a state that cannot be revoked
unfoldable pub supervisory_revoke : Text → Reason → Action IntentRecord
supervisory_revoke id reason = do
  r ← find_record id
  transition_to id revoked (some revoke) reason none
  release_lock r.intent
  find_record id
