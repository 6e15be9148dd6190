-- ===== src/Server/Endpoints.antt =====
-- The handlers of the commit, the release, the effect, the withheld release and the revoke.
use ld1_execution_gap_xair.Base.{
  ℕ, Bool, true, false, not, ◌&&◌, Option, none, some, List, if◌then◌else◌, is_some,
}
use ld1_execution_gap_xair.Base.Int.{ℤ, negsuc, ◌-ℤ◌}
use ld1_execution_gap_xair.Base.Text.{Text, txt}
use ld1_execution_gap_xair.Model.{
  IntentRecord, authorized, committed, released, withheld, EffectStatus, Reason, reported,
  future_skew, at_commit, same_state,
}
use ld1_execution_gap_xair.Temporal.{
  TemporalValidator, decision_epoch, release_bound, validate_release,
}
use ld1_execution_gap_xair.Lifecycle.{
  key_error, invalid_transition, value_error, callback_error, Result, ok, err, get,
}
use ld1_execution_gap_xair.Runtime.State.{XairRuntime, Action}
use ld1_execution_gap_xair.Runtime.Reports.{
  record_commit, report_release, report_effect, supervisory_revoke,
}
use ld1_execution_gap_xair.Store.Commit.{
  Scope, readset, truth, Command, LogRecord, tombstone, Contents, Status, changed, expired,
  duplicate, unavailable, Request, Reply, commit_memory,
}
use ld1_execution_gap_xair.Store.Script.{Cjson, commit_redis}
use ld1_execution_gap_xair.Store.Log.{append_actuation}

-- How a call reaches the store: there is no Redis to reach, it answers, it cannot be reached, or its
-- answer is lost after it did what it was asked.
pub data Link : Type 0 where
  local reached failed lost : Link

-- `unavailable`, with the version that the process knows
abbrev pub no_answer : ℤ → Reply
no_answer known = record {
  status = unavailable;
  observed = negsuc 0;
  commit_version = known;
  store_time = none;
  age_at_commit = none;
  seq = none;
}

-- `commit_authorization` of the store
unfoldable pub commit_authorization :
    Link → Cjson → (clock known : ℤ) → Request → Contents → Reply × Contents
commit_authorization local j clock known q s = commit_memory clock q s
commit_authorization reached j clock known q s = commit_redis j clock q s
commit_authorization failed j clock known q s = (no_answer known, s)
commit_authorization lost j clock known q s = (no_answer known, (commit_redis j clock q s).1)

-- `runtime` and `store`; `known` is the version in the store's copy, `claimed` are the ids that Redis has
-- under `xair:seen:`, and `cjson` what its script makes of a record
pub record Server : Type 0 where
  pub runtime : XairRuntime
  pub store : Contents
  pub known : ℤ
  pub claimed : List Text
  pub cjson : Cjson

-- what a handler answers: a record, 404, 409, or 500 for an exception that it does not catch
pub data Response : Type 0 where
  success : IntentRecord → Response
  not_found conflict server_error : Response

abbrev pub respond : Result IntentRecord → Response
respond (ok r) = success r
respond (err (key_error id)) = not_found
respond (err (invalid_transition id s t)) = conflict
respond (err value_error) = server_error
respond (err callback_error) = server_error

-- a handler that catches nothing
abbrev pub respond_uncaught : Result IntentRecord → Response
respond_uncaught (ok r) = success r
respond_uncaught (err e) = server_error

-- a call of the runtime, by a handler
abbrev pub call :
    (Result IntentRecord → Response) → Action IntentRecord → Server → Response × Server
call f m sv = let (x, rt) = m sv.runtime in (f x, record sv { runtime = rt })

pub record CommitRequest : Type 0 where
  pub scope : Scope
  pub margin : ℤ

-- the arguments with which the commit endpoint calls the store
unfoldable pub command_of : TemporalValidator → Scope → IntentRecord → Command
command_of v scope r = record {
  action_type = r.intent.payload.action_type;
  target_entity = r.intent.payload.target_entity;
  parameters = r.intent.payload.parameters;
  read_set = r.read_set;
  read_set_version = r.read_set_version;
  predicates = r.predicates;
  predicate_version = r.predicate_version;
  scope = scope;
  decision_epoch = decision_epoch r.intent;
  release_bound = release_bound r.intent -ℤ v.clock_uncertainty;
}

abbrev pub scope_paths : Scope → IntentRecord → List Text
scope_paths truth r = r.predicates
scope_paths readset r = r.read_set

abbrev pub scope_version : Scope → IntentRecord → ℤ
scope_version truth r = r.predicate_version
scope_version readset r = r.read_set_version

unfoldable pub request_of : TemporalValidator → CommitRequest → Text → IntentRecord → Request
request_of v body id r = record {
  intent_id = id;
  paths = scope_paths body.scope r;
  expected = scope_version body.scope r;
  command = command_of v body.scope r;
  decision_epoch = decision_epoch r.intent;
  age_bound = some (release_bound r.intent -ℤ v.clock_uncertainty -ℤ body.margin);
  max_ahead = some v.clock_uncertainty;
  scope = body.scope;
}

-- `_COMMIT_REASONS`
abbrev pub commit_reason : Scope → Status → Text
commit_reason scope Status.committed = txt "authorization_committed"
commit_reason readset changed = txt "read_set_version_changed_at_commit"
commit_reason truth changed = txt "predicate_truth_changed_at_commit"
commit_reason scope expired = txt "age_bound_exceeded_at_commit"
commit_reason scope duplicate = txt "duplicate_commit_already_logged"
commit_reason scope Status.future_skew = txt "decision_ahead_of_store_clock_at_commit"
commit_reason scope unavailable = txt "context_untrusted_at_commit"

-- `res["status"] in ("committed", "duplicate")`
abbrev pub is_logged_status : Status → Bool
is_logged_status Status.committed = true
is_logged_status duplicate = true
is_logged_status _ = false

-- `skew_reason.startswith("future_skew")`
abbrev pub is_skew : Reason → Bool
is_skew future_skew = true
is_skew _ = false

-- what the endpoint hands to `record_commit`
pub record Outcome : Type 0 where
  pub is_committed : Bool
  pub reason : Reason
  pub seq : Option ℕ

abbrev pub outcome_of : Scope → Reply → Outcome
outcome_of scope reply = record {
  is_committed = is_logged_status reply.status;
  reason = reported (commit_reason scope reply.status);
  seq = if is_logged_status reply.status then reply.seq else none;
}

-- The first part of the commit endpoint, at an authorized record: the clock check and the commit in the
-- store. Requests of other clients can come before the second part.
unfoldable pub commit_in_store :
    Link → (now clock : ℤ) → CommitRequest → Text → IntentRecord → Server → Outcome × Server
commit_in_store link now clock body id r sv =
    let (fine, why) = validate_release sv.runtime.temporal r.intent now in
    let q = request_of sv.runtime.temporal body id r in
    let (reply, store) = commit_authorization link sv.cjson clock sv.known q sv.store in
    if not fine && is_skew why
    then (record { is_committed = false; reason = at_commit why; seq = none }, sv)
    else (outcome_of body.scope reply, record sv { store = store })

-- the second part: `record_commit`, whose exceptions nothing catches
unfoldable pub commit_in_runtime : Text → Outcome → Server → Response × Server
commit_in_runtime id o sv =
    call respond_uncaught (record_commit id o.is_committed o.reason o.seq) sv

-- `POST /v1/intents/{id}/commit`
unfoldable pub post_commit :
    Link → (now clock : ℤ) → CommitRequest → Text → Server → Response × Server
post_commit link now clock body id sv = elim (get id sv.runtime.lifecycle) [
  | none ↦ (not_found, sv)
  | some r ↦
      let (o, sv') = commit_in_store link now clock body id r sv in
      let done = commit_in_runtime id o sv' in
      if same_state r.state authorized then done else (conflict, sv)
]

-- `POST /v1/intents/{id}/effect`, and the effect that a release report can carry
unfoldable pub post_effect : Text → EffectStatus → Option Text → Server → Response × Server
post_effect id status detail sv = call respond (report_effect id status detail) sv

abbrev with_effect :
    Option EffectStatus → Option Text → Text → Response × Server → Response × Server
with_effect (some status) detail id (success r, sv) =
    let next = post_effect id status detail sv in
    if same_state r.state released then next else (success r, sv)
with_effect _ detail id (x, sv) = (x, sv)

-- `POST /v1/intents/{id}/release`
unfoldable pub post_release :
    Text
    → Bool
    → Reason
    → Option ℤ
    → Option ℤ
    → Option EffectStatus
    → Option Text
    → Server
    → Response × Server
post_release id was_released reason ctx rs effect detail sv =
    with_effect effect detail id (call respond (report_release id was_released reason ctx rs) sv)

-- `DELETE /v1/intents/{id}`
abbrev pub by_supervisor : Reason
by_supervisor = reported (txt "human_supervisory_revoke")

unfoldable pub delete_intent : Text → Server → Response × Server
delete_intent id sv = call respond (supervisory_revoke id by_supervisor) sv

-- `append_actuation` of the store: whether it returned, and the contents
unfoldable pub append_linked : Link → LogRecord → Contents → Bool × Contents
append_linked local r s = (true, append_actuation r s)
append_linked reached r s = (true, append_actuation r s)
append_linked failed r s = (false, s)
append_linked lost r s = (false, append_actuation r s)

-- `POST /v1/intents/{id}/withheld`
unfoldable pub post_withheld : Link → Text → Text → Server → Response × Server
post_withheld link id reason sv = elim (get id sv.runtime.lifecycle) [
  | none ↦ (not_found, sv)
  | some r ↦
      let (fine, store) = append_linked link (tombstone id reason) sv.store in
      let sv' = record sv { store = store } in
      let done = call respond_uncaught (report_release id false (reported reason) none none) sv' in
      if same_state r.state withheld && is_some r.commit_seq
      then (success r, sv)
      else if not (same_state r.state committed)
      then (conflict, sv)
      else if fine
      then done
      else (server_error, sv')
]
