-- ===== src/Server/Submission.antt =====
-- `submit_intent` of an intent that the schema accepts, with the stop fence, and what it calls in the store.
use ld1_execution_gap_xair.Base.{
  ℕ, Bool, true, false, not, ◌&&◌, ◌||◌, Option, none, some, List, [], ◌∷◌, ◌++◌, if◌then◌else◌,
}
use ld1_execution_gap_xair.Base.Int.{ℤ, pos, ◌-ℤ◌}
use ld1_execution_gap_xair.Base.Text.{Text, txt}
use ld1_execution_gap_xair.Base.Dict.{member, add}
use ld1_execution_gap_xair.Value.{
  finite, Value, null, bool, num, str, arr, obj, Fields, end, field, field_of, num_eq, nil, cons,
}
use ld1_execution_gap_xair.Model.{
  ActionIntent, IntentRecord, authorized, delayed, degraded, revoked, revoke, reported, same_state,
}
use ld1_execution_gap_xair.Temporal.{TemporalValidator, decision_epoch}
use ld1_execution_gap_xair.Lifecycle.{ok, err}
use ld1_execution_gap_xair.Runtime.State.{Action, pure, ◌>>=◌, edit, transition_to}
use ld1_execution_gap_xair.Runtime.Admission.{
  action_class, prepare, admit, install_context_snapshot,
}
use ld1_execution_gap_xair.Runtime.Validation.{Pass, is_stop, process_intent}
use ld1_execution_gap_xair.Store.Document.{Document, apply, register_all}
use ld1_execution_gap_xair.Store.Commit.{stopped, entry_versions}
use ld1_execution_gap_xair.Store.Transaction.{Redis, update_redis, register_redis}
use ld1_execution_gap_xair.Server.Endpoints.{
  Link, local, reached, failed, lost, Server, append_linked,
}
use ld1_execution_gap_xair.Consumer.Offset.{str_ℤ}

-- What a submission meets: the settings of the fence, the link to the store, the clocks, the other clients of
-- Redis, and the time of the evaluation. The key of a target is made by SHA-1.
pub record Ingress : Type 0 where
  pub stop_fence : Bool
  pub stop_key : Text → Text
  pub retention : ℤ
  pub link : Link
  pub now : ℤ
  pub ticks : ℕ
  pub net : Redis
  pub clock : ℕ → ℤ
  pub late : ℕ → Bool
  pub latency : ℕ

-- What the endpoint answers: a record and whether it is a duplicate, a rejection, or 500.
pub data Answer : Type 0 where
  answered : (r : IntentRecord) (duplicate : Bool) → Answer
  rejected : (reason : Text) → Answer
  broken : Answer

-- `_update_locked`
unfoldable pub update_store : Ingress → Fields → Document → Document
update_store g patch d = elim g.link [
  | local ↦ apply g.now g.retention patch d
  | reached ↦ (update_redis g.retention g.net g.clock patch d).1
  | failed ↦ d
  | lost ↦ (update_redis g.retention g.net g.clock patch d).1
]

-- `snapshot_timed`: the document if it is trusted
unfoldable pub snapshot : Link → Document → Option Document
snapshot local d = some d
snapshot reached d = some d
snapshot failed d = none
snapshot lost d = none

-- `read_snapshot` of runtime_state.py: a trusted snapshot is installed
abbrev install : Document → Server → Server
install d sv = record sv {
  runtime = (install_context_snapshot d.context d.version true sv.runtime).1;
  known = d.version;
}

unfoldable pub read_snapshot : Link → Server → Option Document × Server
read_snapshot link sv = elim (snapshot link sv.store.document) [
  | none ↦ (none, sv)
  | some d ↦ (some d, install d sv)
]

-- `update_context_store`
unfoldable pub update_context_store : Ingress → Fields → Server → Server
update_context_store g patch sv =
    (read_snapshot g.link (record sv {
      store = record sv.store { document = update_store g patch sv.store.document };
    })).1

-- `register_and_snapshot`: the document if it is trusted, and the stored one
unfoldable pub register_and_snapshot : Ingress → List Text → Document → Option Document × Document
register_and_snapshot g es d =
    let new = register_all g.now g.retention es d in
    let (view, stored) = register_redis g.retention g.net g.clock es d in
    elim g.link [
      | local ↦ (some new, new)
      | reached ↦ (view, stored)
      | failed ↦ (none, d)
      | lost ↦ (none, stored)
    ]

-- `claim_intent`
unfoldable pub claim_intent : Link → Text → List Text → Bool × List Text
claim_intent local id claimed = (true, claimed)
claim_intent reached id claimed = (not (member id claimed), add id claimed)
claim_intent failed id claimed = (false, claimed)
claim_intent lost id claimed = (false, add id claimed)

-- `(ctx.get("stop") or {}).get(key) is None`; none where it raises
unfoldable pub lacks_epoch : Text → Option Value → Option Bool
lacks_epoch key none = some true
lacks_epoch key (some null) = some true
lacks_epoch key (some (bool b)) = if b then none else some true
lacks_epoch key (some (num n)) = if num_eq n (finite (pos 0) 0) then some true else none
lacks_epoch key (some (str [])) = some true
lacks_epoch key (some (str (c ∷ cs))) = none
lacks_epoch key (some (arr nil)) = some true
lacks_epoch key (some (arr (cons x xs))) = none
lacks_epoch key (some (obj fs)) = elim (field_of key fs) [
  | none ↦ some true
  | some null ↦ some true
  | some _ ↦ some false
]

-- `{"stop": {key: v}}`
abbrev stop_patch : Text → ℤ → Fields
stop_patch key v = field (txt "stop") (obj (field key (num (finite v 0)) end)) end

-- the predicate of the fence, with the decision time less the uncertainty of the clock
unfoldable pub fence_predicate : Text → TemporalValidator → ActionIntent → Text
fence_predicate key v i =
    txt "stop." ++ key ++ txt " <= " ++ str_ℤ (decision_epoch i -ℤ v.clock_uncertainty)

abbrev fenced : Text → TemporalValidator → ActionIntent → ActionIntent
fenced key v i = record i { preconditions = i.preconditions ++ fence_predicate key v i ∷ [] }

abbrev fence_with :
    Ingress → Text → ActionIntent → Server → Option Bool → Option ActionIntent × Server
fence_with g key i sv none = (none, sv)
fence_with g key i sv (some missing) = (
  some (fenced key sv.runtime.temporal i),
  if missing then update_context_store g (stop_patch key (pos 0)) sv else sv,
)

abbrev fence_on : Ingress → ActionIntent → Option Document × Server → Option ActionIntent × Server
fence_on g i (none, sv) = (some i, sv)
fence_on g i (some d, sv) =
    let key = g.stop_key i.payload.target_entity in
    fence_with g key i sv (lacks_epoch key (field_of (txt "stop") d.context))

-- `_fence_intent`; none where it raises
unfoldable pub fence_intent : Ingress → ActionIntent → Server → Option ActionIntent × Server
fence_intent g i sv =
    if not g.stop_fence || is_stop (action_class i sv.runtime)
    then (some i, sv)
    else fence_on g i (read_snapshot g.link sv)

-- `_record_stop`
unfoldable pub record_stop : Ingress → ActionIntent → IntentRecord → Server → Server
record_stop g i r sv =
    let sv' = update_context_store g (stop_patch (g.stop_key i.payload.target_entity) g.now) sv in
    let entry =
      stopped i.id i.source i.payload.action_type i.payload.target_entity (decision_epoch i) in
    if not g.stop_fence || not (same_state r.state authorized)
    then sv
    else record sv' { store = (append_linked g.link entry sv'.store).1 }

-- `_validate_now`
unfoldable pub validate_now : Pass → ActionIntent → Action IntentRecord
validate_now c i = do
  r ← process_intent c i
  if same_state r.state degraded then process_intent c r.intent else pure r

-- the pass on a document, and the one on the installed snapshot
abbrev pub pass_on : Ingress → Option Document → Pass
pass_on g none = record {
  now = g.now;
  late = g.late;
  latency = g.latency;
  context = none;
  context_version = none;
  path_versions = none;
  predicate_versions = none;
  requeue = false;
}
pass_on g (some d) = record {
  now = g.now;
  late = g.late;
  latency = g.latency;
  context = some d.context;
  context_version = some d.version;
  path_versions = some d.path_versions;
  predicate_versions = some (entry_versions d.predicates);
  requeue = false;
}

-- a call of the runtime whose exceptions nothing catches
abbrev pub run : {A : Type 0} → Action A → Server → (A → Server → Answer × Server) → Answer × Server
run m sv next =
    let (x, rt) = m sv.runtime in
    let sv' = record sv { runtime = rt } in elim x [ ok a ↦ next a sv' | err e ↦ (broken, sv') ]

-- the transition to REVOKED of an intent that is not validated
unfoldable pub refuse : Text → Text → Server → Answer × Server
refuse why id sv =
    run (transition_to id revoked (some revoke) (reported why) none) sv
      (λ r sv'. (rejected why, sv'))

-- a stop, which needs no context
unfoldable pub submit_stop : Ingress → ActionIntent → Server → Answer × Server
submit_stop g i sv =
    run (validate_now (pass_on g none) i) sv (λ r sv'. (answered r false, record_stop g i r sv'))

-- the predicates registered, the intent is validated on the document read in the same step
abbrev submit_on : Ingress → ActionIntent → Option Document → Server → Answer × Server
submit_on g i none sv = refuse (txt "context_store_untrusted") i.id sv
submit_on g i (some d) sv =
    run (validate_now (pass_on g (some d)) i) (install d sv) (λ r sv'. (answered r false, sv'))

abbrev submit_fenced : Ingress → Option ActionIntent × Server → Answer × Server
submit_fenced g (none, sv) = (broken, sv)
submit_fenced g (some i, sv) =
    let (j, es) = prepare i sv.runtime in
    let (view, stored) = register_and_snapshot g es sv.store.document in
    run (edit i.id (λ r. record r { intent = j })) sv
      (λ u sv'. submit_on g j view (record sv' { store = record sv'.store { document = stored } }))

unfoldable pub submit_fresh : Ingress → ActionIntent → Server → Answer × Server
submit_fresh g i sv = submit_fenced g (fence_intent g i sv)

-- the admitted record, whether it was there before, and what follows
unfoldable pub submit_admitted :
    Ingress → ActionIntent → IntentRecord → Bool → Server → Answer × Server
submit_admitted g i r dup sv =
    let again = dup && same_state r.state delayed in
    let j = if again then r.intent else i in
    let (first, claimed) = claim_intent g.link i.id sv.claimed in
    let sv' = record sv { claimed = claimed } in
    if dup && not again
    then (answered r true, sv)
    else if is_stop (action_class j sv.runtime)
    then submit_stop g j sv
    else if dup
    then submit_fresh g j sv
    else if first
    then submit_fresh g j sv'
    else refuse (txt "duplicate_after_restart") i.id sv'

-- `POST /v1/intents`
unfoldable pub submit_intent : Ingress → ActionIntent → Server → Answer × Server
submit_intent g i sv =
    run (admit g.ticks false i) sv (λ (r, dup) sv'. submit_admitted g i r dup sv')
