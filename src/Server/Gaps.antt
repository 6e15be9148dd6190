-- ===== src/Server/Gaps.antt =====
-- Where the log of actuations and the records of the runtime can part: an answer that is lost, and a
-- revoke between the two parts of a commit.
use ld1_execution_gap_xair.Base.{
  length, ℕ, ◌≡◌, refl, sym, ap, subst, ◌∙◌, true, false, not, ◌&&◌, Option, none, some, arith, inl,
  inr,
}
use ld1_execution_gap_xair.Base.Int.{ℤ}
use ld1_execution_gap_xair.Base.Text.{Text, same_text_refl}
use ld1_execution_gap_xair.Model.{
  rejected_report, IntentRecord, authorized, committed, withheld, revoked, revoke, Reason,
  same_state,
}
use ld1_execution_gap_xair.Temporal.{validate_release}
use ld1_execution_gap_xair.Lifecycle.{get, moved, admissible}
use ld1_execution_gap_xair.Lifecycle.Steps.{get-advanced}
use ld1_execution_gap_xair.Lifecycle.Invariant.{get-note}
use ld1_execution_gap_xair.Runtime.State.{XairRuntime, ◌>>◌, find_record, release_lock, reject}
use ld1_execution_gap_xair.Runtime.Reports.{record_commit, commit_found, supervisory_revoke}
use ld1_execution_gap_xair.Runtime.Advance.{bind_ok, find_record_lem}
use ld1_execution_gap_xair.Runtime.Calls.{revoke_step, revoke_lem}
use ld1_execution_gap_xair.Store.Versions.{AllWithin}
use ld1_execution_gap_xair.Store.Commit.{Contents, Status, commit_memory}
use ld1_execution_gap_xair.Store.Script.{count_authorized-recode_from, commit_redis-commit_memory}
use ld1_execution_gap_xair.Store.Log.{IsLogged, count_authorized}
use ld1_execution_gap_xair.Server.Endpoints.{
  Link, lost, commit_authorization, Server, success, server_error, CommitRequest, request_of,
  is_logged_status, is_skew, Outcome, commit_in_store, commit_in_runtime, post_commit,
  delete_intent, by_supervisor,
}
use ld1_execution_gap_xair.Server.Commits.{
  Means, commit_memory-count, commit_in_store-runtime, commit_in_store-Means, authorized_commit,
  record_commit_lem, recorded,
}

committed_logs : (s : Status) → s ≡ Status.committed → is_logged_status s ≡ true
committed_logs s e = ground arith

-- If the script commits and its answer is lost, then the intent is WITHHELD, while the log holds its
-- authorization: for an AUTHORIZED intent whose decision is not ahead of the clock and whose commit the
-- store would have answered with success, on a store whose log agrees with the set of committed intents
-- and no path version of which is negative or above the document's.
pub post_commit-lost :
    (now clock : ℤ) (body : CommitRequest) (id : Text) (sv : Server) {r : IntentRecord}
    → get id sv.runtime.lifecycle ≡ some r
    → r.state ≡ authorized
    → IsLogged sv.store
    → AllWithin sv.store.document.version sv.store.document.path_versions
    → not (validate_release sv.runtime.temporal r.intent now).0
        && is_skew (validate_release sv.runtime.temporal r.intent now).1
      ≡ false
    → (commit_memory clock (request_of sv.runtime.temporal body id r) sv.store).0.status
      ≡ Status.committed
    → let (x, sv') = post_commit lost now clock body id sv in
      ((q : IntentRecord) × (x ≡ success q)
        × (q.state ≡ withheld)
        × (count_authorized id sv'.store.actuations ≡ 1))
unfolding commit_in_runtime commit_in_store commit_authorization request_of moved
post_commit-lost now clock body id sv {r} h e logged w fine done =
    let o = (commit_in_store lost now clock body id r sv).0 in
    let sv' = (commit_in_store lost now clock body id r sv).1 in
    let found : get id sv'.runtime.lifecycle ≡ some r =
      ap (λ x. get id x.lifecycle) (commit_in_store-runtime lost now clock body id r sv) ∙ h in
    let q = request_of sv.runtime.temporal body id r in
    let same = ap (λ x. x.2) (commit_redis-commit_memory sv.cjson clock q sv.store w) in
    let once =
      count_authorized-recode_from sv.cjson id (length sv.store.actuations)
        (commit_memory clock q sv.store).1.actuations
      ∙ commit_memory-count clock q sv.store logged
          (committed_logs (commit_memory clock q sv.store).0.status done) in
    rw
      (
        authorized_commit lost now clock body id sv h e,
        record_commit_lem id o.is_committed o.reason o.seq sv'.runtime found e,
        fine,
      )
      (_, refl, refl, ap (λ c. count_authorized id c.actuations) same ∙ once)

-- a record that the supervisor revoked meanwhile
revoked_found :
    (r : IntentRecord) (id : Text) (why : Reason) (seq : Option ℕ)
    → r.state ≡ revoked
    → commit_found r id true why seq ≡ reject r committed why
unfolding commit_found same_state
revoked_found r id why seq e = ground arith

revoke_authorized :
    (id : Text) (why : Reason) (s : XairRuntime) {r : IntentRecord}
    → get id s.lifecycle ≡ some r
    → r.state ≡ authorized
    → get id (supervisory_revoke id why s).1.lifecycle
      ≡ some (moved r revoked (some revoke) why none)
unfolding supervisory_revoke admissible revoke_step
revoke_authorized id why s {r} h e =
    rw
      (bind_ok (find_record id)
          (λ x. revoke_step id why >> (release_lock x.intent >> find_record id)) s
          (find_record_lem id s h)
        ∙ revoke_lem id why s r h (subst (λ x. admissible x revoked ≡ true) (sym e) refl))
      (get-advanced id id r revoked (some revoke) why none s.lifecycle ∙ rw (same_text_refl id))

-- the second part of a commit at a revoked record: the exception, and the record as it was
commit_revoked :
    (id : Text) (why : Reason) (seq : Option ℕ) (sv : Server) {r : IntentRecord}
    → get id sv.runtime.lifecycle ≡ some r
    → r.state ≡ revoked
    → let (x, sv') =
        commit_in_runtime id (record { is_committed = true; reason = why; seq = seq }) sv in
      (x ≡ server_error) × (get id sv'.runtime.lifecycle ≡ some r) × (sv'.store ≡ sv.store)
unfolding commit_in_runtime record_commit reject
commit_revoked id why seq sv {r} h e =
    rw
      (bind_ok (find_record id) (λ q. commit_found q id true why seq) sv.runtime
          (find_record_lem id sv.runtime h)
        ∙ ap (λ m. m sv.runtime) (revoked_found r id why seq e))
      (refl, get-note r.intent.id id (rejected_report committed why) sv.runtime.lifecycle ∙ h, refl)

outcome_committed :
    (o : Outcome)
    → o.is_committed ≡ true
    → o ≡ record { is_committed = true; reason = o.reason; seq = o.seq }
outcome_committed o h = ap (λ b. record { is_committed = b; reason = o.reason; seq = o.seq }) h

logged_outcome :
    (link : Link) (id : Text) (old new : Contents) (r : IntentRecord) (o : Outcome)
    → o.is_committed ≡ true
    → Means link id old new (recorded r o.is_committed o.reason o.seq)
    → count_authorized id new.actuations ≡ 1
unfolding moved
logged_outcome link id old new r o c (inl m) = m.1
logged_outcome link id old new r o c (inr m) =
    cc (subst (λ b. (recorded r b o.reason o.seq).state ≡ withheld) c m.0)

-- If a supervisor revokes an intent after the store committed it and before the runtime records the
-- commit, then the revoke goes through, the commit answers 500, and the intent is REVOKED while the log
-- holds its authorization: for an AUTHORIZED intent, on a store whose log agrees with the set of
-- committed intents and no path version of which is negative or above the document's.
pub revoke_between :
    (link : Link) (now clock : ℤ) (body : CommitRequest) (id : Text) (sv : Server)
    {r : IntentRecord}
    → get id sv.runtime.lifecycle ≡ some r
    → r.state ≡ authorized
    → IsLogged sv.store
    → AllWithin sv.store.document.version sv.store.document.path_versions
    → (commit_in_store link now clock body id r sv).0.is_committed ≡ true
    → let (o, sv1) = commit_in_store link now clock body id r sv in
      let (x, sv3) = commit_in_runtime id o (delete_intent id sv1).1 in
      (x ≡ server_error)
      × (get id sv3.runtime.lifecycle ≡ some (moved r revoked (some revoke) by_supervisor none))
      × (count_authorized id sv3.store.actuations ≡ 1)
unfolding delete_intent moved
revoke_between link now clock body id sv {r} h e logged w done =
    let o = (commit_in_store link now clock body id r sv).0 in
    let sv1 = (commit_in_store link now clock body id r sv).1 in
    let sv2 = (delete_intent id sv1).1 in
    let found : get id sv1.runtime.lifecycle ≡ some r =
      ap (λ x. get id x.lifecycle) (commit_in_store-runtime link now clock body id r sv) ∙ h in
    let (x, kept, same) =
      commit_revoked id o.reason o.seq sv2 (revoke_authorized id by_supervisor sv1.runtime found e)
        refl in
    let once =
      logged_outcome link id sv.store sv1.store r o done
        (commit_in_store-Means link now clock body id r sv logged w) in
    subst
      (λ p.
        ((commit_in_runtime id p sv2).0 ≡ server_error)
        × (get id (commit_in_runtime id p sv2).1.runtime.lifecycle
            ≡ some (moved r revoked (some revoke) by_supervisor none))
        × (count_authorized id (commit_in_runtime id p sv2).1.store.actuations ≡ 1))
      (sym (outcome_committed o done))
      (x, kept, ap (λ c. count_authorized id c.actuations) same ∙ once)
