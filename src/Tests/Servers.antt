-- ===== src/Tests/Servers.antt =====
-- The theorems about the endpoints at concrete inputs: one intent authorized on the state of a line.
use ld1_execution_gap_xair.Base.{◌≡◌, refl, true, false, not, ◌&&◌, none, some, [], ◌∷◌, arith}
use ld1_execution_gap_xair.Base.Int.{pos, ◌*ℤ◌, ◌-ℤ◌, ◌+ℤ◌}
use ld1_execution_gap_xair.Base.Text.{txt, same_text, starts_with}
use ld1_execution_gap_xair.Base.Dict.{lookup, member}
use ld1_execution_gap_xair.Model.{
  IntentRecord, authorized, committed, revoked, withheld, revoke, execute, new_record,
}
use ld1_execution_gap_xair.Temporal.{
  validate_release, age_of, decision_epoch, release_bound, is_skewed,
}
use ld1_execution_gap_xair.Lifecycle.{get, moved}
use ld1_execution_gap_xair.Lifecycle.Invariant.{Consistent}
use ld1_execution_gap_xair.Versioning.{read_set_version, max_related, any_related, related}
use ld1_execution_gap_xair.Store.Commit.{
  readset, Status, commit_memory, commit_status, observed_version, is_ahead, is_past, has_moved,
}
use ld1_execution_gap_xair.Store.Log.{count_authorized}
use ld1_execution_gap_xair.Server.Endpoints.{
  local, reached, failed, lost, Server, CommitRequest, request_of, commit_authorization,
  commit_in_store, commit_in_runtime, post_commit, delete_intent, by_supervisor, post_withheld,
  success, server_error, is_skew,
}
use ld1_execution_gap_xair.Server.Commits.{Means, post_commit-Means}
use ld1_execution_gap_xair.Server.Gaps.{post_commit-lost, revoke_between}
use ld1_execution_gap_xair.Server.Withheld.{WithheldOnce, post_withheld_once}
use ld1_execution_gap_xair.Tests.Fixtures.{resume, at_state, runtime_with}
use ld1_execution_gap_xair.Tests.Stores.{
  plain, before, holding, before-IsVersioned, before-IsLogged,
}

abbrev pub ready : IntentRecord
ready = record (at_state (txt "a") authorized (some execute)) {
  read_set = txt "line.state" ∷ [];
  read_set_version = pos 1;
}

abbrev pub server : Server
server = record {
  runtime = runtime_with (record { records = (txt "a", ready) ∷ []; audit = [] });
  store = holding before;
  known = pos 1;
  claimed = [];
  cjson = plain;
}

abbrev pub body : CommitRequest
body = record { scope = readset; margin = pos 0 }

pub found_ready : get (txt "a") server.runtime.lifecycle ≡ some ready
unfolding get lookup same_text
found_ready = refl

post_commit-Means_example :
    let (x, sv') = post_commit reached (pos 1200000) (pos 1200000) body (txt "a") server in
    ((q : IntentRecord) × (x ≡ success q) × Means reached (txt "a") server.store sv'.store q)
post_commit-Means_example =
    post_commit-Means reached (pos 1200000) (pos 1200000) body (txt "a") server found_ready refl
      before-IsLogged before-IsVersioned.within

not_ahead :
    not (validate_release server.runtime.temporal (resume (txt "a")) (pos 1200000)).0
      && is_skew (validate_release server.runtime.temporal (resume (txt "a")) (pos 1200000)).1
    ≡ false
unfolding validate_release age_of decision_epoch release_bound is_skewed ◌*ℤ◌ ◌-ℤ◌ ◌+ℤ◌
not_ahead = refl

would_commit :
    (commit_memory
      (pos 1200000)
      (request_of server.runtime.temporal body (txt "a") ready)
      server.store).0.status
    ≡ Status.committed
unfolding commit_memory request_of commit_status observed_version read_set_version max_related
    any_related related member is_ahead is_past has_moved same_text starts_with decision_epoch
    release_bound ◌*ℤ◌ ◌-ℤ◌ new_record
would_commit = refl

post_commit-lost_example :
    let (x, sv') = post_commit lost (pos 1200000) (pos 1200000) body (txt "a") server in
    ((q : IntentRecord) × (x ≡ success q)
      × (q.state ≡ withheld)
      × (count_authorized (txt "a") sv'.store.actuations ≡ 1))
unfolding new_record
post_commit-lost_example =
    post_commit-lost (pos 1200000) (pos 1200000) body (txt "a") server found_ready refl
      before-IsLogged before-IsVersioned.within not_ahead would_commit

store_committed :
    (commit_in_store local (pos 1200000) (pos 1200000) body (txt "a") ready server).0.is_committed
    ≡ true
unfolding commit_in_store commit_authorization commit_memory request_of commit_status
    observed_version read_set_version max_related any_related related member is_ahead is_past
    has_moved same_text starts_with decision_epoch release_bound ◌*ℤ◌ ◌-ℤ◌ ◌+ℤ◌ validate_release
    age_of is_skewed new_record
store_committed = refl

revoke_between_example :
    let (o, sv1) = commit_in_store local (pos 1200000) (pos 1200000) body (txt "a") ready server in
    let (x, sv3) = commit_in_runtime (txt "a") o (delete_intent (txt "a") sv1).1 in
    (x ≡ server_error)
    × (get (txt "a") sv3.runtime.lifecycle
        ≡ some (moved ready revoked (some revoke) by_supervisor none))
    × (count_authorized (txt "a") sv3.store.actuations ≡ 1)
revoke_between_example =
    revoke_between local (pos 1200000) (pos 1200000) body (txt "a") server found_ready refl
      before-IsLogged before-IsVersioned.within store_committed

abbrev logged : IntentRecord
logged = record (at_state (txt "a") committed (some execute)) { commit_seq = some 1 }

abbrev later : Server
later = record {
  runtime = runtime_with (record { records = (txt "a", logged) ∷ []; audit = [] });
  store = holding before;
  known = pos 1;
  claimed = [];
  cjson = plain;
}

found_logged : get (txt "a") later.runtime.lifecycle ≡ some logged
unfolding get lookup same_text
found_logged = refl

logged-Consistent : Consistent logged
unfolding new_record
logged-Consistent = ground arith

post_withheld_once_example :
    WithheldOnce reached failed
      (txt "a")
      (txt "late")
      (txt "again")
      logged
      later
      (post_withheld reached (txt "a") (txt "late") later)
post_withheld_once_example =
    post_withheld_once reached failed (txt "a") (txt "late") (txt "again") later found_logged
      logged-Consistent refl refl
