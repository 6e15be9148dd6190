-- ===== src/Tests/Deliveries.antt =====
-- The theorem about deliveries at a concrete commit: the first process of the consumer dies after an effect.
use ld1_execution_gap_xair.Base.{◌≡◌, refl, true, some, []}
use ld1_execution_gap_xair.Base.Int.{pos, ◌*ℤ◌, ◌-ℤ◌, ◌+ℤ◌}
use ld1_execution_gap_xair.Base.Text.{txt, same_text, starts_with}
use ld1_execution_gap_xair.Base.Dict.{lookup, member, insert}
use ld1_execution_gap_xair.Model.{IntentRecord, new_record, reported, same_state}
use ld1_execution_gap_xair.Temporal.{
  validate_release, age_of, decision_epoch, release_bound, is_skewed,
}
use ld1_execution_gap_xair.Coordination.{release_target}
use ld1_execution_gap_xair.Lifecycle.{
  get, transition, transition_from, moved, admissible, log_entry,
}
use ld1_execution_gap_xair.Runtime.State.{
  find_record, advance, edit, transition_to, release_lock, bump,
}
use ld1_execution_gap_xair.Runtime.Reports.{record_commit, commit_found}
use ld1_execution_gap_xair.Versioning.{read_set_version, max_related, any_related, related}
use ld1_execution_gap_xair.Store.Commit.{
  commit_memory, commit_status, observed_version, is_ahead, is_past, has_moved,
  append_authorization,
}
use ld1_execution_gap_xair.Server.Endpoints.{
  local, Server, post_commit, success, commit_in_store, commit_in_runtime, commit_authorization,
  request_of,
}
use ld1_execution_gap_xair.Server.Commits.{recorded}
use ld1_execution_gap_xair.Consumer.Poll.{poll}
use ld1_execution_gap_xair.Consumer.Offset.{offset}
use ld1_execution_gap_xair.Consumer.Replay.{count_effects}
use ld1_execution_gap_xair.Consumer.Progress.{Progress}
use ld1_execution_gap_xair.Consumer.Rounds.{rounds}
use ld1_execution_gap_xair.Delivery.{committed_has_effect}
use ld1_execution_gap_xair.Tests.Servers.{server, ready, body, found_ready}
use ld1_execution_gap_xair.Tests.Stores.{before-IsVersioned, before-IsLogged}
use ld1_execution_gap_xair.Tests.Consumers.{key, idle, history, quiet, idle-IsOnce}

abbrev done : Server
done = (post_commit local (pos 1200000) (pos 1200000) body (txt "a") server).1

-- the record as the commit leaves it
abbrev final : IntentRecord
final = recorded ready true (reported (txt "authorization_committed")) (some 1)

answered_final :
    (post_commit local (pos 1200000) (pos 1200000) body (txt "a") server).0 ≡ success final
unfolding post_commit same_state commit_in_store commit_in_runtime commit_authorization
    commit_memory request_of commit_status observed_version read_set_version max_related any_related
    related member is_ahead is_past has_moved same_text starts_with decision_epoch release_bound
    ◌*ℤ◌ ◌-ℤ◌ ◌+ℤ◌ validate_release age_of is_skewed new_record record_commit commit_found
    find_record advance edit transition_to transition transition_from moved admissible release_lock
    release_target get lookup insert log_entry bump append_authorization
answered_final = refl

done-Progress : Progress key done.store.actuations idle done.store.kv
unfolding post_commit same_state commit_in_store commit_in_runtime commit_authorization
    commit_memory request_of commit_status observed_version read_set_version max_related any_related
    related member is_ahead is_past has_moved same_text starts_with decision_epoch release_bound
    ◌*ℤ◌ ◌-ℤ◌ ◌+ℤ◌ validate_release age_of is_skewed new_record get lookup offset
    append_authorization
done-Progress = record {
  handled = [];
  rest = done.store.actuations;
  whole = refl;
  at = refl;
  done = tt;
  trusting = refl;
}

committed_has_effect_example :
    let (c', s') = rounds key history idle done.store in
    count_effects (txt "a") (poll quiet key c' s').consumer.actuator.effects ≡ 1
unfolding moved
committed_has_effect_example =
    committed_has_effect local (pos 1200000) (pos 1200000) body (txt "a") key server final history
      quiet idle found_ready refl before-IsLogged before-IsVersioned.within answered_final refl
      idle-IsOnce done-Progress (λ m. refl)
