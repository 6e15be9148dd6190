-- ===== src/Server/Withheld.antt =====
-- The endpoint that withholds a committed intent, over each link, and asked again.
use ld1_execution_gap_xair.Base.{
  ◌≡◌, refl, sym, ap, subst, ◌∙◌, true, false, none, some, arith, is_some, suc,
}
use ld1_execution_gap_xair.Base.Text.{Text}
use ld1_execution_gap_xair.Model.{
  IntentRecord, committed, withheld, withhold, Reason, reported, same_state,
}
use ld1_execution_gap_xair.Lifecycle.{get, ok, moved, admissible}
use ld1_execution_gap_xair.Lifecycle.Invariant.{Consistent}
use ld1_execution_gap_xair.Runtime.State.{XairRuntime, Metrics, find_record}
use ld1_execution_gap_xair.Runtime.Reports.{
  report_release, report_found, report_decided, settle, gate_refusal, withhold_found,
  set_release_decision,
}
use ld1_execution_gap_xair.Runtime.Advance.{
  bind_ok, find_record_lem, close_lem, closed, find_advanced,
}
use ld1_execution_gap_xair.Store.Commit.{tombstone, Contents}
use ld1_execution_gap_xair.Store.Log.{append_actuation}
use ld1_execution_gap_xair.Server.Endpoints.{
  Link, local, reached, failed, lost, Server, Response, success, server_error, post_withheld,
  append_linked,
}

committed_withheld :
    (r : IntentRecord) (id : Text) (why : Reason)
    → r.state ≡ committed
    → r.release_decision ≡ none
    → report_found r id false why none none ≡ withhold_found r id why
unfolding report_found report_decided same_state settle gate_refusal
committed_withheld r id why e d = ground (arith, e, d)

abbrev count_withheld : Metrics → Metrics
count_withheld m = record m { withheld = suc m.withheld }

abbrev withheld_record : IntentRecord → Text → IntentRecord
withheld_record r reason =
    moved (set_release_decision withhold r) withheld none (reported reason) none

abbrev withheld_server : Text → Text → IntentRecord → Server → Server
withheld_server id reason r sv = record sv {
  runtime =
      closed id r.intent (set_release_decision withhold r) withheld (reported reason) count_withheld
        sv.runtime;
  store = append_actuation (tombstone id reason) sv.store;
}

report_committed :
    (id reason : Text) (s : XairRuntime) {r : IntentRecord}
    → get id s.lifecycle ≡ some r
    → r.state ≡ committed
    → r.release_decision ≡ none
    → report_release id false (reported reason) none none s ≡ (
      ok (withheld_record r reason),
      closed id r.intent
          (set_release_decision withhold r)
          withheld
          (reported reason)
          count_withheld
          s,
    )
unfolding report_release withhold_found admissible
report_committed id reason s {r} h e d =
    bind_ok (find_record id) (λ q. report_found q id false (reported reason) none none) s
      (find_record_lem id s h)
    ∙ ap (λ m. m s) (committed_withheld r id (reported reason) e d)
    ∙ close_lem r.intent id (set_release_decision withhold) withheld (reported reason)
        count_withheld s h (subst (λ x. admissible x withheld ≡ true) (sym e) refl)

-- a request whose tombstone the store appends, and which it answers
answered_withheld :
    (link : Link) (id reason : Text) (sv : Server) {r : IntentRecord}
    → append_linked link (tombstone id reason) sv.store
      ≡ (true, append_actuation (tombstone id reason) sv.store)
    → get id sv.runtime.lifecycle ≡ some r
    → r.state ≡ committed
    → r.release_decision ≡ none
    → post_withheld link id reason sv
      ≡ (success (withheld_record r reason), withheld_server id reason r sv)
unfolding post_withheld same_state
answered_withheld link id reason sv {r} a h e d =
    ground (arith, a, h, e, report_committed id reason sv.runtime h e d)

-- and one that it does not answer
unanswered_withheld :
    (link : Link) (id reason : Text) (sv : Server) (store : Contents) {r : IntentRecord}
    → append_linked link (tombstone id reason) sv.store ≡ (false, store)
    → get id sv.runtime.lifecycle ≡ some r
    → r.state ≡ committed
    → post_withheld link id reason sv ≡ (server_error, record sv { store = store })
unfolding post_withheld same_state
unanswered_withheld link id reason sv store {r} a h e = ground (arith, a, h, e)

again_withheld :
    (link : Link) (id reason : Text) (sv : Server) (q : IntentRecord)
    → get id sv.runtime.lifecycle ≡ some q
    → q.state ≡ withheld
    → is_some q.commit_seq ≡ true
    → post_withheld link id reason sv ≡ (success q, sv)
unfolding post_withheld same_state
again_withheld link id reason sv q h e c = ground (arith, h, e, c)

repeated_withheld :
    (again : Link) (id reason other : Text) (sv : Server) (r : IntentRecord)
    → is_some r.commit_seq ≡ true
    → post_withheld again id other (withheld_server id reason r sv)
      ≡ (success (withheld_record r reason), withheld_server id reason r sv)
unfolding moved closed
repeated_withheld again id reason other sv r n =
    again_withheld again id other (withheld_server id reason r sv) (withheld_record r reason)
      (find_advanced id (set_release_decision withhold r) withheld (reported reason)
        sv.runtime.lifecycle)
      refl n

-- What a first request to withhold a committed intent leads to, by how it reaches the store, and a second one.
abbrev pub WithheldOnce :
    (first again : Link)
    → (id reason other : Text) → IntentRecord
    → Server
    → Response × Server
    → Type 0
WithheldOnce local again id reason other r sv (x, sv') =
    (x ≡ success (moved (set_release_decision withhold r) withheld none (reported reason) none))
    × (sv'.store ≡ append_actuation (tombstone id reason) sv.store)
    × (post_withheld again id other sv' ≡ (x, sv'))
WithheldOnce reached again id reason other r sv (x, sv') =
    (x ≡ success (moved (set_release_decision withhold r) withheld none (reported reason) none))
    × (sv'.store ≡ append_actuation (tombstone id reason) sv.store)
    × (post_withheld again id other sv' ≡ (x, sv'))
WithheldOnce failed again id reason other r sv (x, sv') = (x ≡ server_error) × (sv' ≡ sv)
WithheldOnce lost again id reason other r sv (x, sv') =
    (x ≡ server_error)
    × (sv'.runtime ≡ sv.runtime)
    × (sv'.store ≡ append_actuation (tombstone id reason) sv.store)
    × ((post_withheld local id other sv').1.store
        ≡ append_actuation (tombstone id other) (append_actuation (tombstone id reason) sv.store))

withheld_once :
    (first again : Link) (id reason other : Text) (sv : Server) {r : IntentRecord}
    → get id sv.runtime.lifecycle ≡ some r
    → r.release_decision ≡ none
    → r.state ≡ committed
    → is_some r.commit_seq ≡ true
    → WithheldOnce first again id reason other r sv (post_withheld first id reason sv)
unfolding moved closed append_linked
withheld_once local again id reason other sv {r} h d e n =
    rw (answered_withheld local id reason sv refl h e d)
      (refl, refl, repeated_withheld again id reason other sv r n)
withheld_once reached again id reason other sv {r} h d e n =
    rw (answered_withheld reached id reason sv refl h e d)
      (refl, refl, repeated_withheld again id reason other sv r n)
withheld_once failed again id reason other sv {r} h d e n =
    rw (unanswered_withheld failed id reason sv sv.store refl h e) (refl, refl)
withheld_once lost again id reason other sv {r} h d e n =
    let store = append_actuation (tombstone id reason) sv.store in
    let sv' : Server = record sv { store = store } in
    rw (unanswered_withheld lost id reason sv store refl h e)
      (refl, refl, refl, ap (λ x. x.1.store) (answered_withheld local id other sv' refl h e d))

-- If the store answers, withholding a COMMITTED intent appends one tombstone to the log and makes the intent
-- WITHHELD; asked again, over whatever link and with whatever reason, the endpoint answers with the same
-- record and changes nothing. If the store is not reached, the answer is 500 and nothing has changed. If
-- only the answer of the store is lost, it is 500 with the tombstone in the log and the intent still
-- COMMITTED, and a second request that the store answers appends a second tombstone. The record is
-- consistent and has its position in the log.
pub post_withheld_once :
    (first again : Link) (id reason other : Text) (sv : Server) {r : IntentRecord}
    → get id sv.runtime.lifecycle ≡ some r
    → Consistent r
    → r.state ≡ committed
    → is_some r.commit_seq ≡ true
    → WithheldOnce first again id reason other r sv (post_withheld first id reason sv)
post_withheld_once first again id reason other sv h c e n =
    withheld_once first again id reason other sv h (ground (arith, c.decision)) e n
