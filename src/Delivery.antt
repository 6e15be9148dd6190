-- ===== src/Delivery.antt =====
-- From the commit of an intent (xair/adapters/http_server.py) through the log of the store to the effect
-- (xair/adapters/actuation_consumer.py).
use ld1_execution_gap_xair.Base.{
  ℕ, ◌≤◌, ◌≡◌, subst, false, List, [], ◌∷◌, ◌++◌, All, arith, some, Bool-cases, inl, inr,
}
use ld1_execution_gap_xair.Base.Int.{ℤ}
use ld1_execution_gap_xair.Base.Text.{Text, same_text, same_text_iff}
use ld1_execution_gap_xair.Model.{IntentRecord, authorized, committed}
use ld1_execution_gap_xair.Lifecycle.{get}
use ld1_execution_gap_xair.Store.Versions.{AllWithin}
use ld1_execution_gap_xair.Store.Commit.{LogRecord, authorization, tombstone, stopped, Contents}
use ld1_execution_gap_xair.Store.Log.{
  IsLogged, count_authorized, count_authorized-append, authorizes,
}
use ld1_execution_gap_xair.Server.Endpoints.{Link, Server, CommitRequest, post_commit, success}
use ld1_execution_gap_xair.Server.Commits.{Means, post_commit-Means}
use ld1_execution_gap_xair.Consumer.Poll.{Actuator, Consumer, World, poll, restart}
use ld1_execution_gap_xair.Consumer.Replay.{IsOnce, count_effects}
use ld1_execution_gap_xair.Consumer.Progress.{Progress}
use ld1_execution_gap_xair.Consumer.Rounds.{Round, rounds, HasEffect, rounds-exactly_once}

authorized_effect :
    (id : Text) (a : Actuator) (log : List LogRecord)
    → 1 ≤ count_authorized id log
    → All (HasEffect a) log
    → count_effects id a.effects ≡ 1
unfolding count_authorized authorizes
authorized_effect id a [] l h = absurd (none_of l)
  where
    none_of : 1 ≤ 0 → ⊥
    none_of l = omega arith
authorized_effect id a (authorization i command stamp ∷ rs) l h =
    elim (Bool-cases (same_text i id)) [
      | inl e ↦ subst (λ x. count_effects x a.effects ≡ 1) ((same_text_iff i id).0 e) h.0
      | inr e ↦ authorized_effect id a rs (ground (arith, l, e)) h.1
    ]
authorized_effect id a (tombstone i reason ∷ rs) l h =
    authorized_effect id a rs (omega (arith, l)) h.1
authorized_effect id a (stopped i source kind target epoch ∷ rs) l h =
    authorized_effect id a rs (omega (arith, l)) h.1

rounds-count :
    (key id : Text) (rs : List Round) (c : Consumer) (s : Contents)
    → count_authorized id s.actuations ≤ count_authorized id (rounds key rs c s).1.actuations
unfolding rounds
rounds-count key id [] c s = omega arith
rounds-count key id (r ∷ rs) c s =
    let p = poll r.world key c s in
    omega (
      arith,
      rounds-count key id rs (restart p.consumer)
          (record s { kv = p.kv; actuations = s.actuations ++ r.more }),
      count_authorized-append id s.actuations r.more,
    )

logged_once :
    (link : Link) (id : Text) (old new : Contents) (q : IntentRecord)
    → q.state ≡ committed
    → Means link id old new q
    → count_authorized id new.actuations ≡ 1
logged_once link id old new q e (inl m) = m.1
logged_once link id old new q e (inr m) = cc (e, m.0)

-- An intent whose commit the endpoint answered with COMMITTED has exactly one effect, once a consumer without
-- the recheck has polled to the end of the log, however often its processes were killed before and whatever
-- the log gained meanwhile. The intent is AUTHORIZED at the commit, the log agrees with the set of committed
-- intents, no path version is negative or above the document's, and the actuator has each effect it knows of
-- once, and those of the records below the offset.
pub committed_has_effect :
    (link : Link) (now clock : ℤ) (body : CommitRequest) (id key : Text) (sv : Server)
    {r : IntentRecord} (q : IntentRecord) (rs : List Round) (w : World) (c : Consumer)
    → get id sv.runtime.lifecycle ≡ some r
    → r.state ≡ authorized
    → IsLogged sv.store
    → AllWithin sv.store.document.version sv.store.document.path_versions
    → (post_commit link now clock body id sv).0 ≡ success q
    → q.state ≡ committed
    → IsOnce c.actuator
    → Progress key
        (post_commit link now clock body id sv).1.store.actuations
        c
        (post_commit link now clock body id sv).1.store.kv
    → ((m : ℕ) → w.crashes m ≡ false)
    → let (c', s') = rounds key rs c (post_commit link now clock body id sv).1.store in
      count_effects id (poll w key c' s').consumer.actuator.effects ≡ 1
committed_has_effect link now clock body id key sv {r} q rs w c h e logged within x done once
      progress quiet =
    let s = (post_commit link now clock body id sv).1.store in
    let c' = (rounds key rs c s).0 in
    let s' = (rounds key rs c s).1 in
    let (q', x', means) = post_commit-Means link now clock body id sv h e logged within in
    let same : q' ≡ q = cc (x, x') in
    let one = logged_once link id sv.store s q done (subst (Means link id sv.store s) same means) in
    let (_, _, effects) = rounds-exactly_once key rs w c s once progress quiet in
    authorized_effect id (poll w key c' s').consumer.actuator s'.actuations
      (omega (arith, rounds-count key id rs c s, one)) effects
