-- ===== src/Store/Log.antt =====
-- The actuation log under every operation of the store: `append_actuation`, `kv_set` and a commit beside
-- the operations on the document.
use ld1_execution_gap_xair.Base.{
  ℕ, ◌≡◌, refl, Bool, true, false, List, [], ◌∷◌, ◌++◌, if◌then◌else◌, arith, ◌+◌,
}
use ld1_execution_gap_xair.Base.Int.{ℤ, ◌-ℤ◌}
use ld1_execution_gap_xair.Base.Text.{Text, same_text, same_text_iff}
use ld1_execution_gap_xair.Base.Dict.{insert, member, member-add}
use ld1_execution_gap_xair.Store.Document.{Operation, perform}
use ld1_execution_gap_xair.Store.Commit.{
  Contents, LogRecord, authorization, tombstone, stopped, stamp_of, Status, committed, Request,
  observed_version, commit_status, append_authorization, contents_after, commit_memory,
}

-- `append_actuation` and `kv_set` in memory
unfoldable pub append_actuation : LogRecord → Contents → Contents
append_actuation r s = record s { actuations = s.actuations ++ r ∷ [] }

unfoldable pub kv_set : Text → Text → Contents → Contents
kv_set k v s = record s { kv = insert k v s.kv }

-- what the processes that share a store do to it, one at a time
pub data Step : Type 0 where
  change : Operation → Step
  commit : (clock : ℤ) → Request → Step
  withhold : (intent_id reason : Text) → Step
  stop : (intent_id source action_type target_entity : Text) (decision_epoch : ℤ) → Step
  put : (key value : Text) → Step

unfoldable pub step : (retention : ℤ) → Step → Contents → Contents
step retention (change o) s = record s { document = perform retention o s.document }
step retention (commit clock q) s = (commit_memory clock q s).1
step retention (withhold id reason) s = append_actuation (tombstone id reason) s
step retention (stop id source kind target epoch) s =
    append_actuation (stopped id source kind target epoch) s
step retention (put k v) s = kv_set k v s

unfoldable pub steps : (retention : ℤ) → List Step → Contents → Contents
steps retention [] s = s
steps retention (o ∷ os) s = steps retention os (step retention o s)

-- how often an intent is authorized in a log
unfoldable pub authorizes : Text → LogRecord → ℕ
authorizes id (authorization i command stamp) = if same_text i id then 1 else 0
authorizes id (tombstone i reason) = 0
authorizes id (stopped i source kind target epoch) = 0

unfoldable pub count_authorized : Text → List LogRecord → ℕ
count_authorized id [] = 0
count_authorized id (r ∷ rs) = authorizes id r + count_authorized id rs

-- the set of committed intents and the log say the same
unfoldable pub IsLogged : Contents → Type 0
IsLogged s =
    (id : Text) → count_authorized id s.actuations ≡ (if member id s.committed then 1 else 0)

pub count_authorized-append :
    (id : Text) (xs ys : List LogRecord)
    → count_authorized id (xs ++ ys) ≡ count_authorized id xs + count_authorized id ys
unfolding count_authorized
count_authorized-append id [] ys = omega arith
count_authorized-append id (x ∷ xs) ys = omega (arith, count_authorized-append id xs ys)

contents_after-IsLogged :
    (status : Status) (clock : ℤ) (q : Request) (s : Contents)
    → (status ≡ committed → member q.intent_id s.committed ≡ false)
    → IsLogged s
    → IsLogged (contents_after status clock q s)
unfolding IsLogged append_authorization count_authorized authorizes
contents_after-IsLogged committed clock q s fresh h = λ id. ground (
  arith,
  fresh refl,
  h id,
  same_text_iff q.intent_id id,
  member-add q.intent_id id s.committed,
  count_authorized-append id s.actuations
      (authorization q.intent_id q.command (stamp_of clock q s) ∷ []),
)
contents_after-IsLogged Status.changed clock q s fresh h = h
contents_after-IsLogged Status.expired clock q s fresh h = h
contents_after-IsLogged Status.duplicate clock q s fresh h = h
contents_after-IsLogged Status.future_skew clock q s fresh h = h
contents_after-IsLogged Status.unavailable clock q s fresh h = h

commit_status-fresh :
    (is_logged : Bool) (age observed : ℤ) (q : Request)
    → commit_status is_logged age observed q ≡ committed
    → is_logged ≡ false
unfolding commit_status
commit_status-fresh true age observed q h = cc h
commit_status-fresh false age observed q h = refl

pub commit_memory-IsLogged :
    (clock : ℤ) (q : Request) (s : Contents) → IsLogged s → IsLogged (commit_memory clock q s).1
unfolding commit_memory
commit_memory-IsLogged clock q s h =
    contents_after-IsLogged
      (commit_status (member q.intent_id s.committed) (clock -ℤ q.decision_epoch)
        (observed_version q.scope q.paths s.document) q)
      clock q s (commit_status-fresh _ _ _ q) h

append_actuation-IsLogged :
    (r : LogRecord) (s : Contents)
    → ((id : Text) → authorizes id r ≡ 0)
    → IsLogged s
    → IsLogged (append_actuation r s)
unfolding IsLogged append_actuation count_authorized
append_actuation-IsLogged r s free h =
    λ id. omega (arith, count_authorized-append id s.actuations (r ∷ []), free id, h id)

step-IsLogged :
    (retention : ℤ) (o : Step) (s : Contents) → IsLogged s → IsLogged (step retention o s)
unfolding step authorizes
step-IsLogged retention (change o) s h = unfold IsLogged in h
step-IsLogged retention (commit clock q) s h = commit_memory-IsLogged clock q s h
step-IsLogged retention (withhold id reason) s h =
    append_actuation-IsLogged (tombstone id reason) s (λ i. refl) h
step-IsLogged retention (stop id source kind target epoch) s h =
    append_actuation-IsLogged (stopped id source kind target epoch) s (λ i. refl) h
step-IsLogged retention (put k v) s h = unfold IsLogged kv_set in h

-- However the updates, registrations, commits, tombstones and stops of the processes interleave, the log
-- holds exactly one authorization of each intent in the set of committed ones and none of any other, if it
-- does so at the start.
pub steps-IsLogged :
    (retention : ℤ) (os : List Step) (s : Contents) → IsLogged s → IsLogged (steps retention os s)
unfolding steps
steps-IsLogged retention [] s h = h
steps-IsLogged retention (o ∷ os) s h =
    steps-IsLogged retention os (step retention o s) (step-IsLogged retention o s h)
