-- ===== src/Server/Commits.antt =====
-- The commit endpoint across the runtime and the store: what its answer says of the actuation log.
use ld1_execution_gap_xair.Base.{
  List, length, ℕ, ◌≡◌, ◌≢◌, refl, sym, ap, subst, ◌∙◌, Bool, true, false, not, ◌&&◌, Option, none,
  some, if◌then◌else◌, arith, Bool-cases, ◌⊎◌, inl, inr, suc,
}
use ld1_execution_gap_xair.Base.Int.{ℤ, ◌-ℤ◌}
use ld1_execution_gap_xair.Base.Text.{Text, same_text_refl}
use ld1_execution_gap_xair.Base.Dict.{member, member-add}
use ld1_execution_gap_xair.Model.{
  IntentRecord, authorized, committed, withheld, withhold, Reason, same_state,
}
use ld1_execution_gap_xair.Temporal.{validate_release}
use ld1_execution_gap_xair.Lifecycle.{get, ok, moved, admissible}
use ld1_execution_gap_xair.Runtime.State.{
  XairRuntime, Metrics, ◌>>◌, find_record, release_lock, advance,
}
use ld1_execution_gap_xair.Runtime.Reports.{
  record_commit, commit_found, set_commit_seq, set_release_decision,
}
use ld1_execution_gap_xair.Runtime.Advance.{bind_ok, close_lem, closed, find_record_lem}
use ld1_execution_gap_xair.Store.Versions.{AllWithin}
use ld1_execution_gap_xair.Store.Commit.{
  LogRecord, Contents, Status, Request, Reply, duplicate, observed_version, commit_status,
  append_authorization, contents_after, commit_memory,
}
use ld1_execution_gap_xair.Store.Script.{
  Cjson, recode_from, recode_from-length, count_authorized-recode_from, commit_redis,
  commit_redis-commit_memory,
}
use ld1_execution_gap_xair.Store.Log.{IsLogged, count_authorized, commit_memory-IsLogged}
use ld1_execution_gap_xair.Store.Commits.{commit_memory-refused}
use ld1_execution_gap_xair.Server.Endpoints.{
  Link, local, reached, failed, lost, commit_authorization, Server, success, CommitRequest,
  request_of, is_logged_status, is_skew, commit_in_store, commit_in_runtime, post_commit,
}

contents_after-member :
    (status : Status) (clock : ℤ) (q : Request) (s : Contents)
    → (status ≡ duplicate → member q.intent_id s.committed ≡ true)
    → is_logged_status status ≡ true
    → member q.intent_id (contents_after status clock q s).committed ≡ true
unfolding append_authorization
contents_after-member Status.committed clock q s d h =
    ground (arith, member-add q.intent_id q.intent_id s.committed, same_text_refl q.intent_id)
contents_after-member duplicate clock q s d h = d refl
contents_after-member Status.changed clock q s d h = cc h
contents_after-member Status.expired clock q s d h = cc h
contents_after-member Status.future_skew clock q s d h = cc h
contents_after-member Status.unavailable clock q s d h = cc h

commit_status-duplicate :
    (is_logged : Bool) (age observed : ℤ) (q : Request)
    → commit_status is_logged age observed q ≡ duplicate
    → is_logged ≡ true
unfolding commit_status
commit_status-duplicate is_logged age observed q h = ground arith

-- after an answer that counts as a commit, the log holds the authorization once
pub commit_memory-count :
    (clock : ℤ) (q : Request) (s : Contents)
    → IsLogged s
    → is_logged_status (commit_memory clock q s).0.status ≡ true
    → count_authorized q.intent_id (commit_memory clock q s).1.actuations ≡ 1
unfolding commit_memory IsLogged
commit_memory-count clock q s h e =
    let status =
      commit_status (member q.intent_id s.committed) (clock -ℤ q.decision_epoch)
        (observed_version q.scope q.paths s.document) q in
    let logged = commit_memory-IsLogged clock q s h q.intent_id in
    ground
      (arith, logged, contents_after-member status clock q s (commit_status-duplicate _ _ _ q) e)

not_committed : (status : Status) → is_logged_status status ≡ false → status ≡ Status.committed → ⊥
not_committed status e f = ground arith

-- what the store says and holds after a commit, over any link
record Logs (link : Link) (q : Request) (s : Contents) (done : Reply × Contents) : Type 0 where
  once : is_logged_status done.0.status ≡ true → count_authorized q.intent_id done.1.actuations ≡ 1
  unchanged : is_logged_status done.0.status ≡ false → link ≢ lost → done.1 ≡ s

commit_memory-Logs :
    (link : Link) (clock : ℤ) (q : Request) (s : Contents)
    → IsLogged s
    → Logs link q s (commit_memory clock q s)
commit_memory-Logs link clock q s h = record {
  once = commit_memory-count clock q s h;
  unchanged =
      λ e k. commit_memory-refused clock q s (not_committed (commit_memory clock q s).0.status e);
}

commit_redis-Logs :
    (j : Cjson) (clock : ℤ) (q : Request) (s : Contents)
    → IsLogged s
    → AllWithin s.document.version s.document.path_versions
    → Logs reached q s (commit_redis j clock q s)
commit_redis-Logs j clock q s h w =
    let same = commit_redis-commit_memory j clock q s w in
    let n = length s.actuations in
    let done = (commit_memory clock q s).1 in
    let with_log : List LogRecord → Contents = λ l. record s { actuations = l } in
    let rewritten : Contents → Contents =
      λ c. record c { actuations = recode_from j n c.actuations } in
    let status = ap (λ o. o.0) same in
    let contents = ap (λ o. o.2) same in
    record {
      once = λ e.
          ap (λ c. count_authorized q.intent_id c.actuations) contents
          ∙ count_authorized-recode_from j q.intent_id n done.actuations
          ∙ commit_memory-count clock q s h (subst (λ x. is_logged_status x ≡ true) status e);
      unchanged = λ e k.
          contents
          ∙ ap rewritten (
              commit_memory-refused clock q s (
                not_committed (commit_memory clock q s).0.status
                  (subst (λ x. is_logged_status x ≡ false) status e)))
          ∙ ap with_log (recode_from-length j s.actuations);
    }

commit_authorization-Logs :
    (link : Link) (j : Cjson) (clock known : ℤ) (q : Request) (s : Contents)
    → IsLogged s
    → AllWithin s.document.version s.document.path_versions
    → Logs link q s (commit_authorization link j clock known q s)
unfolding commit_authorization
commit_authorization-Logs local j clock known q s h w = commit_memory-Logs local clock q s h
commit_authorization-Logs reached j clock known q s h w = commit_redis-Logs j clock q s h w
commit_authorization-Logs failed j clock known q s h w = record {
  once = λ e. cc e;
  unchanged = λ e k. refl;
}
commit_authorization-Logs lost j clock known q s h w = record {
  once = λ e. cc e;
  unchanged = λ e k. elim (k refl) [ ];
}

abbrev count_commit : Metrics → Metrics
count_commit m = record m { committed = suc m.committed }

abbrev count_withheld : Metrics → Metrics
count_withheld m = record m { withheld = suc m.withheld }

found_authorized :
    (r : IntentRecord) (id : Text) (c : Bool) (why : Reason) (seq : Option ℕ)
    → r.state ≡ authorized
    → commit_found r id c why seq ≡ (
        if c
        then release_lock r.intent
          >> (advance id (set_commit_seq seq) committed why count_commit >> find_record id)
        else release_lock r.intent
          >> (advance id (set_release_decision withhold) withheld why count_withheld
              >> find_record id))
unfolding commit_found same_state
found_authorized r id true why seq e = ground arith
found_authorized r id false why seq e = ground arith

-- the record of an authorized intent after `record_commit`
abbrev pub recorded : IntentRecord → Bool → Reason → Option ℕ → IntentRecord
recorded r true why seq = moved (set_commit_seq seq r) committed none why none
recorded r false why seq = moved (set_release_decision withhold r) withheld none why none

abbrev runtime_after : IntentRecord → Text → Bool → Reason → Option ℕ → XairRuntime → XairRuntime
runtime_after r id true why seq s =
    closed id r.intent (set_commit_seq seq r) committed why count_commit s
runtime_after r id false why seq s =
    closed id r.intent (set_release_decision withhold r) withheld why count_withheld s

pub record_commit_lem :
    (id : Text) (c : Bool) (why : Reason) (seq : Option ℕ) (s : XairRuntime) {r : IntentRecord}
    → get id s.lifecycle ≡ some r
    → r.state ≡ authorized
    → record_commit id c why seq s ≡ (ok (recorded r c why seq), runtime_after r id c why seq s)
unfolding record_commit admissible
record_commit_lem id true why seq s {r} h e =
    bind_ok (find_record id) (λ q. commit_found q id true why seq) s (find_record_lem id s h)
    ∙ ap (λ m. m s) (found_authorized r id true why seq e)
    ∙ close_lem r.intent id (set_commit_seq seq) committed why count_commit s h
        (subst (λ x. admissible x committed ≡ true) (sym e) refl)
record_commit_lem id false why seq s {r} h e =
    bind_ok (find_record id) (λ q. commit_found q id false why seq) s (find_record_lem id s h)
    ∙ ap (λ m. m s) (found_authorized r id false why seq e)
    ∙ close_lem r.intent id (set_release_decision withhold) withheld why count_withheld s h
        (subst (λ x. admissible x withheld ≡ true) (sym e) refl)

-- What the answer to a commit means for the log of actuations.
abbrev pub Means : Link → Text → (old new : Contents) → IntentRecord → Type 0
Means link id old new q =
    ((q.state ≡ committed) × (count_authorized id new.actuations ≡ 1))
    ⊎ ((q.state ≡ withheld) × (link ≢ lost → new ≡ old))

-- the commit of an authorized record, as its two parts one after the other
pub authorized_commit :
    (link : Link) (now clock : ℤ) (body : CommitRequest) (id : Text) (sv : Server)
    {r : IntentRecord}
    → get id sv.runtime.lifecycle ≡ some r
    → r.state ≡ authorized
    → let (o, sv') = commit_in_store link now clock body id r sv in
      post_commit link now clock body id sv ≡ commit_in_runtime id o sv'
unfolding post_commit same_state
authorized_commit link now clock body id sv {r} h e = ground (arith, h, e)

pub commit_in_store-runtime :
    (link : Link) (now clock : ℤ) (body : CommitRequest) (id : Text) (r : IntentRecord)
    (sv : Server)
    → (commit_in_store link now clock body id r sv).1.runtime ≡ sv.runtime
unfolding commit_in_store
commit_in_store-runtime link now clock body id r sv = ground arith

-- the store part alone
pub commit_in_store-Means :
    (link : Link) (now clock : ℤ) (body : CommitRequest) (id : Text) (r : IntentRecord)
    (sv : Server)
    → IsLogged sv.store
    → AllWithin sv.store.document.version sv.store.document.path_versions
    → let (o, sv') = commit_in_store link now clock body id r sv in
      Means link id sv.store sv'.store (recorded r o.is_committed o.reason o.seq)
unfolding commit_in_store request_of moved
commit_in_store-Means link now clock body id r sv h w =
    let v = validate_release sv.runtime.temporal r.intent now in
    let q = request_of sv.runtime.temporal body id r in
    let done = commit_authorization link sv.cjson clock sv.known q sv.store in
    let logs = commit_authorization-Logs link sv.cjson clock sv.known q sv.store h w in
    elim (Bool-cases (not v.0 && is_skew v.1)) [
      | inl a ↦ rw (a) (inr (refl, λ k. refl))
      | inr a ↦ elim (Bool-cases (is_logged_status done.0.status)) [
        | inl b ↦ rw (a, b) (inl (refl, logs.once b))
        | inr b ↦ rw (a, b) (inr (refl, logs.unchanged b))
      ]
    ]

-- A commit of an AUTHORIZED intent always answers with its record, over whatever link: COMMITTED, and
-- then the log holds exactly one authorization of the intent; or WITHHELD, and then the store is
-- unchanged, unless the answer of the store was lost. The log agrees with the set of committed intents
-- before it, and no path version is negative or above the document's.
pub post_commit-Means :
    (link : Link) (now clock : ℤ) (body : CommitRequest) (id : Text) (sv : Server)
    {r : IntentRecord}
    → get id sv.runtime.lifecycle ≡ some r
    → r.state ≡ authorized
    → IsLogged sv.store
    → AllWithin sv.store.document.version sv.store.document.path_versions
    → let (x, sv') = post_commit link now clock body id sv in
      ((q : IntentRecord) × (x ≡ success q) × Means link id sv.store sv'.store q)
unfolding commit_in_runtime
post_commit-Means link now clock body id sv {r} h e logged w =
    let o = (commit_in_store link now clock body id r sv).0 in
    let sv' = (commit_in_store link now clock body id r sv).1 in
    let found : get id sv'.runtime.lifecycle ≡ some r =
      ap (λ x. get id x.lifecycle) (commit_in_store-runtime link now clock body id r sv) ∙ h in
    rw
      (
        authorized_commit link now clock body id sv h e,
        record_commit_lem id o.is_committed o.reason o.seq sv'.runtime found e,
      )
      (
        recorded r o.is_committed o.reason o.seq,
        refl,
        commit_in_store-Means link now clock body id r sv logged w,
      )
