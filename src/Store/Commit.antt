-- ===== src/Store/Commit.antt =====
-- `commit_authorization` of the in-memory store, and what it appends to the actuation log.
use ld1_execution_gap_xair.Base.{
  ℕ, Bool, false, not, ◌||◌, Option, none, some, List, [], ◌∷◌, ◌++◌, if◌then◌else◌, length,
}
use ld1_execution_gap_xair.Base.Int.{ℤ, pos, ◌-ℤ◌, ltb_ℤ, eq_ℤ}
use ld1_execution_gap_xair.Base.Text.{Text}
use ld1_execution_gap_xair.Base.Dict.{Dict, member, add}
use ld1_execution_gap_xair.Value.{Value}
use ld1_execution_gap_xair.Versioning.{read_set_version, predicate_version}
use ld1_execution_gap_xair.Store.Document.{Entry, Document}

-- which versions a commit compares
pub data Scope : Type 0 where
  readset truth : Scope

-- the record that the caller of a commit passes
pub record Command : Type 0 where
  pub action_type : Text
  pub target_entity : Text
  pub parameters : Dict Value
  pub read_set : List Text
  pub read_set_version : ℤ
  pub predicates : List Text
  pub predicate_version : ℤ
  pub scope : Scope
  pub decision_epoch : ℤ
  pub release_bound : ℤ

-- what the store adds to it
pub record Stamp : Type 0 where
  pub commit_version : ℤ
  pub store_time : ℤ
  pub age_at_commit : ℤ

-- An entry of the actuation log: an authorization, the tombstone of a withheld release, a stop.
pub data LogRecord : Type 0 where
  authorization : (intent_id : Text) (command : Command) (stamp : Stamp) → LogRecord
  tombstone : (intent_id reason : Text) → LogRecord
  stopped : (intent_id source action_type target_entity : Text) (decision_epoch : ℤ) → LogRecord

-- `_memory`, `_version`, `_path_versions` and `_preds`; `_actuations`, `_committed`, `_memory_kv`
pub record Contents : Type 0 where
  pub document : Document
  pub actuations : List LogRecord
  pub committed : List Text
  pub kv : Dict Text

pub data Status : Type 0 where
  committed changed expired duplicate future_skew unavailable : Status

-- the arguments of `commit_authorization`
pub record Request : Type 0 where
  pub intent_id : Text
  pub paths : List Text
  pub expected : ℤ
  pub command : Command
  pub decision_epoch : ℤ
  pub age_bound : Option ℤ
  pub max_ahead : Option ℤ
  pub scope : Scope

pub record Reply : Type 0 where
  pub status : Status
  pub observed : ℤ
  pub commit_version : ℤ
  pub store_time : Option ℤ
  pub age_at_commit : Option ℤ
  pub seq : Option ℕ

-- the version of each registered predicate
unfoldable pub entry_versions : Dict Entry → Dict ℤ
entry_versions [] = []
entry_versions ((e, v) ∷ entries) = (e, v.version) ∷ entry_versions entries

unfoldable pub observed_version : Scope → List Text → Document → ℤ
observed_version truth es d = predicate_version (entry_versions d.predicates) es
observed_version readset paths d = read_set_version d.path_versions paths

-- `max_ahead_ms is not None and age < -max_ahead_ms`
unfoldable pub is_ahead : Option ℤ → ℤ → Bool
is_ahead none age = false
is_ahead (some m) age = ltb_ℤ age (pos 0 -ℤ m)

-- `age_bound_ms is not None and age > age_bound_ms`
unfoldable pub is_past : Option ℤ → ℤ → Bool
is_past none age = false
is_past (some b) age = ltb_ℤ b age

-- `observed < 0 or expected < 0 or observed != expected`
unfoldable pub has_moved : (observed expected : ℤ) → Bool
has_moved observed expected =
    ltb_ℤ observed (pos 0) || ltb_ℤ expected (pos 0) || not (eq_ℤ observed expected)

-- the checks of a commit, in their order
unfoldable pub commit_status : (is_logged : Bool) (age observed : ℤ) → Request → Status
commit_status is_logged age observed q =
    if is_logged
    then duplicate
    else if is_ahead q.max_ahead age
    then future_skew
    else if is_past q.age_bound age
    then expired
    else if has_moved observed q.expected
    then changed
    else committed

abbrev pub stamp_of : (clock : ℤ) → Request → Contents → Stamp
stamp_of clock q s = record {
  commit_version = s.document.version;
  store_time = clock;
  age_at_commit = clock -ℤ q.decision_epoch;
}

unfoldable pub append_authorization : (clock : ℤ) → Request → Contents → Contents
append_authorization clock q s = record s {
  actuations = s.actuations ++ authorization q.intent_id q.command (stamp_of clock q s) ∷ [];
  committed = add q.intent_id s.committed;
}

-- `len(self._actuations)` after the append, for a commit only
abbrev pub seq_after : Status → Contents → Option ℕ
seq_after committed s = some (length s.actuations)
seq_after _ s = none

abbrev pub contents_after : Status → (clock : ℤ) → Request → Contents → Contents
contents_after committed clock q s = append_authorization clock q s
contents_after _ clock q s = s

-- `commit_authorization` in memory, at a reading of the clock
unfoldable pub commit_memory : (clock : ℤ) → Request → Contents → Reply × Contents
commit_memory clock q s =
    let age = clock -ℤ q.decision_epoch in
    let observed = observed_version q.scope q.paths s.document in
    let status = commit_status (member q.intent_id s.committed) age observed q in
    let s' = contents_after status clock q s in
    (
      record {
        status = status;
        observed = observed;
        commit_version = s.document.version;
        store_time = some clock;
        age_at_commit = some age;
        seq = seq_after status s';
      },
      s',
    )
