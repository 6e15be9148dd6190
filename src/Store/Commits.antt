-- ===== src/Store/Commits.antt =====
-- What a commit promises: when it succeeds, where its record stays, and what it says of the context.
use ld1_execution_gap_xair.Base.{
  ℕ, suc, ◌≡◌, ◌↔◌, refl, subst, ◌∙◌, Bool, true, false, Option, none, some, List, [], ◌∷◌, ◌++◌,
  length-append, arith, get_elem?, get_elem?-append, get_elem?-last,
}
use ld1_execution_gap_xair.Base.Int.{ℤ, pos, ◌-ℤ◌, ◌≤ℤ◌, eq_ℤ_iff}
use ld1_execution_gap_xair.Base.Text.{Text}
use ld1_execution_gap_xair.Base.Dict.{member}
use ld1_execution_gap_xair.Versioning.{read_set, read_set_version}
use ld1_execution_gap_xair.Predicate.Check.{check_expression}
use ld1_execution_gap_xair.Store.Document.{Document, Operation, perform_all}
use ld1_execution_gap_xair.Store.History.{IsVersioned, AreDicts, same_version-same_verdict}
use ld1_execution_gap_xair.Store.Commit.{
  readset, Contents, LogRecord, authorization, stamp_of, Status, committed, Request,
  observed_version, is_ahead, is_past, has_moved, commit_status, append_authorization, seq_after,
  contents_after, commit_memory,
}
use ld1_execution_gap_xair.Store.Log.{
  Step, change, commit, withhold, stop, put, step, steps, append_actuation, kv_set,
}

-- an age within the bound of a request, and not more ahead of the store's clock than it allows
abbrev pub NotPast : Option ℤ → ℤ → Type 0
NotPast none age = Unit
NotPast (some b) age = age ≤ℤ b

abbrev pub NotAhead : Option ℤ → ℤ → Type 0
NotAhead none age = Unit
NotAhead (some m) age = pos 0 -ℤ m ≤ℤ age

is_past_iff : (bound : Option ℤ) (age : ℤ) → (is_past bound age ≡ false) ↔ NotPast bound age
unfolding is_past
is_past_iff none age = ((λ _. tt), λ _. refl)
is_past_iff (some b) age = ground arith

is_ahead_iff : (bound : Option ℤ) (age : ℤ) → (is_ahead bound age ≡ false) ↔ NotAhead bound age
unfolding is_ahead
is_ahead_iff none age = ((λ _. tt), λ _. refl)
is_ahead_iff (some m) age = ground arith

has_moved_iff :
    (observed expected : ℤ)
    → (has_moved observed expected ≡ false) ↔ ((pos 0 ≤ℤ expected) × (observed ≡ expected))
unfolding has_moved
has_moved_iff observed expected = ground (arith, eq_ℤ_iff observed expected)

commit_status_iff :
    (is_logged : Bool) (age observed : ℤ) (q : Request)
    → (commit_status is_logged age observed q ≡ committed) ↔ (
        (is_logged ≡ false)
        × (is_ahead q.max_ahead age ≡ false)
        × (is_past q.age_bound age ≡ false)
        × (has_moved observed q.expected ≡ false))
unfolding commit_status
commit_status_iff is_logged age observed q = ground arith

-- A commit succeeds exactly if the intent has none in the log yet, its decision is not further ahead of
-- the clock of the store than allowed, its age is within the bound, and the version that the store
-- observes is the expected one and not negative.
pub commit_memory_iff :
    (clock : ℤ) (q : Request) (s : Contents)
    → ((commit_memory clock q s).0.status ≡ committed) ↔ (
        (member q.intent_id s.committed ≡ false)
        × NotAhead q.max_ahead (clock -ℤ q.decision_epoch)
        × NotPast q.age_bound (clock -ℤ q.decision_epoch)
        × (pos 0 ≤ℤ q.expected)
        × (observed_version q.scope q.paths s.document ≡ q.expected))
unfolding commit_memory
commit_memory_iff clock q s =
    let age = clock -ℤ q.decision_epoch in
    let observed = observed_version q.scope q.paths s.document in
    ground (
      arith,
      commit_status_iff (member q.intent_id s.committed) age observed q,
      is_ahead_iff q.max_ahead age,
      is_past_iff q.age_bound age,
      has_moved_iff observed q.expected,
    )

-- a refused commit leaves what the store holds
contents_after-refused :
    (status : Status) (clock : ℤ) (q : Request) (s : Contents)
    → (status ≡ committed → ⊥)
    → contents_after status clock q s ≡ s
contents_after-refused committed clock q s h = elim (h refl) [ ]
contents_after-refused Status.changed clock q s h = refl
contents_after-refused Status.expired clock q s h = refl
contents_after-refused Status.duplicate clock q s h = refl
contents_after-refused Status.future_skew clock q s h = refl
contents_after-refused Status.unavailable clock q s h = refl

-- A commit with any other answer changes nothing of what the store holds.
pub commit_memory-refused :
    (clock : ℤ) (q : Request) (s : Contents)
    → ((commit_memory clock q s).0.status ≡ committed → ⊥)
    → (commit_memory clock q s).1 ≡ s
unfolding commit_memory
commit_memory-refused clock q s h =
    contents_after-refused
      (commit_status (member q.intent_id s.committed) (clock -ℤ q.decision_epoch)
        (observed_version q.scope q.paths s.document) q)
      clock q s h

contents_after-keeps :
    (status : Status) (clock : ℤ) (q : Request) (s : Contents) (n : ℕ) (r : LogRecord)
    → get_elem? s.actuations n ≡ some r
    → get_elem? (contents_after status clock q s).actuations n ≡ some r
unfolding append_authorization
contents_after-keeps committed clock q s n r h = get_elem?-append s.actuations _ n r h
contents_after-keeps Status.changed clock q s n r h = h
contents_after-keeps Status.expired clock q s n r h = h
contents_after-keeps Status.duplicate clock q s n r h = h
contents_after-keeps Status.future_skew clock q s n r h = h
contents_after-keeps Status.unavailable clock q s n r h = h

step-keeps :
    (retention : ℤ) (o : Step) (s : Contents) (n : ℕ) (r : LogRecord)
    → get_elem? s.actuations n ≡ some r
    → get_elem? (step retention o s).actuations n ≡ some r
unfolding step commit_memory append_actuation kv_set
step-keeps retention (change o) s n r h = h
step-keeps retention (commit clock q) s n r h =
    contents_after-keeps
      (commit_status (member q.intent_id s.committed) (clock -ℤ q.decision_epoch)
        (observed_version q.scope q.paths s.document) q)
      clock q s n r h
step-keeps retention (withhold id reason) s n r h = get_elem?-append s.actuations _ n r h
step-keeps retention (stop id source kind target epoch) s n r h =
    get_elem?-append s.actuations _ n r h
step-keeps retention (put k v) s n r h = h

pub steps-keeps :
    (retention : ℤ) (os : List Step) (s : Contents) (n : ℕ) (r : LogRecord)
    → get_elem? s.actuations n ≡ some r
    → get_elem? (steps retention os s).actuations n ≡ some r
unfolding steps
steps-keeps retention [] s n r h = h
steps-keeps retention (o ∷ os) s n r h =
    steps-keeps retention os (step retention o s) n r (step-keeps retention o s n r h)

seq_after-last :
    (status : Status) (clock : ℤ) (q : Request) (s : Contents) (n : ℕ)
    → seq_after status (contents_after status clock q s) ≡ some (suc n)
    → get_elem? (contents_after status clock q s).actuations n
      ≡ some (authorization q.intent_id q.command (stamp_of clock q s))
unfolding append_authorization
seq_after-last committed clock q s n h =
    let r = authorization q.intent_id q.command (stamp_of clock q s) in
    subst (λ k. get_elem? (s.actuations ++ r ∷ []) k ≡ some r)
      (ground (arith, length-append s.actuations (r ∷ []), h)) (get_elem?-last s.actuations r)
seq_after-last Status.changed clock q s n h = cc h
seq_after-last Status.expired clock q s n h = cc h
seq_after-last Status.duplicate clock q s n h = cc h
seq_after-last Status.future_skew clock q s n h = cc h
seq_after-last Status.unavailable clock q s n h = cc h

-- The position that a commit returns is that of its authorization, stamped with the version of the
-- document, the clock and the age, and whatever the processes do later, the record stays there.
pub commit_memory-stays :
    (retention clock : ℤ) (q : Request) (s : Contents) (n : ℕ) (os : List Step)
    → (commit_memory clock q s).0.seq ≡ some (suc n)
    → get_elem? (steps retention os (commit_memory clock q s).1).actuations n
      ≡ some (authorization q.intent_id q.command (stamp_of clock q s))
unfolding commit_memory
commit_memory-stays retention clock q s n os h =
    let status =
      commit_status (member q.intent_id s.committed) (clock -ℤ q.decision_epoch)
        (observed_version q.scope q.paths s.document) q in
    steps-keeps retention os (contents_after status clock q s) n _
      (seq_after-last status clock q s n h)

-- If a commit with the scope of the read-set succeeds, then each predicate of the intent has on the
-- context at the commit the verdict and the message that it had on the context at its validation,
-- whatever operations on the document came in between, for a document whose path versions lie between 0
-- and its version, and patches whose keys name one field each.
pub commit_memory-same_verdict :
    (retention clock : ℤ) (os : List Operation) (d : Document) (q : Request) (s : Contents)
    (e : Text) (es : List Text)
    → IsVersioned d
    → AreDicts os
    → member e es ≡ true
    → s.document ≡ perform_all retention os d
    → q.scope ≡ readset
    → q.paths ≡ read_set es
    → q.expected ≡ read_set_version d.path_versions (read_set es)
    → (commit_memory clock q s).0.status ≡ committed
    → check_expression e s.document.context ≡ check_expression e d.context
unfolding observed_version
commit_memory-same_verdict retention clock os d q s e es h k m at scope paths expected done =
    let (_, _, _, _, same) = (commit_memory_iff clock q s).0 done in
    let same' : read_set_version s.document.path_versions (read_set es) ≡ q.expected =
      subst (λ x. read_set_version s.document.path_versions x ≡ q.expected) paths
        (subst (λ x. observed_version x q.paths s.document ≡ q.expected) scope same) in
    rw (at) (
      same_version-same_verdict retention os d e es h k m (
        subst
          (λ x.
            read_set_version x.path_versions (read_set es)
            ≡ read_set_version d.path_versions (read_set es))
          at (same' ∙ expected)))
