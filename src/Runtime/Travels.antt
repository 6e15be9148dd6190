-- ===== src/Runtime/Travels.antt =====
-- The primitives of a method as steps of the lifecycle.
pub mod Validate
pub mod Admit
use ld1_execution_gap_xair.Base.{
  ℕ, Bool, true, false, ◌≡◌, refl, sym, subst, ap, Option, none, arith, Bool-cases, Option-cases,
  inl, inr, if◌then◌else◌,
}
use ld1_execution_gap_xair.Base.Text.{Text}
use ld1_execution_gap_xair.Model.{
  ActionIntent, IntentState, pending, validating, authorized, delayed, degraded, revoked, expired,
  IntentRecord, DecisionOutcome, Reason,
}
use ld1_execution_gap_xair.Lifecycle.{
  LifecycleTracker, Error, Result, ok, err, get, register, admissible, transition,
}
use ld1_execution_gap_xair.Lifecycle.Steps.{
  registers, edits, moves, Kept, Written, OutcomeFor, Reach, here, Reach-one, Reach-trans,
}
use ld1_execution_gap_xair.Runtime.State.{
  XairRuntime, Metrics, Action, pure, raise, gets, modify, bind_result, ◌>>=◌, ◌>>◌, find_record,
  edit, transition_to, bump,
}
use ld1_execution_gap_xair.Runtime.Advance.{transition_found, transition_refused}
use ld1_execution_gap_xair.Runtime.Outcomes.{tracker_after, find_record-leaves}
use ld1_execution_gap_xair.Runtime.Admission.{register_intent}
use ld1_execution_gap_xair.Runtime.Validation.{queue_again}

-- A call that takes the tracker only where its steps lead, from every state.
pub record Travels {A : Type 0} (m : Action A) : Type 0 where
  pub at : (s : XairRuntime) → Reach s.lifecycle (tracker_after (m s))

module _ {A B : Type 0} where
  bind_result-Reach :
      (p : Result A × XairRuntime) (f : A → Action B) (l : LifecycleTracker)
      → Reach l (tracker_after p)
      → ((a : A) → Travels (f a))
      → Reach l (tracker_after (bind_result p f))
  bind_result-Reach (ok a, s) f l h t = Reach-trans h ((t a).at s)
  bind_result-Reach (err e, s) f l h t = h

  pub Travels-bind :
      (m : Action A) (f : A → Action B) → Travels m → ((a : A) → Travels (f a)) → Travels (m >>= f)
  Travels-bind m f d k = record { at = λ s. bind_result-Reach (m s) f s.lifecycle (d.at s) k }

module _ {A : Type 0} where
  pub Travels-pure : (a : A) → Travels (pure a)
  Travels-pure a = record { at = λ s. here }

  pub Travels-raise : (e : Error) → Travels (raise {A = A} e)
  Travels-raise e = record { at = λ s. here }

  pub Travels-gets : (f : XairRuntime → A) → Travels (gets f)
  Travels-gets f = record { at = λ s. here }

  pub Travels-if :
      (b : Bool) (m n : Action A) → Travels m → Travels n → Travels (if b then m else n)
  Travels-if true m n d e = d
  Travels-if false m n d e = e

pub Travels-bump : (f : Metrics → Metrics) → Travels (bump f)
unfolding bump
Travels-bump f = record { at = λ s. here }

pub Travels-find_record : (id : Text) → Travels (find_record id)
Travels-find_record id = record {
  at = λ s. subst (λ l. Reach s.lifecycle l) (sym (find_record-leaves id s)) here;
}

pub Travels-edit :
    (id : Text) (f : IntentRecord → IntentRecord)
    → ((r : IntentRecord) → Kept id r (f r))
    → Travels (edit id f)
unfolding edit
Travels-edit id f k = record {
  at = λ s. elim (Option-cases (get id s.lifecycle)) [
    | inl missing ↦ rw (missing) here
    | inr (r, h) ↦ rw (h) (Reach-one (edits id r (f r) h (k r) refl))
  ];
}

pub keeps_id :
    (id : Text) (r r' : IntentRecord)
    → r'.intent.id ≡ r.intent.id
    → r'.state ≡ r.state
    → r'.outcome ≡ r.outcome
    → r'.release_decision ≡ r.release_decision
    → r'.effect_status ≡ r.effect_status
    → r'.commit_seq ≡ r.commit_seq
    → Kept id r r'
keeps_id id r r' a b c d e f = record {
  known_id = inl a;
  same_state = b;
  same_outcome = c;
  decision = d;
  effect = e;
  seq = f;
}

pub keeps_key :
    (id : Text) (r r' : IntentRecord)
    → r'.intent.id ≡ id
    → r'.state ≡ r.state
    → r'.outcome ≡ r.outcome
    → r'.release_decision ≡ r.release_decision
    → r'.effect_status ≡ r.effect_status
    → r'.commit_seq ≡ r.commit_seq
    → Kept id r r'
keeps_key id r r' a b c d e f = record {
  known_id = inr a;
  same_state = b;
  same_outcome = c;
  decision = d;
  effect = e;
  seq = f;
}

-- the states that a validation moves a record to
abbrev pub is_before_release : IntentState → Bool
is_before_release pending = true
is_before_release validating = true
is_before_release authorized = true
is_before_release delayed = true
is_before_release degraded = true
is_before_release revoked = true
is_before_release expired = true
is_before_release _ = false

nothing-Written : (r : IntentRecord) (t : IntentState) → is_before_release t ≡ true → Written r r t
nothing-Written r t b = ground arith

transition_missing :
    (id : Text) (t : IntentState) (o : Option DecisionOutcome) (why : Reason) (n : Option ℕ)
    (l : LifecycleTracker)
    → get id l ≡ none
    → (transition id t o why n l).1 ≡ l
unfolding transition
transition_missing id t o why n l h = ground (arith, h)

pub Travels-transition :
    (id : Text) (t : IntentState) (o : Option DecisionOutcome) (why : Reason) (n : Option ℕ)
    → is_before_release t ≡ true
    → OutcomeFor t o
    → Travels (transition_to id t o why n)
unfolding transition_to
Travels-transition id t o why n b w = record {
  at = λ s. elim (Option-cases (get id s.lifecycle)) [
    | inl missing ↦
        subst (λ l. Reach s.lifecycle l) (sym (transition_missing id t o why n s.lifecycle missing))
          here
    | inr (r, h) ↦ elim (Bool-cases (admissible r.state t)) [
      | inl a ↦ Reach-one (
          moves id r r t o why n h (nothing-Written r t b) w a
            (ap (λ p. p.1) (transition_found id t o why n s.lifecycle r h a)))
      | inr a ↦
          subst (λ l. Reach s.lifecycle l)
            (sym (ap (λ p. p.1) (transition_refused id t o why n s.lifecycle r h a))) here
    ]
  ];
}

pub Travels-queue_again : (b : Bool) (i : ActionIntent) → Travels (queue_again b i)
Travels-queue_again true i = record { at = λ s. here }
Travels-queue_again false i = record { at = λ s. here }

pub Travels-ends :
    (id : Text) (t : IntentState) (o : Option DecisionOutcome) (why : Reason) (n : Option ℕ)
    (count : Metrics → Metrics)
    → is_before_release t ≡ true
    → OutcomeFor t o
    → Travels (transition_to id t o why n >> (bump count >> find_record id))
Travels-ends id t o why n count b w =
    Travels-bind _ _ (Travels-transition id t o why n b w)
      (λ _. Travels-bind _ _ (Travels-bump count) (λ _. Travels-find_record id))

pub Travels-ends_queued :
    (id : Text) (t : IntentState) (o : Option DecisionOutcome) (why : Reason) (n : Option ℕ)
    (count : Metrics → Metrics) (requeue : Bool) (i : ActionIntent)
    → is_before_release t ≡ true
    → OutcomeFor t o
    → Travels
        (transition_to id t o why n >> (bump count >> (queue_again requeue i >> find_record id)))
Travels-ends_queued id t o why n count requeue i b w =
    Travels-bind _ _ (Travels-transition id t o why n b w) (λ _.
      Travels-bind _ _ (Travels-bump count)
        (λ _. Travels-bind _ _ (Travels-queue_again requeue i) (λ _. Travels-find_record id)))

-- an assignment that leaves the tracker as it is
pub Travels-takes :
    (g : XairRuntime → XairRuntime)
    → ((s : XairRuntime) → (g s).lifecycle ≡ s.lifecycle)
    → Travels (modify g)
Travels-takes g k = record { at = λ s. subst (λ l. Reach s.lifecycle l) (sym (k s)) here }

pub Travels-register :
    (i : ActionIntent) → Travels (modify (λ s. record s { lifecycle = register i s.lifecycle }))
Travels-register i = record { at = λ s. Reach-one (registers i refl) }

pub Travels-register_intent : (i : ActionIntent) → Travels (register_intent i)
unfolding register_intent
Travels-register_intent i = search (Travels-bind, Travels-register, Travels-find_record)
