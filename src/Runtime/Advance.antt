-- ===== src/Runtime/Advance.antt =====
-- The primitives of the runtime at a record that is there.
use ld1_execution_gap_xair.Base.{true, false, ◌≡◌, ◌∙◌, ap, ℕ, Option, none, some, arith}
use ld1_execution_gap_xair.Base.Text.{Text, same_text_refl}
use ld1_execution_gap_xair.Base.Dict.{insert, lookup-insert, insert-insert}
use ld1_execution_gap_xair.Model.{DecisionOutcome, IntentState, Reason, ActionIntent, IntentRecord}
use ld1_execution_gap_xair.Coordination.{release_target}
use ld1_execution_gap_xair.Lifecycle.{
  LifecycleTracker, Error, key_error, invalid_transition, ok, err, get, moved, admissible,
  transition, transition_from,
}
use ld1_execution_gap_xair.Lifecycle.Steps.{advanced, get-advanced}
use ld1_execution_gap_xair.Runtime.State.{
  XairRuntime, Metrics, Action, release_lock, ◌>>=◌, ◌>>◌, bind_result, bump, find_record, edit,
  transition_to, advance,
}

pub find_record_lem :
    (id : Text) (s : XairRuntime) {r : IntentRecord}
    → get id s.lifecycle ≡ some r
    → find_record id s ≡ (ok r, s)
unfolding find_record
find_record_lem id s h = ground arith

pub find_record_missing :
    (id : Text) (s : XairRuntime)
    → get id s.lifecycle ≡ none
    → find_record id s ≡ (err (key_error id), s)
unfolding find_record
find_record_missing id s h = ground arith

pub transition_found :
    (id : Text) (t : IntentState) (o : Option DecisionOutcome) (why : Reason) (n : Option ℕ)
    (l : LifecycleTracker) (r : IntentRecord)
    → get id l ≡ some r
    → admissible r.state t ≡ true
    → transition id t o why n l ≡ (ok (moved r t o why n), advanced id r t o why n l)
unfolding transition advanced transition_from
transition_found id t o why n l r h ok_move =
    rw (h, transition) (rw (ok_move, insert-insert id (moved r t o why n) r l.records))

pub transition_refused :
    (id : Text) (t : IntentState) (o : Option DecisionOutcome) (why : Reason) (n : Option ℕ)
    (l : LifecycleTracker) (r : IntentRecord)
    → get id l ≡ some r
    → admissible r.state t ≡ false
    → transition id t o why n l ≡ (err (invalid_transition id r.state t), l)
unfolding transition transition_from
transition_refused id t o why n l r h refused = rw (h, transition) (rw refused)

-- A step that raises ends the call in the state that it leaves.
pub bind_err :
    {A B : Type 0} (m : Action A) (f : A → Action B) (s : XairRuntime) {e : Error} {t : XairRuntime}
    → m s ≡ (err e, t)
    → (m >>= f) s ≡ (err e, t)
bind_err m f s h = ap (λ p. bind_result p f) h

-- A step that returns hands its value and its state to the rest.
pub bind_ok :
    {A B : Type 0} (m : Action A) (f : A → Action B) (s : XairRuntime) {a : A} {t : XairRuntime}
    → m s ≡ (ok a, t)
    → (m >>= f) s ≡ f a t
bind_ok m f s h = ap (λ p. bind_result p f) h

abbrev pub edited : Text → IntentRecord → XairRuntime → XairRuntime
edited id r s = record s {
  lifecycle = record (s.lifecycle) { records = insert id r s.lifecycle.records };
}

pub edit_lem :
    (id : Text) (f : IntentRecord → IntentRecord) (s : XairRuntime) {r : IntentRecord}
    → get id s.lifecycle ≡ some r
    → edit id f s ≡ (ok tt, edited id (f r) s)
unfolding edit
edit_lem id f s h = rw h

pub find_edited :
    (id : Text) (r : IntentRecord) (s : XairRuntime) → get id (edited id r s).lifecycle ≡ some r
unfolding get
find_edited id r s = rw (lookup-insert id id r s.lifecycle.records, same_text_refl id)

advanced-edited :
    (id : Text) (r : IntentRecord) (t : IntentState) (why : Reason) (s : XairRuntime)
    → advanced id r t none why none (edited id r s).lifecycle
      ≡ advanced id r t none why none s.lifecycle
unfolding advanced
advanced-edited id r t why s = rw (insert-insert id r r s.lifecycle.records)

transition_edited :
    (id : Text) (t : IntentState) (why : Reason) (s : XairRuntime) (r : IntentRecord)
    → admissible r.state t ≡ true
    → transition_to id t none why none (edited id r s) ≡ (
      ok (moved r t none why none),
      record s { lifecycle = advanced id r t none why none s.lifecycle },
    )
unfolding transition_to
transition_edited id t why s r ok_move =
    rw
      (transition_found id t none why none (edited id r s).lifecycle r (find_edited id r s) ok_move)
      (rw (advanced-edited id r t why s))

pub advance_lem :
    (id : Text) (f : IntentRecord → IntentRecord) (t : IntentState) (why : Reason)
    (count : Metrics → Metrics) (s : XairRuntime) {r : IntentRecord}
    → get id s.lifecycle ≡ some r
    → admissible (f r).state t ≡ true
    → advance id f t why count s ≡ (
      ok tt,
      record s {
        lifecycle = advanced id (f r) t none why none s.lifecycle;
        metrics = count s.metrics;
      },
    )
unfolding advance bump
advance_lem id f t why count s {r} h ok_move =
    bind_ok (edit id f) (λ _. transition_to id t none why none >> bump count) s (edit_lem id f s h)
    ∙ bind_ok (transition_to id t none why none) (λ _. bump count) _
        (transition_edited id t why s (f r) ok_move)

-- The state after a report: the record moved, the move counted, and the target set free.
unfoldable pub closed :
    Text
    → ActionIntent
    → IntentRecord
    → IntentState
    → Reason
    → (Metrics → Metrics)
    → XairRuntime
    → XairRuntime
closed id i r t why count s = record s {
  lifecycle = advanced id r t none why none s.lifecycle;
  metrics = count s.metrics;
  active_targets = release_target i s.active_targets;
}

pub find_advanced :
    (id : Text) (r : IntentRecord) (t : IntentState) (why : Reason) (l : LifecycleTracker)
    → get id (advanced id r t none why none l) ≡ some (moved r t none why none)
find_advanced id r t why l = rw (get-advanced id id r t none why none l, same_text_refl id)

pub close_lem :
    (i : ActionIntent) (id : Text) (f : IntentRecord → IntentRecord) (t : IntentState)
    (why : Reason) (count : Metrics → Metrics) (s : XairRuntime) {r : IntentRecord}
    → get id s.lifecycle ≡ some r
    → admissible (f r).state t ≡ true
    → (release_lock i >> (advance id f t why count >> find_record id)) s
      ≡ (ok (moved (f r) t none why none), closed id i (f r) t why count s)
unfolding closed release_lock
close_lem i id f t why count s {r} h ok_move =
    bind_ok (advance id f t why count) (λ _. find_record id) _
      (advance_lem id f t why count _ h ok_move)
    ∙ find_record_lem id _ (find_advanced id (f r) t why s.lifecycle)
