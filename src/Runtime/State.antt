-- ===== src/Runtime/State.antt =====
-- The state of `XAIRRuntime` and its method calls: state and exceptions. What was written before a
-- raise stays written. The re-entrant lock makes each public method one step.
use ld1_execution_gap_xair.Base.{ℕ, Bool, Option, none, some, List, [], ◌∷◌, ◌++◌, if◌then◌else◌}
use ld1_execution_gap_xair.Base.Int.{ℤ}
use ld1_execution_gap_xair.Base.Text.{Text}
use ld1_execution_gap_xair.Base.Dict.{Dict, insert}
use ld1_execution_gap_xair.Value.{Fields}
use ld1_execution_gap_xair.Model.{
  ActionIntent, ActionClass, IntentRecord, IntentState, DecisionOutcome, Reason, rejected_report,
}
use ld1_execution_gap_xair.Temporal.{TemporalValidator}
use ld1_execution_gap_xair.Coordination.{IntentReceiver, release_target}
use ld1_execution_gap_xair.Lifecycle.{
  LifecycleTracker, Error, key_error, invalid_transition, callback_error, Result, ok, err, get,
  transition, note,
}

-- The counters of `_metrics`; the list of latencies is left out.
pub record Metrics : Type 0 where
  pub intents_received : ℕ
  pub authorized : ℕ
  pub committed : ℕ
  pub released : ℕ
  pub withheld : ℕ
  pub effect_confirmed : ℕ
  pub effect_failed : ℕ
  pub effect_unknown : ℕ
  pub revoked : ℕ
  pub delayed : ℕ
  pub degraded : ℕ

-- `actuated` holds the intents with which `on_actuation` was called, the newest last; the callback is the
-- host's, and `callback_raises` says for which intents it raises.
pub record XairRuntime : Type 0 where
  pub lifecycle : LifecycleTracker
  pub receiver : IntentReceiver
  pub active_targets : List Text
  pub temporal : TemporalValidator
  pub metrics : Metrics
  pub context : Fields
  pub context_version : ℤ
  pub seen : List (Text × ℕ)
  pub retention : ℕ
  pub policy : Dict (List Text)
  pub action_classes : Dict ActionClass
  pub class_policy : ActionClass → List Text
  pub has_callback : Bool
  pub callback_raises : ActionIntent → Bool
  pub actuated : List ActionIntent

abbrev pub Action : Type 0 → Type 0
Action A = XairRuntime → Result A × XairRuntime

module _ {A : Type 0} where
  abbrev pub pure : A → Action A
  pure a s = (ok a, s)

  abbrev pub raise : Error → Action A
  raise e s = (err e, s)

  abbrev pub gets : (XairRuntime → A) → Action A
  gets f s = (ok (f s), s)

abbrev pub bind_result :
    {A B : Type 0} → Result A × XairRuntime → (A → Action B) → Result B × XairRuntime
bind_result (ok a, s) f = f a s
bind_result (err e, s) f = (err e, s)

infixl 5 ◌>>=◌ ◌>>◌
abbrev pub ◌>>=◌ : {A B : Type 0} → Action A → (A → Action B) → Action B
◌>>=◌ m f s = bind_result (m s) f

abbrev pub ◌>>◌ : {A B : Type 0} → Action A → Action B → Action B
m >> k = m >>= λ _. k

abbrev pub modify : (XairRuntime → XairRuntime) → Action (Unit {0})
modify f s = (ok tt, f s)

-- `self.lifecycle.get(intent_id)`, with the KeyError for a missing record
unfoldable pub find_record : Text → Action IntentRecord
unfolding get
find_record id s = elim (get id s.lifecycle) [ none ↦ (err (key_error id), s) | some r ↦ (ok r, s) ]

abbrev edit_found :
    Text → (IntentRecord → IntentRecord) → Option IntentRecord → LifecycleTracker → LifecycleTracker
edit_found id f none l = l
edit_found id f (some r) l = record l { records = insert id (f r) l.records }

-- An assignment to a field of the record, which the tracker shares with the caller.
unfoldable pub edit : Text → (IntentRecord → IntentRecord) → Action (Unit {0})
unfolding get
edit id f s = (ok tt, record s { lifecycle = edit_found id f (get id s.lifecycle) s.lifecycle })

-- `self.lifecycle.transition(…)`
unfoldable pub transition_to :
    Text → IntentState → Option DecisionOutcome → Reason → Option ℕ → Action IntentRecord
transition_to id t outcome reason latency s =
    let (r, l) = transition id t outcome reason latency s.lifecycle in
    (r, record s { lifecycle = l })

-- `raise self._reject(record, requested, reason)`
unfoldable pub reject : {A : Type 0} → IntentRecord → IntentState → Reason → Action A
reject r requested reason s = (
  err (invalid_transition r.intent.id r.state requested),
  record s { lifecycle = note r.intent.id (rejected_report requested reason) s.lifecycle },
)

-- `self.coordinator.release(intent)`
unfoldable pub release_lock : ActionIntent → Action (Unit {0})
unfolding release_target
release_lock i s = (ok tt, record s { active_targets = release_target i s.active_targets })

-- an update of `_metrics`
unfoldable pub bump : (Metrics → Metrics) → Action (Unit {0})
bump f s = (ok tt, record s { metrics = f s.metrics })

-- `if self.on_actuation: self.on_actuation(intent, …)`
unfoldable pub call_back : ActionIntent → Action (Unit {0})
call_back i s =
    let s' : XairRuntime = record s { actuated = s.actuated ++ i ∷ [] } in
    if s.has_callback
    then (if s.callback_raises i then (err callback_error, s') else (ok tt, s'))
    else (ok tt, s)

-- The assignments to a record, its transition and the count of it in `_metrics`, as the reports
-- make them one after the other.
unfoldable pub advance :
    Text
    → (IntentRecord → IntentRecord)
    → IntentState
    → Reason
    → (Metrics → Metrics)
    → Action (Unit {0})
unfolding edit transition_to bump
advance id f t why count = do edit id f; transition_to id t none why none; bump count
