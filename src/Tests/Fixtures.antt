-- ===== src/Tests/Fixtures.antt =====
-- A small plant: intents on one conveyor, and a runtime that has authorized the first, delayed the
-- second and committed the third.
use ld1_execution_gap_xair.Base.{false, true, Option, none, some, [], ◌∷◌}
use ld1_execution_gap_xair.Base.Int.{pos}
use ld1_execution_gap_xair.Base.Text.{Text, txt}
use ld1_execution_gap_xair.Value.{end}
use ld1_execution_gap_xair.Model.{
  ActionIntent, aware, none_policy, IntentState, authorized, delayed, committed, IntentRecord,
  new_record, DecisionOutcome, execute, delay,
}
use ld1_execution_gap_xair.Lifecycle.{LifecycleTracker}
use ld1_execution_gap_xair.Runtime.State.{XairRuntime, Metrics}

-- decided at one second after the epoch, fresh for 500 ms, with a deadline of 800 ms
abbrev pub resume : Text → ActionIntent
resume id = record {
  id = id;
  source = txt "mes";
  timestamp_decision = aware (pos 1000000) (pos 0);
  freshness_window_ms = pos 500;
  payload = record {
    action_type = txt "RESUME";
    target_entity = txt "conveyor";
    parameters = [];
    degradation_policy = none_policy;
  };
  deadline_ms = some (pos 800);
  preconditions = txt "line.state == 'RUN'" ∷ [];
  safety_constraints = [];
  priority = pos 0;
  correlation_id = none;
  policy_added = none;
}

abbrev pub at_state : Text → IntentState → Option DecisionOutcome → IntentRecord
at_state id s o = record (new_record (resume id)) {
  state = s;
  outcome = o;
  read_set_version = pos 7;
}

abbrev zero_metrics : Metrics
zero_metrics = record {
  intents_received = 0;
  authorized = 0;
  committed = 0;
  released = 0;
  withheld = 0;
  effect_confirmed = 0;
  effect_failed = 0;
  effect_unknown = 0;
  revoked = 0;
  delayed = 0;
  degraded = 0;
}

abbrev pub runtime_with : LifecycleTracker → XairRuntime
runtime_with l = record {
  lifecycle = l;
  receiver = record { counter = 0; heap = [] };
  active_targets = txt "conveyor" ∷ [];
  temporal = record { max_future_skew = pos 1000000; clock_uncertainty = pos 0 };
  metrics = zero_metrics;
  context = end;
  context_version = pos 3;
  seen = [];
  retention = 3600;
  policy = [];
  action_classes = [];
  class_policy = λ _. [];
  has_callback = true;
  callback_raises = λ _. false;
  actuated = [];
}

abbrev pub empty_tracker : LifecycleTracker
empty_tracker = record { records = []; audit = [] }

abbrev pub plant : XairRuntime
plant = runtime_with (record {
  records =
      (txt "a", at_state (txt "a") authorized (some execute))
      ∷ (txt "b", at_state (txt "b") delayed (some delay))
      ∷ (txt "c", at_state (txt "c") committed (some execute))
      ∷ [];
  audit = [];
})
