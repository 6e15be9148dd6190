-- ===== src/Tests/Passes.antt =====
-- The theorem on the pass of an intent at a concrete input: a resume of the conveyor while the line
-- runs and the target is free.
use ld1_execution_gap_xair.Base.{refl, true, false, none, some, [], ◌∷◌}
use ld1_execution_gap_xair.Base.Int.{pos}
use ld1_execution_gap_xair.Base.Text.{txt, same_text}
use ld1_execution_gap_xair.Base.Dict.{lookup}
use ld1_execution_gap_xair.Value.{Fields, end, field, str, obj}
use ld1_execution_gap_xair.Model.{ActionIntent, created, same_state}
use ld1_execution_gap_xair.Lifecycle.{get}
use ld1_execution_gap_xair.Runtime.State.{XairRuntime}
use ld1_execution_gap_xair.Runtime.Admission.{action_class, apply_policy}
use ld1_execution_gap_xair.Runtime.Validation.{Pass, is_validatable, decide_on, process_intent}
use ld1_execution_gap_xair.Runtime.Pass.{Lands, process_intent-Lands}
use ld1_execution_gap_xair.Tests.Fixtures.{resume, at_state, runtime_with}

abbrev line : Fields
line = field (txt "line") (obj (field (txt "state") (str (txt "RUN")) end)) end

abbrev pub new : ActionIntent
new = resume (txt "n")

-- the operator mandates a predicate that the producer left out
abbrev pub waiting : XairRuntime
waiting =
    record (runtime_with
      (record { records = (txt "n", at_state (txt "n") created none) ∷ []; audit = [] })) {
        active_targets = [];
        policy = (txt "RESUME", txt "line.speed <= 15" ∷ []) ∷ [];
      }

abbrev pub pass : Pass
pass = record {
  now = pos 1400000;
  late = λ _. false;
  latency = 1;
  context = some line;
  context_version = some (pos 4);
  path_versions = none;
  predicate_versions = none;
  requeue = true;
}

process_intent-Lands_example :
    Lands
      (decide_on pass (apply_policy new waiting).0 line waiting)
      (apply_policy new waiting).0
      []
      (process_intent pass new waiting)
unfolding get lookup same_text is_validatable same_state action_class
process_intent-Lands_example = process_intent-Lands pass new waiting refl refl refl refl
