-- ===== src/Tests/Stores.antt =====
-- The theorems about the context store at concrete inputs: a line whose speed changes between the
-- validation of an intent that reads its state, and the commit.
use ld1_execution_gap_xair.Base.{◌≡◌, ◌↔◌, refl, arith, true, false, some, List, [], ◌∷◌, get_elem?}
use ld1_execution_gap_xair.Base.Int.{ℤ, pos, ◌*ℤ◌, ◌+ℤ◌, ◌-ℤ◌, ◌≤ℤ◌}
use ld1_execution_gap_xair.Base.Text.{Text, txt, same_text, starts_with}
use ld1_execution_gap_xair.Base.Dict.{lookup, insert, member}
use ld1_execution_gap_xair.Value.{num_eq, field_of}
use ld1_execution_gap_xair.Predicate.Scan.{
  is_digit, is_word, is_space, drop_spaces, strip, span_path, take_path, split_dots,
}
use ld1_execution_gap_xair.Predicate.Parse.{parse, take_op, until_quote, literal_of}
use ld1_execution_gap_xair.Predicate.Check.{
  judge, align, compare_values, compare_numbers, check_expression, resolve_path, resolve_parts,
}
use ld1_execution_gap_xair.Versioning.{
  deep_merge, leaf_items, get_path, get_parts, changed_paths, changed_among, is_changed, same_value,
  py_eq, related, path_of, read_set, read_set_from, set_field, any_related, max_related,
  read_set_version, predicate_version, predicate_version_from,
}
use ld1_execution_gap_xair.Store.Document.{
  Document, Operation, update, perform, perform_all, apply, stamp, retire, revise, retruth,
  retruth_all, index_changes, touches, prefixes, prefixes_all, root_of, expr_path, any_member,
  truth_of,
}
use ld1_execution_gap_xair.Store.Changes.{some_related, touches-some_related}
use ld1_execution_gap_xair.Store.History.{IsVersioned}
use ld1_execution_gap_xair.Store.Registry.{AreTrue, perform_all-AreTrue}
use ld1_execution_gap_xair.Store.Commit.{
  readset, truth, Scope, Contents, authorization, stamp_of, Request, committed, entry_versions,
  observed_version, is_ahead, is_past, has_moved, commit_status, append_authorization,
  commit_memory,
}
use ld1_execution_gap_xair.Store.Script.{Cjson}
use ld1_execution_gap_xair.Store.Log.{
  Step, commit, withhold, change, steps, IsLogged, steps-IsLogged, count_authorized,
}
use ld1_execution_gap_xair.Store.Commits.{
  NotAhead, NotPast, commit_memory_iff, commit_memory-stays, commit_memory-same_verdict,
}
use ld1_execution_gap_xair.Store.Standing.{IsStanding, commit_memory-same_truth}
use ld1_execution_gap_xair.Tests.Predicates.{line, patch, patch-HasKeys, running}

abbrev pub before : Document
before = record {
  context = line;
  version = pos 1;
  path_versions = (txt "line.state", pos 1) ∷ (txt "line.speed", pos 1) ∷ [];
  predicates = (running, record { version = pos 1; truth = true; registered = pos 0 }) ∷ [];
}

-- a new speed, which the predicate does not read
abbrev operations : List Operation
operations = update (pos 5) patch ∷ []

-- decided at 1 s and committed at 1.2 s, within 500 ms
abbrev request : Scope → List Text → ℤ → Request
request scope paths expected = record {
  intent_id = txt "i1";
  paths = paths;
  expected = expected;
  command = record {
    action_type = txt "RESUME";
    target_entity = txt "conveyor";
    parameters = [];
    read_set = txt "line.state" ∷ [];
    read_set_version = pos 1;
    predicates = running ∷ [];
    predicate_version = pos 1;
    scope = scope;
    decision_epoch = pos 1000000;
    release_bound = pos 500000;
  };
  decision_epoch = pos 1000000;
  age_bound = some (pos 500000);
  max_ahead = some (pos 0);
  scope = scope;
}

abbrev pub by_paths : Request
by_paths = request readset (txt "line.state" ∷ []) (pos 1)

abbrev by_truth : Request
by_truth = request truth (running ∷ []) (pos 1)

abbrev pub holding : Document → Contents
holding d = record { document = d; actuations = []; committed = []; kv = [] }

abbrev after : Contents
after = holding (perform_all (pos 3600000000) operations before)

pub before-IsVersioned : IsVersioned before
before-IsVersioned = record {
  counted = omega arith;
  within = (omega arith, omega arith, (omega arith, omega arith, tt));
}

before-IsStanding : IsStanding before
unfolding entry_versions truth_of check_expression parse strip take_path span_path drop_spaces
    is_space is_word is_digit take_op literal_of until_quote lookup resolve_path resolve_parts
    field_of same_text judge align compare_values split_dots compare_numbers num_eq py_eq same_value
before-IsStanding = record {
  counted = omega arith;
  within = (omega arith, omega arith, tt);
  distinct = (refl, tt);
  current = (refl, tt);
}

by_paths_commits : (commit_memory (pos 1200000) by_paths after).0.status ≡ committed
unfolding commit_memory commit_status observed_version read_set_version max_related any_related
    related predicate_version predicate_version_from entry_versions lookup member is_ahead is_past
    has_moved perform_all perform apply deep_merge set_field field_of same_text changed_paths
    changed_among is_changed leaf_items get_path get_parts split_dots same_value py_eq num_eq ◌*ℤ◌
    stamp insert revise retire retruth_all retruth index_changes prefixes_all prefixes root_of
    expr_path touches any_member read_set read_set_from path_of take_path span_path drop_spaces
    is_space is_word is_digit starts_with ◌+ℤ◌ ◌-ℤ◌
by_paths_commits = refl

by_truth_commits : (commit_memory (pos 1200000) by_truth after).0.status ≡ committed
unfolding commit_memory commit_status observed_version read_set_version max_related any_related
    related predicate_version predicate_version_from entry_versions lookup member is_ahead is_past
    has_moved perform_all perform apply deep_merge set_field field_of same_text changed_paths
    changed_among is_changed leaf_items get_path get_parts split_dots same_value py_eq num_eq ◌*ℤ◌
    stamp insert revise retire retruth_all retruth index_changes prefixes_all prefixes root_of
    expr_path touches any_member read_set read_set_from path_of take_path span_path drop_spaces
    is_space is_word is_digit starts_with ◌+ℤ◌ ◌-ℤ◌
by_truth_commits = refl

commit_memory-same_verdict_example :
    check_expression running after.document.context ≡ check_expression running line
unfolding read_set read_set_from path_of take_path span_path drop_spaces is_space is_word is_digit
    member same_text read_set_version max_related any_related related starts_with
commit_memory-same_verdict_example =
    commit_memory-same_verdict (pos 3600000000) (pos 1200000) operations before by_paths after
      running (running ∷ []) before-IsVersioned (patch-HasKeys, tt) refl refl refl refl refl
      by_paths_commits

commit_memory-same_truth_example : truth_of running after.document.context ≡ truth_of running line
unfolding member same_text predicate_version predicate_version_from entry_versions lookup
commit_memory-same_truth_example =
    commit_memory-same_truth (pos 3600000000) (pos 1200000) operations before by_truth after running
      before-IsStanding (patch-HasKeys, tt) refl refl refl refl by_truth_commits

commit_memory_iff_example : ((commit_memory (pos 1200000) by_paths after).0.status ≡ committed) ↔ (
    (member (txt "i1") [] ≡ false)
    × NotAhead (some (pos 0)) (pos 1200000 -ℤ pos 1000000)
    × NotPast (some (pos 500000)) (pos 1200000 -ℤ pos 1000000)
    × (pos 0 ≤ℤ pos 1)
    × (observed_version readset (txt "line.state" ∷ []) after.document ≡ pos 1))
commit_memory_iff_example = commit_memory_iff (pos 1200000) by_paths after

abbrev two_attempts : List Step
two_attempts =
    commit (pos 1200000) by_paths
    ∷ change (update (pos 5) patch)
    ∷ commit (pos 1300000) by_paths
    ∷ withhold (txt "i1") (txt "late")
    ∷ []

pub before-IsLogged : IsLogged (holding before)
unfolding IsLogged count_authorized member
before-IsLogged = λ id. refl

steps-IsLogged_example : IsLogged (steps (pos 3600000000) two_attempts (holding before))
steps-IsLogged_example =
    steps-IsLogged (pos 3600000000) two_attempts (holding before) before-IsLogged

commit_memory-stays_example :
    get_elem?
      (steps
        (pos 3600000000)
        two_attempts
        (commit_memory (pos 1200000) by_paths after).1).actuations
      0
    ≡ some (authorization (txt "i1") by_paths.command (stamp_of (pos 1200000) by_paths after))
unfolding commit_memory commit_status observed_version read_set_version max_related any_related
    related predicate_version predicate_version_from entry_versions lookup member is_ahead is_past
    has_moved perform_all perform apply deep_merge set_field field_of same_text changed_paths
    changed_among is_changed leaf_items get_path get_parts split_dots same_value py_eq num_eq ◌*ℤ◌
    stamp insert revise retire retruth_all retruth index_changes prefixes_all prefixes root_of
    expr_path touches any_member read_set read_set_from path_of take_path span_path drop_spaces
    is_space is_word is_digit starts_with ◌+ℤ◌ ◌-ℤ◌ append_authorization
commit_memory-stays_example =
    commit_memory-stays (pos 3600000000) (pos 1200000) by_paths after 0 two_attempts refl

-- a cjson that keeps a command, and of a stamp the time only
abbrev pub plain : Cjson
plain = record {
  command = λ c. c;
  stamp = λ t. record { commit_version = pos 0; store_time = t.store_time; age_at_commit = pos 0 };
}

touches-some_related_example :
    touches (index_changes (txt "line.speed" ∷ [])) (txt "line")
    ≡ some_related (txt "line.speed" ∷ []) (txt "line")
touches-some_related_example = touches-some_related (txt "line.speed" ∷ []) (txt "line")

perform_all-AreTrue_example : AreTrue after.document.context after.document.predicates
perform_all-AreTrue_example =
    perform_all-AreTrue (pos 3600000000) operations before (patch-HasKeys, tt)
      before-IsStanding.current
