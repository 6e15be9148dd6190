-- ===== src/Tests/Histories.antt =====
-- The whole way of an intent through the runtime: admitted, validated, committed, released and confirmed.
use ld1_execution_gap_xair.Base.{◌≡◌, refl, true, false, none, some, [], ◌∷◌, List, Option}
use ld1_execution_gap_xair.Base.Text.{txt}
use ld1_execution_gap_xair.Model.{
  IntentState, effect_confirmed, confirmed, Reason, reported, IntentRecord,
}
use ld1_execution_gap_xair.Lifecycle.{get}
use ld1_execution_gap_xair.Lifecycle.Invariant.{AllConsistent}
use ld1_execution_gap_xair.Runtime.State.{XairRuntime}
use ld1_execution_gap_xair.Runtime.Calls.{commit, release_report, effect}
use ld1_execution_gap_xair.Runtime.History.{
  AnyCall, admits, passes, reports, serve, serve_all, serve_all-AllConsistent,
}
use ld1_execution_gap_xair.Tests.Fixtures.{runtime_with, empty_tracker}
use ld1_execution_gap_xair.Tests.Passes.{new, pass}
use ld1_execution_gap_xair.Runtime.State.{
  find_record, edit, transition_to, reject, release_lock, bump, call_back, advance,
}
use ld1_execution_gap_xair.Runtime.Admission.{
  action_class, omitted, mandated, apply_policy, registered, prepare, install_context_snapshot,
  update_context, forget_settled, expire, expire_seen, known, is_duplicate, register_intent,
  admit_new, admit_known, admit,
}
use ld1_execution_gap_xair.Runtime.Validation.{
  validated, apply_degradation, is_validatable, decide_on, degrade_to, conclude, authorize_stop,
  revoke_stale, decide_with, choose, run_pass, get_or_register, process_intent,
}
use ld1_execution_gap_xair.Runtime.Reports.{
  commit_found, record_commit, gate_refusal, withhold_found, release_found, settle, report_decided,
  report_found, report_release, effect_found, report_effect, supervisory_revoke,
}
use ld1_execution_gap_xair.Runtime.Calls.{perform, revoke_step}
use ld1_execution_gap_xair.Lifecycle.{
  allowed, contains_state, admissible, is_terminal, is_settled, is_released, log_entry, register,
  forget, moved, transition_from, transition, note,
}
use ld1_execution_gap_xair.Coordination.{
  check_conflict, acquire, release_target, decide_outcome, before, push, submit, least, pop_heap,
  pop, outranks, sort_ranked, resolve,
}
use ld1_execution_gap_xair.Temporal.{
  make, decision_epoch, release_bound, age_of, is_skewed, past_deadline, validate, validate_release,
}
use ld1_execution_gap_xair.Predicate.Scan.{
  is_digit, is_word, is_space, drop_spaces, strip, lower, span_path, take_path, split_dots, upper,
}
use ld1_execution_gap_xair.Predicate.Parse.{take_op, until_quote, number_literal, literal_of, parse}
use ld1_execution_gap_xair.Predicate.Float.{to_float}
use ld1_execution_gap_xair.Predicate.Check.{
  resolve_parts, resolve_path, align, compare_numbers, compare_values, judge, check_expression,
  first_failure, evaluate_predicates, validate_context,
}
use ld1_execution_gap_xair.Versioning.{
  set_field, get_parts, get_path, same_value, is_changed, changed_among, changed_paths, path_of,
  read_set_from, read_set, related, any_related, max_related, read_set_version,
  predicate_version_from, predicate_version,
}
use ld1_execution_gap_xair.Value.{num_lt, num_eq, field_of}
use ld1_execution_gap_xair.Model.{new_record, same_state}
use ld1_execution_gap_xair.Base.Dict.{lookup, insert, member, add, discard}
use ld1_execution_gap_xair.Base.Text.{same_text, starts_with}
use ld1_execution_gap_xair.Base.Int.{◌+ℤ◌, ◌-ℤ◌, ◌*ℤ◌}

abbrev started : XairRuntime
started = record (runtime_with empty_tracker) { active_targets = [] }

abbrev why : Reason
why = reported (txt "gateway")

abbrev way : List AnyCall
way =
    admits 100 false new
    ∷ passes pass new
    ∷ reports (commit (txt "n") true why (some 1))
    ∷ reports (release_report (txt "n") true why none none)
    ∷ reports (effect (txt "n") confirmed none)
    ∷ []

abbrev state_of : Option IntentRecord → Option IntentState
state_of none = none
state_of (some r) = some r.state

-- each of the calls is accepted
confirmed_last : state_of (get (txt "n") (serve_all way started).lifecycle) ≡ some effect_confirmed
unfolding serve_all serve lookup insert find_record edit transition_to reject release_lock bump
    call_back advance action_class omitted mandated apply_policy registered prepare
    install_context_snapshot update_context forget_settled expire expire_seen known is_duplicate
    register_intent admit_new admit_known admit apply_degradation is_validatable decide_on validated
    degrade_to conclude authorize_stop revoke_stale decide_with choose run_pass get_or_register
    process_intent commit_found record_commit gate_refusal withhold_found release_found settle
    report_decided report_found report_release effect_found report_effect supervisory_revoke perform
    revoke_step allowed contains_state admissible is_terminal is_settled is_released log_entry
    register get forget moved transition_from transition note check_conflict acquire release_target
    decide_outcome before push submit least pop_heap pop outranks sort_ranked resolve make
    decision_epoch release_bound age_of is_skewed past_deadline validate validate_release is_digit
    is_word is_space drop_spaces strip lower span_path take_path split_dots upper take_op
    until_quote number_literal literal_of parse to_float resolve_parts resolve_path align
    compare_numbers compare_values judge check_expression first_failure evaluate_predicates
    validate_context set_field get_parts get_path same_value is_changed changed_among changed_paths
    path_of read_set_from read_set related any_related max_related read_set_version
    predicate_version_from predicate_version num_lt num_eq field_of new_record same_state member add
    discard same_text starts_with ◌+ℤ◌ ◌-ℤ◌ ◌*ℤ◌
confirmed_last = refl

serve_all-AllConsistent_example : AllConsistent (serve_all way started).lifecycle
serve_all-AllConsistent_example = serve_all-AllConsistent way started refl
