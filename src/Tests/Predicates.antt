-- ===== src/Tests/Predicates.antt =====
-- The theorems about predicates and their read-sets at concrete inputs.
use ld1_execution_gap_xair.Base.{◌≡◌, refl, true, some, [], ◌∷◌, ◌↔◌, ◌==◌}
use ld1_execution_gap_xair.Base.Int.{pos, ◌*ℤ◌}
use ld1_execution_gap_xair.Base.Text.{Text, txt, same_text, starts_with}
use ld1_execution_gap_xair.Value.{finite, Fields, end, field, num, str, obj, field_of, num_eq}
use ld1_execution_gap_xair.Predicate.Scan.{
  is_digit, is_word, is_space, drop_spaces, strip, span_path, take_path, split_dots,
}
use ld1_execution_gap_xair.Predicate.Parse.{Op, parse, take_op, until_quote, literal_of}
use ld1_execution_gap_xair.Predicate.Check.{check_expression, evaluate_predicates}
use ld1_execution_gap_xair.Predicate.Laws.{AllPass, evaluate_predicates_iff}
use ld1_execution_gap_xair.Versioning.{
  deep_merge, leaf_items, get_path, get_parts, changed_paths, changed_among, is_changed, same_value,
  py_eq, related, path_of,
}
use ld1_execution_gap_xair.Versioning.Merge.{HasKeys}
use ld1_execution_gap_xair.Versioning.ReadSet.{parse-path_of}
use ld1_execution_gap_xair.Versioning.Verdict.{update_keeps_verdict}

abbrev pub line : Fields
line =
    field (txt "line")
      (obj (field (txt "state") (str (txt "RUN")) (field (txt "speed") (str (txt " 1.5e1 ")) end)))
      end

abbrev pub running : Text
running = txt " line.state == 'RUN' "

-- a new speed: the state is not touched
abbrev pub patch : Fields
patch = field (txt "line") (obj (field (txt "speed") (num (finite (pos 4) 0)) end)) end

abbrev pub slow : Text
slow = txt "line.speed<=15.00"

evaluate_predicates_iff_example :
    ((evaluate_predicates (λ n. n == 7) (running ∷ []) (slow ∷ []) line).0 ≡ true)
    ↔ (AllPass (λ n. n == 7) 0 (running ∷ []) line × AllPass (λ n. n == 7) 1 (slow ∷ []) line)
evaluate_predicates_iff_example =
    evaluate_predicates_iff (λ n. n == 7) (running ∷ []) (slow ∷ []) line

pub patch-HasKeys : HasKeys patch
unfolding HasKeys field_of
patch-HasKeys = (refl, (refl, tt, tt), tt)

update_keeps_verdict_example :
    check_expression running (deep_merge line patch) ≡ check_expression running line
unfolding path_of changed_paths changed_among is_changed same_value py_eq num_eq ◌*ℤ◌ leaf_items
    get_path get_parts field_of related same_text starts_with take_path span_path drop_spaces
    is_space is_word is_digit split_dots
update_keeps_verdict_example = update_keeps_verdict running line patch patch-HasKeys (refl, tt)

parse-path_of_example : path_of running ≡ some (txt "line.state")
unfolding parse strip take_path span_path drop_spaces is_space is_word is_digit take_op literal_of
    until_quote
parse-path_of_example =
    parse-path_of running
      (record { path = txt "line.state"; op = Op.equal; literal = str (txt "RUN") }) refl
