-- ===== src/Versioning/Verdict.antt =====
-- A predicate whose read-set an update does not touch keeps its verdict.
use ld1_execution_gap_xair.Base.{
  ◌≡◌, refl, sym, subst, true, false, Option, none, some, List, [], ◌∷◌, All, arith, Option-cases,
  inl, inr,
}
use ld1_execution_gap_xair.Base.Int.{◌*ℤ◌}
use ld1_execution_gap_xair.Base.Text.{Text, same_text_iff}
use ld1_execution_gap_xair.Value.{
  Number, Value, null, bool, num, str, arr, obj, Fields, num_eq, field_of,
}
use ld1_execution_gap_xair.Value.Order.{num_lt-left, num_lt-right, num_eq-left, num_eq-right}
use ld1_execution_gap_xair.Predicate.Scan.{split_dots, strip}
use ld1_execution_gap_xair.Predicate.Paths.{IsPart, take_path-parts}
use ld1_execution_gap_xair.Predicate.Float.{to_float}
use ld1_execution_gap_xair.Predicate.Parse.{Op, Parsed, parse}
use ld1_execution_gap_xair.Predicate.Check.{
  judge, resolve_path, resolve_parts, or_null, align, compare_values, compare_numbers,
  check_expression, check_parsed, check_stripped,
}
use ld1_execution_gap_xair.Versioning.{
  deep_merge, get_parts, get_path, same_value, changed_paths, related, path_of, py_eq,
}
use ld1_execution_gap_xair.Versioning.Merge.{HasKeys, get_parts-none}
use ld1_execution_gap_xair.Versioning.Steady.{Alike, same, objects, equal_values}
use ld1_execution_gap_xair.Versioning.Unchanged.{unrelated_keeps}
use ld1_execution_gap_xair.Versioning.ReadSet.{parse-path_of, parse-take_path}

resolve_parts_null : (ks : List Text) → resolve_parts null ks ≡ null
unfolding resolve_parts
resolve_parts_null [] = refl
resolve_parts_null (k ∷ ks) = refl

resolve_parts-get_parts :
    (v : Value) (ks : List Text) → resolve_parts v ks ≡ or_null (get_parts (some v) ks)
unfolding resolve_parts get_parts
resolve_parts-get_parts v [] = refl
resolve_parts-get_parts (obj fs) (k ∷ ks) = elim (Option-cases (field_of k fs)) [
  | inl e ↦ rw (e, get_parts-none ks) (resolve_parts_null ks)
  | inr (w, e) ↦ rw (e) (resolve_parts-get_parts w ks)
]
resolve_parts-get_parts null (k ∷ ks) = refl
resolve_parts-get_parts (bool b) (k ∷ ks) = refl
resolve_parts-get_parts (num n) (k ∷ ks) = refl
resolve_parts-get_parts (str s) (k ∷ ks) = refl
resolve_parts-get_parts (arr xs) (k ∷ ks) = refl

compare_numbers-left :
    (op : Op) (m n l : Number) → num_eq m n ≡ true → compare_numbers op m l ≡ compare_numbers op n l
unfolding compare_numbers
compare_numbers-left op m n l h =
    ground
      (arith, num_lt-left m n l h, num_lt-right m n l h, num_eq-left m n l h, num_eq-right m n l h)

judge_number :
    (e : Text) (op : Op) (literal : Value) (m n : Number)
    → num_eq m n ≡ true
    → judge e op (num m) literal ≡ judge e op (num n) literal
unfolding judge align compare_values
judge_number e op null m n h = refl
judge_number e op (bool b) m n h = refl
judge_number e op (num l) m n h = rw (compare_numbers-left op m n l h) refl
judge_number e op (str s) m n h = elim (Option-cases (to_float s)) [
  | inl f ↦ rw (f) refl
  | inr (l, f) ↦ rw (f, compare_numbers-left op m n l h) refl
]
judge_number e op (arr xs) m n h = refl
judge_number e op (obj fs) m n h = refl

judge_equal :
    (e : Text) (op : Op) (literal x v : Value)
    → same_value (some x) v ≡ true
    → judge e op x literal ≡ judge e op v literal
unfolding judge align compare_values same_value py_eq num_eq ◌*ℤ◌
judge_equal e op literal null null h = refl
judge_equal e op literal (bool true) (bool true) h = refl
judge_equal e op literal (bool false) (bool false) h = refl
judge_equal e op literal (bool true) (bool false) h = cc h
judge_equal e op literal (bool false) (bool true) h = cc h
judge_equal e op literal (num m) (num n) h = judge_number e op literal m n h
judge_equal e op literal (str s) (str t) h = rw ((same_text_iff s t).0 h) refl
judge_equal e op literal (arr xs) (arr ys) h = refl
judge_equal e op literal (obj fs) (obj gs) h = refl
judge_equal e op literal x v h = cc h

judge-Alike :
    (e : Text) (op : Op) (literal : Value) (a b : Option Value)
    → Alike a b
    → judge e op (or_null a) literal ≡ judge e op (or_null b) literal
unfolding judge align compare_values same_value
judge-Alike e op literal a _ same = refl
judge-Alike e op literal (some (obj fs)) (some (obj gs)) objects = refl
judge-Alike e op literal none (some v) (equal_values h) = cc h
judge-Alike e op literal (some x) (some v) (equal_values h) = judge_equal e op literal x v h

-- the paths are unrelated to the path of a predicate, if it has one
abbrev pub Untouched : Option Text → List Text → Type 0
Untouched none changed = Unit
Untouched (some p) changed = All (λ c. related c p ≡ false) changed

check_parsed_keeps :
    (e : Text) (old patch : Fields) (P : Parsed)
    → HasKeys patch
    → All IsPart (split_dots P.path)
    → All (λ c. related c P.path ≡ false) (changed_paths old patch)
    → check_parsed (strip e) (deep_merge old patch) (some P) ≡ check_parsed (strip e) old (some P)
unfolding resolve_path get_path
check_parsed_keeps e old patch P d parts h =
    rw
      (
        resolve_parts-get_parts (obj (deep_merge old patch)) (split_dots P.path),
        resolve_parts-get_parts (obj old) (split_dots P.path),
      )
      (sym (judge-Alike (strip e) P.op P.literal _ _ (unrelated_keeps old patch P.path d parts h)))

check_stripped_lem :
    (s : Text) (ctx ctx' : Fields)
    → check_parsed s ctx (parse s) ≡ check_parsed s ctx' (parse s)
    → check_stripped s ctx ≡ check_stripped s ctx'
check_stripped_lem [] ctx ctx' h = refl
check_stripped_lem (c ∷ s) ctx ctx' h = h

-- An update that changes no path related to the read-set path of a predicate leaves the result of the
-- predicate, verdict and message, as it was, for every expression, one that does not parse included.
pub update_keeps_verdict :
    (e : Text) (old patch : Fields)
    → HasKeys patch
    → Untouched (path_of e) (changed_paths old patch)
    → check_expression e (deep_merge old patch) ≡ check_expression e old
unfolding check_expression
update_keeps_verdict e old patch d h =
    check_stripped_lem (strip e) (deep_merge old patch) old (elim (Option-cases (parse (strip e))) [
      | inl f ↦ rw (f) refl
      | inr (P, f) ↦
          let (r, g) = parse-take_path (strip e) P f in
          rw (f) (
            check_parsed_keeps e old patch P d (take_path-parts (strip e) P.path r g)
              (subst (λ o. Untouched o (changed_paths old patch)) (parse-path_of e P f) h))
    ])
