-- ===== src/Versioning.antt =====
-- xair/core/deep_merge.py and versioning.py: the merge of an update into the context, the paths whose
-- value it changes, and the read-sets of predicates with their versions.
pub mod Paths
pub mod Merge
pub mod Steady
pub mod Unchanged
pub mod ReadSet
pub mod Verdict
use ld1_execution_gap_xair.Base.{
  Bool, true, false, not, ◌&&◌, ◌||◌, Option, none, some, List, [], ◌∷◌, ◌++◌, if◌then◌else◌, ℕ,
  ◌==◌, suc,
}
use ld1_execution_gap_xair.Base.Int.{ℤ, pos, negsuc, ltb_ℤ}
use ld1_execution_gap_xair.Base.Text.{Text, txt, same_text, starts_with}
use ld1_execution_gap_xair.Base.Dict.{Dict, lookup, member}
use ld1_execution_gap_xair.Value.{
  Number, Value, null, bool, num, str, arr, obj, Items, nil, cons, Fields, end, field, num_eq,
  field_of,
}
use ld1_execution_gap_xair.Predicate.Scan.{drop_spaces, take_path, split_dots}

-- `out[key] = val`
unfoldable pub set_field : Text → Value → Fields → Fields
set_field k v end = field k v end
set_field k v (field j w fs) = if same_text j k then field j v fs else field j w (set_field k v fs)

unfoldable mutual
  -- `deep_merge`
  pub deep_merge : Fields → Fields → Fields
  deep_merge base end = base
  deep_merge base (field k v patch) =
      deep_merge (set_field k (merge_value (field_of k base) v) base) patch

  -- the value that a key of the patch gets
  pub merge_value : Option Value → Value → Value
  merge_value none v = v
  merge_value (some null) v = v
  merge_value (some (bool b)) v = v
  merge_value (some (num n)) v = v
  merge_value (some (str s)) v = v
  merge_value (some (arr xs)) v = v
  merge_value (some (obj fs)) (obj patch) = obj (deep_merge fs patch)
  merge_value (some (obj fs)) null = null
  merge_value (some (obj fs)) (bool b) = bool b
  merge_value (some (obj fs)) (num n) = num n
  merge_value (some (obj fs)) (str s) = str s
  merge_value (some (obj fs)) (arr xs) = arr xs

-- `f"{prefix}.{key}" if prefix else str(key)`
abbrev pub join : Text → Text → Text
join [] key = key
join (c ∷ prefix) key = (c ∷ prefix) ++ b'.' ∷ key

unfoldable mutual
  -- `leaf_items`
  pub leaf_items : Text → Fields → List (Text × Value)
  leaf_items prefix end = []
  leaf_items prefix (field k v fs) = leaves (join prefix k) v ++ leaf_items prefix fs

  pub leaves : Text → Value → List (Text × Value)
  leaves path null = (path, null) ∷ []
  leaves path (bool b) = (path, bool b) ∷ []
  leaves path (num n) = (path, num n) ∷ []
  leaves path (str s) = (path, str s) ∷ []
  leaves path (arr xs) = (path, arr xs) ∷ []
  leaves path (obj end) = (path, obj end) ∷ []
  leaves path (obj (field k v fs)) = leaves (join path k) v ++ leaf_items path fs

-- `get_path`; none is `_MISSING`
unfoldable pub get_parts : Option Value → List Text → Option Value
get_parts v [] = v
get_parts (some (obj fs)) (k ∷ ks) = get_parts (field_of k fs) ks
get_parts _ (k ∷ ks) = none

unfoldable pub get_path : Fields → Text → Option Value
get_path ctx path = get_parts (some (obj ctx)) (split_dots path)

-- Python's `a == b` on JSON values: a truth value equals the number 0 or 1.
abbrev truth_number : Bool → Number
truth_number true = Number.finite (pos 1) 0
truth_number false = Number.finite (pos 0) 0

abbrev size : Fields → ℕ
size end = 0
size (field k v fs) = suc (size fs)

-- the second operand may be missing: nothing is equal to it
unfoldable mutual
  pub py_eq : Value → Option Value → Bool
  py_eq null (some null) = true
  py_eq (bool a) (some (bool b)) = num_eq (truth_number a) (truth_number b)
  py_eq (bool a) (some (num n)) = num_eq (truth_number a) n
  py_eq (num n) (some (bool b)) = num_eq n (truth_number b)
  py_eq (num m) (some (num n)) = num_eq m n
  py_eq (str s) (some (str t)) = same_text s t
  py_eq (arr xs) (some (arr ys)) = items_eq xs ys
  py_eq (obj fs) (some (obj gs)) = size fs == size gs && fields_eq fs gs
  py_eq _ _ = false

  items_eq : Items → Items → Bool
  items_eq nil nil = true
  items_eq (cons x xs) (cons y ys) = py_eq x (some y) && items_eq xs ys
  items_eq nil (cons y ys) = false
  items_eq (cons x xs) nil = false

  -- every entry of the first object has an equal one in the second
  fields_eq : Fields → Fields → Bool
  fields_eq end gs = true
  fields_eq (field k v fs) gs = py_eq v (field_of k gs) && fields_eq fs gs

-- `same_value`
unfoldable pub same_value : Option Value → Value → Bool
same_value none w = false
same_value (some (bool a)) (bool b) = py_eq (bool a) (some (bool b))
same_value (some (num m)) (num n) = num_eq m n
same_value (some null) null = true
same_value (some (str s)) (str t) = py_eq (str s) (some (str t))
same_value (some (arr xs)) (arr ys) = py_eq (arr xs) (some (arr ys))
same_value (some (obj fs)) (obj gs) = py_eq (obj fs) (some (obj gs))
same_value (some _) _ = false

-- one leaf of `changed_paths`: an empty object merged into an object changes nothing
unfoldable pub is_changed : Option Value → Value → Bool
is_changed (some (obj fs)) (obj end) = false
is_changed cur v = not (same_value cur v)

unfoldable pub changed_among : Fields → List (Text × Value) → List Text
changed_among old [] = []
changed_among old ((p, v) ∷ ps) =
    if is_changed (get_path old p) v then p ∷ changed_among old ps else changed_among old ps

unfoldable pub changed_paths : Fields → Fields → List Text
changed_paths old patch = changed_among old (leaf_items [] patch)

-- `_PATH.match(expr)`
abbrev pub first_path : Option (Text × Text) → Option Text
first_path none = none
first_path (some (p, s)) = some p

unfoldable pub path_of : Text → Option Text
path_of e = first_path (take_path (drop_spaces e))

abbrev pub append_new : Option Text → List Text → List Text
append_new none out = out
append_new (some p) out = if member p out then out else out ++ p ∷ []

-- `read_set`, with the paths found so far
unfoldable pub read_set_from : List Text → List Text → List Text
read_set_from out [] = out
read_set_from out (e ∷ es) = read_set_from (append_new (path_of e) out) es

unfoldable pub read_set : List Text → List Text
read_set es = read_set_from [] es

-- `_related`
unfoldable pub related : Text → Text → Bool
related a b = same_text a b || starts_with a (b ++ txt ".") || starts_with b (a ++ txt ".")

unfoldable pub any_related : Text → List Text → Bool
any_related p [] = false
any_related p (r ∷ rs) = related p r || any_related p rs

-- `read_set_version`: the largest version of a related path, 0 if there is none
abbrev pub larger : Option ℤ → ℤ → Option ℤ
larger none v = some v
larger (some w) v = if ltb_ℤ w v then some v else some w

unfoldable pub max_related : Option ℤ → Dict ℤ → List Text → Option ℤ
max_related best [] paths = best
max_related best ((p, v) ∷ versions) paths =
    max_related (if any_related p paths then larger best v else best) versions paths

abbrev pub or_zero : Option ℤ → ℤ
or_zero none = pos 0
or_zero (some v) = v

unfoldable pub read_set_version : Dict ℤ → List Text → ℤ
read_set_version versions paths = or_zero (max_related none versions paths)

-- `predicate_version`: -1 if a predicate is not registered
unfoldable pub predicate_version_from : ℤ → Dict ℤ → List Text → ℤ
predicate_version_from out versions [] = out
predicate_version_from out versions (e ∷ es) = elim (lookup e versions) [
  | none ↦ negsuc 0
  | some v ↦ predicate_version_from (if ltb_ℤ out v then v else out) versions es
]

unfoldable pub predicate_version : Dict ℤ → List Text → ℤ
predicate_version versions es = predicate_version_from (pos 0) versions es
