-- ===== src/Runtime/Policy.antt =====
-- `set_policy`: the operator's policy read from JSON, and what it can not demand of a stop.
use ld1_execution_gap_xair.Base.{
  Bool, true, false, not, ◌&&◌, ◌||◌, Option, none, some, List, [], ◌∷◌, if◌then◌else◌, map, drop,
}
use ld1_execution_gap_xair.Base.Int.{pos}
use ld1_execution_gap_xair.Base.Text.{Text, txt, starts_with, same_text}
use ld1_execution_gap_xair.Base.Dict.{Dict, insert}
use ld1_execution_gap_xair.Value.{
  finite, Value, null, bool, num, str, arr, obj, Items, nil, cons, Fields, end, field, field_of,
  num_eq,
}
use ld1_execution_gap_xair.Model.{ActionClass, stop, start, motion, reset, shutdown, other}
use ld1_execution_gap_xair.Predicate.Scan.{strip, lower, upper}
use ld1_execution_gap_xair.Runtime.State.{XairRuntime}
use ld1_execution_gap_xair.Runtime.Validation.{is_stop}

-- `ACTION_CLASSES`
unfoldable pub class_named : Text → Option ActionClass
class_named t =
    if same_text t (txt "stop")
    then some stop
    else if same_text t (txt "start")
    then some start
    else if same_text t (txt "motion")
    then some motion
    else if same_text t (txt "reset")
    then some reset
    else if same_text t (txt "shutdown")
    then some shutdown
    else if same_text t (txt "other")
    then some other
    else none

-- Python's truth of a value
unfoldable pub is_truthy : Value → Bool
is_truthy null = false
is_truthy (bool b) = b
is_truthy (num n) = not (num_eq n (finite (pos 0) 0))
is_truthy (str []) = false
is_truthy (str (c ∷ cs)) = true
is_truthy (arr nil) = false
is_truthy (arr (cons x xs)) = true
is_truthy (obj end) = false
is_truthy (obj (field k v fs)) = true

-- The policy as it is read: predicates and class of each action type, predicates of each class.
pub record PolicyDoc : Type 0 where
  pub actions : Dict (List Text)
  pub classes : Dict ActionClass
  pub class_preds : ActionClass → List Text

abbrev pub same_class : ActionClass → ActionClass → Bool
same_class stop stop = true
same_class start start = true
same_class motion motion = true
same_class reset reset = true
same_class shutdown shutdown = true
same_class other other = true
same_class _ _ = false

abbrev keys : Fields → List Text
keys end = []
keys (field k v fs) = k ∷ keys fs

abbrev only_known : List Text → Bool
only_known [] = true
only_known (k ∷ ks) = (same_text k (txt "class") || same_text k (txt "require")) && only_known ks

abbrev or_value : Option Value → Value → Value
or_value none v = v
or_value (some w) v = w

-- The texts of values are those of Python's `str`.
module _ (text_of : Value → Text) where
  abbrev pub item_texts : Items → List Text
  item_texts nil = []
  item_texts (cons x xs) = text_of x ∷ item_texts xs

  -- `[str(e) for e in value]`; none for a value that cannot be iterated
  unfoldable pub texts_of : Value → Option (List Text)
  texts_of (arr xs) = some (item_texts xs)
  texts_of (str s) = some (map (λ c. text_of (str (c ∷ []))) s)
  texts_of (obj fs) = some (map (λ k. text_of (str k)) (keys fs))
  texts_of _ = none

  -- the predicates that a class or an action type can carry: none at all for a stop
  unfoldable pub demanded : Option ActionClass → Value → Option (List Text)
  demanded none v = none
  demanded (some c) v = let es = texts_of v in if is_stop c && is_truthy v then none else es

  abbrev pub add_class : Option ActionClass → Option (List Text) → PolicyDoc → Option PolicyDoc
  add_class (some c) (some es) p =
      some (record p { class_preds = λ k. if same_class k c then es else p.class_preds k })
  add_class _ _ p = none

  abbrev pub add_action :
      Text → Option ActionClass → Option (List Text) → PolicyDoc → Option PolicyDoc
  add_action key (some c) (some es) p =
      some (record p { actions = insert key es p.actions; classes = insert key c p.classes })
  add_action key _ _ p = none

  -- the class and the predicates of an action type
  unfoldable pub class_of : Value → Option ActionClass
  class_of (obj fs) =
      let c =
        class_named
          (lower (strip (text_of (or_value (field_of (txt "class") fs) (str (txt "other")))))) in
      if only_known (keys fs) then c else none
  class_of _ = some other

  unfoldable pub required_of : Value → Value
  required_of (obj fs) = or_value (field_of (txt "require") fs) (arr nil)
  required_of v = v

  -- one entry of the policy
  unfoldable pub add_entry : Text → Value → PolicyDoc → Option PolicyDoc
  add_entry k v p =
      let key = strip k in
      let name = class_named (lower (strip (drop 6 key))) in
      let action = class_of v in
      if starts_with (lower key) (txt "class:")
      then add_class name (demanded name v) p
      else add_action (upper key) action (demanded action (required_of v)) p

  unfoldable pub read_entries : Fields → Option PolicyDoc → Option PolicyDoc
  read_entries end p = p
  read_entries (field k v fs) none = none
  read_entries (field k v fs) (some p) = read_entries fs (add_entry k v p)

  abbrev pub install_policy : Option PolicyDoc → XairRuntime → Option XairRuntime
  install_policy none s = none
  install_policy (some p) s =
      some
        (record s { policy = p.actions; action_classes = p.classes; class_policy = p.class_preds })

  -- `set_policy`; none where it raises, and then the policy stays
  unfoldable pub set_policy : Fields → XairRuntime → Option XairRuntime
  set_policy doc s =
      install_policy
        (read_entries doc (some (record { actions = []; classes = []; class_preds = λ c. [] }))) s
