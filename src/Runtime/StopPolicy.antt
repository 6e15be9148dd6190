-- ===== src/Runtime/StopPolicy.antt =====
-- No policy that the runtime accepts demands a predicate of a stop.
use ld1_execution_gap_xair.Base.{
  true, false, Option, none, some, List, [], ◌∷◌, ◌++◌, if◌then◌else◌, ◌≡◌, ◌∙◌, refl, sym, ap,
  subst, arith, Bool-cases, inl, inr,
}
use ld1_execution_gap_xair.Base.Text.{Text, txt, starts_with, same_text}
use ld1_execution_gap_xair.Base.Dict.{lookup, insert, lookup-insert}
use ld1_execution_gap_xair.Value.{
  Value, null, bool, num, str, arr, obj, nil, cons, Fields, end, field,
}
use ld1_execution_gap_xair.Model.{ActionIntent, ActionClass, stop}
use ld1_execution_gap_xair.Predicate.Scan.{strip, lower}
use ld1_execution_gap_xair.Runtime.State.{XairRuntime}
use ld1_execution_gap_xair.Runtime.Admission.{
  action_class, mandated, or_empty, policy_key, class_or_other,
}
use ld1_execution_gap_xair.Runtime.Validation.{is_stop}
use ld1_execution_gap_xair.Runtime.Policy.{
  is_truthy, PolicyDoc, same_class, texts_of, demanded, add_class, add_action, required_of,
  add_entry, read_entries, install_policy, set_policy,
}

-- no action type of the stop class has predicates, and neither has the class
record IsStopFree (p : PolicyDoc) : Type 0 where
  by_action : (k : Text) → lookup k p.classes ≡ some stop → or_empty (lookup k p.actions) ≡ []
  by_class : p.class_preds stop ≡ []

module _ (text_of : Value → Text) where
  demanded-stop : (v : Value) (es : List Text) → demanded text_of (some stop) v ≡ some es → es ≡ []
  unfolding demanded is_truthy texts_of
  demanded-stop null es h = cc h
  demanded-stop (bool true) es h = cc h
  demanded-stop (bool false) es h = cc h
  demanded-stop (num n) es h = ground (arith, h)
  demanded-stop (str []) es h = ground (arith, h)
  demanded-stop (str (c ∷ cs)) es h = cc h
  demanded-stop (arr nil) es h = ground (arith, h)
  demanded-stop (arr (cons x xs)) es h = cc h
  demanded-stop (obj end) es h = ground (arith, h)
  demanded-stop (obj (field k v fs)) es h = cc h

  -- what an entry adds, if it is accepted
  add_action-keeps :
      (key : Text) (c : ActionClass) (es : List Text) (p : PolicyDoc)
      → (c ≡ stop → es ≡ [])
      → IsStopFree p
      → IsStopFree
          (record p { actions = insert key es p.actions; classes = insert key c p.classes })
  add_action-keeps key c es p n h = record {
    by_action = λ k e. elim (Bool-cases (same_text key k)) [
      | inl f ↦
          ap or_empty (lookup-insert key k es p.actions)
          ∙ rw (f) (n (ground (arith, f, e, lookup-insert key k c p.classes)))
      | inr f ↦
          ap or_empty (lookup-insert key k es p.actions)
          ∙ rw (f) (h.by_action k (ground (arith, f, e, lookup-insert key k c p.classes)))
    ];
    by_class = h.by_class;
  }

  same_class_stop : (c : ActionClass) → same_class stop c ≡ true → c ≡ stop
  same_class_stop c h = ground arith

  add_class-keeps :
      (c : ActionClass) (es : List Text) (p : PolicyDoc)
      → (c ≡ stop → es ≡ [])
      → IsStopFree p
      → IsStopFree (record p { class_preds = λ k. if same_class k c then es else p.class_preds k })
  add_class-keeps c es p n h = record {
    by_action = h.by_action;
    by_class = elim (Bool-cases (same_class stop c)) [
      | inl f ↦ rw (f) (n (same_class_stop c f))
      | inr f ↦ rw (f) h.by_class
    ];
  }

  -- an accepted policy document, or none
  abbrev Accepted : Option PolicyDoc → Type 0
  Accepted none = Unit
  Accepted (some p) = IsStopFree p

  add_action-Accepted :
      (key : Text) (c : Option ActionClass) (v : Value) (es : Option (List Text)) (p : PolicyDoc)
      → demanded text_of c v ≡ es
      → IsStopFree p
      → Accepted (add_action text_of key c es p)
  add_action-Accepted key none v es p d h = tt
  add_action-Accepted key (some c) v none p d h = tt
  add_action-Accepted key (some c) v (some es) p d h =
      add_action-keeps key c es p
        (λ e. demanded-stop v es (subst (λ x. demanded text_of (some x) v ≡ some es) e d)) h

  add_class-Accepted :
      (c : Option ActionClass) (v : Value) (es : Option (List Text)) (p : PolicyDoc)
      → demanded text_of c v ≡ es
      → IsStopFree p
      → Accepted (add_class text_of c es p)
  add_class-Accepted none v es p d h = tt
  add_class-Accepted (some c) v none p d h = tt
  add_class-Accepted (some c) v (some es) p d h =
      add_class-keeps c es p
        (λ e. demanded-stop v es (subst (λ x. demanded text_of (some x) v ≡ some es) e d)) h

  add_entry-Accepted :
      (k : Text) (v : Value) (p : PolicyDoc) → IsStopFree p → Accepted (add_entry text_of k v p)
  unfolding add_entry
  add_entry-Accepted k v p h = elim (Bool-cases (starts_with (lower (strip k)) (txt "class:"))) [
    | inl f ↦ rw (f) (add_class-Accepted _ v _ p refl h)
    | inr f ↦ rw (f) (add_action-Accepted _ _ (required_of text_of v) _ p refl h)
  ]

  read_entries-Accepted :
      (doc : Fields) (p : Option PolicyDoc) → Accepted p → Accepted (read_entries text_of doc p)
  unfolding read_entries
  read_entries-Accepted end p h = h
  read_entries-Accepted (field k v fs) none h = tt
  read_entries-Accepted (field k v fs) (some p) h =
      read_entries-Accepted fs (add_entry text_of k v p) (add_entry-Accepted k v p h)

  stop_class : (c : Option ActionClass) → is_stop (class_or_other c) ≡ true → c ≡ some stop
  stop_class none h = cc h
  stop_class (some c) h = ground arith

  installed :
      (q : Option PolicyDoc) (i : ActionIntent) (s s' : XairRuntime)
      → Accepted q
      → install_policy text_of q s ≡ some s'
      → is_stop (action_class i s') ≡ true
      → mandated i s' ≡ []
  unfolding mandated action_class
  installed none i s s' a h k = cc h
  installed (some p) i s s' a h k =
      let new = record s {
        policy = p.actions;
        action_classes = p.classes;
        class_policy = p.class_preds;
      } in
      let same : new ≡ s' = ground (arith, h) in
      let c = lookup (policy_key i) p.classes in
      let is : c ≡ some stop =
        stop_class c (subst (λ x. is_stop (action_class i x) ≡ true) (sym same) k) in
      subst (λ x. mandated i x ≡ []) same
        (ap (λ x. x ++ p.class_preds (class_or_other c)) (a.by_action (policy_key i) is)
          ∙ ap p.class_preds (ap class_or_other is)
          ∙ a.by_class)

  -- A policy that is accepted demands no predicate of an intent of the stop class, however the action types
  -- and the classes are spelled and whatever the policy says of a class twice.
  pub set_policy-stop :
      (doc : Fields) (i : ActionIntent) (s s' : XairRuntime)
      → set_policy text_of doc s ≡ some s'
      → is_stop (action_class i s') ≡ true
      → mandated i s' ≡ []
  unfolding set_policy lookup
  set_policy-stop doc i s s' h k =
      let empty : PolicyDoc = record { actions = []; classes = []; class_preds = λ c. [] } in
      installed (read_entries text_of doc (some empty)) i s s'
        (read_entries-Accepted doc (some empty)
          (record { by_action = λ j e. cc e; by_class = refl }))
        h k
