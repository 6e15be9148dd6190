-- ===== src/Runtime/Admission.antt =====
-- The methods of `XAIRRuntime` before a validation: the operator's policy, the context snapshot and
-- the admission of an intent.
use ld1_execution_gap_xair.Base.{
  ℕ, suc, ◌+◌, Bool, true, false, ◌||◌, Option, none, some, List, [], ◌∷◌, ◌++◌, leb, if◌then◌else◌,
}
use ld1_execution_gap_xair.Base.Int.{ℤ, ltb_ℤ}
use ld1_execution_gap_xair.Base.Text.{Text, txt, starts_with}
use ld1_execution_gap_xair.Base.Dict.{lookup, insert, member, add}
use ld1_execution_gap_xair.Value.{Fields}
use ld1_execution_gap_xair.Model.{ActionIntent, ActionClass, other, IntentRecord}
use ld1_execution_gap_xair.Coordination.{submit}
use ld1_execution_gap_xair.Lifecycle.{LifecycleTracker, get, register, forget, is_settled, ok}
use ld1_execution_gap_xair.Predicate.Scan.{drop_spaces, strip, upper}
use ld1_execution_gap_xair.Versioning.{deep_merge}
use ld1_execution_gap_xair.Runtime.State.{
  XairRuntime, Action, pure, gets, modify, ◌>>=◌, ◌>>◌, find_record, bump,
}

-- `action_class`: the class of the operator's policy, by the action type without case and spaces
abbrev pub policy_key : ActionIntent → Text
policy_key i = upper (strip i.payload.action_type)

abbrev pub class_or_other : Option ActionClass → ActionClass
class_or_other none = other
class_or_other (some c) = c

unfoldable pub action_class : ActionIntent → XairRuntime → ActionClass
action_class i s = class_or_other (lookup (policy_key i) s.action_classes)

abbrev pub or_empty : Option (List Text) → List Text
or_empty none = []
or_empty (some es) = es

-- the mandated predicates that the producer omitted, each once, in order
unfoldable pub omitted : ActionIntent → List Text → List Text → List Text
omitted i added [] = added
omitted i added (e ∷ es) =
    omitted i
      (if member e i.preconditions || member e i.safety_constraints then added else add e added) es

unfoldable pub mandated : ActionIntent → XairRuntime → List Text
mandated i s = or_empty (lookup (policy_key i) s.policy) ++ s.class_policy (action_class i s)

-- `_apply_policy`: the intent with the predicates appended, and those added
unfoldable pub apply_policy : ActionIntent → XairRuntime → ActionIntent × List Text
apply_policy i s = elim i.policy_added [
  | none ↦
      let added = omitted i [] (mandated i s) in
      (record i { preconditions = i.preconditions ++ added; policy_added = some added }, added)
  | some added ↦ (i, added)
]

-- `_registered`: not the predicates of the stop fence
unfoldable pub registered : List Text → List Text
registered [] = []
registered (e ∷ es) =
    if starts_with (drop_spaces e) (txt "stop.") then registered es else e ∷ registered es

-- `prepare`
unfoldable pub prepare : ActionIntent → XairRuntime → ActionIntent × List Text
prepare i s =
    let (i', added) = apply_policy i s in
    (i', registered (i'.safety_constraints ++ i'.preconditions))

-- `install_context_snapshot`, with the version that it returns
unfoldable pub install_context_snapshot : Fields → ℤ → Bool → Action ℤ
install_context_snapshot snapshot version replace s =
    if ltb_ℤ version s.context_version then (ok s.context_version, s) else (
      ok version,
      record s {
        context_version = version;
        context = if replace then snapshot else deep_merge s.context snapshot;
      },
    )

-- `update_context`
unfoldable pub update_context : Fields → XairRuntime → XairRuntime
update_context patch s = record s { context = deep_merge s.context patch }

-- `_expire_seen`, at a reading of the monotonic clock: the oldest entries leave first
unfoldable pub forget_settled : Text → LifecycleTracker → LifecycleTracker
forget_settled id l = elim (get id l) [
  | none ↦ l
  | some r ↦ if is_settled r.state then forget id l else l
]

unfoldable pub expire :
    ℕ → ℕ → List (Text × ℕ) → LifecycleTracker → List (Text × ℕ) × LifecycleTracker
expire clock retention [] l = ([], l)
expire clock retention ((id, admitted) ∷ seen) l =
    let rest = expire clock retention seen (forget_settled id l) in
    if leb clock (admitted + retention) then ((id, admitted) ∷ seen, l) else rest

unfoldable pub expire_seen : ℕ → XairRuntime → XairRuntime
expire_seen clock s =
    let (seen, l) = expire clock s.retention s.seen s.lifecycle in
    record s { seen = seen; lifecycle = l }

-- `intent.id in self._seen`, with the record if there is one
unfoldable pub known : Text → XairRuntime → Option IntentRecord
known id s = elim (lookup id s.seen) [ none ↦ none | some t ↦ get id s.lifecycle ]

unfoldable pub is_duplicate : ℕ → Text → XairRuntime → Bool × XairRuntime
is_duplicate clock id s =
    let s' = expire_seen clock s in (elim (lookup id s'.seen) [ none ↦ false | some t ↦ true ], s')

-- `self.lifecycle.register(intent)`
unfoldable pub register_intent : ActionIntent → Action IntentRecord
register_intent i =
    modify (λ s. record s { lifecycle = register i s.lifecycle }) >> find_record i.id

unfoldable pub admit_new : ℕ → Bool → ActionIntent → Action (IntentRecord × Bool)
admit_new clock enqueue i = do
  modify (λ s. record s { seen = insert i.id clock s.seen })
  bump (λ m. record m { intents_received = suc m.intents_received })
  r ← register_intent i
  modify (λ s. if enqueue then record s { receiver = submit i s.receiver } else s)
  pure (r, false)

unfoldable pub admit_known :
    ℕ → Bool → ActionIntent → Option IntentRecord → Action (IntentRecord × Bool)
admit_known clock enqueue i (some r) = pure (r, true)
admit_known clock enqueue i none = admit_new clock enqueue i

-- `admit`: the record, and whether the intent is a duplicate
unfoldable pub admit : ℕ → Bool → ActionIntent → Action (IntentRecord × Bool)
admit clock enqueue i = do
  modify (expire_seen clock)
  found ← gets (known i.id)
  admit_known clock enqueue i found
