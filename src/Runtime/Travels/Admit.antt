-- ===== src/Runtime/Travels/Admit.antt =====
-- The admission, which forgets what has expired, as steps of the lifecycle.
use ld1_execution_gap_xair.Base.{
  ℕ, Bool, refl, Option, none, some, List, [], ◌∷◌, Bool-cases, Option-cases, inl, inr, leb, ◌+◌,
}
use ld1_execution_gap_xair.Base.Text.{Text}
use ld1_execution_gap_xair.Model.{ActionIntent, IntentRecord}
use ld1_execution_gap_xair.Lifecycle.{LifecycleTracker, get, is_settled}
use ld1_execution_gap_xair.Lifecycle.Steps.{forgets, Reach, here, Reach-one, Reach-trans}
use ld1_execution_gap_xair.Runtime.State.{modify}
use ld1_execution_gap_xair.Runtime.Admission.{
  admit_new, admit_known, admit, forget_settled, expire, expire_seen,
}
use ld1_execution_gap_xair.Runtime.Travels.{
  Travels, Travels-bind, Travels-pure, Travels-gets, Travels-bump, Travels-queue_again,
  Travels-takes, Travels-register_intent,
}

forget_settled-Reach : (id : Text) (l : LifecycleTracker) → Reach l (forget_settled id l)
unfolding forget_settled
forget_settled-Reach id l = elim (Option-cases (get id l)) [
  | inl missing ↦ rw (missing, forget_settled) here
  | inr (r, h) ↦ elim (Bool-cases (is_settled r.state)) [
    | inl e ↦ rw (h, e, forget_settled) (Reach-one (forgets id r h e refl))
    | inr e ↦ rw (h, e, forget_settled) here
  ]
]

expire-Reach :
    (clock retention : ℕ) (seen : List (Text × ℕ)) (l : LifecycleTracker)
    → Reach l (expire clock retention seen l).1
unfolding expire
expire-Reach clock retention [] l = here
expire-Reach clock retention ((id, admitted) ∷ seen) l =
    elim (Bool-cases (leb clock (admitted + retention))) [
      | inl e ↦ rw (e) here
      | inr e ↦ rw (e) (
          Reach-trans (forget_settled-Reach id l)
            (expire-Reach clock retention seen (forget_settled id l)))
    ]

Travels-admit_new :
    (clock : ℕ) (enqueue : Bool) (i : ActionIntent) → Travels (admit_new clock enqueue i)
unfolding admit_new
Travels-admit_new clock enqueue i =
    search
      (
        Travels-bind, Travels-takes, Travels-bump, Travels-register_intent, Travels-queue_again,
        Travels-pure,
      )
      depth 9

Travels-admit_known :
    (clock : ℕ) (enqueue : Bool) (i : ActionIntent) (found : Option IntentRecord)
    → Travels (admit_known clock enqueue i found)
unfolding admit_known
Travels-admit_known clock enqueue i (some r) = Travels-pure _
Travels-admit_known clock enqueue i none = Travels-admit_new clock enqueue i

Travels-expire : (clock : ℕ) → Travels (modify (expire_seen clock))
unfolding expire_seen
Travels-expire clock = record { at = λ s. expire-Reach clock s.retention s.seen s.lifecycle }

pub Travels-admit :
    (clock : ℕ) (enqueue : Bool) (i : ActionIntent) → Travels (admit clock enqueue i)
unfolding admit
Travels-admit clock enqueue i =
    search (Travels-bind, Travels-expire, Travels-gets, Travels-admit_known)
