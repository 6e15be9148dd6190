-- ===== src/Lifecycle/Audit.antt =====
-- The audit trail: its last entry for an intent has the intent's state, and the entries of an
-- intent follow the transition table.
use ld1_execution_gap_xair.Base.{
  ℕ, Option-cases, true, ◌≡◌, ◌⊎◌, inl, inr, refl, Option, none, some, List, [], ◌∷◌, ◌++◌, arith,
  if◌then◌else◌,
}
use ld1_execution_gap_xair.Base.Dict.{insert}
use ld1_execution_gap_xair.Base.Text.{Text, same_text, same_text_iff}
use ld1_execution_gap_xair.Model.{
  IntentState, created, IntentRecord, new_record, DecisionOutcome, Reason, no_reason, ActionIntent,
}
use ld1_execution_gap_xair.Lifecycle.{
  LifecycleTracker, AuditEntry, get, register, forget, note, moved, admissible, log_entry,
}
use ld1_execution_gap_xair.Lifecycle.Steps.{
  Step, registers, forgets, edits, notes, moves, Reach, here, next, advanced, get-advanced,
}
use ld1_execution_gap_xair.Lifecycle.Invariant.{get-edited, get-register, get-forget}

-- the state in the last entry for an intent, after the entries read so far
pub last_from : Option IntentState → Text → List AuditEntry → Option IntentState
last_from s id [] = s
last_from s id (e ∷ es) = last_from (if same_text e.intent_id id then some e.state else s) id es

pub last_state : Text → List AuditEntry → Option IntentState
unfolding last_from
last_state = last_from none

last_from-append :
    (s : Option IntentState) (id : Text) (es : List AuditEntry) (e : AuditEntry)
    → last_from s id (es ++ e ∷ [])
      ≡ (if same_text e.intent_id id then some e.state else last_from s id es)
unfolding last_from
last_from-append s id [] e = refl
last_from-append s id (x ∷ es) e =
    last_from-append (if same_text x.intent_id id then some x.state else s) id es e

-- An entry registers its intent, repeats the state of the one before, or follows it in the table.
abbrev pub Follows : List AuditEntry → AuditEntry → Type 0
Follows es e =
    (e.state ≡ created)
    ⊎ ((s : IntentState) × (last_state e.intent_id es ≡ some s)
        × ((e.state ≡ s) ⊎ (admissible s e.state ≡ true)))

pub data IsTrail : List AuditEntry → Type 0 where
  start : IsTrail []
  extend :
      {es fs : List AuditEntry} (e : AuditEntry)
      → IsTrail es
      → Follows es e
      → fs ≡ es ++ e ∷ []
      → IsTrail fs

pub record IsAudited (l : LifecycleTracker) : Type 0 where
  pub trail : IsTrail l.audit
  pub recorded :
      (id : Text) (r : IntentRecord) → get id l ≡ some r → last_state id l.audit ≡ some r.state

-- A step that logs one entry about `id`, and leaves the other records alone.
log_entry-IsAudited :
    (id : Text) (l l' : LifecycleTracker) (e : AuditEntry)
    → e.intent_id ≡ id
    → IsAudited l
    → Follows l.audit e
    → l'.audit ≡ l.audit ++ e ∷ []
    → ((j : Text) (r : IntentRecord)
        → get j l' ≡ some r
        → (if same_text id j then r.state ≡ e.state else get j l ≡ some r))
    → IsAudited l'
unfolding last_state
log_entry-IsAudited id l l' e ei h f ea others = record {
  trail = extend e h.trail f ea;
  recorded =
      λ j r g. ground (arith, last_from-append none j l.audit e, others j r g, h.recorded j r);
}

audit-advanced :
    (id : Text) (r : IntentRecord) (t : IntentState) (o : Option DecisionOutcome) (why : Reason)
    (n : Option ℕ) (l : LifecycleTracker)
    → (advanced id r t o why n l).audit
      ≡ l.audit ++ (record { intent_id = id; state = t; outcome = o; reason = why }) ∷ []
unfolding advanced log_entry
audit-advanced id r t o why n l = refl

register-IsAudited :
    (i : ActionIntent) (l : LifecycleTracker) → IsAudited l → IsAudited (register i l)
register-IsAudited i l h =
    log_entry-IsAudited i.id l (register i l)
      (record { intent_id = i.id; state = created; outcome = none; reason = no_reason }) refl h
      (inl refl) (unfold register log_entry in refl)
      (λ j r g. unfold new_record in ground (arith, get-register i j l))

forget-IsAudited : (id : Text) (l : LifecycleTracker) → IsAudited l → IsAudited (forget id l)
forget-IsAudited id l h = record {
  trail = unfold forget in h.trail;
  recorded = λ j r g.
      let e : get j l ≡ some r = ground (arith, get-forget id j l) in
      unfold forget in h.recorded j r e;
}

note_found-IsAudited :
    (id : Text) (why : Reason) (l : LifecycleTracker) (r : IntentRecord)
    → get id l ≡ some r
    → IsAudited l
    → IsAudited (log_entry id r.state why none l)
note_found-IsAudited id why l r found h =
    log_entry-IsAudited id l (log_entry id r.state why none l)
      (record { intent_id = id; state = r.state; outcome = none; reason = why }) refl h
      (inr (r.state, h.recorded id r found, inl refl)) (unfold log_entry in refl)
      (λ j q g. unfold log_entry get in ground (arith, same_text_iff id j))

note-IsAudited :
    (id : Text) (why : Reason) (l : LifecycleTracker) → IsAudited l → IsAudited (note id why l)
unfolding note
note-IsAudited id why l h = elim (Option-cases (get id l)) [
  | inl missing ↦ rw (missing, note) h
  | inr (r, found) ↦ rw (found, note) (note_found-IsAudited id why l r found h)
]

advanced-IsAudited :
    (id : Text) (q r : IntentRecord) (t : IntentState) (o : Option DecisionOutcome) (why : Reason)
    (n : Option ℕ) (l : LifecycleTracker)
    → get id l ≡ some q
    → admissible q.state t ≡ true
    → IsAudited l
    → IsAudited (advanced id r t o why n l)
advanced-IsAudited id q r t o why n l found a h =
    log_entry-IsAudited id l (advanced id r t o why n l)
      (record { intent_id = id; state = t; outcome = o; reason = why }) refl h
      (inr (q.state, h.recorded id q found, inr a)) (audit-advanced id r t o why n l)
      (λ j p g. unfold moved in ground (arith, get-advanced id j r t o why n l))

edited-IsAudited :
    (id : Text) (q r : IntentRecord) (l : LifecycleTracker)
    → get id l ≡ some q
    → r.state ≡ q.state
    → IsAudited l
    → IsAudited (record l { records = insert id r l.records })
edited-IsAudited id q r l found e h = record {
  trail = h.trail;
  recorded = λ j p g.
      ground
        (arith, get-edited id j r l, same_text_iff id j, h.recorded id q found, h.recorded j p);
}

pub Step-IsAudited : {l l' : LifecycleTracker} → Step l l' → IsAudited l → IsAudited l'
Step-IsAudited {l} (registers i e) h = rw e (register-IsAudited i l h)
Step-IsAudited {l} (forgets k q found s e) h = rw e (forget-IsAudited k l h)
Step-IsAudited {l} (edits k q q' found kept e) h =
    rw e (edited-IsAudited k q q' l found kept.same_state h)
Step-IsAudited {l} (notes k why e) h = rw e (note-IsAudited k why l h)
Step-IsAudited {l} (moves k q q' t o why n found w f a e) h =
    rw e (advanced-IsAudited k q q' t o why n l found a h)

-- In every state that the tracker reaches from an audited one, the last entry for an intent has
-- its state, and the entries follow the table.
pub Reach-IsAudited : {l l' : LifecycleTracker} → IsAudited l → Reach l l' → IsAudited l'
Reach-IsAudited h here = h
Reach-IsAudited h (next p st) = Step-IsAudited st (Reach-IsAudited h p)
