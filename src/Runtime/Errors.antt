-- ===== src/Runtime/Errors.antt =====
-- A report that raises changes nothing but the audit trail, if it is not the callback that raises.
use ld1_execution_gap_xair.Base.{
  ℕ, Bool, true, false, ◌≡◌, ◌∙◌, refl, sym, ap, Option, none, some, arith, if◌then◌else◌,
  Bool-cases, Option-cases, inl, inr, ◌⊎◌, ◌&&◌, [], ◌∷◌, ◌++◌,
}
use ld1_execution_gap_xair.Base.Int.{ℤ}
use ld1_execution_gap_xair.Base.Text.{Text, same_text_refl}
use ld1_execution_gap_xair.Model.{
  IntentState, authorized, committed, released, withheld, revoked, ReleaseDecision, release,
  withhold, EffectStatus, Reason, IntentRecord, same_state,
}
use ld1_execution_gap_xair.Lifecycle.{
  Error, callback_error, moved, ok, err, get, note, log_entry, admissible,
}
use ld1_execution_gap_xair.Runtime.State.{
  XairRuntime, Metrics, Action, pure, ◌>>◌, ◌>>=◌, find_record, reject, advance, release_lock,
}
use ld1_execution_gap_xair.Runtime.Gate.{after_callback, called, release_lem}
use ld1_execution_gap_xair.Base.Dict.{member, member-discard}
use ld1_execution_gap_xair.Coordination.{release_target}
use ld1_execution_gap_xair.Runtime.Reports.{
  commit_found, record_commit, withhold_found, release_found, settle, report_decided, report_found,
  report_release, effect_found, report_effect, supervisory_revoke, set_release_decision,
}
use ld1_execution_gap_xair.Runtime.Advance.{
  closed, advance_lem, bind_ok, bind_err, find_record_lem, find_record_missing, find_advanced,
}
use ld1_execution_gap_xair.Runtime.Outcomes.{from_state, is_open, open_admits}
use ld1_execution_gap_xair.Runtime.Calls.{
  Call, perform, revoke_step, revoke_step_refused, revoke_lem,
}

-- The two states differ at most in the audit trail.
pub record Untouched (s t : XairRuntime) : Type 0 where
  pub records : t.lifecycle.records ≡ s.lifecycle.records
  pub targets : t.active_targets ≡ s.active_targets
  pub counts : t.metrics ≡ s.metrics
  pub calls : t.actuated ≡ s.actuated

-- The release of an intent whose callback raised: it is RELEASED, the callback was called once, and the target
-- is free.
pub record IsReleased (s t : XairRuntime) : Type 0 where
  pub id : Text
  pub why : Reason
  pub r : IntentRecord
  pub found : get id s.lifecycle ≡ some r
  pub now_released :
      get id t.lifecycle ≡ some (moved (set_release_decision release r) released none why none)
  pub called_once : t.actuated ≡ s.actuated ++ r.intent ∷ []
  pub freed : member r.intent.payload.target_entity t.active_targets ≡ false

-- what a report that raises leaves
abbrev pub AfterRaise : Error → XairRuntime → XairRuntime → Type 0
AfterRaise e s t = Untouched s t ⊎ ((e ≡ callback_error) × IsReleased s t)

-- A call that finds the record `r` of `id` leaves this if it raises.
record Clean {A : Type 0} (id : Text) (r : IntentRecord) (m : Action A) : Type 0 where
  at :
      (s : XairRuntime) (e : Error)
      → get id s.lifecycle ≡ some r
      → (m s).0 ≡ err e
      → AfterRaise e s (m s).1

module _ {A : Type 0} (id : Text) (r : IntentRecord) where
  Clean-pure : (a : A) → Clean id r (pure a)
  Clean-pure a = record { at = λ s e h x. cc x }

  Clean-reject : (t : IntentState) (why : Reason) → Clean {A = A} id r (reject r t why)
  unfolding reject note log_entry
  Clean-reject t why = record { at = λ s e h x. inl (ground arith) }

  Clean-if :
      (b : Bool) (m n : Action A)
      → (b ≡ true → Clean id r m)
      → (b ≡ false → Clean id r n)
      → Clean id r (if b then m else n)
  Clean-if true m n dm dn = dm refl
  Clean-if false m n dm dn = dn refl

-- a rest of a call that returns wherever the record of `id` is there
abbrev Returns : {A : Type 0} → Text → Action A → Type 0
Returns {A} id m =
    (s : XairRuntime) (r : IntentRecord) → get id s.lifecycle ≡ some r → (a : A) × ((m s).0 ≡ ok a)

find_record-Returns : (id : Text) → Returns id (find_record id)
find_record-Returns id s r h = (r, ap (λ p. p.0) (find_record_lem id s h))

-- A move that the table admits does not raise.
advance-Returns :
    {A : Type 0} (id : Text) (f : IntentRecord → IntentRecord) (t : IntentState) (why : Reason)
    (count : Metrics → Metrics) (rest : Action A) (s : XairRuntime) {r : IntentRecord}
    → Returns id rest
    → get id s.lifecycle ≡ some r
    → admissible (f r).state t ≡ true
    → (a : A) × (((advance id f t why count >> rest) s).0 ≡ ok a)
advance-Returns id f t why count rest s {r} k h a =
    let (x, e) = k _ _ (find_advanced id (f r) t why s.lifecycle) in
    (
      x,
      ap (λ p. p.0)
            (bind_ok (advance id f t why count) (λ _. rest) s (advance_lem id f t why count s h a))
          ∙ e,
    )

Clean-advance :
    {A : Type 0} (id : Text) (r : IntentRecord) (f : IntentRecord → IntentRecord) (t : IntentState)
    (why : Reason) (count : Metrics → Metrics) (rest : Action A)
    → Returns id rest
    → admissible (f r).state t ≡ true
    → Clean id r (advance id f t why count >> rest)
Clean-advance id r f t why count rest k a = record {
  at = λ s e h x. cc (sym (advance-Returns id f t why count rest s k h a).1 ∙ x);
}

Clean-close :
    {A : Type 0} (id : Text) (r : IntentRecord) (f : IntentRecord → IntentRecord) (t : IntentState)
    (why : Reason) (count : Metrics → Metrics) (rest : Action A)
    → Returns id rest
    → admissible (f r).state t ≡ true
    → Clean id r (release_lock r.intent >> (advance id f t why count >> rest))
unfolding release_lock
Clean-close id r f t why count rest k a = record {
  at = λ s e h x. cc (sym (advance-Returns id f t why count rest _ k h a).1 ∙ x);
}

raised :
    (b : Bool) (a : IntentRecord) {e : Error}
    → (if b then err callback_error else ok a) ≡ err e
    → (b ≡ true) × (e ≡ callback_error)
raised b a x = ground arith

-- A release raises only if its callback does.
Clean-release :
    (id : Text) (r : IntentRecord) (why : Reason)
    → admissible r.state released ≡ true
    → Clean id r (release_found r id why)
unfolding after_callback called closed release_target
Clean-release id r why a = record {
  at = λ s e h x.
      let q = release_lem r id why s h a in
      let failed : (s.has_callback && s.callback_raises r.intent ≡ true) × (e ≡ callback_error) =
        raised (s.has_callback && s.callback_raises r.intent)
          (moved (set_release_decision release r) released none why none)
          (sym (ap (λ p. p.0) q) ∙ x) in
      let made : s.has_callback ≡ true = ground (arith, failed.0) in
      rw q (
        inr (
          failed.1,
          record {
            id = id;
            why = why;
            r = r;
            found = h;
            now_released =
                rw (made)
                  (find_advanced id (set_release_decision release r) released why s.lifecycle);
            called_once = rw (made) refl;
            freed = rw (made) (
                ground (
                  arith,
                  member-discard r.intent.payload.target_entity r.intent.payload.target_entity
                      s.active_targets,
                  same_text_refl r.intent.payload.target_entity,
                ));
          },
        ));
}

Clean-close_find :
    (id : Text) (r : IntentRecord) (f : IntentRecord → IntentRecord) (t : IntentState)
    (why : Reason) (count : Metrics → Metrics)
    → admissible (f r).state t ≡ true
    → Clean id r (release_lock r.intent >> (advance id f t why count >> find_record id))
Clean-close_find id r f t why count a =
    Clean-close id r f t why count (find_record id) (find_record-Returns id) a

Clean-advance_find :
    (id : Text) (r : IntentRecord) (f : IntentRecord → IntentRecord) (t : IntentState)
    (why : Reason) (count : Metrics → Metrics)
    → admissible (f r).state t ≡ true
    → Clean id r (advance id f t why count >> find_record id)
Clean-advance_find id r f t why count a =
    Clean-advance id r f t why count (find_record id) (find_record-Returns id) a

to_committed :
    (r : IntentRecord) → same_state r.state authorized ≡ true → admissible r.state committed ≡ true
unfolding admissible
to_committed r e = from_state r authorized committed e refl

to_withheld :
    (r : IntentRecord) → same_state r.state authorized ≡ true → admissible r.state withheld ≡ true
unfolding admissible
to_withheld r e = from_state r authorized withheld e refl

Clean-commit :
    (id : Text) (r : IntentRecord) (c : Bool) (why : Reason) (seq : Option ℕ)
    → Clean id r (commit_found r id c why seq)
unfolding commit_found
Clean-commit id r true why seq =
    search (Clean-if, Clean-pure, Clean-reject, Clean-close_find, to_committed)
Clean-commit id r false why seq =
    search (Clean-if, Clean-pure, Clean-reject, Clean-close_find, to_withheld)

Clean-settle :
    (id : Text) (r : IntentRecord) (c : Bool) (why : Reason) (refusal : Option Reason)
    → is_open r ≡ true
    → Clean id r (settle r id c why refusal)
unfolding settle withhold_found
Clean-settle id r true why none h = Clean-release id r why (open_admits r h).0
Clean-settle id r false why none h =
    Clean-close_find id r (set_release_decision withhold) withheld why _ (open_admits r h).1
Clean-settle id r true why (some e) h =
    Clean-close_find id r (set_release_decision withhold) withheld e _ (open_admits r h).1
Clean-settle id r false why (some e) h =
    Clean-close_find id r (set_release_decision withhold) withheld e _ (open_admits r h).1

Clean-decided :
    (id : Text) (r : IntentRecord) (d : Option ReleaseDecision) (c : Bool) (why : Reason)
    (ctx rs : Option ℤ)
    → Clean id r (report_decided d r id c why ctx rs)
unfolding report_decided
Clean-decided id r (some d) c why ctx rs = search (Clean-if, Clean-pure, Clean-reject)
Clean-decided id r none c why ctx rs = search (Clean-if, Clean-reject, Clean-settle)

Clean-report :
    (id : Text) (r : IntentRecord) (c : Bool) (why : Reason) (ctx rs : Option ℤ)
    → Clean id r (report_found r id c why ctx rs)
unfolding report_found
Clean-report id r c why ctx rs = search (Clean-if, Clean-pure, Clean-decided)

Clean-effect :
    (id : Text) (r : IntentRecord) (status : EffectStatus) (detail : Option Text)
    → Clean id r (effect_found r id status detail)
unfolding effect_found
Clean-effect id r status detail = search (Clean-if, Clean-pure, Clean-reject, Clean-advance_find)

Clean-revoke :
    (id : Text) (why : Reason) (r : IntentRecord)
    → Clean id r (revoke_step id why >> (release_lock r.intent >> find_record id))
Clean-revoke id why r = record {
  at = λ s e h x. elim (Bool-cases (admissible r.state revoked)) [
    | inl a ↦ cc (sym (ap (λ p. p.0) (revoke_lem id why s r h a)) ∙ x)
    | inr a ↦
        rw
          (bind_err (revoke_step id why) (λ _. release_lock r.intent >> find_record id) s
            (revoke_step_refused id why s r h a))
          (inl (record { records = refl; targets = refl; counts = refl; calls = refl }))
  ];
}

found-Clean :
    {A : Type 0} (id : Text) (f : IntentRecord → Action A) (s : XairRuntime) (e : Error)
    → ((r : IntentRecord) → Clean id r (f r))
    → ((find_record id >>= f) s).0 ≡ err e
    → AfterRaise e s ((find_record id >>= f) s).1
found-Clean id f s e d x = elim (Option-cases (get id s.lifecycle)) [
  | inl missing ↦
      rw (bind_err (find_record id) f s (find_record_missing id s missing))
        (inl (record { records = refl; targets = refl; counts = refl; calls = refl }))
  | inr (r, h) ↦
      let q = bind_ok (find_record id) f s (find_record_lem id s h) in
      rw q ((d r).at s e h (sym (ap (λ p. p.0) q) ∙ x))
]

-- A report that raises, whichever it is and whatever its arguments, leaves the records, the target locks, the
-- counters and the callbacks as they were; or it is the release of an intent whose callback raised, and then
-- the intent is RELEASED, the callback was called once, and the target is free.
pub raise_leaves :
    (c : Call) (s : XairRuntime) {e : Error}
    → (perform c s).0 ≡ err e
    → AfterRaise e s (perform c s).1
unfolding perform record_commit report_release report_effect supervisory_revoke revoke_step
raise_leaves (Call.commit id c why seq) s {e} x =
    found-Clean id _ s e (λ r. Clean-commit id r c why seq) x
raise_leaves (Call.release_report id c why ctx rs) s {e} x =
    found-Clean id _ s e (λ r. Clean-report id r c why ctx rs) x
raise_leaves (Call.effect id status detail) s {e} x =
    found-Clean id _ s e (λ r. Clean-effect id r status detail) x
raise_leaves (Call.revoke_call id why) s {e} x = found-Clean id _ s e (Clean-revoke id why) x
