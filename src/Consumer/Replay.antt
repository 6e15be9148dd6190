-- ===== src/Consumer/Replay.antt =====
-- Crashes and replays: no effect twice, and none missing below the offset.
use ld1_execution_gap_xair.Base.{
  ℕ, suc, ◌+◌, ◌≡◌, true, false, ◌&&◌, ◌||◌, Option, List, [], ◌∷◌, ◌++◌, if◌then◌else◌, All, arith,
  Bool-cases, inl, inr,
}
use ld1_execution_gap_xair.Base.Int.{ℤ}
use ld1_execution_gap_xair.Base.Text.{Text, same_text, same_text_iff, same_text_refl}
use ld1_execution_gap_xair.Base.Dict.{Dict, insert, member, member-add}
use ld1_execution_gap_xair.Store.Document.{Document}
use ld1_execution_gap_xair.Store.Commit.{Command, LogRecord, authorization, tombstone, stopped}
use ld1_execution_gap_xair.Consumer.Offset.{str}
use ld1_execution_gap_xair.Consumer.Poll.{
  Actuator, perform_effect, Consumer, has_moved_since, is_late, effect_on, consume, World,
  poll_from,
}

-- how often an actuator performed the effect of an intent
unfoldable pub count_effects : Text → List Text → ℕ
count_effects id [] = 0
count_effects id (x ∷ xs) = (if same_text x id then 1 else 0) + count_effects id xs

-- each effect is performed once, and the actuator knows of it
unfoldable pub IsOnce : Actuator → Type 0
IsOnce a = (id : Text) → count_effects id a.effects ≡ (if member id a.done then 1 else 0)

count_effects-append :
    (id : Text) (xs ys : List Text)
    → count_effects id (xs ++ ys) ≡ count_effects id xs + count_effects id ys
unfolding count_effects
count_effects-append id [] ys = omega arith
count_effects-append id (x ∷ xs) ys = omega (arith, count_effects-append id xs ys)

perform_effect-IsOnce : (id : Text) (a : Actuator) → IsOnce a → IsOnce (perform_effect id a).1
unfolding IsOnce perform_effect count_effects
perform_effect-IsOnce id a h = λ j. ground (
  arith,
  h j,
  same_text_iff id j,
  member-add id j a.done,
  count_effects-append j a.effects (id ∷ []),
)

consume-IsOnce :
    (seen : Option Document) (clock : ℤ) (id : Text) (command : Command) (c : Consumer)
    → IsOnce c.actuator
    → IsOnce (consume seen clock id command c).actuator
unfolding consume effect_on
consume-IsOnce seen clock id command c h =
    elim (Bool-cases
      ((has_moved_since seen command || is_late clock command) && c.recheck_at_apply)) [
        | inl e ↦ rw (e) h
        | inr e ↦ rw (e) (perform_effect-IsOnce id c.actuator h)
      ]

pub poll_from-IsOnce :
    (w : World) (key : Text) (n : ℕ) (rs : List LogRecord) (c : Consumer) (kv : Dict Text)
    → IsOnce c.actuator
    → IsOnce (poll_from w key n rs c kv).consumer.actuator
unfolding poll_from
poll_from-IsOnce w key n [] c kv h = h
poll_from-IsOnce w key n (authorization id command stamp ∷ rs) c kv h =
    let c' = consume (w.seen n) (w.clock n) id command c in
    let h' = consume-IsOnce (w.seen n) (w.clock n) id command c h in
    elim (Bool-cases (w.crashes n)) [
      | inl e ↦ rw (e) h'
      | inr e ↦ rw (e) (poll_from-IsOnce w key (suc n) rs c' (insert key (str (suc n)) kv) h')
    ]
poll_from-IsOnce w key n (tombstone id reason ∷ rs) c kv h =
    poll_from-IsOnce w key (suc n) rs c (insert key (str (suc n)) kv) h
poll_from-IsOnce w key n (stopped id source kind target epoch ∷ rs) c kv h =
    poll_from-IsOnce w key (suc n) rs c (insert key (str (suc n)) kv) h

-- the actuator has the effect of a record, if the record authorizes one
abbrev pub IsDone : Actuator → LogRecord → Type 0
IsDone a (authorization id command stamp) = member id a.done ≡ true
IsDone a (tombstone id reason) = Unit
IsDone a (stopped id source kind target epoch) = Unit

perform_effect-member :
    (id j : Text) (a : Actuator)
    → member j a.done ≡ true
    → member j (perform_effect id a).1.done ≡ true
unfolding perform_effect
perform_effect-member id j a h = ground (arith, h, member-add id j a.done)

consume-member :
    (seen : Option Document) (clock : ℤ) (id : Text) (command : Command) (c : Consumer) (j : Text)
    → member j c.actuator.done ≡ true
    → member j (consume seen clock id command c).actuator.done ≡ true
unfolding consume effect_on
consume-member seen clock id command c j h =
    elim (Bool-cases
      ((has_moved_since seen command || is_late clock command) && c.recheck_at_apply)) [
        | inl e ↦ rw (e) h
        | inr e ↦ rw (e) (perform_effect-member id j c.actuator h)
      ]

pub consume-AllDone :
    (seen : Option Document) (clock : ℤ) (id : Text) (command : Command) (c : Consumer)
    (rs : List LogRecord)
    → All (IsDone c.actuator) rs
    → All (IsDone (consume seen clock id command c).actuator) rs
consume-AllDone seen clock id command c [] h = tt
consume-AllDone seen clock id command c (authorization j k stamp ∷ rs) h =
    (consume-member seen clock id command c j h.0, consume-AllDone seen clock id command c rs h.1)
consume-AllDone seen clock id command c (tombstone j reason ∷ rs) h =
    (tt, consume-AllDone seen clock id command c rs h.1)
consume-AllDone seen clock id command c (stopped j source kind target epoch ∷ rs) h =
    (tt, consume-AllDone seen clock id command c rs h.1)

perform_effect-done : (id : Text) (a : Actuator) → member id (perform_effect id a).1.done ≡ true
unfolding perform_effect
perform_effect-done id a = ground (arith, member-add id id a.done, same_text_refl id)

-- without the recheck, whatever the store says, a record has its effect
pub consume-done :
    (seen : Option Document) (clock : ℤ) (id : Text) (command : Command) (c : Consumer)
    → c.recheck_at_apply ≡ false
    → (member id (consume seen clock id command c).actuator.done ≡ true)
      × ((consume seen clock id command c).recheck_at_apply ≡ false)
unfolding consume effect_on
consume-done seen clock id command c e = ground (arith, e, perform_effect-done id c.actuator)
