-- ===== src/Store/Registration.antt =====
-- The transactions of an update and of a registration, which writes only what is missing.
use ld1_execution_gap_xair.Base.{
  suc, ℕ, ◌<◌, ◌≡◌, refl, sym, ap, subst, ◌∙◌, true, false, Option, none, some, List, [], ◌∷◌,
  arith, Bool-cases, ◌⊎◌, inl, inr,
}
use ld1_execution_gap_xair.Base.Int.{ℤ, pos, ◌*ℤ◌, ◌≤ℤ◌, -ℤ_parts}
use ld1_execution_gap_xair.Base.Text.{Text, same_text}
use ld1_execution_gap_xair.Base.Dict.{Dict, lookup, insert, lookup-insert}
use ld1_execution_gap_xair.Value.{Fields}
use ld1_execution_gap_xair.Store.Document.{
  Entry, Document, apply, registered_entry, is_fresh, register_one, register_all, update, register,
  perform, perform_all,
}
use ld1_execution_gap_xair.Store.Transaction.{
  Redis, Watches, update_redis, missing, refresh_all, write_missing, register_redis, Performs,
  Transacted, first_executed, rivals_until, transact-Ends,
}

-- the body of an update
abbrev pub update_body : (retention : ℤ) → (clock : ℕ → ℤ) → Fields → ℕ → Document → Option Document
update_body retention clock patch n x = some (apply (clock n) retention patch x)

update-Performs :
    (retention : ℤ) (clock : ℕ → ℤ) (patch : Fields)
    → Performs retention (update_body retention clock patch) (λ n. update (clock n) patch)
unfolding perform
update-Performs retention clock patch = record {
  nothing = λ n x e. cc e;
  written = λ n x y e. ground (arith, e);
}

-- What an update leaves, by the try that executes first: the update on what the others did before it, with
-- nobody in between, or, where no try executes, only what they did, and the RuntimeError.
abbrev pub UpdateEnds :
    (retention : ℤ) → Redis → (clock : ℕ → ℤ) → Fields → Document → Transacted → Option ℕ → Type 0
UpdateEnds retention net clock patch d x (some n) =
    let before = perform_all retention (rivals_until net (suc n) 32) d in
    let new = apply (clock n) retention patch before in (x ≡ (some new, new)) × (net.rivals n ≡ [])
UpdateEnds retention net clock patch d x none =
    x ≡ (none, perform_all retention (rivals_until net 0 32) d)

-- The transaction of an update takes effect at once, or not at all: with a WATCH that lets no EXEC go through
-- after somebody else wrote the key, the first of 32 tries that executes writes the update of the document
-- that the others' operations before it left, with the clock of that try and nothing of theirs lost. If none
-- of the 32 executes, the update is not written and the call raises.
pub update_redis_ends :
    (retention : ℤ) (net : Redis) (clock : ℕ → ℤ) (patch : Fields) (d : Document)
    → Watches net
    → UpdateEnds retention net clock patch d
        (update_redis retention net clock patch d)
        (first_executed net 32)
unfolding update_redis perform
update_redis_ends retention net clock patch d watch =
    elim (transact-Ends retention net (update_body retention clock patch)
      (λ n. update (clock n) patch) 32 d watch (update-Performs retention clock patch)) [
        | inl (n, l, e, inl (f, r)) ↦ rw (f) (e, r)
        | inl (n, l, e, inr b) ↦ cc b
        | inr (f, e) ↦ rw (f) e
      ]

-- a refreshed entry that was refreshed at the same time already
insert_same :
    (e : Text) (v : Entry) (entries : Dict Entry)
    → lookup e entries ≡ some v
    → insert e v entries ≡ entries
unfolding lookup insert
insert_same e v [] h = cc h
insert_same e v ((j, w) ∷ entries) h = elim (Bool-cases (same_text j e)) [
  | inl f ↦
      let same : w ≡ v = ground (arith, h, f) in rw (f) (ap (λ x. (j, x) ∷ entries) (sym same))
  | inr f ↦ rw (f) (ap (λ x. (j, w) ∷ x) (insert_same e v entries (ground (arith, h, f))))
]

-- an entry as it was, or one that this registration has written
abbrev Renewed : (clock : ℤ) → (old new : Option Entry) → Type 0
Renewed clock old new = (new ≡ old) ⊎ ((v : Entry) × (new ≡ some v) × (v.registered ≡ clock))

abbrev Agrees : (clock : ℤ) → (old new : Document) → Type 0
Agrees clock old new =
    (e : Text) → Renewed clock (lookup e old.predicates) (lookup e new.predicates)

fresh_now :
    (clock retention : ℤ) (v : Entry)
    → pos 0 ≤ℤ retention
    → v.registered ≡ clock
    → is_fresh clock retention (some v) ≡ true
fresh_now clock retention v z h = ground (arith, h, -ℤ_parts (2 *ℤ clock) retention)

registered_now :
    (clock : ℤ) (d : Document) (e : Text) (old : Option Entry)
    → (registered_entry clock d e old).registered ≡ clock
registered_now clock d e none = refl
registered_now clock d e (some v) = refl

abbrev refreshed : (clock : ℤ) → Text → Document → Document
refreshed clock e d = record d {
  predicates = insert e (registered_entry clock d e (lookup e d.predicates)) d.predicates;
}

refreshed-Agrees :
    (clock : ℤ) (e : Text) (old d : Document)
    → Agrees clock old d
    → Agrees clock old (refreshed clock e d)
refreshed-Agrees clock e old d h = λ j. elim (Bool-cases (same_text e j)) [
  | inl f ↦ inr (
    registered_entry clock d e (lookup e d.predicates),
    ground (
      arith,
      f,
      lookup-insert e j (registered_entry clock d e (lookup e d.predicates)) d.predicates,
    ),
    registered_now clock d e (lookup e d.predicates),
  )
  | inr f ↦
      subst (Renewed clock (lookup j old.predicates))
        (ground (
          arith,
          f,
          lookup-insert e j (registered_entry clock d e (lookup e d.predicates)) d.predicates,
        ))
        (h j)
]

refreshed_again :
    (clock : ℤ) (e : Text) (d : Document) (v : Entry)
    → lookup e d.predicates ≡ some v
    → v.registered ≡ clock
    → refreshed clock e d ≡ d
refreshed_again clock e d v h r =
    let same : registered_entry clock d e (lookup e d.predicates) ≡ v =
      ap (registered_entry clock d e) h ∙ ap (λ x. record v { registered = x }) (sym r) in
    ap (λ x. record d { predicates = x })
      (ap (λ x. insert e x d.predicates) same ∙ insert_same e v d.predicates h)

-- one predicate: what is fresh at the start is fresh still, and what is not is refreshed
register_one-skips :
    (clock retention : ℤ) (e : Text) (old d : Document)
    → pos 0 ≤ℤ retention
    → Renewed clock (lookup e old.predicates) (lookup e d.predicates)
    → is_fresh clock retention (lookup e old.predicates) ≡ true
    → register_one clock retention e d ≡ d
unfolding register_one
register_one-skips clock retention e old d z (inl s) f = ground (arith, s, f)
register_one-skips clock retention e old d z (inr (v, s, r)) f =
    ground (arith, s, fresh_now clock retention v z r)

register_one-refreshes :
    (clock retention : ℤ) (e : Text) (old d : Document)
    → pos 0 ≤ℤ retention
    → Renewed clock (lookup e old.predicates) (lookup e d.predicates)
    → is_fresh clock retention (lookup e old.predicates) ≡ false
    → register_one clock retention e d ≡ refreshed clock e d
unfolding register_one
register_one-refreshes clock retention e old d z (inl s) f =
    rw (subst (λ x. is_fresh clock retention x ≡ false) (sym s) f) refl
register_one-refreshes clock retention e old d z (inr (v, s, r)) f =
    ground (arith, s, fresh_now clock retention v z r, refreshed_again clock e d v s r)

missing-register_all :
    (clock retention : ℤ) (es : List Text) (old d : Document)
    → pos 0 ≤ℤ retention
    → Agrees clock old d
    → refresh_all clock (missing clock retention es old) d ≡ register_all clock retention es d
unfolding missing refresh_all register_all
missing-register_all clock retention [] old d z h = refl
missing-register_all clock retention (e ∷ es) old d z h =
    elim (Bool-cases (is_fresh clock retention (lookup e old.predicates))) [
      | inl f ↦
          rw (f, register_one-skips clock retention e old d z (h e) f)
            (missing-register_all clock retention es old d z h)
      | inr f ↦
          rw (f, register_one-refreshes clock retention e old d z (h e) f)
            (missing-register_all clock retention es old (refreshed clock e d) z
              (refreshed-Agrees clock e old d h))
    ]

-- the body of a registration
abbrev pub register_body :
    (retention : ℤ) → (clock : ℕ → ℤ) → List Text → ℕ → Document → Option Document
register_body retention clock es n x = write_missing (clock n) (missing (clock n) retention es x) x

write_missing-none :
    (clock : ℤ) (es : List Text) (x : Document)
    → write_missing clock es x ≡ none
    → refresh_all clock es x ≡ x
unfolding refresh_all
write_missing-none clock [] x h = refl
write_missing-none clock (e ∷ es) x h = cc h

write_missing-some :
    (clock : ℤ) (es : List Text) (x y : Document)
    → write_missing clock es x ≡ some y
    → refresh_all clock es x ≡ y
write_missing-some clock [] x y h = cc h
write_missing-some clock (e ∷ es) x y h = ground (arith, h)

register-Performs :
    (retention : ℤ) (clock : ℕ → ℤ) (es : List Text)
    → pos 0 ≤ℤ retention
    → Performs retention (register_body retention clock es) (λ n. register (clock n) es)
unfolding perform
register-Performs retention clock es z = record {
  nothing = λ n x e.
      sym (missing-register_all (clock n) retention es x x z (λ j. inl refl))
      ∙ write_missing-none (clock n) (missing (clock n) retention es x) x e;
  written = λ n x y e.
      sym (missing-register_all (clock n) retention es x x z (λ j. inl refl))
      ∙ write_missing-some (clock n) (missing (clock n) retention es x) x y e;
}

-- What a registration leaves: the document that the others' operations left before some try, with all the
-- predicates registered at the clock of that try; the try executed first, and nobody wrote in between, or
-- nothing was missing. Or no try executed, and only what the others did is there.
abbrev pub RegisterEnds :
    (retention : ℤ) → Redis → (clock : ℕ → ℤ) → List Text → Document → Transacted → Type 0
RegisterEnds retention net clock es d x =
    ((n : ℕ) × (n < 32)
      × (let before = perform_all retention (rivals_until net (suc n) 32) d in
          let new = register_all (clock n) retention es before in
          (x ≡ (some new, new))
          × (((first_executed net 32 ≡ some n) × (net.rivals n ≡ []))
              ⊎ (missing (clock n) retention es before ≡ []))))
    ⊎ ((first_executed net 32 ≡ none)
        × (x ≡ (none, perform_all retention (rivals_until net 0 32) d)))

nothing_missing :
    (clock : ℤ) (es : List Text) (x : Document) → write_missing clock es x ≡ none → es ≡ []
nothing_missing clock [] x h = refl
nothing_missing clock (e ∷ es) x h = cc h

-- The transaction of a registration, which reads what is missing and writes only that, registers all the
-- predicates at once, or nothing: with a WATCH that lets no EXEC go through after somebody else wrote the
-- key, and a retention that is not negative, it leaves what the others' operations before one of its 32 tries
-- left with all the predicates registered. Either that try is the first that executes, and nothing of the
-- others is lost, or nothing was missing. If no try executes and something was missing at each, nothing is
-- written and the call raises.
pub register_redis_ends :
    (retention : ℤ) (net : Redis) (clock : ℕ → ℤ) (es : List Text) (d : Document)
    → pos 0 ≤ℤ retention
    → Watches net
    → RegisterEnds retention net clock es d (register_redis retention net clock es d)
unfolding register_redis perform
register_redis_ends retention net clock es d z watch =
    elim (transact-Ends retention net (register_body retention clock es)
      (λ n. register (clock n) es) 32 d watch (register-Performs retention clock es z)) [
        | inl (n, l, e, inl k) ↦ inl (n, l, (e, inl k))
        | inl (n, l, e, inr b) ↦ inl (n, l, (e, inr (nothing_missing (clock n) _ _ b)))
        | inr k ↦ inr k
      ]
