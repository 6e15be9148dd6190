-- ===== src/Store/Transaction.antt =====
-- `_update_redis` and `_register_redis`: optimistic transactions on the stored document.
use ld1_execution_gap_xair.Base.{
  leb, ◌≤◌, ◌⊎◌, sym, ap, ◌∙◌, subst, ℕ, zero, suc, ◌<◌, ◌≡◌, refl, Bool, true, false, Option, none,
  some, List, [], ◌∷◌, ◌++◌, if◌then◌else◌, arith, Bool-cases, Option-cases, inl, inr,
}
use ld1_execution_gap_xair.Base.Int.{ℤ}
use ld1_execution_gap_xair.Base.Text.{Text}
use ld1_execution_gap_xair.Base.Dict.{lookup, insert}
use ld1_execution_gap_xair.Value.{Fields}
use ld1_execution_gap_xair.Store.Document.{
  Document, apply, registered_entry, is_fresh, Operation, perform, perform_all,
}

-- `_MAX_TX_RETRIES`
abbrev pub max_tx_retries : ℕ
max_tx_retries = 32

-- Redis around the tries of a transaction, counted down: what the other clients do to the key after it is
-- watched, and whether EXEC goes through.
pub record Redis : Type 0 where
  pub rivals : ℕ → List Operation
  pub executes : ℕ → Bool

-- WATCH: an EXEC goes through only if nobody wrote the key in between
abbrev pub Watches : Redis → Type 0
Watches net = (n : ℕ) → net.executes n ≡ true → net.rivals n ≡ []

-- What a transaction returns, none for the RuntimeError, and the stored document.
abbrev pub Transacted : Type 0
Transacted = Option Document × Document

-- The loop over the tries. A body that finds nothing to write ends it.
unfoldable pub transact :
    (retention : ℤ)
    → Redis
    → (body : ℕ → Document → Option Document) → (tries : ℕ) → Document
    → Transacted
transact retention net body zero d = (none, d)
transact retention net body (suc n) d =
    let rest = transact retention net body n (perform_all retention (net.rivals n) d) in
    elim (body n d) [
      | none ↦ (some d, d)
      | some new ↦ if net.executes n then (some new, new) else rest
    ]

-- `_update_redis`, with the clock at each try
unfoldable pub update_redis :
    (retention : ℤ) → Redis → (clock : ℕ → ℤ) → Fields → Document → Transacted
update_redis retention net clock patch d =
    transact retention net (λ n x. some (apply (clock n) retention patch x)) max_tx_retries d

-- `missing`
unfoldable pub missing : (clock retention : ℤ) → List Text → Document → List Text
missing clock retention [] d = []
missing clock retention (e ∷ es) d =
    let rest = missing clock retention es d in
    if is_fresh clock retention (lookup e d.predicates) then rest else e ∷ rest

-- `for e in missing`
unfoldable pub refresh_all : (clock : ℤ) → List Text → Document → Document
refresh_all clock [] d = d
refresh_all clock (e ∷ es) d = refresh_all clock es (record d {
  predicates = insert e (registered_entry clock d e (lookup e d.predicates)) d.predicates;
})

abbrev pub write_missing : (clock : ℤ) → List Text → Document → Option Document
write_missing clock [] d = none
write_missing clock (e ∷ es) d = some (refresh_all clock (e ∷ es) d)

-- `_register_redis` from the transaction on
unfoldable pub register_redis :
    (retention : ℤ) → Redis → (clock : ℕ → ℤ) → List Text → Document → Transacted
register_redis retention net clock es d =
    transact retention net (λ n x. write_missing (clock n) (missing (clock n) retention es x) x)
      max_tx_retries d

-- the try that executes first, counted down
unfoldable pub first_executed : Redis → (tries : ℕ) → Option ℕ
first_executed net zero = none
first_executed net (suc m) = if net.executes m then some m else first_executed net m

-- what the others did around the tries, from the first of so many down to the try n
unfoldable pub rivals_until : Redis → (n tries : ℕ) → List Operation
rivals_until net n zero = []
rivals_until net n (suc m) =
    let later = rivals_until net n m in if leb n m then net.rivals m ++ later else []

perform_all-append :
    (retention : ℤ) (xs ys : List Operation) (d : Document)
    → perform_all retention (xs ++ ys) d ≡ perform_all retention ys (perform_all retention xs d)
unfolding perform_all
perform_all-append retention [] ys d = refl
perform_all-append retention (x ∷ xs) ys d =
    perform_all-append retention xs ys (perform retention x d)

-- a body does at each try what an operation on the document does
pub record Performs (retention : ℤ) (body : ℕ → Document → Option Document) (os : ℕ → Operation)
    : Type 0 where
  pub nothing : (n : ℕ) (x : Document) → body n x ≡ none → perform retention (os n) x ≡ x
  pub written : (n : ℕ) (x y : Document) → body n x ≡ some y → perform retention (os n) x ≡ y

rivals_until-none : (net : Redis) (m : ℕ) → rivals_until net (suc m) (suc m) ≡ []
unfolding rivals_until
rivals_until-none net m = ground arith

rivals_until-more :
    (net : Redis) (n m : ℕ)
    → n ≤ m
    → rivals_until net n (suc m) ≡ net.rivals m ++ rivals_until net n m
unfolding rivals_until
rivals_until-more net n m l = ground arith

module _ (retention : ℤ) (net : Redis) (body : ℕ → Document → Option Document)
    (os : ℕ → Operation) where
  -- the document that a try reads, after what the others did around the tries before it
  abbrev pub read_at : (n tries : ℕ) → Document → Document
  read_at n tries d = perform_all retention (rivals_until net (suc n) tries) d

  -- The document that a transaction read at one try, with its operation done: that try executed first and
  -- nobody wrote in between, or there was nothing to write. Or no try executed, and it raises.
  abbrev pub Ends : (tries : ℕ) → Document → Transacted → Type 0
  Ends tries d x =
      ((n : ℕ) × (n < tries)
        × (x ≡ (
          some (perform retention (os n) (read_at n tries d)),
          perform retention (os n) (read_at n tries d),
        ))
        × (((first_executed net tries ≡ some n) × (net.rivals n ≡ []))
            ⊎ (body n (read_at n tries d) ≡ none)))
      ⊎ ((first_executed net tries ≡ none)
          × (x ≡ (none, perform_all retention (rivals_until net 0 tries) d)))

  -- one more try before them, which failed
  Ends-later :
      (m : ℕ) (d : Document) (x : Transacted)
      → net.executes m ≡ false
      → Ends m (perform_all retention (net.rivals m) d) x
      → Ends (suc m) d x
  unfolding first_executed
  Ends-later m d x f (inl (n, l, e, why)) =
      let same : read_at n m (perform_all retention (net.rivals m) d) ≡ read_at n (suc m) d = sym (
        ap (λ os. perform_all retention os d) (rivals_until-more net (suc n) m l)
        ∙ perform_all-append retention (net.rivals m) (rivals_until net (suc n) m) d) in
      inl (
        n,
        omega arith,
        e ∙ ap (λ y. (some (perform retention (os n) y), perform retention (os n) y)) same,
        elim why [ inl (g, r) ↦ inl (rw (f) g, r) | inr b ↦ inr (sym (ap (body n) same) ∙ b) ],
      )
  Ends-later m d x f (inr (g, e)) = inr (
    rw (f) g,
    e
        ∙ ap (λ y. (none, y))
            (sym (
              ap (λ os. perform_all retention os d) (rivals_until-more net 0 m (omega arith))
              ∙ perform_all-append retention (net.rivals m) (rivals_until net 0 m) d)),
  )

  -- the last try
  read_at-now : (m : ℕ) (d : Document) → read_at m (suc m) d ≡ d
  unfolding perform_all
  read_at-now m d = ap (λ os. perform_all retention os d) (rivals_until-none net m)

  transact_nothing :
      (m : ℕ) (d : Document) → body m d ≡ none → transact retention net body (suc m) d ≡ (some d, d)
  unfolding transact
  transact_nothing m d e = ground (arith, e)

  transact_executed :
      (m : ℕ) (d : Document) {y : Document}
      → body m d ≡ some y
      → net.executes m ≡ true
      → transact retention net body (suc m) d ≡ (some y, y)
  unfolding transact
  transact_executed m d e f = ground (arith, e, f)

  transact_failed :
      (m : ℕ) (d : Document) {y : Document}
      → body m d ≡ some y
      → net.executes m ≡ false
      → transact retention net body (suc m) d
        ≡ transact retention net body m (perform_all retention (net.rivals m) d)
  unfolding transact
  transact_failed m d e f = ground (arith, e, f)

  -- the operation of the last try, on the document as it is
  ends_now :
      (m : ℕ) (d y : Document) (x : Transacted)
      → x ≡ (some y, y)
      → perform retention (os m) d ≡ y
      → x ≡ (
        some (perform retention (os m) (read_at m (suc m) d)),
        perform retention (os m) (read_at m (suc m) d),
      )
  ends_now m d y x e p =
      e ∙ ap (λ z. (some z, z)) (sym (ap (perform retention (os m)) (read_at-now m d) ∙ p))

  pub transact-Ends :
      (tries : ℕ) (d : Document)
      → Watches net
      → Performs retention body os
      → Ends tries d (transact retention net body tries d)
  unfolding first_executed transact rivals_until perform_all
  transact-Ends zero d watch does = inr (refl, refl)
  transact-Ends (suc m) d watch does = elim (Option-cases (body m d)) [
    | inl e ↦ inl (
      m,
      omega arith,
      ends_now m d d _ (transact_nothing m d e) (does.nothing m d e),
      inr (ap (body m) (read_at-now m d) ∙ e),
    )
    | inr (y, e) ↦ elim (Bool-cases (net.executes m)) [
      | inl f ↦ inl (
        m,
        omega arith,
        ends_now m d y _ (transact_executed m d e f) (does.written m d y e),
        inl (rw (f) refl, watch m f),
      )
      | inr f ↦
          subst (Ends (suc m) d) (sym (transact_failed m d e f)) (
            Ends-later m d _ f
              (transact-Ends m (perform_all retention (net.rivals m) d) watch does))
    ]
  ]
