-- ===== src/Store/Flips.antt =====
-- What an unchanged truth version says: no registered predicate flipped in between, also not twice.
use ld1_execution_gap_xair.Base.{
  ◌≡◌, sym, ap, subst, true, none, some, List, [], ◌∷◌, arith, Bool-cases, Option-cases, ◌⊎◌, inl,
  inr,
}
use ld1_execution_gap_xair.Base.Int.{ℤ, pos, ◌+ℤ◌, ◌-ℤ◌, ◌≤ℤ◌, ◌<ℤ◌, leb_ℤ, +ℤ_parts}
use ld1_execution_gap_xair.Base.Text.{Text, same_text, same_text_iff}
use ld1_execution_gap_xair.Base.Dict.{Dict, lookup, lookup-insert, insert}
use ld1_execution_gap_xair.Value.{Fields}
use ld1_execution_gap_xair.Versioning.{changed_paths, deep_merge}
use ld1_execution_gap_xair.Store.Document.{
  Entry, Document, Changed, index_changes, retire, retruth, retruth_all, revise, apply,
  registered_entry, is_fresh, register_one, register_all, Operation, update, register, perform,
  perform_all,
}

-- an entry that is what it was when the document had the version `top`, or that moved since
abbrev pub IsKept : (top : ℤ) (old : Entry) → Entry → Type 0
IsKept top old v = ((v.version ≡ old.version) × (v.truth ≡ old.truth)) ⊎ (top <ℤ v.version)

abbrev pub AreKept : (top : ℤ) (old : Entry) → Text → Dict Entry → Type 0
AreKept top old e [] = Unit
AreKept top old e ((j, v) ∷ entries) =
    (same_text j e ≡ true → IsKept top old v) × AreKept top old e entries

pub record Follows (top : ℤ) (old : Entry) (e : Text) (d : Document) : Type 0 where
  pub later : top ≤ℤ d.version
  pub kept : AreKept top old e d.predicates
  pub missing : lookup e d.predicates ≡ none → top <ℤ d.version

-- the keys of a dict are distinct
abbrev pub AreDistinct : Dict Entry → Type 0
AreDistinct [] = Unit
AreDistinct ((k, v) ∷ entries) = (lookup k entries ≡ none) × AreDistinct entries

AreKept-none :
    (top : ℤ) (old : Entry) (e : Text) (entries : Dict Entry)
    → lookup e entries ≡ none
    → AreKept top old e entries
unfolding lookup
AreKept-none top old e [] h = tt
AreKept-none top old e ((j, v) ∷ entries) h = elim (Bool-cases (same_text j e)) [
  | inl f ↦ cc (h, f)
  | inr f ↦ ((λ g. cc (f, g)), AreKept-none top old e entries (ground (arith, h, f)))
]

pub AreKept-start :
    (top : ℤ) (old : Entry) (e : Text) (entries : Dict Entry)
    → AreDistinct entries
    → lookup e entries ≡ some old
    → AreKept top old e entries
unfolding lookup
AreKept-start top old e [] k h = tt
AreKept-start top old e ((j, v) ∷ entries) k h = elim (Bool-cases (same_text j e)) [
  | inl f ↦
      let same : v ≡ old = ground (arith, h, f) in
      (
        (λ g. inl (ap (λ x. x.version) same, ap (λ x. x.truth) same)),
        AreKept-none top old e entries
            (subst (λ x. lookup x entries ≡ none) ((same_text_iff j e).0 f) k.0),
      )
  | inr f ↦ ((λ g. cc (f, g)), AreKept-start top old e entries k.1 (ground (arith, h, f)))
]

retire-AreKept :
    (horizon top : ℤ) (old : Entry) (e : Text) (entries : Dict Entry)
    → AreKept top old e entries
    → AreKept top old e (retire horizon entries)
unfolding retire
retire-AreKept horizon top old e [] h = tt
retire-AreKept horizon top old e ((j, v) ∷ entries) h =
    elim (Bool-cases (leb_ℤ horizon v.registered)) [
      | inl f ↦ rw (f) (h.0, retire-AreKept horizon top old e entries h.1)
      | inr f ↦ rw (f) (retire-AreKept horizon top old e entries h.1)
    ]

retruth-IsKept :
    (version : ℤ) (ch : Changed) (merged : Fields) (j : Text) (top : ℤ) (old v : Entry)
    → top <ℤ version
    → IsKept top old v
    → IsKept top old (retruth version ch merged j v)
unfolding retruth
retruth-IsKept version ch merged j top old v l h = ground arith

retruth_all-AreKept :
    (version : ℤ) (ch : Changed) (merged : Fields) (top : ℤ) (old : Entry) (e : Text)
    (entries : Dict Entry)
    → top <ℤ version
    → AreKept top old e entries
    → AreKept top old e (retruth_all version ch merged entries)
unfolding retruth_all
retruth_all-AreKept version ch merged top old e [] l h = tt
retruth_all-AreKept version ch merged top old e ((j, v) ∷ entries) l h = (
  (λ g. retruth-IsKept version ch merged j top old v l (h.0 g)),
  retruth_all-AreKept version ch merged top old e entries l h.1,
)

revise-AreKept :
    (version : ℤ) (cs : List Text) (merged : Fields) (top : ℤ) (old : Entry) (e : Text)
    (entries : Dict Entry)
    → top <ℤ version
    → AreKept top old e entries
    → AreKept top old e (revise version cs merged entries)
unfolding revise
revise-AreKept version [] merged top old e entries l h = h
revise-AreKept version (c ∷ cs) merged top old e entries l h =
    retruth_all-AreKept version (index_changes (c ∷ cs)) merged top old e entries l h

insert-AreKept :
    (j : Text) (v : Entry) (top : ℤ) (old : Entry) (e : Text) (entries : Dict Entry)
    → (same_text j e ≡ true → IsKept top old v)
    → AreKept top old e entries
    → AreKept top old e (insert j v entries)
unfolding insert
insert-AreKept j v top old e [] k h = (k, tt)
insert-AreKept j v top old e ((i, w) ∷ entries) k h = elim (Bool-cases (same_text i j)) [
  | inl f ↦ rw (f) ((λ g. k (subst (λ x. same_text x e ≡ true) ((same_text_iff i j).0 f) g)), h.1)
  | inr f ↦ rw (f) (h.0, insert-AreKept j v top old e entries k h.1)
]

pub lookup-IsKept :
    (top : ℤ) (old v : Entry) (e : Text) (entries : Dict Entry)
    → AreKept top old e entries
    → lookup e entries ≡ some v
    → IsKept top old v
unfolding lookup
lookup-IsKept top old v e [] k h = cc h
lookup-IsKept top old v e ((j, w) ∷ entries) k h = elim (Bool-cases (same_text j e)) [
  | inl f ↦ let same : w ≡ v = ground (arith, h, f) in subst (IsKept top old) same (k.0 f)
  | inr f ↦ lookup-IsKept top old v e entries k.1 (ground (arith, h, f))
]

registered_entry-IsKept :
    (clock top : ℤ) (old : Entry) (e : Text) (d : Document)
    → Follows top old e d
    → IsKept top old (registered_entry clock d e (lookup e d.predicates))
registered_entry-IsKept clock top old e d h = elim (Option-cases (lookup e d.predicates)) [
  | inl f ↦ rw (f) (inr (h.missing f))
  | inr (v, f) ↦ rw (f) (lookup-IsKept top old v e d.predicates h.kept f)
]

insert_keeps_key :
    (j e : Text) (v : Entry) (entries : Dict Entry)
    → lookup e (insert j v entries) ≡ none
    → lookup e entries ≡ none
insert_keeps_key j e v entries h = ground (arith, lookup-insert j e v entries)

register_one-Follows :
    (clock retention top : ℤ) (old : Entry) (e j : Text) (d : Document)
    → Follows top old e d
    → Follows top old e (register_one clock retention j d)
unfolding register_one
register_one-Follows clock retention top old e j d h =
    elim (Bool-cases (is_fresh clock retention (lookup j d.predicates))) [
      | inl f ↦ rw (f) h
      | inr f ↦
          let v = registered_entry clock d j (lookup j d.predicates) in
          rw (f) (record {
            later = h.later;
            kept =
                insert-AreKept j v top old e d.predicates
                  (λ g.
                    subst (λ x. IsKept top old (registered_entry clock d x (lookup x d.predicates)))
                      (sym ((same_text_iff j e).0 g)) (registered_entry-IsKept clock top old e d h))
                  h.kept;
            missing = λ g. h.missing (insert_keeps_key j e v d.predicates g);
          })
    ]

register_all-Follows :
    (clock retention top : ℤ) (old : Entry) (e : Text) (es : List Text) (d : Document)
    → Follows top old e d
    → Follows top old e (register_all clock retention es d)
unfolding register_all
register_all-Follows clock retention top old e [] d h = h
register_all-Follows clock retention top old e (j ∷ es) d h =
    register_all-Follows clock retention top old e es (register_one clock retention j d)
      (register_one-Follows clock retention top old e j d h)

pub perform_all-Follows :
    (retention top : ℤ) (old : Entry) (e : Text) (os : List Operation) (d : Document)
    → Follows top old e d
    → Follows top old e (perform_all retention os d)
unfolding perform_all perform apply
perform_all-Follows retention top old e [] d h = h
perform_all-Follows retention top old e (update clock patch ∷ os) d h =
    let next : top <ℤ d.version +ℤ pos 1 = omega (arith, +ℤ_parts d.version (pos 1), h.later) in
    perform_all-Follows retention top old e os (apply clock retention patch d) (record {
      later = omega (arith, next);
      kept =
          revise-AreKept (d.version +ℤ pos 1) (changed_paths d.context patch)
            (deep_merge d.context patch) top old e (retire (clock -ℤ retention) d.predicates) next
            (retire-AreKept (clock -ℤ retention) top old e d.predicates h.kept);
      missing = λ g. next;
    })
perform_all-Follows retention top old e (register clock es ∷ os) d h =
    perform_all-Follows retention top old e os (register_all clock retention es d)
      (register_all-Follows clock retention top old e es d h)
