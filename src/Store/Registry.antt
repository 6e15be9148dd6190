-- ===== src/Store/Registry.antt =====
-- The recorded truths as an invariant of every operation on the document.
use ld1_execution_gap_xair.Base.{
  ◌≡◌, refl, sym, ap, ◌∙◌, some, List, [], ◌∷◌, arith, Bool-cases, Option-cases, ◌⊎◌, inl, inr,
}
use ld1_execution_gap_xair.Base.Int.{ℤ, pos, ◌+ℤ◌, ◌-ℤ◌, leb_ℤ}
use ld1_execution_gap_xair.Base.Text.{Text, same_text, same_text_iff}
use ld1_execution_gap_xair.Base.Dict.{Dict, lookup, insert}
use ld1_execution_gap_xair.Value.{Fields}
use ld1_execution_gap_xair.Versioning.{changed_paths, deep_merge}
use ld1_execution_gap_xair.Versioning.Merge.{HasKeys}
use ld1_execution_gap_xair.Store.Document.{
  Entry, Document, index_changes, truth_of, retire, retruth_all, revise, apply, registered_entry,
  is_fresh, register_one, register_all, Operation, update, register, perform, perform_all,
}
use ld1_execution_gap_xair.Store.Truth.{retruth-revalued, revalued, unrelated-truth_of}
use ld1_execution_gap_xair.Store.Changes.{some_related}
use ld1_execution_gap_xair.Store.History.{AreDicts}

-- every entry records the truth of its predicate on a context
abbrev pub AreTrue : Fields → Dict Entry → Type 0
AreTrue ctx [] = Unit
AreTrue ctx ((e, v) ∷ entries) = (v.truth ≡ truth_of e ctx) × AreTrue ctx entries

retire-AreTrue :
    (horizon : ℤ) (ctx : Fields) (entries : Dict Entry)
    → AreTrue ctx entries
    → AreTrue ctx (retire horizon entries)
unfolding retire
retire-AreTrue horizon ctx [] h = tt
retire-AreTrue horizon ctx ((e, v) ∷ entries) h = elim (Bool-cases (leb_ℤ horizon v.registered)) [
  | inl f ↦ rw (f) (h.0, retire-AreTrue horizon ctx entries h.1)
  | inr f ↦ rw (f) (retire-AreTrue horizon ctx entries h.1)
]

revalued-truth :
    (version : ℤ) (merged : Fields) (e : Text) (v : Entry)
    → (revalued version merged e v).truth ≡ truth_of e merged
revalued-truth version merged e v = ground arith

retruth_all-AreTrue :
    (version : ℤ) (c : Text) (cs : List Text) (old patch : Fields) (entries : Dict Entry)
    → HasKeys patch
    → changed_paths old patch ≡ c ∷ cs
    → AreTrue old entries
    → AreTrue
        (deep_merge old patch)
        (retruth_all version (index_changes (c ∷ cs)) (deep_merge old patch) entries)
unfolding retruth_all
retruth_all-AreTrue version c cs old patch [] k h a = tt
retruth_all-AreTrue version c cs old patch ((e, v) ∷ entries) k h a = (
  ap (λ x. x.truth) (retruth-revalued version c cs old patch e v k h a.0)
      ∙ revalued-truth version (deep_merge old patch) e v,
  retruth_all-AreTrue version c cs old patch entries k h a.1,
)

AreTrue-unchanged :
    (old patch : Fields) (entries : Dict Entry)
    → HasKeys patch
    → changed_paths old patch ≡ []
    → AreTrue old entries
    → AreTrue (deep_merge old patch) entries
unfolding some_related
AreTrue-unchanged old patch [] k h a = tt
AreTrue-unchanged old patch ((e, v) ∷ entries) k h a = (
  a.0 ∙ sym (unrelated-truth_of e old patch k (rw h refl)),
  AreTrue-unchanged old patch entries k h a.1,
)

List-cases : (cs : List Text) → (cs ≡ []) ⊎ ((c : Text) × (rest : List Text) × (cs ≡ c ∷ rest))
List-cases [] = inl refl
List-cases (c ∷ cs) = inr (c, cs, refl)

revise-AreTrue :
    (version : ℤ) (old patch : Fields) (entries : Dict Entry)
    → HasKeys patch
    → AreTrue old entries
    → AreTrue
        (deep_merge old patch)
        (revise version (changed_paths old patch) (deep_merge old patch) entries)
unfolding revise
revise-AreTrue version old patch entries k a = elim (List-cases (changed_paths old patch)) [
  | inl h ↦ rw (h, revise) (AreTrue-unchanged old patch entries k h a)
  | inr (c, cs, h) ↦ rw (h, revise) (retruth_all-AreTrue version c cs old patch entries k h a)
]

insert-AreTrue :
    (ctx : Fields) (e : Text) (v : Entry) (entries : Dict Entry)
    → v.truth ≡ truth_of e ctx
    → AreTrue ctx entries
    → AreTrue ctx (insert e v entries)
unfolding insert
insert-AreTrue ctx e v [] t a = (t, tt)
insert-AreTrue ctx e v ((j, w) ∷ entries) t a = elim (Bool-cases (same_text j e)) [
  | inl f ↦ rw (f) (rw ((same_text_iff j e).0 f) t, a.1)
  | inr f ↦ rw (f) (a.0, insert-AreTrue ctx e v entries t a.1)
]

pub lookup-AreTrue :
    (ctx : Fields) (e : Text) (v : Entry) (entries : Dict Entry)
    → lookup e entries ≡ some v
    → AreTrue ctx entries
    → v.truth ≡ truth_of e ctx
unfolding lookup
lookup-AreTrue ctx e v [] h a = cc h
lookup-AreTrue ctx e v ((j, w) ∷ entries) h a =
    ground (arith, same_text_iff j e, lookup-AreTrue ctx e v entries)

registered_entry-truth :
    (clock : ℤ) (e : Text) (d : Document)
    → AreTrue d.context d.predicates
    → (registered_entry clock d e (lookup e d.predicates)).truth ≡ truth_of e d.context
registered_entry-truth clock e d a = elim (Option-cases (lookup e d.predicates)) [
  | inl f ↦ rw (f) refl
  | inr (v, f) ↦ rw (f) (lookup-AreTrue d.context e v d.predicates f a)
]

register_one-AreTrue :
    (clock retention : ℤ) (e : Text) (d : Document)
    → AreTrue d.context d.predicates
    → AreTrue
        (register_one clock retention e d).context
        (register_one clock retention e d).predicates
unfolding register_one
register_one-AreTrue clock retention e d a =
    elim (Bool-cases (is_fresh clock retention (lookup e d.predicates))) [
      | inl f ↦ rw (f) a
      | inr f ↦ rw (f) (
          insert-AreTrue d.context e (registered_entry clock d e (lookup e d.predicates))
            d.predicates (registered_entry-truth clock e d a) a)
    ]

register_all-AreTrue :
    (clock retention : ℤ) (es : List Text) (d : Document)
    → AreTrue d.context d.predicates
    → AreTrue
        (register_all clock retention es d).context
        (register_all clock retention es d).predicates
unfolding register_all
register_all-AreTrue clock retention [] d a = a
register_all-AreTrue clock retention (e ∷ es) d a =
    register_all-AreTrue clock retention es (register_one clock retention e d)
      (register_one-AreTrue clock retention e d a)

-- If the truth recorded for each registered predicate is its truth on the context of the same document,
-- then this holds after any operations of any processes, for patches whose keys name one field each.
pub perform_all-AreTrue :
    (retention : ℤ) (os : List Operation) (d : Document)
    → AreDicts os
    → AreTrue d.context d.predicates
    → AreTrue (perform_all retention os d).context (perform_all retention os d).predicates
unfolding perform_all perform apply
perform_all-AreTrue retention [] d k a = a
perform_all-AreTrue retention (update clock patch ∷ os) d k a =
    perform_all-AreTrue retention os (apply clock retention patch d) k.1 (
      revise-AreTrue (d.version +ℤ pos 1) d.context patch (retire (clock -ℤ retention) d.predicates)
        k.0 (retire-AreTrue (clock -ℤ retention) d.context d.predicates a))
perform_all-AreTrue retention (register clock es ∷ os) d k a =
    perform_all-AreTrue retention os (register_all clock retention es d) k
      (register_all-AreTrue clock retention es d a)
