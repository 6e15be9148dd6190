-- ===== src/Store/Truth.antt =====
-- The registered predicates: the truth that is recorded is the truth on the context, and a version
-- moves only with it.
use ld1_execution_gap_xair.Base.{
  ◌≡◌, refl, ap, subst, ◌∙◌, Bool, true, false, some, List, [], ◌∷◌, ◌++◌, map, All, arith,
  Bool-cases, Option-cases, inl, inr, if◌then◌else◌,
}
use ld1_execution_gap_xair.Base.Int.{ℤ}
use ld1_execution_gap_xair.Base.Text.{Text, txt, same_text_iff, starts_with, starts_with→append}
use ld1_execution_gap_xair.Base.Dict.{member}
use ld1_execution_gap_xair.Value.{Fields}
use ld1_execution_gap_xair.Versioning.{
  related, changed_paths, deep_merge, path_of, read_set, read_set_from,
}
use ld1_execution_gap_xair.Versioning.Merge.{HasKeys}
use ld1_execution_gap_xair.Versioning.Paths.{append_assoc}
use ld1_execution_gap_xair.Versioning.Verdict.{Untouched, update_keeps_verdict}
use ld1_execution_gap_xair.Store.Document.{
  Entry, root_of, index_changes, expr_path, truth_of, same_truth, retruth,
}
use ld1_execution_gap_xair.Store.Changes.{some_related, touches-some_related}

root_of-append : (b r : Text) → root_of (b ++ b'.' ∷ r) ≡ root_of b
unfolding root_of
root_of-append [] r = refl
root_of-append (c ∷ b) r = ground (arith, root_of-append b r)

root_of-prefix : (a b : Text) → starts_with a (b ++ txt ".") ≡ true → root_of a ≡ root_of b
root_of-prefix a b h =
    let (r, e) = starts_with→append a (b ++ txt ".") h in
    ap root_of (e ∙ append_assoc b (txt ".") r) ∙ root_of-append b r

-- related paths share their first segment
root_of-related : (a b : Text) → related a b ≡ true → root_of a ≡ root_of b
unfolding related
root_of-related a b h = ground (arith, same_text_iff a b, root_of-prefix a b, root_of-prefix b a)

some_related-root :
    (cs : List Text) (p : Text)
    → some_related cs p ≡ true
    → member (root_of p) (map root_of cs) ≡ true
unfolding some_related member
some_related-root [] p h = cc h
some_related-root (c ∷ cs) p h =
    ground
      (arith, root_of-related c p, same_text_iff (root_of c) (root_of p), some_related-root cs p)

some_related→All :
    (cs : List Text) (p : Text) → some_related cs p ≡ false → All (λ c. related c p ≡ false) cs
unfolding some_related
some_related→All [] p h = tt
some_related→All (c ∷ cs) p h = (ground arith, some_related→All cs p (ground arith))

expr_path-path_of : (e p : Text) → path_of e ≡ some p → expr_path e ≡ p
unfolding expr_path read_set read_set_from member
expr_path-path_of e p h = rw (h) refl

unrelated-Untouched :
    (e : Text) (cs : List Text) → some_related cs (expr_path e) ≡ false → Untouched (path_of e) cs
unrelated-Untouched e cs h = elim (Option-cases (path_of e)) [
  | inl f ↦ rw (f) tt
  | inr (p, f) ↦
      rw (f)
        (some_related→All cs p (subst (λ x. some_related cs x ≡ false) (expr_path-path_of e p f) h))
]

-- the entry of a predicate after an update, by its truth alone
abbrev pub revalued : ℤ → Fields → Text → Entry → Entry
revalued version merged e v =
    if same_truth (truth_of e merged) v.truth
    then v
    else record v { version = version; truth = truth_of e merged }

same_truth_refl : (b : Bool) → same_truth b b ≡ true
same_truth_refl true = refl
same_truth_refl false = refl

pub unrelated-truth_of :
    (e : Text) (old patch : Fields)
    → HasKeys patch
    → some_related (changed_paths old patch) (expr_path e) ≡ false
    → truth_of e (deep_merge old patch) ≡ truth_of e old
unfolding truth_of
unrelated-truth_of e old patch k h =
    ap (λ r. r.0)
      (update_keeps_verdict e old patch k (unrelated-Untouched e (changed_paths old patch) h))

revalued_same :
    (version : ℤ) (old merged : Fields) (e : Text) (v : Entry)
    → v.truth ≡ truth_of e old
    → truth_of e merged ≡ truth_of e old
    → revalued version merged e v ≡ v
revalued_same version old merged e v t q = ground (arith, same_truth_refl (truth_of e old))

-- The skips are sound: an update leaves each entry as if every registered predicate had been evaluated
-- on the new context, for entries that recorded the truth on the old one.
pub retruth-revalued :
    (version : ℤ) (c : Text) (cs : List Text) (old patch : Fields) (e : Text) (v : Entry)
    → HasKeys patch
    → changed_paths old patch ≡ c ∷ cs
    → v.truth ≡ truth_of e old
    → retruth version (index_changes (c ∷ cs)) (deep_merge old patch) e v
      ≡ revalued version (deep_merge old patch) e v
unfolding retruth index_changes
retruth-revalued version c cs old patch e v k h t =
    elim (Bool-cases (some_related (c ∷ cs) (expr_path e))) [
      | inl f ↦
          rw
            (
              touches-some_related (c ∷ cs) (expr_path e),
              f,
              some_related-root (c ∷ cs) (expr_path e) f,
            )
            refl
      | inr f ↦
          rw (touches-some_related (c ∷ cs) (expr_path e), f)
            (ground (
              arith,
              revalued_same version old (deep_merge old patch) e v t
                  (unrelated-truth_of e old patch k (rw h f)),
            ))
    ]
