-- ===== src/Store/History.antt =====
-- What an unchanged read-set version says of the operations in between, whoever made them.
use ld1_execution_gap_xair.Base.{
  ◌≡◌, refl, sym, ap, subst, ◌∙◌, true, false, List, [], ◌∷◌, arith, if◌then◌else◌,
}
use ld1_execution_gap_xair.Base.Int.{ℤ, pos, ◌+ℤ◌, ◌≤ℤ◌, +ℤ_parts, eq_ℤ_iff}
use ld1_execution_gap_xair.Base.Text.{Text}
use ld1_execution_gap_xair.Base.Dict.{member}
use ld1_execution_gap_xair.Value.{Fields}
use ld1_execution_gap_xair.Predicate.Check.{check_expression}
use ld1_execution_gap_xair.Versioning.{read_set_version, changed_paths, read_set}
use ld1_execution_gap_xair.Versioning.Merge.{HasKeys}
use ld1_execution_gap_xair.Versioning.Verdict.{update_keeps_verdict}
use ld1_execution_gap_xair.Store.Document.{
  Document, Operation, update, register, apply, register_one, register_all, perform, perform_all,
}
use ld1_execution_gap_xair.Store.Reads.{unread-Untouched}
use ld1_execution_gap_xair.Store.Versions.{
  AllWithin, stamp-AllWithin, AllWithin-le, some_read, read_set_version-stamp, read_set_version-le,
}

-- No version is negative or above the document's.
pub record IsVersioned (d : Document) : Type 0 where
  pub counted : pos 0 ≤ℤ d.version
  pub within : AllWithin d.version d.path_versions

-- every patch is a dict
abbrev pub AreDicts : List Operation → Type 0
AreDicts [] = Unit
AreDicts (update clock patch ∷ os) = HasKeys patch × AreDicts os
AreDicts (register clock es ∷ os) = AreDicts os

register_one-keeps :
    (clock retention : ℤ) (e : Text) (d : Document)
    → ((register_one clock retention e d).context ≡ d.context)
      × ((register_one clock retention e d).version ≡ d.version)
      × ((register_one clock retention e d).path_versions ≡ d.path_versions)
unfolding register_one
register_one-keeps clock retention e d = ground arith

-- a registration changes neither the context nor a version of a path
pub register_all-keeps :
    (clock retention : ℤ) (es : List Text) (d : Document)
    → ((register_all clock retention es d).context ≡ d.context)
      × ((register_all clock retention es d).version ≡ d.version)
      × ((register_all clock retention es d).path_versions ≡ d.path_versions)
unfolding register_all
register_all-keeps clock retention [] d = (refl, refl, refl)
register_all-keeps clock retention (e ∷ es) d =
    let (c, v, p) = register_all-keeps clock retention es (register_one clock retention e d) in
    let (c', v', p') = register_one-keeps clock retention e d in (c ∙ c', v ∙ v', p ∙ p')

next-le : (v : ℤ) → v ≤ℤ v +ℤ pos 1
next-le v = omega (arith, +ℤ_parts v (pos 1))

pub perform-IsVersioned :
    (retention : ℤ) (o : Operation) (d : Document)
    → IsVersioned d
    → IsVersioned (perform retention o d)
unfolding perform apply
perform-IsVersioned retention (update clock patch) d h = record {
  counted = omega (arith, next-le d.version, h.counted);
  within =
      stamp-AllWithin (d.version +ℤ pos 1) (changed_paths d.context patch) d.path_versions
        (omega (arith, next-le d.version, h.counted))
        (AllWithin-le d.version (d.version +ℤ pos 1) d.path_versions (next-le d.version) h.within);
}
perform-IsVersioned retention (register clock es) d h =
    let (c, v, p) = register_all-keeps clock retention es d in
    record { counted = subst (λ x. pos 0 ≤ℤ x) (sym v) h.counted; within = rw (v, p) h.within }

-- An update moves the version of a read-set to the new version of the document if a changed path is
-- related to the read-set, and leaves it otherwise.
pub read_set_version-apply :
    (clock retention : ℤ) (patch : Fields) (d : Document) (paths : List Text)
    → IsVersioned d
    → read_set_version (apply clock retention patch d).path_versions paths ≡ (
        if some_read (changed_paths d.context patch) paths
        then d.version +ℤ pos 1
        else read_set_version d.path_versions paths)
unfolding apply
read_set_version-apply clock retention patch d paths h =
    read_set_version-stamp (d.version +ℤ pos 1) (changed_paths d.context patch) d.path_versions
      paths (omega (arith, next-le d.version, h.counted))
      (AllWithin-le d.version (d.version +ℤ pos 1) d.path_versions (next-le d.version) h.within)

below_next : (a b v : ℤ) → a ≤ℤ v → a ≡ v +ℤ pos 1 → b ≡ a → ⊥
below_next a b v h e f = ground (arith, +ℤ_parts v (pos 1))

-- the version of a read-set after one operation: as it was, or larger
read_set_version-perform :
    (retention : ℤ) (o : Operation) (d : Document) (paths : List Text)
    → IsVersioned d
    → read_set_version d.path_versions paths
      ≤ℤ read_set_version (perform retention o d).path_versions paths
unfolding perform
read_set_version-perform retention (update clock patch) d paths h =
    let bound = read_set_version-le d.version d.path_versions paths h.counted h.within in
    ground (arith, read_set_version-apply clock retention patch d paths h, bound, next-le d.version)
read_set_version-perform retention (register clock es) d paths h =
    let (c, v, p) = register_all-keeps clock retention es d in rw (p) (omega arith)

read_set_version-perform_all :
    (retention : ℤ) (os : List Operation) (d : Document) (paths : List Text)
    → IsVersioned d
    → read_set_version d.path_versions paths
      ≤ℤ read_set_version (perform_all retention os d).path_versions paths
unfolding perform_all
read_set_version-perform_all retention [] d paths h = omega arith
read_set_version-perform_all retention (o ∷ os) d paths h = omega (
  arith,
  read_set_version-perform retention o d paths h,
  read_set_version-perform_all retention os (perform retention o d) paths
      (perform-IsVersioned retention o d h),
)

-- a read-set whose version an update left, was not touched by it
apply-unread :
    (clock retention : ℤ) (patch : Fields) (d : Document) (paths : List Text)
    → IsVersioned d
    → read_set_version (apply clock retention patch d).path_versions paths
      ≡ read_set_version d.path_versions paths
    → some_read (changed_paths d.context patch) paths ≡ false
apply-unread clock retention patch d paths h e =
    let bound = read_set_version-le d.version d.path_versions paths h.counted h.within in
    ground (
      arith,
      read_set_version-apply clock retention patch d paths h,
      bound,
      +ℤ_parts d.version (pos 1),
    )

-- one operation that leaves the version of the read-set
perform-same_verdict :
    (retention : ℤ) (o : Operation) (d : Document) (e : Text) (es : List Text)
    → IsVersioned d
    → AreDicts (o ∷ [])
    → member e es ≡ true
    → read_set_version (perform retention o d).path_versions (read_set es)
      ≡ read_set_version d.path_versions (read_set es)
    → check_expression e (perform retention o d).context ≡ check_expression e d.context
unfolding perform
perform-same_verdict retention (update clock patch) d e es h k m q =
    unfold apply in
    update_keeps_verdict e d.context patch k.0 (
      unread-Untouched e es (changed_paths d.context patch) m
        (apply-unread clock retention patch d (read_set es) h q))
perform-same_verdict retention (register clock rs) d e es h k m q =
    ap (check_expression e) (register_all-keeps clock retention rs d).0

AreDicts-head :
    (o : Operation) (os : List Operation) → AreDicts (o ∷ os) → AreDicts (o ∷ []) × AreDicts os
AreDicts-head (update clock patch) os k = ((k.0, tt), k.1)
AreDicts-head (register clock es) os k = (tt, k)

squeeze : (a b c : ℤ) → a ≤ℤ b → b ≤ℤ c → c ≡ a → b ≡ a
squeeze a b c p q e = ground (arith, eq_ℤ_iff b a)

-- If the version of the read-set of some predicates is after any operations of any processes what it
-- was before them, then each of the predicates has the verdict and the message that it had, however
-- often the context was written in between: a change that was undone would have moved the version.
pub same_version-same_verdict :
    (retention : ℤ) (os : List Operation) (d : Document) (e : Text) (es : List Text)
    → IsVersioned d
    → AreDicts os
    → member e es ≡ true
    → read_set_version (perform_all retention os d).path_versions (read_set es)
      ≡ read_set_version d.path_versions (read_set es)
    → check_expression e (perform_all retention os d).context ≡ check_expression e d.context
unfolding perform_all
same_version-same_verdict retention [] d e es h k m q = refl
same_version-same_verdict retention (o ∷ os) d e es h k m q =
    let d' = perform retention o d in
    let h' = perform-IsVersioned retention o d h in
    let first = read_set_version-perform retention o d (read_set es) h in
    let rest = read_set_version-perform_all retention os d' (read_set es) h' in
    let same = squeeze _ _ _ first rest q in
    same_version-same_verdict retention os d' e es h' (AreDicts-head o os k).1 m (q ∙ sym same)
    ∙ perform-same_verdict retention o d e es h (AreDicts-head o os k).0 m same
