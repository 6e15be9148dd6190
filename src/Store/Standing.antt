-- ===== src/Store/Standing.antt =====
-- An unchanged version of the truths of some predicates: none of them flipped in between.
use ld1_execution_gap_xair.Base.{
  ◌≡◌, refl, sym, subst, ◌∙◌, true, Option, none, some, List, [], ◌∷◌, arith, Bool-cases,
  Option-cases, inl, inr, if◌then◌else◌,
}
use ld1_execution_gap_xair.Base.Int.{ℤ, pos, ◌≤ℤ◌, ◌<ℤ◌, ltb_ℤ}
use ld1_execution_gap_xair.Base.Text.{Text, same_text, same_text_iff}
use ld1_execution_gap_xair.Base.Dict.{Dict, lookup, member}
use ld1_execution_gap_xair.Versioning.{predicate_version, predicate_version_from}
use ld1_execution_gap_xair.Store.Document.{Entry, Document, truth_of, Operation, perform_all}
use ld1_execution_gap_xair.Store.Versions.{AllWithin}
use ld1_execution_gap_xair.Store.History.{AreDicts}
use ld1_execution_gap_xair.Store.Registry.{AreTrue, lookup-AreTrue, perform_all-AreTrue}
use ld1_execution_gap_xair.Store.Commit.{
  entry_versions, truth, Contents, Request, committed, observed_version, commit_memory,
}
use ld1_execution_gap_xair.Store.Commits.{commit_memory_iff}
use ld1_execution_gap_xair.Store.Script.{lookup-entry_versions}
use ld1_execution_gap_xair.Store.Flips.{
  AreDistinct, AreKept-start, Follows, lookup-IsKept, perform_all-Follows,
}

-- the version of several predicates is at least that of each, and the bound of all
predicate_version_from-ge :
    (best : ℤ) (versions : Dict ℤ) (es : List Text)
    → pos 0 ≤ℤ predicate_version_from best versions es
    → best ≤ℤ predicate_version_from best versions es
unfolding predicate_version_from
predicate_version_from-ge best versions [] h = omega arith
predicate_version_from-ge best versions (e ∷ es) h = elim (Option-cases (lookup e versions)) [
  | inl f ↦ ground (arith, f, h)
  | inr (v, f) ↦
      ground (arith, f, h, predicate_version_from-ge (if ltb_ℤ best v then v else best) versions es)
]

abbrev Found : ℤ → Option ℤ → Type 0
Found top none = ⊥
Found top (some v) = v ≤ℤ top

predicate_version_from-Found :
    (best : ℤ) (versions : Dict ℤ) (e : Text) (es : List Text)
    → member e es ≡ true
    → pos 0 ≤ℤ predicate_version_from best versions es
    → Found (predicate_version_from best versions es) (lookup e versions)
unfolding predicate_version_from member
predicate_version_from-Found best versions e [] m h = cc m
predicate_version_from-Found best versions e (j ∷ es) m h =
    elim (Option-cases (lookup j versions)) [
      | inl f ↦ ground (arith, f, h)
      | inr (v, f) ↦ ground (
        arith,
        f,
        h,
        m,
        same_text_iff j e,
        predicate_version_from-ge (if ltb_ℤ best v then v else best) versions es,
        predicate_version_from-Found (if ltb_ℤ best v then v else best) versions e es,
      )
    ]

lookup-AllWithin :
    (top v : ℤ) (e : Text) (versions : Dict ℤ)
    → AllWithin top versions
    → lookup e versions ≡ some v
    → v ≤ℤ top
unfolding lookup
lookup-AllWithin top v e [] h f = cc f
lookup-AllWithin top v e ((j, w) ∷ versions) h f = elim (Bool-cases (same_text j e)) [
  | inl g ↦ let same : w ≡ v = ground (arith, f, g) in subst (λ x. x ≤ℤ top) same h.1
  | inr g ↦ lookup-AllWithin top v e versions h.2 (ground (arith, f, g))
]

predicate_version_from-le :
    (best top : ℤ) (versions : Dict ℤ) (es : List Text)
    → pos 0 ≤ℤ top
    → best ≤ℤ top
    → AllWithin top versions
    → predicate_version_from best versions es ≤ℤ top
unfolding predicate_version_from
predicate_version_from-le best top versions [] z b h = b
predicate_version_from-le best top versions (e ∷ es) z b h =
    elim (Option-cases (lookup e versions)) [
      | inl f ↦ ground (arith, f, z)
      | inr (v, f) ↦
          let bound = lookup-AllWithin top v e versions h f in
          ground (
            arith,
            f,
            predicate_version_from-le (if ltb_ℤ best v then v else best) top versions es z
                (ground (arith, bound, b)) h,
          )
    ]

counted_entry :
    (top : ℤ) (r : Option Entry) (version : Option ℤ)
    → version ≡ elim r [ none ↦ none | some v ↦ some v.version ]
    → Found top version
    → ((v : Entry) × (r ≡ some v) × (v.version ≤ℤ top))
counted_entry top none version q h = elim (subst (Found top) q h) [ ]
counted_entry top (some v) version q h = (v, refl, subst (Found top) q h)

-- a predicate that a version counts is registered, with no larger version
predicate_version-registered :
    (entries : Dict Entry) (e : Text) (es : List Text)
    → member e es ≡ true
    → pos 0 ≤ℤ predicate_version (entry_versions entries) es
    → ((v : Entry) × (lookup e entries ≡ some v)
        × (v.version ≤ℤ predicate_version (entry_versions entries) es))
unfolding predicate_version
predicate_version-registered entries e es m h =
    counted_entry (predicate_version_from (pos 0) (entry_versions entries) es) (lookup e entries)
      (lookup e (entry_versions entries)) (lookup-entry_versions e entries)
      (predicate_version_from-Found (pos 0) (entry_versions entries) e es m h)

-- No version is negative or above the document's, no predicate is registered twice, and each recorded
-- truth is current.
pub record IsStanding (d : Document) : Type 0 where
  pub counted : pos 0 ≤ℤ d.version
  pub within : AllWithin d.version (entry_versions d.predicates)
  pub distinct : AreDistinct d.predicates
  pub current : AreTrue d.context d.predicates

outrun : (a b : ℤ) → a <ℤ b → b ≤ℤ a → ⊥
outrun a b h k = omega arith

-- one predicate, by its entries before and after
kept-truth :
    (retention : ℤ) (os : List Operation) (d : Document) (e : Text) (v w : Entry)
    → IsStanding d
    → AreDicts os
    → lookup e d.predicates ≡ some v
    → lookup e (perform_all retention os d).predicates ≡ some w
    → w.version ≤ℤ d.version
    → truth_of e (perform_all retention os d).context ≡ truth_of e d.context
kept-truth retention os d e v w h k f g l =
    let start : Follows d.version v e d = record {
      later = omega arith;
      kept = AreKept-start d.version v e d.predicates h.distinct f;
      missing = λ m. cc (f, m);
    } in
    let follows = perform_all-Follows retention d.version v e os d start in
    let before = lookup-AreTrue d.context e v d.predicates f h.current in
    let after =
      lookup-AreTrue (perform_all retention os d).context e w
        (perform_all retention os d).predicates g
        (perform_all-AreTrue retention os d k h.current) in
    elim (lookup-IsKept d.version v w e (perform_all retention os d).predicates follows.kept g) [
      | inl same ↦ sym after ∙ same.1 ∙ before
      | inr moved ↦ elim (outrun d.version w.version moved l) [ ]
    ]

-- If the version of the truths of some registered predicates is after any operations of any processes
-- what it was before them, then each of the predicates has the truth that it had, also if it was retired
-- and registered again: a flip that was undone would have moved the version.
pub same_version-same_truth :
    (retention : ℤ) (os : List Operation) (d : Document) (e : Text) (es : List Text)
    → IsStanding d
    → AreDicts os
    → member e es ≡ true
    → pos 0 ≤ℤ predicate_version (entry_versions d.predicates) es
    → predicate_version (entry_versions (perform_all retention os d).predicates) es
      ≡ predicate_version (entry_versions d.predicates) es
    → truth_of e (perform_all retention os d).context ≡ truth_of e d.context
unfolding predicate_version
same_version-same_truth retention os d e es h k m z q =
    let (v, f, l) = predicate_version-registered d.predicates e es m z in
    let (w, g, u) =
      predicate_version-registered (perform_all retention os d).predicates e es m
        (subst (λ x. pos 0 ≤ℤ x) (sym q) z) in
    let top =
      predicate_version_from-le (pos 0) d.version (entry_versions d.predicates) es h.counted
        h.counted h.within in
    kept-truth retention os d e v w h k f g (ground (arith, u, q, top))

-- If a commit with the scope of the truths succeeds, then each predicate of the intent has on the context
-- at the commit the truth that it had on the context at its validation, whatever operations on the
-- document came in between, retirements and new registrations included, for a document with current
-- truths and versions at the validation and patches whose keys name one field each.
pub commit_memory-same_truth :
    (retention clock : ℤ) (os : List Operation) (d : Document) (q : Request) (s : Contents)
    (e : Text)
    → IsStanding d
    → AreDicts os
    → member e q.paths ≡ true
    → s.document ≡ perform_all retention os d
    → q.scope ≡ truth
    → q.expected ≡ predicate_version (entry_versions d.predicates) q.paths
    → (commit_memory clock q s).0.status ≡ committed
    → truth_of e s.document.context ≡ truth_of e d.context
unfolding observed_version
commit_memory-same_truth retention clock os d q s e h k m at scope expected done =
    let (_, _, _, counted, same) = (commit_memory_iff clock q s).0 done in
    let same' : predicate_version (entry_versions s.document.predicates) q.paths ≡ q.expected =
      subst (λ x. observed_version x q.paths s.document ≡ q.expected) scope same in
    rw (at) (
      same_version-same_truth retention os d e q.paths h k m
        (subst (λ x. pos 0 ≤ℤ x) expected counted)
        (subst
          (λ x.
            predicate_version (entry_versions x.predicates) q.paths
            ≡ predicate_version (entry_versions d.predicates) q.paths)
          at (same' ∙ expected)))
