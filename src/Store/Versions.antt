-- ===== src/Store/Versions.antt =====
-- The version of a read-set moves exactly with the changes that are related to it.
use ld1_execution_gap_xair.Base.{
  ◌≡◌, refl, ap, ◌∙◌, Bool, true, false, ◌||◌, Option, none, some, List, [], ◌∷◌, arith, Bool-cases,
  inl, inr, if◌then◌else◌,
}
use ld1_execution_gap_xair.Base.Int.{ℤ, pos, ◌≤ℤ◌}
use ld1_execution_gap_xair.Base.Text.{Text, same_text, same_text_iff}
use ld1_execution_gap_xair.Base.Dict.{Dict, insert}
use ld1_execution_gap_xair.Versioning.{any_related, larger, max_related, or_zero, read_set_version}
use ld1_execution_gap_xair.Store.Document.{stamp}

-- every version lies between zero and a bound
abbrev pub AllWithin : ℤ → Dict ℤ → Type 0
AllWithin top [] = Unit
AllWithin top ((p, v) ∷ versions) = (pos 0 ≤ℤ v) × (v ≤ℤ top) × AllWithin top versions

abbrev pub BestWithin : ℤ → Option ℤ → Type 0
BestWithin top none = Unit
BestWithin top (some v) = (pos 0 ≤ℤ v) × (v ≤ℤ top)

-- some path is related to the read-set
unfoldable pub some_read : List Text → List Text → Bool
some_read [] paths = false
some_read (c ∷ cs) paths = any_related c paths || some_read cs paths

insert-AllWithin :
    (top v : ℤ) (p : Text) (versions : Dict ℤ)
    → pos 0 ≤ℤ v
    → v ≤ℤ top
    → AllWithin top versions
    → AllWithin top (insert p v versions)
unfolding insert
insert-AllWithin top v p [] l u h = (l, u, tt)
insert-AllWithin top v p ((j, w) ∷ versions) l u h = elim (Bool-cases (same_text j p)) [
  | inl e ↦ rw (e) (l, u, h.2)
  | inr e ↦ rw (e) (h.0, h.1, insert-AllWithin top v p versions l u h.2)
]

pub AllWithin-le :
    (low top : ℤ) (versions : Dict ℤ) → low ≤ℤ top → AllWithin low versions → AllWithin top versions
AllWithin-le low top [] l h = tt
AllWithin-le low top ((p, v) ∷ versions) l h =
    (h.0, omega arith, AllWithin-le low top versions l h.2)

pub stamp-AllWithin :
    (v : ℤ) (ps : List Text) (versions : Dict ℤ)
    → pos 0 ≤ℤ v
    → AllWithin v versions
    → AllWithin v (stamp v ps versions)
unfolding stamp
stamp-AllWithin v [] versions l h = h
stamp-AllWithin v (p ∷ ps) versions l h =
    stamp-AllWithin v ps (insert p v versions) l (insert-AllWithin v v p versions l (omega arith) h)

-- a stamp on a path that is not read
max_related-insert_unread :
    (best : Option ℤ) (p : Text) (v : ℤ) (versions : Dict ℤ) (paths : List Text)
    → any_related p paths ≡ false
    → max_related best (insert p v versions) paths ≡ max_related best versions paths
unfolding max_related insert
max_related-insert_unread best p v [] paths h = rw (h) refl
max_related-insert_unread best p v ((j, w) ∷ versions) paths h = elim (Bool-cases (same_text j p)) [
  | inl e ↦ let q = (same_text_iff j p).0 e in rw (e, q, h) refl
  | inr e ↦ rw (e) (
      max_related-insert_unread (if any_related j paths then larger best w else best) p v versions
        paths h)
]

-- with the largest version found, the others do not matter
max_related-top :
    (v : ℤ) (versions : Dict ℤ) (paths : List Text)
    → AllWithin v versions
    → max_related (some v) versions paths ≡ some v
unfolding max_related
max_related-top v [] paths h = refl
max_related-top v ((p, w) ∷ versions) paths h = ground (arith, max_related-top v versions paths)

larger-top : (best : Option ℤ) (v : ℤ) → BestWithin v best → larger best v ≡ some v
larger-top none v h = refl
larger-top (some w) v h = ground arith

larger-BestWithin :
    (best : Option ℤ) (v w : ℤ)
    → BestWithin v best
    → pos 0 ≤ℤ w
    → w ≤ℤ v
    → BestWithin v (larger best w)
larger-BestWithin none v w h l u = (l, u)
larger-BestWithin (some b) v w h l u = ground arith

step-BestWithin :
    (c : Bool) (best : Option ℤ) (v w : ℤ)
    → BestWithin v best
    → pos 0 ≤ℤ w
    → w ≤ℤ v
    → BestWithin v (if c then larger best w else best)
step-BestWithin true best v w h l u = larger-BestWithin best v w h l u
step-BestWithin false best v w h l u = h

-- a stamp on a path that is read
max_related-insert_read :
    (best : Option ℤ) (p : Text) (v : ℤ) (versions : Dict ℤ) (paths : List Text)
    → any_related p paths ≡ true
    → BestWithin v best
    → AllWithin v versions
    → max_related best (insert p v versions) paths ≡ some v
unfolding max_related insert
max_related-insert_read best p v [] paths h b a = rw (h) (larger-top best v b)
max_related-insert_read best p v ((j, w) ∷ versions) paths h b a =
    elim (Bool-cases (same_text j p)) [
      | inl e ↦
          let q = (same_text_iff j p).0 e in
          rw (e, q, h, larger-top best v b) (max_related-top v versions paths a.2)
      | inr e ↦ rw (e) (
          max_related-insert_read (if any_related j paths then larger best w else best) p v versions
            paths h (step-BestWithin (any_related j paths) best v w b a.0 a.1) a.2)
    ]

-- All changes of an update carry one version. The version of a read-set becomes that one if a change
-- is related to it, and is what it was if none is.
pub read_set_version-stamp :
    (v : ℤ) (ps : List Text) (versions : Dict ℤ) (paths : List Text)
    → pos 0 ≤ℤ v
    → AllWithin v versions
    → read_set_version (stamp v ps versions) paths
      ≡ (if some_read ps paths then v else read_set_version versions paths)
unfolding stamp some_read read_set_version
read_set_version-stamp v [] versions paths l h = refl
read_set_version-stamp v (p ∷ ps) versions paths l h =
    read_set_version-stamp v ps (insert p v versions) paths l
      (insert-AllWithin v v p versions l (omega arith) h)
    ∙ elim (Bool-cases (any_related p paths)) [
      | inl e ↦ ground (arith, ap or_zero (max_related-insert_read none p v versions paths e tt h))
      | inr e ↦ ground (arith, ap or_zero (max_related-insert_unread none p v versions paths e))
    ]

max_related-BestWithin :
    (top : ℤ) (best : Option ℤ) (versions : Dict ℤ) (paths : List Text)
    → BestWithin top best
    → AllWithin top versions
    → BestWithin top (max_related best versions paths)
unfolding max_related
max_related-BestWithin top best [] paths b h = b
max_related-BestWithin top best ((p, v) ∷ versions) paths b h =
    max_related-BestWithin top (if any_related p paths then larger best v else best) versions paths
      (step-BestWithin (any_related p paths) best top v b h.0 h.1) h.2

or_zero-le : (top : ℤ) (best : Option ℤ) → pos 0 ≤ℤ top → BestWithin top best → or_zero best ≤ℤ top
or_zero-le top none l h = l
or_zero-le top (some v) l h = h.1

-- the version of a read-set is at most the document's
pub read_set_version-le :
    (top : ℤ) (versions : Dict ℤ) (paths : List Text)
    → pos 0 ≤ℤ top
    → AllWithin top versions
    → read_set_version versions paths ≤ℤ top
unfolding read_set_version
read_set_version-le top versions paths l h =
    or_zero-le top (max_related none versions paths) l
      (max_related-BestWithin top none versions paths tt h)
