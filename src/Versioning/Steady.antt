-- ===== src/Versioning/Steady.antt =====
-- An update that changes no path related to a path leaves what is read at that path.
use ld1_execution_gap_xair.Base.{
  ℕ, ◌≡◌, refl, subst, Bool, true, false, Option, none, some, List, [], ◌∷◌, ◌++◌, All, arith, inl,
  inr, Bool-cases, if◌then◌else◌,
}
use ld1_execution_gap_xair.Base.Text.{Text}
use ld1_execution_gap_xair.Value.{Value, null, bool, num, str, arr, obj, Fields, end, field}
use ld1_execution_gap_xair.Versioning.{
  deep_merge, merge_value, leaf_items, leaves, get_parts, get_path, same_value, is_changed,
  changed_among, related,
}
use ld1_execution_gap_xair.Versioning.Paths.{append_assoc}
use ld1_execution_gap_xair.Versioning.Merge.{All-both_sides}

-- Two readings that no predicate tells apart: the same, two objects, or two equal values.
pub data Alike : Option Value → Option Value → Type 0 where
  same : {a : Option Value} → Alike a a
  objects : {fs gs : Fields} → Alike (some (obj fs)) (some (obj gs))
  equal_values : {a : Option Value} {v : Value} → same_value a v ≡ true → Alike a (some v)

-- a leaf of the patch that is unchanged if its path is related to `p`
abbrev pub Unaffected : Fields → Text → Text × Value → Type 0
Unaffected old p (leaf, v) = related leaf p ≡ true → is_changed (get_path old leaf) v ≡ false

pub changed_among→All :
    (old : Fields) (p : Text) (ls : List (Text × Value))
    → All (λ c. related c p ≡ false) (changed_among old ls)
    → All (Unaffected old p) ls
unfolding changed_among
changed_among→All old p [] h = tt
changed_among→All old p ((l, v) ∷ ls) h = elim (Bool-cases (is_changed (get_path old l) v)) [
  | inl e ↦
      let h' =
        subst
          (λ b.
            All (λ c. related c p ≡ false)
              (if b then l ∷ changed_among old ls else changed_among old ls))
          e h in
      (λ r. cc (r, h'.0), changed_among→All old p ls h'.1)
  | inr e ↦ (
    λ r. e,
    changed_among→All old p ls (
        subst
          (λ b.
            All (λ c. related c p ≡ false)
              (if b then l ∷ changed_among old ls else changed_among old ls))
          e h),
  )
]

-- an object with fields has a leaf below its path
pub leaf_below :
    (P : Text × Value → Type 0) (c : ℕ) (q t : Text) (v : Value)
    → All P (leaves (c ∷ q ++ b'.' ∷ t) v)
    → (u : Text) × (w : Value) × P (c ∷ q ++ b'.' ∷ u, w)
unfolding leaf_items
leaf_below P c q t null h = (t, null, h.0)
leaf_below P c q t (bool b) h = (t, bool b, h.0)
leaf_below P c q t (num n) h = (t, num n, h.0)
leaf_below P c q t (str s) h = (t, str s, h.0)
leaf_below P c q t (arr xs) h = (t, arr xs, h.0)
leaf_below P c q t (obj end) h = (t, obj end, h.0)
leaf_below P c q t (obj (field k v fs)) h = leaf_below P c q (t ++ b'.' ∷ k) v (
    subst (λ x. All P (leaves (c ∷ x) v)) (append_assoc q (b'.' ∷ t) (b'.' ∷ k))
      (All-both_sides P _ (leaf_items _ fs) h).0)

-- a value that is a leaf, and is not changed at its path
abbrev pub is_leaf : Value → Bool
is_leaf (obj (field k v fs)) = false
is_leaf _ = true

-- a value that is no object has nothing below it
abbrev is_plain : Value → Bool
is_plain (obj fs) = false
is_plain _ = true

get_parts-is_plain :
    (v : Value) (k : Text) (ks : List Text) → is_plain v ≡ true → get_parts (some v) (k ∷ ks) ≡ none
unfolding get_parts
get_parts-is_plain v k ks h = ground arith

same_value-is_plain :
    (x v : Value) → is_plain x ≡ true → same_value (some x) v ≡ true → is_plain v ≡ true
unfolding same_value
same_value-is_plain x v p h = ground arith

plain-Alike :
    (x v : Value) (ks : List Text)
    → is_plain x ≡ true
    → is_changed (some x) v ≡ false
    → Alike (get_parts (some x) ks) (get_parts (some v) ks)
unfolding get_parts is_changed
plain-Alike x v [] p h = equal_values (ground arith)
plain-Alike x v (k ∷ ks) p h =
    rw
      (
        get_parts-is_plain x k ks p,
        get_parts-is_plain v k ks (same_value-is_plain x v p (ground arith)),
      )
      same

merge_value-is_plain : (x v : Value) → is_plain x ≡ true → merge_value (some x) v ≡ v
unfolding deep_merge
merge_value-is_plain x v p = ground arith

pub leaf-Alike :
    (cur : Option Value) (v : Value) (ks : List Text)
    → is_leaf v ≡ true
    → is_changed cur v ≡ false
    → Alike (get_parts cur ks) (get_parts (some (merge_value cur v)) ks)
unfolding is_changed same_value deep_merge
leaf-Alike none v ks l h = cc h
leaf-Alike (some (obj fs)) (obj end) ks l h = same
leaf-Alike (some (obj fs)) (obj (field k v gs)) ks l h = cc l
leaf-Alike (some (obj fs)) null ks l h = cc h
leaf-Alike (some (obj fs)) (bool b) ks l h = cc h
leaf-Alike (some (obj fs)) (num n) ks l h = cc h
leaf-Alike (some (obj fs)) (str s) ks l h = cc h
leaf-Alike (some (obj fs)) (arr xs) ks l h = cc h
leaf-Alike (some null) w ks l h = plain-Alike null w ks refl h
leaf-Alike (some (bool b)) w ks l h = plain-Alike (bool b) w ks refl h
leaf-Alike (some (num n)) w ks l h = plain-Alike (num n) w ks refl h
leaf-Alike (some (str s)) w ks l h = plain-Alike (str s) w ks refl h
leaf-Alike (some (arr xs)) w ks l h = plain-Alike (arr xs) w ks refl h
