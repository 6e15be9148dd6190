-- ===== src/Versioning/Merge.antt =====
-- What a merged context holds under a key.
use ld1_execution_gap_xair.Base.{
  ◌≡◌, refl, sym, ap, ◌∙◌, true, false, Option, none, some, if◌then◌else◌, arith, Bool-cases, inl,
  inr, List, [], ◌∷◌, All, ◌++◌, subst,
}
use ld1_execution_gap_xair.Base.Text.{Text, same_text, same_text_iff}
use ld1_execution_gap_xair.Value.{
  Value, null, bool, num, str, arr, obj, Fields, end, field, field_of,
}
use ld1_execution_gap_xair.Versioning.{
  set_field, deep_merge, merge_value, get_parts, leaf_items, leaves, join,
}

-- The keys of an object are distinct, as those of a dict are, and so in the objects below.
unfoldable mutual
  pub HasKeys : Fields → Type 0
  HasKeys end = Unit
  HasKeys (field k v fs) = (field_of k fs ≡ none) × IsDict v × HasKeys fs

  pub IsDict : Value → Type 0
  IsDict (obj fs) = HasKeys fs
  IsDict null = Unit
  IsDict (bool b) = Unit
  IsDict (num n) = Unit
  IsDict (str s) = Unit
  IsDict (arr xs) = Unit

-- the value under a key after the merge, from the values before it and in the patch
abbrev pub merged : Option Value → Option Value → Option Value
merged cur none = cur
merged cur (some v) = some (merge_value cur v)

pub field_of-set_field :
    (k j : Text) (v : Value) (fs : Fields)
    → field_of j (set_field k v fs) ≡ (if same_text k j then some v else field_of j fs)
unfolding field_of set_field
field_of-set_field k j v end = refl
field_of-set_field k j v (field i w fs) =
    ground
      (arith, same_text_iff k j, same_text_iff i k, same_text_iff i j, field_of-set_field k j v fs)

merged_step :
    (k j : Text) (v : Value) (base patch : Fields)
    → field_of k patch ≡ none
    → merged
        (if same_text k j then some (merge_value (field_of k base) v) else field_of j base)
        (field_of j patch)
      ≡ merged (field_of j base) (if same_text k j then some v else field_of j patch)
merged_step k j v base patch h = ground (arith, same_text_iff k j)

-- Under each key, the merge holds the merged value of that key.
pub field_of-deep_merge :
    (j : Text) (base patch : Fields)
    → HasKeys patch
    → field_of j (deep_merge base patch) ≡ merged (field_of j base) (field_of j patch)
unfolding deep_merge field_of HasKeys
field_of-deep_merge j base end h = refl
field_of-deep_merge j base (field k v patch) h =
    field_of-deep_merge j (set_field k (merge_value (field_of k base) v) base) patch h.2
    ∙ ap (λ c. merged c (field_of j patch))
        (field_of-set_field k j (merge_value (field_of k base) v) base)
    ∙ merged_step k j v base patch h.0

-- the object at a value, with no fields if it is none
abbrev pub subfields : Option Value → Fields
subfields (some (obj fs)) = fs
subfields _ = end

pub get_parts-none : (ks : List Text) → get_parts none ks ≡ none
unfolding get_parts
get_parts-none [] = refl
get_parts-none (k ∷ ks) = refl

pub get_parts-subfields :
    (cur : Option Value) (k : Text) (ks : List Text)
    → get_parts cur (k ∷ ks) ≡ get_parts (field_of k (subfields cur)) ks
unfolding get_parts field_of
get_parts-subfields (some (obj fs)) k ks = refl
get_parts-subfields none k ks = sym (get_parts-none ks)
get_parts-subfields (some null) k ks = sym (get_parts-none ks)
get_parts-subfields (some (bool b)) k ks = sym (get_parts-none ks)
get_parts-subfields (some (num n)) k ks = sym (get_parts-none ks)
get_parts-subfields (some (str s)) k ks = sym (get_parts-none ks)
get_parts-subfields (some (arr xs)) k ks = sym (get_parts-none ks)

merged-none : (v : Option Value) → v ≡ merged none v
unfolding deep_merge
merged-none none = refl
merged-none (some v) = refl

pub get_parts-merge_value :
    (cur : Option Value) (fs : Fields) (k : Text) (ks : List Text)
    → HasKeys fs
    → get_parts (some (merge_value cur (obj fs))) (k ∷ ks)
      ≡ get_parts (merged (field_of k (subfields cur)) (field_of k fs)) ks
unfolding get_parts deep_merge field_of
get_parts-merge_value (some (obj gs)) fs k ks h =
    ap (λ c. get_parts c ks) (field_of-deep_merge k gs fs h)
get_parts-merge_value none fs k ks h = ap (λ c. get_parts c ks) (merged-none (field_of k fs))
get_parts-merge_value (some null) fs k ks h = ap (λ c. get_parts c ks) (merged-none (field_of k fs))
get_parts-merge_value (some (bool b)) fs k ks h =
    ap (λ c. get_parts c ks) (merged-none (field_of k fs))
get_parts-merge_value (some (num n)) fs k ks h =
    ap (λ c. get_parts c ks) (merged-none (field_of k fs))
get_parts-merge_value (some (str s)) fs k ks h =
    ap (λ c. get_parts c ks) (merged-none (field_of k fs))
get_parts-merge_value (some (arr xs)) fs k ks h =
    ap (λ c. get_parts c ks) (merged-none (field_of k fs))

pub All-both_sides :
    (P : Text × Value → Type 0) (xs ys : List (Text × Value))
    → All P (xs ++ ys)
    → All P xs × All P ys
All-both_sides P [] ys h = (tt, h)
All-both_sides P (x ∷ xs) ys h = let (l, r) = All-both_sides P xs ys h.1 in ((h.0, l), r)

same_field :
    (j k : Text) (w v : Value) (fs : Fields)
    → same_text j k ≡ true
    → field_of k (field j w fs) ≡ some v
    → (j ≡ k) × (w ≡ v)
unfolding field_of
same_field j k w v fs f e = ((same_text_iff j k).0 f, ground arith)

other_field :
    (j k : Text) (w v : Value) (fs : Fields)
    → same_text j k ≡ false
    → field_of k (field j w fs) ≡ some v
    → field_of k fs ≡ some v
unfolding field_of
other_field j k w v fs f e = ground arith

pub field_of→leaves :
    (P : Text × Value → Type 0) (q k : Text) (v : Value) (fs : Fields)
    → field_of k fs ≡ some v
    → All P (leaf_items q fs)
    → All P (leaves (join q k) v)
unfolding field_of leaf_items
field_of→leaves P q k v end e h = cc
field_of→leaves P q k v (field j w fs) e h = elim (Bool-cases (same_text j k)) [
  | inl f ↦
      rw (sym (same_field j k w v fs f e).0, sym (same_field j k w v fs f e).1)
        (All-both_sides P (leaves (join q j) w) (leaf_items q fs) h).0
  | inr f ↦
      field_of→leaves P q k v fs (other_field j k w v fs f e)
        (All-both_sides P (leaves (join q j) w) (leaf_items q fs) h).1
]

pub field_of→IsDict :
    (k : Text) (v : Value) (fs : Fields) → field_of k fs ≡ some v → HasKeys fs → IsDict v
unfolding HasKeys field_of
field_of→IsDict k v end e h = cc e
field_of→IsDict k v (field j w fs) e h = elim (Bool-cases (same_text j k)) [
  | inl f ↦ subst IsDict (same_field j k w v fs f e).1 h.1
  | inr f ↦ field_of→IsDict k v fs (other_field j k w v fs f e) h.2
]
