-- ===== src/Versioning/Unchanged.antt =====
-- An update whose changed paths are all unrelated to a path leaves what is read at that path.
use ld1_execution_gap_xair.Base.{
  ℕ, ◌≢◌, ◌≡◌, refl, sym, ap, subst, ◌∙◌, true, false, Option, none, some, List, [], ◌∷◌, ◌++◌, All,
  Option-cases, inl, inr,
}
use ld1_execution_gap_xair.Base.Text.{Text}
use ld1_execution_gap_xair.Value.{
  Value, null, bool, num, str, arr, obj, Fields, end, field, field_of,
}
use ld1_execution_gap_xair.Predicate.Scan.{split_dots}
use ld1_execution_gap_xair.Versioning.{
  deep_merge, merge_value, leaf_items, leaves, get_parts, get_path, is_changed, same_value,
  changed_paths, related,
}
use ld1_execution_gap_xair.Versioning.Paths.{
  IsPart, append_assoc, dotted, split_dots-append, dotted_below, related_refl, related_below,
  related_above, split_dots_cons, dotted-split_dots,
}
use ld1_execution_gap_xair.Versioning.Merge.{
  HasKeys, IsDict, field_of-deep_merge, subfields, get_parts-subfields, get_parts-merge_value,
  field_of→leaves, field_of→IsDict, All-both_sides, get_parts-none,
}
use ld1_execution_gap_xair.Versioning.Steady.{
  Alike, same, objects, Unaffected, changed_among→All, leaf_below, leaf-Alike, is_leaf,
}

-- a path is related to each path that goes on from it
related-dotted :
    (c : ℕ) (q : Text) (ks : List Text) → All IsPart ks → related (c ∷ q) (dotted (c ∷ q) ks) ≡ true
related-dotted c q [] h = related_refl (c ∷ q)
related-dotted c q (k ∷ ks) h =
    let (u, e) = dotted_below c q k ks in rw (e) (related_above (c ∷ q) u)

leaves_leaf :
    (P : Text × Value → Type 0) (path : Text) (v : Value)
    → is_leaf v ≡ true
    → All P (leaves path v)
    → P (path, v)
unfolding leaf_items
leaves_leaf P path null l h = h.0
leaves_leaf P path (bool b) l h = h.0
leaves_leaf P path (num n) l h = h.0
leaves_leaf P path (str s) l h = h.0
leaves_leaf P path (arr xs) l h = h.0
leaves_leaf P path (obj end) l h = h.0
leaves_leaf P path (obj (field k v fs)) l h = cc l

get_path-subfields :
    (cur : Option Value) (t : Text) → get_parts cur (split_dots t) ≡ get_path (subfields cur) t
unfolding get_path get_parts
get_path-subfields cur t =
    let (k, ks, e) = split_dots_cons t in rw (e) (get_parts-subfields cur k ks)

get_path-end : (t : Text) → get_path end t ≡ none
unfolding get_path get_parts field_of
get_path-end t = let (k, ks, e) = split_dots_cons t in rw (e) (get_parts-none ks)

-- The context below a path is what the full context holds there.
abbrev Reads : Fields → Text → Option Value → Type 0
Reads old path cur =
    (get_path old path ≡ cur)
    × ((t : Text) → get_path old (path ++ b'.' ∷ t) ≡ get_path (subfields cur) t)

Reads-below :
    (old : Fields) (path k : Text) (cur : Option Value)
    → IsPart k
    → Reads old path cur
    → Reads old (path ++ b'.' ∷ k) (field_of k (subfields cur))
unfolding get_path get_parts
Reads-below old path k cur h r = (
  r.1 k ∙ ap (get_parts (some (obj (subfields cur)))) h.1,
  λ t.
      ap (get_path old) (append_assoc path (b'.' ∷ k) (b'.' ∷ t))
      ∙ r.1 (k ++ b'.' ∷ t)
      ∙ ap (get_parts (some (obj (subfields cur)))) (split_dots-append k t h.1)
      ∙ get_path-subfields (field_of k (subfields cur)) t,
)

end_changed : (u : Text) (w : Value) → is_changed (get_path end u) w ≢ false
unfolding is_changed same_value
end_changed u w e = cc (subst (λ x. is_changed x w ≡ false) (get_path-end u) e)

object_or_changed :
    (cur : Option Value) (patch : Fields) (u : Text) (w : Value)
    → is_changed (get_path (subfields cur) u) w ≡ false
    → Alike cur (some (merge_value cur (obj patch)))
unfolding deep_merge
object_or_changed (some (obj gs)) patch u w e = objects
object_or_changed none patch u w e = elim (end_changed u w e) [ ]
object_or_changed (some null) patch u w e = elim (end_changed u w e) [ ]
object_or_changed (some (bool b)) patch u w e = elim (end_changed u w e) [ ]
object_or_changed (some (num n)) patch u w e = elim (end_changed u w e) [ ]
object_or_changed (some (str s)) patch u w e = elim (end_changed u w e) [ ]
object_or_changed (some (arr xs)) patch u w e = elim (end_changed u w e) [ ]

leaf_at :
    (old : Fields) (p : Text) (ks : List Text) (c : ℕ) (q : Text) (cur : Option Value) (v : Value)
    → p ≡ dotted (c ∷ q) ks
    → All IsPart ks
    → Reads old (c ∷ q) cur
    → is_leaf v ≡ true
    → All (Unaffected old p) (leaves (c ∷ q) v)
    → Alike (get_parts cur ks) (get_parts (some (merge_value cur v)) ks)
leaf_at old p ks c q cur v e parts r l h = leaf-Alike cur v ks l (
    rw (sym r.0)
      (leaves_leaf (Unaffected old p) (c ∷ q) v l h (rw e (related-dotted c q ks parts))))

-- a patch with an object of fields, where the context has none, changes a path below
objects-Alike :
    (old : Fields) (c : ℕ) (q k : Text) (v : Value) (fs : Fields) (cur : Option Value)
    → All (Unaffected old (c ∷ q)) (leaves (c ∷ q) (obj (field k v fs)))
    → Reads old (c ∷ q) cur
    → Alike cur (some (merge_value cur (obj (field k v fs))))
unfolding deep_merge leaf_items is_changed same_value
objects-Alike old c q k v fs cur h r =
    let (u, w, below) =
      leaf_below (Unaffected old (c ∷ q)) c q k v (All-both_sides _ _ (leaf_items _ fs) h).0 in
    let e : is_changed (get_path (subfields cur) u) w ≡ false =
      rw (sym (r.1 u)) (below (related_below (c ∷ q) u)) in
    object_or_changed cur (field k v fs) u w e

-- the reading at a path, and the reading after the merge of what the patch has there
at_key :
    (old : Fields) (p : Text) (ks : List Text) (c : ℕ) (q : Text) (cur : Option Value) (v : Value)
    → p ≡ dotted (c ∷ q) ks
    → All IsPart ks
    → Reads old (c ∷ q) cur
    → IsDict v
    → All (Unaffected old p) (leaves (c ∷ q) v)
    → Alike (get_parts cur ks) (get_parts (some (merge_value cur v)) ks)
unfolding leaf_items HasKeys get_parts
at_key old p ks c q cur null e parts r d h = leaf_at old p ks c q cur null e parts r refl h
at_key old p ks c q cur (bool b) e parts r d h = leaf_at old p ks c q cur (bool b) e parts r refl h
at_key old p ks c q cur (num n) e parts r d h = leaf_at old p ks c q cur (num n) e parts r refl h
at_key old p ks c q cur (str s) e parts r d h = leaf_at old p ks c q cur (str s) e parts r refl h
at_key old p ks c q cur (arr xs) e parts r d h = leaf_at old p ks c q cur (arr xs) e parts r refl h
at_key old p ks c q cur (obj end) e parts r d h =
    leaf_at old p ks c q cur (obj end) e parts r refl h
at_key old p [] c q cur (obj (field k v fs)) e parts r d h =
    objects-Alike old c q k v fs cur
      (subst (λ x. All (Unaffected old x) (leaves (c ∷ q) (obj (field k v fs)))) e h) r
at_key old p (k ∷ ks) c q cur (obj (field j w fs)) e parts r d h =
    let F : Fields = field j w fs in
    rw (get_parts-subfields cur k ks, get_parts-merge_value cur F k ks d)
      (elim (Option-cases (field_of k F)) [
        | inl f ↦ rw (f) same
        | inr (v, f) ↦ rw (f) (
            at_key old p ks c (q ++ b'.' ∷ k) (field_of k (subfields cur)) v e parts.1
              (Reads-below old (c ∷ q) k cur parts.0 r) (field_of→IsDict k v F f d)
              (field_of→leaves (Unaffected old p) (c ∷ q) k v F f h))
      ])

-- the first key of a path
from_top :
    (old patch : Fields) (p k : Text) (ks : List Text)
    → HasKeys patch
    → All IsPart (k ∷ ks)
    → split_dots p ≡ k ∷ ks
    → All (Unaffected old p) (leaf_items [] patch)
    → Alike (get_parts (field_of k old) ks) (get_parts (field_of k (deep_merge old patch)) ks)
unfolding get_path get_parts
from_top old patch p [] ks d parts e h = elim (parts.0.0 refl) [ ]
from_top old patch p (c ∷ q) ks d parts e h =
    rw (field_of-deep_merge (c ∷ q) old patch d) (elim (Option-cases (field_of (c ∷ q) patch)) [
      | inl f ↦ rw (f) same
      | inr (v, f) ↦ rw (f) (
          at_key old p ks c q (field_of (c ∷ q) old) v (dotted-split_dots p c q ks e) parts.1
            (
              ap (get_parts (some (obj old))) parts.0.1,
              λ t.
                  ap (get_parts (some (obj old))) (split_dots-append (c ∷ q) t parts.0.1)
                  ∙ get_path-subfields (field_of (c ∷ q) old) t,
            )
            (field_of→IsDict (c ∷ q) v patch f d)
            (field_of→leaves (Unaffected old p) [] (c ∷ q) v patch f h))
    ])

-- If an update changes no path that is related to a path, then what is read at that path before and
-- after the merge are the same, two objects or two equal values.
pub unrelated_keeps :
    (old patch : Fields) (path : Text)
    → HasKeys patch
    → All IsPart (split_dots path)
    → All (λ c. related c path ≡ false) (changed_paths old patch)
    → Alike (get_path old path) (get_path (deep_merge old patch) path)
unfolding get_path get_parts changed_paths
unrelated_keeps old patch path d parts h =
    let (k, ks, e) = split_dots_cons path in
    rw (e) (
      from_top old patch path k ks d (subst (All IsPart) e parts) e
        (changed_among→All old path (leaf_items [] patch) h))
