-- ===== src/Store/Reads.antt =====
-- A read-set holds the path of each of its predicates.
use ld1_execution_gap_xair.Base.{
  ◌≡◌, true, false, Option, none, some, List, [], ◌∷◌, All, arith, Bool-cases, Option-cases, inl,
  inr,
}
use ld1_execution_gap_xair.Base.Text.{Text, same_text, same_text_iff}
use ld1_execution_gap_xair.Base.Dict.{member}
use ld1_execution_gap_xair.Versioning.{
  related, any_related, path_of, read_set, read_set_from, append_new,
}
use ld1_execution_gap_xair.Versioning.Verdict.{Untouched}
use ld1_execution_gap_xair.Store.Changes.{member-append}
use ld1_execution_gap_xair.Store.Versions.{some_read}

member-append_new :
    (k : Text) (p : Option Text) (out : List Text)
    → member k out ≡ true
    → member k (append_new p out) ≡ true
member-append_new k none out h = h
member-append_new k (some p) out h = ground (arith, member-append k out (p ∷ []))

member-append_new_self : (p : Text) (out : List Text) → member p (append_new (some p) out) ≡ true
unfolding member
member-append_new_self p out = elim (Bool-cases (member p out)) [
  | inl e ↦ rw (e) e
  | inr e ↦ rw (e) (ground (arith, member-append p out (p ∷ []), same_text_iff p p))
]

member-read_set_from_old :
    (k : Text) (out es : List Text) → member k out ≡ true → member k (read_set_from out es) ≡ true
unfolding read_set_from
member-read_set_from_old k out [] h = h
member-read_set_from_old k out (e ∷ es) h =
    member-read_set_from_old k (append_new (path_of e) out) es
      (member-append_new k (path_of e) out h)

member-read_set_from :
    (e p : Text) (out es : List Text)
    → path_of e ≡ some p
    → member e es ≡ true
    → member p (read_set_from out es) ≡ true
unfolding read_set_from member
member-read_set_from e p out [] h m = cc m
member-read_set_from e p out (x ∷ xs) h m = elim (Bool-cases (same_text x e)) [
  | inl f ↦
      member-read_set_from_old p (append_new (path_of x) out) xs
        (rw ((same_text_iff x e).0 f, h) (member-append_new_self p out))
  | inr f ↦ member-read_set_from e p (append_new (path_of x) out) xs h (ground arith)
]

-- The read-set of some predicates holds the path of each of them.
pub member-read_set :
    (e p : Text) (es : List Text)
    → path_of e ≡ some p
    → member e es ≡ true
    → member p (read_set es) ≡ true
unfolding read_set
member-read_set e p es h m = member-read_set_from e p [] es h m

any_related-member :
    (c p : Text) (paths : List Text)
    → any_related c paths ≡ false
    → member p paths ≡ true
    → related c p ≡ false
unfolding any_related member
any_related-member c p [] h m = cc m
any_related-member c p (r ∷ rs) h m = ground (arith, same_text_iff r p, any_related-member c p rs)

some_read-member :
    (p : Text) (cs paths : List Text)
    → some_read cs paths ≡ false
    → member p paths ≡ true
    → All (λ c. related c p ≡ false) cs
unfolding some_read
some_read-member p [] paths h m = tt
some_read-member p (c ∷ cs) paths h m =
    (any_related-member c p paths (ground arith) m, some_read-member p cs paths (ground arith) m)

pub unread-Untouched :
    (e : Text) (es cs : List Text)
    → member e es ≡ true
    → some_read cs (read_set es) ≡ false
    → Untouched (path_of e) cs
unread-Untouched e es cs m h = elim (Option-cases (path_of e)) [
  | inl f ↦ rw (f) tt
  | inr (p, f) ↦ rw (f) (some_read-member p cs (read_set es) h (member-read_set e p es f m))
]
