-- ===== src/Store/Changes.antt =====
-- `_Changed` answers in time linear in the depth of a path what `_related` says of each change.
use ld1_execution_gap_xair.Base.{
  ℕ, ◌≡◌, refl, Bool, false, ◌&&◌, ◌||◌, List, [], ◌∷◌, ◌++◌, ◌==◌, arith,
}
use ld1_execution_gap_xair.Base.Text.{Text, txt, same_text, same_text_iff, starts_with}
use ld1_execution_gap_xair.Base.Dict.{member}
use ld1_execution_gap_xair.Versioning.{related}
use ld1_execution_gap_xair.Store.Document.{
  prefixes, cons_each, prefixes_all, index_changes, any_member, touches,
}

-- a change that `_related` relates to the path
unfoldable pub some_related : List Text → Text → Bool
some_related [] path = false
some_related (c ∷ cs) path = related c path || some_related cs path

pub member-append :
    (k : Text) (xs ys : List Text) → member k (xs ++ ys) ≡ member k xs || member k ys
unfolding member
member-append k [] ys = refl
member-append k (x ∷ xs) ys = ground (arith, member-append k xs ys)

member-cons_each :
    (k : Text) (c d : ℕ) (ps : List Text)
    → member (d ∷ k) (cons_each c ps) ≡ (c == d) && member k ps
unfolding member same_text
member-cons_each k c d [] = ground arith
member-cons_each k c d (p ∷ ps) = ground (arith, member-cons_each k c d ps)

member-nil_cons_each : (c : ℕ) (ps : List Text) → member [] (cons_each c ps) ≡ false
unfolding member same_text
member-nil_cons_each c [] = refl
member-nil_cons_each c (p ∷ ps) = member-nil_cons_each c ps

-- a proper prefix that ends before a dot
pub member-prefixes : (k c : Text) → member k (prefixes c) ≡ starts_with c (k ++ txt ".")
unfolding prefixes member starts_with same_text
member-prefixes [] [] = refl
member-prefixes (d ∷ k) [] = refl
member-prefixes [] (c ∷ s) = ground (arith, member-nil_cons_each c (prefixes s))
member-prefixes (d ∷ k) (c ∷ s) =
    ground (arith, member-cons_each k c d (prefixes s), member-prefixes k s)

any_member_iff :
    (cs ps : List Text) (c : Text) → any_member ps (c ∷ cs) ≡ member c ps || any_member ps cs
unfolding any_member member
any_member_iff cs [] c = refl
any_member_iff cs (p ∷ ps) c =
    ground (arith, any_member_iff cs ps c, same_text_iff c p, same_text_iff p c)

any_member-nil : (ps : List Text) → any_member ps [] ≡ false
unfolding any_member member
any_member-nil [] = refl
any_member-nil (p ∷ ps) = any_member-nil ps

-- The index answers as the pairwise test does, for every list of changes and every path.
pub touches-some_related :
    (cs : List Text) (path : Text) → touches (index_changes cs) path ≡ some_related cs path
unfolding touches index_changes some_related related prefixes_all member
touches-some_related [] path = any_member-nil (prefixes path)
touches-some_related (c ∷ cs) path = ground (
  arith,
  touches-some_related cs path,
  member-append path (prefixes c) (prefixes_all cs),
  member-prefixes path c,
  member-prefixes c path,
  any_member_iff cs (prefixes path) c,
)
