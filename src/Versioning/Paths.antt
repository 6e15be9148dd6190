-- ===== src/Versioning/Paths.antt =====
-- Dotted paths: their parts, their prefixes and the relation between two of them.
use ld1_execution_gap_xair.Base.{
  ℕ, ◌≡◌, refl, sym, ap, ◌∙◌, Bool, true, false, List, [], ◌∷◌, ◌++◌, arith, ◌≢◌, if◌then◌else◌,
  ◌==◌,
}
use ld1_execution_gap_xair.Base.Text.{Text, txt, same_text_refl, starts_with-append}
use ld1_execution_gap_xair.Predicate.Scan.{split_dots, push_char}
pub use ld1_execution_gap_xair.Predicate.Paths.{IsPart}
use ld1_execution_gap_xair.Versioning.{join, related}

-- the path with these further parts
abbrev pub dotted : Text → List Text → Text
dotted q [] = q
dotted q (k ∷ ks) = dotted (join q k) ks

pub append_assoc : (a b c : Text) → (a ++ b) ++ c ≡ a ++ (b ++ c)
append_assoc [] b c = refl
append_assoc (x ∷ a) b c = ap (λ t. x ∷ t) (append_assoc a b c)

pub split_dots-append :
    (k t : Text) → split_dots k ≡ k ∷ [] → split_dots (k ++ b'.' ∷ t) ≡ k ∷ split_dots t
unfolding split_dots
split_dots-append [] t e = refl
split_dots-append (c ∷ k) t e = ground (arith, split_dots-append k t)

pub join_part : (q k t : Text) → k ≢ [] → join (join q k) t ≡ join q (k ++ b'.' ∷ t)
join_part [] [] t n = elim (n refl) [ ]
join_part [] (c ∷ k) t n = refl
join_part (c ∷ q) k t n = ap (λ x. c ∷ x) (append_assoc q (b'.' ∷ k) (b'.' ∷ t))

-- a path with further parts is the path, or goes on after a dot
pub dotted_below :
    (c : ℕ) (q : Text) (t : Text) (ks : List Text)
    → (u : Text) × (dotted (c ∷ q ++ b'.' ∷ t) ks ≡ c ∷ q ++ b'.' ∷ u)
dotted_below c q t [] = (t, refl)
dotted_below c q t (k ∷ ks) =
    let (u, e) = dotted_below c q (t ++ b'.' ∷ k) ks in
    (u, ap (λ x. dotted (c ∷ x) ks) (append_assoc q (b'.' ∷ t) (b'.' ∷ k)) ∙ e)

pub related_refl : (p : Text) → related p p ≡ true
unfolding related
related_refl p = ground (arith, same_text_refl p)

pub related_below : (p t : Text) → related (p ++ b'.' ∷ t) p ≡ true
unfolding related
related_below p t = ground (arith, starts_with-append (p ++ txt ".") t, append_assoc p (txt ".") t)

pub related_above : (p t : Text) → related p (p ++ b'.' ∷ t) ≡ true
unfolding related
related_above p t = ground (arith, starts_with-append (p ++ txt ".") t, append_assoc p (txt ".") t)

-- the parts joined by dots
abbrev dots : List Text → Text
dots [] = []
dots (k ∷ []) = k
dots (k ∷ j ∷ ks) = k ++ b'.' ∷ dots (j ∷ ks)

dots-append :
    (a k : Text) (ks : List Text) → dots ((a ++ b'.' ∷ k) ∷ ks) ≡ a ++ b'.' ∷ dots (k ∷ ks)
dots-append a k [] = refl
dots-append a k (j ∷ ks) = append_assoc a (b'.' ∷ k) (b'.' ∷ dots (j ∷ ks))

dotted-dots : (c : ℕ) (q : Text) (ks : List Text) → dotted (c ∷ q) ks ≡ dots ((c ∷ q) ∷ ks)
dotted-dots c q [] = refl
dotted-dots c q (k ∷ ks) = dotted-dots c (q ++ b'.' ∷ k) ks ∙ dots-append (c ∷ q) k ks

dots-push_char : (c : ℕ) (w : Text) (ws : List Text) → dots ((c ∷ w) ∷ ws) ≡ c ∷ dots (w ∷ ws)
dots-push_char c w [] = refl
dots-push_char c w (v ∷ ws) = refl

dots_step :
    (b : Bool) (c : ℕ) (ws : List Text)
    → ws ≢ []
    → (b ≡ true → c ≡ b'.')
    → dots (if b then [] ∷ ws else push_char c ws) ≡ c ∷ dots ws
dots_step true c [] n e = elim (n refl) [ ]
dots_step true c (w ∷ ws) n e = rw (e refl) refl
dots_step false c [] n e = refl
dots_step false c (w ∷ ws) n e = dots-push_char c w ws

pub first_part :
    (b : Bool) (c : ℕ) (ws : List Text)
    → (k : Text) × (ks : List Text) × ((if b then [] ∷ ws else push_char c ws) ≡ k ∷ ks)
first_part true c ws = ([], ws, refl)
first_part false c [] = (c ∷ [], [], refl)
first_part false c (w ∷ ws) = (c ∷ w, ws, refl)

pub split_dots_cons : (t : Text) → (k : Text) × (ks : List Text) × (split_dots t ≡ k ∷ ks)
unfolding split_dots
split_dots_cons [] = ([], [], refl)
split_dots_cons (c ∷ t) = first_part (c == b'.') c (split_dots t)

dots-split_dots : (t : Text) → dots (split_dots t) ≡ t
unfolding split_dots
dots-split_dots [] = refl
dots-split_dots (c ∷ t) =
    dots_step (c == b'.') c (split_dots t) (λ e. let (k, ks, f) = split_dots_cons t in cc (e, f))
      (λ e. ground arith)
    ∙ ap (λ s. c ∷ s) (dots-split_dots t)

-- a path is made of its parts
pub dotted-split_dots :
    (t : Text) (c : ℕ) (q : Text) (ks : List Text)
    → split_dots t ≡ (c ∷ q) ∷ ks
    → t ≡ dotted (c ∷ q) ks
dotted-split_dots t c q ks e = sym (dots-split_dots t) ∙ ap dots e ∙ sym (dotted-dots c q ks)
