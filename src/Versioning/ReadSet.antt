-- ===== src/Versioning/ReadSet.antt =====
-- The read-set of a predicate holds the path that its evaluation reads.
use mathlib.Core.List.{reverse, reverse-append, reverse-reverse, reverse-cons}
use ld1_execution_gap_xair.Base.{
  ℕ, ◌≡◌, refl, sym, ap, subst, ◌∙◌, true, false, ◌&&◌, ◌||◌, ◌==◌, some, [], ◌∷◌, ◌++◌, All,
  All-append, arith, Bool-cases, Option-cases, inl, inr,
}
use ld1_execution_gap_xair.Base.Text.{Text}
use ld1_execution_gap_xair.Predicate.Scan.{
  is_digit, is_word, is_space, drop_spaces, strip, starts_word, span_path, take_path,
}
use ld1_execution_gap_xair.Predicate.Parse.{Parsed, parse, with_path}
use ld1_execution_gap_xair.Versioning.{path_of, first_path}

-- spaces and nothing else
abbrev Spaces : Text → Type 0
Spaces s = All (λ c. is_space c ≡ true) s

drop_spaces-Spaces : (s : Text) → (sp : Text) × Spaces sp × (s ≡ sp ++ drop_spaces s)
unfolding drop_spaces
drop_spaces-Spaces [] = ([], tt, refl)
drop_spaces-Spaces (c ∷ s) = elim (Bool-cases (is_space c)) [
  | inl e ↦ let (sp, h, f) = drop_spaces-Spaces s in (c ∷ sp, (e, h), rw (e) (ap (λ t. c ∷ t) f))
  | inr e ↦ ([], tt, rw (e) refl)
]

reverse-Spaces : (s : Text) → Spaces s → Spaces (reverse s)
reverse-Spaces [] h = tt
reverse-Spaces (c ∷ s) h =
    rw (reverse-cons c s) (All-append _ (reverse s) (c ∷ []) (reverse-Spaces s h.1) (h.0, tt))

-- the right end of `strip`
right_strip-Spaces :
    (s : Text) → (sp : Text) × Spaces sp × (s ≡ reverse (drop_spaces (reverse s)) ++ sp)
right_strip-Spaces s =
    let (sp, h, e) = drop_spaces-Spaces (reverse s) in
    (
      reverse sp,
      reverse-Spaces sp h,
      sym (reverse-reverse s) ∙ ap reverse e ∙ reverse-append sp (drop_spaces (reverse s)),
    )

space_ends :
    (c : ℕ) (s : Text) → is_space c ≡ true → is_word c || (c == b'.' && starts_word s) ≡ false
unfolding is_space is_word is_digit
space_ends c s h = ground arith

starts_word-Spaces : (s sp : Text) → Spaces sp → starts_word (s ++ sp) ≡ starts_word s
unfolding is_space is_word is_digit
starts_word-Spaces [] [] h = refl
starts_word-Spaces [] (c ∷ sp) h = ground arith
starts_word-Spaces (c ∷ s) sp h = refl

span_path-Spaces : (s sp : Text) → Spaces sp → (span_path (s ++ sp)).0 ≡ (span_path s).0
unfolding span_path
span_path-Spaces [] [] h = refl
span_path-Spaces [] (c ∷ sp) h = rw (space_ends c sp h.0) refl
span_path-Spaces (c ∷ s) sp h = ground (arith, starts_word-Spaces s sp h, span_path-Spaces s sp h)

take_path-Spaces :
    (s sp p r : Text)
    → Spaces sp
    → take_path s ≡ some (p, r)
    → first_path (take_path (s ++ sp)) ≡ some p
unfolding take_path
take_path-Spaces [] sp p r h e = cc e
take_path-Spaces (c ∷ s) sp p r h e = ground (arith, span_path-Spaces s sp h)

with_path-path : (p s : Text) (P : Parsed) → with_path (some (p, s)) ≡ some P → P.path ≡ p
with_path-path p s P e = ground arith

pub parse-take_path :
    (s : Text) (P : Parsed) → parse s ≡ some P → (r : Text) × (take_path s ≡ some (P.path, r))
unfolding parse
parse-take_path s P e = elim (Option-cases (take_path s)) [
  | inl f ↦ cc (subst (λ o. with_path o ≡ some P) f e)
  | inr ((p, r), f) ↦ (
    r,
    f ∙ ap (λ x. some (x, r)) (sym (with_path-path p r P (subst (λ o. with_path o ≡ some P) f e))),
  )
]

-- If an expression parses, then its read-set path is the path that its evaluation reads.
pub parse-path_of : (e : Text) (P : Parsed) → parse (strip e) ≡ some P → path_of e ≡ some P.path
unfolding path_of strip
parse-path_of e P h =
    let (sp, spaces, f) = right_strip-Spaces (drop_spaces e) in
    let (r, g) = parse-take_path (strip e) P h in
    ap (λ s. first_path (take_path s)) f ∙ take_path-Spaces (strip e) sp P.path r spaces g
