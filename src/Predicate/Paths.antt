-- ===== src/Predicate/Paths.antt =====
-- The path of a predicate: its parts, and that the parser and the read-set see the same path.
use ld1_execution_gap_xair.Base.{
  ℕ, ◌≡◌, ◌≢◌, refl, sym, ap, subst, Bool, true, false, ◌&&◌, ◌||◌, ◌==◌, Option, none, some, List,
  [], ◌∷◌, All, arith, if◌then◌else◌, Bool-cases, inl, inr,
}
use ld1_execution_gap_xair.Base.Text.{Text}
use ld1_execution_gap_xair.Predicate.Scan.{
  is_digit, is_word, starts_word, span_path, take_path, split_dots, push_char, begin_path,
}

-- a part of a path: not empty, and without a dot
abbrev pub IsPart : Text → Type 0
IsPart k = (k ≢ []) × (split_dots k ≡ k ∷ [])

word_no_dot : (c : ℕ) → is_word c ≡ true → (c == b'.') ≡ false
unfolding is_word is_digit
word_no_dot c h = ground arith

single : (c : ℕ) → is_word c ≡ true → IsPart (c ∷ [])
unfolding split_dots
single c h = (λ e. cc e, rw (word_no_dot c h) refl)

longer : (c : ℕ) (k : Text) → is_word c ≡ true → IsPart k → IsPart (c ∷ k)
unfolding split_dots
longer c k h p = (λ e. cc e, rw (word_no_dot c h, p.1) refl)

push-All : (c : ℕ) (ws : List Text) → is_word c ≡ true → All IsPart ws → All IsPart (push_char c ws)
push-All c [] h p = (single c h, tt)
push-All c (w ∷ ws) h p = (longer c w h p.0, p.1)

belongs : ℕ → Text → Bool
belongs d s = is_word d || (d == b'.' && starts_word s)

span_path-on : (d : ℕ) (s : Text) → belongs d s ≡ true → (span_path (d ∷ s)).0 ≡ d ∷ (span_path s).0
unfolding span_path belongs
span_path-on d s h = rw (h) refl

span_path-stop : (d : ℕ) (s : Text) → belongs d s ≡ false → (span_path (d ∷ s)).0 ≡ []
unfolding span_path belongs
span_path-stop d s h = rw (h) refl

-- after a word character, and at the start of a word
abbrev Continues : Text → Text → Type 0
Continues s p =
    ((c : ℕ) → is_word c ≡ true → All IsPart (split_dots (c ∷ p)))
    × (starts_word s ≡ true → All IsPart (split_dots p))

split_dots-word :
    (c : ℕ) (p : Text) → is_word c ≡ true → split_dots (c ∷ p) ≡ push_char c (split_dots p)
unfolding split_dots
split_dots-word c p h = rw (word_no_dot c h) refl

dot_only : (d : ℕ) (s : Text) → is_word d ≡ false → belongs d s ≡ true → (d == b'.') ≡ true
unfolding belongs
dot_only d s w b = ground arith

word_next : (d : ℕ) (s : Text) → is_word d ≡ false → belongs d s ≡ true → starts_word s ≡ true
unfolding belongs
word_next d s w b = ground arith

not_word : (d : ℕ) (s : Text) → belongs d s ≡ false → is_word d ≡ false
unfolding belongs
not_word d s b = ground arith

Continues-on : (d : ℕ) (s p : Text) → belongs d s ≡ true → Continues s p → Continues (d ∷ s) (d ∷ p)
unfolding belongs split_dots
Continues-on d s p b h = elim (Bool-cases (is_word d)) [
  | inl w ↦ (
    λ c v. subst (All IsPart) (sym (split_dots-word c (d ∷ p) v)) (push-All c _ v (h.0 d w)),
    λ e. h.0 d w,
  )
  | inr w ↦ (
    λ c v.
        subst (All IsPart) (sym (split_dots-word c (d ∷ p) v))
          (rw (dot_only d s w b) (single c v, h.1 (word_next d s w b))),
    λ e. cc (e, w),
  )
]

Continues-stop : (d : ℕ) (s : Text) → belongs d s ≡ false → Continues (d ∷ s) []
unfolding belongs split_dots
Continues-stop d s b = (λ c v. rw (word_no_dot c v) (single c v, tt), λ e. cc (e, not_word d s b))

span_path-parts : (s : Text) → Continues s (span_path s).0
unfolding span_path split_dots
span_path-parts [] = (λ c h. rw (word_no_dot c h) (single c h, tt), λ e. cc e)
span_path-parts (d ∷ s) = elim (Bool-cases (belongs d s)) [
  | inl b ↦
      subst (Continues (d ∷ s)) (sym (span_path-on d s b))
        (Continues-on d s (span_path s).0 b (span_path-parts s))
  | inr b ↦ subst (Continues (d ∷ s)) (sym (span_path-stop d s b)) (Continues-stop d s b)
]

abbrev first_or : Option (Text × Text) → Text
first_or none = []
first_or (some (p, r)) = p

-- The parts of a path that was read are words.
pub take_path-parts : (s p r : Text) → take_path s ≡ some (p, r) → All IsPart (split_dots p)
unfolding take_path
take_path-parts [] p r e = cc e
take_path-parts (c ∷ s) p r e = elim (Bool-cases (is_word c)) [
  | inl w ↦
      subst (λ k. All IsPart (split_dots k))
        (ap first_or
          (subst (λ b. (if b then some (begin_path c (span_path s)) else none) ≡ some (p, r)) w e))
        ((span_path-parts s).0 c w)
  | inr w ↦
      cc (subst (λ b. (if b then some (begin_path c (span_path s)) else none) ≡ some (p, r)) w e)
]
