-- ===== src/Predicate/Scan.antt =====
-- The scanners behind the two regular expressions of the predicate language.
use mathlib.Core.List.{reverse}
use ld1_execution_gap_xair.Base.{
  ℕ, ◌+◌, ◌-◌, Bool, false, ◌&&◌, ◌||◌, Option, none, some, List, [], ◌∷◌, map, ◌==◌, leb,
  if◌then◌else◌,
}
use ld1_execution_gap_xair.Base.Text.{Text}

unfoldable pub is_digit : ℕ → Bool
is_digit c = leb b'0' c && leb c b'9'

-- `\w`
unfoldable pub is_word : ℕ → Bool
unfolding is_digit
is_word c = is_digit c || (leb b'a' c && leb c b'z') || (leb b'A' c && leb c b'Z') || c == b'_'

-- `\s`, and what `strip` removes
unfoldable pub is_space : ℕ → Bool
is_space c = c == 32 || (leb 9 c && leb c 13) || (leb 28 c && leb c 31)

unfoldable pub drop_spaces : Text → Text
drop_spaces [] = []
drop_spaces (c ∷ s) = if is_space c then drop_spaces s else c ∷ s

-- `s.strip()`
unfoldable pub strip : Text → Text
strip s = reverse (drop_spaces (reverse (drop_spaces s)))

-- `s.lower()`
abbrev lower_char : ℕ → ℕ
lower_char c = if leb b'A' c && leb c b'Z' then c + 32 else c

unfoldable pub lower : Text → Text
lower s = map lower_char s

abbrev pub starts_word : Text → Bool
starts_word [] = false
starts_word (c ∷ s) = is_word c

-- the rest of `\w+(?:\.\w+)*` after its first character: a dot belongs to it if a word follows
unfoldable pub span_path : Text → Text × Text
span_path [] = ([], [])
span_path (c ∷ s) =
    let (p, r) = span_path s in
    if is_word c || (c == b'.' && starts_word s) then (c ∷ p, r) else ([], c ∷ s)

abbrev pub begin_path : ℕ → Text × Text → Text × Text
begin_path c (p, r) = (c ∷ p, r)

unfoldable pub take_path : Text → Option (Text × Text)
take_path [] = none
take_path (c ∷ s) = if is_word c then some (begin_path c (span_path s)) else none

-- `path.split(".")`
abbrev pub push_char : ℕ → List Text → List Text
push_char c [] = (c ∷ []) ∷ []
push_char c (w ∷ ws) = (c ∷ w) ∷ ws

unfoldable pub split_dots : Text → List Text
split_dots [] = [] ∷ []
split_dots (c ∷ s) = if c == b'.' then [] ∷ split_dots s else push_char c (split_dots s)

-- `s.upper()`
abbrev upper_char : ℕ → ℕ
upper_char c = if leb b'a' c && leb c b'z' then c - 32 else c

unfoldable pub upper : Text → Text
upper s = map upper_char s
