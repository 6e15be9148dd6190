-- ===== src/Base/Text.antt =====
-- Text as its code points: identifiers, dotted paths, predicate expressions.
use Prim.Native.Nat.{ℕ}
use Prim.Native.Char.{code}
use Prim.Native.String.{String}
use mathlib.Core.Path.{◌≡◌, refl}
use mathlib.Core.Logic.{◌↔◌}
use mathlib.Core.Bool.{Bool, true, false, ◌&&◌}
use mathlib.Core.List.{List, [], ◌∷◌, ◌++◌}
use native.Mathlib.Omega.{arith}
use ld1_execution_gap_xair.Base.Tests.{◌==◌}

abbrev pub Text : Type 0
Text = List ℕ

-- the code points of a literal
abbrev pub txt : String → Text
txt String.[] = []
txt (String.◌∷◌ c s) = code c ∷ txt s

-- `a == b` on strings
unfoldable pub same_text : Text → Text → Bool
same_text [] [] = true
same_text (c ∷ s) (d ∷ t) = c == d && same_text s t
same_text _ _ = false

pub same_text→eq : (s t : Text) → same_text s t ≡ true → s ≡ t
unfolding same_text
same_text→eq [] [] h = refl
same_text→eq (c ∷ s) (d ∷ t) h = ground (arith, same_text→eq s t)
same_text→eq [] (d ∷ t) h = cc
same_text→eq (c ∷ s) [] h = cc

pub same_text_refl : (s : Text) → same_text s s ≡ true
unfolding same_text
same_text_refl [] = refl
same_text_refl (c ∷ s) = ground (arith, same_text_refl s)

pub same_text_iff : (s t : Text) → (same_text s t ≡ true) ↔ (s ≡ t)
same_text_iff s t = (same_text→eq s t, λ e. rw e (same_text_refl t))

-- `a.startswith(b)`
unfoldable pub starts_with : Text → Text → Bool
starts_with s [] = true
starts_with (c ∷ s) (d ∷ t) = c == d && starts_with s t
starts_with [] (d ∷ t) = false

pub starts_with→append : (s t : Text) → starts_with s t ≡ true → (r : Text) × (s ≡ t ++ r)
unfolding starts_with
starts_with→append s [] h = (s, refl)
starts_with→append (c ∷ s) (d ∷ t) h =
    let (r, e) = starts_with→append s t (ground arith) in (r, ground arith)
starts_with→append [] (d ∷ t) h = cc

pub starts_with-append : (t r : Text) → starts_with (t ++ r) t ≡ true
unfolding starts_with
starts_with-append [] r = refl
starts_with-append (d ∷ t) r = ground (arith, starts_with-append t r)
