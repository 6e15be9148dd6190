-- ===== src/Base/Dict.antt =====
-- Python's `dict` with text keys, in insertion order, and its `set` of texts.
use mathlib.Core.Path.{◌≡◌, refl}
use mathlib.Core.Bool.{Bool, false, ◌||◌}
use mathlib.Core.Option.{Option, none, some}
use mathlib.Core.List.{List, [], ◌∷◌}
use native.Mathlib.Omega.{arith}
use ld1_execution_gap_xair.Base.Tests.{if◌then◌else◌}
use ld1_execution_gap_xair.Base.Text.{Text, same_text, same_text_iff}

abbrev pub Dict {ℓ} : Type ℓ → Type ℓ
Dict V = List (Text × V)

module _ {ℓ} {V : Type ℓ} where
  -- `d.get(k)`
  unfoldable pub lookup : Text → Dict V → Option V
  lookup k [] = none
  lookup k ((j, v) ∷ d) = if same_text j k then some v else lookup k d

  -- `d[k] = v`
  unfoldable pub insert : Text → V → Dict V → Dict V
  insert k v [] = (k, v) ∷ []
  insert k v ((j, w) ∷ d) = if same_text j k then (j, v) ∷ d else (j, w) ∷ insert k v d

  -- `d.pop(k, None)`
  unfoldable pub erase : Text → Dict V → Dict V
  erase k [] = []
  erase k ((j, w) ∷ d) = if same_text j k then erase k d else (j, w) ∷ erase k d

  pub lookup-insert :
      (k j : Text) (v : V) (d : Dict V)
      → lookup j (insert k v d) ≡ (if same_text k j then some v else lookup j d)
  unfolding lookup insert
  lookup-insert k j v [] = refl
  lookup-insert k j v ((i, w) ∷ d) =
      ground (arith, same_text_iff k j, same_text_iff i k, same_text_iff i j, lookup-insert k j v d)

  pub lookup-erase :
      (k j : Text) (d : Dict V)
      → lookup j (erase k d) ≡ (if same_text k j then none else lookup j d)
  unfolding lookup erase
  lookup-erase k j [] = ground arith
  lookup-erase k j ((i, w) ∷ d) =
      ground (arith, same_text_iff k j, same_text_iff i k, same_text_iff i j, lookup-erase k j d)

-- `k in s`
unfoldable pub member : Text → List Text → Bool
member k [] = false
member k (x ∷ xs) = same_text x k || member k xs

-- `s.add(k)`
unfoldable pub add : Text → List Text → List Text
add k [] = k ∷ []
add k (x ∷ xs) = if same_text x k then x ∷ xs else x ∷ add k xs

-- `s.discard(k)`
unfoldable pub discard : Text → List Text → List Text
discard k [] = []
discard k (x ∷ xs) = if same_text x k then discard k xs else x ∷ discard k xs

pub member-add : (k j : Text) (s : List Text) → member j (add k s) ≡ same_text k j || member j s
unfolding member add
member-add k j [] = refl
member-add k j (x ∷ xs) =
    ground (arith, same_text_iff k j, same_text_iff x k, same_text_iff x j, member-add k j xs)

pub member-discard :
    (k j : Text) (s : List Text)
    → member j (discard k s) ≡ (if same_text k j then false else member j s)
unfolding member discard
member-discard k j [] = ground arith
member-discard k j (x ∷ xs) =
    ground (arith, same_text_iff k j, same_text_iff x k, same_text_iff x j, member-discard k j xs)

pub insert-insert {ℓ} :
    {V : Type ℓ} (k : Text) (v w : V) (d : Dict V) → insert k v (insert k w d) ≡ insert k v d
unfolding insert
insert-insert k v w [] = ground (arith, same_text_iff k k)
insert-insert k v w ((j, u) ∷ d) = ground (arith, insert-insert k v w d)
