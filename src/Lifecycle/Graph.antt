-- ===== src/Lifecycle/Graph.antt =====
-- The transition table as a graph: what its paths must pass through, and how long they can be.
use ld1_execution_gap_xair.Base.{
  ℕ, ◌+◌, ◌≤◌, ◌≡◌, refl, Bool, true, false, suc, arith, ◌⊎◌, inl, inr,
}
use ld1_execution_gap_xair.Model.{
  IntentState, created, pending, validating, authorized, delayed, degraded, revoked, expired,
  committed, released, withheld, effect_confirmed, unknown_effect,
}
use ld1_execution_gap_xair.Lifecycle.{admissible, is_terminal, is_released}

-- paths of the transition table, by their length
pub data Walk (s : IntentState) : ℕ → IntentState → Type 0 where
  stop : (n : ℕ) → n ≡ 0 → Walk s n s
  go : {n : ℕ} {t u : IntentState} → Walk s n t → admissible t u ≡ true → Walk s (suc n) u

-- No path leaves a terminal state.
pub terminal_stays : {s t : IntentState} {n : ℕ} → is_terminal s ≡ true → Walk s n t → t ≡ s
unfolding is_terminal admissible
terminal_stays h (stop n e) = refl
terminal_stays {s} h (go {t = t} {u = u} w a) =
    let e = terminal_stays h w in absurd (no_exit s u h (ground arith))
  where
    no_exit : (s u : IntentState) → is_terminal s ≡ true → admissible s u ≡ true → ⊥
    no_exit s u h a = ground arith

-- The states before an authorization, and those that end a path without one.
abbrev is_before : IntentState → Bool
is_before created = true
is_before pending = true
is_before validating = true
is_before delayed = true
is_before degraded = true
is_before _ = false

abbrev is_denied : IntentState → Bool
is_denied revoked = true
is_denied expired = true
is_denied _ = false

before_step :
    (t u : IntentState)
    → is_before t ≡ true
    → admissible t u ≡ true
    → (is_before u ≡ true) ⊎ ((is_denied u ≡ true) ⊎ (u ≡ authorized))
unfolding admissible
before_step t u b a = ground arith

denied_step : (t u : IntentState) → is_denied t ≡ true → admissible t u ≡ true → ⊥
unfolding admissible
denied_step t u b a = ground arith

-- the states in which a path has been
abbrev pub Visits : {s t : IntentState} {n : ℕ} → Walk s n t → IntentState → Type 0
Visits {s} (stop n e) x = s ≡ x
Visits (go {u = u} w a) x = (u ≡ x) ⊎ Visits w x

-- Where a path from a state before authorization stands.
abbrev Phase : {s t : IntentState} {n : ℕ} → Walk s n t → Type 0
Phase {t = t} w = (is_before t ≡ true) ⊎ ((is_denied t ≡ true) ⊎ Visits w authorized)

Phase-step :
    {s t : IntentState} {n : ℕ} (u : IntentState) (w : Walk s n t) (a : admissible t u ≡ true)
    → Phase w
    → Phase (go {u = u} w a)
Phase-step {t = t} u w a (inl b) = elim (before_step t u b a) [
  | inl b' ↦ inl b'
  | inr (inl d) ↦ inr (inl d)
  | inr (inr e) ↦ inr (inr (inl e))
]
Phase-step {t = t} u w a (inr (inl d)) = absurd (denied_step t u d a)
Phase-step u w a (inr (inr p)) = inr (inr (inr p))

Phase-of : {s t : IntentState} {n : ℕ} → is_before s ≡ true → (w : Walk s n t) → Phase w
Phase-of b (stop n e) = inl b
Phase-of b (go {u = u} w a) = Phase-step u w a (Phase-of b w)

not_both : (t : IntentState) → is_before t ≡ true → is_released t ≡ true → ⊥
unfolding is_released
not_both t b r = ground arith

not_denied : (t : IntentState) → is_denied t ≡ true → is_released t ≡ true → ⊥
unfolding is_released
not_denied t b r = ground arith

-- Every path of the transition table that starts in a state before authorization and ends in a state of a
-- released intent has been in AUTHORIZED on its way.
pub released_was_authorized :
    {s t : IntentState} {n : ℕ}
    → is_before s ≡ true
    → is_released t ≡ true
    → (w : Walk s n t) → Visits w authorized
released_was_authorized {t = t} b r w = elim (Phase-of b w) [
  | inl before ↦ absurd (not_both t before r)
  | inr (inl denied) ↦ absurd (not_denied t denied r)
  | inr (inr p) ↦ p
]

-- the longest path that is left, from AUTHORIZED on
abbrev moves_left : IntentState → ℕ
moves_left authorized = 4
moves_left committed = 3
moves_left released = 2
moves_left unknown_effect = 1
moves_left _ = 0

abbrev is_later : IntentState → Bool
is_later authorized = true
is_later committed = true
is_later released = true
is_later unknown_effect = true
is_later withheld = true
is_later effect_confirmed = true
is_later IntentState.failed = true
is_later revoked = true
is_later _ = false

later_step :
    (t u : IntentState)
    → is_later t ≡ true
    → admissible t u ≡ true
    → (is_later u ≡ true) × (moves_left u + 1 ≤ moves_left t)
unfolding admissible
later_step t u b a = ground arith

Walk-left :
    {t : IntentState} {n : ℕ} → Walk authorized n t → (is_later t ≡ true) × (n + moves_left t ≤ 4)
Walk-left (stop n e) = (refl, omega arith)
Walk-left (go {t = t} {u = u} w a) =
    let (b, h) = Walk-left w in let step = later_step t u b a in (step.0, omega arith)

-- An authorized intent makes at most four more moves.
pub authorized_settles : {t : IntentState} {n : ℕ} → Walk authorized n t → n ≤ 4
authorized_settles w = omega (arith, Walk-left w)
