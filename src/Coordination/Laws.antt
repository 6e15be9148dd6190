-- ===== src/Coordination/Laws.antt =====
-- The decision, and the winner of a batch.
use mathlib.Core.List.{Perm}
use mathlib.Core.List.Perm
use ld1_execution_gap_xair.Base.{
  ◌≡◌, ◌↔◌, refl, Bool, true, false, Option, none, some, List, [], ◌∷◌, arith, Bool-cases, inl, inr,
  ◌⊎◌, All,
}
use ld1_execution_gap_xair.Base.Int.{◌<ℤ◌, eq_ℤ_iff}
use ld1_execution_gap_xair.Base.Text.{same_text, txt}
use ld1_execution_gap_xair.Model.{ActionIntent, execute, none_policy, Reason}
use ld1_execution_gap_xair.Coordination.{
  decide_outcome, resolve, outranks, sort_ranked, insert_ranked, split_winner,
}

-- EXECUTE is decided exactly for an intent that is in time, whose predicates hold, whose target is
-- free and that declares no degradation.
pub decide_execute_iff :
    (i : ActionIntent) (t : Bool) (tr : Reason) (c : Bool) (cr : Reason) (busy : Bool)
    → ((decide_outcome i t tr c cr busy).0 ≡ execute)
      ↔ ((t ≡ true) × (c ≡ true) × (busy ≡ false) × (i.payload.degradation_policy ≡ none_policy))
unfolding decide_outcome
decide_execute_iff i t tr c cr busy = ground arith

pub All-map_imp {ℓ} :
    {A : Type ℓ} {P Q : A → Type 0} (xs : List A) → ((x : A) → P x → Q x) → All P xs → All Q xs
All-map_imp [] f h = tt
All-map_imp (x ∷ xs) f h = (f x h.0, All-map_imp xs f h.1)

insert_ranked-perm :
    (x : Bool) (i : ActionIntent) (is : List ActionIntent) → Perm (insert_ranked x i is) (i ∷ is)
unfolding insert_ranked
insert_ranked-perm x i [] = Perm.refl (i ∷ [])
insert_ranked-perm x i (j ∷ is) = elim (Bool-cases (outranks x j i)) [
  | inl e ↦
      rw (e, insert_ranked)
        (Perm.trans (Perm.cons j (insert_ranked-perm x i is)) (Perm.swap i j is))
  | inr e ↦ rw (e, insert_ranked) (Perm.refl (i ∷ j ∷ is))
]

sort_ranked-perm : (x : Bool) (is : List ActionIntent) → Perm (sort_ranked x is) is
unfolding sort_ranked
sort_ranked-perm x [] = Perm.refl []
sort_ranked-perm x (i ∷ is) =
    Perm.trans (insert_ranked-perm x i (sort_ranked x is)) (Perm.cons i (sort_ranked-perm x is))

-- no later intent outranks an earlier one
abbrev pub IsRanked : Bool → List ActionIntent → Type 0
IsRanked x [] = Unit
IsRanked x (i ∷ is) = All (λ j. outranks x j i ≡ false) is × IsRanked x is

outranks_trans :
    (x : Bool) (a b c : ActionIntent)
    → outranks x b a ≡ false
    → outranks x c b ≡ false
    → outranks x c a ≡ false
unfolding outranks
outranks_trans x a b c p q = ground arith

outranks_asym : (x : Bool) (a b : ActionIntent) → outranks x a b ≡ true → outranks x b a ≡ false
unfolding outranks
outranks_asym x a b p = ground arith

All-insert_ranked :
    (P : ActionIntent → Type 0) (x : Bool) (i : ActionIntent) (is : List ActionIntent)
    → P i
    → All P is
    → All P (insert_ranked x i is)
unfolding insert_ranked
All-insert_ranked P x i [] p h = (p, tt)
All-insert_ranked P x i (j ∷ is) p h = elim (Bool-cases (outranks x j i)) [
  | inl e ↦ rw (e, insert_ranked) (h.0, All-insert_ranked P x i is p h.1)
  | inr e ↦ rw (e, insert_ranked) (p, h)
]

insert_ranked-IsRanked :
    (x : Bool) (i : ActionIntent) (is : List ActionIntent)
    → IsRanked x is
    → IsRanked x (insert_ranked x i is)
unfolding insert_ranked
insert_ranked-IsRanked x i [] h = (tt, tt)
insert_ranked-IsRanked x i (j ∷ is) h = elim (Bool-cases (outranks x j i)) [
  | inl e ↦
      rw (e, insert_ranked)
        (
          All-insert_ranked (λ k. outranks x k j ≡ false) x i is (outranks_asym x j i e) h.0,
          insert_ranked-IsRanked x i is h.1,
        )
  | inr e ↦ rw (e, insert_ranked) ((e, All-map_imp is (λ k q. outranks_trans x i j k e q) h.0), h)
]

sort_ranked-IsRanked : (x : Bool) (is : List ActionIntent) → IsRanked x (sort_ranked x is)
unfolding sort_ranked
sort_ranked-IsRanked x [] = tt
sort_ranked-IsRanked x (i ∷ is) =
    insert_ranked-IsRanked x i (sort_ranked x is) (sort_ranked-IsRanked x is)

-- whose sort key is not the greater one: the priority counts first, and, where the policy says so, at equal
-- priority the source "xr"
abbrev pub Yields : Bool → ActionIntent → ActionIntent → Type 0
Yields xr_tie j w =
    (j.priority <ℤ w.priority)
    ⊎ ((j.priority ≡ w.priority)
        × ((xr_tie ≡ false)
            ⊎ ((same_text j.source (txt "xr") ≡ false) ⊎ (same_text w.source (txt "xr") ≡ true))))

outranks-Yields : (x : Bool) (j w : ActionIntent) → outranks x j w ≡ false → Yields x j w
unfolding outranks
outranks-Yields x j w h = ground (arith, eq_ℤ_iff j.priority w.priority)

-- what `resolve` returned for a batch
abbrev pub IsResolved : Bool → List ActionIntent → Option ActionIntent × List ActionIntent → Type 0
IsResolved x batch (none, losers) = (batch ≡ []) × (losers ≡ [])
IsResolved x batch (some w, losers) = Perm (w ∷ losers) batch × All (λ j. Yields x j w) losers

split_winner-IsResolved :
    (x : Bool) (batch sorted : List ActionIntent)
    → Perm sorted batch
    → IsRanked x sorted
    → IsResolved x batch (split_winner sorted)
split_winner-IsResolved x batch [] p r = (Perm.eq-nil (Perm.symm p), refl)
split_winner-IsResolved x batch (w ∷ losers) p r =
    (p, All-map_imp losers (λ j h. outranks-Yields x j w h) r.0)

-- A batch is resolved without loss: it has no winner only if it is empty, and the winner and the losers
-- together are the batch. Every loser has a lower priority than the winner or the same; at the same priority
-- and with the tie-break "priority_then_xr", a loser comes from "xr" only if the winner does.
pub resolve_wins : (x : Bool) (batch : List ActionIntent) → IsResolved x batch (resolve x batch)
unfolding resolve
resolve_wins x batch =
    split_winner-IsResolved x batch (sort_ranked x batch) (sort_ranked-perm x batch)
      (sort_ranked-IsRanked x batch)
