-- ===== src/Coordination.antt =====
-- xair/core/coordinator.py, execution_decision.py and intent_receiver.py: the target lock, the
-- decision at validation, and the priority queue of pending intents.
pub mod Laws
pub mod Order
use ld1_execution_gap_xair.Base.{
  ℕ, suc, ◌+◌, ◌≡◌, Bool, true, false, ◌&&◌, ◌||◌, Option, none, some, List, [], ◌∷◌, ltb,
  if◌then◌else◌,
}
use ld1_execution_gap_xair.Base.Int.{ℤ, pos, ◌-ℤ◌, ltb_ℤ, eq_ℤ}
use ld1_execution_gap_xair.Base.Text.{Text, txt, same_text}
use ld1_execution_gap_xair.Base.Dict.{member, add, discard}
use ld1_execution_gap_xair.Model.{
  ActionIntent, DecisionOutcome, execute, delay, degrade, revoke, DegradationPolicy, none_policy,
  reduce_speed, Reason, target_busy, degradation_policy_active, valid,
}

-- `check_conflict`
unfoldable pub check_conflict : ActionIntent → List Text → Bool
check_conflict i targets = member i.payload.target_entity targets

-- `acquire`
unfoldable pub acquire : ActionIntent → List Text → List Text
acquire i targets = add i.payload.target_entity targets

-- `release`
unfoldable pub release_target : ActionIntent → List Text → List Text
release_target i targets = discard i.payload.target_entity targets

abbrev pub is_none_policy : DegradationPolicy → Bool
is_none_policy none_policy = true
is_none_policy reduce_speed = false

-- `ExecutionDecisionEngine.decide`
unfoldable pub decide_outcome :
    ActionIntent → Bool → Reason → Bool → Reason → Bool → DecisionOutcome × Reason
decide_outcome i temporal_is_ok temporal_reason context_is_ok context_reason resource_busy =
    if temporal_is_ok
    then (if context_is_ok
        then (if resource_busy
            then (delay, target_busy)
            else if is_none_policy i.payload.degradation_policy
            then (execute, valid)
            else (degrade, degradation_policy_active))
        else (revoke, context_reason))
    else (revoke, temporal_reason)

-- An entry of the heap. The order compares the negated priority, then the sequence number.
pub record QueuedIntent : Type 0 where
  pub priority : ℤ
  pub seq : ℕ
  pub intent : ActionIntent

unfoldable pub before : QueuedIntent → QueuedIntent → Bool
before a b = ltb_ℤ a.priority b.priority || (eq_ℤ a.priority b.priority && ltb a.seq b.seq)

-- The heap, as the bag of its entries: `heapq` promises that a pop takes out the least of them, and the
-- place of each in its array does not show.
pub record IntentReceiver : Type 0 where
  pub counter : ℕ
  pub heap : List QueuedIntent

-- `heapq.heappush`
unfoldable pub push : QueuedIntent → List QueuedIntent → List QueuedIntent
push q heap = q ∷ heap

unfoldable pub submit : ActionIntent → IntentReceiver → IntentReceiver
unfolding push
submit i r =
    let q : QueuedIntent = record { priority = pos 0 -ℤ i.priority; seq = r.counter; intent = i } in
    record { counter = suc r.counter; heap = push q r.heap }

-- `heapq.heappop`: the least entry, and the others
unfoldable pub least : QueuedIntent → List QueuedIntent → QueuedIntent × List QueuedIntent
unfolding before
least q [] = (q, [])
least q (x ∷ xs) = let (m, rest) = least x xs in if before m q then (m, q ∷ rest) else (q, x ∷ xs)

unfoldable pub pop_heap : List QueuedIntent → Option ActionIntent × List QueuedIntent
unfolding least
pop_heap [] = (none, [])
pop_heap (q ∷ qs) = let (m, rest) = least q qs in (some m.intent, rest)

unfoldable pub pop : IntentReceiver → Option ActionIntent × IntentReceiver
unfolding pop_heap
pop r = let (i, rest) = pop_heap r.heap in (i, record r { heap = rest })

-- The sort key of `resolve`: priority, then an `xr` source; sorted with `reverse=True`, which keeps
-- the order of equal keys.
abbrev is_xr : ActionIntent → Bool
is_xr i = same_text i.source (txt "xr")

unfoldable pub outranks : Bool → ActionIntent → ActionIntent → Bool
outranks xr_tie a b =
    ltb_ℤ b.priority a.priority
    || (eq_ℤ a.priority b.priority && (xr_tie && (is_xr a && (if is_xr b then false else true))))

insert_ranked : Bool → ActionIntent → List ActionIntent → List ActionIntent
insert_ranked xr_tie i [] = i ∷ []
insert_ranked xr_tie i (x ∷ xs) =
    if outranks xr_tie x i then x ∷ insert_ranked xr_tie i xs else i ∷ x ∷ xs

-- `sorted(intents, key=…, reverse=True)`: an entry stands before the later entries of its key
unfoldable pub sort_ranked : Bool → List ActionIntent → List ActionIntent
unfolding insert_ranked
sort_ranked xr_tie [] = []
sort_ranked xr_tie (i ∷ is) = insert_ranked xr_tie i (sort_ranked xr_tie is)

abbrev split_winner : List ActionIntent → Option ActionIntent × List ActionIntent
split_winner [] = (none, [])
split_winner (w ∷ losers) = (some w, losers)

-- `resolve`; the flag says whether `winner_policy` is "priority_then_xr"
unfoldable pub resolve : Bool → List ActionIntent → Option ActionIntent × List ActionIntent
unfolding sort_ranked
resolve xr_tie intents = split_winner (sort_ranked xr_tie intents)
