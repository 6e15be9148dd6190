-- ===== src/Coordination/Order.antt =====
-- The queue of pending intents over any run of submissions and pops.
use ld1_execution_gap_xair.Base.{
  ℕ, ◌<◌, ◌≡◌, refl, ap, true, false, Option, none, some, List, [], ◌∷◌, ◌++◌, arith, Bool-cases,
  inl, inr, All,
}
use ld1_execution_gap_xair.Base.Int.{pos, ◌-ℤ◌, ◌≤ℤ◌, ◌<ℤ◌, -ℤ_parts}
use ld1_execution_gap_xair.Model.{ActionIntent}
use ld1_execution_gap_xair.Coordination.{
  QueuedIntent, before, IntentReceiver, push, submit, least, pop_heap, pop,
}
use ld1_execution_gap_xair.Coordination.Laws.{All-map_imp}

pub data QueueCall : Type 0 where
  put : ActionIntent → QueueCall
  take : QueueCall

-- a new receiver
abbrev pub empty_receiver : IntentReceiver
empty_receiver = record { counter = 0; heap = [] }

abbrev pub step : QueueCall → IntentReceiver → IntentReceiver
step (put i) r = submit i r
step take r = (pop r).1

-- the receiver after a run of calls
unfoldable pub calls : List QueueCall → IntentReceiver → IntentReceiver
calls [] r = r
calls (c ∷ cs) r = calls cs (step c r)

-- the intents that wait, the newest first
abbrev pub waiting : List QueuedIntent → List ActionIntent
waiting [] = []
waiting (q ∷ qs) = q.intent ∷ waiting qs

-- An intent that leaves a queue of waiting intents: all those after it in line have at most its priority,
-- and all those ahead of it a lower one.
pub record FirstOfHighest (queue : List ActionIntent) (i : ActionIntent) (rest : List ActionIntent)
    : Type 0 where
  pub newer : List ActionIntent
  pub older : List ActionIntent
  pub taken : queue ≡ newer ++ i ∷ older
  pub left : rest ≡ newer ++ older
  pub at_most : All (λ (j : ActionIntent). j.priority ≤ℤ i.priority) newer
  pub below : All (λ (j : ActionIntent). j.priority <ℤ i.priority) older

-- what a pop answers about the intents that waited
abbrev pub Popped : List QueuedIntent → Option ActionIntent × IntentReceiver → Type 0
Popped heap (none, r) = (heap ≡ []) × (r.heap ≡ [])
Popped heap (some i, r) = FirstOfHighest (waiting heap) i (waiting r.heap)

-- entries with the numbers of their submissions, all below a bound, and their priorities negated
abbrev Numbered : ℕ → List QueuedIntent → Type 0
Numbered n [] = Unit
Numbered n (q ∷ qs) = (q.seq < n) × (q.priority ≡ pos 0 -ℤ q.intent.priority) × Numbered q.seq qs

Numbered-below : (m n : ℕ) (qs : List QueuedIntent) → m < n → Numbered m qs → Numbered n qs
Numbered-below m n [] l h = tt
Numbered-below m n (q ∷ qs) l h = (omega (arith, h.0), h.1, h.2)

before_le :
    (m q : QueuedIntent)
    → m.priority ≡ pos 0 -ℤ m.intent.priority
    → q.priority ≡ pos 0 -ℤ q.intent.priority
    → before m q ≡ true
    → q.intent.priority ≤ℤ m.intent.priority
unfolding before
before_le m q e f b =
    ground (arith, -ℤ_parts (pos 0) m.intent.priority, -ℤ_parts (pos 0) q.intent.priority)

not_before_lt :
    (m q : QueuedIntent)
    → m.priority ≡ pos 0 -ℤ m.intent.priority
    → q.priority ≡ pos 0 -ℤ q.intent.priority
    → m.seq < q.seq
    → before m q ≡ false
    → m.intent.priority <ℤ q.intent.priority
unfolding before
not_before_lt m q e f l b =
    ground (arith, -ℤ_parts (pos 0) m.intent.priority, -ℤ_parts (pos 0) q.intent.priority)

-- what `least` finds among numbered entries
record Found (n : ℕ) (heap : List QueuedIntent) (m : QueuedIntent) (rest : List QueuedIntent)
    : Type 0 where
  numbered : Numbered n rest
  within : m.seq < n
  negated : m.priority ≡ pos 0 -ℤ m.intent.priority
  highest : All (λ (j : ActionIntent). j.priority ≤ℤ m.intent.priority) (waiting heap)
  first : FirstOfHighest (waiting heap) m.intent (waiting rest)

least-Found :
    (n : ℕ) (q : QueuedIntent) (qs : List QueuedIntent)
    → Numbered n (q ∷ qs)
    → let (m, rest) = least q qs in Found n (q ∷ qs) m rest
unfolding least
least-Found n q [] h = record {
  numbered = tt;
  within = h.0;
  negated = h.1;
  highest = (omega arith, tt);
  first = record { newer = []; older = []; taken = refl; left = refl; at_most = tt; below = tt };
}
least-Found n q (x ∷ xs) h =
    let (m, rest) = least x xs in
    let found : Found q.seq (x ∷ xs) m rest = least-Found q.seq x xs h.2 in
    elim (Bool-cases (before m q)) [
      | inl b ↦
          rw (b, least)
            (record {
              numbered = (h.0, h.1, found.numbered);
              within = omega (arith, found.within, h.0);
              negated = found.negated;
              highest = (before_le m q found.negated h.1 b, found.highest);
              first = record {
                newer = q.intent ∷ found.first.newer;
                older = found.first.older;
                taken = ap (λ l. q.intent ∷ l) found.first.taken;
                left = ap (λ l. q.intent ∷ l) found.first.left;
                at_most = (before_le m q found.negated h.1 b, found.first.at_most);
                below = found.first.below;
              };
            })
      | inr b ↦
          let lt = not_before_lt m q found.negated h.1 found.within b in
          let lower : All (λ (j : ActionIntent). j.priority <ℤ q.intent.priority)
              (waiting (x ∷ xs)) =
            All-map_imp (waiting (x ∷ xs)) (λ j k. omega (arith, k, lt)) found.highest in
          rw (b, least)
            (record {
              numbered = Numbered-below q.seq n (x ∷ xs) h.0 h.2;
              within = h.0;
              negated = h.1;
              highest =
                  (omega arith, All-map_imp (waiting (x ∷ xs)) (λ j k. omega (arith, k)) lower);
              first = record {
                newer = [];
                older = waiting (x ∷ xs);
                taken = refl;
                left = refl;
                at_most = tt;
                below = lower;
              };
            })
    ]

pop_heap_lem :
    (n : ℕ) (heap : List QueuedIntent)
    → Numbered n heap
    → let (i, rest) = pop_heap heap in
      let r : IntentReceiver = record { counter = n; heap = rest } in
      Numbered n rest × Popped heap (i, r)
unfolding pop_heap
pop_heap_lem n [] h = (tt, (refl, refl))
pop_heap_lem n (q ∷ qs) h = let found = least-Found n q qs h in (found.numbered, found.first)

pop_lem :
    (r : IntentReceiver)
    → Numbered r.counter r.heap
    → Numbered (pop r).1.counter (pop r).1.heap × Popped r.heap (pop r)
unfolding pop
pop_lem r h = pop_heap_lem r.counter r.heap h

calls-Numbered :
    (cs : List QueueCall) (r : IntentReceiver)
    → Numbered r.counter r.heap
    → Numbered (calls cs r).counter (calls cs r).heap
unfolding calls submit push
calls-Numbered [] r h = h
calls-Numbered (put i ∷ cs) r h = calls-Numbered cs (submit i r) (omega arith, refl, h)
calls-Numbered (take ∷ cs) r h = calls-Numbered cs (pop r).1 (pop_lem r h).0

-- After any run of submissions and pops on a new receiver, a submission adds the intent to those that wait,
-- and a pop answers none only if nothing waits. Else it takes one intent out of those that wait and leaves
-- the others in line: no intent that waits has a higher priority, and none that was submitted before it has
-- the same.
pub pop_highest :
    (cs : List QueueCall) (i : ActionIntent)
    → let r = calls cs empty_receiver in
      (waiting (submit i r).heap ≡ i ∷ waiting r.heap) × Popped r.heap (pop r)
unfolding submit push
pop_highest cs i =
    (refl, (pop_lem (calls cs empty_receiver) (calls-Numbered cs empty_receiver tt)).1)
