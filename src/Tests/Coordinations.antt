-- ===== src/Tests/Coordinations.antt =====
-- The theorems about the queue, the decision and the batches at concrete inputs.
use ld1_execution_gap_xair.Base.{◌≡◌, refl, true, some, List, [], ◌∷◌}
use ld1_execution_gap_xair.Base.Int.{pos, negsuc, ◌-ℤ◌}
use ld1_execution_gap_xair.Base.Text.{txt}
use ld1_execution_gap_xair.Model.{ActionIntent}
use ld1_execution_gap_xair.Coordination.{push, submit, pop, resolve, before, least}
use ld1_execution_gap_xair.Coordination.Laws.{IsResolved, resolve_wins}
use ld1_execution_gap_xair.Coordination.Order.{
  QueueCall, put, take, empty_receiver, calls, waiting, Popped, pop_highest,
}
use ld1_execution_gap_xair.Tests.Fixtures.{resume}

abbrev urgent : ActionIntent
urgent = record (resume (txt "u")) { priority = pos 5; source = txt "xr" }

abbrev lazy : ActionIntent
lazy = record (resume (txt "l")) { priority = negsuc 2; source = txt "xr" }

-- two intents of one priority are left after the first pop, the older of them is next
abbrev mixed : List QueueCall
mixed = put (resume (txt "a")) ∷ put urgent ∷ put lazy ∷ put (resume (txt "b")) ∷ take ∷ []

older_next : ((pop (calls mixed empty_receiver)).0) ≡ some (resume (txt "a"))
unfolding pop calls submit push before least ◌-ℤ◌
older_next = refl

pop_highest_example :
    let r = calls mixed empty_receiver in
    (waiting (submit urgent r).heap ≡ urgent ∷ waiting r.heap) × Popped r.heap (pop r)
pop_highest_example = pop_highest mixed urgent

resolve_wins_example :
    IsResolved true
      (lazy ∷ urgent ∷ resume (txt "a") ∷ [])
      (resolve true (lazy ∷ urgent ∷ resume (txt "a") ∷ []))
resolve_wins_example = resolve_wins true (lazy ∷ urgent ∷ resume (txt "a") ∷ [])
