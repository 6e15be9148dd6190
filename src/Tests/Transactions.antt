-- ===== src/Tests/Transactions.antt =====
-- The transactions at concrete inputs: a rival writes the document at the first try, the second goes through.
use ld1_execution_gap_xair.Base.{ℕ, ◌-◌, ◌≡◌, refl, some, [], ◌∷◌, ◌==◌, arith, if◌then◌else◌}
use ld1_execution_gap_xair.Base.Int.{ℤ, pos}
use ld1_execution_gap_xair.Store.Document.{update}
use ld1_execution_gap_xair.Store.Transaction.{
  Redis, Watches, update_redis, register_redis, first_executed,
}
use ld1_execution_gap_xair.Store.Registration.{
  UpdateEnds, RegisterEnds, update_redis_ends, register_redis_ends,
}
use ld1_execution_gap_xair.Tests.Predicates.{patch, running, slow}
use ld1_execution_gap_xair.Tests.Stores.{before}

abbrev net : Redis
net = record {
  rivals = λ n. if n == 31 then update (pos 6) patch ∷ [] else [];
  executes = λ n. n == 30;
}

abbrev clock : ℕ → ℤ
clock n = pos (40 - n)

net-Watches : Watches net
net-Watches n h = ground arith

update_redis_ends_example :
    UpdateEnds
      (pos 3600000000)
      net
      clock
      patch
      before
      (update_redis (pos 3600000000) net clock patch before)
      (first_executed net 32)
update_redis_ends_example = update_redis_ends (pos 3600000000) net clock patch before net-Watches

-- the second of the tries executes
second_try : first_executed net 32 ≡ some 30
unfolding first_executed
second_try = refl

register_redis_ends_example :
    RegisterEnds
      (pos 3600000000)
      net
      clock
      (running ∷ slow ∷ [])
      before
      (register_redis (pos 3600000000) net clock (running ∷ slow ∷ []) before)
register_redis_ends_example =
    register_redis_ends (pos 3600000000) net clock (running ∷ slow ∷ []) before (omega arith)
      net-Watches
