-- ===== src/Runtime/Queue.antt =====
-- The callers of `process_intent` in the runtime: `submit_intent`, `submit_and_process` and `process_next`.
use ld1_execution_gap_xair.Base.{ℕ, Bool, true, false, Option, none, some, ◌≡◌, arith}
use ld1_execution_gap_xair.Base.Int.{ℤ}
use ld1_execution_gap_xair.Value.{Fields}
use ld1_execution_gap_xair.Model.{ActionIntent, IntentRecord}
use ld1_execution_gap_xair.Coordination.{pop}
use ld1_execution_gap_xair.Lifecycle.{ok}
use ld1_execution_gap_xair.Runtime.State.{XairRuntime, Action, pure, ◌>>=◌}
use ld1_execution_gap_xair.Runtime.Admission.{
  admit, admit_known, install_context_snapshot, expire_seen, known,
}
use ld1_execution_gap_xair.Runtime.Validation.{Pass, process_intent}

-- `submit_intent`
unfoldable pub enqueue_intent : ℕ → ActionIntent → Action IntentRecord
enqueue_intent clock i = do p ← admit clock true i; pure p.0

-- `if context_snapshot is not None and context_version is not None`
abbrev install_given : Option Fields → Option ℤ → XairRuntime → XairRuntime
install_given (some snapshot) (some version) s =
    (install_context_snapshot snapshot version false s).1
install_given _ _ s = s

-- the pass on the installed snapshot, at the version that the caller gave
abbrev process_new :
    Pass → Option ℤ → ActionIntent → IntentRecord × Bool → Action (IntentRecord × Bool)
process_new c version i (r, true) = pure (r, true)
process_new c version i (r, false) = do
  q ← process_intent (record c { context = none; context_version = version }) i
  pure (q, false)

-- `submit_and_process`
unfoldable pub submit_and_process :
    ℕ → Pass → Option Fields → Option ℤ → ActionIntent → Action (IntentRecord × Bool)
submit_and_process clock c snapshot version i s =
    (admit clock false i >>= process_new c version i) (install_given snapshot version s)

-- `process_next`
abbrev pub process_popped : Pass → Option ActionIntent → Action (Option IntentRecord)
process_popped c none = pure none
process_popped c (some i) = do r ← process_intent c i; pure (some r)

unfoldable pub process_next : Pass → Action (Option IntentRecord)
process_next c s =
    let (i, rest) = pop s.receiver in process_popped c i (record s { receiver = rest })

-- A known id is not processed again, also on a newer snapshot.
pub submit_and_process-known :
    (clock : ℕ) (c : Pass) (version : Option ℤ) (i : ActionIntent) (s : XairRuntime)
    {r : IntentRecord}
    → known i.id (expire_seen clock s) ≡ some r
    → submit_and_process clock c none version i s ≡ (ok (r, true), expire_seen clock s)
unfolding submit_and_process admit admit_known
submit_and_process-known clock c version i s {r} h = ground (arith, h)
