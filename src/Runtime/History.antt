-- ===== src/Runtime/History.antt =====
-- Everything that reaches the runtime, in any order and with any arguments, from its start: admissions,
-- snapshots, passes over the validators, and the reports that follow.
use ld1_execution_gap_xair.Base.{ℕ, Bool, ◌≡◌, Option, none, some, List, [], ◌∷◌, arith, sym, subst}
use ld1_execution_gap_xair.Base.Int.{ℤ}
use ld1_execution_gap_xair.Base.Dict.{lookup}
use ld1_execution_gap_xair.Value.{Fields}
use ld1_execution_gap_xair.Model.{ActionIntent}
use ld1_execution_gap_xair.Coordination.{pop}
use ld1_execution_gap_xair.Lifecycle.{get}
use ld1_execution_gap_xair.Lifecycle.Steps.{Reach, here, Reach-trans}
use ld1_execution_gap_xair.Lifecycle.Invariant.{AllConsistent, Reach-AllConsistent}
use ld1_execution_gap_xair.Runtime.State.{XairRuntime}
use ld1_execution_gap_xair.Runtime.Admission.{admit, install_context_snapshot}
use ld1_execution_gap_xair.Runtime.Validation.{Pass, process_intent}
use ld1_execution_gap_xair.Runtime.Queue.{process_popped, process_next}
use ld1_execution_gap_xair.Runtime.Calls.{Call, perform, perform-Reach}
use ld1_execution_gap_xair.Runtime.Travels.{Travels, Travels-bind, Travels-pure}
use ld1_execution_gap_xair.Runtime.Travels.Validate.{Travels-process_intent}
use ld1_execution_gap_xair.Runtime.Travels.Admit.{Travels-admit}

-- a call of the runtime, with its arguments
pub data AnyCall : Type 0 where
  admits : (clock : ℕ) (enqueue : Bool) → ActionIntent → AnyCall
  installs : (snapshot : Fields) (version : ℤ) (replace : Bool) → AnyCall
  passes : Pass → ActionIntent → AnyCall
  next_queued : Pass → AnyCall
  reports : Call → AnyCall

-- the state after it, whether it raised or not
unfoldable pub serve : AnyCall → XairRuntime → XairRuntime
serve (admits clock enqueue i) s = (admit clock enqueue i s).1
serve (installs snapshot version replace) s =
    (install_context_snapshot snapshot version replace s).1
serve (passes c i) s = (process_intent c i s).1
serve (next_queued c) s = (process_next c s).1
serve (reports r) s = (perform r s).1

unfoldable pub serve_all : List AnyCall → XairRuntime → XairRuntime
serve_all [] s = s
serve_all (c ∷ cs) s = serve_all cs (serve c s)

Travels-process_popped : (c : Pass) (found : Option ActionIntent) → Travels (process_popped c found)
Travels-process_popped c none = Travels-pure none
Travels-process_popped c (some i) = search (Travels-bind, Travels-process_intent, Travels-pure)

serve-Reach : (c : AnyCall) (s : XairRuntime) → Reach s.lifecycle (serve c s).lifecycle
unfolding serve install_context_snapshot process_next
serve-Reach (admits clock enqueue i) s = (Travels-admit clock enqueue i).at s
serve-Reach (installs snapshot version replace) s =
    let same : (serve (installs snapshot version replace) s).lifecycle ≡ s.lifecycle =
      ground arith in
    subst (λ l. Reach s.lifecycle l) (sym same) here
serve-Reach (passes c i) s = (Travels-process_intent c i).at s
serve-Reach (next_queued c) s =
    (Travels-process_popped c (pop s.receiver).0).at (record s { receiver = (pop s.receiver).1 })
serve-Reach (reports r) s = perform-Reach r s

-- Whatever calls arrive, the tracker only ever takes steps of the lifecycle.
serve_all-Reach :
    (cs : List AnyCall) (s : XairRuntime) → Reach s.lifecycle (serve_all cs s).lifecycle
unfolding serve_all
serve_all-Reach [] s = here
serve_all-Reach (c ∷ cs) s = Reach-trans (serve-Reach c s) (serve_all-Reach cs (serve c s))

-- a runtime that has registered nothing
abbrev pub IsNew : XairRuntime → Type 0
IsNew s = s.lifecycle ≡ record { records = []; audit = [] }

new-AllConsistent : (s : XairRuntime) → IsNew s → AllConsistent s.lifecycle
unfolding get lookup
new-AllConsistent s e = subst AllConsistent (sym e) (λ id r h. cc h)

-- After any sequence of admissions, snapshots, passes and reports on a runtime that has registered nothing,
-- every record is consistent: its release decision and its effect status are those that its state stands
-- for, no record has a position in the log before it was committed, and none is authorized, committed,
-- released or withheld without the outcome EXECUTE.
pub serve_all-AllConsistent :
    (cs : List AnyCall) (s : XairRuntime) → IsNew s → AllConsistent (serve_all cs s).lifecycle
serve_all-AllConsistent cs s e = Reach-AllConsistent (new-AllConsistent s e) (serve_all-Reach cs s)
