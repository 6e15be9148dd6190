-- ===== src/Lib.antt =====
-- XAIR (eXecution-time Action Intent Runtime): a runtime that validates action intents of an
-- industrial plant against a versioned context and follows each of them through its lifecycle,
-- from admission over authorization, commit and release to the effect.
--
-- The parts and their files. An intent (models.py) is decided by an agent at a decision time; the
-- runtime checks its age and deadline (temporal_validator.py), its predicates on the context
-- (context_validator.py) and its target (coordinator.py), decides (execution_decision.py), and moves
-- its record through the table of lifecycle.py. The gateway later reports the commit, the release and
-- the effect; between the validation and the gate, the versions of the paths that the predicates
-- read (versioning.py) tell whether the context moved under the intent. In the atomic mode the endpoint
-- of the commit (http_server.py) asks the context store (context_store.py) to compare these versions and to
-- append the authorization to the log of actuations in one step, and the consumer of that log
-- (actuation_consumer.py) performs the effects.
--
--   Base            names of the libraries, passed on; integers (Base/Int), texts as lists of code
--                   points (Base/Text), dicts in insertion order (Base/Dict)
--   Value           the values of a JSON document; Value/Order compares numbers
--   Model           xair/core/models.py: one data type for each enum, records for the dataclasses
--   Temporal        xair/core/temporal_validator.py: `validate`, `validate_release`, `make` for the
--                   constructor; Temporal/Laws
--   Coordination    xair/core/coordinator.py (`check_conflict`, `acquire`, `release`, `resolve`),
--                   execution_decision.py (`decide`) and intent_receiver.py (`submit`, `pop`); Laws, and Order
--                   on the queue
--   Lifecycle       xair/core/lifecycle.py: `LifecycleTracker` and its methods; Lifecycle/Graph on the
--                   table, Lifecycle/Steps, Invariant and Audit on the tracker
--   Predicate       xair/core/context_validator.py: Scan and Parse are the regular expression
--                   `_PATTERN` and `_parse`, Float is Python's `float` of a text, Check is
--                   `check_expression` and `evaluate_predicates`; Predicate/Paths and Laws
--   Versioning      xair/core/deep_merge.py and versioning.py; Paths, Merge, Steady, Unchanged, ReadSet
--                   and Verdict lead to what an update can change
--   Runtime         xair/core/runtime.py: State is `XAIRRuntime` and the monad of its methods; Admission
--                   is `_apply_policy`, `install_context_snapshot` and `admit`, Validation is
--                   `process_intent` and `_apply_degradation`; Reports is `record_commit`, `report_release`,
--                   `report_effect` and `supervisory_revoke`;
--                   Advance, Outcomes, Calls, Travels, History, Gate, Errors, Locks, Pass, Stops and
--                   StopPolicy are the proofs;
--                   Policy is `set_policy`, Queue the callers of `process_intent`
--   Store           xair/core/context_store.py. Document is the stored document, `_apply` and the
--                   registration of predicates; Commit is `commit_authorization` in memory, Script is
--                   `_COMMIT_LUA` on the document layout, Transaction is `_update_redis` and
--                   `_register_redis`, Log is the log of actuations under every operation. Changes, Versions,
--                   Reads, History, Truth, Registry, Flips, Standing, Commits and Registration are the proofs
--   Server          xair/adapters/http_server.py: Endpoints has the handlers of the commit, the release, the
--                   effect, the withheld release and the revoke, Submission is `submit_intent` with the stop fence
--                   and what it calls in the store; Commits, Gaps, Withheld, Retained and Stops
--   Consumer        xair/adapters/actuation_consumer.py: Offset is the stored offset, Poll the actuator and
--                   `poll`; Replay, Progress and Rounds
--   Delivery        from the commit of an intent to its effect, across Server, Store and Consumer
--   Tests           concrete intents, contexts and runtimes, and the theorems on them
--
-- State and errors. A method of the runtime is a function from a state to a result and a state; an
-- exception is the error result with the state as it is at the raise, so what was written before stays
-- written. The re-entrant lock of the runtime makes each method one step, so an interleaving of
-- callers is a list of calls (Runtime/History).
--
-- Numbers. Times are integers of microseconds. Python integers are unbounded, and so are these. A
-- number of a context is an exact decimal, infinite or not a number; the rounding of a float to a
-- double is left out, so two decimals that round to one double are two numbers here.
--
-- Texts of predicates are ASCII: `\w`, `\s`, `\d`, `strip` and `lower` are those of ASCII. The wall
-- clock of the evaluation is a function that says before which predicate the time is up.
--
-- Concurrency. The processes that share a store act on it one step at a time: `Operation` is what they do
-- to the document, `Step` what they do to the store. Redis is not modelled: around each try of an optimistic
-- transaction, the operations of the other clients and the success of EXEC are given, with the hypothesis
-- `Watches` that EXEC goes through only if nobody wrote the key meanwhile; the script of a commit is one
-- step on the values of its keys; `Link` says whether Redis is there, cannot be reached, or did what it was
-- asked and the answer was lost. The endpoint of the commit has two parts, between which others can act. The
-- consumer dies between an effect and its offset wherever `World` says so.
--
-- All recursion is on the structure of the data. The tries of a transaction count down from 32, as in the
-- code; running out of them is the RuntimeError.
--
-- Parameters. What `cjson` makes of a record in the script of a commit is the field `cjson` of a server. A record
-- of the log is what a reader of it finds, its lists as their elements, so that `{}` and `[]` are both a list
-- without elements. `heapq` keeps a bag, of which a pop takes out the least entry. The callback
-- `on_actuation` is the host's: `callback_raises` says for which intents it raises, and then an exception of a kind
-- that no handler catches leaves `report_release` after its writes; it does not call the runtime back.
--
-- Not modelled: the time stamps of audit entries, the monotonic bounds and the list of latencies (they are
-- written and only printed); `process_all` and the metrics; the hash and shard layouts
-- of the store and the reconnection of its client; the reading of an intent from JSON, its schema, the batch;
-- the ROS and OPA adapters, the controllers and the scripts.
pub mod Base
pub mod Value
pub mod Model
pub mod Temporal
pub mod Coordination
pub mod Lifecycle
pub mod Predicate
pub mod Versioning
pub mod Store
pub mod Runtime
pub mod Server
pub mod Delivery
pub mod Consumer
mod Tests
