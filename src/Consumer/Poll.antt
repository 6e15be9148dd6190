-- ===== src/Consumer/Poll.antt =====
-- The actuator and the loop of `poll`. What the store answers while a record is handled, the time and the
-- failures of the process are given for each position of the log.
use ld1_execution_gap_xair.Base.{
  ℕ, suc, Bool, true, false, not, ◌&&◌, ◌||◌, Option, none, some, List, [], ◌∷◌, ◌++◌,
  if◌then◌else◌, drop,
}
use ld1_execution_gap_xair.Base.Int.{ℤ, ◌-ℤ◌, ltb_ℤ, eq_ℤ}
use ld1_execution_gap_xair.Base.Text.{Text}
use ld1_execution_gap_xair.Base.Dict.{Dict, insert, member, add}
use ld1_execution_gap_xair.Store.Document.{Document}
use ld1_execution_gap_xair.Store.Commit.{
  readset, truth, Command, LogRecord, authorization, tombstone, stopped, Contents, observed_version,
}
use ld1_execution_gap_xair.Consumer.Offset.{offset, str}

-- `IdempotentActuator`; `SqliteActuator` keeps `done` as a table
pub record Actuator : Type 0 where
  pub effects : List Text
  pub done : List Text
  pub suppressed_duplicates : ℕ

unfoldable pub perform_effect : Text → Actuator → Bool × Actuator
perform_effect id a =
    if member id a.done
    then (false, record a { suppressed_duplicates = suc a.suppressed_duplicates })
    else (true, record a { effects = a.effects ++ id ∷ []; done = add id a.done })

-- `ActuationConsumer`
pub record Consumer : Type 0 where
  pub actuator : Actuator
  pub recheck_at_apply : Bool
  pub applied : List Text
  pub invalidated_in_flight : List Text
  pub withheld : List Text
  pub late_at_apply : List Text

-- the paths or predicates, and the version, that the scope of a command names
abbrev pub paths_of : Command → List Text
paths_of c = elim c.scope [ readset ↦ c.read_set | truth ↦ c.predicates ]

abbrev pub version_of : Command → ℤ
version_of c = elim c.scope [ readset ↦ c.read_set_version | truth ↦ c.predicate_version ]

-- `moved`, on a snapshot that the store is trusted for or not
unfoldable pub has_moved_since : Option Document → Command → Bool
has_moved_since none c = true
has_moved_since (some d) c = not (eq_ℤ (observed_version c.scope (paths_of c) d) (version_of c))

-- `late`
unfoldable pub is_late : (clock : ℤ) → Command → Bool
is_late clock c = ltb_ℤ c.release_bound (clock -ℤ c.decision_epoch)

abbrev add_if : Bool → Text → List Text → List Text
add_if b id ids = if b then ids ++ id ∷ [] else ids

unfoldable pub effect_on : Text → Consumer → Consumer
effect_on id c =
    let (first, a) = perform_effect id c.actuator in
    record c { actuator = a; applied = add_if first id c.applied }

-- one authorization, up to the hook
unfoldable pub consume : Option Document → (clock : ℤ) → Text → Command → Consumer → Consumer
consume seen clock id command c =
    let moved = has_moved_since seen command in
    let late = is_late clock command in
    let c' = record c {
      invalidated_in_flight = add_if moved id c.invalidated_in_flight;
      late_at_apply = add_if late id c.late_at_apply;
    } in
    if (moved || late) && c.recheck_at_apply
    then record c' { withheld = c'.withheld ++ id ∷ [] }
    else effect_on id c'

-- What happens around the records of a poll: the snapshot that the store gives, the clock, and whether the
-- process dies after the effect and before the offset moves.
pub record World : Type 0 where
  pub seen : ℕ → Option Document
  pub clock : ℕ → ℤ
  pub crashes : ℕ → Bool

-- Whether the poll ran to its end, with the consumer and the stored values that it leaves.
pub record Polled : Type 0 where
  pub finished : Bool
  pub consumer : Consumer
  pub kv : Dict Text

-- the loop of `poll`, from a position of the log on
unfoldable pub poll_from : World → (key : Text) → ℕ → List LogRecord → Consumer → Dict Text → Polled
poll_from w key n [] c kv = record { finished = true; consumer = c; kv = kv }
poll_from w key n (authorization id command stamp ∷ rs) c kv =
    let c' = consume (w.seen n) (w.clock n) id command c in
    let rest = poll_from w key (suc n) rs c' (insert key (str (suc n)) kv) in
    if w.crashes n then record { finished = false; consumer = c'; kv = kv } else rest
poll_from w key n (tombstone id reason ∷ rs) c kv =
    poll_from w key (suc n) rs c (insert key (str (suc n)) kv)
poll_from w key n (stopped id source kind target epoch ∷ rs) c kv =
    poll_from w key (suc n) rs c (insert key (str (suc n)) kv)

-- `poll`
unfoldable pub poll : World → (key : Text) → Consumer → Contents → Polled
poll w key c s =
    let start = offset key s.kv in poll_from w key start (drop start s.actuations) c s.kv

-- A process that starts again knows nothing but what its actuator kept.
abbrev pub restart : Consumer → Consumer
restart c = record c { applied = []; invalidated_in_flight = []; withheld = []; late_at_apply = [] }
