-- ===== src/Tests/Consumers.antt =====
-- The theorems about the consumer at concrete inputs: a process that dies after the effect of the first
-- authorization, one that runs to the end of what is there, and a record that comes after it.
use ld1_execution_gap_xair.Base.{◌≡◌, refl, true, false, none, List, [], ◌∷◌, All, length, ◌==◌}
use ld1_execution_gap_xair.Base.Int.{pos}
use ld1_execution_gap_xair.Base.Text.{Text, txt}
use ld1_execution_gap_xair.Base.Dict.{lookup, member}
use ld1_execution_gap_xair.Store.Commit.{LogRecord, authorization, tombstone, Contents}
use ld1_execution_gap_xair.Consumer.Offset.{offset}
use ld1_execution_gap_xair.Consumer.Poll.{Consumer, World, poll}
use ld1_execution_gap_xair.Consumer.Replay.{IsOnce, count_effects}
use ld1_execution_gap_xair.Consumer.Progress.{Progress}
use ld1_execution_gap_xair.Consumer.Rounds.{
  Round, rounds, HasEffect, rounds-exactly_once, rounds-IsOnce,
}
use ld1_execution_gap_xair.Tests.Stores.{before, by_paths}

abbrev pub key : Text
key = txt "xair:consumer:default:offset"

abbrev order : Text → LogRecord
order id =
    authorization id by_paths.command
      (record { commit_version = pos 1; store_time = pos 1200000; age_at_commit = pos 200000 })

abbrev log : Contents
log = record {
  document = before;
  actuations = order (txt "i1") ∷ tombstone (txt "i1") (txt "late") ∷ order (txt "i2") ∷ [];
  committed = txt "i1" ∷ txt "i2" ∷ [];
  kv = [];
}

abbrev pub idle : Consumer
idle = record {
  actuator = record { effects = []; done = []; suppressed_duplicates = 0 };
  recheck_at_apply = false;
  applied = [];
  invalidated_in_flight = [];
  withheld = [];
  late_at_apply = [];
}

-- the store is out of reach, and the process dies at the first record
abbrev dying : World
dying = record { seen = λ n. none; clock = λ n. pos 9000000; crashes = λ n. n == 0 }

abbrev pub quiet : World
quiet = record { seen = λ n. none; clock = λ n. pos 9000000; crashes = λ n. false }

abbrev pub history : List Round
history =
    record { world = dying; more = [] }
    ∷ record { world = quiet; more = order (txt "i3") ∷ [] }
    ∷ []

pub idle-IsOnce : IsOnce idle.actuator
unfolding IsOnce count_effects member
idle-IsOnce = λ id. refl

idle-Progress : Progress key log.actuations idle log.kv
unfolding offset lookup
idle-Progress = record {
  handled = [];
  rest = log.actuations;
  whole = refl;
  at = refl;
  done = tt;
  trusting = refl;
}

rounds-exactly_once_example :
    let (c', s') = rounds key history idle log in
    let p = poll quiet key c' s' in
    (p.finished ≡ true)
    × (offset key p.kv ≡ length s'.actuations)
    × All (HasEffect p.consumer.actuator) s'.actuations
rounds-exactly_once_example =
    rounds-exactly_once key history quiet idle log idle-IsOnce idle-Progress (λ m. refl)

rounds-IsOnce_example : IsOnce (rounds key history idle log).0.actuator
rounds-IsOnce_example = rounds-IsOnce key history idle log idle-IsOnce
