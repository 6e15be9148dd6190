-- ===== src/Consumer/Rounds.antt =====
-- Processes of a consumer one after the other, on a growing log.
use ld1_execution_gap_xair.Base.{
  ℕ, ◌≡◌, refl, sym, ap, subst, ◌∙◌, true, false, List, [], ◌∷◌, ◌++◌, length, length-append, drop,
  All, arith,
}
use ld1_execution_gap_xair.Base.Text.{Text}
use ld1_execution_gap_xair.Base.Dict.{Dict}
use ld1_execution_gap_xair.Store.Commit.{LogRecord, authorization, tombstone, stopped, Contents}
use ld1_execution_gap_xair.Consumer.Offset.{offset}
use ld1_execution_gap_xair.Consumer.Poll.{Actuator, Consumer, World, poll, restart}
use ld1_execution_gap_xair.Consumer.Replay.{count_effects, IsOnce, poll_from-IsOnce, IsDone}
use ld1_execution_gap_xair.Consumer.Progress.{Progress, poll_rest, poll-Progress, poll_from-end}

-- a poll of a process, and what others append to the log before the next process starts
pub record Round : Type 0 where
  pub world : World
  pub more : List LogRecord

-- Processes one after the other, each killed or done with its poll.
unfoldable pub rounds : (key : Text) → List Round → Consumer → Contents → Consumer × Contents
rounds key [] c s = (c, s)
rounds key (r ∷ rs) c s =
    let p = poll r.world key c s in
    rounds key rs (restart p.consumer) (record s { kv = p.kv; actuations = s.actuations ++ r.more })

append_rest : (xs ys zs : List LogRecord) → (xs ++ ys) ++ zs ≡ xs ++ (ys ++ zs)
append_rest [] ys zs = refl
append_rest (x ∷ xs) ys zs = ap (λ z. x ∷ z) (append_rest xs ys zs)

grown :
    (key : Text) (log more : List LogRecord) (c : Consumer) (kv : Dict Text)
    → Progress key log c kv
    → Progress key (log ++ more) (restart c) kv
grown key log more c kv h = record {
  handled = h.handled;
  rest = h.rest ++ more;
  whole = ap (λ z. z ++ more) h.whole ∙ append_rest h.handled h.rest more;
  at = h.at;
  done = h.done;
  trusting = h.trusting;
}

rounds-keeps :
    (key : Text) (rs : List Round) (c : Consumer) (s : Contents)
    → IsOnce c.actuator
    → Progress key s.actuations c s.kv
    → let (c', s') = rounds key rs c s in IsOnce c'.actuator × Progress key s'.actuations c' s'.kv
unfolding rounds poll
rounds-keeps key [] c s o h = (o, h)
rounds-keeps key (r ∷ rs) c s o h =
    let p = poll r.world key c s in
    rounds-keeps key rs (restart p.consumer)
      (record s { kv = p.kv; actuations = s.actuations ++ r.more })
      (poll_from-IsOnce r.world key (offset key s.kv) (drop (offset key s.kv) s.actuations) c s.kv
        o)
      (grown key s.actuations r.more p.consumer p.kv (poll-Progress r.world key c s h))

-- exactly one effect of a record, if the record authorizes one
abbrev pub HasEffect : Actuator → LogRecord → Type 0
HasEffect a (authorization id command stamp) = count_effects id a.effects ≡ 1
HasEffect a (tombstone id reason) = Unit
HasEffect a (stopped id source kind target epoch) = Unit

done_once :
    (a : Actuator) (rs : List LogRecord) → IsOnce a → All (IsDone a) rs → All (HasEffect a) rs
unfolding IsOnce
done_once a [] o d = tt
done_once a (authorization id command stamp ∷ rs) o d =
    (ground (arith, o id, d.0), done_once a rs o d.1)
done_once a (tombstone id reason ∷ rs) o d = (tt, done_once a rs o d.1)
done_once a (stopped id source kind target epoch ∷ rs) o d = (tt, done_once a rs o d.1)

no_rest : (xs ys : List LogRecord) → length (xs ++ ys) ≡ length xs → xs ++ ys ≡ xs
no_rest [] [] h = refl
no_rest [] (y ∷ ys) h = cc h
no_rest (x ∷ xs) ys h = ap (λ z. x ∷ z) (no_rest xs ys (omega (arith, h)))

All-IsDone :
    (key : Text) (log : List LogRecord) (c : Consumer) (kv : Dict Text)
    → offset key kv ≡ length log
    → Progress key log c kv
    → All (IsDone c.actuator) log
All-IsDone key log c kv e h =
    subst (All (IsDone c.actuator))
      (sym (h.whole ∙ no_rest h.handled h.rest (ap length (sym h.whole) ∙ sym e ∙ h.at))) h.done

poll_completes :
    (w : World) (key : Text) (c : Consumer) (s : Contents)
    → ((m : ℕ) → w.crashes m ≡ false)
    → Progress key s.actuations c s.kv
    → ((poll w key c s).finished ≡ true) × (offset key (poll w key c s).kv ≡ length s.actuations)
poll_completes w key c s quiet h =
    let (f, e) = poll_from-end w key (length h.handled) h.rest c s.kv quiet h.at in
    rw (poll_rest w key c s h)
      (f, e ∙ sym (length-append h.handled h.rest) ∙ ap length (sym h.whole))

-- Without the recheck, every authorization in the log gets its effect exactly once: after processes that
-- polled one after the other, each killed between an effect and its offset or not, on a log that grew
-- meanwhile, a poll that is not killed runs to the end, leaves the offset at the end of the log, and the
-- actuator has one effect for each authorization. At the start the actuator has each effect it knows of
-- once, and those of the records below the offset.
pub rounds-exactly_once :
    (key : Text) (rs : List Round) (w : World) (c : Consumer) (s : Contents)
    → IsOnce c.actuator
    → Progress key s.actuations c s.kv
    → ((m : ℕ) → w.crashes m ≡ false)
    → let (c', s') = rounds key rs c s in
      let p = poll w key c' s' in
      (p.finished ≡ true)
      × (offset key p.kv ≡ length s'.actuations)
      × All (HasEffect p.consumer.actuator) s'.actuations
unfolding poll
rounds-exactly_once key rs w c s o h quiet =
    let c' = (rounds key rs c s).0 in
    let s' = (rounds key rs c s).1 in
    let (o', h') = rounds-keeps key rs c s o h in
    let (f, e) = poll_completes w key c' s' quiet h' in
    let p = poll w key c' s' in
    (
      f,
      e,
      done_once p.consumer.actuator s'.actuations
          (poll_from-IsOnce w key (offset key s'.kv) (drop (offset key s'.kv) s'.actuations) c'
            s'.kv o')
          (All-IsDone key s'.actuations p.consumer p.kv e (poll-Progress w key c' s' h')),
    )

-- However the processes of a consumer are killed and whatever the store and the clock say, also with the
-- recheck, the actuator has one effect of each intent that it knows as done and none of any other, if
-- this is so at the start.
pub rounds-IsOnce :
    (key : Text) (rs : List Round) (c : Consumer) (s : Contents)
    → IsOnce c.actuator
    → IsOnce (rounds key rs c s).0.actuator
unfolding rounds poll
rounds-IsOnce key [] c s o = o
rounds-IsOnce key (r ∷ rs) c s o =
    let p = poll r.world key c s in
    rounds-IsOnce key rs (restart p.consumer)
      (record s { kv = p.kv; actuations = s.actuations ++ r.more })
      (poll_from-IsOnce r.world key (offset key s.kv) (drop (offset key s.kv) s.actuations) c s.kv
        o)
