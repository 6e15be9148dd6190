-- ===== src/Consumer/Progress.antt =====
-- The offset of a consumer across crashes, restarts and a growing log.
use ld1_execution_gap_xair.Base.{
  ℕ, suc, ◌+◌, ◌≡◌, refl, sym, ap, subst, ◌∙◌, true, false, List, [], ◌∷◌, ◌++◌, length,
  length-append, drop, All, All-append, arith, Bool-cases, inl, inr,
}
use ld1_execution_gap_xair.Base.Text.{Text}
use ld1_execution_gap_xair.Base.Dict.{Dict, insert}
use ld1_execution_gap_xair.Store.Commit.{LogRecord, authorization, tombstone, stopped, Contents}
use ld1_execution_gap_xair.Consumer.Offset.{offset, str, offset-insert}
use ld1_execution_gap_xair.Consumer.Poll.{Consumer, consume, World, poll_from, poll}
use ld1_execution_gap_xair.Consumer.Replay.{IsDone, consume-AllDone, consume-done}

-- The log up to the offset has its effects.
pub record Progress (key : Text) (log : List LogRecord) (c : Consumer) (kv : Dict Text)
    : Type 0 where
  pub handled : List LogRecord
  pub rest : List LogRecord
  pub whole : log ≡ handled ++ rest
  pub at : offset key kv ≡ length handled
  pub done : All (IsDone c.actuator) handled
  pub trusting : c.recheck_at_apply ≡ false

append_one :
    (xs : List LogRecord) (r : LogRecord) (rs : List LogRecord)
    → (xs ++ r ∷ []) ++ rs ≡ xs ++ r ∷ rs
append_one [] r rs = refl
append_one (x ∷ xs) r rs = ap (λ z. x ∷ z) (append_one xs r rs)

length-one : (xs : List LogRecord) (r : LogRecord) → length (xs ++ r ∷ []) ≡ suc (length xs)
length-one xs r = omega (arith, length-append xs (r ∷ []))

module _ (w : World) (key : Text) where
  abbrev moved_on : ℕ → Dict Text → Dict Text
  moved_on n kv = insert key (str (suc n)) kv

  moved_on-offset :
      (xs : List LogRecord) (r : LogRecord) (kv : Dict Text)
      → offset key (moved_on (length xs) kv) ≡ length (xs ++ r ∷ [])
  moved_on-offset xs r kv = offset-insert key (suc (length xs)) kv ∙ sym (length-one xs r)

  -- the rest of the log, from the next position on
  onward :
      (xs : List LogRecord) (r : LogRecord) (rs : List LogRecord) (c : Consumer) (kv : Dict Text)
      → (let p = poll_from w key (length (xs ++ r ∷ [])) rs c kv in
          Progress key ((xs ++ r ∷ []) ++ rs) p.consumer p.kv)
      → let p = poll_from w key (suc (length xs)) rs c kv in
        Progress key (xs ++ r ∷ rs) p.consumer p.kv
  onward xs r rs c kv h =
      subst
        (λ z.
          Progress key z (poll_from w key (suc (length xs)) rs c kv).consumer
            (poll_from w key (suc (length xs)) rs c kv).kv)
        (append_one xs r rs)
        (subst
          (λ m.
            Progress key ((xs ++ r ∷ []) ++ rs) (poll_from w key m rs c kv).consumer
              (poll_from w key m rs c kv).kv)
          (length-one xs r) h)

  poll_from-Progress :
      (xs rs : List LogRecord) (c : Consumer) (kv : Dict Text)
      → offset key kv ≡ length xs
      → All (IsDone c.actuator) xs
      → c.recheck_at_apply ≡ false
      → let p = poll_from w key (length xs) rs c kv in Progress key (xs ++ rs) p.consumer p.kv
  unfolding poll_from
  poll_from-Progress xs [] c kv a d t = record {
    handled = xs;
    rest = [];
    whole = refl;
    at = a;
    done = d;
    trusting = t;
  }
  poll_from-Progress xs (authorization id command stamp ∷ rs) c kv a d t =
      let r = authorization id command stamp in
      let n = length xs in
      let c' = consume (w.seen n) (w.clock n) id command c in
      let (now, t') = consume-done (w.seen n) (w.clock n) id command c t in
      let d' = consume-AllDone (w.seen n) (w.clock n) id command c xs d in
      elim (Bool-cases (w.crashes n)) [
        | inl e ↦
            rw (e) (record {
              handled = xs;
              rest = r ∷ rs;
              whole = refl;
              at = a;
              done = d';
              trusting = t';
            })
        | inr e ↦ rw (e) (
            onward xs r rs c' (moved_on n kv) (
              poll_from-Progress (xs ++ r ∷ []) rs c' (moved_on n kv) (moved_on-offset xs r kv)
                (All-append (IsDone c'.actuator) xs (r ∷ []) d' (now, tt)) t'))
      ]
  poll_from-Progress xs (tombstone id reason ∷ rs) c kv a d t =
      onward xs (tombstone id reason) rs c (moved_on (length xs) kv) (
        poll_from-Progress (xs ++ tombstone id reason ∷ []) rs c (moved_on (length xs) kv)
          (moved_on-offset xs (tombstone id reason) kv)
          (All-append (IsDone c.actuator) xs (tombstone id reason ∷ []) d (tt, tt)) t)
  poll_from-Progress xs (stopped id source kind target epoch ∷ rs) c kv a d t =
      onward xs (stopped id source kind target epoch) rs c (moved_on (length xs) kv) (
        poll_from-Progress (xs ++ stopped id source kind target epoch ∷ []) rs c
          (moved_on (length xs) kv) (moved_on-offset xs (stopped id source kind target epoch) kv)
          (All-append (IsDone c.actuator) xs (stopped id source kind target epoch ∷ []) d (tt, tt))
          t)

  drop-length : (xs ys : List LogRecord) → drop (length xs) (xs ++ ys) ≡ ys
  drop-length [] ys = refl
  drop-length (x ∷ xs) ys = drop-length xs ys

  -- `poll` starts where the handled records end
  pub poll_rest :
      (c : Consumer) (s : Contents) (h : Progress key s.actuations c s.kv)
      → poll w key c s ≡ poll_from w key (length h.handled) h.rest c s.kv
  unfolding poll
  poll_rest c s h =
      ap (λ n. poll_from w key n (drop n s.actuations) c s.kv) h.at
      ∙ ap (λ rs. poll_from w key (length h.handled) rs c s.kv)
          (ap (drop (length h.handled)) h.whole ∙ drop-length h.handled h.rest)

  pub poll-Progress :
      (c : Consumer) (s : Contents)
      → Progress key s.actuations c s.kv
      → Progress key s.actuations (poll w key c s).consumer (poll w key c s).kv
  poll-Progress c s h = rw (poll_rest c s h) (
      subst
        (λ z.
          Progress key z (poll_from w key (length h.handled) h.rest c s.kv).consumer
            (poll_from w key (length h.handled) h.rest c s.kv).kv)
        (sym h.whole) (poll_from-Progress h.handled h.rest c s.kv h.at h.done h.trusting))

  -- a loop that meets no crash runs to the end of the log
  pub poll_from-end :
      (n : ℕ) (rs : List LogRecord) (c : Consumer) (kv : Dict Text)
      → ((m : ℕ) → w.crashes m ≡ false)
      → offset key kv ≡ n
      → let p = poll_from w key n rs c kv in (p.finished ≡ true) × (offset key p.kv ≡ n + length rs)
  unfolding poll_from
  poll_from-end n [] c kv quiet a = (refl, omega (arith, a))
  poll_from-end n (authorization id command stamp ∷ rs) c kv quiet a =
      let (f, e) =
        poll_from-end (suc n) rs (consume (w.seen n) (w.clock n) id command c) (moved_on n kv) quiet
          (offset-insert key (suc n) kv) in
      rw (quiet n) (f, omega (arith, e))
  poll_from-end n (tombstone id reason ∷ rs) c kv quiet a =
      let (f, e) =
        poll_from-end (suc n) rs c (moved_on n kv) quiet (offset-insert key (suc n) kv) in
      (f, omega (arith, e))
  poll_from-end n (stopped id source kind target epoch ∷ rs) c kv quiet a =
      let (f, e) =
        poll_from-end (suc n) rs c (moved_on n kv) quiet (offset-insert key (suc n) kv) in
      (f, omega (arith, e))
