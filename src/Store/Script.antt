-- ===== src/Store/Script.antt =====
-- `_COMMIT_LUA` on the document layout: the script on the values of its keys, and `_commit_redis`,
-- which runs it. The order in which `pairs` lists the path versions does not matter to a maximum.
use ld1_execution_gap_xair.Base.{
  zero, suc, sym, ap, ℕ, ◌≡◌, refl, ◌&&◌, Option, none, some, List, [], ◌∷◌, ◌++◌, if◌then◌else◌,
  length, length-append, ◌∙◌, arith, Bool-cases, inl, inr, Option-cases,
}
use ld1_execution_gap_xair.Base.Int.{ℤ, pos, negsuc, pos_part, ◌-ℤ◌, ◌≤ℤ◌, ltb_ℤ, eq_ℤ_iff}
use ld1_execution_gap_xair.Base.Text.{Text}
use ld1_execution_gap_xair.Base.Dict.{Dict, lookup, member, add}
use ld1_execution_gap_xair.Versioning.{
  any_related, max_related, larger, or_zero, read_set_version, predicate_version,
  predicate_version_from,
}
use ld1_execution_gap_xair.Store.Document.{Entry, Document}
use ld1_execution_gap_xair.Store.Versions.{AllWithin}
use ld1_execution_gap_xair.Store.Log.{count_authorized, authorizes}
use ld1_execution_gap_xair.Store.Commit.{
  Command, Stamp, authorization, tombstone, stopped, stamp_of, Scope, readset, truth, Contents,
  LogRecord, Status, committed, changed, expired, duplicate, future_skew, Request, Reply,
  entry_versions, observed_version, is_ahead, is_past, has_moved, commit_status,
  append_authorization, commit_memory,
}

-- the largest version of the predicates, -1 if one is missing
unfoldable pub script_truth : ℤ → Dict Entry → List Text → ℤ
script_truth observed preds [] = observed
script_truth observed preds (e ∷ es) = elim (lookup e preds) [
  | none ↦ negsuc 0
  | some v ↦ script_truth (if ltb_ℤ observed v.version then v.version else observed) preds es
]

-- the largest version of a related path
unfoldable pub script_readset : ℤ → Dict ℤ → List Text → ℤ
script_readset observed [] paths = observed
script_readset observed ((p, v) ∷ versions) paths =
    script_readset (if any_related p paths && ltb_ℤ observed v then v else observed) versions paths

unfoldable pub script_observed : Scope → List Text → Document → ℤ
script_observed truth es d = script_truth (pos 0) d.predicates es
script_observed readset paths d = script_readset (pos 0) d.path_versions paths

-- the array that the script returns: no number is nil, so -1 and 0 stand for what is missing
pub record Array : Type 0 where
  pub status : Status
  pub observed : ℤ
  pub version : ℤ
  pub now : ℤ
  pub age : ℤ
  pub seq : ℤ

-- What `cjson.encode` makes of the record that `cjson.decode` read, as a reader of the log takes it: the
-- command and the stamp with what the two lose, such as the digits of a long number. Texts pass unchanged.
pub record Cjson : Type 0 where
  pub command : Command → Command
  pub stamp : Stamp → Stamp

abbrev pub recode : Cjson → LogRecord → LogRecord
recode j (authorization id command stamp) = authorization id (j.command command) (j.stamp stamp)
recode j (tombstone id reason) = tombstone id reason
recode j (stopped id source action target epoch) = stopped id source action target epoch

-- `cjson.decode`, the stamp, RPUSH of the `cjson.encode`, and SADD
unfoldable pub push_authorization : Cjson → (clock : ℤ) → Request → Contents → Contents
push_authorization j clock q s = record s {
  actuations =
      s.actuations ++ recode j (authorization q.intent_id q.command (stamp_of clock q s)) ∷ [];
  committed = add q.intent_id s.committed;
}

unfoldable pub run_script : Cjson → (clock : ℤ) → Request → Contents → Array × Contents
unfolding push_authorization
run_script j clock q s =
    let age = clock -ℤ q.decision_epoch in
    let version = s.document.version in
    let observed = script_observed q.scope q.paths s.document in
    let s' = push_authorization j clock q s in
    if member q.intent_id s.committed
    then (
      record {
        status = duplicate;
        observed = negsuc 0;
        version = negsuc 0;
        now = pos 0;
        age = pos 0;
        seq = negsuc 0;
      },
      s,
    )
    else if is_ahead q.max_ahead age
    then (
      record {
        status = future_skew;
        observed = negsuc 0;
        version = version;
        now = clock;
        age = age;
        seq = negsuc 0;
      },
      s,
    )
    else if is_past q.age_bound age
    then (
      record {
        status = expired;
        observed = observed;
        version = version;
        now = clock;
        age = age;
        seq = negsuc 0;
      },
      s,
    )
    else if has_moved observed q.expected
    then (
      record {
        status = changed;
        observed = observed;
        version = version;
        now = clock;
        age = age;
        seq = negsuc 0;
      },
      s,
    )
    else (
      record {
        status = committed;
        observed = observed;
        version = version;
        now = clock;
        age = age;
        seq = pos (length s'.actuations);
      },
      s',
    )

-- `int(seq) if int(seq) > 0 else None`
abbrev positive : ℤ → Option ℕ
positive n = if ltb_ℤ (pos 0) n then some (pos_part n) else none

-- `_commit_redis`
unfoldable pub commit_redis : Cjson → (clock : ℤ) → Request → Contents → Reply × Contents
commit_redis j clock q s =
    let (a, s') = run_script j clock q s in
    (
      record {
        status = a.status;
        observed = a.observed;
        commit_version = a.version;
        store_time = some a.now;
        age_at_commit = some a.age;
        seq = positive a.seq;
      },
      s',
    )

pub lookup-entry_versions :
    (e : Text) (entries : Dict Entry)
    → lookup e (entry_versions entries)
      ≡ elim (lookup e entries) [ none ↦ none | some v ↦ some v.version ]
unfolding lookup entry_versions
lookup-entry_versions e [] = refl
lookup-entry_versions e ((j, v) ∷ entries) = ground (arith, lookup-entry_versions e entries)

script_truth-predicate_version_from :
    (best : ℤ) (entries : Dict Entry) (es : List Text)
    → script_truth best entries es ≡ predicate_version_from best (entry_versions entries) es
unfolding script_truth predicate_version_from
script_truth-predicate_version_from best entries [] = refl
script_truth-predicate_version_from best entries (e ∷ es) = elim (Option-cases (lookup e entries)) [
  | inl f ↦ ground (arith, lookup-entry_versions e entries, f)
  | inr (v, f) ↦ ground (
    arith,
    lookup-entry_versions e entries,
    f,
    script_truth-predicate_version_from (if ltb_ℤ best v.version then v.version else best) entries
        es,
  )
]

script_readset-some :
    (best : ℤ) (versions : Dict ℤ) (paths : List Text)
    → script_readset best versions paths ≡ or_zero (max_related (some best) versions paths)
unfolding script_readset max_related
script_readset-some best [] paths = refl
script_readset-some best ((p, v) ∷ versions) paths = elim (Bool-cases (any_related p paths)) [
  | inl f ↦ elim (Bool-cases (ltb_ℤ best v)) [
    | inl g ↦ rw (f, g) (script_readset-some v versions paths)
    | inr g ↦ rw (f, g) (script_readset-some best versions paths)
  ]
  | inr f ↦ rw (f) (script_readset-some best versions paths)
]

larger_zero : (v : ℤ) → pos 0 ≤ℤ v → larger (some (pos 0)) v ≡ some v
larger_zero v h = ground (arith, eq_ℤ_iff v (pos 0))

-- a maximum that starts at zero is the maximum of versions none of which is negative
max_related-zero :
    (top : ℤ) (versions : Dict ℤ) (paths : List Text)
    → AllWithin top versions
    → or_zero (max_related (some (pos 0)) versions paths)
      ≡ or_zero (max_related none versions paths)
unfolding max_related
max_related-zero top [] paths h = refl
max_related-zero top ((p, v) ∷ versions) paths h = elim (Bool-cases (any_related p paths)) [
  | inl f ↦ rw (f, larger_zero v h.0) refl
  | inr f ↦ rw (f) (max_related-zero top versions paths h.2)
]

script_observed-observed_version :
    (scope : Scope) (paths : List Text) (d : Document)
    → AllWithin d.version d.path_versions
    → script_observed scope paths d ≡ observed_version scope paths d
unfolding script_observed observed_version read_set_version predicate_version
script_observed-observed_version truth es d h =
    script_truth-predicate_version_from (pos 0) d.predicates es
script_observed-observed_version readset paths d h =
    script_readset-some (pos 0) d.path_versions paths
    ∙ max_related-zero d.version d.path_versions paths h

-- what a caller acts on: the status, the position in the log and what the store holds afterwards
abbrev pub outcome : Reply × Contents → Status × Option ℕ × Contents
outcome (r, s) = (r.status, r.seq, s)

positive-length :
    (s : List LogRecord) (x : LogRecord)
    → positive (pos (length (s ++ x ∷ []))) ≡ some (length (s ++ x ∷ []))
positive-length s x = ground (arith, length-append s (x ∷ []))

-- a log whose records from a position on went through the script
abbrev pub recode_from : Cjson → ℕ → List LogRecord → List LogRecord
recode_from j n [] = []
recode_from j zero (x ∷ xs) = recode j x ∷ recode_from j zero xs
recode_from j (suc n) (x ∷ xs) = x ∷ recode_from j n xs

recode_from-append :
    (j : Cjson) (xs ys : List LogRecord)
    → recode_from j (length xs) (xs ++ ys) ≡ xs ++ recode_from j 0 ys
recode_from-append j [] ys = refl
recode_from-append j (x ∷ xs) ys = ap (λ l. x ∷ l) (recode_from-append j xs ys)

pub recode_from-length : (j : Cjson) (xs : List LogRecord) → recode_from j (length xs) xs ≡ xs
recode_from-length j [] = refl
recode_from-length j (x ∷ xs) = ap (λ l. x ∷ l) (recode_from-length j xs)

pub count_authorized-recode_from :
    (j : Cjson) (id : Text) (n : ℕ) (xs : List LogRecord)
    → count_authorized id (recode_from j n xs) ≡ count_authorized id xs
unfolding count_authorized authorizes
count_authorized-recode_from j id n [] = refl
count_authorized-recode_from j id zero (authorization i command stamp ∷ xs) =
    omega (arith, count_authorized-recode_from j id 0 xs)
count_authorized-recode_from j id zero (tombstone i reason ∷ xs) =
    omega (arith, count_authorized-recode_from j id 0 xs)
count_authorized-recode_from j id zero (stopped i source action target epoch ∷ xs) =
    omega (arith, count_authorized-recode_from j id 0 xs)
count_authorized-recode_from j id (suc n) (x ∷ xs) =
    omega (arith, count_authorized-recode_from j id n xs)

-- a commit whose new records of the log went through the script
abbrev pub recoded : Cjson → Contents → Reply × Contents → Reply × Contents
recoded j s (r, s') =
    (r, record s' { actuations = recode_from j (length s.actuations) s'.actuations })

pub commit_redis-commit_memory :
    (j : Cjson) (clock : ℤ) (q : Request) (s : Contents)
    → AllWithin s.document.version s.document.path_versions
    → outcome (commit_redis j clock q s) ≡ outcome (recoded j s (commit_memory clock q s))
unfolding commit_redis run_script commit_memory commit_status append_authorization
    push_authorization
commit_redis-commit_memory j clock q s h =
    let observed = observed_version q.scope q.paths s.document in
    let same = sym (recode_from-length j s.actuations) in
    let refused : Status → List LogRecord → Status × Option ℕ × Contents =
      λ st l. (st, none, record s { actuations = l }) in
    let kept : (st : Status)
        → refused st s.actuations ≡ refused st (recode_from j (length s.actuations) s.actuations) =
      λ st. ap (refused st) same in
    rw (script_observed-observed_version q.scope q.paths s.document h)
      (elim (Bool-cases (member q.intent_id s.committed)) [
        | inl a ↦ rw (a) (kept duplicate)
        | inr a ↦ elim (Bool-cases (is_ahead q.max_ahead (clock -ℤ q.decision_epoch))) [
          | inl b ↦ rw (a, b) (kept future_skew)
          | inr b ↦ elim (Bool-cases (is_past q.age_bound (clock -ℤ q.decision_epoch))) [
            | inl c ↦ rw (a, b, c) (kept expired)
            | inr c ↦ elim (Bool-cases (has_moved observed q.expected)) [
              | inl e ↦ rw (a, b, c, e) (kept changed)
              | inr e ↦
                  rw
                    (
                      a,
                      b,
                      c,
                      e,
                      positive-length s.actuations _,
                      recode_from-append j s.actuations
                          (authorization q.intent_id q.command (stamp_of clock q s) ∷ []),
                      length-append s.actuations
                          (authorization q.intent_id q.command (stamp_of clock q s) ∷ []),
                      length-append s.actuations (
                          authorization q.intent_id (j.command q.command)
                            (j.stamp (stamp_of clock q s))
                          ∷ []),
                    )
                    refl
            ]
          ]
        ]
      ])
