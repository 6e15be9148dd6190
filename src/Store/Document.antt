-- ===== src/Store/Document.antt =====
-- The document that `_decode` reads and `_encode` writes, and `_apply`: an update of it. A time is an
-- integer of microseconds, and the reading of the clock is an argument.
use ld1_execution_gap_xair.Base.{
  ℕ, Bool, true, false, not, ◌&&◌, ◌||◌, Option, none, some, List, [], ◌∷◌, ◌++◌, map, ◌==◌,
  if◌then◌else◌,
}
use ld1_execution_gap_xair.Base.Int.{ℤ, pos, ◌+ℤ◌, ◌-ℤ◌, ◌*ℤ◌, ltb_ℤ, leb_ℤ}
use ld1_execution_gap_xair.Base.Text.{Text}
use ld1_execution_gap_xair.Base.Dict.{Dict, insert, lookup, member}
use ld1_execution_gap_xair.Value.{Fields, end}
use ld1_execution_gap_xair.Predicate.Check.{check_expression}
use ld1_execution_gap_xair.Versioning.{changed_paths, deep_merge, read_set}

-- `[version, truth, registered_at]` of a registered predicate
pub record Entry : Type 0 where
  pub version : ℤ
  pub truth : Bool
  pub registered : ℤ

pub record Document : Type 0 where
  pub context : Fields
  pub version : ℤ
  pub path_versions : Dict ℤ
  pub predicates : Dict Entry

abbrev pub empty_document : Document
empty_document = record { context = end; version = pos 0; path_versions = []; predicates = [] }

-- `_decode` and `_decode_preds` of what is stored under the key
unfoldable pub decode : Option Document → Document
decode none = empty_document
decode (some d) = d

-- `{c[:i] for i, ch in enumerate(c) if ch == "."}`
abbrev pub cons_each : ℕ → List Text → List Text
cons_each c ps = map (λ p. c ∷ p) ps

unfoldable pub prefixes : Text → List Text
prefixes [] = []
prefixes (c ∷ s) = let ps = cons_each c (prefixes s) in if c == b'.' then [] ∷ ps else ps

-- `c.split(".", 1)[0]`
unfoldable pub root_of : Text → Text
root_of [] = []
root_of (c ∷ s) = let r = root_of s in if c == b'.' then [] else c ∷ r

-- `_Changed`
pub record Changed : Type 0 where
  pub paths : List Text
  pub prefixes_of : List Text
  pub roots : List Text

unfoldable pub prefixes_all : List Text → List Text
prefixes_all [] = []
prefixes_all (c ∷ cs) = prefixes c ++ prefixes_all cs

unfoldable pub index_changes : List Text → Changed
index_changes cs = record { paths = cs; prefixes_of = prefixes_all cs; roots = map root_of cs }

unfoldable pub any_member : List Text → List Text → Bool
any_member [] paths = false
any_member (p ∷ ps) paths = member p paths || any_member ps paths

-- `_Changed.related`
unfoldable pub touches : Changed → Text → Bool
touches ch path =
    if member path ch.paths || member path ch.prefixes_of
    then true
    else any_member (prefixes path) ch.paths

-- `_expr_path`: the path of a predicate, empty if there is none
abbrev first_of : List Text → Text
first_of [] = []
first_of (p ∷ ps) = p

unfoldable pub expr_path : Text → Text
expr_path e = first_of (read_set (e ∷ []))

-- `_truth`
unfoldable pub truth_of : Text → Fields → Bool
truth_of e ctx = (check_expression e ctx).0

abbrev pub same_truth : Bool → Bool → Bool
same_truth true b = b
same_truth false b = not b

-- `path_versions[path] = version` for each changed path
unfoldable pub stamp : ℤ → List Text → Dict ℤ → Dict ℤ
stamp v [] versions = versions
stamp v (p ∷ ps) versions = stamp v ps (insert p v versions)

-- `{e: v for e, v in preds.items() if v[2] >= horizon}`
unfoldable pub retire : ℤ → Dict Entry → Dict Entry
retire horizon [] = []
retire horizon ((e, v) ∷ entries) =
    let rest = retire horizon entries in if leb_ℤ horizon v.registered then (e, v) ∷ rest else rest

-- a registered predicate under an update: only a change of its truth advances its version
unfoldable pub retruth : ℤ → Changed → Fields → Text → Entry → Entry
retruth version ch merged e v =
    if member (root_of (expr_path e)) ch.roots && touches ch (expr_path e)
    then (let now = truth_of e merged in
        if same_truth now v.truth then v else record v { version = version; truth = now })
    else v

unfoldable pub retruth_all : ℤ → Changed → Fields → Dict Entry → Dict Entry
retruth_all version ch merged [] = []
retruth_all version ch merged ((e, v) ∷ entries) =
    (e, retruth version ch merged e v) ∷ retruth_all version ch merged entries

-- `if changed and preds`
unfoldable pub revise : ℤ → List Text → Fields → Dict Entry → Dict Entry
revise version [] merged entries = entries
revise version (c ∷ cs) merged entries = retruth_all version (index_changes (c ∷ cs)) merged entries

-- `_apply`, at a reading of the clock, with `PREDICATE_RETENTION_S`
unfoldable pub apply : (clock retention : ℤ) → Fields → Document → Document
apply clock retention patch d =
    let version = d.version +ℤ pos 1 in
    let changed = changed_paths d.context patch in
    let merged = deep_merge d.context patch in
    record {
      context = merged;
      version = version;
      path_versions = stamp version changed d.path_versions;
      predicates = revise version changed merged (retire (clock -ℤ retention) d.predicates);
    }

-- the registration of one predicate: a known one keeps its version and its truth
abbrev pub registered_entry : ℤ → Document → Text → Option Entry → Entry
registered_entry clock d e none = record {
  version = d.version;
  truth = truth_of e d.context;
  registered = clock;
}
registered_entry clock d e (some v) = record v { registered = clock }

-- `preds[e][2] < time.time() - PREDICATE_RETENTION_S / 2`, or not registered
abbrev pub is_fresh : (clock retention : ℤ) → Option Entry → Bool
is_fresh clock retention none = false
is_fresh clock retention (some v) = not (ltb_ℤ (2 *ℤ v.registered) (2 *ℤ clock -ℤ retention))

unfoldable pub register_one : (clock retention : ℤ) → Text → Document → Document
register_one clock retention e d =
    let old = lookup e d.predicates in
    if is_fresh clock retention old
    then d
    else record d { predicates = insert e (registered_entry clock d e old) d.predicates }

-- the loop of `register_predicates`
unfoldable pub register_all : (clock retention : ℤ) → List Text → Document → Document
register_all clock retention [] d = d
register_all clock retention (e ∷ es) d =
    register_all clock retention es (register_one clock retention e d)

-- What any process does to the document: an update, or a registration of predicates.
pub data Operation : Type 0 where
  update : (clock : ℤ) (patch : Fields) → Operation
  register : (clock : ℤ) (es : List Text) → Operation

unfoldable pub perform : (retention : ℤ) → Operation → Document → Document
perform retention (update clock patch) d = apply clock retention patch d
perform retention (register clock es) d = register_all clock retention es d

unfoldable pub perform_all : (retention : ℤ) → List Operation → Document → Document
perform_all retention [] d = d
perform_all retention (o ∷ os) d = perform_all retention os (perform retention o d)
