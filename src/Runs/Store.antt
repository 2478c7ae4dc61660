-- ===== src/Runs/Store.antt =====
-- The `runs` table of src/autocontribute/store.py and the methods that change a run's row: RunStore._save
-- and RunStore.transition. Times are in microseconds. Each runs in one write transaction.
use autocontribute.Base.{
  ℕ, ◌+◌, String, Option, none, some, Bool, true, false, not, ◌&&◌, ◌||◌, List, [], ◌∷◌, ◌++◌, map,
  str_eq, leb, ◌==◌, is_none, if◌then◌else◌,
}
use autocontribute.Base.Dict.{Dict, lookup, insert}
use autocontribute.Errors.{state_error, artifact_sync_error, Result, ok, err}
use autocontribute.Runs.Status.{RunStatus, queued, status_eq, allows}

-- IssueCandidate, with the texts that the code computes from it: its `reference`, its
-- `compute_issue_revision` and `str(score)`. A score is not negative here.
pub record Candidate : Type 0 where
  pub repository : String
  pub number : ℕ
  pub score : ℕ
  pub reference : String
  pub revision : String
  pub score_text : String

-- the fields of RunManifest that the row repeats, and those of its publication intent that are set
pub record Manifest : Type 0 where
  pub run_id : String
  pub status : RunStatus
  pub updated_at : ℕ
  pub candidate : Option Candidate
  pub intent : Dict String

-- an event of the ledger; `selected` carries the details of `candidate.selected`, where a supplied
-- issue revision may be missing, and `retired` those of an event that retires a run;
-- `begun` is `publication.intent.begun`, of a repository and the intent's fields
pub data Event : Type 0 where
  selected : String → Option String → String → Event
  transitioned : RunStatus → RunStatus → String → Event
  retired : String → RunStatus → RunStatus → String → Event
  begun : String → Dict String → Event
  other : String → Event

-- a row of `runs`; `manifest` is what `manifest_json` holds
pub record RunRow : Type 0 where
  pub status : RunStatus
  pub repository : Option String
  pub issue_number : Option ℕ
  pub updated_at : ℕ
  pub issue_revision : Option String
  pub manifest : Manifest

pub record RunStore : Type 0 where
  pub rows : Dict RunRow
  pub ledger : List (String × Event)

-- What a save meets outside: the time of day, and whether the manifest's file could be written
-- after the transaction was committed.
pub record Env : Type 0 where
  pub utc_now : ℕ
  pub artifact_written : Bool

abbrev pub revision_of : Option Candidate → Option String
revision_of none = none
revision_of (some c) = some (c.revision)

abbrev repository_of : Option Candidate → Option String
repository_of none = none
repository_of (some c) = some (c.repository)

abbrev number_of : Option Candidate → Option ℕ
number_of none = none
number_of (some c) = some (c.number)

-- `a == b` of two texts that may be NULL, in SQL: never with NULL
abbrev same_text : Option String → Option String → Bool
same_text (some a) (some b) = str_eq a b
same_text _ _ = false

abbrev missing_or : String → Option String → Bool
missing_or text none = true
missing_or text (some given) = str_eq given text

-- the checks of a `candidate.selected` event against the manifest's candidate
unfoldable pub selection_agrees : Event → Option Candidate → Bool
selection_agrees (selected issue revision score) none = false
selection_agrees (selected issue revision score) (some c) =
    leb c.score 100
    && (missing_or c.revision revision && (str_eq issue c.reference && str_eq score c.score_text))
selection_agrees (transitioned from to reason) candidate = true
selection_agrees (retired name from to reason) candidate = true
selection_agrees (begun repository intent) candidate = true
selection_agrees (other name) candidate = true

-- the event as it is recorded: a selection with the issue's revision filled in
abbrev pub recorded : Event → Option Candidate → Event
recorded (selected issue revision score) candidate = selected issue (revision_of candidate) score
recorded (transitioned from to reason) candidate = transitioned from to reason
recorded (retired name from to reason) candidate = retired name from to reason
recorded (begun repository intent) candidate = begun repository intent
recorded (other name) candidate = other name

-- the time of the save: later than the manifest's last one
abbrev pub saved_at : Env → Manifest → ℕ
saved_at env m = if leb env.utc_now m.updated_at then m.updated_at + 1 else env.utc_now

-- the row that the UPDATE's condition accepts: unchanged since the manifest was read, and of an
-- issue revision that is not yet set or the same
unfoldable pub accepts : Manifest → RunRow → Bool
accepts m row =
    (row.updated_at == m.updated_at)
    && (is_none row.issue_revision || same_text row.issue_revision (revision_of m.candidate))

abbrev pub new_row : Manifest → RunRow
new_row m = record {
  status = m.status;
  repository = repository_of m.candidate;
  issue_number = number_of m.candidate;
  updated_at = m.updated_at;
  issue_revision = revision_of m.candidate;
  manifest = m;
}

-- the transaction of `_save`, for the manifest with its new update time and the one it had
unfoldable pub commit_row : Manifest → Manifest → List Event → RunStore → Result RunStore
commit_row m old events store = elim (lookup m.run_id store.rows) [
  | none ↦ err state_error
  | some row ↦
      if (not (is_none m.candidate) && is_none row.issue_revision) || not (accepts old row)
      then err state_error
      else ok (record {
        rows = insert m.run_id (new_row m) store.rows;
        ledger = store.ledger ++ map (λ e. (m.run_id, e)) events;
      })
]

-- the end of `_save`: the manifest keeps its new update time once the transaction is committed
abbrev after_commit :
    Env → Manifest → Manifest → RunStore → Result RunStore → Result (Unit {0}) × Manifest × RunStore
after_commit env m old store (err e) = (err e, old, store)
after_commit env m old store (ok store') =
    (if env.artifact_written then ok tt else err artifact_sync_error, m, store')

-- RunStore._save: the result, the manifest object afterwards and the store
unfoldable pub save :
    Env → Manifest → Event → List Event → RunStore → Result (Unit {0}) × Manifest × RunStore
save env m event following store =
    if not (selection_agrees event m.candidate)
    then (err state_error, m, store)
    else (let m' = record m { updated_at = saved_at env m } in
        after_commit env m' m store
          (commit_row m' m (recorded event m.candidate ∷ following) store))

-- `except _ManifestArtifactSyncError: raise` keeps the new status; any other error puts it back.
abbrev pub restore_status :
    RunStatus → Result (Unit {0}) × Manifest × RunStore → Result (Unit {0}) × Manifest × RunStore
restore_status previous (ok _, m, store) = (ok tt, m, store)
restore_status previous (err artifact_sync_error, m, store) = (err artifact_sync_error, m, store)
restore_status previous (err e, m, store) = (err e, record m { status = previous }, store)

-- the first event of a list that ends with `last`, and those after it
abbrev pub first_of_events : List Event → Event → Event
first_of_events [] last = last
first_of_events (e ∷ es) last = e

abbrev pub rest_of_events : List Event → Event → List Event
rest_of_events [] last = []
rest_of_events (e ∷ es) last = es ++ last ∷ []

-- RunStore.transition, with the evidence events that are committed before its own
unfoldable pub transition :
    Env
    → Manifest
    → RunStatus
    → String
    → List Event
    → RunStore
    → Result (Unit {0}) × Manifest × RunStore
transition env m target reason evidence store =
    if status_eq target m.status
    then (ok tt, m, store)
    else (if not (allows m.status target)
        then (err state_error, m, store)
        else (let last = transitioned m.status target reason in
            restore_status m.status (
              save env (record m { status = target }) (first_of_events evidence last)
                (rest_of_events evidence last) store)))

-- RunStore.create_run, with the random run id: a queued row and its event. It raises when the
-- manifest's file cannot be written afterwards, with the store as it is here.
unfoldable pub create_run : Env → String → RunStore → Manifest × RunStore
create_run env run_id store =
    let m : Manifest = record {
      run_id = run_id;
      status = queued;
      updated_at = env.utc_now;
      candidate = none;
      intent = [];
    } in
    (
      m,
      record {
        rows = insert run_id (new_row m) store.rows;
        ledger = store.ledger ++ (run_id, other "run.created") ∷ [];
      },
    )
