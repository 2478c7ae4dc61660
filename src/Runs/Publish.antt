-- ===== src/Runs/Publish.antt =====
-- The calls of src/autocontribute/store.py that publish a run and that end a publication: RunStore's
-- begin_publication, finalize_merged_publication_compensation and finalize_publication_compensation.
-- Repositories and intents stand as `_repository_identity` and `_publication_intent` returned them, and
-- reasons as `_bounded_text` did. Each runs in one write transaction, which a raise rolls back, and
-- then writes the manifest's file. The event of the reservation itself is kept in `Publications`.
use autocontribute.Base.{
  ℕ, String, Option, none, some, Bool, true, false, not, ◌&&◌, ◌||◌, List, [], ◌∷◌, ◌++◌, map, any,
  str_eq, ◌==◌, is_none, if◌then◌else◌,
}
use autocontribute.Base.Dict.{Dict, lookup, insert}
use autocontribute.Errors.{state_error, artifact_sync_error, Result, ok, err, ◌>>=◌, ◌>>◌, raise_if}
use autocontribute.Publications.Reservations.{
  Request, Publications, LedgerAnswers, reservation_request, reconcile_publication_state,
  reserve_publication,
}
use autocontribute.Runs.Status.{RunStatus, approved, submitting, pr_open, failed, status_eq}
use autocontribute.Runs.Store.{
  Candidate, Manifest, Event, selected, transitioned, retired, begun, other, RunRow, RunStore, Env,
  saved_at, new_row,
}

abbrev same_candidate : Option Candidate → Option Candidate → Bool
same_candidate none none = true
same_candidate none (some b) = false
same_candidate (some a) none = false
same_candidate (some a) (some b) =
    str_eq a.repository b.repository
    && (a.number == b.number
        && (a.score == b.score
            && (str_eq a.reference b.reference
                && (str_eq a.revision b.revision && str_eq a.score_text b.score_text))))

-- The dict has another value for the field, or none.
abbrev differs : Dict String → String × String → Bool
differs fields (name, value) = elim (lookup name fields) [
  | none ↦ false
  | some actual ↦ not (str_eq actual value)
]

abbrev lacks : Dict String → String × String → Bool
lacks fields (name, value) = is_none (lookup name fields)

-- `a == b` of two dicts
abbrev same_fields : Dict String → Dict String → Bool
same_fields a b = not (any (differs b) a || (any (lacks b) a || any (lacks a) b))

-- `model_dump_json()` of the two is the same text
abbrev same_manifest : Manifest → Manifest → Bool
same_manifest a b =
    str_eq a.run_id b.run_id
    && (status_eq a.status b.status
        && (a.updated_at == b.updated_at
            && (same_candidate a.candidate b.candidate && same_fields a.intent b.intent)))

-- The row is the one that the manifest was read from: its status, its update time, its manifest.
unfoldable pub is_unchanged : Manifest → RunRow → Bool
is_unchanged m row =
    status_eq row.status m.status
    && (row.updated_at == m.updated_at && same_manifest row.manifest m)

-- `setattr(pending, field, expected)` for each field
abbrev with_fields : Dict String → Dict String → Dict String
with_fields [] fields = fields
with_fields ((name, value) ∷ rest) fields = with_fields rest (insert name value fields)

-- the candidate is there, and is an issue of that repository
abbrev belongs : String → Option Candidate → Bool
belongs repository none = false
belongs repository (some c) = str_eq c.repository repository

abbrev begun_with : Event → List (String × Dict String) → List (String × Dict String)
begun_with (begun repository intent) rest = (repository, intent) ∷ rest
begun_with (selected issue revision score) rest = rest
begun_with (transitioned from to reason) rest = rest
begun_with (retired name from to reason) rest = rest
begun_with (other name) rest = rest

-- the run's events `publication.intent.begun`
abbrev pub intents_of : String → List (String × Event) → List (String × Dict String)
intents_of run_id [] = []
intents_of run_id ((owner, event) ∷ rest) =
    let more = intents_of run_id rest in if str_eq owner run_id then begun_with event more else more

-- the checks of those events: whether the intent is recorded already
unfoldable pub intent_recorded :
    Bool → String → Dict String → List (String × Dict String) → Result Bool
intent_recorded resumed repository intent [] = ok false
intent_recorded resumed repository intent (_ ∷ _ ∷ _) = err state_error
intent_recorded resumed repository intent ((stored, fields) ∷ []) =
    raise_if (not (str_eq stored repository && same_fields fields intent)) state_error
    >> (raise_if (not resumed) state_error >> ok true)

abbrev pub repositories : Dict RunRow → Dict (Option String)
repositories [] = []
repositories ((run_id, row) ∷ rest) = (run_id, row.repository) ∷ repositories rest

-- a row after an UPDATE that leaves its issue revision alone
abbrev pub rewritten : Manifest → RunRow → RunRow
rewritten m row = record (new_row m) { issue_revision = row.issue_revision }

abbrev append : String → List Event → RunStore → List (String × Event)
append run_id events store = store.ledger ++ map (λ e. (run_id, e)) events

-- what `begin_publication` writes for a run that was approved, and for one that was submitting
abbrev pub begun_store :
    Env → String → Dict String → Manifest → RunRow → RunStore → Manifest × RunStore
begun_store env repository intent m row store =
    let m' : Manifest = record m {
      status = submitting;
      updated_at = saved_at env m;
      intent = with_fields intent m.intent;
    } in
    let events =
      transitioned m.status submitting "authorized publication intent persisted"
      ∷ begun repository intent
      ∷ [] in
    (
      m',
      record {
        rows = insert m.run_id (rewritten m' row) store.rows;
        ledger = append m.run_id events store;
      },
    )

abbrev resumed_store : String → Dict String → Bool → Manifest → RunStore → Manifest × RunStore
resumed_store repository intent recorded m store = (
  m,
  if recorded
      then store
      else record store { ledger = append m.run_id (begun repository intent ∷ []) store },
)

-- the transaction of `begin_publication` on the run's row; where the intent is recorded already, the
-- run was submitting
unfoldable pub begin_row :
    Env
    → LedgerAnswers
    → String
    → Request
    → Dict String
    → Manifest
    → RunRow
    → RunStore
    → Publications
    → Result ((Manifest × RunStore) × Publications)
begin_row env ledger repository request intent m row store p =
    let resumed = status_eq m.status submitting in
    raise_if (not (is_unchanged m row)) state_error
    >> (intent_recorded resumed repository intent (intents_of m.run_id store.ledger) >>= λ recorded.
        (reserve_publication ledger request (record p { runs = repositories store.rows })
          >>= λ reserved. ok (
            if resumed
                then resumed_store repository intent recorded m store
                else begun_store env repository intent m row store,
            reserved.1,
          )))

-- the end of each of these calls: a raise leaves all as it was, unless it is that of the file, which
-- is written where the row was
abbrev after_update :
    Bool
    → Manifest
    → RunStore
    → Publications
    → Result ((Manifest × RunStore) × Publications)
    → Result (Unit {0}) × Manifest × RunStore × Publications
after_update writes m store p (err e) = (err e, m, store, p)
after_update writes m store p (ok ((m', store'), p')) =
    (if writes then ok tt else err artifact_sync_error, m', store', p')

-- RunStore.begin_publication
unfoldable pub begin_publication :
    Env
    → LedgerAnswers
    → String
    → ℕ
    → ℕ
    → ℕ
    → Dict String
    → Manifest
    → RunStore
    → Publications
    → Result (Unit {0}) × Manifest × RunStore × Publications
begin_publication env ledger repository max_per_utc_day repository_cooldown now intent m store p =
    let resumed = status_eq m.status submitting in
    after_update (env.artifact_written || resumed) m store p (
      raise_if (not (status_eq m.status approved || resumed)) state_error
      >> (reservation_request m.run_id repository max_per_utc_day repository_cooldown now
          >>= λ request.
              (raise_if (not (belongs repository m.candidate)) state_error
                >> (raise_if
                      (any (differs m.intent) intent || (resumed && any (lacks m.intent) intent))
                      state_error
                    >> (elim (lookup m.run_id store.rows) [
                      | none ↦ err state_error
                      | some row ↦ begin_row env ledger repository request intent m row store p
                    ])))))

-- What the compensation's own evidence says: the checks of the manifest's marker, of its URL and of
-- the details, before the transaction, and those of the run's compensation events, in it.
pub record Evidence : Type 0 where
  pub requested : Result (Unit {0})
  pub recorded : Result (Unit {0})

-- what both finalizers do, for the row and the events that each writes
unfoldable pub finalize :
    LedgerAnswers
    → Evidence
    → Manifest
    → (RunRow → Manifest × RunRow)
    → List Event
    → RunStore
    → Publications
    → Result ((Manifest × RunStore) × Publications)
finalize ledger evidence m update events store p =
    raise_if (not (status_eq m.status submitting)) state_error
    >> (evidence.requested
        >> (reconcile_publication_state true ledger p >>= λ q.
            (evidence.recorded >> (elim (lookup m.run_id store.rows) [
              | none ↦ err state_error
              | some row ↦
                  raise_if (not (is_unchanged m row)) state_error
                  >> ok (
                    (
                      (update row).0,
                      record {
                        rows = insert m.run_id (update row).1 store.rows;
                        ledger = append m.run_id events store;
                      },
                    ),
                    q,
                  )
            ]))))

abbrev pub ended : Env → RunStatus → Manifest → Manifest
ended env status m = record m { status = status; updated_at = saved_at env m }

-- the rows that the two UPDATEs write
abbrev pub merged_row : Env → Manifest → RunRow → Manifest × RunRow
merged_row env m row = (ended env pr_open m, rewritten (ended env pr_open m) row)

abbrev pub failed_row : Env → Manifest → RunRow → Manifest × RunRow
failed_row env m row = (
  ended env failed m,
  record row { status = failed; updated_at = saved_at env m; manifest = ended env failed m },
)

-- RunStore.finalize_merged_publication_compensation
unfoldable pub finalize_merged_publication_compensation :
    Env
    → LedgerAnswers
    → Evidence
    → String
    → Manifest
    → RunStore
    → Publications
    → Result (Unit {0}) × Manifest × RunStore × Publications
finalize_merged_publication_compensation env ledger evidence reason m store p =
    after_update env.artifact_written m store p (
      finalize ledger evidence m (merged_row env m) (transitioned submitting pr_open reason ∷ [])
        store p)

-- RunStore.finalize_publication_compensation
unfoldable pub finalize_publication_compensation :
    Env
    → LedgerAnswers
    → Evidence
    → String
    → Manifest
    → RunStore
    → Publications
    → Result (Unit {0}) × Manifest × RunStore × Publications
finalize_publication_compensation env ledger evidence reason m store p =
    after_update env.artifact_written m store p (
      finalize ledger evidence m (failed_row env m)
        (other "publication.compensation.verified" ∷ transitioned submitting failed reason ∷ [])
        store p)
