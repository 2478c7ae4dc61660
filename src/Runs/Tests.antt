-- ===== src/Runs/Tests.antt =====
-- One run moved by two workers, and the theorems at its states.
use autocontribute.Base.{
  ℕ, ◌<◌, ◌≡◌, ◌≢◌, ◌⊎◌, refl, String, none, some, true, false, List, [], ◌∷◌, ◌++◌, arith,
}
use autocontribute.Base.Dict.{Dict, lookup, insert}
use autocontribute.Errors.{Error, Result, ok, err, state_error, artifact_sync_error}
use autocontribute.Runs.Status.{
  RunStatus, queued, discovering, candidate_selected, eligibility_checked, setting_up, implementing,
  validating, critiquing, ready_for_approval, approved, submitting, pr_open, failed, allows,
  is_terminal,
}
use autocontribute.Runs.Graph.{History, here, moved, always_endable}
use autocontribute.Runs.Store.{
  Candidate, begun, Manifest, Event, transitioned, retired, other, RunRow, RunStore, Env, new_row,
  create_run, save, transition, commit_row, selection_agrees, accepts,
}
use autocontribute.Runs.Saving.{transition_cases}
use autocontribute.Runs.Retire.{retire_row, retire_rows, retire_runs, recover_stale_runs}
use autocontribute.Runs.Reach.{Reach, start, empty_store, stale_save_refused}
use autocontribute.Lease.Cell.{Cell, put, new_row as new_lease}
use autocontribute.Publications.Reservations.{
  Publications, LedgerAnswers, reservation_request, reserve_publication,
  reconcile_publication_state, bounded, repair, consume,
}
use autocontribute.Runs.Publish.{
  begin_publication, begin_row, is_unchanged, intent_recorded, Evidence, finalize,
  finalize_merged_publication_compensation,
}
use autocontribute.Runs.Begun.{IsBegun, begin_publication_cases}
use autocontribute.Runs.Claim.{
  claim_candidate, claim_row, assert_claim_lease, is_claimable, is_verified,
}

abbrev calm : Env
calm = record { utc_now = 100; artifact_written = true }

abbrev blank : Manifest
blank = record { run_id = "r1"; status = queued; updated_at = 100; candidate = none; intent = [] }

abbrev created : RunStore
created = record { rows = ("r1", new_row blank) ∷ []; ledger = ("r1", other "run.created") ∷ [] }

created_run : create_run calm "r1" empty_store ≡ (blank, created)
unfolding create_run
created_run = refl

abbrev discovered : Manifest
discovered = record blank { status = discovering; updated_at = 101 }

abbrev started : RunStore
started = record {
  rows = ("r1", new_row discovered) ∷ [];
  ledger = ("r1", other "run.created") ∷ ("r1", transitioned queued discovering "picked") ∷ [];
}

moved_run : transition calm blank discovering "picked" [] created ≡ (ok tt, discovered, started)
unfolding transition save commit_row selection_agrees accepts
moved_run = refl

forbidden :
    transition calm blank approved "skip ahead" [] created ≡ (err state_error, blank, created)
unfolding transition save commit_row selection_agrees accepts
forbidden = refl

lost_update :
    transition calm blank discovering "picked" [] started ≡ (err state_error, blank, started)
unfolding transition save commit_row selection_agrees accepts
lost_update = refl

unsynced :
    transition (record calm { artifact_written = false }) blank discovering "picked" [] created
    ≡ (err artifact_sync_error, discovered, started)
unfolding transition save commit_row selection_agrees accepts
unsynced = refl

transition_cases_example :
    ((◌≡◌ {A = RunStatus} discovering queued)
      × (◌≡◌ {A = Result (Unit {0})} (ok tt) (ok tt))
      × (discovered ≡ blank)
      × (started ≡ created))
    ⊎ ((◌≡◌ {A = Result (Unit {0})} (ok tt) (err state_error))
        × (discovered ≡ blank)
        × (started ≡ created))
    ⊎ (((◌≡◌ {A = Result (Unit {0})} (ok tt) (ok tt))
          ⊎ (◌≡◌ {A = Result (Unit {0})} (ok tt) (err artifact_sync_error)))
        × (allows queued discovering ≡ true)
        × (discovered.status ≡ discovering)
        × ((row : RunRow) × (lookup "r1" created.rows ≡ some row)
            × (row.updated_at ≡ 100)
            × (100 < 101)
            × (started.rows ≡ insert "r1" (new_row discovered) created.rows)
            × ((before : List (String × Event)) × (started.ledger
                  ≡ before ++ ("r1", transitioned queued discovering "picked") ∷ []))))
unfolding transition save commit_row selection_agrees accepts
transition_cases_example = transition_cases calm blank discovering "picked" [] created

stale_save_refused_example :
    save calm blank (other "note") [] started ≡ (err state_error, blank, started)
stale_save_refused_example =
    stale_save_refused started started (new_row discovered) calm blank (other "note") [] refl
      (omega arith) start

-- a run's whole way to its open pull request
abbrev at : RunStatus → ℕ → Manifest
at status time = record blank { status = status; updated_at = time }

abbrev stored : RunStatus → ℕ → List (String × Event) → RunStore
stored status time ledger = record { rows = ("r1", new_row (at status time)) ∷ []; ledger = ledger }

-- a worker whose clock is behind: each save is a microsecond after the last
abbrev slow : Env
slow = record { utc_now = 0; artifact_written = true }

abbrev moved_on : RunStatus → RunStatus → List (String × Event) → List (String × Event)
moved_on from to ledger = ledger ++ ("r1", transitioned from to "next") ∷ []

-- the run is at a status, whenever that was
abbrev IsAt : RunStatus → Type 0
IsAt status =
    (time : ℕ) × (ledger : List (String × Event)) × Reach empty_store (stored status time ledger)

way : History queued pr_open
way =
    moved
      (moved
        (moved
          (moved
            (moved
              (moved
                (moved
                  (moved
                    (moved (moved (moved here discovering refl) candidate_selected refl)
                      eligibility_checked refl)
                    setting_up refl)
                  implementing refl)
                validating refl)
              critiquing refl)
            ready_for_approval refl)
          approved refl)
        submitting refl)
      pr_open refl

always_endable_example :
    ((is_terminal validating ≡ true) × ((t : RunStatus) → allows validating t ≡ false))
    ⊎ ((t : RunStatus) × (is_terminal validating ≡ false)
        × (allows validating t ≡ true)
        × (is_terminal t ≡ true)
        × (t ≢ pr_open))
always_endable_example = always_endable validating

-- a run that a worker left behind fails, and one saved since the cutoff stays
abbrev recovered : RunStore
recovered = record {
  rows = ("r1", new_row (record discovered { status = failed; updated_at = 2_000 })) ∷ [];
  ledger = started.ledger ++ ("r1", retired "run.recovered" discovering failed "stopped") ∷ [];
}

recovers_started : recover_stale_runs 1_000 "stopped" 10 2_000 started ≡ ok recovered
unfolding recover_stale_runs retire_runs retire_rows retire_row
recovers_started = refl

recovers_none : recover_stale_runs 101 "stopped" 10 2_000 started ≡ ok started
unfolding recover_stale_runs retire_runs retire_rows retire_row
recovers_none = refl

-- An approved run with its issue begins its publication, and its pull request is adopted as merged.
abbrev issue : Candidate
issue = record {
  repository = "o/r";
  number = 7;
  score = 80;
  reference = "o/r#7";
  revision = "v1";
  score_text = "80";
}

abbrev agreed : Manifest
agreed = record blank { status = approved; candidate = some issue }

abbrev approved_store : RunStore
approved_store = record { rows = ("r1", new_row agreed) ∷ []; ledger = [] }

abbrev sound_ledger : LedgerAnswers
sound_ledger = record { verified = ok tt; appended = ok tt }

abbrev no_publications : Publications
no_publications = record { rows = []; events = []; runs = [] }

abbrev branch : Dict String
branch = ("branch_name", "fix-7") ∷ []

abbrev submitted : Manifest
submitted = record agreed { status = submitting; updated_at = 101; intent = branch }

abbrev submitted_store : RunStore
submitted_store = record {
  rows = ("r1", new_row submitted) ∷ [];
  ledger =
      ("r1", transitioned approved submitting "authorized publication intent persisted")
      ∷ ("r1", begun "o/r" branch)
      ∷ [];
}

abbrev begins_at : Manifest → RunStore → Result (Unit {0}) × Manifest × RunStore × Publications
begins_at m store =
    begin_publication calm sound_ledger "o/r" 3 1_000 90_000_000_000 branch m store no_publications

begins_approved :
    ((begins_at agreed approved_store).0 ≡ ok tt)
    × ((begins_at agreed approved_store).1 ≡ submitted)
    × ((begins_at agreed approved_store).2 ≡ submitted_store)
unfolding begin_publication begin_row is_unchanged intent_recorded reservation_request
    reserve_publication reconcile_publication_state bounded repair consume
begins_approved = (refl, refl, refl)

begins_waiting :
    (begins_at (record agreed { status = ready_for_approval }) approved_store).0 ≡ err state_error
unfolding begin_publication
begins_waiting = refl

begin_publication_cases_example :
    let (out, m', t, q) = begins_at agreed approved_store in
    ((e : Error) × (out ≡ err e) × (m' ≡ agreed) × (t ≡ approved_store) × (q ≡ no_publications))
    ⊎ (((out ≡ ok tt) ⊎ ((out ≡ err artifact_sync_error) × (calm.artifact_written ≡ false)))
        × IsBegun "o/r" branch agreed m' approved_store t q)
begin_publication_cases_example =
    begin_publication_cases calm sound_ledger "o/r" 3 1_000 90_000_000_000 branch agreed
      approved_store no_publications

abbrev sound_evidence : Evidence
sound_evidence = record { requested = ok tt; recorded = ok tt }

adopts_merged :
    (finalize_merged_publication_compensation calm sound_ledger sound_evidence "merged" submitted
      submitted_store no_publications).2.rows
    ≡ ("r1", new_row (record submitted { status = pr_open; updated_at = 102 })) ∷ []
unfolding finalize_merged_publication_compensation finalize is_unchanged reconcile_publication_state
    bounded repair
adopts_merged = refl

-- A discovering run takes the issue, and another run that has it already is in its way.
abbrev choosing : Manifest
choosing = record discovered { candidate = some issue }

abbrev lease_of_a : Cell
lease_of_a = put (new_lease "a" 1 100 50)

claims_free :
    (claim_candidate calm (ok tt) "a" 1 lease_of_a false choosing started).2.rows
    ≡ ("r1", new_row (record choosing { updated_at = 102 })) ∷ []
unfolding claim_candidate claim_row assert_claim_lease is_claimable is_verified
claims_free = refl

claims_taken :
    (claim_candidate calm (ok tt) "a" 1 lease_of_a false choosing (record started {
      rows = ("r1", new_row discovered) ∷ ("r2", new_row (record agreed { run_id = "r2" })) ∷ [];
    })).0
    ≡ err state_error
unfolding claim_candidate claim_row assert_claim_lease is_claimable is_verified
claims_taken = refl
