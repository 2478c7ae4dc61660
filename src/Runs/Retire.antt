-- ===== src/Runs/Retire.antt =====
-- RunStore._retire_runs with its two callers: runs unchanged since a cutoff are moved to a final status in
-- one transaction. The `error` of a manifest, and the clean-up after the commit, are left out.
use autocontribute.Base.{
  ℕ, String, none, some, Bool, not, ◌&&◌, ◌||◌, List, [], ◌∷◌, ◌++◌, str_eq, keep, take, ltb, ◌==◌,
  if◌then◌else◌,
}
use Prim.Native.String.{compare}
use text.Mathlib.Text.{is_lt}
use autocontribute.Base.Dict.{Dict, lookup, insert}
use autocontribute.Errors.{value_error, state_error, Result, ok, err, ◌>>=◌}
use autocontribute.Runs.Status.{
  RunStatus, queued, candidate_selected, discovering, eligibility_checked, setting_up, implementing,
  validating, critiquing, ready_for_approval, failed, cancelled, status_eq, contains,
}
use autocontribute.Runs.Store.{Manifest, retired, RunRow, RunStore}

abbrev Entry : Type 0
Entry = String × RunRow

-- `ORDER BY updated_at ASC, run_id ASC`
abbrev pub before : Entry → Entry → Bool
before (a, r) (b, q) =
    ltb r.updated_at q.updated_at || (r.updated_at == q.updated_at && is_lt (compare a b))

abbrev pub insert_entry : Entry → Dict RunRow → Dict RunRow
insert_entry e [] = e ∷ []
insert_entry e (f ∷ fs) = if before f e then f ∷ insert_entry e fs else e ∷ f ∷ fs

abbrev pub ordered : Dict RunRow → Dict RunRow
ordered [] = []
ordered (e ∷ es) = insert_entry e (ordered es)

abbrev pub is_retirable : List RunStatus → ℕ → Entry → Bool
is_retirable statuses cutoff (id, row) = contains statuses row.status && ltb row.updated_at cutoff

-- the rows that the SELECT gives
abbrev pub retirable : List RunStatus → ℕ → ℕ → RunStore → Dict RunRow
retirable statuses cutoff limit s =
    take limit (ordered (keep (is_retirable statuses cutoff) s.rows))

-- the row with what the manifest that was read becomes
abbrev pub retired_row : RunStatus → ℕ → Manifest → RunRow → RunRow
retired_row target retired_at m row = record row {
  status = target;
  updated_at = retired_at;
  manifest = record m { status = target; updated_at = retired_at };
}

-- the UPDATE of one row, which must be as it was read, and its event
unfoldable pub retire_row :
    RunStatus → ℕ → String → String → String → RunRow → RunStore → Result RunStore
retire_row target retired_at reason event id row s =
    if not (str_eq row.manifest.run_id id) || not (status_eq row.manifest.status row.status)
    then err state_error
    else elim (lookup id s.rows) [
      | none ↦ err state_error
      | some now ↦
          if status_eq now.status row.status && now.updated_at == row.updated_at
          then ok (record {
            rows = insert id (retired_row target retired_at row.manifest now) s.rows;
            ledger = s.ledger ++ (id, retired event row.status target reason) ∷ [];
          })
          else err state_error
    ]

-- the loop over the rows that were selected
unfoldable pub retire_rows :
    List RunStatus → RunStatus → ℕ → String → String → Dict RunRow → RunStore → Result RunStore
retire_rows statuses target retired_at reason event [] s = ok s
retire_rows statuses target retired_at reason event ((id, row) ∷ rows) s =
    if not (contains statuses row.status)
    then retire_rows statuses target retired_at reason event rows s
    else (retire_row target retired_at reason event id row s >>= λ after.
        retire_rows statuses target retired_at reason event rows after)

-- RunStore._retire_runs; the reason stands as `_bounded_text` returned it, whose ValueError is left out
unfoldable pub retire_runs :
    List RunStatus → RunStatus → ℕ → ℕ → String → String → ℕ → RunStore → Result RunStore
retire_runs statuses target updated_before retired_at reason event limit s =
    if limit == 0 || ltb 1_000 limit
    then err value_error
    else retire_rows statuses target retired_at reason event
        (retirable statuses updated_before limit s) s

-- RECOVERABLE_IN_FLIGHT_STATUSES
abbrev pub recoverable_in_flight_statuses : List RunStatus
recoverable_in_flight_statuses =
    queued ∷ discovering ∷ candidate_selected ∷ eligibility_checked ∷ setting_up ∷ implementing
    ∷ validating ∷ critiquing ∷ []

-- RunStore.recover_stale_runs, at a time of day
unfoldable pub recover_stale_runs : ℕ → String → ℕ → ℕ → RunStore → Result RunStore
recover_stale_runs stale_before reason limit now s =
    retire_runs recoverable_in_flight_statuses failed stale_before now reason "run.recovered" limit
      s

-- RunStore.expire_ready_for_approval_runs, at a time of day
unfoldable pub expire_ready_for_approval_runs : ℕ → String → ℕ → ℕ → RunStore → Result RunStore
expire_ready_for_approval_runs ready_before reason limit now s =
    retire_runs (ready_for_approval ∷ []) cancelled ready_before now reason "run.expired" limit s
