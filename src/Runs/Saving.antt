-- ===== src/Runs/Saving.antt =====
-- What saves and transitions of a run's row promise: no lost update, all or nothing, and a status
-- that follows the graph.
use autocontribute.Base.{
  ◌<◌, String, Option, some, true, List, [], ◌∷◌, ◌++◌, map, ◌≡◌, ◌⊎◌, inl, inr, refl, ap, ◌∙◌,
  arith, Option-cases, Bool-cases,
}
use mathlib.Core.List.{map-append, append_assoc}
use autocontribute.Base.Dict.{lookup, insert}
use autocontribute.Errors.{Error, state_error, artifact_sync_error, Result, ok, err, Result-cases}
use autocontribute.Runs.Status.{RunStatus, status_eq, allows}
use autocontribute.Runs.Store.{
  Manifest, Event, RunRow, RunStore, Env, transitioned, recorded, selection_agrees, first_of_events,
  rest_of_events, restore_status, Candidate, accepts, saved_at, new_row, commit_row, save,
  transition,
}

-- What a save that was committed did: the row was there, unchanged since the manifest was read, and
-- it now holds the manifest with a later update time.
pub record IsCommitted (m m' : Manifest) (events : List Event) (s s' : RunStore) (row : RunRow)
    : Type 0 where
  pub found : lookup m.run_id s.rows ≡ some row
  pub unchanged : row.updated_at ≡ m.updated_at
  pub later : m.updated_at < m'.updated_at
  pub kept : m' ≡ record m { updated_at = m'.updated_at }
  pub written : s'.rows ≡ insert m.run_id (new_row m') s.rows
  pub recorded_as : s'.ledger ≡ s.ledger ++ map (λ e. (m.run_id, e)) events

saved_at-later : (env : Env) (m : Manifest) → m.updated_at < saved_at env m
saved_at-later env m = ground arith

commit_row-ok :
    (m old : Manifest) (events : List Event) (s s' : RunStore)
    → commit_row m old events s ≡ ok s'
    → (row : RunRow) × (lookup m.run_id s.rows ≡ some row)
      × (row.updated_at ≡ old.updated_at)
      × (s'.rows ≡ insert m.run_id (new_row m) s.rows)
      × (s'.ledger ≡ s.ledger ++ map (λ e. (m.run_id, e)) events)
unfolding commit_row accepts
commit_row-ok m old events s s' h = elim (Option-cases (lookup m.run_id s.rows)) [
  | inl missing ↦ absurd (ground arith)
  | inr (row, e) ↦ (row, e, ground arith, ground arith, ground arith)
]

commit_row-err :
    (m old : Manifest) (events : List Event) (s : RunStore) (e : Error)
    → commit_row m old events s ≡ err e
    → e ≡ state_error
unfolding commit_row
commit_row-err m old events s e h = ground arith

-- A save is refused and changes nothing, or is committed, whether or not the manifest's file could
-- be written afterwards.
pub save-cases :
    (env : Env) (m : Manifest) (event : Event) (following : List Event) (s : RunStore)
    → let (out, m', s') = save env m event following s in
      ((out ≡ err state_error) × (m' ≡ m) × (s' ≡ s))
      ⊎ (((out ≡ ok tt) ⊎ (out ≡ err artifact_sync_error))
          × ((row : RunRow) × IsCommitted m m' (recorded event m.candidate ∷ following) s s' row))
unfolding save
save-cases env m event following s = elim (Bool-cases (selection_agrees event m.candidate)) [
  | inr disagrees ↦ inl (ground arith, ground arith, ground arith)
  | inl agrees ↦
      let m' = record m { updated_at = saved_at env m } in
      let events = recorded event m.candidate ∷ following in
      elim (Result-cases (commit_row m' m events s)) [
        | inr (e, refused) ↦
            let same = commit_row-err m' m events s e refused in
            inl (ground arith, ground arith, ground arith)
        | inl (s', done) ↦
            let (row, found, unchanged, written, recorded_as) =
              commit_row-ok m' m events s s' done in
            inr (
              elim (Bool-cases (env.artifact_written)) [
                | inl clean ↦ inl (ground arith)
                | inr unsynced ↦ inr (ground arith)
              ],
              (
                row,
                record {
                  found = found;
                  unchanged = unchanged;
                  later = ground (arith, saved_at-later env m);
                  kept = ground arith;
                  written = ground arith;
                  recorded_as = ground arith;
                },
              ),
            )
      ]
]

pub status_eq-eq : (s t : RunStatus) → status_eq s t ≡ true → s ≡ t
status_eq-eq s t e = ground arith

-- The change's own event is recorded last, behind the evidence.
events-last :
    (run_id : String) (m : Manifest) (target : RunStatus) (reason : String) (evidence : List Event)
    (c : Option Candidate) (ledger : List (String × Event))
    → let last = transitioned m.status target reason in
      (before : List (String × Event)) × (ledger
          ++ map
              (λ e. (run_id, e))
              (recorded (first_of_events evidence last) c ∷ rest_of_events evidence last)
        ≡ before ++ (run_id, last) ∷ [])
events-last run_id m target reason [] c ledger = (ledger, refl)
events-last run_id m target reason (e ∷ es) c ledger =
    let last = transitioned m.status target reason in
    (ledger ++ (run_id, recorded e c) ∷ map (λ x. (run_id, x)) es, simp (map-append, append_assoc))

restore_status-committed :
    (previous : RunStatus) (t : Result (Unit {0}) × Manifest × RunStore)
    → (t.0 ≡ ok tt) ⊎ (t.0 ≡ err artifact_sync_error)
    → restore_status previous t ≡ t
restore_status-committed previous (ok tt, m, s) out = refl
restore_status-committed previous (err artifact_sync_error, m, s) out = refl
restore_status-committed previous (err e, m, s) out = absurd (ground arith)

-- A transition does one of three things. Asked for the status that the manifest has, it does
-- nothing. If the graph does not allow the change, or the store refuses the save, it raises
-- StateError with manifest and store as they were. Otherwise the change is allowed, the row that was
-- unchanged since the manifest was read now holds the new status with a later update time, and the
-- change is the last event of the ledger; the call then returns, or raises because the manifest's
-- file could not be written.
pub transition_cases :
    (env : Env) (m : Manifest) (target : RunStatus) (reason : String) (evidence : List Event)
    (s : RunStore)
    → let (out, m', s') = transition env m target reason evidence s in
      ((target ≡ m.status) × (out ≡ ok tt) × (m' ≡ m) × (s' ≡ s))
      ⊎ ((out ≡ err state_error) × (m' ≡ m) × (s' ≡ s))
      ⊎ (((out ≡ ok tt) ⊎ (out ≡ err artifact_sync_error))
          × (allows m.status target ≡ true)
          × (m'.status ≡ target)
          × ((row : RunRow) × (lookup m.run_id s.rows ≡ some row)
              × (row.updated_at ≡ m.updated_at)
              × (m.updated_at < m'.updated_at)
              × (s'.rows ≡ insert m.run_id (new_row m') s.rows)
              × ((before : List (String × Event)) × (s'.ledger
                    ≡ before ++ (m.run_id, transitioned m.status target reason) ∷ []))))
unfolding transition
transition_cases env m target reason evidence s =
    let next = record m { status = target } in
    let last = transitioned m.status target reason in
    let saved = save env next (first_of_events evidence last) (rest_of_events evidence last) s in
    elim (Bool-cases (status_eq target m.status)) [
      | inl same ↦ inl (status_eq-eq target m.status same, ground arith, ground arith, ground arith)
      | inr differs ↦ elim (Bool-cases (allows m.status target)) [
        | inr forbidden ↦ inr (inl (ground arith, ground arith, ground arith))
        | inl allowed ↦
            elim (save-cases env next (first_of_events evidence last) (rest_of_events evidence last)
              s) [
                | inl (out, same_m, same_s) ↦ inr (inl (ground arith, ground arith, ground arith))
                | inr (out, (row, done)) ↦
                    let kept : transition env m target reason evidence s ≡ saved =
                      rw (differs, allowed) (restore_status-committed m.status saved out) in
                    let (before, ends) =
                      events-last m.run_id m target reason evidence m.candidate s.ledger in
                    rw kept (
                      inr (
                        inr (
                          out,
                          allowed,
                          ap (λ r. r.status) done.kept,
                          (
                            row,
                            done.found,
                            done.unchanged,
                            done.later,
                            done.written,
                            (before, done.recorded_as ∙ ends),
                          ),
                        )))
              ]
      ]
    ]
