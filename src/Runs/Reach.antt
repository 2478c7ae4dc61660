-- ===== src/Runs/Reach.antt =====
-- The rows of `runs` over any sequence of the calls of RunStore that write them.
use autocontribute.Base.{
  ◌≤◌, ◌<◌, String, some, true, List, [], ◌≡◌, ◌⊎◌, inl, inr, arith, ap, subst,
}
use native.Mathlib.Nat.{le_refl, le_trans}
use autocontribute.Base.Dict.{lookup}
use autocontribute.Errors.{err, state_error}
use autocontribute.Runs.Status.{RunStatus, allows}
use autocontribute.Runs.Graph.{History, here, moved}
use autocontribute.Runs.Store.{Manifest, Event, RunRow, RunStore, Env, save}
use autocontribute.Runs.Saving.{save-cases}
use autocontribute.Runs.Steps.{Step, Step-IsFollowed}

pub data Reach (s : RunStore) : RunStore → Type 0 where
  start : Reach s s
  next : {t u : RunStore} → Reach s t → Step t u → Reach s u

extend : {a b c : RunStatus} → History a b → (b ≡ c) ⊎ (allows b c ≡ true) → History a c
extend {a} h (inl same) = subst (History a) same h
extend {c} h (inr allowed) = moved h c allowed

pub rows_follow_graph :
    (s t : RunStore) (run_id : String) (old : RunRow)
    → Reach s t
    → lookup run_id s.rows ≡ some old
    → (row : RunRow) × (lookup run_id t.rows ≡ some row)
      × History old.status row.status
      × (old.updated_at ≤ row.updated_at)
rows_follow_graph s t run_id old start e = (old, e, here, le_refl _)
rows_follow_graph s t run_id old (next {t = mid} r st) e =
    let (row, found, history, time) = rows_follow_graph s mid run_id old r e in
    let (now, there, follow) = Step-IsFollowed run_id row st found in
    (now, there, extend history follow.path, le_trans time follow.later)

-- A manifest that is older than the run's row in some state of the store can not be saved after any
-- sequence of calls from there: the save raises StateError and changes nothing. The calls create,
-- save, move, claim an issue for, begin to publish, end the publication of, recover and expire runs,
-- each save and move with a manifest whose status was read from the row it was read with, each new
-- run under an unused id and each cutoff not in the future.
pub stale_save_refused :
    (s t : RunStore) (row : RunRow) (env : Env) (m : Manifest) (event : Event)
    (following : List Event)
    → lookup m.run_id s.rows ≡ some row
    → m.updated_at < row.updated_at
    → Reach s t
    → save env m event following t ≡ (err state_error, m, t)
stale_save_refused s t row env m event following found behind r =
    let (now, there, history, time) = rows_follow_graph s t m.run_id row r found in
    elim (save-cases env m event following t) [
      | inl (refused, same_m, same) ↦ ground arith
      | inr (done, (other, c)) ↦
          let same : other ≡ now = cc (c.found) in
          absurd (omega (arith, c.unchanged, ap (λ x. x.updated_at) same))
    ]

abbrev pub empty_store : RunStore
empty_store = record { rows = []; ledger = [] }
