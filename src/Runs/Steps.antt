-- ===== src/Runs/Steps.antt =====
-- What one of the calls that create, save, move and retire runs does to a row of `runs`.
use autocontribute.Base.{
  ℕ, ◌≤◌, Bool, String, none, some, true, List, [], ◌∷◌, ◌≡◌, inl, inr, refl, arith, str_eq, eq_iff,
  ap, sym, subst, Bool-cases, ◌∙◌,
}
use native.Mathlib.Nat.{le_refl}
use autocontribute.Base.Dict.{Dict, lookup, insert, lookup-insert}
use autocontribute.Errors.{Result, ok}
use autocontribute.Lease.Cell.{Cell}
use autocontribute.Publications.Reservations.{Publications, LedgerAnswers}
use autocontribute.Runs.Status.{
  RunStatus, queued, ready_for_approval, failed, cancelled, contains, allows,
}
use autocontribute.Runs.Store.{
  Manifest, Event, RunRow, RunStore, Env, new_row, create_run, save, transition,
}
use autocontribute.Runs.Saving.{save-cases, transition_cases}
use autocontribute.Runs.Retire.{
  recoverable_in_flight_statuses, recover_stale_runs, expire_ready_for_approval_runs,
}
use autocontribute.Runs.Publish.{
  Evidence, begin_publication, finalize_merged_publication_compensation,
  finalize_publication_compensation,
}
use autocontribute.Runs.Claim.{claim_candidate}
use autocontribute.Runs.Written.{
  IsFollowed, IsWritten, claim_candidate-IsWritten, begin_publication-IsWritten,
  finalize_merged-IsWritten, finalize_failed-IsWritten,
}
use autocontribute.Runs.Retired.{IsRetired, retire_runs-IsRetired, retire_runs-absent}

-- The manifest was read from the run's row: while the row is the one it was read from, the statuses
-- agree.
abbrev pub IsRead : Manifest → RunStore → Type 0
IsRead m s =
    (row : RunRow)
    → lookup m.run_id s.rows ≡ some row
    → row.updated_at ≡ m.updated_at
    → row.status ≡ m.status

pub data Step (s : RunStore) : RunStore → Type 0 where
  creates :
      (env : Env) (run_id : String)
      → lookup run_id s.rows ≡ none
      → Step s (create_run env run_id s).1
  saves : (env : Env) (m : Manifest) (event : Event) → IsRead m s → Step s (save env m event [] s).2
  transitions :
      (env : Env) (m : Manifest) (target : RunStatus) (reason : String) (evidence : List Event)
      → IsRead m s
      → Step s (transition env m target reason evidence s).2
  claims :
      (env : Env) (identified : Result (Unit {0})) (owner : String) (generation : ℕ) (cell : Cell)
      (authorized : Bool) (m : Manifest)
      → Step s (claim_candidate env identified owner generation cell authorized m s).2
  begins :
      (env : Env) (ledger : LedgerAnswers) (repository : String) (limit cooldown now : ℕ)
      (intent : Dict String) (m : Manifest) (p : Publications)
      → Step s (begin_publication env ledger repository limit cooldown now intent m s p).2
  merges :
      (env : Env) (ledger : LedgerAnswers) (evidence : Evidence) (reason : String) (m : Manifest)
      (p : Publications)
      → Step s (finalize_merged_publication_compensation env ledger evidence reason m s p).2
  compensates :
      (env : Env) (ledger : LedgerAnswers) (evidence : Evidence) (reason : String) (m : Manifest)
      (p : Publications)
      → Step s (finalize_publication_compensation env ledger evidence reason m s p).2
  -- a cutoff is not in the future
  recovers :
      (stale_before : ℕ) (reason : String) (limit now : ℕ) (after : RunStore)
      → stale_before ≤ now
      → recover_stale_runs stale_before reason limit now s ≡ ok after
      → Step s after
  expires :
      (ready_before : ℕ) (reason : String) (limit now : ℕ) (after : RunStore)
      → ready_before ≤ now
      → expire_ready_for_approval_runs ready_before reason limit now s ≡ ok after
      → Step s after

written-IsFollowed :
    (run_id own_id : String) (w : RunRow) (s t : RunStore) (row old : RunRow)
    → lookup own_id s.rows ≡ some row
    → t.rows ≡ insert own_id w s.rows
    → IsFollowed row w
    → lookup run_id s.rows ≡ some old
    → (now : RunRow) × (lookup run_id t.rows ≡ some now) × IsFollowed old now
written-IsFollowed run_id own_id w s t row old found written follow e =
    elim (Bool-cases (str_eq own_id run_id)) [
      | inl same ↦
          let own : own_id ≡ run_id = (eq_iff own_id run_id).0 same in
          (
            w,
            ap (lookup run_id) written ∙ lookup-insert own_id run_id w s.rows ∙ rw same,
            subst (λ r. IsFollowed r w) (cc (ap (λ k. lookup k s.rows) own)) follow,
          )
      | inr different ↦ (
        old,
        ap (lookup run_id) written ∙ lookup-insert own_id run_id w s.rows ∙ rw different e,
        record { path = inl refl; later = le_refl _ },
      )
    ]

unchanged :
    (s t : RunStore) (run_id : String) (old : RunRow)
    → t.rows ≡ s.rows
    → lookup run_id s.rows ≡ some old
    → (now : RunRow) × (lookup run_id t.rows ≡ some now) × IsFollowed old now
unchanged s t run_id old same e =
    (old, ap (lookup run_id) same ∙ e, record { path = inl refl; later = le_refl _ })

IsWritten-IsFollowed :
    (run_id own_id : String) (s t : RunStore) (old : RunRow)
    → IsWritten own_id s t
    → lookup run_id s.rows ≡ some old
    → (now : RunRow) × (lookup run_id t.rows ≡ some now) × IsFollowed old now
IsWritten-IsFollowed run_id own_id s t old (inl same) e = unchanged s t run_id old same e
IsWritten-IsFollowed run_id own_id s t old (inr (row, w, found, written, follow)) e =
    written-IsFollowed run_id own_id w s t row old found written follow e

created-IsFollowed :
    (env : Env) (new run_id : String) (s : RunStore) (old : RunRow)
    → lookup new s.rows ≡ none
    → lookup run_id s.rows ≡ some old
    → (now : RunRow) × (lookup run_id (create_run env new s).1.rows ≡ some now) × IsFollowed old now
unfolding create_run
created-IsFollowed env new run_id s old fresh e = elim (Bool-cases (str_eq new run_id)) [
  | inl same ↦ absurd (cc (ap (λ k. lookup k s.rows) ((eq_iff new run_id).0 same)))
  | inr different ↦ (
    old,
    lookup-insert new run_id _ s.rows ∙ rw different e,
    record { path = inl refl; later = le_refl _ },
  )
]

recoverable-allows :
    (status : RunStatus)
    → contains recoverable_in_flight_statuses status ≡ true
    → allows status failed ≡ true
recoverable-allows status h = ground arith

ready-allows :
    (status : RunStatus)
    → contains (ready_for_approval ∷ []) status ≡ true
    → allows status cancelled ≡ true
ready-allows status h = ground arith

retired-IsFollowed :
    (from : List RunStatus) (target : RunStatus) (old row : RunRow)
    → ((status : RunStatus) → contains from status ≡ true → allows status target ≡ true)
    → IsRetired from target old row
    → IsFollowed old row
retired-IsFollowed from target old row graph r = record {
  path = elim r.path [
    | inl same ↦ inl same
    | inr (listed, ended) ↦ inr (ap (allows old.status) ended ∙ graph old.status listed)
  ];
  later = r.later;
}

pub Step-IsFollowed :
    {s t : RunStore} (run_id : String) (old : RunRow)
    → Step s t
    → lookup run_id s.rows ≡ some old
    → (now : RunRow) × (lookup run_id t.rows ≡ some now) × IsFollowed old now
unfolding recover_stale_runs expire_ready_for_approval_runs
Step-IsFollowed {s} run_id old (creates env new fresh) e =
    created-IsFollowed env new run_id s old fresh e
Step-IsFollowed {s} run_id old (saves env m event read) e =
    let (out, m', t) = save env m event [] s in
    elim (save-cases env m event [] s) [
      | inl (refused, same_m, same) ↦ unchanged s t run_id old (ap (λ r. r.rows) same) e
      | inr (done, (row, c)) ↦
          written-IsFollowed run_id m.run_id (new_row m') s t row old c.found c.written
            (record {
              path = inl (read row c.found c.unchanged ∙ sym (ap (λ x. x.status) c.kept));
              later = omega (arith, c.unchanged, c.later);
            })
            e
    ]
Step-IsFollowed {s} run_id old (transitions env m target reason evidence read) e =
    let (out, m', t) = transition env m target reason evidence s in
    elim (transition_cases env m target reason evidence s) [
      | inl (none_asked, fine, same_m, same) ↦ unchanged s t run_id old (ap (λ r. r.rows) same) e
      | inr (inl (refused, same_m, same)) ↦ unchanged s t run_id old (ap (λ r. r.rows) same) e
      | inr (inr (done, allowed, status, (row, found, fresh, later, written, ledger))) ↦
          written-IsFollowed run_id m.run_id (new_row m') s t row old found written
            (record { path = inr (rw (read row found fresh, status) allowed); later = omega arith })
            e
    ]
Step-IsFollowed {s} {t} run_id old (claims env identified owner generation cell authorized m) e =
    IsWritten-IsFollowed run_id m.run_id s t old
      (claim_candidate-IsWritten env identified owner generation cell authorized m s) e
Step-IsFollowed {s} {t} run_id old (begins env ledger repository limit cooldown now intent m p) e =
    IsWritten-IsFollowed run_id m.run_id s t old
      (begin_publication-IsWritten env ledger repository limit cooldown now intent m s p) e
Step-IsFollowed {s} {t} run_id old (merges env ledger evidence reason m p) e =
    IsWritten-IsFollowed run_id m.run_id s t old
      (finalize_merged-IsWritten env ledger evidence reason m s p) e
Step-IsFollowed {s} {t} run_id old (compensates env ledger evidence reason m p) e =
    IsWritten-IsFollowed run_id m.run_id s t old
      (finalize_failed-IsWritten env ledger evidence reason m s p) e
Step-IsFollowed {s} {t} run_id old (recovers stale_before reason limit now after past h) e =
    let (row, found, retires) =
      retire_runs-IsRetired recoverable_in_flight_statuses failed stale_before now reason
        "run.recovered" run_id limit old s after past h e in
    (row, found, retired-IsFollowed _ failed old row recoverable-allows retires)
Step-IsFollowed {s} {t} run_id old (expires ready_before reason limit now after past h) e =
    let (row, found, retires) =
      retire_runs-IsRetired (ready_for_approval ∷ []) cancelled ready_before now reason
        "run.expired" run_id limit old s after past h e in
    (row, found, retired-IsFollowed _ cancelled old row ready-allows retires)

written-new :
    (run_id own_id : String) (w : RunRow) (s t : RunStore) (row : RunRow)
    → lookup own_id s.rows ≡ some row
    → t.rows ≡ insert own_id w s.rows
    → lookup run_id s.rows ≡ none
    → lookup run_id t.rows ≡ none
written-new run_id own_id w s t row found written e = elim (Bool-cases (str_eq own_id run_id)) [
  | inl same ↦ absurd (cc (ap (λ k. lookup k s.rows) ((eq_iff own_id run_id).0 same)))
  | inr different ↦
      ap (lookup run_id) written ∙ lookup-insert own_id run_id w s.rows ∙ rw different e
]

IsWritten-new :
    (run_id own_id : String) (s t : RunStore)
    → IsWritten own_id s t
    → lookup run_id s.rows ≡ none
    → lookup run_id t.rows ≡ none
IsWritten-new run_id own_id s t (inl same) e = ap (lookup run_id) same ∙ e
IsWritten-new run_id own_id s t (inr (row, w, found, written, follow)) e =
    written-new run_id own_id w s t row found written e

created-new :
    (env : Env) (new run_id : String) (s : RunStore) (row : RunRow)
    → lookup run_id s.rows ≡ none
    → lookup run_id (create_run env new s).1.rows ≡ some row
    → row.status ≡ queued
unfolding create_run
created-new env new run_id s row e now = elim (Bool-cases (str_eq new run_id)) [
  | inl same ↦ ground (arith, lookup-insert new run_id (new_row (create_run env new s).0) s.rows)
  | inr different ↦
      ground (arith, lookup-insert new run_id (new_row (create_run env new s).0) s.rows)
]

-- A row that a step adds is queued.
pub Step-new :
    {s t : RunStore} (run_id : String) (row : RunRow)
    → Step s t
    → lookup run_id s.rows ≡ none
    → lookup run_id t.rows ≡ some row
    → row.status ≡ queued
unfolding recover_stale_runs expire_ready_for_approval_runs
Step-new {s} run_id row (creates env new fresh) e now = created-new env new run_id s row e now
Step-new {s} run_id row (saves env m event read) e now =
    let (out, m', t) = save env m event [] s in
    elim (save-cases env m event [] s) [
      | inl (refused, same_m, same) ↦ absurd (cc (ap (λ r. lookup run_id r.rows) same))
      | inr (done, (old, c)) ↦
          absurd (cc (written-new run_id m.run_id (new_row m') s t old c.found c.written e))
    ]
Step-new {s} run_id row (transitions env m target reason evidence read) e now =
    let (out, m', t) = transition env m target reason evidence s in
    elim (transition_cases env m target reason evidence s) [
      | inl (none_asked, fine, same_m, same) ↦ absurd (cc (ap (λ r. lookup run_id r.rows) same))
      | inr (inl (refused, same_m, same)) ↦ absurd (cc (ap (λ r. lookup run_id r.rows) same))
      | inr (inr (done, allowed, status, (old, found, fresh, later, written, ledger))) ↦
          absurd (cc (written-new run_id m.run_id (new_row m') s t old found written e))
    ]
Step-new {s} {t} run_id row (claims env identified owner generation cell authorized m) e found =
    let gone =
      IsWritten-new run_id m.run_id s t
        (claim_candidate-IsWritten env identified owner generation cell authorized m s) e in
    absurd (cc)
Step-new {s} {t} run_id row (begins env ledger repository limit cooldown now intent m p) e found =
    let gone =
      IsWritten-new run_id m.run_id s t
        (begin_publication-IsWritten env ledger repository limit cooldown now intent m s p) e in
    absurd (cc)
Step-new {s} {t} run_id row (merges env ledger evidence reason m p) e found =
    let gone =
      IsWritten-new run_id m.run_id s t (finalize_merged-IsWritten env ledger evidence reason m s p)
        e in
    absurd (cc)
Step-new {s} {t} run_id row (compensates env ledger evidence reason m p) e found =
    let gone =
      IsWritten-new run_id m.run_id s t (finalize_failed-IsWritten env ledger evidence reason m s p)
        e in
    absurd (cc)
Step-new {s} run_id row (recovers stale_before reason limit now after past h) e found =
    let gone =
      retire_runs-absent recoverable_in_flight_statuses failed stale_before now reason
        "run.recovered" run_id limit s after h e in
    absurd (cc)
Step-new {s} run_id row (expires ready_before reason limit now after past h) e found =
    let gone =
      retire_runs-absent (ready_for_approval ∷ []) cancelled ready_before now reason "run.expired"
        run_id limit s after h e in
    absurd (cc)
