-- ===== src/Runs/Written.antt =====
-- What the calls that claim an issue, begin a publication and end one do to the rows of `runs`.
use autocontribute.Base.{
  ℕ, ◌≤◌, String, some, true, false, Bool, List, [], ◌∷◌, sym, ◌≡◌, ◌⊎◌, inl, inr, refl, arith, ap,
  ◌∙◌, Option-cases, Bool-cases, ◌||◌,
}
use autocontribute.Base.Dict.{Dict, lookup, insert}
use autocontribute.Errors.{Result, ok, Result-cases}
use autocontribute.Publications.Reservations.{
  Request, Publications, LedgerAnswers, reservation_request, reserve_publication,
}
use autocontribute.Runs.Status.{RunStatus, submitting, approved, pr_open, failed, allows, status_eq}
use autocontribute.Runs.Store.{
  Candidate, transitioned, other, new_row, Manifest, Event, RunRow, RunStore, Env, saved_at,
}
use autocontribute.Runs.Saving.{status_eq-eq}
use autocontribute.Lease.Cell.{Cell}
use autocontribute.Runs.Publish.{
  is_unchanged, begin_row, intent_recorded, intents_of, repositories, rewritten, begun_store,
  begin_publication, Evidence, finalize, merged_row, failed_row,
  finalize_merged_publication_compensation, finalize_publication_compensation,
}
use autocontribute.Runs.Claim.{is_claimable, claim_row, claim_candidate}

-- What one step does to a run's row.
pub record IsFollowed (old row : RunRow) : Type 0 where
  pub path : (old.status ≡ row.status) ⊎ (allows old.status row.status ≡ true)
  pub later : old.updated_at ≤ row.updated_at

-- A call on a run leaves every row alone, or writes that run's row, which was there.
abbrev pub IsWritten : String → RunStore → RunStore → Type 0
IsWritten run_id s t =
    (t.rows ≡ s.rows)
    ⊎ ((row : RunRow) × (written : RunRow) × (lookup run_id s.rows ≡ some row)
        × (t.rows ≡ insert run_id written s.rows)
        × IsFollowed row written)

is_unchanged-eq :
    (m : Manifest) (row : RunRow)
    → is_unchanged m row ≡ true
    → (row.status ≡ m.status) × (row.updated_at ≡ m.updated_at)
unfolding is_unchanged
is_unchanged-eq m row h = (status_eq-eq row.status m.status (ground arith), ground arith)

begin_row-cases :
    (env : Env) (ledger : LedgerAnswers) (repository : String) (request : Request)
    (intent : Dict String) (m : Manifest) (row : RunRow) (s : RunStore) (p : Publications)
    (m' : Manifest) (t : RunStore) (q : Publications)
    → begin_row env ledger repository request intent m row s p ≡ ok ((m', t), q)
    → (is_unchanged m row ≡ true)
      × ((t.rows ≡ s.rows)
          ⊎ ((status_eq m.status submitting ≡ false)
              × ((w : RunRow) × (t.rows ≡ insert m.run_id w s.rows)
                  × (w.status ≡ submitting)
                  × (w.updated_at ≡ saved_at env m))))
unfolding begin_row
begin_row-cases env ledger repository request intent m row s p m' t q h =
    let resumed = status_eq m.status submitting in
    elim (Result-cases (intent_recorded resumed repository intent (intents_of m.run_id s.ledger))) [
      | inr (e, refused) ↦ absurd (ground arith)
      | inl (recorded, read) ↦
          elim (Result-cases
            (reserve_publication ledger request (record p { runs = repositories s.rows }))) [
              | inr (e, refused) ↦ absurd (ground arith)
              | inl (reserved, granted) ↦ (
                ground arith,
                elim (Bool-cases resumed) [
                  | inl again ↦ inl (ground arith)
                  | inr first ↦ inr (
                    first,
                    (
                      rewritten ((begun_store env repository intent m row s).0) row,
                      ground arith,
                      refl,
                      refl,
                    ),
                  )
                ],
              )
            ]
    ]

finalize-cases :
    (ledger : LedgerAnswers) (evidence : Evidence) (m : Manifest)
    (update : RunRow → Manifest × RunRow) (events : List Event) (s : RunStore) (p : Publications)
    (m' : Manifest) (t : RunStore) (q : Publications)
    → finalize ledger evidence m update events s p ≡ ok ((m', t), q)
    → (status_eq m.status submitting ≡ true)
      × ((row : RunRow) × (lookup m.run_id s.rows ≡ some row)
          × (is_unchanged m row ≡ true)
          × (t.rows ≡ insert m.run_id (update row).1 s.rows))
unfolding finalize
finalize-cases ledger evidence m update events s p m' t q h =
    elim (Option-cases (lookup m.run_id s.rows)) [
      | inl missing ↦ absurd (ground arith)
      | inr (row, found) ↦ (ground arith, (row, found, ground arith, ground arith))
    ]

claim_row-cases :
    (env : Env) (authorized : Bool) (m : Manifest) (c : Candidate) (row : RunRow) (s : RunStore)
    (m' : Manifest) (t : RunStore)
    → claim_row env authorized m c row s ≡ ok (m', t)
    → (is_claimable m row ≡ true)
      × ((w : RunRow) × (t.rows ≡ insert m.run_id w s.rows)
          × (w.status ≡ row.status)
          × (w.updated_at ≡ saved_at env m))
unfolding claim_row
claim_row-cases env authorized m c row s m' t h = (
  ground arith,
  (
    record (new_row (record m { updated_at = saved_at env m })) { status = row.status },
    ground arith,
    refl,
    refl,
  ),
)

saved_at-after : (env : Env) (m : Manifest) → m.updated_at ≤ saved_at env m
saved_at-after env m = ground arith

changed-IsFollowed :
    (env : Env) (m : Manifest) (row w : RunRow) (target : RunStatus)
    → is_unchanged m row ≡ true
    → allows m.status target ≡ true
    → w.status ≡ target
    → w.updated_at ≡ saved_at env m
    → IsFollowed row w
changed-IsFollowed env m row w target unchanged allowed status time =
    let (same, stamp) = is_unchanged-eq m row unchanged in
    record {
      path = inr (rw (same, status) allowed);
      later = rw (stamp, time) (saved_at-after env m);
    }

pub begin_publication-IsWritten :
    (env : Env) (ledger : LedgerAnswers) (repository : String) (limit cooldown now : ℕ)
    (intent : Dict String) (m : Manifest) (s : RunStore) (p : Publications)
    → IsWritten m.run_id s
        (begin_publication env ledger repository limit cooldown now intent m s p).2
unfolding begin_publication
begin_publication-IsWritten env ledger repository limit cooldown now intent m s p =
    elim (Result-cases (reservation_request m.run_id repository limit cooldown now)) [
      | inr (e, refused) ↦ inl (ground arith)
      | inl (request, asked) ↦ elim (Option-cases (lookup m.run_id s.rows)) [
        | inl missing ↦ inl (ground arith)
        | inr (row, found) ↦
            elim (Result-cases (begin_row env ledger repository request intent m row s p)) [
              | inr (e, refused) ↦ inl (ground arith)
              | inl (((m', t), q), done) ↦
                  let out =
                    begin_publication env ledger repository limit cooldown now intent m s p in
                  let outcome : (out.2 ≡ s)
                      ⊎ ((out.2 ≡ t)
                          × ((status_eq m.status approved || status_eq m.status submitting)
                              ≡ true)) =
                    ground arith in
                  let (unchanged, writes) =
                    begin_row-cases env ledger repository request intent m row s p m' t q done in
                  elim outcome [
                    | inl same ↦ inl (ap (λ x. x.rows) same)
                    | inr (stored, listed) ↦ elim writes [
                      | inl quiet ↦ inl (ap (λ x. x.rows) stored ∙ quiet)
                      | inr (first, (w, rows, status, time)) ↦
                          let from : m.status ≡ approved =
                            status_eq-eq m.status approved (ground arith) in
                          inr (
                            row,
                            w,
                            found,
                            ap (λ x. x.rows) stored ∙ rows,
                            changed-IsFollowed env m row w submitting unchanged (rw from refl)
                                status time,
                          )
                    ]
                  ]
            ]
      ]
    ]

pub finalize_merged-IsWritten :
    (env : Env) (ledger : LedgerAnswers) (evidence : Evidence) (reason : String) (m : Manifest)
    (s : RunStore) (p : Publications)
    → IsWritten m.run_id s
        (finalize_merged_publication_compensation env ledger evidence reason m s p).2
unfolding finalize_merged_publication_compensation
finalize_merged-IsWritten env ledger evidence reason m s p =
    let events = transitioned submitting pr_open reason ∷ [] in
    elim (Result-cases (finalize ledger evidence m (merged_row env m) events s p)) [
      | inr (e, refused) ↦ inl (ground arith)
      | inl (((m', t), q), done) ↦
          let (from, (row, found, unchanged, rows)) =
            finalize-cases ledger evidence m (merged_row env m) events s p m' t q done in
          inr (
            row,
            (merged_row env m row).1,
            found,
            ground (arith, rows),
            changed-IsFollowed env m row ((merged_row env m row).1) pr_open unchanged
                (rw (status_eq-eq m.status submitting from) refl) refl refl,
          )
    ]

pub finalize_failed-IsWritten :
    (env : Env) (ledger : LedgerAnswers) (evidence : Evidence) (reason : String) (m : Manifest)
    (s : RunStore) (p : Publications)
    → IsWritten m.run_id s (finalize_publication_compensation env ledger evidence reason m s p).2
unfolding finalize_publication_compensation
finalize_failed-IsWritten env ledger evidence reason m s p =
    let events =
      other "publication.compensation.verified" ∷ transitioned submitting failed reason ∷ [] in
    elim (Result-cases (finalize ledger evidence m (failed_row env m) events s p)) [
      | inr (e, refused) ↦ inl (ground arith)
      | inl (((m', t), q), done) ↦
          let (from, (row, found, unchanged, rows)) =
            finalize-cases ledger evidence m (failed_row env m) events s p m' t q done in
          inr (
            row,
            (failed_row env m row).1,
            found,
            ground (arith, rows),
            changed-IsFollowed env m row ((failed_row env m row).1) failed unchanged
                (rw (status_eq-eq m.status submitting from) refl) refl refl,
          )
    ]

claimed-IsFollowed :
    (env : Env) (m : Manifest) (row w : RunRow)
    → is_claimable m row ≡ true
    → w.status ≡ row.status
    → w.updated_at ≡ saved_at env m
    → IsFollowed row w
unfolding is_claimable
claimed-IsFollowed env m row w claimable status time =
    let stamp : row.updated_at ≡ m.updated_at = ground arith in
    record { path = inl (sym status); later = rw (stamp, time) (saved_at-after env m) }

pub claim_candidate-IsWritten :
    (env : Env) (identified : Result (Unit {0})) (owner : String) (generation : ℕ) (cell : Cell)
    (authorized : Bool) (m : Manifest) (s : RunStore)
    → IsWritten m.run_id s (claim_candidate env identified owner generation cell authorized m s).2
unfolding claim_candidate
claim_candidate-IsWritten env identified owner generation cell authorized m s =
    elim (Option-cases (m.candidate)) [
      | inl missing ↦ inl (ground arith)
      | inr (c, chosen) ↦ elim (Option-cases (lookup m.run_id s.rows)) [
        | inl missing ↦ inl (ground arith)
        | inr (row, found) ↦ elim (Result-cases (claim_row env authorized m c row s)) [
          | inr (e, refused) ↦ inl (ground arith)
          | inl ((m', t), done) ↦
              let out = claim_candidate env identified owner generation cell authorized m s in
              let outcome : (out.2 ≡ s) ⊎ (out.2 ≡ t) = ground arith in
              let (claimable, (w, rows, status, time)) =
                claim_row-cases env authorized m c row s m' t done in
              elim outcome [
                | inl same ↦ inl (ap (λ x. x.rows) same)
                | inr stored ↦ inr (
                  row,
                  w,
                  found,
                  ap (λ x. x.rows) stored ∙ rows,
                  claimed-IsFollowed env m row w claimable status time,
                )
              ]
        ]
      ]
    ]
