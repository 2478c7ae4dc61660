-- ===== src/Runs/Begun.antt =====
-- What RunStore.begin_publication of src/autocontribute/store.py promises: all of the publication's
-- intent, its capacity and its status are stored, or none.
use autocontribute.Base.{
  ℕ, String, none, some, true, false, List, [], ◌∷◌, ◌++◌, ◌≡◌, ◌⊎◌, inl, inr, refl, arith, ap, ◌∙◌,
  sym, Option-cases, Bool-cases, ◌||◌, eq_iff,
}
use autocontribute.Base.Dict.{Dict, lookup, lookup-insert}
use autocontribute.Errors.{Error, Result, ok, err, state_error, artifact_sync_error, Result-cases}
use autocontribute.Publications.Reservations.{
  Reservation, Request, Publications, LedgerAnswers, reservation_request, reserve_publication,
  find_reservation, reservation_of,
}
use autocontribute.Publications.Consumed.{reserve-IsConsumed}
use autocontribute.Runs.Status.{approved, submitting, status_eq}
use autocontribute.Runs.Store.{Manifest, transitioned, begun, RunRow, RunStore, Env}
use autocontribute.Runs.Saving.{status_eq-eq}
use autocontribute.Runs.Publish.{
  begin_row, begin_publication, intent_recorded, intents_of, repositories, rewritten, begun_store,
  is_unchanged,
}

find_reservation-snoc :
    (k : String) (rs : List Reservation) (r : Reservation)
    → find_reservation k rs ≡ none
    → r.run_id ≡ k
    → find_reservation k (rs ++ r ∷ []) ≡ some r
find_reservation-snoc k [] r fresh own = ground (arith, eq_iff r.run_id k)
find_reservation-snoc k (x ∷ rs) r fresh own =
    ground (arith, find_reservation-snoc k rs r (ground arith) own)

request_of :
    (run_id repository : String) (limit cooldown now : ℕ) (request : Request)
    → reservation_request run_id repository limit cooldown now ≡ ok request
    → request.run_id ≡ run_id
unfolding reservation_request
request_of run_id repository limit cooldown now request h = ground arith

-- A reservation that was taken is in the ledger.
reserved_in_ledger :
    (ledger : LedgerAnswers) (request : Request) (p q : Publications) (r : Reservation)
    → reserve_publication ledger request p ≡ ok (r, q)
    → find_reservation request.run_id q.events ≡ some r
reserved_in_ledger ledger request p q r h = elim (reserve-IsConsumed ledger request p q r h) [
  | inl (same, found, row) ↦ ap (find_reservation request.run_id) same ∙ found
  | inr (consumed, own) ↦
      ap (find_reservation request.run_id) consumed.recorded
      ∙ find_reservation-snoc request.run_id p.events (reservation_of request) consumed.fresh refl
      ∙ ap some (sym own)
]

-- The run's row is submitting, its reservation is in the ledger, and an approved run has its change of
-- status and its intent recorded last.
pub record IsBegun (repository : String) (intent : Dict String) (m m' : Manifest) (s t : RunStore)
    (q : Publications) : Type 0 where
  pub from : (m.status ≡ approved) ⊎ (m.status ≡ submitting)
  pub to : m'.status ≡ submitting
  pub stored : (row : RunRow) × (lookup m.run_id t.rows ≡ some row) × (row.status ≡ submitting)
  pub reserved : (r : Reservation) × (find_reservation m.run_id q.events ≡ some r)
  pub recorded :
      (m.status ≡ submitting)
      ⊎ (t.ledger
          ≡ s.ledger
            ++ (
              m.run_id,
              transitioned m.status submitting "authorized publication intent persisted",
            )
              ∷ (m.run_id, begun repository intent)
              ∷ [])

begin_row-IsBegun :
    (env : Env) (ledger : LedgerAnswers) (repository : String) (request : Request)
    (intent : Dict String) (m : Manifest) (row : RunRow) (s : RunStore) (p : Publications)
    (m' : Manifest) (t : RunStore) (q : Publications)
    → request.run_id ≡ m.run_id
    → lookup m.run_id s.rows ≡ some row
    → (m.status ≡ approved) ⊎ (m.status ≡ submitting)
    → begin_row env ledger repository request intent m row s p ≡ ok ((m', t), q)
    → IsBegun repository intent m m' s t q
unfolding begin_row intent_recorded is_unchanged
begin_row-IsBegun env ledger repository request intent m row s p m' t q own found from h =
    let resumed = status_eq m.status submitting in
    let seen = record p { runs = repositories s.rows } in
    elim (Result-cases (intent_recorded resumed repository intent (intents_of m.run_id s.ledger))) [
      | inr (e, refused) ↦ absurd (ground arith)
      | inl (recorded, read) ↦ elim (Result-cases (reserve_publication ledger request seen)) [
        | inr (e, refused) ↦ absurd (ground arith)
        | inl ((r, q'), granted) ↦
            let kept : q' ≡ q = ground arith in
            let taken = reserved_in_ledger ledger request seen q' r granted in
            let held : find_reservation m.run_id q.events ≡ some r =
              ap (λ k. find_reservation k q.events) (sym own)
              ∙ ap (λ x. find_reservation request.run_id x.events) (sym kept)
              ∙ taken in
            elim (Bool-cases resumed) [
              | inl again ↦
                  let is_submitting : m.status ≡ submitting =
                    status_eq-eq m.status submitting again in
                  let rows : t.rows ≡ s.rows = ground arith in
                  let same : m' ≡ m = ground arith in
                  let unchanged : row.status ≡ m.status =
                    status_eq-eq row.status m.status (ground arith) in
                  record {
                    from = from;
                    to = ap (λ x. x.status) same ∙ is_submitting;
                    stored = (row, ap (lookup m.run_id) rows ∙ found, unchanged ∙ is_submitting);
                    reserved = (r, held);
                    recorded = inl is_submitting;
                  }
              | inr first ↦
                  let begun_now = begun_store env repository intent m row s in
                  let same : m' ≡ begun_now.0 = ground arith in
                  let stored : t ≡ begun_now.1 = ground arith in
                  let w : RunRow = rewritten begun_now.0 row in
                  record {
                    from = from;
                    to = ap (λ x. x.status) same;
                    stored = (
                      w,
                      ap (λ x. lookup m.run_id x.rows) stored
                          ∙ lookup-insert m.run_id m.run_id w s.rows
                          ∙ rw ((eq_iff m.run_id m.run_id).1 refl) refl,
                      refl,
                    );
                    reserved = (r, held);
                    recorded = inr (ap (λ x. x.ledger) stored);
                  }
            ]
      ]
    ]

approved_or_submitting :
    (m : Manifest)
    → (status_eq m.status approved || status_eq m.status submitting) ≡ true
    → (m.status ≡ approved) ⊎ (m.status ≡ submitting)
approved_or_submitting m h = elim (Bool-cases (status_eq m.status approved)) [
  | inl yet ↦ inl (status_eq-eq m.status approved yet)
  | inr begun_before ↦ inr (status_eq-eq m.status submitting (ground arith))
]

-- A call raised and left all as it was.
abbrev IsRaised :
    Manifest
    → RunStore
    → Publications
    → Result (Unit {0}) × Manifest × RunStore × Publications
    → Type 0
IsRaised m s p x = (e : Error) × (x.0 ≡ err e) × (x.1 ≡ m) × (x.2 ≡ s) × (x.3 ≡ p)

raises :
    (m : Manifest) (s : RunStore) (p : Publications) (e : Error)
    (x : Result (Unit {0}) × Manifest × RunStore × Publications)
    → x ≡ (err e, m, s, p)
    → IsRaised m s p x
raises m s p e x h = (e, ap (λ y. y.0) h, ap (λ y. y.1) h, ap (λ y. y.2) h, ap (λ y. y.3) h)

-- A call of `begin_publication` either raises and leaves the manifest, the run's row, the ledger and
-- the publications as they were, or was made for a run that was approved or submitting, and begins its
-- publication: afterwards the manifest and the run's row are submitting, the ledger has a reservation
-- of the run, and for a run that was approved the ledger ends with its change of status and its
-- intent. A call that begins a publication returns, or raises the error of the manifest's file where
-- that could not be written.
pub begin_publication_cases :
    (env : Env) (ledger : LedgerAnswers) (repository : String) (limit cooldown now : ℕ)
    (intent : Dict String) (m : Manifest) (s : RunStore) (p : Publications)
    → let (out, m', t, q) =
        begin_publication env ledger repository limit cooldown now intent m s p in
      ((e : Error) × (out ≡ err e) × (m' ≡ m) × (t ≡ s) × (q ≡ p))
      ⊎ (((out ≡ ok tt) ⊎ ((out ≡ err artifact_sync_error) × (env.artifact_written ≡ false)))
          × IsBegun repository intent m m' s t q)
unfolding begin_publication
begin_publication_cases env ledger repository limit cooldown now intent m s p =
    let x = begin_publication env ledger repository limit cooldown now intent m s p in
    elim (Bool-cases (status_eq m.status approved || status_eq m.status submitting)) [
      | inr neither ↦ inl (raises m s p state_error x (ground arith))
      | inl listed ↦
          elim (Result-cases (reservation_request m.run_id repository limit cooldown now)) [
            | inr (e, refused) ↦ inl (raises m s p e x (ground arith))
            | inl (request, asked) ↦ elim (Option-cases (lookup m.run_id s.rows)) [
              | inl missing ↦ inl (raises m s p state_error x (ground arith))
              | inr (row, found) ↦
                  elim (Result-cases (begin_row env ledger repository request intent m row s p)) [
                    | inr (e, refused) ↦
                        let outcome : (x ≡ (err state_error, m, s, p)) ⊎ (x ≡ (err e, m, s, p)) =
                          ground arith in
                        elim outcome [
                          | inl early ↦ inl (raises m s p state_error x early)
                          | inr late ↦ inl (raises m s p e x late)
                        ]
                    | inl (((m', t), q), done) ↦
                        let from : (m.status ≡ approved) ⊎ (m.status ≡ submitting) =
                          approved_or_submitting m listed in
                        let begins =
                          begin_row-IsBegun env ledger repository request intent m row s p m' t q
                            (request_of m.run_id repository limit cooldown now request asked) found
                            from done in
                        let outcome : (x ≡ (err state_error, m, s, p))
                            ⊎ ((x.1 ≡ m')
                                × (x.2 ≡ t)
                                × (x.3 ≡ q)
                                × ((x.0 ≡ ok tt)
                                    ⊎ ((x.0 ≡ err artifact_sync_error)
                                        × (env.artifact_written ≡ false)))) =
                          ground arith in
                        elim outcome [
                          | inl early ↦ inl (raises m s p state_error x early)
                          | inr (same_m, same_s, same_p, ends) ↦
                              inr (ends, rw (same_m, same_s, same_p) begins)
                        ]
                  ]
            ]
          ]
    ]
