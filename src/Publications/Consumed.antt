-- ===== src/Publications/Consumed.antt =====
-- What the ledger's reservations keep over any sequence of calls: the daily limit and the cooldown of
-- each repository, also when rows of the table were lost (src/autocontribute/store.py).
use autocontribute.Base.{
  ℕ, ◌≤◌, ◌<◌, String, Option, none, some, Bool, true, false, List, [], ◌∷◌, ◌++◌, length, keep,
  any, str_eq, eq_iff, is_none, ◌≡◌, ◌⊎◌, inl, inr, ap, sym, ◌∙◌, arith, All, Bool-cases,
  Option-cases,
}
use autocontribute.Base.Dict.{Dict, lookup}
use autocontribute.Errors.{ok, Result-cases}
use autocontribute.Publications.Reservations.{
  Reservation, Request, Publications, LedgerAnswers, reservation_request, find_reservation,
  reconcile_publication_state, is_within, cools, reservation_of, consume, reserve_publication,
}
use autocontribute.Publications.Reconciled.{IsCovered, reconcile-IsReconciled, covered-le}

-- Calls of one configuration; between them the rows and the runs may change in any way, the ledger
-- only by the calls.
pub data Reach (max_per_utc_day repository_cooldown : ℕ) : Publications → Type 0 where
  unpublished :
      (rows : List Reservation) (runs : Dict (Option String))
      → Reach max_per_utc_day repository_cooldown (record { rows = rows; events = []; runs = runs })
  reserves :
      {before : Publications}
      → Reach max_per_utc_day repository_cooldown before
      → (env : LedgerAnswers) (run_id repository : String) (now : ℕ) (request : Request)
        (r : Reservation) (after : Publications)
      → reservation_request run_id repository max_per_utc_day repository_cooldown now ≡ ok request
      → reserve_publication env request before ≡ ok (r, after)
      → Reach max_per_utc_day repository_cooldown after
  disturbs :
      {before : Publications}
      → Reach max_per_utc_day repository_cooldown before
      → (rows : List Reservation) (runs : Dict (Option String))
      → Reach max_per_utc_day repository_cooldown (record before { rows = rows; runs = runs })

-- A reservation that consumed capacity: there was some, and the cooldown was over.
pub record IsConsumed (request : Request) (p after : Publications) : Type 0 where
  pub fresh : find_reservation request.run_id p.events ≡ none
  pub recorded : after.events ≡ p.events ++ reservation_of request ∷ []
  pub daily :
      length (keep (is_within request.day_start request.day_end) p.events) < request.max_per_utc_day
  pub cooled :
      request.enforce_cooldown ≡ true
      → All
          (λ e. e.repository ≡ request.repository → e.reserved_at ≤ request.cooldown_start)
          p.events

found-any :
    (p : Reservation → Bool) (rows : List Reservation) (k : String) (e : Reservation)
    → any p rows ≡ false
    → find_reservation k rows ≡ some e
    → p e ≡ false
found-any p [] k e clear h = absurd (cc)
found-any p (r ∷ rows) k e clear h = elim (Bool-cases (str_eq r.run_id k)) [
  | inl hit ↦ let same : r ≡ e = ground arith in let truth = ap p same in ground arith
  | inr miss ↦ found-any p rows k e (ground arith) (ground arith)
]

find_reservation-id :
    (k : String) (rs : List Reservation) (r : Reservation)
    → find_reservation k rs ≡ some r
    → r.run_id ≡ k
find_reservation-id k [] r h = absurd (cc)
find_reservation-id k (x ∷ rs) r h = elim (Bool-cases (str_eq x.run_id k)) [
  | inl hit ↦
      let same : x ≡ r = ground arith in
      ap (λ y. y.run_id) (sym same) ∙ ground (arith, eq_iff x.run_id k)
  | inr miss ↦ find_reservation-id k rs r (ground arith)
]

covered-found :
    (k : String) (es rows : List Reservation) (e : Reservation)
    → IsCovered es rows
    → find_reservation k es ≡ some e
    → find_reservation k rows ≡ some e
covered-found k [] rows e covered h = absurd (cc)
covered-found k (x ∷ es) rows e (own, covered) h = elim (Bool-cases (str_eq x.run_id k)) [
  | inl hit ↦
      let same : x ≡ e = ground arith in
      let name : x.run_id ≡ k = ground (arith, eq_iff x.run_id k) in
      ap (λ j. find_reservation j rows) (sym name) ∙ own ∙ ap some same
  | inr miss ↦ covered-found k es rows e covered (ground arith)
]

covered-none :
    (k : String) (es rows : List Reservation)
    → IsCovered es rows
    → find_reservation k rows ≡ none
    → find_reservation k es ≡ none
covered-none k es rows covered gone = elim (Option-cases (find_reservation k es)) [
  | inl missing ↦ missing
  | inr (e, known) ↦ let there = covered-found k es rows e covered known in absurd (cc)
]

-- a row of a run that the ledger records is the one it records
recorded-found :
    (k : String) (es rows : List Reservation) (r : Reservation)
    → IsCovered es rows
    → any (λ x. is_none (find_reservation x.run_id es)) rows ≡ false
    → find_reservation k rows ≡ some r
    → find_reservation k es ≡ some r
recorded-found k es rows r covered recorded found =
    let id = find_reservation-id k rows r found in
    elim (Option-cases (find_reservation k es)) [
      | inl missing ↦
          let known =
            found-any (λ x. is_none (find_reservation x.run_id es)) rows k r recorded found in
          let gone : is_none (find_reservation r.run_id es) ≡ true =
            ap (λ j. is_none (find_reservation j es)) id ∙ ap is_none missing in
          absurd (cc)
      | inr (e, known) ↦ known ∙ sym (covered-found k es rows e covered known) ∙ found
    ]

cooled-covered :
    (request : Request) (es rows : List Reservation)
    → any (cools request) rows ≡ false
    → IsCovered es rows
    → All (λ e. e.repository ≡ request.repository → e.reserved_at ≤ request.cooldown_start) es
cooled-covered request [] rows none_cools covered = tt
cooled-covered request (e ∷ es) rows none_cools (own, covered) = (
  λ same.
      let free = found-any (cools request) rows e.run_id e none_cools own in
      ground (arith, eq_iff e.repository request.repository),
  cooled-covered request es rows none_cools covered,
)

pub reserve-IsConsumed :
    (env : LedgerAnswers) (request : Request) (p after : Publications) (r : Reservation)
    → reserve_publication env request p ≡ ok (r, after)
    → ((after.events ≡ p.events)
        × (find_reservation request.run_id p.events ≡ some r)
        × (find_reservation request.run_id after.rows ≡ some r))
      ⊎ (IsConsumed request p after × (r ≡ reservation_of request))
unfolding reserve_publication consume
reserve-IsConsumed env request p after r h =
    elim (Result-cases (reconcile_publication_state true env p)) [
      | inr (x, failed) ↦ absurd (ground arith)
      | inl (q, reconciled) ↦
          let done = reconcile-IsReconciled env p q reconciled in
          let kept = done.events_kept in
          elim (Option-cases (lookup request.run_id q.runs)) [
            | inl unknown ↦ absurd (ground arith)
            | inr (repository, known) ↦
                elim (Option-cases (find_reservation request.run_id q.rows)) [
                  | inr (existing, found) ↦
                      let same : existing ≡ r = ground arith in
                      inl (
                        ground arith,
                        recorded-found request.run_id p.events q.rows existing done.covered
                              done.recorded found
                            ∙ ap some same,
                        ground arith,
                      )
                  | inl fresh ↦ elim (Result-cases env.appended) [
                    | inr (x, failed) ↦ absurd (ground arith)
                    | inl (u, appended) ↦
                        let fewer =
                          covered-le (is_within request.day_start request.day_end) p.events q.rows
                            done.distinct done.covered in
                        inr (
                          record {
                            fresh = covered-none request.run_id p.events q.rows done.covered fresh;
                            recorded = ground arith;
                            daily = ground arith;
                            cooled = λ enforced.
                                cooled-covered request p.events q.rows (ground arith) done.covered;
                          },
                          ground arith,
                        )
                  ]
                ]
          ]
    ]
