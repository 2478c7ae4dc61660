-- ===== src/Publications/Reservations.antt =====
-- The table `publication_reservations`, its reconciliation with the ledger's `publication.reserved` events,
-- and reserve_publication. Run ids and repositories stand as `_lease_identity` and
-- `_repository_identity` returned them; times are in microseconds since datetime.min.
use autocontribute.Base.{
  ℕ, ◌+◌, ◌-◌, ◌*◌, ◌/◌, String, Option, none, some, Bool, true, false, not, ◌&&◌, ◌||◌, List, [],
  ◌∷◌, ◌++◌, length, keep, any, str_eq, leb, ltb, ◌==◌, is_none, if◌then◌else◌,
}
use autocontribute.Base.Dict.{Dict, lookup}
use autocontribute.Errors.{value_error, state_error, Result, ok, err, ◌>>=◌, ◌>>◌, raise_if}

-- PublicationReservation and _PublicationReservationEvidence
pub record Reservation : Type 0 where
  pub run_id : String
  pub repository : String
  pub reserved_at : ℕ

-- _PublicationReservationRequest
pub record Request : Type 0 where
  pub run_id : String
  pub repository : String
  pub max_per_utc_day : ℕ
  pub reserved_at : ℕ
  pub day_start : ℕ
  pub day_end : ℕ
  pub cooldown_start : ℕ
  pub enforce_cooldown : Bool

-- the rows of the table, the reservations that the ledger's events record, and each run's repository
pub record Publications : Type 0 where
  pub rows : List Reservation
  pub events : List Reservation
  pub runs : Dict (Option String)

-- what the ledger answers: to the verification of all anchors, and to the append of an event
pub record LedgerAnswers : Type 0 where
  pub verified : Result (Unit {0})
  pub appended : Result (Unit {0})

abbrev pub day : ℕ
day = 24 * 60 * 60 * 1_000_000

-- _publication_reservation_request
unfoldable pub reservation_request : String → String → ℕ → ℕ → ℕ → Result Request
reservation_request run_id repository max_per_utc_day repository_cooldown now = do
  raise_if (max_per_utc_day == 0 || ltb 1_000 max_per_utc_day) value_error
  raise_if (ltb now repository_cooldown) value_error
  let day_start = now / day * day
  ok (record {
    run_id = run_id;
    repository = repository;
    max_per_utc_day = max_per_utc_day;
    reserved_at = now;
    day_start = day_start;
    day_end = day_start + day;
    cooldown_start = now - repository_cooldown;
    enforce_cooldown = ltb 0 repository_cooldown;
  })

abbrev pub find_reservation : String → List Reservation → Option Reservation
find_reservation run_id [] = none
find_reservation run_id (r ∷ rs) =
    if str_eq r.run_id run_id then some r else find_reservation run_id rs

abbrev pub is_distinct : List Reservation → Bool
is_distinct [] = true
is_distinct (r ∷ rs) = is_none (find_reservation r.run_id rs) && is_distinct rs

-- _MAX_RUN_CORPUS
abbrev max_run_corpus : ℕ
max_run_corpus = 10_000

-- _publication_evidence_from_connection and _bounded_publication_rows: a bound, and no run twice
unfoldable pub bounded : List Reservation → Result (List Reservation)
bounded rs = do
  raise_if (ltb max_run_corpus (length rs)) state_error
  raise_if (not (is_distinct rs)) state_error
  ok rs

abbrev pub same_reservation : Reservation → Reservation → Bool
same_reservation r e =
    str_eq r.run_id e.run_id && (str_eq r.repository e.repository && r.reserved_at == e.reserved_at)

-- the first loop of _reconcile_publication_state: the rows after the events
unfoldable pub repair : Bool → List Reservation → List Reservation → Result (List Reservation)
repair repair_missing [] rows = ok rows
repair repair_missing (e ∷ es) rows = elim (find_reservation e.run_id rows) [
  | none ↦ if repair_missing then repair repair_missing es (rows ++ e ∷ []) else err state_error
  | some r ↦ if same_reservation r e then repair repair_missing es rows else err state_error
]

-- _reconcile_publication_state
unfoldable pub reconcile_publication_state :
    Bool → LedgerAnswers → Publications → Result Publications
reconcile_publication_state repair_missing env p =
    env.verified
    >> (bounded p.events >>= λ events.
        (bounded p.rows >>= λ before.
        (repair repair_missing events before >>= λ rows.
        (raise_if (any (λ r. is_none (find_reservation r.run_id events)) rows) state_error
          >> ok (record p { rows = rows })))))

abbrev pub is_within : ℕ → ℕ → Reservation → Bool
is_within day_start day_end r = leb day_start r.reserved_at && ltb r.reserved_at day_end

-- a reservation of this repository since the cooldown's start
abbrev pub cools : Request → Reservation → Bool
cools request r = str_eq r.repository request.repository && ltb request.cooldown_start r.reserved_at

abbrev other_repository : String → Option String → Bool
other_repository repository none = false
other_repository repository (some own) = not (str_eq own repository)

abbrev pub reservation_of : Request → Reservation
reservation_of request = record {
  run_id = request.run_id;
  repository = request.repository;
  reserved_at = request.reserved_at;
}

-- the capacity checks and the two writes
unfoldable pub consume :
    LedgerAnswers → Request → Publications → Result (Reservation × Publications)
consume env request p = do
  raise_if
      (leb request.max_per_utc_day
        (length (keep (is_within request.day_start request.day_end) p.rows)))
      state_error
  raise_if (request.enforce_cooldown && any (cools request) p.rows) state_error
  env.appended
  ok (
    reservation_of request,
    record p {
      rows = p.rows ++ reservation_of request ∷ [];
      events = p.events ++ reservation_of request ∷ [];
    },
  )

-- RunStore._reserve_publication_in_transaction
unfoldable pub reserve_publication :
    LedgerAnswers → Request → Publications → Result (Reservation × Publications)
reserve_publication env request p = reconcile_publication_state true env p >>= λ q.
    (elim (lookup request.run_id q.runs) [
      | none ↦ err state_error
      | some repository ↦
          raise_if (other_repository request.repository repository) state_error
          >> (elim (find_reservation request.run_id q.rows) [
            | some existing ↦
                raise_if (not (str_eq existing.repository request.repository)) state_error
                >> ok (existing, q)
            | none ↦ consume env request q
          ])
    ])
