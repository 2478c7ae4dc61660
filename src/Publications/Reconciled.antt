-- ===== src/Publications/Reconciled.antt =====
-- After a reconciliation with the ledger the rows hold every reservation of the ledger, so that what is
-- counted over the rows bounds what the ledger records.
use autocontribute.Base.{
  ℕ, ◌+◌, ◌≤◌, String, none, some, Bool, true, false, List, [], ◌∷◌, ◌++◌, length, keep, any,
  str_eq, eq_iff, is_none, if◌then◌else◌, ◌≡◌, inl, inr, refl, ap, sym, ◌∙◌, arith, All, Bool-cases,
  Option-cases, subst,
}
use autocontribute.Errors.{ok, Result-cases}
use autocontribute.Publications.Reservations.{
  Reservation, Publications, LedgerAnswers, find_reservation, is_distinct, bounded,
  same_reservation, repair, reconcile_publication_state,
}

same_reservation→≡ : (r e : Reservation) → same_reservation r e ≡ true → r ≡ e
same_reservation→≡ r e h =
    let run : r.run_id ≡ e.run_id = ground (arith, eq_iff r.run_id e.run_id) in
    let repository : r.repository ≡ e.repository =
      ground (arith, eq_iff r.repository e.repository) in
    let time : r.reserved_at ≡ e.reserved_at = ground arith in cc

find_reservation-append :
    (k : String) (rs : List Reservation) (e x : Reservation)
    → find_reservation k rs ≡ some x
    → find_reservation k (rs ++ e ∷ []) ≡ some x
find_reservation-append k [] e x h = absurd (cc)
find_reservation-append k (r ∷ rs) e x h = elim (Bool-cases (str_eq r.run_id k)) [
  | inl hit ↦ ground arith
  | inr miss ↦ let ih = find_reservation-append k rs e x (ground arith) in ground arith
]

find_reservation-last :
    (rs : List Reservation) (e : Reservation)
    → find_reservation e.run_id rs ≡ none
    → find_reservation e.run_id (rs ++ e ∷ []) ≡ some e
find_reservation-last [] e h = ground (arith, eq_iff e.run_id e.run_id)
find_reservation-last (r ∷ rs) e h = elim (Bool-cases (str_eq r.run_id e.run_id)) [
  | inl hit ↦ absurd (ground arith)
  | inr miss ↦ let ih = find_reservation-last rs e (ground arith) in ground arith
]

-- what the rows hold of the events
abbrev pub IsCovered : List Reservation → List Reservation → Type 0
IsCovered es rows = All (λ e. find_reservation e.run_id rows ≡ some e) es

repair-kept :
    (es rows after : List Reservation) (k : String) (x : Reservation)
    → repair true es rows ≡ ok after
    → find_reservation k rows ≡ some x
    → find_reservation k after ≡ some x
unfolding repair
repair-kept [] rows after k x h found = ground arith
repair-kept (e ∷ es) rows after k x h found = elim (Option-cases (find_reservation e.run_id rows)) [
  | inl missing ↦
      repair-kept es (rows ++ e ∷ []) after k x (ground arith)
        (find_reservation-append k rows e x found)
  | inr (r, known) ↦ elim (Bool-cases (same_reservation r e)) [
    | inl same ↦ repair-kept es rows after k x (ground arith) found
    | inr other ↦ absurd (ground arith)
  ]
]

repair-IsCovered :
    (es rows after : List Reservation) → repair true es rows ≡ ok after → IsCovered es after
unfolding repair
repair-IsCovered [] rows after h = tt
repair-IsCovered (e ∷ es) rows after h = elim (Option-cases (find_reservation e.run_id rows)) [
  | inl missing ↦
      let rest : repair true es (rows ++ e ∷ []) ≡ ok after = ground arith in
      (
        repair-kept es (rows ++ e ∷ []) after e.run_id e rest
            (find_reservation-last rows e missing),
        repair-IsCovered es (rows ++ e ∷ []) after rest,
      )
  | inr (r, known) ↦ elim (Bool-cases (same_reservation r e)) [
    | inr other ↦ absurd (ground arith)
    | inl same ↦
        let rest : repair true es rows ≡ ok after = ground arith in
        (
          repair-kept es rows after e.run_id e rest (known ∙ ap some (same_reservation→≡ r e same)),
          repair-IsCovered es rows after rest,
        )
  ]
]

-- What a reconciliation that succeeded did.
pub record IsReconciled (p q : Publications) : Type 0 where
  pub events_kept : q.events ≡ p.events
  pub runs_kept : q.runs ≡ p.runs
  pub distinct : is_distinct p.events ≡ true
  pub covered : IsCovered p.events q.rows
  pub recorded : any (λ r. is_none (find_reservation r.run_id p.events)) q.rows ≡ false

pub reconcile-IsReconciled :
    (env : LedgerAnswers) (p q : Publications)
    → reconcile_publication_state true env p ≡ ok q
    → IsReconciled p q
unfolding reconcile_publication_state bounded
reconcile-IsReconciled env p q h = elim (Result-cases env.verified) [
  | inr (x, failed) ↦ absurd (ground arith)
  | inl (u, verified) ↦ elim (Result-cases (repair true p.events p.rows)) [
    | inr (x, failed) ↦ absurd (ground arith)
    | inl (rows, repaired) ↦
        let same : q ≡ record p { rows = rows } = ground arith in
        record {
          events_kept = ap (λ x. x.events) same;
          runs_kept = ap (λ x. x.runs) same;
          distinct = ground arith;
          covered =
              subst (IsCovered p.events) (sym (ap (λ x. x.rows) same))
                (repair-IsCovered p.events p.rows rows repaired);
          recorded = ground arith;
        }
  ]
]

-- the rows without the first of a run
abbrev without : String → List Reservation → List Reservation
without k [] = []
without k (r ∷ rs) = if str_eq r.run_id k then rs else r ∷ without k rs

find_reservation-without :
    (k j : String) (rs : List Reservation)
    → str_eq k j ≡ false
    → find_reservation j (without k rs) ≡ find_reservation j rs
find_reservation-without k j [] other = refl
find_reservation-without k j (r ∷ rs) other =
    let ih = find_reservation-without k j rs other in
    ground (arith, eq_iff r.run_id k, eq_iff r.run_id j, eq_iff k j)

abbrev pub one_if : Bool → ℕ
one_if true = 1
one_if false = 0

length-keep-without :
    (p : Reservation → Bool) (rs : List Reservation) (k : String) (e : Reservation)
    → find_reservation k rs ≡ some e
    → length (keep p rs) ≡ one_if (p e) + length (keep p (without k rs))
length-keep-without p [] k e h = absurd (cc)
length-keep-without p (r ∷ rs) k e h = elim (Bool-cases (str_eq r.run_id k)) [
  | inl hit ↦ let same : r ≡ e = ground arith in let truth = ap p same in ground arith
  | inr miss ↦ let ih = length-keep-without p rs k e (ground arith) in ground arith
]

IsCovered-without :
    (k : String) (es rows : List Reservation)
    → find_reservation k es ≡ none
    → IsCovered es rows
    → IsCovered es (without k rows)
IsCovered-without k [] rows gone covered = tt
IsCovered-without k (e ∷ es) rows gone (own, covered) = elim (Bool-cases (str_eq e.run_id k)) [
  | inl hit ↦ absurd (ground arith)
  | inr other ↦ (
    find_reservation-without k e.run_id rows (ground (arith, eq_iff e.run_id k, eq_iff k e.run_id))
        ∙ own,
    IsCovered-without k es rows (ground arith) covered,
  )
]

-- At least as many rows as events satisfy a test.
pub covered-le :
    (p : Reservation → Bool) (es rows : List Reservation)
    → is_distinct es ≡ true
    → IsCovered es rows
    → length (keep p es) ≤ length (keep p rows)
covered-le p [] rows distinct covered = omega arith
covered-le p (e ∷ es) rows distinct (own, covered) =
    let gone : find_reservation e.run_id es ≡ none = ground arith in
    let ih =
      covered-le p es (without e.run_id rows) (ground arith)
        (IsCovered-without e.run_id es rows gone covered) in
    let counted = length-keep-without p rows e.run_id e own in ground arith
