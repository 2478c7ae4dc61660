-- ===== src/Publications/Capacity.antt =====
-- What the ledger's reservations keep over any sequence of calls: the daily limit and the cooldown of
-- each repository, also when rows of the table were lost (src/autocontribute/store.py).
use autocontribute.Base.{
  ℕ, ◌+◌, ◌*◌, ◌/◌, ◌≤◌, ◌<◌, String, some, Bool, true, List, [], ◌∷◌, ◌++◌, length, keep, ltb, ◌≡◌,
  inl, inr, ap, sym, ◌∙◌, arith, All, Bool-cases, subst,
}
use autocontribute.Errors.{ok}
use autocontribute.Publications.Reservations.{
  Reservation, Request, Publications, LedgerAnswers, day, reservation_request, find_reservation,
  is_within, reservation_of, reserve_publication,
}
use autocontribute.Publications.Reconciled.{one_if}
use autocontribute.Publications.Consumed.{
  Reach, unpublished, reserves, disturbs, reserve-IsConsumed,
}

-- What a request says, for the limit, the cooldown and the time it was made from.
record IsRequest (limit cooldown now : ℕ) (request : Request) : Type 0 where
  limited : request.max_per_utc_day ≡ limit
  timed : request.reserved_at ≡ now
  starts : request.day_start ≡ now / day * day
  ends : request.day_end ≡ now / day * day + day
  cools : request.cooldown_start + cooldown ≡ now
  enforces : request.enforce_cooldown ≡ ltb 0 cooldown

request-IsRequest :
    (run_id repository : String) (limit cooldown now : ℕ) (request : Request)
    → reservation_request run_id repository limit cooldown now ≡ ok request
    → IsRequest limit cooldown now request
unfolding reservation_request
request-IsRequest run_id repository limit cooldown now request h = record {
  limited = ground arith;
  timed = ground arith;
  starts = ground arith;
  ends = ground arith;
  cools = ground arith;
  enforces = ground arith;
}

length-keep-snoc :
    (p : Reservation → Bool) (rs : List Reservation) (e : Reservation)
    → length (keep p (rs ++ e ∷ [])) ≡ length (keep p rs) + one_if (p e)
length-keep-snoc p [] e = ground arith
length-keep-snoc p (r ∷ rs) e = let ih = length-keep-snoc p rs e in ground arith

-- the reservations of one UTC day
abbrev pub in_day : ℕ → Reservation → Bool
in_day d = is_within (d * day) (d * day + day)

day-start : (d now : ℕ) → d * day ≤ now → now < d * day + day → now / day ≡ d
day-start d now after before = omega (arith, after, before)

-- The daily limit holds in the ledger: after any sequence of calls with one limit, in whatever order
-- the clock's times come, no UTC day has more reservations recorded than the limit, whatever
-- happened to the rows of the table in between.
pub daily_limit_kept :
    (max_per_utc_day repository_cooldown : ℕ) (p : Publications) (d : ℕ)
    → Reach max_per_utc_day repository_cooldown p
    → length (keep (in_day d) p.events) ≤ max_per_utc_day
daily_limit_kept limit cooldown p d (unpublished rows runs) = omega arith
daily_limit_kept limit cooldown p d (disturbs {before} r rows runs) =
    daily_limit_kept limit cooldown before d r
daily_limit_kept limit cooldown p d
      (reserves {before} r env run_id repository now request x after made reserved) =
    let ih = daily_limit_kept limit cooldown before d r in
    elim (reserve-IsConsumed env request before after x reserved) [
      | inl (same, found, row) ↦ subst (λ es. length (keep (in_day d) es) ≤ limit) (sym same) ih
      | inr (consumed, own) ↦
          let asked = request-IsRequest run_id repository limit cooldown now request made in
          let e = reservation_of request in
          let grown =
            ap (λ es. length (keep (in_day d) es)) consumed.recorded
            ∙ length-keep-snoc (in_day d) before.events e in
          let daily = consumed.daily in
          elim (Bool-cases (in_day d e)) [
            | inr elsewhere ↦ ground (arith, grown, ih)
            | inl today ↦
                let that_day =
                  day-start d now (ground (arith, asked.timed)) (ground (arith, asked.timed)) in
                let starts : request.day_start ≡ d * day =
                  asked.starts ∙ ap (λ n. n * day) that_day in
                let ends : request.day_end ≡ d * day + day =
                  asked.ends ∙ ap (λ n. n * day + day) that_day in
                let fewer : length (keep (in_day d) before.events) < limit =
                  subst (λ q. length (keep q before.events) < limit)
                    (ap (λ n. is_within n request.day_end) starts ∙ ap (is_within (d * day)) ends)
                    (subst
                      (λ n.
                        length (keep (is_within request.day_start request.day_end) before.events)
                        < n)
                      asked.limited consumed.daily) in
                ground (arith, grown, fewer)
          ]
    ]

-- of two reservations of one repository, the one recorded later is at least the cooldown after
abbrev pub IsSpaced : ℕ → List Reservation → Type 0
IsSpaced cooldown [] = Unit
IsSpaced cooldown (e ∷ es) =
    All (λ f. f.repository ≡ e.repository → e.reserved_at + cooldown ≤ f.reserved_at) es
    × IsSpaced cooldown es

All-snoc :
    (P : Reservation → Type 0) (es : List Reservation) (f : Reservation)
    → All P es
    → P f
    → All P (es ++ f ∷ [])
All-snoc P [] f before own = (own, tt)
All-snoc P (e ∷ es) f (p, before) own = (p, All-snoc P es f before own)

IsSpaced-snoc :
    (cooldown start : ℕ) (es : List Reservation) (f : Reservation)
    → start + cooldown ≡ f.reserved_at
    → IsSpaced cooldown es
    → All (λ e. e.repository ≡ f.repository → e.reserved_at ≤ start) es
    → IsSpaced cooldown (es ++ f ∷ [])
IsSpaced-snoc cooldown start [] f time spaced cooled = (tt, tt)
IsSpaced-snoc cooldown start (e ∷ es) f time (own, spaced) (c, cooled) = (
  All-snoc _ es f own (λ same. omega (arith, c (sym same), time)),
  IsSpaced-snoc cooldown start es f time spaced cooled,
)

-- The cooldown holds in the ledger: after any sequence of calls with one cooldown that is not zero,
-- of any two reservations of one repository the one recorded later was made at least the cooldown
-- after the earlier, whatever happened to the rows of the table in between.
pub cooldown_kept :
    (max_per_utc_day repository_cooldown : ℕ) (p : Publications)
    → 0 < repository_cooldown
    → Reach max_per_utc_day repository_cooldown p
    → IsSpaced repository_cooldown p.events
cooldown_kept limit cooldown p some_time (unpublished rows runs) = tt
cooldown_kept limit cooldown p some_time (disturbs {before} r rows runs) =
    cooldown_kept limit cooldown before some_time r
cooldown_kept limit cooldown p some_time
      (reserves {before} r env run_id repository now request x after made reserved) =
    let ih = cooldown_kept limit cooldown before some_time r in
    elim (reserve-IsConsumed env request before after x reserved) [
      | inl (same, found, row) ↦ subst (IsSpaced cooldown) (sym same) ih
      | inr (consumed, own) ↦
          let asked = request-IsRequest run_id repository limit cooldown now request made in
          let enforced : request.enforce_cooldown ≡ true =
            asked.enforces ∙ ground (arith, some_time) in
          subst (IsSpaced cooldown) (sym consumed.recorded) (
            IsSpaced-snoc cooldown request.cooldown_start before.events (reservation_of request)
              (asked.cools ∙ sym asked.timed) ih (consumed.cooled enforced))
    ]

-- A run's reservation is made once: if the ledger records one for the run, a call that returns
-- returns that one, records nothing more, and has brought its row back if it was lost.
pub reserved_once :
    (env : LedgerAnswers) (request : Request) (p after : Publications) (e r : Reservation)
    → find_reservation request.run_id p.events ≡ some e
    → reserve_publication env request p ≡ ok (r, after)
    → (r ≡ e) × (after.events ≡ p.events) × (find_reservation request.run_id after.rows ≡ some e)
reserved_once env request p after e r known h = elim (reserve-IsConsumed env request p after r h) [
  | inl (same, found, row) ↦ (cc, same, row ∙ sym found ∙ known)
  | inr (consumed, own) ↦ absurd (cc (consumed.fresh))
]
