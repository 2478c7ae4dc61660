-- ===== src/Lease/Entered.antt =====
-- LeaseHeartbeatGuard of src/autocontribute/coordination.py, entered, used and closed with nobody
-- else at work.
use native.Mathlib.Nat.{le_refl}
use autocontribute.Base.{
  max, str_eq, ℕ, ◌+◌, ◌≤◌, is_none, String, none, some, true, false, ◌||◌, not, ◌≡◌, ◌<◌, inl, inr,
  eq_iff, arith, ap, ◌∙◌, Option-cases, Bool-cases,
}
use autocontribute.Errors.{ok, Result-cases}
use autocontribute.Lease.Cell.{
  Row, Cell, acquire, release, heartbeat, assert_lease, get_lease, owned_by, is_generation, agrees,
  acquire_free, acquire_row,
}
use autocontribute.Lease.Grants.{acquire-IsGrant}
use autocontribute.Lease.Guard.{Guard, enter, beat, close, assert_owned}

enter-cases :
    (owner : String) (ttl now : ℕ) (g : Guard) (cell : Cell)
    → (enter owner ttl now g cell).0 ≡ ok tt
    → (later : Cell) × (acquire owner now ttl cell ≡ ok (some later))
      × ((enter owner ttl now g cell).1
          ≡ record { lease = later.row; running = true; stopped = false; lost = false })
      × ((enter owner ttl now g cell).2 ≡ later)
unfolding enter
enter-cases owner ttl now g cell h = elim (Bool-cases (not (is_none g.lease) || g.running)) [
  | inl busy ↦ absurd (ground arith)
  | inr free ↦ elim (Result-cases (acquire owner now ttl cell)) [
    | inr (error, failed) ↦ absurd (ground arith)
    | inl (out, came) ↦ elim (Option-cases out) [
      | inl refused ↦ absurd (ground arith)
      | inr (later, granted) ↦ (later, came ∙ ap ok granted, ground arith, ground arith)
    ]
  ]
]

-- when the lease of a cell expires
abbrev pub expiry : Cell → ℕ
expiry cell = elim (cell.row) [ none ↦ 0 | some row ↦ row.expires_at ]

-- A guard and its lease's row over its own calls alone, with the time of the last one: it is entered,
-- and then at times that do not go back and are before the lease expires it asserts and it beats.
pub data Alone (owner : String) (ttl : ℕ) : ℕ → Guard → Cell → Type 0 where
  enters :
      (now : ℕ) (g : Guard) (cell : Cell)
      → (enter owner ttl now g cell).0 ≡ ok tt
      → Alone owner ttl now (enter owner ttl now g cell).1 (enter owner ttl now g cell).2
  asserts :
      {t : ℕ} {g : Guard} {cell : Cell} (at : ℕ)
      → Alone owner ttl t g cell
      → t ≤ at
      → at < expiry cell
      → Alone owner ttl at (assert_owned owner at g cell).1 cell
  beats :
      {t : ℕ} {g : Guard} {cell : Cell} (at : ℕ)
      → Alone owner ttl t g cell
      → t ≤ at
      → at < expiry cell
      → Alone owner ttl at (beat owner ttl at g cell).0 (beat owner ttl at g cell).1

-- The guard runs with the row that the store has.
record IsOwn (owner : String) (ttl t : ℕ) (g : Guard) (cell : Cell) (row : Row) : Type 0 where
  held : g.lease ≡ some row
  stored : cell.row ≡ some row
  own : str_eq row.owner owner ≡ true
  numbered : is_generation row.generation ≡ true
  counted : agrees cell.counter row.generation ≡ true
  beaten : row.heartbeat_at ≤ t
  lasting : 0 < ttl
  going : (g.running ≡ true) × (g.stopped ≡ false) × (g.lost ≡ false)

acquire-beaten :
    (owner : String) (now ttl : ℕ) (cell later : Cell) (row : Row)
    → acquire owner now ttl cell ≡ ok (some later)
    → later.row ≡ some row
    → (row.heartbeat_at ≤ now) × (0 < ttl)
unfolding acquire acquire_free acquire_row
acquire-beaten owner now ttl cell later row h e = elim (Option-cases (cell.row)) [
  | inl free ↦ (ground arith, ground arith)
  | inr (old, eo) ↦ (ground arith, ground arith)
]

granted_now :
    (owner : String) (ttl now : ℕ) (cell later : Cell)
    → acquire owner now ttl cell ≡ ok (some later)
    → (row : Row) × (later.row ≡ some row)
      × (str_eq row.owner owner ≡ true)
      × (is_generation row.generation ≡ true)
      × (agrees later.counter row.generation ≡ true)
      × (row.heartbeat_at ≤ now)
      × (0 < ttl)
granted_now owner ttl now cell later h =
    let (row, grant) = acquire-IsGrant owner now ttl cell later h in
    let (beaten, lasting) = acquire-beaten owner now ttl cell later row h grant.held in
    (
      row,
      grant.held,
      (eq_iff row.owner owner).1 grant.own,
      ground (arith, grant.range),
      rw grant.counted (ground (arith, grant.range)),
      beaten,
      lasting,
    )

enters-IsOwn :
    (owner : String) (ttl now : ℕ) (g : Guard) (cell : Cell)
    → (enter owner ttl now g cell).0 ≡ ok tt
    → (row : Row) × IsOwn owner ttl now
        (enter owner ttl now g cell).1
        (enter owner ttl now g cell).2
        row
enters-IsOwn owner ttl now g cell h =
    let (later, granted, held, there) = enter-cases owner ttl now g cell h in
    let (row, found, own, numbered, counted, beaten, lasting) =
      granted_now owner ttl now cell later granted in
    (
      row,
      record {
        held = ap (λ x. x.lease) held ∙ found;
        stored = ap (λ x. x.row) there ∙ found;
        own = own;
        numbered = numbered;
        counted = ap (λ x. agrees x.counter row.generation) there ∙ counted;
        beaten = beaten;
        lasting = lasting;
        going = (ap (λ x. x.running) held, ap (λ x. x.stopped) held, ap (λ x. x.lost) held);
      },
    )

own_asserts :
    (owner : String) (ttl t at : ℕ) (g : Guard) (cell : Cell) (row : Row)
    → IsOwn owner ttl t g cell row
    → at < expiry cell
    → assert_owned owner at g cell ≡ (ok row, record g { lease = some row })
unfolding assert_owned assert_lease get_lease owned_by
own_asserts owner ttl t at g cell row o until =
    ground (arith, o.held, o.stored, o.own, o.numbered, o.counted, o.going)

own_beats :
    (owner : String) (ttl t at : ℕ) (g : Guard) (cell : Cell) (row : Row)
    → IsOwn owner ttl t g cell row
    → t ≤ at
    → at < expiry cell
    → let row' = record row { heartbeat_at = at; expires_at = max row.expires_at (at + ttl) } in
      beat owner ttl at g cell ≡ (record g { lease = some row' }, record cell { row = some row' })
unfolding beat heartbeat
own_beats owner ttl t at g cell row o from until =
    ground (arith, o.held, o.stored, o.own, o.numbered, o.counted, o.going, o.beaten, o.lasting)

own_closes :
    (owner : String) (ttl t : ℕ) (g : Guard) (cell : Cell) (row : Row)
    → IsOwn owner ttl t g cell row
    → ((close owner g cell).0 ≡ ok tt) × ((close owner g cell).2.row ≡ none)
unfolding close release
own_closes owner ttl t g cell row o =
    ground (arith, o.held, o.stored, o.own, o.numbered, o.counted, o.going)

Alone-IsOwn :
    {owner : String} {ttl t : ℕ} {g : Guard} {cell : Cell}
    → Alone owner ttl t g cell
    → (row : Row) × IsOwn owner ttl t g cell row
Alone-IsOwn {owner} {ttl} (enters now g cell h) = enters-IsOwn owner ttl now g cell h
Alone-IsOwn {owner} {ttl} (asserts {t} {g} {cell} at before from until) =
    let (row, o) = Alone-IsOwn before in
    let same = own_asserts owner ttl t at g cell row o until in
    (
      row,
      record {
        held = ap (λ x. x.1.lease) same;
        stored = o.stored;
        own = o.own;
        numbered = o.numbered;
        counted = o.counted;
        beaten = omega (arith, o.beaten);
        lasting = o.lasting;
        going = (
          ap (λ x. x.1.running) same ∙ o.going.0,
          ap (λ x. x.1.stopped) same ∙ o.going.1,
          ap (λ x. x.1.lost) same ∙ o.going.2,
        );
      },
    )
Alone-IsOwn {owner} {ttl} (beats {t} {g} {cell} at before from until) =
    let (row, o) = Alone-IsOwn before in
    let same = own_beats owner ttl t at g cell row o from until in
    (
      record row { heartbeat_at = at; expires_at = max row.expires_at (at + ttl) },
      record {
        held = ap (λ x. x.0.lease) same;
        stored = ap (λ x. x.1.row) same;
        own = o.own;
        numbered = o.numbered;
        counted = ap (λ x. agrees x.1.counter row.generation) same ∙ o.counted;
        beaten = le_refl at;
        lasting = o.lasting;
        going = (
          ap (λ x. x.0.running) same ∙ o.going.0,
          ap (λ x. x.0.stopped) same ∙ o.going.1,
          ap (λ x. x.0.lost) same ∙ o.going.2,
        );
      },
    )

-- A worker that entered its guard, whose lease nobody else writes, and whose own boundaries and
-- heartbeats came at times that do not go back and before the lease expired, is never stopped by its
-- guard: at every later time before the lease expires the next boundary is passed, a heartbeat makes
-- the lease last for its time to live from then on, and closing the guard returns without an error
-- and leaves the lease free.
pub undisturbed_passes :
    (owner : String) (ttl t at : ℕ) (g : Guard) (cell : Cell)
    → Alone owner ttl t g cell
    → t ≤ at
    → at < expiry cell
    → ((row : Row) × ((assert_owned owner at g cell).0 ≡ ok row) × (cell.row ≡ some row))
      × (at + ttl ≤ expiry (beat owner ttl at g cell).1)
      × ((beat owner ttl at g cell).0.lost ≡ false)
      × ((close owner g cell).0 ≡ ok tt)
      × ((close owner g cell).2.row ≡ none)
undisturbed_passes owner ttl t at g cell alone from until =
    let (row, o) = Alone-IsOwn alone in
    let passed = own_asserts owner ttl t at g cell row o until in
    let beaten = own_beats owner ttl t at g cell row o from until in
    let (returned, free) = own_closes owner ttl t g cell row o in
    (
      (row, ap (λ x. x.0) passed, o.stored),
      rw beaten (omega arith),
      ap (λ x. x.0.lost) beaten ∙ o.going.2,
      returned,
      free,
    )
