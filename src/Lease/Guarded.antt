-- ===== src/Lease/Guarded.antt =====
-- What a worker may rely on inside a LeaseHeartbeatGuard (src/autocontribute/coordination.py), whatever
-- other workers do to the lease.
use autocontribute.Base.{
  ℕ, String, some, none, true, false, ◌||◌, not, ◌≡◌, ◌<◌, ◌⊎◌, inl, inr, arith, ap, ◌∙◌, sym,
  Option-cases, Bool-cases,
}
use autocontribute.Errors.{state_error, Error, ok, err, Result-cases}
use autocontribute.Lease.Cell.{Row, Cell, heartbeat, assert_lease, get_lease, owned_by}
use autocontribute.Lease.Grants.{assert_lease-latest}
use autocontribute.Lease.Guard.{Guard, mark_lost, assert_owned, beat}

-- One call of a guard between `__enter__` and `close`, on the rows as other workers left them.
pub data Step (owner : String) (g : Guard) : Guard → Type 0 where
  asserts : (now : ℕ) (cell : Cell) → Step owner g (assert_owned owner now g cell).1
  beats : (ttl now : ℕ) (cell : Cell) → Step owner g (beat owner ttl now g cell).0

pub data Held (owner : String) (g : Guard) : Guard → Type 0 where
  here : Held owner g g
  next : {h k : Guard} → Held owner g h → Step owner h k → Held owner g k

-- A beat changes nothing, marks the lease as lost, or takes over the row that it renewed.
beat-cases :
    (owner : String) (ttl now : ℕ) (g : Guard) (cell : Cell)
    → ((beat owner ttl now g cell).0 ≡ g)
      ⊎ ((beat owner ttl now g cell).0 ≡ mark_lost g)
      ⊎ ((row : Row) × (later : Cell) × (g.lease ≡ some row)
          × (heartbeat owner row.generation now ttl cell ≡ ok (some later))
          × ((beat owner ttl now g cell).0 ≡ record g { lease = later.row }))
unfolding beat
beat-cases owner ttl now g cell = elim (Bool-cases (g.stopped || not g.running)) [
  | inl idle ↦ inl (ground arith)
  | inr active ↦ elim (Option-cases (g.lease)) [
    | inl free ↦ inl (ground arith)
    | inr (row, e) ↦ elim (Result-cases (heartbeat owner row.generation now ttl cell)) [
      | inr (error, failed) ↦ inr (inl (ground arith))
      | inl (out, came) ↦ elim (Option-cases out) [
        | inl refused ↦ inr (inl (ground arith))
        | inr (later, granted) ↦ inr (inr (row, later, e, came ∙ ap ok granted, ground arith))
      ]
    ]
  ]
]

Step-lost : {owner : String} {g h : Guard} → Step owner g h → g.lost ≡ true → h.lost ≡ true
unfolding assert_owned
Step-lost {owner} {g} (asserts now cell) e = ground arith
Step-lost {owner} {g} (beats ttl now cell) e = elim (beat-cases owner ttl now g cell) [
  | inl same ↦ ap (λ x. x.lost) same ∙ e
  | inr (inl marked) ↦ ap (λ x. x.lost) marked
  | inr (inr (row, later, lease, came, taken)) ↦ ap (λ x. x.lost) taken ∙ e
]

Held-lost : {owner : String} {g h : Guard} → Held owner g h → g.lost ≡ true → h.lost ≡ true
Held-lost here e = e
Held-lost (next held st) e = Step-lost st (Held-lost held e)

-- A call at which the guard learns that its lease is lost: a boundary at which the store does not
-- confirm the lease, or a round of the running heartbeat that the store refuses or fails.
pub data Loss (owner : String) (g : Guard) : Guard → Type 0 where
  unconfirmed :
      (row : Row) (at : ℕ) (cell : Cell)
      → g.lease ≡ some row
      → assert_lease owner row.generation at cell ≡ err state_error
      → Loss owner g (assert_owned owner at g cell).1
  refused :
      (row : Row) (ttl at : ℕ) (cell : Cell)
      → g.lease ≡ some row
      → g.running ≡ true
      → g.stopped ≡ false
      → heartbeat owner row.generation at ttl cell ≡ ok none
      → Loss owner g (beat owner ttl at g cell).0
  raised :
      (row : Row) (ttl at : ℕ) (cell : Cell) (e : Error)
      → g.lease ≡ some row
      → g.running ≡ true
      → g.stopped ≡ false
      → heartbeat owner row.generation at ttl cell ≡ err e
      → Loss owner g (beat owner ttl at g cell).0

Loss-lost : {owner : String} {g h : Guard} → Loss owner g h → h.lost ≡ true
unfolding assert_owned beat
Loss-lost {owner} {g} (unconfirmed row at cell held answer) = elim (Bool-cases (g.lost)) [
  | inl already ↦ ground arith
  | inr safe ↦ ground arith
]
Loss-lost {owner} {g} (refused row ttl at cell held running going answer) = ground arith
Loss-lost {owner} {g} (raised row ttl at cell e held running going answer) = ground arith

-- Once a boundary inside a guard is refused because the store does not confirm the lease, or a round
-- of the guard's running heartbeat is refused or fails, no boundary inside that guard is passed
-- again: after any further boundaries and heartbeats, and whatever the store then says,
-- `assert_owned` raises StateError.
pub lost_refused :
    (owner : String) (g k h : Guard) (now : ℕ) (cell : Cell)
    → Loss owner g k
    → Held owner k h
    → (assert_owned owner now h cell).0 ≡ err state_error
unfolding assert_owned
lost_refused owner g k h now cell loss held =
    let still = Held-lost held (Loss-lost loss) in ground arith

assert_lease-generation :
    (owner : String) (g now : ℕ) (cell : Cell) (row : Row)
    → assert_lease owner g now cell ≡ ok row
    → row.generation ≡ g
unfolding assert_lease get_lease owned_by
assert_lease-generation owner g now cell row h = elim (Option-cases (cell.row)) [
  | inl free ↦ absurd (ground arith)
  | inr (old, e) ↦ ground arith
]

heartbeat-generation :
    (owner : String) (g now ttl : ℕ) (cell later : Cell) (row : Row)
    → heartbeat owner g now ttl cell ≡ ok (some later)
    → later.row ≡ some row
    → row.generation ≡ g
unfolding heartbeat
heartbeat-generation owner g now ttl cell later row h e = elim (Option-cases (cell.row)) [
  | inl free ↦ absurd (ground arith)
  | inr (old, eo) ↦ ground arith
]

-- The guard's lease, where it has one, is of the generation g.
IsOf : ℕ → Guard → Type 0
IsOf g guard = (row : Row) → guard.lease ≡ some row → row.generation ≡ g

assert_owned-cases :
    (owner : String) (now : ℕ) (g : Guard) (cell : Cell)
    → (((assert_owned owner now g cell).1.lease ≡ g.lease)
        × ((e : Error) × ((assert_owned owner now g cell).0 ≡ err e)))
      ⊎ ((row : Row) × (current : Row) × (g.lease ≡ some row)
          × (assert_lease owner row.generation now cell ≡ ok current)
          × ((assert_owned owner now g cell).0 ≡ ok current)
          × ((assert_owned owner now g cell).1.lease ≡ some current))
unfolding assert_owned
assert_owned-cases owner now g cell = elim (Option-cases (g.lease)) [
  | inl free ↦ inl (ground arith, (state_error, ground arith))
  | inr (row, e) ↦ elim (Bool-cases (g.lost)) [
    | inl lost ↦ inl (ground arith, (state_error, ground arith))
    | inr safe ↦ elim (Result-cases (assert_lease owner row.generation now cell)) [
      | inr (error, failed) ↦ inl (ground arith, (error, ground arith))
      | inl (current, owned) ↦ inr (row, current, e, owned, ground arith, ground arith)
    ]
  ]
]

Step-IsOf : {owner : String} {g h : Guard} (n : ℕ) → Step owner g h → IsOf n g → IsOf n h
unfolding IsOf
Step-IsOf {owner} {g} n (asserts now cell) of row e = elim (assert_owned-cases owner now g cell) [
  | inl (same, failed) ↦ of row (sym same ∙ e)
  | inr (old, current, eo, owned, passed, taken) ↦
      let same : current ≡ row = cc in
      ap (λ r. r.generation) (sym same)
      ∙ assert_lease-generation owner old.generation now cell current owned
      ∙ of old eo
]
Step-IsOf {owner} {g} n (beats ttl now cell) of row e = elim (beat-cases owner ttl now g cell) [
  | inl same ↦ of row (ap (λ x. x.lease) (sym same) ∙ e)
  | inr (inl marked) ↦ of row (ap (λ x. x.lease) (sym marked) ∙ e)
  | inr (inr (old, later, eo, came, taken)) ↦
      heartbeat-generation owner old.generation now ttl cell later row came
        (ap (λ x. x.lease) (sym taken) ∙ e)
      ∙ of old eo
]

Held-IsOf : {owner : String} {g h : Guard} (n : ℕ) → Held owner g h → IsOf n g → IsOf n h
Held-IsOf n here of = of
Held-IsOf n (next held st) of = Step-IsOf n st (Held-IsOf n held of)

-- A work boundary that is passed inside a guard was passed with the lease in hand: when
-- `assert_owned` returns, the store's row is the one returned, of this owner, not expired, and of
-- the very generation that the guard was entered with, whatever happened to the lease in between.
pub boundary_fenced :
    (owner : String) (g h : Guard) (now : ℕ) (cell : Cell) (entered row : Row)
    → g.lease ≡ some entered
    → Held owner g h
    → (assert_owned owner now h cell).0 ≡ ok row
    → (cell.row ≡ some row)
      × (row.owner ≡ owner)
      × (now < row.expires_at)
      × (row.generation ≡ entered.generation)
unfolding IsOf
boundary_fenced owner g h now cell entered row e held passed =
    elim (assert_owned-cases owner now h cell) [
      | inl (same, (error, failed)) ↦ absurd (cc)
      | inr (old, current, eo, owned, returned, taken) ↦
          let same : current ≡ row = cc in
          let (counted, there, own, live) =
            assert_lease-latest owner old.generation now cell current owned in
          let from : old.generation ≡ entered.generation =
            Held-IsOf entered.generation held (λ r er. cc) old eo in
          let kept = assert_lease-generation owner old.generation now cell current owned in
          (cc, cc, ground arith, cc)
    ]
