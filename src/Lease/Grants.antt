-- ===== src/Lease/Grants.antt =====
-- What a single operation on a lease does: the facts that the reachability proofs rest on.
use autocontribute.Base.{
  ℕ, ◌+◌, ◌≤◌, ◌<◌, ◌≡◌, refl, ◌⊎◌, inl, inr, String, Option, none, some, arith, max, eq_iff,
  Option-cases, Bool-cases, leb, ap, ◌∙◌,
}
use autocontribute.Errors.{ok, Result-cases}
use autocontribute.Lease.Cell.{
  Row, Cell, max_generation, new_row, acquire_free, acquire_row, acquire, heartbeat, release,
  assert_lease,
}

-- the highest generation handed out so far
abbrev pub issued_up_to : Option ℕ → ℕ
issued_up_to none = 0
issued_up_to (some g) = g

-- A held lease carries the latest generation, which is a generation.
pub record IsFenced (cell : Cell) : Type 0 where
  pub current : (row : Row) → cell.row ≡ some row → cell.counter ≡ some (row.generation)
  pub in_range : (g : ℕ) → cell.counter ≡ some g → (1 ≤ g) × (g ≤ max_generation)

-- What a grant to `owner` does: it hands out the next generation, or extends the owner's own lease
-- in place.
pub record IsGrant (owner : String) (cell later : Cell) (row : Row) : Type 0 where
  pub held : later.row ≡ some row
  pub own : row.owner ≡ owner
  pub counted : later.counter ≡ some (row.generation)
  pub range : (1 ≤ row.generation) × (row.generation ≤ max_generation)
  pub fresh :
      (row.generation ≡ issued_up_to cell.counter + 1)
      ⊎ ((old : Row) × (cell.row ≡ some old)
          × (old.owner ≡ owner)
          × (old.generation ≡ row.generation))

acquire_free-IsGrant :
    (owner : String) (now ttl : ℕ) (cell later : Cell)
    → acquire_free owner now ttl cell.counter ≡ ok later
    → (row : Row) × IsGrant owner cell later row
unfolding acquire_free
acquire_free-IsGrant owner now ttl cell later h = elim (Option-cases (cell.counter)) [
  | inl unused ↦ (new_row owner 1 now ttl, ground arith)
  | inr (g, e) ↦ (new_row owner (g + 1) now ttl, ground arith)
]

acquire_row-IsGrant :
    (owner : String) (now ttl : ℕ) (old : Row) (cell later : Cell)
    → cell.row ≡ some old
    → cell.counter ≡ some (old.generation)
    → (1 ≤ old.generation) × (old.generation ≤ max_generation)
    → acquire_row owner now ttl old ≡ ok (some later)
    → (row : Row) × IsGrant owner cell later row
unfolding acquire_row
acquire_row-IsGrant owner now ttl old cell later er ec range h =
    elim (Bool-cases (leb old.expires_at now)) [
      | inl expired ↦
          (new_row owner (old.generation + 1) now ttl, ground (arith, eq_iff old.owner owner))
      | inr live ↦ (
        record old { heartbeat_at = now; expires_at = max old.expires_at (now + ttl) },
        record {
          held = ground (arith, eq_iff old.owner owner);
          own = ground (arith, eq_iff old.owner owner);
          counted = ground (arith, eq_iff old.owner owner);
          range = range;
          fresh = inr (old, er, ground (arith, eq_iff old.owner owner), refl);
        },
      )
    ]

pub acquire-IsGrant :
    (owner : String) (now ttl : ℕ) (cell later : Cell)
    → acquire owner now ttl cell ≡ ok (some later)
    → (row : Row) × IsGrant owner cell later row
unfolding acquire
acquire-IsGrant owner now ttl cell later h = elim (Option-cases (cell.row)) [
  | inl free ↦ elim (Result-cases (acquire_free owner now ttl cell.counter)) [
    | inl (granted, e) ↦ acquire_free-IsGrant owner now ttl cell later (e ∙ ap ok (ground arith))
    | inr (e, refused) ↦ absurd (ground arith)
  ]
  | inr (old, e) ↦
      acquire_row-IsGrant owner now ttl old cell later e (ground arith) (ground arith)
        (ground arith)
]

-- A heartbeat and a release let the counter be, and the row they leave is the owner's own.
pub heartbeat-quiet :
    (owner : String) (generation now ttl : ℕ) (cell later : Cell)
    → heartbeat owner generation now ttl cell ≡ ok (some later)
    → (later.counter ≡ cell.counter)
      × ((row : Row)
          → later.row ≡ some row
          → (old : Row) × (cell.row ≡ some old)
            × (old.owner ≡ row.owner)
            × (old.generation ≡ row.generation))
unfolding heartbeat
heartbeat-quiet owner generation now ttl cell later h = elim (Option-cases (cell.row)) [
  | inl free ↦ absurd (ground arith)
  | inr (old, e) ↦ (ground arith, λ row er. (old, e, ground arith, ground arith))
]

pub release-quiet :
    (owner : String) (generation : ℕ) (cell later : Cell)
    → release owner generation cell ≡ ok (some later)
    → (later.counter ≡ cell.counter) × (later.row ≡ none)
unfolding release
release-quiet owner generation cell later h = ground arith

-- Only the latest generation is ever confirmed.
pub assert_lease-latest :
    (owner : String) (g now : ℕ) (cell : Cell) (row : Row)
    → assert_lease owner g now cell ≡ ok row
    → (cell.counter ≡ some g) × (cell.row ≡ some row) × (row.owner ≡ owner) × (now < row.expires_at)
unfolding assert_lease
assert_lease-latest owner g now cell row h = elim (Option-cases (cell.row)) [
  | inl free ↦ absurd (ground arith)
  | inr (old, e) ↦ ground (arith, eq_iff old.owner owner)
]
