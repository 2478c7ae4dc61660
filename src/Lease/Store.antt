-- ===== src/Lease/Store.antt =====
-- The tables `leases` and `lease_generations`, keyed by lease name, and the operations on them.
use autocontribute.Base.{
  ℕ, String, Option, none, some, ◌≡◌, refl, true, false, Bool, arith, str_eq, eq_iff, [],
  if◌then◌else◌,
}
use autocontribute.Base.Dict.{Dict, lookup, insert, erase, lookup-insert, lookup-erase}
use autocontribute.Errors.{Result, ok, err}
use autocontribute.Lease.Grants.{acquire-IsGrant, heartbeat-quiet, release-quiet}
use autocontribute.Lease.Cell.{Row, Cell, acquire, heartbeat, release}

pub record Tables : Type 0 where
  pub leases : Dict Row
  pub lease_generations : Dict ℕ

-- Lease
pub record Lease : Type 0 where
  pub name : String
  pub owner : String
  pub generation : ℕ
  pub expires_at : ℕ

-- the rows that the SELECTs for a lease name read
abbrev pub cell_of : String → Tables → Cell
cell_of name tables = record {
  row = lookup name tables.leases;
  counter = lookup name tables.lease_generations;
}

abbrev write_row : String → Option Row → Dict Row → Dict Row
write_row name none leases = erase name leases
write_row name (some row) leases = insert name row leases

abbrev write_counter : String → Option ℕ → Dict ℕ → Dict ℕ
write_counter name none counters = counters
write_counter name (some g) counters = insert name g counters

-- the INSERT, UPDATE and DELETE statements of an operation that changed a lease name's rows
unfoldable pub write : String → Cell → Tables → Tables
write name cell tables = record {
  leases = write_row name cell.row tables.leases;
  lease_generations = write_counter name cell.counter tables.lease_generations;
}

-- The transaction commits what the operation returned, and a raise rolls it back.
abbrev pub commit : String → Result (Option Cell) → Tables → Result (Option Cell) × Tables
commit name (err e) tables = (err e, tables)
commit name (ok none) tables = (ok none, tables)
commit name (ok (some cell)) tables = (ok (some cell), write name cell tables)

lease_of_row : String → Option Row → Option Lease
lease_of_row name none = none
lease_of_row name (some row) = some (record {
  name = name;
  owner = row.owner;
  generation = row.generation;
  expires_at = row.expires_at;
})

lease_of : String → Result (Option Cell) → Result (Option Lease)
unfolding lease_of_row
lease_of name (err e) = err e
lease_of name (ok none) = ok none
lease_of name (ok (some cell)) = ok (lease_of_row name cell.row)

unfoldable pub acquire_lease : String → String → ℕ → ℕ → Tables → Result (Option Lease) × Tables
unfolding lease_of
acquire_lease name owner now ttl tables =
    let (out, after) = commit name (acquire owner now ttl (cell_of name tables)) tables in
    (lease_of name out, after)

unfoldable pub heartbeat_lease :
    String → String → ℕ → ℕ → ℕ → Tables → Result (Option Lease) × Tables
unfolding lease_of
heartbeat_lease name owner generation now ttl tables =
    let (out, after) =
      commit name (heartbeat owner generation now ttl (cell_of name tables)) tables in
    (lease_of name out, after)

abbrev released : Result (Option Cell) → Result Bool
released (err e) = err e
released (ok none) = ok false
released (ok (some _)) = ok true

unfoldable pub release_lease : String → String → ℕ → Tables → Result Bool × Tables
release_lease name owner generation tables =
    let (out, after) = commit name (release owner generation (cell_of name tables)) tables in
    (released out, after)

-- RunStore.release_all_leases
unfoldable pub release_all_leases : Tables → Tables
release_all_leases tables = record tables { leases = [] }

lookup-write_row :
    (name other : String) (row : Option Row) (leases : Dict Row)
    → lookup other (write_row name row leases)
      ≡ (if str_eq name other then row else lookup other leases)
lookup-write_row name other none leases = lookup-erase name other leases
lookup-write_row name other (some row) leases = lookup-insert name other row leases

lookup-write_counter :
    (name other : String) (counter : Option ℕ) (counters : Dict ℕ)
    → (counter ≡ none → lookup name counters ≡ none)
    → lookup other (write_counter name counter counters)
      ≡ (if str_eq name other then counter else lookup other counters)
lookup-write_counter name other none counters kept =
    let gone = kept refl in ground (arith, eq_iff name other)
lookup-write_counter name other (some g) counters kept = lookup-insert name other g counters

-- the rows of a lease after an operation on them
abbrev pub applied : Result (Option Cell) → Cell → Cell
applied (err e) cell = cell
applied (ok none) cell = cell
applied (ok (some later)) cell = later

-- An operation on one lease's rows, committed: its own rows are what it returned, and every other
-- lease's rows are as they were.
cell_of-commit :
    (name other : String) (out : Result (Option Cell)) (tables : Tables)
    → ((later : Cell)
        → out ≡ ok (some later)
        → later.counter ≡ none
        → lookup name tables.lease_generations ≡ none)
    → cell_of other (commit name out tables).1
      ≡ (if str_eq name other then applied out (cell_of name tables) else cell_of other tables)
unfolding write
cell_of-commit name other (err e) tables kept = ground (arith, eq_iff name other)
cell_of-commit name other (ok none) tables kept = ground (arith, eq_iff name other)
cell_of-commit name other (ok (some later)) tables kept = ground (
  arith,
  lookup-write_row name other later.row tables.leases,
  lookup-write_counter name other later.counter tables.lease_generations (kept later refl),
)

-- Each operation of the store on a lease is the operation on that lease's rows, and leaves the rows
-- of every other lease as they were.
operations_refine :
    (name other owner : String) (generation now ttl : ℕ) (tables : Tables)
    → (cell_of other (acquire_lease name owner now ttl tables).1 ≡ (
        if str_eq name other
        then applied (acquire owner now ttl (cell_of name tables)) (cell_of name tables)
        else cell_of other tables))
      × (cell_of other (heartbeat_lease name owner generation now ttl tables).1 ≡ (
          if str_eq name other
          then applied
              (heartbeat owner generation now ttl (cell_of name tables))
              (cell_of name tables)
          else cell_of other tables))
      × (cell_of other (release_lease name owner generation tables).1 ≡ (
          if str_eq name other
          then applied (release owner generation (cell_of name tables)) (cell_of name tables)
          else cell_of other tables))
      × (cell_of other (release_all_leases tables) ≡ record (cell_of other tables) { row = none })
unfolding acquire_lease heartbeat_lease release_lease release_all_leases
operations_refine name other owner generation now ttl tables =
    let cell = cell_of name tables in
    (
      cell_of-commit name other (acquire owner now ttl cell) tables (λ later e gone.
          let (row, grant) = acquire-IsGrant owner now ttl cell later e in
          absurd (cc (grant.counted))),
      cell_of-commit name other (heartbeat owner generation now ttl cell) tables
          (λ later e gone. cc ((heartbeat-quiet owner generation now ttl cell later e).0)),
      cell_of-commit name other (release owner generation cell) tables
          (λ later e gone. cc ((release-quiet owner generation cell later e).0)),
      refl,
    )
