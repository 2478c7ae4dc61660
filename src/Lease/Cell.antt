-- ===== src/Lease/Cell.antt =====
-- The rows of one lease name, in `leases` and in `lease_generations`, and each operation on them.
-- An operation runs in one write transaction (BEGIN IMMEDIATE), so the checks of UPDATE's row count
-- cannot fail and are left out. Names and owners stand as `_lease_identity` normalised them, and
-- times are unbounded numbers, so `_lease_expiry` never overflows.
use autocontribute.Base.{
  ℕ, ◌+◌, ◌-◌, ◌^◌, max, String, Option, none, some, Bool, false, not, ◌&&◌, ◌||◌, str_eq, ltb, leb,
  ◌==◌, if◌then◌else◌,
}
use autocontribute.Errors.{value_error, state_error, Result, ok, err}

-- a row of `leases`
pub record Row : Type 0 where
  pub owner : String
  pub generation : ℕ
  pub acquired_at : ℕ
  pub heartbeat_at : ℕ
  pub expires_at : ℕ

-- the row of `leases` and the generation of `lease_generations`, where there are such rows
pub record Cell : Type 0 where
  pub row : Option Row
  pub counter : Option ℕ

abbrev pub max_generation : ℕ
max_generation = 2 ^ 63 - 1

-- `_stored_generation` accepts it
abbrev pub is_generation : ℕ → Bool
is_generation g = leb 1 g && leb g max_generation

-- The counter row is there, and agrees with the lease's generation.
abbrev pub agrees : Option ℕ → ℕ → Bool
agrees none generation = false
agrees (some g) generation = is_generation g && g == generation

abbrev pub new_row : String → ℕ → ℕ → ℕ → Row
new_row owner generation now ttl = record {
  owner = owner;
  generation = generation;
  acquired_at = now;
  heartbeat_at = now;
  expires_at = now + ttl;
}

abbrev pub put : Row → Cell
put row = record { row = some row; counter = some (row.generation) }

-- no row of `leases`: the counter starts at 1 or goes up by one
unfoldable pub acquire_free : String → ℕ → ℕ → Option ℕ → Result Cell
acquire_free owner now ttl none = ok (put (new_row owner 1 now ttl))
acquire_free owner now ttl (some prior) =
    if not (is_generation prior)
    then err state_error
    else (if leb max_generation prior
        then err state_error
        else ok (put (new_row owner (prior + 1) now ttl)))

-- a row of `leases` whose counter agrees; `none` refuses contention
unfoldable pub acquire_row : String → ℕ → ℕ → Row → Result (Option Cell)
acquire_row owner now ttl row =
    if not (str_eq row.owner owner) && ltb now row.expires_at
    then ok none
    else (if leb row.expires_at now
        then (if leb max_generation row.generation
            then err state_error
            else ok (some (put (new_row owner (row.generation + 1) now ttl))))
        else (if not (str_eq row.owner owner) || ltb now row.heartbeat_at
            then ok none
            else ok (
                some (
                  put (record row {
                    heartbeat_at = now;
                    expires_at = max row.expires_at (now + ttl);
                  })))))

-- RunStore.acquire_lease: the rows after a grant, `none` where the lease is refused
unfoldable pub acquire : String → ℕ → ℕ → Cell → Result (Option Cell)
unfolding acquire_free acquire_row
acquire owner now ttl cell = if ttl == 0 then err value_error else elim (cell.row) [
  | none ↦ elim (acquire_free owner now ttl cell.counter) [
    | ok granted ↦ ok (some granted)
    | err e ↦ err e
  ]
  | some row ↦
      if not (is_generation row.generation) || not (agrees cell.counter row.generation)
      then err state_error
      else acquire_row owner now ttl row
]

-- RunStore.heartbeat_lease
unfoldable pub heartbeat : String → ℕ → ℕ → ℕ → Cell → Result (Option Cell)
heartbeat owner generation now ttl cell =
    if not (is_generation generation) || ttl == 0 then err value_error else elim (cell.row) [
      | none ↦ ok none
      | some row ↦
          if not (is_generation row.generation) || not (agrees cell.counter row.generation)
          then err state_error
          else (if not (str_eq row.owner owner)
                || not (row.generation == generation)
                || leb row.expires_at now
                || ltb now row.heartbeat_at
              then ok none
              else ok (
                  some (record cell {
                    row = some (record row {
                      heartbeat_at = now;
                      expires_at = max row.expires_at (now + ttl);
                    });
                  })))
    ]

-- RunStore.release_lease: the rows after it, `none` where it releases nothing
unfoldable pub release : String → ℕ → Cell → Result (Option Cell)
release owner generation cell =
    if not (is_generation generation) then err value_error else elim (cell.row) [
      | none ↦ ok none
      | some row ↦
          if not (is_generation row.generation) || not (agrees cell.counter row.generation)
          then err state_error
          else (if not (str_eq row.owner owner) || not (row.generation == generation)
              then ok none
              else ok (some (record cell { row = none })))
    ]

-- RunStore.get_lease
unfoldable pub get_lease : Cell → Result (Option Row)
get_lease cell = elim (cell.row) [
  | none ↦ ok none
  | some row ↦
      if not (is_generation row.generation) || not (agrees cell.counter row.generation)
      then err state_error
      else ok (some row)
]

-- the checks of assert_lease on the lease that get_lease found
unfoldable pub owned_by : String → ℕ → ℕ → Option Row → Result Row
owned_by owner generation now none = err state_error
owned_by owner generation now (some row) =
    if not (str_eq row.owner owner) || not (row.generation == generation) || leb row.expires_at now
    then err state_error
    else ok row

-- RunStore.assert_lease
unfoldable pub assert_lease : String → ℕ → ℕ → Cell → Result Row
unfolding get_lease owned_by
assert_lease owner generation now cell =
    if not (is_generation generation)
    then err value_error
    else elim (get_lease cell) [ err e ↦ err e | ok found ↦ owned_by owner generation now found ]
