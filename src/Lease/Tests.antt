-- ===== src/Lease/Tests.antt =====
-- One lease name acquired, lost and taken over, and the theorems at its states.
use autocontribute.Base.{
  ◌<◌, ◌≤◌, true, false, ◌≡◌, refl, String, none, some, [], ◌∷◌, arith, eq_iff,
}
use mathlib.Core.List.{Memᴰ}
use autocontribute.Errors.{Error, ok, err, state_error}
use autocontribute.Lease.Cell.{
  Row, Cell, new_row, put, acquire, acquire_free, acquire_row, heartbeat, release, get_lease,
  owned_by, assert_lease,
}
use autocontribute.Lease.Store.{Tables, cell_of, acquire_lease, write}
use autocontribute.Lease.Guard.{Guard, inactive, enter, assert_owned, beat, close}
use autocontribute.Lease.Guarded.{
  Held, here, next, beats as held_beats, unconfirmed, boundary_fenced, lost_refused,
}
use autocontribute.Lease.Entered.{expiry, Alone, enters, asserts, beats, undisturbed_passes}
use autocontribute.Lease.Fencing.{
  System, unused, Reach, acquires, here, next, generation_unique, superseded_refused,
  confirmed_exclusive,
}

-- Worker a takes the lease at 100 for 50, and worker b takes it over at 200.
abbrev held_by_a : Cell
held_by_a = put (new_row "a" 1 100 50)

abbrev held_by_b : Cell
held_by_b = put (new_row "b" 2 200 50)

first_grant : acquire "a" 100 50 (unused.cell) ≡ ok (some held_by_a)
unfolding acquire acquire_free acquire_row
first_grant = refl

takeover : acquire "b" 200 50 held_by_a ≡ ok (some held_by_b)
unfolding acquire acquire_free acquire_row
takeover = refl

contended : acquire "b" 120 50 held_by_a ≡ ok none
unfolding acquire acquire_free acquire_row
contended = refl

extended :
    heartbeat "a" 1 120 50 held_by_a
    ≡ ok (some (put (record (new_row "a" 1 100 50) { heartbeat_at = 120; expires_at = 170 })))
unfolding heartbeat
extended = refl

not_released_by_b : release "b" 1 held_by_a ≡ ok none
unfolding release
not_released_by_b = refl

confirmed : assert_lease "a" 1 149 held_by_a ≡ ok (new_row "a" 1 100 50)
unfolding assert_lease get_lease owned_by
confirmed = refl

expired : assert_lease "a" 1 150 held_by_a ≡ err state_error
unfolding assert_lease get_lease owned_by
expired = refl

abbrev after_a : System
after_a = record { cell = held_by_a; grants = ("a", 1) ∷ [] }

abbrev after_b : System
after_b = record { cell = held_by_b; grants = ("b", 2) ∷ ("a", 1) ∷ [] }

reached_a : Reach unused after_a
reached_a = next here (acquires "a" 100 50 held_by_a (new_row "a" 1 100 50) first_grant refl)

taken_over : Reach after_a after_b
taken_over = next here (acquires "b" 200 50 held_by_b (new_row "b" 2 200 50) takeover refl)

reached_b : Reach unused after_b
reached_b = next reached_a (acquires "b" 200 50 held_by_b (new_row "b" 2 200 50) takeover refl)

generation_unique_example : ◌≡◌ {A = String} "a" "a"
generation_unique_example =
    generation_unique after_b "a" "a" 1 reached_b (Memᴰ.tail (Memᴰ.head refl))
      (Memᴰ.tail (Memᴰ.head refl))

superseded_refused_example : (e : Error) × (assert_lease "a" 1 210 held_by_b ≡ err e)
superseded_refused_example =
    superseded_refused after_b after_b "a" 1 210 reached_b (omega arith) here

still_confirmed : assert_lease "a" 1 120 held_by_a ≡ ok (new_row "a" 1 100 50)
unfolding assert_lease get_lease owned_by
still_confirmed = refl

confirmed_exclusive_example : acquire "b" 120 50 held_by_a ≡ ok none
confirmed_exclusive_example =
    confirmed_exclusive "a" "b" 1 120 50 held_by_a (new_row "a" 1 100 50) still_confirmed
      (λ e. cc ((eq_iff "b" "a").1 e)) (omega arith)

abbrev two_leases : Tables
two_leases = record {
  leases = ("hunt", new_row "a" 1 100 50) ∷ ("backup", new_row "c" 4 100 900) ∷ [];
  lease_generations = ("hunt", 1) ∷ ("backup", 4) ∷ [];
}

-- Worker b takes the lease "hunt" over, and the other lease stays as it is.
table_takeover :
    (cell_of "hunt" (acquire_lease "hunt" "b" 200 50 two_leases).1 ≡ held_by_b)
    × (cell_of "backup" (acquire_lease "hunt" "b" 200 50 two_leases).1
        ≡ cell_of "backup" two_leases)
unfolding acquire_lease acquire acquire_free acquire_row write
table_takeover = (refl, refl)

-- worker a in its guard
abbrev guard_of_a : Guard
guard_of_a = record {
  lease = some (new_row "a" 1 100 50);
  running = true;
  stopped = false;
  lost = false;
}

entered_guard : enter "a" 50 100 inactive (unused.cell) ≡ (ok tt, guard_of_a, held_by_a)
unfolding enter acquire acquire_free acquire_row
entered_guard = refl

-- a boundary at 120, and a beat at 130 that finds the lease extended
kept_guard : Held "a" guard_of_a (beat "a" 50 130 guard_of_a held_by_a).0
kept_guard = next here (held_beats 50 130 held_by_a)

abbrev beaten_row : Row
beaten_row = record (new_row "a" 1 100 50) { heartbeat_at = 130; expires_at = 180 }

boundary :
    (assert_owned "a" 140 (beat "a" 50 130 guard_of_a held_by_a).0 (put beaten_row)).0
    ≡ ok beaten_row
unfolding assert_owned beat heartbeat assert_lease get_lease owned_by
boundary = refl

boundary_fenced_example :
    ((put beaten_row).row ≡ some beaten_row)
    × (beaten_row.owner ≡ "a")
    × (140 < beaten_row.expires_at)
    × (beaten_row.generation ≡ 1)
boundary_fenced_example =
    boundary_fenced "a" guard_of_a (beat "a" 50 130 guard_of_a held_by_a).0 140 (put beaten_row)
      (new_row "a" 1 100 50) beaten_row refl kept_guard boundary

unconfirmed_at_210 : assert_lease "a" 1 210 held_by_b ≡ err state_error
unfolding assert_lease get_lease owned_by
unconfirmed_at_210 = refl

-- Even where the old row stood again, the boundary at 140 is refused.
lost_refused_example :
    (assert_owned "a" 140 (assert_owned "a" 210 guard_of_a held_by_b).1 held_by_a).0
    ≡ err state_error
lost_refused_example =
    lost_refused "a" guard_of_a (assert_owned "a" 210 guard_of_a held_by_b).1
      (assert_owned "a" 210 guard_of_a held_by_b).1 140 held_by_a
      (unconfirmed (new_row "a" 1 100 50) 210 held_by_b refl unconfirmed_at_210) here

enters_free : (enter "a" 50 100 inactive (unused.cell)).0 ≡ ok tt
unfolding enter acquire acquire_free acquire_row
enters_free = refl

-- Entered at 100, a boundary at 120, a beat at 130.
abbrev at_130 : Guard × Cell
at_130 = beat "a" 50 130 guard_of_a held_by_a

undisturbed : Alone "a" 50 130 at_130.0 at_130.1
unfolding enter acquire acquire_free acquire_row assert_owned assert_lease get_lease owned_by
undisturbed =
    beats 130
      (asserts 120 (enters 100 inactive (unused.cell) enters_free) (omega arith) (omega arith))
      (omega arith) (omega arith)

expires_at_180 : 170 < expiry at_130.1
unfolding beat heartbeat
expires_at_180 = omega arith

undisturbed_passes_example :
    ((row : Row) × ((assert_owned "a" 170 at_130.0 at_130.1).0 ≡ ok row)
      × (at_130.1.row ≡ some row))
    × (220 ≤ expiry (beat "a" 50 170 at_130.0 at_130.1).1)
    × ((beat "a" 50 170 at_130.0 at_130.1).0.lost ≡ false)
    × ((close "a" at_130.0 at_130.1).0 ≡ ok tt)
    × ((close "a" at_130.0 at_130.1).2.row ≡ none)
undisturbed_passes_example =
    undisturbed_passes "a" 50 130 170 at_130.0 at_130.1 undisturbed (omega arith) expires_at_180
