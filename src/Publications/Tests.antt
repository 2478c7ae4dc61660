-- ===== src/Publications/Tests.antt =====
-- A run that reserved a publication and lost its row, and the theorems at that state.
use autocontribute.Base.{◌≤◌, some, true, [], ◌∷◌, length, keep, ◌≡◌, refl, arith}
use autocontribute.Errors.{ok, err, state_error}
use autocontribute.Publications.Reservations.{
  Reservation, Request, Publications, LedgerAnswers, reservation_request, find_reservation, bounded,
  repair, reconcile_publication_state, consume, reserve_publication,
}
use autocontribute.Publications.Consumed.{Reach, unpublished, reserves, disturbs}
use autocontribute.Publications.Capacity.{
  in_day, daily_limit_kept, IsSpaced, cooldown_kept, reserved_once,
}

abbrev sound : LedgerAnswers
sound = record { verified = ok tt; appended = ok tt }

abbrev two_runs : Publications
two_runs = record {
  rows = [];
  events = [];
  runs = ("r1", some "owner/repo") ∷ ("r2", some "owner/repo") ∷ [];
}

abbrev first : Reservation
first = record { run_id = "r1"; repository = "owner/repo"; reserved_at = 90_000_000_000 }

abbrev asked : Request
asked = record {
  run_id = "r1";
  repository = "owner/repo";
  max_per_utc_day = 1;
  reserved_at = 90_000_000_000;
  day_start = 86_400_000_000;
  day_end = 172_800_000_000;
  cooldown_start = 89_999_999_000;
  enforce_cooldown = true;
}

abbrev reserved : Publications
reserved = record two_runs { rows = first ∷ []; events = first ∷ [] }

abbrev row_lost : Publications
row_lost = record two_runs { rows = []; events = first ∷ [] }

request_made : reservation_request "r1" "owner/repo" 1 1_000 90_000_000_000 ≡ ok asked
unfolding reservation_request
request_made = refl

granting : reserve_publication sound asked two_runs ≡ ok (first, reserved)
unfolding reserve_publication reconcile_publication_state bounded repair consume
granting = refl

-- the limit is enforced from the ledger though the row is lost
second_refused :
    reserve_publication sound
      (record asked { run_id = "r2"; reserved_at = 100_000_000_000 })
      row_lost
    ≡ err state_error
unfolding reserve_publication reconcile_publication_state bounded repair consume
second_refused = refl

row_restored : reserve_publication sound asked row_lost ≡ ok (first, reserved)
unfolding reserve_publication reconcile_publication_state bounded repair consume
row_restored = refl

way : Reach 1 1_000 row_lost
way =
    disturbs
      (reserves (unpublished [] two_runs.runs) sound "r1" "owner/repo" 90_000_000_000 asked first
        reserved request_made granting)
      [] two_runs.runs

daily_limit_kept_example : length (keep (in_day 1) row_lost.events) ≤ 1
daily_limit_kept_example = daily_limit_kept 1 1_000 row_lost 1 way

cooldown_kept_example : IsSpaced 1_000 row_lost.events
cooldown_kept_example = cooldown_kept 1 1_000 row_lost (omega arith) way

reserved_once_example :
    (first ≡ first)
    × (reserved.events ≡ row_lost.events)
    × (find_reservation "r1" reserved.rows ≡ some first)
reserved_once_example = reserved_once sound asked row_lost reserved first first refl row_restored
