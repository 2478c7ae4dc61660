-- ===== src/Safety/Tests.antt =====
-- A global stop and its resumption, a repository's hold and its release, and the theorems at those
-- states, for a library whose hashes are the texts themselves.
use autocontribute.Base.{String, none, some, true, false, not, List, [], ◌∷◌, ◌≡◌, refl, arith}
use Prim.Native.String.{◌++◌ as join}
use mathlib.Core.List.{Memᴰ}
use autocontribute.Errors.{ok, err, state_error, policy_error}
use autocontribute.Safety.State.{
  Trigger, Stop, globally, repository, tripped, Safety, Library, new_safety,
}
use autocontribute.Safety.Breaker.{
  active_triggers, revision_of, trip, Status, circuit_breaker_status, assert_circuit_breaker_clear,
  cleared, resume, triggers_of, last, is_empty, verify_evidence,
}
use autocontribute.Safety.Holds.{
  hold, escalate, held_repositories, record_stop, with_hold, is_active, applies, active_holds,
  assert_publication_not_held,
}
use autocontribute.Safety.Steps.{here, next, stops}
use autocontribute.Safety.Evidence.{evidence_verified}
use autocontribute.Safety.Review.{start, later, stopped_until_resumed, resume_reviewed}
use autocontribute.Safety.Held.{start, later, held_until_released}

abbrev joined : List Trigger → String
joined [] = ""
joined (t ∷ ts) = join t.trigger_hash (joined ts)

abbrev plain : Library
plain = record {
  sha256 = λ text. text;
  json_sha256 = joined;
  show = λ n. "n";
  isoformat = λ n. "t";
  casefold = λ text. text;
}

abbrev complaint : Trigger
complaint = record { source = "feedback"; reason = "complaint"; trigger_hash = "c1" }

abbrev everything : Stop
everything = record {
  evidence = complaint;
  scope = globally;
  scope_key = "";
  expires_at = none;
  counts_toward_escalation = false;
}

abbrev one_repository : Stop
one_repository = record {
  evidence = record { source = "feedback"; reason = "not wanted"; trigger_hash = "h1" };
  scope = repository;
  scope_key = "owner/repo";
  expires_at = some 500;
  counts_toward_escalation = true;
}

abbrev created : Safety
created = new_safety 10

abbrev stopped : Safety
stopped = record created {
  events = record { epoch = 1; occurred_at = 20; kind = tripped; evidence = complaint } ∷ [];
  breaker = record (created.breaker) {
    is_tripped = true;
    changed_at = 20;
    evidence = some complaint;
  };
}

abbrev held : Safety
held = with_hold 30 one_repository created

stops_all : record_stop plain 20 everything created ≡ ok (true, stopped)
unfolding record_stop trip
stops_all = refl

stops_once : record_stop plain 25 everything stopped ≡ ok (false, stopped)
unfolding record_stop trip
stops_once = refl

resumes_all :
    resume plain 40 "op" "reviewed" "c1" stopped
    ≡ ok (true, cleared 40 "op" "reviewed" "c1" stopped)
unfolding resume active_triggers revision_of
resumes_all = refl

stale_revision : resume plain 40 "op" "reviewed" "c0" stopped ≡ err state_error
unfolding resume active_triggers revision_of
stale_revision = refl

stops_repository : record_stop plain 30 one_repository created ≡ ok (true, held)
unfolding record_stop hold escalate held_repositories
stops_repository = refl

other_repository : assert_publication_not_held plain 40 "owner/other" none held ≡ ok tt
unfolding assert_publication_not_held active_holds is_active applies
other_repository = refl

abbrev status_shown : Status
status_shown = record {
  is_tripped = true;
  epoch = 1;
  changed_at = 20;
  evidence = some complaint;
  active_revision = some "c1";
  active_triggers = complaint ∷ [];
}

shown : circuit_breaker_status plain stopped ≡ ok status_shown
unfolding circuit_breaker_status active_triggers
shown = refl

evidence_verified_example :
    (verify_evidence stopped ≡ ok tt)
    × ((status : Status) × (circuit_breaker_status plain stopped ≡ ok status)
        × (status.is_tripped ≡ not (is_empty status.active_triggers))
        × (status.active_triggers ≡ triggers_of stopped.breaker.epoch stopped.events)
        × (last status.active_triggers ≡ status.evidence))
evidence_verified_example =
    evidence_verified plain 10 stopped (next here (stops 20 everything true stopped stops_all))
      (omega arith)

stopped_until_resumed_example : assert_circuit_breaker_clear plain stopped ≡ err state_error
stopped_until_resumed_example =
    stopped_until_resumed plain 20 everything created stopped stopped refl stops_all
      (later start (stops 25 everything false stopped stops_once) refl)

resume_reviewed_example :
    (triggers_of stopped.breaker.epoch stopped.events ≡ status_shown.active_triggers)
    × (assert_circuit_breaker_clear plain (cleared 40 "op" "reviewed" "c1" stopped) ≡ ok tt)
    × (trip 50 complaint (cleared 40 "op" "reviewed" "c1" stopped)
        ≡ ok (false, cleared 40 "op" "reviewed" "c1" stopped))
resume_reviewed_example =
    resume_reviewed plain 10 40 "op" "reviewed" "c1" stopped stopped
      (cleared 40 "op" "reviewed" "c1" stopped) status_shown 50 complaint (λ same. refl)
      (next here (stops 20 everything true stopped stops_all)) shown refl start resumes_all
      (Memᴰ.head refl)

held_until_released_example :
    assert_publication_not_held plain 100 "owner/repo" none held ≡ err policy_error
unfolding is_active applies
held_until_released_example =
    held_until_released plain 30 100 one_repository created held held "owner/repo" none refl
      stops_repository start refl refl
