-- ===== src/Ledger/Tests.antt =====
-- A run created, an event appended, a ledger that was tampered with, and the theorems at those states,
-- for a hash that tells the events apart by their type.
use autocontribute.Base.{
  String, none, some, Bool, true, false, [], ◌∷◌, ◌≡◌, refl, str_eq, if◌then◌else◌,
}
use mathlib.Core.List.{Memᴰ}
use autocontribute.Errors.{ok, err, state_error, integrity_error}
use autocontribute.Ledger.Chain.{
  EventRow, Ledger, Hashing, initial_event_hash, is_event_hash, events_of, insert_run, append_event,
  link, new_heads, link_all, verified_event_heads, verify_event_anchors, selected_runs, no_run,
}
use autocontribute.Ledger.Appended.{empty, creates}
use autocontribute.Ledger.Verified.{ledger_verifies}
use autocontribute.Ledger.Unique.{anchored_history}

abbrev hash_a : String
hash_a = "aaaaaaaaaaaaaaaaaaaaaaaaaaaaaaaaaaaaaaaaaaaaaaaaaaaaaaaaaaaaaaaa"

abbrev hash_b : String
hash_b = "bbbbbbbbbbbbbbbbbbbbbbbbbbbbbbbbbbbbbbbbbbbbbbbbbbbbbbbbbbbbbbbb"

abbrev by_type : Hashing
by_type = record {
  sha256 = λ p. if str_eq p.event_type "created" then hash_a else hash_b;
  is_canonical_utc = λ text. true;
}

if-is_event_hash : (b : Bool) → is_event_hash (if b then hash_a else hash_b) ≡ true
unfolding is_event_hash
if-is_event_hash true = refl
if-is_event_hash false = refl

abbrev created_event : EventRow
created_event = record {
  payload = record {
    run_id = "r1";
    occurred_at = "t0";
    event_type = "created";
    details = "{}";
    previous_hash = initial_event_hash;
  };
  event_hash = hash_a;
}

abbrev one_run : Ledger
one_run = record {
  runs = record { run_id = "r1"; event_count = 1; event_head_hash = hash_a } ∷ [];
  events = created_event ∷ [];
}

abbrev pending_run : Ledger
pending_run = record {
  runs = record { run_id = "r1"; event_count = 0; event_head_hash = initial_event_hash } ∷ [];
  events = [];
}

abbrev no_ledger : Ledger
no_ledger = record { runs = []; events = [] }

-- a second run whose event has another hash
abbrev two_runs : Ledger
two_runs = record {
  runs =
      record { run_id = "r1"; event_count = 1; event_head_hash = hash_a }
      ∷ record { run_id = "r2"; event_count = 1; event_head_hash = hash_b }
      ∷ [];
  events =
      record {
        payload = record {
          run_id = "r2";
          occurred_at = "t1";
          event_type = "other";
          details = "{}";
          previous_hash = initial_event_hash;
        };
        event_hash = hash_b;
      }
      ∷ created_event
      ∷ [];
}

inserts : insert_run "r1" no_ledger ≡ ok pending_run
unfolding insert_run
inserts = refl

first_event : append_event by_type "t0" none "r1" "created" "{}" pending_run ≡ ok one_run
unfolding append_event is_event_hash
first_event = refl

same_hash_twice : append_event by_type "t1" none "r1" "created" "{}" one_run ≡ err integrity_error
unfolding append_event is_event_hash
same_hash_twice = refl

-- an event that was edited in place no longer verifies
edited :
    verify_event_anchors by_type none (record one_run {
      events =
          record created_event { payload = record (created_event.payload) { event_type = "x" } }
          ∷ [];
    })
    ≡ err state_error
unfolding verify_event_anchors verified_event_heads new_heads link_all link is_event_hash
edited = refl

two_runs_verify : verify_event_anchors by_type (some "r1") two_runs ≡ ok tt
unfolding verify_event_anchors verified_event_heads new_heads link_all link is_event_hash
two_runs_verify = refl

one_run_verifies : verify_event_anchors by_type (some "r1") one_run ≡ ok tt
unfolding verify_event_anchors verified_event_heads new_heads link_all link is_event_hash
one_run_verifies = refl

ledger_verifies_example :
    verify_event_anchors by_type (some "r1") one_run
    ≡ (if no_run (some "r1") (selected_runs (some "r1") one_run) then err state_error else ok tt)
ledger_verifies_example =
    ledger_verifies by_type one_run (some "r1")
      (λ p. if-is_event_hash (str_eq p.event_type "created"))
      (creates empty "t0" none "r1" "created" "{}" pending_run one_run refl inserts first_event)

Mem-single : (e : EventRow) → Memᴰ e (created_event ∷ []) → e ≡ created_event
Mem-single e (Memᴰ.head same) = same
Mem-single e (Memᴰ.tail m) = elim m [ ]

single_agree :
    (e f : EventRow)
    → Memᴰ e (created_event ∷ [])
    → Memᴰ f (created_event ∷ [])
    → e.payload ≡ f.payload
single_agree e f me mf = cc (Mem-single e me, Mem-single f mf)

anchored_history_example : events_of "r1" one_run.events ≡ events_of "r1" two_runs.events
anchored_history_example =
    anchored_history by_type "r1" one_run two_runs (λ e f me mf same. single_agree e f me mf) refl
      one_run_verifies two_runs_verify
