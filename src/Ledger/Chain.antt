-- ===== src/Ledger/Chain.antt =====
-- The tables `runs` and `events` as the ledger uses them, _append_event_to_ledger,
-- _verified_event_heads and _verify_event_anchors. A raise leaves the tables as they were.
use autocontribute.Base.{
  ℕ, ◌+◌, String, Option, none, some, Bool, true, false, not, ◌&&◌, ◌||◌, List, [], ◌∷◌, ◌++◌, map,
  length, keep, any, all, str_eq, ◌==◌, if◌then◌else◌, is_none,
}
use autocontribute.Base.Dict.{Dict, lookup, insert}
use autocontribute.Errors.{state_error, integrity_error, Result, ok, err, ◌>>=◌, ◌>>◌, raise_if}
use Prim.Native.Char.{code}

-- what the hash of an event covers, in the fields of its canonical JSON
pub record Payload : Type 0 where
  pub run_id : String
  pub occurred_at : String
  pub event_type : String
  pub details : String
  pub previous_hash : String

-- a row of `events`
pub record EventRow : Type 0 where
  pub payload : Payload
  pub event_hash : String

-- the columns of `runs` that anchor a run's chain
pub record RunRow : Type 0 where
  pub run_id : String
  pub event_count : ℕ
  pub event_head_hash : String

pub record Ledger : Type 0 where
  pub runs : List RunRow
  pub events : List EventRow

-- What the ledger calls of Python's libraries: SHA-256 of a payload's canonical JSON in hexadecimal,
-- and whether a text is a canonical UTC time.
pub record Hashing : Type 0 where
  pub sha256 : Payload → String
  pub is_canonical_utc : String → Bool

-- _INITIAL_EVENT_HASH
abbrev pub initial_event_hash : String
initial_event_hash = "0000000000000000000000000000000000000000000000000000000000000000"

abbrev characters : String → ℕ
characters String.[] = 0
characters (String.◌∷◌ c text) = characters text + 1

abbrev digits : String → List ℕ
digits String.[] = []
digits (String.◌∷◌ c text) = code c ∷ digits text

abbrev only_hex : String → Bool
only_hex text = all (λ c. any (λ h. h == c) (digits "0123456789abcdef")) (digits text)

-- _stored_event_hash
unfoldable pub is_event_hash : String → Bool
is_event_hash text = characters text == 64 && only_hex text

-- `WHERE run_id = ? ORDER BY id`
abbrev pub events_of : String → List EventRow → List EventRow
events_of run_id events = keep (λ e. str_eq e.payload.run_id run_id) events

abbrev pub last_hash : List EventRow → String → String
last_hash [] before = before
last_hash (e ∷ es) before = last_hash es e.event_hash

abbrev pub find_run : String → List RunRow → Option RunRow
find_run run_id [] = none
find_run run_id (r ∷ rs) = if str_eq r.run_id run_id then some r else find_run run_id rs

-- the UPDATE of one run's anchor
abbrev pub set_anchor : String → ℕ → String → RunRow → RunRow
set_anchor run_id count head r =
    if str_eq r.run_id run_id then record r { event_count = count; event_head_hash = head } else r

-- the INSERT of a run, with the defaults of the two columns
unfoldable pub insert_run : String → Ledger → Result Ledger
insert_run run_id l =
    if is_none (find_run run_id l.runs)
    then ok (record l {
      runs =
          l.runs
          ++ record { run_id = run_id; event_count = 0; event_head_hash = initial_event_hash } ∷ [];
    })
    else err integrity_error

abbrev time_of : String → Option String → String
time_of now none = now
time_of now (some text) = text

abbrev is_time : Hashing → Option String → Bool
is_time lib none = true
is_time lib (some text) = lib.is_canonical_utc text

abbrev pub new_event :
    Hashing → String → Option String → String → String → String → String → EventRow
new_event lib now occurred_at run_id event_type details previous_hash =
    let payload : Payload = record {
      run_id = run_id;
      occurred_at = time_of now occurred_at;
      event_type = event_type;
      details = details;
      previous_hash = previous_hash;
    } in
    record { payload = payload; event_hash = lib.sha256 payload }

abbrev pub with_event : String → RunRow → EventRow → Ledger → Ledger
with_event run_id row e l = record {
  runs = map (set_anchor run_id (row.event_count + 1) e.event_hash) l.runs;
  events = l.events ++ e ∷ [];
}

-- _append_event_to_ledger, with `details` as canonical JSON
unfoldable pub append_event :
    Hashing → String → Option String → String → String → String → Ledger → Result Ledger
append_event lib now occurred_at run_id event_type details l = elim (find_run run_id l.runs) [
  | none ↦ err state_error
  | some row ↦
      let own = events_of run_id l.events in
      let e = new_event lib now occurred_at run_id event_type details row.event_head_hash in
      (do
        raise_if (not (is_event_hash row.event_head_hash)) state_error
        raise_if (not (is_event_hash (last_hash own initial_event_hash))) state_error
        raise_if
            (not (row.event_count == length own)
              || not (str_eq row.event_head_hash (last_hash own initial_event_hash)))
            state_error
        raise_if (not (is_time lib occurred_at)) state_error
        raise_if (any (λ x. str_eq x.event_hash e.event_hash) l.events) integrity_error
        ok (with_event run_id row e l))
]

-- the checks of one event against the head before it
unfoldable pub link : Hashing → EventRow → ℕ × String → Result (ℕ × String)
link lib e (count, previous) = do
  raise_if (not (is_event_hash e.event_hash)) state_error
  raise_if (not (is_event_hash e.payload.previous_hash)) state_error
  raise_if (not (str_eq e.payload.previous_hash previous)) state_error
  raise_if (not (str_eq e.event_hash (lib.sha256 e.payload))) state_error
  ok (count + 1, e.event_hash)

-- the first loop of _verified_event_heads
unfoldable pub new_heads : List RunRow → Dict (ℕ × String) → Result (Dict (ℕ × String))
new_heads [] heads = ok heads
new_heads (r ∷ rs) heads = do
  raise_if (str_eq r.run_id "") state_error
  raise_if (not (is_none (lookup r.run_id heads))) state_error
  new_heads rs (insert r.run_id (0, initial_event_hash) heads)

-- its second loop
unfoldable pub link_all : Hashing → List EventRow → Dict (ℕ × String) → Result (Dict (ℕ × String))
link_all lib [] heads = ok heads
link_all lib (e ∷ es) heads = elim (lookup e.payload.run_id heads) [
  | none ↦ err state_error
  | some head ↦ (link lib e head >>= λ after. link_all lib es (insert e.payload.run_id after heads))
]

abbrev pub has_no_event : String × (ℕ × String) → Bool
has_no_event (run_id, head) = head.0 == 0

-- _verified_event_heads
unfoldable pub verified_event_heads :
    Hashing → List RunRow → List EventRow → Result (Dict (ℕ × String))
verified_event_heads lib runs events = new_heads runs [] >>= λ started.
    (link_all lib events started >>= λ heads.
    (raise_if (any has_no_event heads) state_error >> ok heads))

abbrev pub same_anchor : RunRow → Option (ℕ × String) → Bool
same_anchor row none = false
same_anchor row (some (count, head)) =
    is_event_hash row.event_head_hash
    && (row.event_count == count && str_eq row.event_head_hash head)

-- the rows that are read: one run's, or all, where the events are grouped by run and in order
abbrev pub selected_runs : Option String → Ledger → List RunRow
selected_runs none l = l.runs
selected_runs (some run_id) l = keep (λ r. str_eq r.run_id run_id) l.runs

-- An event of a run that is not there, which the source would refuse, is excluded by the table's foreign
-- key and is not read here.
abbrev pub grouped : List RunRow → List EventRow → List EventRow
grouped [] events = []
grouped (r ∷ rs) events = events_of r.run_id events ++ grouped rs events

abbrev pub selected_events : Option String → Ledger → List EventRow
selected_events none l = grouped l.runs l.events
selected_events (some run_id) l = events_of run_id l.events

abbrev pub no_run : Option String → List RunRow → Bool
no_run (some run_id) [] = true
no_run _ _ = false

-- _verify_event_anchors
unfoldable pub verify_event_anchors : Hashing → Option String → Ledger → Result (Unit {0})
verify_event_anchors lib selected l =
    let runs = selected_runs selected l in
    (do
      raise_if (no_run selected runs) state_error
      verified_event_heads lib runs (selected_events selected l) >>= λ heads.
          raise_if (not (all (λ r. same_anchor r (lookup r.run_id heads)) runs)) state_error)
