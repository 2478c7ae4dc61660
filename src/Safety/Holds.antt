-- ===== src/Safety/Holds.antt =====
-- record_stop, record_run_rate_limits, active_holds, release_hold and assert_publication_not_held. Each
-- runs in one write transaction: a result holds the tables only when nothing was raised.
use autocontribute.Base.{
  ℕ, ◌+◌, ◌-◌, ◌*◌, String, Option, none, some, Bool, true, false, not, ◌&&◌, ◌||◌, List, [], ◌∷◌,
  ◌++◌, map, length, keep, any, str_eq, leb, ltb, ◌==◌, is_none, if◌then◌else◌,
}
use Prim.Native.String.{◌++◌ as join}
use autocontribute.Errors.{
  value_error, state_error, policy_error, Result, ok, err, ◌>>=◌, ◌>>◌, raise_if,
}
use autocontribute.Safety.State.{
  Trigger, StopScope, globally, publication, repository, pull_request, Stop, HoldRow, Safety,
  Library,
}
use autocontribute.Safety.Breaker.{trip}

abbrev pub scope_eq : StopScope → StopScope → Bool
scope_eq globally globally = true
scope_eq publication publication = true
scope_eq repository repository = true
scope_eq pull_request pull_request = true
scope_eq _ _ = false

-- the row that UNIQUE(trigger_hash) allows once
abbrev pub find_hold : String → List HoldRow → Option HoldRow
find_hold hash [] = none
find_hold hash (h ∷ hs) = if str_eq h.evidence.trigger_hash hash then some h else find_hold hash hs

abbrev pub escalation_window : ℕ
escalation_window = 30 * 24 * 60 * 60 * 1_000_000

abbrev pub escalation_repositories : ℕ
escalation_repositories = 2

-- a hold that counts toward escalation and that the last 30 days saw
abbrev counts_now : ℕ → HoldRow → Bool
counts_now now h =
    scope_eq h.scope repository
    && (h.counts_toward_escalation
        && (is_none h.released_at && leb (now - escalation_window) h.created_at))

-- `SELECT DISTINCT scope_key`, where keys that differ in case are one
abbrev pub distinct_keys : Library → List String → List String
distinct_keys lib [] = []
distinct_keys lib (k ∷ ks) =
    let rest = distinct_keys lib ks in
    if any (λ j. str_eq (lib.casefold j) (lib.casefold k)) ks then rest else k ∷ rest

-- the repositories whose maintainers turned the tool away
unfoldable pub held_repositories : Library → ℕ → List HoldRow → List String
held_repositories lib now holds =
    distinct_keys lib (map (λ h. h.scope_key) (keep (counts_now now) holds))

-- the global trigger that escalated holds trip
abbrev pub maintainer_stops : Library → ℕ → String → String → Trigger
maintainer_stops lib held key hash = record {
  source = "escalation:maintainer_stops";
  reason = join "Maintainers of " (
      join (lib.show held) (
        join " repositories turned away automated contributions within 30 days, most recently "
          key));
  trigger_hash = lib.sha256 (join "maintainer-stop-escalation:" hash);
}

-- the row of a new hold; its id is its place among the rows, where the database may skip numbers
abbrev pub new_hold : ℕ → Stop → Safety → HoldRow
new_hold now stop s = record {
  id = length s.holds + 1;
  scope = stop.scope;
  scope_key = stop.scope_key;
  evidence = stop.evidence;
  counts_toward_escalation = stop.counts_toward_escalation;
  created_at = now;
  expires_at = stop.expires_at;
  released_at = none;
}

abbrev pub with_hold : ℕ → Stop → Safety → Safety
with_hold now stop s = record s { holds = s.holds ++ new_hold now stop s ∷ [] }

-- the evidence that is stored under a trigger's hash is this stop's
abbrev same_hold : Library → Stop → HoldRow → Bool
same_hold lib stop h =
    scope_eq h.scope stop.scope
    && (str_eq (lib.casefold h.scope_key) (lib.casefold stop.scope_key)
        && (str_eq h.evidence.source stop.evidence.source
            && str_eq h.evidence.reason stop.evidence.reason))

-- after a new hold that counts: enough repositories trip the circuit breaker
unfoldable pub escalate : Library → ℕ → Stop → Safety → Result (Bool × Safety)
escalate lib now stop s =
    let held = length (held_repositories lib now s.holds) in
    if not stop.counts_toward_escalation || ltb held escalation_repositories
    then ok (true, s)
    else (trip now (maintainer_stops lib held stop.scope_key stop.evidence.trigger_hash) s
        >>= λ done. ok (true, done.1))

-- a stop of less than everything: a new hold
unfoldable pub hold : Library → ℕ → Stop → Safety → Result (Bool × Safety)
unfolding escalate
hold lib now stop s = elim (find_hold stop.evidence.trigger_hash s.holds) [
  | some h ↦ if same_hold lib stop h then ok (false, s) else err state_error
  | none ↦ escalate lib now stop (with_hold now stop s)
]

-- RunStore.record_stop
unfoldable pub record_stop : Library → ℕ → Stop → Safety → Result (Bool × Safety)
unfolding hold
record_stop lib now stop s =
    if scope_eq stop.scope globally
    then (do
      raise_if
          (not (str_eq stop.scope_key "")
            || (not (is_none stop.expires_at) || stop.counts_toward_escalation))
          value_error
      trip now stop.evidence s)
    else (do
      raise_if (stop.counts_toward_escalation && not (scope_eq stop.scope repository)) value_error
      hold lib now stop s)

abbrev pub escalation_runs : ℕ
escalation_runs = 3

abbrev pub or_else : Option String → String → String
or_else none text = text
or_else (some text) other = text

-- the global trigger that a streak of rate limits trips
abbrev pub secondary_rate_limits : Library → ℕ → String → Trigger
secondary_rate_limits lib runs started_at = record {
  source = "escalation:secondary_rate_limits";
  reason = join (lib.show runs) (
      join " consecutive runs ended on a GitHub secondary rate limit, the first at "
        (join started_at "; spread the schedule out before resuming"));
  trigger_hash = lib.sha256 (join "secondary-rate-limit-streak:" started_at);
}

abbrev pub with_streak : ℕ → Option String → Safety → Safety
with_streak runs started_at s = record s {
  streak = record { consecutive_runs = runs; started_at = started_at };
}

-- RunStore.record_run_rate_limits
unfoldable pub record_run_rate_limits : Library → ℕ → Bool → Safety → Result (Bool × Safety)
record_run_rate_limits lib now ended_on_secondary_limit s =
    let runs = s.streak.consecutive_runs + 1 in
    let started_at = or_else s.streak.started_at (lib.isoformat now) in
    if ended_on_secondary_limit && ltb runs escalation_runs
    then ok (false, with_streak runs (some started_at) s)
    else (let ended = with_streak 0 none s in
        if not ended_on_secondary_limit
        then ok (false, ended)
        else trip now (secondary_rate_limits lib runs started_at) ended)

abbrev not_yet : ℕ → Option ℕ → Bool
not_yet now none = true
not_yet now (some expires_at) = ltb now expires_at

-- neither released nor expired
unfoldable pub is_active : ℕ → HoldRow → Bool
is_active now h = is_none h.released_at && not_yet now h.expires_at

-- RunStore.active_holds
unfoldable pub active_holds : ℕ → Safety → List HoldRow
active_holds now s = keep (is_active now) s.holds

-- the UPDATE of one hold that is not released
abbrev pub release_row : ℕ → ℕ → HoldRow → HoldRow
release_row now id h =
    if h.id == id && is_none h.released_at then record h { released_at = some now } else h

-- RunStore.release_hold
unfoldable pub release_hold : ℕ → ℕ → Safety → Result (Bool × Safety)
release_hold now id s =
    if id == 0
    then err value_error
    else (if not (any (λ h. h.id == id) s.holds)
        then err state_error
        else ok (
          any (λ h. h.id == id && is_none h.released_at) s.holds,
          record s { holds = map (release_row now id) s.holds },
        ))

abbrev same_url : Library → String → Option String → Bool
same_url lib key none = false
same_url lib key (some url) = str_eq (lib.casefold key) (lib.casefold url)

-- the hold stops the publication for this repository and pull request
unfoldable pub applies : Library → String → Option String → HoldRow → Bool
applies lib repo url h =
    scope_eq h.scope publication
    || ((scope_eq h.scope repository && str_eq (lib.casefold h.scope_key) (lib.casefold repo))
        || (scope_eq h.scope pull_request && same_url lib h.scope_key url))

-- RunStore.assert_publication_not_held
unfoldable pub assert_publication_not_held :
    Library → ℕ → String → Option String → Safety → Result (Unit {0})
assert_publication_not_held lib now repo url s =
    raise_if (any (applies lib repo url) (active_holds now s)) policy_error
