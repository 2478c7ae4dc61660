-- ===== src/Safety/Steps.antt =====
-- What one call of the safety operations of src/autocontribute/store.py does to the circuit breaker.
use autocontribute.Base.{
  ℕ, ◌+◌, String, none, some, Bool, true, false, not, ◌&&◌, ◌||◌, [], ◌∷◌, ◌++◌, length, ◌≡◌, ◌⊎◌,
  inl, inr, arith, ltb, Option-cases, Bool-cases, subst,
}
use autocontribute.Errors.{ok, Result-cases}
use autocontribute.Safety.State.{Trigger, Stop, globally, tripped, Safety, Library}
use autocontribute.Safety.Breaker.{find_event, trip_event, trip, resume}
use autocontribute.Safety.Holds.{
  scope_eq, find_hold, held_repositories, escalation_repositories, maintainer_stops, with_hold,
  escalate, hold, record_stop, escalation_runs, or_else, secondary_rate_limits, with_streak,
  record_run_rate_limits, release_hold,
}

-- Any call that writes, at any time; a call that raises writes nothing.
pub data Step (lib : Library) (s : Safety) : Safety → Type 0 where
  trips :
      (now : ℕ) (t : Trigger) (new : Bool) (after : Safety)
      → trip now t s ≡ ok (new, after)
      → Step lib s after
  stops :
      (now : ℕ) (stop : Stop) (new : Bool) (after : Safety)
      → record_stop lib now stop s ≡ ok (new, after)
      → Step lib s after
  limits :
      (now : ℕ) (limited : Bool) (new : Bool) (after : Safety)
      → record_run_rate_limits lib now limited s ≡ ok (new, after)
      → Step lib s after
  releases :
      (now id : ℕ) (new : Bool) (after : Safety)
      → release_hold now id s ≡ ok (new, after)
      → Step lib s after
  resumes :
      (now : ℕ) (actor reason expected : String) (new : Bool) (after : Safety)
      → resume lib now actor reason expected s ≡ ok (new, after)
      → Step lib s after

-- the operator's resumption
abbrev pub is_resumption : {lib : Library} {s t : Safety} → Step lib s t → Bool
is_resumption (resumes _ _ _ _ _ _ _) = true
is_resumption _ = false

pub data Reach (lib : Library) (s : Safety) : Safety → Type 0 where
  here : Reach lib s s
  next : {t u : Safety} → Reach lib s t → Step lib t u → Reach lib s u

-- What a call that is no resumption does to the breaker: nothing, or it records new evidence.
pub record IsTripped (now : ℕ) (t : Trigger) (s after : Safety) : Type 0 where
  pub new : find_event tripped t.trigger_hash s.events ≡ none
  pub events_after : after.events ≡ s.events ++ trip_event s.breaker.epoch now t ∷ []
  pub breaker_after :
      after.breaker ≡ record (s.breaker) { is_tripped = true; changed_at = now; evidence = some t }

abbrev pub IsSame : Safety → Safety → Type 0
IsSame s after = (after.events ≡ s.events) × (after.breaker ≡ s.breaker)

abbrev pub IsCalm : Safety → Safety → Type 0
IsCalm s after = IsSame s after ⊎ ((now : ℕ) × (t : Trigger) × IsTripped now t s after)

pub trip-IsCalm :
    (now : ℕ) (t : Trigger) (s : Safety) (new : Bool) (after : Safety)
    → trip now t s ≡ ok (new, after)
    → IsSame s after ⊎ IsTripped now t s after
unfolding trip
trip-IsCalm now t s new after h = elim (Option-cases (find_event tripped t.trigger_hash s.events)) [
  | inl fresh ↦
      inr (record { new = fresh; events_after = ground arith; breaker_after = ground arith })
  | inr (e, known) ↦ inl (ground arith, ground arith)
]

escalate-IsCalm :
    (lib : Library) (now : ℕ) (stop : Stop) (s : Safety) (new : Bool) (after : Safety)
    → escalate lib now stop s ≡ ok (new, after)
    → IsCalm s after
unfolding escalate
escalate-IsCalm lib now stop s new after h =
    let held = length (held_repositories lib now s.holds) in
    elim (Bool-cases (not stop.counts_toward_escalation || ltb held escalation_repositories)) [
      | inl few ↦ inl (ground arith, ground arith)
      | inr many ↦
          let t = maintainer_stops lib held stop.scope_key stop.evidence.trigger_hash in
          elim (Result-cases (trip now t s)) [
            | inr (e, failed) ↦ absurd (ground arith)
            | inl ((fresh, u), done) ↦
                let same : u ≡ after = ground arith in
                elim (trip-IsCalm now t s fresh u done) [
                  | inl kept ↦ inl (subst (IsSame s) same kept)
                  | inr more ↦ inr (now, t, subst (IsTripped now t s) same more)
                ]
          ]
    ]

hold-IsCalm :
    (lib : Library) (now : ℕ) (stop : Stop) (s : Safety) (new : Bool) (after : Safety)
    → hold lib now stop s ≡ ok (new, after)
    → IsCalm s after
unfolding hold
hold-IsCalm lib now stop s new after h =
    elim (Option-cases (find_hold stop.evidence.trigger_hash s.holds)) [
      | inr (row, known) ↦ inl (ground arith, ground arith)
      | inl fresh ↦
          elim (escalate-IsCalm lib now stop (with_hold now stop s) new after (ground arith)) [
            | inl kept ↦ inl kept
            | inr (at, t, more) ↦ inr (
              at,
              t,
              record {
                new = more.new;
                events_after = more.events_after;
                breaker_after = more.breaker_after;
              },
            )
          ]
    ]

record_stop-IsCalm :
    (lib : Library) (now : ℕ) (stop : Stop) (s : Safety) (new : Bool) (after : Safety)
    → record_stop lib now stop s ≡ ok (new, after)
    → IsCalm s after
unfolding record_stop
record_stop-IsCalm lib now stop s new after h = elim (Bool-cases (scope_eq stop.scope globally)) [
  | inl global ↦ elim (trip-IsCalm now stop.evidence s new after (ground arith)) [
    | inl kept ↦ inl kept
    | inr more ↦ inr (now, stop.evidence, more)
  ]
  | inr part ↦ hold-IsCalm lib now stop s new after (ground arith)
]

record_run_rate_limits-IsCalm :
    (lib : Library) (now : ℕ) (limited : Bool) (s : Safety) (new : Bool) (after : Safety)
    → record_run_rate_limits lib now limited s ≡ ok (new, after)
    → IsCalm s after
unfolding record_run_rate_limits
record_run_rate_limits-IsCalm lib now limited s new after h =
    let runs = s.streak.consecutive_runs + 1 in
    let t = secondary_rate_limits lib runs (or_else s.streak.started_at (lib.isoformat now)) in
    elim (Bool-cases (limited && ltb runs escalation_runs)) [
      | inl few ↦ inl (ground arith, ground arith)
      | inr over ↦ elim (Bool-cases limited) [
        | inr clean ↦ inl (ground arith, ground arith)
        | inl third ↦ elim (trip-IsCalm now t (with_streak 0 none s) new after (ground arith)) [
          | inl kept ↦ inl kept
          | inr more ↦ inr (
            now,
            t,
            record {
              new = more.new;
              events_after = more.events_after;
              breaker_after = more.breaker_after;
            },
          )
        ]
      ]
    ]

release_hold-IsCalm :
    (now id : ℕ) (s : Safety) (new : Bool) (after : Safety)
    → release_hold now id s ≡ ok (new, after)
    → IsSame s after
unfolding release_hold
release_hold-IsCalm now id s new after h = (ground arith, ground arith)

-- Any call but a resumption leaves the breaker as it was, or records new evidence.
pub Step-IsCalm :
    {lib : Library} {s after : Safety} (st : Step lib s after)
    → is_resumption st ≡ false
    → IsCalm s after
Step-IsCalm {s} {after} (trips now t new u h) quiet = elim (trip-IsCalm now t s new u h) [
  | inl kept ↦ inl kept
  | inr more ↦ inr (now, t, more)
]
Step-IsCalm {lib} {s} (stops now stop new after h) quiet =
    record_stop-IsCalm lib now stop s new after h
Step-IsCalm {lib} {s} (limits now limited new after h) quiet =
    record_run_rate_limits-IsCalm lib now limited s new after h
Step-IsCalm {s} (releases now id new after h) quiet = inl (release_hold-IsCalm now id s new after h)
Step-IsCalm (resumes now actor reason expected new after h) quiet = absurd (cc)
