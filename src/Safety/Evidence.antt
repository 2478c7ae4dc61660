-- ===== src/Safety/Evidence.antt =====
-- The circuit breaker's row and its evidence agree in every state that the operations of
-- src/autocontribute/store.py reach.
use autocontribute.Base.{
  ℕ, ◌+◌, ◌≤◌, ◌<◌, String, Option, none, some, Bool, true, false, not, ◌&&◌, List, [], ◌∷◌, ◌++◌,
  length, ◌≡◌, ◌⊎◌, inl, inr, refl, ap, sym, ◌∙◌, arith, eq_iff, is_none, All, Bool-cases, subst,
}
use native.Mathlib.Nat.{le_refl}
use autocontribute.Errors.{ok, Result-cases}
use autocontribute.Lease.Cell.{is_generation, max_generation}
use autocontribute.Safety.State.{
  Trigger, tripped, BreakerEvent, Breaker, Safety, Library, new_safety,
}
use autocontribute.Safety.Breaker.{
  find_event, triggers_of, active_triggers, revision_of, trip_event, Status, circuit_breaker_status,
  cleared, resume, last, verify_evidence, is_empty, max_active_triggers, optional_revision,
  same_trigger,
}
use autocontribute.Safety.Events.{
  triggers_of-append, last-append, triggers_of-later, All-grown, All-snoc, IsUnique, IsUnique-trip,
  IsUnique-resume, last-some,
}
use autocontribute.Safety.Steps.{Step, resumes, Reach, here, next, IsCalm, Step-IsCalm}

-- The row is tripped by the latest evidence of its epoch, and clear where there is none.
pub record IsSoundAt (b : Breaker) (es : List BreakerEvent) : Type 0 where
  pub range : is_generation b.epoch ≡ true
  pub latest : last (triggers_of b.epoch es) ≡ b.evidence
  pub marked : b.is_tripped ≡ not (is_none b.evidence)
  pub past : All (λ e. e.epoch ≤ b.epoch) es
  pub unique : IsUnique es

abbrev pub IsSound : Safety → Type 0
IsSound s = IsSoundAt s.breaker s.events

grown-IsSoundAt :
    (now : ℕ) (t : Trigger) (b : Breaker) (es : List BreakerEvent)
    → find_event tripped t.trigger_hash es ≡ none
    → IsSoundAt b es
    → IsSoundAt
        (record b { is_tripped = true; changed_at = now; evidence = some t })
        (es ++ trip_event b.epoch now t ∷ [])
grown-IsSoundAt now t b es fresh sound = record {
  range = sound.range;
  latest =
      let own : triggers_of b.epoch (trip_event b.epoch now t ∷ []) ≡ t ∷ [] = ground arith in
      ap last (triggers_of-append b.epoch es (trip_event b.epoch now t ∷ []))
      ∙ ap (λ more. last (triggers_of b.epoch es ++ more)) own
      ∙ last-append (triggers_of b.epoch es) t;
  marked = refl;
  past = All-snoc b.epoch es (trip_event b.epoch now t) sound.past (le_refl _);
  unique = IsUnique-trip es b.epoch now t sound.unique fresh;
}

same-IsSoundAt :
    (b c : Breaker) (es fs : List BreakerEvent) → c ≡ b → fs ≡ es → IsSoundAt b es → IsSoundAt c fs
same-IsSoundAt b c es fs breaker events sound =
    subst (λ x. IsSoundAt x fs) (sym breaker) (subst (IsSoundAt b) (sym events) sound)

calm-IsSound : (s after : Safety) → IsCalm s after → IsSound s → IsSound after
calm-IsSound s after (inl (events, breaker)) sound =
    same-IsSoundAt s.breaker after.breaker s.events after.events breaker events sound
calm-IsSound s after (inr (now, t, more)) sound =
    same-IsSoundAt _ after.breaker _ after.events more.breaker_after more.events_after
      (grown-IsSoundAt now t s.breaker s.events more.new sound)

-- What a resumption that succeeded did: it was given the revision of all active evidence.
pub record IsResumed (lib : Library) (now : ℕ) (actor reason expected : String) (s after : Safety)
    : Type 0 where
  pub reviewed : revision_of lib (triggers_of s.breaker.epoch s.events) ≡ ok expected
  pub room : s.breaker.epoch < max_generation
  pub done : after ≡ cleared now actor reason expected s

pub resume-IsResumed :
    (lib : Library) (now : ℕ) (actor reason expected : String) (s : Safety) (new : Bool)
    (after : Safety)
    → resume lib now actor reason expected s ≡ ok (new, after)
    → ((new ≡ false) × (after ≡ s)) ⊎ IsResumed lib now actor reason expected s after
unfolding resume active_triggers
resume-IsResumed lib now actor reason expected s new after h =
    elim (Bool-cases (s.breaker.is_tripped)) [
      | inr clear ↦ inl (ground arith, ground arith)
      | inl stopped ↦ elim (Result-cases (revision_of lib (triggers_of s.breaker.epoch s.events))) [
        | inr (e, failed) ↦ absurd (ground arith)
        | inl (revision, came) ↦
            let known = eq_iff revision expected in
            inr (record {
              reviewed = ground (arith, known);
              room = ground (arith, known);
              done = ground (arith, known);
            })
      ]
    ]

cleared-IsSound :
    (now : ℕ) (actor reason revision : String) (s : Safety)
    → s.breaker.epoch < max_generation
    → IsSound s
    → IsSound (cleared now actor reason revision s)
cleared-IsSound now actor reason revision s room sound = record {
  range = ground (arith, sound.range);
  latest = ap last (
      triggers_of-later s.breaker.epoch _
        (All-snoc s.breaker.epoch s.events _ sound.past (le_refl _)));
  marked = refl;
  past =
      All-grown s.breaker.epoch (s.breaker.epoch + 1) _ (omega arith)
        (All-snoc s.breaker.epoch s.events _ sound.past (le_refl _));
  unique = IsUnique-resume s.events _ sound.unique refl;
}

pub Step-IsSound : {lib : Library} {s after : Safety} → Step lib s after → IsSound s → IsSound after
Step-IsSound {s} {after} (resumes now actor reason expected new u h) sound =
    elim (resume-IsResumed _ now actor reason expected s new u h) [
      | inl (old, same) ↦ subst IsSound (sym same) sound
      | inr r ↦
          subst IsSound (sym r.done) (cleared-IsSound now actor reason expected s r.room sound)
    ]
Step-IsSound {s} {after} st sound = calm-IsSound s after (Step-IsCalm st refl) sound

pub new_safety-IsSound : (now : ℕ) → IsSound (new_safety now)
new_safety-IsSound now = record {
  range = refl;
  latest = refl;
  marked = refl;
  past = tt;
  unique = λ e m. elim m [ ];
}

pub Reach-IsSound : {lib : Library} {s t : Safety} → IsSound s → Reach lib s t → IsSound t
Reach-IsSound sound here = sound
Reach-IsSound sound (next r st) = Step-IsSound st (Reach-IsSound sound r)

same_trigger_lem :
    (active : List Trigger) (o : Option Trigger)
    → last active ≡ o
    → not (is_empty active) && not (same_trigger (last active) o) ≡ false
same_trigger_lem active none e = rw (last-some active, e) refl
same_trigger_lem active (some t) e = rw e (
    ground (
      arith,
      eq_iff t.source t.source,
      eq_iff t.reason t.reason,
      eq_iff t.trigger_hash t.trigger_hash,
    ))

-- In every state that the operations reach from a new store, while an epoch has at most the bounded
-- number of triggers, the breaker's status can be read and its evidence verifies: it is tripped
-- exactly when its epoch has active triggers, the latest of which its row names.
pub evidence_verified :
    (lib : Library) (now : ℕ) (s : Safety)
    → Reach lib (new_safety now) s
    → length (triggers_of s.breaker.epoch s.events) ≤ max_active_triggers
    → (verify_evidence s ≡ ok tt)
      × ((status : Status) × (circuit_breaker_status lib s ≡ ok status)
          × (status.is_tripped ≡ not (is_empty status.active_triggers))
          × (status.active_triggers ≡ triggers_of s.breaker.epoch s.events)
          × (last status.active_triggers ≡ status.evidence))
unfolding verify_evidence circuit_breaker_status active_triggers
evidence_verified lib now s reached few =
    let sound = Reach-IsSound (new_safety-IsSound now) reached in
    let active = triggers_of s.breaker.epoch s.events in
    let status : Status = record {
      is_tripped = s.breaker.is_tripped;
      epoch = s.breaker.epoch;
      changed_at = s.breaker.changed_at;
      evidence = s.breaker.evidence;
      active_revision = optional_revision lib active;
      active_triggers = active;
    } in
    let marked : s.breaker.is_tripped ≡ not (is_empty active) =
      sound.marked
      ∙ ap (λ o. not (is_none o)) (sym sound.latest)
      ∙ ap not (sym (last-some active)) in
    (
      ground (
        arith,
        marked,
        sound.range,
        few,
        same_trigger_lem active s.breaker.evidence sound.latest,
      ),
      (status, ground (arith, marked, sound.range, sound.marked, few), marked, refl, sound.latest),
    )
