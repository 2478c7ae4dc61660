-- ===== src/Safety/Review.antt =====
-- A global stop stands until an operator has reviewed all of its evidence (record_stop,
-- assert_circuit_breaker_clear and resume_circuit_breaker of src/autocontribute/store.py).
use autocontribute.Base.{
  ℕ, String, none, some, true, false, ◌&&◌, List, [], ◌∷◌, ◌++◌, ◌≡◌, ◌⊎◌, inl, inr, refl, ap, sym,
  ◌∙◌, arith, eq_iff, ◌==◌, Bool-cases, subst,
}
use mathlib.Core.List.{Memᴰ}
use native.Mathlib.Nat.{le_refl}
use autocontribute.Errors.{state_error, ok, err}
use autocontribute.Lease.Cell.{is_generation}
use autocontribute.Safety.State.{
  Trigger, tripped, BreakerEvent, Safety, Library, new_safety, Stop, globally,
}
use autocontribute.Safety.Breaker.{
  same_kind, find_event, triggers_of, active_triggers, revision_of, trip, Status,
  circuit_breaker_status, assert_circuit_breaker_clear, resume, optional_revision,
}
use autocontribute.Safety.Holds.{record_stop, scope_eq}
use autocontribute.Safety.Steps.{Step, resumes, is_resumption, Reach, next, IsCalm, Step-IsCalm}
use autocontribute.Safety.Events.{triggers_of-later, All-snoc}
use autocontribute.Safety.Evidence.{
  IsSound, Step-IsSound, Reach-IsSound, new_safety-IsSound, resume-IsResumed,
}

-- the calls since then, none of which was an operator's resumption
pub data Unresumed (lib : Library) (s : Safety) : Safety → Type 0 where
  start : Unresumed lib s s
  later :
      {t u : Safety}
      → Unresumed lib s t
      → (st : Step lib t u) → is_resumption st ≡ false
      → Unresumed lib s u

calm-tripped :
    (s after : Safety)
    → IsCalm s after
    → s.breaker.is_tripped ≡ true
    → after.breaker.is_tripped ≡ true
calm-tripped s after (inl (events, breaker)) e = ap (λ b. b.is_tripped) breaker ∙ e
calm-tripped s after (inr (now, t, more)) e = ap (λ b. b.is_tripped) more.breaker_after

Unresumed-tripped :
    {lib : Library} {s t : Safety}
    → Unresumed lib s t
    → s.breaker.is_tripped ≡ true
    → t.breaker.is_tripped ≡ true
Unresumed-tripped start e = e
Unresumed-tripped (later {t} {u} r st quiet) e =
    calm-tripped t u (Step-IsCalm st quiet) (Unresumed-tripped r e)

Unresumed-Reach :
    {lib : Library} {r s t : Safety} → Reach lib r s → Unresumed lib s t → Reach lib r t
Unresumed-Reach reached start = reached
Unresumed-Reach reached (later r st quiet) = next (Unresumed-Reach reached r) st

trip-new :
    (now : ℕ) (t : Trigger) (s after : Safety)
    → trip now t s ≡ ok (true, after)
    → after.breaker.is_tripped ≡ true
unfolding trip
trip-new now t s after h = ground arith

record_stop-new :
    (lib : Library) (now : ℕ) (stop : Stop) (s after : Safety)
    → stop.scope ≡ globally
    → record_stop lib now stop s ≡ ok (true, after)
    → after.breaker.is_tripped ≡ true
unfolding record_stop
record_stop-new lib now stop s after global h =
    trip-new now stop.evidence s after (ground (arith, ap (λ x. scope_eq x globally) global))

-- A global safety event whose evidence is new stops all work: after `record_stop` has returned True
-- for it, `assert_circuit_breaker_clear` raises StateError whatever stops, rate limits and releases
-- of holds are recorded, until an operator resumes.
pub stopped_until_resumed :
    (lib : Library) (now : ℕ) (stop : Stop) (s after t : Safety)
    → stop.scope ≡ globally
    → record_stop lib now stop s ≡ ok (true, after)
    → Unresumed lib after t
    → assert_circuit_breaker_clear lib t ≡ err state_error
unfolding assert_circuit_breaker_clear circuit_breaker_status active_triggers
stopped_until_resumed lib now stop s after t global h r =
    let still = Unresumed-tripped r (record_stop-new lib now stop s after global h) in
    ground (arith, still)

reviewed-same :
    (lib : Library) (a b : List Trigger) (revision : String)
    → (lib.json_sha256 a ≡ lib.json_sha256 b → a ≡ b)
    → revision_of lib a ≡ ok revision
    → optional_revision lib b ≡ some revision
    → a ≡ b
unfolding revision_of
reviewed-same lib [] b revision inj ha hb = absurd (ground arith)
reviewed-same lib (t ∷ ts) [] revision inj ha hb = absurd (cc)
reviewed-same lib (t ∷ ts) (u ∷ us) revision inj ha hb = inj (ground arith)

Mem-cons {ℓ} : {A : Type ℓ} (x t : A) (xs : List A) → Memᴰ t (x ∷ xs) → (t ≡ x) ⊎ Memᴰ t xs
Mem-cons x t xs (Memᴰ.head same) = inl same
Mem-cons x t xs (Memᴰ.tail m) = inr m

Mem-triggers_of :
    (k : ℕ) (es : List BreakerEvent) (t : Trigger)
    → Memᴰ t (triggers_of k es)
    → (e : BreakerEvent) × Memᴰ e es × (e.kind ≡ tripped) × (e.evidence ≡ t)
Mem-triggers_of k [] t m = elim m [ ]
Mem-triggers_of k (e ∷ es) t m = elim (Bool-cases (e.epoch == k && same_kind e.kind tripped)) [
  | inr miss ↦
      let kept : triggers_of k (e ∷ es) ≡ triggers_of k es = ground arith in
      let (f, found, kind, own) = Mem-triggers_of k es t (subst (Memᴰ t) kept m) in
      (f, Memᴰ.tail found, kind, own)
  | inl hit ↦
      let taken : triggers_of k (e ∷ es) ≡ e.evidence ∷ triggers_of k es = ground arith in
      elim (Mem-cons e.evidence t (triggers_of k es) (subst (Memᴰ t) taken m)) [
        | inl same ↦ (e, Memᴰ.head refl, ground arith, sym same)
        | inr old ↦
            let (f, found, kind, own) = Mem-triggers_of k es t old in
            (f, Memᴰ.tail found, kind, own)
      ]
]

Mem-before : (es more : List BreakerEvent) (e : BreakerEvent) → Memᴰ e es → Memᴰ e (es ++ more)
Mem-before [] more e m = elim m [ ]
Mem-before (x ∷ es) more e (Memᴰ.head same) = Memᴰ.head same
Mem-before (x ∷ es) more e (Memᴰ.tail m) = Memᴰ.tail (Mem-before es more e m)

-- Evidence that is recorded already trips nothing again.
known-trip :
    (now : ℕ) (t : Trigger) (s : Safety)
    → is_generation s.breaker.epoch ≡ true
    → (e : BreakerEvent) → find_event tripped t.trigger_hash s.events ≡ some e
    → e.evidence ≡ t
    → trip now t s ≡ ok (false, s)
unfolding trip
known-trip now t s range e found own =
    ground (arith, eq_iff e.evidence.source t.source, eq_iff e.evidence.reason t.reason)

sound-clear :
    (lib : Library) (s : Safety)
    → IsSound s
    → triggers_of s.breaker.epoch s.events ≡ []
    → s.breaker.evidence ≡ none
    → assert_circuit_breaker_clear lib s ≡ ok tt
unfolding assert_circuit_breaker_clear circuit_breaker_status active_triggers
sound-clear lib s sound empty none_left = ground (arith, sound.range, sound.marked)

status-revision :
    (lib : Library) (s : Safety) (status : Status)
    → circuit_breaker_status lib s ≡ ok status
    → optional_revision lib status.active_triggers ≡ status.active_revision
unfolding circuit_breaker_status active_triggers
status-revision lib s status h = ground arith

-- An operator resumes what was reviewed and nothing else. If the revision given to a resumption that
-- succeeded is the one that an earlier status showed, with no resumption in between and no collision
-- of the two lists' hashes, then the active evidence was still the evidence shown; afterwards the
-- breaker is clear, and none of that evidence, recorded again, trips it.
pub resume_reviewed :
    (lib : Library) (created now : ℕ) (actor reason revision : String) (s t u : Safety)
    (status : Status) (at : ℕ) (seen : Trigger)
    → (let active = triggers_of t.breaker.epoch t.events in
        lib.json_sha256 active ≡ lib.json_sha256 status.active_triggers
        → active ≡ status.active_triggers)
    → Reach lib (new_safety created) s
    → circuit_breaker_status lib s ≡ ok status
    → status.active_revision ≡ some revision
    → Unresumed lib s t
    → resume lib now actor reason revision t ≡ ok (true, u)
    → Memᴰ seen status.active_triggers
    → (triggers_of t.breaker.epoch t.events ≡ status.active_triggers)
      × (assert_circuit_breaker_clear lib u ≡ ok tt)
      × (trip at seen u ≡ ok (false, u))
resume_reviewed lib created now actor reason revision s t u status at seen inj reached shown at_hand
      r h m =
    elim (resume-IsResumed lib now actor reason revision t true u h) [
      | inl (old, same) ↦ absurd (cc)
      | inr done ↦
          let before = Unresumed-Reach reached r in
          let sound_t = Reach-IsSound (new_safety-IsSound created) before in
          let resumption : Step lib t u = resumes now actor reason revision true u h in
          let sound_u : IsSound u = Step-IsSound resumption sound_t in
          let active = triggers_of t.breaker.epoch t.events in
          let agreed : active ≡ status.active_triggers =
            reviewed-same lib active status.active_triggers revision inj done.reviewed
              (status-revision lib s status shown ∙ at_hand) in
          let (e, found, kind, own) =
            Mem-triggers_of t.breaker.epoch t.events seen (subst (Memᴰ seen) (sym agreed) m) in
          let kept : Memᴰ e u.events =
            subst (Memᴰ e) (ap (λ x. x.events) (sym done.done)) (Mem-before t.events _ e found) in
          (
            agreed,
            sound-clear lib u sound_u
                (ap (λ x. triggers_of x.breaker.epoch x.events) done.done
                  ∙ triggers_of-later t.breaker.epoch _
                      (All-snoc t.breaker.epoch t.events _ sound_t.past (le_refl _)))
                (ap (λ x. x.breaker.evidence) done.done),
            known-trip at seen u sound_u.range e
                (ap (λ x. find_event tripped x.trigger_hash u.events) (sym own)
                  ∙ sound_u.unique e kept kind)
                own,
          )
    ]
