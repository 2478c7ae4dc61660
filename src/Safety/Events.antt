-- ===== src/Safety/Events.antt =====
-- Lemmas on `circuit_breaker_events` of src/autocontribute/store.py as it grows.
use autocontribute.Base.{
  ℕ, ◌+◌, ◌≤◌, String, none, some, ◌&&◌, List, [], ◌∷◌, ◌++◌, ◌≡◌, ◌⊎◌, inl, inr, refl, ap, arith,
  str_eq, eq_iff, is_none, if◌then◌else◌, All, Bool-cases,
}
use mathlib.Core.List.{Memᴰ}
use autocontribute.Safety.State.{Trigger, tripped, resumed, BreakerEvent}
use autocontribute.Safety.Breaker.{same_kind, find_event, triggers_of, trip_event, last, is_empty}

pub triggers_of-append :
    (k : ℕ) (xs ys : List BreakerEvent)
    → triggers_of k (xs ++ ys) ≡ triggers_of k xs ++ triggers_of k ys
triggers_of-append k [] ys = refl
triggers_of-append k (x ∷ xs) ys = let ih = triggers_of-append k xs ys in ground (arith, ih)

pub last-append : (ts : List Trigger) (t : Trigger) → last (ts ++ t ∷ []) ≡ some t
last-append [] t = refl
last-append (x ∷ xs) t = rw (last-append xs t) refl

pub triggers_of-later :
    (n : ℕ) (es : List BreakerEvent) → All (λ e. e.epoch ≤ n) es → triggers_of (n + 1) es ≡ []
triggers_of-later n [] past = refl
triggers_of-later n (e ∷ es) past =
    let ih = triggers_of-later n es past.1 in ground (arith, ih, past.0)

pub All-grown :
    (m n : ℕ) (es : List BreakerEvent)
    → m ≤ n
    → All (λ e. e.epoch ≤ m) es
    → All (λ e. e.epoch ≤ n) es
All-grown m n [] le past = tt
All-grown m n (e ∷ es) le past = (omega (arith, past.0), All-grown m n es le past.1)

pub All-snoc :
    (n : ℕ) (es : List BreakerEvent) (e : BreakerEvent)
    → All (λ x. x.epoch ≤ n) es
    → e.epoch ≤ n
    → All (λ x. x.epoch ≤ n) (es ++ e ∷ [])
All-snoc n [] e past le = (le, tt)
All-snoc n (x ∷ es) e past le = (past.0, All-snoc n es e past.1 le)

-- Every trip event is the one that its hash finds.
abbrev pub IsUnique : List BreakerEvent → Type 0
IsUnique es =
    (e : BreakerEvent)
    → Memᴰ e es
    → e.kind ≡ tripped
    → find_event tripped e.evidence.trigger_hash es ≡ some e

pub find_event-append :
    (hash : String) (es more : List BreakerEvent) (e : BreakerEvent)
    → find_event tripped hash es ≡ some e
    → find_event tripped hash (es ++ more) ≡ some e
find_event-append hash [] more e h = absurd (cc)
find_event-append hash (x ∷ es) more e h =
    elim (Bool-cases (same_kind x.kind tripped && str_eq x.evidence.trigger_hash hash)) [
      | inl hit ↦ ground arith
      | inr miss ↦ let ih = find_event-append hash es more e (ground arith) in ground (arith, ih)
    ]

pub find_event-snoc :
    (hash : String) (es : List BreakerEvent) (e : BreakerEvent)
    → find_event tripped hash es ≡ none
    → find_event tripped hash (es ++ e ∷ [])
      ≡ (if same_kind e.kind tripped && str_eq e.evidence.trigger_hash hash then some e else none)
find_event-snoc hash [] e h = refl
find_event-snoc hash (x ∷ es) e h =
    elim (Bool-cases (same_kind x.kind tripped && str_eq x.evidence.trigger_hash hash)) [
      | inl hit ↦ absurd (ground arith)
      | inr miss ↦ let ih = find_event-snoc hash es e (ground arith) in ground (arith, ih)
    ]

pub Mem-snoc :
    (es : List BreakerEvent) (e x : BreakerEvent) → Memᴰ x (es ++ e ∷ []) → Memᴰ x es ⊎ (x ≡ e)
Mem-snoc [] e x (Memᴰ.head same) = inr same
Mem-snoc [] e x (Memᴰ.tail m) = elim m [ ]
Mem-snoc (y ∷ es) e x (Memᴰ.head same) = inl (Memᴰ.head same)
Mem-snoc (y ∷ es) e x (Memᴰ.tail m) = elim (Mem-snoc es e x m) [
  | inl old ↦ inl (Memᴰ.tail old)
  | inr new ↦ inr new
]

pub IsUnique-trip :
    (es : List BreakerEvent) (k now : ℕ) (t : Trigger)
    → IsUnique es
    → find_event tripped t.trigger_hash es ≡ none
    → IsUnique (es ++ trip_event k now t ∷ [])
IsUnique-trip es k now t unique fresh e m is_trip = elim (Mem-snoc es (trip_event k now t) e m) [
  | inl old ↦ find_event-append _ es _ e (unique e old is_trip)
  | inr same ↦
      let found : find_event tripped t.trigger_hash (es ++ trip_event k now t ∷ [])
          ≡ some (trip_event k now t) =
        ground (
          arith,
          find_event-snoc t.trigger_hash es (trip_event k now t),
          eq_iff t.trigger_hash t.trigger_hash,
        ) in
      cc (
        ap
          (λ (x : BreakerEvent).
            find_event tripped x.evidence.trigger_hash (es ++ trip_event k now t ∷ []))
          same)
]

pub IsUnique-resume :
    (es : List BreakerEvent) (r : BreakerEvent)
    → IsUnique es
    → r.kind ≡ resumed
    → IsUnique (es ++ r ∷ [])
IsUnique-resume es r unique kind e m is_trip = elim (Mem-snoc es r e m) [
  | inl old ↦ find_event-append _ es _ e (unique e old is_trip)
  | inr same ↦ absurd (cc (ap (λ (x : BreakerEvent). x.kind) same))
]

pub last-some : (ts : List Trigger) → is_empty ts ≡ is_none (last ts)
last-some [] = refl
last-some (t ∷ ts) = ground arith
