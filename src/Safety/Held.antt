-- ===== src/Safety/Held.antt =====
-- A hold stops what its scope names until it expires or an operator releases it (record_stop,
-- release_hold and assert_publication_not_held of src/autocontribute/store.py).
use autocontribute.Base.{
  ℕ, ◌+◌, String, Option, Bool, true, false, List, [], ◌∷◌, ◌++◌, length, ◌≡◌, ◌⊎◌, inl, inr, refl,
  ap, sym, ◌∙◌, arith, ◌==◌, any, keep, map, Option-cases, Bool-cases, subst,
}
use mathlib.Core.List.{Memᴰ}
use autocontribute.Errors.{policy_error, ok, err}
use autocontribute.Safety.State.{Trigger, Stop, globally, HoldRow, Safety, Library}
use autocontribute.Safety.Breaker.{trip, resume}
use autocontribute.Safety.Holds.{
  scope_eq, find_hold, new_hold, with_hold, escalate, hold, record_stop, record_run_rate_limits,
  release_row, release_hold, is_active, active_holds, applies, assert_publication_not_held,
}
use autocontribute.Safety.Evidence.{resume-IsResumed}
use autocontribute.Safety.Steps.{Step, trips, stops, limits, releases, resumes}

-- the release of the hold with this id
abbrev pub frees : {lib : Library} {s t : Safety} → ℕ → Step lib s t → Bool
frees id (releases _ other _ _ _) = other == id
frees id _ = false

-- the calls since then, none of which released the hold
pub data Unreleased (lib : Library) (id : ℕ) (s : Safety) : Safety → Type 0 where
  start : Unreleased lib id s s
  later :
      {t u : Safety}
      → Unreleased lib id s t
      → (st : Step lib t u) → frees id st ≡ false
      → Unreleased lib id s u

trip-holds :
    (now : ℕ) (t : Trigger) (s : Safety) (new : Bool) (after : Safety)
    → trip now t s ≡ ok (new, after)
    → after.holds ≡ s.holds
unfolding trip
trip-holds now t s new after h = ground arith

escalate-holds :
    (lib : Library) (now : ℕ) (stop : Stop) (s : Safety) (new : Bool) (after : Safety)
    → escalate lib now stop s ≡ ok (new, after)
    → after.holds ≡ s.holds
unfolding escalate trip
escalate-holds lib now stop s new after h = ground arith

-- a stop keeps the holds, or adds its own
record_stop-holds :
    (lib : Library) (now : ℕ) (stop : Stop) (s : Safety) (new : Bool) (after : Safety)
    → record_stop lib now stop s ≡ ok (new, after)
    → (after.holds ≡ s.holds) ⊎ (after.holds ≡ (with_hold now stop s).holds)
unfolding record_stop hold
record_stop-holds lib now stop s new after h = elim (Bool-cases (scope_eq stop.scope globally)) [
  | inl global ↦ inl (trip-holds now stop.evidence s new after (ground arith))
  | inr part ↦ elim (Option-cases (find_hold stop.evidence.trigger_hash s.holds)) [
    | inr (row, known) ↦ inl (ground arith)
    | inl fresh ↦ inr (escalate-holds lib now stop (with_hold now stop s) new after (ground arith))
  ]
]

-- a stop whose evidence is new and that is not global adds its own
record_stop-held :
    (lib : Library) (now : ℕ) (stop : Stop) (s after : Safety)
    → scope_eq stop.scope globally ≡ false
    → record_stop lib now stop s ≡ ok (true, after)
    → after.holds ≡ (with_hold now stop s).holds
unfolding record_stop hold
record_stop-held lib now stop s after part h =
    elim (Option-cases (find_hold stop.evidence.trigger_hash s.holds)) [
      | inr (row, known) ↦ absurd (ground arith)
      | inl fresh ↦ escalate-holds lib now stop (with_hold now stop s) true after (ground arith)
    ]

record_run_rate_limits-holds :
    (lib : Library) (now : ℕ) (limited : Bool) (s : Safety) (new : Bool) (after : Safety)
    → record_run_rate_limits lib now limited s ≡ ok (new, after)
    → after.holds ≡ s.holds
unfolding record_run_rate_limits trip
record_run_rate_limits-holds lib now limited s new after h = ground arith

resume-holds :
    (lib : Library) (now : ℕ) (actor reason expected : String) (s : Safety) (new : Bool)
    (after : Safety)
    → resume lib now actor reason expected s ≡ ok (new, after)
    → after.holds ≡ s.holds
resume-holds lib now actor reason expected s new after h =
    elim (resume-IsResumed lib now actor reason expected s new after h) [
      | inl (old, same) ↦ ap (λ x. x.holds) same
      | inr r ↦ ap (λ x. x.holds) r.done
    ]

Mem-append : (hs : List HoldRow) (h x : HoldRow) → Memᴰ x hs → Memᴰ x (hs ++ h ∷ [])
Mem-append [] h x m = elim m [ ]
Mem-append (y ∷ hs) h x (Memᴰ.head same) = Memᴰ.head same
Mem-append (y ∷ hs) h x (Memᴰ.tail m) = Memᴰ.tail (Mem-append hs h x m)

Mem-last : (hs : List HoldRow) (h : HoldRow) → Memᴰ h (hs ++ h ∷ [])
Mem-last [] h = Memᴰ.head refl
Mem-last (y ∷ hs) h = Memᴰ.tail (Mem-last hs h)

Mem-released :
    (now id : ℕ) (hs : List HoldRow) (x : HoldRow)
    → (id == x.id) ≡ false
    → Memᴰ x hs
    → Memᴰ x (map (release_row now id) hs)
Mem-released now id [] x other m = elim m [ ]
Mem-released now id (y ∷ hs) x other (Memᴰ.head same) = Memᴰ.head (ground (arith, same))
Mem-released now id (y ∷ hs) x other (Memᴰ.tail m) = Memᴰ.tail (Mem-released now id hs x other m)

Step-Mem :
    {lib : Library} {s t : Safety} (x : HoldRow) (st : Step lib s t)
    → frees x.id st ≡ false
    → Memᴰ x s.holds
    → Memᴰ x t.holds
unfolding release_hold
Step-Mem {s} x (trips now tr new after h) quiet m =
    subst (Memᴰ x) (sym (trip-holds now tr s new after h)) m
Step-Mem {lib} {s} x (stops now stop new after h) quiet m =
    elim (record_stop-holds lib now stop s new after h) [
      | inl same ↦ subst (Memᴰ x) (sym same) m
      | inr more ↦ subst (Memᴰ x) (sym more) (Mem-append s.holds (new_hold now stop s) x m)
    ]
Step-Mem {lib} {s} x (limits now limited new after h) quiet m =
    subst (Memᴰ x) (sym (record_run_rate_limits-holds lib now limited s new after h)) m
Step-Mem {s} x (releases now id new after h) quiet m =
    let freed : after.holds ≡ map (release_row now id) s.holds = ground arith in
    subst (Memᴰ x) (sym freed) (Mem-released now id s.holds x quiet m)
Step-Mem {lib} {s} x (resumes now actor reason expected new after h) quiet m =
    subst (Memᴰ x) (sym (resume-holds lib now actor reason expected s new after h)) m

Unreleased-Mem :
    {lib : Library} (x : HoldRow) {s t : Safety}
    → Unreleased lib x.id s t
    → Memᴰ x s.holds
    → Memᴰ x t.holds
Unreleased-Mem x start m = m
Unreleased-Mem x (later r st quiet) m = Step-Mem x st quiet (Unreleased-Mem x r m)

any-keep :
    (p q : HoldRow → Bool) (hs : List HoldRow) (x : HoldRow)
    → p x ≡ true
    → q x ≡ true
    → Memᴰ x hs
    → any p (keep q hs) ≡ true
any-keep p q [] x hp hq m = elim m [ ]
any-keep p q (y ∷ hs) x hp hq (Memᴰ.head same) =
    let here_p : p y ≡ true = ap p (sym same) ∙ hp in
    let here_q : q y ≡ true = ap q (sym same) ∙ hq in ground arith
any-keep p q (y ∷ hs) x hp hq (Memᴰ.tail m) = let ih = any-keep p q hs x hp hq m in ground arith

-- A stop of a publication, a repository or a pull request holds what it names: once `record_stop` has
-- returned True for it, `assert_publication_not_held` raises PolicyError for every publication that
-- it applies to, whatever is recorded, released or resumed meanwhile, until that hold is released
-- or its time is over.
pub held_until_released :
    (lib : Library) (now at : ℕ) (stop : Stop) (s after t : Safety) (repo : String)
    (url : Option String)
    → scope_eq stop.scope globally ≡ false
    → record_stop lib now stop s ≡ ok (true, after)
    → Unreleased lib (length s.holds + 1) after t
    → is_active at (new_hold now stop s) ≡ true
    → applies lib repo url (new_hold now stop s) ≡ true
    → assert_publication_not_held lib at repo url t ≡ err policy_error
unfolding assert_publication_not_held active_holds
held_until_released lib now at stop s after t repo url part h r live names =
    let added = record_stop-held lib now stop s after part h in
    let row = new_hold now stop s in
    let there : Memᴰ row after.holds = subst (Memᴰ row) (sym added) (Mem-last s.holds row) in
    let found =
      any-keep (applies lib repo url) (is_active at) t.holds row names live
        (Unreleased-Mem row r there) in
    ground arith
