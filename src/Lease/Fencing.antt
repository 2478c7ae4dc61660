-- ===== src/Lease/Fencing.antt =====
-- A lease's generation names one period of ownership: no two owners are ever granted the same one,
-- and a holder that has been replaced is refused for good.
use autocontribute.Base.{
  ℕ, ◌≤◌, ◌<◌, ◌≡◌, ◌≢◌, refl, inl, inr, String, subst, none, some, List, [], ◌∷◌, arith, eq_iff,
  Option-cases, sym, ap, ◌∙◌,
}
use autocontribute.Errors.{Error, ok, err, Result-cases}
use native.Mathlib.Nat.{le_refl, le_trans}
use mathlib.Core.List.{Memᴰ}
use autocontribute.Lease.Cell.{Row, Cell, acquire, heartbeat, release, assert_lease}
use autocontribute.Lease.Grants.{
  issued_up_to, IsGrant, acquire-IsGrant, heartbeat-quiet, release-quiet, assert_lease-latest,
}

-- One lease name's rows, with every grant so far: who was granted which generation.
pub record System : Type 0 where
  pub cell : Cell
  pub grants : List (String × ℕ)

abbrev pub unused : System
unused = record { cell = record { row = none; counter = none }; grants = [] }

-- Any call that writes, at any time, by any caller; a call that raises or is refused writes nothing.
pub data Step (s : System) : System → Type 0 where
  acquires :
      (owner : String) (now ttl : ℕ) (later : Cell) (row : Row)
      → acquire owner now ttl s.cell ≡ ok (some later)
      → later.row ≡ some row
      → Step s (record { cell = later; grants = (owner, row.generation) ∷ s.grants })
  heartbeats :
      (owner : String) (generation now ttl : ℕ) (later : Cell)
      → heartbeat owner generation now ttl s.cell ≡ ok (some later)
      → Step s (record s { cell = later })
  releases :
      (owner : String) (generation : ℕ) (later : Cell)
      → release owner generation s.cell ≡ ok (some later)
      → Step s (record s { cell = later })
  releases_all : Step s (record s { cell = record (s.cell) { row = none } })

pub data Reach (s : System) : System → Type 0 where
  here : Reach s s
  next : {t u : System} → Reach s t → Step t u → Reach s u

-- Every grant is of a generation handed out, one generation has one owner, and the held row has the
-- owner that its generation was granted to.
record IsSound (s : System) : Type 0 where
  past : (o : String) (g : ℕ) → Memᴰ (o, g) s.grants → g ≤ issued_up_to s.cell.counter
  unique : (o p : String) (g : ℕ) → Memᴰ (o, g) s.grants → Memᴰ (p, g) s.grants → o ≡ p
  holder :
      (row : Row)
      → s.cell.row ≡ some row
      → (s.cell.counter ≡ some (row.generation))
        × ((o : String) → Memᴰ (o, row.generation) s.grants → o ≡ row.owner)

-- An operation that grants nothing and keeps the counter keeps the invariant, if it keeps the
-- held row's owner and generation or drops the row.
quiet-IsSound :
    (s : System) (later : Cell)
    → later.counter ≡ s.cell.counter
    → ((row : Row)
        → later.row ≡ some row
        → (old : Row) × (s.cell.row ≡ some old)
          × (old.owner ≡ row.owner)
          × (old.generation ≡ row.generation))
    → IsSound s
    → IsSound (record s { cell = later })
quiet-IsSound s later same from sound = record {
  past = λ o g m. rw same (sound.past o g m);
  unique = sound.unique;
  holder = λ row e.
      let (old, eo, own, gen) = from row e in
      let (counted, only) = sound.holder old eo in
      (same ∙ counted ∙ ap some gen, λ o m. only o (rw gen m) ∙ own);
}

grant-IsSound :
    (s : System) (owner : String) (later : Cell) (row : Row)
    → IsGrant owner s.cell later row
    → IsSound s
    → IsSound (record { cell = later; grants = (owner, row.generation) ∷ s.grants })
grant-IsSound s owner later row grant sound = record {
  past = past;
  unique = unique;
  holder = λ held e.
      let same : held ≡ row = cc (grant.held) in
      (grant.counted ∙ ap (λ r. some (r.generation)) (sym same), owned held same);
}
  where
    only : (o : String) → Memᴰ (o, row.generation) s.grants → o ≡ owner
    only o m = elim (grant.fresh) [
      | inl newer ↦ absurd (omega (arith, sound.past o row.generation m))
      | inr (old, eo, own, gen) ↦ (sound.holder old eo).1 o (rw gen m) ∙ own
    ]

    grown : issued_up_to s.cell.counter ≤ row.generation
    grown = elim (grant.fresh) [
      | inl newer ↦ omega arith
      | inr (old, eo, own, gen) ↦ rw ((sound.holder old eo).0, gen) (le_refl _)
    ]

    owner_at :
        (o : String) (g : ℕ)
        → g ≡ row.generation
        → Memᴰ (o, g) ((owner, row.generation) ∷ s.grants)
        → o ≡ owner
    owner_at o g same (Memᴰ.head e) = ap (λ p. p.0) e
    owner_at o g same (Memᴰ.tail m) = only o (rw same at m)

    past :
        (o : String) (g : ℕ)
        → Memᴰ (o, g) ((owner, row.generation) ∷ s.grants)
        → g ≤ issued_up_to later.counter
    past o g (Memᴰ.head e) = rw grant.counted (rw (ap (λ p. p.1) e) (le_refl _))
    past o g (Memᴰ.tail m) = rw grant.counted (le_trans (sound.past o g m) grown)

    unique :
        (o p : String) (g : ℕ)
        → Memᴰ (o, g) ((owner, row.generation) ∷ s.grants)
        → Memᴰ (p, g) ((owner, row.generation) ∷ s.grants)
        → o ≡ p
    unique o p g (Memᴰ.head e) m = ap (λ q. q.0) e ∙ sym (owner_at p g (ap (λ q. q.1) e) m)
    unique o p g (Memᴰ.tail m) (Memᴰ.head e) =
        owner_at o g (ap (λ q. q.1) e) (Memᴰ.tail m) ∙ sym (ap (λ q. q.0) e)
    unique o p g (Memᴰ.tail m) (Memᴰ.tail n) = sound.unique o p g m n

    owned :
        (held : Row)
        → held ≡ row
        → (o : String) → Memᴰ (o, held.generation) ((owner, row.generation) ∷ s.grants)
        → o ≡ held.owner
    owned held same o m =
        owner_at o held.generation (ap (λ r. r.generation) same) m
        ∙ sym grant.own
        ∙ ap (λ r. r.owner) (sym same)

Step-IsSound : {s t : System} → Step s t → IsSound s → IsSound t
Step-IsSound {s} (acquires owner now ttl later row h e) sound =
    let (found, grant) = acquire-IsGrant owner now ttl s.cell later h in
    let same : found ≡ row = cc (grant.held) in
    grant-IsSound s owner later row (subst (IsGrant owner s.cell later) same grant) sound
Step-IsSound {s} (heartbeats owner generation now ttl later h) sound =
    let (same, from) = heartbeat-quiet owner generation now ttl s.cell later h in
    quiet-IsSound s later same from sound
Step-IsSound {s} (releases owner generation later h) sound =
    let (same, gone) = release-quiet owner generation s.cell later h in
    quiet-IsSound s later same (λ row e. absurd (cc)) sound
Step-IsSound {s} releases_all sound =
    quiet-IsSound s (record (s.cell) { row = none }) refl (λ row e. absurd (cc)) sound

Reach-IsSound : {s t : System} → IsSound s → Reach s t → IsSound t
Reach-IsSound sound here = sound
Reach-IsSound sound (next r st) = Step-IsSound st (Reach-IsSound sound r)

unused-IsSound : IsSound unused
unused-IsSound = record {
  past = λ o g m. elim m [ ];
  unique = λ o p g m. elim m [ ];
  holder = λ row e. absurd (cc);
}

-- From a lease nobody has used, whatever calls are made at whatever times, restores that drop every
-- lease included, one generation is never granted to two owners.
pub generation_unique :
    (s : System) (o p : String) (g : ℕ)
    → Reach unused s
    → Memᴰ (o, g) s.grants
    → Memᴰ (p, g) s.grants
    → o ≡ p
generation_unique s o p g r = (Reach-IsSound unused-IsSound r).unique o p g

issued_mono :
    {s t : System}
    → Step s t
    → IsSound s
    → issued_up_to s.cell.counter ≤ issued_up_to t.cell.counter
issued_mono {s} (acquires owner now ttl later row h e) sound =
    let (found, grant) = acquire-IsGrant owner now ttl s.cell later h in
    elim (grant.fresh) [
      | inl newer ↦ rw grant.counted (omega arith)
      | inr (old, eo, own, gen) ↦ rw (grant.counted, (sound.holder old eo).0, gen) (le_refl _)
    ]
issued_mono {s} (heartbeats owner generation now ttl later h) sound =
    rw ((heartbeat-quiet owner generation now ttl s.cell later h).0) (le_refl _)
issued_mono {s} (releases owner generation later h) sound =
    rw ((release-quiet owner generation s.cell later h).0) (le_refl _)
issued_mono {s} releases_all sound = le_refl _

issued-Reach-mono :
    {s t : System}
    → IsSound s
    → Reach s t
    → issued_up_to s.cell.counter ≤ issued_up_to t.cell.counter
issued-Reach-mono sound here = le_refl _
issued-Reach-mono sound (next r st) =
    le_trans (issued-Reach-mono sound r) (issued_mono st (Reach-IsSound sound r))

-- A holder is fenced out for good once a later generation has been handed out: in every state
-- reached from there, for a lease that began unused, `assert_lease` raises for the earlier
-- generation, under any owner's name and at any time.
pub superseded_refused :
    (s t : System) (owner : String) (g now : ℕ)
    → Reach unused s
    → g < issued_up_to s.cell.counter
    → Reach s t
    → (e : Error) × (assert_lease owner g now t.cell ≡ err e)
superseded_refused s t owner g now r behind later =
    elim (Result-cases (assert_lease owner g now t.cell)) [
      | inl (row, confirmed) ↦
          let (latest, held, own, live) = assert_lease-latest owner g now t.cell row confirmed in
          absurd (ground (arith, issued-Reach-mono (Reach-IsSound unused-IsSound r) later))
      | inr refused ↦ refused
    ]

-- While a worker's lease is confirmed no other owner can take it: `acquire_lease` with a time to live
-- above zero refuses.
pub confirmed_exclusive :
    (owner other : String) (g now ttl : ℕ) (cell : Cell) (row : Row)
    → assert_lease owner g now cell ≡ ok row
    → other ≢ owner
    → 0 < ttl
    → acquire other now ttl cell ≡ ok none
unfolding assert_lease acquire
confirmed_exclusive owner other g now ttl cell row h ne pos = elim (Option-cases (cell.row)) [
  | inl free ↦ absurd (ground arith)
  | inr (old, e) ↦ ground (arith, eq_iff old.owner owner, eq_iff old.owner other)
]
