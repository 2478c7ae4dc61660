-- ===== src/Ledger/Appended.antt =====
-- The invariant of the ledger, and what an append does to the runs that it covers.
use autocontribute.Base.{
  ℕ, ◌+◌, ◌<◌, String, Option, none, some, true, false, List, [], ◌∷◌, ◌++◌, map, str_eq, eq_iff,
  ◌≡◌, ◌⊎◌, inl, inr, refl, ap, sym, ◌∙◌, arith, All, Bool-cases, Option-cases, subst,
}
use mathlib.Core.List.{Memᴰ}
use autocontribute.Errors.{ok}
use autocontribute.Ledger.Chain.{
  Payload, EventRow, RunRow, Ledger, Hashing, initial_event_hash, is_event_hash, events_of,
  find_run, set_anchor, insert_run, new_event, with_event, append_event, link,
}
use autocontribute.Ledger.Follow.{follow, follow-snoc}
use autocontribute.Ledger.Rows.{IsDistinct, events_of-snoc, append_empty}

-- A sequence of calls that succeeded: `create_run` inserts a run and its first event in one
-- transaction, and any other call appends one.
pub data Reach (lib : Hashing) : Ledger → Type 0 where
  empty : Reach lib (record { runs = []; events = [] })
  creates :
      {before : Ledger}
      → Reach lib before
      → (now : String) (occurred_at : Option String) (run_id event_type details : String)
        (inserted after : Ledger)
      → str_eq run_id "" ≡ false
      → insert_run run_id before ≡ ok inserted
      → append_event lib now occurred_at run_id event_type details inserted ≡ ok after
      → Reach lib after
  appends :
      {before : Ledger}
      → Reach lib before
      → (now : String) (occurred_at : Option String) (run_id event_type details : String)
        (after : Ledger)
      → append_event lib now occurred_at run_id event_type details before ≡ ok after
      → Reach lib after

-- a run's anchor is the head of its chain
pub record IsAnchored (lib : Hashing) (events : List EventRow) (r : RunRow) : Type 0 where
  pub named : str_eq r.run_id "" ≡ false
  pub hashed : is_event_hash r.event_head_hash ≡ true
  pub chain :
      follow lib (events_of r.run_id events) (0, initial_event_hash)
      ≡ ok (r.event_count, r.event_head_hash)

-- every run but the pending one has an event
abbrev pub IsCounted : String → RunRow → Type 0
IsCounted pending r = str_eq r.run_id pending ≡ false → 0 < r.event_count

pub record IsSound (lib : Hashing) (pending : String) (l : Ledger) : Type 0 where
  pub distinct : IsDistinct l.runs
  pub anchored : All (IsAnchored lib l.events) l.runs
  pub counted : All (IsCounted pending) l.runs
  -- the foreign key of `events`
  pub known : (k : String) → find_run k l.runs ≡ none → events_of k l.events ≡ []

pub link-new :
    (lib : Hashing) (now : String) (occurred_at : Option String)
    (run_id event_type details : String) (count : ℕ) (previous : String)
    → ((p : Payload) → is_event_hash (lib.sha256 p) ≡ true)
    → is_event_hash previous ≡ true
    → (let e = new_event lib now occurred_at run_id event_type details previous in
        link lib e (count, previous) ≡ ok (count + 1, e.event_hash))
unfolding link
link-new lib now occurred_at run_id event_type details count previous hex ok_hash =
    let e = new_event lib now occurred_at run_id event_type details previous in
    ground (arith, hex e.payload, eq_iff previous previous, eq_iff e.event_hash e.event_hash)

pub All-anchors :
    (lib : Hashing) (run_id : String) (n : ℕ) (h : String) (before after : List EventRow)
    (rs : List RunRow)
    → ((r : RunRow)
        → Memᴰ r rs
        → IsAnchored lib before r
        → IsAnchored lib after (set_anchor run_id n h r))
    → All (IsAnchored lib before) rs
    → All (IsAnchored lib after) (map (set_anchor run_id n h) rs)
All-anchors lib run_id n h before after [] step anchored = tt
All-anchors lib run_id n h before after (r ∷ rs) step (a, anchored) = (
  step r (Memᴰ.head refl) a,
  All-anchors lib run_id n h before after rs (λ x m b. step x (Memᴰ.tail m) b) anchored,
)

pub All-anchored-more :
    (pending : String) (run_id : String) (n : ℕ) (h : String) (rs : List RunRow)
    → (str_eq run_id pending ≡ true) ⊎ (pending ≡ "")
    → All (λ r. str_eq r.run_id "" ≡ false) rs
    → All (IsCounted pending) rs
    → All (IsCounted "") (map (set_anchor run_id (n + 1) h) rs)
All-anchored-more pending run_id n h [] or_none named counted = tt
All-anchored-more pending run_id n h (r ∷ rs) or_none (name, named) (c, counted) = (
  λ any_name. elim (Bool-cases (str_eq r.run_id run_id)) [
    | inl mine ↦ ground arith
    | inr other ↦ ground (arith, name, c, or_none, eq_iff run_id pending)
  ],
  All-anchored-more pending run_id n h rs or_none named counted,
)

pub All-named :
    (lib : Hashing) (events : List EventRow) (rs : List RunRow)
    → All (IsAnchored lib events) rs
    → All (λ r. str_eq r.run_id "" ≡ false) rs
All-named lib events [] anchored = tt
All-named lib events (r ∷ rs) (a, anchored) = (a.named, All-named lib events rs anchored)

-- What an append that succeeded did.
pub append_event-done :
    (lib : Hashing) (now : String) (occurred_at : Option String)
    (run_id event_type details : String) (l after : Ledger)
    → append_event lib now occurred_at run_id event_type details l ≡ ok after
    → (row : RunRow) × (find_run run_id l.runs ≡ some row)
      × (is_event_hash row.event_head_hash ≡ true)
      × (after
          ≡ with_event run_id row
              (new_event lib now occurred_at run_id event_type details row.event_head_hash)
              l)
unfolding append_event
append_event-done lib now occurred_at run_id event_type details l after h =
    elim (Option-cases (find_run run_id l.runs)) [
      | inl unknown ↦ absurd (ground arith)
      | inr (row, found) ↦ (row, found, ground arith, ground arith)
    ]

module _ (lib : Hashing) (run_id : String) (row : RunRow) (e : EventRow)
    (events : List EventRow) where
  pub IsAnchored-append :
      str_eq e.payload.run_id run_id ≡ true
      → is_event_hash e.event_hash ≡ true
      → link lib e (row.event_count, row.event_head_hash) ≡ ok (row.event_count + 1, e.event_hash)
      → (r : RunRow) → (str_eq r.run_id run_id ≡ true → r ≡ row)
      → IsAnchored lib events r
      → IsAnchored lib (events ++ e ∷ []) (set_anchor run_id (row.event_count + 1) e.event_hash r)
  IsAnchored-append own hex linked r only a =
      let grown = events_of-snoc r.run_id events e in
      let name = eq_iff e.payload.run_id run_id in
      elim (Bool-cases (str_eq r.run_id run_id)) [
        | inr other ↦
            let kept : set_anchor run_id (row.event_count + 1) e.event_hash r ≡ r = ground arith in
            let miss : str_eq e.payload.run_id r.run_id ≡ false =
              ground (arith, name, eq_iff e.payload.run_id r.run_id, eq_iff r.run_id run_id) in
            let same : events_of r.run_id (events ++ e ∷ []) ≡ events_of r.run_id events ++ [] =
              ground (arith, grown) in
            subst (IsAnchored lib (events ++ e ∷ [])) (sym kept) (record {
              named = a.named;
              hashed = a.hashed;
              chain =
                  ap (λ es. follow lib es (0, initial_event_hash)) (same ∙ append_empty _)
                  ∙ a.chain;
            })
        | inl mine ↦
            let is_row = only mine in
            let set : set_anchor run_id (row.event_count + 1) e.event_hash r
                ≡ record r { event_count = row.event_count + 1; event_head_hash = e.event_hash } =
              ground arith in
            let hit : str_eq e.payload.run_id r.run_id ≡ true =
              ground (arith, name, eq_iff e.payload.run_id r.run_id, eq_iff r.run_id run_id) in
            let more : events_of r.run_id (events ++ e ∷ []) ≡ events_of r.run_id events ++ e ∷ [] =
              ground (arith, grown) in
            subst (IsAnchored lib (events ++ e ∷ [])) (sym set) (record {
              named = a.named;
              hashed = hex;
              chain =
                  ap (λ es. follow lib es (0, initial_event_hash)) more
                  ∙ follow-snoc lib (events_of r.run_id events) e _ _ a.chain
                  ∙ ap (λ x. link lib e (x.event_count, x.event_head_hash)) is_row
                  ∙ linked;
            })
      ]
