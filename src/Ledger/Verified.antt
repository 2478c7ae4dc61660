-- ===== src/Ledger/Verified.antt =====
-- Verification accepts every ledger that its own operations wrote (_verify_event_anchors of
-- src/autocontribute/store.py).
use autocontribute.Base.{
  ℕ, ◌<◌, String, Option, none, some, true, List, [], ◌∷◌, ◌++◌, keep, all, str_eq, eq_iff,
  if◌then◌else◌, ◌≡◌, inl, inr, refl, ap, sym, ◌∙◌, arith, All,
}
use autocontribute.Base.Dict.{lookup}
use autocontribute.Errors.{state_error, ok, err}
use autocontribute.Ledger.Chain.{
  Payload, EventRow, RunRow, Ledger, Hashing, initial_event_hash, is_event_hash, events_of,
  new_heads, link_all, verified_event_heads, same_anchor, selected_runs, grouped, no_run,
  verify_event_anchors,
}
use autocontribute.Ledger.Follow.{link_all-follow, lookup-middle, link_all-append, events_of-own}
use autocontribute.Ledger.Rows.{IsDistinct, append_empty}
use autocontribute.Ledger.Appended.{Reach, IsAnchored, IsCounted}
use autocontribute.Ledger.Sound.{Reach-IsSound}
use autocontribute.Ledger.Heads.{
  Heads, started, anchors, IsFresh, IsFresh-snoc, append_assoc, append_nothing, insert-snoc,
  any-no_event, IsFresh-empty, keep-selected, All-Mem,
}

module _ (lib : Hashing) (events : List EventRow) where
  new_heads-ok :
      (done : Heads) (rs : List RunRow)
      → All (IsAnchored lib events) rs
      → IsDistinct rs
      → IsFresh done rs
      → new_heads rs done ≡ ok (done ++ started rs)
  unfolding new_heads
  new_heads-ok done [] anchored d fresh = ap ok (sym (append_nothing done))
  new_heads-ok done (r ∷ rs) (a, anchored) (gone, d) (own, fresh) =
      let put = insert-snoc r.run_id (0, initial_event_hash) done own in
      let ih =
        new_heads-ok (done ++ (r.run_id, (0, initial_event_hash)) ∷ []) rs anchored d
          (IsFresh-snoc r.run_id _ done rs gone fresh) in
      let named = a.named in
      ground (arith, put, append_assoc done (r.run_id, (0, initial_event_hash)) (started rs))

  link_all-ok :
      (done : Heads) (rs : List RunRow)
      → All (IsAnchored lib events) rs
      → IsDistinct rs
      → IsFresh done rs
      → link_all lib (grouped rs events) (done ++ started rs) ≡ ok (done ++ anchors rs)
  unfolding link_all
  link_all-ok done [] anchored d fresh = refl
  link_all-ok done (r ∷ rs) (a, anchored) (gone, d) (own, fresh) =
      let own_events = events_of r.run_id events in
      let followed =
        link_all-follow lib r.run_id done (started rs) own_events (0, initial_event_hash) own
          (events_of-own r.run_id events) in
      let head : String × (ℕ × String) = (r.run_id, (r.event_count, r.event_head_hash)) in
      let ih =
        link_all-ok (done ++ head ∷ []) rs anchored d
          (IsFresh-snoc r.run_id _ done rs gone fresh) in
      let chain = a.chain in
      let split = link_all-append lib own_events (grouped rs events) (done ++ started (r ∷ rs)) in
      let before = append_assoc done head (started rs) in
      let after = append_assoc done head (anchors rs) in cc

all-same_anchor :
    (lib : Hashing) (events : List EventRow) (done : Heads) (rs : List RunRow)
    → All (IsAnchored lib events) rs
    → IsDistinct rs
    → IsFresh done rs
    → all (λ r. same_anchor r (lookup r.run_id (done ++ anchors rs))) rs ≡ true
all-same_anchor lib events done [] anchored d fresh = refl
all-same_anchor lib events done (r ∷ rs) (a, anchored) (gone, d) (own, fresh) =
    let head : String × (ℕ × String) = (r.run_id, (r.event_count, r.event_head_hash)) in
    let found =
      lookup-middle r.run_id (r.event_count, r.event_head_hash) (r.event_count, r.event_head_hash)
        done (anchors rs) own in
    let ih =
      all-same_anchor lib events (done ++ head ∷ []) rs anchored d
        (IsFresh-snoc r.run_id _ done rs gone fresh) in
    let moved : all (λ x. same_anchor x (lookup x.run_id (done ++ anchors (r ∷ rs)))) rs ≡ true =
      ap (λ heads. all (λ x. same_anchor x (lookup x.run_id heads)) rs)
        (sym (append_assoc done head (anchors rs)))
      ∙ ih in
    let hashed = a.hashed in
    ground (arith, found, moved, eq_iff r.event_head_hash r.event_head_hash)

All-counted :
    (lib : Hashing) (events : List EventRow) (rs : List RunRow)
    → All (IsAnchored lib events) rs
    → All (IsCounted "") rs
    → All (λ r. 0 < r.event_count) rs
All-counted lib events [] anchored counted = tt
All-counted lib events (r ∷ rs) (a, anchored) (c, counted) =
    (c a.named, All-counted lib events rs anchored counted)

-- any runs that are distinct, anchored and have events
rows_verified :
    (lib : Hashing) (events : List EventRow) (rs : List RunRow)
    → All (IsAnchored lib events) rs
    → IsDistinct rs
    → All (IsCounted "") rs
    → (verified_event_heads lib rs (grouped rs events) ≡ ok (anchors rs))
      × (all (λ r. same_anchor r (lookup r.run_id (anchors rs))) rs ≡ true)
unfolding verified_event_heads
rows_verified lib events rs anchored distinct counted =
    let fresh = IsFresh-empty rs in
    let heads = new_heads-ok lib events [] rs anchored distinct fresh in
    let linked = link_all-ok lib events [] rs anchored distinct fresh in
    let some_event = any-no_event rs (All-counted lib events rs anchored counted) in
    (ground arith, all-same_anchor lib events [] rs anchored distinct fresh)

-- The ledger never accuses itself. After any sequence of runs created and events appended,
-- verification of all runs succeeds, and so does that of each run by its id, while that of an id
-- that no run has raises StateError. The hash has the form of a SHA-256 in hexadecimal.
pub ledger_verifies :
    (lib : Hashing) (l : Ledger) (selected : Option String)
    → ((p : Payload) → is_event_hash (lib.sha256 p) ≡ true)
    → Reach lib l
    → verify_event_anchors lib selected l
      ≡ (if no_run selected (selected_runs selected l) then err state_error else ok tt)
unfolding verify_event_anchors
ledger_verifies lib l none hex reached =
    let sound = Reach-IsSound lib l hex reached in
    let (heads, same) =
      rows_verified lib l.events l.runs sound.anchored sound.distinct sound.counted in
    ground arith
ledger_verifies lib l (some run_id) hex reached =
    let sound = Reach-IsSound lib l hex reached in
    elim (keep-selected run_id l.runs sound.distinct) [
      | inl nothing ↦ ground arith
      | inr (row, kept, name, m) ↦
          let (heads, same) =
            rows_verified lib l.events (row ∷ []) (All-Mem _ l.runs row sound.anchored m, tt)
              (refl, tt) (All-Mem _ l.runs row sound.counted m, tt) in
          let events : grouped (row ∷ []) l.events ≡ events_of run_id l.events =
            append_empty (events_of row.run_id l.events) ∙ ap (λ k. events_of k l.events) name in
          let read : verified_event_heads lib (keep (λ r. str_eq r.run_id run_id) l.runs)
                (events_of run_id l.events)
              ≡ ok (anchors (row ∷ [])) =
            ap (λ rs. verified_event_heads lib rs (events_of run_id l.events)) kept
            ∙ ap (verified_event_heads lib (row ∷ [])) (sym events)
            ∙ heads in
          ground (arith, same)
    ]
