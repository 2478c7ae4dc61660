-- ===== src/Ledger/Unique.antt =====
-- A run's anchor fixes its whole history (_verify_event_anchors of src/autocontribute/store.py).
use autocontribute.Base.{
  ℕ, ◌+◌, String, some, true, false, List, [], ◌∷◌, length, keep, all, str_eq, eq_iff, ◌≡◌, inl,
  inr, refl, ap, sym, ◌∙◌, arith, All, Bool-cases, subst,
}
use mathlib.Core.List.{Memᴰ}
use autocontribute.Base.Dict.{Dict, lookup}
use autocontribute.Errors.{ok, Result-cases}
use autocontribute.Ledger.Chain.{
  EventRow, RunRow, Ledger, Hashing, initial_event_hash, events_of, link, new_heads,
  verified_event_heads, same_anchor, selected_runs, no_run, verify_event_anchors,
}
use autocontribute.Ledger.Follow.{follow, link_all-follow, events_of-own}

link-linked :
    (lib : Hashing) (e : EventRow) (head after : ℕ × String)
    → link lib e head ≡ ok after
    → (e.payload.previous_hash ≡ head.1)
      × (e.event_hash ≡ lib.sha256 e.payload)
      × (after ≡ (head.0 + 1, e.event_hash))
unfolding link
link-linked lib e (count, previous) after h = (
  ground (arith, eq_iff e.payload.previous_hash previous),
  ground (arith, eq_iff e.event_hash (lib.sha256 e.payload)),
  ground arith,
)

row-determined : (e f : EventRow) → e.payload ≡ f.payload → e.event_hash ≡ f.event_hash → e ≡ f
row-determined e f payload hash = cc

-- two chains of one length that end in one hash are one chain
chains-agree :
    (lib : Hashing) (es fs : List EventRow) (count n : ℕ) (p q head : String)
    → ((e f : EventRow)
        → Memᴰ e es
        → Memᴰ f fs
        → lib.sha256 e.payload ≡ lib.sha256 f.payload
        → e.payload ≡ f.payload)
    → length es ≡ length fs
    → follow lib es (count, p) ≡ ok (n, head)
    → follow lib fs (count, q) ≡ ok (n, head)
    → (es ≡ fs) × (p ≡ q)
chains-agree lib [] [] count n p q head inj same he hf = (refl, ground arith)
chains-agree lib [] (f ∷ fs) count n p q head inj same he hf = absurd (omega (arith, same))
chains-agree lib (e ∷ es) [] count n p q head inj same he hf = absurd (omega (arith, same))
chains-agree lib (e ∷ es) (f ∷ fs) count n p q head inj same he hf =
    elim (Result-cases (link lib e (count, p))) [
      | inr (x, failed) ↦ absurd (ground arith)
      | inl (a, linked) ↦ elim (Result-cases (link lib f (count, q))) [
        | inr (y, failed) ↦ absurd (ground arith)
        | inl (b, linked') ↦
            let (previous, hash, next) = link-linked lib e (count, p) a linked in
            let (previous', hash', next') = link-linked lib f (count, q) b linked' in
            let left : follow lib es (count + 1, e.event_hash) ≡ ok (n, head) =
              ap (follow lib es) (sym next) ∙ ground arith in
            let right : follow lib fs (count + 1, f.event_hash) ≡ ok (n, head) =
              ap (follow lib fs) (sym next') ∙ ground arith in
            let (rest, hashes) =
              chains-agree lib es fs (count + 1) n e.event_hash f.event_hash head
                (λ x y mx my. inj x y (Memᴰ.tail mx) (Memᴰ.tail my)) (omega (arith, same)) left
                right in
            let payload = inj e f (Memᴰ.head refl) (Memᴰ.head refl) (sym hash ∙ hashes ∙ hash') in
            let row = row-determined e f payload hashes in
            (cc, sym previous ∙ ap (λ x. x.previous_hash) payload ∙ previous')
      ]
    ]

follow-length :
    (lib : Hashing) (es : List EventRow) (count n : ℕ) (p head : String)
    → follow lib es (count, p) ≡ ok (n, head)
    → n ≡ count + length es
follow-length lib [] count n p head h = ground arith
follow-length lib (e ∷ es) count n p head h = elim (Result-cases (link lib e (count, p))) [
  | inr (x, failed) ↦ absurd (ground arith)
  | inl (a, linked) ↦
      let (previous, hash, next) = link-linked lib e (count, p) a linked in
      let rest : follow lib es (count + 1, e.event_hash) ≡ ok (n, head) =
        ap (follow lib es) (sym next) ∙ ground arith in
      let ih = follow-length lib es (count + 1) n e.event_hash head rest in omega (arith, ih)
]

-- the rows that are selected by an id have it
keep-named :
    (run_id : String) (rs : List RunRow)
    → All (λ r. r.run_id ≡ run_id) (keep (λ r. str_eq r.run_id run_id) rs)
keep-named run_id [] = tt
keep-named run_id (r ∷ rs) = elim (Bool-cases (str_eq r.run_id run_id)) [
  | inl mine ↦
      let kept : keep (λ x. str_eq x.run_id run_id) (r ∷ rs)
          ≡ r ∷ keep (λ x. str_eq x.run_id run_id) rs =
        ground arith in
      let name : r.run_id ≡ run_id = ground (arith, eq_iff r.run_id run_id) in
      subst (All (λ x. x.run_id ≡ run_id)) (sym kept) (name, keep-named run_id rs)
  | inr other ↦
      let kept : keep (λ x. str_eq x.run_id run_id) (r ∷ rs)
          ≡ keep (λ x. str_eq x.run_id run_id) rs =
        ground arith in
      subst (All (λ x. x.run_id ≡ run_id)) (sym kept) (keep-named run_id rs)
]

-- what is read of one run, and succeeded
one-followed :
    (lib : Hashing) (run_id : String) (rows : List RunRow) (es : List EventRow)
    (heads : Dict (ℕ × String))
    → All (λ r. r.run_id ≡ run_id) rows
    → All (λ e. e.payload.run_id ≡ run_id) es
    → no_run (some run_id) rows ≡ false
    → verified_event_heads lib rows es ≡ ok heads
    → all (λ r. same_anchor r (lookup r.run_id heads)) rows ≡ true
    → (row : RunRow) × (rows ≡ row ∷ [])
      × (follow lib es (0, initial_event_hash) ≡ ok (row.event_count, row.event_head_hash))
unfolding verified_event_heads new_heads
one-followed lib run_id [] es heads named own found h same = absurd (ground arith)
one-followed lib run_id (x ∷ y ∷ rows) es heads (nx, (ny, named)) own found h same =
    absurd (ground (arith, eq_iff x.run_id y.run_id))
one-followed lib run_id (row ∷ []) es heads (name, named) own found h same =
    let read = link_all-follow lib run_id [] [] es (0, initial_event_hash) refl own in
    elim (Result-cases (follow lib es (0, initial_event_hash))) [
      | inr (x, failed) ↦ absurd (ground (arith, name))
      | inl ((n, head), followed) ↦
          let last : heads ≡ (run_id, (n, head)) ∷ [] = ground (arith, name) in
          (
            row,
            refl,
            ground (arith, name, last, eq_iff row.run_id run_id, eq_iff row.event_head_hash head),
          )
    ]

verify-followed :
    (lib : Hashing) (run_id : String) (l : Ledger)
    → verify_event_anchors lib (some run_id) l ≡ ok tt
    → (row : RunRow) × (selected_runs (some run_id) l ≡ row ∷ [])
      × (follow lib (events_of run_id l.events) (0, initial_event_hash)
          ≡ ok (row.event_count, row.event_head_hash))
unfolding verify_event_anchors
verify-followed lib run_id l h =
    let rows = selected_runs (some run_id) l in
    let es = events_of run_id l.events in
    elim (Bool-cases (no_run (some run_id) rows)) [
      | inl unknown ↦ absurd (ground arith)
      | inr found ↦ elim (Result-cases (verified_event_heads lib rows es)) [
        | inr (x, failed) ↦ absurd (ground arith)
        | inl (heads, read) ↦
            one-followed lib run_id rows es heads (keep-named run_id l.runs)
              (events_of-own run_id l.events) found read (ground arith)
      ]
    ]

-- A run's row fixes its whole history. If verification of one run succeeds in two ledgers that have
-- the same row for it, then the events of the run are the same in both, in the same order, as long
-- as no two of their payloads have one hash: no event was changed, dropped, added or reordered.
pub anchored_history :
    (lib : Hashing) (run_id : String) (s t : Ledger)
    → ((e f : EventRow)
        → Memᴰ e (events_of run_id s.events)
        → Memᴰ f (events_of run_id t.events)
        → lib.sha256 e.payload ≡ lib.sha256 f.payload
        → e.payload ≡ f.payload)
    → selected_runs (some run_id) s ≡ selected_runs (some run_id) t
    → verify_event_anchors lib (some run_id) s ≡ ok tt
    → verify_event_anchors lib (some run_id) t ≡ ok tt
    → events_of run_id s.events ≡ events_of run_id t.events
anchored_history lib run_id s t inj same hs ht =
    let (row, read, chain) = verify-followed lib run_id s hs in
    let (row', read', chain') = verify-followed lib run_id t ht in
    let one : row ≡ row' = cc in
    let other : follow lib (events_of run_id t.events) (0, initial_event_hash)
        ≡ ok (row.event_count, row.event_head_hash) =
      chain' ∙ ap (λ r. ok (r.event_count, r.event_head_hash)) (sym one) in
    let counted =
      follow-length lib (events_of run_id s.events) 0 row.event_count initial_event_hash
        row.event_head_hash chain in
    let counted' =
      follow-length lib (events_of run_id t.events) 0 row.event_count initial_event_hash
        row.event_head_hash other in
    let (agreed, start) =
      chains-agree lib (events_of run_id s.events) (events_of run_id t.events) 0 row.event_count
        initial_event_hash initial_event_hash row.event_head_hash inj
        (omega (arith, counted, counted')) chain other in
    agreed
