-- ===== src/Ledger/Sound.antt =====
-- What the calls on the ledger keep: no run twice, and every anchor the head of its run's chain.
use autocontribute.Base.{
  ◌+◌, String, Option, true, false, List, [], ◌∷◌, ◌++◌, str_eq, eq_iff, ◌≡◌, ◌⊎◌, inl, inr, refl,
  ap, sym, arith, All, Option-cases, subst,
}
use autocontribute.Errors.{ok}
use autocontribute.Ledger.Chain.{
  Payload, RunRow, Ledger, Hashing, initial_event_hash, is_event_hash, events_of, find_run,
  insert_run, new_event, append_event,
}
use autocontribute.Ledger.Follow.{follow}
use autocontribute.Ledger.Rows.{
  events_of-snoc, find_run-before, IsDistinct-anchors, IsDistinct-last, find_run-only,
  find_run-front, All-last,
}
use autocontribute.Ledger.Appended.{
  empty, creates, appends, IsAnchored-append, Reach, IsCounted, IsSound, link-new, All-anchors,
  All-anchored-more, All-named, append_event-done,
}

pub append_event-IsSound :
    (lib : Hashing) (now : String) (occurred_at : Option String)
    (run_id event_type details : String) (pending : String) (l after : Ledger)
    → ((p : Payload) → is_event_hash (lib.sha256 p) ≡ true)
    → (str_eq run_id pending ≡ true) ⊎ (pending ≡ "")
    → append_event lib now occurred_at run_id event_type details l ≡ ok after
    → IsSound lib pending l
    → IsSound lib "" after
append_event-IsSound lib now occurred_at run_id event_type details pending l after hex or_none h
      sound =
    let (row, found, hashed, done) =
      append_event-done lib now occurred_at run_id event_type details l after h in
    let e = new_event lib now occurred_at run_id event_type details row.event_head_hash in
    let linked =
      link-new lib now occurred_at run_id event_type details row.event_count row.event_head_hash hex
        hashed in
    subst (IsSound lib "") (sym done) (record {
      distinct = IsDistinct-anchors run_id (row.event_count + 1) e.event_hash l.runs sound.distinct;
      anchored =
          All-anchors lib run_id (row.event_count + 1) e.event_hash l.events (l.events ++ e ∷ [])
            l.runs
            (λ r m a.
              IsAnchored-append lib run_id row e l.events (ground (arith, eq_iff run_id run_id))
                (hex e.payload) linked r (find_run-only run_id l.runs row sound.distinct found r m)
                a)
            sound.anchored;
      counted =
          All-anchored-more pending run_id row.event_count e.event_hash l.runs or_none
            (All-named lib l.events l.runs sound.anchored) sound.counted;
      known = λ k gone.
          let before = find_run-before run_id k (row.event_count + 1) e.event_hash l.runs gone in
          let grown = events_of-snoc k l.events e in
          let none_yet = sound.known k before in
          ground (arith, eq_iff run_id k, ap (λ i. find_run i l.runs));
    })

weaken :
    (pending : String) (rs : List RunRow)
    → All (λ r. str_eq r.run_id "" ≡ false) rs
    → All (IsCounted "") rs
    → All (IsCounted pending) rs
weaken pending [] named counted = tt
weaken pending (r ∷ rs) (name, named) (c, counted) =
    (λ other. c name, weaken pending rs named counted)

initial-hashed : is_event_hash initial_event_hash ≡ true
unfolding is_event_hash
initial-hashed = refl

insert_run-IsSound :
    (lib : Hashing) (run_id : String) (l after : Ledger)
    → str_eq run_id "" ≡ false
    → insert_run run_id l ≡ ok after
    → IsSound lib "" l
    → IsSound lib run_id after
unfolding insert_run
insert_run-IsSound lib run_id l after named h sound = elim (Option-cases (find_run run_id l.runs)) [
  | inr (row, taken) ↦ absurd (ground arith)
  | inl fresh ↦
      let row : RunRow = record {
        run_id = run_id;
        event_count = 0;
        event_head_hash = initial_event_hash;
      } in
      let done : after ≡ record l { runs = l.runs ++ row ∷ [] } = ground arith in
      let empty_chain : follow lib (events_of run_id l.events) (0, initial_event_hash)
          ≡ ok (0, initial_event_hash) =
        ap (λ es. follow lib es (0, initial_event_hash)) (sound.known run_id fresh) in
      subst (IsSound lib run_id) (sym done) (record {
        distinct = IsDistinct-last l.runs row fresh sound.distinct;
        anchored =
            All-last _ l.runs row sound.anchored
              (record { named = named; hashed = initial-hashed; chain = empty_chain });
        counted =
            All-last _ l.runs row
              (weaken run_id l.runs (All-named lib l.events l.runs sound.anchored) sound.counted)
              (λ other. ground (arith, eq_iff run_id run_id));
        known = λ k gone. sound.known k (find_run-front k l.runs row gone);
      })
]

pub Reach-IsSound :
    (lib : Hashing) (l : Ledger)
    → ((p : Payload) → is_event_hash (lib.sha256 p) ≡ true)
    → Reach lib l
    → IsSound lib "" l
Reach-IsSound lib l hex empty = record {
  distinct = tt;
  anchored = tt;
  counted = tt;
  known = λ k gone. refl;
}
Reach-IsSound lib l hex
      (creates {before} r now at run_id event_type details inserted after named i h) =
    append_event-IsSound lib now at run_id event_type details run_id inserted after hex
      (inl (ground (arith, eq_iff run_id run_id))) h
      (insert_run-IsSound lib run_id before inserted named i (Reach-IsSound lib before hex r))
Reach-IsSound lib l hex (appends {before} r now at run_id event_type details after h) =
    append_event-IsSound lib now at run_id event_type details "" before after hex (inr refl) h
      (Reach-IsSound lib before hex r)
