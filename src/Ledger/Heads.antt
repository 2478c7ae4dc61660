-- ===== src/Ledger/Heads.antt =====
-- The heads that verification computes, as dictionaries in the order of the runs.
use autocontribute.Base.{
  ℕ, ◌<◌, String, none, false, List, [], ◌∷◌, ◌++◌, keep, any, str_eq, eq_iff, ◌≡◌, ◌⊎◌, inl, inr,
  refl, ap, sym, ◌∙◌, arith, All, Bool-cases, subst,
}
use mathlib.Core.List.{Memᴰ}
use autocontribute.Base.Dict.{Dict, lookup, insert}
use autocontribute.Ledger.Chain.{RunRow, initial_event_hash, find_run, has_no_event}
use autocontribute.Ledger.Follow.{lookup-after}
use autocontribute.Ledger.Rows.{IsDistinct}

abbrev pub Heads : Type 0
Heads = Dict (ℕ × String)

-- the heads before any event, and those that the anchors name
abbrev pub started : List RunRow → Heads
started [] = []
started (r ∷ rs) = (r.run_id, (0, initial_event_hash)) ∷ started rs

abbrev pub anchors : List RunRow → Heads
anchors [] = []
anchors (r ∷ rs) = (r.run_id, (r.event_count, r.event_head_hash)) ∷ anchors rs

-- no run of the list is a key of the dictionary
abbrev pub IsFresh : Heads → List RunRow → Type 0
IsFresh done [] = Unit
IsFresh done (r ∷ rs) = (lookup r.run_id done ≡ none) × IsFresh done rs

pub lookup-snoc :
    (k j : String) (v : ℕ × String) (done : Heads)
    → str_eq j k ≡ false
    → lookup k done ≡ none
    → lookup k (done ++ (j, v) ∷ []) ≡ none
lookup-snoc k j v done other fresh = lookup-after k done ((j, v) ∷ []) fresh ∙ ground arith

pub IsFresh-snoc :
    (j : String) (v : ℕ × String) (done : Heads) (rs : List RunRow)
    → find_run j rs ≡ none
    → IsFresh done rs
    → IsFresh (done ++ (j, v) ∷ []) rs
IsFresh-snoc j v done [] gone fresh = tt
IsFresh-snoc j v done (r ∷ rs) gone (own, fresh) = elim (Bool-cases (str_eq r.run_id j)) [
  | inl same ↦ absurd (ground arith)
  | inr other ↦ (
    lookup-snoc r.run_id j v done (ground (arith, eq_iff r.run_id j, eq_iff j r.run_id)) own,
    IsFresh-snoc j v done rs (ground arith) fresh,
  )
]

pub append_assoc :
    (a : Heads) (x : String × (ℕ × String)) (b : Heads) → (a ++ x ∷ []) ++ b ≡ a ++ x ∷ b
append_assoc [] x b = refl
append_assoc (y ∷ a) x b = ap (λ rest. y ∷ rest) (append_assoc a x b)

pub append_nothing : (a : Heads) → a ++ [] ≡ a
append_nothing [] = refl
append_nothing (y ∷ a) = ap (λ rest. y ∷ rest) (append_nothing a)

pub insert-snoc :
    (k : String) (v : ℕ × String) (done : Heads)
    → lookup k done ≡ none
    → insert k v done ≡ done ++ (k, v) ∷ []
insert-snoc k v [] fresh = refl
insert-snoc k v ((j, w) ∷ done) fresh = elim (Bool-cases (str_eq j k)) [
  | inl same ↦ absurd (ground arith)
  | inr other ↦ let ih = insert-snoc k v done (ground arith) in ground arith
]

pub any-no_event :
    (rs : List RunRow) → All (λ r. 0 < r.event_count) rs → any has_no_event (anchors rs) ≡ false
any-no_event [] counted = refl
any-no_event (r ∷ rs) (c, counted) = ground (arith, any-no_event rs counted)

pub IsFresh-empty : (rs : List RunRow) → IsFresh [] rs
IsFresh-empty [] = tt
IsFresh-empty (r ∷ rs) = (refl, IsFresh-empty rs)

pub keep-none :
    (run_id : String) (rs : List RunRow)
    → find_run run_id rs ≡ none
    → keep (λ r. str_eq r.run_id run_id) rs ≡ []
keep-none run_id [] gone = refl
keep-none run_id (r ∷ rs) gone = elim (Bool-cases (str_eq r.run_id run_id)) [
  | inl mine ↦ absurd (ground arith)
  | inr other ↦ let ih = keep-none run_id rs (ground arith) in ground arith
]

-- what is selected by one id: nothing, or the one row with it
pub keep-selected :
    (run_id : String) (rs : List RunRow)
    → IsDistinct rs
    → (keep (λ r. str_eq r.run_id run_id) rs ≡ [])
      ⊎ ((row : RunRow) × (keep (λ r. str_eq r.run_id run_id) rs ≡ row ∷ [])
          × (row.run_id ≡ run_id)
          × Memᴰ row rs)
keep-selected run_id [] d = inl refl
keep-selected run_id (r ∷ rs) (gone, d) = elim (Bool-cases (str_eq r.run_id run_id)) [
  | inl mine ↦
      let name : r.run_id ≡ run_id = ground (arith, eq_iff r.run_id run_id) in
      let rest = keep-none run_id rs (ap (λ k. find_run k rs) (sym name) ∙ gone) in
      inr (r, ground arith, name, Memᴰ.head refl)
  | inr other ↦ elim (keep-selected run_id rs d) [
    | inl nothing ↦ inl (ground arith)
    | inr (row, kept, name, m) ↦ inr (row, ground arith, name, Memᴰ.tail m)
  ]
]

pub All-Mem : (P : RunRow → Type 0) (rs : List RunRow) (r : RunRow) → All P rs → Memᴰ r rs → P r
All-Mem P [] r all_of m = elim m [ ]
All-Mem P (x ∷ rs) r (p, all_of) (Memᴰ.head same) = subst P (sym same) p
All-Mem P (x ∷ rs) r (p, all_of) (Memᴰ.tail m) = All-Mem P rs r all_of m
