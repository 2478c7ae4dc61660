-- ===== src/Ledger/Rows.antt =====
-- The rows of the ledger's tables: what an append or an insert does to them.
use autocontribute.Base.{
  ℕ, String, none, some, true, false, List, [], ◌∷◌, ◌++◌, map, str_eq, eq_iff, if◌then◌else◌, ◌≡◌,
  inl, inr, ◌≢◌, refl, ap, sym, ◌∙◌, arith, All, Bool-cases,
}
use mathlib.Core.List.{Memᴰ}
use autocontribute.Ledger.Chain.{EventRow, RunRow, events_of, find_run, set_anchor}

-- no two runs have one id
abbrev pub IsDistinct : List RunRow → Type 0
IsDistinct [] = Unit
IsDistinct (r ∷ rs) = (find_run r.run_id rs ≡ none) × IsDistinct rs

pub events_of-snoc :
    (run_id : String) (es : List EventRow) (e : EventRow)
    → events_of run_id (es ++ e ∷ [])
      ≡ events_of run_id es ++ (if str_eq e.payload.run_id run_id then e ∷ [] else [])
events_of-snoc run_id [] e = ground arith
events_of-snoc run_id (x ∷ es) e =
    let ih = events_of-snoc run_id es e in
    elim (Bool-cases (str_eq x.payload.run_id run_id)) [
      | inl own ↦ ground arith
      | inr other ↦ ground arith
    ]

pub find_run-anchors :
    (run_id k : String) (n : ℕ) (h : String) (rs : List RunRow)
    → find_run k rs ≡ none
    → find_run k (map (set_anchor run_id n h) rs) ≡ none
find_run-anchors run_id k n h [] fresh = refl
find_run-anchors run_id k n h (r ∷ rs) fresh = elim (Bool-cases (str_eq r.run_id k)) [
  | inl same ↦ absurd (ground arith)
  | inr other ↦ let ih = find_run-anchors run_id k n h rs (ground arith) in ground arith
]

pub find_run-before :
    (run_id k : String) (n : ℕ) (h : String) (rs : List RunRow)
    → find_run k (map (set_anchor run_id n h) rs) ≡ none
    → find_run k rs ≡ none
find_run-before run_id k n h [] gone = refl
find_run-before run_id k n h (r ∷ rs) gone = elim (Bool-cases (str_eq r.run_id k)) [
  | inl same ↦ absurd (ground arith)
  | inr other ↦ let ih = find_run-before run_id k n h rs (ground arith) in ground arith
]

pub IsDistinct-anchors :
    (run_id : String) (n : ℕ) (h : String) (rs : List RunRow)
    → IsDistinct rs
    → IsDistinct (map (set_anchor run_id n h) rs)
IsDistinct-anchors run_id n h [] d = tt
IsDistinct-anchors run_id n h (r ∷ rs) (fresh, d) =
    let id : (set_anchor run_id n h r).run_id ≡ r.run_id = ground arith in
    (
      ap (λ k. find_run k (map (set_anchor run_id n h) rs)) id
          ∙ find_run-anchors run_id r.run_id n h rs fresh,
      IsDistinct-anchors run_id n h rs d,
    )

pub find_run-last :
    (k : String) (rs : List RunRow) (r : RunRow)
    → str_eq r.run_id k ≡ false
    → find_run k rs ≡ none
    → find_run k (rs ++ r ∷ []) ≡ none
find_run-last k [] r other fresh = ground arith
find_run-last k (x ∷ rs) r other fresh = elim (Bool-cases (str_eq x.run_id k)) [
  | inl same ↦ absurd (ground arith)
  | inr differs ↦ let ih = find_run-last k rs r other (ground arith) in ground arith
]

pub IsDistinct-last :
    (rs : List RunRow) (r : RunRow)
    → find_run r.run_id rs ≡ none
    → IsDistinct rs
    → IsDistinct (rs ++ r ∷ [])
IsDistinct-last [] r fresh d = (refl, tt)
IsDistinct-last (x ∷ rs) r fresh (own, d) = elim (Bool-cases (str_eq x.run_id r.run_id)) [
  | inl same ↦ absurd (ground arith)
  | inr other ↦ (
    find_run-last x.run_id rs r (ground (arith, eq_iff x.run_id r.run_id, eq_iff r.run_id x.run_id))
        own,
    IsDistinct-last rs r (ground arith) d,
  )
]

-- the runs after the append of an event
pub append_empty : (es : List EventRow) → es ++ [] ≡ es
append_empty [] = refl
append_empty (e ∷ es) = ap (λ rest. e ∷ rest) (append_empty es)

pub find_run-Mem : (r : RunRow) (rs : List RunRow) → Memᴰ r rs → find_run r.run_id rs ≢ none
find_run-Mem r [] m = elim m [ ]
find_run-Mem r (x ∷ rs) (Memᴰ.head same) =
    λ gone. ground (arith, eq_iff x.run_id r.run_id, ap (λ y. y.run_id) same)
find_run-Mem r (x ∷ rs) (Memᴰ.tail m) = λ gone. ground (arith, find_run-Mem r rs m)

-- the row that is found is the only one with its id
pub find_run-only :
    (run_id : String) (rs : List RunRow) (row : RunRow)
    → IsDistinct rs
    → find_run run_id rs ≡ some row
    → (r : RunRow) → Memᴰ r rs
    → str_eq r.run_id run_id ≡ true
    → r ≡ row
find_run-only run_id [] row d found r m same = elim m [ ]
find_run-only run_id (x ∷ rs) row (fresh, d) found r (Memᴰ.head is_x) same =
    ground (arith, is_x, ap (λ y. str_eq y.run_id run_id) is_x)
find_run-only run_id (x ∷ rs) row (fresh, d) found r (Memᴰ.tail m) same =
    elim (Bool-cases (str_eq x.run_id run_id)) [
      | inr other ↦ find_run-only run_id rs row d (ground arith) r m same
      | inl hit ↦
          let name : x.run_id ≡ r.run_id =
            ground (arith, eq_iff x.run_id run_id, eq_iff r.run_id run_id) in
          absurd (find_run-Mem r rs m (ap (λ k. find_run k rs) (sym name) ∙ fresh))
    ]

pub find_run-front :
    (k : String) (rs : List RunRow) (r : RunRow)
    → find_run k (rs ++ r ∷ []) ≡ none
    → find_run k rs ≡ none
find_run-front k [] r gone = refl
find_run-front k (x ∷ rs) r gone = elim (Bool-cases (str_eq x.run_id k)) [
  | inl same ↦ absurd (ground arith)
  | inr other ↦ let ih = find_run-front k rs r (ground arith) in ground arith
]

pub All-last :
    (P : RunRow → Type 0) (rs : List RunRow) (r : RunRow) → All P rs → P r → All P (rs ++ r ∷ [])
All-last P [] r all_before own = (own, tt)
All-last P (x ∷ rs) r (p, all_before) own = (p, All-last P rs r all_before own)
