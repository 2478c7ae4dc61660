-- ===== src/Runs/Retirable.antt =====
-- The rows that a retirement selects were all last changed before the cutoff.
use autocontribute.Base.{
  ℕ, ◌<◌, String, List, [], ◌∷◌, keep, take, ◌≡◌, inl, inr, sym, arith, All, Bool-cases, subst,
  zero, suc,
}
use autocontribute.Base.Dict.{Dict}
use autocontribute.Runs.Status.{RunStatus}
use autocontribute.Runs.Store.{RunRow}
use autocontribute.Runs.Retire.{before, insert_entry, ordered, is_retirable}

-- every row that was selected was last changed before the cutoff
abbrev pub IsOld : ℕ → String × RunRow → Type 0
IsOld cutoff e = (e.1).updated_at < cutoff

insert_entry-IsOld :
    (cutoff : ℕ) (e : String × RunRow) (es : Dict RunRow)
    → IsOld cutoff e
    → All (IsOld cutoff) es
    → All (IsOld cutoff) (insert_entry e es)
insert_entry-IsOld cutoff e [] own old = (own, tt)
insert_entry-IsOld cutoff e (f ∷ fs) own (first, old) = elim (Bool-cases (before f e)) [
  | inl after ↦
      let put : insert_entry e (f ∷ fs) ≡ f ∷ insert_entry e fs = ground arith in
      subst (All (IsOld cutoff)) (sym put) (first, insert_entry-IsOld cutoff e fs own old)
  | inr here ↦
      let put : insert_entry e (f ∷ fs) ≡ e ∷ f ∷ fs = ground arith in
      subst (All (IsOld cutoff)) (sym put) (own, (first, old))
]

pub ordered-IsOld :
    (cutoff : ℕ) (es : Dict RunRow) → All (IsOld cutoff) es → All (IsOld cutoff) (ordered es)
ordered-IsOld cutoff [] old = tt
ordered-IsOld cutoff (e ∷ es) (own, old) =
    insert_entry-IsOld cutoff e (ordered es) own (ordered-IsOld cutoff es old)

pub take-IsOld :
    (cutoff n : ℕ) (es : Dict RunRow) → All (IsOld cutoff) es → All (IsOld cutoff) (take n es)
take-IsOld cutoff zero es old = tt
take-IsOld cutoff (suc n) [] old = tt
take-IsOld cutoff (suc n) (e ∷ es) (own, old) = (own, take-IsOld cutoff n es old)

pub keep-IsOld :
    (statuses : List RunStatus) (cutoff : ℕ) (es : Dict RunRow)
    → All (IsOld cutoff) (keep (is_retirable statuses cutoff) es)
keep-IsOld statuses cutoff [] = tt
keep-IsOld statuses cutoff (e ∷ es) = elim (Bool-cases (is_retirable statuses cutoff e)) [
  | inl old ↦
      let kept : keep (is_retirable statuses cutoff) (e ∷ es)
          ≡ e ∷ keep (is_retirable statuses cutoff) es =
        ground arith in
      subst (All (IsOld cutoff)) (sym kept) (ground arith, keep-IsOld statuses cutoff es)
  | inr young ↦
      let kept : keep (is_retirable statuses cutoff) (e ∷ es)
          ≡ keep (is_retirable statuses cutoff) es =
        ground arith in
      subst (All (IsOld cutoff)) (sym kept) (keep-IsOld statuses cutoff es)
]
