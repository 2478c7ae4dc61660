-- ===== src/Runs/Retired.antt =====
-- What one retirement of runs does to each row.
use autocontribute.Base.{
  ℕ, ◌≤◌, ◌<◌, String, none, some, true, not, ◌&&◌, ◌||◌, List, [], ◌∷◌, str_eq, eq_iff, keep, ◌==◌,
  ◌≡◌, ◌⊎◌, inl, inr, refl, ap, sym, ◌∙◌, arith, All, Bool-cases, Option-cases, subst,
}
use native.Mathlib.Nat.{le_refl, le_trans}
use autocontribute.Base.Dict.{Dict, lookup, insert, lookup-insert}
use autocontribute.Errors.{ok, Result-cases}
use autocontribute.Runs.Status.{RunStatus, status_eq, contains}
use autocontribute.Runs.Store.{RunRow, RunStore}
use autocontribute.Runs.Saving.{status_eq-eq}
use autocontribute.Runs.Retire.{
  ordered, is_retirable, retirable, retired_row, retire_row, retire_rows, retire_runs,
}
use autocontribute.Runs.Retirable.{IsOld, ordered-IsOld, take-IsOld, keep-IsOld}

-- What a retirement does to a row: nothing, or it moves it from one of the statuses to the target.
pub record IsRetired (statuses : List RunStatus) (target : RunStatus) (old row : RunRow)
    : Type 0 where
  pub path :
      (old.status ≡ row.status) ⊎ ((contains statuses old.status ≡ true) × (row.status ≡ target))
  pub later : old.updated_at ≤ row.updated_at

retire_row-IsRetired :
    (statuses : List RunStatus) (target : RunStatus) (cutoff retired_at : ℕ)
    (reason event id run_id : String) (row old : RunRow) (s t : RunStore)
    → cutoff ≤ retired_at
    → row.updated_at < cutoff
    → contains statuses row.status ≡ true
    → retire_row target retired_at reason event id row s ≡ ok t
    → lookup run_id s.rows ≡ some old
    → (now : RunRow) × (lookup run_id t.rows ≡ some now) × IsRetired statuses target old now
unfolding retire_row
retire_row-IsRetired statuses target cutoff retired_at reason event id run_id row old s t past aged
      own h e =
    elim (Bool-cases
      (not (str_eq row.manifest.run_id id) || not (status_eq row.manifest.status row.status))) [
        | inl disagrees ↦ absurd (ground arith)
        | inr agrees ↦ elim (Option-cases (lookup id s.rows)) [
          | inl gone ↦ absurd (ground arith)
          | inr (now, found) ↦
              elim (Bool-cases
                (status_eq now.status row.status && now.updated_at == row.updated_at)) [
                  | inr changed ↦ absurd (ground arith)
                  | inl same ↦
                      let put =
                        lookup-insert id run_id (retired_row target retired_at row.manifest now)
                          s.rows in
                      let written : t.rows
                          ≡ insert id (retired_row target retired_at row.manifest now) s.rows =
                        ground arith in
                      elim (Bool-cases (str_eq id run_id)) [
                        | inr other ↦ (
                          old,
                          ap (lookup run_id) written ∙ put ∙ rw other e,
                          record { path = inl refl; later = le_refl _ },
                        )
                        | inl hit ↦
                            let name : id ≡ run_id = (eq_iff id run_id).0 hit in
                            let is_old : now ≡ old = cc (ap (λ k. lookup k s.rows) name) in
                            let there : contains statuses now.status ≡ true =
                              ap (contains statuses)
                                (status_eq-eq now.status row.status (ground arith))
                              ∙ own in
                            (
                              retired_row target retired_at row.manifest now,
                              ap (lookup run_id) written ∙ put ∙ rw hit refl,
                              subst
                                  (λ r.
                                    IsRetired statuses target r
                                      (retired_row target retired_at row.manifest now))
                                  is_old
                                  (record {
                                    path = inr (there, refl);
                                    later = ground (arith, past, aged);
                                  }),
                            )
                      ]
                ]
        ]
      ]

IsRetired-then :
    (statuses : List RunStatus) (target : RunStatus) (old mid row : RunRow)
    → IsRetired statuses target old mid
    → IsRetired statuses target mid row
    → IsRetired statuses target old row
IsRetired-then statuses target old mid row a b = record {
  path = elim a.path [
    | inl same ↦ elim b.path [
      | inl same' ↦ inl (same ∙ same')
      | inr (listed, moved) ↦ inr (ap (contains statuses) same ∙ listed, moved)
    ]
    | inr (listed, moved) ↦ elim b.path [
      | inl same' ↦ inr (listed, sym same' ∙ moved)
      | inr (again, moved') ↦ inr (listed, moved')
    ]
  ];
  later = le_trans a.later b.later;
}

retire_rows-IsRetired :
    (statuses : List RunStatus) (target : RunStatus) (cutoff retired_at : ℕ)
    (reason event run_id : String) (rows : Dict RunRow) (old : RunRow) (s t : RunStore)
    → cutoff ≤ retired_at
    → All (IsOld cutoff) rows
    → retire_rows statuses target retired_at reason event rows s ≡ ok t
    → lookup run_id s.rows ≡ some old
    → (now : RunRow) × (lookup run_id t.rows ≡ some now) × IsRetired statuses target old now
unfolding retire_rows
retire_rows-IsRetired statuses target cutoff retired_at reason event run_id [] old s t past aged h
      e =
    let same : s ≡ t = ground arith in
    (
      old,
      ap (λ x. lookup run_id x.rows) (sym same) ∙ e,
      record { path = inl refl; later = le_refl _ },
    )
retire_rows-IsRetired statuses target cutoff retired_at reason event run_id ((id, row) ∷ rows) old s
      t past (own, aged) h e =
    elim (Bool-cases (contains statuses row.status)) [
      | inr other ↦
          retire_rows-IsRetired statuses target cutoff retired_at reason event run_id rows old s t
            past aged (ground arith) e
      | inl listed ↦ elim (Result-cases (retire_row target retired_at reason event id row s)) [
        | inr (x, raised) ↦ absurd (ground arith)
        | inl (after, retires) ↦
            let (mid, found, first) =
              retire_row-IsRetired statuses target cutoff retired_at reason event id run_id row old
                s after past own listed retires e in
            let (now, there, then_on) =
              retire_rows-IsRetired statuses target cutoff retired_at reason event run_id rows mid
                after t past aged (ground arith) found in
            (now, there, IsRetired-then statuses target old mid now first then_on)
      ]
    ]

pub retire_runs-IsRetired :
    (statuses : List RunStatus) (target : RunStatus) (cutoff retired_at : ℕ)
    (reason event run_id : String) (limit : ℕ) (old : RunRow) (s t : RunStore)
    → cutoff ≤ retired_at
    → retire_runs statuses target cutoff retired_at reason event limit s ≡ ok t
    → lookup run_id s.rows ≡ some old
    → (now : RunRow) × (lookup run_id t.rows ≡ some now) × IsRetired statuses target old now
unfolding retire_runs
retire_runs-IsRetired statuses target cutoff retired_at reason event run_id limit old s t past h e =
    let aged = take-IsOld cutoff limit (ordered (keep (is_retirable statuses cutoff) s.rows)) (
      ordered-IsOld cutoff (keep (is_retirable statuses cutoff) s.rows)
        (keep-IsOld statuses cutoff s.rows)) in
    retire_rows-IsRetired statuses target cutoff retired_at reason event run_id
      (retirable statuses cutoff limit s) old s t past aged (ground arith) e

-- a retirement adds no run
retire_row-absent :
    (target : RunStatus) (retired_at : ℕ) (reason event id run_id : String) (row : RunRow)
    (s t : RunStore)
    → retire_row target retired_at reason event id row s ≡ ok t
    → lookup run_id s.rows ≡ none
    → lookup run_id t.rows ≡ none
unfolding retire_row
retire_row-absent target retired_at reason event id run_id row s t h e =
    elim (Bool-cases
      (not (str_eq row.manifest.run_id id) || not (status_eq row.manifest.status row.status))) [
        | inl disagrees ↦ absurd (ground arith)
        | inr agrees ↦ elim (Option-cases (lookup id s.rows)) [
          | inl gone ↦ absurd (ground arith)
          | inr (now, found) ↦
              elim (Bool-cases
                (status_eq now.status row.status && now.updated_at == row.updated_at)) [
                  | inr changed ↦ absurd (ground arith)
                  | inl same ↦
                      let put =
                        lookup-insert id run_id (retired_row target retired_at row.manifest now)
                          s.rows in
                      let written : t.rows
                          ≡ insert id (retired_row target retired_at row.manifest now) s.rows =
                        ground arith in
                      elim (Bool-cases (str_eq id run_id)) [
                        | inr other ↦ ap (lookup run_id) written ∙ put ∙ rw other e
                        | inl hit ↦
                            absurd (cc (ap (λ k. lookup k s.rows) ((eq_iff id run_id).0 hit)))
                      ]
                ]
        ]
      ]

retire_rows-absent :
    (statuses : List RunStatus) (target : RunStatus) (retired_at : ℕ) (reason event run_id : String)
    (rows : Dict RunRow) (s t : RunStore)
    → retire_rows statuses target retired_at reason event rows s ≡ ok t
    → lookup run_id s.rows ≡ none
    → lookup run_id t.rows ≡ none
unfolding retire_rows
retire_rows-absent statuses target retired_at reason event run_id [] s t h e = ground arith
retire_rows-absent statuses target retired_at reason event run_id ((id, row) ∷ rows) s t h e =
    elim (Bool-cases (contains statuses row.status)) [
      | inr other ↦
          retire_rows-absent statuses target retired_at reason event run_id rows s t (ground arith)
            e
      | inl listed ↦ elim (Result-cases (retire_row target retired_at reason event id row s)) [
        | inr (x, raised) ↦ absurd (ground arith)
        | inl (after, retires) ↦
            retire_rows-absent statuses target retired_at reason event run_id rows after t
              (ground arith)
              (retire_row-absent target retired_at reason event id run_id row s after retires e)
      ]
    ]

pub retire_runs-absent :
    (statuses : List RunStatus) (target : RunStatus) (cutoff retired_at : ℕ)
    (reason event run_id : String) (limit : ℕ) (s t : RunStore)
    → retire_runs statuses target cutoff retired_at reason event limit s ≡ ok t
    → lookup run_id s.rows ≡ none
    → lookup run_id t.rows ≡ none
unfolding retire_runs
retire_runs-absent statuses target cutoff retired_at reason event run_id limit s t h e =
    retire_rows-absent statuses target retired_at reason event run_id
      (retirable statuses cutoff limit s) s t (ground arith) e
