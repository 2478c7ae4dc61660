-- ===== src/Runs/Claim.antt =====
-- RunStore.claim_candidate of src/autocontribute/store.py: a discovering run takes an issue, if no
-- other run has it. Repositories stand as `_candidate_identity` normalised them.
use autocontribute.Base.{
  ℕ, String, Option, none, some, Bool, false, not, ◌&&◌, ◌||◌, List, [], ◌∷◌, ◌++◌, any, length,
  str_eq, ltb, leb, ◌==◌, is_none, if◌then◌else◌,
}
use autocontribute.Base.Dict.{Dict, lookup, insert}
use autocontribute.Errors.{state_error, artifact_sync_error, Result, ok, err, ◌>>◌, raise_if}
use autocontribute.Lease.Cell.{Cell, is_generation, agrees}
use autocontribute.Runs.Status.{
  RunStatus, discovering, skipped, rejected, failed, cancelled, contains, status_eq,
}
use autocontribute.Runs.Store.{
  Candidate, Manifest, selected, other, RunRow, RunStore, Env, saved_at, new_row,
}

abbrev candidate_released_statuses : List RunStatus
candidate_released_statuses = skipped ∷ rejected ∷ failed ∷ cancelled ∷ []

abbrev candidate_suppressed_statuses : List RunStatus
candidate_suppressed_statuses = skipped ∷ rejected ∷ cancelled ∷ []

-- _assert_candidate_claim_lease, for the owner and the generation of the run lease that is claimed with
unfoldable pub assert_claim_lease : String → ℕ → ℕ → Cell → Result (Unit {0})
assert_claim_lease owner generation now cell = elim (cell.row) [
  | none ↦ err state_error
  | some row ↦
      raise_if
        (not (is_generation row.generation)
          || (not (agrees cell.counter row.generation)
              || (not (str_eq row.owner owner)
                  || (not (row.generation == generation) || leb row.expires_at now))))
        state_error
]

-- the row's run has that issue, and is not the one that claims it
abbrev attempts_issue : String → Candidate → String × RunRow → Bool
attempts_issue run_id c (owner, row) = elim (row.repository) [
  | none ↦ false
  | some repository ↦ elim (row.issue_number) [
    | none ↦ false
    | some number ↦
        not (str_eq owner run_id) && (str_eq repository c.repository && number == c.number)
  ]
]

abbrev attempts : String → Candidate → Dict RunRow → Dict RunRow
attempts run_id c [] = []
attempts run_id c (entry ∷ rows) =
    let rest = attempts run_id c rows in
    if attempts_issue run_id c entry then entry ∷ rest else rest

abbrev has_text : String → Option String → Bool
has_text text none = false
has_text text (some stored) = str_eq stored text

abbrev has_number : ℕ → Option ℕ → Bool
has_number number none = false
has_number number (some stored) = stored == number

-- _verified_issue_revision_row accepts the row
unfoldable pub is_verified : String × RunRow → Bool
is_verified (run_id, row) =
    str_eq row.manifest.run_id run_id
    && (status_eq row.manifest.status row.status && (elim (row.manifest.candidate) [
      | none ↦ is_none row.issue_number && is_none row.issue_revision
      | some c ↦
          has_text c.repository row.repository
          && (has_number c.number row.issue_number && has_text c.revision row.issue_revision)
    ]))

abbrev is_active : String × RunRow → Bool
is_active (run_id, row) = not (contains candidate_released_statuses row.status)

abbrev is_suppressed : Candidate → String × RunRow → Bool
is_suppressed c (run_id, row) =
    contains candidate_suppressed_statuses row.status && has_text c.revision row.issue_revision

-- the row is as the claim needs it: discovering, without an issue, unchanged
unfoldable pub is_claimable : Manifest → RunRow → Bool
is_claimable m row =
    status_eq row.status discovering
    && (row.updated_at == m.updated_at
        && (is_none row.repository
            && (is_none row.issue_number
                && (is_none row.issue_revision
                    && (str_eq row.manifest.run_id m.run_id
                        && (status_eq row.manifest.status discovering
                            && is_none row.manifest.candidate))))))

abbrev max_run_corpus : ℕ
max_run_corpus = 10_000

-- the transaction on the run's row; `authorized` says whether the call has a retry authorization
unfoldable pub claim_row :
    Env → Bool → Manifest → Candidate → RunRow → RunStore → Result (Manifest × RunStore)
claim_row env authorized m c row store =
    let others = attempts m.run_id c store.rows in
    let suppressed = any (is_suppressed c) others in
    raise_if (not (is_claimable m row)) state_error
    >> (raise_if (ltb max_run_corpus (length others)) state_error
        >> (raise_if (any (λ entry. not (is_verified entry)) others) state_error
            >> (raise_if (any is_active others) state_error
                >> (raise_if (not suppressed && authorized) state_error
                    >> (raise_if (suppressed && not authorized) state_error
                        >> (let m' : Manifest = record m { updated_at = saved_at env m } in
                            ok (
                              m',
                              record {
                                rows =
                                    insert m.run_id (record (new_row m') { status = row.status })
                                      store.rows;
                                ledger =
                                    store.ledger
                                    ++ (
                                      m.run_id,
                                      if suppressed
                                          then other "candidate.retry_override"
                                          else selected c.reference (some (c.revision))
                                              c.score_text,
                                    )
                                      ∷ [];
                              },
                            )))))))

abbrev after_claim :
    Bool
    → Manifest
    → RunStore
    → Result (Manifest × RunStore)
    → Result (Unit {0}) × Manifest × RunStore
after_claim writes m store (err e) = (err e, m, store)
after_claim writes m store (ok (m', store')) =
    (if writes then ok tt else err artifact_sync_error, m', store')

-- RunStore.claim_candidate, without the disposition that it returns. `identified` is the answer
-- of the checks of the issue's identity, against the run's repository metadata too.
unfoldable pub claim_candidate :
    Env
    → Result (Unit {0})
    → String
    → ℕ
    → Cell
    → Bool
    → Manifest
    → RunStore
    → Result (Unit {0}) × Manifest × RunStore
claim_candidate env identified owner generation cell authorized m store =
    after_claim env.artifact_written m store (
      raise_if (not (status_eq m.status discovering)) state_error >> (elim (m.candidate) [
        | none ↦ err state_error
        | some c ↦
            identified
            >> (raise_if (ltb 100 c.score) state_error
                >> (assert_claim_lease owner generation env.utc_now cell
                    >> (elim (lookup m.run_id store.rows) [
                      | none ↦ err state_error
                      | some row ↦ claim_row env authorized m c row store
                    ])))
      ]))
