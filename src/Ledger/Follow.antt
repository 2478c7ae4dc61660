-- ===== src/Ledger/Follow.antt =====
-- One run's chain followed by itself, and how the loop over all runs' events follows each of them.
use autocontribute.Base.{
  ℕ, ◌+◌, String, none, some, List, [], ◌∷◌, ◌++◌, length, str_eq, eq_iff, ◌≡◌, inl, inr, refl, sym,
  arith, All, Bool-cases, Option-cases, subst,
}
use autocontribute.Base.Dict.{Dict, lookup, insert}
use autocontribute.Errors.{Result, ok, ◌>>=◌, Result-cases}
use autocontribute.Ledger.Chain.{EventRow, Hashing, events_of, last_hash, link, link_all}

-- the chain of one run, from a head
abbrev pub follow : Hashing → List EventRow → ℕ × String → Result (ℕ × String)
follow lib [] head = ok head
follow lib (e ∷ es) head = link lib e head >>= λ after. follow lib es after

pub follow-snoc :
    (lib : Hashing) (es : List EventRow) (e : EventRow) (head after : ℕ × String)
    → follow lib es head ≡ ok after
    → follow lib (es ++ e ∷ []) head ≡ link lib e after
follow-snoc lib [] e head after h = elim (Result-cases (link lib e head)) [
  | inl (next, linked) ↦ ground arith
  | inr (x, failed) ↦ ground arith
]
follow-snoc lib (x ∷ es) e head after h = elim (Result-cases (link lib x head)) [
  | inl (next, linked) ↦ cc (linked, follow-snoc lib es e next after (ground arith))
  | inr (x', failed) ↦ absurd (ground arith)
]

-- what a chain that was followed ends in
pub follow-head :
    (lib : Hashing) (es : List EventRow) (count : ℕ) (previous : String) (n : ℕ) (head : String)
    → follow lib es (count, previous) ≡ ok (n, head)
    → (n ≡ count + length es) × (head ≡ last_hash es previous)
unfolding link
follow-head lib [] count previous n head h = (ground arith, ground arith)
follow-head lib (e ∷ es) count previous n head h =
    elim (Result-cases (link lib e (count, previous))) [
      | inr (x, failed) ↦ absurd (ground arith)
      | inl ((m, next), linked) ↦
          let (counted, last) = follow-head lib es m next n head (ground arith) in
          (ground arith, ground arith)
    ]

-- a dictionary with one key in the middle, that no key before it equals
module _ {ℓ} {V : Type ℓ} (k : String) (v w : V) where
  pub lookup-middle :
      (done todo : Dict V) → lookup k done ≡ none → lookup k (done ++ (k, w) ∷ todo) ≡ some w
  lookup-middle [] todo fresh = ground (arith, eq_iff k k)
  lookup-middle ((j, x) ∷ done) todo fresh = elim (Bool-cases (str_eq j k)) [
    | inl same ↦ absurd (ground arith)
    | inr other ↦ let ih = lookup-middle done todo (ground arith) in ground arith
  ]

  pub insert-middle :
      (done todo : Dict V)
      → lookup k done ≡ none
      → insert k v (done ++ (k, w) ∷ todo) ≡ done ++ (k, v) ∷ todo
  insert-middle [] todo fresh = ground (arith, eq_iff k k)
  insert-middle ((j, x) ∷ done) todo fresh = elim (Bool-cases (str_eq j k)) [
    | inl same ↦ absurd (ground arith)
    | inr other ↦ let ih = insert-middle done todo (ground arith) in ground arith
  ]

pub lookup-after {ℓ} :
    {V : Type ℓ} (k : String) (done todo : Dict V)
    → lookup k done ≡ none
    → lookup k (done ++ todo) ≡ lookup k todo
lookup-after k [] todo fresh = refl
lookup-after k ((j, x) ∷ done) todo fresh = elim (Bool-cases (str_eq j k)) [
  | inl same ↦ absurd (ground arith)
  | inr other ↦ let ih = lookup-after k done todo (ground arith) in ground arith
]

-- The events of one run among the heads of all: its own head follows them, and no other changes.
module _ (lib : Hashing) (run_id : String) (done todo : Dict (ℕ × String)) where
  pub link_all-follow :
      (es : List EventRow) (head : ℕ × String)
      → lookup run_id done ≡ none
      → All (λ e. e.payload.run_id ≡ run_id) es
      → link_all lib es (done ++ (run_id, head) ∷ todo)
        ≡ (follow lib es head >>= λ after. ok (done ++ (run_id, after) ∷ todo))
  unfolding link_all
  link_all-follow [] head fresh own = refl
  link_all-follow (e ∷ es) head fresh (same, own) =
      let found : lookup e.payload.run_id (done ++ (run_id, head) ∷ todo) ≡ some head =
        rw same (lookup-middle run_id head head done todo fresh) in
      elim (Result-cases (link lib e head)) [
        | inr (x, failed) ↦ ground arith
        | inl (after, linked) ↦
            let put : insert e.payload.run_id after (done ++ (run_id, head) ∷ todo)
                ≡ done ++ (run_id, after) ∷ todo =
              rw same (insert-middle run_id after head done todo fresh) in
            let ih = link_all-follow es after fresh own in cc
      ]

pub link_all-append :
    (lib : Hashing) (es fs : List EventRow) (heads : Dict (ℕ × String))
    → link_all lib (es ++ fs) heads ≡ (link_all lib es heads >>= λ after. link_all lib fs after)
unfolding link_all
link_all-append lib [] fs heads = refl
link_all-append lib (e ∷ es) fs heads = elim (Option-cases (lookup e.payload.run_id heads)) [
  | inl unknown ↦ ground arith
  | inr (head, known) ↦ elim (Result-cases (link lib e head)) [
    | inr (x, failed) ↦ ground arith
    | inl (after, linked) ↦
        let ih = link_all-append lib es fs (insert e.payload.run_id after heads) in cc
  ]
]

pub events_of-own :
    (run_id : String) (es : List EventRow)
    → All (λ e. e.payload.run_id ≡ run_id) (events_of run_id es)
events_of-own run_id [] = tt
events_of-own run_id (e ∷ es) = elim (Bool-cases (str_eq e.payload.run_id run_id)) [
  | inl same ↦
      let name : e.payload.run_id ≡ run_id = ground (arith, eq_iff e.payload.run_id run_id) in
      let kept : events_of run_id (e ∷ es) ≡ e ∷ events_of run_id es = ground arith in
      subst (All (λ x. x.payload.run_id ≡ run_id)) (sym kept) (name, events_of-own run_id es)
  | inr other ↦
      let kept : events_of run_id (e ∷ es) ≡ events_of run_id es = ground arith in
      subst (All (λ x. x.payload.run_id ≡ run_id)) (sym kept) (events_of-own run_id es)
]
