-- ===== src/Agent/Ending.antt =====
-- AgentLoop._run_turns of src/autocontribute/agent_loop.py: every transcript ends, within its limits.
use autocontribute.Base.{
  ℕ, ◌+◌, ◌≤◌, ◌<◌, Option, none, some, Bool, true, false, ◌&&◌, List, [], ◌∷◌, length, ◌≡◌, inl,
  inr, refl, arith, leb, is_none, if◌then◌else◌, Option-cases,
}
use autocontribute.Agent.Request.{Requested, StopReason, turn, did_not_finish, loop_failure, raised}
use autocontribute.Agent.Turns.{
  LoopOutcome, AgentLoop, stops, answer, Exchange, unanswered, not_turn, run_turn, run_turns,
}
use autocontribute.Agent.Limits.{IsWithin, IsKept, answer-IsKept}

-- what one round of the loop does to the turns
record IsCounted (max_turns : ℕ) (l : AgentLoop) (p : Option LoopOutcome × AgentLoop) : Type 0 where
  bounded : p.1.turns ≤ max_turns
  going : p.0 ≡ none → (p.1.turns ≡ l.turns + 1) × IsWithin p.1

ended-IsCounted :
    (max_turns : ℕ) (l l' : AgentLoop) (o : LoopOutcome)
    → l'.turns ≤ max_turns
    → IsCounted max_turns l (some o, l')
ended-IsCounted max_turns l l' o le = record { bounded = le; going = λ e. absurd (cc) }

unanswered-IsCounted :
    (max_turns : ℕ) (l : AgentLoop) (r : Requested)
    → not_turn r ≡ true
    → l.turns ≤ max_turns
    → IsCounted max_turns l (unanswered r, l)
unfolding unanswered
unanswered-IsCounted max_turns l (turn usage) e le = absurd (ground arith)
unanswered-IsCounted max_turns l (did_not_finish reason) e le = ended-IsCounted max_turns l l _ le
unanswered-IsCounted max_turns l loop_failure e le = ended-IsCounted max_turns l l _ le
unanswered-IsCounted max_turns l (raised error) e le = ended-IsCounted max_turns l l _ le

if-IsCounted :
    (max_turns : ℕ) (l : AgentLoop) (c : Bool) (x y : Option LoopOutcome × AgentLoop)
    → (c ≡ true → IsCounted max_turns l x)
    → (c ≡ false → IsCounted max_turns l y)
    → IsCounted max_turns l (if c then x else y)
if-IsCounted max_turns l true x y hx hy = hx refl
if-IsCounted max_turns l false x y hx hy = hy refl

run_turn-IsCounted :
    (max_turns : ℕ) (x : Exchange) (l : AgentLoop)
    → l.turns ≤ max_turns
    → IsWithin l
    → IsCounted max_turns l (run_turn max_turns x l)
unfolding run_turn
run_turn-IsCounted max_turns x l le w =
    let next = record l { turns = l.turns + 1 } in
    let told = answer x.last_turn x.calls next in
    let kept : IsKept (l.turns + 1) told = answer-IsKept x.last_turn x.calls next (record {
      few_nudges = w.few_nudges;
      few_malformed = w.few_malformed;
      few_failures = w.few_failures;
    }) in
    let late : Option LoopOutcome × AgentLoop = (stops StopReason.context, told.1) in
    let answered : Option LoopOutcome × AgentLoop =
      if is_none told.0 && x.last_turn then late else told in
    let asked : Option LoopOutcome × AgentLoop =
      if not_turn x.requested then (unanswered x.requested, l) else answered in
    if-IsCounted max_turns l (leb max_turns l.turns) (stops StopReason.turns, l) _
      (λ full. ended-IsCounted max_turns l l _ le)
      (λ room.
        let fits : told.1.turns ≤ max_turns = ground (arith, kept.same_turns) in
        if-IsCounted max_turns l (x.last_turn && x.too_long) (stops StopReason.context, l) asked
          (λ e. ended-IsCounted max_turns l l _ le)
          (λ e.
            if-IsCounted max_turns l (not_turn x.requested) (unanswered x.requested, l) answered
              (λ none_came. unanswered-IsCounted max_turns l x.requested none_came le)
              (λ came.
                if-IsCounted max_turns l (is_none told.0 && x.last_turn) late told
                  (λ h. ended-IsCounted max_turns l told.1 _ fits)
                  (λ h. record {
                    bounded = fits;
                    going = λ open_still. (kept.same_turns, kept.within open_still);
                  }))))

run_turns-IsBounded :
    (max_turns : ℕ) (xs : List Exchange) (l : AgentLoop)
    → l.turns ≤ max_turns
    → IsWithin l
    → ((run_turns max_turns xs l).1.turns ≤ max_turns)
      × (max_turns < l.turns + length xs
          → (o : LoopOutcome) × ((run_turns max_turns xs l).0 ≡ some o))
run_turns-IsBounded max_turns [] l le w = (le, λ lt. absurd (omega (arith, lt)))
run_turns-IsBounded max_turns (x ∷ xs) l le w =
    let counted = run_turn-IsCounted max_turns x l le w in
    let (outcome, l') = run_turn max_turns x l in
    elim (Option-cases outcome) [
      | inr (o, over) ↦ (ground (arith, counted.bounded), λ lt. (o, ground arith))
      | inl going ↦
          let (one_more, w') = counted.going going in
          let (bounded, ends) = run_turns-IsBounded max_turns xs l' counted.bounded w' in
          (
            rw going bounded,
            λ lt. let (o, over) = ends (omega (arith, lt, one_more)) in (o, rw going over),
          )
    ]

-- A transcript always ends: a loop whose counters are within their limits has an outcome by the turn
-- after its cap, whatever the model, the tools and the checker do, and has then taken no more turns
-- than its cap.
pub run_turns-ends :
    (max_turns : ℕ) (xs : List Exchange) (l : AgentLoop)
    → l.turns ≤ max_turns
    → IsWithin l
    → max_turns < l.turns + length xs
    → ((run_turns max_turns xs l).1.turns ≤ max_turns)
      × ((o : LoopOutcome) × ((run_turns max_turns xs l).0 ≡ some o))
run_turns-ends max_turns xs l le w enough =
    let (bounded, ends) = run_turns-IsBounded max_turns xs l le w in (bounded, ends enough)
