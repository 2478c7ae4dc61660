-- ===== src/Agent/Limits.antt =====
-- One answer of AgentLoop of src/autocontribute/agent_loop.py keeps the counters within their limits: its
-- nudges, turns of malformed calls and repeated failures.
use autocontribute.Base.{
  ℕ, ◌+◌, ◌≤◌, ◌<◌, Option, none, some, Bool, true, false, ◌&&◌, List, [], ◌∷◌, ◌≡◌, refl, arith,
  leb, ◌==◌, is_none, if◌then◌else◌, subst,
}
use autocontribute.Agent.Request.{StopReason}
use autocontribute.Agent.Turns.{
  CommandRun, ToolOutcome, Call, holds_token, invalid_submit, raising_tool, submit, tool,
  LoopOutcome, AgentLoop, Answering, stops, end_failure_streak, count_failure, count_failures,
  after_tool, run_call, take_submit, take_calls, close_turn, opening, answer,
}

-- what the counters are at most while a loop goes on
pub record IsWithin (l : AgentLoop) : Type 0 where
  pub few_nudges : l.nudges ≤ 2
  pub few_malformed : l.malformed_turns < 3
  pub few_failures : l.failures_in_a_row < 3

-- no turn is counted, and the counters stay within their limits if the loop goes on
pub record IsKept (n : ℕ) (p : Option LoopOutcome × AgentLoop) : Type 0 where
  pub same_turns : p.1.turns ≡ n
  pub within : p.0 ≡ none → IsWithin p.1

if-IsKept :
    (n : ℕ) (c : Bool) (x y : Option LoopOutcome × AgentLoop)
    → (c ≡ true → IsKept n x)
    → (c ≡ false → IsKept n y)
    → IsKept n (if c then x else y)
if-IsKept n true x y hx hy = hx refl
if-IsKept n false x y hx hy = hy refl

over-IsKept : (n : ℕ) (o : LoopOutcome) (l : AgentLoop) → l.turns ≡ n → IsKept n (some o, l)
over-IsKept n o l e = record { same_turns = e; within = λ h. absurd (cc) }

streak-IsWithin : (l : AgentLoop) → IsWithin l → IsWithin (end_failure_streak l)
streak-IsWithin l w = record {
  few_nudges = w.few_nudges;
  few_malformed = w.few_malformed;
  few_failures = omega arith;
}

count_failure-same :
    (c : CommandRun) (l : AgentLoop)
    → ((count_failure c l).turns ≡ l.turns)
      × ((count_failure c l).nudges ≡ l.nudges)
      × ((count_failure c l).malformed_turns ≡ l.malformed_turns)
unfolding count_failure
count_failure-same c l = (ground arith, ground arith, ground arith)

count_failures-IsKept :
    (cs : List CommandRun) (l : AgentLoop) → IsWithin l → IsKept l.turns (count_failures cs l)
count_failures-IsKept [] l w = record { same_turns = refl; within = λ e. w }
count_failures-IsKept (c ∷ cs) l w =
    let l' = count_failure c l in
    let (turns, nudges, malformed) = count_failure-same c l in
    if-IsKept l.turns (leb 3 l'.failures_in_a_row) (stops StopReason.repeated_failure, l')
      (count_failures cs l') (λ e. over-IsKept l.turns _ l' turns)
      (λ e.
        subst (λ n. IsKept n (count_failures cs l')) turns
          (count_failures-IsKept cs l' (record {
            few_nudges = rw nudges w.few_nudges;
            few_malformed = rw malformed w.few_malformed;
            few_failures = ground arith;
          })))

commands-IsKept :
    (cs : List CommandRun) (l : AgentLoop)
    → IsWithin l
    → IsKept l.turns
        (elim cs [ [] ↦ (none, end_failure_streak l) | c ∷ cs ↦ count_failures (c ∷ cs) l ])
commands-IsKept [] l w = record { same_turns = refl; within = λ e. streak-IsWithin l w }
commands-IsKept (c ∷ cs) l w = count_failures-IsKept (c ∷ cs) l w

after_tool-IsKept :
    (out : ToolOutcome) (l : AgentLoop) → IsWithin l → IsKept l.turns (after_tool out l)
unfolding after_tool
after_tool-IsKept out l w =
    if-IsKept l.turns out.out_of_time (stops StopReason.time, l) _
      (λ e. over-IsKept l.turns _ l refl) (λ e. commands-IsKept out.commands l w)

abbrev IsHeld : ℕ → Answering → Type 0
IsHeld n a = IsKept n (a.outcome, a.loop)

if-IsHeld :
    (n : ℕ) (c : Bool) (x y : Answering) → IsHeld n x → IsHeld n y → IsHeld n (if c then x else y)
if-IsHeld n true x y hx hy = hx
if-IsHeld n false x y hx hy = hy

run_call-IsHeld :
    (n : ℕ) (last_turn : Bool) (c : Call) (a : Answering)
    → a.loop.turns ≡ n
    → IsWithin a.loop
    → IsHeld n (run_call last_turn c a)
unfolding run_call
run_call-IsHeld n last_turn holds_token a same w = record {
  same_turns = same;
  within = λ e. streak-IsWithin a.loop w;
}
run_call-IsHeld n last_turn invalid_submit a same w =
    if-IsHeld n a.submitted _ _ (record { same_turns = same; within = λ e. w })
      (record { same_turns = same; within = λ e. streak-IsWithin a.loop w })
run_call-IsHeld n last_turn (submit submission found) a same w =
    if-IsHeld n a.submitted _ (take_submit last_turn submission found a)
      (record { same_turns = same; within = λ e. w })
      (record {
        same_turns = same;
        within = λ e. record {
          few_nudges = w.few_nudges;
          few_malformed = w.few_malformed;
          few_failures = omega arith;
        };
      })
run_call-IsHeld n last_turn raising_tool a same w = over-IsKept n _ a.loop same
run_call-IsHeld n last_turn (tool out) a same w =
    subst (λ k. IsKept k (after_tool out a.loop)) same (after_tool-IsKept out a.loop w)

choice-IsHeld :
    (n : ℕ) (o : Option LoopOutcome) (x y : Answering)
    → (o ≡ none → IsHeld n x)
    → IsHeld n y
    → IsHeld n (if is_none o then x else y)
choice-IsHeld n none x y hx hy = hx refl
choice-IsHeld n (some o) x y hx hy = hy

take_calls-IsHeld :
    (n : ℕ) (last_turn : Bool) (cs : List Call) (a : Answering)
    → IsHeld n a
    → IsHeld n (take_calls last_turn cs a)
take_calls-IsHeld n last_turn [] a held = held
take_calls-IsHeld n last_turn (c ∷ cs) a held = take_calls-IsHeld n last_turn cs _ (
    choice-IsHeld n a.outcome (run_call last_turn c a) (record a { results = a.results + 1 })
      (λ e. run_call-IsHeld n last_turn c a held.same_turns (held.within e)) held)

unstopped :
    (o : Option LoopOutcome) (malformed : ℕ)
    → (if is_none o && leb 3 malformed then stops StopReason.malformed else o) ≡ none
    → (o ≡ none) × (malformed < 3)
unstopped none malformed e = (refl, ground arith)
unstopped (some o) malformed e = absurd (ground arith)

close_turn-IsKept : (n : ℕ) (a : Answering) → IsHeld n a → IsKept n (close_turn a)
unfolding close_turn
close_turn-IsKept n a held =
    if-IsKept n a.raises (a.outcome, a.loop) _ (λ e. held)
      (λ e. record {
        same_turns = held.same_turns;
        within = λ going.
            let malformed : ℕ = if a.invalid == a.results then a.loop.malformed_turns + 1 else 0 in
            let (unended, few) = unstopped a.outcome malformed going in
            let w = held.within unended in
            record {
              few_nudges = w.few_nudges;
              few_malformed = few;
              few_failures = w.few_failures;
            };
      })

pub answer-IsKept :
    (last_turn : Bool) (cs : List Call) (l : AgentLoop)
    → IsWithin l
    → IsKept l.turns (answer last_turn cs l)
unfolding answer
answer-IsKept last_turn [] l w =
    let open_still : IsKept l.turns (none, l) = record { same_turns = refl; within = λ e. w } in
    if-IsKept l.turns last_turn (none, l) _ (λ e. open_still)
      (λ e.
        if-IsKept l.turns (leb 2 l.nudges) (stops StopReason.no_tool_call, l) _
          (λ e. over-IsKept l.turns _ l refl)
          (λ e. record {
            same_turns = refl;
            within = λ h. record {
              few_nudges = ground arith;
              few_malformed = w.few_malformed;
              few_failures = w.few_failures;
            };
          }))
answer-IsKept last_turn (c ∷ cs) l w =
    close_turn-IsKept l.turns (take_calls last_turn (c ∷ cs) (opening l)) (
      take_calls-IsHeld l.turns last_turn (c ∷ cs) (opening l)
        (record { same_turns = refl; within = λ e. w }))
