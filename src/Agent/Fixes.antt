-- ===== src/Agent/Fixes.antt =====
-- What a finished loop hands over: the submission it finished with, and a report that passed.
use autocontribute.Base.{
  ℕ, ◌+◌, String, Option, none, some, Bool, true, false, ◌&&◌, List, [], ◌∷◌, ◌≡◌, inl, inr, refl,
  arith, leb, is_none, if◌then◌else◌, Bool-cases, subst, sym,
}
use autocontribute.Errors.{ok}
use autocontribute.Agent.Request.{Requested, StopReason, turn, did_not_finish, loop_failure, raised}
use autocontribute.Agent.Submit.{
  CheckReport, AgentSubmission, fixed, skip, Findings, SubmitReply, accept, continue, stop, Solver,
  on_submit, outcome, submitted_fix, new_round,
}
use autocontribute.Agent.Rounds.{IsOpen, continued-IsOpen, open-IsHandedOver, new_round-IsOpen}
use autocontribute.Agent.Turns.{
  CommandRun, ToolOutcome, Call, holds_token, invalid_submit, raising_tool, submit, tool,
  LoopOutcome, finished, ended, AgentLoop, Answering, stops, end_failure_streak, count_failure,
  count_failures, after_tool, replied, take_submit, run_call, take_calls, close_turn, opening,
  answer, Exchange, unanswered, run_turn, run_turns, not_turn,
}

-- What a loop leaves: a round that is still open, or a fix with its passing report.
abbrev IsSound : Option LoopOutcome → Solver → Type 0
IsSound none s = IsOpen s
IsSound (some (finished (fixed body))) s =
    (report : CheckReport) × (outcome (fixed body) s ≡ ok (submitted_fix (fixed body) report))
    × (report.passed ≡ true)
IsSound (some (finished (skip reason))) s = Unit
IsSound (some (ended result)) s = Unit

replied-IsSound :
    (found : Findings) (submission : AgentSubmission) (last_turn : Bool) (s : Solver)
    (reply : SubmitReply)
    → IsOpen s
    → (on_submit found submission last_turn s).0 ≡ reply
    → IsSound (replied reply submission) (on_submit found submission last_turn s).1
replied-IsSound found submission last_turn s (continue text) inv e =
    continued-IsOpen found submission last_turn text s inv e
replied-IsSound found submission last_turn s (stop text) inv e = tt
replied-IsSound found (skip reason) last_turn s (accept text) inv e = tt
replied-IsSound found (fixed body) last_turn s (accept text) inv e =
    let (report, (handed, passed, why)) = open-IsHandedOver s found body last_turn text inv e in
    (report, handed, passed)

abbrev IsKept : Option LoopOutcome × AgentLoop → Type 0
IsKept p = IsSound p.0 p.1.solver

if-IsKept :
    (c : Bool) (x y : Option LoopOutcome × AgentLoop)
    → IsKept x
    → IsKept y
    → IsKept (if c then x else y)
if-IsKept true x y hx hy = hx
if-IsKept false x y hx hy = hy

count_failure-solver : (c : CommandRun) (l : AgentLoop) → (count_failure c l).solver ≡ l.solver
unfolding count_failure
count_failure-solver c l = ground arith

count_failures-IsKept :
    (cs : List CommandRun) (l : AgentLoop) → IsOpen l.solver → IsKept (count_failures cs l)
count_failures-IsKept [] l inv = inv
count_failures-IsKept (c ∷ cs) l inv =
    let l' = count_failure c l in
    if-IsKept (leb 3 l'.failures_in_a_row) (stops StopReason.repeated_failure, l')
      (count_failures cs l') tt
      (count_failures-IsKept cs l' (subst IsOpen (sym (count_failure-solver c l)) inv))

streak-IsKept :
    (cs : List CommandRun) (l : AgentLoop)
    → IsOpen l.solver
    → IsKept (elim cs [ [] ↦ (none, end_failure_streak l) | c ∷ cs ↦ count_failures (c ∷ cs) l ])
streak-IsKept [] l inv = inv
streak-IsKept (c ∷ cs) l inv = count_failures-IsKept (c ∷ cs) l inv

after_tool-IsKept :
    (out : ToolOutcome) (l : AgentLoop) → IsOpen l.solver → IsKept (after_tool out l)
unfolding after_tool
after_tool-IsKept out l inv =
    if-IsKept out.out_of_time (stops StopReason.time, l) _ tt (streak-IsKept out.commands l inv)

abbrev IsHeld : Answering → Type 0
IsHeld a = IsSound a.outcome a.loop.solver

if-IsHeld : (c : Bool) (x y : Answering) → IsHeld x → IsHeld y → IsHeld (if c then x else y)
if-IsHeld true x y hx hy = hx
if-IsHeld false x y hx hy = hy

run_call-IsHeld :
    (last_turn : Bool) (c : Call) (a : Answering)
    → a.outcome ≡ none
    → IsOpen a.loop.solver
    → IsHeld (run_call last_turn c a)
unfolding run_call
run_call-IsHeld last_turn holds_token a e inv = subst (λ o. IsSound o a.loop.solver) (sym e) inv
run_call-IsHeld last_turn invalid_submit a e inv =
    let kept = subst (λ o. IsSound o a.loop.solver) (sym e) inv in
    if-IsHeld a.submitted _ _ kept kept
run_call-IsHeld last_turn (submit submission found) a e inv =
    if-IsHeld a.submitted _ (take_submit last_turn submission found a)
      (subst (λ o. IsSound o a.loop.solver) (sym e) inv)
      (replied-IsSound found submission last_turn a.loop.solver _ inv refl)
run_call-IsHeld last_turn raising_tool a e inv = tt
run_call-IsHeld last_turn (tool out) a e inv = after_tool-IsKept out a.loop inv

choice-IsHeld :
    (o : Option LoopOutcome) (x y : Answering)
    → (o ≡ none → IsHeld x)
    → IsHeld y
    → IsHeld (if is_none o then x else y)
choice-IsHeld none x y hx hy = hx refl
choice-IsHeld (some o) x y hx hy = hy

take_calls-IsHeld :
    (last_turn : Bool) (cs : List Call) (a : Answering)
    → IsHeld a
    → IsHeld (take_calls last_turn cs a)
take_calls-IsHeld last_turn [] a held = held
take_calls-IsHeld last_turn (c ∷ cs) a held = take_calls-IsHeld last_turn cs _ (
    choice-IsHeld a.outcome (run_call last_turn c a) (record a { results = a.results + 1 })
      (λ e. run_call-IsHeld last_turn c a e (subst (λ o. IsSound o a.loop.solver) e held)) held)

close_turn-IsKept : (a : Answering) → IsHeld a → IsKept (close_turn a)
unfolding close_turn
close_turn-IsKept a held = elim (Bool-cases (a.raises)) [
  | inl broken ↦ rw broken held
  | inr calm ↦
      rw calm (malformed-IsSound (is_none a.outcome && leb 3 _) a.outcome a.loop.solver held)
]
  where
    malformed-IsSound :
        (c : Bool) (o : Option LoopOutcome) (s : Solver)
        → IsSound o s
        → IsSound (if c then stops StopReason.malformed else o) s
    malformed-IsSound true o s kept = tt
    malformed-IsSound false o s kept = kept

answer-IsKept :
    (last_turn : Bool) (cs : List Call) (l : AgentLoop)
    → IsOpen l.solver
    → IsKept (answer last_turn cs l)
unfolding answer
answer-IsKept last_turn [] l inv =
    if-IsKept last_turn _ _ inv
      (if-IsKept (leb 2 l.nudges) (stops StopReason.no_tool_call, l) _ tt inv)
answer-IsKept last_turn (c ∷ cs) l inv =
    close_turn-IsKept (take_calls last_turn (c ∷ cs) (opening l))
      (take_calls-IsHeld last_turn (c ∷ cs) (opening l) inv)

unanswered-IsSound : (r : Requested) (s : Solver) → IsOpen s → IsSound (unanswered r) s
unfolding unanswered
unanswered-IsSound (turn usage) s inv = inv
unanswered-IsSound (did_not_finish reason) s inv = tt
unanswered-IsSound loop_failure s inv = tt
unanswered-IsSound (raised e) s inv = tt

run_turn-IsKept :
    (max_turns : ℕ) (x : Exchange) (l : AgentLoop)
    → IsOpen l.solver
    → IsKept (run_turn max_turns x l)
unfolding run_turn
run_turn-IsKept max_turns x l inv =
    let told = answer x.last_turn x.calls (record l { turns = l.turns + 1 }) in
    let kept = answer-IsKept x.last_turn x.calls (record l { turns = l.turns + 1 }) inv in
    let late : Option LoopOutcome × AgentLoop = (stops StopReason.context, told.1) in
    let answered : Option LoopOutcome × AgentLoop =
      if is_none told.0 && x.last_turn then late else told in
    let asked : Option LoopOutcome × AgentLoop =
      if not_turn x.requested then (unanswered x.requested, l) else answered in
    if-IsKept (leb max_turns l.turns) (stops StopReason.turns, l) _ tt
      (if-IsKept (x.last_turn && x.too_long) (stops StopReason.context, l) asked tt
        (if-IsKept (not_turn x.requested) (unanswered x.requested, l) answered
          (unanswered-IsSound x.requested l.solver inv)
          (if-IsKept (is_none told.0 && x.last_turn) late told tt kept)))

choice-IsKept :
    (p rest : Option LoopOutcome × AgentLoop)
    → IsKept p
    → (p.0 ≡ none → IsKept rest)
    → IsKept (if is_none p.0 then rest else p)
choice-IsKept (none, l) rest hp hr = hr refl
choice-IsKept (some o, l) rest hp hr = hp

run_turns-IsKept :
    (max_turns : ℕ) (xs : List Exchange) (l : AgentLoop)
    → IsOpen l.solver
    → IsKept (run_turns max_turns xs l)
run_turns-IsKept max_turns [] l inv = inv
run_turns-IsKept max_turns (x ∷ xs) l inv =
    let kept = run_turn-IsKept max_turns x l inv in
    choice-IsKept (run_turn max_turns x l) _ kept (λ e.
      run_turns-IsKept max_turns xs ((run_turn max_turns x l).1)
        (subst (λ o. IsSound o ((run_turn max_turns x l).1.solver)) e kept))

-- However the model behaves, a loop that begins a round and finishes with a fix hands it over with
-- a report of the checker that passed: the solver's outcome is that fix, never an error.
pub finished_fix_passed :
    (max_turns : ℕ) (xs : List Exchange) (l : AgentLoop) (body : String)
    → l.solver ≡ new_round
    → (run_turns max_turns xs l).0 ≡ some (finished (fixed body))
    → (report : CheckReport) × (outcome (fixed body) (run_turns max_turns xs l).1.solver
        ≡ ok (submitted_fix (fixed body) report))
      × (report.passed ≡ true)
finished_fix_passed max_turns xs l body begins done =
    subst (λ o. IsSound o ((run_turns max_turns xs l).1.solver)) done
      (run_turns-IsKept max_turns xs l (subst IsOpen (sym begins) new_round-IsOpen))
