-- ===== src/Agent/Turns.antt =====
-- AgentLoop of src/autocontribute/agent_loop.py on the solver's transcript: _run_turns, _answer,
-- _submit and _after_tool. What a turn holds, and what its calls would do, is an argument; the
-- messages to the model (reminders, guidance) are left out.
use autocontribute.Base.{
  ℕ, ◌+◌, String, Option, none, some, Bool, true, false, ◌&&◌, List, [], ◌∷◌, str_eq, leb, ◌==◌,
  is_none, if◌then◌else◌,
}
use autocontribute.Agent.Request.{StopReason, Requested, turn, did_not_finish, loop_failure}
use autocontribute.Agent.Submit.{
  AgentSubmission, Findings, SubmitReply, accept, continue, stop, Solver, on_submit,
}

pub record CommandRun : Type 0 where
  pub command : String
  pub passed : Bool

-- ToolOutcome
pub record ToolOutcome : Type 0 where
  pub invalid : Bool
  pub out_of_time : Bool
  pub commands : List CommandRun

-- A call of a tool: its arguments look like a credential, or it is the submit tool's, valid or not,
-- with what the checker finds then, or another tool's, which has an outcome or raises.
pub data Call : Type 0 where
  holds_token invalid_submit raising_tool : Call
  submit : AgentSubmission → Findings → Call
  tool : ToolOutcome → Call

pub data LoopOutcome : Type 0 where
  finished : AgentSubmission → LoopOutcome
  ended : Requested → LoopOutcome

-- the counters of an AgentLoop, with the state of its submit handler
pub record AgentLoop : Type 0 where
  pub turns : ℕ
  pub nudges : ℕ
  pub malformed_turns : ℕ
  pub failing_command : Option String
  pub failures_in_a_row : ℕ
  pub solver : Solver

-- the local variables of `_answer`; `raises` says that a tool raised
pub record Answering : Type 0 where
  pub loop : AgentLoop
  pub outcome : Option LoopOutcome
  pub results : ℕ
  pub invalid : ℕ
  pub submitted : Bool
  pub raises : Bool

abbrev pub stops : StopReason → Option LoopOutcome
stops reason = some (ended (did_not_finish reason))

-- AgentLoop._end_failure_streak
abbrev pub end_failure_streak : AgentLoop → AgentLoop
end_failure_streak l = record l { failing_command = none; failures_in_a_row = 0 }

abbrev is_same : String → Option String → Bool
is_same command none = false
is_same command (some failing) = str_eq command failing

-- one command in the streak of failures
unfoldable pub count_failure : CommandRun → AgentLoop → AgentLoop
count_failure c l =
    if c.passed
    then end_failure_streak l
    else (if is_same c.command l.failing_command
        then record l { failures_in_a_row = l.failures_in_a_row + 1 }
        else record l { failing_command = some (c.command); failures_in_a_row = 1 })

-- the commands of a tool's outcome, until one ends the loop
abbrev pub count_failures : List CommandRun → AgentLoop → Option LoopOutcome × AgentLoop
count_failures [] l = (none, l)
count_failures (c ∷ cs) l =
    let l' = count_failure c l in
    let rest = count_failures cs l' in
    if leb 3 l'.failures_in_a_row then (stops StopReason.repeated_failure, l') else rest

-- AgentLoop._after_tool
unfoldable pub after_tool : ToolOutcome → AgentLoop → Option LoopOutcome × AgentLoop
after_tool out l = if out.out_of_time then (stops StopReason.time, l) else elim (out.commands) [
  | [] ↦ (none, end_failure_streak l)
  | c ∷ cs ↦ count_failures (c ∷ cs) l
]

-- the outcome that a reply to a submission makes
abbrev pub replied : SubmitReply → AgentSubmission → Option LoopOutcome
replied (accept _) submission = some (finished submission)
replied (stop _) submission = stops StopReason.submit_limit
replied (continue _) submission = none

abbrev one_if : Bool → ℕ
one_if true = 1
one_if false = 0

-- a submit call, the first of its turn
abbrev pub take_submit : Bool → AgentSubmission → Findings → Answering → Answering
take_submit last_turn submission found a =
    let (reply, solver) = on_submit found submission last_turn a.loop.solver in
    record a {
      loop = record (end_failure_streak a.loop) { solver = solver };
      outcome = replied reply submission;
      results = a.results + 1;
      submitted = true;
    }

-- a call that is refused, or whose arguments are invalid
abbrev refuse : Answering → Answering
refuse a = record a { results = a.results + 1; invalid = a.invalid + 1 }

-- one call of a turn in which nothing has ended the task yet
unfoldable pub run_call : Bool → Call → Answering → Answering
run_call last_turn holds_token a = refuse (record a { loop = end_failure_streak a.loop })
run_call last_turn invalid_submit a =
    if a.submitted
    then refuse a
    else refuse (record a { loop = end_failure_streak a.loop; submitted = true })
run_call last_turn (submit submission found) a =
    if a.submitted then refuse a else take_submit last_turn submission found a
run_call last_turn raising_tool a = record a { outcome = some (ended loop_failure); raises = true }
run_call last_turn (tool out) a =
    let (outcome, l) = after_tool out a.loop in
    record a {
      loop = l;
      outcome = outcome;
      results = a.results + 1;
      invalid = a.invalid + one_if out.invalid;
    }

-- the calls of a turn in order; after the task has ended the others are not run
abbrev pub take_calls : Bool → List Call → Answering → Answering
take_calls last_turn [] a = a
take_calls last_turn (c ∷ cs) a =
    take_calls last_turn cs
      (if is_none a.outcome then run_call last_turn c a else record a { results = a.results + 1 })

-- the end of `_answer`
unfoldable pub close_turn : Answering → Option LoopOutcome × AgentLoop
close_turn a =
    if a.raises
    then (a.outcome, a.loop)
    else (let malformed = if a.invalid == a.results then a.loop.malformed_turns + 1 else 0 in
        (
          if is_none a.outcome && leb 3 malformed then stops StopReason.malformed else a.outcome,
          record (a.loop) { malformed_turns = malformed },
        ))

abbrev pub opening : AgentLoop → Answering
opening l = record {
  loop = l;
  outcome = none;
  results = 0;
  invalid = 0;
  submitted = false;
  raises = false;
}

-- AgentLoop._answer
unfoldable pub answer : Bool → List Call → AgentLoop → Option LoopOutcome × AgentLoop
answer last_turn [] l =
    if last_turn
    then (none, l)
    else (if leb 2 l.nudges
        then (stops StopReason.no_tool_call, l)
        else (none, record l { nudges = l.nudges + 1 }))
answer last_turn (c ∷ cs) l = close_turn (take_calls last_turn (c ∷ cs) (opening l))

-- What one turn meets outside: whether the transcript is near its length limit, whether it is too
-- long for the last turn, what the request returns and the calls of its turn.
pub record Exchange : Type 0 where
  pub last_turn : Bool
  pub too_long : Bool
  pub requested : Requested
  pub calls : List Call

-- the outcome of a request that returned no turn
unfoldable pub unanswered : Requested → Option LoopOutcome
unanswered (turn usage) = none
unanswered result = some (ended result)

abbrev pub not_turn : Requested → Bool
not_turn (turn usage) = false
not_turn result = true

-- one round of `_run_turns`
unfoldable pub run_turn : ℕ → Exchange → AgentLoop → Option LoopOutcome × AgentLoop
run_turn max_turns x l =
    let (outcome, l') = answer x.last_turn x.calls (record l { turns = l.turns + 1 }) in
    if leb max_turns l.turns
    then (stops StopReason.turns, l)
    else (if x.last_turn && x.too_long
        then (stops StopReason.context, l)
        else (if not_turn x.requested
            then (unanswered x.requested, l)
            else (if is_none outcome && x.last_turn
                then (stops StopReason.context, l')
                else (outcome, l'))))

-- AgentLoop._run_turns, for the turns that it may meet; `none` when they do not end it
abbrev pub run_turns : ℕ → List Exchange → AgentLoop → Option LoopOutcome × AgentLoop
run_turns max_turns [] l = (none, l)
run_turns max_turns (x ∷ xs) l =
    let (outcome, l') = run_turn max_turns x l in
    let rest = run_turns max_turns xs l' in if is_none outcome then rest else (outcome, l')

-- the loop of a new solver
abbrev pub new_loop : Solver → AgentLoop
new_loop solver = record {
  turns = 0;
  nudges = 0;
  malformed_turns = 0;
  failing_command = none;
  failures_in_a_row = 0;
  solver = solver;
}
