-- ===== src/Lib.antt =====
-- Verification of autocontribute's core: what it spends, who may act, and how a run moves on.
--
-- Parts and files
--  * Pricing (src/autocontribute/pricing.py): Table holds the records and the model table, Bounds
--    `tier_rates`, `cost` and `upper_bound_cost`, Resolve `resolve_model` and `resolve_critic`.
--  * Budget (src/autocontribute/budget.py): State holds RunBudget and the figures read from it,
--    Operations its methods `reserve`, `settle`, `record_failure`, `charge_for_retry` and
--    `charge_failed_request`, and `daily_budget_left` with the cap that
--    src/autocontribute/orchestrator.py gives a run. Reserve, Settle, Invariant and Trace hold the
--    proofs; Trace is about any sequence of calls.
--  * Lease (src/autocontribute/store.py): Cell holds each lease operation of RunStore on the rows of one
--    lease name, Store the two tables keyed by name, Grants what an operation that succeeded did,
--    and Fencing what follows over any sequence of calls. Guard is LeaseHeartbeatGuard of
--    src/autocontribute/coordination.py, Guarded and Entered what it promises.
--  * Runs (src/autocontribute/domain.py and store.py): Status holds RunStatus and its graph, Graph the
--    histories that the graph allows, Store the table `runs` with `_save`, `transition` and
--    `create_run`, Claim `claim_candidate`, Publish `begin_publication` and the two finalizers of a
--    publication's compensation, Retire `recover_stale_runs` and `expire_ready_for_approval_runs`:
--    these are all the methods that write a run's status or manifest. Saving, Begun, Written, Retirable and Retired
--    hold what one call does, and Steps and Reach what any sequence of them does.
--  * Safety (src/autocontribute/store.py): State holds the tables of the circuit breaker, the holds and the
--    streak of rate limits, Breaker and Holds their operations, Steps, Events and Evidence what any
--    sequence of calls keeps, Review what an operator's resumption means, and Held what a hold
--    stops.
--  * Ledger (src/autocontribute/store.py): Chain holds the rows of `runs` and `events`, `append_event` and
--    `verify_event_anchors`, Follow, Rows, Appended, Sound and Heads the chain of each run,
--    Verified that what was appended verifies, and Unique that an anchor fixes a history.
--  * Publications (src/autocontribute/store.py): Reservations holds `reserve_publication` and its
--    reconciliation with the ledger, Reconciled and Consumed what one call does, and Capacity what any
--    sequence keeps of the daily limit and the cooldown.
--  * Agent (src/autocontribute/agent_loop.py and model_retry.py): Retry holds `retry_decision`, Request
--    `_request` with its retries, on the budget, Turns `_run_turns`, `_answer`, `_submit` and
--    `_after_tool`, and Submit the Solver's `_on_submit` and `_outcome`. Attempts, Limits, Ending,
--    Rounds and Fixes hold the proofs.
--  * Suites (src/autocontribute/suite_runs.py, suite_results.py and fix_checks.py): Results holds the results
--    of a run, Baseline `run_baseline` and `summarize_baseline`, Regression the regression check and
--    RedGreen the red and green steps of FixChecks with the functions they call, Report `parse_report`.
--    Sorted, Unbroken and Reproduced hold the proofs.
--  * Base and Errors are shared: names, lists and dictionaries; the exceptions as values.
--
-- How they interact: every method of RunBudget saves the run's manifest through the store, after it has
-- asserted the run's lease and, before a reservation, that the circuit breaker is clear. Those answers
-- are the fields of an `Env`, so the theorems hold whatever they are. The agent loop reserves and
-- settles each request in the budget; its submit calls go to the Solver. `begin_publication` takes its
-- capacity by `reserve_publication` in its own transaction. A guard's methods are steps on
-- the lease rows, between which other workers may write them.
--
-- How the code is read
--  * A method returns its result with the state after it, after a raise too. A transaction changes
--    all rows it writes or none.
--  * Money is in units of 1e-11 USD, in which every price of the table is a whole number per token. A
--    run's cap is in nano-dollars (`max_cost_nano`, 100 units each), so that a scope's share of it in
--    hundredths is whole. Times are in microseconds. Numbers have no upper bound, as in Python; a
--    lease's generation keeps the limit of 2 ^ 63 - 1 that the code gives it.
--  * Write transactions are taken with BEGIN IMMEDIATE, so each is one step and the row counts of
--    its UPDATE statements are as its own SELECT found them.
--  * The manifest has the fields that the part modelled reads or writes. Its score is not negative.
--    Whether the file of a manifest could be written is a field of `Env`.
--  * What the sandbox gives to the checks of a fix is a function from the number of a run to its
--    result, or nothing when no time is left; what a framework's reader gives is an argument too.
--    The texts of details and messages are left out, except where a test's message is searched.
--  * The loops of the agent have no fuel: they run through a list of what they may meet (the provider's
--    answers, the turns and their calls), and it is proved how long a list is always enough. What
--    the checker of a fix and the tools find is part of that list. A retry's wait is rounded down
--    to a microsecond, and its random jitter is in millionths.
--  * What the safety operations call of Python's libraries (SHA-256, numbers and times as texts,
--    case folding) is a parameter, the record `Library`; so is the hash of the ledger, in `Hashing`,
--    and what the ledger answers to a reservation, in `LedgerAnswers`. What the evidence of a
--    compensation says to its finalizer is the record `Evidence`, and any answer is allowed.
--  * The ledger's SELECT of all events groups them by run; the runs stand in the order of their
--    insertion, which no answer depends on.
--  * A run id is new to the store when `create_run` draws it: a hypothesis, since ids are random.
--
-- Not modelled: everything that talks to GitHub, to a model provider, to git or to a container, the
-- texts made for a model, the reading of foreign repositories' build files, the command line, and
-- src/autocontribute/apply_diff.py, which is a copy of another project's file.
pub mod Base
pub mod Errors
pub mod Agent
pub mod Budget
pub mod Lease
pub mod Ledger
pub mod Pricing
pub mod Publications
pub mod Runs
pub mod Safety
pub mod Suites
