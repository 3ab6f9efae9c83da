-- ===== src/Lib.antt =====
-- A model of rooben, an orchestrator of agents: a specification is planned into a graph of tasks, the
-- orchestrator runs the tasks that are ready on their agents, has each output verified, retries what
-- is rejected, and keeps budgets, a rate limit, a circuit breaker, checkpoints and files meanwhile.
--
-- The parts and their files (paths of the program from the root of the repository, under src/rooben/):
-- - Prelude, Prelude/Lists, Prelude/Texts, Prelude/Tests, Dict and its children: shared names, lists measured by native
--   numbers, and Python's dictionaries as association lists in the order of insertion.
-- - Domain/Status, Domain/Models, Domain/State: domain.py. The classes are records field by field, and
--   the methods of WorkflowState keep their names. `is_workflow_stalled` carries the memo dictionary of
--   its inner function, and recurs on fuel; the children of Domain/State have its meaning (Blocked,
--   Stalled), what it is to the loop (Progress), and registration (Registration).
-- - Security/Budget, Security/RateLimiter: security/budget.py and security/rate_limiter.py.
-- - Resilience/CircuitBreaker, Resilience/ApiRetry, Resilience/ApiLimiter, Resilience/Checkpoint: the
--   files of resilience/.
-- - State/Filesystem: state/filesystem.py. A file holds the value that its JSON text parses to.
-- - Spec/Models, Planning/Cycles, Planning/Checker: planning/checker.py with the agents of spec/models.py.
--   Cycles is the search of `_detect_cycle`, with its two dictionaries and its fuel.
-- - Planning/Draft, Planning/Judge, Planning/Planner: planning/llm_planner.py and planning/plan_judge.py.
--   Draft is `_build_state`, Judge the verdict on a plan, Planner the loop of `plan`; its child Run puts
--   the planner, the loop of the orchestrator and its phases together.
-- - Verification/Verifier, Verification/Chained: verification/verifier.py, the results and the chain.
--   Heuristic and Tiered are verification/heuristic.py and verification/tiered.py.
-- - Spec/Validator: spec/validator.py.
-- - Billing/Costs: billing/costs.py.
-- - Context/Sections, Context/Builder: context/builder.py, the sections of a prompt and their budget.
-- - State/Protocol: state/protocol.py, with the abstract store that a backend refines.
-- - Agents/Pool, Agents/Scratchpad: agents/mcp_pool.py, with its clients as numbers, and
--   agents/scratchpad.py.
-- - Orchestrator: orchestrator.py. Core has the state of the object and the world around it; Updates
--   has `_update_task`, the derived status of a workstream and the counters; TaskSteps and Execution
--   have `_dispatch_task` and `_execute_task`; Gather has the round of `asyncio.gather`, Loop the
--   `while` loop of `_execute_workflow`, and Phases `run` and `resume`.
-- - Samples and Examples: a workflow of two tasks, and the theorems at concrete inputs.
--
-- How state is passed. An object's attributes are the fields of a record, and a method takes the record
-- and returns the new one, with an exception as a value beside it (`Step`, `BudgetExceeded`). A task
-- object is shared with the dictionary of tasks, so that a change of it is written to its key at once.
-- What is outside is the record `World`: the clock, the agents, the verifier, the sanitizer, the prompt
-- builder, the prices, the hash of an error, the cancel event, and the order in which the event loop
-- wakes coroutines. Each is a function, of a number that counts the calls where its answers may differ
-- from time to time.
--
-- Concurrency. A coroutine of a round is cut at the points where it waits for something outside: its
-- first turn, a slot of the semaphores and of the rate limiter, the agent's answer, the verifier's
-- answer. Between two of these it runs alone, and `World.pick` chooses which coroutine has the next
-- turn, so a theorem for every world holds for every order. The waits for a lock, for the event
-- callback and for the files are taken not to let another coroutine in.
--
-- Numbers. Times are natural numbers of one unit: milliseconds in the loop, the breaker and the pool of
-- connections, and as the comment of the file says elsewhere. Costs and scores are natural numbers of
-- a small unit, the checker's score in twentieths and a verifier's in thousandths. Python's integers
-- are unbounded, and so are these.
--
-- Fuel. `is_workflow_stalled` recurs at most as deep as the graph, whose depth is a rank on the tasks;
-- the loop takes at most one pass more than the starts that the tasks have left; the search for a cycle
-- has as many levels as there are tasks; `acquire` and the retries have bounds of their own. Each bound
-- is a theorem, and none of them is in the code. A round has four turns for each coroutine, and no
-- coroutine has more.
--
-- Not modelled: log lines, the payloads of events beyond ids, attempts and counters, the report and the
-- diagnostic after a run, the criteria map that `run` gives to the verifier, the registration of agents
-- after a run, and the parts that call models, processes, databases or HTTP: providers, agents, the
-- dashboard, the command line, extensions, refinement, memory and workspaces.
pub mod Prelude
pub mod Dict
pub mod Context
pub mod Domain
pub mod Security
pub mod Resilience
pub mod State
pub mod Verification
pub mod Orchestrator
pub mod Samples
pub mod Examples
pub mod Planning
pub mod Spec
pub mod Billing
pub mod Agents
