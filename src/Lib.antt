-- ===== src/Lib.antt =====
-- A verification library for the Python package `local_coder`, a coding agent that runs on local and
-- remote models. Paths are from the repository's root.
--
-- The parts, and the file that models each:
--   Scheduler/Dag      src/local_coder/scheduler/dag.py, the task graph: `TaskDAG`, each method under its
--                      name, the depth-first search of `validate` as `visit` and `search_all`.
--   Scheduler/Plan     src/local_coder/orchestrator/coordinator.py, the plan loop: `_execute_plan` is
--                      `execute_plan`, its `while` is `plan_loop`, `_run_dag_task` is `run_dag_task`.
--   Scheduler/Turn     the same file: `run` in coding mode, its phases, `_resumable` and the fix loop.
--   Scheduler/Scopes   the same file: `_parallelism_for_wave`.
--   Routing            src/local_coder/models/router.py, and `_can_escalate` of the coordinator.
--   Budget             src/local_coder/core/budgets.py: `BudgetLedger`; Budget/Model is `BudgetedModel`.
--   Quota              src/local_coder/providers/quota.py: `FreeQuotaGuard`.
--   PromptCache        src/local_coder/models/cache.py: `PromptCache`.
--   ToolBatch          src/local_coder/tools/scheduling.py: `tool_effects`, `scheduled_calls`.
--   Brackets           src/local_coder/agents/tool_repair.py: `_close_brackets`.
--   Mailbox            src/local_coder/orchestrator/mailbox.py: `PlanMailbox`.
--   Checkpoint         src/local_coder/core/runtime.py: `AgentRun.validate_resume`.
--   Findings           src/local_coder/security/ledger.py: `FindingsLedger.record`.
--   Approvals          src/local_coder/core/approvals.py: `ApprovalInbox`.
--   ReviewBatches      src/local_coder/security/batching.py: `plan_batches`, `total_chars`.
--   Triage             src/local_coder/security/triage.py: `dedupe`.
--   EventBus           src/local_coder/core/event_bus.py: `InMemoryEventBus`.
--   Truncation         src/local_coder/context/compression.py: `truncate_tool_output`.
--   Compaction         the same file: `summarize_history` and `compaction_fidelity`;
--                      Compaction/Pruning is `prune_tool_outputs`.
--   Safety             src/local_coder/safety.py: `parse_safety_tier`, `CommandPolicy`, `SafetyHarness`.
--   AutoRouting        src/local_coder/models/auto_routing.py: `classify_task` and the classifier.
--   Evolution          src/local_coder/harness/evolution.py: `EvolutionStore`.
--   Base               what these share: tests, lists over native numbers, dictionaries.
--   Examples           the theorems at concrete inputs, and runs of the definitions.
--
-- The plan loop takes its tasks from the graph, runs them by agents, which are a parameter, and asks
-- the router for the model of a retry. A model call goes through the budget ledger first and the
-- quota guard next; where the quota refuses, the reservation in the ledger is released. A run of the
-- coordinator saves the answer of each phase, the plan loop among them, in a checkpoint. A history
-- that grows too long is pruned first and then summarized. Exceptions
-- are results. A dictionary is a list of its entries in insertion order; a set that the code only
-- tests and changes by one member is a list. What the code takes from Python's libraries or from a
-- server (floats, regular expressions, JSON, clocks, the calendar, the answer of a server, the size of
-- a value) is a parameter or an argument; times are natural numbers. Code under a lock, or without an
-- `await`, is one step.
--
-- Fuel: `visit` recurses through distinct keys, so one more than their number is enough; each round
-- of the plan loop settles a task, so one more round than tasks is enough; each batch of tool calls
-- takes one call at least. That the fuel is enough is part of the theorems.
--
-- Not modelled: user interfaces, HTTP clients, file formats, external programs, the prompts of the
-- agents, and of the parts above what their files name. The tasks of a wave run one after another in
-- the model of the plan loop, where the code may interleave them.
pub mod Base
pub mod Scheduler
pub mod Routing
pub mod Budget
pub mod PromptCache
pub mod Brackets
pub mod ToolBatch
pub mod Mailbox
pub mod Checkpoint
pub mod Quota
pub mod Findings
pub mod ReviewBatches
pub mod Approvals
pub mod Triage
pub mod EventBus
pub mod Truncation
pub mod Safety
pub mod AutoRouting
pub mod Compaction
pub mod Evolution
pub mod Examples
