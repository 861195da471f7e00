-- ===== src/Scheduler/Plan.antt =====
-- src/local_coder/orchestrator/coordinator.py: the plan loop, `_execute_plan_tasks`, and the run of
-- one task. An agent's run is the parameter `attempt`: what it answers may depend on all that
-- happened before. A wave's tasks run one after another here, in the order of the wave.
pub mod Wave
pub mod Loop
pub mod Success
pub mod Stalled
pub mod Count
pub mod Run
use local_coding_agent.Base.{
  ℕ, zero, suc, String, Bool, true, false, ◌&&◌, ◌||◌, not, Option, none, some, List, [], ◌∷◌, ◌++◌,
  if◌then◌else◌, contains, string_eq, length, map,
}
use local_coding_agent.Scheduler.Dag.{
  TaskStatus, AgentTask, AgentResponse, Nodes, PlanError, add_tasks, get_ready_tasks, mark_running,
  mark_completed, mark_failed, is_complete, get_pending_task_ids, validate,
}

-- An agent run returns a response, or raises `AgentBlocked`, which carries the blocked response, or
-- `ProviderQuotaExhausted`. Every other exception is a failed response.
pub data Attempt : Type 0 where
  returned : AgentResponse → Attempt
  refused : AgentResponse → Attempt
  exhausted : Attempt

-- How a part of the plan ends: it goes on with the nodes, or `AgentBlocked` or
-- `ProviderQuotaExhausted` leaves the plan.
pub data Progress : Type 0 where
  ongoing : Nodes → Progress
  stopped : AgentResponse → Nodes → Progress
  aborted : Nodes → Progress

pub data PlanResult : Type 0 where
  duplicate_ids : PlanResult
  invalid : List PlanError → PlanResult
  finished : Nodes → PlanResult
  agent_blocked : AgentResponse → Nodes → PlanResult
  quota_exhausted : Nodes → PlanResult
  out_of_fuel : PlanResult

abbrev pub is_blocked : TaskStatus → Bool
is_blocked TaskStatus.blocked = true
is_blocked _ = false

abbrev pub is_failure : TaskStatus → Bool
is_failure TaskStatus.failed = true
is_failure TaskStatus.blocked = true
is_failure _ = false

-- `_failed`
abbrev pub failed : AgentResponse → Bool
failed response = is_failure response.status || not response.tests_passed

-- What the plan loop takes from outside: agents, the routing of retries, and the clock.
pub record Agents : Type 0 where
  pub attempt : Nodes → AgentTask → Bool → Attempt
  pub can_escalate : AgentTask → Bool
  pub now : Nodes → ℕ

-- `len(identities) == len(set(identities))`
abbrev pub all_distinct : List String → Bool
all_distinct [] = true
all_distinct (x ∷ xs) = not (contains x xs) && all_distinct xs

module _ (agents : Agents) where
  open agents use {attempt, can_escalate, now}

  -- The end of `_run_dag_task`, with the last response.
  abbrev pub record_outcome : AgentTask → AgentResponse → Nodes → Progress
  record_outcome task response nodes =
      let as_failed = mark_failed (now nodes) task.task_id response nodes in
      if is_blocked response.status
      then stopped response as_failed
      else if failed response
      then ongoing as_failed
      else ongoing (mark_completed (now nodes) task.task_id response nodes)

  abbrev pub refuse : AgentTask → AgentResponse → Nodes → Progress
  refuse task response nodes =
      stopped response (mark_failed (now nodes) task.task_id response nodes)

  abbrev pub second_attempt : AgentTask → Nodes → Attempt → Progress
  second_attempt task nodes (returned response) = record_outcome task response nodes
  second_attempt task nodes (refused response) = refuse task response nodes
  second_attempt task nodes exhausted = aborted nodes

  abbrev pub first_attempt : AgentTask → Nodes → Attempt → Progress
  first_attempt task nodes (returned response) =
      if not (is_blocked response.status) && failed response && can_escalate task
      then second_attempt task nodes (attempt nodes task true)
      else record_outcome task response nodes
  first_attempt task nodes (refused response) = refuse task response nodes
  first_attempt task nodes exhausted = aborted nodes

  unfoldable pub run_dag_task : AgentTask → Nodes → Progress
  run_dag_task task nodes = first_attempt task nodes (attempt nodes task false)

  abbrev pub and_then : Progress → (Nodes → Progress) → Progress
  and_then (ongoing nodes) k = k nodes
  and_then (stopped r nodes) k = stopped r nodes
  and_then (aborted nodes) k = aborted nodes

  unfoldable pub run_wave : List AgentTask → Nodes → Progress
  run_wave [] nodes = ongoing nodes
  run_wave (task ∷ tasks) nodes = and_then (run_dag_task task nodes) (run_wave tasks)

  unfoldable pub mark_all_running : List AgentTask → Nodes → Nodes
  mark_all_running [] nodes = nodes
  mark_all_running (task ∷ tasks) nodes =
      mark_all_running tasks (mark_running (now nodes) task.task_id nodes)

  abbrev pub stalled_response : String → AgentResponse
  stalled_response task_id = record {
    task_id = task_id;
    status = TaskStatus.failed;
    summary = "Dependency never completed successfully.";
    tests_passed = false;
  }

  unfoldable pub fail_stalled : List String → Nodes → Nodes
  fail_stalled [] nodes = nodes
  fail_stalled (task_id ∷ ids) nodes =
      fail_stalled ids (mark_failed (now nodes) task_id (stalled_response task_id) nodes)

  abbrev pub start_wave : List AgentTask → Nodes → Progress
  start_wave ready nodes = run_wave ready (mark_all_running ready nodes)

  abbrev pub after_wave : Progress → (Nodes → PlanResult) → PlanResult
  after_wave (ongoing nodes) k = k nodes
  after_wave (stopped r nodes) k = agent_blocked r nodes
  after_wave (aborted nodes) k = quota_exhausted nodes

  abbrev pub round : List AgentTask → Nodes → (Nodes → PlanResult) → PlanResult
  round [] nodes again = finished (fail_stalled (get_pending_task_ids nodes) nodes)
  round (task ∷ tasks) nodes again = after_wave (start_wave (task ∷ tasks) nodes) again

  -- `while not dag.is_complete()`, on fuel for its rounds.
  unfoldable pub plan_loop : ℕ → Nodes → PlanResult
  plan_loop zero nodes = out_of_fuel
  plan_loop (suc f) nodes =
      let more = round (get_ready_tasks nodes) nodes (plan_loop f) in
      if is_complete nodes then finished nodes else more

  abbrev pub checked : Option (List PlanError) → Nodes → PlanResult
  checked none nodes = out_of_fuel
  checked (some []) nodes = plan_loop (suc (length nodes)) nodes
  checked (some (e ∷ errors)) nodes = invalid (e ∷ errors)

  -- `_execute_plan_tasks` with no checkpoint, behind the test of `_execute_plan`.
  unfoldable pub execute_plan : List AgentTask → PlanResult
  execute_plan tasks =
      let nodes = add_tasks tasks [] in
      if all_distinct (map (λ t. t.task_id) tasks)
      then checked (validate nodes) nodes
      else duplicate_ids
