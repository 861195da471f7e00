-- ===== src/Examples/Plans.antt =====
-- A plan of two tasks, a plan with a cycle, and their execution.
use local_coding_agent.Base.{
  String, true, false, ◌≡◌, ◌↔◌, refl, none, some, List, [], ◌∷◌, Memᴰ, string_eq,
}
use local_coding_agent.Base.Dict.{insert, lookup}
use local_coding_agent.Scheduler.Dag.{
  AgentTask, TaskStatus, Nodes, PlanError, add_tasks, add_task, validate, search_all, visit_all,
  visit, missing_errors, missing_deps, missing, cycle,
}
use local_coding_agent.Scheduler.Dag.Validate.{Schedulable, Missing, validate_sound, validate_iff}
use local_coding_agent.Scheduler.Dag.Relation.{Chain}
use local_coding_agent.Scheduler.Plan.{Agents, returned, execute_plan}
use local_coding_agent.Scheduler.Plan.Loop.{EndsSettled, execute_plan_lem}
use local_coding_agent.Scheduler.Plan.Success.{Completes, AllSucceed, execute_plan_success}

abbrev task : String → List String → AgentTask
task id deps = record {
  task_id = id;
  role = "coder";
  objective = "";
  depends_on = deps;
  model_name = none;
}

abbrev two_tasks : List AgentTask
two_tasks = task "build" [] ∷ task "test" ("build" ∷ []) ∷ []

abbrev two_nodes : Nodes
unfolding add_tasks add_task insert
two_nodes = add_tasks two_tasks []

abbrev good_agents : Agents
good_agents = record {
  attempt = λ nodes t escalate. returned (record {
    task_id = t.task_id;
    status = TaskStatus.completed;
    summary = "";
    tests_passed = true;
  });
  can_escalate = λ t. false;
  now = λ nodes. 0;
}

abbrev bad_agents : Agents
bad_agents = record {
  attempt = λ nodes t escalate. returned (record {
    task_id = t.task_id;
    status = TaskStatus.failed;
    summary = "";
    tests_passed = false;
  });
  can_escalate = λ t. true;
  now = λ nodes. 0;
}

two_tasks-validate : validate (add_tasks two_tasks []) ≡ some []
unfolding validate search_all visit_all visit missing_errors missing_deps add_tasks add_task insert
    lookup
two_tasks-validate = refl

execute_plan_example : EndsSettled (execute_plan bad_agents two_tasks)
execute_plan_example = execute_plan_lem bad_agents two_tasks

validate_iff_example :
    (validate (add_tasks two_tasks []) ≡ some []) ↔ Schedulable (add_tasks two_tasks [])
validate_iff_example = validate_iff (add_tasks two_tasks [])

good_agents-AllSucceed : AllSucceed good_agents
good_agents-AllSucceed nodes t escalate = (
  record { task_id = t.task_id; status = TaskStatus.completed; summary = ""; tests_passed = true },
  refl,
  refl,
)

abbrev looped_tasks : List AgentTask
looped_tasks = task "a" ("b" ∷ []) ∷ task "b" ("a" ∷ "c" ∷ []) ∷ []

validate_sound_example :
    (errors : List PlanError) × (validate (add_tasks looped_tasks []) ≡ some errors)
    × ((c : String) → Memᴰ (cycle c) errors → Chain (add_tasks looped_tasks []) c c)
    × ((t d : String) → Memᴰ (missing t d) errors → Missing (add_tasks looped_tasks []) t d)
validate_sound_example = validate_sound (add_tasks looped_tasks [])

-- The search reports the missing task and the cycle.
looped_tasks-validate :
    validate (add_tasks looped_tasks []) ≡ some (missing "b" "c" ∷ cycle "a" ∷ [])
unfolding validate search_all visit_all visit missing_errors missing_deps add_tasks add_task insert
    lookup
looped_tasks-validate = refl

execute_plan_success_example : Completes (execute_plan good_agents two_tasks)
execute_plan_success_example =
    execute_plan_success good_agents two_tasks good_agents-AllSucceed refl
      ((validate_iff (add_tasks two_tasks [])).0 two_tasks-validate)
