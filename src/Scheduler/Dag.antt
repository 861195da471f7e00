-- ===== src/Scheduler/Dag.antt =====
-- src/local_coder/scheduler/dag.py: `TaskDAG`. A task is recorded with the fields that the
-- scheduler reads; `_nodes` is the dictionary, and `time.time()` is an argument of each mark.
pub mod Relation
pub mod Visit
pub mod Validate
use local_coding_agent.Base.{
  ℕ, zero, suc, String, Bool, true, false, ◌&&◌, ◌||◌, Option, none, some, List, [], ◌∷◌, ◌++◌,
  if◌then◌else◌, ◌==◌, string_eq, contains, erase, all, any, length,
}
use local_coding_agent.Base.Dict.{Dict, lookup, insert, modify, keys, values}

pub data TaskStatus : Type 0 where
  pending queued running completed failed blocked cancelled : TaskStatus

pub record AgentTask : Type 0 where
  pub task_id : String
  pub role : String
  pub objective : String
  pub depends_on : List String
  pub model_name : Option String

pub record AgentResponse : Type 0 where
  pub task_id : String
  pub status : TaskStatus
  pub summary : String
  pub tests_passed : Bool

pub record TaskNode : Type 0 where
  pub task : AgentTask
  pub status : TaskStatus
  pub result : Option AgentResponse
  pub retries : ℕ
  pub started_at : Option ℕ
  pub completed_at : Option ℕ

abbrev pub Nodes : Type 0
Nodes = Dict String TaskNode

-- Python's `==` of two members of the enumeration, at the members that the scheduler names.
abbrev pub is_pending : TaskStatus → Bool
is_pending TaskStatus.pending = true
is_pending _ = false

abbrev pub is_completed : TaskStatus → Bool
is_completed TaskStatus.completed = true
is_completed _ = false

abbrev pub is_failed : TaskStatus → Bool
is_failed TaskStatus.failed = true
is_failed _ = false

abbrev pub new_node : AgentTask → TaskNode
new_node task = record {
  task = task;
  status = TaskStatus.pending;
  result = none;
  retries = 0;
  started_at = none;
  completed_at = none;
}

unfoldable pub add_task : AgentTask → Nodes → Nodes
add_task task nodes = insert task.task_id (new_node task) nodes

unfoldable pub add_tasks : List AgentTask → Nodes → Nodes
add_tasks [] nodes = nodes
add_tasks (task ∷ tasks) nodes = add_tasks tasks (add_task task nodes)

-- `dep in self._nodes and self._nodes[dep].status == COMPLETED`
abbrev pub met_by : Option TaskNode → Bool
met_by none = false
met_by (some n) = is_completed n.status

abbrev pub dep_met : Nodes → String → Bool
dep_met nodes dep = met_by (lookup dep nodes)

abbrev pub node_ready : Nodes → TaskNode → Bool
node_ready nodes node = is_pending node.status && all (dep_met nodes) node.task.depends_on

-- The loop of `get_ready_tasks` over the values, `nodes` the whole dictionary.
unfoldable pub ready_from : Nodes → Nodes → List AgentTask
ready_from nodes [] = []
ready_from nodes ((k, node) ∷ rest) =
    if node_ready nodes node then node.task ∷ ready_from nodes rest else ready_from nodes rest

unfoldable pub get_ready_tasks : Nodes → List AgentTask
get_ready_tasks nodes = ready_from nodes nodes

abbrev pub set_running : ℕ → TaskNode → TaskNode
set_running now n = record n { status = TaskStatus.running; started_at = some now }

abbrev pub set_completed : ℕ → AgentResponse → TaskNode → TaskNode
set_completed now r n = record n {
  status = TaskStatus.completed;
  completed_at = some now;
  result = some r;
}

abbrev pub set_failed : ℕ → AgentResponse → TaskNode → TaskNode
set_failed now r n = record n {
  status = TaskStatus.failed;
  completed_at = some now;
  result = some r;
}

-- Each mark leaves a dictionary without the key as it is, which `modify` does.
unfoldable pub mark_running : ℕ → String → Nodes → Nodes
mark_running now task_id = modify task_id (set_running now)

unfoldable pub mark_completed : ℕ → String → AgentResponse → Nodes → Nodes
mark_completed now task_id result = modify task_id (set_completed now result)

unfoldable pub mark_failed : ℕ → String → AgentResponse → Nodes → Nodes
mark_failed now task_id result = modify task_id (set_failed now result)

abbrev pub is_settled : TaskStatus → Bool
is_settled s = is_completed s || is_failed s

unfoldable pub is_complete : Nodes → Bool
is_complete nodes = all (λ n. is_settled n.status) (values nodes)

unfoldable pub has_failures : Nodes → Bool
has_failures nodes = any (λ n. is_failed n.status) (values nodes)

unfoldable pub get_pending_task_ids : Nodes → List String
get_pending_task_ids [] = []
get_pending_task_ids ((tid, node) ∷ rest) =
    if is_pending node.status then tid ∷ get_pending_task_ids rest else get_pending_task_ids rest

unfoldable pub get_all_results : Nodes → List AgentResponse
get_all_results [] = []
get_all_results ((tid, node) ∷ rest) = elim node.result [
  | none ↦ get_all_results rest
  | some r ↦ r ∷ get_all_results rest
]

-- The messages of `validate`, as values.
pub data PlanError : Type 0 where
  missing : String → String → PlanError
  cycle : String → PlanError

unfoldable pub missing_deps : Nodes → TaskNode → List String → List PlanError
missing_deps nodes node [] = []
missing_deps nodes node (dep ∷ deps) = elim (lookup dep nodes) [
  | none ↦ missing node.task.task_id dep ∷ missing_deps nodes node deps
  | some _ ↦ missing_deps nodes node deps
]

unfoldable pub missing_errors : Nodes → Nodes → List PlanError
missing_errors nodes [] = []
missing_errors nodes ((k, node) ∷ rest) =
    missing_deps nodes node node.task.depends_on ++ missing_errors nodes rest

-- The variables that `visit` closes over. `path` is a set in the source; here its most recent
-- member stands first.
pub record Search : Type 0 where
  pub visited : List String
  pub path : List String
  pub errors : List PlanError

abbrev pub deps_at : Option TaskNode → List String
deps_at none = []
deps_at (some n) = n.task.depends_on

abbrev pub deps_of : Nodes → String → List String
deps_of nodes t = deps_at (lookup t nodes)

-- `for dep in …: visit(dep)`
unfoldable pub visit_all : (String → Search → Option Search) → List String → Search → Option Search
visit_all visit [] s = some s
visit_all visit (dep ∷ deps) s = elim (visit dep s) [
  | none ↦ none
  | some s' ↦ visit_all visit deps s'
]

abbrev pub enter : String → Search → Search
enter t s = record s { visited = t ∷ s.visited; path = t ∷ s.path }

abbrev pub leave : String → Search → Search
leave t s = record s { path = erase t s.path }

abbrev pub report : String → Search → Search
report t s = record s { errors = s.errors ++ cycle t ∷ [] }

-- The recursive `visit`, on fuel for the depth of the recursion; `none` is fuel run out.
unfoldable pub visit : ℕ → Nodes → String → Search → Option Search
visit zero nodes t s = none
visit (suc f) nodes t s =
    let below : Option Search = elim (visit_all (visit f nodes) (deps_of nodes t) (enter t s)) [
      | none ↦ none
      | some s' ↦ some (leave t s')
    ] in
    if contains t s.path then some (report t s) else if contains t s.visited then some s else below

-- A key's visit goes down through distinct keys, so this depth is never exceeded.
abbrev pub depth : Nodes → ℕ
depth nodes = suc (length nodes)

abbrev pub start : Nodes → Search
start nodes = record { visited = []; path = []; errors = missing_errors nodes nodes }

unfoldable pub search_all : Nodes → Option Search
search_all nodes = visit_all (visit (depth nodes) nodes) (keys nodes) (start nodes)

unfoldable pub validate : Nodes → Option (List PlanError)
validate nodes = elim (search_all nodes) [ none ↦ none | some s ↦ some s.errors ]
