-- ===== src/Scheduler/Plan/Run.antt =====
-- A whole wave, from the ready tasks to their outcomes.
use mathlib.Core.List.Memᴰ
use local_coding_agent.Base.{
  String, ◌≡◌, refl, sym, subst, ◌⊎◌, inl, inr, ⊎_elim, true, false, all, some, List, [], ◌∷◌, map,
  Memᴰ, arith, string_eq, Bool-cases, ◌&&◌, not, ◌∙◌,
}
use local_coding_agent.Base.Dict.{lookup, modify, Distinct, lookup_of_Memᴰ}
use local_coding_agent.Scheduler.Dag.{
  TaskStatus, AgentTask, AgentResponse, TaskNode, Nodes, dep_met, node_ready, is_pending,
  ready_from, get_ready_tasks, mark_running, mark_completed, mark_failed, set_completed, set_failed,
}
use local_coding_agent.Scheduler.Plan.{
  Agents, Attempt, returned, refused, exhausted, Progress, ongoing, stopped, aborted, run_dag_task,
  run_wave, mark_all_running, first_attempt, second_attempt, record_outcome, and_then, is_blocked,
  failed,
}
use local_coding_agent.Scheduler.Plan.Wave.{
  Idle, Met, IsKeyed, KeepsTask, Ordered, Phase, Apart, Phase-mark_running, Phase-settle,
}

-- Between waves no task runs.
pub record Quiet (nodes : Nodes) : Type 0 where
  pub keyed : IsKeyed nodes
  pub idle : (k : String) (n : TaskNode) → lookup k nodes ≡ some n → Idle n.status
  pub ordered : Ordered nodes

abbrev pub ids : List AgentTask → List String
ids = map (λ t. t.task_id)

all_met :
    (nodes : Nodes) (deps : List String)
    → all (dep_met nodes) deps ≡ true
    → (d : String) → Memᴰ d deps
    → dep_met nodes d ≡ true
all_met nodes [] h d m = absurd (Memᴰ.not-nil m)
all_met nodes (x ∷ deps) h d m =
    ⊎_elim (λ e. subst (λ y. dep_met nodes y ≡ true) (sym e) (ground arith))
      (all_met nodes deps (ground arith) d) (Memᴰ.cases_cons m)

pending_of : (s : TaskStatus) → is_pending s ≡ true → s ≡ TaskStatus.pending
pending_of TaskStatus.pending h = refl
pending_of s h = absurd (ground arith)

-- A ready task stands in the dictionary, is pending, and its dependencies are completed.
ready_from_lem :
    (nodes d : Nodes) (t : String)
    → Memᴰ t (ids (ready_from nodes d))
    → (k : String) × (n : TaskNode) × Memᴰ (k, n) d
      × (n.task.task_id ≡ t)
      × (n.status ≡ TaskStatus.pending)
      × Met nodes n
unfolding ready_from
ready_from_lem nodes [] t m = absurd (Memᴰ.not-nil m)
ready_from_lem nodes ((k, n) ∷ d) t m = elim (Bool-cases (node_ready nodes n)) [
  | inl yes_ready ↦
      ⊎_elim
        (λ e. (
          k,
          n,
          Memᴰ.head refl,
          sym e,
          pending_of n.status (ground arith),
          all_met nodes n.task.depends_on (ground arith),
        ))
        (λ m'. below (ready_from_lem nodes d t m'))
        (Memᴰ.cases_cons (rw (yes_ready, ready_from) at m))
  | inr not_ready ↦ below (ready_from_lem nodes d t (rw (not_ready, ready_from) at m))
]
  where
    below :
        ((j : String) × (x : TaskNode) × Memᴰ (j, x) d
          × (x.task.task_id ≡ t)
          × (x.status ≡ TaskStatus.pending)
          × Met nodes x)
        → (j : String) × (x : TaskNode) × Memᴰ (j, x) ((k, n) ∷ d)
          × (x.task.task_id ≡ t)
          × (x.status ≡ TaskStatus.pending)
          × Met nodes x
    below (j, x, mem, e, p, met) = (j, x, Memᴰ.tail mem, e, p, met)

module _ (nodes : Nodes) (q : Quiet nodes) where
  pub ready_lookup :
      (t : String)
      → Memᴰ t (ids (get_ready_tasks nodes))
      → (n : TaskNode) × (lookup t nodes ≡ some n) × (n.status ≡ TaskStatus.pending) × Met nodes n
  unfolding get_ready_tasks
  ready_lookup t m =
      let (k, n, mem, e, p, met) = ready_from_lem nodes nodes t m in
      let at = lookup_of_Memᴰ k n nodes q.keyed.distinct mem in
      (n, subst (λ x. lookup x nodes ≡ some n) (sym (q.keyed.keyed k n at) ∙ e) at, p, met)

-- The ready tasks are distinct.
ready_keys :
    (nodes d : Nodes) (t : String)
    → ((k : String) (n : TaskNode) → Memᴰ (k, n) d → n.task.task_id ≡ k)
    → Memᴰ t (ids (ready_from nodes d))
    → (n : TaskNode) × Memᴰ (t, n) d
ready_keys nodes d t key m =
    let (k, n, mem, e, p, met) = ready_from_lem nodes d t m in
    (n, subst (λ x. Memᴰ (x, n) d) (sym (key k n mem) ∙ e) mem)

ready_from-Apart :
    (nodes d : Nodes)
    → Distinct d
    → ((k : String) (n : TaskNode) → Memᴰ (k, n) d → n.task.task_id ≡ k)
    → Apart (ids (ready_from nodes d))
unfolding ready_from
ready_from-Apart nodes [] dist key = tt
ready_from-Apart nodes ((k, n) ∷ d) dist key = elim (Bool-cases (node_ready nodes n)) [
  | inl yes_ready ↦ rw (yes_ready) (
    λ m.
        let (x, mem) = ready_keys nodes d n.task.task_id (λ j y h. key j y (Memᴰ.tail h)) m in
        let at = lookup_of_Memᴰ n.task.task_id x d dist.1 mem in
        let here : n.task.task_id ≡ k = key k n (Memᴰ.head refl) in ground (arith, dist.0),
    ready_from-Apart nodes d dist.1 (λ j y h. key j y (Memᴰ.tail h)),
  )
  | inr not_ready ↦
      rw (not_ready) (ready_from-Apart nodes d dist.1 (λ j y h. key j y (Memᴰ.tail h)))
]

pub get_ready_tasks-Apart : (nodes : Nodes) → IsKeyed nodes → Apart (ids (get_ready_tasks nodes))
unfolding get_ready_tasks
get_ready_tasks-Apart nodes h =
    ready_from-Apart nodes nodes h.distinct
      (λ k n m. h.keyed k n (lookup_of_Memᴰ k n nodes h.distinct m))

module _ (agents : Agents) where
  pub mark_all_running-Phase :
      (wave : List String) (tasks : List AgentTask) (nodes : Nodes)
      → ((t : String) → Memᴰ t (ids tasks) → Memᴰ t wave)
      → Apart (ids tasks)
      → Phase wave (ids tasks) nodes
      → Phase wave [] (mark_all_running agents tasks nodes)
  unfolding mark_all_running
  mark_all_running-Phase wave [] nodes within apart h = h
  mark_all_running-Phase wave (t ∷ tasks) nodes within apart h =
      mark_all_running-Phase wave tasks (mark_running (agents.now nodes) t.task_id nodes)
        (λ u m. within u (Memᴰ.tail m)) apart.1
        (Phase-mark_running (agents.now nodes) t.task_id (within t.task_id (Memᴰ.head refl)) apart.0
          h)

  -- What an outcome that lets the plan go on has changed: the task is completed or failed.
  pub record Settles (task : AgentTask) (nodes nodes' : Nodes) : Type 0 where
    pub change : TaskNode → TaskNode
    pub keeps : KeepsTask change
    pub settles :
        (n : TaskNode)
        → ((change n).status ≡ TaskStatus.completed) ⊎ ((change n).status ≡ TaskStatus.failed)
    pub result : nodes' ≡ modify task.task_id change nodes

  as_completed :
      (task : AgentTask) (r : AgentResponse) (nodes : Nodes)
      → Settles task nodes (mark_completed (agents.now nodes) task.task_id r nodes)
  unfolding mark_completed
  as_completed task r nodes = record {
    change = set_completed (agents.now nodes) r;
    keeps = λ n. refl;
    settles = λ n. inl refl;
    result = refl;
  }

  as_failed :
      (task : AgentTask) (r : AgentResponse) (nodes : Nodes)
      → Settles task nodes (mark_failed (agents.now nodes) task.task_id r nodes)
  unfolding mark_failed
  as_failed task r nodes = record {
    change = set_failed (agents.now nodes) r;
    keeps = λ n. refl;
    settles = λ n. inr refl;
    result = refl;
  }

  abbrev pub GoesOn : AgentTask → Nodes → Progress → Type 0
  GoesOn task nodes (ongoing nodes') = Settles task nodes nodes'
  GoesOn task nodes (stopped r nodes') = Unit
  GoesOn task nodes (aborted nodes') = Unit

  record_outcome_lem :
      (task : AgentTask) (r : AgentResponse) (nodes : Nodes)
      → GoesOn task nodes (record_outcome agents task r nodes)
  record_outcome_lem task r nodes = elim (Bool-cases (is_blocked r.status)) [
    | inl b ↦ rw (b) tt
    | inr b ↦ elim (Bool-cases (failed r)) [
      | inl x ↦ rw (b, x) (as_failed task r nodes)
      | inr x ↦ rw (b, x) (as_completed task r nodes)
    ]
  ]

  second_attempt_lem :
      (task : AgentTask) (nodes : Nodes) (a : Attempt)
      → GoesOn task nodes (second_attempt agents task nodes a)
  second_attempt_lem task nodes (returned r) = record_outcome_lem task r nodes
  second_attempt_lem task nodes (refused r) = tt
  second_attempt_lem task nodes exhausted = tt

  first_attempt_lem :
      (task : AgentTask) (nodes : Nodes) (a : Attempt)
      → GoesOn task nodes (first_attempt agents task nodes a)
  first_attempt_lem task nodes (refused r) = tt
  first_attempt_lem task nodes exhausted = tt
  first_attempt_lem task nodes (returned r) =
      elim (Bool-cases (not (is_blocked r.status) && failed r && agents.can_escalate task)) [
        | inl b ↦ rw (b) (second_attempt_lem task nodes (agents.attempt nodes task true))
        | inr b ↦ rw (b) (record_outcome_lem task r nodes)
      ]

  pub run_dag_task_lem :
      (task : AgentTask) (nodes : Nodes) → GoesOn task nodes (run_dag_task agents task nodes)
  unfolding run_dag_task
  run_dag_task_lem task nodes = first_attempt_lem task nodes (agents.attempt nodes task false)

  -- Whatever the agents answer, a wave that ends without a refusal leaves no task running.
  abbrev pub EndsQuiet : Progress → Type 0
  EndsQuiet (ongoing nodes) = Phase [] [] nodes
  EndsQuiet (stopped r nodes) = Unit
  EndsQuiet (aborted nodes) = Unit

  pub run_wave-Phase :
      (tasks : List AgentTask) (nodes : Nodes)
      → Apart (ids tasks)
      → Phase (ids tasks) [] nodes
      → EndsQuiet (run_wave agents tasks nodes)
  unfolding run_wave
  run_wave-Phase [] nodes apart h = h
  run_wave-Phase (t ∷ tasks) nodes apart h =
      next (run_wave-Phase tasks) (run_dag_task agents t nodes) (run_dag_task_lem t nodes)
    where
      next :
          ((n : Nodes)
            → Apart (ids tasks)
            → Phase (ids tasks) [] n
            → EndsQuiet (run_wave agents tasks n))
          → (p : Progress) → GoesOn t nodes p
          → EndsQuiet (and_then agents p (run_wave agents tasks))
      next rest (stopped r n) g = tt
      next rest (aborted n) g = tt
      next rest (ongoing n) g = rest n apart.1 (
          subst (Phase (ids tasks) []) (sym g.result)
            (Phase-settle t.task_id g.change g.keeps g.settles apart.0 h))
