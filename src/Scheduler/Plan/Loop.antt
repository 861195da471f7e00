-- ===== src/Scheduler/Plan/Loop.antt =====
-- The plan loop ends, whatever the agents answer, and leaves every task settled.
use mathlib.Core.List.Memᴰ
use local_coding_agent.Base.{
  ℕ, zero, suc, ◌<◌, String, ◌≡◌, refl, sym, subst, inl, inr, ⊎_elim, true, Option, none, some,
  List, [], ◌∷◌, Memᴰ, arith, length, string_eq, Bool-cases, map,
}
use local_coding_agent.Base.Dict.{Distinct, lookup, lookup-insert, insert-Distinct}
use local_coding_agent.Scheduler.Dag.{
  TaskStatus, AgentTask, TaskNode, Nodes, PlanError, new_node, add_task, add_tasks, is_pending,
  is_complete, get_ready_tasks, validate,
}
use local_coding_agent.Scheduler.Dag.Validate.{validate_sound}
use local_coding_agent.Scheduler.Plan.{
  Agents, Progress, ongoing, stopped, aborted, PlanResult, duplicate_ids, invalid, finished,
  agent_blocked, quota_exhausted, out_of_fuel, start_wave, mark_all_running, round, after_wave,
  plan_loop, checked, execute_plan, all_distinct,
}
use local_coding_agent.Scheduler.Plan.Wave.{Idle, Phase}
use local_coding_agent.Scheduler.Plan.Run.{
  Quiet, ids, ready_lookup, get_ready_tasks-Apart, mark_all_running-Phase, EndsQuiet,
  run_wave-Phase,
}
use local_coding_agent.Scheduler.Plan.Count.{
  pendings, pendings-le-length, pendings_pos, AtMost, start_wave-lt,
}
use local_coding_agent.Scheduler.Plan.Stalled.{fail_stalled_lem}

start-Phase :
    (nodes : Nodes)
    → Quiet nodes
    → Phase (ids (get_ready_tasks nodes)) (ids (get_ready_tasks nodes)) nodes
start-Phase nodes q = record {
  keyed = q.keyed;
  statuses = λ k n at. inl (q.idle k n at);
  live = λ k m. inl m;
  ready = ready_lookup nodes q;
  ordered = q.ordered;
}

pub end-Quiet : (nodes : Nodes) → Phase [] [] nodes → Quiet nodes
end-Quiet nodes h = record {
  keyed = h.keyed;
  idle = λ k n at. ⊎_elim (λ i. i) (λ (r, m). absurd (Memᴰ.not-nil m)) (h.statuses k n at);
  ordered = h.ordered;
}

-- How the loop may end: settled and in order, or by a refusal or an exhausted quota.
abbrev pub EndsSettled : PlanResult → Type 0
EndsSettled (finished nodes) = Quiet nodes × (is_complete nodes ≡ true)
EndsSettled (agent_blocked r nodes) = Unit
EndsSettled (quota_exhausted nodes) = Unit
EndsSettled (invalid errors) = Unit
EndsSettled duplicate_ids = Unit
EndsSettled out_of_fuel = ⊥

pending_test : (s : TaskStatus) → s ≡ TaskStatus.pending → is_pending s ≡ true
pending_test s h = ground arith

module _ (agents : Agents) where
  pub start_wave-EndsQuiet :
      (nodes : Nodes)
      → Quiet nodes
      → EndsQuiet agents (start_wave agents (get_ready_tasks nodes) nodes)
  start_wave-EndsQuiet nodes q =
      let tasks = get_ready_tasks nodes in
      let apart = get_ready_tasks-Apart nodes q.keyed in
      run_wave-Phase agents tasks (mark_all_running agents tasks nodes) apart (
        mark_all_running-Phase agents (ids tasks) tasks nodes (λ t m. m) apart
          (start-Phase nodes q))

  next_round :
      (f : ℕ) (p : Progress)
      → EndsQuiet agents p
      → AtMost agents f p
      → ((n : Nodes) → Quiet n → pendings n < suc f → EndsSettled (plan_loop agents (suc f) n))
      → EndsSettled (after_wave agents p (plan_loop agents (suc f)))
  next_round f (stopped r n) q a rest = tt
  next_round f (aborted n) q a rest = tt
  next_round f (ongoing n) q a rest = rest n (end-Quiet n q) (omega arith)

  round_lem :
      (f : ℕ) (nodes : Nodes) (ready : List AgentTask)
      → get_ready_tasks nodes ≡ ready
      → Quiet nodes
      → pendings nodes < suc f
      → ((n : Nodes) → Quiet n → pendings n < f → EndsSettled (plan_loop agents f n))
      → EndsSettled (round agents ready nodes (plan_loop agents f))
  round_lem f nodes [] e q h rest = fail_stalled_lem agents nodes q
  round_lem zero nodes (t ∷ tasks) e q h rest =
      let (n, at, p, met) =
        ready_lookup nodes q t.task_id
          (subst (λ l. Memᴰ t.task_id (ids l)) (sym e) (Memᴰ.head refl)) in
      absurd (omega (arith, pendings_pos t.task_id nodes n at (pending_test n.status p)))
  round_lem (suc f) nodes (t ∷ tasks) e q h rest =
      let (n, at, p, met) =
        ready_lookup nodes q t.task_id
          (subst (λ l. Memᴰ t.task_id (ids l)) (sym e) (Memᴰ.head refl)) in
      next_round f (start_wave agents (t ∷ tasks) nodes)
        (subst (λ l. EndsQuiet agents (start_wave agents l nodes)) e (start_wave-EndsQuiet nodes q))
        (start_wave-lt agents t tasks nodes n f at (pending_test n.status p) (omega arith)) rest

  pub plan_loop_lem :
      (f : ℕ) (nodes : Nodes)
      → Quiet nodes
      → pendings nodes < f
      → EndsSettled (plan_loop agents f nodes)
  unfolding plan_loop
  plan_loop_lem zero nodes q h = absurd (omega arith)
  plan_loop_lem (suc f) nodes q h = elim (Bool-cases (is_complete nodes)) [
    | inl done ↦ rw (done) (q, done)
    | inr open_tasks ↦
        rw (open_tasks) (round_lem f nodes (get_ready_tasks nodes) refl q h (plan_loop_lem f))
  ]

-- A plan before its first wave: each node stands under its task's id, and is pending.
pub record New (nodes : Nodes) : Type 0 where
  pub distinct : Distinct nodes
  pub keyed : (k : String) (n : TaskNode) → lookup k nodes ≡ some n → n.task.task_id ≡ k
  pub waits : (k : String) (n : TaskNode) → lookup k nodes ≡ some n → n.status ≡ TaskStatus.pending

New-add_task : (task : AgentTask) (nodes : Nodes) → New nodes → New (add_task task nodes)
unfolding add_task
New-add_task task nodes h = record {
  distinct = insert-Distinct task.task_id (new_node task) nodes h.distinct;
  keyed = λ k n at. ground (
    arith,
    h.keyed k n,
    lookup-insert task.task_id k (new_node task) nodes,
    string_eq.beq_iff task.task_id k,
  );
  waits = λ k n at. ground (arith, h.waits k n, lookup-insert task.task_id k (new_node task) nodes);
}

pub New-add_tasks :
    (tasks : List AgentTask) (nodes : Nodes) → New nodes → New (add_tasks tasks nodes)
unfolding add_tasks
New-add_tasks [] nodes h = h
New-add_tasks (task ∷ tasks) nodes h =
    New-add_tasks tasks (add_task task nodes) (New-add_task task nodes h)

New-empty : New []
unfolding lookup
New-empty = record {
  distinct = tt;
  keyed = λ k n at. absurd (ground arith);
  waits = λ k n at. absurd (ground arith);
}

pub New-Quiet : (nodes : Nodes) → New nodes → Quiet nodes
New-Quiet nodes h = record {
  keyed = record { distinct = h.distinct; keyed = h.keyed };
  idle = λ k n at. subst Idle (sym (h.waits k n at)) tt;
  ordered =
      λ k n at s. absurd (⊎_elim (λ c. cc (h.waits k n at, c)) (λ r. cc (h.waits k n at, r)) s);
}

pub plan_nodes : (tasks : List AgentTask) → New (add_tasks tasks [])
plan_nodes tasks = New-add_tasks tasks [] New-empty

checked_lem :
    (agents : Agents) (nodes : Nodes) (errors : Option (List PlanError))
    → New nodes
    → validate nodes ≡ errors
    → EndsSettled (checked agents errors nodes)
checked_lem agents nodes none new e =
    let (errors, returns, cycles, gone) = validate_sound nodes in absurd (ground arith)
checked_lem agents nodes (some []) new e =
    plan_loop_lem agents (suc (length nodes)) nodes (New-Quiet nodes new)
      (omega (arith, pendings-le-length nodes))
checked_lem agents nodes (some (x ∷ errors)) new e = tt

pub execute_plan_lem :
    (agents : Agents) (tasks : List AgentTask) → EndsSettled (execute_plan agents tasks)
unfolding execute_plan
execute_plan_lem agents tasks = elim (Bool-cases (all_distinct (map (λ t. t.task_id) tasks))) [
  | inl distinct ↦ rw (distinct) (
      checked_lem agents (add_tasks tasks []) (validate (add_tasks tasks [])) (plan_nodes tasks)
        refl)
  | inr doubled ↦ rw (doubled) tt
]
