-- ===== src/Scheduler/Plan/Count.antt =====
-- The number of pending tasks falls with every round of the plan loop.
use local_coding_agent.Base.{
  ℕ, suc, ◌≤◌, ◌<◌, String, ◌≡◌, refl, sym, subst, true, false, some, List, [], ◌∷◌, arith, length,
  string_eq,
}
use local_coding_agent.Base.Dict.{lookup, modify}
use local_coding_agent.Scheduler.Dag.{
  AgentTask, TaskNode, Nodes, is_pending, mark_running, set_running, get_pending_task_ids,
}
use local_coding_agent.Scheduler.Plan.{
  Agents, Progress, ongoing, stopped, aborted, run_dag_task, run_wave, mark_all_running, start_wave,
  and_then,
}
use local_coding_agent.Scheduler.Plan.Run.{Settles, GoesOn, run_dag_task_lem}

abbrev pub pendings : Nodes → ℕ
pendings nodes = length (get_pending_task_ids nodes)

abbrev LeavesPending : (TaskNode → TaskNode) → Type 0
LeavesPending f = (n : TaskNode) → is_pending (f n).status ≡ false

pendings-modify-le :
    (t : String) (f : TaskNode → TaskNode) (d : Nodes)
    → LeavesPending f
    → pendings (modify t f d) ≤ pendings d
unfolding get_pending_task_ids modify
pendings-modify-le t f [] h = omega arith
pendings-modify-le t f ((k, n) ∷ d) h = ground (arith, h n, pendings-modify-le t f d h)

pendings-modify-lt :
    (t : String) (f : TaskNode → TaskNode) (d : Nodes) (n : TaskNode)
    → LeavesPending f
    → lookup t d ≡ some n
    → is_pending n.status ≡ true
    → pendings (modify t f d) < pendings d
unfolding get_pending_task_ids modify lookup
pendings-modify-lt t f [] n h at p = absurd (ground arith)
pendings-modify-lt t f ((k, x) ∷ d) n h at p = ground (arith, h x, pendings-modify-lt t f d n h)

pub pendings-le-length : (d : Nodes) → pendings d ≤ length d
unfolding get_pending_task_ids
pendings-le-length [] = omega arith
pendings-le-length ((k, n) ∷ d) = ground (arith, pendings-le-length d)

pub pendings_pos :
    (t : String) (d : Nodes) (n : TaskNode)
    → lookup t d ≡ some n
    → is_pending n.status ≡ true
    → 0 < pendings d
unfolding get_pending_task_ids lookup
pendings_pos t [] n at p = absurd (ground arith)
pendings_pos t ((k, x) ∷ d) n at p = ground (arith, pendings_pos t d n)

module _ (agents : Agents) where
  mark_all_running-le :
      (tasks : List AgentTask) (nodes : Nodes)
      → pendings (mark_all_running agents tasks nodes) ≤ pendings nodes
  unfolding mark_all_running mark_running
  mark_all_running-le [] nodes = omega arith
  mark_all_running-le (t ∷ tasks) nodes = omega (
    arith,
    pendings-modify-le t.task_id (set_running (agents.now nodes)) nodes (λ n. refl),
    mark_all_running-le tasks (mark_running (agents.now nodes) t.task_id nodes),
  )

  abbrev pub AtMost : ℕ → Progress → Type 0
  AtMost n (ongoing nodes) = pendings nodes ≤ n
  AtMost n (stopped r nodes) = Unit
  AtMost n (aborted nodes) = Unit

  settled-le :
      (t : AgentTask) (nodes nodes' : Nodes)
      → Settles agents t nodes nodes'
      → pendings nodes' ≤ pendings nodes
  settled-le t nodes nodes' h =
      subst (λ x. pendings x ≤ pendings nodes) (sym h.result)
        (pendings-modify-le t.task_id h.change nodes (λ n. ground (arith, h.settles n)))

  run_wave-le :
      (tasks : List AgentTask) (nodes : Nodes) (bound : ℕ)
      → pendings nodes ≤ bound
      → AtMost bound (run_wave agents tasks nodes)
  unfolding run_wave
  run_wave-le [] nodes bound h = h
  run_wave-le (t ∷ tasks) nodes bound h =
      next (λ n. run_wave-le tasks n bound) (run_dag_task agents t nodes)
        (run_dag_task_lem agents t nodes)
    where
      next :
          ((n : Nodes) → pendings n ≤ bound → AtMost bound (run_wave agents tasks n))
          → (p : Progress) → GoesOn agents t nodes p
          → AtMost bound (and_then agents p (run_wave agents tasks))
      next rest (stopped r n) g = tt
      next rest (aborted n) g = tt
      next rest (ongoing n) g = rest n (omega (arith, settled-le t nodes n g))

  -- A wave whose first task is pending leaves fewer pending tasks.
  pub start_wave-lt :
      (t : AgentTask) (tasks : List AgentTask) (nodes : Nodes) (n : TaskNode) (bound : ℕ)
      → lookup t.task_id nodes ≡ some n
      → is_pending n.status ≡ true
      → pendings nodes ≤ suc bound
      → AtMost bound (start_wave agents (t ∷ tasks) nodes)
  unfolding mark_all_running mark_running
  start_wave-lt t tasks nodes n bound at p h =
      run_wave-le (t ∷ tasks) (mark_all_running agents (t ∷ tasks) nodes) bound (
        omega (
          arith,
          pendings-modify-lt t.task_id (set_running (agents.now nodes)) nodes n (λ x. refl) at p,
          mark_all_running-le tasks (mark_running (agents.now nodes) t.task_id nodes),
        ))
