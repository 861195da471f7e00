-- ===== src/Scheduler/Plan/Success.antt =====
-- A schedulable plan whose agents succeed completes every task: the loop never stalls.
use mathlib.Core.WellFounded.{Acc}
use mathlib.Core.List.Memᴰ
use local_coding_agent.Base.{
  ℕ, zero, suc, ◌-◌, ◌<◌, String, ◌≡◌, ◌≢◌, refl, sym, subst, ap, inl, inr, ⊎_elim, ◌∙◌, Bool, true,
  false, all, any, some, List, [], ◌∷◌, Memᴰ, Memᴰ-cons, arith, length, string_eq, Bool-cases,
  Option-cases, List-cases, map,
}
use local_coding_agent.Base.Dict.{
  lookup, values, modify, of_lookup-modify, lookup-modify, lookup_of_Memᴰ, Memᴰ_of_lookup,
  Memᴰ-keys_of_lookup,
}
use local_coding_agent.Scheduler.Dag.{
  TaskStatus, AgentTask, AgentResponse, TaskNode, Nodes, dep_met, node_ready, is_settled, is_failed,
  is_complete, has_failures, ready_from, get_ready_tasks, add_tasks, mark_completed, mark_running,
  set_completed, set_running, deps_of,
}
use local_coding_agent.Scheduler.Dag.Relation.{Grounded}
use local_coding_agent.Scheduler.Dag.Validate.{Schedulable, validate_iff}
use local_coding_agent.Scheduler.Plan.{
  Agents, returned, ongoing, PlanResult, finished, is_blocked, failed, run_dag_task, run_wave,
  mark_all_running, start_wave, plan_loop, execute_plan, all_distinct,
}
use local_coding_agent.Scheduler.Plan.Wave.{Idle, KeepsTask}
use local_coding_agent.Scheduler.Plan.Run.{Quiet, ids, EndsQuiet, ready_lookup}
use local_coding_agent.Scheduler.Plan.Count.{
  pendings, AtMost, start_wave-lt, pendings-le-length, pendings_pos,
}
use local_coding_agent.Scheduler.Plan.Loop.{
  start_wave-EndsQuiet, end-Quiet, plan_nodes, New-Quiet, New,
}

-- `nodes` has the tasks of the plan `plan`, and none has failed.
pub record Healthy (plan nodes : Nodes) : Type 0 where
  pub tasks :
      (k : String) (n : TaskNode)
      → lookup k nodes ≡ some n
      → (n0 : TaskNode) × (lookup k plan ≡ some n0) × (n.task ≡ n0.task)
  pub kept :
      (k : String) (n0 : TaskNode)
      → lookup k plan ≡ some n0
      → (n : TaskNode) × (lookup k nodes ≡ some n)
  pub healthy : (k : String) (n : TaskNode) → lookup k nodes ≡ some n → n.status ≢ TaskStatus.failed

Healthy-modify :
    (plan nodes : Nodes) (t : String) (f : TaskNode → TaskNode)
    → KeepsTask f
    → ((n : TaskNode) → (f n).status ≢ TaskStatus.failed)
    → Healthy plan nodes
    → Healthy plan (modify t f nodes)
Healthy-modify plan nodes t f keep good h = record {
  tasks = λ k n at.
      let (v, before, change) = of_lookup-modify t k f nodes n at in
      let (n0, at0, same) = h.tasks k v before in
      (
        n0,
        at0,
        ⊎_elim (λ (e, p). ap (λ (x : TaskNode). x.task) p ∙ keep v ∙ same)
            (λ (e, p). ap (λ (x : TaskNode). x.task) p ∙ same) change,
      );
  kept = λ k n0 at0.
      let (n, at) = h.kept k n0 at0 in
      elim (Bool-cases (string_eq.beq t k)) [
        | inl p ↦ (f n, lookup-modify t k f nodes n at ∙ ground arith)
        | inr p ↦ (n, lookup-modify t k f nodes n at ∙ ground arith)
      ];
  healthy = λ k n at p.
      let (v, before, change) = of_lookup-modify t k f nodes n at in
      ⊎_elim (λ (e, q). good v (subst (λ (x : TaskNode). x.status ≡ TaskStatus.failed) q p))
        (λ (e, q).
          h.healthy k v before (subst (λ (x : TaskNode). x.status ≡ TaskStatus.failed) q p))
        change;
}

-- Every run of an agent returns a response that is no failure.
abbrev pub AllSucceed : Agents → Type 0
AllSucceed agents =
    (nodes : Nodes) (task : AgentTask) (escalate : Bool)
    → (r : AgentResponse) × (agents.attempt nodes task escalate ≡ returned r) × (failed r ≡ false)

not_blocked : (r : AgentResponse) → failed r ≡ false → is_blocked r.status ≡ false
not_blocked r h = ground arith

module _ (agents : Agents) (succeed : AllSucceed agents) where
  run_dag_task_success :
      (task : AgentTask) (nodes : Nodes)
      → (r : AgentResponse) × (run_dag_task agents task nodes
          ≡ ongoing (mark_completed (agents.now nodes) task.task_id r nodes))
  unfolding run_dag_task
  run_dag_task_success task nodes =
      let (r, e, fine) = succeed nodes task false in (r, rw (e, fine, not_blocked r fine))

  run_wave_success :
      (plan : Nodes) (tasks : List AgentTask) (nodes : Nodes)
      → Healthy plan nodes
      → (after : Nodes) × (run_wave agents tasks nodes ≡ ongoing after) × Healthy plan after
  unfolding run_wave mark_completed
  run_wave_success plan [] nodes h = (nodes, refl, h)
  run_wave_success plan (t ∷ tasks) nodes h =
      let (r, e) = run_dag_task_success t nodes in
      let f = set_completed (agents.now nodes) r in
      let (after, e', h') =
        run_wave_success plan tasks (modify t.task_id f nodes)
          (Healthy-modify plan nodes t.task_id f (λ n. refl) (λ n p. cc p) h) in
      (after, rw (e) e', h')

  mark_all_running-Healthy :
      (plan : Nodes) (tasks : List AgentTask) (nodes : Nodes)
      → Healthy plan nodes
      → Healthy plan (mark_all_running agents tasks nodes)
  unfolding mark_all_running mark_running
  mark_all_running-Healthy plan [] nodes h = h
  mark_all_running-Healthy plan (t ∷ tasks) nodes h =
      mark_all_running-Healthy plan tasks (modify t.task_id (set_running (agents.now nodes)) nodes)
        (Healthy-modify plan nodes t.task_id (set_running (agents.now nodes)) (λ n. refl)
          (λ n p. cc p) h)

unmet :
    (nodes : Nodes) (deps : List String)
    → all (dep_met nodes) deps ≡ false
    → (d : String) × Memᴰ d deps × (dep_met nodes d ≡ false)
unmet nodes [] h = absurd (ground arith)
unmet nodes (d ∷ deps) h = elim (Bool-cases (dep_met nodes d)) [
  | inr no_d ↦ (d, Memᴰ.head refl, no_d)
  | inl met ↦ let (x, m, p) = unmet nodes deps (ground arith) in (x, Memᴰ.tail m, p)
]

unsettled :
    (d : Nodes)
    → all (λ (n : TaskNode). is_settled n.status) (values d) ≡ false
    → (k : String) × (n : TaskNode) × Memᴰ (k, n) d × (is_settled n.status ≡ false)
unsettled [] h = absurd (ground arith)
unsettled ((k, n) ∷ d) h = elim (Bool-cases (is_settled n.status)) [
  | inr open_task ↦ (k, n, Memᴰ.head refl, open_task)
  | inl settled ↦ let (j, x, m, p) = unsettled d (ground arith) in (j, x, Memᴰ.tail m, p)
]

waits_on :
    (s : TaskStatus)
    → Idle s
    → s ≢ TaskStatus.failed
    → s ≢ TaskStatus.completed
    → s ≡ TaskStatus.pending
waits_on TaskStatus.pending i f c = refl
waits_on TaskStatus.completed i f c = absurd (c refl)
waits_on TaskStatus.failed i f c = absurd (f refl)
waits_on TaskStatus.queued i f c = absurd i
waits_on TaskStatus.running i f c = absurd i
waits_on TaskStatus.blocked i f c = absurd i
waits_on TaskStatus.cancelled i f c = absurd i

module _ (plan : Nodes) (good : Schedulable plan) (nodes : Nodes) (q : Quiet nodes)
    (h : Healthy plan nodes) where
  -- Down from a pending task there is one whose dependencies are all completed.
  progress :
      (k : String) (n : TaskNode)
      → Grounded plan k
      → lookup k nodes ≡ some n
      → n.status ≡ TaskStatus.pending
      → (j : String) × (m : TaskNode) × (lookup j nodes ≡ some m) × (node_ready nodes m ≡ true)
  progress k n (Acc.intro _ below) at waits =
      elim (Bool-cases (all (dep_met nodes) n.task.depends_on)) [
        | inl met ↦ (k, n, at, ground arith)
        | inr not_met ↦
            let (d, m, p) = unmet nodes n.task.depends_on not_met in
            let (n0, at0, same) = h.tasks k n at in
            let m0 = subst (λ (x : AgentTask). Memᴰ d x.depends_on) same m in
            let (x, at_d) = dep_present d n0 at0 m0 in
            let c : x.status ≢ TaskStatus.completed = λ c. ground arith in
            progress d x (below d (dep_of d n0 at0 m0)) at_d
              (waits_on x.status (q.idle d x at_d) (h.healthy d x at_d) c)
      ]
    where
      dep_of :
          (d : String) (n0 : TaskNode)
          → lookup k plan ≡ some n0
          → Memᴰ d n0.task.depends_on
          → Memᴰ d (deps_of plan k)
      dep_of d n0 e m = rw (e) m

      dep_present :
          (d : String) (n0 : TaskNode)
          → lookup k plan ≡ some n0
          → Memᴰ d n0.task.depends_on
          → (x : TaskNode) × (lookup d nodes ≡ some x)
      dep_present d n0 e m = elim (Option-cases (lookup d plan)) [
        | inl gone ↦
            absurd (good.present n0.task.task_id d (k, n0, Memᴰ_of_lookup k plan e, refl, m, gone))
        | inr (y, there) ↦ h.kept d y there
      ]

  ready_nonempty :
      (d : Nodes) (j : String) (m : TaskNode)
      → Memᴰ (j, m) d
      → node_ready nodes m ≡ true
      → ready_from nodes d ≢ []
  unfolding ready_from
  ready_nonempty [] j m mem r = absurd (Memᴰ.not-nil mem)
  ready_nonempty ((k, n) ∷ d) j m mem r =
      ground (arith, Memᴰ-cons (j, m) (k, n) d, ready_nonempty d j m)

  -- Where a task is open, a task is ready.
  pub open-ready : is_complete nodes ≡ false → get_ready_tasks nodes ≢ []
  unfolding is_complete get_ready_tasks
  open-ready e =
      let (k, n, mem, p) = unsettled nodes e in
      let at = lookup_of_Memᴰ k n nodes q.keyed.distinct mem in
      let waits = waits_on n.status (q.idle k n at) (h.healthy k n at) (λ c. ground arith) in
      let (n0, at0, same) = h.tasks k n at in
      let grounded = good.grounded k (Memᴰ-keys_of_lookup k plan (λ gone. ground arith)) in
      let (j, m, at_j, r) = progress k n grounded at waits in
      ready_nonempty nodes j m (Memᴰ_of_lookup j nodes at_j) r

none_failed :
    (d : Nodes)
    → ((k : String) (n : TaskNode) → Memᴰ (k, n) d → n.status ≢ TaskStatus.failed)
    → any (λ (n : TaskNode). is_failed n.status) (values d) ≡ false
none_failed [] h = refl
none_failed ((k, n) ∷ d) h =
    let rest = none_failed d (λ j x m. h j x (Memᴰ.tail m)) in
    let this = h k n (Memᴰ.head refl) in ground arith

-- The outcome in which every task of the plan is completed.
abbrev pub Completes : PlanResult → Type 0
Completes r =
    (nodes : Nodes) × (r ≡ finished nodes)
    × (is_complete nodes ≡ true)
    × (has_failures nodes ≡ false)

module _ (agents : Agents) (succeed : AllSucceed agents) (plan : Nodes)
    (good : Schedulable plan) where
  no_failures : (nodes : Nodes) → Quiet nodes → Healthy plan nodes → has_failures nodes ≡ false
  unfolding has_failures
  no_failures nodes q h =
      none_failed nodes (λ k n m. h.healthy k n (lookup_of_Memᴰ k n nodes q.keyed.distinct m))

  wave_success :
      (nodes : Nodes) (t : AgentTask) (tasks : List AgentTask)
      → Quiet nodes
      → Healthy plan nodes
      → get_ready_tasks nodes ≡ t ∷ tasks
      → (after : Nodes) × (start_wave agents (t ∷ tasks) nodes ≡ ongoing after)
        × Quiet after
        × Healthy plan after
        × (pendings after < pendings nodes)
  wave_success nodes t tasks q h e =
      let (n, at, p, met) =
        ready_lookup nodes q t.task_id
          (subst (λ l. Memᴰ t.task_id (ids l)) (sym e) (Memᴰ.head refl)) in
      let (after, ran, h') =
        run_wave_success agents succeed plan (t ∷ tasks) (mark_all_running agents (t ∷ tasks) nodes)
          (mark_all_running-Healthy agents succeed plan (t ∷ tasks) nodes h) in
      let quiet =
        subst (λ l. EndsQuiet agents (start_wave agents l nodes)) e
          (start_wave-EndsQuiet agents nodes q) in
      let f = pendings nodes - 1 in
      let fewer =
        subst (AtMost agents f) ran
          (start_wave-lt agents t tasks nodes n f at (ground arith) (omega arith)) in
      (
        after,
        ran,
        end-Quiet after (subst (EndsQuiet agents) ran quiet),
        h',
        omega (arith, pendings_pos t.task_id nodes n at (ground arith), fewer),
      )

  plan_loop_success :
      (f : ℕ) (nodes : Nodes)
      → Quiet nodes
      → Healthy plan nodes
      → pendings nodes < f
      → Completes (plan_loop agents f nodes)
  unfolding plan_loop
  plan_loop_success zero nodes q h bound = absurd (omega arith)
  plan_loop_success (suc f) nodes q h bound = elim (Bool-cases (is_complete nodes)) [
    | inl done ↦ (nodes, rw (done), done, no_failures nodes q h)
    | inr open_tasks ↦ elim (List-cases (get_ready_tasks nodes)) [
      | inl none_ready ↦ absurd (open-ready plan good nodes q h open_tasks none_ready)
      | inr (t, tasks, e) ↦
          let (after, ran, q', h', fewer) = wave_success nodes t tasks q h e in
          rw (open_tasks, e, ran) (plan_loop_success f after q' h' (omega arith))
    ]
  ]

Healthy-start : (nodes : Nodes) → New nodes → Healthy nodes nodes
Healthy-start nodes h = record {
  tasks = λ k n at. (n, at, refl);
  kept = λ k n at. (n, at);
  healthy = λ k n at p. cc (h.waits k n at, p);
}

pub execute_plan_success :
    (agents : Agents) (tasks : List AgentTask)
    → AllSucceed agents
    → all_distinct (map (λ t. t.task_id) tasks) ≡ true
    → Schedulable (add_tasks tasks [])
    → Completes (execute_plan agents tasks)
unfolding execute_plan
execute_plan_success agents tasks succeed distinct good =
    let nodes = add_tasks tasks [] in
    let new = plan_nodes tasks in
    rw (distinct, (validate_iff nodes).1 good)
      (plan_loop_success agents succeed nodes good (suc (length nodes)) nodes (New-Quiet nodes new)
        (Healthy-start nodes new) (omega (arith, pendings-le-length nodes)))
