-- ===== src/Scheduler/Plan/Wave.antt =====
-- One wave: the ready tasks are marked running, each is run and settled, and no other task changes.
use mathlib.Core.List.Memᴰ
use local_coding_agent.Base.{
  ℕ, String, ◌≡◌, ◌≢◌, refl, sym, subst, ap, ◌⊎◌, inl, inr, ⊎_elim, ◌∙◌, true, Option, none, some,
  List, [], ◌∷◌, Memᴰ, arith, string_eq,
}
use local_coding_agent.Base.Dict.{
  lookup, modify, Distinct, modify-Distinct, of_lookup-modify, lookup-modify,
}
use local_coding_agent.Scheduler.Dag.{
  TaskStatus, AgentTask, TaskNode, Nodes, dep_met, met_by, mark_running, set_running,
}

abbrev pub Idle : TaskStatus → Type 0
Idle TaskStatus.pending = Unit
Idle TaskStatus.completed = Unit
Idle TaskStatus.failed = Unit
Idle _ = ⊥

-- The node's dependencies are all completed.
abbrev pub Met : Nodes → TaskNode → Type 0
Met nodes n = (d : String) → Memᴰ d n.task.depends_on → dep_met nodes d ≡ true

pub record IsKeyed (nodes : Nodes) : Type 0 where
  pub distinct : Distinct nodes
  pub keyed : (k : String) (n : TaskNode) → lookup k nodes ≡ some n → n.task.task_id ≡ k

-- A change of a node that leaves its task alone.
abbrev pub KeepsTask : (TaskNode → TaskNode) → Type 0
KeepsTask f = (n : TaskNode) → (f n).task ≡ n.task

pub IsKeyed-modify :
    (t : String) (f : TaskNode → TaskNode) (nodes : Nodes)
    → KeepsTask f
    → IsKeyed nodes
    → IsKeyed (modify t f nodes)
IsKeyed-modify t f nodes keep h = record {
  distinct = modify-Distinct t f nodes h.distinct;
  keyed = λ k n at.
      let (v, before, change) = of_lookup-modify t k f nodes n at in
      ground (arith, h.keyed k v before, keep v);
}

-- A dependency that is completed stays so while a node that is not completed changes.
pub Met-modify :
    (t : String) (f : TaskNode → TaskNode) (nodes : Nodes) (old n : TaskNode)
    → lookup t nodes ≡ some old
    → old.status ≢ TaskStatus.completed
    → Met nodes n
    → Met (modify t f nodes) n
Met-modify t f nodes old n at open_status met d m = stays (lookup d nodes) refl (met d m)
  where
    stays :
        (o : Option TaskNode)
        → lookup d nodes ≡ o
        → met_by o ≡ true
        → dep_met (modify t f nodes) d ≡ true
    stays none e h = absurd (ground arith)
    stays (some v) e h =
        let apart : t ≢ d = λ same. open_status (completed_of old v (ground arith) h) in
        rw (lookup-modify t d f nodes v e) (ground (arith, string_eq.beq_iff t d))
      where
        completed_of :
            (a b : TaskNode) → a ≡ b → met_by (some b) ≡ true → a.status ≡ TaskStatus.completed
        completed_of a b p q = ground arith

-- Where a task is completed or running, its dependencies are completed.
abbrev pub Ordered : Nodes → Type 0
Ordered nodes =
    (k : String) (n : TaskNode)
    → lookup k nodes ≡ some n
    → (n.status ≡ TaskStatus.completed) ⊎ (n.status ≡ TaskStatus.running)
    → Met nodes n

-- Within a wave: `wave` names its tasks that are not settled yet, and `todo` those that are not
-- yet marked running.
pub record Phase (wave todo : List String) (nodes : Nodes) : Type 0 where
  pub keyed : IsKeyed nodes
  pub statuses :
      (k : String) (n : TaskNode)
      → lookup k nodes ≡ some n
      → Idle n.status ⊎ ((n.status ≡ TaskStatus.running) × Memᴰ k wave)
  pub live :
      (k : String)
      → Memᴰ k wave
      → Memᴰ k todo ⊎ ((n : TaskNode) × (lookup k nodes ≡ some n) × (n.status ≡ TaskStatus.running))
  pub ready :
      (k : String)
      → Memᴰ k todo
      → (n : TaskNode) × (lookup k nodes ≡ some n) × (n.status ≡ TaskStatus.pending) × Met nodes n
  pub ordered : Ordered nodes

-- No name stands twice.
abbrev pub Apart : List String → Type 0
Apart [] = Unit
Apart (x ∷ xs) = (¬ Memᴰ x xs) × Apart xs

-- A change of one node, seen at another.
pub lookup-modify_ne :
    (t k : String) (f : TaskNode → TaskNode) (nodes : Nodes) (n : TaskNode)
    → t ≢ k
    → lookup k nodes ≡ some n
    → lookup k (modify t f nodes) ≡ some n
lookup-modify_ne t k f nodes n h at =
    lookup-modify t k f nodes n at ∙ ground (arith, string_eq.beq_iff t k)

pub lookup-modify_self :
    (t : String) (f : TaskNode → TaskNode) (nodes : Nodes) (n : TaskNode)
    → lookup t nodes ≡ some n
    → lookup t (modify t f nodes) ≡ some (f n)
lookup-modify_self t f nodes n at =
    lookup-modify t t f nodes n at ∙ ground (arith, string_eq.beq_iff t t)

pub Ordered-modify :
    (t : String) (f : TaskNode → TaskNode) (nodes : Nodes) (old : TaskNode)
    → lookup t nodes ≡ some old
    → old.status ≢ TaskStatus.completed
    → KeepsTask f
    → Met nodes old
      ⊎ (((f old).status ≢ TaskStatus.completed) × ((f old).status ≢ TaskStatus.running))
    → Ordered nodes
    → Ordered (modify t f nodes)
Ordered-modify t f nodes old at open_status keep self h k n at' s =
    let (v, before, change) = of_lookup-modify t k f nodes n at' in
    ⊎_elim
      (λ (same, e).
        let here : v ≡ old = ground arith in
        ⊎_elim
          (λ met d m.
            Met-modify t f nodes old old at open_status met d
              (subst (λ (x : AgentTask). Memᴰ d x.depends_on) (task_of n v old e here) m))
          (λ (c, r).
            absurd (
              ⊎_elim (λ p. c (status_of n v old e here p)) (λ p. r (status_of n v old e here p)) s))
          self)
      (λ (other, e).
        Met-modify t f nodes old n at open_status
          (subst (Met nodes) (sym e) (h k v before (moved n v e s))))
      change
  where
    task_of : (n v old : TaskNode) → n ≡ f v → v ≡ old → n.task ≡ old.task
    task_of n v old e here =
        ap (λ (x : TaskNode). x.task) e ∙ keep v ∙ ap (λ (x : TaskNode). x.task) here

    status_of :
        {s : TaskStatus} (n v old : TaskNode)
        → n ≡ f v
        → v ≡ old
        → n.status ≡ s
        → (f old).status ≡ s
    status_of n v old e here p =
        ap (λ (x : TaskNode). (f x).status) (sym here) ∙ ap (λ (x : TaskNode). x.status) (sym e) ∙ p

    moved :
        (n v : TaskNode)
        → n ≡ v
        → (n.status ≡ TaskStatus.completed) ⊎ (n.status ≡ TaskStatus.running)
        → (v.status ≡ TaskStatus.completed) ⊎ (v.status ≡ TaskStatus.running)
    moved n v e p =
        subst
          (λ (x : TaskNode). (x.status ≡ TaskStatus.completed) ⊎ (x.status ≡ TaskStatus.running)) e
          p

-- The first task to mark is marked running.
pub Phase-mark_running :
    {wave todo : List String} {nodes : Nodes} (now : ℕ) (t : String)
    → Memᴰ t wave
    → ¬ Memᴰ t todo
    → Phase wave (t ∷ todo) nodes
    → Phase wave todo (mark_running now t nodes)
unfolding mark_running
Phase-mark_running {wave} {todo} {nodes} now t eligible fresh h =
    let f = set_running now in
    let (old, at, waits, met) = h.ready t (Memᴰ.head refl) in
    let open_status : old.status ≢ TaskStatus.completed = λ p. cc (waits, p) in
    record {
      keyed = IsKeyed-modify t f nodes (λ n. refl) h.keyed;
      statuses = λ k n at'.
          let (v, before, change) = of_lookup-modify t k f nodes n at' in
          ⊎_elim
            (λ (same, e).
              inr (ap (λ (x : TaskNode). x.status) e, subst (λ x. Memᴰ x wave) same eligible))
            (λ (other, e).
              subst
                (λ (x : TaskNode). Idle x.status ⊎ ((x.status ≡ TaskStatus.running) × Memᴰ k wave))
                (sym e) (h.statuses k v before))
            change;
      live = λ k m.
          ⊎_elim
            (λ m'.
              ⊎_elim
                (λ e. inr (
                  f old,
                  subst (λ x. lookup x (modify t f nodes) ≡ some (f old)) (sym e)
                      (lookup-modify_self t f nodes old at),
                  refl,
                ))
                inl (Memᴰ.cases_cons m'))
            (λ (n, at', runs).
              inr (n, lookup-modify_ne t k f nodes n (λ e. ground arith) at', runs))
            (h.live k m);
      ready = λ k m.
          let (n, at', waits', met') = h.ready k (Memᴰ.tail m) in
          let apart : t ≢ k = λ e. fresh (subst (λ x. Memᴰ x todo) (sym e) m) in
          (
            n,
            lookup-modify_ne t k f nodes n apart at',
            waits',
            Met-modify t f nodes old n at open_status met',
          );
      ordered = Ordered-modify t f nodes old at open_status (λ n. refl) (inl met) h.ordered;
    }

-- The first task of the wave ends: a running task becomes completed or failed.
pub Phase-settle :
    {wave : List String} {nodes : Nodes} (t : String) (f : TaskNode → TaskNode)
    → KeepsTask f
    → ((n : TaskNode) → ((f n).status ≡ TaskStatus.completed) ⊎ ((f n).status ≡ TaskStatus.failed))
    → ¬ Memᴰ t wave
    → Phase (t ∷ wave) [] nodes
    → Phase wave [] (modify t f nodes)
Phase-settle {wave} {nodes} t f keep settles fresh h =
    ⊎_elim (λ m. absurd (Memᴰ.not-nil m))
      (λ (old, at, runs).
        let open_status : old.status ≢ TaskStatus.completed = λ p. cc (runs, p) in
        record {
          keyed = IsKeyed-modify t f nodes keep h.keyed;
          statuses = λ k n at'.
              let (v, before, change) = of_lookup-modify t k f nodes n at' in
              ⊎_elim (λ (same, e). inl (subst (λ (x : TaskNode). Idle x.status) (sym e) (idle v)))
                (λ (other, e).
                  subst
                    (λ (x : TaskNode).
                      Idle x.status ⊎ ((x.status ≡ TaskStatus.running) × Memᴰ k wave))
                    (sym e) (shrink k v other (h.statuses k v before)))
                change;
          live = λ k m.
              let apart : t ≢ k = λ e. fresh (subst (λ x. Memᴰ x wave) (sym e) m) in
              ⊎_elim (λ m'. absurd (Memᴰ.not-nil m'))
                (λ (n, at', r). inr (n, lookup-modify_ne t k f nodes n apart at', r))
                (h.live k (Memᴰ.tail m));
          ready = λ k m. absurd (Memᴰ.not-nil m);
          ordered =
              Ordered-modify t f nodes old at open_status keep (inl (h.ordered t old at (inr runs)))
                h.ordered;
        })
      (h.live t (Memᴰ.head refl))
  where
    idle : (v : TaskNode) → Idle (f v).status
    idle v = ⊎_elim (λ c. subst Idle (sym c) tt) (λ c. subst Idle (sym c) tt) (settles v)

    shrink :
        (k : String) (v : TaskNode)
        → t ≢ k
        → Idle v.status ⊎ ((v.status ≡ TaskStatus.running) × Memᴰ k (t ∷ wave))
        → Idle v.status ⊎ ((v.status ≡ TaskStatus.running) × Memᴰ k wave)
    shrink k v other s =
        ⊎_elim inl
          (λ (r, m). inr (r, ⊎_elim (λ e. absurd (other (sym e))) (λ m'. m') (Memᴰ.cases_cons m))) s
