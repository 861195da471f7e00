-- ===== src/Scheduler/Plan/Stalled.antt =====
-- A plan with no ready task: what is pending is failed, and then every task is settled.
use mathlib.Core.List.Memᴰ
use local_coding_agent.Base.{
  ℕ, String, ◌≡◌, ◌≢◌, refl, sym, subst, ap, inl, inr, ⊎_elim, true, all, some, List, [], ◌∷◌, Memᴰ,
  Memᴰ-cons, arith, string_eq, Bool-cases,
}
use local_coding_agent.Base.Dict.{
  values, lookup, modify, of_lookup-modify, lookup_of_Memᴰ, Memᴰ_of_lookup,
}
use local_coding_agent.Scheduler.Dag.{
  TaskStatus, AgentResponse, TaskNode, Nodes, is_pending, is_settled, is_complete, mark_failed,
  set_failed, get_pending_task_ids,
}
use local_coding_agent.Scheduler.Plan.{Agents, fail_stalled, stalled_response}
use local_coding_agent.Scheduler.Plan.Wave.{
  Idle, IsKeyed-modify, Ordered-modify, lookup-modify_self, lookup-modify_ne,
}
use local_coding_agent.Scheduler.Plan.Run.{Quiet}

-- The pending tasks are among `left`, and none of `left` is completed.
record Failing (left : List String) (nodes : Nodes) : Type 0 where
  quiet : Quiet nodes
  rest :
      (k : String) (n : TaskNode)
      → lookup k nodes ≡ some n
      → n.status ≡ TaskStatus.pending
      → Memᴰ k left
  waiting :
      (k : String)
      → Memᴰ k left
      → (n : TaskNode) × (lookup k nodes ≡ some n) × (n.status ≢ TaskStatus.completed)

pending_ids_iff :
    (k : String) (n : TaskNode) (d : Nodes)
    → Memᴰ (k, n) d
    → n.status ≡ TaskStatus.pending
    → Memᴰ k (get_pending_task_ids d)
unfolding get_pending_task_ids
pending_ids_iff k n [] m p = absurd (Memᴰ.not-nil m)
pending_ids_iff k n ((j, x) ∷ d) m p = ground (
  arith,
  Memᴰ-cons (k, n) (j, x) d,
  Memᴰ-cons k j (get_pending_task_ids d),
  pending_ids_iff k n d,
)

of_pending_ids :
    (k : String) (d : Nodes)
    → Memᴰ k (get_pending_task_ids d)
    → (n : TaskNode) × Memᴰ (k, n) d × (n.status ≢ TaskStatus.completed)
unfolding get_pending_task_ids
of_pending_ids k [] m = absurd (Memᴰ.not-nil m)
of_pending_ids k ((j, x) ∷ d) m = elim (Bool-cases (is_pending x.status)) [
  | inl p ↦
      ⊎_elim
        (λ e. (
          x,
          Memᴰ.head (ap (λ (y : String). let r : String × TaskNode = (y, x) in r) e),
          λ c. ground arith,
        ))
        (λ m'. below (of_pending_ids k d m')) (Memᴰ.cases_cons (rw (p, get_pending_task_ids) at m))
  | inr p ↦ below (of_pending_ids k d (rw (p, get_pending_task_ids) at m))
]
  where
    below :
        ((n : TaskNode) × Memᴰ (k, n) d × (n.status ≢ TaskStatus.completed))
        → (n : TaskNode) × Memᴰ (k, n) ((j, x) ∷ d) × (n.status ≢ TaskStatus.completed)
    below (n, m', c) = (n, Memᴰ.tail m', c)

start-Failing : (nodes : Nodes) → Quiet nodes → Failing (get_pending_task_ids nodes) nodes
start-Failing nodes q = record {
  quiet = q;
  rest = λ k n at p. pending_ids_iff k n nodes (Memᴰ_of_lookup k nodes at) p;
  waiting = λ k m.
      let (n, mem, c) = of_pending_ids k nodes m in
      (n, lookup_of_Memᴰ k n nodes q.keyed.distinct mem, c);
}

Failing-mark_failed :
    (now : ℕ) (t : String) (r : AgentResponse) (left : List String) (nodes : Nodes)
    → Failing (t ∷ left) nodes
    → Failing left (mark_failed now t r nodes)
unfolding mark_failed
Failing-mark_failed now t r left nodes h =
    let f = set_failed now r in
    let (old, at, open_status) = h.waiting t (Memᴰ.head refl) in
    record {
      quiet = record {
        keyed = IsKeyed-modify t f nodes (λ n. refl) h.quiet.keyed;
        idle = λ k n at'.
            let (v, before, change) = of_lookup-modify t k f nodes n at' in
            ⊎_elim (λ (same, e). subst (λ (x : TaskNode). Idle x.status) (sym e) tt)
              (λ (other, e).
                subst (λ (x : TaskNode). Idle x.status) (sym e) (h.quiet.idle k v before))
              change;
        ordered =
            Ordered-modify t f nodes old at open_status (λ n. refl) (inr (λ p. cc p, λ p. cc p))
              h.quiet.ordered;
      };
      rest = λ k n at' p.
          let (v, before, change) = of_lookup-modify t k f nodes n at' in
          ⊎_elim (λ (same, e). absurd (not_pending v n e p))
            (λ (other, e).
              ⊎_elim (λ q. absurd (other (sym q))) (λ m. m)
                (Memᴰ.cases_cons (
                  h.rest k v before (subst (λ (x : TaskNode). x.status ≡ TaskStatus.pending) e p))))
            change;
      waiting = λ k m.
          let (n, at', c) = h.waiting k (Memᴰ.tail m) in
          elim (Bool-cases (string_eq.beq t k)) [
            | inl same ↦
                let e : t ≡ k = (string_eq.beq_iff t k).0 same in
                (
                  f old,
                  subst (λ x. lookup x (modify t f nodes) ≡ some (f old)) e
                      (lookup-modify_self t f nodes old at),
                  λ p. cc p,
                )
            | inr other ↦ (
              n,
              lookup-modify_ne t k f nodes n (λ e. ground (arith, string_eq.beq_iff t k)) at',
              c,
            )
          ];
    }
  where
    not_pending : (v n : TaskNode) → n ≡ set_failed now r v → n.status ≡ TaskStatus.pending → ⊥
    not_pending v n e p = ground arith

module _ (agents : Agents) where
  fail_stalled-Failing :
      (left : List String) (nodes : Nodes)
      → Failing left nodes
      → Failing [] (fail_stalled agents left nodes)
  unfolding fail_stalled
  fail_stalled-Failing [] nodes h = h
  fail_stalled-Failing (t ∷ left) nodes h =
      fail_stalled-Failing left (mark_failed (agents.now nodes) t (stalled_response agents t) nodes)
        (Failing-mark_failed (agents.now nodes) t (stalled_response agents t) left nodes h)

  all_settled :
      (d : Nodes)
      → ((k : String) (n : TaskNode) → Memᴰ (k, n) d → is_settled n.status ≡ true)
      → all (λ (n : TaskNode). is_settled n.status) (values d) ≡ true
  all_settled [] h = refl
  all_settled ((k, n) ∷ d) h =
      ground (arith, h k n (Memᴰ.head refl), all_settled d (λ j x m. h j x (Memᴰ.tail m)))

  settled_of : (s : TaskStatus) → Idle s → s ≢ TaskStatus.pending → is_settled s ≡ true
  settled_of TaskStatus.pending i p = absurd (p refl)
  settled_of TaskStatus.completed i p = refl
  settled_of TaskStatus.failed i p = refl
  settled_of TaskStatus.queued i p = absurd i
  settled_of TaskStatus.running i p = absurd i
  settled_of TaskStatus.blocked i p = absurd i
  settled_of TaskStatus.cancelled i p = absurd i

  -- After a stall every task is completed or failed, and the order of dependencies still holds.
  pub fail_stalled_lem :
      (nodes : Nodes)
      → Quiet nodes
      → Quiet (fail_stalled agents (get_pending_task_ids nodes) nodes)
        × (is_complete (fail_stalled agents (get_pending_task_ids nodes) nodes) ≡ true)
  unfolding is_complete
  fail_stalled_lem nodes q =
      let left = get_pending_task_ids nodes in
      let h = fail_stalled-Failing left nodes (start-Failing nodes q) in
      let after = fail_stalled agents left nodes in
      (
        h.quiet,
        all_settled after (λ k n m.
            let at = lookup_of_Memᴰ k n after h.quiet.keyed.distinct m in
            settled_of n.status (h.quiet.idle k n at) (λ p. Memᴰ.not-nil (h.rest k n at p))),
      )
