-- ===== src/Scheduler/Dag/Validate.antt =====
-- `TaskDAG.validate`: it always returns, and it accepts exactly the plans that can be scheduled.
use mathlib.Core.List.Memᴰ
use local_coding_agent.Base.{
  String, ◌≡◌, refl, subst, ap, ◌↔◌, ⊎_elim, none, some, List, [], ◌∷◌, Memᴰ, Memᴰ-cons, arith,
  length, string_eq,
}
use local_coding_agent.Base.Dict.{lookup, keys, Memᴰ-keys_of_lookup}
use local_coding_agent.Scheduler.Dag.{
  Nodes, TaskNode, PlanError, missing, cycle, Search, visit, depth, start, search_all, validate,
  missing_deps, missing_errors,
}
use local_coding_agent.Scheduler.Dag.Relation.{Chain, Grounded, Grounded-not-cycle, unseen-nil-le}
use local_coding_agent.Scheduler.Dag.Visit.{
  Sound, Safe, Visits, Returns, dep-lookup, visit_all_lem, visit_lem,
}

-- A dependency that is no key.
abbrev pub Missing : Nodes → String → String → Type 0
Missing nodes task dep =
    (k : String) × (n : TaskNode) × Memᴰ (k, n) nodes
    × (n.task.task_id ≡ task)
    × Memᴰ dep n.task.depends_on
    × (lookup dep nodes ≡ none)

missing_deps_iff :
    (nodes : Nodes) (n : TaskNode) (deps : List String) (t d : String)
    → Memᴰ (missing t d) (missing_deps nodes n deps)
      ↔ ((n.task.task_id ≡ t) × Memᴰ d deps × (lookup d nodes ≡ none))
unfolding missing_deps
missing_deps_iff nodes n [] t d = (λ m. absurd (Memᴰ.not-nil m), λ h. absurd (Memᴰ.not-nil h.1))
missing_deps_iff nodes n (dep ∷ deps) t d = ground (
  arith,
  Memᴰ-cons (missing t d) (missing n.task.task_id dep) (missing_deps nodes n deps),
  Memᴰ-cons d dep deps,
  missing_deps_iff nodes n deps t d,
)

missing_deps-cycle :
    (nodes : Nodes) (n : TaskNode) (deps : List String) (c : String)
    → Memᴰ (cycle c) (missing_deps nodes n deps)
    → ⊥
unfolding missing_deps
missing_deps-cycle nodes n [] c m = Memᴰ.not-nil m
missing_deps-cycle nodes n (dep ∷ deps) c m = ground (
  arith,
  Memᴰ-cons (cycle c) (missing n.task.task_id dep) (missing_deps nodes n deps),
  missing_deps-cycle nodes n deps c,
)

-- The first loop reports a pair exactly if that task names that dependency and it is no key.
missing_errors_sound :
    (nodes d : Nodes) (t dep : String)
    → Memᴰ (missing t dep) (missing_errors nodes d)
    → (k : String) × (n : TaskNode) × Memᴰ (k, n) d
      × (n.task.task_id ≡ t)
      × Memᴰ dep n.task.depends_on
      × (lookup dep nodes ≡ none)
unfolding missing_errors
missing_errors_sound nodes [] t dep m = absurd (Memᴰ.not-nil m)
missing_errors_sound nodes ((k, n) ∷ d) t dep m =
    ⊎_elim
      (λ here.
        let (e, dep_of, none_at) = (missing_deps_iff nodes n n.task.depends_on t dep).0 here in
        (k, n, Memᴰ.head refl, e, dep_of, none_at))
      (λ there.
        let (j, x, mem, e, dep_of, none_at) = missing_errors_sound nodes d t dep there in
        (j, x, Memᴰ.tail mem, e, dep_of, none_at))
      (Memᴰ.append_cases (missing_deps nodes n n.task.depends_on) m)

missing_errors_full :
    (nodes d : Nodes) (k t dep : String) (n : TaskNode)
    → Memᴰ (k, n) d
    → n.task.task_id ≡ t
    → Memᴰ dep n.task.depends_on
    → lookup dep nodes ≡ none
    → Memᴰ (missing t dep) (missing_errors nodes d)
unfolding missing_errors
missing_errors_full nodes [] k t dep n m e h q = absurd (Memᴰ.not-nil m)
missing_errors_full nodes ((j, x) ∷ d) k t dep n m e h q =
    ⊎_elim
      (λ here.
        let same : n ≡ x = ap (λ (p : String × TaskNode). p.1) here in
        Memᴰ.append_left (missing_errors nodes d) (
          (missing_deps_iff nodes x x.task.depends_on t dep).1 (
            subst (λ y. y.task.task_id ≡ t) same e,
            subst (λ y. Memᴰ dep y.task.depends_on) same h,
            q,
          )))
      (λ there.
        Memᴰ.append_right (missing_deps nodes x x.task.depends_on)
          (missing_errors_full nodes d k t dep n there e h q))
      (Memᴰ.cases_cons m)

missing_errors-cycle : (nodes d : Nodes) (c : String) → Memᴰ (cycle c) (missing_errors nodes d) → ⊥
unfolding missing_errors
missing_errors-cycle nodes [] c m = Memᴰ.not-nil m
missing_errors-cycle nodes ((k, n) ∷ d) c m =
    ⊎_elim (missing_deps-cycle nodes n n.task.depends_on c) (missing_errors-cycle nodes d c)
      (Memᴰ.append_cases (missing_deps nodes n n.task.depends_on) m)

-- The search over all keys returns, whatever the plan.
search_all_lem : (nodes : Nodes) → Returns nodes (search_all nodes) (keys nodes) (start nodes)
unfolding search_all
search_all_lem nodes =
    visit_all_lem nodes (depth nodes) (visit (depth nodes) nodes) (visit_lem nodes (depth nodes))
      (keys nodes) (start nodes)
      (λ t m. (omega (arith, unseen-nil-le nodes), λ p on. absurd (Memᴰ.not-nil on)))

start-Sound : (nodes : Nodes) → Sound nodes (start nodes)
start-Sound nodes c m = absurd (missing_errors-cycle nodes nodes c m)

start-Safe : (nodes : Nodes) → Safe nodes (start nodes)
start-Safe nodes v m = absurd (Memᴰ.not-nil m)

-- `validate` ends, cycles or not, and each message is true: a reported cycle is a cycle, and a
-- reported missing dependency is one that a task of the plan names and that is no task.
pub validate_sound :
    (nodes : Nodes)
    → (errors : List PlanError) × (validate nodes ≡ some errors)
      × ((c : String) → Memᴰ (cycle c) errors → Chain nodes c c)
      × ((t d : String) → Memᴰ (missing t d) errors → Missing nodes t d)
unfolding validate
validate_sound nodes =
    let (s, e, v) = search_all_lem nodes in
    (
      s.errors,
      rw (e, validate),
      v.sound (start-Sound nodes),
      λ t d m. missing_errors_sound nodes nodes t d (v.kept t d m),
    )

-- A plan that can be scheduled: each dependency is a task, and from no key does a chain of
-- dependencies go on forever.
pub record Schedulable (nodes : Nodes) : Type 0 where
  pub present : (t d : String) → ¬ Missing nodes t d
  pub grounded : (t : String) → Memᴰ t (keys nodes) → Grounded nodes t

no_members : (l : List PlanError) → ((x : PlanError) → ¬ Memᴰ x l) → l ≡ []
no_members [] h = refl
no_members (x ∷ l) h = absurd (h x (Memᴰ.head refl))

nothing_in : {x : PlanError} (l : List PlanError) → length l ≡ 0 → Memᴰ x l → ⊥
nothing_in [] h m = Memᴰ.not-nil m
nothing_in (y ∷ l) h m = omega arith

accepts :
    (nodes : Nodes) (s : Search)
    → Visits nodes (keys nodes) (start nodes) s
    → s.errors ≡ []
    → Schedulable nodes
accepts nodes s v e =
    let empty : length s.errors ≡ 0 = ap length e in
    let before : length (missing_errors nodes nodes) ≡ 0 = omega (arith, v.adds) in
    record {
      present = λ t d (k, n, m, task, dep, gone).
          nothing_in (missing_errors nodes nodes) before
            (missing_errors_full nodes nodes k t d n m task dep gone);
      grounded = (v.safe (omega arith) (start-Safe nodes)).1;
    }

-- The end of a chain has a dependency, so it is a key.
chain-keys : {nodes : Nodes} {a b : String} → Chain nodes a b → Memᴰ b (keys nodes)
chain-keys {nodes} {b} (Chain.one {b = y} d) = Memᴰ-keys_of_lookup y nodes (dep-lookup nodes y _ d)
chain-keys {nodes} (Chain.more {c = y} p d) = Memᴰ-keys_of_lookup y nodes (dep-lookup nodes y _ d)

rejects :
    (nodes : Nodes) (s : Search)
    → Visits nodes (keys nodes) (start nodes) s
    → Schedulable nodes
    → s.errors ≡ []
rejects nodes s v h = no_members s.errors none_of
  where
    none_of : (x : PlanError) → ¬ Memᴰ x s.errors
    none_of (missing t d) m = h.present t d (missing_errors_sound nodes nodes t d (v.kept t d m))
    none_of (cycle c) m =
        let around = v.sound (start-Sound nodes) c m in
        Grounded-not-cycle (h.grounded c (chain-keys around)) around

-- `validate` reports nothing exactly for the plans that can be scheduled.
pub validate_iff : (nodes : Nodes) → (validate nodes ≡ some []) ↔ Schedulable nodes
unfolding validate
validate_iff nodes =
    let (s, e, v) = search_all_lem nodes in
    (λ h. accepts nodes s v (ground arith), λ h. rw (e, validate, rejects nodes s v h))
