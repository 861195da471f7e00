-- ===== src/EventBus/History.antt =====
-- The bounded history against the log of all events: what `get_recent` answers, from the log alone.
use local_coding_agent.Base.{
  ℕ, ◌-◌, ◌≤◌, String, true, false, ◌≡◌, refl, sym, ap, subst, ◌∙◌, Option, some, List, [], ◌∷◌,
  ◌++◌, if◌then◌else◌, ltb, ◌==◌, Eq, string_eq, option_eq, nat_eq, length, length-append, filter,
  last_of, last_of-snoc, erase, arith, drop_nil, eq→≡, append-nil, ◌<◌, Bool-cases, inl, inr,
  append_assoc,
}
use local_coding_agent.Base.Dict.{Dict, Distinct, lookup, keys}
use local_coding_agent.Base.LastEntry.{
  lookup-renew, renew-Distinct, keys-renew, length-erase, length-keys,
}
use local_coding_agent.EventBus.{
  AgentEvent, InMemoryEventBus, or_empty, touch, evict, keep_event, get_recent, new, fresh,
}

abbrev Table : Type 0
Table = Dict (Option String) (List AgentEvent)

-- The events of a task in a log.
abbrev pub of_task : Option String → List AgentEvent → List AgentEvent
of_task task_id = filter (λ event. event.task_id == task_id)

-- The tasks of a log, each once, in the order of their latest events.
abbrev pub recency : List (Option String) → List AgentEvent → List (Option String)
recency tasks [] = tasks
recency tasks (event ∷ events) = recency (erase event.task_id tasks ++ event.task_id ∷ []) events

of_task-snoc :
    (t : Option String) (log : List AgentEvent) (e : AgentEvent)
    → of_task t (log ++ e ∷ [])
      ≡ (if e.task_id == t then of_task t log ++ e ∷ [] else of_task t log)
of_task-snoc t [] e = refl
of_task-snoc t (x ∷ log) e = ground (arith, of_task-snoc t log e)

recency-le :
    (ts : List (Option String)) (log : List AgentEvent) → length ts ≤ length (recency ts log)
recency-le ts [] = omega arith
recency-le ts (e ∷ log) = omega (
  arith,
  length-erase e.task_id ts,
  length-append (erase e.task_id ts) (e.task_id ∷ []),
  recency-le (erase e.task_id ts ++ e.task_id ∷ []) log,
)

module _ (H : Type 0) ⦃eq : Eq H⦄ where
  -- All events of a log, in turn.
  unfoldable pub keep_all : List AgentEvent → InMemoryEventBus H → InMemoryEventBus H
  keep_all [] bus = bus
  keep_all (event ∷ events) bus = keep_all events (keep_event H event bus)

  -- The table holds, for the tasks of the log, the last events of each.
  pub record Holds (log : List AgentEvent) (tasks : List (Option String)) (bus : InMemoryEventBus H)
      : Type 0 where
    pub distinct : Distinct bus.task_events
    pub listed : keys bus.task_events ≡ tasks
    pub tails :
        (t : Option String)
        → or_empty (lookup t bus.task_events) ≡ last_of bus.max_task_events (of_task t log)
    pub everything : bus.all_events ≡ last_of bus.max_all_events log

  keep_event-Holds :
      (e : AgentEvent) (log : List AgentEvent) (tasks : List (Option String))
      (bus : InMemoryEventBus H)
      → length (erase e.task_id tasks ++ e.task_id ∷ []) ≤ bus.max_tasks
      → Holds log tasks bus
      → Holds (log ++ e ∷ []) (erase e.task_id tasks ++ e.task_id ∷ []) (keep_event H e bus)
  unfolding keep_event
  keep_event-Holds e log tasks bus room h =
      let d = touch bus.max_task_events e bus.task_events in
      let listed : keys d ≡ erase e.task_id tasks ++ e.task_id ∷ [] =
        keys-renew e.task_id _ bus.task_events
        ∙ ap (λ ks. erase e.task_id ks ++ e.task_id ∷ []) h.listed in
      let fits : ltb bus.max_tasks (length d) ≡ false =
        ground (arith, length-keys d, ap length listed) in
      let kept : evict bus.max_tasks d ≡ d = rw (fits) refl in
      record {
        distinct =
            subst Distinct (sym kept) (renew-Distinct e.task_id _ bus.task_events h.distinct);
        listed = ap keys kept ∙ listed;
        tails = λ t. ap (λ (x : Table). or_empty (lookup t x)) kept ∙ touched t;
        everything =
            ap (λ es. last_of bus.max_all_events (es ++ e ∷ [])) h.everything
            ∙ last_of-snoc bus.max_all_events log e;
      }
    where
      n : ℕ
      n = bus.max_task_events

      here :
          (t : Option String)
          → (e.task_id == t) ≡ true
          → last_of n (or_empty (lookup e.task_id bus.task_events) ++ e ∷ [])
            ≡ last_of n (of_task t (log ++ e ∷ []))
      here t p =
          let grown : of_task t (log ++ e ∷ []) ≡ of_task t log ++ e ∷ [] =
            of_task-snoc t log e ∙ rw (p) refl in
          ap (λ es. last_of n (es ++ e ∷ [])) (h.tails e.task_id)
          ∙ last_of-snoc n (of_task e.task_id log) e
          ∙ ap (λ k. last_of n (of_task k log ++ e ∷ [])) (eq→≡ e.task_id t p)
          ∙ ap (last_of n) (sym grown)

      touched :
          (t : Option String)
          → or_empty (lookup t (touch n e bus.task_events)) ≡ last_of n (of_task t (log ++ e ∷ []))
      touched t = elim (Bool-cases (e.task_id == t)) [
        | inl p ↦
            let found : lookup t (touch n e bus.task_events)
                ≡ some (last_of n (or_empty (lookup e.task_id bus.task_events) ++ e ∷ [])) =
              lookup-renew e.task_id t _ bus.task_events h.distinct ∙ rw (p) refl in
            ap or_empty found ∙ here t p
        | inr p ↦
            let found : lookup t (touch n e bus.task_events) ≡ lookup t bus.task_events =
              lookup-renew e.task_id t _ bus.task_events h.distinct ∙ rw (p) refl in
            let same : of_task t (log ++ e ∷ []) ≡ of_task t log =
              of_task-snoc t log e ∙ rw (p) refl in
            ap or_empty found ∙ h.tails t ∙ ap (last_of n) (sym same)
      ]

  keep_all-Holds :
      (events log : List AgentEvent) (tasks : List (Option String)) (bus : InMemoryEventBus H)
      → length (recency tasks events) ≤ bus.max_tasks
      → Holds log tasks bus
      → Holds (log ++ events) (recency tasks events) (keep_all events bus)
        × ((keep_all events bus).max_task_events ≡ bus.max_task_events)
  unfolding keep_all
  keep_all-Holds [] log tasks bus room h =
      (subst (λ l. Holds l tasks bus) (sym (append-nil log)) h, refl)
  keep_all-Holds (e ∷ events) log tasks bus room h =
      let more = erase e.task_id tasks ++ e.task_id ∷ [] in
      let next = keep_event-Holds e log tasks bus (omega (arith, room, recency-le more events)) h in
      let (held, same) =
        keep_all-Holds events (log ++ e ∷ []) more (keep_event H e bus) (kept_bound room) next in
      (
        subst (λ l. Holds l (recency more events) (keep_all events (keep_event H e bus)))
            (append_assoc log (e ∷ []) events) held,
        same ∙ kept_size,
      )
    where
      kept_bound :
          length (recency tasks (e ∷ events)) ≤ bus.max_tasks
          → length (recency (erase e.task_id tasks ++ e.task_id ∷ []) events)
            ≤ (keep_event H e bus).max_tasks
      kept_bound r = unfold keep_event in r

      kept_size : (keep_event H e bus).max_task_events ≡ bus.max_task_events
      kept_size = unfold keep_event in refl

  pub fresh_of_new :
      (n max_tasks max_all : ℕ) (bus : InMemoryEventBus H)
      → new H n max_tasks max_all ≡ some bus
      → bus ≡ fresh H n max_tasks max_all
  unfolding new
  fresh_of_new n max_tasks max_all bus h = ground arith

  fresh-Holds : (n max_tasks max_all : ℕ) → Holds [] [] (fresh H n max_tasks max_all)
  unfolding lookup
  fresh-Holds n max_tasks max_all = record {
    distinct = tt;
    listed = refl;
    tails = λ t. drop_nil (0 - n);
    everything = drop_nil (0 - max_all);
  }

  -- As long as no more tasks than `max_tasks` had events, the bounded tables forget nothing that a
  -- reader may ask for: for every task `get_recent` answers what the whole log says, its last
  -- events of that task up to both bounds.
  pub get_recent-keep_all :
      (max_task_events max_tasks max_all_events : ℕ) (bus : InMemoryEventBus H)
      (log : List AgentEvent) (task_id : Option String) (limit : ℕ)
      → new H max_task_events max_tasks max_all_events ≡ some bus
      → length (recency [] log) ≤ max_tasks
      → 0 < limit
      → get_recent H task_id limit (keep_all log bus)
        ≡ last_of limit (last_of max_task_events (of_task task_id log))
  unfolding get_recent
  get_recent-keep_all n max_tasks max_all bus log t limit h room pos =
      let e = fresh_of_new n max_tasks max_all bus h in
      subst (λ b. get_recent H t limit (keep_all log b) ≡ last_of limit (last_of n (of_task t log)))
        (sym e)
        (let (held, same) =
            keep_all-Holds log [] [] (fresh H n max_tasks max_all) room
              (fresh-Holds n max_tasks max_all) in
          rw (positive)
            (ap (last_of limit) (held.tails t ∙ ap (λ k. last_of k (of_task t log)) same)))
    where
      positive : (limit == 0) ≡ false
      positive = ground arith
