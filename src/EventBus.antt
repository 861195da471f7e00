-- ===== src/EventBus.antt =====
-- src/local_coder/core/event_bus.py: `InMemoryEventBus`. A handler is a value `H`, told apart by its
-- equality; a priority is a natural number. What a handler does when it is called, its exception
-- included, does not reach the bus, so `emit` returns the handlers in the order of their calls.
-- The web socket clients are not modelled.
pub mod History
use local_coding_agent.Base.{
  ℕ, zero, suc, ◌+◌, ◌-◌, String, Bool, true, false, not, ◌&&◌, Option, none, some, List, [], ◌∷◌,
  ◌++◌, if◌then◌else◌, ltb, leb, ◌==◌, Eq, string_eq, nat_eq, option_eq, length, drop, filter,
  last_of,
}
use local_coding_agent.Base.Dict.{Dict, lookup, insert}
use local_coding_agent.Base.LastEntry.{renew}

pub record AgentEvent : Type 0 where
  pub source : String
  pub event_type : String
  pub message : String
  pub task_id : Option String

abbrev pub or_empty : {A : Type 0} → Option (List A) → List A
or_empty none = []
or_empty (some xs) = xs

-- `append` to the task's bounded queue, made empty where it is missing, and `move_to_end`
abbrev pub touch :
    ℕ → AgentEvent → Dict (Option String) (List AgentEvent) → Dict (Option String) (List AgentEvent)
touch bound event d =
    renew event.task_id (last_of bound (or_empty (lookup event.task_id d) ++ event ∷ [])) d

-- `if len(…) > max_tasks: popitem(last=False)`
abbrev pub evict :
    ℕ → Dict (Option String) (List AgentEvent) → Dict (Option String) (List AgentEvent)
evict bound d = if ltb bound (length d) then drop 1 d else d

module _ (H : Type 0) ⦃eq : Eq H⦄ where
  pub record InMemoryEventBus : Type 0 where
    pub handlers : Dict String (List (H × ℕ))
    pub task_events : Dict (Option String) (List AgentEvent)
    pub max_task_events : ℕ
    pub max_tasks : ℕ
    pub max_all_events : ℕ
    pub all_events : List AgentEvent

  abbrev pub fresh : ℕ → ℕ → ℕ → InMemoryEventBus
  fresh max_task_events max_tasks max_all_events = record {
    handlers = [];
    task_events = [];
    max_task_events = max_task_events;
    max_tasks = max_tasks;
    max_all_events = max_all_events;
    all_events = [];
  }

  -- `__init__`: bounds below one raise.
  unfoldable pub new : ℕ → ℕ → ℕ → Option InMemoryEventBus
  new max_task_events max_tasks max_all_events =
      if leb 1 max_task_events && leb 1 max_tasks && leb 1 max_all_events
      then some (fresh max_task_events max_tasks max_all_events)
      else none

  -- `sorted(handlers, key=lambda x: -x[1])`: stable, the higher priority first
  unfoldable pub place : H × ℕ → List (H × ℕ) → List (H × ℕ)
  place h [] = h ∷ []
  place h (x ∷ xs) = if ltb x.1 h.1 then h ∷ x ∷ xs else x ∷ place h xs

  unfoldable pub by_priority : List (H × ℕ) → List (H × ℕ) → List (H × ℕ)
  by_priority placed [] = placed
  by_priority placed (h ∷ hs) = by_priority (place h placed) hs

  -- The part of `emit` under the lock: the history.
  unfoldable pub keep_event : AgentEvent → InMemoryEventBus → InMemoryEventBus
  keep_event event bus = record bus {
    task_events = evict bus.max_tasks (touch bus.max_task_events event bus.task_events);
    all_events = last_of bus.max_all_events (bus.all_events ++ event ∷ []);
  }

  unfoldable pub emit : AgentEvent → InMemoryEventBus → InMemoryEventBus × List (H × ℕ)
  unfolding keep_event by_priority
  emit event bus =
      (keep_event event bus, by_priority [] (or_empty (lookup event.event_type bus.handlers)))

  unfoldable pub on : String → H → ℕ → InMemoryEventBus → InMemoryEventBus
  on event_type handler priority bus = record bus {
    handlers =
        insert event_type (or_empty (lookup event_type bus.handlers) ++ (handler, priority) ∷ [])
          bus.handlers;
  }

  unfoldable pub off : String → H → InMemoryEventBus → InMemoryEventBus
  off event_type handler bus = record bus {
    handlers =
        insert event_type
          (filter (λ hp. not (hp.0 == handler)) (or_empty (lookup event_type bus.handlers)))
          bus.handlers;
  }

  unfoldable pub get_recent : Option String → ℕ → InMemoryEventBus → List AgentEvent
  get_recent task_id limit bus =
      if limit == 0 then [] else last_of limit (or_empty (lookup task_id bus.task_events))
