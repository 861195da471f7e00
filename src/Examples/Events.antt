-- ===== src/Examples/Events.antt =====
-- A bus that keeps two events of each of two tasks.
use local_coding_agent.Base.{
  ℕ, ◌≡◌, refl, some, String, string_eq, option_eq, nat_eq, List, [], ◌∷◌, last_of, arith,
}
use local_coding_agent.Base.Dict.{lookup, insert, remove}
use local_coding_agent.EventBus.{
  AgentEvent, fresh, new, keep_event, on, emit, place, by_priority, get_recent,
}
use local_coding_agent.EventBus.History.{of_task, keep_all, get_recent-keep_all}

abbrev event_of : String → String → AgentEvent
event_of task message = record {
  source = "CODER-1";
  event_type = "tool_called";
  message = message;
  task_id = some task;
}

abbrev event_log : List AgentEvent
event_log = event_of "a" "1" ∷ event_of "b" "2" ∷ event_of "a" "3" ∷ event_of "a" "4" ∷ []

fresh-new : new ℕ 2 2 9 ≡ some (fresh ℕ 2 2 9)
unfolding new
fresh-new = refl

get_recent_two :
    get_recent ℕ (some "a") 5 (keep_all ℕ event_log (fresh ℕ 2 2 9))
    ≡ event_of "a" "3" ∷ event_of "a" "4" ∷ []
unfolding get_recent keep_all keep_event lookup remove
get_recent_two = refl

emit_order :
    (emit ℕ (event_of "a" "1") (on ℕ "tool_called" 8 5 (on ℕ "tool_called" 7 0 (fresh ℕ 2 2 9)))).1
    ≡ (8, 5) ∷ (7, 0) ∷ []
unfolding emit on by_priority place keep_event lookup insert remove
emit_order = refl

get_recent-keep_all_example :
    get_recent ℕ (some "a") 5 (keep_all ℕ event_log (fresh ℕ 2 2 9))
    ≡ last_of 5 (last_of 2 (of_task (some "a") event_log))
get_recent-keep_all_example =
    get_recent-keep_all ℕ 2 2 9 (fresh ℕ 2 2 9) event_log (some "a") 5 fresh-new (omega arith)
      (omega arith)
