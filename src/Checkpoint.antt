-- ===== src/Checkpoint.antt =====
-- src/local_coder/core/runtime.py: `AgentRun.validate_resume`, which decides whether a saved run may
-- go on. Of the state and the metrics the fields are modelled that it reads; the note
-- `summary_calls` is `none` where it is no integer, and `some (pos 0)` where it is missing.
pub mod Protocol
use local_coding_agent.Base.{
  String, Bool, true, false, not, ◌&&◌, ◌||◌, Option, none, some, List, [], ◌∷◌, ◌++◌,
  if◌then◌else◌, ◌==◌, string_eq, ℤ, pos, leb_ℤ, ◌+ℤ◌, int_eq, contains, erase, length,
}

pub data AgentPhase : Type 0 where
  idle discovering planning executing verifying reflecting done failed : AgentPhase

abbrev pub is_terminal : AgentPhase → Bool
is_terminal AgentPhase.done = true
is_terminal AgentPhase.failed = true
is_terminal _ = false

-- A message, by what the check reads of it: its tool calls' ids, or the id that it answers.
pub data Message : Type 0 where
  assistant : List String → Message
  tool : String → Message
  other : Message

pub record AgentRun : Type 0 where
  pub boundary_complete : Bool
  pub phase : AgentPhase
  pub iteration : ℤ
  pub max_iterations : ℤ
  pub tool_calls_used : ℤ
  pub max_tool_calls : ℤ
  pub test_runs : ℤ
  pub max_test_runs : ℤ
  pub summary_calls : Option ℤ
  pub metrics_model_calls : ℤ
  pub metrics_tool_calls : ℤ
  pub tool_calls : List String
  pub test_results : List String
  pub messages : List Message

pub data ResumeError : Type 0 where
  incomplete_round terminal over_limits bad_summary metrics_disagree tool_history : ResumeError
  verification_history unresolved_calls duplicate_ids unmatched_result : ResumeError

-- `len(ids) == len(set(ids))`
abbrev pub all_distinct : List String → Bool
all_distinct [] = true
all_distinct (x ∷ xs) = not (contains x xs) && all_distinct xs

abbrev pub is_nil : List String → Bool
is_nil [] = true
is_nil (x ∷ xs) = false

-- The loop over the messages; `pending` is the set of calls without a result.
unfoldable pub check_messages : List String → List Message → Option ResumeError
check_messages pending [] = if is_nil pending then none else some unresolved_calls
check_messages pending (assistant ids ∷ messages) =
    let rest = check_messages ids messages in
    if not (is_nil pending)
    then some unresolved_calls
    else if not (all_distinct ids)
    then some duplicate_ids
    else rest
check_messages pending (tool id ∷ messages) =
    let rest = check_messages (erase id pending) messages in
    if contains id pending then rest else some unmatched_result
check_messages pending (other ∷ messages) = check_messages pending messages

-- `0 <= n <= limit`
abbrev pub within_limit : ℤ → ℤ → Bool
within_limit n limit = leb_ℤ (pos 0) n && leb_ℤ n limit

abbrev pub summary_ok : AgentRun → Bool
summary_ok run = elim run.summary_calls [
  | none ↦ false
  | some n ↦ within_limit n run.metrics_model_calls
]

abbrev pub summary_of : AgentRun → ℤ
summary_of run = elim run.summary_calls [ none ↦ pos 0 | some n ↦ n ]

-- `None` where the run may go on, else the error that is raised.
unfoldable pub validate_resume : AgentRun → Option ResumeError
unfolding check_messages
validate_resume run =
    if not run.boundary_complete
    then some incomplete_round
    else if is_terminal run.phase
    then some terminal
    else if not (
        within_limit run.iteration run.max_iterations
        && within_limit run.tool_calls_used run.max_tool_calls
        && within_limit run.test_runs run.max_test_runs)
    then some over_limits
    else if not (summary_ok run)
    then some bad_summary
    else if not (run.metrics_tool_calls == run.tool_calls_used)
        || not (run.metrics_model_calls == run.iteration +ℤ summary_of run)
    then some metrics_disagree
    else if not (pos (length run.tool_calls) == run.tool_calls_used)
    then some tool_history
    else if not (pos (length run.test_results) == run.test_runs)
    then some verification_history
    else check_messages [] run.messages
