-- ===== src/Examples/Resumes.antt =====
-- A run that may go on, and histories that may not.
use local_coding_agent.Base.{◌≡◌, ◌↔◌, refl, true, none, some, List, [], ◌∷◌, pos, negsuc}
use local_coding_agent.Checkpoint.{
  Message, assistant, tool, other, AgentRun, AgentPhase, unmatched_result, bad_summary,
  check_messages, validate_resume,
}
use local_coding_agent.Checkpoint.Protocol.{Resumable, validate_resume_iff}

abbrev messages : List Message
messages = other ∷ assistant ("a" ∷ "b" ∷ []) ∷ tool "b" ∷ tool "a" ∷ assistant [] ∷ []

abbrev saved_run : AgentRun
saved_run = record {
  boundary_complete = true;
  phase = AgentPhase.executing;
  iteration = pos 2;
  max_iterations = pos 5;
  tool_calls_used = pos 2;
  max_tool_calls = pos 10;
  test_runs = pos 0;
  max_test_runs = pos 3;
  summary_calls = some (pos 1);
  metrics_model_calls = pos 3;
  metrics_tool_calls = pos 2;
  tool_calls = "read_file" ∷ "grep" ∷ [];
  test_results = [];
  messages = messages;
}

saved_run-validate_resume : validate_resume saved_run ≡ none
unfolding validate_resume check_messages
saved_run-validate_resume = refl

-- A saved counter of summaries below zero is refused.
negative_summaries :
    validate_resume (record saved_run { summary_calls = some (negsuc 0) }) ≡ some bad_summary
unfolding validate_resume check_messages
negative_summaries = refl

answered_twice :
    check_messages [] (assistant ("a" ∷ []) ∷ tool "a" ∷ tool "a" ∷ []) ≡ some unmatched_result
unfolding check_messages
answered_twice = refl

validate_resume_iff_example : (validate_resume saved_run ≡ none) ↔ Resumable saved_run
validate_resume_iff_example = validate_resume_iff saved_run
