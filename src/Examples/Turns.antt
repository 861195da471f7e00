-- ===== src/Examples/Turns.antt =====
-- A run whose tests fail once, then started again from its checkpoint. The world counts the calls.
use local_coding_agent.Base.{
  ℕ, nat_eq, pair_eq, ◌+◌, ◌≡◌, refl, String, string_eq, Bool, true, false, some, [], ◌∷◌, leb,
}
use local_coding_agent.Base.Dict.{lookup, insert}
use local_coding_agent.Scheduler.Dag.{AgentResponse, TaskStatus}
use local_coding_agent.Scheduler.Turn.{
  Outcome, answered, Agents, Settings, Finished, Checkpoint, saved_text, saved_plan, saved_response,
  run, full_run, fix_loop, resumable, raise_if_blocked, ◌>>=◌,
}
use local_coding_agent.Scheduler.Turn.Replay.{IsWithin}
use local_coding_agent.Scheduler.Turn.Resume.{run-resume}
use local_coding_agent.Scheduler.Turn.Fixes.{HasTested, run-HasTested}

abbrev answer_of : String → Bool → AgentResponse
answer_of summary passed = record {
  task_id = "t";
  status = TaskStatus.completed;
  summary = summary;
  tests_passed = passed;
}

abbrev counted : {A : Type 0} → A → ℕ → ℕ × Outcome A
counted a calls = (calls + 1, answered a)

abbrev tested : ℕ → ℕ × Outcome AgentResponse
tested calls = (calls + 1, answered (answer_of "tests" (leb 6 calls)))

abbrev team : Agents ℕ
team = record {
  execute_routed_read = counted (answer_of "read" true);
  explore = counted "explored";
  plan = λ exploration. counted [];
  execute_simple = λ exploration. counted (answer_of "simple" true);
  execute_planned_simple = λ task exploration. counted (answer_of "planned" true);
  execute_plan = λ tasks. counted (answer_of "plan" true);
  review = λ result. counted "reviewed";
  run_tests = tested;
  fix_failures = λ test escalate. counted (answer_of "fix" true);
}

abbrev settings : Settings
settings = record { run_tests_after_changes = true; max_fix_iterations = 3; routes_read = false }

abbrev finished : Finished
finished = record {
  result = answer_of "simple" true;
  review = some "reviewed";
  test_result = some (answer_of "tests" true);
  last_fix_result = some (answer_of "fix" true);
}

abbrev filled_checkpoint : Checkpoint
filled_checkpoint =
    (("explore", 0), saved_text "explored")
    ∷ (("plan", 0), saved_plan [])
    ∷ (("execute", 0), saved_response (answer_of "simple" true))
    ∷ (("review", 0), saved_text "reviewed")
    ∷ (("tests", 0), saved_response (answer_of "tests" false))
    ∷ (("fix", 0), saved_response (answer_of "fix" true))
    ∷ (("tests", 1), saved_response (answer_of "tests" true))
    ∷ []

first-run :
    run team settings [] 0
    ≡ record { checkpoint = filled_checkpoint; world = 7; outcome = answered finished }
unfolding run full_run fix_loop resumable raise_if_blocked ◌>>=◌ lookup insert
first-run = refl

first-answered : (run team settings [] 0).outcome ≡ answered finished
unfolding run full_run fix_loop resumable raise_if_blocked ◌>>=◌ lookup insert
first-answered = refl

run-resume_example :
    let first = run team settings [] 0 in
    IsWithin [] first.checkpoint
    × (run team settings first.checkpoint 20
        ≡ record { checkpoint = first.checkpoint; world = 20; outcome = answered finished })
run-resume_example = run-resume team settings [] 0 20 finished first-answered

run-HasTested_example : HasTested team 3 finished (run team settings [] 0)
run-HasTested_example = run-HasTested team settings [] 0 finished refl refl first-answered
