-- ===== src/Scheduler/Turn.antt =====
-- src/local_coder/orchestrator/coordinator.py: the phases of `Coordinator.run` in coding mode from the
-- exploration on, and `_resumable`, which saves each phase. A run has a checkpoint, a dictionary from
-- a phase's name and number to its value. The agents are a parameter: each works on the world, and
-- answers or raises; the keys of single plan tasks are part of the world. Events are not modelled.
pub mod Replay
pub mod Answers
pub mod Resume
pub mod Fixes
use local_coding_agent.Base.{
  ℕ, zero, suc, ◌+◌, String, string_eq, nat_eq, pair_eq, Bool, true, false, not, ◌&&◌, Option, none,
  some, List, [], ◌∷◌, if◌then◌else◌, ltb,
}
use local_coding_agent.Base.Dict.{Dict, lookup, insert}
use local_coding_agent.Scheduler.Dag.{AgentTask, AgentResponse, TaskStatus, is_failed}

abbrev pub is_blocked_status : TaskStatus → Bool
is_blocked_status TaskStatus.blocked = true
is_blocked_status _ = false

-- `f"fix.{n}"` is the name "fix" with its number; a name without a number has 0.
abbrev pub Key : Type 0
Key = String × ℕ

-- What a checkpoint holds, each kind in its serialized form.
pub data Saved : Type 0 where
  saved_text : String → Saved
  saved_plan : List AgentTask → Saved
  saved_response : AgentResponse → Saved

abbrev pub Checkpoint : Type 0
Checkpoint = Dict Key Saved

pub data Outcome (A : Type 0) : Type 0 where
  answered : A → Outcome A
  -- `AgentBlocked`
  refused : AgentResponse → Outcome A
  -- any other exception
  raised : Outcome A

pub record Ran (W A : Type 0) : Type 0 where
  pub checkpoint : Checkpoint
  pub world : W
  pub outcome : Outcome A

abbrev pub Produce : Type 0 → Type 0 → Type 0
Produce W A = W → W × Outcome A

abbrev pub Phase : Type 0 → Type 0 → Type 0
Phase W A = Checkpoint → W → Ran W A

module _ {W : Type 0} where
  abbrev pub return : {A : Type 0} → A → Phase W A
  return a c w = record { checkpoint = c; world = w; outcome = answered a }

  abbrev pub continue : {A B : Type 0} → Ran W A → Outcome A → (A → Phase W B) → Ran W B
  continue r (answered a) f = f a r.checkpoint r.world
  continue r (refused response) f = record {
    checkpoint = r.checkpoint;
    world = r.world;
    outcome = refused response;
  }
  continue r raised f = record { checkpoint = r.checkpoint; world = r.world; outcome = raised }

  infixl 5 ◌>>=◌
  unfoldable pub ◌>>=◌ : {A B : Type 0} → Phase W A → (A → Phase W B) → Phase W B
  (m >>= f) c w = let r = m c w in continue r r.outcome f

  unfoldable pub raise_if_blocked : AgentResponse → Phase W Unit
  raise_if_blocked response c w = record {
    checkpoint = c;
    world = w;
    outcome = if is_blocked_status response.status then refused response else answered tt;
  }

-- A kind of value: how it is saved, how it is validated when read, and whether it is a response that
-- is blocked.
pub record Kind (A : Type 0) : Type 0 where
  pub dump : A → Saved
  pub read : Saved → Option A
  pub blocked : A → Option AgentResponse

abbrev pub text_kind : Kind String
text_kind = record {
  dump = saved_text;
  read = λ s. elim s [ saved_text t ↦ some t | _ ↦ none ];
  blocked = λ t. none;
}

abbrev pub plan_kind : Kind (List AgentTask)
plan_kind = record {
  dump = saved_plan;
  read = λ s. elim s [ saved_plan p ↦ some p | _ ↦ none ];
  blocked = λ p. none;
}

abbrev pub response_kind : Kind AgentResponse
response_kind = record {
  dump = saved_response;
  read = λ s. elim s [ saved_response r ↦ some r | _ ↦ none ];
  blocked = λ r. if is_blocked_status r.status then some r else none;
}

abbrev pub unless_blocked : {A : Type 0} → Option AgentResponse → A → Outcome A
unless_blocked none a = answered a
unless_blocked (some response) a = refused response

abbrev pub reuse : {A : Type 0} → Kind A → Option A → Outcome A
reuse kind none = raised
reuse kind (some a) = unless_blocked (kind.blocked a) a

module _ {W A : Type 0} (kind : Kind A) where
  abbrev pub save_answer : Key → Checkpoint → W → A → Option AgentResponse → Ran W A
  save_answer key c w a none = record {
    checkpoint = insert key (kind.dump a) c;
    world = w;
    outcome = answered a;
  }
  save_answer key c w a (some response) = record {
    checkpoint = c;
    world = w;
    outcome = refused response;
  }

  abbrev pub keep_answer : Key → Checkpoint → W × Outcome A → Ran W A
  keep_answer key c (w, answered a) = save_answer key c w a (kind.blocked a)
  keep_answer key c (w, refused response) = record {
    checkpoint = c;
    world = w;
    outcome = refused response;
  }
  keep_answer key c (w, raised) = record { checkpoint = c; world = w; outcome = raised }

  abbrev pub with_saved : Key → Produce W A → Option Saved → Phase W A
  with_saved key produce none c w = keep_answer key c (produce w)
  with_saved key produce (some saved) c w = record {
    checkpoint = c;
    world = w;
    outcome = reuse kind (kind.read saved);
  }

  unfoldable pub resumable : Key → Produce W A → Phase W A
  resumable key produce c w = with_saved key produce (lookup key c) c w

-- The agents that the phases call.
pub record Agents (W : Type 0) : Type 0 where
  pub execute_routed_read : Produce W AgentResponse
  pub explore : Produce W String
  pub plan : String → Produce W (List AgentTask)
  pub execute_simple : String → Produce W AgentResponse
  pub execute_planned_simple : AgentTask → String → Produce W AgentResponse
  pub execute_plan : List AgentTask → Produce W AgentResponse
  pub review : AgentResponse → Produce W String
  pub run_tests : Produce W AgentResponse
  -- the last test result, and whether to escalate
  pub fix_failures : AgentResponse → Bool → Produce W AgentResponse

-- What the report is written from.
pub record Finished : Type 0 where
  pub result : AgentResponse
  pub review : Option String
  pub test_result : Option AgentResponse
  pub last_fix_result : Option AgentResponse

abbrev pub is_missing : Option Saved → Bool
is_missing none = true
is_missing (some saved) = false

pub record Settings : Type 0 where
  pub run_tests_after_changes : Bool
  pub max_fix_iterations : ℕ
  -- automatic routing is on, has an economy model, and the request is a narrow read
  pub routes_read : Bool

module _ {W : Type 0} (agents : Agents W) where
  abbrev pub execute : List AgentTask → String → Produce W AgentResponse
  execute [] exploration = agents.execute_simple exploration
  execute (task ∷ []) exploration = agents.execute_planned_simple task exploration
  execute (task ∷ next ∷ tasks) exploration = agents.execute_plan (task ∷ next ∷ tasks)

  -- Behind a fix: the tests again, and what follows them; a fix that failed ends the loop.
  abbrev pub after_fix :
      ℕ
      → AgentResponse
      → AgentResponse
      → (AgentResponse → Phase W (AgentResponse × Option AgentResponse))
      → Bool
      → Phase W (AgentResponse × Option AgentResponse)
  after_fix fixes test fix more true = return (test, some fix)
  after_fix fixes test fix more false = do
    again ← resumable response_kind ("tests", fixes + 1) agents.run_tests
    _ ← raise_if_blocked again
    more again

  -- The loop of fixes; the number of rounds left, and the number of fixes made.
  unfoldable pub fix_loop :
      ℕ → ℕ → AgentResponse → Option AgentResponse → Phase W (AgentResponse × Option AgentResponse)
  fix_loop zero fixes test last = return (test, last)
  fix_loop (suc left) fixes test last = if test.tests_passed then return (test, last) else (do
    fix ← resumable response_kind ("fix", fixes) (agents.fix_failures test (ltb 0 fixes))
    _ ← raise_if_blocked fix
    after_fix fixes test fix (λ again. fix_loop left (fixes + 1) again (some fix))
        (is_failed fix.status))

  abbrev pub verified :
      AgentResponse → String → AgentResponse × Option AgentResponse → Phase W Finished
  verified result review (test, last) = return (record {
    result = result;
    review = some review;
    test_result = some test;
    last_fix_result = last;
  })

  abbrev pub verify : Bool → ℕ → AgentResponse → String → Phase W Finished
  verify false max_fixes result review =
      return (record {
        result = result;
        review = some review;
        test_result = none;
        last_fix_result = none;
      })
  verify true max_fixes result review = do
    test ← resumable response_kind ("tests", 0) agents.run_tests
    _ ← raise_if_blocked test
    found ← fix_loop max_fixes 0 test none
    verified result review found

  unfoldable pub full_run : Settings → Phase W Finished
  full_run settings = do
    exploration ← resumable text_kind ("explore", 0) agents.explore
    plan ← resumable plan_kind ("plan", 0) (agents.plan exploration)
    result ← resumable response_kind ("execute", 0) (execute plan exploration)
    _ ← raise_if_blocked result
    review ← resumable text_kind ("review", 0) (agents.review result)
    verify settings.run_tests_after_changes settings.max_fix_iterations result review

  unfoldable pub read_run : Phase W Finished
  read_run = do
    response ← resumable response_kind ("economy_read", 0) agents.execute_routed_read
    _ ← raise_if_blocked response
    return (record { result = response; review = none; test_result = none; last_fix_result = none })

  unfoldable pub run : Settings → Phase W Finished
  run settings c w =
      if settings.routes_read && is_missing (lookup ("plan", 0) c)
      then read_run c w
      else full_run settings c w
