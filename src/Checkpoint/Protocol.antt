-- ===== src/Checkpoint/Protocol.antt =====
-- The histories that may be resumed, described without the code's set of pending calls: every round
-- has distinct calls, each answered once, and nothing else is answered.
use local_coding_agent.Base.{
  ℕ, ◌+◌, ◌≤◌, String, true, false, not, ◌&&◌, Option, none, some, List, [], ◌∷◌, ◌≡◌, ◌↔◌, refl,
  ◌∙◌, arith, contains, erase, Unique, string_eq, ◌==◌, ℤ, pos, negsuc, ◌+ℤ◌, int_eq, sym, ap, eq→≡,
  or_false, and_true, not-false, Bool, if◌then◌else◌, Bool-cases, eq_self, inl, inr, length,
}
use local_coding_agent.Checkpoint.{
  ResumeError, Message, assistant, tool, other, AgentRun, is_terminal, all_distinct, is_nil,
  check_messages, summary_ok, summary_of, within_limit, validate_resume,
}

-- The ids answered before the next message of the assistant.
abbrev pub answers : List Message → List String
answers [] = []
answers (assistant ids ∷ messages) = []
answers (tool id ∷ messages) = id ∷ answers messages
answers (other ∷ messages) = answers messages

-- The answers are those of the calls `ids`, each once, in any order.
abbrev pub Settles : List String → List Message → Type 0
Settles ids messages =
    Unique (answers messages) × ((id : String) → contains id (answers messages) ≡ contains id ids)

abbrev pub Rounds : List Message → Type 0
Rounds [] = Unit
Rounds (assistant ids ∷ messages) = Unique ids × Settles ids messages × Rounds messages
Rounds (tool id ∷ messages) = Rounds messages
Rounds (other ∷ messages) = Rounds messages

contains-erase :
    (a j : String) (xs : List String)
    → Unique xs
    → contains j (erase a xs) ≡ (contains j xs && not (a == j))
contains-erase a j [] u = refl
contains-erase a j (x ∷ xs) u = ground (
  arith,
  contains-erase a j xs u.1,
  string_eq.beq_iff a x,
  string_eq.beq_iff j x,
  string_eq.beq_iff a j,
)

Unique-erase : (a : String) (xs : List String) → Unique xs → Unique (erase a xs)
Unique-erase a [] u = tt
Unique-erase a (x ∷ xs) u = elim (Bool-cases (a == x)) [
  | inl p ↦ rw (p) u.1
  | inr p ↦ rw (p) (ground (arith, contains-erase a x xs u.1), Unique-erase a xs u.1)
]

all_distinct_iff : (xs : List String) → (all_distinct xs ≡ true) ↔ Unique xs
all_distinct_iff [] = (λ h. tt, λ u. refl)
all_distinct_iff (x ∷ xs) = (
  λ h. (ground arith, (all_distinct_iff xs).0 (ground arith)),
  λ u. ground (arith, u.0, (all_distinct_iff xs).1 u.1),
)

nil_of_contains : (xs : List String) → ((id : String) → false ≡ contains id xs) → is_nil xs ≡ true
nil_of_contains [] h = refl
nil_of_contains (x ∷ xs) h = absurd (ground (arith, h x, eq_self x))

contains_of_nil : (xs : List String) → is_nil xs ≡ true → (id : String) → false ≡ contains id xs
contains_of_nil [] h id = refl
contains_of_nil (x ∷ xs) h id = absurd (ground arith)

abbrev pub Accepts : List String → List Message → Type 0
Accepts pending messages = Settles pending messages × Rounds messages

check_messages_sound :
    (pending : List String) (messages : List Message)
    → Unique pending
    → check_messages pending messages ≡ none
    → Accepts pending messages
unfolding check_messages
check_messages_sound pending [] u h =
    let empty : is_nil pending ≡ true = ground arith in ((tt, contains_of_nil pending empty), tt)
check_messages_sound pending (assistant ids ∷ messages) u h =
    let empty : is_nil pending ≡ true = ground arith in
    let distinct : all_distinct ids ≡ true = ground arith in
    let rest : check_messages ids messages ≡ none = ground arith in
    let unique = (all_distinct_iff ids).0 distinct in
    let (settled, rounds) = check_messages_sound ids messages unique rest in
    ((tt, contains_of_nil pending empty), (unique, settled, rounds))
check_messages_sound pending (tool id ∷ messages) u h =
    let here : contains id pending ≡ true = ground arith in
    let rest : check_messages (erase id pending) messages ≡ none = ground arith in
    let ((unique, same), rounds) =
      check_messages_sound (erase id pending) messages (Unique-erase id pending u) rest in
    (
      (
        (same id ∙ contains-erase id id pending u ∙ ground (arith, eq_self id), unique),
        λ j. ground (
          arith,
          same j,
          contains-erase id j pending u,
          string_eq.beq_iff id j,
          string_eq.beq_iff j id,
          here,
        ),
      ),
      rounds,
    )
check_messages_sound pending (other ∷ messages) u h = check_messages_sound pending messages u h

check_messages_complete :
    (pending : List String) (messages : List Message)
    → Unique pending
    → Accepts pending messages
    → check_messages pending messages ≡ none
unfolding check_messages
check_messages_complete pending [] u ((unique, same), rounds) =
    rw (nil_of_contains pending same) refl
check_messages_complete pending (assistant ids ∷ messages) u
      ((unique, same), (distinct, settled, rounds)) =
    rw
      (
        nil_of_contains pending same,
        (all_distinct_iff ids).1 distinct,
        check_messages_complete ids messages distinct (settled, rounds),
      )
      refl
check_messages_complete pending (tool id ∷ messages) u ((unique, same), rounds) =
    let here : contains id pending ≡ true = ground (arith, same id, eq_self id) in
    let rest = check_messages_complete (erase id pending) messages (Unique-erase id pending u) (
      (
        unique.1,
        λ j. ground (
          arith,
          same j,
          contains-erase id j pending u,
          string_eq.beq_iff id j,
          string_eq.beq_iff j id,
          unique.0,
        ),
      ),
      rounds,
    ) in
    rw (here, rest) refl
check_messages_complete pending (other ∷ messages) u a =
    check_messages_complete pending messages u a

-- A message history passes the check exactly when nothing is answered before the first call, and
-- every message of the assistant has distinct calls that the tool messages up to the next one
-- answer, each once and in any order.
pub check_messages_iff :
    (messages : List Message) → (check_messages [] messages ≡ none) ↔ Accepts [] messages
check_messages_iff messages =
    (check_messages_sound [] messages tt, check_messages_complete [] messages tt)

-- A counter that is a number, not below zero, within its limit.
abbrev pub Within : ℤ → ℤ → Type 0
Within n limit = (count : ℕ) × (most : ℕ) × (n ≡ pos count) × (limit ≡ pos most) × (count ≤ most)

-- What a run that may be resumed satisfies.
pub record Resumable (run : AgentRun) : Type 0 where
  pub complete : run.boundary_complete ≡ true
  pub running : is_terminal run.phase ≡ false
  pub iterations : Within run.iteration run.max_iterations
  pub tools : Within run.tool_calls_used run.max_tool_calls
  pub tests : Within run.test_runs run.max_test_runs
  pub model_calls :
      (rounds : ℕ) × (summaries : ℕ) × (run.iteration ≡ pos rounds)
      × (run.summary_calls ≡ some (pos summaries))
      × (run.metrics_model_calls ≡ pos (rounds + summaries))
  pub tool_metrics : run.metrics_tool_calls ≡ run.tool_calls_used
  pub tool_log : run.tool_calls_used ≡ pos (length run.tool_calls)
  pub test_log : run.test_runs ≡ pos (length run.test_results)
  pub history : Accepts [] run.messages

within_limit_iff : (n limit : ℤ) → (within_limit n limit ≡ true) ↔ Within n limit
within_limit_iff (pos n) (pos limit) = (
  λ h. (n, limit, refl, refl, ground (arith, h)),
  λ (count, most, e, f, le). ground (arith, e, f, le),
)
within_limit_iff (pos n) (negsuc limit) =
    (λ h. absurd (ground (arith, h)), λ (count, most, e, f, le). absurd (ground (arith, f)))
within_limit_iff (negsuc n) limit =
    (λ h. absurd (ground (arith, h)), λ (count, most, e, f, le). absurd (ground (arith, e)))

summaries_sound :
    (run : AgentRun) (o : Option ℤ) (rounds : ℕ)
    → run.iteration ≡ pos rounds
    → run.summary_calls ≡ o
    → summary_ok run ≡ true
    → run.metrics_model_calls ≡ run.iteration +ℤ summary_of run
    → (summaries : ℕ) × (o ≡ some (pos summaries))
      × (run.metrics_model_calls ≡ pos (rounds + summaries))
summaries_sound run none rounds i e h m = absurd (ground (arith, (rw (e) at h)))
summaries_sound run (some n) rounds i e h m =
    let (summaries, most, same, limit, le) =
      (within_limit_iff n run.metrics_model_calls).0 (rw (e) at h) in
    (summaries, ap some same, m ∙ rw (e, i, same) (ground arith))

-- A guard that raises, where nothing is raised.
guard_none :
    (b : Bool) (e : ResumeError) (rest : Option ResumeError)
    → (if b then some e else rest) ≡ none
    → (b ≡ false) × (rest ≡ none)
guard_none b e rest h = ground arith

validate_resume_sound : (run : AgentRun) → validate_resume run ≡ none → Resumable run
unfolding validate_resume
validate_resume_sound run h =
    let (whole, h1) = guard_none _ _ _ h in
    let (running, h2) = guard_none _ _ _ h1 in
    let (limits, h3) = guard_none _ _ _ h2 in
    let (summary, h4) = guard_none _ _ _ h3 in
    let (metrics, h5) = guard_none _ _ _ h4 in
    let (tool_log, h6) = guard_none _ _ _ h5 in
    let (test_log, history) = guard_none _ _ _ h6 in
    let (two_limits, tests) = and_true _ _ (not-false _ limits) in
    let (iterations, tools) = and_true _ _ two_limits in
    let (tool_metrics, model_metrics) = or_false _ _ metrics in
    let within = (within_limit_iff run.iteration run.max_iterations).0 iterations in
    let (rounds, most, i, limit, le) = within in
    let (summaries, saved, agree) =
      summaries_sound run run.summary_calls rounds i refl (not-false _ summary) (
        eq→≡ run.metrics_model_calls (run.iteration +ℤ summary_of run)
          (not-false _ model_metrics)) in
    record {
      complete = not-false _ whole;
      running = running;
      iterations = within;
      tools = (within_limit_iff run.tool_calls_used run.max_tool_calls).0 tools;
      tests = (within_limit_iff run.test_runs run.max_test_runs).0 tests;
      model_calls = (rounds, summaries, i, saved, agree);
      tool_metrics = eq→≡ run.metrics_tool_calls run.tool_calls_used (not-false _ tool_metrics);
      tool_log =
          sym (eq→≡ (pos (length run.tool_calls)) run.tool_calls_used (not-false _ tool_log));
      test_log = sym (eq→≡ (pos (length run.test_results)) run.test_runs (not-false _ test_log));
      history = (check_messages_iff run.messages).0 history;
    }

validate_resume_complete : (run : AgentRun) → Resumable run → validate_resume run ≡ none
unfolding validate_resume
validate_resume_complete run r =
    let (rounds, summaries, i, saved, agree) = r.model_calls in
    let history = (check_messages_iff run.messages).1 r.history in
    let iterations = (within_limit_iff run.iteration run.max_iterations).1 r.iterations in
    let tools = (within_limit_iff run.tool_calls_used run.max_tool_calls).1 r.tools in
    let tests = (within_limit_iff run.test_runs run.max_test_runs).1 r.tests in
    rw (r.complete, r.running, iterations, tools, tests, saved, r.tool_metrics, agree, history)
      (ground (arith, i, r.tool_log, r.test_log))

-- A saved run may go on exactly when its last round is complete, it is in no terminal phase, its
-- counters are not below zero and within their limits, its metrics and logs agree with its counters
-- (the model calls are the iterations and the summaries, neither below zero), and its messages
-- are whole rounds.
pub validate_resume_iff : (run : AgentRun) → (validate_resume run ≡ none) ↔ Resumable run
validate_resume_iff run = (validate_resume_sound run, validate_resume_complete run)
