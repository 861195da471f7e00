-- ===== src/Scheduler/Turn/Resume.antt =====
-- A run of src/local_coder/orchestrator/coordinator.py that is started again from its checkpoint.
use local_coding_agent.Base.{
  ℕ, zero, suc, ◌+◌, ◌≡◌, inl, inr, refl, ap, ◌∙◌, String, string_eq, nat_eq, pair_eq, Bool, true,
  false, ◌&&◌, Option, none, some, if◌then◌else◌, ltb, arith, Bool-cases,
}
use local_coding_agent.Base.Dict.{lookup}
use local_coding_agent.Scheduler.Dag.{AgentResponse, is_failed}
use local_coding_agent.Scheduler.Turn.{
  Saved, Checkpoint, answered, Ran, Phase, return, ◌>>=◌, raise_if_blocked, text_kind, plan_kind,
  response_kind, resumable, Agents, Finished, Settings, execute, after_fix, fix_loop, verified,
  verify, full_run, read_run, is_missing, run,
}
use local_coding_agent.Scheduler.Turn.Replay.{
  IsWithin, Replays, Leaves, return-Replays, bind-Replays, raise_if_blocked-Replays,
  resumable-Replays, bind-Leaves, resumable-Leaves, raise_if_blocked-Leaves, text_IsRead,
  plan_IsRead, response_IsRead,
}

module _ {W : Type 0} (agents : Agents W) where
  blocked-Replays :
      {A : Type 0} (response : AgentResponse) (m : Phase W A)
      → Replays m
      → Replays (raise_if_blocked response >>= (λ _. m))
  blocked-Replays response m p =
      bind-Replays (raise_if_blocked response) (λ _. m) (raise_if_blocked-Replays response) (λ _. p)

  pub after_fix-Replays :
      (fixes : ℕ) (test fix : AgentResponse)
      (more : AgentResponse → Phase W (AgentResponse × Option AgentResponse)) (failed : Bool)
      → ((again : AgentResponse) → Replays (more again))
      → Replays (after_fix agents fixes test fix more failed)
  after_fix-Replays fixes test fix more true p = return-Replays (test, some fix)
  after_fix-Replays fixes test fix more false p =
      bind-Replays (resumable response_kind ("tests", fixes + 1) agents.run_tests)
        (λ again. raise_if_blocked again >>= (λ _. more again))
        (resumable-Replays response_kind ("tests", fixes + 1) agents.run_tests response_IsRead)
        (λ again. blocked-Replays again (more again) (p again))

  if-Replays :
      {A : Type 0} (b : Bool) (m n : Phase W A)
      → Replays m
      → Replays n
      → Replays (if b then m else n)
  if-Replays true m n p q = p
  if-Replays false m n p q = q

  pub fix_loop-Replays :
      (left fixes : ℕ) (test : AgentResponse) (last : Option AgentResponse)
      → Replays (fix_loop agents left fixes test last)
  unfolding fix_loop
  fix_loop-Replays zero fixes test last = return-Replays (test, last)
  fix_loop-Replays (suc left) fixes test last =
      let rest : AgentResponse → Phase W (AgentResponse × Option AgentResponse) = λ fix.
        after_fix agents fixes test fix (λ again. fix_loop agents left (fixes + 1) again (some fix))
          (is_failed fix.status) in
      if-Replays test.tests_passed (return (test, last)) _ (return-Replays (test, last)) (
        bind-Replays
          (resumable response_kind ("fix", fixes) (agents.fix_failures test (ltb 0 fixes)))
          (λ fix. raise_if_blocked fix >>= (λ _. rest fix))
          (resumable-Replays response_kind ("fix", fixes) (agents.fix_failures test (ltb 0 fixes))
            response_IsRead)
          (λ fix. blocked-Replays fix (rest fix) (
            after_fix-Replays fixes test fix
              (λ again. fix_loop agents left (fixes + 1) again (some fix)) (is_failed fix.status)
              (λ again. fix_loop-Replays left (fixes + 1) again (some fix)))))

  verify-Replays :
      (tests : Bool) (max_fixes : ℕ) (result : AgentResponse) (review : String)
      → Replays (verify agents tests max_fixes result review)
  verify-Replays false max_fixes result review =
      return-Replays (record {
        result = result;
        review = some review;
        test_result = none;
        last_fix_result = none;
      })
  verify-Replays true max_fixes result review =
      bind-Replays (resumable response_kind ("tests", 0) agents.run_tests)
        (λ test.
          raise_if_blocked test
          >>= (λ _. fix_loop agents max_fixes 0 test none >>= verified agents result review))
        (resumable-Replays response_kind ("tests", 0) agents.run_tests response_IsRead)
        (λ test.
          blocked-Replays test
            (fix_loop agents max_fixes 0 test none >>= verified agents result review)
            (bind-Replays (fix_loop agents max_fixes 0 test none) (verified agents result review)
              (fix_loop-Replays max_fixes 0 test none)
              (λ found. return-Replays (record {
                result = result;
                review = some review;
                test_result = some found.0;
                last_fix_result = found.1;
              }))))

  full_run-Replays : (settings : Settings) → Replays (full_run agents settings)
  unfolding full_run
  full_run-Replays settings =
      bind-Replays (resumable text_kind ("explore", 0) agents.explore) _
        (resumable-Replays text_kind ("explore", 0) agents.explore text_IsRead)
        (λ exploration.
          bind-Replays (resumable plan_kind ("plan", 0) (agents.plan exploration)) _
            (resumable-Replays plan_kind ("plan", 0) (agents.plan exploration) plan_IsRead)
            (λ plan.
              bind-Replays
                (resumable response_kind ("execute", 0) (execute agents plan exploration)) _
                (resumable-Replays response_kind ("execute", 0) (execute agents plan exploration)
                  response_IsRead)
                (λ result. blocked-Replays result _ (
                  bind-Replays (resumable text_kind ("review", 0) (agents.review result))
                    (λ review.
                      verify agents settings.run_tests_after_changes settings.max_fix_iterations
                        result review)
                    (resumable-Replays text_kind ("review", 0) (agents.review result) text_IsRead)
                    (λ review.
                      verify-Replays settings.run_tests_after_changes settings.max_fix_iterations
                        result review)))))

  read_run-Replays : Replays (read_run agents)
  unfolding read_run
  read_run-Replays =
      bind-Replays (resumable response_kind ("economy_read", 0) agents.execute_routed_read) _
        (resumable-Replays response_kind ("economy_read", 0) agents.execute_routed_read
          response_IsRead)
        (λ response. blocked-Replays response _ (
          return-Replays (record {
            result = response;
            review = none;
            test_result = none;
            last_fix_result = none;
          })))

  still_full :
      (reads : Bool) (before after : Option Saved)
      → (reads && is_missing before) ≡ false
      → ((saved : Saved) → before ≡ some saved → after ≡ some saved)
      → (reads && is_missing after) ≡ false
  still_full false before after way grown = refl
  still_full true none after way grown = absurd (ground arith)
  still_full true (some saved) after way grown = ap is_missing (grown saved refl)

  read_run_plan : Leaves ("plan", 0) (read_run agents)
  unfolding read_run
  read_run_plan =
      bind-Leaves ("plan", 0)
        (resumable response_kind ("economy_read", 0) agents.execute_routed_read) _
        (resumable-Leaves ("plan", 0) response_kind ("economy_read", 0) agents.execute_routed_read
          refl)
        (λ response.
          bind-Leaves ("plan", 0) (raise_if_blocked response) _
            (raise_if_blocked-Leaves ("plan", 0) response) (λ u c w. refl))

  -- Where the resumed run goes the same way, it answers the same.
  resume_full :
      (settings : Settings) (c : Checkpoint) (w : W) (done : Finished)
      → (settings.routes_read && is_missing (lookup ("plan", 0) c)) ≡ false
      → (full_run agents settings c w).outcome ≡ answered done
      → (v : W)
      → IsWithin c (full_run agents settings c w).checkpoint
        × (run agents settings (full_run agents settings c w).checkpoint v ≡ record {
          checkpoint = (full_run agents settings c w).checkpoint;
          world = v;
          outcome = answered done;
        })
  unfolding run
  resume_full settings c w done way h v =
      let replay = full_run-Replays settings c w done h in
      let r : Ran W Finished = full_run agents settings c w in
      let same_way : (settings.routes_read && is_missing (lookup ("plan", 0) r.checkpoint))
          ≡ false =
        still_full settings.routes_read (lookup ("plan", 0) c) (lookup ("plan", 0) r.checkpoint) way
          (replay.grown ("plan", 0)) in
      (replay.grown, rw (same_way) (replay.again r.checkpoint v (λ key saved s. s)))

  resume_read :
      (settings : Settings) (c : Checkpoint) (w : W) (done : Finished)
      → (settings.routes_read && is_missing (lookup ("plan", 0) c)) ≡ true
      → (read_run agents c w).outcome ≡ answered done
      → (v : W)
      → IsWithin c (read_run agents c w).checkpoint
        × (run agents settings (read_run agents c w).checkpoint v ≡ record {
          checkpoint = (read_run agents c w).checkpoint;
          world = v;
          outcome = answered done;
        })
  unfolding run
  resume_read settings c w done way h v =
      let replay = read_run-Replays c w done h in
      let r : Ran W Finished = read_run agents c w in
      let same_way : (settings.routes_read && is_missing (lookup ("plan", 0) r.checkpoint)) ≡ true =
        ap (λ o. settings.routes_read && is_missing o) (read_run_plan c w) ∙ way in
      (replay.grown, rw (same_way) (replay.again r.checkpoint v (λ key saved s. s)))

  -- A run that has finished only adds to its checkpoint; and started again from the checkpoint, in
  -- whatever state of the world, it calls no agent: it leaves the world and the checkpoint as they
  -- are and comes to the same end.
  pub run-resume :
      (settings : Settings) (c : Checkpoint) (w v : W) (done : Finished)
      → (run agents settings c w).outcome ≡ answered done
      → let first = run agents settings c w in
        IsWithin c first.checkpoint
        × (run agents settings first.checkpoint v
            ≡ record { checkpoint = first.checkpoint; world = v; outcome = answered done })
  unfolding run
  run-resume settings c w v done h =
      elim (Bool-cases (settings.routes_read && is_missing (lookup ("plan", 0) c))) [
        | inl reads ↦ rw (reads) (resume_read settings c w done reads (rw (reads) at h) v)
        | inr full ↦ rw (full) (resume_full settings c w done full (rw (full) at h) v)
      ]
