-- ===== src/Scheduler/Turn/Fixes.antt =====
-- How the loop of fixes of src/local_coder/orchestrator/coordinator.py ends.
use local_coding_agent.Base.{
  ℕ, zero, suc, ◌+◌, ◌≤◌, ◌<◌, ◌≡◌, ◌≢◌, ◌⊎◌, inl, inr, refl, sym, ap, subst, ◌∙◌, String,
  string_eq, nat_eq, pair_eq, Bool, true, false, ◌&&◌, Option, none, some, if◌then◌else◌, ltb,
  arith, Bool-cases, Option-cases,
}
use local_coding_agent.Base.Dict.{lookup}
use local_coding_agent.Scheduler.Dag.{AgentResponse, is_failed}
use local_coding_agent.Scheduler.Turn.{
  Key, Checkpoint, answered, Ran, Phase, return, ◌>>=◌, raise_if_blocked, text_kind, plan_kind,
  response_kind, resumable, Agents, Finished, Settings, execute, after_fix, fix_loop, verified,
  verify, full_run, read_run, is_missing, run,
}
use local_coding_agent.Scheduler.Turn.Replay.{IsWithin, Replays, answered_injective}
use local_coding_agent.Scheduler.Turn.Resume.{after_fix-Replays, fix_loop-Replays}
use local_coding_agent.Scheduler.Turn.Answers.{
  bind-answered, blocked-answered, resumable-saved, bind-elim, blocked-elim,
}

-- How the loop has ended: the tests pass, the last fix failed, or every fix that was left has been
-- made and saved.
abbrev pub HasEnded : Checkpoint → ℕ → ℕ → AgentResponse × Option AgentResponse → Type 0
HasEnded c fixes left found =
    (found.0.tests_passed ≡ true)
    ⊎ ((fix : AgentResponse) × (found.1 ≡ some fix) × (is_failed fix.status ≡ true))
    ⊎ ((i : ℕ) → fixes ≤ i → i < fixes + left → lookup ("fix", i) c ≢ none)

HasEnded-suc :
    (c : Checkpoint) (fixes left : ℕ) (found : AgentResponse × Option AgentResponse)
    → lookup ("fix", fixes) c ≢ none
    → HasEnded c (fixes + 1) left found
    → HasEnded c fixes (suc left) found
HasEnded-suc c fixes left found here (inl passed) = inl passed
HasEnded-suc c fixes left found here (inr (inl failed)) = inr (inl failed)
HasEnded-suc c fixes left found here (inr (inr all)) = inr (
    inr (λ i low high. elim (Bool-cases (ltb fixes i)) [
      | inl more ↦ all i (ground (arith, more)) (omega (arith, high))
      | inr same ↦ subst (λ n. lookup ("fix", n) c ≢ none) (ground (arith, same, low)) here
    ]))

IsWithin-present :
    (c d : Checkpoint) (key : Key) → IsWithin c d → lookup key c ≢ none → lookup key d ≢ none
IsWithin-present c d key within here gone = elim (Option-cases (lookup key c)) [
  | inl missing ↦ here missing
  | inr (saved, found) ↦ ground (arith, gone, within key saved found)
]

module _ {W : Type 0} (agents : Agents W) where
  -- The rest of the loop keeps what is claimed of its end.
  abbrev Ends : ℕ → ℕ → (AgentResponse → Phase W (AgentResponse × Option AgentResponse)) → Type 0
  Ends fixes left more =
      (again : AgentResponse) (c : Checkpoint) (w : W)
      (found : AgentResponse × Option AgentResponse)
      → (more again c w).outcome ≡ answered found
      → HasEnded (more again c w).checkpoint fixes left found

  after_fix_lem :
      (fixes left : ℕ) (test fix : AgentResponse)
      (more : AgentResponse → Phase W (AgentResponse × Option AgentResponse)) (failed : Bool)
      (c : Checkpoint) (w : W) (found : AgentResponse × Option AgentResponse)
      → is_failed fix.status ≡ failed
      → Ends (fixes + 1) left more
      → lookup ("fix", fixes) (after_fix agents fixes test fix more failed c w).checkpoint ≢ none
      → (after_fix agents fixes test fix more failed c w).outcome ≡ answered found
      → HasEnded (after_fix agents fixes test fix more failed c w).checkpoint fixes (suc left) found
  after_fix_lem fixes left test fix more true c w found e rest here h = inr (
      inl (
        fix,
        sym (
            ap (λ (x : AgentResponse × Option AgentResponse). x.1)
              (answered_injective (test, some fix) found h)),
        e,
      ))
  after_fix_lem fixes left test fix more false c w found e rest here h =
      let tests : Phase W AgentResponse =
        resumable response_kind ("tests", fixes + 1) agents.run_tests in
      let (again, ran, s1) =
        bind-answered tests (λ again. raise_if_blocked again >>= (λ _. more again)) c w found h in
      let c1 : Checkpoint = (tests c w).checkpoint in
      let w1 : W = (tests c w).world in
      let h1 : ((raise_if_blocked again >>= (λ _. more again)) c1 w1).outcome ≡ answered found =
        sym (ap (λ r. r.outcome) s1) ∙ h in
      let s2 = blocked-answered again (more again) c1 w1 found h1 in
      let same : after_fix agents fixes test fix more false c w ≡ more again c1 w1 = s1 ∙ s2 in
      HasEnded-suc _ fixes left found here (
        subst
          (λ (r : Ran W (AgentResponse × Option AgentResponse)).
            HasEnded r.checkpoint (fixes + 1) left found)
          (sym same) (rest again c1 w1 found (sym (ap (λ r. r.outcome) same) ∙ h)))

  fix_step :
      (left fixes : ℕ) (test : AgentResponse) (last : Option AgentResponse) (c : Checkpoint) (w : W)
      (found : AgentResponse × Option AgentResponse)
      (more : AgentResponse → AgentResponse → Phase W (AgentResponse × Option AgentResponse))
      (passes : Bool)
      → test.tests_passed ≡ passes
      → ((fix : AgentResponse) → Ends (fixes + 1) left (more fix))
      → ((fix again : AgentResponse) → Replays (more fix again))
      → let m : Phase W (AgentResponse × Option AgentResponse) =
          if passes
          then return (test, last)
          else (resumable response_kind ("fix", fixes) (agents.fix_failures test (ltb 0 fixes))
              >>= (λ fix.
                  raise_if_blocked fix
                  >>= (λ _. after_fix agents fixes test fix (more fix) (is_failed fix.status)))) in
        (m c w).outcome ≡ answered found → HasEnded (m c w).checkpoint fixes (suc left) found
  fix_step left fixes test last c w found more true e rest replays h = inl (
      sym (
        ap (λ (x : AgentResponse × Option AgentResponse). x.0.tests_passed)
          (answered_injective (test, last) found h))
      ∙ e)
  fix_step left fixes test last c w found more false e rest replays h =
      let attempt : Phase W AgentResponse =
        resumable response_kind ("fix", fixes) (agents.fix_failures test (ltb 0 fixes)) in
      let after : AgentResponse → Phase W (AgentResponse × Option AgentResponse) =
        λ fix. after_fix agents fixes test fix (more fix) (is_failed fix.status) in
      let (fix, ran, s1) =
        bind-answered attempt (λ fix. raise_if_blocked fix >>= (λ _. after fix)) c w found h in
      let c1 : Checkpoint = (attempt c w).checkpoint in
      let w1 : W = (attempt c w).world in
      let h1 : ((raise_if_blocked fix >>= (λ _. after fix)) c1 w1).outcome ≡ answered found =
        sym (ap (λ r. r.outcome) s1) ∙ h in
      let s2 = blocked-answered fix (after fix) c1 w1 found h1 in
      let h2 : (after fix c1 w1).outcome ≡ answered found = sym (ap (λ r. r.outcome) s2) ∙ h1 in
      let grown =
        (after_fix-Replays agents fixes test fix (more fix) (is_failed fix.status) (replays fix) c1
          w1 found h2).grown in
      let here : lookup ("fix", fixes) (after fix c1 w1).checkpoint ≢ none =
        IsWithin-present c1 (after fix c1 w1).checkpoint ("fix", fixes) grown
          (resumable-saved response_kind ("fix", fixes) (agents.fix_failures test (ltb 0 fixes)) c w
            fix ran) in
      subst
        (λ (r : Ran W (AgentResponse × Option AgentResponse)).
          HasEnded r.checkpoint fixes (suc left) found)
        (sym (s1 ∙ s2))
        (after_fix_lem fixes left test fix (more fix) (is_failed fix.status) c1 w1 found refl
          (rest fix) here h2)

  fix_loop_lem :
      (left fixes : ℕ) (test : AgentResponse) (last : Option AgentResponse) (c : Checkpoint) (w : W)
      (found : AgentResponse × Option AgentResponse)
      → (fix_loop agents left fixes test last c w).outcome ≡ answered found
      → HasEnded (fix_loop agents left fixes test last c w).checkpoint fixes left found
  unfolding fix_loop
  fix_loop_lem zero fixes test last c w found h =
      inr (inr (λ i low high. absurd (omega (arith, low, high))))
  fix_loop_lem (suc left) fixes test last c w found h =
      let more : AgentResponse → AgentResponse → Phase W (AgentResponse × Option AgentResponse) =
        λ fix again. fix_loop agents left (fixes + 1) again (some fix) in
      fix_step left fixes test last c w found more test.tests_passed refl
        (λ fix again d v other e. fix_loop_lem left (fixes + 1) again (some fix) d v other e)
        (λ fix again. fix_loop-Replays agents left (fixes + 1) again (some fix)) h

  -- What the end of a run says of its tests.
  abbrev pub HasTested : ℕ → Finished → Ran W Finished → Type 0
  HasTested max_fixes done r =
      (test : AgentResponse) × (done.test_result ≡ some test)
      × HasEnded r.checkpoint 0 max_fixes (test, done.last_fix_result)

  verified-HasTested :
      (max_fixes : ℕ) (test result : AgentResponse) (review : String) (c : Checkpoint) (w : W)
      (done : Finished)
      → ((fix_loop agents max_fixes 0 test none >>= verified agents result review) c w).outcome
        ≡ answered done
      → HasTested max_fixes done
          ((fix_loop agents max_fixes 0 test none >>= verified agents result review) c w)
  verified-HasTested max_fixes test result review c w done h =
      let loop : Phase W (AgentResponse × Option AgentResponse) =
        fix_loop agents max_fixes 0 test none in
      let (found, ran, same) = bind-answered loop (verified agents result review) c w done h in
      let written =
        answered_injective
          (record {
            result = result;
            review = some review;
            test_result = some found.0;
            last_fix_result = found.1;
          })
          done (sym (ap (λ r. r.outcome) same) ∙ h) in
      subst (HasTested max_fixes done) (sym same) (
        subst
          (λ (d : Finished).
            HasTested max_fixes d
              (verified agents result review found (loop c w).checkpoint (loop c w).world))
          written (found.0, refl, fix_loop_lem max_fixes 0 test none c w found ran))

  verify-HasTested :
      (tests : Bool) (max_fixes : ℕ) (result : AgentResponse) (review : String) (c : Checkpoint)
      (w : W) (done : Finished)
      → tests ≡ true
      → (verify agents tests max_fixes result review c w).outcome ≡ answered done
      → HasTested max_fixes done (verify agents tests max_fixes result review c w)
  verify-HasTested false max_fixes result review c w done e h = absurd (ground arith)
  verify-HasTested true max_fixes result review c w done e h =
      bind-elim (resumable response_kind ("tests", 0) agents.run_tests)
        (λ test.
          raise_if_blocked test
          >>= (λ _. fix_loop agents max_fixes 0 test none >>= verified agents result review))
        c w done (HasTested max_fixes done)
        (λ test d v e.
          blocked-elim test
            (fix_loop agents max_fixes 0 test none >>= verified agents result review) d v done
            (HasTested max_fixes done) (verified-HasTested max_fixes test result review d v done) e)
        h

  full_run-HasTested :
      (settings : Settings) (c : Checkpoint) (w : W) (done : Finished)
      → settings.run_tests_after_changes ≡ true
      → (full_run agents settings c w).outcome ≡ answered done
      → HasTested settings.max_fix_iterations done (full_run agents settings c w)
  unfolding full_run
  full_run-HasTested settings c w done tests h =
      let P : Ran W Finished → Type 0 = HasTested settings.max_fix_iterations done in
      bind-elim (resumable text_kind ("explore", 0) agents.explore) _ c w done P
        (λ exploration c w h.
          bind-elim (resumable plan_kind ("plan", 0) (agents.plan exploration)) _ c w done P
            (λ plan c w h.
              bind-elim (resumable response_kind ("execute", 0) (execute agents plan exploration)) _
                c w done P
                (λ result c w h.
                  blocked-elim result _ c w done P
                    (λ h.
                      bind-elim (resumable text_kind ("review", 0) (agents.review result))
                        (λ review.
                          verify agents settings.run_tests_after_changes settings.max_fix_iterations
                            result review)
                        c w done P
                        (λ review c w h.
                          verify-HasTested settings.run_tests_after_changes
                            settings.max_fix_iterations result review c w done tests h)
                        h)
                    h)
                h)
            h)
        h

  -- A full run with tests that has finished has a test result, and it passes, or the last fix failed,
  -- or as many fixes as the settings allow have been made and are saved, each under its number.
  pub run-HasTested :
      (settings : Settings) (c : Checkpoint) (w : W) (done : Finished)
      → settings.run_tests_after_changes ≡ true
      → settings.routes_read ≡ false
      → (run agents settings c w).outcome ≡ answered done
      → HasTested settings.max_fix_iterations done (run agents settings c w)
  unfolding run
  run-HasTested settings c w done tests reads h =
      let full : run agents settings c w ≡ full_run agents settings c w =
        ap
          (λ b.
            if b && is_missing (lookup ("plan", 0) c)
            then read_run agents c w
            else full_run agents settings c w)
          reads in
      subst (HasTested settings.max_fix_iterations done) (sym full)
        (full_run-HasTested settings c w done tests (sym (ap (λ r. r.outcome) full) ∙ h))
