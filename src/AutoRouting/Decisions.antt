-- ===== src/AutoRouting/Decisions.antt =====
-- When `classify_task` of src/local_coder/models/auto_routing.py decides for the economy model, or
-- lets the classifier decide.
use local_coding_agent.Base.{
  ◌+◌, ◌≤◌, ◌≡◌, ◌⊎◌, inl, inr, refl, subst, ◌∙◌, String, string_eq, nat_eq, Bool, true, false,
  ◌&&◌, List, [], ◌∷◌, ltb, ltb→le, ◌==◌, contains, length, drop, arith, Bool-cases, eq→≡, or_false,
  not-false,
}
use local_coding_agent.AutoRouting.{
  Text, economy, selected, RoutingDecision, Seen, Task, Patterns, parts_of, allowance, names_model,
  isascii, first_reason, decision, refusals, narrow, classify_task, fingerprint,
}
use local_coding_agent.AutoRouting.Prompt.{joined, fingerprint_lem, take_all}

-- The decision is for economy, or may become so.
abbrev pub MayBeEconomy : RoutingDecision → Type 0
MayBeEconomy d = (d.tier ≡ economy) ⊎ (d.classifier_eligible ≡ true)

abbrev NonePasses : List (Bool × String) → Type 0
NonePasses [] = Unit
NonePasses ((test, reason) ∷ tests) = (test ≡ false) × NonePasses tests

first_reason_inversion :
    (digest : String) (tests : List (Bool × String)) (rest : RoutingDecision)
    → MayBeEconomy (first_reason tests (λ reason. decision digest reason selected false) rest)
    → NonePasses tests
      × (first_reason tests (λ reason. decision digest reason selected false) rest ≡ rest)
first_reason_inversion digest [] rest h = (tt, refl)
first_reason_inversion digest ((true, reason) ∷ tests) rest h = absurd (ground arith)
first_reason_inversion digest ((false, reason) ∷ tests) rest h =
    let (none_passes, same) = first_reason_inversion digest tests rest h in
    ((refl, none_passes), same)

module _ (digest_of : List Text → String) (strip : Text → Text) (patterns : Patterns) where
  -- A request that is safe for the economy model, as the source's words have it.
  pub record IsCheap (task : Task) (role mode : String) (explicit retry : Bool) : Type 0 where
    pub no_model : (explicit ≡ false) × (names_model task.model_name ≡ false)
    pub first_try : retry ≡ false
    pub coding : mode ≡ "coding"
    pub plain_role : (role ≡ "explorer") ⊎ (role ≡ "coder")
    pub short : (length (joined (parts_of task)) ≤ allowance) × (length task.objective ≤ 300)
    pub no_risk : patterns.risk (joined (parts_of task)) ≡ false
    pub trusted :
        (isascii (joined (parts_of task)) ≡ true)
        × (patterns.instruction (joined (parts_of task)) ≡ false)
    pub simple : (patterns.complex (joined (parts_of task)) ≡ false) × (length task.files ≤ 1)
    pub recognised :
        ((role ≡ "coder") × (patterns.small_doc (strip task.objective) ≡ true))
        ⊎ ((patterns.edit task.objective ≡ false)
            × ((patterns.narrow_read (strip task.objective) ≡ true)
                ⊎ (patterns.read (strip task.objective) ≡ true)))
    pub no_edit : patterns.edit (drop (length task.objective + 1) (joined (parts_of task))) ≡ false

  narrow_lem :
      (task : Task) (role digest : String)
      → MayBeEconomy (narrow digest_of strip patterns task role digest)
      → ((role ≡ "coder") × (patterns.small_doc (strip task.objective) ≡ true))
        ⊎ ((patterns.edit task.objective ≡ false)
            × ((patterns.narrow_read (strip task.objective) ≡ true)
                ⊎ (patterns.read (strip task.objective) ≡ true)))
  narrow_lem task role digest h =
      elim (Bool-cases (role == "coder" && patterns.small_doc (strip task.objective))) [
        | inl doc ↦ inl (eq→≡ role "coder" (ground (arith, doc)), ground (arith, doc))
        | inr no_doc ↦ ground (arith, no_doc, h)
      ]

  plain_role_of :
      (role : String)
      → contains role ("explorer" ∷ "coder" ∷ []) ≡ true
      → (role ≡ "explorer") ⊎ (role ≡ "coder")
  plain_role_of role h = elim (Bool-cases (role == "explorer")) [
    | inl e ↦ inl (eq→≡ role "explorer" e)
    | inr n ↦ inr (eq→≡ role "coder" (ground (arith, n, h)))
  ]

  -- The classifier is asked only, and economy is chosen only, for a first try in coding mode of an
  -- explorer or a coder, where no model is named, the objective and the prompt are short, at most one
  -- file is named, and the whole prompt, not only the part of it that is kept, is ASCII text in which
  -- no pattern of risk, instruction or complexity is found, and none of editing behind the objective;
  -- and the objective is a small correction of a document by a coder, or a request to read.
  pub classify_task_lem :
      (task : Task) (role mode : String) (explicit retry : Bool)
      → MayBeEconomy (classify_task digest_of strip patterns task role mode explicit retry)
      → IsCheap task role mode explicit retry
  unfolding classify_task
  classify_task_lem task role mode explicit retry h =
      let seen : Seen = fingerprint (parts_of task) in
      let (passed, same) =
        first_reason_inversion (digest_of (parts_of task))
          (refusals digest_of strip patterns task seen role mode explicit retry)
          (narrow digest_of strip patterns task role (digest_of (parts_of task))) h in
      let prompt : Text = joined (parts_of task) in
      let (kept, counted) = fingerprint_lem (parts_of task) in
      let (p1, (p2, (p3, (p4, (p5, (p6, (p7, (p8, (p9, done))))))))) = passed in
      let (long, long_objective) = or_false _ _ p5 in
      let (blank, long_prompt) = or_false _ (ltb allowance seen.count) long in
      let short : length prompt ≤ allowance =
        subst (λ n. n ≤ allowance) counted (ltb→le allowance seen.count long_prompt) in
      let all_seen : seen.retained ≡ prompt = kept ∙ take_all allowance prompt short in
      let (other_mode, other_role) = or_false _ _ p4 in
      let (foreign, instructed) = or_false _ _ p7 in
      let (complex, many) = or_false _ _ p8 in
      record {
        no_model = or_false explicit (names_model task.model_name) p1;
        first_try = p2;
        coding = eq→≡ mode "coding" (not-false (mode == "coding") other_mode);
        plain_role =
            plain_role_of role (not-false (contains role ("explorer" ∷ "coder" ∷ [])) other_role);
        short = (short, ltb→le 300 (length task.objective) long_objective);
        no_risk = subst (λ p. patterns.risk p ≡ false) all_seen p6;
        trusted = (
          subst (λ p. isascii p ≡ true) all_seen (not-false (isascii seen.retained) foreign),
          subst (λ p. patterns.instruction p ≡ false) all_seen instructed,
        );
        simple = (
          subst (λ p. patterns.complex p ≡ false) all_seen complex,
          ltb→le 1 (length task.files) many,
        );
        recognised = narrow_lem task role (digest_of (parts_of task)) (subst MayBeEconomy same h);
        no_edit =
            subst (λ p. patterns.edit (drop (length task.objective + 1) p) ≡ false) all_seen
              (or_false _ _ p9).0;
      }
