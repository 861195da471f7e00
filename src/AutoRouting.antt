-- ===== src/AutoRouting.antt =====
-- src/local_coder/models/auto_routing.py: which requests may run on the economy model. A text is the
-- list of its code points. What a task holds besides its objective is given as the texts that
-- `_values` makes of it; the digest of the prompt, the regular expressions, `strip` and the JSON
-- parser are parameters.
pub mod Prompt
pub mod Decisions
pub mod Classifier
use local_coding_agent.Base.{
  ℕ, ◌+◌, ◌-◌, String, string_eq, nat_eq, Bool, true, false, not, ◌&&◌, ◌||◌, Option, none, some,
  List, [], ◌∷◌, ◌++◌, if◌then◌else◌, ltb, leb, ◌==◌, contains, all, any, length, take, drop,
}
use local_coding_agent.Base.Dict.{Dict, lookup, insert, keys}

abbrev pub Text : Type 0
Text = List ℕ

pub data Tier : Type 0 where
  economy selected : Tier

pub record RoutingDecision : Type 0 where
  pub tier : Tier
  pub reason : String
  pub source : String
  pub classifier_eligible : Bool
  pub prompt_digest : String

abbrev pub allowance : ℕ
allowance = 2400

-- What `_fingerprint` has kept of the prompt, and the length that it has seen.
pub record Seen : Type 0 where
  pub retained : Text
  pub count : ℕ

abbrev pub see_break : Seen → Seen
see_break s = record {
  retained = if ltb s.count allowance then s.retained ++ 10 ∷ [] else s.retained;
  count = s.count + 1;
}

abbrev pub see_part : Text → Seen → Seen
see_part part s = record {
  retained =
      if ltb s.count allowance then s.retained ++ take (allowance - s.count) part else s.retained;
  count = s.count + length part;
}

-- The parts after the first.
unfoldable pub see_more : List Text → Seen → Seen
see_more [] s = s
see_more (part ∷ parts) s = see_more parts (see_part part (see_break s))

unfoldable pub fingerprint : List Text → Seen
unfolding see_more
fingerprint [] = record { retained = []; count = 0 }
fingerprint (part ∷ parts) = see_more parts (see_part part (record { retained = []; count = 0 }))

pub record Task : Type 0 where
  pub objective : Text
  pub model_name : Option String
  pub constraints : List Text
  pub files : List Text
  pub context : List Text
  pub success_criteria : List Text

abbrev pub parts_of : Task → List Text
parts_of task =
    task.objective ∷ (task.constraints ++ (task.files ++ (task.context ++ task.success_criteria)))

-- The regular expressions, each as the test that the source makes with it.
pub record Patterns : Type 0 where
  pub risk : Text → Bool
  pub instruction : Text → Bool
  pub complex : Text → Bool
  pub edit : Text → Bool
  pub narrow_read : Text → Bool
  pub small_doc : Text → Bool
  pub read : Text → Bool

abbrev pub protected_roles : List String
protected_roles = "security" ∷ "red_team" ∷ "bug_hunter" ∷ "reviewer" ∷ "exploit_validator" ∷ []

abbrev pub protected_modes : List String
protected_modes = "cybersecurity" ∷ "red_team" ∷ "bug_hunting" ∷ []

-- A model named by the task, as a condition
abbrev pub names_model : Option String → Bool
names_model none = false
names_model (some name) = not (name == "")

abbrev pub isascii : Text → Bool
isascii = all (λ c. ltb c 128)

abbrev pub is_blank : Text → Bool
is_blank [] = true
is_blank (c ∷ cs) = false

-- Early returns: the first test that holds gives its reason, and what follows runs where none does.
abbrev pub first_reason : {A : Type 0} → List (Bool × String) → (String → A) → A → A
first_reason [] refuse rest = rest
first_reason ((true, reason) ∷ tests) refuse rest = refuse reason
first_reason ((false, reason) ∷ tests) refuse rest = first_reason tests refuse rest

abbrev pub decision : String → String → Tier → Bool → RoutingDecision
decision digest reason tier eligible = record {
  tier = tier;
  reason = reason;
  source = "rules";
  classifier_eligible = eligible;
  prompt_digest = digest;
}

module _ (digest_of : List Text → String) (strip : Text → Text) (patterns : Patterns) where
  -- The tests in front of every decision for economy, in their order.
  abbrev pub refusals : Task → Seen → String → String → Bool → Bool → List (Bool × String)
  refusals task seen role mode explicit retry =
      let prompt = seen.retained in
      (explicit || names_model task.model_name, "explicit_model")
      ∷ (retry, "retry")
      ∷ (contains role protected_roles || contains mode protected_modes, "protected_workflow")
      ∷ (
        not (mode == "coding") || not (contains role ("explorer" ∷ "coder" ∷ [])),
        "unsupported_workflow",
      )
      ∷ (
        is_blank (strip task.objective)
            || ltb allowance seen.count
            || ltb 300 (length task.objective),
        "ambiguous_or_long",
      )
      ∷ (patterns.risk prompt, "security_sensitive")
      ∷ (not (isascii prompt) || patterns.instruction prompt, "untrusted_or_unknown_language")
      ∷ (patterns.complex prompt || ltb 1 (length task.files), "complex_task")
      ∷ (
        patterns.edit (drop (length task.objective + 1) prompt)
            || any (λ c. c == 59 || c == 10) (strip task.objective),
        "additional_instructions",
      )
      ∷ []

  -- The decisions behind them.
  abbrev pub narrow : Task → String → String → RoutingDecision
  narrow task role digest =
      let objective = strip task.objective in
      if role == "coder" && patterns.small_doc objective
      then decision digest "small_documentation" economy false
      else if patterns.edit task.objective
      then decision digest "editing_task" selected false
      else if patterns.narrow_read objective
      then decision digest "narrow_read_only" economy false
      else if patterns.read objective
      then decision digest "unknown_read_only" selected true
      else decision digest "uncertain_task" selected false

  -- The role and the mode are in lower case.
  unfoldable pub classify_task : Task → String → String → Bool → Bool → RoutingDecision
  unfolding fingerprint
  classify_task task role mode explicit retry =
      let seen = fingerprint (parts_of task) in
      let digest = digest_of (parts_of task) in
      first_reason (refusals task seen role mode explicit retry)
        (λ reason. decision digest reason selected false) (narrow task role digest)

-- A value of a JSON object, with its number type a parameter.
pub data Json (F : Type 0) : Type 0 where
  text : String → Json F
  number : F → Json F
  -- a truth value, null, an array or an object
  other : Json F

module _ {F : Type 0} where
  -- `unique_object`: a key that stands twice raises.
  unfoldable pub unique_object :
      List (String × Json F) → Dict String (Json F) → Option (Dict String (Json F))
  unfolding lookup insert
  unique_object [] result = some result
  unique_object ((key, v) ∷ pairs) result =
      let rest = unique_object pairs (insert key v result) in
      if contains key (keys result) then none else rest

  abbrev pub tier_of : Option (Json F) → Option Tier
  tier_of (some (text name)) =
      if name == "economy" then some economy else if name == "selected" then some selected else none
  tier_of _ = none

  abbrev pub number_of : Option (Json F) → Option F
  number_of (some (number c)) = some c
  number_of _ = none

  -- `set(reply) == {"tier", "confidence"}`
  abbrev pub has_both_keys : Dict String (Json F) → Bool
  has_both_keys reply =
      contains "tier" (keys reply)
      && contains "confidence" (keys reply)
      && all (λ key. contains key ("tier" ∷ "confidence" ∷ [])) (keys reply)

  -- The tests of finiteness with the bounds 0 and 1, and of less than 0.90.
  module _ (in_unit low : F → Bool) where
    abbrev pub check_pair : Option Tier → Option F → Option Tier
    check_pair (some economy) (some c) = if not (in_unit c) || low c then none else some economy
    check_pair (some selected) (some c) = if not (in_unit c) then none else some selected
    check_pair _ _ = none

    abbrev pub check_reply : Option (Dict String (Json F)) → Option Tier
    check_reply none = none
    check_reply (some reply) =
        if has_both_keys reply
        then check_pair (tier_of (lookup "tier" reply)) (number_of (lookup "confidence" reply))
        else none

    -- The pairs of a parsed object; nothing where the text is no JSON or no object.
    abbrev pub check_pairs : Option (List (String × Json F)) → Option Tier
    check_pairs none = none
    check_pairs (some pairs) = check_reply (unique_object pairs [])

    module _ (loads : Text → Option (List (String × Json F))) where
      unfoldable pub validate_classifier_reply : Text → Option Tier
      validate_classifier_reply reply =
          if ltb 256 (length reply) then none else check_pairs (loads reply)

      abbrev pub applied : RoutingDecision → Option Tier → RoutingDecision
      applied baseline none = record baseline {
        tier = selected;
        source = "local_classifier";
        classifier_eligible = false;
        reason = "invalid_classifier_reply";
      }
      applied baseline (some economy) = record baseline {
        tier = economy;
        source = "local_classifier";
        classifier_eligible = false;
        reason = "local_classifier_economy";
      }
      applied baseline (some selected) = record baseline {
        tier = selected;
        source = "local_classifier";
        classifier_eligible = false;
        reason = "local_classifier_selected";
      }

      unfoldable pub apply_classifier_decision : RoutingDecision → Text → RoutingDecision
      unfolding validate_classifier_reply
      apply_classifier_decision baseline reply =
          if not baseline.classifier_eligible
          then baseline
          else applied baseline (validate_classifier_reply reply)
