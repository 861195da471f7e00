-- ===== src/Examples/Cheap.antt =====
-- An explorer's request that the rules leave to the classifier, and a reply that names economy.
use local_coding_agent.Base.{
  ℕ, nat_eq, ◌≡◌, ◌⊎◌, refl, String, string_eq, Bool, true, false, Option, some, none, List, [],
  ◌∷◌, ltb, leb, ◌==◌, length, take,
}
use local_coding_agent.Base.Dict.{lookup, insert}
use local_coding_agent.AutoRouting.{
  Text, Task, Patterns, Json, text, number, economy, selected, fingerprint, see_more, classify_task,
  unique_object, validate_classifier_reply, apply_classifier_decision,
}
use local_coding_agent.AutoRouting.Prompt.{joined}
use local_coding_agent.AutoRouting.Decisions.{IsCheap}
use local_coding_agent.AutoRouting.Classifier.{IsConfident, apply_classifier_decision_lem}

abbrev joined_digest : List Text → String
joined_digest parts = "digest"

abbrev same_chars : Text → Text
same_chars t = t

abbrev starts_with_show : Text → Bool
starts_with_show [] = false
starts_with_show (c ∷ cs) = c == 115

-- Only the test for a request to read finds anything.
abbrev quiet : Patterns
quiet = record {
  risk = λ t. false;
  instruction = λ t. false;
  complex = λ t. false;
  edit = λ t. false;
  narrow_read = λ t. false;
  small_doc = λ t. false;
  read = starts_with_show;
}

abbrev show_task : Task
show_task = record {
  objective = 115 ∷ 104 ∷ 111 ∷ 119 ∷ [];
  model_name = none;
  constraints = [];
  files = [];
  context = (120 ∷ []) ∷ [];
  success_criteria = [];
}

abbrev percent_loads : Text → Option (List (String × Json ℕ))
percent_loads reply = some (("tier", text "economy") ∷ ("confidence", number (length reply)) ∷ [])

abbrev is_percent : ℕ → Bool
is_percent c = leb c 100

abbrev under_ninety : ℕ → Bool
under_ninety c = ltb c 90

abbrev ninety_five : Text
ninety_five = joined (show_task.objective ∷ [])

show_digest :
    (classify_task joined_digest same_chars quiet show_task "explorer" "coding" false
      false).classifier_eligible
    ≡ true
unfolding classify_task fingerprint see_more
show_digest = refl

low_reply :
    apply_classifier_decision is_percent under_ninety percent_loads
      (classify_task joined_digest same_chars quiet show_task "explorer" "coding" false false)
      (1 ∷ [])
    ≡ record {
      tier = selected;
      reason = "invalid_classifier_reply";
      source = "local_classifier";
      classifier_eligible = false;
      prompt_digest = "digest";
    }
unfolding classify_task fingerprint see_more apply_classifier_decision validate_classifier_reply
    unique_object lookup insert
low_reply = refl

abbrev long_reply : Text
long_reply = take 95 (joined (twenty ∷ twenty ∷ twenty ∷ twenty ∷ twenty ∷ []))
  where
    twenty : Text
    twenty = 1 ∷ 1 ∷ 1 ∷ 1 ∷ 1 ∷ 1 ∷ 1 ∷ 1 ∷ 1 ∷ 1 ∷ 1 ∷ 1 ∷ 1 ∷ 1 ∷ 1 ∷ 1 ∷ 1 ∷ 1 ∷ 1 ∷ 1 ∷ []

long_reply_economy :
    (apply_classifier_decision is_percent under_ninety percent_loads
      (classify_task joined_digest same_chars quiet show_task "explorer" "coding" false false)
      long_reply).tier
    ≡ economy
unfolding classify_task fingerprint see_more apply_classifier_decision validate_classifier_reply
    unique_object lookup insert
long_reply_economy = refl

apply_classifier_decision_lem_example :
    let baseline =
      classify_task joined_digest same_chars quiet show_task "explorer" "coding" false false in
    IsCheap joined_digest same_chars quiet show_task "explorer" "coding" false false
    × ((baseline.tier ≡ economy)
        ⊎ ((baseline.classifier_eligible ≡ true)
            × IsConfident is_percent under_ninety percent_loads long_reply))
apply_classifier_decision_lem_example =
    apply_classifier_decision_lem is_percent under_ninety percent_loads joined_digest same_chars
      quiet show_task "explorer" "coding" false false long_reply long_reply_economy
