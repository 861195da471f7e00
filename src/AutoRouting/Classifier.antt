-- ===== src/AutoRouting/Classifier.antt =====
-- What the reply of the classifier can do to a decision of src/local_coder/models/auto_routing.py.
use local_coding_agent.Base.{
  ◌≤◌, ◌≡◌, ◌⊎◌, inl, inr, refl, String, string_eq, Bool, true, false, not, ◌||◌, Option, none,
  some, List, [], ltb, ltb→le, length, arith, Bool-cases, Option-cases, or_false, not-false,
}
use local_coding_agent.Base.Dict.{Dict, lookup}
use local_coding_agent.AutoRouting.{
  Text, Tier, economy, selected, RoutingDecision, Json, tier_of, number_of, has_both_keys,
  check_pair, unique_object, validate_classifier_reply, applied, apply_classifier_decision,
  Patterns, Task, classify_task,
}
use local_coding_agent.AutoRouting.Decisions.{IsCheap, classify_task_lem}

module _ {F : Type 0} (in_unit low : F → Bool)
    (loads : Text → Option (List (String × Json F))) where
  -- A reply that is taken for economy: two keys, each once, the tier economy and a confidence in
  -- bounds that is not low.
  pub record IsConfident (reply : Text) : Type 0 where
    pub short : length reply ≤ 256
    pub pairs : List (String × Json F)
    pub parsed : loads reply ≡ some pairs
    pub object : Dict String (Json F)
    pub unique : unique_object pairs [] ≡ some object
    pub both_keys : has_both_keys object ≡ true
    pub named : tier_of (lookup "tier" object) ≡ some economy
    pub confidence : F
    pub given : number_of (lookup "confidence" object) ≡ some confidence
    pub bounded : (in_unit confidence ≡ true) × (low confidence ≡ false)

  check_pair_economy :
      (tier : Option Tier) (confidence : Option F)
      → check_pair in_unit low tier confidence ≡ some economy
      → (tier ≡ some economy)
        × ((c : F) × (confidence ≡ some c) × (in_unit c ≡ true) × (low c ≡ false))
  check_pair_economy (some economy) (some c) h = elim (Bool-cases (not (in_unit c) || low c)) [
    | inl bad ↦ absurd (ground arith)
    | inr good ↦
        let (inside, high) = or_false (not (in_unit c)) (low c) good in
        (refl, (c, refl, not-false (in_unit c) inside, high))
  ]
  check_pair_economy (some selected) (some c) h = elim (Bool-cases (not (in_unit c))) [
    | inl bad ↦ absurd (ground arith)
    | inr good ↦ absurd (ground arith)
  ]
  check_pair_economy (some economy) none h = absurd (ground arith)
  check_pair_economy (some selected) none h = absurd (ground arith)
  check_pair_economy none confidence h = absurd (ground arith)

  validate_economy :
      (reply : Text)
      → validate_classifier_reply in_unit low loads reply ≡ some economy
      → IsConfident reply
  unfolding validate_classifier_reply
  validate_economy reply h = elim (Bool-cases (ltb 256 (length reply))) [
    | inl long ↦ absurd (ground arith)
    | inr short ↦ elim (Option-cases (loads reply)) [
      | inl gone ↦ absurd (ground arith)
      | inr (pairs, parsed) ↦ elim (Option-cases (unique_object pairs [])) [
        | inl twice ↦ absurd (ground (arith, (rw (short, parsed, twice) at h)))
        | inr (object, unique) ↦ elim (Bool-cases (has_both_keys object)) [
          | inl both ↦
              let checked : check_pair in_unit low (tier_of (lookup "tier" object))
                    (number_of (lookup "confidence" object))
                  ≡ some economy =
                rw (short, parsed, unique, both) at h in
              let (named, (c, given, inside, high)) =
                check_pair_economy (tier_of (lookup "tier" object))
                  (number_of (lookup "confidence" object)) checked in
              record {
                short = ltb→le 256 (length reply) short;
                pairs = pairs;
                parsed = parsed;
                object = object;
                unique = unique;
                both_keys = both;
                named = named;
                confidence = c;
                given = given;
                bounded = (inside, high);
              }
          | inr missing ↦ absurd (ground (arith, (rw (short, parsed, unique, missing) at h)))
        ]
      ]
    ]
  ]

  applied_economy :
      (baseline : RoutingDecision) (answer : Option Tier)
      → (applied in_unit low loads baseline answer).tier ≡ economy
      → answer ≡ some economy
  applied_economy baseline none h = absurd (ground arith)
  applied_economy baseline (some economy) h = refl
  applied_economy baseline (some selected) h = absurd (ground arith)

  apply_economy :
      (baseline : RoutingDecision) (reply : Text)
      → (apply_classifier_decision in_unit low loads baseline reply).tier ≡ economy
      → (baseline.tier ≡ economy) ⊎ ((baseline.classifier_eligible ≡ true) × IsConfident reply)
  unfolding apply_classifier_decision
  apply_economy baseline reply h = elim (Bool-cases baseline.classifier_eligible) [
    | inr fixed ↦ inl (rw (fixed) at h)
    | inl open_ ↦ inr (
      open_,
      validate_economy reply (
          applied_economy baseline (validate_classifier_reply in_unit low loads reply)
            (rw (open_) at h)),
    )
  ]

  pub apply_classifier_decision_lem :
      (digest_of : List Text → String) (strip : Text → Text) (patterns : Patterns) (task : Task)
      (role mode : String) (explicit retry : Bool) (reply : Text)
      → (apply_classifier_decision in_unit low loads
          (classify_task digest_of strip patterns task role mode explicit retry)
          reply).tier
        ≡ economy
      → let baseline = classify_task digest_of strip patterns task role mode explicit retry in
        IsCheap digest_of strip patterns task role mode explicit retry
        × ((baseline.tier ≡ economy) ⊎ ((baseline.classifier_eligible ≡ true) × IsConfident reply))
  apply_classifier_decision_lem digest_of strip patterns task role mode explicit retry reply h =
      let baseline : RoutingDecision =
        classify_task digest_of strip patterns task role mode explicit retry in
      let chosen = apply_economy baseline reply h in
      (
        classify_task_lem digest_of strip patterns task role mode explicit retry
            (elim chosen [ inl rules ↦ inl rules | inr asked ↦ inr asked.0 ]),
        chosen,
      )
