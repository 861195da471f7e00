-- ===== src/Safety/Permissions.antt =====
-- What the tiers of src/local_coder/safety.py let a command do.
use local_coding_agent.Base.{
  ◌≡◌, ◌≢◌, ◌⊎◌, inl, inr, refl, String, string_eq, Bool, true, false, ◌==◌, ℕ, ◌≤◌, any, arith,
  Bool-cases, leb, leb→le, subst, if◌then◌else◌, ap, ◌∙◌, sym, ◌↔◌,
}
use local_coding_agent.Base.Dict.{lookup}
use local_coding_agent.Safety.{
  SafetyTier, tier_1_paranoia, tier_2_strict, tier_3_balanced, tier_4_auto_valid, tier_5_yolo,
  value, other, CommandRisk, safe, ask, block, block_patterns, changes_history, Permission, refused,
  permit, parse_safety_tier, classify, can_execute_command, can_modify_files,
  should_checkpoint_before_request,
}

-- The place of a tier in their order.
abbrev pub level : SafetyTier → ℕ
level tier_1_paranoia = 1
level tier_2_strict = 2
level tier_3_balanced = 3
level tier_4_auto_valid = 4
level tier_5_yolo = 5

-- The source's test for a blocked command.
abbrev pub IsBlocked : (String → String) → (String → String → Bool) → String → Type 0
IsBlocked strip find command =
    (strip command ≡ "") ⊎ (any (λ pattern. find pattern (strip command)) block_patterns ≡ true)

permit_block : (t : SafetyTier) (command : String) → permit t block command ≡ refused
unfolding permit
permit_block tier_1_paranoia command = refl
permit_block tier_2_strict command = refl
permit_block tier_3_balanced command = refl
permit_block tier_4_auto_valid command = refl
permit_block tier_5_yolo command = refl

classify_blocked :
    (strip : String → String) (find : String → String → Bool) (command : String)
    → IsBlocked strip find command
    → classify strip find command ≡ block
unfolding classify
classify_blocked strip find command (inl empty) = rw (empty) refl
classify_blocked strip find command (inr found) = elim (Bool-cases (strip command == "")) [
  | inl empty ↦ rw (empty) refl
  | inr more ↦ rw (more, found) refl
]

-- No tier allows a command that is empty or that a block pattern is found in.
pub can_execute_command_blocked :
    (strip : String → String) (find : String → String → Bool) (t : SafetyTier) (command : String)
    → IsBlocked strip find command
    → can_execute_command strip find t command ≡ refused
unfolding can_execute_command
can_execute_command_blocked strip find t command h =
    ap (λ risk. permit t risk command) (classify_blocked strip find command h)
    ∙ permit_block t command

-- The first tier that asks for no approval of a risk.
abbrev free_from : CommandRisk → ℕ
free_from safe = 3
free_from _ = 4

permit_not-block :
    (t : SafetyTier) (risk : CommandRisk) (command : String)
    → (permit t risk command).allowed ≡ true
    → risk ≢ block
unfolding permit
permit_not-block t risk command a same =
    absurd (
      ground (arith, sym (ap (λ r. (permit t r command).allowed) same) ∙ a, permit_block t command))

permit_allowed :
    (u : SafetyTier) (risk : CommandRisk) (command : String)
    → 2 ≤ level u
    → risk ≢ block
    → (permit u risk command).allowed ≡ true
unfolding permit
permit_allowed tier_1_paranoia risk command h n = absurd (omega (arith, h))
permit_allowed u block command h n = absurd (n refl)
permit_allowed tier_2_strict safe command h n = refl
permit_allowed tier_2_strict ask command h n = refl
permit_allowed tier_3_balanced safe command h n = refl
permit_allowed tier_3_balanced ask command h n = refl
permit_allowed tier_4_auto_valid safe command h n = refl
permit_allowed tier_4_auto_valid ask command h n = refl
permit_allowed tier_5_yolo safe command h n = refl
permit_allowed tier_5_yolo ask command h n = refl

permit_free :
    (t : SafetyTier) (risk : CommandRisk) (command : String)
    → 2 ≤ level t
    → (permit t risk command).allowed ≡ true
    → (permit t risk command).requires_approval ≡ false
    → free_from risk ≤ level t
unfolding permit
permit_free tier_1_paranoia risk command h a r = absurd (omega (arith, h))
permit_free tier_2_strict block command h a r = absurd (ground arith)
permit_free tier_2_strict safe command h a r = absurd (ground arith)
permit_free tier_2_strict ask command h a r = absurd (ground arith)
permit_free tier_3_balanced block command h a r = absurd (ground arith)
permit_free tier_3_balanced safe command h a r = omega arith
permit_free tier_3_balanced ask command h a r = absurd (ground arith)
permit_free tier_4_auto_valid block command h a r = absurd (ground arith)
permit_free tier_4_auto_valid safe command h a r = omega arith
permit_free tier_4_auto_valid ask command h a r = omega arith
permit_free tier_5_yolo block command h a r = absurd (ground arith)
permit_free tier_5_yolo safe command h a r = omega arith
permit_free tier_5_yolo ask command h a r = omega arith

free_permit :
    (u : SafetyTier) (risk : CommandRisk) (command : String)
    → free_from risk ≤ level u
    → (permit u risk command).requires_approval ≡ false
unfolding permit
free_permit tier_1_paranoia safe command h = absurd (omega (arith, h))
free_permit tier_1_paranoia ask command h = absurd (omega (arith, h))
free_permit tier_1_paranoia block command h = absurd (omega (arith, h))
free_permit tier_2_strict safe command h = absurd (omega (arith, h))
free_permit tier_2_strict ask command h = absurd (omega (arith, h))
free_permit tier_2_strict block command h = absurd (omega (arith, h))
free_permit tier_3_balanced safe command h = refl
free_permit tier_3_balanced ask command h = absurd (omega (arith, h))
free_permit tier_3_balanced block command h = absurd (omega (arith, h))
free_permit tier_4_auto_valid safe command h = refl
free_permit tier_4_auto_valid ask command h = refl
free_permit tier_4_auto_valid block command h = refl
free_permit tier_5_yolo safe command h = refl
free_permit tier_5_yolo ask command h = refl
free_permit tier_5_yolo block command h = refl

level_one : (t : SafetyTier) → level t ≤ 1 → t ≡ tier_1_paranoia
level_one tier_1_paranoia h = refl
level_one tier_2_strict h = absurd (omega (arith, h))
level_one tier_3_balanced h = absurd (omega (arith, h))
level_one tier_4_auto_valid h = absurd (omega (arith, h))
level_one tier_5_yolo h = absurd (omega (arith, h))

permit_mono :
    (t u : SafetyTier) (risk : CommandRisk) (command : String)
    → level t ≤ level u
    → (permit t risk command).allowed ≡ true
    → ((permit u risk command).allowed ≡ true)
      × (2 ≤ level t
          → (permit t risk command).requires_approval ≡ false
          → (permit u risk command).requires_approval ≡ false)
permit_mono t u risk command h a = (
  elim (Bool-cases (leb 2 (level u))) [
    | inl high ↦
        permit_allowed u risk command (leb→le 2 (level u) high) (permit_not-block t risk command a)
    | inr low ↦
        let same : t ≡ u =
          level_one t (ground (arith, low)) ∙ sym (level_one u (ground (arith, low))) in
        subst (λ v. (permit v risk command).allowed ≡ true) same a
  ],
  λ from r. free_permit u risk command (omega (arith, h, permit_free t risk command from a r)),
)

permit_paranoia :
    (risk : CommandRisk) (command : String)
    → ((permit tier_1_paranoia risk command).allowed ≡ true)
      ↔ ((risk ≡ safe) × (changes_history command ≡ false))
unfolding permit
permit_paranoia safe command = elim (Bool-cases (changes_history command)) [
  | inl named ↦ rw (named) (λ a. absurd (ground arith), λ h. absurd (ground (arith, h.1)))
  | inr unnamed ↦ rw (unnamed) (λ a. (refl, refl), λ h. refl)
]
permit_paranoia ask command =
    (λ a. absurd (ground arith), λ h. absurd (ground (arith, ap free_from h.0)))
permit_paranoia block command =
    (λ a. absurd (ground arith), λ h. absurd (ground (arith, ap free_from h.0)))

-- How much a permission grants: nothing, a run on approval, or a run.
abbrev pub granted : Permission → ℕ
granted p = if p.allowed then if p.requires_approval then 1 else 2 else 0

granted_mono :
    (p q : Permission)
    → (p.allowed ≡ true → q.allowed ≡ true)
    → (p.allowed ≡ true → p.requires_approval ≡ false → q.requires_approval ≡ false)
    → granted p ≤ granted q
granted_mono p q a r = ground (arith, a, r)

-- From the second tier on, a higher tier grants a command at least what a lower one grants it.
pub can_execute_command_mono :
    (strip : String → String) (find : String → String → Bool) (t u : SafetyTier) (command : String)
    → 2 ≤ level t
    → level t ≤ level u
    → granted (can_execute_command strip find t command)
      ≤ granted (can_execute_command strip find u command)
unfolding can_execute_command
can_execute_command_mono strip find t u command high h =
    let risk : CommandRisk = classify strip find command in
    granted_mono (permit t risk command) (permit u risk command)
      (λ a. (permit_mono t u risk command h a).0) (λ a. (permit_mono t u risk command h a).1 high)

-- In the first tier file edits are not allowed, no checkpoint is made, and a command is allowed only
-- where it is classified as safe and names none of "commit", "push" and "checkout".
pub paranoia_lem :
    (strip : String → String) (find : String → String → Bool) (command : String)
    → ((can_modify_files tier_1_paranoia).allowed ≡ false)
      × (should_checkpoint_before_request tier_1_paranoia ≡ false)
      × (((can_execute_command strip find tier_1_paranoia command).allowed ≡ true)
          ↔ ((classify strip find command ≡ safe) × (changes_history command ≡ false)))
unfolding can_modify_files should_checkpoint_before_request can_execute_command permit
paranoia_lem strip find command =
    (refl, refl, permit_paranoia (classify strip find command) command)

-- The value of every tier, written out as a text, is read back as this tier where the text is
-- already stripped and in lower case.
pub parse_safety_tier-value :
    (normal : String → String) (t : SafetyTier)
    → normal (value t) ≡ value t
    → parse_safety_tier normal (other (value t)) ≡ t
unfolding parse_safety_tier lookup
parse_safety_tier-value normal tier_1_paranoia h = rw (h) refl
parse_safety_tier-value normal tier_2_strict h = rw (h) refl
parse_safety_tier-value normal tier_3_balanced h = rw (h) refl
parse_safety_tier-value normal tier_4_auto_valid h = rw (h) refl
parse_safety_tier-value normal tier_5_yolo h = rw (h) refl
