-- ===== src/Safety.antt =====
-- src/local_coder/safety.py: `parse_safety_tier`, `CommandPolicy` and the permissions of
-- `SafetyHarness`. What Python's `str`, `strip` and `lower` and the block patterns' regular
-- expressions do is a parameter; the tables of prefixes and names are written out. The syntax
-- filter is a parameter of `filter_output`.
pub mod Permissions
use text.Mathlib.Text.{starts_with, find?}
use local_coding_agent.Base.{
  ℕ, String, string_eq, Bool, true, false, not, ◌&&◌, ◌||◌, Option, none, some, List, [], ◌∷◌,
  if◌then◌else◌, any, ◌==◌,
}
use local_coding_agent.Base.Dict.{Dict, lookup}

pub data SafetyTier : Type 0 where
  tier_1_paranoia tier_2_strict tier_3_balanced tier_4_auto_valid tier_5_yolo : SafetyTier

-- The values of the enumeration.
abbrev pub value : SafetyTier → String
value tier_1_paranoia = "tier_1_paranoia"
value tier_2_strict = "tier_2_strict"
value tier_3_balanced = "tier_3_balanced"
value tier_4_auto_valid = "tier_4_auto_valid"
value tier_5_yolo = "tier_5_yolo"

-- The argument of `parse_safety_tier`: a tier, or any other value by its text.
pub data TierValue : Type 0 where
  tier : SafetyTier → TierValue
  other : String → TierValue

abbrev pub mapping : Dict String SafetyTier
mapping =
    ("1", tier_1_paranoia)
    ∷ ("paranoia", tier_1_paranoia)
    ∷ ("tier_1", tier_1_paranoia)
    ∷ ("tier_1_paranoia", tier_1_paranoia)
    ∷ ("2", tier_2_strict)
    ∷ ("strict", tier_2_strict)
    ∷ ("tier_2", tier_2_strict)
    ∷ ("tier_2_strict", tier_2_strict)
    ∷ ("3", tier_3_balanced)
    ∷ ("balanced", tier_3_balanced)
    ∷ ("tier_3", tier_3_balanced)
    ∷ ("tier_3_balanced", tier_3_balanced)
    ∷ ("4", tier_4_auto_valid)
    ∷ ("auto_valid", tier_4_auto_valid)
    ∷ ("tier_4", tier_4_auto_valid)
    ∷ ("tier_4_auto_valid", tier_4_auto_valid)
    ∷ ("5", tier_5_yolo)
    ∷ ("yolo", tier_5_yolo)
    ∷ ("autonomous", tier_5_yolo)
    ∷ ("tier_5", tier_5_yolo)
    ∷ ("tier_5_yolo", tier_5_yolo)
    ∷ []

abbrev pub or_balanced : Option SafetyTier → SafetyTier
or_balanced none = tier_3_balanced
or_balanced (some t) = t

pub data CommandRisk : Type 0 where
  safe ask block : CommandRisk

abbrev pub block_patterns : List String
block_patterns =
    "(^|\\s)rm\\s+(-[rf]+\\s+)*(/|~|\\$HOME)(\\s|$)" ∷ "(^|\\s)(sudo|su)\\b"
    ∷ "(^|\\s)(mkfs|fdisk|parted)\\b" ∷ "(^|\\s)dd\\s+if=" ∷ ":\\(\\)\\s*\\{"
    ∷ "(^|\\s)(curl|wget)\\b[^|\\n]*\\|\\s*(sh|bash|zsh)\\b" ∷ []

abbrev pub ask_prefixes : List String
ask_prefixes =
    "pip install" ∷ "pip3 install" ∷ "npm install" ∷ "yarn add" ∷ "pnpm add" ∷ "docker"
    ∷ "git commit" ∷ "git push" ∷ "git reset" ∷ "git checkout" ∷ "chmod" ∷ "chown" ∷ "curl" ∷ "wget"
    ∷ []

abbrev pub safe_prefixes : List String
safe_prefixes =
    "pytest" ∷ "python" ∷ "python3" ∷ "npm test" ∷ "npm run test" ∷ "cargo test" ∷ "go test"
    ∷ "make test" ∷ "git status" ∷ "git diff" ∷ "git log" ∷ "ls" ∷ "pwd" ∷ []

-- `t in s`
abbrev pub has_text : String → String → Bool
has_text s t = elim (find? s t) [ none ↦ false | some _ ↦ true ]

-- `any(k in command for k in ("commit", "push", "checkout"))`
abbrev pub changes_history : String → Bool
changes_history command = any (has_text command) ("commit" ∷ "push" ∷ "checkout" ∷ [])

-- A pair `(allowed, requires_approval)`.
pub record Permission : Type 0 where
  pub allowed : Bool
  pub requires_approval : Bool

abbrev pub refused : Permission
refused = record { allowed = false; requires_approval = false }

abbrev pub on_approval : Permission
on_approval = record { allowed = true; requires_approval = true }

abbrev pub free : Permission
free = record { allowed = true; requires_approval = false }

unfoldable pub can_modify_files : SafetyTier → Permission
can_modify_files tier_1_paranoia = refused
can_modify_files tier_2_strict = on_approval
can_modify_files _ = free

unfoldable pub should_checkpoint_before_request : SafetyTier → Bool
should_checkpoint_before_request tier_1_paranoia = false
should_checkpoint_before_request _ = true

-- What a tier makes of the risk of a command.
unfoldable pub permit : SafetyTier → CommandRisk → String → Permission
permit tier_1_paranoia safe command = if not (changes_history command) then free else refused
permit tier_1_paranoia _ command = refused
permit tier_2_strict block command = refused
permit tier_2_strict _ command = on_approval
permit tier_3_balanced block command = refused
permit tier_3_balanced safe command = free
permit tier_3_balanced ask command = on_approval
permit tier_4_auto_valid block command = refused
permit tier_4_auto_valid _ command = free
permit tier_5_yolo block command = refused
permit tier_5_yolo _ command = free

-- `str(val).strip().lower()`
module _ (normal : String → String) where
  unfoldable pub parse_safety_tier : TierValue → SafetyTier
  unfolding lookup
  parse_safety_tier (tier t) = t
  parse_safety_tier (other v) = or_balanced (lookup (normal v) mapping)

-- `strip`, and whether a pattern is found in a command, whatever the case
module _ (strip : String → String) (search : String → String → Bool) where
  unfoldable pub classify : String → CommandRisk
  classify command =
      let normalized = strip command in
      if normalized == ""
      then block
      else if any (λ pattern. search pattern normalized) block_patterns
      then block
      else if any (starts_with normalized) ask_prefixes
      then ask
      else if any (starts_with normalized) safe_prefixes
      then safe
      else ask

  unfoldable pub can_execute_command : SafetyTier → String → Permission
  unfolding permit classify
  can_execute_command t command = permit t (classify command) command

-- The syntax filter answers whether a file's text is well formed, and why not.
module _ (validate_syntax : String → String → Bool × Option String) where
  unfoldable pub filter_output : SafetyTier → String → String → Bool × Option String
  filter_output tier_5_yolo path content = (true, none)
  filter_output _ path content = validate_syntax path content
