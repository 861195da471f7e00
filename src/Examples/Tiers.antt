-- ===== src/Examples/Tiers.antt =====
-- Commands under the safety tiers, with a search that knows one pattern.
use local_coding_agent.Base.{◌≡◌, ◌≤◌, refl, inr, String, string_eq, Bool, true, ◌&&◌, ◌==◌, arith}
use local_coding_agent.Safety.{
  tier_1_paranoia, tier_3_balanced, tier_4_auto_valid, tier_5_yolo, refused, permit, classify,
  can_execute_command,
}
use local_coding_agent.Safety.Permissions.{
  can_execute_command_blocked, can_execute_command_mono, granted,
}

abbrev stripped : String → String
stripped command = command

abbrev finds_sudo : String → String → Bool
finds_sudo pattern command = pattern == "(^|\\s)(sudo|su)\\b" && command == "sudo ls"

abbrev lowered : String → String
lowered t = t

python_runs :
    (can_execute_command stripped finds_sudo tier_1_paranoia
      "python -c 'open(\"x\", \"w\")'").allowed
    ≡ true
unfolding can_execute_command permit classify
python_runs = refl

can_execute_command_blocked_example :
    can_execute_command stripped finds_sudo tier_5_yolo "sudo ls" ≡ refused
can_execute_command_blocked_example =
    can_execute_command_blocked stripped finds_sudo tier_5_yolo "sudo ls" (inr refl)

can_execute_command_mono_example :
    granted (can_execute_command stripped finds_sudo tier_3_balanced "npm install x")
    ≤ granted (can_execute_command stripped finds_sudo tier_4_auto_valid "npm install x")
can_execute_command_mono_example =
    can_execute_command_mono stripped finds_sudo tier_3_balanced tier_4_auto_valid "npm install x"
      (omega arith) (omega arith)
