-- ===== src/Examples/Reviews.antt =====
-- A review that reports a dismissed finding again.
use local_coding_agent.Base.{
  pos, negsuc, ◌≡◌, refl, String, true, false, List, [], ◌∷◌, Memᴰ, string_eq,
}
use local_coding_agent.Findings.{
  LedgerEntry, Names, recorded, record_finding, update_first, validate_entries,
}
use local_coding_agent.Findings.Recording.{
  Recorded, Dismissed, record_finding_lem, record_finding-Dismissed,
}

abbrev names : Names
names = record {
  normalized = λ title. title;
  key_text = λ path subject line. subject;
  numbered = λ n. "F1";
}

abbrev finding : String → String → LedgerEntry
finding id status = record {
  title = "injection";
  severity = "HIGH";
  path = "a.py";
  line = pos 7;
  rule = "sql";
  status = status;
  confidence = pos 8;
  exploit_path = "";
  fix = "";
  lesson = "";
  id = id;
}

abbrev disk : List LedgerEntry
disk = finding "F1" "false_positive" ∷ []

again-record_finding :
    record_finding names (finding "" "confirmed") disk
    ≡ recorded (finding "F1" "false_positive") false disk
unfolding record_finding update_first
again-record_finding = refl

-- A line below zero is refused.
negative_line :
    validate_entries (record (finding "F1" "confirmed") { line = negsuc 0 } ∷ []) ≡ false
negative_line = refl

record_finding_lem_example :
    (validate_entries disk ≡ true)
    × Recorded names (finding "" "confirmed") disk (finding "F1" "false_positive") false disk
record_finding_lem_example =
    record_finding_lem names (finding "" "confirmed") (finding "F1" "false_positive") false disk
      disk again-record_finding

record_finding-Dismissed_example : Dismissed names "F1" disk
record_finding-Dismissed_example =
    record_finding-Dismissed names (finding "" "confirmed") (finding "F1" "false_positive") false
      disk disk "F1" again-record_finding
      (finding "F1" "false_positive", Memᴰ.head refl, refl, refl)
