-- ===== src/Examples/Scans.antt =====
-- Two scanners that report one line.
use local_coding_agent.Base.{pos, ◌≤◌, ◌≡◌, refl, String, string_eq, List, [], ◌∷◌, ◌++◌, Memᴰ}
use local_coding_agent.Base.Dict.{insert, lookup}
use local_coding_agent.Triage.{ScanFinding, severity_rank, collect, dedupe}
use local_coding_agent.Triage.Dedupe.{AreApart, dedupe_lem}

abbrev report : String → String → ScanFinding
report severity scanner = record {
  path = "a.py";
  line = pos 3;
  severity = severity;
  scanner = scanner ∷ [];
  rule = "sql";
  message = "";
}

abbrev merged : List String → List String → List String
merged xs ys = xs ++ ys

abbrev reports : List ScanFinding
reports =
    record (report "HIGH" "ruff") { line = pos 7 }
    ∷ report "LOW" "bandit"
    ∷ report "HIGH" "semgrep"
    ∷ []

reports-dedupe :
    dedupe merged reports
    ≡ record (report "HIGH" "ruff") { line = pos 7 }
      ∷ record {
        path = "a.py";
        line = pos 3;
        severity = "HIGH";
        scanner = "bandit" ∷ "semgrep" ∷ [];
        rule = "sql";
        message = "";
      }
      ∷ []
unfolding dedupe collect insert lookup
reports-dedupe = refl

dedupe_lem_example :
    AreApart merged (dedupe merged reports)
    × (f : ScanFinding) × Memᴰ f (dedupe merged reports)
    × (f.path ≡ "a.py")
    × (f.line ≡ pos 3)
    × (severity_rank f.severity ≤ severity_rank "LOW")
dedupe_lem_example = dedupe_lem merged reports (report "LOW" "bandit") (Memᴰ.tail (Memᴰ.head refl))
