-- ===== src/Triage.antt =====
-- `dedupe` of src/local_coder/security/triage.py. A finding's scanner names are the list that its
-- text joins by `+`; `merged` is the sorted union of two such lists.
pub mod Dedupe
use local_coding_agent.Base.{
  ℕ, String, string_eq, nat_eq, Bool, ◌&&◌, ◌==◌, Option, none, some, List, [], ◌∷◌, if◌then◌else◌,
  ltb, Eq, ℤ, int_eq, pair_eq,
}
use local_coding_agent.Base.Dict.{Dict, lookup, insert, values}

pub record ScanFinding : Type 0 where
  pub path : String
  pub line : ℤ
  pub severity : String
  pub scanner : List String
  pub rule : String
  pub message : String

-- The key of a finding
abbrev pub Location : Type 0
Location = String × ℤ

abbrev pub location_eq : Eq (String × ℤ)
location_eq = pair_eq ⦃e = string_eq⦄ ⦃f = int_eq⦄

-- `SEVERITY_ORDER.get(severity, 9)`
abbrev pub severity_rank : String → ℕ
severity_rank severity =
    if severity == "HIGH"
    then 0
    else if severity == "MEDIUM"
    then 1
    else if severity == "LOW"
    then 2
    else if severity == "INFO"
    then 3
    else 9

module _ (merged : List String → List String → List String) where
  abbrev pub at : ScanFinding → Location
  at finding = (finding.path, finding.line)

  -- The more severe of both, the one that was first where they are equal, with all scanners
  abbrev pub keep : ScanFinding → ScanFinding → ScanFinding
  keep finding current =
      record (if ltb (severity_rank finding.severity) (severity_rank current.severity)
        then finding
        else current) { scanner = merged current.scanner finding.scanner }

  abbrev pub join : ScanFinding → Option ScanFinding → ScanFinding
  join finding none = finding
  join finding (some current) = keep finding current

  -- The loop over the findings
  unfoldable pub collect : List ScanFinding → Dict Location ScanFinding → Dict Location ScanFinding
  collect [] by_location = by_location
  collect (finding ∷ findings) by_location =
      collect findings
        (insert (at finding) (join finding (lookup (at finding) by_location)) by_location)

  unfoldable pub dedupe : List ScanFinding → List ScanFinding
  unfolding collect
  dedupe findings = values (collect findings [])
