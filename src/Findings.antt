-- ===== src/Findings.antt =====
-- src/local_coder/security/ledger.py: `FindingsLedger.record` and what it calls. The file on disk is
-- the list of its entries (a missing file is the empty list; one that is not such a list is
-- refused), read and written under one lock; the fields of an entry have their declared types. The parameter `Names` stands for Python's text
-- formatting and its regular expressions. The report and the sorting are not modelled.
pub mod Recording
use local_coding_agent.Base.{
  ℕ, zero, suc, ◌+◌, String, Bool, true, false, not, ◌&&◌, ◌||◌, Option, none, some, List, [], ◌∷◌,
  ◌++◌, if◌then◌else◌, ◌==◌, string_eq, ℤ, pos, leb_ℤ, ltb_ℤ, int_eq, length, contains, all,
}

pub record LedgerEntry : Type 0 where
  pub title : String
  pub severity : String
  pub path : String
  pub line : ℤ
  pub rule : String
  pub status : String
  pub confidence : ℤ
  pub exploit_path : String
  pub fix : String
  pub lesson : String
  pub id : String

pub record Names : Type 0 where
  -- `re.sub(r"[^a-z0-9]+", " ", title.lower()).strip()`
  pub normalized : String → String
  -- `f"{path}|{subject}|line:{line}"`
  pub key_text : String → String → ℤ → String
  -- `f"F{number}"`
  pub numbered : ℕ → String

abbrev pub statuses : List String
statuses = "suspected" ∷ "confirmed" ∷ "false_positive" ∷ []

abbrev pub severities : List String
severities = "CRITICAL" ∷ "HIGH" ∷ "MEDIUM" ∷ "LOW" ∷ []

-- Python's `a or b` on texts and on numbers
abbrev pub or_text : String → String → String
or_text a b = if a == "" then b else a

abbrev pub or_number : ℤ → ℤ → ℤ
or_number a b = if a == pos 0 then b else a

-- `_validate_entries`
abbrev pub is_valid_entry : LedgerEntry → Bool
is_valid_entry e =
    contains e.status statuses
    && contains e.severity severities
    && not (ltb_ℤ e.line (pos 0))
    && leb_ℤ (pos 1) e.confidence
    && leb_ℤ e.confidence (pos 10)

abbrev pub validate_entries : List LedgerEntry → Bool
validate_entries = all is_valid_entry

pub data Outcome : Type 0 where
  -- the entry, whether it is new, and the file's entries
  recorded : LedgerEntry → Bool → List LedgerEntry → Outcome
  unreadable invalid_fields : Outcome

-- The fields of the new entry, where they say something, over those of the old.
abbrev pub merge : LedgerEntry → LedgerEntry → LedgerEntry
merge new old = record {
  title = or_text new.title old.title;
  severity = or_text new.severity old.severity;
  path = or_text new.path old.path;
  line = or_number new.line old.line;
  rule = or_text new.rule old.rule;
  status = or_text new.status old.status;
  confidence = or_number new.confidence old.confidence;
  exploit_path = or_text new.exploit_path old.exploit_path;
  fix = or_text new.fix old.fix;
  lesson = or_text new.lesson old.lesson;
  id = old.id;
}

-- A dismissal that was reviewed is kept.
abbrev pub keep_dismissal : LedgerEntry → LedgerEntry → LedgerEntry
keep_dismissal old merged =
    if old.status == "false_positive"
    then record merged { status = old.status; lesson = or_text old.lesson merged.lesson }
    else merged

module _ (names : Names) where
  abbrev pub key : LedgerEntry → String
  key e = names.key_text e.path (or_text e.rule (names.normalized e.title)) e.line

  abbrev pub same_finding : LedgerEntry → LedgerEntry → Bool
  same_finding entry existing =
      key existing == key entry || not (entry.id == "") && existing.id == entry.id

  -- The loop: the entry that results, and the entries, or `none` where no entry is the same finding.
  unfoldable pub update_first :
      LedgerEntry → List LedgerEntry → Option (LedgerEntry × List LedgerEntry)
  update_first entry [] = none
  update_first entry (existing ∷ entries) =
      let rest = update_first entry entries in
      let merged = keep_dismissal existing (merge entry existing) in
      if same_finding entry existing
      then some (merged, merged ∷ entries)
      else (elim rest [ none ↦ none | some (found, changed) ↦ some (found, existing ∷ changed) ])

  -- `_save_unlocked`: nothing is written where an entry is invalid.
  abbrev pub save : LedgerEntry → Bool → List LedgerEntry → Outcome
  save entry is_new entries =
      if validate_entries entries then recorded entry is_new entries else invalid_fields

  abbrev pub completed : ℕ → LedgerEntry → LedgerEntry
  completed count entry = record entry {
    status = or_text entry.status "suspected";
    confidence = or_number entry.confidence (pos 5);
    id = names.numbered (count + 1);
  }

  -- `_record_unlocked`
  abbrev pub save_updated :
      LedgerEntry → List LedgerEntry → Option (LedgerEntry × List LedgerEntry) → Outcome
  save_updated entry entries none =
      save (completed (length entries) entry) true
        (entries ++ completed (length entries) entry ∷ [])
  save_updated entry entries (some (merged, changed)) = save merged false changed

  -- `record`: the file is read, changed and written back.
  unfoldable pub record_finding : LedgerEntry → List LedgerEntry → Outcome
  unfolding update_first
  record_finding entry disk =
      if validate_entries disk
      then save_updated entry disk (update_first entry disk)
      else unreadable
