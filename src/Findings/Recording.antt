-- ===== src/Findings/Recording.antt =====
-- What recording a finding changes in the file.
use mathlib.Core.List.Memᴰ
use local_coding_agent.Base.{Memᴰ}
use local_coding_agent.Base.{
  ℕ, ◌+◌, String, Bool, true, false, ◌≡◌, refl, sym, ap, subst, ◌∙◌, Option, none, some, List, [],
  ◌∷◌, ◌++◌, arith, length, Bool-cases, inl, inr, ◌⊎◌, string_eq,
}
use local_coding_agent.Findings.{
  LedgerEntry, Names, recorded, update_first, same_finding, keep_dismissal, merge, completed, save,
  save_updated, record_finding, validate_entries,
}

module _ (names : Names) where
  -- No entry is the finding.
  abbrev pub Absent : LedgerEntry → List LedgerEntry → Type 0
  Absent entry [] = Unit
  Absent entry (e ∷ es) = (same_finding names entry e ≡ false) × Absent entry es

  -- The first entry that is the same finding is replaced: it keeps its id, and a dismissal.
  pub record Replaced (entry : LedgerEntry) (es : List LedgerEntry) (found : LedgerEntry)
      (es' : List LedgerEntry) : Type 0 where
    pub before : List LedgerEntry
    pub old : LedgerEntry
    pub later : List LedgerEntry
    pub was : es ≡ before ++ old ∷ later
    pub is : es' ≡ before ++ found ∷ later
    pub first : Absent entry before
    pub same : same_finding names entry old ≡ true
    pub merged : found ≡ keep_dismissal old (merge entry old)

  Replaced-later :
      (entry x : LedgerEntry) (es es' : List LedgerEntry) (found : LedgerEntry)
      → same_finding names entry x ≡ false
      → Replaced entry es found es'
      → Replaced entry (x ∷ es) found (x ∷ es')
  Replaced-later entry x es es' found different r = record {
    before = x ∷ r.before;
    old = r.old;
    later = r.later;
    was = ap (◌∷◌ x) r.was;
    is = ap (◌∷◌ x) r.is;
    first = (different, r.first);
    same = r.same;
    merged = r.merged;
  }

  -- What the loop answers.
  abbrev pub Updated :
      LedgerEntry → List LedgerEntry → Option (LedgerEntry × List LedgerEntry) → Type 0
  Updated entry es none = Absent entry es
  Updated entry es (some (found, es')) = Replaced entry es found es'

  update_first_lem :
      (entry : LedgerEntry) (es : List LedgerEntry) → Updated entry es (update_first names entry es)
  unfolding update_first
  update_first_lem entry [] = tt
  update_first_lem entry (x ∷ es) = elim (Bool-cases (same_finding names entry x)) [
    | inl p ↦ rw (p) (record {
      before = [];
      old = x;
      later = es;
      was = refl;
      is = refl;
      first = tt;
      same = p;
      merged = refl;
    })
    | inr p ↦ rw (p) (later (update_first names entry es) (update_first_lem entry es) p)
  ]
    where
      later :
          (o : Option (LedgerEntry × List LedgerEntry))
          → Updated entry es o
          → same_finding names entry x ≡ false
          → Updated entry
              (x ∷ es)
              (elim o [ none ↦ none | some (found, changed) ↦ some (found, x ∷ changed) ])
      later none absent different = (different, absent)
      later (some (found, changed)) r different =
          Replaced-later entry x es changed found different r

  save_lem :
      (entry found : LedgerEntry) (is_new is_new' : Bool) (es es' : List LedgerEntry)
      → save names entry is_new es ≡ recorded found is_new' es'
      → (validate_entries es' ≡ true) × (entry ≡ found) × (is_new ≡ is_new') × (es ≡ es')
  save_lem entry found is_new is_new' es es' h = elim (Bool-cases (validate_entries es)) [
    | inl p ↦ ground arith
    | inr p ↦ absurd (ground arith)
  ]

  -- What the recorded finding is, and the entries that the file then has.
  abbrev pub Recorded :
      LedgerEntry → List LedgerEntry → LedgerEntry → Bool → List LedgerEntry → Type 0
  Recorded entry disk found false disk' = Replaced entry disk found disk'
  Recorded entry disk found true disk' =
      Absent entry disk
      × (found ≡ completed names (length disk) entry)
      × (disk' ≡ disk ++ found ∷ [])

  saved :
      (entry found : LedgerEntry) (is_new : Bool) (disk disk' : List LedgerEntry)
      (o : Option (LedgerEntry × List LedgerEntry))
      → Updated entry disk o
      → save_updated names entry disk o ≡ recorded found is_new disk'
      → (validate_entries disk' ≡ true) × Recorded entry disk found is_new disk'
  saved entry found is_new disk disk' none absent h =
      let c = completed names (length disk) entry in
      let (valid, e, n, s) = save_lem c found true is_new (disk ++ c ∷ []) disk' h in
      (
        valid,
        subst (λ (b : Bool). Recorded entry disk found b disk') n
            (absent, sym e, sym s ∙ ap (λ (x : LedgerEntry). disk ++ x ∷ []) e),
      )
  saved entry found is_new disk disk' (some (merged, changed)) r h =
      let (valid, e, n, s) = save_lem merged found false is_new changed disk' h in
      (
        valid,
        subst (λ (b : Bool). Recorded entry disk found b disk') n
            (subst (λ (x : LedgerEntry). Replaced entry disk x disk') e
              (subst (λ (x : List LedgerEntry). Replaced entry disk merged x) s r)),
      )

  pub record_finding_lem :
      (entry found : LedgerEntry) (is_new : Bool) (disk disk' : List LedgerEntry)
      → record_finding names entry disk ≡ recorded found is_new disk'
      → (validate_entries disk' ≡ true) × Recorded entry disk found is_new disk'
  unfolding record_finding
  record_finding_lem entry found is_new disk disk' h = elim (Bool-cases (validate_entries disk)) [
    | inl p ↦
        saved entry found is_new disk disk' (update_first names entry disk)
          (update_first_lem entry disk) (rw (p) at h)
    | inr p ↦ absurd (ground arith)
  ]

  -- The entries carry the numbers from `n + 1` on.
  abbrev pub Numbered : ℕ → List LedgerEntry → Type 0
  Numbered n [] = Unit
  Numbered n (e ∷ es) = (e.id ≡ names.numbered (n + 1)) × Numbered (n + 1) es

  Numbered-replace :
      (n : ℕ) (before later : List LedgerEntry) (old found : LedgerEntry)
      → found.id ≡ old.id
      → Numbered n (before ++ old ∷ later)
      → Numbered n (before ++ found ∷ later)
  Numbered-replace n [] later old found e h = (e ∙ h.0, h.1)
  Numbered-replace n (x ∷ before) later old found e h =
      (h.0, Numbered-replace (n + 1) before later old found e h.1)

  Numbered-snoc :
      (n : ℕ) (es : List LedgerEntry) (found : LedgerEntry)
      → found.id ≡ names.numbered (n + length es + 1)
      → Numbered n es
      → Numbered n (es ++ found ∷ [])
  Numbered-snoc n [] found e h = (e ∙ ap names.numbered (omega arith), tt)
  Numbered-snoc n (x ∷ es) found e h =
      (h.0, Numbered-snoc (n + 1) es found (e ∙ ap names.numbered (omega arith)) h.1)

  keep_dismissal-id : (old merged : LedgerEntry) → (keep_dismissal old merged).id ≡ merged.id
  keep_dismissal-id old merged = ground arith

  -- Ids are stable: the entry at each place of the file keeps its number, and a new entry gets the
  -- next one.
  pub record_finding-Numbered :
      (entry found : LedgerEntry) (is_new : Bool) (disk disk' : List LedgerEntry)
      → record_finding names entry disk ≡ recorded found is_new disk'
      → Numbered 0 disk
      → Numbered 0 disk'
  record_finding-Numbered entry found is_new disk disk' h n =
      by_outcome is_new (record_finding_lem entry found is_new disk disk' h).1
    where
      by_outcome : (b : Bool) → Recorded entry disk found b disk' → Numbered 0 disk'
      by_outcome true (absent, e, s) =
          subst (Numbered 0) (sym s)
            (Numbered-snoc 0 disk found (ap LedgerEntry.id e ∙ ap names.numbered (omega arith)) n)
      by_outcome false r = subst (Numbered 0) (sym r.is) (
          Numbered-replace 0 r.before r.later r.old found
            (ap LedgerEntry.id r.merged ∙ keep_dismissal-id r.old (merge entry r.old))
            (subst (Numbered 0) r.was n))

  -- The dismissal with this id is in the file.
  abbrev pub Dismissed : String → List LedgerEntry → Type 0
  Dismissed id es = (e : LedgerEntry) × Memᴰ e es × (e.id ≡ id) × (e.status ≡ "false_positive")

  keep_dismissal-status :
      (old merged : LedgerEntry)
      → old.status ≡ "false_positive"
      → (keep_dismissal old merged).status ≡ "false_positive"
  keep_dismissal-status old merged h = ground (arith, string_eq.beq_iff old.status "false_positive")

  -- A dismissed finding stays dismissed, whatever is recorded, its own report again included.
  pub record_finding-Dismissed :
      (entry found : LedgerEntry) (is_new : Bool) (disk disk' : List LedgerEntry) (id : String)
      → record_finding names entry disk ≡ recorded found is_new disk'
      → Dismissed id disk
      → Dismissed id disk'
  record_finding-Dismissed entry found is_new disk disk' id h (e, at, same, dismissed) =
      by_outcome is_new (record_finding_lem entry found is_new disk disk' h).1
    where
      replaced :
          (r : Replaced entry disk found disk')
          → (Memᴰ e r.before ⊎ Memᴰ e (r.old ∷ r.later))
          → Dismissed id disk'
      replaced r (inl early) =
          (e, subst (Memᴰ e) (sym r.is) (Memᴰ.append_left _ early), same, dismissed)
      replaced r (inr late) = elim (Memᴰ.cases_cons late) [
        | inl here ↦ (
          found,
          subst (Memᴰ found) (sym r.is) (Memᴰ.append_right r.before (Memᴰ.head refl)),
          ap LedgerEntry.id r.merged
              ∙ keep_dismissal-id r.old (merge entry r.old)
              ∙ sym (ap LedgerEntry.id here)
              ∙ same,
          ap LedgerEntry.status r.merged
              ∙ keep_dismissal-status r.old (merge entry r.old)
                  (sym (ap LedgerEntry.status here) ∙ dismissed),
        )
        | inr after ↦ (
          e,
          subst (Memᴰ e) (sym r.is) (Memᴰ.append_right r.before (Memᴰ.tail after)),
          same,
          dismissed,
        )
      ]

      by_outcome : (b : Bool) → Recorded entry disk found b disk' → Dismissed id disk'
      by_outcome true (absent, _, s) =
          (e, subst (Memᴰ e) (sym s) (Memᴰ.append_left _ at), same, dismissed)
      by_outcome false r = replaced r (Memᴰ.append_cases r.before (subst (Memᴰ e) r.was at))
