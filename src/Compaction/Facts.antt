-- ===== src/Compaction/Facts.antt =====
-- The recorded facts that survive `summarize_history` of src/local_coder/context/compression.py.
use local_coding_agent.Base.{
  ℕ, nat_eq, ◌≡◌, inl, inr, refl, sym, ap, subst, ◌∙◌, Bool, true, not, ◌||◌, Option, some, List,
  [], ◌∷◌, ◌++◌, all, Memᴰ, Memᴰ-cons, Memᴰ-append, arith, Bool-cases, and_true, or_false,
  not-false,
}
use mathlib.Core.List.Memᴰ
use local_coding_agent.Compaction.{
  Text, Message, is_within, is_blank, required_facts, compaction_fidelity, accept, checked_summary,
  summarize_history, summary_message, concat,
}
use local_coding_agent.Compaction.Rounds.{some_injective, summarize_history_lem}

all_of_Memᴰ :
    {A : Type 0} (p : A → Bool) (xs : List A) (a : A) → all p xs ≡ true → Memᴰ a xs → p a ≡ true
all_of_Memᴰ p [] a h m = absurd (Memᴰ.not-nil m)
all_of_Memᴰ p (x ∷ xs) a h m =
    let (first, rest) = and_true (p x) (all p xs) h in
    elim ((Memᴰ-cons a x xs).0 m) [
      | inl same ↦ ap p same ∙ first
      | inr later ↦ all_of_Memᴰ p xs a rest later
    ]

is_within-append :
    (fact before text : Text) → is_within fact text ≡ true → is_within fact (before ++ text) ≡ true
is_within-append fact [] text h = h
is_within-append fact (c ∷ before) text h = ground (arith, is_within-append fact before text h)

-- A fact of a message that is kept, or of one that the summary stands for.
survivor :
    (before middle tail : List Message) (summary : Text) (m : Message) (fact : Text)
    → is_within fact m.content ≡ true
    → Memᴰ m (before ++ (middle ++ tail))
    → (Memᴰ m middle → is_within fact summary ≡ true)
    → (n : Message) × Memᴰ n (before ++ (summary_message summary ∷ tail))
      × (is_within fact n.content ≡ true)
survivor before middle tail summary m fact own place replaced =
    elim ((Memᴰ-append m before (middle ++ tail)).0 place) [
      | inl early ↦ (m, (Memᴰ-append m before (summary_message summary ∷ tail)).1 (inl early), own)
      | inr late ↦ elim ((Memᴰ-append m middle tail).0 late) [
        | inl gone ↦ (
          summary_message summary,
          (Memᴰ-append (summary_message summary) before (summary_message summary ∷ tail)).1
              (inr (Memᴰ.head refl)),
          replaced gone,
        )
        | inr recent ↦ (
          m,
          (Memᴰ-append m before (summary_message summary ∷ tail)).1 (inr (Memᴰ.tail recent)),
          own,
        )
      ]
    ]

module _ (facts_of : Message → List Text) (generate : List Message → List Message → Text)
    (summary_prefix : Text) where
  required_of_Memᴰ :
      (messages : List Message) (m : Message) (fact : Text)
      → Memᴰ m messages
      → Memᴰ fact (facts_of m)
      → Memᴰ fact (required_facts facts_of generate summary_prefix messages)
  required_of_Memᴰ [] m fact here f = absurd (Memᴰ.not-nil here)
  required_of_Memᴰ (x ∷ messages) m fact here f =
      (Memᴰ-append fact (facts_of x) (required_facts facts_of generate summary_prefix messages)).1
        (elim ((Memᴰ-cons m x messages).0 here) [
          | inl same ↦ inl (subst (λ y. Memᴰ fact (facts_of y)) same f)
          | inr later ↦ inr (required_of_Memᴰ messages m fact later f)
        ])

  accept_keeps :
      (middle : List Message) (written summary : Text) (m : Message) (fact : Text)
      → accept facts_of generate summary_prefix middle written ≡ some summary
      → Memᴰ m middle
      → Memᴰ fact (facts_of m)
      → is_within fact summary ≡ true
  accept_keeps middle written summary m fact h here f =
      elim (Bool-cases (
        is_blank written
        || not (compaction_fidelity facts_of generate summary_prefix middle written))) [
          | inl bad ↦ absurd (ground (arith, (rw (bad) at h)))
          | inr good ↦
              let passed : compaction_fidelity facts_of generate summary_prefix middle written
                  ≡ true =
                not-false _ (or_false _ _ good).1 in
              let inside : is_within fact written ≡ true =
                all_of_Memᴰ (λ x. is_within x written)
                  (required_facts facts_of generate summary_prefix middle) fact passed
                  (required_of_Memᴰ middle m fact here f) in
              subst (λ s. is_within fact s ≡ true)
                (some_injective (summary_prefix ++ written) summary (rw (good) at h))
                (is_within-append fact summary_prefix written inside)
        ]

  -- Where each fact that is found in a message stands in its content, each fact of the history that
  -- was summarized stands in the content of a message of the new history.
  pub summarize_history-facts :
      (messages result : List Message) (keep_recent_chars : ℕ) (m : Message) (fact : Text)
      → ((n : Message) (g : Text) → Memᴰ g (facts_of n) → is_within g n.content ≡ true)
      → summarize_history
          (checked_summary facts_of generate summary_prefix)
          messages
          keep_recent_chars
        ≡ some result
      → Memᴰ m messages
      → Memᴰ fact (facts_of m)
      → (n : Message) × Memᴰ n result × (is_within fact n.content ≡ true)
  unfolding checked_summary
  summarize_history-facts messages result keep_recent_chars m fact found h here f =
      let summarize : List Message → List Message → Option Text =
        checked_summary facts_of generate summary_prefix in
      let (before, middle, tail, apart, answer) =
        summarize_history_lem summarize messages keep_recent_chars in
      elim answer [
        | inl (failed, why) ↦ absurd (ground (arith, failed, h))
        | inr (summary, some_middle, given, same) ↦
            let after : List Message = summary_message summary ∷ concat tail in
            let made : before ++ after ≡ result =
              some_injective (before ++ after) result (sym same ∙ h) in
            let place : Memᴰ m (before ++ (middle ++ concat tail)) =
              subst (Memᴰ m) (sym apart.whole) here in
            let own : is_within fact m.content ≡ true = found m fact f in
            let (n, there, inside) =
              survivor before middle (concat tail) summary m fact own place (λ gone.
                accept_keeps middle (generate before middle) summary m fact given gone f) in
            (n, subst (Memᴰ n) made there, inside)
      ]
