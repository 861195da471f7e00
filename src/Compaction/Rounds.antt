-- ===== src/Compaction/Rounds.antt =====
-- What `summarize_history` of src/local_coder/context/compression.py keeps of a history.
use local_coding_agent.Base.{
  ℕ, ◌≤◌, ◌≡◌, ◌≢◌, ◌⊎◌, inl, inr, refl, sym, ap, subst, ◌∙◌, string_eq, Option, none, some, List,
  [], ◌∷◌, ◌++◌, length, arith, Option-cases, Bool-cases, ◌<◌, ◌+◌,
}
use local_coding_agent.Compaction.{
  Text, Message, message_chars, head_end, groups, concat, Cut, tail_start, summary_message,
  summarize_history, unless_empty, replace_middle,
}
use local_coding_agent.Compaction.Groups.{
  IsPaired, IsGrouping, groups-IsGrouping, IsPaired-tail, concat-append, groups_whole,
}
use local_coding_agent.Compaction.Ends.{
  StartsTurn, IsCut, tail_start-IsCut, IsPreamble, head_end_lem, IsPaired-of_preamble,
  preamble-IsPaired,
}

-- How a history is taken apart: the messages before the first of an assistant or a tool, those that
-- a summary replaces, and the recent end, of whole groups, as many as its characters allow.
pub record IsParted (messages : List Message) (keep_recent_chars : ℕ) (before middle : List Message)
    (tail : List (List Message)) : Type 0 where
  pub whole : before ++ (middle ++ concat tail) ≡ messages
  pub preamble : IsPreamble before
  pub first_turn : StartsTurn (middle ++ concat tail)
  pub grouped :
      (gs : List (List Message)) × (concat gs ≡ middle)
      × IsGrouping (gs ++ tail)
      × ((gs ≡ [])
          ⊎ ((earlier : List (List Message)) × (g : List Message) × (gs ≡ earlier ++ g ∷ [])
              × (keep_recent_chars < message_chars (concat tail) + message_chars g)))
  pub fits : (message_chars (concat tail) ≤ keep_recent_chars) ⊎ (length tail ≤ 1)

-- A history without a summary, or with one in the place of the middle.
abbrev pub IsReplaced :
    (List Message → List Message → Option Text)
    → List Message
    → List Message
    → List (List Message)
    → Option (List Message)
    → Type 0
IsReplaced summarize before middle tail result =
    ((result ≡ none) × ((middle ≡ []) ⊎ (summarize before middle ≡ none)))
    ⊎ ((summary : Text) × (middle ≢ [])
        × (summarize before middle ≡ some summary)
        × (result ≡ some (before ++ (summary_message summary ∷ concat tail))))

pub some_injective : {A : Type 0} (a b : A) → some a ≡ some b → a ≡ b
some_injective a b h = ground arith

module _ (summarize : List Message → List Message → Option Text) where
  abbrev pub cut_of : List Message → ℕ → Cut
  cut_of messages keep_recent_chars = tail_start keep_recent_chars (groups (head_end messages).from)

  IsPaired-result :
      (early : List Message) (gs : List (List Message)) (summary : Text)
      → IsPreamble early
      → IsPaired [] (concat gs)
      → IsPaired [] (early ++ (summary_message summary ∷ concat gs))
  IsPaired-result early gs summary preamble ok =
      preamble-IsPaired early (summary_message summary ∷ concat gs) preamble
        (λ tool. absurd (ground arith), ok)

  parted :
      (messages : List Message) (keep_recent_chars : ℕ)
      → let c = cut_of messages keep_recent_chars in
        IsParted messages keep_recent_chars (head_end messages).before (concat c.middle) c.tail
  parted messages keep_recent_chars =
      let late : List Message = (head_end messages).from in
      let c : Cut = cut_of messages keep_recent_chars in
      let (split_whole, preamble, starts) = head_end_lem messages in
      let cut : IsCut keep_recent_chars (groups late) c =
        tail_start-IsCut keep_recent_chars (groups late) in
      let rejoined : concat c.middle ++ concat c.tail ≡ late =
        sym (concat-append c.middle c.tail) ∙ ap concat cut.whole ∙ groups_whole late in
      record {
        whole = ap (λ ms. (head_end messages).before ++ ms) rejoined ∙ split_whole;
        preamble = preamble;
        first_turn = subst StartsTurn (sym rejoined) starts;
        grouped = (
          c.middle,
          refl,
          subst IsGrouping (sym cut.whole) (groups-IsGrouping late),
          elim (Bool-cases c.ended) [
            | inr more ↦ inl (cut.unended more)
            | inl ended ↦
                let (earlier, g, same, over) = cut.over ended in
                inr (earlier, g, same, omega (arith, over, cut.counted))
          ],
        );
        fits = elim cut.fits [
          | inl within ↦ inl (omega (arith, within, cut.counted))
          | inr alone ↦ inr alone
        ];
      }

  -- Every history has three parts: the messages in front of the first of an assistant or a tool; then
  -- a middle and a recent end, of whole groups, a group being a message with, where it calls tools,
  -- all tool and system messages behind it. The recent end is within its characters, or at most one
  -- group, and it could not take the last group of the middle, where there is one, as well. The
  -- history comes back summarized unless the middle is empty or the model gives no summary of it:
  -- the messages in front and the recent end are kept as they are, and one message of the summary
  -- takes the place of the middle.
  pub summarize_history_lem :
      (messages : List Message) (keep_recent_chars : ℕ)
      → (before middle : List Message) × (tail : List (List Message)) × IsParted messages
          keep_recent_chars before middle tail
        × IsReplaced summarize before middle tail
            (summarize_history summarize messages keep_recent_chars)
  unfolding summarize_history
  summarize_history_lem messages keep_recent_chars =
      let c : Cut = cut_of messages keep_recent_chars in
      (
        (head_end messages).before,
        concat c.middle,
        c.tail,
        parted messages keep_recent_chars,
        replaced (head_end messages).before (concat c.middle) c.tail,
      )
    where
      replaced :
          (before middle : List Message) (tail : List (List Message))
          → IsReplaced summarize before middle tail
              (unless_empty middle (replace_middle before (concat tail) (summarize before middle)))
      replaced before [] tail = inl (refl, inl refl)
      replaced before (m ∷ ms) tail = elim (Option-cases (summarize before (m ∷ ms))) [
        | inl failed ↦ inl (rw (failed) refl, inr failed)
        | inr (summary, given) ↦ inr (summary, (λ e. ground arith), given, rw (given) refl)
      ]

  pub summarize_history-IsPaired :
      (messages result : List Message) (keep_recent_chars : ℕ)
      → IsPaired [] messages
      → summarize_history summarize messages keep_recent_chars ≡ some result
      → IsPaired [] result
  summarize_history-IsPaired messages result keep_recent_chars p h =
      let (before, middle, tail, apart, answer) =
        summarize_history_lem messages keep_recent_chars in
      let (gs, joined, grouping, more) = apart.grouped in
      let whole : before ++ concat (gs ++ tail) ≡ messages =
        ap (λ ms. before ++ ms) (concat-append gs tail ∙ ap (λ ms. ms ++ concat tail) joined)
        ∙ apart.whole in
      let late : IsPaired [] (concat (gs ++ tail)) =
        IsPaired-of_preamble before (concat (gs ++ tail)) apart.preamble
          (subst (IsPaired []) (sym whole) p) in
      elim answer [
        | inl (failed, why) ↦ absurd (ground (arith, failed, h))
        | inr (summary, some_middle, given, same) ↦
            subst (IsPaired [])
              (some_injective (before ++ (summary_message summary ∷ concat tail)) result
                (sym same ∙ h))
              (IsPaired-result before tail summary apart.preamble
                (IsPaired-tail gs tail grouping late))
      ]
