-- ===== src/Compaction/Ends.antt =====
-- Where `summarize_history` of src/local_coder/context/compression.py cuts a history: behind the
-- messages in front of the first turn, and in front of the recent groups.
use local_coding_agent.Base.{
  ℕ, ◌<◌, ◌+◌, ◌≤◌, ◌≡◌, ◌⊎◌, inl, inr, refl, sym, ap, subst, ◌∙◌, string_eq, true, false, not,
  ◌&&◌, ◌||◌, List, [], ◌∷◌, ◌++◌, ltb, ltb→le, ◌==◌, contains, sum-append, length, arith,
  Bool-cases,
}
use local_coding_agent.Compaction.{
  Message, message_chars, is_tool, head_end, concat, Cut, no_groups, take_group, tail_start,
}
use local_coding_agent.Compaction.Groups.{IsPaired, next_ids}

-- What the loop from the last group on has found.
pub record IsCut (keep_chars : ℕ) (gs : List (List Message)) (c : Cut) : Type 0 where
  pub whole : c.middle ++ c.tail ≡ gs
  pub unended : c.ended ≡ false → c.middle ≡ []
  pub over :
      c.ended ≡ true
      → (earlier : List (List Message)) × (g : List Message) × (c.middle ≡ earlier ++ g ∷ [])
        × (keep_chars < c.used + message_chars g)
  pub counted : c.used ≡ message_chars (concat c.tail)
  pub fits : (c.used ≤ keep_chars) ⊎ (length c.tail ≤ 1)

take_group-IsCut :
    (keep_chars : ℕ) (g : List Message) (gs : List (List Message)) (c : Cut)
    → IsCut keep_chars gs c
    → IsCut keep_chars (g ∷ gs) (take_group keep_chars g c)
take_group-IsCut keep_chars g gs c h =
    elim (Bool-cases
      (c.ended || (not (no_groups c.tail) && ltb keep_chars (c.used + message_chars g)))) [
        | inl stop ↦ rw (stop) (record {
          whole = ap (◌∷◌ g) h.whole;
          unended = λ e. absurd (ground arith);
          over = λ _. over_more (ground (arith, stop));
          counted = h.counted;
          fits = h.fits;
        })
        | inr more ↦ rw (more) (record {
          whole =
              ap (◌∷◌ g)
                (sym (ap (λ gs. gs ++ c.tail) (h.unended (ground (arith, more)))) ∙ h.whole);
          unended = λ _. refl;
          over = λ e. absurd (ground arith);
          counted = omega (arith, h.counted, sum-append (λ m. length m.content) g (concat c.tail));
          fits = fits_more c.tail (ground (arith, more));
        })
      ]
  where
    over_more :
        (c.ended || ltb keep_chars (c.used + message_chars g)) ≡ true
        → (earlier : List (List Message)) × (h : List Message) × (g ∷ c.middle ≡ earlier ++ h ∷ [])
          × (keep_chars < c.used + message_chars h)
    over_more full = elim (Bool-cases c.ended) [
      | inl already ↦
          let (earlier, last, same, more) = h.over already in
          (g ∷ earlier, last, ap (◌∷◌ g) same, more)
      | inr first ↦ ([], g, ap (◌∷◌ g) (h.unended first), ground (arith, full, first))
    ]

    fits_more :
        (tail : List (List Message))
        → (not (no_groups tail) && ltb keep_chars (c.used + message_chars g)) ≡ false
        → (c.used + message_chars g ≤ keep_chars) ⊎ (length (g ∷ tail) ≤ 1)
    fits_more [] e = inr (omega arith)
    fits_more (t ∷ ts) e = inl (ltb→le keep_chars (c.used + message_chars g) e)

pub tail_start-IsCut :
    (keep_chars : ℕ) (gs : List (List Message)) → IsCut keep_chars gs (tail_start keep_chars gs)
unfolding tail_start
tail_start-IsCut keep_chars [] = record {
  whole = refl;
  unended = λ _. refl;
  over = λ e. absurd (ground arith);
  counted = refl;
  fits = inl (omega arith);
}
tail_start-IsCut keep_chars (g ∷ gs) =
    take_group-IsCut keep_chars g gs (tail_start keep_chars gs) (tail_start-IsCut keep_chars gs)

-- In the head stand no messages of an assistant or a tool.
abbrev pub IsPreamble : List Message → Type 0
IsPreamble [] = Unit
IsPreamble (m ∷ messages) =
    (contains m.role ("assistant" ∷ "tool" ∷ []) ≡ false) × IsPreamble messages

-- The first message, where there is one, is of an assistant or a tool.
abbrev pub StartsTurn : List Message → Type 0
StartsTurn [] = Unit
StartsTurn (m ∷ messages) = contains m.role ("assistant" ∷ "tool" ∷ []) ≡ true

pub head_end_lem :
    (messages : List Message)
    → ((head_end messages).before ++ (head_end messages).from ≡ messages)
      × IsPreamble (head_end messages).before
      × StartsTurn (head_end messages).from
unfolding head_end
head_end_lem [] = (refl, tt, tt)
head_end_lem (m ∷ messages) = elim (Bool-cases (contains m.role ("assistant" ∷ "tool" ∷ []))) [
  | inl turn ↦ rw (turn) (refl, tt, turn)
  | inr early ↦
      let (same, early_all, starts) = head_end_lem messages in
      rw (early) (ap (◌∷◌ m) same, (early, early_all), starts)
]

preamble_ids :
    (m : Message) → contains m.role ("assistant" ∷ "tool" ∷ []) ≡ false → next_ids [] m ≡ []
preamble_ids m h =
    let other : (m.role == "assistant") ≡ false = ground (arith, h) in rw (other) (ground arith)

preamble_tool :
    (m : Message) → contains m.role ("assistant" ∷ "tool" ∷ []) ≡ false → is_tool m ≡ false
preamble_tool m h = ground (arith, h)

-- Behind a preamble the pairing starts anew.
pub IsPaired-of_preamble :
    (early messages : List Message)
    → IsPreamble early
    → IsPaired [] (early ++ messages)
    → IsPaired [] messages
IsPaired-of_preamble [] messages p h = h
IsPaired-of_preamble (m ∷ early) messages p h =
    IsPaired-of_preamble early messages p.1
      (subst (λ ids. IsPaired ids (early ++ messages)) (preamble_ids m p.0) h.1)

pub preamble-IsPaired :
    (early messages : List Message)
    → IsPreamble early
    → IsPaired [] messages
    → IsPaired [] (early ++ messages)
preamble-IsPaired [] messages p h = h
preamble-IsPaired (m ∷ early) messages p h = (
  λ tool. absurd (ground (arith, preamble_tool m p.0, tool)),
  subst (λ ids. IsPaired ids (early ++ messages)) (sym (preamble_ids m p.0))
      (preamble-IsPaired early messages p.1 h),
)
