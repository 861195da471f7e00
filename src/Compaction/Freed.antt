-- ===== src/Compaction/Freed.antt =====
-- What `prune_tool_outputs` of src/local_coder/context/compression.py changes in a history.
use local_coding_agent.Base.{
  ℕ, ◌+◌, ◌-◌, ◌<◌, ◌≡◌, ◌⊎◌, inl, inr, refl, sym, ap, subst, ◌∙◌, String, string_eq, nat_eq, Bool,
  true, not, ◌&&◌, ◌||◌, Option, some, List, [], ◌∷◌, ltb, ltb→lt, length, sum, arith, Bool-cases,
  and_true, or_false, not-false,
}
use local_coding_agent.Base.Dict.{Dict}
use local_coding_agent.Compaction.{
  Text, Message, message_chars, is_tool, tool_call_signatures, summarize_history,
}
use local_coding_agent.Compaction.Rounds.{summarize_history-IsPaired}
use local_coding_agent.Compaction.Groups.{IsPaired, next_ids}
use local_coding_agent.Compaction.Pruning.{
  with_content, Scan, Visited, Scanned, Passed, pruned_output, superseded_output, is_cleared,
  is_superseded, visit, scan, clears, clear_pass, clear_candidates, messages_of, prune_tool_outputs,
}

module _ (text_of : String → Text) where
  -- A message after the pruning: the same, or a result of a tool whose content became a marker that
  -- is shorter.
  abbrev pub IsPrunedTo : Message → Message → Type 0
  IsPrunedTo m n =
      (n ≡ m)
      ⊎ ((is_tool m ≡ true)
          × (length n.content < length m.content)
          × ((n ≡ with_content (pruned_output text_of) m)
              ⊎ (n ≡ with_content (superseded_output text_of) m)))

  abbrev pub ArePrunedTo : List Message → List Message → Type 0
  ArePrunedTo [] [] = Unit
  ArePrunedTo (m ∷ ms) (n ∷ ns) = IsPrunedTo m n × ArePrunedTo ms ns
  ArePrunedTo _ _ = ⊥

  -- The visited messages are the messages, pruned, and only results of tools are candidates.
  abbrev AreVisited : List Message → List Visited → Type 0
  AreVisited [] [] = Unit
  AreVisited (m ∷ ms) (v ∷ vs) =
      (IsPrunedTo m v.message × (v.candidate ≡ true → is_tool m ≡ true)) × AreVisited ms vs
  AreVisited _ _ = ⊥

  module _ (signatures : Dict String String) (outcomes : Dict String Bool) (protect_chars : ℕ)
      (prune_recent_successes : Bool) where
    visit_lem :
        (m : Message) (s : Scan)
        → is_tool m ≡ true
        → let (t, v) = visit text_of signatures outcomes protect_chars prune_recent_successes m s in
          IsPrunedTo m v.message × (t.freed + length v.message.content ≡ s.freed + length m.content)
    unfolding visit
    visit_lem m s tool =
        let stale : Bool =
          is_superseded text_of signatures outcomes protect_chars prune_recent_successes m s in
        elim (Bool-cases (stale && ltb (length (superseded_output text_of)) (length m.content))) [
          | inl shrinks ↦
              let shorter : length (superseded_output text_of) < length m.content =
                ltb→lt (length (superseded_output text_of)) (length m.content)
                  (and_true stale _ shrinks).1 in
              rw (shrinks) (inr (tool, shorter, inr refl), omega (arith, shorter))
          | inr keeps ↦ rw (keeps) (inl refl, refl)
        ]

    scan_lem :
        (messages : List Message)
        → let scanned =
            scan text_of signatures outcomes protect_chars prune_recent_successes messages in
          AreVisited messages scanned.visited
          × (scanned.state.freed + message_chars (messages_of scanned.visited)
              ≡ message_chars messages)
    unfolding scan
    scan_lem [] = (tt, refl)
    scan_lem (m ∷ messages) = elim (Bool-cases (not (is_tool m) || is_cleared text_of m.content)) [
      | inl skip ↦
          let (visited, freed) = scan_lem messages in
          rw (skip) (((inl refl, λ c. absurd (ground arith)), visited), omega (arith, freed))
      | inr result ↦
          let (visited, freed) = scan_lem messages in
          let tool : is_tool m ≡ true = not-false (is_tool m) (or_false _ _ result).0 in
          let (pruned, freed') =
            visit_lem m
              (scan text_of signatures outcomes protect_chars prune_recent_successes messages).state
              tool in
          rw (result) (((pruned, λ c. tool), visited), omega (arith, freed, freed'))
    ]

  clear_IsPrunedTo :
      (m n : Message)
      → is_tool m ≡ true
      → length (pruned_output text_of) < length n.content
      → IsPrunedTo m n
      → IsPrunedTo m (with_content (pruned_output text_of) n)
  clear_IsPrunedTo m n tool long (inl same) = inr (
    tool,
    subst (λ k. length (pruned_output text_of) < length k.content) same long,
    inl (ap (with_content (pruned_output text_of)) same),
  )
  clear_IsPrunedTo m n tool long (inr (t, shorter, inl p)) =
      inr (t, omega (arith, long, shorter), inl (ap (with_content (pruned_output text_of)) p))
  clear_IsPrunedTo m n tool long (inr (t, shorter, inr p)) =
      inr (t, omega (arith, long, shorter), inl (ap (with_content (pruned_output text_of)) p))

  module _ (message_size : Message → ℕ) (outcomes : Dict String Bool)
      (target_chars : Option ℕ) where
    clear_pass_lem :
        (rank size freed : ℕ) (messages : List Message) (vs : List Visited)
        → AreVisited messages vs
        → let passed = clear_pass text_of message_size outcomes target_chars rank size freed vs in
          AreVisited messages passed.visited
          × (passed.freed + message_chars (messages_of passed.visited)
              ≡ freed + message_chars (messages_of vs))
    unfolding clear_pass
    clear_pass_lem rank size freed [] [] h = (tt, refl)
    clear_pass_lem rank size freed [] (v ∷ vs) h = absurd h
    clear_pass_lem rank size freed (m ∷ ms) [] h = absurd h
    clear_pass_lem rank size freed (m ∷ ms) (v ∷ vs) h =
        elim (Bool-cases (clears text_of message_size outcomes target_chars rank size v)) [
          | inl clear ↦
              let cleared : Message = with_content (pruned_output text_of) v.message in
              let (visited, freed') =
                clear_pass_lem rank (size + message_size cleared - message_size v.message)
                  (freed + (length v.message.content - length (pruned_output text_of))) ms vs h.1 in
              let (first, long) =
                and_true _ (ltb (length (pruned_output text_of)) (length v.message.content))
                  clear in
              let longer : length (pruned_output text_of) < length v.message.content =
                ltb→lt (length (pruned_output text_of)) (length v.message.content) long in
              let tool : is_tool m ≡ true =
                h.0.1 (and_true v.candidate _ (and_true _ _ (and_true _ _ clear).0).0).0 in
              rw (clear) (
                ((clear_IsPrunedTo m v.message tool longer h.0.0, h.0.1), visited),
                omega (arith, freed', longer),
              )
          | inr keep ↦
              let (visited, freed') = clear_pass_lem rank size freed ms vs h.1 in
              rw (keep) ((h.0, visited), omega (arith, freed'))
        ]

    clear_candidates_lem :
        (messages : List Message) (scanned : Scanned)
        → AreVisited messages scanned.visited
        → let passed = clear_candidates text_of message_size outcomes target_chars scanned in
          AreVisited messages passed.visited
          × (passed.freed + message_chars (messages_of passed.visited)
              ≡ scanned.state.freed + message_chars (messages_of scanned.visited))
    unfolding clear_candidates
    clear_candidates_lem messages scanned h =
        let size : ℕ = sum (λ v. message_size v.message) scanned.visited in
        let successes : Passed =
          clear_pass text_of message_size outcomes target_chars 0 size scanned.state.freed
            scanned.visited in
        let unknown : Passed =
          clear_pass text_of message_size outcomes target_chars 1 successes.size successes.freed
            successes.visited in
        let (visited0, freed0) =
          clear_pass_lem 0 size scanned.state.freed messages scanned.visited h in
        let (visited1, freed1) =
          clear_pass_lem 1 successes.size successes.freed messages successes.visited visited0 in
        let (visited2, freed2) =
          clear_pass_lem 2 unknown.size unknown.freed messages unknown.visited visited1 in
        (visited2, freed2 ∙ freed1 ∙ freed0)

  visited-ArePrunedTo :
      (messages : List Message) (vs : List Visited)
      → AreVisited messages vs
      → ArePrunedTo messages (messages_of vs)
  visited-ArePrunedTo [] [] h = tt
  visited-ArePrunedTo [] (v ∷ vs) h = absurd h
  visited-ArePrunedTo (m ∷ ms) [] h = absurd h
  visited-ArePrunedTo (m ∷ ms) (v ∷ vs) h = (h.0.0, visited-ArePrunedTo ms vs h.1)

  pruned_role :
      (m n : Message)
      → IsPrunedTo m n
      → (is_tool n ≡ is_tool m)
        × (n.tool_call_id ≡ m.tool_call_id)
        × ((ids : List String) → next_ids ids n ≡ next_ids ids m)
  pruned_role m n (inl same) =
      (ap is_tool same, ap (λ k. k.tool_call_id) same, λ ids. ap (next_ids ids) same)
  pruned_role m n (inr (t, shorter, inl p)) =
      (ap is_tool p, ap (λ k. k.tool_call_id) p, λ ids. ap (next_ids ids) p)
  pruned_role m n (inr (t, shorter, inr p)) =
      (ap is_tool p, ap (λ k. k.tool_call_id) p, λ ids. ap (next_ids ids) p)

  ArePrunedTo-IsPaired :
      (ids : List String) (ms ns : List Message)
      → ArePrunedTo ms ns
      → IsPaired ids ms
      → IsPaired ids ns
  ArePrunedTo-IsPaired ids [] [] p h = tt
  ArePrunedTo-IsPaired ids [] (n ∷ ns) p h = absurd p
  ArePrunedTo-IsPaired ids (m ∷ ms) [] p h = absurd p
  ArePrunedTo-IsPaired ids (m ∷ ms) (n ∷ ns) p h =
      let (tool, answers, next) = pruned_role m n p.0 in
      (
        λ t. let (id, own, called) = h.0 (sym tool ∙ t) in (id, answers ∙ own, called),
        subst (λ xs. IsPaired xs ns) (sym (next ids))
            (ArePrunedTo-IsPaired (next_ids ids m) ms ns p.1 h.1),
      )

  -- Pruning changes no message but the results of tools, and of them only the content, which becomes
  -- one of the two markers and shorter than it was. The characters counted as freed are those by
  -- which the contents became shorter.
  pub prune_tool_outputs_lem :
      (message_size : Message → ℕ) (messages : List Message) (protect_chars : ℕ)
      (outcomes : Dict String Bool) (target_chars : Option ℕ) (prune_recent_successes : Bool)
      → let (result, freed) =
          prune_tool_outputs text_of message_size messages protect_chars outcomes target_chars
            prune_recent_successes in
        ArePrunedTo messages result × (freed + message_chars result ≡ message_chars messages)
  unfolding prune_tool_outputs
  prune_tool_outputs_lem message_size messages protect_chars outcomes target_chars
        prune_recent_successes =
      let signatures : Dict String String = tool_call_signatures messages [] in
      let scanned : Scanned =
        scan text_of signatures outcomes protect_chars prune_recent_successes messages in
      let passed : Passed = clear_candidates text_of message_size outcomes target_chars scanned in
      let (visited, freed) =
        scan_lem signatures outcomes protect_chars prune_recent_successes messages in
      let (visited', freed') =
        clear_candidates_lem message_size outcomes target_chars messages scanned visited in
      (visited-ArePrunedTo messages passed.visited visited', freed' ∙ freed)

  -- Where each result of a tool in a history answers, by its id, one of the calls of the assistant's
  -- message that it stands behind, with only tool and system messages in between, each still does
  -- after the history has been pruned, and after the pruned history has been summarized.
  pub compaction-IsPaired :
      (message_size : Message → ℕ) (summarize : List Message → List Message → Option Text)
      (messages result : List Message) (protect_chars keep_recent_chars : ℕ)
      (outcomes : Dict String Bool) (target_chars : Option ℕ) (prune_recent_successes : Bool)
      → IsPaired [] messages
      → let pruned =
          (prune_tool_outputs text_of message_size messages protect_chars outcomes target_chars
            prune_recent_successes).0 in
        summarize_history summarize pruned keep_recent_chars ≡ some result
        → IsPaired [] pruned × IsPaired [] result
  compaction-IsPaired message_size summarize messages result protect_chars keep_recent_chars
        outcomes target_chars prune_recent_successes h same =
      let pruned : List Message =
        (prune_tool_outputs text_of message_size messages protect_chars outcomes target_chars
          prune_recent_successes).0 in
      let kept : IsPaired [] pruned =
        ArePrunedTo-IsPaired [] messages pruned
          (prune_tool_outputs_lem message_size messages protect_chars outcomes target_chars
            prune_recent_successes).0
          h in
      (kept, summarize_history-IsPaired summarize pruned result keep_recent_chars kept same)
