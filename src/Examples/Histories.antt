-- ===== src/Examples/Histories.antt =====
-- A history in which the same file is read twice, pruned and summarized.
use local_coding_agent.Base.{
  true, inl, inr, sym, subst, Memᴰ, Memᴰ-cons, ℕ, nat_eq, ◌+◌, ◌≡◌, refl, String, string_eq, false,
  Option, some, none, List, [], ◌∷◌, length, arith,
}
use local_coding_agent.Base.Dict.{lookup, insert}
use local_coding_agent.Compaction.{
  is_within, checked_summary, Text, Message, message_chars, head_end, split, tail_start,
  summarize_history, summary_message,
}
use mathlib.Core.List.Memᴰ
use local_coding_agent.Compaction.Facts.{summarize_history-facts}
use local_coding_agent.Compaction.Pruning.{
  visit, scan, clear_pass, clear_candidates, prune_tool_outputs,
}
use local_coding_agent.Compaction.Rounds.{IsParted, IsReplaced, summarize_history_lem}
use local_coding_agent.Compaction.Groups.{IsPaired}
use local_coding_agent.Compaction.Freed.{ArePrunedTo, prune_tool_outputs_lem, compaction-IsPaired}

-- Every literal is two characters long.
abbrev two_chars : String → Text
two_chars literal = 91 ∷ 93 ∷ []

abbrev content_size : Message → ℕ
content_size m = length m.content + 20

abbrev says : String → Text → Message
says role content = record {
  role = role;
  content = content;
  tool_calls = [];
  tool_call_id = none;
  name = none;
  reasoning_content = none;
}

abbrev reads_file : String → Message
reads_file id = record (says "assistant" []) {
  tool_calls = record { id = id; name = "read_file"; arguments = "{}" } ∷ [];
}

abbrev read_result : String → Text → Message
read_result id content = record (says "tool" content) { tool_call_id = some id }

abbrev two_reads : List Message
two_reads =
    says "user" (1 ∷ [])
    ∷ reads_file "c1"
    ∷ read_result "c1" (5 ∷ 5 ∷ 5 ∷ 5 ∷ [])
    ∷ reads_file "c2"
    ∷ read_result "c2" (5 ∷ 5 ∷ 5 ∷ 6 ∷ [])
    ∷ []

abbrev one_read : List Message
one_read =
    says "user" (1 ∷ [])
    ∷ reads_file "c1"
    ∷ read_result "c1" (91 ∷ 93 ∷ [])
    ∷ reads_file "c2"
    ∷ read_result "c2" (5 ∷ 5 ∷ 5 ∷ 6 ∷ [])
    ∷ []

two_reads-prune :
    prune_tool_outputs two_chars content_size two_reads 9 [] none false ≡ (one_read, 2)
unfolding prune_tool_outputs scan visit clear_candidates clear_pass lookup insert
two_reads-prune = refl

abbrev short_summary : List Message → List Message → Option Text
short_summary before middle = some (7 ∷ [])

abbrev summarized_read : List Message
summarized_read =
    says "user" (1 ∷ [])
    ∷ summary_message (7 ∷ [])
    ∷ reads_file "c2"
    ∷ read_result "c2" (5 ∷ 5 ∷ 5 ∷ 6 ∷ [])
    ∷ []

one_read-summarize : summarize_history short_summary one_read 5 ≡ some summarized_read
unfolding summarize_history head_end split tail_start
one_read-summarize = refl

pruned-summarize :
    summarize_history short_summary
      (prune_tool_outputs two_chars content_size two_reads 9 [] none false).0
      5
    ≡ some summarized_read
unfolding prune_tool_outputs scan visit clear_candidates clear_pass lookup insert summarize_history
    head_end split tail_start
pruned-summarize = refl

two_reads-IsPaired : IsPaired [] two_reads
two_reads-IsPaired = (
  λ t. absurd (ground arith),
  (
    λ t. absurd (ground arith),
    (λ t. ("c1", refl, refl), (λ t. absurd (ground arith), (λ t. ("c2", refl, refl), tt))),
  ),
)

prune_tool_outputs_lem_example :
    let (result, freed) = prune_tool_outputs two_chars content_size two_reads 9 [] none false in
    ArePrunedTo two_chars two_reads result
    × (freed + message_chars result ≡ message_chars two_reads)
prune_tool_outputs_lem_example =
    prune_tool_outputs_lem two_chars content_size two_reads 9 [] none false

summarize_history_lem_example :
    (before middle : List Message) × (tail : List (List Message)) × IsParted one_read 5 before
      middle tail
    × IsReplaced short_summary before middle tail (summarize_history short_summary one_read 5)
summarize_history_lem_example = summarize_history_lem short_summary one_read 5

compaction-IsPaired_example :
    IsPaired [] (prune_tool_outputs two_chars content_size two_reads 9 [] none false).0
    × IsPaired [] summarized_read
compaction-IsPaired_example =
    compaction-IsPaired two_chars content_size short_summary two_reads summarized_read 9 5 [] none
      false two_reads-IsPaired pruned-summarize

-- The only fact in a message is its second code point, where there is one.
abbrev second_char : Text → List Text
second_char [] = []
second_char (c ∷ []) = []
second_char (c ∷ d ∷ cs) = (d ∷ []) ∷ []

abbrev facts_in : Message → List Text
facts_in m = second_char m.content

abbrev writes_fives : List Message → List Message → Text
writes_fives before middle = 8 ∷ 5 ∷ []

abbrev five_summary : List Message
five_summary =
    says "user" (1 ∷ [])
    ∷ summary_message (7 ∷ 8 ∷ 5 ∷ [])
    ∷ reads_file "c2"
    ∷ read_result "c2" (5 ∷ 5 ∷ 5 ∷ 6 ∷ [])
    ∷ []

two_reads-summarize :
    summarize_history (checked_summary facts_in writes_fives (7 ∷ [])) two_reads 5
    ≡ some five_summary
unfolding summarize_history checked_summary head_end split tail_start
two_reads-summarize = refl

second_char-is_within :
    (text : Text) (g : Text) → Memᴰ g (second_char text) → is_within g text ≡ true
second_char-is_within [] g m = absurd (Memᴰ.not-nil m)
second_char-is_within (c ∷ []) g m = absurd (Memᴰ.not-nil m)
second_char-is_within (c ∷ d ∷ cs) g m = elim ((Memᴰ-cons g (d ∷ []) []).0 m) [
  | inl same ↦ subst (λ x. is_within x (c ∷ d ∷ cs) ≡ true) (sym same) (ground arith)
  | inr gone ↦ absurd (Memᴰ.not-nil gone)
]

summarize_history-facts_example :
    (n : Message) × Memᴰ n five_summary × (is_within (5 ∷ []) n.content ≡ true)
summarize_history-facts_example =
    summarize_history-facts facts_in writes_fives (7 ∷ []) two_reads five_summary 5
      (read_result "c1" (5 ∷ 5 ∷ 5 ∷ 5 ∷ [])) (5 ∷ [])
      (λ n g m. second_char-is_within n.content g m) two_reads-summarize
      (Memᴰ.tail (Memᴰ.tail (Memᴰ.head refl))) (Memᴰ.head refl)
