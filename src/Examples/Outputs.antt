-- ===== src/Examples/Outputs.antt =====
-- A long output, cut to eight characters and four lines; its lines end at the code point 10.
use local_coding_agent.Base.{
  ◌<◌, ◌≢◌, ◌++◌, ℕ, nat_eq, ◌≡◌, ◌≤◌, ◌⊎◌, refl, List, [], ◌∷◌, if◌then◌else◌, ◌==◌, length, arith,
}
use local_coding_agent.Truncation.{
  Line, fill, kept_ends, Ends, unchanged, cut, truncate_tool_output,
}
use local_coding_agent.Truncation.Budget.{Parts, WithoutLines, truncate_tool_output_lem}

abbrev onto_first : ℕ → List Line → List Line
onto_first c [] = (c ∷ []) ∷ []
onto_first c (l ∷ ls) = (c ∷ l) ∷ ls

abbrev split_lines : Line → List Line
split_lines [] = []
split_lines (c ∷ cs) = if c == 10 then [] ∷ split_lines cs else onto_first c (split_lines cs)

abbrev numbered_lines : Line
numbered_lines = 1 ∷ 10 ∷ 2 ∷ 2 ∷ 10 ∷ 3 ∷ 3 ∷ 10 ∷ 4 ∷ 4 ∷ 10 ∷ 5 ∷ []

truncate_ends :
    truncate_tool_output split_lines numbered_lines 8 4
    ≡ cut (record { head = (1 ∷ []) ∷ []; tail = (5 ∷ []) ∷ [] }) 3 8
unfolding truncate_tool_output kept_ends fill
truncate_ends = refl

truncate_tool_output_lem_example :
    ((truncate_tool_output split_lines numbered_lines 8 4 ≡ unchanged)
      × (length numbered_lines ≤ 8)
      × (length (split_lines numbered_lines) ≤ 4))
    ⊎ ((ends : Ends) × (left_lines : ℕ) × (left_chars : ℕ) × ((8 < length numbered_lines)
          ⊎ (4 < length (split_lines numbered_lines)))
        × (truncate_tool_output split_lines numbered_lines 8 4 ≡ cut ends left_lines left_chars)
        × ((Parts (split_lines numbered_lines) 8 4 ends.head ends.tail
              × (ends.head ++ ends.tail ≢ []))
            ⊎ WithoutLines 8 4 (split_lines numbered_lines) ends))
truncate_tool_output_lem_example =
    truncate_tool_output_lem split_lines numbered_lines 8 4 (omega arith)
