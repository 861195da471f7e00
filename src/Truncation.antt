-- ===== src/Truncation.antt =====
-- `truncate_tool_output` of src/local_coder/context/compression.py. A text is the list of its code
-- points, and `splitlines` is the parameter `lines_of`. `int(n * 0.6)` is written out for natural
-- numbers. The notice in the middle is its two numbers; the copy of the text on disk is not
-- modelled.
pub mod Budget
use mathlib.Core.List.{reverse}
use local_coding_agent.Base.{
  ℕ, zero, suc, ◌+◌, ◌-◌, ◌*◌, ◌/◌, Bool, true, false, ◌&&◌, ◌||◌, List, [], ◌∷◌, ◌++◌,
  if◌then◌else◌, ltb, leb, ◌==◌, nat_eq, length, sum, take, drop, last_of,
}

abbrev pub Line : Type 0
Line = List ℕ

-- `int(n * 0.6)`
abbrev pub sixty_percent : ℕ → ℕ
sixty_percent n = n * 3 / 5

-- The loop that fills one end: lines while their number and their size, with a line break each, fit.
unfoldable pub fill : ℕ → ℕ → ℕ → ℕ → List Line → List Line
fill lines_max budget count used [] = []
fill lines_max budget count used (line ∷ lines) =
    let more = fill lines_max budget (count + 1) (used + length line + 1) lines in
    if leb lines_max count || ltb budget (used + length line + 1) then [] else line ∷ more

-- `xs[-n:]`, where `n` may be 0
abbrev pub slice_last : ℕ → Line → Line
slice_last n xs = if n == 0 then xs else last_of n xs

abbrev pub last_line : Line → List Line → Line
last_line line [] = line
last_line line (next ∷ lines) = last_line next lines

pub record Ends : Type 0 where
  pub head : List Line
  pub tail : List Line

-- What is kept where no line fits either end.
abbrev pub cut_lines : ℕ → ℕ → List Line → Ends
cut_lines head_budget tail_budget [] = record { head = []; tail = [] }
cut_lines head_budget tail_budget (line ∷ []) = record {
  head = take head_budget line ∷ [];
  tail = [];
}
cut_lines head_budget tail_budget (line ∷ next ∷ lines) = record {
  head = take head_budget line ∷ [];
  tail = slice_last tail_budget (last_line next lines) ∷ [];
}

abbrev pub or_cut : ℕ → ℕ → List Line → List Line → List Line → Ends
or_cut head_budget tail_budget lines [] [] = cut_lines head_budget tail_budget lines
or_cut head_budget tail_budget lines head tail = record { head = head; tail = tail }

unfoldable pub kept_ends : ℕ → ℕ → List Line → Ends
unfolding fill
kept_ends max_chars max_lines lines =
    let head_budget = sixty_percent max_chars in
    let tail_budget = max_chars - head_budget in
    let head_lines_max = sixty_percent max_lines in
    let head = fill head_lines_max head_budget 0 0 lines in
    let tail =
      reverse
        (fill (max_lines - head_lines_max) tail_budget 0 0 (reverse (drop (length head) lines))) in
    or_cut head_budget tail_budget lines head tail

pub data Output : Type 0 where
  unchanged : Output
  -- the lines kept, and the lines and characters that the notice counts as left out
  cut : Ends → ℕ → ℕ → Output

-- `sum(len(line) + 1 for line in …)`
abbrev pub lines_chars : List Line → ℕ
lines_chars = sum (λ line. length line + 1)

module _ (lines_of : Line → List Line) where
  unfoldable pub truncate_tool_output : Line → ℕ → ℕ → Output
  unfolding kept_ends
  truncate_tool_output text max_chars max_lines =
      let lines = lines_of text in
      let ends = kept_ends max_chars max_lines lines in
      if leb (length text) max_chars && leb (length lines) max_lines
      then unchanged
      else cut ends (length lines - length ends.head - length ends.tail)
          (length text - lines_chars (ends.head ++ ends.tail))
