-- ===== src/Truncation/Budget.antt =====
-- How much of a long output `truncate_tool_output` keeps, and which part.
use mathlib.Core.List.{reverse, reverse-append, reverse-reverse}
use local_coding_agent.Base.{
  ℕ, zero, suc, ◌+◌, ◌-◌, ◌≤◌, ◌<◌, ◌≡◌, ◌≢◌, ◌⊎◌, inl, inr, refl, sym, ap, ◌∙◌, ◌&&◌, ◌||◌, false,
  List, [], ◌∷◌, ◌++◌, ltb, leb, length, sum, take, drop, length-append, length-last_of, arith,
  length-reverse, sum-reverse, drop-append, Bool-cases, sum-append,
}
use local_coding_agent.Truncation.{
  Line, sixty_percent, fill, slice_last, last_line, Ends, cut_lines, or_cut, kept_ends, unchanged,
  cut, lines_chars, truncate_tool_output,
}

-- What `fill` keeps is a prefix, within its number of lines and its characters.
fill_prefix :
    (lines_max budget count used : ℕ) (lines : List Line)
    → (rest : List Line) × (lines ≡ fill lines_max budget count used lines ++ rest)
      × (used ≤ budget → used + lines_chars (fill lines_max budget count used lines) ≤ budget)
      × (count ≤ lines_max → count + length (fill lines_max budget count used lines) ≤ lines_max)
unfolding fill
fill_prefix lines_max budget count used [] =
    ([], refl, λ h. omega (arith, h), λ h. omega (arith, h))
fill_prefix lines_max budget count used (line ∷ lines) =
    elim (Bool-cases (leb lines_max count || ltb budget (used + length line + 1))) [
      | inl stop ↦ rw (stop) (line ∷ lines, refl, λ h. omega (arith, h), λ h. omega (arith, h))
      | inr fits ↦
          let (rest, same, chars, number) =
            fill_prefix lines_max budget (count + 1) (used + length line + 1) lines in
          rw (fits) (
            rest,
            ap (◌∷◌ line) same,
            λ h. omega (arith, chars (ground (arith, fits))),
            λ h. omega (arith, number (ground (arith, fits))),
          )
    ]

-- What it keeps of the other end is a suffix, within the same bounds.
fill_suffix :
    (lines_max budget : ℕ) (lines : List Line)
    → (rest : List Line) × (lines ≡ rest ++ reverse (fill lines_max budget 0 0 (reverse lines)))
      × (lines_chars (reverse (fill lines_max budget 0 0 (reverse lines))) ≤ budget)
      × (length (reverse (fill lines_max budget 0 0 (reverse lines))) ≤ lines_max)
fill_suffix lines_max budget lines =
    let kept : List Line = fill lines_max budget 0 0 (reverse lines) in
    let (rest, same, chars, number) = fill_prefix lines_max budget 0 0 (reverse lines) in
    (
      reverse rest,
      sym (reverse-reverse lines) ∙ ap reverse same ∙ reverse-append kept rest,
      omega (arith, chars (omega arith), sum-reverse (λ line. length line + 1) kept),
      omega (arith, number (omega arith), length-reverse kept),
    )

-- The two ends of a text, and what the middle is.
pub record Parts (lines : List Line) (max_chars max_lines : ℕ) (head tail : List Line)
    : Type 0 where
  pub middle : List Line
  pub whole : lines ≡ head ++ (middle ++ tail)
  pub chars : lines_chars (head ++ tail) ≤ max_chars
  pub number : length (head ++ tail) ≤ max_lines

abbrev pub head_lines : ℕ → ℕ → List Line → List Line
head_lines max_chars max_lines lines =
    fill (sixty_percent max_lines) (sixty_percent max_chars) 0 0 lines

abbrev pub tail_lines : ℕ → ℕ → List Line → List Line
tail_lines max_chars max_lines lines = reverse (
    fill (max_lines - sixty_percent max_lines) (max_chars - sixty_percent max_chars) 0 0
      (reverse (drop (length (head_lines max_chars max_lines lines)) lines)))

ends_Parts :
    (max_chars max_lines : ℕ) (lines : List Line)
    → Parts lines max_chars max_lines
        (head_lines max_chars max_lines lines)
        (tail_lines max_chars max_lines lines)
ends_Parts max_chars max_lines lines =
    let head : List Line = head_lines max_chars max_lines lines in
    let tail : List Line = tail_lines max_chars max_lines lines in
    let (rest, same, chars, number) =
      fill_prefix (sixty_percent max_lines) (sixty_percent max_chars) 0 0 lines in
    let (middle, split, chars', number') =
      fill_suffix (max_lines - sixty_percent max_lines) (max_chars - sixty_percent max_chars)
        (drop (length head) lines) in
    let after : drop (length head) lines ≡ rest =
      ap (drop (length head)) same ∙ drop-append head rest in
    record {
      middle = middle;
      whole = same ∙ ap (λ xs. head ++ xs) (sym after ∙ split);
      chars =
          omega
            (arith, sum-append (λ line. length line + 1) head tail, chars (omega arith), chars');
      number = omega (arith, length-append head tail, number (omega arith), number');
    }

length-take : (n : ℕ) (xs : Line) → length (take n xs) ≤ n
length-take zero xs = omega arith
length-take (suc n) [] = omega arith
length-take (suc n) (x ∷ xs) = omega (arith, length-take n xs)

length-slice_last : (n : ℕ) (xs : Line) → 0 < n → length (slice_last n xs) ≤ n
length-slice_last n xs h = ground (arith, length-last_of n xs)

-- What is kept where no line fits: at most the start of the first line and the end of the last.
abbrev pub WithoutLines : ℕ → ℕ → List Line → Ends → Type 0
WithoutLines max_chars max_lines lines ends =
    (head_lines max_chars max_lines lines ≡ [])
    × (tail_lines max_chars max_lines lines ≡ [])
    × (ends ≡ cut_lines (sixty_percent max_chars) (max_chars - sixty_percent max_chars) lines)
    × (sum length (ends.head ++ ends.tail) ≤ max_chars)

cut_lines_chars :
    (max_chars : ℕ) (lines : List Line)
    → 0 < max_chars
    → let ends = cut_lines (sixty_percent max_chars) (max_chars - sixty_percent max_chars) lines in
      sum length (ends.head ++ ends.tail) ≤ max_chars
cut_lines_chars max_chars [] h = omega arith
cut_lines_chars max_chars (line ∷ []) h = omega (arith, length-take (sixty_percent max_chars) line)
cut_lines_chars max_chars (line ∷ next ∷ lines) h = omega (
  arith,
  length-take (sixty_percent max_chars) line,
  length-slice_last (max_chars - sixty_percent max_chars) (last_line next lines) (omega (arith, h)),
)

or_cut_lem :
    (max_chars max_lines : ℕ) (lines head tail : List Line)
    → 0 < max_chars
    → Parts lines max_chars max_lines head tail
    → head_lines max_chars max_lines lines ≡ head
    → tail_lines max_chars max_lines lines ≡ tail
    → let ends =
        or_cut (sixty_percent max_chars) (max_chars - sixty_percent max_chars) lines head tail in
      (Parts lines max_chars max_lines ends.head ends.tail × (ends.head ++ ends.tail ≢ []))
      ⊎ WithoutLines max_chars max_lines lines ends
or_cut_lem max_chars max_lines lines [] [] h parts p q =
    inr (p, q, refl, cut_lines_chars max_chars lines h)
or_cut_lem max_chars max_lines lines [] (x ∷ tail) h parts p q = inl (parts, λ e. ground arith)
or_cut_lem max_chars max_lines lines (x ∷ head) tail h parts p q = inl (parts, λ e. ground arith)

kept_ends_lem :
    (max_chars max_lines : ℕ) (lines : List Line)
    → 0 < max_chars
    → (Parts lines max_chars max_lines
          (kept_ends max_chars max_lines lines).head
          (kept_ends max_chars max_lines lines).tail
        × ((kept_ends max_chars max_lines lines).head ++ (kept_ends max_chars max_lines lines).tail
            ≢ []))
      ⊎ WithoutLines max_chars max_lines lines (kept_ends max_chars max_lines lines)
unfolding kept_ends
kept_ends_lem max_chars max_lines lines h =
    or_cut_lem max_chars max_lines lines (head_lines max_chars max_lines lines)
      (tail_lines max_chars max_lines lines) h (ends_Parts max_chars max_lines lines) refl refl

over_limit :
    (text : Line) (lines : List Line) (max_chars max_lines : ℕ)
    → (leb (length text) max_chars && leb (length lines) max_lines) ≡ false
    → (max_chars < length text) ⊎ (max_lines < length lines)
over_limit text lines max_chars max_lines h = elim (Bool-cases (leb (length text) max_chars)) [
  | inl short ↦ inr (ground (arith, h, short))
  | inr long ↦ inl (ground (arith, long))
]

pub truncate_tool_output_lem :
    (lines_of : Line → List Line) (text : Line) (max_chars max_lines : ℕ)
    → 0 < max_chars
    → ((truncate_tool_output lines_of text max_chars max_lines ≡ unchanged)
        × (length text ≤ max_chars)
        × (length (lines_of text) ≤ max_lines))
      ⊎ ((ends : Ends) × (left_lines : ℕ) × (left_chars : ℕ) × ((max_chars < length text)
            ⊎ (max_lines < length (lines_of text)))
          × (truncate_tool_output lines_of text max_chars max_lines
              ≡ cut ends left_lines left_chars)
          × ((Parts (lines_of text) max_chars max_lines ends.head ends.tail
                × (ends.head ++ ends.tail ≢ []))
              ⊎ WithoutLines max_chars max_lines (lines_of text) ends))
unfolding truncate_tool_output
truncate_tool_output_lem lines_of text max_chars max_lines h =
    elim (Bool-cases (leb (length text) max_chars && leb (length (lines_of text)) max_lines)) [
      | inl fits ↦ inl (rw (fits) refl, ground (arith, fits), ground (arith, fits))
      | inr over ↦
          let ends : Ends = kept_ends max_chars max_lines (lines_of text) in
          inr (
            ends,
            length (lines_of text) - length ends.head - length ends.tail,
            length text - lines_chars (ends.head ++ ends.tail),
            over_limit text (lines_of text) max_chars max_lines over,
            rw (over) refl,
            kept_ends_lem max_chars max_lines (lines_of text) h,
          )
    ]
