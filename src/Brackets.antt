-- ===== src/Brackets.antt =====
-- `_close_brackets` of src/local_coder/agents/tool_repair.py. A text is the list of its code points.
pub mod Closing
use local_coding_agent.Base.{
  ℕ, Bool, true, false, ◌&&◌, ◌||◌, Option, none, some, List, [], ◌∷◌, ◌++◌, if◌then◌else◌, ◌==◌,
  nat_eq,
}

-- The variables of the loop. The top of the stack stands first, so the stack is read off in the
-- order of `reversed(stack)`.
pub record Scan : Type 0 where
  pub stack : List ℕ
  pub quote : Option ℕ
  pub escaped : Bool

abbrev pub top_is : ℕ → List ℕ → Bool
top_is ch [] = false
top_is ch (x ∷ xs) = x == ch

abbrev pub pop : List ℕ → List ℕ
pop [] = []
pop (x ∷ xs) = xs

-- Outside a quoted text.
unfoldable pub plain_step : ℕ → Scan → Scan
plain_step ch s =
    if ch == b'"' || ch == 39
    then record s { quote = some ch }
    else if ch == b'{'
    then record s { stack = b'}' ∷ s.stack }
    else if ch == b'['
    then record s { stack = b']' ∷ s.stack }
    else if (ch == b'}' || ch == b']') && top_is ch s.stack
    then record s { stack = pop s.stack }
    else s

-- Inside a text that `q` quotes.
unfoldable pub quoted_step : ℕ → ℕ → Scan → Scan
quoted_step q ch s =
    if s.escaped
    then record s { escaped = false }
    else if ch == 92
    then record s { escaped = true }
    else if ch == q
    then record s { quote = none }
    else s

unfoldable pub step : ℕ → Scan → Scan
unfolding plain_step quoted_step
step ch s = elim s.quote [ none ↦ plain_step ch s | some q ↦ quoted_step q ch s ]

unfoldable pub scan : Scan → List ℕ → Scan
scan s [] = s
scan s (ch ∷ text) = scan (step ch s) text

abbrev pub start : Scan
start = record { stack = []; quote = none; escaped = false }

abbrev pub quote_text : Option ℕ → List ℕ
quote_text none = []
quote_text (some q) = q ∷ []

unfoldable pub close_brackets : List ℕ → List ℕ
close_brackets text = let s = scan start text in text ++ (quote_text s.quote ++ s.stack)
