-- ===== src/Examples/Texts.antt =====
-- Texts that stop early: `{"a` and `{"a` with a backslash behind it.
use local_coding_agent.Base.{ℕ, ◌≡◌, refl, true, false, some, List, [], ◌∷◌}
use local_coding_agent.Brackets.{scan, start, step, plain_step, quoted_step, close_brackets}
use local_coding_agent.Brackets.Closing.{scan-close_brackets, close_brackets_escaped}

abbrev cut_text : List ℕ
cut_text = b'{' ∷ b'"' ∷ b'a' ∷ []

abbrev cut_escape : List ℕ
cut_escape = b'{' ∷ b'"' ∷ b'a' ∷ 92 ∷ []

cut_text-escaped : (scan start cut_text).escaped ≡ false
unfolding scan step plain_step quoted_step
cut_text-escaped = refl

scan-close_brackets_example : scan start (close_brackets cut_text) ≡ start
scan-close_brackets_example = scan-close_brackets cut_text cut_text-escaped

cut_escape-quote : (scan start cut_escape).quote ≡ some b'"'
unfolding scan step plain_step quoted_step
cut_escape-quote = refl

cut_escape-escaped : (scan start cut_escape).escaped ≡ true
unfolding scan step plain_step quoted_step
cut_escape-escaped = refl

close_brackets_escaped_example : (scan start (close_brackets cut_escape)).quote ≡ some b'"'
close_brackets_escaped_example =
    close_brackets_escaped cut_escape b'"' cut_escape-quote cut_escape-escaped
