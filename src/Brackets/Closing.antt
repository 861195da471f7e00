-- ===== src/Brackets/Closing.antt =====
-- The text that `close_brackets` returns is closed, unless it was cut off behind a backslash.
use local_coding_agent.Base.{
  ℕ, ◌≡◌, refl, ap, ◌⊎◌, inl, inr, ◌∙◌, Bool, true, false, all, ◌||◌, ◌==◌, nat_eq, Option, none,
  some, List, [], ◌∷◌, ◌++◌, arith, Option-cases,
}
use local_coding_agent.Brackets.{
  Scan, plain_step, quoted_step, step, scan, start, quote_text, close_brackets,
}

abbrev is_closer : ℕ → Bool
is_closer x = x == b'}' || x == b']'

abbrev QuoteOk : Option ℕ → Bool → Type 0
QuoteOk none escaped = escaped ≡ false
QuoteOk (some q) escaped = (q ≡ b'"') ⊎ (q ≡ 39)

record IsScan (s : Scan) : Type 0 where
  closers : all is_closer s.stack ≡ true
  quoting : QuoteOk s.quote s.escaped

plain_step-IsScan : (ch : ℕ) (s : Scan) → s.quote ≡ none → IsScan s → IsScan (plain_step ch s)
unfolding plain_step
plain_step-IsScan ch s open_text h = by_stack s.stack refl
  where
    by_stack : (xs : List ℕ) → s.stack ≡ xs → IsScan (plain_step ch s)
    by_stack [] e = ground (arith, h.quoting)
    by_stack (x ∷ xs) e = ground (arith, h.quoting)

quoted_step-IsScan :
    (q ch : ℕ) (s : Scan) → s.quote ≡ some q → IsScan s → IsScan (quoted_step q ch s)
unfolding quoted_step
quoted_step-IsScan q ch s quoted h = ground (arith, h.quoting)

step-IsScan : (ch : ℕ) (s : Scan) → IsScan s → IsScan (step ch s)
unfolding step
step-IsScan ch s h = elim (Option-cases s.quote) [
  | inl e ↦ rw (e, step) (plain_step-IsScan ch s e h)
  | inr (q, e) ↦ rw (e, step) (quoted_step-IsScan q ch s e h)
]

scan-IsScan : (s : Scan) (text : List ℕ) → IsScan s → IsScan (scan s text)
unfolding scan
scan-IsScan s [] h = h
scan-IsScan s (ch ∷ text) h = scan-IsScan (step ch s) text (step-IsScan ch s h)

scan-append : (s : Scan) (xs ys : List ℕ) → scan s (xs ++ ys) ≡ scan (scan s xs) ys
unfolding scan
scan-append s [] ys = refl
scan-append s (x ∷ xs) ys = scan-append (step x s) xs ys

-- The closers that the stack holds, read from the top, empty it.
scan-stack :
    (xs : List ℕ)
    → all is_closer xs ≡ true
    → scan (record { stack = xs; quote = none; escaped = false }) xs ≡ start
unfolding scan step
scan-stack [] h = refl
scan-stack (x ∷ xs) h = ground (arith, scan-stack xs)

-- Within a quoted text the closers change nothing.
scan-quoted :
    (q : ℕ) (xs stack : List ℕ)
    → (q ≡ b'"') ⊎ (q ≡ 39)
    → all is_closer xs ≡ true
    → scan (record { stack = stack; quote = some q; escaped = false }) xs
      ≡ record { stack = stack; quote = some q; escaped = false }
unfolding scan step
scan-quoted q [] stack k h = refl
scan-quoted q (x ∷ xs) stack k h = ground (arith, scan-quoted q xs stack k)

start-IsScan : IsScan start
start-IsScan = record { closers = refl; quoting = refl }

pub scan-close_brackets :
    (text : List ℕ) → (scan start text).escaped ≡ false → scan start (close_brackets text) ≡ start
unfolding close_brackets
scan-close_brackets text calm =
    scan-append start text (quote_text s.quote ++ s.stack) ∙ by_quote s.quote refl
  where
    s : Scan
    s = scan start text

    good : IsScan s
    good = scan-IsScan start text start-IsScan

    by_quote : (o : Option ℕ) → s.quote ≡ o → scan s (quote_text o ++ s.stack) ≡ start
    by_quote none e = rest s e calm good.closers
      where
        rest :
            (x : Scan)
            → x.quote ≡ none
            → x.escaped ≡ false
            → all is_closer x.stack ≡ true
            → scan x x.stack ≡ start
        rest x e c k = ground (arith, scan-stack x.stack)
    by_quote (some q) e = rest s e calm good.closers good.quoting
      where
        rest :
            (x : Scan)
            → x.quote ≡ some q
            → x.escaped ≡ false
            → all is_closer x.stack ≡ true
            → QuoteOk x.quote x.escaped
            → scan x (q ∷ x.stack) ≡ start
        rest x e c k quoting = unfold scan step in ground (arith, scan-stack x.stack)

-- A text that ends behind a backslash in a quoted text is not closed: the added quotation mark is
-- escaped, and the quotation stays open to the end.
pub close_brackets_escaped :
    (text : List ℕ) (q : ℕ)
    → (scan start text).quote ≡ some q
    → (scan start text).escaped ≡ true
    → (scan start (close_brackets text)).quote ≡ some q
unfolding close_brackets
close_brackets_escaped text q quoted cut =
    ap (λ (x : Scan). x.quote)
      (scan-append start text (quote_text s.quote ++ s.stack)
        ∙ still_open s quoted cut good.closers good.quoting)
  where
    s : Scan
    s = scan start text

    good : IsScan s
    good = scan-IsScan start text start-IsScan

    still_open :
        (x : Scan)
        → x.quote ≡ some q
        → x.escaped ≡ true
        → all is_closer x.stack ≡ true
        → QuoteOk x.quote x.escaped
        → scan x (quote_text x.quote ++ x.stack)
          ≡ record { stack = x.stack; quote = some q; escaped = false }
    still_open x e c k quoting = unfold scan step in ground (arith, scan-quoted q x.stack x.stack)
