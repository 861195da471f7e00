-- ===== src/ReviewBatches/Packing.antt =====
-- The batches of a review hold every file that can be read, and keep to the size where a batch can.
use local_coding_agent.Base.{
  ℕ, ◌+◌, ◌≤◌, String, true, false, ◌&&◌, ◌≡◌, refl, sym, ap, ◌∙◌, ◌⊎◌, inl, inr, Option, some,
  List, [], ◌∷◌, ◌++◌, ltb, ltb→le, arith, Bool-cases, Option-cases, append_assoc, append-nil,
  length,
}
use local_coding_agent.ReviewBatches.{by_size, has_files, flush, fill, plan_batches, total_chars}

abbrev pub concat : List (List String) → List String
concat [] = []
concat (b ∷ bs) = b ++ concat bs

module _ (size : String → Option ℕ) (ranked : List String → List String) where
  -- The files that can be read, in their order.
  abbrev pub readable : List String → List String
  readable [] = []
  readable (rel ∷ rels) = by_size (size rel) (readable rels) (λ n. rel ∷ readable rels)

  -- A batch has a file, and is one file alone or within the size.
  abbrev pub FitsChars : ℕ → List String → Type 0
  FitsChars batch_chars b =
      (has_files b ≡ true) × ((length b ≤ 1) ⊎ (total_chars size ranked b ≤ batch_chars))

  abbrev pub AllFit : ℕ → List (List String) → Type 0
  AllFit batch_chars [] = Unit
  AllFit batch_chars (b ∷ bs) = FitsChars batch_chars b × AllFit batch_chars bs

  total_chars-snoc :
      (b : List String) (rel : String) (n : ℕ)
      → size rel ≡ some n
      → total_chars size ranked (b ++ rel ∷ []) ≡ total_chars size ranked b + n
  unfolding total_chars
  total_chars-snoc [] rel n h = rw (h) (omega arith)
  total_chars-snoc (x ∷ b) rel n h = elim (Option-cases (size x)) [
    | inl p ↦ rw (p) (total_chars-snoc b rel n h)
    | inr (m, p) ↦ rw (p) (omega (arith, total_chars-snoc b rel n h))
  ]

  -- The batch being filled: empty, or fitting.
  abbrev Filling : ℕ → List String → Type 0
  Filling batch_chars [] = Unit
  Filling batch_chars (f ∷ fs) = FitsChars batch_chars (f ∷ fs)

  flush_lem :
      (batch_chars : ℕ) (current : List String)
      → Filling batch_chars current
      → (concat (flush current) ≡ current) × AllFit batch_chars (flush current)
  flush_lem batch_chars [] h = (refl, tt)
  flush_lem batch_chars (f ∷ fs) h = (append-nil (f ∷ fs), (h, tt))

  Filling-snoc :
      (batch_chars : ℕ) (current : List String) (rel : String) (n : ℕ)
      → size rel ≡ some n
      → (has_files current && ltb batch_chars (total_chars size ranked current + n)) ≡ false
      → Filling batch_chars (current ++ rel ∷ [])
  Filling-snoc batch_chars [] rel n h p = (refl, inl (omega arith))
  Filling-snoc batch_chars (f ∷ fs) rel n h p =
      (refl, inr (omega (arith, total_chars-snoc (f ∷ fs) rel n h, ltb→le _ _ p)))

  Filling-FitsChars :
      (batch_chars : ℕ) (current : List String)
      → has_files current ≡ true
      → Filling batch_chars current
      → FitsChars batch_chars current
  Filling-FitsChars batch_chars [] p h = absurd (ground arith)
  Filling-FitsChars batch_chars (f ∷ fs) p h = h

  fill_lem :
      (batch_chars : ℕ) (rels current : List String) (used : ℕ)
      → used ≡ total_chars size ranked current
      → Filling batch_chars current
      → (concat (fill size ranked batch_chars rels current used) ≡ current ++ readable rels)
        × AllFit batch_chars (fill size ranked batch_chars rels current used)
  unfolding fill
  fill_lem batch_chars [] current used u h =
      let (p, q) = flush_lem batch_chars current h in (p ∙ sym (append-nil current), q)
  fill_lem batch_chars (rel ∷ rels) current used u h = elim (Option-cases (size rel)) [
    | inl gone ↦ rw (gone) (fill_lem batch_chars rels current used u h)
    | inr (n, e) ↦ elim (Bool-cases (has_files current && ltb batch_chars (used + n))) [
      | inl full ↦
          let (p, q) =
            fill_lem batch_chars rels (rel ∷ []) n (unfold total_chars in rw (e) (omega arith))
              (refl, inl (omega arith)) in
          rw (e, full)
            (
              ap (λ (x : List String). current ++ x) p,
              (Filling-FitsChars batch_chars current (ground arith) h, q),
            )
      | inr room ↦
          let (p, q) =
            fill_lem batch_chars rels (current ++ rel ∷ []) (used + n)
              (omega (arith, u, total_chars-snoc current rel n e))
              (Filling-snoc batch_chars current rel n e
                (ap (λ t. has_files current && ltb batch_chars (t + n)) (sym u) ∙ room)) in
          rw (e, room) (p ∙ append_assoc current (rel ∷ []) (readable rels), q)
    ]
  ]

  -- The batches of a review hold every file that can be read, once and in the order of the ranking;
  -- none is empty, and a batch of more than one file is within the size.
  pub plan_batches_lem :
      (files : List String) (batch_chars : ℕ)
      → (concat (plan_batches size ranked files batch_chars) ≡ readable (ranked files))
        × AllFit batch_chars (plan_batches size ranked files batch_chars)
  unfolding plan_batches
  plan_batches_lem files batch_chars =
      fill_lem batch_chars (ranked files) [] 0 (unfold total_chars in refl) tt
