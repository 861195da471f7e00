-- ===== src/ToolBatch/Batches.antt =====
-- The batches: together they are the calls in their order, and only declared reads share one.
use local_coding_agent.Base.{
  ℕ, zero, suc, ◌≤◌, ◌<◌, ◌≡◌, refl, ap, ◌⊎◌, inl, inr, ◌∙◌, true, all, some, List, [], ◌∷◌, ◌++◌,
  arith, length, Bool-cases,
}
use local_coding_agent.ToolBatch.{ToolEffects, concurrent, reads, after_reads, batches}

module _ {ℓ} {Call : Type ℓ} where
  abbrev pub concat : List (List Call) → List Call
  concat [] = []
  concat (b ∷ bs) = b ++ concat bs

module _ {ℓ} {Call : Type ℓ} (effects : Call → ToolEffects) where
  -- A batch of one call, or of up to `limit` declared reads.
  abbrev pub FitsBatch : ℕ → List Call → Type 0
  FitsBatch limit b =
      (0 < length b)
      × (length b ≤ limit)
      × ((length b ≡ 1) ⊎ (all (λ c. concurrent (effects c)) b ≡ true))

  abbrev pub AllFit : ℕ → List (List Call) → Type 0
  AllFit limit [] = Unit
  AllFit limit (b ∷ bs) = FitsBatch limit b × AllFit limit bs

  reads-append-after :
      (room : ℕ) (calls : List Call)
      → reads effects room calls ++ after_reads effects room calls ≡ calls
  unfolding reads after_reads
  reads-append-after zero calls = refl
  reads-append-after (suc room) [] = refl
  reads-append-after (suc room) (c ∷ calls) = elim (Bool-cases (concurrent (effects c))) [
    | inl r ↦ rw (r) (ap (◌∷◌ c) (reads-append-after room calls))
    | inr r ↦ rw (r)
  ]

  reads_lem :
      (room : ℕ) (calls : List Call)
      → (length (reads effects room calls) ≤ room)
        × (all (λ c. concurrent (effects c)) (reads effects room calls) ≡ true)
  unfolding reads
  reads_lem zero calls = (omega arith, refl)
  reads_lem (suc room) [] = (omega arith, refl)
  reads_lem (suc room) (c ∷ calls) = ground (arith, reads_lem room calls)

  after_reads-le :
      (room : ℕ) (calls : List Call) → length (after_reads effects room calls) ≤ length calls
  unfolding after_reads
  after_reads-le zero calls = omega arith
  after_reads-le (suc room) [] = omega arith
  after_reads-le (suc room) (c ∷ calls) = ground (arith, after_reads-le room calls)

  reads-cons :
      (c : Call) (room : ℕ) (calls : List Call)
      → concurrent (effects c) ≡ true
      → reads effects (suc room) (c ∷ calls) ≡ c ∷ reads effects room calls
  unfolding reads
  reads-cons c room calls h = rw (h)

  -- With as much fuel as calls the batches are made: every call stands in them, once and in its
  -- place, a batch holds at most `limit` calls, and where it holds more than one, all its calls are
  -- declared reads that are safe to retry.
  pub batches_lem :
      (f limit : ℕ) (calls : List Call)
      → 0 < limit
      → length calls ≤ f
      → (bs : List (List Call)) × (batches effects f limit calls ≡ some bs)
        × (concat bs ≡ calls)
        × AllFit limit bs
  unfolding batches after_reads
  batches_lem zero limit [] pos h = ([], refl, refl, tt)
  batches_lem zero limit (c ∷ calls) pos h = absurd (omega arith)
  batches_lem (suc f) limit [] pos h = ([], refl, refl, tt)
  batches_lem (suc f) zero (c ∷ calls) pos h = absurd (omega arith)
  batches_lem (suc f) (suc limit) (c ∷ calls) pos h = elim (Bool-cases (concurrent (effects c))) [
    | inr alone ↦
        let (bs, e, all_calls, fit) = batches_lem f (suc limit) calls pos (omega arith) in
        (
          (c ∷ []) ∷ bs,
          rw (alone, e),
          ap (◌∷◌ c) all_calls,
          ((omega arith, omega arith, inl refl), fit),
        )
    | inl together ↦
        let (bs, e, all_calls, fit) =
          batches_lem f (suc limit) (after_reads effects limit calls) pos
            (omega (arith, after_reads-le limit calls)) in
        let (short, safe) = reads_lem limit calls in
        (
          (c ∷ reads effects limit calls) ∷ bs,
          rw (together, e, reads-cons c limit calls together),
          ap (◌∷◌ c)
              (ap (◌++◌ (reads effects limit calls)) all_calls ∙ reads-append-after limit calls),
          ((omega arith, omega arith, inr (ground arith)), fit),
        )
  ]
