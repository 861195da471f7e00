-- ===== src/ReviewBatches.antt =====
-- `plan_batches` of src/local_coder/security/batching.py. The order by risk, a call of `sorted`, is the
-- parameter `ranked`; a file's size is `none` where it cannot be read.
pub mod Packing
use local_coding_agent.Base.{
  ℕ, ◌+◌, String, Bool, true, false, ◌&&◌, Option, none, some, List, [], ◌∷◌, ◌++◌, if◌then◌else◌,
  ltb,
}

abbrev pub has_files : List String → Bool
has_files [] = false
has_files (f ∷ fs) = true

-- `if current: batches.append(current)`
abbrev pub flush : List String → List (List String)
flush [] = []
flush (f ∷ fs) = (f ∷ fs) ∷ []

-- `except OSError: continue` where the size is read
abbrev pub by_size : {A : Type 0} → Option ℕ → A → (ℕ → A) → A
by_size none skip use_size = skip
by_size (some n) skip use_size = use_size n

module _ (size : String → Option ℕ) (ranked : List String → List String) where
  -- The loop over the ranked files, with the batch being filled and its size; the batches that it
  -- closes stand first.
  unfoldable pub fill : ℕ → List String → List String → ℕ → List (List String)
  fill batch_chars [] current used = flush current
  fill batch_chars (rel ∷ rels) current used =
      by_size (size rel) (fill batch_chars rels current used) (λ n.
        let closed = current ∷ fill batch_chars rels (rel ∷ []) n in
        let kept = fill batch_chars rels (current ++ rel ∷ []) (used + n) in
        if has_files current && ltb batch_chars (used + n) then closed else kept)

  unfoldable pub plan_batches : List String → ℕ → List (List String)
  unfolding fill
  plan_batches files batch_chars = fill batch_chars (ranked files) [] 0

  -- `total_chars`
  unfoldable pub total_chars : List String → ℕ
  total_chars [] = 0
  total_chars (rel ∷ rels) = by_size (size rel) (total_chars rels) (λ n. n + total_chars rels)
