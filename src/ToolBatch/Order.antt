-- ===== src/ToolBatch/Order.antt =====
-- What is yielded keeps the order of the calls.
use local_coding_agent.Base.{
  ℕ, ◌≤◌, ◌≡◌, refl, sym, subst, ap, ◌∙◌, Bool, true, false, leb, ◌&&◌, Option, none, some, List,
  [], ◌∷◌, ◌++◌, arith, length, append_assoc, Memᴰ, Option-cases, inl, inr, ◌⊎◌,
}
use local_coding_agent.ToolBatch.{
  ToolEffects, gather, yield_all, run_batches, Scheduled, value_error, out_of_fuel, yields,
  scheduled_calls,
}
use local_coding_agent.ToolBatch.Batches.{concat, FitsBatch, AllFit, batches_lem}

module _ {Call Result : Type 0} (execute : Call → Option Result) where
  -- Each call of `calls` answered, and `out` is the calls with their answers.
  abbrev pub Answers : List Call → List (Call × Result) → Type 0
  Answers [] [] = Unit
  Answers (c ∷ calls) ((d, r) ∷ out) = (d ≡ c) × (execute c ≡ some r) × Answers calls out
  Answers _ _ = ⊥

  gather_lem :
      (calls : List Call) (out : List (Call × Result))
      → gather execute calls ≡ some out
      → Answers calls out
  unfolding gather
  gather_lem [] [] h = tt
  gather_lem [] (o ∷ out) h = absurd (ground arith)
  gather_lem (c ∷ calls) [] h = absurd (ground arith)
  gather_lem (c ∷ calls) ((d, r) ∷ out) h = ground (arith, gather_lem calls out)

  gather_total :
      (calls : List Call)
      → ((c : Call) → (r : Result) × (execute c ≡ some r))
      → (out : List (Call × Result)) × (gather execute calls ≡ some out)
  unfolding gather
  gather_total [] h = ([], refl)
  gather_total (c ∷ calls) h =
      let (r, e) = h c in let (out, p) = gather_total calls h in ((c, r) ∷ out, rw (e, p, gather))

  Answers-append :
      (xs ys : List Call) (out rest : List (Call × Result))
      → Answers xs out
      → Answers ys rest
      → Answers (xs ++ ys) (out ++ rest)
  Answers-append [] ys [] rest a b = b
  Answers-append [] ys (o ∷ out) rest a b = absurd a
  Answers-append (x ∷ xs) ys [] rest a b = absurd a
  Answers-append (x ∷ xs) ys ((d, r) ∷ out) rest a b =
      (a.0, a.1, Answers-append xs ys out rest a.2 b)

  gather-none :
      (calls : List Call)
      → gather execute calls ≡ none
      → (c : Call) × Memᴰ c calls × (execute c ≡ none)
  unfolding gather
  gather-none [] h = absurd (ground arith)
  gather-none (c ∷ calls) h = elim (Option-cases (execute c)) [
    | inl raises ↦ (c, Memᴰ.head refl, raises)
    | inr (r, answers) ↦
        let (d, later, raises) = gather-none calls (ground (arith, h, answers)) in
        (d, Memᴰ.tail later, raises)
  ]

module _ {Call Result : Type 0} (effects : Call → ToolEffects)
    (execute : Call → Option Result) where
  -- Why the answers end: none is left, or a call of the batch that comes next raises.
  abbrev pub Stopped : ℕ → List Call → Bool → Type 0
  Stopped limit left raised =
      ((raised ≡ false) × (left ≡ []))
      ⊎ ((raised ≡ true)
          × (batch : List Call) × (rest : List Call) × (left ≡ batch ++ rest)
          × FitsBatch effects limit batch
          × (c : Call) × Memᴰ c batch
          × (execute c ≡ none))

  -- The calls are answered up to some batch, in order, and the rest are not reached.
  pub record Yielded (limit : ℕ) (calls : List Call) (out : List (Call × Result)) (raised : Bool)
      : Type 0 where
    pub answered : List Call
    pub left : List Call
    pub split : calls ≡ answered ++ left
    pub answers : Answers execute answered out
    pub end : Stopped limit left raised

  pub run_batches_lem :
      (limit : ℕ) (bs : List (List Call))
      → AllFit effects limit bs
      → Yielded limit (concat bs) (run_batches execute bs).0 (run_batches execute bs).1
  unfolding run_batches
  run_batches_lem limit [] fit = record {
    answered = [];
    left = [];
    split = refl;
    answers = tt;
    end = inl (refl, refl);
  }
  run_batches_lem limit (b ∷ bs) fit =
      by_gather (run_batches_lem limit bs fit.1) (gather execute b) refl
    where
      by_gather :
          Yielded limit (concat bs) (run_batches execute bs).0 (run_batches execute bs).1
          → (g : Option (List (Call × Result))) → gather execute b ≡ g
          → Yielded limit
              (b ++ concat bs)
              (yield_all execute g (run_batches execute bs)).0
              (yield_all execute g (run_batches execute bs)).1
      by_gather y none e = record {
        answered = [];
        left = b ++ concat bs;
        split = refl;
        answers = tt;
        end =
            let (c, here, raises) = gather-none execute b e in
            inr (refl, b, concat bs, refl, fit.0, c, here, raises);
      }
      by_gather y (some out) e = record {
        answered = b ++ y.answered;
        left = y.left;
        split = ap (◌++◌ b) y.split ∙ sym (append_assoc b y.answered y.left);
        answers =
            Answers-append execute b y.answered out (run_batches execute bs).0
              (gather_lem execute b out e) y.answers;
        end = y.end;
      }

  abbrev pub InOrder : ℕ → List Call → Scheduled Call Result → Type 0
  InOrder limit calls (yields out raised) = Yielded limit calls out raised
  InOrder limit calls value_error = ⊥
  InOrder limit calls out_of_fuel = ⊥

  -- With a concurrency of one to four, the calls are answered in their order, each with the answer
  -- to that call, up to the end or up
  -- to a batch of at most that many calls in which an execution raises: if none does, all are
  -- answered, and an exception is reported only where one of that batch's calls raises.
  pub scheduled_calls_lem :
      (limit : ℕ) (calls : List Call)
      → 1 ≤ limit
      → limit ≤ 4
      → InOrder limit calls (scheduled_calls effects execute limit calls)
  unfolding scheduled_calls
  scheduled_calls_lem limit calls low high =
      let (bs, e, whole, fit) = batches_lem effects (length calls) limit calls low (omega arith) in
      let in_range : (leb 1 limit && leb limit 4) ≡ true = ground arith in
      rw (in_range, e)
        (subst (λ x. Yielded limit x (run_batches execute bs).0 (run_batches execute bs).1) whole
          (run_batches_lem limit bs fit))
