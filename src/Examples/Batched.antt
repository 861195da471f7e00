-- ===== src/Examples/Batched.antt =====
-- Five calls, the third of which is no declared read.
use local_coding_agent.Base.{
  ℕ, ◌+◌, ◌==◌, nat_eq, ◌≡◌, refl, true, false, Option, some, List, [], ◌∷◌, arith, if◌then◌else◌,
}
use local_coding_agent.ToolBatch.{
  ToolEffects, unknown_effects, batches, reads, after_reads, scheduled_calls,
}
use local_coding_agent.ToolBatch.Batches.{AllFit, concat, batches_lem}
use local_coding_agent.ToolBatch.Order.{InOrder, scheduled_calls_lem}

abbrev calls : List ℕ
calls = 1 ∷ 2 ∷ 3 ∷ 4 ∷ 5 ∷ []

abbrev effects : ℕ → ToolEffects
effects call =
    if call == 3
    then unknown_effects
    else record { read_only = true; mutating = false; retry_safe = true }

abbrev execute : ℕ → Option ℕ
execute call = some (call + 100)

calls-batches : batches effects 5 2 calls ≡ some ((1 ∷ 2 ∷ []) ∷ (3 ∷ []) ∷ (4 ∷ 5 ∷ []) ∷ [])
unfolding batches reads after_reads
calls-batches = refl

batches_lem_example :
    (bs : List (List ℕ)) × (batches effects 5 2 calls ≡ some bs)
    × (concat bs ≡ calls)
    × AllFit effects 2 bs
batches_lem_example = batches_lem effects 5 2 calls (omega arith) (omega arith)

scheduled_calls_lem_example :
    InOrder effects execute 2 calls (scheduled_calls effects execute 2 calls)
scheduled_calls_lem_example =
    scheduled_calls_lem effects execute 2 calls (omega arith) (omega arith)
