-- ===== src/ToolBatch.antt =====
-- src/local_coder/tools/scheduling.py: `ToolEffects`, `tool_effects` and `scheduled_calls`.
-- What a call answers is the parameter `execute`; `none` is an exception.
pub mod Batches
pub mod Order
use local_coding_agent.Base.{
  ℕ, zero, suc, ◌+◌, String, Bool, true, false, not, ◌&&◌, ◌||◌, Option, none, some, List, [], ◌∷◌,
  ◌++◌, if◌then◌else◌, ◌==◌, string_eq, length, leb, ltb,
}

pub record ToolEffects : Type 0 where
  pub read_only : Bool
  pub mutating : Bool
  pub retry_safe : Bool

abbrev pub concurrent : ToolEffects → Bool
concurrent e = e.read_only && not e.mutating && e.retry_safe

-- `ToolEffects()`
abbrev pub unknown_effects : ToolEffects
unknown_effects = record { read_only = false; mutating = true; retry_safe = false }

-- What `tool_effects` finds on a tool: no tool, an implementation of the engine's own list, or the
-- three declared attributes, each a Boolean (`some`), or missing or of another type (`none`).
pub data ToolInfo : Type 0 where
  absent : ToolInfo
  builtin_read : ToolInfo
  declared : Option Bool → Option Bool → Option Bool → ToolInfo

unfoldable pub tool_effects : ToolInfo → ToolEffects
tool_effects absent = unknown_effects
tool_effects builtin_read = record { read_only = true; mutating = false; retry_safe = true }
tool_effects (declared (some read_only) (some mutating) (some retry_safe)) =
    if read_only || mutating
    then record { read_only = read_only; mutating = mutating; retry_safe = retry_safe }
    else unknown_effects
tool_effects _ = unknown_effects

module _ {ℓ} {Call : Type ℓ} (effects : Call → ToolEffects) where
  -- The inner `while`: the adjacent concurrent calls from here, at most `room` of them.
  unfoldable pub reads : ℕ → List Call → List Call
  reads zero calls = []
  reads (suc room) [] = []
  reads (suc room) (c ∷ calls) = if concurrent (effects c) then c ∷ reads room calls else []

  unfoldable pub after_reads : ℕ → List Call → List Call
  after_reads zero calls = calls
  after_reads (suc room) [] = []
  after_reads (suc room) (c ∷ calls) =
      if concurrent (effects c) then after_reads room calls else c ∷ calls

  -- The batches of `scheduled_calls`, on fuel for the outer `while`.
  unfoldable pub batches : ℕ → ℕ → List Call → Option (List (List Call))
  batches zero concurrency calls = elim calls [ [] ↦ some [] | _ ∷ _ ↦ none ]
  batches (suc f) concurrency [] = some []
  batches (suc f) concurrency (c ∷ calls) =
      let alone = batches f concurrency calls in
      let together = batches f concurrency (after_reads concurrency (c ∷ calls)) in
      if concurrent (effects c)
      then elim together [ none ↦ none | some rest ↦ some (reads concurrency (c ∷ calls) ∷ rest) ]
      else elim alone [ none ↦ none | some rest ↦ some ((c ∷ []) ∷ rest) ]

module _ {ℓ κ} {Call : Type ℓ} {Result : Type κ} (execute : Call → Option Result) where
  -- `gather`: all results of a batch, or an exception.
  unfoldable pub gather : List Call → Option (List (Call × Result))
  gather [] = some []
  gather (c ∷ calls) = elim (execute c) [
    | none ↦ none
    | some r ↦ elim (gather calls) [ none ↦ none | some rest ↦ some ((c, r) ∷ rest) ]
  ]

  abbrev pub yield_all :
      Option (List (Call × Result)) → List (Call × Result) × Bool → List (Call × Result) × Bool
  yield_all none later = ([], true)
  yield_all (some out) (rest, raised) = (out ++ rest, raised)

  -- What is yielded, and whether an exception ended it.
  unfoldable pub run_batches : List (List Call) → List (Call × Result) × Bool
  run_batches [] = ([], false)
  run_batches (b ∷ bs) = yield_all (gather b) (run_batches bs)

pub data Scheduled {ℓ κ} (Call : Type ℓ) (Result : Type κ) : Type (ℓ ⊔ κ) where
  value_error : Scheduled Call Result
  out_of_fuel : Scheduled Call Result
  yields : List (Call × Result) → Bool → Scheduled Call Result

module _ {ℓ κ} {Call : Type ℓ} {Result : Type κ} (effects : Call → ToolEffects)
    (execute : Call → Option Result) where
  abbrev run_planned : Option (List (List Call)) → Scheduled Call Result
  run_planned none = out_of_fuel
  run_planned (some bs) = let (out, raised) = run_batches execute bs in yields out raised

  -- Each round takes one call at least, so there are no more rounds than calls.
  unfoldable pub scheduled_calls : ℕ → List Call → Scheduled Call Result
  unfolding batches run_batches
  scheduled_calls concurrency calls =
      if leb 1 concurrency && leb concurrency 4
      then run_planned (batches effects (length calls) concurrency calls)
      else value_error
