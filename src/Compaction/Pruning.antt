-- ===== src/Compaction/Pruning.antt =====
-- `prune_tool_outputs` of src/local_coder/context/compression.py. The loop that runs from the last
-- message to the first is a recursion that visits a message behind those after it; the loop over the
-- candidates in the order of their priority is one pass over the messages for each of the three
-- priorities, which tests in front of each candidate whether the target is met.
use local_coding_agent.Base.{
  ℕ, ◌+◌, ◌-◌, String, string_eq, nat_eq, Bool, true, false, not, ◌&&◌, ◌||◌, Option, none, some,
  List, [], ◌∷◌, if◌then◌else◌, ltb, leb, ◌==◌, contains, sum, length, map,
}
use local_coding_agent.Base.Dict.{Dict, lookup}
use local_coding_agent.Compaction.{Text, Message, is_tool, tool_call_signatures}

abbrev pub same_text : Text → Text → Bool
same_text [] [] = true
same_text (c ∷ cs) (d ∷ ds) = c == d && same_text cs ds
same_text _ _ = false

abbrev pub with_content : Text → Message → Message
with_content content m = record m { content = content }

-- `message.tool_call_id or ""`
abbrev pub call_id : Message → String
call_id m = elim m.tool_call_id [ none ↦ "" | some id ↦ id ]

abbrev pub is_seen : Option String → List String → Bool
is_seen none seen = false
is_seen (some signature) seen = contains signature seen

abbrev pub see : Option String → List String → List String
see none seen = seen
see (some signature) seen = signature ∷ seen

abbrev pub has_failed : Option Bool → Bool
has_failed (some false) = true
has_failed _ = false

abbrev pub has_succeeded : Option Bool → Bool
has_succeeded (some true) = true
has_succeeded _ = false

-- 0 for a success, 2 for a failure, and 1 where the outcome is not known
abbrev pub priority : Option Bool → ℕ
priority (some true) = 0
priority none = 1
priority (some false) = 2

-- What the first loop keeps between its messages.
pub record Scan : Type 0 where
  pub seen_later : List String
  pub protected : ℕ
  pub freed : ℕ

pub record Visited : Type 0 where
  pub message : Message
  pub candidate : Bool

pub record Scanned : Type 0 where
  pub state : Scan
  pub visited : List Visited

-- What the second loop keeps: the serialized size of all messages, and the characters freed.
pub record Passed : Type 0 where
  pub size : ℕ
  pub freed : ℕ
  pub visited : List Visited

-- The code points of a literal.
module _ (text_of : String → Text) where
  abbrev pub pruned_output : Text
  pruned_output =
      text_of "[Old tool output cleared to save context. Re-run the tool if you need it again.]"

  abbrev pub superseded_output : Text
  superseded_output =
      text_of "[Tool output cleared: the same call was repeated later; see the newer result.]"

  abbrev pub is_cleared : Text → Bool
  is_cleared content = same_text content pruned_output || same_text content superseded_output

  module _ (signatures : Dict String String) (outcomes : Dict String Bool) (protect_chars : ℕ)
      (prune_recent_successes : Bool) where
    -- A result of a tool, given what stands behind it.
    abbrev pub is_superseded : Message → Scan → Bool
    is_superseded m s =
        is_seen (lookup (call_id m) signatures) s.seen_later
        && not (has_failed (lookup (call_id m) outcomes))

    unfoldable pub visit : Message → Scan → Scan × Visited
    visit m s =
        let size = length m.content in
        let signature = lookup (call_id m) signatures in
        let outcome = lookup (call_id m) outcomes in
        let superseded = is_superseded m s in
        let fits = leb (s.protected + size) protect_chars in
        let shrinks = superseded && ltb (length superseded_output) size in
        (
          record {
            seen_later = if has_failed outcome then s.seen_later else see signature s.seen_later;
            protected =
                if superseded
                then s.protected
                else if fits
                then s.protected + size
                else protect_chars + 1;
            freed = if shrinks then s.freed + (size - length superseded_output) else s.freed;
          },
          record {
            message = if shrinks then with_content superseded_output m else m;
            candidate =
                not superseded
                && (if fits then prune_recent_successes && has_succeeded outcome else true);
          },
        )

    unfoldable pub scan : List Message → Scanned
    scan [] = record { state = record { seen_later = []; protected = 0; freed = 0 }; visited = [] }
    scan (m ∷ messages) =
        let later = scan messages in
        let (state, seen) = visit m later.state in
        if not (is_tool m) || is_cleared m.content
        then record {
          state = later.state;
          visited = record { message = m; candidate = false } ∷ later.visited;
        }
        else record { state = state; visited = seen ∷ later.visited }

-- `if target_chars is not None and size <= target_chars: break`
abbrev pub is_met : Option ℕ → ℕ → Bool
is_met none size = false
is_met (some target) size = leb size target

abbrev pub messages_of : List Visited → List Message
messages_of = map (λ v. v.message)

-- And the serialized size of a message.
module _ (text_of : String → Text) (message_size : Message → ℕ) where
  module _ (outcomes : Dict String Bool) (target_chars : Option ℕ) where
    abbrev pub clears : ℕ → ℕ → Visited → Bool
    clears rank size v =
        v.candidate
        && priority (lookup (call_id v.message) outcomes) == rank
        && not (is_met target_chars size)
        && ltb (length (pruned_output text_of)) (length v.message.content)

    -- The candidates of one priority, in the order of their indices.
    unfoldable pub clear_pass : ℕ → ℕ → ℕ → List Visited → Passed
    clear_pass rank size freed [] = record { size = size; freed = freed; visited = [] }
    clear_pass rank size freed (v ∷ vs) =
        let cleared = with_content (pruned_output text_of) v.message in
        let kept = clear_pass rank size freed vs in
        let after =
          clear_pass rank (size + message_size cleared - message_size v.message)
            (freed + (length v.message.content - length (pruned_output text_of))) vs in
        if clears rank size v
        then record after { visited = record v { message = cleared } ∷ after.visited }
        else record kept { visited = v ∷ kept.visited }

    unfoldable pub clear_candidates : Scanned → Passed
    unfolding clear_pass
    clear_candidates scanned =
        let size = sum (λ v. message_size v.message) scanned.visited in
        let successes = clear_pass 0 size scanned.state.freed scanned.visited in
        let unknown = clear_pass 1 successes.size successes.freed successes.visited in
        clear_pass 2 unknown.size unknown.freed unknown.visited

  unfoldable pub prune_tool_outputs :
      List Message → ℕ → Dict String Bool → Option ℕ → Bool → List Message × ℕ
  unfolding scan clear_candidates
  prune_tool_outputs messages protect_chars outcomes target_chars prune_recent_successes =
      let signatures = tool_call_signatures messages [] in
      let passed =
        clear_candidates outcomes target_chars
          (scan text_of signatures outcomes protect_chars prune_recent_successes messages) in
      (messages_of passed.visited, passed.freed)
