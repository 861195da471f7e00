-- ===== src/Compaction.antt =====
-- src/local_coder/context/compression.py: how the history of an agent is cut. Messages before an
-- index and from it on are two lists. A content is the list of its code points. The serialized size
-- of a message, the canonical form of a call's arguments, and the model that writes a summary are
-- parameters.
pub mod Groups
pub mod Ends
pub mod Rounds
pub mod Pruning
pub mod Freed
pub mod Facts
use Prim.Native.String.{◌++◌ as join_text}
use local_coding_agent.Base.{
  ℕ, ◌+◌, ◌-◌, String, string_eq, nat_eq, Bool, true, false, not, ◌&&◌, ◌||◌, Option, none, some,
  List, [], ◌∷◌, ◌++◌, if◌then◌else◌, ltb, leb, ◌==◌, contains, sum, length, all,
}
use local_coding_agent.Base.Dict.{Dict, lookup, insert}

abbrev pub Text : Type 0
Text = List ℕ

pub record ToolCall : Type 0 where
  pub id : String
  pub name : String
  -- `json.dumps` of the arguments, keys sorted
  pub arguments : String

-- No list of tool calls is the empty list; a missing name or call id is `none`.
pub record Message : Type 0 where
  pub role : String
  pub content : Text
  pub tool_calls : List ToolCall
  pub tool_call_id : Option String
  pub name : Option String
  pub reasoning_content : Option Text

abbrev pub message_chars : List Message → ℕ
message_chars = sum (λ m. length m.content)

abbrev pub is_tool : Message → Bool
is_tool m = m.role == "tool"

abbrev pub calls_tools : Message → Bool
calls_tools m = elim m.tool_calls [ [] ↦ false | _ ∷ _ ↦ true ]

-- The messages in front of `_head_end`, and those from there on.
pub record Halves : Type 0 where
  pub before : List Message
  pub from : List Message

unfoldable pub head_end : List Message → Halves
head_end [] = record { before = []; from = [] }
head_end (m ∷ messages) =
    let rest = head_end messages in
    if contains m.role ("assistant" ∷ "tool" ∷ [])
    then record { before = []; from = m ∷ messages }
    else record { before = m ∷ rest.before; from = rest.from }

-- A message with tool calls takes the tool and system messages behind it into its group. `inside`
-- holds behind such a message; the answer is the rest of the current group, and the groups after it.
pub record Split : Type 0 where
  pub current : List Message
  pub following : List (List Message)

abbrev pub joins : Message → Bool
joins m = contains m.role ("tool" ∷ "system" ∷ [])

unfoldable pub split : Bool → List Message → Split
split inside [] = record { current = []; following = [] }
split inside (m ∷ messages) =
    let same = split inside messages in
    let next = split (calls_tools m) messages in
    if inside && joins m
    then record { current = m ∷ same.current; following = same.following }
    else record { current = []; following = (m ∷ next.current) ∷ next.following }

-- The groups that `_tail_start` forms from the head on
abbrev pub groups : List Message → List (List Message)
groups messages = (split false messages).following

abbrev pub concat : List (List Message) → List Message
concat [] = []
concat (g ∷ gs) = g ++ concat gs

-- The loop over the reversed groups, from the last on: the groups in front of the cut, the groups
-- behind it, whether the loop has ended, and the characters used.
pub record Cut : Type 0 where
  pub middle : List (List Message)
  pub tail : List (List Message)
  pub ended : Bool
  pub used : ℕ

abbrev pub no_groups : List (List Message) → Bool
no_groups [] = true
no_groups (_ ∷ _) = false

abbrev pub take_group : ℕ → List Message → Cut → Cut
take_group keep_chars g c =
    if c.ended || (not (no_groups c.tail) && ltb keep_chars (c.used + message_chars g))
    then record { middle = g ∷ c.middle; tail = c.tail; ended = true; used = c.used }
    else record { middle = []; tail = g ∷ c.tail; ended = false; used = c.used + message_chars g }

unfoldable pub tail_start : ℕ → List (List Message) → Cut
tail_start keep_chars [] = record { middle = []; tail = []; ended = false; used = 0 }
tail_start keep_chars (g ∷ gs) = take_group keep_chars g (tail_start keep_chars gs)

abbrev pub summary_message : Text → Message
summary_message summary = record {
  role = "user";
  content = summary;
  tool_calls = [];
  tool_call_id = none;
  name = none;
  reasoning_content = none;
}

abbrev pub replace_middle : List Message → List Message → Option Text → Option (List Message)
replace_middle before after none = none
replace_middle before after (some summary) = some (before ++ (summary_message summary ∷ after))

abbrev pub unless_empty : List Message → Option (List Message) → Option (List Message)
unless_empty [] result = none
unless_empty (m ∷ ms) result = result

-- The model's summary of the middle under its prefix, given the head; nothing where it is empty or
-- does not keep the facts.
module _ (summarize : List Message → List Message → Option Text) where
  unfoldable pub summarize_history : List Message → ℕ → Option (List Message)
  unfolding head_end tail_start split
  summarize_history messages keep_recent_chars =
      let halves = head_end messages in
      let cut = tail_start keep_recent_chars (groups halves.from) in
      let middle = concat cut.middle in
      unless_empty middle
        (replace_middle halves.before (concat cut.tail) (summarize halves.before middle))

-- `fact in summary`
abbrev pub is_prefix : Text → Text → Bool
is_prefix [] text = true
is_prefix (c ∷ cs) [] = false
is_prefix (c ∷ cs) (d ∷ ds) = c == d && is_prefix cs ds

abbrev pub is_within : Text → Text → Bool
is_within fact [] = is_prefix fact []
is_within fact (d ∷ ds) = is_prefix fact (d ∷ ds) || is_within fact ds

abbrev pub is_blank : Text → Bool
is_blank [] = true
is_blank (c ∷ cs) = false

-- The facts that the patterns for durable lines and source references find in a message, what the
-- model writes of the middle given the head, and the prefix of a summary.
module _ (facts_of : Message → List Text) (generate : List Message → List Message → Text)
    (summary_prefix : Text) where
  abbrev pub required_facts : List Message → List Text
  required_facts [] = []
  required_facts (m ∷ messages) = facts_of m ++ required_facts messages

  -- `compaction_fidelity(…)["passed"]`
  abbrev pub compaction_fidelity : List Message → Text → Bool
  compaction_fidelity original summary =
      all (λ fact. is_within fact summary) (required_facts original)

  abbrev pub accept : List Message → Text → Option Text
  accept middle summary =
      if is_blank summary || not (compaction_fidelity middle summary)
      then none
      else some (summary_prefix ++ summary)

  -- A summary that is empty or omits a fact is not taken.
  unfoldable pub checked_summary : List Message → List Message → Option Text
  checked_summary before middle = accept middle (generate before middle)

abbrev pub idempotent_tools : List String
idempotent_tools =
    "read_file" ∷ "list_files" ∷ "search_files" ∷ "grep" ∷ "code_search" ∷ "git_status" ∷ "git_diff"
    ∷ "git_log" ∷ []

-- `f"{call.name}:{arguments}"`
abbrev pub signature_of : ToolCall → String
signature_of call = join_text call.name (join_text ":" call.arguments)

abbrev pub sign_calls : List ToolCall → Dict String String → Dict String String
sign_calls [] signatures = signatures
sign_calls (call ∷ calls) signatures = sign_calls calls (
    if contains call.name idempotent_tools
    then insert call.id (signature_of call) signatures
    else signatures)

abbrev pub tool_call_signatures : List Message → Dict String String → Dict String String
tool_call_signatures [] signatures = signatures
tool_call_signatures (m ∷ messages) signatures =
    tool_call_signatures messages (sign_calls m.tool_calls signatures)
