-- ===== src/Compaction/Groups.antt =====
-- The groups of messages of src/local_coder/context/compression.py: each holds the results of the
-- tools with their calls.
use local_coding_agent.Base.{
  String, some, map, List-cases, ◌≡◌, inl, inr, refl, sym, ap, subst, ◌∙◌, string_eq, Bool, true,
  false, ◌&&◌, List, [], ◌∷◌, ◌++◌, append_assoc, if◌then◌else◌, ◌==◌, contains, arith, Bool-cases,
  eq→≡,
}
use local_coding_agent.Compaction.{Message, is_tool, calls_tools, joins, split, groups, concat}

-- The ids of an assistant's calls
abbrev pub call_ids : Message → List String
call_ids m = if m.role == "assistant" then map (λ call. call.id) m.tool_calls else []

-- The calls that a message stands behind, after it: a tool or system message leaves them as they are.
abbrev pub next_ids : List String → Message → List String
next_ids ids m = if joins m then ids else call_ids m

-- Each result of a tool answers, by its id, one of the calls of the assistant's message that it
-- stands behind with only tool and system messages in between; `ids` are the calls so far.
abbrev pub IsPaired : List String → List Message → Type 0
IsPaired ids [] = Unit
IsPaired ids (m ∷ messages) =
    (is_tool m ≡ true → (id : String) × (m.tool_call_id ≡ some id) × (contains id ids ≡ true))
    × IsPaired (next_ids ids m) messages

concat-split :
    (inside : Bool) (messages : List Message)
    → (split inside messages).current ++ concat (split inside messages).following ≡ messages
unfolding split
concat-split inside [] = refl
concat-split inside (m ∷ messages) = elim (Bool-cases (inside && joins m)) [
  | inl same ↦ rw (same) (ap (◌∷◌ m) (concat-split inside messages))
  | inr next ↦ rw (next) (ap (◌∷◌ m) (concat-split (calls_tools m) messages))
]

abbrev pub AllJoin : List Message → Type 0
AllJoin [] = Unit
AllJoin (m ∷ messages) = (joins m ≡ true) × AllJoin messages

-- The first message, where there is one, is no result and no system message.
abbrev pub NoJoin : List Message → Type 0
NoJoin [] = Unit
NoJoin (m ∷ messages) = joins m ≡ false

-- A group: a message, and, where it calls tools, the tool and system messages that follow it, all of
-- them.
pub record IsGroup (m : Message) (followers rest : List Message) : Type 0 where
  pub joined : AllJoin followers
  pub alone : calls_tools m ≡ false → followers ≡ []
  pub all_taken : calls_tools m ≡ true → NoJoin rest

abbrev pub IsGrouping : List (List Message) → Type 0
IsGrouping [] = Unit
IsGrouping ([] ∷ gs) = ⊥
IsGrouping ((m ∷ followers) ∷ gs) = IsGroup m followers (concat gs) × IsGrouping gs

split_lem :
    (inside : Bool) (messages : List Message)
    → AllJoin (split inside messages).current
      × (inside ≡ false → (split inside messages).current ≡ [])
      × (inside ≡ true → NoJoin (concat (split inside messages).following))
      × IsGrouping (split inside messages).following
unfolding split
split_lem inside [] = (tt, (λ e. refl), (λ e. tt), tt)
split_lem inside (m ∷ messages) = elim (Bool-cases (inside && joins m)) [
  | inl same ↦
      let (joined, alone, fresh, grouping) = split_lem inside messages in
      let here : joins m ≡ true = ground (arith, same) in
      rw (same) ((here, joined), (λ e. absurd (ground (arith, same, e))), fresh, grouping)
  | inr next ↦
      let (joined, alone, fresh, grouping) = split_lem (calls_tools m) messages in
      rw (next) (
        tt,
        (λ e. refl),
        (λ e. ground (arith, next, e)),
        (record { joined = joined; alone = alone; all_taken = fresh }, grouping),
      )
]

pub groups-IsGrouping : (messages : List Message) → IsGrouping (groups messages)
groups-IsGrouping messages = (split_lem false messages).3

no_calls : (m : Message) → calls_tools m ≡ false → next_ids [] m ≡ []
no_calls m h = elim (List-cases m.tool_calls) [
  | inl none_called ↦ ground (arith, none_called)
  | inr (c, cs, called) ↦ absurd (ground (arith, (rw (called) at h)))
]

joins_tool : (m : Message) → is_tool m ≡ true → joins m ≡ true
joins_tool m h = rw (eq→≡ m.role "tool" h) refl

-- Behind the messages that join, the calls are the same; a message that does not join needs none.
behind_joined :
    (ids : List String) (followers rest : List Message)
    → AllJoin followers
    → IsPaired ids (followers ++ rest)
    → IsPaired ids rest
behind_joined ids [] rest a h = h
behind_joined ids (m ∷ followers) rest a h = behind_joined ids followers rest a.1 (
    subst (λ xs. IsPaired xs (followers ++ rest)) (ap (λ b. if b then ids else call_ids m) a.0) h.1)

anew :
    (ids : List String) (rest : List Message) → NoJoin rest → IsPaired ids rest → IsPaired [] rest
anew ids [] n h = tt
anew ids (m ∷ rest) n h = (
  λ tool. absurd (ground (arith, joins_tool m tool, n)),
  subst (λ xs. IsPaired xs rest)
      (ap (λ b. if b then ids else call_ids m) n ∙ sym (ap (λ b. if b then [] else call_ids m) n))
      h.1,
)

-- What stands behind a group is paired without it.
behind_group :
    (m : Message) (followers rest : List Message)
    → IsGroup m followers rest
    → IsPaired [] (m ∷ followers ++ rest)
    → IsPaired [] rest
behind_group m followers rest g h = elim (Bool-cases (calls_tools m)) [
  | inl calls ↦
      anew (next_ids [] m) rest (g.all_taken calls)
        (behind_joined (next_ids [] m) followers rest g.joined h.1)
  | inr quiet ↦
      subst (λ xs. IsPaired [] (xs ++ rest)) (g.alone quiet)
        (subst (λ xs. IsPaired xs (followers ++ rest)) (no_calls m quiet) h.1)
]

pub IsPaired-tail :
    (gs tail : List (List Message))
    → IsGrouping (gs ++ tail)
    → IsPaired [] (concat (gs ++ tail))
    → IsPaired [] (concat tail)
IsPaired-tail [] tail g h = h
IsPaired-tail ([] ∷ gs) tail g h = absurd g
IsPaired-tail ((m ∷ followers) ∷ gs) tail g h =
    IsPaired-tail gs tail g.1 (behind_group m followers (concat (gs ++ tail)) g.0 h)

pub concat-append : (gs hs : List (List Message)) → concat (gs ++ hs) ≡ concat gs ++ concat hs
concat-append [] hs = refl
concat-append (g ∷ gs) hs =
    ap (λ ms. g ++ ms) (concat-append gs hs) ∙ sym (append_assoc g (concat gs) (concat hs))

pub groups_whole : (messages : List Message) → concat (groups messages) ≡ messages
unfolding split
groups_whole [] = refl
groups_whole (m ∷ messages) = concat-split false (m ∷ messages)
