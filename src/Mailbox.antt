-- ===== src/Mailbox.antt =====
-- src/local_coder/orchestrator/mailbox.py: `PlanMailbox`. What the class takes from Python's text,
-- regular expression and JSON libraries is the parameter `Texts`. The wait of `receive` is not
-- modelled, its take of a message is; the identity that `uuid4` makes is an argument of `new`.
pub mod Posting
pub mod Sending
pub mod Queues
pub mod Reading
use local_coding_agent.Base.{
  ℕ, zero, suc, ◌+◌, ◌-◌, String, Bool, true, false, not, ◌&&◌, ◌||◌, Option, none, some, List, [],
  ◌∷◌, ◌++◌, if◌then◌else◌, ◌==◌, string_eq, ltb, leb, length, all, contains, map,
}
use local_coding_agent.Base.Dict.{Dict, lookup, modify}

pub record TeamMessage : Type 0 where
  pub run_id : String
  pub sequence : ℕ
  pub sender : String
  pub recipient : String
  pub kind : String
  pub content : String

pub record Texts : Type 0 where
  -- `len(content)` and `content.strip() == ""`
  pub chars : String → ℕ
  pub blank : String → Bool
  -- `_ID.fullmatch(name)`
  pub is_id : String → Bool
  -- `sorted(set(secrets), key=len, reverse=True)`
  pub longest_first : List String → List String
  -- `content.replace(secret, "[redacted]")`, and the five substitutions by patterns that follow it
  pub redact : String → String → String
  pub redact_patterns : String → String
  -- the bytes of one message as JSON, and the characters of a list of them
  pub message_bytes : TeamMessage → ℕ
  pub batch_chars : List TeamMessage → ℕ

pub record PlanMailbox : Type 0 where
  pub run_id : String
  pub secrets : List String
  pub max_pending : ℕ
  pub max_messages : ℕ
  pub max_message_chars : ℕ
  pub max_total_bytes : ℕ
  pub inboxes : Dict String (List TeamMessage)
  pub sent : ℕ
  pub bytes : ℕ
  pub closed : Bool

pub data MailboxError : Type 0 where
  bad_participants bad_bound bad_secrets mailbox_closed not_participant bad_kind bad_content
        filtered_too_long :
      MailboxError
  inbox_full message_quota byte_quota bad_limit bad_budget budget_too_small : MailboxError

pub data Result (A : Type 0) : Type 0 where
  ok : A → Result A
  err : MailboxError → Result A

infixl 5 ◌>>=◌
abbrev pub ◌>>=◌ : {A B : Type 0} → Result A → (A → Result B) → Result B
ok a >>= f = f a
err e >>= f = err e

-- Guards that raise, in turn: what follows them runs only when every test holds.
abbrev pub guarded : {A : Type 0} → List (Bool × MailboxError) → Result A → Result A
guarded [] rest = rest
guarded ((true, e) ∷ guards) rest = guarded guards rest
guarded ((false, e) ∷ guards) rest = err e

-- `1 <= limit <= 16` and the like
abbrev pub in_range : ℕ → ℕ → ℕ → Bool
in_range lower upper value = leb lower value && leb value upper

-- `len(set(xs)) == len(xs)`
abbrev distinct : List String → Bool
distinct [] = true
distinct (x ∷ xs) = not (contains x xs) && distinct xs

abbrev pub kinds : List String
kinds = "status" ∷ "evidence" ∷ "blocked" ∷ "question" ∷ []

abbrev pub found_inbox : Option (List TeamMessage) → Result (List TeamMessage)
found_inbox none = err not_participant
found_inbox (some pending) = ok pending

-- `_inbox`
unfoldable pub inbox : PlanMailbox → String → Result (List TeamMessage)
inbox box participant =
    if box.closed then err mailbox_closed else found_inbox (lookup participant box.inboxes)

-- What `drain` does at a message that does not fit the budget.
abbrev pub stop_or_fail :
    List TeamMessage → List TeamMessage → Result (List TeamMessage × List TeamMessage)
stop_or_fail [] pending = err budget_too_small
stop_or_fail (r ∷ result) pending = ok (r ∷ result, pending)

-- The message and its bytes enter the box.
abbrev pub accept : ℕ → TeamMessage → PlanMailbox → PlanMailbox
accept size message box = record box {
  inboxes = modify message.recipient (λ messages. messages ++ message ∷ []) box.inboxes;
  sent = box.sent + 1;
  bytes = box.bytes + size;
}

module _ (texts : Texts) where
  abbrev redact_all : List String → String → String
  redact_all [] content = content
  redact_all (secret ∷ secrets) content = redact_all secrets (texts.redact secret content)

  -- `_filter`
  abbrev pub filter_content : PlanMailbox → String → String
  filter_content box content = texts.redact_patterns (redact_all box.secrets content)

  -- What `__init__` checks, on a list of strings and a list of secrets
  abbrev pub new_guards : List String → ℕ → ℕ → ℕ → ℕ → List String → List (Bool × MailboxError)
  new_guards participants max_pending max_messages max_message_chars max_total_bytes secrets =
      (
        in_range 1 64 (length participants)
            && all texts.is_id participants
            && distinct participants,
        bad_participants,
      )
      ∷ (in_range 1 64 max_pending, bad_bound)
      ∷ (in_range 1 4096 max_messages, bad_bound)
      ∷ (in_range 1 8000 max_message_chars, bad_bound)
      ∷ (in_range 1024 1_048_576 max_total_bytes, bad_bound)
      ∷ (leb (length secrets) 64 && all (λ s. in_range 1 4096 (texts.chars s)) secrets, bad_secrets)
      ∷ []

  -- The box that `__init__` leaves
  abbrev pub fresh_box : String → List String → ℕ → ℕ → ℕ → ℕ → List String → PlanMailbox
  fresh_box run_id participants max_pending max_messages max_message_chars max_total_bytes secrets =
      record {
        run_id = run_id;
        secrets = texts.longest_first secrets;
        max_pending = max_pending;
        max_messages = max_messages;
        max_message_chars = max_message_chars;
        max_total_bytes = max_total_bytes;
        inboxes = map (λ name. (name, [])) participants;
        sent = 0;
        bytes = 0;
        closed = false;
      }

  unfoldable pub new : String → List String → ℕ → ℕ → ℕ → ℕ → List String → Result PlanMailbox
  new run_id participants max_pending max_messages max_message_chars max_total_bytes secrets =
      guarded
        (new_guards participants max_pending max_messages max_message_chars max_total_bytes secrets)
        (ok (
          fresh_box run_id participants max_pending max_messages max_message_chars max_total_bytes
            secrets))

  -- The message that `send` builds, its content filtered
  abbrev pub new_message : PlanMailbox → String → String → String → String → TeamMessage
  new_message box sender recipient kind content = record {
    run_id = box.run_id;
    sequence = box.sent + 1;
    sender = sender;
    recipient = recipient;
    kind = kind;
    content = filter_content box content;
  }

  -- The checks of `send` on the content given and the message built from it
  abbrev pub send_guards :
      PlanMailbox → List TeamMessage → String → TeamMessage → List (Bool × MailboxError)
  send_guards box pending content message =
      (contains message.kind kinds, bad_kind)
      ∷ (not (texts.blank content) && leb (texts.chars content) box.max_message_chars, bad_content)
      ∷ (leb (texts.chars message.content) box.max_message_chars, filtered_too_long)
      ∷ (ltb (length pending) box.max_pending, inbox_full)
      ∷ (ltb box.sent box.max_messages, message_quota)
      ∷ (leb (box.bytes + texts.message_bytes message) box.max_total_bytes, byte_quota)
      ∷ []

  -- `send` once both inboxes are known
  abbrev pub post :
      PlanMailbox → List TeamMessage → String → TeamMessage → Result (PlanMailbox × TeamMessage)
  post box pending content message =
      guarded (send_guards box pending content message)
        (ok (accept (texts.message_bytes message) message box, message))

  unfoldable pub send :
      PlanMailbox → String → String → String → String → Result (PlanMailbox × TeamMessage)
  unfolding inbox
  send box sender recipient kind content = do
    own ← inbox box sender
    pending ← inbox box recipient
    post box pending content (new_message box sender recipient kind content)

  -- The loop of `drain`: what is taken, and what stays pending.
  unfoldable pub drain_loop :
      ℕ → ℕ → List TeamMessage → List TeamMessage → Result (List TeamMessage × List TeamMessage)
  drain_loop limit budget result [] = ok (result, [])
  drain_loop limit budget result (m ∷ pending) =
      let more = drain_loop limit budget (result ++ m ∷ []) pending in
      if ltb (length result) limit
      then (if ltb budget (texts.batch_chars (result ++ m ∷ []))
          then stop_or_fail result (m ∷ pending)
          else more)
      else ok (result, m ∷ pending)

  unfoldable pub drain : PlanMailbox → String → ℕ → ℕ → Result (PlanMailbox × List TeamMessage)
  unfolding inbox drain_loop
  drain box recipient limit budget = do
    pending ← inbox box recipient
    (result, rest) ←
        guarded ((in_range 1 16 limit, bad_limit) ∷ (in_range 256 32_000 budget, bad_budget) ∷ [])
          (drain_loop limit budget [] pending)
    ok (record box { inboxes = modify recipient (λ _. rest) box.inboxes }, result)

abbrev pub tail_of : List TeamMessage → List TeamMessage
tail_of [] = []
tail_of (m ∷ ms) = ms

abbrev pub take_first : PlanMailbox → String → List TeamMessage → PlanMailbox × Option TeamMessage
take_first box recipient [] = (box, none)
take_first box recipient (m ∷ rest) =
    (record box { inboxes = modify recipient tail_of box.inboxes }, some m)

-- One look of `receive` at the inbox: a message, or none yet.
unfoldable pub receive_now : PlanMailbox → String → Result (PlanMailbox × Option TeamMessage)
unfolding inbox
receive_now box recipient = do pending ← inbox box recipient; ok (take_first box recipient pending)

abbrev pub cleared : Dict String (List TeamMessage) → Dict String (List TeamMessage)
cleared = map (λ entry. (entry.0, []))

unfoldable pub close : PlanMailbox → PlanMailbox
close box = record box { closed = true; secrets = []; inboxes = cleared box.inboxes }
