-- ===== src/Mailbox/Sending.antt =====
-- When `send` of src/local_coder/orchestrator/mailbox.py takes a message, what it stores of it, and
-- what the box is afterwards.
use local_coding_agent.Base.{
  ◌+◌, ◌≤◌, ◌<◌, String, string_eq, Bool, true, false, not, ◌≡◌, ◌≢◌, ◌⊎◌, inl, inr, refl, sym, ap,
  ◌∙◌, List, [], ◌∷◌, ◌++◌, none, some, length, arith, Option-cases, contains, if◌then◌else◌,
  and_true, leb→le, ltb→lt, eq_self, ◌==◌,
}
use local_coding_agent.Base.Dict.{lookup, lookup-modify, lookup-modify-none}
use local_coding_agent.Mailbox.{
  TeamMessage, Texts, PlanMailbox, MailboxError, Result, ok, err, guarded, inbox, accept, send,
  new_message, send_guards, redact_all, kinds,
}
use local_coding_agent.Mailbox.Posting.{AllPass, bind_ok, guarded_ok, inbox_ok}

module _ (texts : Texts) where
  -- `result` is the content with each of the secrets in turn redacted.
  abbrev pub IsRedacted : List String → String → String → Type 0
  IsRedacted [] content result = result ≡ content
  IsRedacted (secret ∷ secrets) content result =
      (next : String) × (next ≡ texts.redact secret content) × IsRedacted secrets next result

  -- The message that stands for the content: from its sender to its recipient, numbered next, its
  -- content redacted, first by the secrets of the box and then by the patterns.
  pub record Stands (box : PlanMailbox) (sender recipient kind content : String)
      (message : TeamMessage) : Type 0 where
    pub run : message.run_id ≡ box.run_id
    pub numbered : message.sequence ≡ box.sent + 1
    pub signed : message.sender ≡ sender
    pub addressed : message.recipient ≡ recipient
    pub of_kind : message.kind ≡ kind
    pub redacted :
        (clean : String) × IsRedacted box.secrets content clean
        × (message.content ≡ texts.redact_patterns clean)

  -- What a message must satisfy to be taken, before anything is changed.
  pub record Acceptable (box : PlanMailbox) (sender recipient kind content : String)
      (pending : List TeamMessage) (message : TeamMessage) : Type 0 where
    pub live : box.closed ≡ false
    pub sender_found : lookup sender box.inboxes ≢ none
    pub found : lookup recipient box.inboxes ≡ some pending
    pub known_kind :
        (kind ≡ "status") ⊎ (kind ≡ "evidence") ⊎ (kind ≡ "blocked") ⊎ (kind ≡ "question")
    pub not_blank : texts.blank content ≡ false
    pub given_short : texts.chars content ≤ box.max_message_chars
    pub short : texts.chars message.content ≤ box.max_message_chars
    pub room : length pending < box.max_pending
    pub messages : box.sent < box.max_messages
    pub total : box.bytes + texts.message_bytes message ≤ box.max_total_bytes

  -- The box after the message: it stands last in its recipient's inbox and is counted, and nothing
  -- else has changed.
  pub record Delivered (box : PlanMailbox) (pending : List TeamMessage) (message : TeamMessage)
      (box' : PlanMailbox) : Type 0 where
    pub delivered : lookup message.recipient box'.inboxes ≡ some (pending ++ message ∷ [])
    pub others :
        (name : String)
        → name ≢ message.recipient
        → lookup name box'.inboxes ≡ lookup name box.inboxes
    pub counted : box'.sent ≡ box.sent + 1
    pub weighed : box'.bytes ≡ box.bytes + texts.message_bytes message
    pub kept : box' ≡ record box { inboxes = box'.inboxes; sent = box'.sent; bytes = box'.bytes }

  redact_all-IsRedacted :
      (secrets : List String) (content : String)
      → IsRedacted secrets content (redact_all texts secrets content)
  redact_all-IsRedacted [] content = refl
  redact_all-IsRedacted (secret ∷ secrets) content = (
    texts.redact secret content,
    refl,
    redact_all-IsRedacted secrets (texts.redact secret content),
  )

  new_message-Stands :
      (box : PlanMailbox) (sender recipient kind content : String)
      → Stands box sender recipient kind content
          (new_message texts box sender recipient kind content)
  new_message-Stands box sender recipient kind content = record {
    run = refl;
    numbered = refl;
    signed = refl;
    addressed = refl;
    of_kind = refl;
    redacted =
        (redact_all texts box.secrets content, redact_all-IsRedacted box.secrets content, refl);
  }

  accept-Delivered :
      (box : PlanMailbox) (pending : List TeamMessage) (message : TeamMessage)
      → lookup message.recipient box.inboxes ≡ some pending
      → Delivered box pending message (accept (texts.message_bytes message) message box)
  accept-Delivered box pending message found =
      let add = λ (messages : List TeamMessage). messages ++ message ∷ [] in
      record {
        delivered =
            lookup-modify message.recipient message.recipient add box.inboxes pending found
            ∙ ap (λ b. if b then some (add pending) else some pending) (eq_self message.recipient);
        others = λ name other.
            let apart : (message.recipient == name) ≡ false =
              ground (arith, string_eq.beq_iff message.recipient name, other) in
            elim (Option-cases (lookup name box.inboxes)) [
              | inl gone ↦ lookup-modify-none message.recipient name add box.inboxes gone ∙ sym gone
              | inr (old, at) ↦
                  lookup-modify message.recipient name add box.inboxes old at
                  ∙ ap (λ b. if b then some (add old) else some old) apart
                  ∙ sym at
            ];
        counted = refl;
        weighed = refl;
        kept = refl;
      }

  known_kind_iff :
      (kind : String)
      → (kind ≡ "status") ⊎ (kind ≡ "evidence") ⊎ (kind ≡ "blocked") ⊎ (kind ≡ "question")
      → contains kind kinds ≡ true
  known_kind_iff kind (inl h) = rw (h) refl
  known_kind_iff kind (inr (inl h)) = rw (h) refl
  known_kind_iff kind (inr (inr (inl h))) = rw (h) refl
  known_kind_iff kind (inr (inr (inr h))) = rw (h) refl

  known_kind_of :
      (kind : String)
      → contains kind kinds ≡ true
      → (kind ≡ "status") ⊎ (kind ≡ "evidence") ⊎ (kind ≡ "blocked") ⊎ (kind ≡ "question")
  known_kind_of kind h = ground (
    arith,
    h,
    string_eq.beq_iff kind "status",
    string_eq.beq_iff kind "evidence",
    string_eq.beq_iff kind "blocked",
    string_eq.beq_iff kind "question",
  )

  inbox_found :
      (box : PlanMailbox) (name : String) (pending : List TeamMessage)
      → box.closed ≡ false
      → lookup name box.inboxes ≡ some pending
      → inbox box name ≡ ok pending
  unfolding inbox
  inbox_found box name pending live found = rw (live, found) refl

  guarded_all :
      {A : Type 0} (guards : List (Bool × MailboxError)) (rest : Result A)
      → AllPass guards
      → guarded guards rest ≡ rest
  guarded_all [] rest h = refl
  guarded_all ((true, e) ∷ guards) rest h = guarded_all guards rest h.1
  guarded_all ((false, e) ∷ guards) rest h = absurd (ground (arith, h.0))

  -- The checks of the content, the quotas and the room are those that a message must satisfy.
  guards_pass :
      (box : PlanMailbox) (sender recipient kind content : String) (pending : List TeamMessage)
      (message : TeamMessage)
      → message.kind ≡ kind
      → Acceptable box sender recipient kind content pending message
      → AllPass (send_guards texts box pending content message)
  guards_pass box sender recipient kind content pending message of_kind a =
      let known : contains message.kind kinds ≡ true =
        ap (λ k. contains k kinds) of_kind ∙ known_kind_iff kind a.known_kind in
      (
        known,
        (
          ground (arith, a.not_blank, a.given_short),
          (
            ground (arith, a.short),
            (ground (arith, a.room), (ground (arith, a.messages), (ground (arith, a.total), tt))),
          ),
        ),
      )

  abbrev made : PlanMailbox → String → String → String → String → TeamMessage
  made = new_message texts

  send_takes :
      (box : PlanMailbox) (sender recipient kind content : String) (pending : List TeamMessage)
      → Acceptable box sender recipient kind content pending
          (made box sender recipient kind content)
      → send texts box sender recipient kind content ≡ (
          let m = made box sender recipient kind content in
          ok (accept (texts.message_bytes m) m box, m))
  unfolding send
  send_takes box sender recipient kind content pending a =
      let m = made box sender recipient kind content in
      elim (Option-cases (lookup sender box.inboxes)) [
        | inl gone ↦ absurd (a.sender_found gone)
        | inr (own, mine) ↦
            rw
              (
                inbox_found box sender own a.live mine,
                inbox_found box recipient pending a.live a.found,
              )
              (guarded_all (send_guards texts box pending content m)
                (ok (accept (texts.message_bytes m) m box, m))
                (guards_pass box sender recipient kind content pending m refl a))
      ]

  send_taken :
      (box : PlanMailbox) (sender recipient kind content : String) (r : PlanMailbox × TeamMessage)
      → send texts box sender recipient kind content ≡ ok r
      → (pending : List TeamMessage) × Acceptable box sender recipient kind content pending
          (made box sender recipient kind content)
  unfolding send
  send_taken box sender recipient kind content r h =
      let m = made box sender recipient kind content in
      let (own, mine, h1) = bind_ok (inbox box sender) _ r h in
      let (pending, theirs, h2) = bind_ok (inbox box recipient) _ r h1 in
      let (passed, h3) =
        guarded_ok (send_guards texts box pending content m)
          (ok (accept (texts.message_bytes m) m box, m)) r h2 in
      let (filled, given_short) = and_true (not (texts.blank content)) _ passed.1.0 in
      (
        pending,
        record {
          live = (inbox_ok box sender own mine).0;
          sender_found = λ gone. ground (arith, inbox_ok box sender own mine);
          found = (inbox_ok box recipient pending theirs).1;
          known_kind = known_kind_of kind passed.0;
          not_blank = ground (arith, filled);
          given_short = leb→le _ _ given_short;
          short = leb→le _ _ passed.1.1.0;
          room = ltb→lt _ _ passed.1.1.1.0;
          messages = ltb→lt _ _ passed.1.1.1.1.0;
          total = leb→le _ _ passed.1.1.1.1.1.0;
        },
      )

  -- What becomes of a message: taken, where it can be, and an error otherwise.
  abbrev pub IsAnswer :
      PlanMailbox
      → String
      → String
      → String
      → String
      → TeamMessage
      → Result (PlanMailbox × TeamMessage)
      → Type 0
  IsAnswer box sender recipient kind content message result =
      ((pending : List TeamMessage) × (box' : PlanMailbox) × (result ≡ ok (box', message))
        × Acceptable box sender recipient kind content pending message
        × Delivered box pending message box')
      ⊎ ((e : MailboxError) × (result ≡ err e)
          × ¬ (
              (pending : List TeamMessage) × Acceptable box sender recipient kind content pending
                message))

  -- A message is taken exactly when the box is open, sender and recipient take part, the kind is one
  -- of the four, the content is not blank and, as it was given and as it is redacted, within the
  -- limit, the recipient's inbox has room and the box's quotas hold with it. What is stored is the
  -- content with each secret of the box and then the patterns redacted, numbered next and signed; it
  -- stands last in the inbox of its recipient, the other inboxes are as they were, and the counters
  -- grow by it. Otherwise an error is raised.
  pub send_lem :
      (box : PlanMailbox) (sender recipient kind content : String)
      → (message : TeamMessage) × Stands box sender recipient kind content message
        × IsAnswer box sender recipient kind content message
            (send texts box sender recipient kind content)
  send_lem box sender recipient kind content = (
    made box sender recipient kind content,
    new_message-Stands box sender recipient kind content,
    by_result (send texts box sender recipient kind content) refl,
  )
    where
      by_result :
          (r : Result (PlanMailbox × TeamMessage))
          → send texts box sender recipient kind content ≡ r
          → IsAnswer box sender recipient kind content (made box sender recipient kind content) r
      by_result (ok r) h =
          let m = made box sender recipient kind content in
          let (pending, a) = send_taken box sender recipient kind content r h in
          inl (
            pending,
            accept (texts.message_bytes m) m box,
            sym h ∙ send_takes box sender recipient kind content pending a,
            a,
            accept-Delivered box pending m a.found,
          )
      by_result (err e) h = inr (
        e,
        refl,
        λ (pending, a).
            absurd (ground (arith, h, send_takes box sender recipient kind content pending a)),
      )
