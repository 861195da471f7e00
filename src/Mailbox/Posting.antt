-- ===== src/Mailbox/Posting.antt =====
-- What a mailbox operation that succeeds has checked and done.
use local_coding_agent.Base.{
  ◌+◌, ◌≤◌, ◌<◌, String, Bool, true, false, ◌≡◌, refl, List, [], ◌∷◌, none, some, length, arith,
  Bool-cases, Option-cases, inl, inr, ◌≢◌, subst, leb→le, ltb→lt, contains, string_eq,
}
use local_coding_agent.Base.Dict.{lookup}
use local_coding_agent.Mailbox.{
  TeamMessage, Texts, PlanMailbox, MailboxError, Result, ok, err, ◌>>=◌, guarded, inbox, accept,
  send, new_message, send_guards, kinds,
}

pub ok_injective : {A : Type 0} (a b : A) → ok a ≡ ok b → a ≡ b
ok_injective a b h = ground arith

abbrev pub AllPass : List (Bool × MailboxError) → Type 0
AllPass [] = Unit
AllPass ((t, e) ∷ guards) = (t ≡ true) × AllPass guards

pub guarded_ok :
    {A : Type 0} (guards : List (Bool × MailboxError)) (rest : Result A) (a : A)
    → guarded guards rest ≡ ok a
    → AllPass guards × (rest ≡ ok a)
guarded_ok [] rest a h = (tt, h)
guarded_ok ((true, e) ∷ guards) rest a h = let (p, q) = guarded_ok guards rest a h in ((refl, p), q)
guarded_ok ((false, e) ∷ guards) rest a h = absurd (ground arith)

pub bind_ok :
    {A B : Type 0} (m : Result A) (f : A → Result B) (b : B)
    → (m >>= f) ≡ ok b
    → (a : A) × (m ≡ ok a) × (f a ≡ ok b)
bind_ok (ok a) f b h = (a, refl, h)
bind_ok (err e) f b h = absurd (ground arith)

pub inbox_ok :
    (box : PlanMailbox) (participant : String) (pending : List TeamMessage)
    → inbox box participant ≡ ok pending
    → (box.closed ≡ false) × (lookup participant box.inboxes ≡ some pending)
unfolding inbox
inbox_ok box participant pending h = elim (Bool-cases box.closed) [
  | inl c ↦ absurd (ground arith)
  | inr c ↦ elim (Option-cases (lookup participant box.inboxes)) [
    | inl gone ↦ absurd (ground arith)
    | inr (found, at) ↦ (c, ground arith)
  ]
]

module _ (texts : Texts) where
  -- What an accepted message has passed, and the box it leaves.
  pub record Posted (box : PlanMailbox) (sender recipient kind : String)
      (pending : List TeamMessage) (box' : PlanMailbox) (message : TeamMessage) : Type 0 where
    pub live : box.closed ≡ false
    pub found : lookup recipient box.inboxes ≡ some pending
    pub sender_found : lookup sender box.inboxes ≢ none
    pub known_kind : contains kind kinds ≡ true
    pub has_room : length pending < box.max_pending
    pub short : texts.chars message.content ≤ box.max_message_chars
    pub numbered : message.sequence ≡ box.sent + 1
    pub addressed : message.recipient ≡ recipient
    pub signed : message.sender ≡ sender
    pub messages : box.sent + 1 ≤ box.max_messages
    pub total : box.bytes + texts.message_bytes message ≤ box.max_total_bytes
    pub result : box' ≡ accept (texts.message_bytes message) message box

  -- A message that is sent comes from a participant to a participant with room, is numbered next,
  -- and is within every quota; it goes to the end of its recipient's inbox.
  pub send_ok :
      (box : PlanMailbox) (sender recipient kind content : String) (box' : PlanMailbox)
      (message : TeamMessage)
      → send texts box sender recipient kind content ≡ ok (box', message)
      → (pending : List TeamMessage) × Posted box sender recipient kind pending box' message
  unfolding send
  send_ok box sender recipient kind content box' message h =
      let m = new_message texts box sender recipient kind content in
      let (own, mine, h1) = bind_ok (inbox box sender) _ (box', message) h in
      let (pending, theirs, h2) = bind_ok (inbox box recipient) _ (box', message) h1 in
      let (passed, h3) =
        guarded_ok (send_guards texts box pending content m)
          (ok (accept (texts.message_bytes m) m box, m)) (box', message) h2 in
      let e = ok_injective (accept (texts.message_bytes m) m box, m) (box', message) h3 in
      (
        pending,
        subst (λ (r : PlanMailbox × TeamMessage). Posted box sender recipient kind pending r.0 r.1)
            e
            (record {
              live = (inbox_ok box sender own mine).0;
              found = (inbox_ok box recipient pending theirs).1;
              sender_found = λ gone. ground (arith, inbox_ok box sender own mine);
              known_kind = passed.0;
              has_room = ltb→lt _ _ passed.1.1.1.0;
              short = leb→le _ _ passed.1.1.0;
              numbered = refl;
              addressed = refl;
              signed = refl;
              messages = omega (arith, ltb→lt _ _ passed.1.1.1.1.0);
              total = leb→le _ _ passed.1.1.1.1.1.0;
              result = refl;
            }),
      )
