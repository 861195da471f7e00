-- ===== src/Mailbox/Queues.antt =====
-- The mailbox over its life: any sequence of sends, reads and the close keeps every bound, and each
-- inbox in order.
use local_coding_agent.Base.{
  ℕ, ◌+◌, ◌≤◌, ◌<◌, String, ◌≡◌, refl, List, [], ◌∷◌, ◌++◌, ◌∙◌, length-append, Option, some,
  length, arith, inl, inr, sym, ap, subst, string_eq, map,
}
use local_coding_agent.Base.Dict.{Dict, lookup, modify, of_lookup-modify}
use local_coding_agent.Mailbox.{
  TeamMessage, Texts, PlanMailbox, ok, send, drain, close, cleared, receive_now, tail_of, inbox,
  take_first, new, new_guards, fresh_box,
}
use local_coding_agent.Mailbox.Reading.{drain_lem}
use local_coding_agent.Mailbox.Posting.{send_ok, bind_ok, guarded_ok, ok_injective}

-- The messages of one inbox: addressed to it, numbered upwards after `low`, and up to `sent`.
abbrev pub IsQueue : String → ℕ → ℕ → List TeamMessage → Type 0
IsQueue name low sent [] = Unit
IsQueue name low sent (m ∷ ms) =
    (m.recipient ≡ name)
    × (low < m.sequence)
    × (m.sequence ≤ sent)
    × IsQueue name m.sequence sent ms

pub record IsValid (box : PlanMailbox) : Type 0 where
  pub messages : box.sent ≤ box.max_messages
  pub total : box.bytes ≤ box.max_total_bytes
  pub queues :
      (name : String) (ms : List TeamMessage)
      → lookup name box.inboxes ≡ some ms
      → IsQueue name 0 box.sent ms
  pub room :
      (name : String) (ms : List TeamMessage)
      → lookup name box.inboxes ≡ some ms
      → length ms ≤ box.max_pending

IsQueue-snoc :
    (name : String) (low sent : ℕ) (ms : List TeamMessage) (m : TeamMessage)
    → low ≤ sent
    → m.recipient ≡ name
    → m.sequence ≡ sent + 1
    → IsQueue name low sent ms
    → IsQueue name low (sent + 1) (ms ++ m ∷ [])
IsQueue-snoc name low sent [] m le r s q = (r, omega (arith, s, le), omega (arith, s), tt)
IsQueue-snoc name low sent (x ∷ ms) m le r s q =
    (q.0, q.1, omega (arith, q.2), IsQueue-snoc name x.sequence sent ms m q.2 r s q.3)

IsQueue-mono :
    (name : String) (low low' sent sent' : ℕ) (ms : List TeamMessage)
    → low' ≤ low
    → sent ≤ sent'
    → IsQueue name low sent ms
    → IsQueue name low' sent' ms
IsQueue-mono name low low' sent sent' [] p q h = tt
IsQueue-mono name low low' sent sent' (x ∷ ms) p q h = (
  h.0,
  omega (arith, h.1, p),
  omega (arith, h.2, q),
  IsQueue-mono name x.sequence x.sequence sent sent' ms (omega arith) q h.3,
)

IsQueue-append :
    (name : String) (sent : ℕ) (front ms : List TeamMessage) (low : ℕ)
    → IsQueue name low sent (front ++ ms)
    → IsQueue name low sent ms
IsQueue-append name sent [] ms low h = h
IsQueue-append name sent (x ∷ front) ms low h =
    IsQueue-mono name x.sequence low sent sent ms (omega (arith, h.1)) (omega arith)
      (IsQueue-append name sent front ms x.sequence h.3)

ok_some : {A : Type 0} (a b : A) → some a ≡ some b → a ≡ b
ok_some a b h = ground arith

module _ (texts : Texts) where
  pub IsValid-send :
      (box box' : PlanMailbox) (sender recipient kind content : String) (message : TeamMessage)
      → send texts box sender recipient kind content ≡ ok (box', message)
      → IsValid box
      → IsValid box'
  IsValid-send box box' sender recipient kind content message h v =
      let (pending, p) = send_ok texts box sender recipient kind content box' message h in
      subst IsValid (sym p.result) (record {
        messages = p.messages;
        total = p.total;
        queues = λ name ms at.
            let (old, was, change) = of_lookup-modify message.recipient name _ box.inboxes ms at in
            elim change [
              | inl (same, new) ↦ subst (IsQueue name 0 (box.sent + 1)) (sym new) (
                  IsQueue-snoc name 0 box.sent old message (omega arith) same p.numbered
                    (v.queues name old was))
              | inr (_, new) ↦ subst (IsQueue name 0 (box.sent + 1)) (sym new) (
                  IsQueue-mono name 0 0 box.sent (box.sent + 1) old (omega arith) (omega arith)
                    (v.queues name old was))
            ];
        room = λ name ms at.
            let (old, was, change) = of_lookup-modify message.recipient name _ box.inboxes ms at in
            elim change [
              | inl (same, new) ↦ omega (
                arith,
                p.has_room,
                ap length new,
                length-append old (message ∷ []),
                ap length (
                    ok_some _ _ (
                      sym p.found
                      ∙ (ap (λ k. lookup k box.inboxes) (sym p.addressed ∙ same) ∙ was))),
              )
              | inr (_, new) ↦ rw (new) (v.room name old was)
            ];
      })

  IsQueue-drained :
      (name : String) (sent : ℕ) (pending taken rest : List TeamMessage)
      → pending ≡ taken ++ rest
      → IsQueue name 0 sent pending
      → IsQueue name 0 sent rest
  IsQueue-drained name sent pending taken rest e q =
      IsQueue-append name sent taken rest 0 (subst (IsQueue name 0 sent) e q)

  -- A change of one inbox that keeps it a queue with room keeps the box valid.
  IsValid-modify :
      (box : PlanMailbox) (name : String) (f : List TeamMessage → List TeamMessage)
      → ((ms : List TeamMessage)
          → lookup name box.inboxes ≡ some ms
          → (taken : List TeamMessage) × (ms ≡ taken ++ f ms))
      → IsValid box
      → IsValid (record box { inboxes = modify name f box.inboxes })
  IsValid-modify box name f suffix v = record {
    messages = v.messages;
    total = v.total;
    queues = λ other ms at.
        let (old, was, change) = of_lookup-modify name other f box.inboxes ms at in
        elim change [
          | inl (same, new) ↦
              let (taken, split) = suffix old (ap (λ k. lookup k box.inboxes) same ∙ was) in
              subst (IsQueue other 0 box.sent) (sym new)
                (IsQueue-drained other box.sent old taken (f old) split (v.queues other old was))
          | inr (_, new) ↦ subst (IsQueue other 0 box.sent) (sym new) (v.queues other old was)
        ];
    room = λ other ms at.
        let (old, was, change) = of_lookup-modify name other f box.inboxes ms at in
        elim change [
          | inl (same, new) ↦
              let (taken, split) = suffix old (ap (λ k. lookup k box.inboxes) same ∙ was) in
              omega (
                arith,
                ap length new,
                ap length split,
                length-append taken (f old),
                v.room other old was,
              )
          | inr (_, new) ↦ rw (new) (v.room other old was)
        ];
  }

  pub IsValid-drain :
      (box box' : PlanMailbox) (recipient : String) (limit budget : ℕ) (taken : List TeamMessage)
      → drain texts box recipient limit budget ≡ ok (box', taken)
      → IsValid box
      → IsValid box'
  IsValid-drain box box' recipient limit budget taken h v =
      let (pending, rest, at, result, _, split) =
        drain_lem texts box recipient limit budget box' taken h in
      subst IsValid (sym result) (
        IsValid-modify box recipient (λ _. rest)
          (λ ms found. (taken, ok_some _ _ (sym found ∙ at) ∙ split.0)) v)

  pub IsValid-receive :
      (box box' : PlanMailbox) (recipient : String) (message : Option TeamMessage)
      → receive_now box recipient ≡ ok (box', message)
      → IsValid box
      → IsValid box'
  unfolding receive_now
  IsValid-receive box box' recipient message h v =
      let (pending, mine, h1) = bind_ok (inbox box recipient) _ (box', message) h in
      subst (λ (r : PlanMailbox × Option TeamMessage). IsValid r.0)
        (ok_injective (take_first box recipient pending) (box', message) h1) (taken_first pending)
    where
      dropped_first :
          (ms : List TeamMessage) → (taken : List TeamMessage) × (ms ≡ taken ++ tail_of ms)
      dropped_first [] = ([], refl)
      dropped_first (m ∷ ms) = (m ∷ [], refl)

      taken_first : (pending : List TeamMessage) → IsValid (take_first box recipient pending).0
      taken_first [] = v
      taken_first (m ∷ ms) = IsValid-modify box recipient tail_of (λ ms found. dropped_first ms) v

  lookup-cleared :
      (name : String) (ms : List TeamMessage) (d : Dict String (List TeamMessage))
      → lookup name (cleared d) ≡ some ms
      → ms ≡ []
  unfolding lookup
  lookup-cleared name ms [] h = absurd (ground arith)
  lookup-cleared name ms ((k, x) ∷ d) h = ground (arith, lookup-cleared name ms d)

  pub IsValid-close : (box : PlanMailbox) → IsValid box → IsValid (close box)
  unfolding close
  IsValid-close box v = record {
    messages = v.messages;
    total = v.total;
    queues = λ name ms at.
        subst (IsQueue name 0 box.sent) (sym (lookup-cleared name ms box.inboxes at)) tt;
    room = λ name ms at. rw (lookup-cleared name ms box.inboxes at) (omega arith);
  }

  -- One operation that goes through. One that raises changes nothing.
  pub data Step (box : PlanMailbox) : PlanMailbox → Type 0 where
    sending :
        (sender recipient kind content : String) {box' : PlanMailbox} {message : TeamMessage}
        → send texts box sender recipient kind content ≡ ok (box', message)
        → Step box box'
    draining :
        (recipient : String) (limit budget : ℕ) {box' : PlanMailbox} {taken : List TeamMessage}
        → drain texts box recipient limit budget ≡ ok (box', taken)
        → Step box box'
    receiving :
        (recipient : String) {box' : PlanMailbox} {message : Option TeamMessage}
        → receive_now box recipient ≡ ok (box', message)
        → Step box box'
    closing : Step box (close box)

  pub data Run (box : PlanMailbox) : PlanMailbox → Type 0 where
    here : Run box box
    next : {m n : PlanMailbox} → Run box m → Step m n → Run box n

  IsValid-step : {m n : PlanMailbox} → Step m n → IsValid m → IsValid n
  IsValid-step (sending s r k c h) v = IsValid-send _ _ s r k c _ h v
  IsValid-step (draining r l b h) v = IsValid-drain _ _ r l b _ h v
  IsValid-step (receiving r h) v = IsValid-receive _ _ r _ h v
  IsValid-step closing v = IsValid-close _ v

  IsValid-Run : {m n : PlanMailbox} → Run m n → IsValid m → IsValid n
  IsValid-Run here v = v
  IsValid-Run (next r s) v = IsValid-step s (IsValid-Run r v)

  lookup-fresh :
      (name : String) (ms : List TeamMessage) (participants : List String)
      → lookup name (map (λ k. (k, [])) participants) ≡ some ms
      → ms ≡ []
  unfolding lookup
  lookup-fresh name ms [] h = absurd (ground arith)
  lookup-fresh name ms (k ∷ participants) h = ground (arith, lookup-fresh name ms participants)

  IsValid-new :
      (run_id : String) (participants : List String) (pending messages chars total : ℕ)
      (secrets : List String) (box : PlanMailbox)
      → new texts run_id participants pending messages chars total secrets ≡ ok box
      → IsValid box
  unfolding new
  IsValid-new run_id participants pending messages chars total secrets box h =
      let built = fresh_box texts run_id participants pending messages chars total secrets in
      let (_, e) =
        guarded_ok (new_guards texts participants pending messages chars total secrets) (ok built)
          box h in
      subst IsValid (ok_injective built box e) (record {
        messages = omega arith;
        total = omega arith;
        queues =
            λ name ms at. subst (IsQueue name 0 0) (sym (lookup-fresh name ms participants at)) tt;
        room = λ name ms at. rw (lookup-fresh name ms participants at) (omega arith);
      })

  -- Whatever is sent and read, in any order, a mailbox made by the constructor keeps its message
  -- and byte quotas and the capacity of each inbox, and each inbox holds messages addressed to it,
  -- in the order in which they were sent.
  pub Run-IsValid :
      (run_id : String) (participants : List String) (pending messages chars total : ℕ)
      (secrets : List String) (box box' : PlanMailbox)
      → new texts run_id participants pending messages chars total secrets ≡ ok box
      → Run box box'
      → IsValid box'
  Run-IsValid run_id participants pending messages chars total secrets box box' h r =
      IsValid-Run r (IsValid-new run_id participants pending messages chars total secrets box h)
