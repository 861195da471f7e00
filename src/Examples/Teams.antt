-- ===== src/Examples/Teams.antt =====
-- A team of two that exchanges one message.
use local_coding_agent.Base.{◌≡◌, refl, String, true, false, some, List, [], ◌∷◌, string_eq, length}
use local_coding_agent.Base.Dict.{lookup, modify}
use local_coding_agent.Mailbox.{
  Texts, PlanMailbox, TeamMessage, ok, new, fresh_box, inbox, send, drain, drain_loop, new_message,
  accept,
}
use local_coding_agent.Mailbox.Sending.{Stands, IsAnswer, send_lem}
use local_coding_agent.Mailbox.Reading.{Split, drain_lem}
use local_coding_agent.Mailbox.Queues.{IsValid, here, next, sending, Run-IsValid}

abbrev texts : Texts
texts = record {
  chars = λ s. 5;
  blank = λ s. false;
  is_id = λ s. true;
  longest_first = λ secrets. secrets;
  redact = λ secret content. content;
  redact_patterns = λ content. content;
  message_bytes = λ m. 120;
  batch_chars = λ ms. length ms;
}

abbrev team : List String
team = "coder" ∷ "tester" ∷ []

abbrev box : PlanMailbox
box = fresh_box texts "run" team 4 8 100 2000 []

box-new : new texts "run" team 4 8 100 2000 [] ≡ ok box
unfolding new
box-new = refl

abbrev note : TeamMessage
note = new_message texts box "coder" "tester" "status" "ready"

abbrev posted_box : PlanMailbox
posted_box = accept 120 note box

note-send : send texts box "coder" "tester" "status" "ready" ≡ ok (posted_box, note)
unfolding send inbox lookup
note-send = refl

send_lem_example :
    (message : TeamMessage) × Stands texts box "coder" "tester" "status" "ready" message
    × IsAnswer texts box "coder" "tester" "status" "ready" message
        (send texts box "coder" "tester" "status" "ready")
send_lem_example = send_lem texts box "coder" "tester" "status" "ready"

mailbox_Run-IsValid_example : IsValid posted_box
mailbox_Run-IsValid_example =
    Run-IsValid texts "run" team 4 8 100 2000 [] box posted_box box-new
      (next here (sending "coder" "tester" "status" "ready" note-send))

abbrev read_box : PlanMailbox
read_box = record posted_box { inboxes = modify "tester" (λ _. []) posted_box.inboxes }

note-drain : drain texts posted_box "tester" 8 4000 ≡ ok (read_box, note ∷ [])
unfolding drain drain_loop inbox lookup modify
note-drain = refl

drain_lem_example :
    (pending : List TeamMessage) × (rest : List TeamMessage) × (lookup "tester" posted_box.inboxes
      ≡ some pending)
    × (read_box ≡ record posted_box { inboxes = modify "tester" (λ _. rest) posted_box.inboxes })
    × (lookup "tester" read_box.inboxes ≡ some rest)
    × Split texts 8 4000 pending (note ∷ []) rest
drain_lem_example = drain_lem texts posted_box "tester" 8 4000 read_box (note ∷ []) note-drain
