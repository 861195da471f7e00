-- ===== src/Examples/Approved.antt =====
-- A request that is approved.
use local_coding_agent.Base.{◌≡◌, refl, String, string_eq, true, some, [], ◌∷◌, Memᴰ}
use local_coding_agent.Base.Dict.{lookup, insert, modify}
use local_coding_agent.Approvals.{
  ApprovalInbox, Status, new, enqueue, keep_waiting, mark, respond, look, answered,
}
use local_coding_agent.Approvals.Human.{begin, next, asking, approving, look_approved}

abbrev waiting : ApprovalInbox
waiting = enqueue 10 "r1" "run the tests" (new 90)

abbrev decided : ApprovalInbox
decided = mark "r1" Status.approved waiting

r1-respond : respond 20 "r1" true waiting ≡ answered decided
unfolding respond enqueue keep_waiting insert lookup modify
r1-respond = refl

r1-look : look "r1" decided ≡ some true
unfolding look enqueue keep_waiting insert lookup modify
r1-look = refl

look_approved_example : Memᴰ {A = String} "r1" ("r1" ∷ [])
look_approved_example =
    look_approved 90 ("r1" ∷ []) decided "r1"
      (next (next begin (asking 10 "r1" "run the tests")) (approving 20 "r1" r1-respond)) r1-look
