-- ===== src/Approvals.antt =====
-- src/local_coder/core/approvals.py: `ApprovalInbox`. The requests that wait hold their items
-- themselves, so `items` has every item that was made, and `listed` the ids that the inbox still
-- lists. `request` is its parts: `enqueue`, `look` at each turn, and `expire` or `cancel` at its end.
pub mod Human
use local_coding_agent.Base.{
  ℕ, ◌+◌, ◌-◌, String, string_eq, Bool, true, false, Option, none, some, List, [], ◌∷◌, ◌++◌,
  if◌then◌else◌, leb, ltb, length, contains, take, drop,
}
use local_coding_agent.Base.Dict.{Dict, lookup, insert, modify}

pub data Status : Type 0 where
  pending approved denied expired cancelled : Status

pub record Item : Type 0 where
  pub description : String
  pub status : Status
  pub created_at : ℕ

pub record ApprovalInbox : Type 0 where
  pub timeout : ℕ
  pub items : Dict String Item
  pub listed : List String

-- `__init__`
abbrev pub new : ℕ → ApprovalInbox
new timeout = record { timeout = timeout; items = []; listed = [] }

abbrev pub is_pending : Status → Bool
is_pending Status.pending = true
is_pending _ = false

abbrev pub is_approved : Status → Bool
is_approved Status.approved = true
is_approved _ = false

abbrev pub set_status : Status → Item → Item
set_status s item = record item { status = s }

abbrev pub mark : String → Status → ApprovalInbox → ApprovalInbox
mark identity s inbox = record inbox { items = modify identity (set_status s) inbox.items }

-- How `respond` ends: it returns, or raises for one of two reasons, the second of which changes the item.
pub data Responded : Type 0 where
  answered : ApprovalInbox → Responded
  not_pending : Responded
  too_late : ApprovalInbox → Responded

abbrev pub decision : Bool → Status
decision accepted = if accepted then Status.approved else Status.denied

abbrev pub respond_to : ℕ → String → Bool → ApprovalInbox → Option Item → Responded
respond_to now identity accepted inbox none = not_pending
respond_to now identity accepted inbox (some item) =
    if is_pending item.status
    then (if leb (item.created_at + inbox.timeout) now
        then too_late (mark identity Status.expired inbox)
        else answered (mark identity (decision accepted) inbox))
    else not_pending

unfoldable pub respond : ℕ → String → Bool → ApprovalInbox → Responded
respond now identity accepted inbox =
    respond_to now identity accepted inbox
      (if contains identity inbox.listed then lookup identity inbox.items else none)

abbrev pub cancel_pending : Item → Item
cancel_pending item = if is_pending item.status then set_status Status.cancelled item else item

unfoldable pub cancel_each : List String → Dict String Item → Dict String Item
cancel_each [] items = items
cancel_each (identity ∷ ids) items = cancel_each ids (modify identity cancel_pending items)

unfoldable pub cancel_all : ApprovalInbox → ApprovalInbox
unfolding cancel_each
cancel_all inbox = record inbox { items = cancel_each inbox.listed inbox.items }

abbrev pub waits : Option Item → Bool
waits none = false
waits (some item) = is_pending item.status

-- `for identity in list(self._items)[:-100]`: what of the old ids stays listed
unfoldable pub keep_waiting : Dict String Item → List String → List String
keep_waiting items [] = []
keep_waiting items (identity ∷ ids) =
    if waits (lookup identity items)
    then identity ∷ keep_waiting items ids
    else keep_waiting items ids

abbrev pub prune : Dict String Item → List String → List String
prune items ids = keep_waiting items (take (length ids - 100) ids) ++ drop (length ids - 100) ids

-- The start of `request`, with the id that `uuid4` makes, on a description within its bound
unfoldable pub enqueue : ℕ → String → String → ApprovalInbox → ApprovalInbox
unfolding keep_waiting
enqueue now identity description inbox =
    let items =
      insert identity
        (record { description = description; status = Status.pending; created_at = now })
        inbox.items in
    record inbox { items = items; listed = prune items (inbox.listed ++ identity ∷ []) }

-- One look of `request` at its item: the answer, or none yet.
abbrev pub answer_of : Option Item → Option Bool
answer_of none = none
answer_of (some item) = if is_pending item.status then none else some (is_approved item.status)

unfoldable pub look : String → ApprovalInbox → Option Bool
look identity inbox = answer_of (lookup identity inbox.items)

-- The ends of `request` without an answer
unfoldable pub expire : String → ApprovalInbox → ApprovalInbox
expire identity = mark identity Status.expired

unfoldable pub cancel : String → ApprovalInbox → ApprovalInbox
cancel identity = mark identity Status.cancelled
