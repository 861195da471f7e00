-- ===== src/Approvals/Human.antt =====
-- Only a response that approves makes an approved item, whatever else happens to the inbox.
use mathlib.Core.List.Memᴰ
use local_coding_agent.Base.{
  ℕ, String, string_eq, Bool, true, false, ◌≡◌, refl, sym, ap, ◌∙◌, ◌⊎◌, inl, inr, Option, none,
  some, List, [], ◌∷◌, ◌++◌, Memᴰ, ◌==◌, if◌then◌else◌, arith, Bool-cases, Option-cases, contains,
  subst,
}
use local_coding_agent.Base.Dict.{Dict, lookup, insert, modify, lookup-insert, of_lookup-modify}
use local_coding_agent.Approvals.{
  Status, Item, ApprovalInbox, new, is_approved, set_status, mark, answered, too_late, decision,
  respond_to, respond, cancel_pending, cancel_each, cancel_all, enqueue, look, expire, cancel,
}

-- The item with this id is approved.
abbrev pub Approved : String → Dict String Item → Type 0
Approved id items = (item : Item) × (lookup id items ≡ some item) × (is_approved item.status ≡ true)

Approved-modify :
    (id key : String) (f : Item → Item) (items : Dict String Item)
    → ((item : Item) → is_approved (f item).status ≡ true → is_approved item.status ≡ true)
    → Approved id (modify key f items)
    → Approved id items
Approved-modify id key f items keeps (item, at, ok) =
    let (old, was, change) = of_lookup-modify key id f items item at in
    (
      old,
      was,
      elim change [
        | inl (_, new) ↦ keeps old (sym (ap (λ (x : Item). is_approved x.status) new) ∙ ok)
        | inr (_, same) ↦ sym (ap (λ (x : Item). is_approved x.status) same) ∙ ok
      ],
    )

Approved-cancel_each :
    (id : String) (ids : List String) (items : Dict String Item)
    → Approved id (cancel_each ids items)
    → Approved id items
unfolding cancel_each
Approved-cancel_each id [] items a = a
Approved-cancel_each id (key ∷ ids) items a =
    Approved-modify id key cancel_pending items (λ item h. ground arith)
      (Approved-cancel_each id ids (modify key cancel_pending items) a)

Approved-insert :
    (id key : String) (item : Item) (items : Dict String Item)
    → is_approved item.status ≡ false
    → Approved id (insert key item items)
    → Approved id items
Approved-insert id key item items fresh (found, at, ok) = elim (Bool-cases (key == id)) [
  | inl same ↦ absurd (ground (arith, lookup-insert key id item items))
  | inr other ↦ (found, ground (arith, lookup-insert key id item items), ok)
]

-- What a response does to the items: it decides one that was pending.
respond_answered :
    (now : ℕ) (key : String) (ok : Bool) (inbox inbox' : ApprovalInbox)
    → respond now key ok inbox ≡ answered inbox'
    → inbox' ≡ mark key (decision ok) inbox
unfolding respond
respond_answered now key ok inbox inbox' h =
    by_item (if contains key inbox.listed then lookup key inbox.items else none) h
  where
    by_item :
        (o : Option Item)
        → respond_to now key ok inbox o ≡ answered inbox'
        → inbox' ≡ mark key (decision ok) inbox
    by_item none e = absurd (ground arith)
    by_item (some item) e = ground arith

respond_too_late :
    (now : ℕ) (key : String) (ok : Bool) (inbox inbox' : ApprovalInbox)
    → respond now key ok inbox ≡ too_late inbox'
    → inbox' ≡ mark key Status.expired inbox
unfolding respond
respond_too_late now key ok inbox inbox' h =
    by_item (if contains key inbox.listed then lookup key inbox.items else none) h
  where
    by_item :
        (o : Option Item)
        → respond_to now key ok inbox o ≡ too_late inbox'
        → inbox' ≡ mark key Status.expired inbox
    by_item none e = absurd (ground arith)
    by_item (some item) e = ground arith

-- One operation, with the ids that it approves.
pub data Step (inbox : ApprovalInbox) : List String → ApprovalInbox → Type 0 where
  approving :
      (now : ℕ) (id : String) {inbox' : ApprovalInbox}
      → respond now id true inbox ≡ answered inbox'
      → Step inbox (id ∷ []) inbox'
  denying :
      (now : ℕ) (id : String) {inbox' : ApprovalInbox}
      → respond now id false inbox ≡ answered inbox'
      → Step inbox [] inbox'
  missing :
      (now : ℕ) (id : String) (ok : Bool) {inbox' : ApprovalInbox}
      → respond now id ok inbox ≡ too_late inbox'
      → Step inbox [] inbox'
  stopping : Step inbox [] (cancel_all inbox)
  asking : (now : ℕ) (id description : String) → Step inbox [] (enqueue now id description inbox)
  expiring : (id : String) → Step inbox [] (expire id inbox)
  cancelling : (id : String) → Step inbox [] (cancel id inbox)

-- Operations in their order, with the ids that they approve.
pub data Run (inbox : ApprovalInbox) : List String → ApprovalInbox → Type 0 where
  begin : Run inbox [] inbox
  next :
      {ids more : List String} {m n : ApprovalInbox}
      → Run inbox ids m
      → Step m more n
      → Run inbox (more ++ ids) n

Approved-mark :
    (id key : String) (s : Status) (inbox : ApprovalInbox)
    → is_approved s ≡ false
    → Approved id (mark key s inbox).items
    → Approved id inbox.items
Approved-mark id key s inbox other =
    Approved-modify id key (set_status s) inbox.items (λ item h. absurd (ground arith))

Approved-step :
    {m n : ApprovalInbox} {ids : List String} (id : String)
    → Step m ids n
    → Approved id n.items
    → Memᴰ id ids ⊎ Approved id m.items
unfolding cancel_all enqueue expire cancel
Approved-step {m} id (approving now key {inbox'} h) a =
    let e = respond_answered now key true m inbox' h in
    let (item, at, ok) = subst (λ (x : ApprovalInbox). Approved id x.items) e a in
    let (old, was, change) = of_lookup-modify key id (set_status Status.approved) m.items item at in
    elim change [
      | inl (same, _) ↦ inl (Memᴰ.head (sym same))
      | inr (_, same) ↦ inr (old, was, sym (ap (λ (x : Item). is_approved x.status) same) ∙ ok)
    ]
Approved-step {m} id (denying now key {inbox'} h) a = inr (
    Approved-mark id key Status.denied m refl (
      subst (λ (x : ApprovalInbox). Approved id x.items) (respond_answered now key false m inbox' h)
        a))
Approved-step {m} id (missing now key ok {inbox'} h) a = inr (
    Approved-mark id key Status.expired m refl (
      subst (λ (x : ApprovalInbox). Approved id x.items) (respond_too_late now key ok m inbox' h)
        a))
Approved-step {m} id stopping a = inr (Approved-cancel_each id m.listed m.items a)
Approved-step {m} id (asking now key description) a = inr (Approved-insert id key _ m.items refl a)
Approved-step {m} id (expiring key) a = inr (Approved-mark id key Status.expired m refl a)
Approved-step {m} id (cancelling key) a = inr (Approved-mark id key Status.cancelled m refl a)

Approved-Run :
    {m n : ApprovalInbox} {ids : List String} (id : String)
    → Run m ids n
    → Approved id n.items
    → Memᴰ id ids ⊎ Approved id m.items
Approved-Run id begin a = inr a
Approved-Run id (next {ids} {more} run step) a = elim (Approved-step id step a) [
  | inl now ↦ inl (Memᴰ.append_left ids now)
  | inr before ↦ elim (Approved-Run id run before) [
    | inl earlier ↦ inl (Memᴰ.append_right more earlier)
    | inr first ↦ inr first
  ]
]

look-Approved :
    (id : String) (inbox : ApprovalInbox) → look id inbox ≡ some true → Approved id inbox.items
unfolding look
look-Approved id inbox h = elim (Option-cases (lookup id inbox.items)) [
  | inl gone ↦ absurd (ground arith)
  | inr (item, at) ↦ (item, at, ground arith)
]

-- A request is answered with yes only if a response has approved its id: no request, expiry or
-- cancellation, of this item or another, and no order of them gives an approval.
pub look_approved :
    (timeout : ℕ) (ids : List String) (inbox : ApprovalInbox) (id : String)
    → Run (new timeout) ids inbox
    → look id inbox ≡ some true
    → Memᴰ id ids
unfolding lookup
look_approved timeout ids inbox id run h = elim (Approved-Run id run (look-Approved id inbox h)) [
  | inl approved_before ↦ approved_before
  | inr (item, at, _) ↦ absurd (ground arith)
]
