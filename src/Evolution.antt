-- ===== src/Evolution.antt =====
-- src/local_coder/harness/evolution.py: the store of proposed revisions. The records on disk are a
-- dictionary of revisions and the events, in the reverse order of their writing. The time and the id
-- of an event, which the clock and `uuid4` make, are arguments of the operations; an id of 32
-- hexadecimal digits is the number that they write, so that ids are ordered as texts are. The hash of a payload, the checks of a proposal and of an id,
-- the name in a tool's payload and the test of a measured value are parameters. A refusal is `none`.
pub mod Order
pub mod Lifecycle
pub mod Active
pub mod Current
use local_coding_agent.Base.{
  ℕ, String, string_eq, Bool, true, false, not, ◌&&◌, ◌||◌, Option, none, some, List, [], ◌∷◌,
  if◌then◌else◌, ◌==◌, option_eq, pair_eq, nat_eq, ltb, all, any,
}
use local_coding_agent.Base.Dict.{Dict, lookup, insert, values}

pub data State : Type 0 where
  candidate validated rejected active observation : State

pub record Event : Type 0 where
  pub event_id : ℕ
  pub time_ns : ℕ
  pub revision_id : String
  pub state : State
  -- `event.get("digest")`
  pub digest : Option String

pub record Revision (P : Type 0) : Type 0 where
  pub revision_id : String
  pub kind : String
  pub payload : P
  pub digest : String

-- What an evaluator answers: success, and measurements by name.
pub record Verdict (F : Type 0) : Type 0 where
  pub success : Bool
  pub measurements : List (String × F)

abbrev pub is_active : State → Bool
is_active active = true
is_active _ = false

abbrev pub is_validated : State → Bool
is_validated validated = true
is_validated _ = false

abbrev pub is_evaluation : State → Bool
is_evaluation validated = true
is_evaluation rejected = true
is_evaluation _ = false

-- The order of the keys `(time_ns, event_id)`
abbrev pub is_before : Event → Event → Bool
is_before e f = ltb e.time_ns f.time_ns || (e.time_ns == f.time_ns && ltb e.event_id f.event_id)

unfoldable pub insert_event : Event → List Event → List Event
insert_event e [] = e ∷ []
insert_event e (f ∷ events) =
    let rest = insert_event e events in if is_before e f then e ∷ f ∷ events else f ∷ rest

-- `_events`: the events sorted by their keys
unfoldable pub in_order : List Event → List Event
unfolding insert_event
in_order [] = []
in_order (e ∷ events) = insert_event e (in_order events)

abbrev pub evaluates : String → Event → Bool
evaluates id e = e.revision_id == id && is_evaluation e.state

abbrev pub last_or : {A : Type 0} → Option A → Option A → Option A
last_or (some a) other = some a
last_or none other = other

-- The last evaluation of a revision, `evaluations[-1]`
unfoldable pub last_evaluation : String → List Event → Option Event
last_evaluation id [] = none
last_evaluation id (e ∷ events) =
    last_or (last_evaluation id events) (if evaluates id e then some e else none)

abbrev pub passes : String → Option Event → Bool
passes digest none = false
passes digest (some e) = is_validated e.state && e.digest == some digest

abbrev pub only_if : {A : Type 0} → Bool → Option A → Option A
only_if true result = result
only_if false result = none

abbrev pub and_then : {A B : Type 0} → Option A → (A → Option B) → Option B
and_then none f = none
and_then (some a) f = f a

abbrev pub is_absent : {A : Type 0} → Option A → Bool
is_absent none = true
is_absent (some a) = false

pub record Store (P : Type 0) : Type 0 where
  pub revisions : Dict String (Revision P)
  pub events : List Event

-- The time and the id of a new event
pub record Stamp : Type 0 where
  pub time : ℕ
  pub event_id : ℕ

abbrev pub stamped : Stamp → String → State → Option String → Event
stamped stamp id state digest = record {
  event_id = stamp.event_id;
  time_ns = stamp.time;
  revision_id = id;
  state = state;
  digest = digest;
}

-- `_event`
abbrev pub log : {P : Type 0} → Stamp → String → State → Option String → Store P → Store P
log stamp id state digest s = record s { events = stamped stamp id state digest ∷ s.events }

abbrev pub verdict_state : Bool → State
verdict_state success = if success then validated else rejected

abbrev pub is_measured : {F : Type 0} → (F → Bool) → List (String × F) → Bool
is_measured is_valid [] = false
is_measured is_valid (m ∷ ms) = all (λ n. is_valid n.1) (m ∷ ms)

module _ {P : Type 0} (hash : P → String) (is_id : String → Bool) (name_of : P → String) where
  abbrev pub unchanged : Revision P → Option (Revision P)
  unchanged r = only_if (r.digest == hash r.payload) (some r)

  -- `_candidate`: the record of an id, refused where its content is not what was proposed
  unfoldable pub candidate_of : Store P → String → Option (Revision P)
  unfolding lookup
  candidate_of s id = only_if (is_id id) (and_then (lookup id s.revisions) unchanged)

  -- `_validated`
  unfoldable pub validated_of : Store P → String → Option (Revision P)
  unfolding candidate_of last_evaluation in_order
  validated_of s id =
      and_then (candidate_of s id)
        (λ r. only_if (passes r.digest (last_evaluation id (in_order s.events))) (some r))

  -- The checks of `propose`, which answer the payload to store; `id` is the new one, and its file must
  -- not exist.
  unfoldable pub propose :
      (String → P → Option P) → Stamp → String → String → P → Store P → Option (Store P)
  unfolding lookup insert
  propose check stamp id kind payload s = and_then (check kind payload) (λ clean.
      only_if (is_absent (lookup id s.revisions)) (
        some (
          log stamp id candidate none (record s {
            revisions =
                insert id
                  (record { revision_id = id; kind = kind; payload = clean; digest = hash clean })
                  s.revisions;
          }))))

  -- `validate`, given what the evaluator answered; no answer where it is no such object
  unfoldable pub validate :
      {F : Type 0} → (F → Bool) → Stamp → String → Option (Verdict F) → Store P → Option (Store P)
  unfolding candidate_of
  validate is_valid stamp id verdict s = and_then (candidate_of s id) (λ r. and_then verdict (λ v.
      only_if (is_measured is_valid v.measurements)
        (some (log stamp id (verdict_state v.success) (some r.digest) s))))

  unfoldable pub activate : Stamp → String → Bool → Store P → Option (Store P)
  unfolding validated_of
  activate stamp id approved s =
      only_if approved
        (and_then (validated_of s id) (λ r. some (log stamp id active (some r.digest) s)))

  unfoldable pub rollback : Stamp → String → Bool → Store P → Option (Store P)
  unfolding activate in_order
  rollback stamp id approved s =
      only_if (any (λ e. e.revision_id == id && is_active e.state) (in_order s.events))
        (activate stamp id approved s)

  unfoldable pub record_outcome : Stamp → String → Store P → Option (Store P)
  unfolding candidate_of
  record_outcome stamp id s =
      and_then (candidate_of s id) (λ r. some (log stamp id observation none s))

  abbrev pub key_of : Revision P → String × String
  key_of r = (r.kind, if r.kind == "tool" then name_of r.payload else "")

  -- One round of the loop of `active_revisions`
  abbrev pub take_active :
      Store P
      → Event
      → Dict (String × String) (Revision P)
      → Option (Dict (String × String) (Revision P))
  take_active s e found =
      if is_active e.state
      then and_then (validated_of s e.revision_id) (λ r. some (insert (key_of r) r found))
      else some found

  unfoldable pub active_from :
      Store P
      → List Event
      → Dict (String × String) (Revision P)
      → Option (Dict (String × String) (Revision P))
  unfolding validated_of insert
  active_from s [] found = some found
  active_from s (e ∷ events) found = and_then (take_active s e found) (active_from s events)

  unfoldable pub active_revisions : Store P → Option (List (Revision P))
  unfolding active_from in_order
  active_revisions s =
      and_then (active_from s (in_order s.events) []) (λ found. some (values found))
