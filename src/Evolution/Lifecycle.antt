-- ===== src/Evolution/Lifecycle.antt =====
-- What may be active in the store of src/local_coder/harness/evolution.py, over every sequence of
-- operations, the change of a stored record behind the store's back included.
use local_coding_agent.Base.{
  ℕ, ◌+◌, ◌≤◌, ◌≡◌, ◌⊎◌, inl, inr, refl, sym, ap, subst, ◌∙◌, String, string_eq, Bool, true, false,
  Option, none, some, List, [], ◌∷◌, if◌then◌else◌, option_eq, pair_eq, arith, Option-cases,
}
use local_coding_agent.Base.Dict.{insert}
use local_coding_agent.Evolution.Order.{HasPassed, passes-HasPassed}
use local_coding_agent.Evolution.{
  candidate, active, observation, Event, Revision, Verdict, is_active, Stamp, stamped, only_if,
  and_then, Store, verdict_state, candidate_of, validated_of, propose, validate, activate, rollback,
  record_outcome,
}

pub only_if-some :
    {A : Type 0} (b : Bool) (o : Option A) (a : A)
    → only_if b o ≡ some a
    → (b ≡ true) × (o ≡ some a)
only_if-some true o a h = (refl, h)
only_if-some false o a h = absurd (ground arith)

pub and_then-some :
    {A B : Type 0} (o : Option A) (f : A → Option B) (b : B)
    → and_then o f ≡ some b
    → (a : A) × (o ≡ some a) × (f a ≡ some b)
and_then-some none f b h = absurd (ground arith)
and_then-some (some a) f b h = (a, refl, h)

pub some_injective : {A : Type 0} (a b : A) → some a ≡ some b → a ≡ b
some_injective a b h = ground arith

-- One event more: an activation carries the digest that, of the evaluations of its revision recorded
-- so far, the newest has validated.
abbrev pub IsBacked : Event → List Event → Type 0
IsBacked e events =
    is_active e.state ≡ true
    → (digest : String) × (e.digest ≡ some digest) × HasPassed digest e.revision_id events

abbrev pub AreBacked : List Event → Type 0
AreBacked [] = Unit
AreBacked (e ∷ events) = IsBacked e events × AreBacked events

abbrev pub activations : List Event → ℕ
activations [] = 0
activations (e ∷ events) = (if is_active e.state then 1 else 0) + activations events

pub data Operation (P F : Type 0) : Type 0 where
  to_propose : Stamp → String → String → P → Operation P F
  to_validate : Stamp → String → Option (Verdict F) → Operation P F
  to_activate to_rollback : Stamp → String → Bool → Operation P F
  to_record : Stamp → String → Operation P F
  -- a stored record is overwritten from outside
  to_tamper : String → Revision P → Operation P F

module _ {P F : Type 0} (hash : P → String) (is_id : String → Bool) (name_of : P → String)
    (check : String → P → Option P) (is_valid : F → Bool) where
  unfoldable pub step : Operation P F → Store P → Option (Store P)
  step (to_propose stamp id kind payload) s =
      propose hash is_id name_of check stamp id kind payload s
  step (to_validate stamp id verdict) s = validate hash is_id name_of is_valid stamp id verdict s
  step (to_activate stamp id approved) s = activate hash is_id name_of stamp id approved s
  step (to_rollback stamp id approved) s = rollback hash is_id name_of stamp id approved s
  step (to_record stamp id) s = record_outcome hash is_id name_of stamp id s
  step (to_tamper id r) s = some (record s { revisions = insert id r s.revisions })

  abbrev pub or_same : Store P → Option (Store P) → Store P
  or_same s none = s
  or_same s (some t) = t

  -- The store after a sequence of operations, of which each that raises changes nothing.
  unfoldable pub run : List (Operation P F) → Store P → Store P
  run [] s = s
  run (op ∷ ops) s = run ops (or_same s (step op s))

  abbrev pub is_approved : Operation P F → Bool
  is_approved (to_activate stamp id approved) = approved
  is_approved (to_rollback stamp id approved) = approved
  is_approved _ = false

  abbrev pub approvals : List (Operation P F) → ℕ
  approvals [] = 0
  approvals (op ∷ ops) = (if is_approved op then 1 else 0) + approvals ops

  -- What a step does to the events: none, one that is no activation, or a backed activation that was
  -- approved.
  abbrev IsLogged : Bool → List Event → List Event → Type 0
  IsLogged approved events after =
      (after ≡ events)
      ⊎ ((e : Event) × (after ≡ e ∷ events)
          × IsBacked e events
          × (is_active e.state ≡ true → approved ≡ true))

  validated_passes :
      (s : Store P) (id : String) (r : Revision P)
      → validated_of hash is_id name_of s id ≡ some r
      → HasPassed r.digest id s.events
  unfolding validated_of
  validated_passes s id r h =
      let (c, found, passed) = and_then-some (candidate_of hash is_id name_of s id) _ r h in
      let (ok, same) = only_if-some _ _ r passed in
      subst (λ (x : Revision P). HasPassed x.digest id s.events) (some_injective c r same)
        (passes-HasPassed c.digest id s.events ok)

  activate-IsLogged :
      (stamp : Stamp) (id : String) (approved : Bool) (s t : Store P)
      → activate hash is_id name_of stamp id approved s ≡ some t
      → IsLogged approved s.events t.events
  unfolding activate
  activate-IsLogged stamp id approved s t h =
      let (given, rest) = only_if-some approved _ t h in
      let (r, passed, same) = and_then-some (validated_of hash is_id name_of s id) _ t rest in
      inr (
        stamped stamp id active (some r.digest),
        sym (ap (λ (x : Store P). x.events) (some_injective _ t same)),
        (λ _. (r.digest, refl, validated_passes s id r passed)),
        (λ _. given),
      )

  plain-IsLogged :
      (e : Event) (s t u : Store P)
      → is_active e.state ≡ false
      → u.events ≡ e ∷ s.events
      → some u ≡ some t
      → IsLogged false s.events t.events
  plain-IsLogged e s t u plain logged same = inr (
    e,
    sym (ap (λ (x : Store P). x.events) (some_injective u t same)) ∙ logged,
    (λ a. absurd (ground (arith, plain, a))),
    (λ a. absurd (ground (arith, plain, a))),
  )

  verdict_plain : (success : Bool) → is_active (verdict_state success) ≡ false
  verdict_plain true = refl
  verdict_plain false = refl

  step-IsLogged :
      (op : Operation P F) (s t : Store P)
      → step op s ≡ some t
      → IsLogged (is_approved op) s.events t.events
  unfolding step propose validate rollback record_outcome
  step-IsLogged (to_propose stamp id kind payload) s t h =
      let (clean, checked, rest) = and_then-some (check kind payload) _ t h in
      let (absent, same) = only_if-some _ _ t rest in
      plain-IsLogged (stamped stamp id candidate none) s t _ refl refl same
  step-IsLogged (to_validate stamp id verdict) s t h =
      let (r, found, rest) = and_then-some (candidate_of hash is_id name_of s id) _ t h in
      let (v, given, rest') = and_then-some verdict _ t rest in
      let (measured, same) = only_if-some _ _ t rest' in
      plain-IsLogged (stamped stamp id (verdict_state v.success) (some r.digest)) s t _
        (verdict_plain v.success) refl same
  step-IsLogged (to_activate stamp id approved) s t h = activate-IsLogged stamp id approved s t h
  step-IsLogged (to_rollback stamp id approved) s t h =
      activate-IsLogged stamp id approved s t (only_if-some _ _ t h).1
  step-IsLogged (to_record stamp id) s t h =
      let (r, found, same) = and_then-some (candidate_of hash is_id name_of s id) _ t h in
      plain-IsLogged (stamped stamp id observation none) s t _ refl refl same
  step-IsLogged (to_tamper id r) s t h =
      inl (sym (ap (λ (x : Store P). x.events) (some_injective _ t h)))

  logged_lem :
      (approved : Bool) (events after : List Event)
      → IsLogged approved events after
      → AreBacked events
      → AreBacked after × (activations after ≤ activations events + (if approved then 1 else 0))
  logged_lem approved events after (inl same) h =
      (subst AreBacked (sym same) h, ground (arith, ap activations same))
  logged_lem approved events after (inr (e, same, backed, allowed)) h =
      (subst AreBacked (sym same) (backed, h), ground (arith, ap activations same, allowed))

  abbrev IsKept : List Event → ℕ → Store P → Type 0
  IsKept events approved s =
      AreBacked s.events × (activations s.events ≤ activations events + approved)

  run_lem :
      (ops : List (Operation P F)) (s : Store P)
      → AreBacked s.events
      → IsKept s.events (approvals ops) (run ops s)
  unfolding run
  run_lem [] s h = (h, omega arith)
  run_lem (op ∷ ops) s h = elim (Option-cases (step op s)) [
    | inl raised ↦
        let (backed, bound) = run_lem ops s h in
        subst (λ o. IsKept s.events (approvals (op ∷ ops)) (run ops (or_same s o))) (sym raised)
          (backed, ground (arith, bound))
    | inr (t, stepped) ↦
        let (here, once) =
          logged_lem (is_approved op) s.events t.events (step-IsLogged op s t stepped) h in
        let (backed, bound) = run_lem ops t here in
        subst (λ o. IsKept s.events (approvals (op ∷ ops)) (run ops (or_same s o))) (sym stepped)
          (backed, omega (arith, bound, once))
  ]

  -- Over every sequence of operations on an empty store, of which those that raise change nothing,
  -- and whatever the clock says, each activation that is recorded carries a digest that its revision's
  -- newest evaluation has validated: of those recorded up to then, none has a later time, or the same
  -- time and a larger id. And there are no more activations than approved calls of activation and rollback. The
  -- sequence may overwrite the stored revisions in between.
  pub run-AreBacked :
      (ops : List (Operation P F))
      → let events = (run ops (record { revisions = []; events = [] })).events in
        AreBacked events × (activations events ≤ approvals ops)
  run-AreBacked ops =
      let (backed, bound) = run_lem ops (record { revisions = []; events = [] }) tt in
      (backed, omega (arith, bound))
