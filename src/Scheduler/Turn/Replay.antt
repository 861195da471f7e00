-- ===== src/Scheduler/Turn/Replay.antt =====
-- Phases of src/local_coder/orchestrator/coordinator.py that answer the same when they are repeated
-- from a later checkpoint, and the keys that they leave alone.
use local_coding_agent.Base.{
  ◌≡◌, inl, inr, refl, ap, ◌∙◌, string_eq, nat_eq, pair_eq, false, Option, none, some, ◌==◌, arith,
  Bool-cases, eq→≡,
}
use local_coding_agent.Base.Dict.{lookup, insert, lookup-insert, lookup-insert_self}
use local_coding_agent.Scheduler.Dag.{AgentResponse}
use local_coding_agent.Scheduler.Turn.{
  Key, Saved, Checkpoint, Outcome, answered, refused, raised, Ran, Produce, Phase, return, continue,
  ◌>>=◌, raise_if_blocked, Kind, text_kind, plan_kind, response_kind, unless_blocked, reuse,
  save_answer, keep_answer, with_saved, resumable,
}

-- What stands in a checkpoint stands in a later one.
abbrev pub IsWithin : Checkpoint → Checkpoint → Type 0
IsWithin c d = (key : Key) (saved : Saved) → lookup key c ≡ some saved → lookup key d ≡ some saved

pub answered_injective : {A : Type 0} (a b : A) → answered a ≡ answered b → a ≡ b
answered_injective a b h = ground arith

module _ {W : Type 0} where
  -- A phase that has answered: its checkpoint has only grown, and from any later checkpoint it
  -- answers the same, without a change of the world.
  pub record IsReplayed {A : Type 0} (m : Phase W A) (c : Checkpoint) (r : Ran W A) (a : A)
      : Type 0 where
    pub grown : IsWithin c r.checkpoint
    pub again :
        (d : Checkpoint) (w : W)
        → IsWithin r.checkpoint d
        → m d w ≡ record { checkpoint = d; world = w; outcome = answered a }

  abbrev pub Replays : {A : Type 0} → Phase W A → Type 0
  Replays {A} m =
      (c : Checkpoint) (w : W) (a : A) → (m c w).outcome ≡ answered a → IsReplayed m c (m c w) a

  pub return-Replays : {A : Type 0} (a : A) → Replays (return a)
  return-Replays a c w b h = record {
    grown = λ key saved e. e;
    again = λ d v within.
        ap (λ x. record { checkpoint = d; world = v; outcome = answered x })
          (answered_injective a b h);
  }

  continue-IsReplayed :
      {A B : Type 0} (m : Phase W A) (f : A → Phase W B) (c : Checkpoint) (w : W) (b : B)
      (o : Outcome A)
      → Replays m
      → ((a : A) → Replays (f a))
      → (m c w).outcome ≡ o
      → (continue (m c w) o f).outcome ≡ answered b
      → IsReplayed (m >>= f) c (continue (m c w) o f) b
  unfolding ◌>>=◌
  continue-IsReplayed m f c w b (answered a) p q e h =
      let first = p c w a e in
      let second = q a (m c w).checkpoint (m c w).world b h in
      record {
        grown = λ key saved s. second.grown key saved (first.grown key saved s);
        again = λ d v within.
            ap (λ r. continue r r.outcome f)
              (first.again d v (λ key saved s. within key saved (second.grown key saved s)))
            ∙ second.again d v within;
      }
  continue-IsReplayed m f c w b (refused response) p q e h = absurd (ground arith)
  continue-IsReplayed m f c w b raised p q e h = absurd (ground arith)

  pub bind-Replays :
      {A B : Type 0} (m : Phase W A) (f : A → Phase W B)
      → Replays m
      → ((a : A) → Replays (f a))
      → Replays (m >>= f)
  unfolding ◌>>=◌
  bind-Replays m f p q c w b h = continue-IsReplayed m f c w b (m c w).outcome p q refl h

  pub raise_if_blocked-Replays : (response : AgentResponse) → Replays (raise_if_blocked response)
  unfolding raise_if_blocked
  raise_if_blocked-Replays response c w tt h = record {
    grown = λ key saved e. e;
    again = λ d v within. ap (λ o. record { checkpoint = d; world = v; outcome = o }) h;
  }

-- A kind whose values are read back as they were saved.
abbrev pub IsRead : {A : Type 0} → Kind A → Type 0
IsRead {A} kind = (a : A) → kind.read (kind.dump a) ≡ some a

module _ {W A : Type 0} (kind : Kind A) (key : Key) (produce : Produce W A)
    (is_read : IsRead kind) where
  IsWithin-insert :
      (c : Checkpoint) (saved : Saved) → lookup key c ≡ none → IsWithin c (insert key saved c)
  IsWithin-insert c saved missing other found e = elim (Bool-cases (key == other)) [
    | inl same ↦ absurd (ground (arith, missing, e, ap (λ k. lookup k c) (eq→≡ key other same)))
    | inr apart ↦ lookup-insert key other saved c ∙ rw (apart) e
  ]

  save_answer-IsReplayed :
      (c : Checkpoint) (w : W) (a b : A) (blocked : Option AgentResponse)
      → kind.blocked a ≡ blocked
      → lookup key c ≡ none
      → (save_answer kind key c w a blocked).outcome ≡ answered b
      → IsReplayed (resumable kind key produce) c (save_answer kind key c w a blocked) b
  unfolding resumable
  save_answer-IsReplayed c w a b none free missing h = record {
    grown = IsWithin-insert c (kind.dump a) missing;
    again = λ d v within.
        ap (λ o. with_saved kind key produce o d v)
          (within key (kind.dump a) (lookup-insert_self key (kind.dump a) c))
        ∙ ap (λ o. record { checkpoint = d; world = v; outcome = reuse kind o }) (is_read a)
        ∙ ap (λ o. record { checkpoint = d; world = v; outcome = unless_blocked o a }) free
        ∙ ap (λ x. record { checkpoint = d; world = v; outcome = answered x })
            (answered_injective a b h);
  }
  save_answer-IsReplayed c w a b (some response) free missing h = absurd (ground arith)

  keep_answer-IsReplayed :
      (c : Checkpoint) (b : A) (made : W × Outcome A)
      → lookup key c ≡ none
      → (keep_answer kind key c made).outcome ≡ answered b
      → IsReplayed (resumable kind key produce) c (keep_answer kind key c made) b
  keep_answer-IsReplayed c b (w, answered a) missing h =
      save_answer-IsReplayed c w a b (kind.blocked a) refl missing h
  keep_answer-IsReplayed c b (w, refused response) missing h = absurd (ground arith)
  keep_answer-IsReplayed c b (w, raised) missing h = absurd (ground arith)

  with_saved-IsReplayed :
      (c : Checkpoint) (w : W) (b : A) (saved : Option Saved)
      → lookup key c ≡ saved
      → (with_saved kind key produce saved c w).outcome ≡ answered b
      → IsReplayed (resumable kind key produce) c (with_saved kind key produce saved c w) b
  unfolding resumable
  with_saved-IsReplayed c w b none missing h = keep_answer-IsReplayed c b (produce w) missing h
  with_saved-IsReplayed c w b (some saved) found h = record {
    grown = λ other s e. e;
    again = λ d v within.
        ap (λ o. with_saved kind key produce o d v) (within key saved found)
        ∙ ap (λ o. record { checkpoint = d; world = v; outcome = o }) h;
  }

  pub resumable-Replays : Replays (resumable kind key produce)
  unfolding resumable
  resumable-Replays c w b h = with_saved-IsReplayed c w b (lookup key c) refl h

-- A phase that does not touch a key.
abbrev pub Leaves : {W A : Type 0} → Key → Phase W A → Type 0
Leaves {W} {A} key m = (c : Checkpoint) (w : W) → lookup key (m c w).checkpoint ≡ lookup key c

module _ {W : Type 0} (other : Key) where
  continue-Leaves :
      {A B : Type 0} (m : Phase W A) (f : A → Phase W B) (c : Checkpoint) (w : W) (o : Outcome A)
      → Leaves other m
      → ((a : A) → Leaves other (f a))
      → lookup other (continue (m c w) o f).checkpoint ≡ lookup other c
  continue-Leaves m f c w (answered a) p q = q a (m c w).checkpoint (m c w).world ∙ p c w
  continue-Leaves m f c w (refused response) p q = p c w
  continue-Leaves m f c w raised p q = p c w

  pub bind-Leaves :
      {A B : Type 0} (m : Phase W A) (f : A → Phase W B)
      → Leaves other m
      → ((a : A) → Leaves other (f a))
      → Leaves other (m >>= f)
  unfolding ◌>>=◌
  bind-Leaves m f p q c w = continue-Leaves m f c w (m c w).outcome p q

  save_answer-Leaves :
      {A : Type 0} (kind : Kind A) (key : Key) (c : Checkpoint) (w : W) (a : A)
      (blocked : Option AgentResponse)
      → (key == other) ≡ false
      → lookup other (save_answer kind key c w a blocked).checkpoint ≡ lookup other c
  save_answer-Leaves kind key c w a none apart =
      lookup-insert key other (kind.dump a) c ∙ rw (apart) refl
  save_answer-Leaves kind key c w a (some response) apart = refl

  keep_answer-Leaves :
      {A : Type 0} (kind : Kind A) (key : Key) (c : Checkpoint) (made : W × Outcome A)
      → (key == other) ≡ false
      → lookup other (keep_answer kind key c made).checkpoint ≡ lookup other c
  keep_answer-Leaves kind key c (w, answered a) apart =
      save_answer-Leaves kind key c w a (kind.blocked a) apart
  keep_answer-Leaves kind key c (w, refused response) apart = refl
  keep_answer-Leaves kind key c (w, raised) apart = refl

  with_saved-Leaves :
      {A : Type 0} (kind : Kind A) (key : Key) (produce : Produce W A) (saved : Option Saved)
      (c : Checkpoint) (w : W)
      → (key == other) ≡ false
      → lookup other (with_saved kind key produce saved c w).checkpoint ≡ lookup other c
  with_saved-Leaves kind key produce none c w apart =
      keep_answer-Leaves kind key c (produce w) apart
  with_saved-Leaves kind key produce (some saved) c w apart = refl

  pub resumable-Leaves :
      {A : Type 0} (kind : Kind A) (key : Key) (produce : Produce W A)
      → (key == other) ≡ false
      → Leaves other (resumable kind key produce)
  unfolding resumable
  resumable-Leaves kind key produce apart c w =
      with_saved-Leaves kind key produce (lookup key c) c w apart

  pub raise_if_blocked-Leaves :
      (response : AgentResponse) → Leaves {W = W} other (raise_if_blocked response)
  unfolding raise_if_blocked
  raise_if_blocked-Leaves response c w = refl

pub text_IsRead : IsRead text_kind
text_IsRead t = refl

pub plan_IsRead : IsRead plan_kind
plan_IsRead p = refl

pub response_IsRead : IsRead response_kind
response_IsRead r = refl
