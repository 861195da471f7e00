-- ===== src/Scheduler/Turn/Answers.antt =====
-- What it takes for a chain of phases of src/local_coder/orchestrator/coordinator.py to answer.
use local_coding_agent.Base.{
  ◌≡◌, ◌≢◌, refl, sym, ap, subst, ◌∙◌, string_eq, nat_eq, pair_eq, Option, none, some, arith,
}
use local_coding_agent.Base.Dict.{lookup, lookup-insert_self}
use local_coding_agent.Scheduler.Dag.{AgentResponse}
use local_coding_agent.Scheduler.Turn.{
  Key, Saved, Checkpoint, Outcome, answered, refused, raised, Ran, Produce, Phase, continue, ◌>>=◌,
  raise_if_blocked, Kind, save_answer, keep_answer, with_saved, resumable,
}

module _ {W : Type 0} where
  bind_answered :
      {A B : Type 0} (m : Phase W A) (f : A → Phase W B) (c : Checkpoint) (w : W) (b : B)
      (o : Outcome A)
      → (m c w).outcome ≡ o
      → (continue (m c w) o f).outcome ≡ answered b
      → (a : A) × ((m c w).outcome ≡ answered a)
        × (continue (m c w) o f ≡ f a (m c w).checkpoint (m c w).world)
  bind_answered m f c w b (answered a) e h = (a, e, refl)
  bind_answered m f c w b (refused response) e h = absurd (ground arith)
  bind_answered m f c w b raised e h = absurd (ground arith)

  -- A chain that has answered, by its parts.
  pub bind-answered :
      {A B : Type 0} (m : Phase W A) (f : A → Phase W B) (c : Checkpoint) (w : W) (b : B)
      → ((m >>= f) c w).outcome ≡ answered b
      → (a : A) × ((m c w).outcome ≡ answered a)
        × ((m >>= f) c w ≡ f a (m c w).checkpoint (m c w).world)
  unfolding ◌>>=◌
  bind-answered m f c w b h = bind_answered m f c w b (m c w).outcome refl h

  pub blocked-answered :
      {A : Type 0} (response : AgentResponse) (m : Phase W A) (c : Checkpoint) (w : W) (b : A)
      → ((raise_if_blocked response >>= (λ _. m)) c w).outcome ≡ answered b
      → (raise_if_blocked response >>= (λ _. m)) c w ≡ m c w
  unfolding raise_if_blocked
  blocked-answered response m c w b h =
      (bind-answered (raise_if_blocked response) (λ _. m) c w b h).2

  save_answer-saved :
      {A : Type 0} (kind : Kind A) (key : Key) (c : Checkpoint) (w : W) (a b : A)
      (blocked : Option AgentResponse)
      → (save_answer kind key c w a blocked).outcome ≡ answered b
      → lookup key (save_answer kind key c w a blocked).checkpoint ≢ none
  save_answer-saved kind key c w a b none h =
      λ gone. ground (arith, gone, lookup-insert_self key (kind.dump a) c)
  save_answer-saved kind key c w a b (some response) h = absurd (ground arith)

  keep_answer-saved :
      {A : Type 0} (kind : Kind A) (key : Key) (c : Checkpoint) (b : A) (made : W × Outcome A)
      → (keep_answer kind key c made).outcome ≡ answered b
      → lookup key (keep_answer kind key c made).checkpoint ≢ none
  keep_answer-saved kind key c b (w, answered a) h =
      save_answer-saved kind key c w a b (kind.blocked a) h
  keep_answer-saved kind key c b (w, refused response) h = absurd (ground arith)
  keep_answer-saved kind key c b (w, raised) h = absurd (ground arith)

  with_saved-saved :
      {A : Type 0} (kind : Kind A) (key : Key) (produce : Produce W A) (saved : Option Saved)
      (c : Checkpoint) (w : W) (b : A)
      → lookup key c ≡ saved
      → (with_saved kind key produce saved c w).outcome ≡ answered b
      → lookup key (with_saved kind key produce saved c w).checkpoint ≢ none
  with_saved-saved kind key produce none c w b e h = keep_answer-saved kind key c b (produce w) h
  with_saved-saved kind key produce (some saved) c w b e h = λ gone. ground (arith, gone, e)

  pub resumable-saved :
      {A : Type 0} (kind : Kind A) (key : Key) (produce : Produce W A) (c : Checkpoint) (w : W)
      (b : A)
      → (resumable kind key produce c w).outcome ≡ answered b
      → lookup key (resumable kind key produce c w).checkpoint ≢ none
  unfolding resumable
  resumable-saved kind key produce c w b h =
      with_saved-saved kind key produce (lookup key c) c w b refl h

  pub bind-elim :
      {A B : Type 0} (m : Phase W A) (f : A → Phase W B) (c : Checkpoint) (w : W) (b : B)
      (P : Ran W B → Type 0)
      → ((a : A) (d : Checkpoint) (v : W) → (f a d v).outcome ≡ answered b → P (f a d v))
      → ((m >>= f) c w).outcome ≡ answered b
      → P ((m >>= f) c w)
  bind-elim m f c w b P each h =
      let (a, ran, same) = bind-answered m f c w b h in
      subst P (sym same)
        (each a (m c w).checkpoint (m c w).world (sym (ap (λ r. r.outcome) same) ∙ h))

  pub blocked-elim :
      {B : Type 0} (response : AgentResponse) (m : Phase W B) (c : Checkpoint) (w : W) (b : B)
      (P : Ran W B → Type 0)
      → ((m c w).outcome ≡ answered b → P (m c w))
      → ((raise_if_blocked response >>= (λ _. m)) c w).outcome ≡ answered b
      → P ((raise_if_blocked response >>= (λ _. m)) c w)
  blocked-elim response m c w b P then_ h =
      let same = blocked-answered response m c w b h in
      subst P (sym same) (then_ (sym (ap (λ r. r.outcome) same) ∙ h))
