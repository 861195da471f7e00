-- ===== src/Mailbox/Reading.antt =====
-- What a read takes out of an inbox: `drain` and the take of `receive`.
use local_coding_agent.Base.{
  ℕ, ◌≤◌, ◌<◌, String, ◌≡◌, ◌≢◌, refl, List, [], ◌∷◌, ◌++◌, ◌∙◌, some, length, ltb, ltb→lt, ltb→le,
  arith, Bool-cases, inl, inr, ◌⊎◌, subst, string_eq, append_assoc, length-append, eq_self,
}
use local_coding_agent.Base.Dict.{lookup, modify, lookup-modify}
use local_coding_agent.Mailbox.{
  TeamMessage, Texts, PlanMailbox, ok, stop_or_fail, drain, drain_loop, inbox, guarded, in_range,
  bad_limit, bad_budget,
}
use local_coding_agent.Mailbox.Posting.{bind_ok, guarded_ok, ok_injective, inbox_ok}

module _ (texts : Texts) where
  -- Why a read stopped: nothing is left, the limit is reached, or the next message does not fit.
  abbrev pub Stopped : ℕ → ℕ → List TeamMessage → List TeamMessage → Type 0
  Stopped limit budget taken [] = Unit
  Stopped limit budget taken (m ∷ rest) =
      (limit ≤ length taken) ⊎ ((taken ≢ []) × (budget < texts.batch_chars (taken ++ m ∷ [])))

  abbrev pub Split : ℕ → ℕ → List TeamMessage → List TeamMessage → List TeamMessage → Type 0
  Split limit budget pending taken rest =
      (pending ≡ taken ++ rest) × (length taken ≤ limit) × Stopped limit budget taken rest

  stopped :
      (limit budget : ℕ) (result : List TeamMessage) (m : TeamMessage)
      (pending taken rest : List TeamMessage)
      → length result < limit
      → budget < texts.batch_chars (result ++ m ∷ [])
      → stop_or_fail result (m ∷ pending) ≡ ok (taken, rest)
      → Split limit budget (result ++ m ∷ pending) taken rest
  stopped limit budget [] m pending taken rest p q h = absurd (ground arith)
  stopped limit budget (r ∷ result) m pending taken rest p q h =
      let e = ok_injective (r ∷ result, m ∷ pending) (taken, rest) h in
      subst
        (λ (s : List TeamMessage × List TeamMessage).
          Split limit budget (r ∷ result ++ m ∷ pending) s.0 s.1)
        e (refl, omega (arith, p), inr (λ nil. ground arith, q))

  drain_loop_lem :
      (limit budget : ℕ) (pending result taken rest : List TeamMessage)
      → length result ≤ limit
      → drain_loop texts limit budget result pending ≡ ok (taken, rest)
      → Split limit budget (result ++ pending) taken rest
  unfolding drain_loop
  drain_loop_lem limit budget [] result taken rest p h =
      subst (λ (s : List TeamMessage × List TeamMessage). Split limit budget (result ++ []) s.0 s.1)
        (ok_injective (result, []) (taken, rest) h) (refl, p, tt)
  drain_loop_lem limit budget (m ∷ pending) result taken rest p h =
      elim (Bool-cases (ltb (length result) limit)) [
        | inr full ↦
            subst
              (λ (s : List TeamMessage × List TeamMessage).
                Split limit budget (result ++ m ∷ pending) s.0 s.1)
              (ok_injective (result, m ∷ pending) (taken, rest) (rw (full) at h))
              (refl, p, inl (ltb→le _ _ full))
        | inl room ↦ elim (Bool-cases (ltb budget (texts.batch_chars (result ++ m ∷ [])))) [
          | inl over ↦
              stopped limit budget result m pending taken rest (ltb→lt _ _ room) (ltb→lt _ _ over)
                (rw (room, over) at h)
          | inr fits ↦
              subst (λ (all : List TeamMessage). Split limit budget all taken rest)
                (append_assoc result (m ∷ []) pending)
                (drain_loop_lem limit budget pending (result ++ m ∷ []) taken rest
                  (omega (arith, ltb→lt (length result) limit room, length-append result (m ∷ [])))
                  (rw (room, fits) at h))
        ]
      ]

  -- A read of an open inbox takes its oldest messages, in order and at most `limit`, and leaves the
  -- rest pending; it stops only when nothing is left, at the limit, or at a message that would not
  -- fit the budget beside those taken.
  pub drain_lem :
      (box : PlanMailbox) (recipient : String) (limit budget : ℕ) (box' : PlanMailbox)
      (taken : List TeamMessage)
      → drain texts box recipient limit budget ≡ ok (box', taken)
      → (pending : List TeamMessage) × (rest : List TeamMessage) × (lookup recipient box.inboxes
          ≡ some pending)
        × (box' ≡ record box { inboxes = modify recipient (λ _. rest) box.inboxes })
        × (lookup recipient box'.inboxes ≡ some rest)
        × Split limit budget pending taken rest
  unfolding drain
  drain_lem box recipient limit budget box' taken h =
      let (pending, mine, h1) = bind_ok (inbox box recipient) _ (box', taken) h in
      let ((result, rest), read, h2) =
        bind_ok
          (guarded
            ((in_range 1 16 limit, bad_limit) ∷ (in_range 256 32_000 budget, bad_budget) ∷ [])
            (drain_loop texts limit budget [] pending))
          _ (box', taken) h1 in
      let (_, looped) =
        guarded_ok
          ((in_range 1 16 limit, bad_limit) ∷ (in_range 256 32_000 budget, bad_budget) ∷ [])
          (drain_loop texts limit budget [] pending) (result, rest) read in
      let at = (inbox_ok box recipient pending mine).1 in
      let e =
        ok_injective (record box { inboxes = modify recipient (λ _. rest) box.inboxes }, result)
          (box', taken) h2 in
      subst
        (λ (r : PlanMailbox × List TeamMessage).
          (pending : List TeamMessage) × (rest : List TeamMessage) × (lookup recipient box.inboxes
            ≡ some pending)
          × (r.0 ≡ record box { inboxes = modify recipient (λ _. rest) box.inboxes })
          × (lookup recipient r.0.inboxes ≡ some rest)
          × Split limit budget pending r.1 rest)
        e
        (
          pending,
          rest,
          at,
          refl,
          lookup-modify recipient recipient (λ _. rest) box.inboxes pending at
              ∙ rw (eq_self recipient) refl,
          drain_loop_lem limit budget pending [] result rest (omega arith) looped,
        )
