-- ===== src/Budget/Entries.antt =====
-- What each operation of the ledger does to the list of entries.
use local_coding_agent.Base.{
  ℕ, ◌+◌, ◌≤◌, String, ◌≡◌, refl, ap, inl, inr, Bool, false, Option, none, some, List, [], ◌∷◌,
  ◌++◌, arith, length, length-append, sum, sum-append, string_eq, Bool-cases, Option-cases, ◌==◌,
}
use local_coding_agent.Budget.{
  Floats, Entry, is_reserved, Response, Ledger, Request, admitted, output_of, new_entry, reserve,
  settle_entry, settle_in, settle,
}

module _ (floats : Floats) where
  abbrev pub entry_tokens : List (Entry floats) → ℕ
  entry_tokens = sum (λ (e : Entry floats). e.tokens)

  -- An admitted request appends its entry, and the three counted limits hold afterwards.
  pub record Admission (r : Request floats) (l l' : Ledger floats) : Type 0 where
    pub appended : l' ≡ record l { entries = l.entries ++ new_entry floats r ∷ [] }
    pub requests : length l'.entries ≤ l'.limits.max_requests
    pub total : entry_tokens l'.entries ≤ l'.limits.max_tokens
    pub single : r.prompt_reserved + output_of floats r ≤ l'.limits.max_request_tokens

  -- A request that is admitted appends its entry at the end and changes nothing else, and afterwards
  -- the ledger is within its limits on requests and on tokens, and the request within its own.
  pub reserve-Admission :
      (r : Request floats) (l l' : Ledger floats)
      → reserve floats r l ≡ admitted l'
      → Admission r l l'
  unfolding reserve
  reserve-Admission r l l' h =
      let appended_length = length-append l.entries (new_entry floats r ∷ []) in
      let appended_sum =
        sum-append (λ (e : Entry floats). e.tokens) l.entries (new_entry floats r ∷ []) in
      record {
        appended = ground arith;
        requests = ground (arith, appended_length);
        total = ground (arith, appended_sum);
        single = ground arith;
      }

  -- The entry that `settle` finds, and the list around it.
  pub settle_in_split :
      (identity : String) (f : Entry floats → Entry floats) (es es' : List (Entry floats))
      → settle_in floats identity f es ≡ some es'
      → (before after : List (Entry floats)) × (e : Entry floats) × (es ≡ before ++ e ∷ after)
        × (es' ≡ before ++ f e ∷ after)
        × (e.id ≡ identity)
  unfolding settle_in
  settle_in_split identity f [] es' h = absurd (ground arith)
  settle_in_split identity f (x ∷ es) es' h = elim (Bool-cases (x.id == identity)) [
    | inl here ↦ ([], es, x, refl, ground arith, (string_eq.beq_iff x.id identity).0 here)
    | inr there ↦ elim (Option-cases (settle_in floats identity f es)) [
      | inl gone ↦ absurd (ground arith)
      | inr (rest, found) ↦
          let (before, after, e, p, q, same) = settle_in_split identity f es rest found in
          (x ∷ before, after, e, ap (◌∷◌ x) p, ground arith, same)
    ]
  ]

  settle_in_fixed :
      (identity : String) (f g : Entry floats → Entry floats) (es es' : List (Entry floats))
      → ((e : Entry floats) → (f e).id ≡ e.id)
      → ((e : Entry floats) → g (f e) ≡ f e)
      → settle_in floats identity f es ≡ some es'
      → settle_in floats identity g es' ≡ some es'
  unfolding settle_in
  settle_in_fixed identity f g [] es' same fixed h = absurd (ground arith)
  settle_in_fixed identity f g (x ∷ es) es' same fixed h = elim (Bool-cases (x.id == identity)) [
    | inl here ↦ ground (arith, same x, fixed x)
    | inr there ↦ elim (Option-cases (settle_in floats identity f es)) [
      | inl gone ↦ absurd (ground arith)
      | inr (rest, found) ↦ ground (arith, settle_in_fixed identity f g es rest same fixed found)
    ]
  ]

  settle_entry-id :
      (response : Option Response) (error : Bool) (e : Entry floats)
      → (settle_entry floats response error e).id ≡ e.id
  unfolding settle_entry
  settle_entry-id none error e = ground arith
  settle_entry-id (some r) error e = ground arith

  pub settle_entry-closed :
      (response : Option Response) (error : Bool) (e : Entry floats)
      → is_reserved (settle_entry floats response error e).status ≡ false
  unfolding settle_entry
  settle_entry-closed none error e = ground arith
  settle_entry-closed (some r) error e = ground arith

  settle_entry_once :
      (response later : Option Response) (error error' : Bool) (e : Entry floats)
      → settle_entry floats later error' (settle_entry floats response error e)
        ≡ settle_entry floats response error e
  settle_entry_once response later error error' e =
      closed (settle_entry floats response error e) (settle_entry-closed response error e)
    where
      closed :
          (x : Entry floats) → is_reserved x.status ≡ false → settle_entry floats later error' x ≡ x
      closed x h = unfold settle_entry in rw (h)

  -- A request is settled once: what a second settlement says changes nothing.
  pub settle_once :
      (identity : String) (response later : Option Response) (error error' : Bool)
      (l l' : Ledger floats)
      → settle floats identity response error l ≡ some l'
      → settle floats identity later error' l' ≡ some l'
  unfolding settle
  settle_once identity response later error error' l l' h =
      elim (Option-cases
        (settle_in floats identity (settle_entry floats response error) l.entries)) [
          | inl gone ↦ absurd (ground arith)
          | inr (es, found) ↦
              let fixed =
                settle_in_fixed identity (settle_entry floats response error)
                  (settle_entry floats later error') l.entries es (settle_entry-id response error)
                  (settle_entry_once response later error error') found in
              ground (arith, fixed)
        ]
