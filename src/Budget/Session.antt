-- ===== src/Budget/Session.antt =====
-- A ledger over its life: any sequence of reservations, settlements and releases.
use mathlib.Core.List.Memᴰ
use local_coding_agent.Base.{
  ℕ, if◌then◌else◌, ◌+◌, ◌≤◌, String, ◌≡◌, refl, sym, subst, ap, ⊎_elim, Bool, true, false, Option,
  none, some, List, [], ◌∷◌, ◌++◌, Memᴰ, arith, length, length-append, sum-append, string_eq,
  Bool-cases, Option-cases, ◌==◌, inl, inr, ◌⊎◌, ◌∙◌,
}
use local_coding_agent.Budget.{
  Floats, Entry, is_reserved, Response, valid_usage, token_count, Ledger, Request, admitted,
  reserve, settle_entry, settle_in, settle, release_in, release_unattempted,
}
use local_coding_agent.Budget.Entries.{entry_tokens, reserve-Admission, settle_in_split}

module _ (floats : Floats) where
  -- The entry that `release_unattempted` takes out, and the list around it.
  pub release_in_split :
      (identity : String) (es es' : List (Entry floats))
      → release_in floats identity es ≡ some es'
      → (before after : List (Entry floats)) × (e : Entry floats) × (es ≡ before ++ e ∷ after)
        × (es' ≡ before ++ after)
        × (e.id ≡ identity)
        × (is_reserved e.status ≡ true)
  unfolding release_in
  release_in_split identity [] es' h = absurd (ground arith)
  release_in_split identity (x ∷ es) es' h = elim (Bool-cases (x.id == identity)) [
    | inl here ↦ elim (Bool-cases (is_reserved x.status)) [
      | inl r ↦ ([], es, x, refl, ground arith, (string_eq.beq_iff x.id identity).0 here, r)
      | inr r ↦ absurd (ground arith)
    ]
    | inr there ↦ elim (Option-cases (release_in floats identity es)) [
      | inl gone ↦ absurd (ground arith)
      | inr (rest, found) ↦
          let (before, after, e, p, q, same, r) = release_in_split identity es rest found in
          (x ∷ before, after, e, ap (◌∷◌ x) p, ground arith, same, r)
    ]
  ]

  -- The tokens that a response reports, where its report is valid
  abbrev pub reported_tokens : Response → ℕ
  reported_tokens r =
      if valid_usage r.prompt_tokens r.completion_tokens r.usage_reported
      then token_count r.prompt_tokens + token_count r.completion_tokens
      else 0

  -- An observed response counts no more tokens than its request reserved.
  abbrev pub Conservative : Option Response → Entry floats → Type 0
  Conservative none e = Unit
  Conservative (some r) e = reported_tokens r ≤ e.tokens_reserved

  -- One operation that goes through. A refused one changes nothing.
  pub data Step (l : Ledger floats) : Ledger floats → Type 0 where
    reserving :
        (r : Request floats) {l' : Ledger floats} → reserve floats r l ≡ admitted l' → Step l l'
    settling :
        (identity : String) (response : Option Response) (error : Bool) {l' : Ledger floats}
        → settle floats identity response error l ≡ some l'
        → ((e : Entry floats) → Memᴰ e l.entries → e.id ≡ identity → Conservative response e)
        → Step l l'
    releasing : (identity : String) → Step l (release_unattempted floats identity l).1

  pub data Run (l : Ledger floats) : Ledger floats → Type 0 where
    here : Run l l
    next : {m n : Ledger floats} → Run l m → Step m n → Run l n

  pub record IsWithin (l : Ledger floats) : Type 0 where
    pub requests : length l.entries ≤ l.limits.max_requests
    pub total : entry_tokens floats l.entries ≤ l.limits.max_tokens
    pub reservations :
        (e : Entry floats)
        → Memᴰ e l.entries
        → is_reserved e.status ≡ true
        → e.tokens ≡ e.tokens_reserved

  pub IsWithin-reserve :
      (r : Request floats) (l l' : Ledger floats)
      → reserve floats r l ≡ admitted l'
      → IsWithin l
      → IsWithin l'
  IsWithin-reserve r l l' h w =
      let a = reserve-Admission floats r l l' h in
      record {
        requests = a.requests;
        total = a.total;
        reservations = λ e m s.
            ⊎_elim (λ old. w.reservations e old s)
              (λ new.
                subst (λ (x : Entry floats). x.tokens ≡ x.tokens_reserved)
                  (sym (Memᴰ.eq_of_singleton new)) refl)
              (Memᴰ.append_cases l.entries
                (subst (λ (x : Ledger floats). Memᴰ e x.entries) a.appended m));
      }

  settle_entry-le :
      (response : Option Response) (error : Bool) (e : Entry floats)
      → (is_reserved e.status ≡ true → e.tokens ≡ e.tokens_reserved)
      → Conservative response e
      → ((settle_entry floats response error e).tokens ≤ e.tokens)
        × (is_reserved (settle_entry floats response error e).status ≡ false)
  unfolding settle_entry
  settle_entry-le none error e h c = ground arith
  settle_entry-le (some r) error e h c = ground arith

  middle : (before after : List (Entry floats)) (e : Entry floats) → Memᴰ e (before ++ e ∷ after)
  middle before after e = Memᴰ.append_right before (Memᴰ.head refl)

  around :
      (before after : List (Entry floats)) (e x d : Entry floats)
      → Memᴰ d (before ++ x ∷ after)
      → (d ≡ x) ⊎ Memᴰ d (before ++ e ∷ after)
  around before after e x d m =
      ⊎_elim (λ b. inr (Memᴰ.append_left (e ∷ after) b))
        (λ a. ⊎_elim inl (λ t. inr (Memᴰ.append_right before (Memᴰ.tail t))) (Memᴰ.cases_cons a))
        (Memᴰ.append_cases before m)

  without :
      (before after : List (Entry floats)) (e d : Entry floats)
      → Memᴰ d (before ++ after)
      → Memᴰ d (before ++ e ∷ after)
  without before after e d m =
      ⊎_elim (Memᴰ.append_left (e ∷ after)) (λ a. Memᴰ.append_right before (Memᴰ.tail a))
        (Memᴰ.append_cases before m)

  IsWithin-settle :
      (identity : String) (response : Option Response) (error : Bool) (l l' : Ledger floats)
      → settle floats identity response error l ≡ some l'
      → ((e : Entry floats) → Memᴰ e l.entries → e.id ≡ identity → Conservative response e)
      → IsWithin l
      → IsWithin l'
  unfolding settle
  IsWithin-settle identity response error l l' h c w =
      let f = settle_entry floats response error in
      elim (Option-cases (settle_in floats identity f l.entries)) [
        | inl gone ↦ absurd (ground arith)
        | inr (es, found) ↦
            let (before, after, e, p, q, same) =
              settle_in_split floats identity f l.entries es found in
            let there = subst (Memᴰ e) (sym p) (middle before after e) in
            let (less, closed) =
              settle_entry-le response error e (w.reservations e there) (c e there same) in
            let size = λ (x : Entry floats). length-append before (x ∷ after) in
            let total = λ (x : Entry floats).
              sum-append (λ (y : Entry floats). y.tokens) before (x ∷ after) in
            let result : l' ≡ record l { entries = es } = ground arith in
            let new : IsWithin (record l { entries = before ++ f e ∷ after }) = record {
              requests = omega (arith, w.requests, size e, size (f e), ap length p);
              total =
                  omega (arith, w.total, total e, total (f e), ap (entry_tokens floats) p, less);
              reservations = λ d m s.
                  ⊎_elim (λ eq. absurd (still_open (f e) d eq closed s))
                    (λ old. w.reservations d (subst (Memᴰ d) (sym p) old) s)
                    (around before after e (f e) d m);
            } in
            subst IsWithin
              (sym (result ∙ ap (λ (x : List (Entry floats)). record l { entries = x }) q)) new
      ]
    where
      still_open :
          (x d : Entry floats)
          → d ≡ x
          → is_reserved x.status ≡ false
          → is_reserved d.status ≡ true
          → ⊥
      still_open x d e closed s = ground arith

  IsWithin-release :
      (identity : String) (l : Ledger floats)
      → IsWithin l
      → IsWithin (release_unattempted floats identity l).1
  unfolding release_unattempted
  IsWithin-release identity l w = elim (Option-cases (release_in floats identity l.entries)) [
    | inl gone ↦ rw (gone, release_unattempted) w
    | inr (es, found) ↦
        let (before, after, e, p, q, same, r) = release_in_split identity l.entries es found in
        let size = length-append before (e ∷ after) in
        let size' = length-append before after in
        let total = sum-append (λ (y : Entry floats). y.tokens) before (e ∷ after) in
        let total' = sum-append (λ (y : Entry floats). y.tokens) before after in
        let new : IsWithin (record l { entries = before ++ after }) = record {
          requests = omega (arith, w.requests, size, size', ap length p);
          total = omega (arith, w.total, total, total', ap (entry_tokens floats) p);
          reservations =
              λ d m s. w.reservations d (subst (Memᴰ d) (sym p) (without before after e d m)) s;
        } in
        rw (found, release_unattempted)
          (subst IsWithin (ap (λ (x : List (Entry floats)). record l { entries = x }) (sym q)) new)
  ]

  -- However reservations, settlements and releases follow one another, the ledger never holds more
  -- requests or tokens than its limits, as long as no provider reports more tokens than the request
  -- had reserved.
  pub Run-IsWithin : {l m : Ledger floats} → IsWithin l → Run l m → IsWithin m
  Run-IsWithin w here = w
  Run-IsWithin {l} w (next {m} {n} run (reserving r h)) =
      IsWithin-reserve r m n h (Run-IsWithin w run)
  Run-IsWithin {l} w (next {m} {n} run (settling identity response error h c)) =
      IsWithin-settle identity response error m n h c (Run-IsWithin w run)
  Run-IsWithin {l} w (next {m} run (releasing identity)) =
      IsWithin-release identity m (Run-IsWithin w run)
