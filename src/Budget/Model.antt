-- ===== src/Budget/Model.antt =====
-- `BudgetedModel`: admission by the ledger and the quota guard, the call, and its settlement. What
-- the quota guard and the backend answer are arguments.
use local_coding_agent.Base.{
  String, ◌≡◌, refl, sym, subst, Bool, true, false, Option, none, some, List, [], ◌∷◌, ◌++◌, arith,
  string_eq, eq_self, Bool-cases, ◌==◌, if◌then◌else◌, inl, inr,
}
use local_coding_agent.Budget.{
  Floats, Entry, is_reserved, Response, Ledger, Request, BudgetError, Reservation, admitted,
  exceeded, new_entry, reserve, settle_entry, settle_in, settle, release_in, release_unattempted,
}
use local_coding_agent.Budget.Entries.{reserve-Admission, settle_entry-closed}

module _ (floats : Floats) where
  pub data Admitting : Type 0 where
    started : Ledger floats → Admitting
    over_budget : BudgetError → Ledger floats → Admitting
    over_quota : Ledger floats → Admitting

  abbrev with_quota : Request floats → Bool → Reservation floats → Ledger floats → Admitting
  with_quota r quota_admits (exceeded e) l = over_budget e l
  with_quota r quota_admits (admitted l') l =
      if quota_admits then started l' else over_quota (release_unattempted floats r.fresh_id l').1

  -- `_admit`
  unfoldable pub admit : Request floats → Bool → Ledger floats → Admitting
  admit r quota_admits l = with_quota r quota_admits (reserve floats r l) l

  pub data Generated : Type 0 where
    answered : Response → Generated
    backend_failed : Generated
    refused : BudgetError → Generated
    quota_exhausted : Generated

  abbrev or_same : Option (Ledger floats) → Ledger floats → Ledger floats
  or_same none l = l
  or_same (some l') l = l'

  abbrev call : Request floats → Option Response → Admitting → Generated × Ledger floats
  call r answer (over_budget e l) = (refused e, l)
  call r answer (over_quota l) = (quota_exhausted, l)
  call r none (started l) = (backend_failed, or_same (settle floats r.fresh_id none true l) l)
  call r (some response) (started l) =
      (answered response, or_same (settle floats r.fresh_id (some response) false l) l)

  -- `generate`; an `answer` of `none` is an exception of the backend.
  unfoldable pub generate :
      Request floats → Bool → Option Response → Ledger floats → Generated × Ledger floats
  generate r quota_admits answer l = call r answer (admit r quota_admits l)

  -- The identity of the request is new to the ledger, as `uuid4` makes it.
  abbrev pub Fresh : String → List (Entry floats) → Type 0
  Fresh identity [] = Unit
  Fresh identity (e ∷ es) = (e.id == identity) ≡ false × Fresh identity es

  release_in-snoc :
      (r : Request floats) (es : List (Entry floats))
      → Fresh r.fresh_id es
      → release_in floats r.fresh_id (es ++ new_entry floats r ∷ []) ≡ some es
  unfolding release_in
  release_in-snoc r [] h = rw (eq_self r.fresh_id)
  release_in-snoc r (e ∷ es) h = ground (arith, release_in-snoc r es h.1, h.0)

  -- A release takes a reservation back: the ledger is what it was before.
  pub release-reserve :
      (r : Request floats) (l l' : Ledger floats)
      → Fresh r.fresh_id l.entries
      → reserve floats r l ≡ admitted l'
      → release_unattempted floats r.fresh_id l' ≡ (true, l)
  unfolding release_unattempted
  release-reserve r l l' fresh h =
      let a = (reserve-Admission floats r l l' h).appended in
      subst (λ (x : Ledger floats). release_unattempted floats r.fresh_id x ≡ (true, l)) (sym a)
        (rw (release_in-snoc r l.entries fresh, release_unattempted))

  -- No entry is still a reservation.
  abbrev pub NoneOpen : List (Entry floats) → Type 0
  NoneOpen [] = Unit
  NoneOpen (e ∷ es) = (is_reserved e.status ≡ false) × NoneOpen es

  settle_in-NoneOpen :
      (r : Request floats) (response : Option Response) (error : Bool) (es : List (Entry floats))
      → Fresh r.fresh_id es
      → NoneOpen es
      → (es' : List (Entry floats)) × (settle_in floats r.fresh_id
            (settle_entry floats response error)
            (es ++ new_entry floats r ∷ [])
          ≡ some es')
        × NoneOpen es'
  unfolding settle_in
  settle_in-NoneOpen r response error [] f h = (
    settle_entry floats response error (new_entry floats r) ∷ [],
    rw (eq_self r.fresh_id),
    (settle_entry-closed floats response error (new_entry floats r), tt),
  )
  settle_in-NoneOpen r response error (e ∷ es) f h =
      let (es', p, q) = settle_in-NoneOpen r response error es f.1 h.1 in
      (e ∷ es', rw (f.0, p, settle_in), (h.0, q))

  settle-NoneOpen :
      (r : Request floats) (response : Option Response) (error : Bool) (l l' : Ledger floats)
      → Fresh r.fresh_id l.entries
      → NoneOpen l.entries
      → reserve floats r l ≡ admitted l'
      → NoneOpen (or_same (settle floats r.fresh_id response error l') l').entries
  unfolding settle
  settle-NoneOpen r response error l l' f h e =
      let a = (reserve-Admission floats r l l' e).appended in
      let (es', p, q) = settle_in-NoneOpen r response error l.entries f h in rw (a, p, settle) q

  -- Whatever the ledger, the quota guard and the backend answer, a call whose id is new leaves no
  -- open reservation behind, if there was none before.
  pub generate-NoneOpen :
      (r : Request floats) (quota_admits : Bool) (answer : Option Response) (l : Ledger floats)
      → Fresh r.fresh_id l.entries
      → NoneOpen l.entries
      → NoneOpen (generate r quota_admits answer l).1.entries
  unfolding generate admit
  generate-NoneOpen r quota_admits answer l f h = by_reservation (reserve floats r l) refl
    where
      by_reservation :
          (v : Reservation floats)
          → reserve floats r l ≡ v
          → NoneOpen (call r answer (with_quota r quota_admits v l)).1.entries
      by_reservation (exceeded e) eq = h
      by_reservation (admitted l') eq = elim (Bool-cases quota_admits) [
        | inr no_quota ↦ rw (no_quota) (rw (release-reserve r l l' f eq) h)
        | inl quota ↦ rw (quota) (answered_by answer)
      ]
        where
          answered_by : (a : Option Response) → NoneOpen (call r a (started l')).1.entries
          answered_by none = settle-NoneOpen r none true l l' f h eq
          answered_by (some response) = settle-NoneOpen r (some response) false l l' f h eq

  -- A call that the ledger admits and the quota guard refuses leaves the ledger as it was.
  pub generate_over_quota :
      (r : Request floats) (answer : Option Response) (l l' : Ledger floats)
      → Fresh r.fresh_id l.entries
      → reserve floats r l ≡ admitted l'
      → generate r false answer l ≡ (quota_exhausted, l)
  unfolding generate admit
  generate_over_quota r answer l l' f h = rw (h, release-reserve r l l' f h)
