-- ===== src/Quota/Allowance.antt =====
-- What the guard admits: within a period never more than the server allowed, and nothing while it is
-- blocked.
use local_coding_agent.Base.{
  ℕ, ◌+◌, ◌-◌, ◌≤◌, nat_eq, Bool, true, false, not, ◌&&◌, ◌||◌, Option, none, some, ◌≡◌, refl, ap,
  List, min, arith, Bool-cases, inl, inr, ◌∙◌,
}
use local_coding_agent.Quota.{
  FreeQuotaGuard, Counts, Answer, rollover, refresh, reserve, admit, status, answered, take_answer,
  learn, note_reset, counts, spent, is_empty, observe_http_error, is_fresh, after,
}

-- The answer carries consistent counters.
abbrev pub usable : Answer → Option Counts
usable none = none
usable (some (c, reset)) = counts c

-- `note_reset` touches the reset alone.
note_reset-same :
    (reset : Option ℕ) (g : FreeQuotaGuard)
    → ((note_reset reset g).remaining ≡ g.remaining)
      × ((note_reset reset g).blocked ≡ g.blocked)
      × ((note_reset reset g).attempted ≡ g.attempted)
note_reset-same none g = (refl, refl, refl)
note_reset-same (some reset) g = elim (Bool-cases (after g.last_reset reset)) [
  | inl p ↦ rw (p) (refl, refl, refl)
  | inr p ↦ rw (p) (refl, refl, refl)
]

-- What is left after an answer: no more than was left before it.
abbrev pub Shrinks : ℕ → FreeQuotaGuard → FreeQuotaGuard → Type 0
Shrinks n g g' =
    (left : ℕ) × (g'.remaining ≡ some left)
    × (left ≤ n)
    × (g.blocked ≡ true → g'.blocked ≡ true)
    × (g'.attempted ≡ g.attempted)

answered-Shrinks :
    (answer : Answer) (g : FreeQuotaGuard) (n : ℕ)
    → g.remaining ≡ some n
    → Shrinks n g (answered answer g)
answered-Shrinks none g n h = (n, h, omega arith, λ b. b, refl)
answered-Shrinks (some (c, reset)) g n h = by_counts (counts c)
  where
    by_counts : (usable : Option Counts) → Shrinks n g (take_answer reset usable g)
    by_counts none = (n, h, omega arith, λ b. b, refl)
    by_counts (some c) = rw (h) (
        let same =
          note_reset-same reset
            (record (learn c.remaining (record g { unavailable = false }) (some n)) {
              server_counts = some c;
            }) in
        (min n c.remaining, same.0, omega arith, λ b. same.1 ∙ ground arith, same.2))

refresh-Shrinks :
    (now : ℕ) (answer : Answer) (force : Bool) (g : FreeQuotaGuard) (n : ℕ)
    → g.remaining ≡ some n
    → Shrinks n g (refresh now answer force g)
unfolding refresh
refresh-Shrinks now answer force g n h =
    elim (Bool-cases (not force && is_fresh g.last_fetch now g.ttl)) [
      | inl p ↦ rw (p) (n, h, omega arith, λ b. b, refl)
      | inr p ↦ rw (p) (answered-Shrinks answer (record g { last_fetch = some now }) n h)
    ]

-- One call within a period, and how many attempts it admits.
pub data Call (day_of : ℕ → ℕ) (g : FreeQuotaGuard) : ℕ → FreeQuotaGuard → Type 0 where
  admitting :
      (now : ℕ) (answer : Answer)
      → rollover day_of now g ≡ g
      → (admit day_of now answer g).0 ≡ true
      → Call day_of g 1 (admit day_of now answer g).1
  refusing :
      (now : ℕ) (answer : Answer)
      → rollover day_of now g ≡ g
      → (admit day_of now answer g).0 ≡ false
      → Call day_of g 0 (admit day_of now answer g).1
  asking :
      (now : ℕ) (answer : Answer) (force : Bool)
      → rollover day_of now g ≡ g
      → Call day_of g 0 (status day_of now answer force g)
  observing :
      (now : ℕ) (daily : Bool) (candidates : List (Option ℕ))
      → rollover day_of now g ≡ g
      → Call day_of g 0 (observe_http_error day_of now daily candidates g)

-- Calls of one period, and how many attempts they admit together.
pub data Calls (day_of : ℕ → ℕ) (g : FreeQuotaGuard) : ℕ → FreeQuotaGuard → Type 0 where
  none_yet : Calls day_of g 0 g
  then_one :
      {m n : ℕ} {g' g'' : FreeQuotaGuard}
      → Calls day_of g m g'
      → Call day_of g' n g''
      → Calls day_of g (m + n) g''

reserve-Shrinks :
    (g : FreeQuotaGuard) (n : ℕ)
    → g.remaining ≡ some n
    → (left : ℕ) × ((reserve g).1.remaining ≡ some left)
      × (((reserve g).0 ≡ true → left + 1 ≤ n) × ((reserve g).0 ≡ false → left ≤ n))
reserve-Shrinks g n h = elim (Bool-cases (g.blocked || is_empty g.remaining)) [
  | inl p ↦ rw (p) (n, h, (λ e. ground arith, λ e. omega arith))
  | inr p ↦ rw (p) (n - 1, ap spent h, (λ e. ground arith, λ e. omega arith))
]

Call-allowance :
    (day_of : ℕ → ℕ) {g g' : FreeQuotaGuard} {k : ℕ} (n : ℕ)
    → Call day_of g k g'
    → g.remaining ≡ some n
    → (left : ℕ) × (g'.remaining ≡ some left) × (k + left ≤ n)
unfolding admit status observe_http_error
Call-allowance day_of {g = g} n (admitting now answer same passed) h =
    let (mid, at, le, _, _) =
      refresh-Shrinks now answer false (rollover day_of now g) n (rw (same) h) in
    let (left, eq, (taken, _)) =
      reserve-Shrinks (refresh now answer false (rollover day_of now g)) mid at in
    (left, eq, omega (arith, taken passed, le))
Call-allowance day_of {g = g} n (refusing now answer same refused) h =
    let (mid, at, le, _, _) =
      refresh-Shrinks now answer false (rollover day_of now g) n (rw (same) h) in
    let (left, eq, (_, kept)) =
      reserve-Shrinks (refresh now answer false (rollover day_of now g)) mid at in
    (left, eq, omega (arith, kept refused, le))
Call-allowance day_of {g = g} n (asking now answer force same) h =
    let (left, at, le, _, _) =
      refresh-Shrinks now answer force (rollover day_of now g) n (rw (same) h) in
    (left, at, omega (arith, le))
Call-allowance day_of {g = g} n (observing now true candidates same) h = (0, refl, omega arith)
Call-allowance day_of {g = g} n (observing now false candidates same) h =
    (n, rw (same) h, omega arith)

-- Within a period, once the allowance is known, the attempts that the guard admits are together no
-- more than it, whatever the server answers meanwhile: an answer never gives spent attempts back.
pub Calls-allowance :
    (day_of : ℕ → ℕ) {g g' : FreeQuotaGuard} {k : ℕ} (n : ℕ)
    → Calls day_of g k g'
    → g.remaining ≡ some n
    → (left : ℕ) × (g'.remaining ≡ some left) × (k + left ≤ n)
Calls-allowance day_of n none_yet h = (n, h, omega arith)
Calls-allowance day_of n (then_one calls call) h =
    let (mid, at, le) = Calls-allowance day_of n calls h in
    let (left, eq, more) = Call-allowance day_of mid call at in (left, eq, omega (arith, le, more))

rollover-blocked :
    (day_of : ℕ → ℕ) (now : ℕ) (g : FreeQuotaGuard) → (rollover day_of now g).blocked ≡ g.blocked
unfolding rollover
rollover-blocked day_of now g = ground arith

refresh-unusable :
    (now : ℕ) (answer : Answer) (force : Bool) (g : FreeQuotaGuard)
    → usable answer ≡ none
    → (refresh now answer force g).blocked ≡ g.blocked
unfolding refresh
refresh-unusable now answer force g h =
    elim (Bool-cases (not force && is_fresh g.last_fetch now g.ttl)) [
      | inl p ↦ rw (p) refl
      | inr p ↦ rw (p) (by_answer answer h)
    ]
  where
    by_answer :
        (a : Answer)
        → usable a ≡ none
        → (answered a (record g { last_fetch = some now })).blocked ≡ g.blocked
    by_answer none e = refl
    by_answer (some (c, reset)) e = rw (e, answered) refl

reserve_blocked : (g : FreeQuotaGuard) → g.blocked ≡ true → reserve g ≡ (false, g)
reserve_blocked g h = rw (h) refl

-- A blocked guard admits nothing, and stays blocked, until the server answers with consistent
-- counters: the clock alone, also past the day or the reset, never unblocks it.
pub admit_blocked :
    (day_of : ℕ → ℕ) (now : ℕ) (answer : Answer) (g : FreeQuotaGuard)
    → usable answer ≡ none
    → g.blocked ≡ true
    → ((admit day_of now answer g).0 ≡ false) × ((admit day_of now answer g).1.blocked ≡ true)
unfolding admit
admit_blocked day_of now answer g h b =
    let r = rollover day_of now g in
    let still : (refresh now answer false r).blocked ≡ true =
      refresh-unusable now answer false r h ∙ rollover-blocked day_of now g ∙ b in
    rw (reserve_blocked (refresh now answer false r) still) (refl, still)

-- After a daily limit was observed, no attempt is admitted in the period, whatever the server
-- answers.
pub admit-observe_http_error :
    (day_of : ℕ → ℕ) (first now : ℕ) (candidates : List (Option ℕ)) (answer : Answer)
    (g : FreeQuotaGuard)
    → rollover day_of now (observe_http_error day_of first true candidates g)
      ≡ observe_http_error day_of first true candidates g
    → (admit day_of now answer (observe_http_error day_of first true candidates g)).0 ≡ false
unfolding admit observe_http_error
admit-observe_http_error day_of first now candidates answer g same =
    let o = observe_http_error day_of first true candidates g in
    let (left, at, le, still, _) =
      refresh-Shrinks now answer false (rollover day_of now o) 0 (rw (same) refl) in
    ap (λ (r : Bool × FreeQuotaGuard). r.0)
      (reserve_blocked (refresh now answer false (rollover day_of now o)) (still (rw (same) refl)))
