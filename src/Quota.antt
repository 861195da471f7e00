-- ===== src/Quota.antt =====
-- src/local_coder/providers/quota.py: `FreeQuotaGuard`, for a configuration whose model is free (for
-- another, no operation changes the guard). Times are natural numbers of one tick; a `none` of
-- `last_fetch`, `last_reset` is Python's minus infinity. The clock's calendar and the server's answer
-- are arguments; the notice to the user and the texts of the snapshot are not modelled.
pub mod Allowance
use local_coding_agent.Base.{
  ℕ, zero, suc, ◌+◌, ◌-◌, ◌==◌, nat_eq, Bool, true, false, not, ◌&&◌, ◌||◌, Option, none, some, ltb,
  leb, min, if◌then◌else◌, List, [], ◌∷◌,
}

pub record Counts : Type 0 where
  pub used : ℕ
  pub limit : ℕ
  pub remaining : ℕ

-- `_counts`, of a value whose three counters are integers
abbrev pub consistent : Counts → Bool
consistent c =
    not (ltb c.limit c.remaining)
    && not (ltb c.used c.limit && not (c.used + c.remaining == c.limit))
    && not (leb c.limit c.used && not (c.remaining == 0))

abbrev pub in_bounds : ℕ → Bool
in_bounds n = leb n 1_000_000_000

abbrev pub counts : Counts → Option Counts
counts c =
    if in_bounds c.used && in_bounds c.limit && in_bounds c.remaining && consistent c
    then some c
    else none

pub record FreeQuotaGuard : Type 0 where
  pub ttl : ℕ
  pub day : Option ℕ
  pub last_fetch : Option ℕ
  pub remaining : Option ℕ
  pub server_counts : Option Counts
  pub attempted : ℕ
  pub blocked : Bool
  pub unavailable : Bool
  pub reset_at : Option ℕ
  pub last_reset : Option ℕ

-- `__init__`
abbrev pub new : ℕ → FreeQuotaGuard
new ttl = record {
  ttl = ttl;
  day = none;
  last_fetch = none;
  remaining = none;
  server_counts = none;
  attempted = 0;
  blocked = false;
  unavailable = false;
  reset_at = none;
  last_reset = none;
}

-- `last < value`, where `last` may be minus infinity
abbrev pub after : Option ℕ → ℕ → Bool
after none value = true
after (some last) value = ltb last value

abbrev pub is_day : Option ℕ → ℕ → Bool
is_day none day = false
is_day (some d) day = d == day

abbrev pub due : Option ℕ → Option ℕ → ℕ → Bool
due none last now = false
due (some reset) last now = after last reset && leb reset now

-- `_rollover`
unfoldable pub rollover : (ℕ → ℕ) → ℕ → FreeQuotaGuard → FreeQuotaGuard
rollover day_of now g =
    let reset_due = due g.reset_at g.last_reset now in
    if is_day g.day (day_of now) && not reset_due then g else record g {
      day = some (day_of now);
      last_reset = if reset_due then g.reset_at else g.last_reset;
      remaining = none;
      server_counts = none;
      attempted = 0;
      last_fetch = none;
      reset_at = none;
    }

-- `0 <= now - last_fetch < ttl`
abbrev pub is_fresh : Option ℕ → ℕ → ℕ → Bool
is_fresh none now ttl = false
is_fresh (some last) now ttl = leb last now && ltb now (last + ttl)

-- `_remaining` and `_blocked` after a consistent answer
abbrev pub learn : ℕ → FreeQuotaGuard → Option ℕ → FreeQuotaGuard
learn server g none =
    let left = server - g.attempted in record g { remaining = some left; blocked = left == 0 }
learn server g (some mine) =
    let left = min mine server in
    record g { remaining = some left; blocked = g.blocked || left == 0 }

-- `_reset_at` after an answer that may supply a reset
abbrev pub note_reset : Option ℕ → FreeQuotaGuard → FreeQuotaGuard
note_reset none g = g
note_reset (some reset) g =
    if after g.last_reset reset then record g { reset_at = some reset } else g

abbrev pub take_answer : Option ℕ → Option Counts → FreeQuotaGuard → FreeQuotaGuard
take_answer reset none g = record g { unavailable = true }
take_answer reset (some c) g =
    note_reset reset (record (learn c.remaining (record g { unavailable = false }) g.remaining) {
      server_counts = some c;
    })

-- The server's answer: its counters and the reset that it supplies, or nothing usable.
abbrev pub Answer : Type 0
Answer = Option (Counts × Option ℕ)

abbrev pub answered : Answer → FreeQuotaGuard → FreeQuotaGuard
answered none g = take_answer none none g
answered (some (c, reset)) g = take_answer reset (counts c) g

-- `_refresh`
unfoldable pub refresh : ℕ → Answer → Bool → FreeQuotaGuard → FreeQuotaGuard
refresh now answer force g =
    if not force && is_fresh g.last_fetch now g.ttl
    then g
    else answered answer (record g { last_fetch = some now })

abbrev pub spent : Option ℕ → Option ℕ
spent none = none
spent (some n) = some (n - 1)

abbrev pub is_empty : Option ℕ → Bool
is_empty none = false
is_empty (some n) = n == 0

-- The end of `admit`: whether the attempt is admitted, and the guard.
abbrev pub reserve : FreeQuotaGuard → Bool × FreeQuotaGuard
reserve g =
    if g.blocked || is_empty g.remaining
    then (false, g)
    else (true, record g { attempted = g.attempted + 1; remaining = spent g.remaining })

unfoldable pub admit : (ℕ → ℕ) → ℕ → Answer → FreeQuotaGuard → Bool × FreeQuotaGuard
unfolding rollover refresh
admit day_of now answer g = reserve (refresh now answer false (rollover day_of now g))

-- `status` with a configuration: its effect on the guard
unfoldable pub status : (ℕ → ℕ) → ℕ → Answer → Bool → FreeQuotaGuard → FreeQuotaGuard
unfolding rollover refresh
status day_of now answer force g = refresh now answer force (rollover day_of now g)

-- The first candidate that is a reset after the last one processed
abbrev pub first_reset : Option ℕ → Option ℕ → List (Option ℕ) → Option ℕ
first_reset last current [] = current
first_reset last current (none ∷ candidates) = first_reset last current candidates
first_reset last current (some stamp ∷ candidates) =
    if after last stamp then some stamp else first_reset last current candidates

-- `observe_http_error` for the status 429: `daily` tells whether the error is a daily limit, and
-- `candidates` are the resets that it supplies, parsed.
unfoldable pub observe_http_error :
    (ℕ → ℕ) → ℕ → Bool → List (Option ℕ) → FreeQuotaGuard → FreeQuotaGuard
unfolding rollover
observe_http_error day_of now daily candidates g =
    let r = rollover day_of now g in
    if daily
    then record r {
      remaining = some 0;
      blocked = true;
      reset_at = first_reset r.last_reset r.reset_at candidates;
    }
    else r
