-- ===== src/Examples/Quotas.antt =====
-- A guard on its first day, with an allowance of two requests.
use local_coding_agent.Base.{ℕ, ◌+◌, ◌/◌, ◌≤◌, ◌≡◌, refl, true, none, some, []}
use local_coding_agent.Quota.{
  FreeQuotaGuard, Answer, new, rollover, refresh, admit, observe_http_error,
}
use local_coding_agent.Quota.Allowance.{
  Calls, none_yet, then_one, admitting, refusing, Calls-allowance,
}

abbrev day_of : ℕ → ℕ
day_of now = now / 86_400

abbrev two_left : Answer
two_left = some (record { used = 48; limit = 50; remaining = 2 }, none)

abbrev first_guard : FreeQuotaGuard
unfolding admit rollover refresh
first_guard = (admit day_of 100 two_left (new 30)).1

abbrev second_guard : FreeQuotaGuard
unfolding admit rollover refresh
second_guard = (admit day_of 110 none first_guard).1

abbrev third_guard : FreeQuotaGuard
unfolding admit rollover refresh
third_guard = (admit day_of 200 two_left second_guard).1

two-Calls : Calls day_of first_guard 1 third_guard
unfolding admit rollover refresh
two-Calls =
    then_one {m = 1} {n = 0} (then_one {m = 0} {n = 1} none_yet (admitting 110 none refl refl))
      (refusing 200 two_left refl refl)

Calls-allowance_example : (left : ℕ) × (third_guard.remaining ≡ some left) × (1 + left ≤ 1)
unfolding first_guard
Calls-allowance_example = Calls-allowance day_of 1 two-Calls refl

observed-rollover :
    rollover day_of 130 (observe_http_error day_of 120 true [] first_guard)
    ≡ observe_http_error day_of 120 true [] first_guard
unfolding observe_http_error rollover first_guard
observed-rollover = refl
