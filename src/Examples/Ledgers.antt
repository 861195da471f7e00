-- ===== src/Examples/Ledgers.antt =====
-- A ledger whose prices are whole numbers, its requests and its calls.
use local_coding_agent.Base.{
  ℕ, ◌+◌, ◌*◌, ◌/◌, true, false, ◌≡◌, refl, none, some, [], ◌∷◌, ltb, ◌==◌, nat_eq, arith, sum, pos,
  negsuc,
}
use mathlib.Core.List.Memᴰ
use local_coding_agent.Budget.{
  Floats, Rates, Request, Ledger, Response, admitted, reserve, settle, settle_in, new_entry,
  settle_entry, valid_usage,
}
use local_coding_agent.Budget.Entries.{Admission, reserve-Admission}
use local_coding_agent.Budget.Session.{IsWithin, here, next, reserving, Run-IsWithin}
use local_coding_agent.Budget.Model.{NoneOpen, generate, generate-NoneOpen}

abbrev whole : Floats
whole = record {
  F = ℕ;
  of_ℕ = λ n. n;
  add = λ a b. a + b;
  is_number = λ a. true;
  sum_of = λ xs. sum (λ x. x) xs;
  mul = λ a b. a * b;
  per_million = λ a. a / 1_000_000;
  gt = λ a b. ltb b a;
  negative = λ a. false;
  finite = λ a. true;
  is_zero = λ a. a == 0;
  slack = λ a. a;
}

abbrev rates : Rates whole
rates = record {
  input_price = some 2_000_000;
  output_price = some 3_000_000;
  request_price = some 1;
}

abbrev request : Request whole
request = record {
  fresh_id = "r1";
  model_id = "m";
  now = 5;
  rates = rates;
  prompt_reserved = 10;
  max_tokens = 20;
}

abbrev new_ledger : Ledger whole
new_ledger = record {
  limits = record {
    max_requests = 2;
    max_tokens = 100;
    max_request_tokens = 50;
    max_cost_usd = some 100;
  };
  entries = [];
}

abbrev one_ledger : Ledger whole
one_ledger = record { limits = new_ledger.limits; entries = new_entry whole request ∷ [] }

request-reserve : reserve whole request new_ledger ≡ admitted one_ledger
unfolding reserve
request-reserve = refl

reserve-Admission_example : Admission whole request new_ledger one_ledger
reserve-Admission_example = reserve-Admission whole request new_ledger one_ledger request-reserve

new_ledger-IsWithin : IsWithin whole new_ledger
new_ledger-IsWithin = record {
  requests = omega arith;
  total = omega arith;
  reservations = λ e m s. absurd (Memᴰ.not-nil m);
}

Run-IsWithin_example : IsWithin whole one_ledger
Run-IsWithin_example =
    Run-IsWithin whole new_ledger-IsWithin (next here (reserving request request-reserve))

abbrev answer : Response
answer = record {
  prompt_tokens = some (pos 9);
  completion_tokens = some (pos 4);
  usage_reported = true;
  usage_cost_known = true;
}

-- A report below zero is not taken.
negative_usage : valid_usage (some (negsuc 0)) (some (pos 4)) true ≡ false
unfolding valid_usage
negative_usage = refl

abbrev settled_ledger : Ledger whole
settled_ledger = record {
  limits = new_ledger.limits;
  entries = settle_entry whole (some answer) false (new_entry whole request) ∷ [];
}

request-settle : settle whole "r1" (some answer) false one_ledger ≡ some settled_ledger
unfolding settle settle_in
request-settle = refl

generate-NoneOpen_example : NoneOpen whole (generate whole request true none new_ledger).1.entries
generate-NoneOpen_example = generate-NoneOpen whole request true none new_ledger tt tt
