-- ===== src/Budget.antt =====
-- src/local_coder/core/budgets.py: `BudgetLedger` and `BudgetedModel`. Prices are floats in the
-- source: their type and operations are the parameter `Floats`. The size that `request_accounting`
-- reserves for a prompt, the clock and the identities of `uuid4` are arguments. `_save` writes the
-- status to disk and changes no state.
pub mod Entries
pub mod Session
pub mod Model
use local_coding_agent.Base.{
  ℕ, zero, suc, ◌+◌, ◌*◌, ◌-◌, max, String, Bool, true, false, not, ◌&&◌, ◌||◌, Option, none, some,
  List, [], ◌∷◌, ◌++◌, if◌then◌else◌, ◌==◌, string_eq, ltb, leb, map, ℤ, pos, leb_ℤ, ltb_ℤ, ◌+ℤ◌,
  pos_part, length, sum, all, contains,
}

-- What the ledger uses of Python's floats: `F` is what may stand in place of one, a value of another
-- type included.
pub record Floats : Type 1 where
  pub F : Type 0
  -- `type(value) in (int, float)`
  pub is_number : F → Bool
  pub of_ℕ : ℕ → F
  pub add : F → F → F
  pub mul : F → F → F
  -- `sum(…)`, which from Python 3.12 on compensates for lost digits
  pub sum_of : List F → F
  pub per_million : F → F
  pub gt : F → F → Bool
  pub negative : F → Bool
  pub finite : F → Bool
  pub is_zero : F → Bool
  -- `max_cost_usd + 1e-12`
  pub slack : F → F

pub data BudgetError : Type 0 where
  invalid_pricing request_limit request_tokens token_budget : BudgetError
  pricing_required unknown_cost cost_budget : BudgetError

pub data EntryStatus : Type 0 where
  reserved failed completed : EntryStatus

abbrev pub is_reserved : EntryStatus → Bool
is_reserved EntryStatus.reserved = true
is_reserved _ = false

-- `MAX_REPORTED_TOKENS` of types.py
abbrev pub max_reported_tokens : ℕ
max_reported_tokens = 1_000_000_000_000

pub record Response : Type 0 where
  -- `none` where the value is no `int`
  pub prompt_tokens : Option ℤ
  pub completion_tokens : Option ℤ
  pub usage_reported : Bool
  pub usage_cost_known : Bool

-- `_valid_usage`
unfoldable pub valid_usage : Option ℤ → Option ℤ → Bool → Bool
valid_usage (some prompt) (some completion) reported =
    leb_ℤ (pos 0) prompt
    && leb_ℤ prompt (pos max_reported_tokens)
    && leb_ℤ (pos 0) completion
    && leb_ℤ completion (pos max_reported_tokens)
    && leb_ℤ (prompt +ℤ completion) (pos max_reported_tokens)
    && (ltb_ℤ (pos 0) (prompt +ℤ completion) || reported)
valid_usage _ _ reported = false

-- A count as a natural number, used where `valid_usage` holds
abbrev pub token_count : Option ℤ → ℕ
token_count (some n) = pos_part n
token_count none = 0

module _ (floats : Floats) where
  open floats use {
    F, is_number, of_ℕ, add, mul, sum_of, per_million, gt, negative, finite, is_zero, slack,
  }

  pub record Limits : Type 0 where
    pub max_requests : ℕ
    pub max_tokens : ℕ
    pub max_request_tokens : ℕ
    pub max_cost_usd : Option F

  pub record Rates : Type 0 where
    pub input_price : Option F
    pub output_price : Option F
    pub request_price : Option F

  pub record Entry : Type 0 where
    pub id : String
    pub model : String
    pub created_at : ℕ
    pub status : EntryStatus
    pub tokens : ℕ
    pub prompt_bound : ℕ
    pub output_reserved : ℕ
    pub cost_usd : Option F
    pub cost_known : Bool
    pub pricing_rates : Rates
    pub tokens_reserved : ℕ
    pub provider_actual : Option (ℕ × ℕ)

  pub record Ledger : Type 0 where
    pub limits : Limits
    pub entries : List Entry

  -- `_valid_rate`
  abbrev pub valid_rate : F → Bool
  valid_rate value = is_number value && not (negative value) && finite value

  abbrev pub valid_if_given : Option F → Bool
  valid_if_given none = true
  valid_if_given (some value) = valid_rate value

  abbrev pub known_rate : Option F → Bool
  known_rate none = false
  known_rate (some value) = valid_rate value

  abbrev pub zero_rate : Option F → Bool
  zero_rate none = false
  zero_rate (some value) = is_zero value

  -- `(prompt * ip + output * op) / 1_000_000 + request_price`, where all three are given
  abbrev pub price : Rates → ℕ → ℕ → Option F
  price rates prompt output = elim rates.input_price [
    | none ↦ none
    | some ip ↦ elim rates.output_price [
      | none ↦ none
      | some op ↦ elim rates.request_price [
        | none ↦ none
        | some rp ↦ some (add (per_million (add (mul (of_ℕ prompt) ip) (mul (of_ℕ output) op))) rp)
      ]
    ]
  ]

  abbrev pub finite_if_given : Option F → Bool
  finite_if_given none = true
  finite_if_given (some c) = finite c

  -- `e.get('cost_usd') or 0`
  abbrev pub cost_or_zero : Option F → F
  cost_or_zero none = of_ℕ 0
  cost_or_zero (some c) = c

  -- The fields of `status()`.
  abbrev pub tokens : Ledger → ℕ
  tokens l = sum (λ (e : Entry). e.tokens) l.entries

  abbrev pub cost_usd : Ledger → F
  cost_usd l = sum_of (map (λ (e : Entry). cost_or_zero e.cost_usd) l.entries)

  abbrev pub cost_known : Ledger → Bool
  cost_known l = all (λ (e : Entry). e.cost_known) l.entries

  abbrev pub is_given : Option F → Bool
  is_given none = false
  is_given (some c) = true

  -- The checks of a dollar cap, in their order.
  abbrev cap_error : Option F → Option F → Ledger → Option BudgetError
  cap_error none cost l = none
  cap_error (some cap) none l = some pricing_required
  cap_error (some cap) (some cost) l =
      if not (cost_known l)
      then some unknown_cost
      else if gt (add (cost_usd l) cost) (slack cap)
      then some cost_budget
      else none

  -- The guards of `reserve`, in their order; `none` admits the request.
  unfoldable pub refusal : Ledger → Rates → ℕ → ℕ → Option BudgetError
  refusal l rates prompt output =
      let cost = price rates prompt output in
      if not (
        valid_if_given rates.input_price
        && valid_if_given rates.output_price
        && valid_if_given rates.request_price)
      then some invalid_pricing
      else if not (finite_if_given cost)
      then some invalid_pricing
      else if leb l.limits.max_requests (length l.entries)
      then some request_limit
      else if ltb l.limits.max_request_tokens (prompt + output)
      then some request_tokens
      else if ltb l.limits.max_tokens (tokens l + (prompt + output))
      then some token_budget
      else cap_error l.limits.max_cost_usd cost l

  pub record Request : Type 0 where
    pub fresh_id : String
    pub model_id : String
    pub now : ℕ
    pub rates : Rates
    -- `request_accounting(…)['prompt_reserved']`
    pub prompt_reserved : ℕ
    pub max_tokens : ℕ

  -- `max(1, int(max_tokens))`
  abbrev pub output_of : Request → ℕ
  output_of r = max 1 r.max_tokens

  abbrev pub new_entry : Request → Entry
  new_entry r = record {
    id = r.fresh_id;
    model = r.model_id;
    created_at = r.now;
    status = EntryStatus.reserved;
    tokens = r.prompt_reserved + output_of r;
    prompt_bound = r.prompt_reserved;
    output_reserved = output_of r;
    cost_usd = price r.rates r.prompt_reserved (output_of r);
    cost_known = is_given (price r.rates r.prompt_reserved (output_of r));
    pricing_rates = r.rates;
    tokens_reserved = r.prompt_reserved + output_of r;
    provider_actual = none;
  }

  pub data Reservation : Type 0 where
    admitted : Ledger → Reservation
    exceeded : BudgetError → Reservation

  abbrev admit_unless : Option BudgetError → Ledger → Reservation
  admit_unless (some e) l = exceeded e
  admit_unless none l = admitted l

  unfoldable pub reserve : Request → Ledger → Reservation
  unfolding refusal
  reserve r l =
      admit_unless (refusal l r.rates r.prompt_reserved (output_of r))
        (record l { entries = l.entries ++ new_entry r ∷ [] })

  abbrev pub all_known : Rates → Bool
  all_known r = known_rate r.input_price && known_rate r.output_price && known_rate r.request_price

  abbrev pub is_free : Rates → Bool
  is_free r =
      all_known r
      && zero_rate r.input_price
      && zero_rate r.output_price
      && zero_rate r.request_price

  abbrev closing : Bool → EntryStatus
  closing error = if error then EntryStatus.failed else EntryStatus.completed

  abbrev reprice : Option F → Entry → Entry
  reprice none e = e
  reprice (some actual) e =
      if finite actual
      then record e { cost_usd = some actual; cost_known = true }
      else record e { cost_known = false }

  abbrev pub response_known : Rates → Response → Bool
  response_known rates r = r.usage_cost_known || is_free rates

  abbrev report_usage : Response → Entry → Entry
  report_usage r e =
      let total = token_count r.prompt_tokens + token_count r.completion_tokens in
      let e' = record e {
        tokens = total;
        provider_actual = some (token_count r.prompt_tokens, token_count r.completion_tokens);
      } in
      if all_known e.pricing_rates && response_known e.pricing_rates r
      then reprice
          (price e.pricing_rates (token_count r.prompt_tokens) (token_count r.completion_tokens)) e'
      else e'

  abbrev forget_cost : Response → Entry → Entry
  forget_cost r e = if response_known e.pricing_rates r then e else record e { cost_known = false }

  abbrev observe : Option Response → Entry → Entry
  observe none e = e
  observe (some r) e =
      if valid_usage r.prompt_tokens r.completion_tokens r.usage_reported
      then report_usage r (forget_cost r e)
      else forget_cost r e

  -- `settle`, on the entry
  unfoldable pub settle_entry : Option Response → Bool → Entry → Entry
  unfolding valid_usage
  settle_entry response error e =
      if is_reserved e.status then observe response (record e { status = closing error }) else e

  -- `next(e for e in entries if e['id'] == identity)` raises where there is none.
  unfoldable pub settle_in : String → (Entry → Entry) → List Entry → Option (List Entry)
  settle_in identity f [] = none
  settle_in identity f (e ∷ es) =
      if e.id == identity
      then some (f e ∷ es)
      else elim (settle_in identity f es) [ none ↦ none | some es' ↦ some (e ∷ es') ]

  unfoldable pub settle : String → Option Response → Bool → Ledger → Option Ledger
  unfolding settle_in
  settle identity response error l =
      elim (settle_in identity (settle_entry response error) l.entries) [
        | none ↦ none
        | some es ↦ some (record l { entries = es })
      ]

  -- The entry that `release_unattempted` removes: the first with the identity, if it is reserved.
  unfoldable pub release_in : String → List Entry → Option (List Entry)
  release_in identity [] = none
  release_in identity (e ∷ es) =
      if e.id == identity
      then (if is_reserved e.status then some es else none)
      else elim (release_in identity es) [ none ↦ none | some es' ↦ some (e ∷ es') ]

  unfoldable pub release_unattempted : String → Ledger → Bool × Ledger
  release_unattempted identity l = elim (release_in identity l.entries) [
    | none ↦ (false, l)
    | some es ↦ (true, record l { entries = es })
  ]
