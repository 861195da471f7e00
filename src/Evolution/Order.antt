-- ===== src/Evolution/Order.antt =====
-- The order of the events, and what the newest evaluation of a revision says.
use local_coding_agent.Base.{
  ◌≤◌, ◌<◌, ◌≡◌, ◌⊎◌, inl, inr, refl, sym, ap, subst, ◌∙◌, String, string_eq, nat_eq, option_eq,
  true, false, none, some, List, [], ◌∷◌, Memᴰ, arith, Bool-cases, Option-cases, eq→≡, and_true,
  eq_self,
}
use mathlib.Core.List.Memᴰ
use local_coding_agent.Evolution.{
  State, validated, Event, is_validated, is_evaluation, evaluates, is_before, insert_event,
  in_order, last_evaluation, passes,
}

-- An event is no newer than another, by its time and then its id.
abbrev pub AtMost : Event → Event → Type 0
AtMost e f = (e.time_ns < f.time_ns) ⊎ ((e.time_ns ≡ f.time_ns) × (e.event_id ≤ f.event_id))

-- Of all evaluations of a revision that are recorded, none is newer than one that has validated the
-- content with this digest.
pub record HasPassed (digest id : String) (events : List Event) : Type 0 where
  pub evaluation : Event
  pub recorded : Memᴰ evaluation events
  pub of_revision : evaluation.revision_id ≡ id
  pub success : evaluation.state ≡ validated
  pub of_content : evaluation.digest ≡ some digest
  pub newest :
      (f : Event)
      → Memᴰ f events
      → f.revision_id ≡ id
      → is_evaluation f.state ≡ true
      → AtMost f evaluation

abbrev IsSorted : List Event → Type 0
IsSorted [] = Unit
IsSorted (e ∷ events) = ((f : Event) → Memᴰ f events → AtMost e f) × IsSorted events

AtMost-trans : (e f g : Event) → AtMost e f → AtMost f g → AtMost e g
AtMost-trans e f g h k = omega (arith, h, k)

before_lem : (e f : Event) → is_before e f ≡ true → AtMost e f
before_lem e f h = ground (arith, h)

not_before : (e f : Event) → is_before e f ≡ false → AtMost f e
not_before e f h = ground (arith, h)

Memᴰ-insert_event :
    (e f : Event) (events : List Event) → Memᴰ f (insert_event e events) → (f ≡ e) ⊎ Memᴰ f events
unfolding insert_event
Memᴰ-insert_event e f [] m = Memᴰ.cases_cons m
Memᴰ-insert_event e f (x ∷ events) m = elim (Bool-cases (is_before e x)) [
  | inl first ↦ Memᴰ.cases_cons (rw (first) at m)
  | inr later ↦ elim (Memᴰ.cases_cons (rw (later) at m)) [
    | inl here ↦ inr (Memᴰ.head here)
    | inr there ↦ elim (Memᴰ-insert_event e f events there) [
      | inl new ↦ inl new
      | inr old ↦ inr (Memᴰ.tail old)
    ]
  ]
]

insert_event_covers :
    (e f : Event) (events : List Event) → (f ≡ e) ⊎ Memᴰ f events → Memᴰ f (insert_event e events)
unfolding insert_event
insert_event_covers e f [] (inl new) = Memᴰ.head new
insert_event_covers e f [] (inr old) = absurd (Memᴰ.not-nil old)
insert_event_covers e f (x ∷ events) h = elim (Bool-cases (is_before e x)) [
  | inl first ↦ rw (first) (elim h [ inl new ↦ Memᴰ.head new | inr old ↦ Memᴰ.tail old ])
  | inr later ↦ rw (later) (elim h [
    | inl new ↦ Memᴰ.tail (insert_event_covers e f events (inl new))
    | inr old ↦ elim (Memᴰ.cases_cons old) [
      | inl here ↦ Memᴰ.head here
      | inr there ↦ Memᴰ.tail (insert_event_covers e f events (inr there))
    ]
  ])
]

insert_event-IsSorted :
    (e : Event) (events : List Event) → IsSorted events → IsSorted (insert_event e events)
unfolding insert_event
insert_event-IsSorted e [] h = ((λ f m. absurd (Memᴰ.not-nil m)), tt)
insert_event-IsSorted e (x ∷ events) h = elim (Bool-cases (is_before e x)) [
  | inl first ↦ rw (first) (
    (λ f m. elim (Memᴰ.cases_cons m) [
      | inl here ↦ subst (AtMost e) (sym here) (before_lem e x first)
      | inr there ↦ AtMost-trans e x f (before_lem e x first) (h.0 f there)
    ]),
    h,
  )
  | inr later ↦ rw (later) (
    (λ f m. elim (Memᴰ-insert_event e f events m) [
      | inl new ↦ subst (AtMost x) (sym new) (not_before e x later)
      | inr old ↦ h.0 f old
    ]),
    insert_event-IsSorted e events h.1,
  )
]

in_order-IsSorted : (events : List Event) → IsSorted (in_order events)
unfolding in_order
in_order-IsSorted [] = tt
in_order-IsSorted (e ∷ events) =
    insert_event-IsSorted e (in_order events) (in_order-IsSorted events)

pub Memᴰ_of-in_order : (f : Event) (events : List Event) → Memᴰ f (in_order events) → Memᴰ f events
unfolding in_order
Memᴰ_of-in_order f [] m = m
Memᴰ_of-in_order f (e ∷ events) m = elim (Memᴰ-insert_event e f (in_order events) m) [
  | inl new ↦ Memᴰ.head new
  | inr old ↦ Memᴰ.tail (Memᴰ_of-in_order f events old)
]

pub in_order_covers : (f : Event) (events : List Event) → Memᴰ f events → Memᴰ f (in_order events)
unfolding in_order
in_order_covers f [] m = m
in_order_covers f (e ∷ events) m = elim (Memᴰ.cases_cons m) [
  | inl here ↦ insert_event_covers e f (in_order events) (inl here)
  | inr there ↦ insert_event_covers e f (in_order events) (inr (in_order_covers f events there))
]

-- Where no evaluation is found there is none.
none_found :
    (id : String) (events : List Event) (f : Event)
    → last_evaluation id events ≡ none
    → Memᴰ f events
    → evaluates id f ≡ false
unfolding last_evaluation
none_found id [] f h m = absurd (Memᴰ.not-nil m)
none_found id (e ∷ events) f h m = elim (Option-cases (last_evaluation id events)) [
  | inr (g, later) ↦ absurd (ground (arith, (rw (later) at h)))
  | inl gone ↦ elim (Memᴰ.cases_cons m) [
    | inl here ↦ ground (arith, (rw (gone) at h), here, ap (evaluates id) here)
    | inr there ↦ none_found id events f gone there
  ]
]

-- In a sorted list the evaluation that is found is the newest.
last_evaluation_lem :
    (id : String) (events : List Event) (e : Event)
    → IsSorted events
    → last_evaluation id events ≡ some e
    → Memᴰ e events
      × (evaluates id e ≡ true)
      × ((f : Event) → Memᴰ f events → evaluates id f ≡ true → AtMost f e)
unfolding last_evaluation
last_evaluation_lem id [] e s h = absurd (ground arith)
last_evaluation_lem id (x ∷ events) e s h = elim (Option-cases (last_evaluation id events)) [
  | inr (g, later) ↦
      let same : g ≡ e = ground (arith, (rw (later) at h)) in
      let (there, right, newest) = last_evaluation_lem id events e s.1 (later ∙ ap some same) in
      (
        Memᴰ.tail there,
        right,
        λ f m v. elim (Memᴰ.cases_cons m) [
          | inl here ↦ subst (λ y. AtMost y e) (sym here) (s.0 e there)
          | inr old ↦ newest f old v
        ],
      )
  | inl gone ↦ elim (Bool-cases (evaluates id x)) [
    | inr other ↦ absurd (ground (arith, (rw (gone, other) at h)))
    | inl right ↦
        let same : x ≡ e = ground (arith, (rw (gone, right) at h)) in
        (
          Memᴰ.head (sym same),
          subst (λ y. evaluates id y ≡ true) same right,
          λ f m v. elim (Memᴰ.cases_cons m) [
            | inl here ↦
                subst (λ y. AtMost y e) (sym here) (subst (AtMost x) same (inr (refl, omega arith)))
            | inr old ↦ absurd (ground (arith, none_found id events f gone old, v))
          ],
        )
  ]
]

is_validated_lem : (state : State) → is_validated state ≡ true → state ≡ validated
is_validated_lem state h = ground arith

pub passes-HasPassed :
    (digest id : String) (events : List Event)
    → passes digest (last_evaluation id (in_order events)) ≡ true
    → HasPassed digest id events
passes-HasPassed digest id events h = elim (Option-cases (last_evaluation id (in_order events))) [
  | inl gone ↦ absurd (ground (arith, (rw (gone) at h)))
  | inr (e, found) ↦
      let (valid, right) = and_true _ _ (rw (found) at h) in
      let (there, mine, newest) =
        last_evaluation_lem id (in_order events) e (in_order-IsSorted events) found in
      record {
        evaluation = e;
        recorded = Memᴰ_of-in_order e events there;
        of_revision = eq→≡ e.revision_id id (and_true _ _ mine).0;
        success = is_validated_lem e.state valid;
        of_content = eq→≡ e.digest (some digest) right;
        newest = λ f m own v.
            newest f (in_order_covers f events m) (rw (own, v) (ground (arith, eq_self id)));
      }
]
