-- ===== src/Base/Dict.antt =====
-- Python's `dict` as an association list in insertion order: a write to a present key keeps its
-- place, and a new key goes to the end.
use mathlib.Core.Path.{◌≡◌, refl, sym, ap, ◌∙◌}
use mathlib.Core.Logic.{◌⊎◌, inl, inr, ◌≢◌}
use mathlib.Core.Option.{Option, none, some}
use mathlib.Core.List.{List, [], ◌∷◌, map, Memᴰ}
use mathlib.Core.List.Memᴰ
use native.Mathlib.Omega.{arith}
use local_coding_agent.Base.Tests.{Eq, eq_self, ◌==◌, if◌then◌else◌, Bool-cases, Option-cases}
use local_coding_agent.Base.Lists.{Memᴰ-cons}

abbrev pub Dict {ℓ κ} : Type ℓ → Type κ → Type (ℓ ⊔ κ)
Dict K V = List (K × V)

module _ {ℓ κ} {K : Type ℓ} {V : Type κ} where
  -- `list(d)`
  abbrev pub keys : Dict K V → List K
  keys = map (λ e. e.0)

  -- `d.values()`
  abbrev pub values : Dict K V → List V
  values = map (λ e. e.1)

module _ {ℓ κ} {K : Type ℓ} {V : Type κ} ⦃e : Eq K⦄ where
  -- `d.get(k)`
  unfoldable pub lookup : K → Dict K V → Option V
  lookup k [] = none
  lookup k ((j, v) ∷ d) = if j == k then some v else lookup k d

  -- `d[k] = v`
  unfoldable pub insert : K → V → Dict K V → Dict K V
  insert k v [] = (k, v) ∷ []
  insert k v ((j, w) ∷ d) = if j == k then (j, v) ∷ d else (j, w) ∷ insert k v d

  -- `del d[k]`, `d.pop(k)`
  unfoldable pub remove : K → Dict K V → Dict K V
  remove k [] = []
  remove k ((j, v) ∷ d) = if j == k then d else (j, v) ∷ remove k d

  -- `d[k].field = …`, where `k` is a key: the entry is changed in its place
  unfoldable pub modify : K → (V → V) → Dict K V → Dict K V
  modify k f [] = []
  modify k f ((j, v) ∷ d) = if j == k then (j, f v) ∷ d else (j, v) ∷ modify k f d

  -- No key stands twice.
  abbrev pub Distinct : Dict K V → Type (ℓ ⊔ κ)
  Distinct [] = Unit
  Distinct ((j, v) ∷ d) = (lookup j d ≡ none) × Distinct d

  pub lookup-insert :
      (k j : K) (v : V) (d : Dict K V)
      → lookup j (insert k v d) ≡ (if k == j then some v else lookup j d)
  unfolding lookup insert
  lookup-insert k j v [] = refl
  lookup-insert k j v ((i, w) ∷ d) =
      ground (arith, e.beq_iff k j, e.beq_iff i k, e.beq_iff i j, lookup-insert k j v d)

  pub lookup-remove :
      (k j : K) (d : Dict K V)
      → Distinct d
      → lookup j (remove k d) ≡ (if k == j then none else lookup j d)
  unfolding lookup remove
  lookup-remove k j [] h = ground arith
  lookup-remove k j ((i, w) ∷ d) h =
      ground (arith, e.beq_iff k j, e.beq_iff i k, e.beq_iff i j, lookup-remove k j d h.1)

  pub lookup-modify :
      (k j : K) (f : V → V) (d : Dict K V) (v : V)
      → lookup j d ≡ some v
      → lookup j (modify k f d) ≡ (if k == j then some (f v) else some v)
  unfolding lookup modify
  lookup-modify k j f [] v h = ground arith
  lookup-modify k j f ((i, w) ∷ d) v h =
      ground (arith, e.beq_iff k j, e.beq_iff i k, e.beq_iff i j, lookup-modify k j f d v)

  pub lookup-modify-none :
      (k j : K) (f : V → V) (d : Dict K V) → lookup j d ≡ none → lookup j (modify k f d) ≡ none
  unfolding lookup modify
  lookup-modify-none k j f [] h = refl
  lookup-modify-none k j f ((i, w) ∷ d) h = ground (arith, lookup-modify-none k j f d)

  pub insert-Distinct : (k : K) (v : V) (d : Dict K V) → Distinct d → Distinct (insert k v d)
  unfolding lookup insert
  insert-Distinct k v [] h = (refl, tt)
  insert-Distinct k v ((i, w) ∷ d) h = elim (Bool-cases (i == k)) [
    | inl p ↦ rw (p) h
    | inr p ↦ rw (p) (
      ground (arith, lookup-insert k i v d, e.beq_iff k i, e.beq_iff i k),
      insert-Distinct k v d h.1,
    )
  ]

  pub modify-Distinct : (k : K) (f : V → V) (d : Dict K V) → Distinct d → Distinct (modify k f d)
  unfolding lookup modify
  modify-Distinct k f [] h = tt
  modify-Distinct k f ((i, w) ∷ d) h = elim (Bool-cases (i == k)) [
    | inl p ↦ rw (p) h
    | inr p ↦ rw (p) (lookup-modify-none k i f d h.0, modify-Distinct k f d h.1)
  ]

  lookup-remove-none : (k j : K) (d : Dict K V) → lookup j d ≡ none → lookup j (remove k d) ≡ none
  unfolding lookup remove
  lookup-remove-none k j [] h = refl
  lookup-remove-none k j ((i, w) ∷ d) h = ground (arith, lookup-remove-none k j d)

  pub remove-Distinct : (k : K) (d : Dict K V) → Distinct d → Distinct (remove k d)
  unfolding lookup remove
  remove-Distinct k [] h = tt
  remove-Distinct k ((i, w) ∷ d) h = elim (Bool-cases (i == k)) [
    | inl p ↦ rw (p) h.1
    | inr p ↦ rw (p) (lookup-remove-none k i d h.0, remove-Distinct k d h.1)
  ]

  pub keys-modify : (k : K) (f : V → V) (d : Dict K V) → keys (modify k f d) ≡ keys d
  unfolding modify
  keys-modify k f [] = refl
  keys-modify k f ((i, w) ∷ d) = elim (Bool-cases (i == k)) [
    | inl p ↦ rw (p)
    | inr p ↦ rw (p) (ap (◌∷◌ i) (keys-modify k f d))
  ]

  pub Memᴰ_of_lookup : (k : K) {v : V} (d : Dict K V) → lookup k d ≡ some v → Memᴰ (k, v) d
  unfolding lookup
  Memᴰ_of_lookup k [] h = absurd (ground arith)
  Memᴰ_of_lookup k {v} ((i, w) ∷ d) h =
      ground (arith, e.beq_iff i k, Memᴰ_of_lookup k {v = v} d, Memᴰ-cons (k, v) (i, w) d)

  pub lookup_of_Memᴰ :
      (k : K) (v : V) (d : Dict K V) → Distinct d → Memᴰ (k, v) d → lookup k d ≡ some v
  unfolding lookup
  lookup_of_Memᴰ k v [] h m = absurd (Memᴰ.not-nil m)
  lookup_of_Memᴰ k v ((i, w) ∷ d) h m =
      ground (arith, e.beq_iff i k, lookup_of_Memᴰ k v d h.1, Memᴰ-cons (k, v) (i, w) d)

  pub Memᴰ-keys_of_lookup : (k : K) (d : Dict K V) → lookup k d ≢ none → Memᴰ k (keys d)
  unfolding lookup
  Memᴰ-keys_of_lookup k [] h = absurd (h refl)
  Memᴰ-keys_of_lookup k ((i, w) ∷ d) h = elim (Bool-cases (i == k)) [
    | inl p ↦ Memᴰ.head (sym ((e.beq_iff i k).0 p))
    | inr p ↦ Memᴰ.tail (Memᴰ-keys_of_lookup k d (λ gone. h (rw (p, lookup) gone)))
  ]

  -- What an entry is after a change in place.
  pub of_lookup-modify :
      (k j : K) (f : V → V) (d : Dict K V) (w : V)
      → lookup j (modify k f d) ≡ some w
      → (v : V) × (lookup j d ≡ some v) × (((k ≡ j) × (w ≡ f v)) ⊎ ((k ≢ j) × (w ≡ v)))
  of_lookup-modify k j f d w h = elim (Option-cases (lookup j d)) [
    | inl gone ↦ absurd (ground (arith, lookup-modify-none k j f d gone))
    | inr (v, at) ↦ (v, at, ground (arith, lookup-modify k j f d v at, e.beq_iff k j))
  ]

  -- What stands in a dictionary after a write stood in it before, or has the value written.
  pub Memᴰ_of-insert :
      (k : K) (v : V) (d : Dict K V) (x : K × V) → Memᴰ x (insert k v d) → (x.1 ≡ v) ⊎ Memᴰ x d
  unfolding insert
  Memᴰ_of-insert k v [] x m = elim ((Memᴰ-cons x (k, v) []).0 m) [
    | inl p ↦ inl (ap (λ y. y.1) p)
    | inr n ↦ absurd (Memᴰ.not-nil n)
  ]
  Memᴰ_of-insert k v ((j, w) ∷ d) x m = elim (Bool-cases (j == k)) [
    | inl same ↦ elim ((Memᴰ-cons x (j, v) d).0 (rw (same) at m)) [
      | inl p ↦ inl (ap (λ y. y.1) p)
      | inr n ↦ inr (Memᴰ.tail n)
    ]
    | inr other ↦ elim ((Memᴰ-cons x (j, w) (insert k v d)).0 (rw (other) at m)) [
      | inl p ↦ inr (Memᴰ.head p)
      | inr n ↦ elim (Memᴰ_of-insert k v d x n) [ inl p ↦ inl p | inr old ↦ inr (Memᴰ.tail old) ]
    ]
  ]

  pub lookup-insert_self : (k : K) (v : V) (d : Dict K V) → lookup k (insert k v d) ≡ some v
  lookup-insert_self k v d = lookup-insert k k v d ∙ rw (eq_self k) refl
