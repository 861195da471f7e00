-- ===== src/Base/LastEntry.antt =====
-- A dictionary whose newest entry stands last, as an `OrderedDict` with `move_to_end` keeps it.
use mathlib.Core.Path.{◌≡◌, refl, ap, ◌∙◌}
use mathlib.Core.Bool.{false}
use mathlib.Core.Logic.{inl, inr}
use mathlib.Core.Option.{none, some}
use mathlib.Core.List.{List, [], ◌∷◌, ◌++◌}
use Prim.Native.Nat.{suc, ◌+◌, ◌≤◌}
use native.Mathlib.Omega.{arith}
use local_coding_agent.Base.Tests.{Eq, ◌==◌, if◌then◌else◌, Bool-cases, eq_self}
use local_coding_agent.Base.Lists.{length, erase}
use local_coding_agent.Base.Dict.{
  Dict, Distinct, lookup, remove, keys, lookup-remove, remove-Distinct,
}

module _ {K V : Type 0} ⦃e : Eq K⦄ where
  pub lookup-snoc :
      (t k : K) (v : V) (d : Dict K V)
      → lookup t d ≡ none
      → lookup t (d ++ (k, v) ∷ []) ≡ (if k == t then some v else none)
  unfolding lookup
  lookup-snoc t k v [] h = refl
  lookup-snoc t k v ((j, w) ∷ d) h = ground (arith, lookup-snoc t k v d)

  pub lookup-snoc_other :
      (t k : K) (v : V) (d : Dict K V) → (k == t) ≡ false → lookup t (d ++ (k, v) ∷ []) ≡ lookup t d
  unfolding lookup
  lookup-snoc_other t k v [] h = ground arith
  lookup-snoc_other t k v ((j, w) ∷ d) h = ground (arith, lookup-snoc_other t k v d)

  pub Distinct-snoc :
      (k : K) (v : V) (d : Dict K V) → lookup k d ≡ none → Distinct d → Distinct (d ++ (k, v) ∷ [])
  unfolding lookup
  Distinct-snoc k v [] h u = (refl, tt)
  Distinct-snoc k v ((j, w) ∷ d) h u = (
    lookup-snoc_other j k v d (ground (arith, e.beq_iff k j, e.beq_iff j k)) ∙ u.0,
    Distinct-snoc k v d (ground arith) u.1,
  )

  keys-snoc : (k : K) (v : V) (d : Dict K V) → keys (d ++ (k, v) ∷ []) ≡ keys d ++ k ∷ []
  keys-snoc k v [] = refl
  keys-snoc k v ((j, w) ∷ d) = ap (◌∷◌ j) (keys-snoc k v d)

  keys-remove : (k : K) (d : Dict K V) → keys (remove k d) ≡ erase k (keys d)
  unfolding remove
  keys-remove k [] = refl
  keys-remove k ((j, w) ∷ d) = ground (arith, keys-remove k d, e.beq_iff k j, e.beq_iff j k)

  pub length-keys : (d : Dict K V) → length (keys d) ≡ length d
  length-keys [] = refl
  length-keys ((j, w) ∷ d) = ap suc (length-keys d)

  -- The entry of a key, written anew and moved to the end.
  abbrev pub renew : K → V → Dict K V → Dict K V
  renew k v d = remove k d ++ (k, v) ∷ []

  pub lookup-renew :
      (k t : K) (v : V) (d : Dict K V)
      → Distinct d
      → lookup t (renew k v d) ≡ (if k == t then some v else lookup t d)
  lookup-renew k t v d u = elim (Bool-cases (k == t)) [
    | inl here ↦
        rw (here)
          (lookup-snoc t k v (remove k d) (lookup-remove k t d u ∙ ground arith) ∙ ground arith)
    | inr other ↦
        rw (other)
          (lookup-snoc_other t k v (remove k d) other ∙ lookup-remove k t d u ∙ ground arith)
  ]

  pub renew-Distinct : (k : K) (v : V) (d : Dict K V) → Distinct d → Distinct (renew k v d)
  renew-Distinct k v d u =
      Distinct-snoc k v (remove k d) (lookup-remove k k d u ∙ rw (eq_self k) refl)
        (remove-Distinct k d u)

  pub keys-renew : (k : K) (v : V) (d : Dict K V) → keys (renew k v d) ≡ erase k (keys d) ++ k ∷ []
  keys-renew k v d = keys-snoc k v (remove k d) ∙ ap (λ ks. ks ++ k ∷ []) (keys-remove k d)

module _ {K : Type 0} ⦃e : Eq K⦄ where
  pub length-erase : (k : K) (ks : List K) → length ks ≤ length (erase k ks) + 1
  length-erase k [] = omega arith
  length-erase k (x ∷ ks) = ground (arith, length-erase k ks)
