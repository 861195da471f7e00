-- ===== src/Triage/Dedupe.antt =====
-- What deduplication keeps of each finding.
use mathlib.Core.List.Memᴰ
use local_coding_agent.Base.{
  ℕ, ◌≤◌, String, ◌≡◌, refl, sym, ◌∙◌, inl, inr, Option, none, some, List, [], ◌∷◌, Memᴰ, ◌==◌,
  string_eq, int_eq, pair_eq, ltb, arith, Bool-cases, eq_self, subst, ap,
}
use local_coding_agent.Base.Dict.{
  Dict, Distinct, lookup, insert, values, lookup-insert, lookup_of_Memᴰ, insert-Distinct,
}
use local_coding_agent.Triage.{
  ScanFinding, Location, location_eq, severity_rank, at, keep, join, collect, dedupe,
}

module _ (merged : List String → List String → List String) where
  abbrev place : ScanFinding → Location
  place = at merged

  abbrev rank : ScanFinding → ℕ
  rank f = severity_rank f.severity

  -- Every entry is at its own location.
  abbrev Keyed : Dict Location ScanFinding → Type 0
  Keyed d = (l : Location) (f : ScanFinding) → lookup l d ≡ some f → place f ≡ l

  abbrev joined : ScanFinding → Dict Location ScanFinding → ScanFinding
  joined g d = join merged g (lookup (place g) d)

  keep-rank :
      (g c : ScanFinding) → (rank (keep merged g c) ≤ rank g) × (rank (keep merged g c) ≤ rank c)
  keep-rank g c = elim (Bool-cases (ltb (rank g) (rank c))) [
    | inl p ↦ rw (p) (omega arith, ground arith)
    | inr p ↦ rw (p) (ground arith, omega arith)
  ]

  at-keep : (g c : ScanFinding) → place c ≡ place g → place (keep merged g c) ≡ place g
  at-keep g c h = elim (Bool-cases (ltb (rank g) (rank c))) [
    | inl p ↦ rw (p) refl
    | inr p ↦ rw (p) h
  ]

  -- What stands at a finding's location after its turn.
  joined_lem :
      (g : ScanFinding) (d : Dict Location ScanFinding)
      → Keyed d
      → (place (joined g d) ≡ place g) × (rank (joined g d) ≤ rank g)
  joined_lem g d k = by_current (lookup (place g) d) refl
    where
      by_current :
          (o : Option ScanFinding)
          → lookup (place g) d ≡ o
          → (place (join merged g o) ≡ place g) × (rank (join merged g o) ≤ rank g)
      by_current none e = (refl, omega arith)
      by_current (some c) e = (at-keep g c (k (place g) c e), (keep-rank g c).0)

  insert-Keyed :
      (g : ScanFinding) (d : Dict Location ScanFinding)
      → Keyed d
      → Keyed (insert (place g) (joined g d) d)
  insert-Keyed g d k l f h = elim (Bool-cases (place g == l)) [
    | inl same ↦
        let e : some (joined g d) ≡ some f =
          ground (arith, lookup-insert (place g) l (joined g d) d) in
        ground (arith, e, (joined_lem g d k).0, location_eq.beq_iff (place g) l)
    | inr other ↦ k l f (ground (arith, lookup-insert (place g) l (joined g d) d))
  ]

  -- The worst finding at a location is never replaced by a lesser one.
  abbrev Has : Location → ℕ → Dict Location ScanFinding → Type 0
  Has l n d = (f : ScanFinding) × (lookup l d ≡ some f) × (rank f ≤ n)

  insert-Has :
      (g : ScanFinding) (d : Dict Location ScanFinding) (l : Location) (n : ℕ)
      → Has l n d
      → Has l n (insert (place g) (joined g d) d)
  insert-Has g d l n (f, here, le) = elim (Bool-cases (place g == l)) [
    | inl same ↦ (
      keep merged g f,
      ground (arith, lookup-insert (place g) l (joined g d) d, location_eq.beq_iff (place g) l),
      omega (arith, (keep-rank g f).1, le),
    )
    | inr other ↦ (f, ground (arith, lookup-insert (place g) l (joined g d) d), le)
  ]

  collect-Has :
      (fs : List ScanFinding) (d : Dict Location ScanFinding) (l : Location) (n : ℕ)
      → Has l n d
      → Has l n (collect merged fs d)
  unfolding collect
  collect-Has [] d l n h = h
  collect-Has (g ∷ fs) d l n h =
      collect-Has fs (insert (place g) (joined g d) d) l n (insert-Has g d l n h)

  collect-covers :
      (fs : List ScanFinding) (d : Dict Location ScanFinding) (g : ScanFinding)
      → Keyed d
      → Memᴰ g fs
      → Has (place g) (rank g) (collect merged fs d)
  unfolding collect
  collect-covers [] d g k m = absurd (Memᴰ.not-nil m)
  collect-covers (x ∷ fs) d g k m = elim (Memᴰ.cases_cons m) [
    | inl here ↦
        subst
          (λ (y : ScanFinding).
            Has (place y) (rank y) (collect merged fs (insert (place x) (joined x d) d)))
          (sym here)
          (collect-Has fs (insert (place x) (joined x d) d) (place x) (rank x) (
            joined x d,
            lookup-insert (place x) (place x) (joined x d) d ∙ rw (eq_self (place x)) refl,
            (joined_lem x d k).1,
          ))
    | inr later ↦ collect-covers fs (insert (place x) (joined x d) d) g (insert-Keyed x d k) later
  ]

  collect-Keyed :
      (fs : List ScanFinding) (d : Dict Location ScanFinding)
      → Keyed d
      → Keyed (collect merged fs d)
  unfolding collect
  collect-Keyed [] d k = k
  collect-Keyed (x ∷ fs) d k =
      collect-Keyed fs (insert (place x) (joined x d) d) (insert-Keyed x d k)

  Memᴰ-values :
      (l : Location) (f : ScanFinding) (d : Dict Location ScanFinding)
      → lookup l d ≡ some f
      → Memᴰ f (values d)
  unfolding lookup
  Memᴰ-values l f [] h = absurd (ground arith)
  Memᴰ-values l f ((k, x) ∷ d) h = elim (Bool-cases (k == l)) [
    | inl p ↦ Memᴰ.head (ground arith)
    | inr p ↦ Memᴰ.tail (Memᴰ-values l f d (ground arith))
  ]

  collect-Distinct :
      (fs : List ScanFinding) (d : Dict Location ScanFinding)
      → Distinct d
      → Distinct (collect merged fs d)
  unfolding collect
  collect-Distinct [] d u = u
  collect-Distinct (x ∷ fs) d u =
      collect-Distinct fs (insert (place x) (joined x d) d)
        (insert-Distinct (place x) (joined x d) d u)

  abbrev pub SamePlace : ScanFinding → ScanFinding → Type 0
  SamePlace f g = (f.path ≡ g.path) × (f.line ≡ g.line)

  -- No two of the findings are at one path and line.
  abbrev pub AreApart : List ScanFinding → Type 0
  AreApart [] = Unit
  AreApart (f ∷ fs) = ((g : ScanFinding) → Memᴰ g fs → ¬ SamePlace f g) × AreApart fs

  -- An entry under another key than the first
  lookup_later :
      (l k : Location) (f g : ScanFinding) (d : Dict Location ScanFinding)
      → lookup l d ≡ none
      → lookup k d ≡ some g
      → lookup k ((l, f) ∷ d) ≡ some g
  unfolding lookup
  lookup_later l k f g d gone at = elim (Bool-cases (l == k)) [
    | inl same ↦
        let e : l ≡ k = (location_eq.beq_iff l k).0 same in
        absurd (ground (arith, sym gone ∙ ap (λ x. lookup x d) e ∙ at))
    | inr other ↦ rw (other) at
  ]

  values-AreApart : (d : Dict Location ScanFinding) → Distinct d → Keyed d → AreApart (values d)
  values-AreApart [] u k = tt
  values-AreApart ((l, f) ∷ d) u k = (
    λ g m same.
        let (entry, there, is) = Memᴰ.of_map (λ (e : Location × ScanFinding). e.1) d m in
        let at : lookup entry.0 d ≡ some g =
          lookup_of_Memᴰ entry.0 entry.1 d u.1 there ∙ ap some is in
        let own : place g ≡ entry.0 = k entry.0 g (lookup_later l entry.0 f g d u.0 at) in
        let first : place f ≡ l = k l f (first_entry l f d) in
        let joint : l ≡ entry.0 =
          sym first ∙ ap (λ p. (p, f.line)) same.0 ∙ ap (λ n. (g.path, n)) same.1 ∙ own in
        absurd (ground (arith, sym u.0 ∙ ap (λ x. lookup x d) joint ∙ at)),
    values-AreApart d u.1 (λ x g at. k x g (lookup_later l x f g d u.0 at)),
  )
    where
      first_entry :
          (l : Location) (f : ScanFinding) (d : Dict Location ScanFinding)
          → lookup l ((l, f) ∷ d) ≡ some f
      first_entry l f d = unfold lookup in rw (eq_self l) refl

  -- At most one finding is left of those at one path and line, and none is lost: for each there is
  -- one in the result at its path and line that is at least as severe.
  pub dedupe_lem :
      (findings : List ScanFinding) (g : ScanFinding)
      → Memᴰ g findings
      → AreApart (dedupe merged findings)
        × (f : ScanFinding) × Memᴰ f (dedupe merged findings)
        × (f.path ≡ g.path)
        × (f.line ≡ g.line)
        × (severity_rank f.severity ≤ severity_rank g.severity)
  unfolding dedupe lookup
  dedupe_lem findings g m =
      let nothing : Keyed [] = λ l f h. absurd (ground arith) in
      let keyed = collect-Keyed findings [] nothing in
      let (f, here, le) = collect-covers findings [] g nothing m in
      let same : place f ≡ place g = keyed (place g) f here in
      (
        values-AreApart (collect merged findings []) (collect-Distinct findings [] tt) keyed,
        f,
        Memᴰ-values (place g) f (collect merged findings []) here,
        ap (λ l. l.0) same,
        ap (λ l. l.1) same,
        le,
      )
