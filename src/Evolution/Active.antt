-- ===== src/Evolution/Active.antt =====
-- What `active_revisions` of src/local_coder/harness/evolution.py answers.
use local_coding_agent.Base.{
  ◌≡◌, ◌⊎◌, inl, inr, refl, sym, ap, subst, ◌∙◌, String, string_eq, Bool, true, some, List, [], ◌∷◌,
  ◌==◌, option_eq, pair_eq, Memᴰ, arith, Bool-cases, eq→≡,
}
use mathlib.Core.List.Memᴰ
use local_coding_agent.Base.Dict.{Dict, Memᴰ_of-insert, lookup, insert, values}
use local_coding_agent.Evolution.Order.{HasPassed, passes-HasPassed, Memᴰ_of-in_order}
use local_coding_agent.Evolution.{
  State, active, Event, Revision, is_active, take_active, in_order, Store, candidate_of,
  validated_of, key_of, active_from, active_revisions,
}
use local_coding_agent.Evolution.Lifecycle.{only_if-some, and_then-some, some_injective}

module _ {P : Type 0} (hash : P → String) (is_id : String → Bool) (name_of : P → String) where
  -- An activation of the revision is recorded.
  abbrev pub IsActivated : String → List Event → Type 0
  IsActivated id events = (e : Event) × Memᴰ e events × (e.revision_id ≡ id) × (e.state ≡ active)

  -- A revision that is active.
  pub record IsActive (s : Store P) (r : Revision P) : Type 0 where
    pub id : String
    pub stored : lookup id s.revisions ≡ some r
    pub intact : r.digest ≡ hash r.payload
    pub evaluated : HasPassed r.digest id s.events
    pub recorded : IsActivated id s.events

  validated-IsActive :
      (s : Store P) (id : String) (r : Revision P)
      → IsActivated id s.events
      → validated_of hash is_id name_of s id ≡ some r
      → IsActive s r
  unfolding validated_of candidate_of
  validated-IsActive s id r recorded h =
      let (c, found, passed) = and_then-some (candidate_of hash is_id name_of s id) _ r h in
      let (ok, same) = only_if-some _ _ r passed in
      let (named, there) = only_if-some (is_id id) _ c found in
      let (stored, at, checked) = and_then-some (lookup id s.revisions) _ c there in
      let (intact, same') = only_if-some (stored.digest == hash stored.payload) _ c checked in
      subst (IsActive s) (some_injective c r same) (
        subst (IsActive s) (some_injective stored c same') (record {
          id = id;
          stored = at;
          intact = eq→≡ stored.digest (hash stored.payload) intact;
          evaluated =
              subst (λ (x : Revision P). HasPassed x.digest id s.events)
                (sym (some_injective stored c same')) (passes-HasPassed c.digest id s.events ok);
          recorded = recorded;
        }))

  is_active_lem : (state : State) → is_active state ≡ true → state ≡ active
  is_active_lem state h = ground arith

  take_active_lem :
      (s : Store P) (e : Event) (found after : Dict (String × String) (Revision P))
      (entry : (String × String) × Revision P)
      → take_active hash is_id name_of s e found ≡ some after
      → Memᴰ entry after
      → Memᴰ entry found
        ⊎ ((e.state ≡ active) × (validated_of hash is_id name_of s e.revision_id ≡ some entry.1))
  take_active_lem s e found after entry h m = elim (Bool-cases (is_active e.state)) [
    | inr off ↦ inl (subst (Memᴰ entry) (sym (some_injective found after (rw (off) at h))) m)
    | inl on ↦
        let (r, passed, same) =
          and_then-some (validated_of hash is_id name_of s e.revision_id) _ after (rw (on) at h) in
        let written : Memᴰ entry (insert (key_of hash is_id name_of r) r found) =
          subst (Memᴰ entry) (sym (some_injective _ after same)) m in
        elim (Memᴰ_of-insert (key_of hash is_id name_of r) r found entry written) [
          | inl new ↦ inr (is_active_lem e.state on, passed ∙ ap some (sym new))
          | inr old ↦ inl old
        ]
  ]

  active_from_lem :
      (s : Store P) (events : List Event) (start found : Dict (String × String) (Revision P))
      (entry : (String × String) × Revision P)
      → active_from hash is_id name_of s events start ≡ some found
      → Memᴰ entry found
      → Memᴰ entry start
        ⊎ ((id : String) × IsActivated id events
            × (validated_of hash is_id name_of s id ≡ some entry.1))
  unfolding active_from
  active_from_lem s [] start found entry h m =
      inl (subst (Memᴰ entry) (sym (some_injective start found h)) m)
  active_from_lem s (e ∷ events) start found entry h m =
      let (next, round, rest) =
        and_then-some (take_active hash is_id name_of s e start) _ found h in
      elim (active_from_lem s events next found entry rest m) [
        | inr (id, (a, there, own, on), valid) ↦ inr (id, (a, Memᴰ.tail there, own, on), valid)
        | inl before ↦ elim (take_active_lem s e start next entry round before) [
          | inl old ↦ inl old
          | inr (on, valid) ↦ inr (e.revision_id, (e, Memᴰ.head refl, refl, on), valid)
        ]
      ]

  pub active_revisions_lem :
      (s : Store P) (answer : List (Revision P)) (r : Revision P)
      → active_revisions hash is_id name_of s ≡ some answer
      → Memᴰ r answer
      → IsActive s r
  unfolding active_revisions
  active_revisions_lem s answer r h m =
      let (found, listed, same) =
        and_then-some (active_from hash is_id name_of s (in_order s.events) []) _ answer h in
      let (entry, there, is) =
        Memᴰ.of_map (λ (e : (String × String) × Revision P). e.1) found
          (subst (Memᴰ r) (sym (some_injective (values found) answer same)) m) in
      elim (active_from_lem s (in_order s.events) [] found entry listed there) [
        | inl nowhere ↦ absurd (Memᴰ.not-nil nowhere)
        | inr (id, (a, at, own, on), valid) ↦
            let recorded : IsActivated id s.events = (a, Memᴰ_of-in_order a s.events at, own, on) in
            subst (IsActive s) is (validated-IsActive s id entry.1 recorded valid)
      ]
