-- ===== src/Evolution/Current.antt =====
-- That `active_revisions` of src/local_coder/harness/evolution.py leaves out no kind and no tool that
-- is active.
use local_coding_agent.Base.{
  if◌then◌else◌, ◌≡◌, inl, inr, sym, ap, subst, ◌∙◌, String, string_eq, Bool, true, some, List, [],
  ◌∷◌, ◌==◌, option_eq, pair_eq, Memᴰ, arith, Bool-cases, eq→≡,
}
use mathlib.Core.List.Memᴰ
use local_coding_agent.Base.Dict.{
  Dict, lookup, insert, values, lookup-insert, lookup-insert_self, Memᴰ_of_lookup,
}
use local_coding_agent.Evolution.Order.{in_order_covers}
use local_coding_agent.Evolution.{
  active, Event, Revision, is_active, take_active, in_order, Store, candidate_of, validated_of,
  key_of, active_from, active_revisions,
}
use local_coding_agent.Evolution.Lifecycle.{only_if-some, and_then-some, some_injective}

module _ {P : Type 0} (hash : P → String) (is_id : String → Bool) (name_of : P → String) where
  stored_of_validated :
      (s : Store P) (id : String) (r : Revision P)
      → validated_of hash is_id name_of s id ≡ some r
      → lookup id s.revisions ≡ some r
  unfolding validated_of candidate_of
  stored_of_validated s id r h =
      let (c, found, passed) = and_then-some (candidate_of hash is_id name_of s id) _ r h in
      let (stored, at, checked) =
        and_then-some (lookup id s.revisions) _ c (only_if-some (is_id id) _ c found).1 in
      at
      ∙ (only_if-some (stored.digest == hash stored.payload) _ c checked).1
      ∙ (only_if-some _ _ r passed).1

  -- What stands under a key has that key.
  abbrev HasKeys : Dict (String × String) (Revision P) → Type 0
  HasKeys found =
      (k : String × String) (r : Revision P)
      → lookup k found ≡ some r
      → key_of hash is_id name_of r ≡ k

  abbrev Taken : String × String → Dict (String × String) (Revision P) → Type 0
  Taken k found = (r : Revision P) × (lookup k found ≡ some r)

  insert-HasKeys :
      (r : Revision P) (found : Dict (String × String) (Revision P))
      → HasKeys found
      → HasKeys (insert (key_of hash is_id name_of r) r found)
  insert-HasKeys r found h k x at =
      let key = key_of hash is_id name_of r in
      elim (Bool-cases (key == k)) [
        | inl same ↦
            let e : some r ≡ some x =
              sym
                (lookup-insert key k r found ∙ ap (λ b. if b then some r else lookup k found) same)
              ∙ at in
            ap (key_of hash is_id name_of) (sym (some_injective r x e)) ∙ eq→≡ key k same
        | inr other ↦ h k x (
            sym (lookup-insert key k r found ∙ ap (λ b. if b then some r else lookup k found) other)
            ∙ at)
      ]

  insert-Taken :
      (r : Revision P) (found : Dict (String × String) (Revision P)) (k : String × String)
      → Taken k found
      → Taken k (insert (key_of hash is_id name_of r) r found)
  insert-Taken r found k (x, at) =
      let key = key_of hash is_id name_of r in
      elim (Bool-cases (key == k)) [
        | inl same ↦
            (r, lookup-insert key k r found ∙ ap (λ b. if b then some r else lookup k found) same)
        | inr other ↦ (
          x,
          lookup-insert key k r found ∙ ap (λ b. if b then some r else lookup k found) other ∙ at,
        )
      ]

  take_active-HasKeys :
      (s : Store P) (e : Event) (found after : Dict (String × String) (Revision P))
      → take_active hash is_id name_of s e found ≡ some after
      → HasKeys found
      → HasKeys after
        × ((k : String × String) → Taken k found → Taken k after)
        × (is_active e.state ≡ true
            → (r : Revision P) × (validated_of hash is_id name_of s e.revision_id ≡ some r)
              × Taken (key_of hash is_id name_of r) after)
  take_active-HasKeys s e found after h keyed = elim (Bool-cases (is_active e.state)) [
    | inr off ↦
        let same = some_injective found after (rw (off) at h) in
        (
          subst HasKeys same keyed,
          (λ k t. subst (Taken k) same t),
          λ on. absurd (ground (arith, off, on)),
        )
    | inl on ↦
        let (r, passed, same) =
          and_then-some (validated_of hash is_id name_of s e.revision_id) _ after (rw (on) at h) in
        let written = some_injective _ after same in
        let key = key_of hash is_id name_of r in
        (
          subst HasKeys written (insert-HasKeys r found keyed),
          (λ k t. subst (Taken k) written (insert-Taken r found k t)),
          λ _. (r, passed, subst (Taken key) written (r, lookup-insert_self key r found)),
        )
  ]

  active_from_covers :
      (s : Store P) (events : List Event) (start found : Dict (String × String) (Revision P))
      → active_from hash is_id name_of s events start ≡ some found
      → HasKeys start
      → HasKeys found
        × ((k : String × String) → Taken k start → Taken k found)
        × ((e : Event)
            → Memᴰ e events
            → is_active e.state ≡ true
            → (r : Revision P) × (validated_of hash is_id name_of s e.revision_id ≡ some r)
              × Taken (key_of hash is_id name_of r) found)
  unfolding active_from
  active_from_covers s [] start found h keyed =
      let same = some_injective start found h in
      (subst HasKeys same keyed, (λ k t. subst (Taken k) same t), λ e m. absurd (Memᴰ.not-nil m))
  active_from_covers s (x ∷ events) start found h keyed =
      let (next, round, rest) =
        and_then-some (take_active hash is_id name_of s x start) _ found h in
      let (keyed', kept, taken) = take_active-HasKeys s x start next round keyed in
      let (keys, stays, covers) = active_from_covers s events next found rest keyed' in
      (
        keys,
        (λ k t. stays k (kept k t)),
        λ e m on. elim (Memᴰ.cases_cons m) [
          | inl here ↦
              let (r, valid, t) = taken (ap (λ y. is_active y.state) (sym here) ∙ on) in
              (
                r,
                ap (λ y. validated_of hash is_id name_of s y.revision_id) here ∙ valid,
                stays (key_of hash is_id name_of r) t,
              )
          | inr there ↦ covers e there on
        ],
      )

  pub active_revisions_covers :
      (s : Store P) (answer : List (Revision P)) (e : Event)
      → active_revisions hash is_id name_of s ≡ some answer
      → Memᴰ e s.events
      → e.state ≡ active
      → (r : Revision P) × (lookup e.revision_id s.revisions ≡ some r)
        × (current : Revision P) × Memᴰ current answer
        × (key_of hash is_id name_of current ≡ key_of hash is_id name_of r)
  unfolding active_revisions
  active_revisions_covers s answer e h m on =
      let (found, listed, same) =
        and_then-some (active_from hash is_id name_of s (in_order s.events) []) _ answer h in
      let (keys, stays, covers) =
        active_from_covers s (in_order s.events) [] found listed
          (λ k r at. absurd (unfold lookup in ground arith)) in
      let (r, valid, (current, at)) = covers e (in_order_covers e s.events m) (ap is_active on) in
      (
        r,
        stored_of_validated s e.revision_id r valid,
        current,
        subst (Memᴰ current) (some_injective (values found) answer same)
            (Memᴰ.map (λ (x : (String × String) × Revision P). x.1) (Memᴰ_of_lookup _ found at)),
        keys (key_of hash is_id name_of r) current at,
      )
