-- ===== src/Scheduler/Scopes/Disjoint.antt =====
-- When a wave of src/local_coder/orchestrator/coordinator.py may run in parallel.
use local_coding_agent.Base.{
  ℕ, ◌<◌, ◌≡◌, ◌⊎◌, inl, inr, refl, sym, ap, subst, ◌∙◌, String, Bool, true, false, Option, none,
  some, List, [], ◌∷◌, ◌++◌, any, Memᴰ, Memᴰ-cons, Memᴰ-append, arith, Bool-cases, Option-cases,
  or_false,
}
use mathlib.Core.List.Memᴰ
use local_coding_agent.Scheduler.Scopes.{
  FilePath, ScopedTask, overlaps, has_no_files, mutating, is_nil, cons_path, file_scope, touches,
  are_disjoint, parallelism_for_wave,
}

any-false :
    {A : Type 0} (p : A → Bool) (xs : List A) (a : A) → any p xs ≡ false → Memᴰ a xs → p a ≡ false
any-false p [] a h m = absurd (Memᴰ.not-nil m)
any-false p (x ∷ xs) a h m =
    let (first, rest) = or_false (p x) (any p xs) h in
    elim ((Memᴰ-cons a x xs).0 m) [
      | inl same ↦ ap p same ∙ first
      | inr later ↦ any-false p xs a rest later
    ]

some_path : (p q : FilePath) → some p ≡ some q → p ≡ q
some_path p q h = ground arith

nil_of : (tasks : List ScopedTask) → is_nil tasks ≡ true → tasks ≡ []
nil_of [] h = refl
nil_of (t ∷ ts) h = absurd (ground arith)

module _ (resolve : String → Option FilePath) where
  -- A task whose files are all within the workspace.
  abbrev pub HasScope : ScopedTask → Type 0
  HasScope task =
      (name : String) → Memᴰ name task.files → (path : FilePath) × (resolve name ≡ some path)

  -- No file of the second task is, contains or lies within one of the first.
  abbrev pub AreApart : ScopedTask → ScopedTask → Type 0
  AreApart task next =
      (name other : String) (path place : FilePath)
      → Memᴰ name task.files
      → Memᴰ other next.files
      → resolve name ≡ some path
      → resolve other ≡ some place
      → overlaps place path ≡ false

  abbrev pub AreDisjoint : List ScopedTask → Type 0
  AreDisjoint [] = Unit
  AreDisjoint (task ∷ tasks) =
      (HasScope task × ((next : ScopedTask) → Memᴰ next tasks → AreApart task next))
      × AreDisjoint tasks

  cons_path-some :
      (o : Option FilePath) (os : Option (List FilePath)) (scope : List FilePath)
      → cons_path resolve o os ≡ some scope
      → (path : FilePath) × (paths : List FilePath) × (o ≡ some path)
        × (os ≡ some paths)
        × (scope ≡ path ∷ paths)
  cons_path-some none os scope h = absurd (ground arith)
  cons_path-some (some path) none scope h = absurd (ground arith)
  cons_path-some (some path) (some paths) scope h = (path, paths, refl, refl, ground arith)

  file_scope_lem :
      (names : List String) (scope : List FilePath) (name : String)
      → file_scope resolve names ≡ some scope
      → Memᴰ name names
      → (path : FilePath) × (resolve name ≡ some path) × Memᴰ path scope
  unfolding file_scope
  file_scope_lem [] scope name h m = absurd (Memᴰ.not-nil m)
  file_scope_lem (n ∷ names) scope name h m =
      let (path, paths, first, rest, whole) =
        cons_path-some (resolve n) (file_scope resolve names) scope h in
      elim ((Memᴰ-cons name n names).0 m) [
        | inl same ↦ (path, ap resolve same ∙ first, subst (Memᴰ path) (sym whole) (Memᴰ.head refl))
        | inr later ↦
            let (found, at, there) = file_scope_lem names paths name rest later in
            (found, at, subst (Memᴰ found) (sym whole) (Memᴰ.tail there))
      ]

  scoped :
      (names : List String) (scope : List FilePath) (name : String) (path : FilePath)
      → file_scope resolve names ≡ some scope
      → Memᴰ name names
      → resolve name ≡ some path
      → Memᴰ path scope
  scoped names scope name path h m at =
      let (found, at', there) = file_scope_lem names scope name h m in
      subst (λ p. Memᴰ p scope) (some_path found path (sym at' ∙ at)) there

  -- The files of the tasks lie apart from the paths seen before.
  abbrev FromSeen : List ScopedTask → List FilePath → Type 0
  FromSeen tasks seen =
      (next : ScopedTask) (other : String) (place path : FilePath)
      → Memᴰ next tasks
      → Memᴰ other next.files
      → resolve other ≡ some place
      → Memᴰ path seen
      → overlaps place path ≡ false

  are_disjoint_lem :
      (tasks : List ScopedTask) (seen : List FilePath)
      → are_disjoint resolve tasks seen ≡ true
      → AreDisjoint tasks × FromSeen tasks seen
  unfolding are_disjoint
  are_disjoint_lem [] seen h = (tt, λ next other place path m. absurd (Memᴰ.not-nil m))
  are_disjoint_lem (task ∷ tasks) seen h = elim (Option-cases (file_scope resolve task.files)) [
    | inl refused ↦ absurd (ground (arith, refused, h))
    | inr (scope, found) ↦ elim (Bool-cases (touches resolve scope seen)) [
      | inl touched ↦ absurd (ground (arith, (rw (found, touched) at h)))
      | inr apart ↦
          let (later, from) = are_disjoint_lem tasks (scope ++ seen) (rw (found, apart) at h) in
          (
            (
              (
                (λ name m.
                    let (path, at, there) = file_scope_lem task.files scope name found m in
                    (path, at)),
                (λ next there name other path place m n at at'.
                    from next other place path there n at' (
                      (Memᴰ-append path scope seen).1
                        (inl (scoped task.files scope name path found m at)))),
              ),
              later,
            ),
            (λ next other place path m n at old. elim ((Memᴰ-cons next task tasks).0 m) [
              | inl same ↦
                  let here : Memᴰ place scope =
                    scoped task.files scope other place found
                      (subst (λ t. Memᴰ other t.files) same n) at in
                  any-false (overlaps place) seen path
                    (any-false (λ left. any (overlaps left) seen) scope place apart here) old
              | inr more ↦
                  from next other place path more n at ((Memᴰ-append path scope seen).1 (inr old))
            ]),
          )
    ]
  ]

  pub parallelism_for_wave_lem :
      (max_parallel_agents : ℕ) (tasks : List ScopedTask)
      → 1 < parallelism_for_wave resolve max_parallel_agents tasks
      → (mutating tasks ≡ [])
        ⊎ ((any has_no_files (mutating tasks) ≡ false) × AreDisjoint (mutating tasks))
  unfolding parallelism_for_wave
  parallelism_for_wave_lem max_parallel_agents tasks h =
      elim (Bool-cases (is_nil (mutating tasks))) [
        | inl nothing ↦ inl (nil_of (mutating tasks) nothing)
        | inr some_tasks ↦ elim (Bool-cases (any has_no_files (mutating tasks))) [
          | inl open_ ↦ absurd (ground (arith, (rw (some_tasks, open_) at h)))
          | inr named ↦ elim (Bool-cases (are_disjoint resolve (mutating tasks) [])) [
            | inl apart ↦ inr (named, (are_disjoint_lem (mutating tasks) [] apart).0)
            | inr overlapping ↦ absurd (ground (arith, (rw (some_tasks, named, overlapping) at h)))
          ]
        ]
      ]
