-- ===== src/Scheduler/Dag/Visit.antt =====
-- What a call of `visit` does, whatever the plan: it returns, it reports only true cycles, and
-- where it reports nothing it has shown its task to be grounded.
use mathlib.Core.WellFounded.{Acc}
use mathlib.Core.List.Memᴰ
use local_coding_agent.Base.{
  ℕ, zero, suc, ◌≤◌, ◌<◌, String, ◌≡◌, ◌≢◌, refl, sym, subst, ◌⊎◌, inl, inr, ⊎_elim, ◌∙◌, true,
  false, Option, none, some, List, [], ◌∷◌, Memᴰ, arith, contains, contains_iff, Bool-cases,
  string_eq, length, length-append, erase, eq_self,
}
use local_coding_agent.Base.Dict.{lookup}
use local_coding_agent.Scheduler.Dag.{
  Nodes, missing, cycle, Search, deps_at, deps_of, visit_all, enter, leave, report, visit,
}
use local_coding_agent.Scheduler.Dag.Relation.{
  DependsOn, Chain, one, prepend, Grounded, unseen, unseen-le, unseen-lt,
}

module _ (nodes : Nodes) where
  -- `t` is a direct or indirect dependency of all that stands on the path.
  abbrev pub Below : String → List String → Type 0
  Below t path = (p : String) → Memᴰ p path → Chain nodes t p

  -- Each reported cycle is one.
  abbrev pub Sound : Search → Type 0
  Sound s = (c : String) → Memᴰ (cycle c) s.errors → Chain nodes c c

  -- What is visited and done is grounded.
  abbrev pub Safe : Search → Type 0
  Safe s = (v : String) → Memᴰ v s.visited → Memᴰ v s.path ⊎ Grounded nodes v

  -- From `s` the visits of `ts` led to `s'`.
  pub record Visits (ts : List String) (s s' : Search) : Type 0 where
    pub path : s'.path ≡ s.path
    pub grows : (v : String) → Memᴰ v s.visited → Memᴰ v s'.visited
    pub adds : length s.errors ≤ length s'.errors
    pub sound : Sound s → Sound s'
    pub kept : (a b : String) → Memᴰ (missing a b) s'.errors → Memᴰ (missing a b) s.errors
    pub safe :
        length s'.errors ≡ length s.errors
        → Safe s
        → Safe s' × ((t : String) → Memᴰ t ts → Grounded nodes t)

  Visits-refl : (s : Search) → Visits [] s s
  Visits-refl s = record {
    path = refl;
    grows = λ v m. m;
    adds = omega arith;
    sound = λ h. h;
    kept = λ a b m. m;
    safe = λ e h. (h, λ t m. absurd (Memᴰ.not-nil m));
  }

  Visits-trans :
      {t : String} {ts : List String} {s u w : Search}
      → Visits (t ∷ []) s u
      → Visits ts u w
      → Visits (t ∷ ts) s w
  Visits-trans {t} {ts} {s} {u} {w} a b = record {
    path = b.path ∙ a.path;
    grows = λ v m. b.grows v (a.grows v m);
    adds = omega (arith, a.adds, b.adds);
    sound = λ h. b.sound (a.sound h);
    kept = λ x y m. a.kept x y (b.kept x y m);
    safe = λ e h.
        let one_t = a.safe (omega (arith, a.adds, b.adds)) h in
        let all_ts = b.safe (omega (arith, a.adds, b.adds)) one_t.0 in
        (all_ts.0, λ v m. ⊎_elim (λ p. one_t.1 v (Memᴰ.head p)) (all_ts.1 v) (Memᴰ.cases_cons m));
  }

  -- The task stands on the path: the chain from it comes back to it.
  Visits-report :
      (t : String) (s : Search) → Below t s.path → Memᴰ t s.path → Visits (t ∷ []) s (report t s)
  Visits-report t s below on_path = record {
    path = refl;
    grows = λ v m. m;
    adds = omega (arith, length-append s.errors (cycle t ∷ []));
    sound = λ h c m.
        ⊎_elim (h c) (λ m'. cycle_of t c (Memᴰ.eq_of_singleton m') (below t on_path))
          (Memᴰ.append_cases s.errors m);
    kept = λ a b m.
        ⊎_elim (λ m'. m') (λ m'. absurd (not_missing a b t (Memᴰ.eq_of_singleton m')))
          (Memᴰ.append_cases s.errors m);
    safe = λ e h. absurd (omega (arith, length-append s.errors (cycle t ∷ [])));
  }
    where
      cycle_of : (t c : String) → cycle c ≡ cycle t → Chain nodes t t → Chain nodes c c
      cycle_of t c e h = let p : t ≡ c = cc in subst (λ x. Chain nodes x x) p h

      not_missing : (a b t : String) → missing a b ≡ cycle t → ⊥
      not_missing a b t e = cc

  -- The task was visited before, and is off the path: it is grounded.
  Visits-old :
      (t : String) (s : Search)
      → contains t s.path ≡ false
      → contains t s.visited ≡ true
      → Visits (t ∷ []) s s
  Visits-old t s off old = record {
    path = refl;
    grows = λ v m. m;
    adds = omega arith;
    sound = λ h. h;
    kept = λ a b m. m;
    safe = λ e h. (
      h,
      λ v m.
          let here : v ≡ t = Memᴰ.eq_of_singleton m in
          ⊎_elim (λ on. cc (off, (contains_iff t s.path).1 (subst (λ x. Memᴰ x s.path) here on)))
            (λ g. g)
            (h v (subst (λ x. Memᴰ x s.visited) (sym here) ((contains_iff t s.visited).0 old))),
    );
  }

  -- The task is new: its dependencies are visited with the task on the path.
  Visits-new :
      (t : String) (s u : Search)
      → Visits (deps_of nodes t) (enter t s) u
      → Visits (t ∷ []) s (leave t u)
  Visits-new t s u h = record {
    path = path_back;
    grows = λ v m. h.grows v (Memᴰ.tail m);
    adds = h.adds;
    sound = h.sound;
    kept = h.kept;
    safe = λ e start.
        let inner = h.safe e (entered start) in
        let grounded : Grounded nodes t = Acc.intro t (λ d m. inner.1 d m) in
        (
          λ v m.
              ⊎_elim
                (λ p.
                  ⊎_elim (λ here. inr (subst (Grounded nodes) (sym here) grounded))
                    (λ on. inl (subst (Memᴰ v) (sym path_back) on))
                    (Memᴰ.cases_cons (subst (Memᴰ v) h.path p)))
                inr (inner.0 v m),
          λ v m. subst (Grounded nodes) (sym (Memᴰ.eq_of_singleton m)) grounded,
        );
  }
    where
      path_back : erase t u.path ≡ s.path
      path_back = rw (h.path, eq_self t)

      entered : Safe s → Safe (enter t s)
      entered start v m =
          ⊎_elim (λ here. inl (Memᴰ.head here))
            (λ old. ⊎_elim (λ on. inl (Memᴰ.tail on)) inr (start v old)) (Memᴰ.cases_cons m)

  -- The outcome of a call.
  abbrev pub Returns : Option Search → List String → Search → Type 0
  Returns r ts s = (s' : Search) × (r ≡ some s') × Visits ts s s'

  abbrev Visiting : ℕ → (String → Search → Option Search) → Type 0
  Visiting f go =
      (t : String) (s : Search)
      → unseen s.visited nodes < f
      → Below t s.path
      → Returns (go t s) (t ∷ []) s

  pub visit_all_lem :
      (f : ℕ) (go : String → Search → Option Search)
      → Visiting f go
      → (ts : List String) (s : Search)
      → ((t : String) → Memᴰ t ts → (unseen s.visited nodes < f) × Below t s.path)
      → Returns (visit_all go ts s) ts s
  unfolding visit_all
  visit_all_lem f go step [] s h = (s, refl, Visits-refl s)
  visit_all_lem f go step (t ∷ ts) s h =
      let (u, e, v) = step t s (h t (Memᴰ.head refl)).0 (h t (Memᴰ.head refl)).1 in
      let less = unseen-le s.visited u.visited nodes v.grows in
      let (w, e', v') = visit_all_lem f go step ts u (λ x m. (
        omega (arith, (h x (Memᴰ.tail m)).0, less),
        subst (Below x) (sym v.path) (h x (Memᴰ.tail m)).1,
      )) in
      (w, rw (e, visit_all) e', Visits-trans v v')

  -- A dependency is below all that its task is below, and the task itself.
  Below-dep :
      (t d : String) (path : List String) → DependsOn nodes d t → Below t path → Below d (t ∷ path)
  Below-dep t d path dep h p m =
      ⊎_elim (λ here. subst (Chain nodes d) (sym here) (one dep)) (λ on. prepend dep (h p on))
        (Memᴰ.cases_cons m)

  -- A task with a dependency is a key of the dictionary.
  pub dep-lookup : (t d : String) → DependsOn nodes d t → lookup t nodes ≢ none
  dep-lookup t d m e = Memᴰ.not-nil (subst (λ o. Memᴰ d (deps_at o)) e m)

  -- With fuel above the number of keys not yet visited, `visit` returns.
  pub visit_lem : (f : ℕ) → Visiting f (visit f nodes)
  unfolding visit
  visit_lem zero t s h below = absurd (omega arith)
  visit_lem (suc f) t s h below = elim (Bool-cases (contains t s.path)) [
    | inl on ↦ (report t s, rw on, Visits-report t s below ((contains_iff t s.path).0 on))
    | inr off ↦ elim (Bool-cases (contains t s.visited)) [
      | inl old ↦ (s, rw (off, old), Visits-old t s off old)
      | inr new ↦
          let (u, e, v) =
            visit_all_lem f (visit f nodes) (visit_lem f) (deps_of nodes t) (enter t s) (λ d m. (
              omega (arith, unseen-lt t s.visited nodes new (dep-lookup t d m)),
              Below-dep t d s.path m below,
            )) in
          (leave t u, rw (off, new, e), Visits-new t s u v)
    ]
  ]
