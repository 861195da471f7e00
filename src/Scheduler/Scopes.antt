-- ===== src/Scheduler/Scopes.antt =====
-- `_parallelism_for_wave` of src/local_coder/orchestrator/coordinator.py. A path is the list of its
-- parts; the resolution of a name in the workspace, which may refuse it, is a parameter.
pub mod Disjoint
use local_coding_agent.Base.{
  ℕ, max, String, string_eq, Bool, true, false, not, ◌&&◌, ◌||◌, Option, none, some, List, [], ◌∷◌,
  ◌++◌, if◌then◌else◌, ◌==◌, contains, any, filter,
}

abbrev pub FilePath : Type 0
FilePath = List String

pub record ScopedTask : Type 0 where
  pub role : String
  pub files : List String

abbrev pub mutating_roles : List String
mutating_roles = "coder" ∷ "debugger" ∷ "tester" ∷ "bug_hunter" ∷ []

-- `left.is_relative_to(right)`, of which equality is a case
abbrev pub is_relative_to : FilePath → FilePath → Bool
is_relative_to left [] = true
is_relative_to [] (r ∷ right) = false
is_relative_to (l ∷ left) (r ∷ right) = l == r && is_relative_to left right

abbrev pub overlaps : FilePath → FilePath → Bool
overlaps left right = is_relative_to left right || is_relative_to right left

abbrev pub has_no_files : ScopedTask → Bool
has_no_files task = elim task.files [ [] ↦ true | _ ∷ _ ↦ false ]

abbrev pub mutating : List ScopedTask → List ScopedTask
mutating = filter (λ task. contains task.role mutating_roles)

abbrev pub is_nil : List ScopedTask → Bool
is_nil [] = true
is_nil (_ ∷ _) = false

module _ (resolve : String → Option FilePath) where
  abbrev pub cons_path : Option FilePath → Option (List FilePath) → Option (List FilePath)
  cons_path (some path) (some paths) = some (path ∷ paths)
  cons_path _ _ = none

  -- `{workspace.resolve(path) for path in task.files}`
  unfoldable pub file_scope : List String → Option (List FilePath)
  file_scope [] = some []
  file_scope (name ∷ names) = cons_path (resolve name) (file_scope names)

  abbrev pub touches : List FilePath → List FilePath → Bool
  touches scope seen = any (λ left. any (overlaps left) seen) scope

  abbrev pub go_on : List FilePath → Option (List FilePath) → (List FilePath → Bool) → Bool
  go_on seen none rest = false
  go_on seen (some scope) rest = if touches scope seen then false else rest (scope ++ seen)

  -- The loop over the mutating tasks, which ends early with the answer 1.
  unfoldable pub are_disjoint : List ScopedTask → List FilePath → Bool
  unfolding file_scope
  are_disjoint [] seen = true
  are_disjoint (task ∷ tasks) seen =
      go_on seen (file_scope task.files) (λ seen. are_disjoint tasks seen)

  unfoldable pub parallelism_for_wave : ℕ → List ScopedTask → ℕ
  unfolding are_disjoint
  parallelism_for_wave max_parallel_agents tasks =
      let configured = max 1 max_parallel_agents in
      let changing = mutating tasks in
      if is_nil changing
      then configured
      else if any has_no_files changing
      then 1
      else if are_disjoint changing []
      then configured
      else 1
