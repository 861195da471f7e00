-- ===== src/Examples/Waves.antt =====
-- Two coders whose files lie apart, and an explorer.
use local_coding_agent.Base.{
  ◌≡◌, ◌⊎◌, ◌<◌, refl, String, string_eq, false, Option, some, none, List, [], ◌∷◌, any,
  if◌then◌else◌, ◌==◌, arith,
}
use local_coding_agent.Scheduler.Scopes.{
  FilePath, ScopedTask, mutating, has_no_files, file_scope, are_disjoint, parallelism_for_wave,
}
use local_coding_agent.Scheduler.Scopes.Disjoint.{AreDisjoint, parallelism_for_wave_lem}

-- A workspace in which every name but one is a file of the folder "src".
abbrev in_src : String → Option FilePath
in_src name =
    if name == "/etc"
    then none
    else if name == "src"
    then some ("src" ∷ [])
    else some ("src" ∷ name ∷ [])

abbrev task_of : String → List String → ScopedTask
task_of role files = record { role = role; files = files }

abbrev apart_wave : List ScopedTask
apart_wave =
    task_of "coder" ("a.py" ∷ [])
    ∷ task_of "explorer" []
    ∷ task_of "coder" ("b.py" ∷ "c.py" ∷ [])
    ∷ []

apart_parallel : parallelism_for_wave in_src 3 apart_wave ≡ 3
unfolding parallelism_for_wave are_disjoint file_scope
apart_parallel = refl

nested_parallel : parallelism_for_wave in_src 3 (task_of "coder" ("src" ∷ []) ∷ apart_wave) ≡ 1
unfolding parallelism_for_wave are_disjoint file_scope
nested_parallel = refl

apart_several : 1 < parallelism_for_wave in_src 3 apart_wave
apart_several = omega (arith, apart_parallel)

parallelism_for_wave_lem_example :
    (mutating apart_wave ≡ [])
    ⊎ ((any has_no_files (mutating apart_wave) ≡ false) × AreDisjoint in_src (mutating apart_wave))
parallelism_for_wave_lem_example = parallelism_for_wave_lem in_src 3 apart_wave apart_several
