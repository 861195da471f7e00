-- ===== src/Examples/Packed.antt =====
-- Four files, one of which cannot be read and one of which is larger than a batch.
use local_coding_agent.Base.{
  ℕ, ◌≡◌, refl, String, string_eq, ◌==◌, Option, none, some, List, [], ◌∷◌, if◌then◌else◌,
}
use local_coding_agent.ReviewBatches.{plan_batches, fill}
use local_coding_agent.ReviewBatches.Packing.{concat, readable, AllFit, plan_batches_lem}

abbrev files : List String
files = "big" ∷ "a" ∷ "gone" ∷ "b" ∷ []

abbrev size : String → Option ℕ
size name = if name == "gone" then none else if name == "big" then some 90 else some 20

abbrev by_name : List String → List String
by_name names = names

files-plan_batches : plan_batches size by_name files 50 ≡ ("big" ∷ []) ∷ ("a" ∷ "b" ∷ []) ∷ []
unfolding plan_batches fill
files-plan_batches = refl

plan_batches_lem_example :
    (concat (plan_batches size by_name files 50) ≡ readable size by_name (by_name files))
    × AllFit size by_name 50 (plan_batches size by_name files 50)
plan_batches_lem_example = plan_batches_lem size by_name files 50
