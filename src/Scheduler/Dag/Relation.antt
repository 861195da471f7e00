-- ===== src/Scheduler/Dag/Relation.antt =====
-- The dependency relation of a plan, its chains, and the tasks from which no chain goes on forever.
use mathlib.Core.WellFounded.{Acc}
use local_coding_agent.Base.{
  ℕ, suc, ◌≤◌, ◌<◌, String, ◌≡◌, refl, false, none, List, [], ◌∷◌, Memᴰ, arith, contains,
  contains_iff, string_eq, if◌then◌else◌, ◌≢◌, length,
}
use local_coding_agent.Base.Dict.{lookup}
use local_coding_agent.Scheduler.Dag.{Nodes, deps_of}

-- `a` is among the dependencies of the task `b`.
abbrev pub DependsOn : Nodes → String → String → Type 0
DependsOn nodes a b = Memᴰ a (deps_of nodes b)

-- `a` is a dependency of a dependency … of `b`.
pub data Chain (nodes : Nodes) (a : String) : String → Type 0 where
  one : {b : String} → DependsOn nodes a b → Chain nodes a b
  more : {b c : String} → Chain nodes a b → DependsOn nodes b c → Chain nodes a c

pub prepend :
    {nodes : Nodes} {a b c : String} → DependsOn nodes a b → Chain nodes b c → Chain nodes a c
prepend d (one e) = more (one d) e
prepend d (more p e) = more (prepend d p) e

-- Every way down through the dependencies of `t` ends.
abbrev pub Grounded : Nodes → String → Type 0
Grounded nodes = Acc (DependsOn nodes)

-- A task that lies on a cycle is not grounded.
pub Grounded-not-cycle : {nodes : Nodes} {t : String} → Grounded nodes t → Chain nodes t t → ⊥
Grounded-not-cycle (Acc.intro t below) (one d) = Grounded-not-cycle (below t d) (one d)
Grounded-not-cycle (Acc.intro t below) (more {b} p d) = Grounded-not-cycle (below b d) (prepend d p)

-- The keys that the search has not visited.
unfoldable pub unseen : List String → Nodes → ℕ
unseen seen [] = 0
unseen seen ((k, n) ∷ d) = if contains k seen then unseen seen d else suc (unseen seen d)

pub unseen-le :
    (a b : List String) (d : Nodes) → ((v : String) → Memᴰ v a → Memᴰ v b) → unseen b d ≤ unseen a d
unfolding unseen
unseen-le a b [] h = omega arith
unseen-le a b ((k, n) ∷ d) h =
    ground (arith, contains_iff k a, contains_iff k b, h k, unseen-le a b d h)

unseen-tail : (t : String) (seen : List String) (d : Nodes) → unseen (t ∷ seen) d ≤ unseen seen d
unseen-tail t seen d = unseen-le seen (t ∷ seen) d (λ v m. Memᴰ.tail m)

-- Visiting a key leaves fewer keys.
pub unseen-lt :
    (t : String) (seen : List String) (d : Nodes)
    → contains t seen ≡ false
    → lookup t d ≢ none
    → unseen (t ∷ seen) d < unseen seen d
unfolding unseen lookup
unseen-lt t seen [] c h = absurd (h refl)
unseen-lt t seen ((k, n) ∷ d) c h =
    ground (arith, string_eq.beq_iff k t, unseen-tail t seen d, unseen-lt t seen d c)

pub unseen-nil-le : (d : Nodes) → unseen [] d ≤ length d
unfolding unseen
unseen-nil-le [] = omega arith
unseen-nil-le ((k, n) ∷ d) = omega (arith, unseen-nil-le d)
