-- ===== src/Examples/Caches.antt =====
-- A cache of two entries whose values are their sizes.
use local_coding_agent.Base.{
  ℕ, ◌-◌, ◌≡◌, refl, none, some, [], ◌∷◌, ◌++◌, arith, leb, if◌then◌else◌, string_eq,
}
use local_coding_agent.Base.Dict.{remove}
use local_coding_agent.PromptCache.{PromptCache, empty, set, get}
use local_coding_agent.PromptCache.Laws.{IsValid, Trimmed, set_lem, set-IsValid, get-set_self}

abbrev size : ℕ → ℕ
size n = n

abbrev cache : PromptCache ℕ size
cache = empty ℕ size 2 300 1000

cache-IsValid : IsValid ℕ size cache
cache-IsValid = record { counted = refl; distinct = tt }

abbrev filled : PromptCache ℕ size
filled = set ℕ size 2 "b" 20 (set ℕ size 1 "a" 10 cache)

filled-IsValid : IsValid ℕ size filled
filled-IsValid =
    set-IsValid ℕ size 2 "b" 20 (set ℕ size 1 "a" 10 cache)
      (set-IsValid ℕ size 1 "a" 10 cache cache-IsValid)

set_lem_example :
    Trimmed ℕ size filled.max_entries filled.max_total_chars
      (remove "c" filled.entries ++ ("c", record { created = 3; value = 30; size = 30 }) ∷ [])
      (set ℕ size 3 "c" 30 filled).entries
      (set ℕ size 3 "c" 30 filled).total_chars
set_lem_example = set_lem ℕ size 3 "c" 30 filled filled-IsValid

get-set_self_example :
    (get ℕ size 9 "c" (set ℕ size 3 "c" 30 cache)).1 ≡ (if leb 300 (9 - 3) then none else some 30)
get-set_self_example =
    get-set_self ℕ size 3 9 "c" 30 cache cache-IsValid (omega arith) (omega arith)
