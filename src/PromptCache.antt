-- ===== src/PromptCache.antt =====
-- src/local_coder/models/cache.py: `PromptCache`. A value's size, `len(str(value))`, is the parameter
-- `size_of`, and `time.monotonic()` an argument in whole clock units. An `OrderedDict` is a
-- dictionary whose first entry is the oldest.
pub mod Laws
use local_coding_agent.Base.{
  ℕ, zero, suc, ◌+◌, ◌-◌, String, Bool, true, false, ◌||◌, Option, none, some, List, [], ◌∷◌, ◌++◌,
  if◌then◌else◌, string_eq, ltb, leb, length,
}
use local_coding_agent.Base.Dict.{Dict, lookup, insert, remove}

module _ {ℓ} (V : Type ℓ) (size_of : V → ℕ) where
  -- `(created, value, size)`
  pub record Cached : Type ℓ where
    pub created : ℕ
    pub value : V
    pub size : ℕ

  pub record PromptCache : Type ℓ where
    pub max_entries : ℕ
    pub ttl_seconds : ℕ
    pub max_total_chars : ℕ
    pub entries : Dict String Cached
    pub total_chars : ℕ
    pub hits : ℕ
    pub misses : ℕ

  -- `entries.move_to_end(key)`
  unfoldable pub move_to_end : String → Dict String Cached → Dict String Cached
  move_to_end key d = elim (lookup key d) [ none ↦ d | some e ↦ remove key d ++ (key, e) ∷ [] ]

  -- `_evict`, for a key that is there
  unfoldable pub evict : String → PromptCache → PromptCache
  evict key c = elim (lookup key c.entries) [
    | none ↦ c
    | some e ↦ record c { entries = remove key c.entries; total_chars = c.total_chars - e.size }
  ]

  abbrev pub found : ℕ → String → PromptCache → Option Cached → PromptCache × Option V
  found now key c none = (record c { misses = c.misses + 1 }, none)
  found now key c (some e) =
      if leb c.ttl_seconds (now - e.created)
      then (let c' = evict key c in record c' { misses = c'.misses + 1 }, none)
      else (record c { entries = move_to_end key c.entries; hits = c.hits + 1 }, some e.value)

  unfoldable pub get : ℕ → String → PromptCache → PromptCache × Option V
  get now key c = found now key c (lookup key c.entries)

  -- `while self._entries and (…): self._evict(next(iter(self._entries)))`
  unfoldable pub trim : ℕ → ℕ → Dict String Cached → ℕ → Dict String Cached × ℕ
  trim max_entries max_chars [] total = ([], total)
  trim max_entries max_chars ((k, e) ∷ d) total =
      let rest = trim max_entries max_chars d (total - e.size) in
      if ltb max_entries (suc (length d)) || ltb max_chars total then rest else ((k, e) ∷ d, total)

  -- `total_chars` without a value that is overwritten.
  abbrev pub without_old : Option Cached → ℕ → ℕ
  without_old none total = total
  without_old (some e) total = total - e.size

  unfoldable pub set : ℕ → String → V → PromptCache → PromptCache
  unfolding trim
  set now key value c =
      let new : Cached = record { created = now; value = value; size = size_of value } in
      let d = move_to_end key (insert key new c.entries) in
      let (kept, total) =
        trim c.max_entries c.max_total_chars d
          (without_old (lookup key c.entries) c.total_chars + size_of value) in
      record c { entries = kept; total_chars = total }

  unfoldable pub clear : PromptCache → PromptCache
  clear c = record c { entries = []; total_chars = 0 }

  abbrev pub empty : ℕ → ℕ → ℕ → PromptCache
  empty max_entries ttl_seconds max_total_chars = record {
    max_entries = max_entries;
    ttl_seconds = ttl_seconds;
    max_total_chars = max_total_chars;
    entries = [];
    total_chars = 0;
    hits = 0;
    misses = 0;
  }
