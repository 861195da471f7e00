-- ===== src/PromptCache/Laws.antt =====
-- The bounds of the cache, what it answers, and what it evicts.
use local_coding_agent.Base.{
  ℕ, suc, ◌+◌, ◌-◌, ◌≤◌, ◌<◌, String, ◌≡◌, refl, sym, subst, ap, ◌⊎◌, inl, inr, ◌∙◌, true, false,
  ◌||◌, Option, none, some, [], ◌∷◌, ◌++◌, arith, length, string_eq, ltb, leb, Bool-cases,
  Option-cases, ◌==◌, if◌then◌else◌,
}
use local_coding_agent.Base.Dict.{
  Dict, Distinct, lookup, insert, remove, lookup-insert, lookup-remove, remove-Distinct,
}
use local_coding_agent.PromptCache.{
  Cached, PromptCache, move_to_end, evict, found, get, trim, without_old, set,
}

module _ {ℓ} (V : Type ℓ) (size_of : V → ℕ) where
  abbrev D : Type ℓ
  D = Dict String (Cached V size_of)

  abbrev pub sizes : Dict String (Cached V size_of) → ℕ
  sizes [] = 0
  sizes ((k, e) ∷ d) = e.size + sizes d

  -- The counter is the sum of the sizes, and no key stands twice.
  pub record IsValid (c : PromptCache V size_of) : Type ℓ where
    pub counted : c.total_chars ≡ sizes c.entries
    pub distinct : Distinct c.entries

  sizes-append : (a b : D) → sizes (a ++ b) ≡ sizes a + sizes b
  sizes-append [] b = omega arith
  sizes-append ((k, e) ∷ a) b = omega (arith, sizes-append a b)

  sizes-remove :
      (k : String) (d : D) (e : Cached V size_of)
      → lookup k d ≡ some e
      → sizes (remove k d) + e.size ≡ sizes d
  unfolding lookup remove
  sizes-remove k [] e h = absurd (ground arith)
  sizes-remove k ((j, x) ∷ d) e h = ground (arith, sizes-remove k d e)

  remove-none : (k : String) (d : D) → lookup k d ≡ none → remove k d ≡ d
  unfolding lookup remove
  remove-none k [] h = refl
  remove-none k ((j, x) ∷ d) h = ground (arith, remove-none k d)

  remove-insert : (k : String) (e : Cached V size_of) (d : D) → remove k (insert k e d) ≡ remove k d
  unfolding insert remove
  remove-insert k e [] = ground (arith, string_eq.beq_iff k k)
  remove-insert k e ((j, x) ∷ d) = ground (arith, remove-insert k e d)

  -- Writing a key and moving it to the end: the rest in its order, then the new entry.
  move_to_end-insert :
      (k : String) (e : Cached V size_of) (d : D)
      → move_to_end V size_of k (insert k e d) ≡ remove k d ++ (k, e) ∷ []
  unfolding move_to_end
  move_to_end-insert k e d =
      let here : lookup k (insert k e d) ≡ some e =
        lookup-insert k k e d ∙ ground (arith, string_eq.beq_iff k k) in
      rw (here, move_to_end, remove-insert k e d)

  Distinct-snoc :
      (k : String) (e : Cached V size_of) (d : D)
      → lookup k d ≡ none
      → Distinct d
      → Distinct (d ++ (k, e) ∷ [])
  unfolding lookup
  Distinct-snoc k e [] h u = (refl, tt)
  Distinct-snoc k e ((j, x) ∷ d) h u = (
    lookup_snoc d u.0 (ground (arith, string_eq.beq_iff k j, string_eq.beq_iff j k)),
    Distinct-snoc k e d (ground arith) u.1,
  )
    where
      lookup_snoc :
          (d : D) → lookup j d ≡ none → (k == j) ≡ false → lookup j (d ++ (k, e) ∷ []) ≡ none
      lookup_snoc [] p q = ground arith
      lookup_snoc ((i, y) ∷ d) p q = ground (arith, lookup_snoc d)

  -- Entries that break a bound
  abbrev pub IsOver : ℕ → ℕ → Dict String (Cached V size_of) → Type 0
  IsOver max_entries max_chars d = (max_entries < length d) ⊎ (max_chars < sizes d)

  -- What `trim` keeps is the longest final part of the entries that keeps both bounds, with its
  -- sizes counted: with the last dropped entry a bound would be broken.
  pub record Trimmed (max_entries max_chars : ℕ) (d kept : D) (total : ℕ) : Type ℓ where
    pub dropped : D
    pub split : d ≡ dropped ++ kept
    pub needed :
        (dropped ≡ [])
        ⊎ ((earlier : D) × (k : String) × (e : Cached V size_of) × (dropped
              ≡ earlier ++ (k, e) ∷ [])
            × IsOver max_entries max_chars ((k, e) ∷ kept))
    pub counted : total ≡ sizes kept
    pub entries : length kept ≤ max_entries
    pub chars : total ≤ max_chars
    pub distinct : Distinct d → Distinct kept

  one_too_many :
      (max_entries max_chars : ℕ) (k : String) (e : Cached V size_of) (d : D) (total : ℕ)
      → total ≡ sizes ((k, e) ∷ d)
      → (ltb max_entries (suc (length d)) || ltb max_chars total) ≡ true
      → IsOver max_entries max_chars ((k, e) ∷ d)
  one_too_many max_entries max_chars k e d total h over =
      elim (Bool-cases (ltb max_entries (suc (length d)))) [
        | inl many ↦ inl (ground (arith, many))
        | inr few ↦ inr (ground (arith, over, few, h))
      ]

  needed_cons :
      (max_entries max_chars : ℕ) (k : String) (e : Cached V size_of) (d kept dropped : D)
      → d ≡ dropped ++ kept
      → IsOver max_entries max_chars ((k, e) ∷ d)
      → (dropped ≡ [])
        ⊎ ((earlier : D) × (j : String) × (x : Cached V size_of) × (dropped
              ≡ earlier ++ (j, x) ∷ [])
            × IsOver max_entries max_chars ((j, x) ∷ kept))
      → ((k, e) ∷ dropped ≡ [])
        ⊎ ((earlier : D) × (j : String) × (x : Cached V size_of) × ((k, e) ∷ dropped
              ≡ earlier ++ (j, x) ∷ [])
            × IsOver max_entries max_chars ((j, x) ∷ kept))
  needed_cons max_entries max_chars k e d kept dropped split over (inl none_dropped) = inr (
    [],
    k,
    e,
    ap (◌∷◌ (k, e)) none_dropped,
    subst (λ xs. IsOver max_entries max_chars ((k, e) ∷ xs))
        (split ∙ ap (λ xs. xs ++ kept) none_dropped) over,
  )
  needed_cons max_entries max_chars k e d kept dropped split over
        (inr (earlier, j, x, same, by_last)) =
      inr ((k, e) ∷ earlier, j, x, ap (◌∷◌ (k, e)) same, by_last)

  trim_lem :
      (max_entries max_chars : ℕ) (d : D) (total : ℕ)
      → total ≡ sizes d
      → Trimmed max_entries max_chars d
          (trim V size_of max_entries max_chars d total).0
          (trim V size_of max_entries max_chars d total).1
  unfolding trim
  trim_lem max_entries max_chars [] total h = record {
    dropped = [];
    split = refl;
    needed = inl refl;
    counted = h;
    entries = omega arith;
    chars = omega (arith, h);
    distinct = λ u. u;
  }
  trim_lem max_entries max_chars ((k, e) ∷ d) total h =
      elim (Bool-cases (ltb max_entries (suc (length d)) || ltb max_chars total)) [
        | inl over ↦
            let t = trim_lem max_entries max_chars d (total - e.size) (omega arith) in
            rw (over) (record {
              dropped = (k, e) ∷ t.dropped;
              split = ap (◌∷◌ (k, e)) t.split;
              needed =
                  needed_cons max_entries max_chars k e d
                    (trim V size_of max_entries max_chars d (total - e.size)).0 t.dropped t.split
                    (one_too_many max_entries max_chars k e d total h over) t.needed;
              counted = t.counted;
              entries = t.entries;
              chars = t.chars;
              distinct = λ u. t.distinct u.1;
            })
        | inr fits ↦ rw (fits) (record {
          dropped = [];
          split = refl;
          needed = inl refl;
          counted = h;
          entries = ground arith;
          chars = ground arith;
          distinct = λ u. u;
        })
      ]

  abbrev after_write : (now : ℕ) (k : String) (v : V) (c : PromptCache V size_of) → Cached V size_of
  after_write now k v c = record { created = now; value = v; size = size_of v }

  sizes_after :
      (k : String) (e : Cached V size_of) (c : PromptCache V size_of)
      → IsValid c
      → without_old V size_of (lookup k c.entries) c.total_chars + e.size
        ≡ sizes (remove k c.entries ++ (k, e) ∷ [])
  sizes_after k e c h = by_old (lookup k c.entries) refl
    where
      appended :
          sizes (remove k c.entries ++ (k, e) ∷ []) ≡ sizes (remove k c.entries) + (e.size + 0)
      appended = sizes-append (remove k c.entries) ((k, e) ∷ [])

      by_old :
          (o : Option (Cached V size_of))
          → lookup k c.entries ≡ o
          → without_old V size_of o c.total_chars + e.size
            ≡ sizes (remove k c.entries ++ (k, e) ∷ [])
      by_old none p = omega (arith, appended, h.counted, ap sizes (remove-none k c.entries p))
      by_old (some old) p = omega (arith, appended, h.counted, sizes-remove k c.entries old p)

  -- A write puts its entry last and then drops the oldest entries, as few as the bounds ask: with the
  -- last one dropped still there, a bound would be broken. Both bounds hold afterwards, and the
  -- counter is the sum of the sizes kept.
  pub set_lem :
      (now : ℕ) (k : String) (v : V) (c : PromptCache V size_of)
      → IsValid c
      → Trimmed c.max_entries c.max_total_chars
          (remove k c.entries ++ (k, record { created = now; value = v; size = size_of v }) ∷ [])
          (set V size_of now k v c).entries
          (set V size_of now k v c).total_chars
  unfolding set
  set_lem now k v c h =
      let e : Cached V size_of = record { created = now; value = v; size = size_of v } in
      let total = without_old V size_of (lookup k c.entries) c.total_chars + size_of v in
      subst
        (λ d.
          Trimmed c.max_entries c.max_total_chars (remove k c.entries ++ (k, e) ∷ [])
            (trim V size_of c.max_entries c.max_total_chars d total).0
            (trim V size_of c.max_entries c.max_total_chars d total).1)
        (sym (move_to_end-insert k e c.entries))
        (trim_lem c.max_entries c.max_total_chars (remove k c.entries ++ (k, e) ∷ []) total
          (sizes_after k e c h))

  lookup-remove_self : (k : String) (d : D) → Distinct d → lookup k (remove k d) ≡ none
  lookup-remove_self k d u = lookup-remove k k d u ∙ ground (arith, string_eq.beq_iff k k)

  write-Distinct :
      (k : String) (e : Cached V size_of) (d : D)
      → Distinct d
      → Distinct (remove k d ++ (k, e) ∷ [])
  write-Distinct k e d u =
      Distinct-snoc k e (remove k d) (lookup-remove_self k d u) (remove-Distinct k d u)

  pub set-IsValid :
      (now : ℕ) (k : String) (v : V) (c : PromptCache V size_of)
      → IsValid c
      → IsValid (set V size_of now k v c)
  set-IsValid now k v c h =
      let t = set_lem now k v c h in
      record {
        counted = t.counted;
        distinct = t.distinct (write-Distinct k (after_write now k v c) c.entries h.distinct);
      }

  -- The last entry stays, where it fits alone.
  trim_keeps :
      (max_entries max_chars : ℕ) (d : D) (k : String) (e : Cached V size_of) (total : ℕ)
      → total ≡ sizes (d ++ (k, e) ∷ [])
      → 0 < max_entries
      → e.size ≤ max_chars
      → (rest : D) × ((trim V size_of max_entries max_chars (d ++ (k, e) ∷ []) total).0
          ≡ rest ++ (k, e) ∷ [])
  unfolding trim
  trim_keeps max_entries max_chars [] k e total h room fits = ([], ground arith)
  trim_keeps max_entries max_chars ((j, x) ∷ d) k e total h room fits =
      elim (Bool-cases (ltb max_entries (suc (length (d ++ (k, e) ∷ []))) || ltb max_chars total)) [
        | inl over ↦
            let (rest, p) =
              trim_keeps max_entries max_chars d k e (total - x.size) (omega arith) room fits in
            (rest, rw (over) p)
        | inr within ↦ ((j, x) ∷ d, rw (within))
      ]

  lookup_last :
      (d : D) (k : String) (e : Cached V size_of)
      → Distinct (d ++ (k, e) ∷ [])
      → lookup k (d ++ (k, e) ∷ []) ≡ some e
  unfolding lookup
  lookup_last [] k e u = ground (arith, string_eq.beq_iff k k)
  lookup_last ((j, x) ∷ d) k e u = ground (arith, lookup_last d k e, string_eq.beq_iff j k, u.0)

  lookup-set :
      (now : ℕ) (k : String) (v : V) (c : PromptCache V size_of)
      → IsValid c
      → 0 < c.max_entries
      → size_of v ≤ c.max_total_chars
      → lookup k (set V size_of now k v c).entries
        ≡ some (record { created = now; value = v; size = size_of v })
  lookup-set now k v c h room fits =
      let e : Cached V size_of = record { created = now; value = v; size = size_of v } in
      let total = without_old V size_of (lookup k c.entries) c.total_chars + size_of v in
      let (rest, p) =
        trim_keeps c.max_entries c.max_total_chars (remove k c.entries) k e total
          (sizes_after k e c h) room fits in
      let kept : (set V size_of now k v c).entries ≡ rest ++ (k, e) ∷ [] =
        unfold set in
        (ap (λ d. (trim V size_of c.max_entries c.max_total_chars d total).0)
            (move_to_end-insert k e c.entries)
          ∙ p) in
      let valid = set-IsValid now k v c h in
      subst (λ d. lookup k d ≡ some e) (sym kept)
        (lookup_last rest k e (subst Distinct kept valid.distinct))

  -- A value that fits the cache alone is answered until its time is over, and not from then on.
  pub get-set_self :
      (now later : ℕ) (k : String) (v : V) (c : PromptCache V size_of)
      → IsValid c
      → 0 < c.max_entries
      → size_of v ≤ c.max_total_chars
      → (get V size_of later k (set V size_of now k v c)).1
        ≡ (if leb c.ttl_seconds (later - now) then none else some v)
  unfolding get
  get-set_self now later k v c h room fits =
      let ttl : (set V size_of now k v c).ttl_seconds ≡ c.ttl_seconds = unfold set in refl in
      rw (lookup-set now k v c h room fits) (ground (arith, ttl))

  length-remove-le : (k : String) (d : D) → length (remove k d) ≤ length d
  unfolding remove
  length-remove-le k [] = omega arith
  length-remove-le k ((j, x) ∷ d) = ground (arith, length-remove-le k d)

  evict-IsValid :
      (k : String) (c : PromptCache V size_of) → IsValid c → IsValid (evict V size_of k c)
  unfolding evict
  evict-IsValid k c h = elim (Option-cases (lookup k c.entries)) [
    | inl e ↦ rw (e, evict) h
    | inr (x, e) ↦
        rw (e, evict)
          (record {
            counted = omega (arith, h.counted, sizes-remove k c.entries x e);
            distinct = remove-Distinct k c.entries h.distinct;
          })
  ]

  move_to_end-IsValid :
      (k : String) (c : PromptCache V size_of)
      → IsValid c
      → (sizes (move_to_end V size_of k c.entries) ≡ sizes c.entries)
        × Distinct (move_to_end V size_of k c.entries)
  unfolding move_to_end
  move_to_end-IsValid k c h = elim (Option-cases (lookup k c.entries)) [
    | inl e ↦ rw (e, move_to_end) (refl, h.distinct)
    | inr (x, e) ↦
        rw (e, move_to_end)
          (
            omega (
              arith,
              sizes-append (remove k c.entries) ((k, x) ∷ []),
              sizes-remove k c.entries x e,
            ),
            write-Distinct k x c.entries h.distinct,
          )
  ]

  -- A read keeps the invariant, hit, miss or expiry.
  pub get-IsValid :
      (now : ℕ) (k : String) (c : PromptCache V size_of)
      → IsValid c
      → IsValid (get V size_of now k c).0
  unfolding get
  get-IsValid now k c h = by_entry (lookup k c.entries) refl
    where
      by_entry :
          (o : Option (Cached V size_of))
          → lookup k c.entries ≡ o
          → IsValid (found V size_of now k c o).0
      by_entry none e = record { counted = h.counted; distinct = h.distinct }
      by_entry (some x) e = elim (Bool-cases (leb c.ttl_seconds (now - x.created))) [
        | inl old ↦
            rw (old)
              (let v = evict-IsValid k c h in record { counted = v.counted; distinct = v.distinct })
        | inr live ↦ rw (live) (
            let m = move_to_end-IsValid k c h in
            record { counted = h.counted ∙ sym m.0; distinct = m.1 })
      ]
