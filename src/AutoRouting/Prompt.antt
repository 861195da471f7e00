-- ===== src/AutoRouting/Prompt.antt =====
-- `_fingerprint` of src/local_coder/models/auto_routing.py keeps a start of the joined prompt and
-- counts all of it.
use local_coding_agent.Base.{
  ℕ, zero, suc, ◌-◌, ◌≤◌, ◌<◌, ◌≡◌, refl, sym, ap, subst, ◌∙◌, inl, inr, List, [], ◌∷◌, ◌++◌,
  append_assoc, append-nil, ltb, ltb→lt, ltb→le, length, take, length-append, arith, Bool-cases,
}
use local_coding_agent.AutoRouting.{
  Text, Seen, allowance, see_break, see_part, see_more, fingerprint,
}

-- `"\n".join(parts)`
abbrev pub joined_after : List Text → Text
joined_after [] = []
joined_after (part ∷ parts) = 10 ∷ (part ++ joined_after parts)

abbrev pub joined : List Text → Text
joined [] = []
joined (part ∷ parts) = part ++ joined_after parts

pub take_all : (n : ℕ) (xs : Text) → length xs ≤ n → take n xs ≡ xs
take_all zero [] h = refl
take_all (suc n) [] h = refl
take_all zero (x ∷ xs) h = absurd (omega (arith, h))
take_all (suc n) (x ∷ xs) h = ap (◌∷◌ x) (take_all n xs (omega (arith, h)))

take-append :
    (n : ℕ) (xs ys : Text) → length xs ≤ n → take n (xs ++ ys) ≡ xs ++ take (n - length xs) ys
take-append n [] ys h = ap (λ k. take k ys) (omega arith)
take-append zero (x ∷ xs) ys h = absurd (omega (arith, h))
take-append (suc n) (x ∷ xs) ys h =
    ap (◌∷◌ x) (take-append n xs ys (omega (arith, h)) ∙ ap (λ k. xs ++ take k ys) (omega arith))

take-append_left : (n : ℕ) (xs ys : Text) → n ≤ length xs → take n (xs ++ ys) ≡ take n xs
take-append_left zero xs ys h = refl
take-append_left (suc n) [] ys h = absurd (omega (arith, h))
take-append_left (suc n) (x ∷ xs) ys h = ap (◌∷◌ x) (take-append_left n xs ys (omega (arith, h)))

-- What is kept and counted of a text.
record HasSeen (whole : Text) (s : Seen) : Type 0 where
  kept : s.retained ≡ take allowance whole
  counted : s.count ≡ length whole

see_part-HasSeen :
    (part whole : Text) (s : Seen) → HasSeen whole s → HasSeen (whole ++ part) (see_part part s)
see_part-HasSeen part whole s h = record {
  kept = elim (Bool-cases (ltb s.count allowance)) [
    | inl room ↦
        let short : length whole ≤ allowance =
          omega (arith, ltb→lt s.count allowance room, h.counted) in
        rw
          (
            room,
            h.kept,
            h.counted,
            take_all allowance whole short,
            take-append allowance whole part short,
          )
          refl
    | inr full ↦
        rw (full, h.kept)
          (sym (
            take-append_left allowance whole part
              (omega (arith, ltb→le s.count allowance full, h.counted))))
  ];
  counted = omega (arith, h.counted, length-append whole part);
}

see_break-HasSeen :
    (whole : Text) (s : Seen) → HasSeen whole s → HasSeen (whole ++ 10 ∷ []) (see_break s)
see_break-HasSeen whole s h = record {
  kept = elim (Bool-cases (ltb s.count allowance)) [
    | inl room ↦
        let short : length whole < allowance =
          omega (arith, ltb→lt s.count allowance room, h.counted) in
        rw (room, h.kept, take_all allowance whole (omega (arith, short)))
          (sym (
            take_all allowance (whole ++ 10 ∷ [])
              (omega (arith, short, length-append whole (10 ∷ [])))))
    | inr full ↦
        rw (full, h.kept)
          (sym (
            take-append_left allowance whole (10 ∷ [])
              (omega (arith, ltb→le s.count allowance full, h.counted))))
  ];
  counted = omega (arith, h.counted, length-append whole (10 ∷ []));
}

see_more-HasSeen :
    (parts : List Text) (whole : Text) (s : Seen)
    → HasSeen whole s
    → HasSeen (whole ++ joined_after parts) (see_more parts s)
unfolding see_more
see_more-HasSeen [] whole s h = subst (λ w. HasSeen w s) (sym (append-nil whole)) h
see_more-HasSeen (part ∷ parts) whole s h =
    subst (λ w. HasSeen w (see_more parts (see_part part (see_break s))))
      (append_assoc (whole ++ 10 ∷ []) part (joined_after parts)
        ∙ append_assoc whole (10 ∷ []) (part ++ joined_after parts))
      (see_more-HasSeen parts ((whole ++ 10 ∷ []) ++ part) (see_part part (see_break s))
        (see_part-HasSeen part (whole ++ 10 ∷ []) (see_break s) (see_break-HasSeen whole s h)))

-- What `_fingerprint` keeps is the parts joined by line breaks, cut off at the allowance, and what it
-- counts is the length of all of them.
pub fingerprint_lem :
    (parts : List Text)
    → ((fingerprint parts).retained ≡ take allowance (joined parts))
      × ((fingerprint parts).count ≡ length (joined parts))
unfolding fingerprint
fingerprint_lem [] = (refl, refl)
fingerprint_lem (part ∷ parts) =
    let seen = see_more-HasSeen parts part (see_part part (record { retained = []; count = 0 })) (
      see_part-HasSeen part [] (record { retained = []; count = 0 })
        (record { kept = refl; counted = refl })) in
    (seen.kept, seen.counted)
