-- ===== src/Section/Assembly/Length.antt =====
-- Lists cut to a length, and the bound on the length of a section.
use recskapa.Base.{
  ℕ, zero, suc, ◌+◌, ◌-◌, ◌≤◌, ◌<◌, ◌≡◌, refl, sym, ap, ◌∙◌, Bool-cases, inl, inr, ltb,
  if◌then◌else◌, arith,
}
use recskapa.Base.{
  length, length-take, get_or, take, take_all, List, [], ◌∷◌, ◌++◌, bit_and, bit_or, ◌<<◌,
}
use recskapa.Base.Bits.{and_mask}

module _ {ℓ} {A : Type ℓ} where
  pub take-take : (n m : ℕ) (xs : List A) → n ≤ m → take n (take m xs) ≡ take n xs
  take-take zero m xs h = refl
  take-take (suc n) zero xs h = absurd (omega arith)
  take-take (suc n) (suc m) [] h = refl
  take-take (suc n) (suc m) (x ∷ xs) h = ap (λ t. x ∷ t) (take-take n m xs (omega arith))

  -- What is cut anyway may be cut before more is appended.
  pub take-append-take : (n : ℕ) (xs ys : List A) → take n (take n xs ++ ys) ≡ take n (xs ++ ys)
  take-append-take zero xs ys = refl
  take-append-take (suc n) [] ys = refl
  take-append-take (suc n) (x ∷ xs) ys = ap (λ t. x ∷ t) (take-append-take n xs ys)

  pub take_append_cut :
      (n k : ℕ) (xs ys : List A) → n ≤ length xs + k → take n (xs ++ take k ys) ≡ take n (xs ++ ys)
  take_append_cut zero k xs ys h = refl
  take_append_cut (suc n) k [] ys h = take-take (suc n) k ys (omega arith)
  take_append_cut (suc n) k (x ∷ xs) ys h =
      ap (λ t. x ∷ t) (take_append_cut n k xs ys (omega arith))

  pub take-append :
      (n : ℕ) (xs ys : List A) → take n (xs ++ ys) ≡ take n xs ++ take (n - length (take n xs)) ys
  take-append zero xs ys = refl
  take-append (suc n) [] ys = let e : suc n ≡ suc n - 0 = omega arith in ap (λ k. take k ys) e
  take-append (suc n) (x ∷ xs) ys =
      ap (λ t. x ∷ t)
        (let e : n - length (take n xs) ≡ suc n - suc (length (take n xs)) = omega arith in
          take-append n xs ys ∙ ap (λ k. take n xs ++ take k ys) e)

  -- Cutting to the smaller of the length and a bound is cutting to the bound.
  pub take_smaller :
      (n : ℕ) (xs : List A) → take (if ltb (length xs) n then length xs else n) xs ≡ take n xs
  take_smaller n xs = elim (Bool-cases (ltb (length xs) n)) [
    | inl e ↦ rw e (take_all (length xs) xs (omega arith) ∙ sym (take_all n xs (ground arith)))
    | inr e ↦ rw e
  ]

  -- Filling a cut buffer up and cutting again is cutting what an uncut buffer would hold.
  pub take_refill :
      (room cut : ℕ) (xs ys : List A)
      → cut ≤ room
      → let kept = take cut (take room xs) in
        take cut (kept ++ take (room - length kept) ys) ≡ take cut (take room (xs ++ ys))
  take_refill room cut xs ys h =
      take_append_cut cut (room - length kept) kept ys
        (omega (arith, length-take cut (take room xs)))
      ∙ ap (λ t. take cut (t ++ ys)) (take-take cut room xs h)
      ∙ take-append-take cut xs ys
      ∙ sym (take-take cut room (xs ++ ys) h)
    where
      kept : List A
      kept = take cut (take room xs)

  pub get_or-take_append :
      (n i : ℕ) (xs ys : List A) (d : A)
      → i < length (take n xs)
      → get_or (take n (xs ++ ys)) i d ≡ get_or (take n xs) i d
  get_or-take_append zero i xs ys d h = absurd (omega arith)
  get_or-take_append (suc n) i [] ys d h = absurd (omega arith)
  get_or-take_append (suc n) zero (x ∷ xs) ys d h = refl
  get_or-take_append (suc n) (suc i) (x ∷ xs) ys d h = get_or-take_append n i xs ys d (omega arith)

-- A section is at most 4098 bytes long, so it fits its buffer.
pub section_length-le : (p1 p2 : ℕ) → bit_and (bit_or (p1 << 8) p2) 0x0fff ≤ 4095
section_length-le p1 p2 = omega (arith, and_mask 12 (bit_or (p1 << 8) p2))
