-- ===== src/Record/Queue/Fifo.antt =====
-- recskapa.c: the ring of the queue holds what was put into it, in that order.
use recskapa.Base.{
  ℕ, zero, suc, ◌+◌, ◌-◌, ◌%◌, ◌^◌, ◌≤◌, ◌<◌, ◌≡◌, ◌≢◌, ◌⊎◌, inl, inr, ltb, Bool-cases, refl, sym,
  ap, ◌∙◌, arith,
}
use native.Mathlib.Nat.{mod-lt, mod-add-mod, mod-eq_of_lt, add-mod_right}
use mathlib.Core.Path.{subst}
use recskapa.Base.{
  length-append, length, get_or, set, replicate, length-set, List, [], ◌∷◌, ◌++◌, Option, some,
  none,
}
use recskapa.Record.Queue.{Queue, create_queue, put_slot, take_slot}

next_index : (size i n : ℕ) → (i + suc n) % size ≡ ((i + 1) % size + n) % size
next_index size i n =
    let e : i + suc n ≡ i + 1 + n = omega arith in
    ap (λ k. k % size) e ∙ sym (mod-add-mod (i + 1) size n)

-- An index that has gone around at most once.
wrapped :
    (size m : ℕ)
    → m < size + size
    → ((m < size) × (m % size ≡ m)) ⊎ ((size ≤ m) × (m % size + size ≡ m))
wrapped size m h = elim (Bool-cases (ltb m size)) [
  | inl e ↦ let under : m < size = ground arith in inl (under, mod-eq_of_lt under)
  | inr e ↦
      let over : size ≤ m = ground arith in
      let back : m - size < size = omega arith in
      let split : m ≡ m - size + size = omega arith in
      let same : m % size ≡ m - size =
        ap (λ k. k % size) split ∙ add-mod_right (m - size) size ∙ mod-eq_of_lt back in
      inr (over, omega arith)
]

module _ {ℓ} {A : Type ℓ} where
  -- From the index on, and around the end, the buffer holds the elements of the list.
  abbrev pub Holds : ℕ → ℕ → List (Option A) → List A → Type ℓ
  Holds size i buffer [] = Unit {ℓ}
  Holds size i buffer (x ∷ xs) =
      (get_or buffer i none ≡ some x) × Holds size ((i + 1) % size) buffer xs

  -- The queue holds the elements of the list.
  pub record Represents (q : Queue A) (xs : List A) : Type ℓ where
    pub room : length q.buffer ≡ q.size
    pub some_room : 0 < q.size
    pub fits : q.size < 2 ^ 32
    pub out_bound : q.out_index < q.size
    pub used : q.num_used ≡ length xs
    pub avail : q.num_avail + length xs ≡ q.size
    pub ahead : q.in_index ≡ (q.out_index + length xs) % q.size
    pub holds : Holds q.size q.out_index q.buffer xs

  get_or-set-same :
      (xs : List (Option A)) (i : ℕ) (v : Option A) → i < length xs → get_or (set xs i v) i none ≡ v
  get_or-set-same [] i v h = absurd (omega arith)
  get_or-set-same (x ∷ xs) zero v h = refl
  get_or-set-same (x ∷ xs) (suc i) v h = get_or-set-same xs i v (omega arith)

  get_or-set-other :
      (xs : List (Option A)) (i j : ℕ) (v : Option A)
      → i ≢ j
      → get_or (set xs i v) j none ≡ get_or xs j none
  get_or-set-other [] i j v h = refl
  get_or-set-other (x ∷ xs) zero zero v h = absurd (h refl)
  get_or-set-other (x ∷ xs) zero (suc j) v h = refl
  get_or-set-other (x ∷ xs) (suc i) zero v h = refl
  get_or-set-other (x ∷ xs) (suc i) (suc j) v h = get_or-set-other xs i j v (λ e. h (ap suc e))

  -- A write to a slot that is not read leaves what the others hold.
  Holds-set :
      (size i j : ℕ) (v : Option A) (buffer : List (Option A)) (xs : List A)
      → i < size
      → j ≡ (i + length xs) % size
      → length xs < size
      → Holds size i buffer xs
      → Holds size i (set buffer j v) xs
  Holds-set size i j v buffer [] h e k held = tt
  Holds-set size i j v buffer (x ∷ xs) h e k (here, rest) = (
    get_or-set-other buffer j i v
          (λ c. ground (arith, e, c, wrapped size (i + suc (length xs)) (omega arith)))
        ∙ here,
    Holds-set size ((i + 1) % size) j v buffer xs
        (ground (arith, wrapped size (i + 1) (omega arith))) (e ∙ next_index size i (length xs))
        (omega arith) rest,
  )

  Holds-append :
      (size i : ℕ) (x : A) (buffer : List (Option A)) (xs : List A)
      → i < size
      → Holds size i buffer xs
      → get_or buffer ((i + length xs) % size) none ≡ some x
      → Holds size i buffer (xs ++ (x ∷ []))
  Holds-append size i x buffer [] h held e =
      let here : (i + 0) % size ≡ i = ground (arith, wrapped size (i + 0) (omega arith)) in
      (ap (λ k. get_or buffer k none) (sym here) ∙ e, tt)
  Holds-append size i x buffer (y ∷ ys) h (here, rest) e = (
    here,
    Holds-append size ((i + 1) % size) x buffer ys
        (ground (arith, wrapped size (i + 1) (omega arith))) rest
        (ap (λ k. get_or buffer k none) (sym (next_index size i (length ys))) ∙ e),
  )

  length-replicate : (n : ℕ) (v : Option A) → length (replicate n v) ≡ n
  length-replicate zero v = refl
  length-replicate (suc n) v = ap suc (length-replicate n v)

  pub create-Represents : (size : ℕ) → 0 < size → size < 2 ^ 32 → Represents (create_queue size) []
  unfolding create_queue
  create-Represents size h k = record {
    room = length-replicate size none;
    some_room = h;
    fits = k;
    out_bound = h;
    used = refl;
    avail = omega arith;
    ahead = sym (mod-eq_of_lt h);
    holds = tt;
  }

  pub put_slot-Represents :
      (q : Queue A) (x : A) (xs : List A)
      → Represents q xs
      → length xs < q.size
      → Represents (put_slot q x) (xs ++ (x ∷ []))
  unfolding put_slot
  put_slot-Represents q x xs r less =
      let grown = length-append xs (x ∷ []) in
      let turn = wrapped q.size (q.out_index + length xs) (omega (arith, r.out_bound)) in
      let inside : q.in_index < q.size = ground (arith, r.ahead, turn, r.out_bound) in
      let small : q.in_index + 1 < 2 ^ 32 = omega (arith, inside, r.fits) in
      record {
        room = length-set q.buffer q.in_index (some x) ∙ r.room;
        some_room = r.some_room;
        fits = r.fits;
        out_bound = r.out_bound;
        used = omega (arith, r.used, grown);
        avail = omega (arith, r.avail, grown);
        ahead =
            ap (λ k. k % q.size) (mod-eq_of_lt small)
            ∙ ap (λ k. (k + 1) % q.size) r.ahead
            ∙ mod-add-mod (q.out_index + length xs) q.size 1
            ∙ (let e : q.out_index + length xs + 1 ≡ q.out_index + length (xs ++ (x ∷ [])) =
                  omega (arith, grown) in
                ap (λ k. k % q.size) e);
        holds =
            Holds-append q.size q.out_index x (set q.buffer q.in_index (some x)) xs r.out_bound
              (Holds-set q.size q.out_index q.in_index (some x) q.buffer xs r.out_bound r.ahead less
                r.holds)
              (ap (λ k. get_or (set q.buffer q.in_index (some x)) k none) (sym r.ahead)
                ∙ get_or-set-same q.buffer q.in_index (some x) (omega (arith, inside, r.room)));
      }

  pub take_slot-Represents :
      (q : Queue A) (x : A) (xs : List A)
      → Represents q (x ∷ xs)
      → ((take_slot q).0 ≡ some x) × Represents (take_slot q).1 xs
  unfolding take_slot
  take_slot-Represents q x xs r =
      let small : q.out_index + 1 < 2 ^ 32 = omega (arith, r.out_bound, r.fits, r.avail) in
      let index : (q.out_index + 1) % 2 ^ 32 % q.size ≡ (q.out_index + 1) % q.size =
        ap (λ k. k % q.size) (mod-eq_of_lt small) in
      (
        r.holds.0,
        record {
          room = r.room;
          some_room = r.some_room;
          fits = r.fits;
          out_bound = mod-lt ((q.out_index + 1) % 2 ^ 32) r.some_room;
          used = omega (arith, r.used);
          avail = omega (arith, r.avail);
          ahead =
              r.ahead
              ∙ next_index q.size q.out_index (length xs)
              ∙ ap (λ k. (k + length xs) % q.size) (sym index);
          holds = subst (λ i. Holds q.size i q.buffer xs) (sym index) r.holds.1;
        },
      )
