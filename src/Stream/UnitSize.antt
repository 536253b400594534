-- ===== src/Stream/UnitSize.antt =====
-- b1/arib_std_b1.c: `select_unit_size`, on the bytes of the input buffer. Codes below 0 are `none`.
use recskapa.Base.{
  ℕ, suc, ◌+◌, ◌*◌, ◌≤◌, ◌<◌, ◌≡◌, ◌⊎◌, refl, ap, arith, ltb, ◌==◌, if◌then◌else◌, length, get_or,
  replicate, List, [], ◌∷◌, ◌&&◌, ◌||◌, Option, some, none, Bool-cases, inl, inr,
}

-- The inner loop from the interval `i` on: a count for each interval.
unfoldable pub count_intervals : List ℕ → ℕ → ℕ → List ℕ → List ℕ
count_intervals buf m i [] = []
count_intervals buf m i (c ∷ count) =
    (if ltb i m && get_or buf i 0 == 0x47 then c + 1 else c) ∷ count_intervals buf m (i + 1) count

-- The first step.
unfoldable pub count_up : List ℕ → List ℕ → List ℕ
count_up [] count = count
count_up (x ∷ xs) count =
    let size = suc (length xs) in
    let m = if ltb size 320 then size else 320 in
    let counted = if x == 0x47 then count_intervals (x ∷ xs) m 188 count else count in
    let rest = count_up xs counted in if ltb 188 size then rest else count

-- The second step: the greatest count so far and its interval, from the interval `i` on.
unfoldable pub most_frequent : ℕ → List ℕ → ℕ → ℕ → ℕ × ℕ
most_frequent i [] m n = (m, n)
most_frequent i (c ∷ count) m n =
    if ltb m c then most_frequent (i + 1) count c i else most_frequent (i + 1) count m n

-- The size that `prv->unit_size` is set to.
unfoldable pub select_unit_size : List ℕ → Option ℕ
select_unit_size bytes =
    let (m, n) = most_frequent 188 (count_up bytes (replicate 132 0)) 0 0 in
    if ltb m 8 || ltb (m * n + 3 * n) (length bytes) then none else some n

length-count_intervals :
    (buf : List ℕ) (m i : ℕ) (count : List ℕ)
    → length (count_intervals buf m i count) ≡ length count
unfolding count_intervals
length-count_intervals buf m i [] = refl
length-count_intervals buf m i (c ∷ count) = ap suc (length-count_intervals buf m (i + 1) count)

length-count_up : (bytes count : List ℕ) → length (count_up bytes count) ≡ length count
unfolding count_up
length-count_up [] count = refl
length-count_up (x ∷ xs) count =
    let size : ℕ = suc (length xs) in
    let m : ℕ = if ltb size 320 then size else 320 in
    let counted : List ℕ = if x == 0x47 then count_intervals (x ∷ xs) m 188 count else count in
    ground (arith, length-count_up xs counted, length-count_intervals (x ∷ xs) m 188 count)

most_frequent-bounds :
    (i : ℕ) (count : List ℕ) (m n : ℕ)
    → 188 ≤ i
    → (m ≡ 0) ⊎ ((188 ≤ n) × (n < i))
    → let (m', n') = most_frequent i count m n in (m' ≡ 0) ⊎ ((188 ≤ n') × (n' < i + length count))
unfolding most_frequent
most_frequent-bounds i [] m n h k = ground (arith, k)
most_frequent-bounds i (c ∷ count) m n h k = elim (Bool-cases (ltb m c)) [
  | inl more ↦
      rw (most_frequent, more)
        (ground
          (arith, most_frequent-bounds (i + 1) count c i (omega arith) (inr (h, omega arith))))
  | inr less ↦
      rw (most_frequent, less)
        (ground (arith, most_frequent-bounds (i + 1) count m n (omega arith) (ground (arith, k))))
]

-- For all input, a unit size that is selected is at least that of a packet and below 320.
pub select_unit_size_bounds :
    (bytes : List ℕ) (n : ℕ) → select_unit_size bytes ≡ some n → (188 ≤ n) × (n < 320)
unfolding select_unit_size
select_unit_size_bounds bytes n e =
    let bound =
      most_frequent-bounds 188 (count_up bytes (replicate 132 0)) 0 0 (omega arith) (inl refl) in
    ground (arith, e, bound, length-count_up bytes (replicate 132 0))
