-- ===== src/Stream/Sync.antt =====
-- b1/arib_std_b1.c: the search for the first byte of a packet. A pointer into the bytes is its
-- distance from `head`; the size of a unit is above 0.
pub mod First
use recskapa.Base.{
  ℕ, zero, suc, ◌+◌, ◌-◌, ◌*◌, ◌/◌, ltb, leb, ◌==◌, if◌then◌else◌, length, get_or, List, [], ◌∷◌,
  Bool, true, false, ◌&&◌, ◌||◌, Option, some, none,
}

-- `buf[unit_size*i] == 0x47` for the `k` values of `i` from `i` on.
pub in_step : List ℕ → ℕ → ℕ → ℕ → Bool
in_step buf unit_size i zero = true
in_step buf unit_size i (suc k) =
    (get_or buf (unit_size * i) 0 == 0x47) && in_step buf unit_size (i + 1) k

-- The `while` loop: the bytes from `buf` on, as long as there are enough of them.
pub search : ℕ → (List ℕ → Bool) → List ℕ → Option ℕ
search enough test [] = none
search enough test (x ∷ xs) =
    let later = search enough test xs in
    if leb enough (suc (length xs))
    then (if test (x ∷ xs) then some 0 else elim later [ none ↦ none | some i ↦ some (suc i) ])
    else none

pub eight_in_step : ℕ → List ℕ → Bool
eight_in_step unit_size buf = get_or buf 0 0 == 0x47 && in_step buf unit_size 1 7

pub resync : List ℕ → ℕ → Option ℕ
resync bytes unit_size = search (unit_size * 8) (eight_in_step unit_size) bytes

-- `n` units are left, and the ones that are there in whole are in step.
pub all_in_step : ℕ → List ℕ → Bool
all_in_step unit_size buf =
    let n = length buf / unit_size in
    get_or buf 0 0 == 0x47 && (n == 0 || in_step buf unit_size 1 (n - 1))

pub resync_force : List ℕ → ℕ → Option ℕ
resync_force bytes unit_size = search 188 (all_in_step unit_size) bytes
