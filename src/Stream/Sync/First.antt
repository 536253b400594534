-- ===== src/Stream/Sync/First.antt =====
-- b1/arib_std_b1.c: the search finds the first place where packets are in step.
use recskapa.Base.{sym, ap, ◌∙◌, ℕ, zero, suc, ◌+◌, ◌-◌, ◌*◌, ◌≤◌, ◌<◌, ◌≡◌, refl, arith, leb, ◌==◌}
use recskapa.Base.{
  length, drop, get_or, List, [], ◌∷◌, Bool, true, false, ◌&&◌, Option, some, none, some-injective,
  Bool-cases, inl, inr,
}
use recskapa.Stream.Sync.{in_step, search, eight_in_step, resync, all_in_step, resync_force}

-- From the distance on there are enough bytes, and they pass the test.
abbrev pub Passes : ℕ → (List ℕ → Bool) → List ℕ → ℕ → Type 0
Passes enough test xs i = (i < length xs) × (enough ≤ length xs - i) × (test (drop i xs) ≡ true)

-- The result is the least number of which the predicate holds, or there is none.
abbrev pub IsLeast : (ℕ → Type 0) → Option ℕ → Type 0
IsLeast P none = (i : ℕ) → P i → 1 ≤ 0
IsLeast P (some k) = P k × ((i : ℕ) → P i → k ≤ i)

abbrev pub IsFirst : ℕ → (List ℕ → Bool) → List ℕ → Option ℕ → Type 0
IsFirst enough test xs r = IsLeast (Passes enough test xs) r

later :
    (enough : ℕ) (test : List ℕ → Bool) (x : ℕ) (xs : List ℕ) (r : Option ℕ)
    → test (x ∷ xs) ≡ false
    → IsFirst enough test xs r
    → IsFirst enough test (x ∷ xs) (elim r [ none ↦ none | some i ↦ some (suc i) ])
later enough test x xs none behind never = go
  where
    go : (i : ℕ) → Passes enough test (x ∷ xs) i → 1 ≤ 0
    go zero h = absurd (ground (arith, h.2, behind))
    go (suc i) (in_list, fits, passed) = never i (omega arith, omega arith, passed)
later enough test x xs (some k) behind ((in_list, fits, passed), least) =
    ((omega arith, omega arith, passed), go)
  where
    go : (i : ℕ) → Passes enough test (x ∷ xs) i → suc k ≤ i
    go zero h = absurd (ground (arith, h.2, behind))
    go (suc i) (in_list', fits', passed') =
        omega (arith, least i (omega arith, omega arith, passed'))

pub search-IsFirst :
    (enough : ℕ) (test : List ℕ → Bool) (xs : List ℕ)
    → IsFirst enough test xs (search enough test xs)
unfolding search
search-IsFirst enough test [] = λ i h. omega (arith, h.0)
search-IsFirst enough test (x ∷ xs) = elim (Bool-cases (leb enough (suc (length xs)))) [
  | inr short ↦ rw (search, short) (λ i h. ground (arith, h.1))
  | inl fits ↦ elim (Bool-cases (test (x ∷ xs))) [
    | inl here ↦
        rw (search, fits, here) ((omega arith, ground (arith, fits), here), λ i h. omega arith)
    | inr behind ↦
        rw (search, fits, behind)
          (later enough test x xs (search enough test xs) behind (search-IsFirst enough test xs))
  ]
]

IsLeast-same :
    (P Q : ℕ → Type 0) (r : Option ℕ)
    → ((i : ℕ) → P i → Q i)
    → ((i : ℕ) → Q i → P i)
    → IsLeast P r
    → IsLeast Q r
IsLeast-same P Q none to from never = λ i q. never i (from i q)
IsLeast-same P Q (some k) to from (here, least) = (to k here, λ i q. least i (from i q))

in_step-all :
    (buf : List ℕ) (unit_size i k j : ℕ)
    → in_step buf unit_size i k ≡ true
    → i ≤ j
    → j < i + k
    → get_or buf (unit_size * j) 0 ≡ 0x47
unfolding in_step
in_step-all buf unit_size i zero j h lo hi = absurd (omega arith)
in_step-all buf unit_size i (suc k) j h lo hi = elim (Bool-cases (i == j)) [
  | inl same ↦ let e : i ≡ j = ground arith in rw (sym e) (ground (arith, h))
  | inr other ↦
      in_step-all buf unit_size (i + 1) k j (ground (arith, h)) (ground arith) (omega arith)
]

all-in_step :
    (buf : List ℕ) (unit_size i k : ℕ)
    → ((j : ℕ) → i ≤ j → j < i + k → get_or buf (unit_size * j) 0 ≡ 0x47)
    → in_step buf unit_size i k ≡ true
unfolding in_step
all-in_step buf unit_size i zero h = refl
all-in_step buf unit_size i (suc k) h =
    let here = h i (omega arith) (omega arith) in
    let rest = all-in_step buf unit_size (i + 1) k (λ j lo hi. h j (omega arith) (omega arith)) in
    ground (arith, here, rest)

eight-from_zero :
    (unit_size : ℕ) (buf : List ℕ) → in_step buf unit_size 0 8 ≡ eight_in_step unit_size buf
unfolding in_step eight_in_step
eight-from_zero unit_size buf =
    let e : unit_size * 0 ≡ 0 = omega arith in
    ap (λ (k : ℕ). (get_or buf k 0 == 0x47) && in_step buf unit_size 1 7) e

-- From the distance on there are eight whole units, and each begins with the byte 0x47.
abbrev pub Synced : ℕ → List ℕ → ℕ → Type 0
Synced unit_size bytes k =
    (k < length bytes)
    × (unit_size * 8 ≤ length bytes - k)
    × ((i : ℕ) → i < 8 → get_or (drop k bytes) (unit_size * i) 0 ≡ 0x47)

-- `resync` returns the least distance from which on eight units are there and begin with the byte
-- 0x47, and NULL exactly if there is no such distance.
pub resync-IsLeast :
    (bytes : List ℕ) (unit_size : ℕ) → IsLeast (Synced unit_size bytes) (resync bytes unit_size)
unfolding resync
resync-IsLeast bytes unit_size =
    IsLeast-same (Passes (unit_size * 8) (eight_in_step unit_size) bytes) (Synced unit_size bytes)
      (resync bytes unit_size)
      (λ i h. (
        h.0,
        h.1,
        λ j small.
            in_step-all (drop i bytes) unit_size 0 8 j
              (eight-from_zero unit_size (drop i bytes) ∙ h.2) (omega arith) (omega arith),
      ))
      (λ i h. (
        h.0,
        h.1,
        sym (eight-from_zero unit_size (drop i bytes))
            ∙ all-in_step (drop i bytes) unit_size 0 8 (λ j lo hi. h.2 j (omega arith)),
      ))
      (search-IsFirst (unit_size * 8) (eight_in_step unit_size) bytes)

search_room :
    (enough : ℕ) (test : List ℕ → Bool) (xs : List ℕ) (r : Option ℕ) {k : ℕ}
    → r ≡ some k
    → IsFirst enough test xs r
    → k + enough ≤ length xs
search_room enough test xs none e h = absurd (ground (arith, e))
search_room enough test xs (some i) e (passes, least) =
    omega (arith, passes.0, passes.1, some-injective e)

-- Where a packet is found there is room behind it.
pub resync_room :
    (bytes : List ℕ) (unit k : ℕ) → resync bytes unit ≡ some k → k + unit * 8 ≤ length bytes
unfolding resync
resync_room bytes unit k e =
    search_room (unit * 8) (eight_in_step unit) bytes (search (unit * 8) (eight_in_step unit) bytes)
      e (search-IsFirst (unit * 8) (eight_in_step unit) bytes)

pub resync_force_room :
    (bytes : List ℕ) (unit k : ℕ) → resync_force bytes unit ≡ some k → k + 188 ≤ length bytes
unfolding resync_force
resync_force_room bytes unit k e =
    search_room 188 (all_in_step unit) bytes (search 188 (all_in_step unit) bytes) e
      (search-IsFirst 188 (all_in_step unit) bytes)
