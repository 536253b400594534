-- ===== src/Decoder/Descriptor.antt =====
-- b1/arib_std_b1.c: the search for the descriptor of the conditional access system.
use mathlib.Core.Path.{subst}
use recskapa.Base.{
  ◌⊎◌, Bool-cases, inl, inr, ◌∙◌, ℕ, zero, suc, ◌+◌, ◌≤◌, ◌<◌, ◌≡◌, refl, arith, bit_and, bit_or,
  ◌<<◌, ltb, leb, ◌==◌, ◌*◌, ◌%◌, ◌↔◌, All, IsByte, [], ◌∷◌,
}
use recskapa.Base.{if◌then◌else◌, length, get_or, drop, length-drop, List, Bool, true, ◌&&◌}
use recskapa.Base.Bits.{and_mask, or_fields}

-- The descriptor at the head of the bytes.
abbrev pub is_ca : List ℕ → ℕ → Bool
is_ca bytes ca_system_id =
    let len = get_or bytes 1 0 in
    get_or bytes 0 0 == 0x09
    && leb 4 len
    && leb (2 + len) (length bytes)
    && bit_or (get_or bytes 2 0 << 8) (get_or bytes 3 0) == ca_system_id

abbrev pub ca_pid : List ℕ → ℕ
ca_pid bytes = bit_and (bit_or (get_or bytes 4 0 << 8) (get_or bytes 5 0)) 0x1fff

-- The loop, on the bytes from `head` up to `tail`; each round takes two bytes at least, so that as
-- many rounds as there are bytes are enough.
unfoldable pub find_ca_from : ℕ → List ℕ → ℕ → ℕ
find_ca_from zero bytes ca_system_id = 0
find_ca_from (suc fuel) bytes ca_system_id =
    let later = find_ca_from fuel (drop (2 + get_or bytes 1 0) bytes) ca_system_id in
    if ltb 1 (length bytes) then (if is_ca bytes ca_system_id then ca_pid bytes else later) else 0

unfoldable pub find_ca_descriptor_pid : List ℕ → ℕ → ℕ
find_ca_descriptor_pid bytes ca_system_id = find_ca_from (length bytes) bytes ca_system_id

-- Where a descriptor begins: at the head, or behind a descriptor that has its tag and length.
pub data Begins : List ℕ → List ℕ → Type 0 where
  here : (bytes : List ℕ) → 2 ≤ length bytes → Begins bytes bytes
  behind :
      (bytes at : List ℕ)
      → 2 ≤ length bytes
      → Begins (drop (2 + get_or bytes 1 0) bytes) at
      → Begins bytes at

enough_left : (bytes at : List ℕ) → Begins bytes at → 2 ≤ length bytes
enough_left _ _ (here bytes long) = long
enough_left _ _ (behind bytes at long later) = long

head_or_rest :
    (bytes at : List ℕ)
    → Begins bytes at
    → (bytes ≡ at) ⊎ Begins (drop (2 + get_or bytes 1 0) bytes) at
head_or_rest _ _ (here bytes long) = inl refl
head_or_rest _ _ (behind bytes at long later) = inr later

-- The descriptor at the head is one of conditional access for the system: it has the tag 9, is long
-- enough for its fields, ends inside the bytes and names the system.
abbrev pub IsCa : List ℕ → ℕ → Type 0
IsCa at ca_system_id =
    (get_or at 0 0 ≡ 9)
    × (4 ≤ get_or at 1 0)
    × (2 + get_or at 1 0 ≤ length at)
    × (get_or at 2 0 * 256 + get_or at 3 0 ≡ ca_system_id)

-- No descriptor for the system.
abbrev pub HasNoCa : List ℕ → ℕ → Type 0
HasNoCa bytes ca_system_id = (at : List ℕ) → Begins bytes at → ¬ IsCa at ca_system_id

-- The identifier stands in a descriptor for the system, in the low 13 bits of two bytes.
abbrev pub IsInCa : List ℕ → ℕ → ℕ → Type 0
IsInCa bytes ca_system_id pid =
    (at : List ℕ) × Begins bytes at
    × IsCa at ca_system_id
    × (pid ≡ get_or at 4 0 % 32 * 256 + get_or at 5 0)

get_or_lt : (bytes : List ℕ) (i : ℕ) → All IsByte bytes → get_or bytes i 0 < 256
get_or_lt [] i h = omega arith
get_or_lt (b ∷ bytes) zero h = h.0
get_or_lt (b ∷ bytes) (suc i) h = get_or_lt bytes i h.1

All-drop : (n : ℕ) (bytes : List ℕ) → All IsByte bytes → All IsByte (drop n bytes)
All-drop zero bytes h = h
All-drop (suc n) [] h = h
All-drop (suc n) (b ∷ bytes) h = All-drop n bytes h.1

is_ca-IsCa :
    (bytes : List ℕ) (ca_system_id : ℕ)
    → All IsByte bytes
    → is_ca bytes ca_system_id ≡ true ↔ IsCa bytes ca_system_id
is_ca-IsCa bytes ca_system_id h =
    let e = or_fields 8 (get_or bytes 2 0) (get_or bytes 3 0) (get_or_lt bytes 3 h) in ground arith

ca_pid_lem :
    (bytes : List ℕ)
    → All IsByte bytes
    → ca_pid bytes ≡ get_or bytes 4 0 % 32 * 256 + get_or bytes 5 0
ca_pid_lem bytes h = omega (
  arith,
  or_fields 8 (get_or bytes 4 0) (get_or bytes 5 0) (get_or_lt bytes 5 h),
  and_mask 13 (bit_or (get_or bytes 4 0 << 8) (get_or bytes 5 0)),
  get_or_lt bytes 5 h,
)

-- As many rounds as there are bytes are enough.
find_ca_from_lem :
    (fuel : ℕ) (bytes : List ℕ) (ca_system_id : ℕ)
    → All IsByte bytes
    → length bytes ≤ fuel
    → ((find_ca_from fuel bytes ca_system_id ≡ 0) × HasNoCa bytes ca_system_id)
      ⊎ IsInCa bytes ca_system_id (find_ca_from fuel bytes ca_system_id)
unfolding find_ca_from
find_ca_from_lem zero bytes ca_system_id are_bytes h =
    inl (refl, λ at begins. absurd (omega (arith, h, enough_left bytes at begins)))
find_ca_from_lem (suc fuel) bytes ca_system_id are_bytes h =
    let rest : List ℕ = drop (2 + get_or bytes 1 0) bytes in
    let left = length-drop (2 + get_or bytes 1 0) bytes in
    let rest_bytes = All-drop (2 + get_or bytes 1 0) bytes are_bytes in
    let reads = is_ca-IsCa bytes ca_system_id are_bytes in
    elim (Bool-cases (ltb 1 (length bytes))) [
      | inr short ↦ inl (
        rw (find_ca_from, short) refl,
        λ at begins. absurd (ground (arith, short, enough_left bytes at begins)),
      )
      | inl long ↦
          let enough : 2 ≤ length bytes = ground (arith, long) in
          elim (Bool-cases (is_ca bytes ca_system_id)) [
            | inl ca ↦ inr (
              bytes,
              here bytes enough,
              reads.0 ca,
              rw (find_ca_from, long, ca) (ca_pid_lem bytes are_bytes),
            )
            | inr not_ca ↦
                let later : find_ca_from (suc fuel) bytes ca_system_id
                    ≡ find_ca_from fuel rest ca_system_id =
                  rw (find_ca_from, long, not_ca) refl in
                elim (find_ca_from_lem fuel rest ca_system_id rest_bytes
                  (omega (arith, left, h, enough))) [
                    | inl (nothing, no_ca) ↦ inl (
                      later ∙ nothing,
                      λ at begins. elim (head_or_rest bytes at begins) [
                        | inl same ↦
                            subst (λ b. ¬ IsCa b ca_system_id) same
                              (λ ca. ground (arith, reads.1 ca, not_ca))
                        | inr further ↦ no_ca at further
                      ],
                    )
                    | inr (at, begins, ca, e) ↦
                        inr (at, behind bytes at enough begins, ca, later ∙ e)
                  ]
          ]
    ]

find_ca_from_lt :
    (fuel : ℕ) (bytes : List ℕ) (ca_system_id : ℕ) → find_ca_from fuel bytes ca_system_id < 0x2000
unfolding find_ca_from
find_ca_from_lt zero bytes ca_system_id = omega arith
find_ca_from_lt (suc fuel) bytes ca_system_id = elim (Bool-cases (ltb 1 (length bytes))) [
  | inr short ↦ rw (find_ca_from, short) (omega arith)
  | inl long ↦ elim (Bool-cases (is_ca bytes ca_system_id)) [
    | inl ca ↦
        rw (find_ca_from, long, ca)
          (omega (arith, and_mask 13 (bit_or (get_or bytes 4 0 << 8) (get_or bytes 5 0))))
    | inr not_ca ↦
        rw (find_ca_from, long, not_ca)
          (find_ca_from_lt fuel (drop (2 + get_or bytes 1 0) bytes) ca_system_id)
  ]
]

-- For any bytes, the identifier that is found is below 0x2000.
pub find_ca_descriptor_pid_lt :
    (bytes : List ℕ) (ca_system_id : ℕ) → find_ca_descriptor_pid bytes ca_system_id < 0x2000
unfolding find_ca_descriptor_pid
find_ca_descriptor_pid_lt bytes ca_system_id = find_ca_from_lt (length bytes) bytes ca_system_id

-- For a list of bytes, either the result is 0 and no descriptor has the tag 9, a length of at least
-- 4 that stays inside the bytes, and the system as the big-endian number in its first two bytes; or
-- the result is the low 13 bits of the two bytes behind these in such a descriptor. The descriptors
-- are those that one comes to from the head by going from one to the next.
pub find_ca_descriptor_pid_lem :
    (bytes : List ℕ) (ca_system_id : ℕ)
    → All IsByte bytes
    → let pid = find_ca_descriptor_pid bytes ca_system_id in
      ((pid ≡ 0) × HasNoCa bytes ca_system_id) ⊎ IsInCa bytes ca_system_id pid
unfolding find_ca_descriptor_pid
find_ca_descriptor_pid_lem bytes ca_system_id are_bytes =
    find_ca_from_lem (length bytes) bytes ca_system_id are_bytes (omega arith)
