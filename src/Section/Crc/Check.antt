-- ===== src/Section/Crc/Check.antt =====
-- b1/ts_section_parser.c: when the checksum of a section that carries its own checksum is zero.
use recskapa.Base.{ℕ, ◌+◌, ◌*◌, ◌/◌, ◌%◌, ◌<◌, ◌≡◌, ◌↔◌, refl, sym, ap, ◌∙◌, bit_and, bit_xor, u32}
use recskapa.Base.{
  ◌^◌, passes_upto, passes_upto_lem, ◌<<◌, ◌>>◌, ◌==◌, get_or, true, ◌||◌, List, [], ◌∷◌, ◌++◌,
  IsByte, IsWord, All, arith, not,
}
use recskapa.Base.Bits.{xor_self, xor_eq_zero, xor-zero, xor-lt, xor-mod, zero-xor, and_mask}
use recskapa.Section.Crc.{table, crc_byte, crc_from, crc32}
use recskapa.Section.Crc.Serial.{crc_byte-lt}

abbrev index : ℕ → ℕ → ℕ
index c b = bit_and (bit_xor (c >> 24) b) 0xff

-- Only entry 0 of the table has a low byte of 0, and it is 0.
low_bytes : passes_upto (λ i. i == 0 || not (get_or table i 0 % 256 == 0)) 256 ≡ true
unfolding passes_upto table
low_bytes = refl

entry_zero : (i : ℕ) → i < 256 → get_or table i 0 % 256 ≡ 0 → i ≡ 0
entry_zero i lt h =
    ground
      (arith, passes_upto_lem (λ i. i == 0 || not (get_or table i 0 % 256 == 0)) 256 i lt low_bytes)

index-lt : (c b : ℕ) → index c b < 256
index-lt c b = omega (arith, and_mask 8 (bit_xor (c >> 24) b))

index_zero : (c b : ℕ) → IsWord c → IsByte b → index c b ≡ 0 → b ≡ c / 2 ^ 24
index_zero c b hc hb h = sym (
    xor_eq_zero (c >> 24) b (omega (arith, and_mask 8 (bit_xor (c >> 24) b), xor-lt 8 (c >> 24) b)))

-- A byte that equals the upper byte of the register shifts it out.
byte_taken : (c b : ℕ) → b ≡ c / 2 ^ 24 → crc_byte c b ≡ u32 (c << 8)
unfolding crc_byte table
byte_taken c b h = rw (h, xor_self (c / 2 ^ 24)) (xor-zero (u32 (c << 8)))

-- Conversely, only such a byte leaves a register whose low byte is 0.
byte_forced :
    (c b : ℕ)
    → IsWord c
    → IsByte b
    → crc_byte c b % 256 ≡ 0
    → (b ≡ c / 2 ^ 24) × (crc_byte c b ≡ u32 (c << 8))
byte_forced c b hc hb h = (equal, byte_taken c b equal)
  where
    entry : ℕ
    entry = get_or table (index c b) 0

    -- The shifted register adds nothing to the low byte.
    low : crc_byte c b % 256 ≡ entry % 256
    low =
        unfold crc_byte in
        xor-mod 8 (u32 (c << 8)) entry
        ∙ ap (λ x. bit_xor x (entry % 256)) (omega arith)
        ∙ zero-xor (entry % 256)

    equal : b ≡ c / 2 ^ 24
    equal = index_zero c b hc hb (entry_zero (index c b) (index-lt c b) (omega (arith, low, h)))

pub crc_from-append : (c : ℕ) (xs ys : List ℕ) → crc_from c (xs ++ ys) ≡ crc_from (crc_from c xs) ys
unfolding crc_from
crc_from-append c [] ys = refl
crc_from-append c (x ∷ xs) ys = crc_from-append (crc_byte c x) xs ys

pub crc_from-lt : (c : ℕ) (xs : List ℕ) → IsWord c → All IsByte xs → IsWord (crc_from c xs)
unfolding crc_from
crc_from-lt c [] hc hx = hc
crc_from-lt c (x ∷ xs) hc hx = crc_from-lt (crc_byte c x) xs (crc_byte-lt c x hc hx.0) hx.1

-- The number that four bytes spell, the first one the highest.
abbrev pub spelled : ℕ → ℕ → ℕ → ℕ → ℕ
spelled a b c d = ((a * 256 + b) * 256 + c) * 256 + d

module _ (c : ℕ) (hc : IsWord c) (b0 b1 b2 b3 : ℕ) (h0 : IsByte b0) (h1 : IsByte b1)
    (h2 : IsByte b2) (h3 : IsByte b3) where
  abbrev c1 : ℕ
  c1 = crc_byte c b0

  abbrev c2 : ℕ
  c2 = crc_byte c1 b1

  abbrev c3 : ℕ
  c3 = crc_byte c2 b2

  hc1 : IsWord c1
  hc1 = crc_byte-lt c b0 hc h0

  hc2 : IsWord c2
  hc2 = crc_byte-lt c1 b1 hc1 h1

  hc3 : IsWord c3
  hc3 = crc_byte-lt c2 b2 hc2 h2

  four_forced : crc_byte c3 b3 ≡ 0 → spelled b0 b1 b2 b3 ≡ c
  four_forced z =
      let f3 = byte_forced c3 b3 hc3 h3 (omega (arith, z)) in
      let f2 = byte_forced c2 b2 hc2 h2 (omega (arith, z, f3, hc3)) in
      let f1 = byte_forced c1 b1 hc1 h1 (omega (arith, z, f3, f2, hc3, hc2)) in
      let f0 = byte_forced c b0 hc h0 (omega (arith, z, f3, f2, f1, hc3, hc2, hc1)) in
      omega (arith, z, f3, f2, f1, f0, hc3, hc2, hc1, hc)

  four_taken : spelled b0 b1 b2 b3 ≡ c → crc_byte c3 b3 ≡ 0
  four_taken e =
      let t0 = byte_taken c b0 (omega arith) in
      let t1 = byte_taken c1 b1 (omega (arith, t0)) in
      let t2 = byte_taken c2 b2 (omega (arith, t0, t1)) in
      let t3 = byte_taken c3 b3 (omega (arith, t0, t1, t2)) in omega (arith, t0, t1, t2, t3)

-- For a message of bytes and four more: the checksum of all of them is 0, which is what
-- `put_exclude_section_start` and `put_include_section_start` test, exactly when the four spell the
-- checksum of the message.
pub crc32-eq-zero_iff :
    (message : List ℕ) (b0 b1 b2 b3 : ℕ)
    → All IsByte message
    → All IsByte (b0 ∷ b1 ∷ b2 ∷ b3 ∷ [])
    → (crc32 (message ++ (b0 ∷ b1 ∷ b2 ∷ b3 ∷ [])) ≡ 0) ↔ (spelled b0 b1 b2 b3 ≡ crc32 message)
unfolding crc32 crc_from
crc32-eq-zero_iff message b0 b1 b2 b3 hm (h0, (h1, (h2, (h3, _)))) =
    let c = crc_from 0xffffffff message in
    let hc : IsWord c = crc_from-lt 0xffffffff message (omega arith) hm in
    let split = crc_from-append 0xffffffff message (b0 ∷ b1 ∷ b2 ∷ b3 ∷ []) in
    (
      λ z. four_forced c hc b0 b1 b2 b3 h0 h1 h2 h3 (sym split ∙ z),
      λ e. split ∙ four_taken c hc b0 b1 b2 b3 h0 h1 h2 h3 e,
    )
