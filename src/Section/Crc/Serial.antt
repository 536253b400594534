-- ===== src/Section/Crc/Serial.antt =====
-- b1/ts_section_parser.c: the table-driven checksum against the division by the generator
-- polynomial, a bit at a time.
use recskapa.Base.{
  ℕ, zero, suc, ◌*◌, ◌/◌, ◌%◌, ◌^◌, ◌<◌, ◌≡◌, refl, sym, ap, ap₂, ◌∙◌, bit_and, bit_xor, u32,
}
use recskapa.Base.{
  ◌<<◌, ◌>>◌, ◌==◌, if◌then◌else◌, get_or, true, ==_iff, List, [], ◌∷◌, IsByte, IsWord, All, arith,
}
use recskapa.Base.{passes_upto, passes_upto_lem, Bool-cases, inl, inr}
use recskapa.Base.Bits.{
  xor_comm, xor_assoc, xor-zero, xor-lt, xor-mod, xor-div, xor-shift, xor_fields, and_mask,
}
use recskapa.Section.Crc.{table, crc_byte, crc_from, crc32}

abbrev pub polynomial : ℕ
polynomial = 0x04C11DB7

-- One step of the shift register.
pub bit_step : ℕ → ℕ
bit_step c = if c / 2 ^ 31 == 0 then u32 (c * 2) else bit_xor (u32 (c * 2)) polynomial

pub steps : ℕ → ℕ → ℕ
steps zero c = c
steps (suc n) c = steps n (bit_step c)

-- A byte goes into the top of the register, and is shifted out bit by bit.
pub serial_byte : ℕ → ℕ → ℕ
serial_byte crc b = steps 8 (bit_xor crc (b << 24))

pub serial_from : ℕ → List ℕ → ℕ
serial_from crc [] = crc
serial_from crc (b ∷ bs) = serial_from (serial_byte crc b) bs

-- Every entry of the table is its index shifted through the register.
table_checked : passes_upto (λ i. get_or table i 0 == steps 8 (i << 24)) 256 ≡ true
unfolding passes_upto table steps bit_step
table_checked = refl

pub table_entry : (i : ℕ) → i < 256 → get_or table i 0 ≡ steps 8 (i << 24)
table_entry i h =
    (==_iff _ _).0
      (passes_upto_lem (λ i. get_or table i 0 == steps 8 (i << 24)) 256 i h table_checked)

bit_step-lt : (c : ℕ) → IsWord (bit_step c)
unfolding bit_step
bit_step-lt c = elim (Bool-cases (c / 2 ^ 31 == 0)) [
  | inl e ↦ rw e (omega arith)
  | inr e ↦ rw e (xor-lt 32 _ _ (omega arith) (omega arith))
]

-- The doubled sum of two registers, cut to 32 bits.
xor_double : (a b : ℕ) → u32 (bit_xor a b * 2) ≡ bit_xor (u32 (a * 2)) (u32 (b * 2))
xor_double a b = ap u32 (sym (xor-shift 1 a b)) ∙ xor-mod 32 (a * 2) (b * 2)

-- What the step adds to the doubled register.
feedback : ℕ → ℕ
feedback t = if t == 0 then 0 else polynomial

bit_step_eq : (c : ℕ) → bit_step c ≡ bit_xor (u32 (c * 2)) (feedback (c / 2 ^ 31))
unfolding bit_step feedback
bit_step_eq c = elim (Bool-cases (c / 2 ^ 31 == 0)) [
  | inl e ↦ rw e (sym (xor-zero _))
  | inr e ↦ rw e
]

feedback-xor :
    (s t : ℕ) → s < 2 → t < 2 → feedback (bit_xor s t) ≡ bit_xor (feedback s) (feedback t)
unfolding feedback
feedback-xor zero zero hs ht = refl
feedback-xor zero (suc zero) hs ht = refl
feedback-xor (suc zero) zero hs ht = refl
feedback-xor (suc zero) (suc zero) hs ht = refl
feedback-xor (suc (suc s)) t hs ht = absurd (omega arith)
feedback-xor s (suc (suc t)) hs ht = absurd (omega arith)

xor_interchange :
    (a b c d : ℕ) → bit_xor (bit_xor a b) (bit_xor c d) ≡ bit_xor (bit_xor a c) (bit_xor b d)
xor_interchange a b c d =
    xor_assoc a b (bit_xor c d)
    ∙ ap (bit_xor a)
        (sym (xor_assoc b c d) ∙ ap (λ x. bit_xor x d) (xor_comm b c) ∙ xor_assoc c b d)
    ∙ sym (xor_assoc a c (bit_xor b d))

-- The register is linear over exclusive or.
bit_step-xor :
    (a b : ℕ) → IsWord a → IsWord b → bit_step (bit_xor a b) ≡ bit_xor (bit_step a) (bit_step b)
bit_step-xor a b ha hb =
    bit_step_eq (bit_xor a b)
    ∙ ap₂ bit_xor (xor_double a b) (
        ap feedback (xor-div 31 a b)
        ∙ feedback-xor (a / 2 ^ 31) (b / 2 ^ 31) (omega arith) (omega arith))
    ∙ xor_interchange (u32 (a * 2)) (u32 (b * 2)) (feedback (a / 2 ^ 31)) (feedback (b / 2 ^ 31))
    ∙ sym (ap₂ bit_xor (bit_step_eq a) (bit_step_eq b))

steps-xor :
    (n a b : ℕ) → IsWord a → IsWord b → steps n (bit_xor a b) ≡ bit_xor (steps n a) (steps n b)
unfolding steps
steps-xor zero a b ha hb = refl
steps-xor (suc n) a b ha hb =
    ap (steps n) (bit_step-xor a b ha hb)
    ∙ steps-xor n (bit_step a) (bit_step b) (bit_step-lt a) (bit_step-lt b)

-- A register whose upper byte is clear is only shifted.
bit_step_low : (c : ℕ) → c < 2 ^ 31 → bit_step c ≡ c * 2
unfolding bit_step
bit_step_low c h = ground arith

steps_low : (c : ℕ) → c < 2 ^ 24 → steps 8 c ≡ c << 8
unfolding steps
steps_low c h =
    rw
      (
        bit_step_low c (omega arith),
        bit_step_low (c * 2) (omega arith),
        bit_step_low (c * 2 * 2) (omega arith),
        bit_step_low (c * 2 * 2 * 2) (omega arith),
        bit_step_low (c * 2 * 2 * 2 * 2) (omega arith),
        bit_step_low (c * 2 * 2 * 2 * 2 * 2) (omega arith),
        bit_step_low (c * 2 * 2 * 2 * 2 * 2 * 2) (omega arith),
        bit_step_low (c * 2 * 2 * 2 * 2 * 2 * 2 * 2) (omega arith),
      )
      (omega arith)

-- The register as its upper byte and the 24 bits below.
split_top : (c : ℕ) → bit_xor (c / 2 ^ 24 * 2 ^ 24) (c % 2 ^ 24) ≡ c
split_top c = omega (arith, xor_fields 24 (c / 2 ^ 24) (c % 2 ^ 24) (omega arith))

index_byte :
    (c b : ℕ) → IsWord c → IsByte b → bit_and (bit_xor (c >> 24) b) 0xff ≡ bit_xor (c >> 24) b
index_byte c b hc hb =
    and_mask 8 (bit_xor (c >> 24) b) ∙ omega (arith, xor-lt 8 (c >> 24) b (omega arith) hb)

serial_byte_eq : (c b : ℕ) → IsWord c → IsByte b → crc_byte c b ≡ serial_byte c b
unfolding crc_byte serial_byte
serial_byte_eq c b hc hb =
    ap₂ bit_xor low entry
    ∙ xor_comm (steps 8 lo) (steps 8 (x << 24))
    ∙ sym (steps-xor 8 (x << 24) lo (omega (arith, x-lt)) (omega arith))
    ∙ ap (steps 8) (sym joined)
  where
    lo : ℕ
    lo = c % 2 ^ 24

    x : ℕ
    x = bit_xor (c >> 24) b

    x-lt : x < 256
    x-lt = xor-lt 8 (c >> 24) b (omega arith) hb

    low : u32 (c << 8) ≡ steps 8 lo
    low = omega (arith, steps_low lo (omega arith))

    entry : get_or table (bit_and x 0xff) 0 ≡ steps 8 (x << 24)
    entry = ap (λ i. get_or table i 0) (index_byte c b hc hb) ∙ table_entry x x-lt

    joined : bit_xor c (b << 24) ≡ bit_xor (x << 24) lo
    joined =
        ap (λ t. bit_xor t (b << 24)) (sym (split_top c))
        ∙ xor_assoc (c / 2 ^ 24 * 2 ^ 24) lo (b << 24)
        ∙ ap (bit_xor (c / 2 ^ 24 * 2 ^ 24)) (xor_comm lo (b << 24))
        ∙ sym (xor_assoc (c / 2 ^ 24 * 2 ^ 24) (b << 24) lo)
        ∙ ap (λ t. bit_xor t lo) (xor-shift 24 (c / 2 ^ 24) b)

steps-lt : (n c : ℕ) → IsWord c → IsWord (steps n c)
unfolding steps
steps-lt zero c h = h
steps-lt (suc n) c h = steps-lt n (bit_step c) (bit_step-lt c)

pub crc_byte-lt : (c b : ℕ) → IsWord c → IsByte b → IsWord (crc_byte c b)
unfolding serial_byte
crc_byte-lt c b hc hb =
    rw (serial_byte_eq c b hc hb) (steps-lt 8 _ (xor-lt 32 c (b << 24) hc (omega arith)))

-- From a 32-bit register on, the loop with the table computes what the shift register does.
pub crc_from-eq-serial_from :
    (c : ℕ) (bytes : List ℕ) → IsWord c → All IsByte bytes → crc_from c bytes ≡ serial_from c bytes
unfolding crc_from serial_from
crc_from-eq-serial_from c [] hc hb = refl
crc_from-eq-serial_from c (b ∷ bs) hc hb =
    crc_from-eq-serial_from (crc_byte c b) bs (crc_byte-lt c b hc hb.0) hb.1
    ∙ ap (λ x. serial_from x bs) (serial_byte_eq c b hc hb.0)

-- On every sequence of bytes, `crc32` is the remainder that the shift register computes with the
-- generator polynomial 0x04C11DB7 from a register of ones, the bytes highest bit first.
pub crc32-eq-serial :
    (bytes : List ℕ) → All IsByte bytes → crc32 bytes ≡ serial_from 0xffffffff bytes
unfolding crc32
crc32-eq-serial bytes h = crc_from-eq-serial_from 0xffffffff bytes (omega arith) h
