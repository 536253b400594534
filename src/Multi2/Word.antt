-- ===== src/Multi2/Word.antt =====
-- b1/multi2.c: big-endian words in a byte buffer, and the rotation.
use recskapa.Base.{ℕ, ◌+◌, ◌-◌, ◌*◌, ◌/◌, ◌%◌, ◌^◌, ◌<◌, bit_and, bit_or, List, [], ◌∷◌}
use recskapa.Base.{u8, u32, ◌<<◌, ◌>>◌, IsByte, IsWord, ◌≡◌, arith, ◌∙◌}
use native.Mathlib.Nat.{le_trans, div-le_self}
use Prim.Native.Nat.{suc-le-suc}
use recskapa.Base.Bits.{or_fields, and_mask, or-lt}

-- A byte goes to `int` first; the or of the four shifted bytes is stored in a `uint32_t`.
unfoldable pub load_be_uint32 : ℕ → ℕ → ℕ → ℕ → ℕ
load_be_uint32 a b c d = u32 (bit_or (bit_or (bit_or (a << 24) (b << 16)) (c << 8)) d)

unfoldable pub save_be_uint32 : ℕ → List ℕ
save_be_uint32 w =
    u8 (bit_and (w >> 24) 0xff)
    ∷ u8 (bit_and (w >> 16) 0xff)
    ∷ u8 (bit_and (w >> 8) 0xff)
    ∷ u8 (bit_and w 0xff)
    ∷ []

-- Called with a count from 1 to 31.
unfoldable pub left_rotate_uint32 : ℕ → ℕ → ℕ
left_rotate_uint32 val count = bit_or (u32 (val << count)) (val >> (32 - count))

pub load_sum :
    (a b c d : ℕ)
    → IsByte a
    → IsByte b
    → IsByte c
    → IsByte d
    → load_be_uint32 a b c d ≡ ((a * 256 + b) * 256 + c) * 256 + d
unfolding load_be_uint32
load_sum a b c d ha hb hc hd =
    rw
      (
        or_fields 24 a (b << 16) (omega arith),
        top,
        or_fields 16 (a * 256 + b) (c << 8) (omega arith),
        upper,
        or_fields 8 ((a * 256 + b) * 256 + c) d hd,
      )
      (omega arith)
  where
    top : a * 2 ^ 24 + b * 2 ^ 16 ≡ (a * 256 + b) * 2 ^ 16
    top = omega arith

    upper : (a * 256 + b) * 2 ^ 16 + c * 2 ^ 8 ≡ ((a * 256 + b) * 256 + c) * 2 ^ 8
    upper = omega arith

pub save_bytes :
    (w : ℕ) → save_be_uint32 w ≡ w / 16777216 % 256 ∷ w / 65536 % 256 ∷ w / 256 % 256 ∷ w % 256 ∷ []
unfolding save_be_uint32
save_bytes w = rw (masked 24, masked 16, masked 8, masked_low)
  where
    masked : (k : ℕ) → u8 (bit_and (w >> k) 0xff) ≡ w / 2 ^ k % 256
    masked k = omega (arith, and_mask 8 (w >> k))

    masked_low : u8 (bit_and w 0xff) ≡ w % 256
    masked_low = omega (arith, and_mask 8 w)

-- The word that is loaded from four consecutive bytes, and the rest of them.
abbrev pub load_word : List ℕ → ℕ
load_word (a ∷ b ∷ c ∷ d ∷ _) = load_be_uint32 a b c d
load_word _ = 0

-- Saving a word and loading the four bytes gives it back.
pub load-save : (w : ℕ) → IsWord w → load_word (save_be_uint32 w) ≡ w
load-save w h = rw (save_bytes w) (
    omega (
      arith,
      load_sum (w / 16777216 % 256) (w / 65536 % 256) (w / 256 % 256) (w % 256) (omega arith)
          (omega arith) (omega arith) (omega arith),
    ))

-- Loading four bytes and saving the word gives them back.
pub save-load :
    (a b c d : ℕ)
    → IsByte a
    → IsByte b
    → IsByte c
    → IsByte d
    → save_be_uint32 (load_be_uint32 a b c d) ≡ a ∷ b ∷ c ∷ d ∷ []
save-load a b c d ha hb hc hd =
    save_bytes (load_be_uint32 a b c d) ∙ ground (arith, load_sum a b c d ha hb hc hd)

pub load-lt : (a b c d : ℕ) → IsWord (load_be_uint32 a b c d)
unfolding load_be_uint32
load-lt a b c d = omega arith

pub rotate-lt : (val count : ℕ) → IsWord val → 0 < count → IsWord (left_rotate_uint32 val count)
unfolding left_rotate_uint32
rotate-lt val count h pos =
    or-lt 32 (u32 (val << count)) (val >> (32 - count)) (omega arith)
      (le_trans (suc-le-suc (div-le_self val (2 ^ (32 - count)))) h)
