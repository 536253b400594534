-- ===== src/Multi2/Core/Width.antt =====
-- b1/multi2.c: halves of 32 bits stay within 32 bits.
use recskapa.Base.{ℕ, zero, suc, ◌<◌, IsWord, u32, arith}
use recskapa.Base.Bits.{xor-lt, or-lt}
use recskapa.Multi2.Word.{left_rotate_uint32, rotate-lt}
use recskapa.Multi2.Core.{CoreParam, CoreData, core_pi1, core_pi2, core_pi3, core_pi4}
use recskapa.Multi2.Core.{pi2_mask, pi3_mask, pi4_mask}
use recskapa.Multi2.Core.{encrypt_round, decrypt_round, core_encrypt, core_decrypt}

-- Both halves fit a `uint32_t`.
abbrev pub IsData : CoreData → Type 0
IsData s = IsWord s.l × IsWord s.r

u32-lt : (n : ℕ) → IsWord (u32 n)
u32-lt n = omega arith

rotated-lt : (n count : ℕ) → 0 < count → IsWord (left_rotate_uint32 (u32 n) count)
rotated-lt n count pos = rotate-lt (u32 n) count (u32-lt n) pos

pi2_mask-lt : (r a : ℕ) → IsWord (pi2_mask r a)
unfolding pi2_mask
pi2_mask-lt r a = xor-lt 32 _ _ (rotated-lt _ 4 (omega arith)) (u32-lt _)

pi3_mask-lt : (l a b : ℕ) → IsWord l → IsWord (pi3_mask l a b)
unfolding pi3_mask
pi3_mask-lt l a b h = xor-lt 32 _ _ (rotated-lt _ 16 (omega arith)) (or-lt 32 _ _ (u32-lt _) h)

pi4_mask-lt : (r a : ℕ) → IsWord (pi4_mask r a)
unfolding pi4_mask
pi4_mask-lt r a = u32-lt _

pi1-IsData : (s : CoreData) → IsData s → IsData (core_pi1 s)
unfolding core_pi1
pi1-IsData s (hl, hr) = (hl, xor-lt 32 _ _ hr hl)

pi2-IsData : (s : CoreData) (a : ℕ) → IsData s → IsData (core_pi2 s a)
unfolding core_pi2
pi2-IsData s a (hl, hr) = (xor-lt 32 _ _ hl (pi2_mask-lt s.r a), hr)

pi3-IsData : (s : CoreData) (a b : ℕ) → IsData s → IsData (core_pi3 s a b)
unfolding core_pi3
pi3-IsData s a b (hl, hr) = (hl, xor-lt 32 _ _ hr (pi3_mask-lt s.l a b hl))

pi4-IsData : (s : CoreData) (a : ℕ) → IsData s → IsData (core_pi4 s a)
unfolding core_pi4
pi4-IsData s a (hl, hr) = (xor-lt 32 _ _ hl (pi4_mask-lt s.r a), hr)

ruleset widths = (pi1-IsData, pi2-IsData, pi3-IsData, pi4-IsData)

encrypt_round-IsData : (w : CoreParam) (s : CoreData) → IsData s → IsData (encrypt_round w s)
unfolding encrypt_round
encrypt_round-IsData w s h = pi4-IsData _ _ (
    pi3-IsData _ _ _ (
      pi2-IsData _ _
        (pi1-IsData _ (pi4-IsData _ _ (pi3-IsData _ _ _ (pi2-IsData _ _ (pi1-IsData s h)))))))

decrypt_round-IsData : (w : CoreParam) (s : CoreData) → IsData s → IsData (decrypt_round w s)
unfolding decrypt_round
decrypt_round-IsData w s h = pi1-IsData _ (
    pi2-IsData _ _ (
      pi3-IsData _ _ _
        (pi4-IsData _ _ (pi1-IsData _ (pi2-IsData _ _ (pi3-IsData _ _ _ (pi4-IsData s _ h)))))))

pub core_encrypt-IsData :
    (n : ℕ) (w : CoreParam) (s : CoreData) → IsData s → IsData (core_encrypt n w s)
unfolding core_encrypt
core_encrypt-IsData zero w s h = h
core_encrypt-IsData (suc n) w s h =
    core_encrypt-IsData n w (encrypt_round w s) (encrypt_round-IsData w s h)

pub core_decrypt-IsData :
    (n : ℕ) (w : CoreParam) (s : CoreData) → IsData s → IsData (core_decrypt n w s)
unfolding core_decrypt
core_decrypt-IsData zero w s h = h
core_decrypt-IsData (suc n) w s h =
    core_decrypt-IsData n w (decrypt_round w s) (decrypt_round-IsData w s h)
