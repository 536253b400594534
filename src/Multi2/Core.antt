-- ===== src/Multi2/Core.antt =====
-- b1/multi2.c: the elementary functions on a block, the rounds and the key schedule. A destination
-- parameter is the result.
pub mod Inverse
pub mod Width
use recskapa.Base.{ℕ, zero, suc, ◌+◌, ◌-◌, ◌^◌, ◌<◌, bit_or, bit_xor, u32}
use recskapa.Multi2.Word.{left_rotate_uint32}

-- `CORE_PARAM`: the eight words of `key`.
pub record CoreParam : Type 0 where
  pub key0 : ℕ
  pub key1 : ℕ
  pub key2 : ℕ
  pub key3 : ℕ
  pub key4 : ℕ
  pub key5 : ℕ
  pub key6 : ℕ
  pub key7 : ℕ

-- `CORE_DATA`: the two halves of a block.
pub record CoreData : Type 0 where
  pub l : ℕ
  pub r : ℕ

unfoldable pub core_pi1 : CoreData → CoreData
core_pi1 src = record { l = src.l; r = bit_xor src.r src.l }

-- What `core_pi2` masks the left half with; unsigned sums wrap.
pi2_mask : ℕ → ℕ → ℕ
pi2_mask r a =
    let t0 = u32 (r + a) in
    let t1 = u32 (left_rotate_uint32 t0 1 + t0 + 2 ^ 32 - 1) in bit_xor (left_rotate_uint32 t1 4) t1

unfoldable pub core_pi2 : CoreData → ℕ → CoreData
unfolding pi2_mask
core_pi2 src a = record { l = bit_xor src.l (pi2_mask src.r a); r = src.r }

pi3_mask : ℕ → ℕ → ℕ → ℕ
pi3_mask l a b =
    let t0 = u32 (l + a) in
    let t1 = u32 (left_rotate_uint32 t0 2 + t0 + 1) in
    let t2 = bit_xor (left_rotate_uint32 t1 8) t1 in
    let t3 = u32 (t2 + b) in
    let t4 = u32 (left_rotate_uint32 t3 1 + 2 ^ 32 - t3) in
    bit_xor (left_rotate_uint32 t4 16) (bit_or t4 l)

unfoldable pub core_pi3 : CoreData → ℕ → ℕ → CoreData
unfolding pi3_mask
core_pi3 src a b = record { l = src.l; r = bit_xor src.r (pi3_mask src.l a b) }

pi4_mask : ℕ → ℕ → ℕ
pi4_mask r a = let t0 = u32 (r + a) in u32 (left_rotate_uint32 t0 2 + t0 + 1)

unfoldable pub core_pi4 : CoreData → ℕ → CoreData
unfolding pi4_mask
core_pi4 src a = record { l = bit_xor src.l (pi4_mask src.r a); r = src.r }

-- One pass of the loop of `core_encrypt`, and one of `core_decrypt`.
unfoldable pub encrypt_round : CoreParam → CoreData → CoreData
encrypt_round w dst =
    let s1 = core_pi1 dst in
    let s2 = core_pi2 s1 w.key0 in
    let s3 = core_pi3 s2 w.key1 w.key2 in
    let s4 = core_pi4 s3 w.key3 in
    let s5 = core_pi1 s4 in
    let s6 = core_pi2 s5 w.key4 in let s7 = core_pi3 s6 w.key5 w.key6 in core_pi4 s7 w.key7

unfoldable pub decrypt_round : CoreParam → CoreData → CoreData
decrypt_round w dst =
    let s1 = core_pi4 dst w.key7 in
    let s2 = core_pi3 s1 w.key5 w.key6 in
    let s3 = core_pi2 s2 w.key4 in
    let s4 = core_pi1 s3 in
    let s5 = core_pi4 s4 w.key3 in
    let s6 = core_pi3 s5 w.key1 w.key2 in let s7 = core_pi2 s6 w.key0 in core_pi1 s7

-- The first argument counts the passes that are left.
unfoldable pub core_encrypt : ℕ → CoreParam → CoreData → CoreData
core_encrypt zero w src = src
core_encrypt (suc n) w src = core_encrypt n w (encrypt_round w src)

unfoldable pub core_decrypt : ℕ → CoreParam → CoreData → CoreData
core_decrypt zero w src = src
core_decrypt (suc n) w src = core_decrypt n w (decrypt_round w src)

unfoldable pub core_schedule : CoreParam → CoreData → CoreParam
core_schedule skey dkey =
    let b1 = core_pi1 dkey in
    let b2 = core_pi2 b1 skey.key0 in
    let b3 = core_pi3 b2 skey.key1 skey.key2 in
    let b4 = core_pi4 b3 skey.key3 in
    let b5 = core_pi1 b4 in
    let b6 = core_pi2 b5 skey.key4 in
    let b7 = core_pi3 b6 skey.key5 skey.key6 in
    let b8 = core_pi4 b7 skey.key7 in
    let b9 = core_pi1 b8 in
    record {
      key0 = b2.l;
      key1 = b3.r;
      key2 = b4.l;
      key3 = b5.r;
      key4 = b6.l;
      key5 = b7.r;
      key6 = b8.l;
      key7 = b9.r;
    }
