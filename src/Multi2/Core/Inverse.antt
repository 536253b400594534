-- ===== src/Multi2/Core/Inverse.antt =====
-- b1/multi2.c: `core_decrypt` against `core_encrypt`, and the width of the halves.
use recskapa.Base.{ℕ, zero, suc, ◌≡◌, refl}
use recskapa.Base.Bits.{xor_cancel}
use recskapa.Multi2.Core.{CoreParam, CoreData, core_pi1, core_pi2, core_pi3, core_pi4}
use recskapa.Multi2.Core.{encrypt_round, decrypt_round, core_encrypt, core_decrypt}

-- Each elementary function undoes itself.
pi1_twice : (s : CoreData) → core_pi1 (core_pi1 s) ≡ s
unfolding core_pi1
pi1_twice s = rw (xor_cancel s.r s.l)

pi2_twice : (s : CoreData) (a : ℕ) → core_pi2 (core_pi2 s a) a ≡ s
unfolding core_pi2
pi2_twice s a = rw xor_cancel

pi3_twice : (s : CoreData) (a b : ℕ) → core_pi3 (core_pi3 s a b) a b ≡ s
unfolding core_pi3
pi3_twice s a b = rw xor_cancel

pi4_twice : (s : CoreData) (a : ℕ) → core_pi4 (core_pi4 s a) a ≡ s
unfolding core_pi4
pi4_twice s a = rw xor_cancel

ruleset involutions = (pi1_twice, pi2_twice, pi3_twice, pi4_twice)

decrypt_encrypt_round : (w : CoreParam) (s : CoreData) → decrypt_round w (encrypt_round w s) ≡ s
unfolding encrypt_round decrypt_round
decrypt_encrypt_round w s = simp involutions

encrypt_decrypt_round : (w : CoreParam) (s : CoreData) → encrypt_round w (decrypt_round w s) ≡ s
unfolding encrypt_round decrypt_round
encrypt_decrypt_round w s = simp involutions

encrypt_last :
    (n : ℕ) (w : CoreParam) (s : CoreData)
    → core_encrypt n w (encrypt_round w s) ≡ encrypt_round w (core_encrypt n w s)
unfolding core_encrypt
encrypt_last zero w s = refl
encrypt_last (suc n) w s = encrypt_last n w (encrypt_round w s)

decrypt_last :
    (n : ℕ) (w : CoreParam) (s : CoreData)
    → core_decrypt n w (decrypt_round w s) ≡ decrypt_round w (core_decrypt n w s)
unfolding core_decrypt
decrypt_last zero w s = refl
decrypt_last (suc n) w s = decrypt_last n w (decrypt_round w s)

-- With the same work key and number of rounds, decryption of a block undoes its encryption.
pub decrypt-encrypt :
    (n : ℕ) (w : CoreParam) (s : CoreData) → core_decrypt n w (core_encrypt n w s) ≡ s
unfolding core_encrypt core_decrypt
decrypt-encrypt zero w s = refl
decrypt-encrypt (suc n) w s =
    rw (encrypt_last n w s, decrypt_encrypt_round w (core_encrypt n w s)) (decrypt-encrypt n w s)

-- With the same work key and number of rounds, encryption of a block undoes its decryption.
pub encrypt-decrypt :
    (n : ℕ) (w : CoreParam) (s : CoreData) → core_encrypt n w (core_decrypt n w s) ≡ s
unfolding core_encrypt core_decrypt
encrypt-decrypt zero w s = refl
encrypt-decrypt (suc n) w s =
    rw (decrypt_last n w s, encrypt_decrypt_round w (core_decrypt n w s)) (encrypt-decrypt n w s)
