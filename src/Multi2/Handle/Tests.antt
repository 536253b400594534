-- ===== src/Multi2/Handle/Tests.antt =====
-- b1/multi2.c: runs on small inputs, and the theorems at them.
use recskapa.Base.{ℕ, ◌≡◌, ◌≢◌, refl, arith, some, List, [], ◌∷◌, ◌++◌, length, drop}
use recskapa.Multi2.Word.{load_be_uint32, save_be_uint32, left_rotate_uint32}
use recskapa.Multi2.Core.{
  core_pi1, core_pi2, core_pi3, core_pi4, encrypt_round, core_encrypt, core_schedule,
}
use recskapa.Multi2.Core.{core_decrypt}
use recskapa.Multi2.Core.Inverse.{decrypt-encrypt}
use recskapa.Multi2.Mode.{xor_data, save_data, xor_tail, encrypt_from}
use recskapa.Multi2.Handle.{
  Multi2, create_multi2, ok, unset_scramble_key, check_state, encrypt, decrypt, zero_param,
  zero_data,
}
use recskapa.Multi2.Handle.{set_system_key, set_init_cbc, set_scramble_key}
use recskapa.Multi2.Handle.Flags.{Call, call, run, hold, held}
use recskapa.Multi2.Handle.Cipher.{decrypt-encrypt_buffer, encrypt-decrypt_buffer, run-answer}

abbrev script : List Call
script =
    Call.system_key (some (1 ∷ 2 ∷ 3 ∷ 4 ∷ 5 ∷ 6 ∷ 7 ∷ 8 ∷ []))
    ∷ Call.init_cbc (some (9 ∷ 10 ∷ 11 ∷ 12 ∷ 13 ∷ 14 ∷ 15 ∷ 16 ∷ []))
    ∷ Call.scramble_key
        (some (17 ∷ 18 ∷ 19 ∷ 20 ∷ 21 ∷ 22 ∷ 23 ∷ 24 ∷ 25 ∷ 26 ∷ 27 ∷ 28 ∷ 29 ∷ 30 ∷ 31 ∷ 32 ∷ []))
    ∷ []

-- A block and three more bytes.
abbrev text : List ℕ
text = 200 ∷ 1 ∷ 2 ∷ 3 ∷ 4 ∷ 5 ∷ 6 ∷ 255 ∷ 7 ∷ 8 ∷ 9 ∷ []

-- The keys are set, the block and the bytes that follow it are masked, and the length is kept.
encrypt_runs :
    (encrypt (run (some create_multi2) script) 2 (some text) 11).1
    ≡ some (126 ∷ 228 ∷ 225 ∷ 126 ∷ 102 ∷ 239 ∷ 69 ∷ 137 ∷ 228 ∷ 122 ∷ 177 ∷ [])
unfolding run call set_system_key set_init_cbc set_scramble_key create_multi2 core_schedule encrypt
    encrypt_from xor_data save_data xor_tail check_state core_encrypt encrypt_round core_pi1
    core_pi2 core_pi3 core_pi4 load_be_uint32 save_be_uint32 left_rotate_uint32
encrypt_runs = refl

-- An object whose three keys are set.
abbrev ready : Multi2
ready = record {
  ref_count = 1;
  cbc_init = record { l = 5; r = 6 };
  sys = zero_param;
  scr0 = zero_data;
  scr1 = record { l = 7; r = 8 };
  wrk0 = zero_param;
  wrk1 = record zero_param { key0 = 9 };
  round = 4;
  state = 7;
}

ready-ok : check_state ready.state ≡ ok
unfolding check_state
ready-ok = refl

decrypt-encrypt_example :
    core_decrypt 4 zero_param (core_encrypt 4 zero_param (record { l = 1; r = 2 }))
    ≡ record { l = 1; r = 2 }
decrypt-encrypt_example = decrypt-encrypt 4 zero_param (record { l = 1; r = 2 })

decrypt-encrypt_buffer_example :
    (out : List ℕ) × (encrypt (some ready) 2 (some text) 10 ≡ (ok, some out))
    × (length out ≡ 11)
    × (drop 10 out ≡ 9 ∷ [])
    × (decrypt (some ready) 2 (some out) 10 ≡ (ok, some text))
decrypt-encrypt_buffer_example =
    decrypt-encrypt_buffer ready 2 text 10 ready-ok (omega arith) (omega arith) (omega arith)
      (omega arith)

encrypt-decrypt_buffer_example :
    (out : List ℕ) × (decrypt (some ready) 1 (some text) 11 ≡ (ok, some out))
    × (length out ≡ 11)
    × (drop 11 out ≡ [])
    × (encrypt (some ready) 1 (some out) 11 ≡ (ok, some text))
encrypt-decrypt_buffer_example =
    encrypt-decrypt_buffer ready 1 text 11 ready-ok (omega arith) (omega arith) (omega arith)
      (omega arith)

run-answer_example :
    (m : Multi2) × (run (some create_multi2) (script ++ (Call.clear ∷ [])) ≡ some m)
    × ((encrypt (some m) 2 (some text) 11).0 ≡ unset_scramble_key)
    × ((decrypt (some m) 2 (some text) 11).0 ≡ unset_scramble_key)
    × (unset_scramble_key ≢ ok → (encrypt (some m) 2 (some text) 11).1 ≡ some text)
    × (unset_scramble_key ≢ ok → (decrypt (some m) 2 (some text) 11).1 ≡ some text)
unfolding held hold
run-answer_example = run-answer (script ++ (Call.clear ∷ [])) 2 text 11
