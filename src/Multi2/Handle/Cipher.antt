-- ===== src/Multi2/Handle/Cipher.antt =====
-- b1/multi2.c: `encrypt_multi2` and `decrypt_multi2` as methods of the object.
use recskapa.Base.{ℕ, ◌<◌, ◌≤◌, ◌≡◌, ◌≢◌, sym, ap, ap₂, ◌∙◌, some, List, ◌++◌, ◌==◌}
use recskapa.Base.{length, take, drop, All, IsByte, arith, if◌then◌else◌}
use recskapa.Base.{
  length-append, length-take, length-drop, take_append_exact, drop_append_exact, All-take,
  take-append-drop,
}
use recskapa.Multi2.Core.{CoreParam, CoreData}
use recskapa.Multi2.Core.Width.{IsData}
use recskapa.Multi2.Mode.{encrypt_from, decrypt_from}
use recskapa.Multi2.Mode.RoundTrip.{decrypt_from-encrypt_from, encrypt_from-decrypt_from}
use recskapa.Multi2.Mode.RoundTrip.{length-encrypt_from, length-decrypt_from}
use recskapa.Multi2.Handle.Flags.{Call, run, held, no_keys, answer, run-check_state}
use recskapa.Multi2.Handle.{
  Multi2, create_multi2, invalid_parameter, ok, passes, select_key, process, check_state, encrypt,
  decrypt,
}

process_runs :
    (from : ℕ → CoreParam → CoreData → List ℕ → List ℕ) (h : Multi2) (type : ℕ) (buf : List ℕ)
    (size : ℕ)
    → check_state h.state ≡ ok
    → 0 < size
    → process from (some h) type (some buf) size ≡ (
      ok,
      some (from (passes h.round) (select_key h type) h.cbc_init (take size buf) ++ drop size buf),
    )
process_runs from h type buf size ready pos = ground arith

-- `put` may change bytes as long as it keeps their number, and `back` undoes it.
module _ (put back : ℕ → CoreParam → CoreData → List ℕ → List ℕ)
    (keeps : (n : ℕ) (w : CoreParam) (s : CoreData) (xs : List ℕ)
      → length (put n w s xs) ≡ length xs)
    (undoes : (n : ℕ) (w : CoreParam) (s : CoreData) (xs : List ℕ)
      → IsData s
      → All IsByte xs
      → back n w s (put n w s xs) ≡ xs) where
  -- A pass over the first `size` bytes and one back.
  process_back :
      (h : Multi2) (type : ℕ) (buf : List ℕ) (size : ℕ)
      → check_state h.state ≡ ok
      → IsData h.cbc_init
      → 0 < size
      → size ≤ length buf
      → All IsByte buf
      → (out : List ℕ) × (process put (some h) type (some buf) size ≡ (ok, some out))
        × (length out ≡ length buf)
        × (drop size out ≡ drop size buf)
        × (process back (some h) type (some out) size ≡ (ok, some buf))
  process_back h type buf size ready wide pos fits bytes = (
    out,
    process_runs put h type buf size ready pos,
    length-append done (drop size buf) ∙ omega (arith, counted, length-drop size buf),
    rest,
    process_runs back h type out size ready pos ∙ ap (λ x. (ok, some x)) restored,
  )
    where
      prefix : List ℕ
      prefix = take size buf

      done : List ℕ
      done = put (passes h.round) (select_key h type) h.cbc_init prefix

      out : List ℕ
      out = done ++ drop size buf

      counted : length done ≡ size
      counted = keeps _ _ _ prefix ∙ length-take size buf ∙ omega arith

      rest : drop size out ≡ drop size buf
      rest = drop_append_exact size done (drop size buf) counted

      restored :
          back (passes h.round) (select_key h type) h.cbc_init (take size out) ++ drop size out
          ≡ buf
      restored =
          ap₂ ◌++◌
            (ap (back (passes h.round) (select_key h type) h.cbc_init)
                (take_append_exact size done (drop size buf) counted)
              ∙ undoes _ _ _ prefix wide (All-take IsByte size buf bytes))
            rest
          ∙ take-append-drop size buf

-- In any state whose three keys are set and whose initial value is of two 32-bit words: with the
-- same scrambling control bits, encrypting the first `size` bytes of a buffer and decrypting them
-- succeeds and gives the buffer back. Encryption keeps the length and the bytes behind `size`.
pub decrypt-encrypt_buffer :
    (h : Multi2) (type : ℕ) (buf : List ℕ) (size : ℕ)
    → check_state h.state ≡ ok
    → IsData h.cbc_init
    → 0 < size
    → size ≤ length buf
    → All IsByte buf
    → (out : List ℕ) × (encrypt (some h) type (some buf) size ≡ (ok, some out))
      × (length out ≡ length buf)
      × (drop size out ≡ drop size buf)
      × (decrypt (some h) type (some out) size ≡ (ok, some buf))
unfolding encrypt decrypt
decrypt-encrypt_buffer =
    process_back encrypt_from decrypt_from length-encrypt_from decrypt_from-encrypt_from

-- In any such state, decrypting the first `size` bytes of a buffer and encrypting them succeeds
-- and gives the buffer back. Decryption keeps the length and the bytes behind `size`.
pub encrypt-decrypt_buffer :
    (h : Multi2) (type : ℕ) (buf : List ℕ) (size : ℕ)
    → check_state h.state ≡ ok
    → IsData h.cbc_init
    → 0 < size
    → size ≤ length buf
    → All IsByte buf
    → (out : List ℕ) × (decrypt (some h) type (some buf) size ≡ (ok, some out))
      × (length out ≡ length buf)
      × (drop size out ≡ drop size buf)
      × (encrypt (some h) type (some out) size ≡ (ok, some buf))
unfolding encrypt decrypt
encrypt-decrypt_buffer =
    process_back decrypt_from encrypt_from length-decrypt_from encrypt_from-decrypt_from

-- An empty buffer, or a state that lacks a key, is refused, and the buffer keeps its bytes.
process_status :
    (from : ℕ → CoreParam → CoreData → List ℕ → List ℕ) (m : Multi2) (type : ℕ) (buf : List ℕ)
    (size : ℕ)
    → let (s, out) = process from (some m) type (some buf) size in
      (s ≡ (if size == 0 then invalid_parameter else check_state m.state))
      × (s ≢ ok → out ≡ some buf)
process_status from m type buf size = ground arith

-- After any sequence of calls on a new object, both cipher methods answer a buffer of `size` bytes
-- in the same way: an empty one is an invalid parameter, and else the answer is the first of the
-- initial value, the system key and the scramble key that the sequence has not left set, or success
-- if none is missing. Unless they succeed, the buffer is left as it was.
pub run-answer :
    (cs : List Call) (type : ℕ) (buf : List ℕ) (size : ℕ)
    → let expected = if size == 0 then invalid_parameter else answer (held no_keys cs) in
      (m : Multi2) × (run (some create_multi2) cs ≡ some m)
      × ((encrypt (some m) type (some buf) size).0 ≡ expected)
      × ((decrypt (some m) type (some buf) size).0 ≡ expected)
      × (expected ≢ ok → (encrypt (some m) type (some buf) size).1 ≡ some buf)
      × (expected ≢ ok → (decrypt (some m) type (some buf) size).1 ≡ some buf)
unfolding encrypt decrypt
run-answer cs type buf size =
    let (m, alive, state, wide) = run-check_state cs in
    let enc = process_status encrypt_from m type buf size in
    let dec = process_status decrypt_from m type buf size in
    let same : (if size == 0 then invalid_parameter else check_state m.state)
        ≡ (if size == 0 then invalid_parameter else answer (held no_keys cs)) =
      ap (λ x. if size == 0 then invalid_parameter else x) state in
    (
      m,
      alive,
      enc.0 ∙ same,
      dec.0 ∙ same,
      λ bad. enc.1 (λ e. bad (sym (enc.0 ∙ same) ∙ e)),
      λ bad. dec.1 (λ e. bad (sym (dec.0 ∙ same) ∙ e)),
    )
