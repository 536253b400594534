-- ===== src/Stream/WorkBuffer/Append.antt =====
-- b1/arib_std_b1.c: appending to a work buffer stays inside its memory.
use mathlib.Core.List.{append-nil}
use recskapa.Base.{
  ◌∷◌, sym, ℕ, zero, suc, ◌+◌, ◌*◌, ◌≤◌, ◌≡◌, refl, inl, inr, arith, ltb, leb, if◌then◌else◌,
}
use recskapa.Base.{length, length-append, List, [], ◌++◌, Bool, true, false, Bool-cases}
use recskapa.Stream.WorkBuffer.{
  WorkBuffer, double_up, grown_size, reserve_work_buffer, append_work_buffer, reset_work_buffer,
  release_work_buffer,
}

-- The tail is inside the memory.
abbrev pub Fits : WorkBuffer → Type 0
Fits buf = buf.before + length buf.bytes ≤ buf.max

double_up-le : (fuel n size : ℕ) → 1 ≤ n → size ≤ n + fuel → size ≤ double_up fuel n size
unfolding double_up
double_up-le zero n size h k = omega arith
double_up-le (suc fuel) n size h k =
    ground (arith, double_up-le fuel (n + n) size (omega arith) (omega arith))

-- The memory that is asked for is enough.
grown_size-le : (old size : ℕ) → size ≤ grown_size old size
unfolding grown_size
grown_size-le old size =
    ground (arith, double_up-le size (if ltb old 512 then 512 else old * 2) size)

-- On a buffer whose tail is inside its memory, appending either succeeds and puts the bytes behind
-- those that are there, or fails and leaves those that are there; in both cases the tail is inside
-- the memory afterwards, and appending fails only if it asked for memory and got none.
pub append_work_buffer-Fits :
    (malloc : ℕ → Bool) (buf : WorkBuffer) (bytes : List ℕ)
    → Fits buf
    → let (done, buf') = append_work_buffer malloc buf bytes in
      Fits buf'
      × (done ≡ true → buf'.bytes ≡ buf.bytes ++ bytes)
      × (done ≡ false
          → (buf' ≡ buf)
            × (malloc (grown_size buf.max (buf.before + length buf.bytes + length bytes)) ≡ false))
unfolding append_work_buffer reserve_work_buffer
append_work_buffer-Fits malloc buf [] fits =
    (fits, λ e. sym (append-nil buf.bytes), λ e. absurd (ground (arith, e)))
append_work_buffer-Fits malloc buf (b ∷ bytes) fits =
    let size : ℕ = buf.before + length buf.bytes + length (b ∷ bytes) in
    let all = length-append buf.bytes (b ∷ bytes) in
    let some_bytes : ltb (length (b ∷ bytes)) 1 ≡ false = ground arith in
    elim (Bool-cases (ltb buf.max size)) [
      | inr room ↦
          rw (append_work_buffer, some_bytes, room)
            (ground (arith, all, room), λ e. refl, λ e. absurd (ground (arith, e)))
      | inl full ↦
          let beyond : leb size buf.max ≡ false = ground (arith, full) in
          elim (Bool-cases (malloc (grown_size buf.max size))) [
            | inl granted ↦
                rw (append_work_buffer, some_bytes, full, reserve_work_buffer, beyond, granted)
                  (
                    omega (arith, all, grown_size-le buf.max size),
                    λ e. refl,
                    λ e. absurd (ground (arith, e)),
                  )
            | inr refused ↦
                rw (append_work_buffer, some_bytes, full, reserve_work_buffer, beyond, refused)
                  (fits, λ e. absurd (ground (arith, e)), λ e. (refl, refl))
          ]
    ]

-- Where there is memory, reserving succeeds and keeps the bytes inside the memory.
pub reserve_work_buffer-Fits :
    (malloc : ℕ → Bool) (buf : WorkBuffer) (size : ℕ)
    → ((n : ℕ) → malloc n ≡ true)
    → Fits buf
    → length buf.bytes ≤ size
    → let (enough, buf') = reserve_work_buffer malloc buf size in
      (enough ≡ true) × Fits buf' × (buf'.bytes ≡ buf.bytes)
unfolding reserve_work_buffer
reserve_work_buffer-Fits malloc buf size memory fits small =
    let granted = memory (grown_size buf.max size) in
    elim (Bool-cases (leb size buf.max)) [
      | inl room ↦ rw (reserve_work_buffer, room) (refl, fits, refl)
      | inr full ↦
          rw (reserve_work_buffer, full, granted)
            (refl, omega (arith, small, grown_size-le buf.max size), refl)
    ]

pub reset_work_buffer_bytes : (buf : WorkBuffer) → (reset_work_buffer buf).bytes ≡ []
unfolding reset_work_buffer
reset_work_buffer_bytes buf = refl

pub release_work_buffer_bytes : (buf : WorkBuffer) → (release_work_buffer buf).bytes ≡ []
unfolding release_work_buffer
release_work_buffer_bytes buf = refl
