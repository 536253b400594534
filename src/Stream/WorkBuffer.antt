-- ===== src/Stream/WorkBuffer.antt =====
-- b1/arib_std_b1.c: `TS_WORK_BUFFER`. The bytes from `head` up to `tail` are a list, and `before` is
-- the distance from `pool` to `head`; where `pool` is NULL, `max` is 0. Sizes are taken to stay
-- below 2 ^ 31.
pub mod Append
use recskapa.Base.{
  ℕ, zero, suc, ◌+◌, ◌*◌, ltb, leb, if◌then◌else◌, length, List, [], ◌++◌, Bool, true, false,
  Option, some, none,
}

pub record WorkBuffer : Type 0 where
  pub before : ℕ
  pub bytes : List ℕ
  pub max : ℕ

-- The loop `while(n < size)`, in at most as many rounds as the first argument says.
pub double_up : ℕ → ℕ → ℕ → ℕ
double_up zero n size = n
double_up (suc fuel) n size =
    let more = double_up fuel (n + n) size in if ltb n size then more else n

-- The size of the new memory.
pub grown_size : ℕ → ℕ → ℕ
grown_size old size = double_up size (if ltb old 512 then 512 else old * 2) size

-- `malloc` answers whether a request of a size succeeds; the results are as in the source.
module _ (malloc : ℕ → Bool) where
  pub reserve_work_buffer : WorkBuffer → ℕ → Bool × WorkBuffer
  reserve_work_buffer buf size =
      let n = grown_size buf.max size in
      if leb size buf.max
      then (true, buf)
      else if malloc n
      then (true, record { before = 0; bytes = buf.bytes; max = n })
      else (false, buf)

  pub append_work_buffer : WorkBuffer → List ℕ → Bool × WorkBuffer
  append_work_buffer buf bytes =
      let m = buf.before + length buf.bytes in
      let (enough, buf') =
        if ltb buf.max (m + length bytes)
        then reserve_work_buffer buf (m + length bytes)
        else (true, buf) in
      if ltb (length bytes) 1
      then (true, buf)
      else if enough
      then (true, record buf' { bytes = buf'.bytes ++ bytes })
      else (false, buf')

pub reset_work_buffer : WorkBuffer → WorkBuffer
reset_work_buffer buf = record { before = 0; bytes = []; max = buf.max }

pub release_work_buffer : WorkBuffer → WorkBuffer
release_work_buffer buf = record { before = 0; bytes = []; max = 0 }
