-- ===== src/Stream/Tests.antt =====
-- b1/arib_std_b1.c: the theorems at small inputs.
use recskapa.Base.{ℕ, ◌≤◌, ◌≡◌, arith, List, [], ◌∷◌, ◌++◌, true, false}
use recskapa.Stream.WorkBuffer.{WorkBuffer, append_work_buffer}
use recskapa.Stream.WorkBuffer.Append.{Fits, append_work_buffer-Fits}
use recskapa.Base.{◌<◌, zero, suc, refl, replicate, some}
use recskapa.Stream.UnitSize.{
  count_intervals, count_up, most_frequent, select_unit_size, select_unit_size_bounds,
}
use recskapa.Stream.Sync.{resync}
use recskapa.Stream.Sync.First.{IsLeast, Synced, resync-IsLeast}

abbrev small : WorkBuffer
small = record { before = 1; bytes = 4 ∷ 5 ∷ []; max = 3 }

append_work_buffer-Fits_example :
    let (done, buf') = append_work_buffer (λ n. true) small (6 ∷ 7 ∷ []) in
    Fits buf'
    × (done ≡ true → buf'.bytes ≡ 4 ∷ 5 ∷ 6 ∷ 7 ∷ [])
    × (done ≡ false → (buf' ≡ small) × (true ≡ false))
append_work_buffer-Fits_example =
    append_work_buffer-Fits (λ n. true) small (6 ∷ 7 ∷ []) (omega arith)

-- Units of one byte.
resync-IsLeast_example :
    IsLeast
      (Synced 1 (1 ∷ 71 ∷ 71 ∷ 71 ∷ 71 ∷ 71 ∷ 71 ∷ 71 ∷ 71 ∷ []))
      (resync (1 ∷ 71 ∷ 71 ∷ 71 ∷ 71 ∷ 71 ∷ 71 ∷ 71 ∷ 71 ∷ []) 1)
resync-IsLeast_example = resync-IsLeast (1 ∷ 71 ∷ 71 ∷ 71 ∷ 71 ∷ 71 ∷ 71 ∷ 71 ∷ 71 ∷ []) 1

-- Eight packets of 188 bytes, and the first byte of one more.
abbrev packets : ℕ → List ℕ
packets zero = 71 ∷ []
packets (suc n) = (71 ∷ replicate 187 0) ++ packets n

packets_size : select_unit_size (packets 8) ≡ some 188
unfolding select_unit_size most_frequent count_up count_intervals
packets_size = refl

select_unit_size_bounds_example : (188 ≤ 188) × (188 < 320)
select_unit_size_bounds_example = select_unit_size_bounds (packets 8) 188 packets_size
