-- ===== src/Decoder/Methods/Tests.antt =====
-- b1/arib_std_b1.c: a reset of a decoder with a program whose stream has a decryptor.
use recskapa.Base.{ℕ, ◌≡◌, [], some}
use recskapa.Decoder.{ok, Decoder, zero_map}
use recskapa.Decoder.Decryptor.Counted.{Counted, no_one}
use recskapa.Decoder.Methods.{reset_arib_std_b1}
use recskapa.Decoder.Methods.Cleared.{reset_cleared}
use recskapa.Decoder.Pat.Tests.{with_program, with_program-Counted, with_program-Releasable}

reset_cleared_example :
    (prv' : Decoder) × (reset_arib_std_b1 (some with_program) ≡ some (ok, some prv'))
    × (prv'.program ≡ [])
    × (prv'.decrypt ≡ [])
    × ((pid : ℕ) → prv'.map pid ≡ zero_map)
    × (prv'.sbuf.bytes ≡ [])
    × (prv'.dbuf.bytes ≡ [])
    × Counted no_one prv'
reset_cleared_example = reset_cleared with_program with_program-Releasable with_program-Counted
