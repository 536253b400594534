-- ===== src/Decoder/Flow/Termination.antt =====
-- b1/arib_std_b1.c: the loops of `proc_arib_std_b1`, `flush_arib_std_b1` and of the searches end.
use recskapa.Base.{
  ℕ, zero, suc, ◌+◌, ◌≤◌, ◌<◌, ◌≡◌, arith, length, drop, length-drop, List, Bool, Bool-cases,
  Option-cases, inl, inr,
}
use recskapa.Decoder.{Code, ok}
use recskapa.Decoder.Flow.{one_packet, next_packet, packet_loop, run_packets}
use recskapa.Decoder.Flow.Ends.{Ends, with_result-Yields, with_result-Ends}
use recskapa.Decoder.Flow.Lengths.{length-one_packet, next_packet_room}
use recskapa.Decoder.Platform.{Platform, System}
use recskapa.Stream.WorkBuffer.{reserve_work_buffer}

module _ {W : Type 0} (on : Platform W) where
  packet_loop-Ends :
      (flushing : Bool) (fuel unit : ℕ) (r : Code) (sys : System W) (bytes : List ℕ)
      → 188 ≤ unit
      → length bytes < fuel
      → Ends (packet_loop on flushing fuel unit r sys bytes)
  unfolding packet_loop
  packet_loop-Ends flushing zero unit r sys bytes wide fuelled = absurd (omega (arith, fuelled))
  packet_loop-Ends flushing (suc fuel) unit r sys bytes wide fuelled =
      elim (Option-cases (next_packet flushing unit bytes)) [
        | inl e ↦ rw (packet_loop, e) tt
        | inr (k, e) ↦
            let room = next_packet_room flushing unit bytes k wide e in
            rw (packet_loop, e)
              (with_result-Yields _ _ (one_packet on flushing r sys (drop k bytes)) _
                (length-one_packet on flushing r sys (drop k bytes)
                  (omega (arith, room, length-drop k bytes)))
                (λ s same. ground (
                  arith,
                  packet_loop-Ends flushing fuel unit s.code s.sys (drop unit s.bytes) wide
                      (behind unit s.bytes k (omega (arith, wide)) same room),
                  packet_loop-Ends flushing fuel unit s.code s.sys (drop 1 s.bytes) wide
                      (behind 1 s.bytes k (omega arith) same room),
                )))
      ]
    where
      behind :
          (n : ℕ) (left : List ℕ) (k : ℕ)
          → 1 ≤ n
          → length left ≡ length (drop k bytes)
          → k + 188 ≤ length bytes
          → length (drop n left) < fuel
      behind n left k h same room =
          omega (arith, length-drop n left, same, length-drop k bytes, room, fuelled, h)

  pub run_packets-Ends :
      (flushing : Bool) (sys : System W)
      → 188 ≤ sys.prv.unit_size
      → Ends (run_packets on flushing sys)
  unfolding run_packets
  run_packets-Ends flushing sys wide =
      let input = sys.prv.sbuf.bytes in
      let size = length sys.prv.dbuf.bytes + length input in
      let (enough, dbuf) = reserve_work_buffer on.malloc sys.prv.dbuf size in
      let sys1 = record sys { prv = record sys.prv { dbuf = dbuf } } in
      elim (Bool-cases (reserve_work_buffer on.malloc sys.prv.dbuf size).0) [
        | inr e ↦ rw (run_packets, e) tt
        | inl e ↦
            rw (run_packets, e)
              (with_result-Ends
                (packet_loop on flushing (suc (length input)) sys.prv.unit_size ok sys1 input) _
                (packet_loop-Ends flushing (suc (length input)) sys.prv.unit_size ok sys1 input wide
                  (omega arith))
                (λ a. tt))
      ]
