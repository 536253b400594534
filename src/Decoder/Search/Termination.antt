-- ===== src/Decoder/Search/Termination.antt =====
-- b1/arib_std_b1.c: the loops over the packets and those of the searches end.
use recskapa.Base.{
  ℕ, zero, suc, ◌+◌, ◌-◌, ◌≤◌, ◌<◌, ◌≡◌, ◌≢◌, ◌==◌, refl, arith, take, length, drop, length-drop,
  List, Bool, false, Bool-cases, Option-cases, inl, inr,
}
use recskapa.Decoder.{Code, ok}
use recskapa.Decoder.{PidType, pmt, ecm, Target, null, program, decryptor}
use recskapa.Decoder.Decryptor.{find_dec}
use recskapa.Decoder.Flow.{payload_offset, next_packet, run_packets}
use recskapa.Decoder.Flow.Ends.{Ends, with_result-Ends, feed-Ends, from_option-Ends, feed_then-Ends}
use recskapa.Decoder.Flow.Lengths.{next_packet_room}
use recskapa.Decoder.Flow.Termination.{run_packets-Ends}
use recskapa.Decoder.Pat.{proc_pat}
use recskapa.Decoder.Platform.{Platform, System, Run, done, wild, out_of_fuel, with_result}
use recskapa.Decoder.Pmt.{proc_pmt}
use recskapa.Decoder.Programs.{program_at}
use recskapa.Decoder.Search.{
  Found, find_pat_packet, read_pmt, lacks_payload, payload_of, find_program_packet, find_pmt_packet,
  find_decryptor_packet, find_ecm_packet, search_loop, search_from, find_pat, find_pmt, find_ecm,
  only_result,
}
use recskapa.Decoder.Tables.{open_parser, from_option}
use recskapa.Packet.Header.{TsHeader, extract_ts_header}

Ends_lem : {A : Type 0} (r : Run A) → Ends r → r ≢ out_of_fuel
Ends_lem (done a) h e = ground (arith, e)
Ends_lem wild h e = ground (arith, e)
Ends_lem out_of_fuel h e = h

module _ {W : Type 0} (on : Platform W) where
  find_pat_packet-Ends :
      (r : Code) (sys : System W) (bytes : List ℕ) → Ends (find_pat_packet on r sys bytes)
  unfolding find_pat_packet
  find_pat_packet-Ends r sys bytes =
      let hdr = extract_ts_header bytes in
      let offset = payload_offset hdr bytes in
      let payload = take (188 - offset) (drop offset bytes) in
      elim (Option-cases (open_parser on sys.prv sys.prv.pat).0) [
        | inl e ↦ ground (arith, e)
        | inr (old, e) ↦ ground (arith, e, feed-Ends on.calloc old hdr payload)
      ]

  read_pmt-Ends : (sys : System W) (i : ℕ) → Ends (read_pmt on sys i)
  unfolding read_pmt
  read_pmt-Ends sys i =
      with_result-Ends (from_option on sys (proc_pmt on.memory on.stale sys.prv i)) _
        (from_option-Ends on sys (proc_pmt on.memory on.stale sys.prv i)) (λ a. ground arith)

  find_program_packet-Ends :
      (r : Code) (sys : System W) (i : ℕ) (hdr : TsHeader) (bytes : List ℕ)
      → Ends (find_program_packet on r sys i hdr bytes)
  unfolding find_program_packet
  find_program_packet-Ends r sys i hdr bytes = elim (Option-cases (program_at sys.prv.program i)) [
    | inl e ↦ rw (find_program_packet, e) tt
    | inr (pgrm, e) ↦ elim (Bool-cases (pgrm.phase == 0)) [
      | inr late ↦ rw (find_program_packet, e, late) tt
      | inl first ↦ elim (Bool-cases (lacks_payload hdr bytes)) [
        | inl empty ↦ rw (find_program_packet, e, first, empty) tt
        | inr full ↦
            rw (find_program_packet, e, first, full)
              (feed_then-Ends on pgrm.pmt hdr (payload_of hdr bytes) _ (λ p. tt) (λ p. tt)
                (λ p. read_pmt-Ends _ i))
      ]
    ]
  ]

  find_pmt_packet-Ends :
      (r : Code) (sys : System W) (bytes : List ℕ) → Ends (find_pmt_packet on r sys bytes)
  unfolding find_pmt_packet
  find_pmt_packet-Ends r sys bytes =
      by_entry (sys.prv.map pid).type (sys.prv.map pid).target refl refl
    where
      pid : ℕ
      pid = (extract_ts_header bytes).pid

      by_entry :
          (type : PidType) (target : Target)
          → (sys.prv.map pid).type ≡ type
          → (sys.prv.map pid).target ≡ target
          → Ends (find_pmt_packet on r sys bytes)
      by_entry pmt null e f = rw (find_pmt_packet, e, f) tt
      by_entry pmt (decryptor id) e f = rw (find_pmt_packet, e, f) tt
      by_entry pmt (program i) e f =
          rw (find_pmt_packet, e, f)
            (find_program_packet-Ends r sys i (extract_ts_header bytes) bytes)
      by_entry type target e f = ground (arith, e, f)

  find_decryptor_packet-Ends :
      (r : Code) (sys : System W) (id : ℕ) (hdr : TsHeader) (bytes : List ℕ)
      → Ends (find_decryptor_packet on r sys id hdr bytes)
  unfolding find_decryptor_packet
  find_decryptor_packet-Ends r sys id hdr bytes =
      elim (Option-cases (find_dec id sys.prv.decrypt)) [
        | inl e ↦ rw (find_decryptor_packet, e) tt
        | inr (d, e) ↦ elim (Bool-cases (d.phase == 0)) [
          | inr late ↦ rw (find_decryptor_packet, e, late) tt
          | inl first ↦ elim (Bool-cases (lacks_payload hdr bytes)) [
            | inl empty ↦ rw (find_decryptor_packet, e, first, empty) tt
            | inr full ↦
                rw (find_decryptor_packet, e, first, full)
                  (feed_then-Ends on d.ecm hdr (payload_of hdr bytes) _ (λ p. tt) (λ p. tt)
                    (λ p. ground arith))
          ]
        ]
      ]

  find_ecm_packet-Ends :
      (r : Code) (sys : System W) (bytes : List ℕ) → Ends (find_ecm_packet on r sys bytes)
  unfolding find_ecm_packet
  find_ecm_packet-Ends r sys bytes =
      by_entry (sys.prv.map pid).type (sys.prv.map pid).target refl refl
    where
      pid : ℕ
      pid = (extract_ts_header bytes).pid

      by_entry :
          (type : PidType) (target : Target)
          → (sys.prv.map pid).type ≡ type
          → (sys.prv.map pid).target ≡ target
          → Ends (find_ecm_packet on r sys bytes)
      by_entry ecm null e f = rw (find_ecm_packet, e, f) tt
      by_entry ecm (program i) e f = rw (find_ecm_packet, e, f) tt
      by_entry ecm (decryptor id) e f =
          rw (find_ecm_packet, e, f)
            (find_decryptor_packet-Ends r sys id (extract_ts_header bytes) bytes)
      by_entry type target e f = ground (arith, e, f)

  search_loop-Ends :
      (packet : Code → System W → List ℕ → Run (Found on))
      → ((r : Code) (sys : System W) (bytes : List ℕ) → Ends (packet r sys bytes))
      → (fuel unit : ℕ) (r : Code) (sys : System W) (bytes : List ℕ) (at : ℕ) → 188 ≤ unit
      → length bytes < fuel
      → Ends (search_loop on packet fuel unit r sys bytes at)
  unfolding search_loop
  search_loop-Ends packet each zero unit r sys bytes at wide fuelled =
      absurd (omega (arith, fuelled))
  search_loop-Ends packet each (suc fuel) unit r sys bytes at wide fuelled =
      elim (Option-cases (next_packet false unit bytes)) [
        | inl e ↦ rw (search_loop, e) tt
        | inr (k, e) ↦
            let room = next_packet_room false unit bytes k wide e in
            let shorter : length (drop unit (drop k bytes)) < fuel =
              omega (
                arith,
                length-drop unit (drop k bytes),
                length-drop k bytes,
                room,
                fuelled,
                wide,
              ) in
            rw (search_loop, e)
              (with_result-Ends (packet r sys (drop k bytes)) _ (each r sys (drop k bytes)) (λ a.
                ground (
                  arith,
                  search_loop-Ends packet each fuel unit a.0 a.2 (drop unit (drop k bytes))
                      (at + k + unit) wide shorter,
                )))
      ]

  search_from-Ends :
      (packet : Code → System W → List ℕ → Run (Found on))
      → ((r : Code) (sys : System W) (bytes : List ℕ) → Ends (packet r sys bytes))
      → (sys : System W) → 188 ≤ sys.prv.unit_size
      → Ends (search_from on packet sys)
  unfolding search_from
  search_from-Ends packet each sys wide =
      let bytes = drop sys.prv.sbuf_offset sys.prv.sbuf.bytes in
      with_result-Ends
        (search_loop on packet (suc (length bytes)) sys.prv.unit_size ok sys bytes
          sys.prv.sbuf_offset)
        _
        (search_loop-Ends packet each (suc (length bytes)) sys.prv.unit_size ok sys bytes
          sys.prv.sbuf_offset wide (omega arith))
        (λ a. tt)

  search_done-Ends :
      (found : Run (Code × Bool × System W))
      → Ends found
      → Ends (with_result found (only_result on))
  search_done-Ends found h = with_result-Ends found (only_result on) h (λ a. tt)

  find_pat-Ends : (sys : System W) → 188 ≤ sys.prv.unit_size → Ends (find_pat on sys)
  unfolding find_pat
  find_pat-Ends sys wide =
      with_result-Ends (search_from on (find_pat_packet on) sys) _
        (search_from-Ends (find_pat_packet on) find_pat_packet-Ends sys wide)
        (λ a. ground (arith, from_option-Ends on a.2 (proc_pat on.memory a.2.prv)))

  -- If the size of a unit is at least 188, the loops over the packets of `proc_arib_std_b1`,
  -- `flush_arib_std_b1`, `find_pat`, `find_pmt` and `find_ecm` are left whatever the input, the other
  -- state and the platform are: none of them runs out of the fuel that the number of bytes gives.
  pub loops_end :
      (flushing : Bool) (sys : System W)
      → 188 ≤ sys.prv.unit_size
      → (run_packets on flushing sys ≢ out_of_fuel)
        × (find_pat on sys ≢ out_of_fuel)
        × (find_pmt on sys ≢ out_of_fuel)
        × (find_ecm on sys ≢ out_of_fuel)
  unfolding find_pmt find_ecm
  loops_end flushing sys wide = (
    Ends_lem _ (run_packets-Ends on flushing sys wide),
    Ends_lem _ (find_pat-Ends sys wide),
    Ends_lem _ (
        search_done-Ends (search_from on (find_pmt_packet on) sys)
          (search_from-Ends (find_pmt_packet on) find_pmt_packet-Ends sys wide)),
    Ends_lem _ (
        search_done-Ends (search_from on (find_ecm_packet on) sys)
          (search_from-Ends (find_ecm_packet on) find_ecm_packet-Ends sys wide)),
  )
