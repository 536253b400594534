-- ===== src/Decoder/Search.antt =====
-- b1/arib_std_b1.c: `find_pat`, `find_pmt` and `find_ecm`, the loops that look for the first tables.
-- The bytes are those from `curr` up to `tail`, and `at` is the distance of `curr` from the head.
pub mod Termination
use recskapa.Base.{
  ℕ, zero, suc, ◌+◌, ◌-◌, leb, ◌==◌, if◌then◌else◌, not, length, take, drop, List, Option, some,
  none, Bool, true, false, ◌||◌,
}
use recskapa.Decoder.{Code, ok, warn_unpurchased_ecm, no_enough_memory, pat_parse_failure}
use recskapa.Decoder.{pmt_parse_failure, ecm_parse_failure}
use recskapa.Decoder.{
  PidType, ecm, pmt, Target, null, program, decryptor, DecryptorElem, Program, Decoder,
}
use recskapa.Decoder.Decryptor.{find_dec}
use recskapa.Decoder.Flow.{payload_offset, next_packet}
use recskapa.Decoder.Pat.{proc_pat}
use recskapa.Decoder.Phase.{check_pmt_complete, check_ecm_complete}
use recskapa.Decoder.Platform.{
  Platform, System, Run, done, wild, out_of_fuel, with_result, is_negative, failed, waits, ready,
  feed,
}
use recskapa.Decoder.Pmt.{proc_pmt, store_program}
use recskapa.Decoder.Programs.{program_at}
use recskapa.Decoder.Tables.{open_parser, from_option, store_decryptor, run_ecm}
use recskapa.Packet.Header.{TsHeader, extract_ts_header}

-- How a packet ends: the loop goes on behind it, is left behind it, or the function returns at once.
pub data Move : Type 0 where
  go_on stop quit : Move

abbrev pub is_ok : Code → Bool
is_ok ok = true
is_ok _ = false

-- The result of an ECM that was sent to the card.
abbrev pub is_sent : Code → Bool
is_sent ok = true
is_sent warn_unpurchased_ecm = true
is_sent _ = false

abbrev pub payload_of : TsHeader → List ℕ → List ℕ
payload_of hdr bytes =
    let offset = payload_offset hdr bytes in take (188 - offset) (drop offset bytes)

-- `size < 1`.
abbrev pub lacks_payload : TsHeader → List ℕ → Bool
lacks_payload hdr bytes = leb 188 (payload_offset hdr bytes)

module _ {W : Type 0} (on : Platform W) where
  -- The result so far, how the packet ends, and the state.
  abbrev pub Found : Type 0
  Found = Code × Move × System W

  unfoldable pub find_pat_packet : Code → System W → List ℕ → Run Found
  find_pat_packet r sys bytes =
      let hdr = extract_ts_header bytes in
      let (opened, prv1) = open_parser on sys.prv sys.prv.pat in
      let sys1 = record sys { prv = record prv1 { pat = opened } } in
      if hdr.pid == 0x0000
      then if lacks_payload hdr bytes then done (r, go_on, sys) else elim opened [
        | none ↦ done (no_enough_memory, quit, sys1)
        | some old ↦ with_result (feed on.calloc old hdr (payload_of hdr bytes)) (λ (fed, parser).
            let sys2 = record sys1 { prv = record sys1.prv { pat = some parser } } in
            elim fed [
              | failed ↦ done (pat_parse_failure, stop, sys2)
              | waits ↦ done (r, go_on, sys2)
              | ready ↦ done (r, stop, sys2)
            ])
      ]
      else done (r, go_on, sys)

  -- A program whose table was read, or whose table comes a second time.
  unfoldable pub read_phase : System W → ℕ → ℕ → System W
  read_phase sys i phase = elim (program_at sys.prv.program i) [
    | none ↦ sys
    | some pgrm ↦ record sys { prv = store_program sys.prv i (record pgrm { phase = phase }) }
  ]

  -- A section of a PMT is there.
  unfoldable pub read_pmt : System W → ℕ → Run Found
  read_pmt sys i =
      with_result (from_option on sys (proc_pmt on.memory on.stale sys.prv i)) (λ (r, sys1).
        let sys2 = read_phase sys1 i 1 in
        if is_ok r
        then done (r, if check_pmt_complete sys2.prv then stop else go_on, sys2)
        else done (r, if is_negative r then stop else go_on, sys1))

  unfoldable pub find_program_packet : Code → System W → ℕ → TsHeader → List ℕ → Run Found
  find_program_packet r sys i hdr bytes = elim (program_at sys.prv.program i) [
    | none ↦ wild
    | some pgrm ↦
        if pgrm.phase == 0
        then if lacks_payload hdr bytes
          then done (r, go_on, sys)
          else with_result (feed on.calloc pgrm.pmt hdr (payload_of hdr bytes)) (λ (fed, parser).
            let sys1 = record sys {
              prv = store_program sys.prv i (record pgrm { pmt = parser });
            } in
            elim fed [
              | failed ↦ done (pmt_parse_failure, stop, sys1)
              | waits ↦ done (r, go_on, sys1)
              | ready ↦ read_pmt sys1 i
            ])
        else done (r, stop, read_phase sys i 2)
  ]

  unfoldable pub find_pmt_packet : Code → System W → List ℕ → Run Found
  find_pmt_packet r sys bytes =
      let hdr = extract_ts_header bytes in
      let entry = sys.prv.map hdr.pid in
      elim entry.type [
        | pmt ↦ elim entry.target [
          | null ↦ done (r, go_on, sys)
          | program i ↦ find_program_packet r sys i hdr bytes
          | decryptor id ↦ wild
        ]
        | _ ↦ done (r, go_on, sys)
      ]

  abbrev pub decryptor_phase : System W → ℕ → ℕ → System W
  decryptor_phase sys id phase = elim (find_dec id sys.prv.decrypt) [
    | none ↦ sys
    | some d ↦ store_decryptor on sys (record d { phase = phase })
  ]

  unfoldable pub find_decryptor_packet : Code → System W → ℕ → TsHeader → List ℕ → Run Found
  find_decryptor_packet r sys id hdr bytes = elim (find_dec id sys.prv.decrypt) [
    | none ↦ wild
    | some d ↦
        if d.phase == 0
        then if lacks_payload hdr bytes
          then done (r, go_on, sys)
          else with_result (feed on.calloc d.ecm hdr (payload_of hdr bytes)) (λ (fed, parser).
            let d1 = record d { ecm = parser } in
            elim fed [
              | failed ↦ done (ecm_parse_failure, stop, store_decryptor on sys d1)
              | waits ↦ done (r, go_on, store_decryptor on sys d1)
              | ready ↦
                  let (r', sys2) = run_ecm on sys d1 in
                  let sys3 = decryptor_phase sys2 id 1 in
                  if is_sent r'
                  then done (r', if check_ecm_complete sys3.prv then stop else go_on, sys3)
                  else done (r', if is_negative r' then stop else go_on, sys2)
            ])
        else done (r, stop, decryptor_phase sys id 2)
  ]

  unfoldable pub find_ecm_packet : Code → System W → List ℕ → Run Found
  find_ecm_packet r sys bytes =
      let hdr = extract_ts_header bytes in
      let entry = sys.prv.map hdr.pid in
      elim entry.type [
        | ecm ↦ elim entry.target [
          | null ↦ done (r, go_on, sys)
          | program i ↦ wild
          | decryptor id ↦ find_decryptor_packet r sys id hdr bytes
        ]
        | _ ↦ done (r, go_on, sys)
      ]

  -- The `while` loop of the three; the fuel is above the number of bytes. The result says whether the
  -- end of the function is reached, and where `curr` is then.
  unfoldable pub search_loop :
      (Code → System W → List ℕ → Run Found)
      → ℕ
      → ℕ
      → Code
      → System W
      → List ℕ
      → ℕ
      → Run (Code × Bool × System W × ℕ)
  search_loop packet zero unit r sys bytes at = out_of_fuel
  search_loop packet (suc fuel) unit r sys bytes at = elim (next_packet false unit bytes) [
    | none ↦ done (r, true, sys, at)
    | some k ↦ with_result (packet r sys (drop k bytes)) (λ (r', move, sys').
        let behind = at + k + unit in
        elim move [
          | go_on ↦ search_loop packet fuel unit r' sys' (drop unit (drop k bytes)) behind
          | stop ↦ done (r', true, sys', behind)
          | quit ↦ done (r', false, sys', behind)
        ])
  ]

  -- From `sbuf_offset` on.
  unfoldable pub search_from :
      (Code → System W → List ℕ → Run Found) → System W → Run (Code × Bool × System W)
  search_from packet sys =
      let bytes = drop sys.prv.sbuf_offset sys.prv.sbuf.bytes in
      with_result
        (search_loop packet (suc (length bytes)) sys.prv.unit_size ok sys bytes sys.prv.sbuf_offset)
        (λ (r, last, sys', at). done (
          r,
          last,
          if last then record sys' { prv = record sys'.prv { sbuf_offset = at } } else sys',
        ))

  -- A section of the PAT is used behind the loop, whatever the result was.
  unfoldable pub find_pat : System W → Run (Code × System W)
  find_pat sys = with_result (search_from find_pat_packet sys) (λ (r, last, sys').
      elim sys'.prv.pat [
        | none ↦ done (r, sys')
        | some parser ↦
            if not last || parser.buff.count == 0
            then done (r, sys')
            else from_option on sys' (proc_pat on.memory sys'.prv)
      ])

  abbrev pub only_result : Code × Bool × System W → Run (Code × System W)
  only_result (r, last, sys') = done (r, sys')

  unfoldable pub find_pmt : System W → Run (Code × System W)
  find_pmt sys = with_result (search_from find_pmt_packet sys) only_result

  unfoldable pub find_ecm : System W → Run (Code × System W)
  find_ecm sys = with_result (search_from find_ecm_packet sys) only_result
