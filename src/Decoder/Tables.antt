-- ===== src/Decoder/Tables.antt =====
-- b1/arib_std_b1.c: what `proc_arib_std_b1` and `flush_arib_std_b1` do with the payload of a packet
-- that carries a table.
use recskapa.Base.{ℕ, ◌+◌, ◌==◌, if◌then◌else◌, List, Option, some, none, Bool}
use recskapa.Decoder.{Code, no_enough_memory, pat_parse_failure, pmt_parse_failure}
use recskapa.Decoder.{ecm_parse_failure, cat_parse_failure}
use recskapa.Decoder.{ecm, pmt, null, program, decryptor, DecryptorElem, Decoder}
use recskapa.Decoder.Cat.{proc_cat}
use recskapa.Decoder.Decryptor.{find_dec, update_dec}
use recskapa.Decoder.Ecm.{proc_ecm}
use recskapa.Decoder.Pat.{proc_pat}
use recskapa.Decoder.Platform.{
  Platform, System, Run, done, wild, with_result, is_negative, failed, waits, ready, feed,
}
use recskapa.Decoder.Pmt.{proc_pmt, store_program}
use recskapa.Decoder.Programs.{program_at}
use recskapa.Packet.Header.{TsHeader}
use recskapa.Section.Parser.{Parser}
use recskapa.Section.Parser.Methods.{create_ts_section_parser}

-- How a packet ends: the loop goes on behind it, one byte further, or is left.
pub data Next : Type 0 where
  advance skip leave : Next

module _ {W : Type 0} (on : Platform W) where
  -- The result so far, and how the packet ends.
  abbrev pub Handled : Type 0
  Handled = Code × Next × System W

  abbrev pub finish : Code → System W → Run Handled
  finish r sys = done (r, if is_negative r then leave else advance, sys)

  abbrev pub from_option : System W → Option (Code × Decoder) → Run (Code × System W)
  from_option sys none = wild
  from_option sys (some (r, prv)) = done (r, record sys { prv = prv })

  abbrev pub store_decryptor : System W → DecryptorElem → System W
  store_decryptor sys d = record sys {
    prv = record sys.prv { decrypt = update_dec d.id (λ old. d) sys.prv.decrypt };
  }

  -- A request for memory is counted whether the ECM leads to one or not.
  unfoldable pub run_ecm : System W → DecryptorElem → Code × System W
  run_ecm sys d =
      let prv = record sys.prv { allocs = sys.prv.allocs + 1 } in
      let (r, d', bcas, w) =
        proc_ecm on.scard on.malloc (on.memory sys.prv.allocs) on.res d sys.bcas prv.multi2_round
          sys.world in
      (r, store_decryptor (record { prv = prv; bcas = bcas; world = w }) d')

  unfoldable pub ecm_packet : Code → System W → ℕ → TsHeader → List ℕ → Run Handled
  ecm_packet r sys id hdr payload = elim (find_dec id sys.prv.decrypt) [
    | none ↦ wild
    | some d ↦ with_result (feed on.calloc d.ecm hdr payload) (λ (fed, parser).
        let d1 = record d { ecm = parser } in
        elim fed [
          | failed ↦ done (ecm_parse_failure, leave, store_decryptor sys d1)
          | waits ↦ done (r, advance, store_decryptor sys d1)
          | ready ↦ let (r', sys') = run_ecm sys d1 in finish r' sys'
        ])
  ]

  unfoldable pub pmt_packet : Code → System W → ℕ → TsHeader → List ℕ → Run Handled
  pmt_packet r sys i hdr payload = elim (program_at sys.prv.program i) [
    | none ↦ wild
    | some pgrm ↦ with_result (feed on.calloc pgrm.pmt hdr payload) (λ (fed, parser).
        let sys1 = record sys { prv = store_program sys.prv i (record pgrm { pmt = parser }) } in
        elim fed [
          | failed ↦ done (pmt_parse_failure, leave, sys1)
          | waits ↦ done (r, advance, sys1)
          | ready ↦
              with_result (from_option sys1 (proc_pmt on.memory on.stale sys1.prv i))
                (λ (r', sys'). finish r' sys')
        ])
  ]

  -- The parser of a table, which is made for its first packet.
  unfoldable pub open_parser : Decoder → Option Parser → Option Parser × Decoder
  open_parser prv (some parser) = (some parser, prv)
  open_parser prv none = (
    if on.memory prv.allocs then some create_ts_section_parser else none,
    record prv { allocs = prv.allocs + 1 },
  )

  unfoldable pub cat_packet : Code → System W → TsHeader → List ℕ → Run Handled
  cat_packet r sys hdr payload =
      let (opened, prv1) = open_parser sys.prv sys.prv.cat in
      let sys1 = record sys { prv = record prv1 { cat = opened } } in
      elim opened [
        | none ↦ done (no_enough_memory, leave, sys1)
        | some old ↦ with_result (feed on.calloc old hdr payload) (λ (fed, parser).
            let sys2 = record sys1 { prv = record sys1.prv { cat = some parser } } in
            elim fed [
              | failed ↦ done (cat_parse_failure, leave, sys2)
              | waits ↦ done (r, advance, sys2)
              | ready ↦
                  with_result (from_option sys2 (proc_cat sys2.prv)) (λ (r', sys'). finish r' sys')
            ])
      ]

  -- Behind a PAT `proc_arib_std_b1` leaves its loop, and `flush_arib_std_b1` goes on.
  unfoldable pub pat_packet : Bool → Code → System W → TsHeader → List ℕ → Run Handled
  pat_packet flushing r sys hdr payload =
      let (opened, prv1) = open_parser sys.prv sys.prv.pat in
      let sys1 = record sys { prv = record prv1 { pat = opened } } in
      elim opened [
        | none ↦ done (no_enough_memory, leave, sys1)
        | some old ↦ with_result (feed on.calloc old hdr payload) (λ (fed, parser).
            let sys2 = record sys1 { prv = record sys1.prv { pat = some parser } } in
            elim fed [
              | failed ↦ done (pat_parse_failure, leave, sys2)
              | waits ↦ done (r, advance, sys2)
              | ready ↦
                  with_result (from_option sys2 (proc_pat on.memory sys2.prv))
                    (λ (r', sys'). if flushing then finish r' sys' else done (r', leave, sys'))
            ])
      ]

  -- The chain of tests on the entry and the identifier.
  unfoldable pub table_packet : Bool → Code → System W → TsHeader → List ℕ → Run Handled
  table_packet flushing r sys hdr payload =
      let entry = sys.prv.map hdr.pid in
      elim entry.type [
        | ecm ↦ elim entry.target [
          | null ↦ done (ecm_parse_failure, leave, sys)
          | program i ↦ wild
          | decryptor id ↦ ecm_packet r sys id hdr payload
        ]
        | pmt ↦ elim entry.target [
          | null ↦ done (pmt_parse_failure, leave, sys)
          | program i ↦ pmt_packet r sys i hdr payload
          | decryptor id ↦ wild
        ]
        | _ ↦
            if hdr.pid == 0x0001
            then cat_packet r sys hdr payload
            else if hdr.pid == 0x0000
            then pat_packet flushing r sys hdr payload
            else done (r, advance, sys)
      ]
