-- ===== src/Decoder/Flow.antt =====
-- b1/arib_std_b1.c: the loops of `proc_arib_std_b1` and `flush_arib_std_b1` over the packets. The
-- bytes are those from `curr` up to `tail`; what is behind `curr` is not read again.
pub mod Ends
pub mod Lengths
pub mod Termination
pub mod Clear
pub mod Tests
use recskapa.Base.{
  ℕ, zero, suc, ◌+◌, ◌-◌, ◌/◌, ltb, leb, ◌==◌, if◌then◌else◌, not, bit_and, length, take, drop,
  get_or, List, [], ◌∷◌, ◌++◌, Option, some, none, Bool, true, false, ◌&&◌, ◌||◌,
}
use recskapa.Decoder.{Code, ok, no_enough_memory, decrypt_failure}
use recskapa.Decoder.{
  PidType, unknown, other, Target, null, program, decryptor, PidMap, DecryptorElem, Decoder,
  set_map,
}
use recskapa.Decoder.Decryptor.{find_dec}
use recskapa.Decoder.Platform.{Platform, System, Run, done, wild, out_of_fuel, with_result}
use recskapa.Decoder.Tables.{Next, advance, skip, leave, table_packet}
use recskapa.Multi2.Handle.{Multi2, Status, decrypt}
use recskapa.Packet.Header.{TsHeader, extract_ts_header}
use recskapa.Stream.Sync.{resync, resync_force}
use recskapa.Stream.WorkBuffer.{WorkBuffer, reserve_work_buffer, append_work_buffer}

-- The distance of `p` from `curr`, behind the adaptation field.
abbrev pub payload_offset : TsHeader → List ℕ → ℕ
payload_offset hdr bytes =
    if bit_and hdr.adaptation_field_control 0x02 == 0 then 4 else 4 + (get_or bytes 4 0 + 1)

abbrev pub has_payload : TsHeader → Bool
has_payload hdr = not (bit_and hdr.adaptation_field_control 0x01 == 0)

-- `n < 1` and so on, where `n` is 188 less the distance.
abbrev pub is_broken : TsHeader → List ℕ → Bool
is_broken hdr bytes =
    let offset = payload_offset hdr bytes in leb 188 offset && (ltb 188 offset || has_payload hdr)

-- The decryptor of a scrambled packet.
unfoldable pub packet_decryptor : Decoder → ℕ → Run (Option DecryptorElem)
packet_decryptor prv pid =
    let entry = prv.map pid in
    elim entry.type [
      | other ↦ elim entry.target [
        | null ↦ done none
        | program i ↦ wild
        | decryptor id ↦ elim (find_dec id prv.decrypt) [ none ↦ wild | some d ↦ done (some d) ]
      ]
      | unknown ↦ elim prv.decrypt [
        | [] ↦ done none
        | d ∷ ds ↦ elim ds [ [] ↦ done (some d) | e ∷ es ↦ done none ]
      ]
      | _ ↦ done none
    ]

abbrev pub count_normal : Decoder → ℕ → Decoder
count_normal prv pid =
    let entry = prv.map pid in
    record prv {
      map = set_map prv.map pid (record entry { normal_packet = entry.normal_packet + 1 });
    }

abbrev pub count_undecrypted : Decoder → ℕ → Decoder
count_undecrypted prv pid =
    let entry = prv.map pid in
    record prv { map = set_map prv.map pid (record entry { undecrypted = entry.undecrypted + 1 }) }

-- `curr[3] &= 0x3f`.
abbrev pub clear_control : List ℕ → List ℕ
clear_control bytes = take 3 bytes ++ (bit_and (get_or bytes 3 0) 0x3f ∷ drop 4 bytes)

-- How the descrambling ends: `false` if it failed.
pub record Descrambled : Type 0 where
  pub fine : Bool
  pub prv : Decoder
  pub bytes : List ℕ

-- The bytes of the payload are replaced in place.
unfoldable pub decrypt_packet : Decoder → TsHeader → List ℕ → Multi2 → Descrambled
decrypt_packet prv hdr bytes m2 =
    let offset = payload_offset hdr bytes in
    let payload = drop offset bytes in
    let (status, out) =
      decrypt (some m2) hdr.transport_scrambling_control (some payload) (188 - offset) in
    let changed : List ℕ = elim out [ none ↦ bytes | some plain ↦ take offset bytes ++ plain ] in
    elim status [
      | Status.ok ↦ record {
        fine = true;
        prv = count_normal prv hdr.pid;
        bytes = clear_control changed;
      }
      | _ ↦ record { fine = false; prv = prv; bytes = changed }
    ]

-- What is done with the decryptor of a packet.
unfoldable pub decrypt_with : Decoder → TsHeader → List ℕ → Option DecryptorElem → Descrambled
decrypt_with prv hdr bytes none = record {
  fine = true;
  prv = count_undecrypted prv hdr.pid;
  bytes = bytes;
}
decrypt_with prv hdr bytes (some d) = elim d.m2 [
  | none ↦ record { fine = true; prv = count_undecrypted prv hdr.pid; bytes = bytes }
  | some m2 ↦ decrypt_packet prv hdr bytes m2
]

unfoldable pub descramble : Decoder → TsHeader → List ℕ → Run Descrambled
descramble prv hdr bytes =
    if not (hdr.transport_scrambling_control == 0) && has_payload hdr
    then with_result (packet_decryptor prv hdr.pid) (λ dec. done (decrypt_with prv hdr bytes dec))
    else done (record { fine = true; prv = count_normal prv hdr.pid; bytes = bytes })

-- A packet is put behind the output.
abbrev pub output : (ℕ → Bool) → Decoder → List ℕ → Bool × Decoder
output malloc prv bytes =
    let (enough, dbuf) = append_work_buffer malloc prv.dbuf (take 188 bytes) in
    (enough, record prv { dbuf = dbuf })

-- Whether there is another packet, and its distance; `none` leaves the loop.
abbrev pub next_packet : Bool → ℕ → List ℕ → Option ℕ
next_packet false unit bytes =
    if ltb unit (length bytes)
    then (if get_or bytes 0 0 == 0x47 && get_or bytes unit 0 == 0x47
        then some 0
        else resync bytes unit)
    else none
next_packet true unit bytes =
    if leb 188 (length bytes)
    then (if get_or bytes 0 0 == 0x47 then some 0 else resync_force bytes unit)
    else none

-- What is left of the input moves to the head of its memory, or stays.
abbrev pub keep_rest : WorkBuffer → List ℕ → WorkBuffer
keep_rest sbuf rest =
    let m = length sbuf.bytes - length rest in
    if ltb (length rest) 1024 || ltb (sbuf.max / 2) m
    then record { before = 0; bytes = rest; max = sbuf.max }
    else record { before = sbuf.before + m; bytes = rest; max = sbuf.max }

module _ {W : Type 0} (on : Platform W) where
  -- The result so far, how the packet ends, the state, and the bytes from the packet on.
  pub record Step : Type 0 where
    pub code : Code
    pub next : Next
    pub sys : System W
    pub bytes : List ℕ

  abbrev pub copy_packet : Code → System W → List ℕ → Step
  copy_packet r sys bytes =
      let (enough, prv) = output on.malloc sys.prv bytes in
      let sys1 = record sys { prv = prv } in
      if enough
      then record { code = r; next = advance; sys = sys1; bytes = bytes }
      else record { code = no_enough_memory; next = leave; sys = sys1; bytes = bytes }

  -- What comes behind the copy.
  unfoldable pub parse_copied : Bool → TsHeader → List ℕ → Step → Run Step
  parse_copied flushing hdr payload copied = elim copied.next [
    | advance ↦
        with_result (table_packet on flushing copied.code copied.sys hdr payload) (λ (r, next, sys).
          done (record { code = r; next = next; sys = sys; bytes = copied.bytes }))
    | _ ↦ done copied
  ]

  -- What comes behind the descrambling.
  unfoldable pub parse_clear : Bool → Code → System W → TsHeader → ℕ → Descrambled → Run Step
  parse_clear flushing r sys hdr offset clear =
      let sys1 = record sys { prv = clear.prv } in
      let payload = take (188 - offset) (drop offset clear.bytes) in
      if clear.fine
      then parse_copied flushing hdr payload (copy_packet r sys1 clear.bytes)
      else done (record { code = decrypt_failure; next = leave; sys = sys1; bytes = clear.bytes })

  -- A packet without a bit error that is not stripped, from the descrambling on.
  unfoldable pub parse_packet : Bool → Code → System W → TsHeader → List ℕ → Run Step
  parse_packet flushing r sys hdr bytes =
      with_result (descramble sys.prv hdr bytes)
        (λ clear. parse_clear flushing r sys hdr (payload_offset hdr bytes) clear)

  unfoldable pub one_packet : Bool → Code → System W → List ℕ → Run Step
  one_packet flushing r sys bytes =
      let hdr = extract_ts_header bytes in
      if hdr.transport_error_indicator == 0
      then if hdr.pid == 0x1fff && sys.prv.strip
        then done (record { code = r; next = advance; sys = sys; bytes = bytes })
        else if is_broken hdr bytes
        then done (record { code = r; next = skip; sys = sys; bytes = bytes })
        else parse_packet flushing r sys hdr bytes
      else done (copy_packet r sys bytes)

  -- The loops; the fuel is above the number of bytes. A step behind `tail` is wild, since a negative
  -- number of bytes is copied then.
  unfoldable pub packet_loop :
      Bool → ℕ → ℕ → Code → System W → List ℕ → Run (Code × System W × List ℕ)
  packet_loop flushing zero unit r sys bytes = out_of_fuel
  packet_loop flushing (suc fuel) unit r sys bytes = elim (next_packet flushing unit bytes) [
    | none ↦ done (r, sys, bytes)
    | some k ↦ with_result (one_packet flushing r sys (drop k bytes)) (λ s. elim s.next [
      | leave ↦ done (s.code, s.sys, s.bytes)
      | advance ↦
          if ltb (length s.bytes) unit
          then wild
          else packet_loop flushing fuel unit s.code s.sys (drop unit s.bytes)
      | skip ↦ packet_loop flushing fuel unit s.code s.sys (drop 1 s.bytes)
    ])
  ]

  unfoldable pub run_packets : Bool → System W → Run (Code × System W)
  run_packets flushing sys =
      let input = sys.prv.sbuf.bytes in
      let (enough, dbuf) =
        reserve_work_buffer on.malloc sys.prv.dbuf (length sys.prv.dbuf.bytes + length input) in
      let sys1 = record sys { prv = record sys.prv { dbuf = dbuf } } in
      if enough
      then with_result (packet_loop flushing (suc (length input)) sys.prv.unit_size ok sys1 input)
          (λ (r, sys2, rest).
            done (r, record sys2 { prv = record sys2.prv { sbuf = keep_rest sys2.prv.sbuf rest } }))
      else done (no_enough_memory, sys1)

  abbrev pub proc_arib_std_b1 : System W → Run (Code × System W)
  proc_arib_std_b1 = run_packets false
