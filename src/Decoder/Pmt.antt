-- ===== src/Decoder/Pmt.antt =====
-- b1/arib_std_b1.c: the program map table. A result is `none` where the source follows a pointer to
-- something else than a decryptor that is in the list, or counts references to one below 0.
pub mod Parts
pub mod Rounds
pub mod Renewed
pub mod Counts
pub mod Tests
use recskapa.Base.{
  ℕ, zero, suc, ◌+◌, ◌-◌, ◌^◌, ◌%◌, ltb, ◌==◌, if◌then◌else◌, not, bit_and, bit_or, ◌<<◌, length,
  drop, get_or, List, [], ◌∷◌, Bool, true, false, ◌&&◌, Option, some, none,
}
use recskapa.Decoder.{Code, ok, no_enough_memory, warn_ts_section_id_missmatch}
use recskapa.Decoder.{warn_broken_ts_section, pmt_parse_failure}
use recskapa.Decoder.{PidType, other, PidMap, DecryptorElem, Program, Decoder, set_map}
use recskapa.Decoder.Decryptor.{find_dec, update_dec, set_ref, drop_ref, set_decryptor}
use recskapa.Decoder.Decryptor.{select_active_decryptor, bind_stream_decryptor, unref_all}
use recskapa.Decoder.Descriptor.{find_ca_descriptor_pid}
use recskapa.Decoder.Programs.{program_at, set_program}
use recskapa.Section.Assembly.{Section}
use recskapa.Section.Parser.{Parser}
use recskapa.Section.Parser.Methods.{Handed, get, ret}
use recskapa.Stream.Elems.{
  StreamElem, StreamList, get_stream_list_head, find_stream_list_elem, create_stream_elem,
  put_stream_list_tail,
}

-- One round of the loop over the elementary streams: what is read of the section.
pub record PmtStream : Type 0 where
  pub type : ℕ
  pub pid : ℕ
  pub ecm_pid : ℕ

-- The section is read behind its end where its lengths are wrong: `stale` is what lies there, by the
-- distance from `data`.
module _ (stale : ℕ → ℕ) where
  abbrev byte_at : List ℕ → ℕ → ℕ
  byte_at bytes i = get_or bytes i (stale i)

  unfoldable pub read_bytes : List ℕ → ℕ → ℕ → List ℕ
  read_bytes bytes i zero = []
  read_bytes bytes i (suc n) = byte_at bytes i ∷ read_bytes bytes (i + 1) n

  abbrev pub read_pid : List ℕ → ℕ → ℕ
  read_pid bytes i = bit_and (bit_or (byte_at bytes i << 8) (byte_at bytes (i + 1))) 0x1fff

  abbrev pub read_length : List ℕ → ℕ → ℕ
  read_length bytes i = bit_and (bit_or (byte_at bytes i << 8) (byte_at bytes (i + 1))) 0x0fff

  -- What the rounds of the loop read, from the distance `i` on; each takes five bytes at least, so
  -- that there are at most as many as bytes.
  unfoldable pub pmt_streams : ℕ → List ℕ → ℕ → ℕ → List PmtStream
  pmt_streams zero bytes i ca_system_id = []
  pmt_streams (suc fuel) bytes i ca_system_id =
      let length1 = read_length bytes (i + 3) in
      let read : PmtStream = record {
        type = byte_at bytes i;
        pid = read_pid bytes (i + 1);
        ecm_pid = find_ca_descriptor_pid (read_bytes bytes (i + 5) length1) ca_system_id;
      } in
      let rest = pmt_streams fuel bytes (i + 5 + length1) ca_system_id in
      if ltb (i + 8) (length bytes) then read ∷ rest else []

abbrev pub is_ecm_pid : ℕ → Bool
is_ecm_pid ecm_pid = not (ecm_pid == 0) && not (ecm_pid == 0x1fff)

-- How a part ends: `false` where the source goes to the label for want of memory.
pub record Adding : Type 0 where
  pub added : Bool
  pub streams : StreamList
  pub prv : Decoder

abbrev pub count_ref : PidMap → PidMap
count_ref entry = record entry { ref = (entry.ref + 1) % 2 ^ 32 }

abbrev pub set_pmt : Program → Option Parser → Program
set_pmt pgrm none = pgrm
set_pmt pgrm (some pmt) = record pgrm { pmt = pmt }

abbrev pub store_program : Decoder → ℕ → Program → Decoder
store_program prv i pgrm = record prv { program = set_program prv.program i pgrm }

-- `memory` answers a request for memory by the number of requests before it.
module _ (memory : ℕ → Bool) where
  -- An element from the pool, or a new one.
  unfoldable pub take_stream : Decoder → ℕ → ℕ → Option StreamElem × Decoder
  take_stream prv pid type = elim (get_stream_list_head prv.strm_pool) [
    | some (strm, pool) ↦ (some (create_stream_elem pid type), record prv { strm_pool = pool })
    | none ↦ (
      if memory prv.allocs then some (create_stream_elem pid type) else none,
      record prv { allocs = prv.allocs + 1 },
    )
  ]

  -- 0x0500 is `PID_MAP_TYPE_ECM`.
  unfoldable pub add_ecm_stream : Decoder → StreamList → ℕ → Bool × StreamList × Decoder
  add_ecm_stream prv list ecm_pid =
      let (strm, prv1) = take_stream prv ecm_pid 0x0500 in
      elim (find_stream_list_elem list ecm_pid) [
        | some old ↦ (true, list, prv)
        | none ↦ elim strm [
          | none ↦ (false, list, prv1)
          | some new ↦ (
            true,
            put_stream_list_tail list new,
            record prv1 { map = set_map prv1.map ecm_pid (count_ref (prv1.map ecm_pid)) },
          )
        ]
      ]

  -- The decryptor of an ECM with its stream; the address is `none` if there is no ECM.
  unfoldable pub add_ecm : Decoder → StreamList → ℕ → Option (Option ℕ × Adding)
  add_ecm prv streams ecm_pid =
      if is_ecm_pid ecm_pid
      then elim (set_decryptor memory prv ecm_pid) [
        | none ↦ none
        | some (none, prv1) ↦ some (none, record { added = false; streams = streams; prv = prv1 })
        | some (some id, prv1) ↦
            let (added, streams2, prv2) = add_ecm_stream prv1 streams ecm_pid in
            some (some id, record { added = added; streams = streams2; prv = prv2 })
      ]
      else some (none, record { added = true; streams = streams; prv = prv })

  -- The rest of a round: `dec0` is the decryptor of the program.
  unfoldable pub bind_stream :
      Decoder → Option ℕ → Option ℕ → StreamList → PmtStream → Option Adding
  bind_stream prv dec0 dec1 streams s =
      let (strm, prv1) = take_stream prv s.pid s.type in
      let entry : PidMap = record (count_ref (prv1.map s.pid)) { type = other } in
      elim strm [
        | none ↦ some (record { added = false; streams = streams; prv = prv1 })
        | some new ↦
            elim (bind_stream_decryptor (record prv1 { map = set_map prv1.map s.pid entry }) s.pid
              (select_active_decryptor dec0 dec1 s.ecm_pid)) [
                | none ↦ none
                | some prv2 ↦ some (record {
                  added = true;
                  streams = put_stream_list_tail streams new;
                  prv = prv2;
                })
              ]
      ]

  unfoldable pub add_stream : Decoder → Option ℕ → StreamList → PmtStream → Option Adding
  add_stream prv dec0 streams s = elim (add_ecm prv streams s.ecm_pid) [
    | none ↦ none
    | some (dec1, a) ↦ if a.added then bind_stream a.prv dec0 dec1 a.streams s else some a
  ]

  -- The loop over the elementary streams.
  unfoldable pub add_streams : Decoder → Option ℕ → StreamList → List PmtStream → Option Adding
  add_streams prv dec0 streams [] = some (record { added = true; streams = streams; prv = prv })
  add_streams prv dec0 streams (s ∷ rest) = elim (add_stream prv dec0 streams s) [
    | none ↦ none
    | some a ↦ if a.added then add_streams a.prv dec0 a.streams rest else some a
  ]

  -- From the release of the old streams to the label.
  unfoldable pub renew_streams :
      Decoder → Program → Option ℕ → ℕ → List PmtStream → Option (Bool × Program × Decoder)
  renew_streams prv pgrm dec0 ecm_pid found = elim (unref_all prv pgrm.old_strm.elems) [
    | none ↦ none
    | some prv1 ↦
        let empty : StreamList = record { elems = []; count = 0 } in
        let saved : Program = record pgrm { old_strm = pgrm.streams; streams = empty } in
        let (added, streams, prv2) = add_ecm_stream prv1 empty ecm_pid in
        if is_ecm_pid ecm_pid
        then if added
          then finish_streams saved (add_streams prv2 dec0 streams found)
          else some (false, record saved { streams = streams }, prv2)
        else finish_streams saved (add_streams prv1 dec0 empty found)
  ]
    where
      finish_streams : Program → Option Adding → Option (Bool × Program × Decoder)
      finish_streams pgrm none = none
      finish_streams pgrm (some a) = some (a.added, record pgrm { streams = a.streams }, a.prv)

  -- `dec[0]->ref += 1`, where there is one.
  unfoldable pub hold_decryptor : Decoder → ℕ → Option Decoder
  hold_decryptor prv id = elim (find_dec id prv.decrypt) [
    | none ↦ none
    | some d ↦ some (record prv { decrypt = update_dec id (set_ref (d.ref + 1)) prv.decrypt })
  ]

  -- The part with `dec[0]`, up to the label and the release of `dec[0]` behind it.
  unfoldable pub with_decryptor :
      Decoder → Program → ℕ → List PmtStream → Option (Bool × Program × Decoder)
  with_decryptor prv pgrm ecm_pid found =
      if is_ecm_pid ecm_pid
      then elim (set_decryptor memory prv ecm_pid) [
        | none ↦ none
        | some (none, prv1) ↦ some (false, pgrm, prv1)
        | some (some id, prv1) ↦ elim (hold_decryptor prv1 id) [
          | none ↦ none
          | some prv2 ↦ elim (renew_streams prv2 pgrm (some id) ecm_pid found) [
            | none ↦ none
            | some (added, pgrm', prv3) ↦ elim (drop_ref prv3 id) [
              | none ↦ none
              | some prv4 ↦ some (added, pgrm', prv4)
            ]
          ]
        ]
      ]
      else renew_streams prv pgrm none ecm_pid found

  -- What `r` is at the label.
  unfoldable pub use_pmt : (ℕ → ℕ) → Decoder → Program → List ℕ → Option (Code × Program × Decoder)
  use_pmt stale prv pgrm bytes =
      let pgrm1 : Program = record pgrm { pcr_pid = read_pid stale bytes 0 } in
      let length1 = read_length stale bytes 2 in
      let ecm_pid = find_ca_descriptor_pid (read_bytes stale bytes 4 length1) prv.ca_system_id in
      let found = pmt_streams stale (length bytes) bytes (4 + length1) prv.ca_system_id in
      if ltb (length bytes) (8 + length1)
      then some (warn_broken_ts_section, pgrm1, prv)
      else elim (with_decryptor prv pgrm1 ecm_pid found) [
        | none ↦ none
        | some (true, pgrm2, prv2) ↦ some (ok, pgrm2, prv2)
        | some (false, pgrm2, prv2) ↦ some (no_enough_memory, pgrm2, prv2)
      ]

  abbrev pub use_pmt_section :
      (ℕ → ℕ) → Decoder → Program → Section → Option (Code × Program × Decoder)
  use_pmt_section stale prv pgrm sect = elim sect.body [
    | none ↦ none
    | some offset ↦ use_pmt stale prv pgrm (drop offset sect.raw)
  ]

  -- On the program with the index `i`. Where `get` fails, it fills in no section. The function
  -- returns 0 whatever `r` is, since the section can always be given back.
  unfoldable pub proc_pmt : (ℕ → ℕ) → Decoder → ℕ → Option (Code × Decoder)
  proc_pmt stale prv i = elim (program_at prv.program i) [
    | none ↦ none
    | some pgrm ↦
        let (n, sect, parser) = get (some pgrm.pmt) true in
        let pgrm1 = set_pmt pgrm parser in
        elim sect [
          | none ↦ some (ok, store_program prv i pgrm1)
          | some handed ↦
              let handled : Option (Code × Program × Decoder) =
                if handed.sect.hdr.table_id == 0x02
                then use_pmt_section stale prv pgrm1 handed.sect
                else some (warn_ts_section_id_missmatch, pgrm1, prv) in
              elim handled [
                | none ↦ none
                | some (r, pgrm2, prv2) ↦
                    some (ok, store_program prv2 i (set_pmt pgrm2 (ret parser (some handed)).1))
              ]
        ]
  ]
