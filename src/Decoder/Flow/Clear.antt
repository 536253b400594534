-- ===== src/Decoder/Flow/Clear.antt =====
-- b1/arib_std_b1.c: packets that are not scrambled and carry no table go through
-- `proc_arib_std_b1` as they are.
pub mod Runs
use recskapa.Base.{
  ℕ, zero, suc, ◌+◌, ◌-◌, ◌*◌, ◌≤◌, ◌<◌, ◌≡◌, ◌==◌, ==_iff, refl, sym, ap, ◌∙◌, arith, not, ltb,
  leb, if◌then◌else◌, get_or, length, take, drop, length-append, length-take, length-drop, List, [],
  ◌∷◌, ◌++◌, ◌&&◌, Option, some, none, Bool, true, false, Bool-cases, inl, inr,
}
use recskapa.Decoder.{Code, ok, Decoder, PidMap, set_map}
use recskapa.Decoder.{PidType, unknown, pat, pmt, ecm, emm, cat, other}
use recskapa.Decoder.Flow.{
  is_broken, has_payload, payload_offset, count_normal, Descrambled, descramble, output, Step,
  copy_packet, parse_copied, parse_clear, parse_packet, one_packet, next_packet, packet_loop,
  run_packets,
}
use recskapa.Decoder.Platform.{Platform, System, Run, done, wild, with_result}
use recskapa.Decoder.Tables.{Next, advance, skip, leave, table_packet}
use recskapa.Packet.Header.{TsHeader, extract_ts_header}
use recskapa.Stream.WorkBuffer.{WorkBuffer, append_work_buffer}
use recskapa.Stream.WorkBuffer.Append.{Fits, append_work_buffer-Fits}

abbrev pub has_table : PidType → Bool
has_table ecm = true
has_table pmt = true
has_table _ = false

-- A packet at the head of the bytes without a bit error, which is whole, not scrambled and not
-- stripped, and whose identifier is that of no table.
unfoldable pub is_clear : Bool → (ℕ → PidType) → List ℕ → Bool
is_clear strip type bytes =
    let hdr = extract_ts_header bytes in
    hdr.transport_error_indicator == 0
    && hdr.transport_scrambling_control == 0
    && not (hdr.pid == 0x1fff && strip)
    && not (is_broken hdr bytes)
    && not (hdr.pid == 0x0000)
    && not (hdr.pid == 0x0001)
    && not (has_table (type hdr.pid))

-- There are `n` such packets of 188 bytes, each with the first byte of another one behind it, and
-- then at most 188 bytes.
unfoldable pub is_clear_run : Bool → (ℕ → PidType) → ℕ → List ℕ → Bool
is_clear_run strip type zero bytes = leb (length bytes) 188
is_clear_run strip type (suc n) bytes =
    ltb 188 (length bytes)
    && get_or bytes 0 0 == 0x47
    && get_or bytes 188 0 == 0x47
    && is_clear strip type bytes
    && is_clear_run strip type n (drop 188 bytes)

descramble_clear :
    (prv : Decoder) (hdr : TsHeader) (bytes : List ℕ)
    → (hdr.transport_scrambling_control == 0) ≡ true
    → descramble prv hdr bytes
      ≡ done (record { fine = true; prv = count_normal prv hdr.pid; bytes = bytes })
unfolding descramble
descramble_clear prv hdr bytes e = rw (descramble, e) refl

module _ {W : Type 0} (on : Platform W) where
  -- The state behind a packet that was copied.
  abbrev pub copied_state : System W → List ℕ → System W
  copied_state sys bytes = record sys {
    prv = (output on.malloc (count_normal sys.prv (extract_ts_header bytes).pid) bytes).1;
  }

  table_packet_clear :
      (flushing : Bool) (r : Code) (sys : System W) (hdr : TsHeader) (payload : List ℕ)
      → (hdr.pid == 0x0000) ≡ false
      → (hdr.pid == 0x0001) ≡ false
      → has_table (sys.prv.map hdr.pid).type ≡ false
      → table_packet on flushing r sys hdr payload ≡ done (r, advance, sys)
  unfolding table_packet
  table_packet_clear flushing r sys hdr payload no_pat no_cat no_table =
      ground (arith, no_pat, no_cat, no_table)

  copy_packet_enough :
      (r : Code) (sys : System W) (bytes : List ℕ)
      → (output on.malloc sys.prv bytes).0 ≡ true
      → copy_packet on r sys bytes ≡ record {
        code = r;
        next = advance;
        sys = record sys { prv = (output on.malloc sys.prv bytes).1 };
        bytes = bytes;
      }
  copy_packet_enough r sys bytes e = rw e refl

  parse_copied_clear :
      (hdr : TsHeader) (payload : List ℕ) (copied : Step on)
      → copied.next ≡ advance
      → table_packet on false copied.code copied.sys hdr payload
        ≡ done (copied.code, advance, copied.sys)
      → parse_copied on false hdr payload copied ≡ done (record copied { next = advance })
  unfolding parse_copied
  parse_copied_clear hdr payload copied e f = rw (parse_copied, e, f) refl

  parse_packet_clear :
      (r : Code) (sys : System W) (hdr : TsHeader) (bytes : List ℕ)
      → (hdr.transport_scrambling_control == 0) ≡ true
      → (hdr.pid == 0x0000) ≡ false
      → (hdr.pid == 0x0001) ≡ false
      → has_table (sys.prv.map hdr.pid).type ≡ false
      → (output on.malloc (count_normal sys.prv hdr.pid) bytes).0 ≡ true
      → parse_packet on false r sys hdr bytes
        ≡ done (record {
          code = r;
          next = advance;
          sys = record sys { prv = (output on.malloc (count_normal sys.prv hdr.pid) bytes).1 };
          bytes = bytes;
        })
  unfolding parse_packet parse_clear
  parse_packet_clear r sys hdr bytes plain no_pat no_cat no_table enough =
      let sys1 : System W = record sys { prv = count_normal sys.prv hdr.pid } in
      let sys2 : System W = record sys { prv = (output on.malloc sys1.prv bytes).1 } in
      let offset = payload_offset hdr bytes in
      let payload = take (188 - offset) (drop offset bytes) in
      let copied : Step on = record { code = r; next = advance; sys = sys2; bytes = bytes } in
      rw (parse_packet, descramble_clear sys.prv hdr bytes plain)
        (rw (parse_clear, copy_packet_enough r sys1 bytes enough)
          (parse_copied_clear hdr payload copied refl
            (table_packet_clear false r sys2 hdr payload no_pat no_cat (ground (arith, no_table)))))

  pub one_packet_clear :
      (r : Code) (sys : System W) (bytes : List ℕ)
      → is_clear sys.prv.strip (λ pid. (sys.prv.map pid).type) bytes ≡ true
      → (output on.malloc (count_normal sys.prv (extract_ts_header bytes).pid) bytes).0 ≡ true
      → one_packet on false r sys bytes
        ≡ done (record { code = r; next = advance; sys = copied_state sys bytes; bytes = bytes })
  unfolding one_packet is_clear
  one_packet_clear r sys bytes clear enough =
      let hdr = extract_ts_header bytes in
      let fine : (hdr.transport_error_indicator == 0) ≡ true = ground (arith, clear) in
      let kept : (hdr.pid == 0x1fff && sys.prv.strip) ≡ false = ground (arith, clear) in
      let whole : is_broken hdr bytes ≡ false = ground (arith, clear) in
      rw (one_packet, fine, kept, whole)
        (parse_packet_clear r sys hdr bytes (ground (arith, clear)) (ground (arith, clear))
          (ground (arith, clear)) (ground (arith, clear)) enough)
