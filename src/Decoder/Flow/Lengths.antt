-- ===== src/Decoder/Flow/Lengths.antt =====
-- b1/arib_std_b1.c: a packet is replaced in place, and the next one is inside the bytes.
use mathlib.Core.Path.{subst}
use recskapa.Base.{
  ℕ, ◌+◌, ◌-◌, ◌≤◌, ◌≡◌, refl, ap, not, arith, ◌==◌, get_or, bit_and, length, take, drop,
  length-append, length-take, length-drop, List, ◌∷◌, ◌++◌, ◌&&◌, Option, some, none, Bool, true,
  false, Bool-cases, Option-cases, inl, inr,
}
use recskapa.Decoder.{Code, Decoder, DecryptorElem}
use recskapa.Decoder.Flow.{
  payload_offset, has_payload, clear_control, packet_decryptor, Descrambled, decrypt_packet,
  decrypt_with, descramble, output, Step, copy_packet, parse_copied, parse_clear, parse_packet,
  one_packet, next_packet,
}
use recskapa.Decoder.Flow.Ends.{Yields, Ends, with_result-Yields, table_packet-Ends}
use recskapa.Decoder.Tables.{table_packet}
use recskapa.Decoder.Tables.{Next, table_packet, advance, skip, leave}
use recskapa.Decoder.Platform.{Platform, System}
use recskapa.Multi2.Mode.RoundTrip.{length-decrypt_from}
use recskapa.Multi2.Mode.{decrypt_from}
use recskapa.Multi2.Handle.{Multi2, Status, decrypt, passes, select_key}
use recskapa.Packet.Header.{TsHeader, extract_ts_header}
use recskapa.Stream.Sync.First.{resync_room, resync_force_room}

length-clear_control :
    (bytes : List ℕ) → 4 ≤ length bytes → length (clear_control bytes) ≡ length bytes
length-clear_control bytes h = omega (
  arith,
  length-append (take 3 bytes) (bit_and (get_or bytes 3 0) 0x3f ∷ drop 4 bytes),
  length-take 3 bytes,
  length-drop 4 bytes,
  h,
)

-- What a result of `decrypt` holds has the length of the buffer.
HasLength : ℕ → Option (List ℕ) → Type 0
HasLength n none = Unit {0}
HasLength n (some out) = length out ≡ n

decrypt-HasLength :
    (m2 : Multi2) (type : ℕ) (buf : List ℕ) (size : ℕ)
    → HasLength (length buf) (decrypt (some m2) type (some buf) size).1
unfolding decrypt HasLength
decrypt-HasLength m2 type buf size =
    let from = decrypt_from (passes m2.round) (select_key m2 type) m2.cbc_init (take size buf) in
    ground (
      arith,
      length-decrypt_from (passes m2.round) (select_key m2 type) m2.cbc_init (take size buf),
      length-append from (drop size buf),
      length-take size buf,
      length-drop size buf,
    )

length-decrypt_packet :
    (prv : Decoder) (hdr : TsHeader) (bytes : List ℕ) (m2 : Multi2)
    → 4 ≤ length bytes
    → length (decrypt_packet prv hdr bytes m2).bytes ≡ length bytes
unfolding decrypt_packet HasLength
length-decrypt_packet prv hdr bytes m2 h =
    changed_length (decrypt (some m2) control (some (drop offset bytes)) (188 - offset)) refl
  where
    control : ℕ
    control = hdr.transport_scrambling_control

    offset : ℕ
    offset = payload_offset hdr bytes

    same_length :
        {status : Status} {out : List ℕ}
        → decrypt (some m2) control (some (drop offset bytes)) (188 - offset) ≡ (status, some out)
        → length out ≡ length (drop offset bytes)
    same_length e =
        subst (HasLength (length (drop offset bytes))) (ap (λ answer. answer.1) e)
          (decrypt-HasLength m2 control (drop offset bytes) (188 - offset))

    changed_length :
        (answer : Status × Option (List ℕ))
        → decrypt (some m2) control (some (drop offset bytes)) (188 - offset) ≡ answer
        → length (decrypt_packet prv hdr bytes m2).bytes ≡ length bytes
    changed_length (status, none) e =
        rw (decrypt_packet, e) (ground (arith, length-clear_control bytes h))
    changed_length (status, some out) e =
        let same : length out ≡ length (drop offset bytes) = same_length e in
        let all : length (take offset bytes ++ out) ≡ length bytes = omega (
          arith,
          same,
          length-append (take offset bytes) out,
          length-take offset bytes,
          length-drop offset bytes,
        ) in
        rw (decrypt_packet, e)
          (ground
            (arith, all, length-clear_control (take offset bytes ++ out) (omega (arith, all, h))))

packet_decryptor-Ends : (prv : Decoder) (pid : ℕ) → Ends (packet_decryptor prv pid)
unfolding packet_decryptor
packet_decryptor-Ends prv pid = ground arith

length-decrypt_with :
    (prv : Decoder) (hdr : TsHeader) (bytes : List ℕ) (dec : Option DecryptorElem)
    → 4 ≤ length bytes
    → length (decrypt_with prv hdr bytes dec).bytes ≡ length bytes
unfolding decrypt_with
length-decrypt_with prv hdr bytes none h = refl
length-decrypt_with prv hdr bytes (some d) h = elim (Option-cases d.m2) [
  | inl e ↦ rw (decrypt_with, e) refl
  | inr (m2, e) ↦ rw (decrypt_with, e) (length-decrypt_packet prv hdr bytes m2 h)
]

length-descramble :
    (prv : Decoder) (hdr : TsHeader) (bytes : List ℕ)
    → 4 ≤ length bytes
    → Yields (λ (clear : Descrambled). length clear.bytes ≡ length bytes) (descramble prv hdr bytes)
unfolding descramble
length-descramble prv hdr bytes h =
    elim (Bool-cases (not (hdr.transport_scrambling_control == 0) && has_payload hdr)) [
      | inr e ↦ rw (descramble, e) refl
      | inl e ↦
          rw (descramble, e)
            (with_result-Yields _ _ (packet_decryptor prv hdr.pid) _
              (packet_decryptor-Ends prv hdr.pid)
              (λ dec _. length-decrypt_with prv hdr bytes dec h))
    ]

module _ {W : Type 0} (on : Platform W) where
  length-parse_copied :
      (flushing : Bool) (hdr : TsHeader) (payload : List ℕ) (copied : Step on)
      → Yields
          (λ (s : Step on). length s.bytes ≡ length copied.bytes)
          (parse_copied on flushing hdr payload copied)
  unfolding parse_copied
  length-parse_copied flushing hdr payload copied = by_next copied.next refl
    where
      by_next :
          (next : Next)
          → copied.next ≡ next
          → Yields
              (λ (s : Step on). length s.bytes ≡ length copied.bytes)
              (parse_copied on flushing hdr payload copied)
      by_next advance e =
          rw (parse_copied, e)
            (with_result-Yields _ _ (table_packet on flushing copied.code copied.sys hdr payload) _
              (table_packet-Ends on flushing copied.code copied.sys hdr payload) (λ a _. refl))
      by_next skip e = rw (parse_copied, e) refl
      by_next leave e = rw (parse_copied, e) refl

  copy_packet_bytes :
      (r : Code) (sys : System W) (bytes : List ℕ) → (copy_packet on r sys bytes).bytes ≡ bytes
  copy_packet_bytes r sys bytes = elim (Bool-cases (output on.malloc sys.prv bytes).0) [
    | inl e ↦ rw e refl
    | inr e ↦ rw e refl
  ]

  length-parse_clear :
      (flushing : Bool) (r : Code) (sys : System W) (hdr : TsHeader) (offset : ℕ)
      (clear : Descrambled)
      → Yields
          (λ (s : Step on). length s.bytes ≡ length clear.bytes)
          (parse_clear on flushing r sys hdr offset clear)
  unfolding parse_clear
  length-parse_clear flushing r sys hdr offset clear = elim (Bool-cases clear.fine) [
    | inl e ↦
        let sys1 : System W = record sys { prv = clear.prv } in
        let copied = copy_packet on r sys1 clear.bytes in
        let payload = take (188 - offset) (drop offset clear.bytes) in
        rw (parse_clear, e)
          (subst
            (λ n.
              Yields (λ (s : Step on). length s.bytes ≡ n)
                (parse_copied on flushing hdr payload copied))
            (ap length (copy_packet_bytes r sys1 clear.bytes))
            (length-parse_copied flushing hdr payload copied))
    | inr e ↦ rw (parse_clear, e) refl
  ]

  length-parse_packet :
      (flushing : Bool) (r : Code) (sys : System W) (hdr : TsHeader) (bytes : List ℕ)
      → 4 ≤ length bytes
      → Yields
          (λ (s : Step on). length s.bytes ≡ length bytes)
          (parse_packet on flushing r sys hdr bytes)
  unfolding parse_packet
  length-parse_packet flushing r sys hdr bytes h =
      with_result-Yields _ _ (descramble sys.prv hdr bytes) _
        (length-descramble sys.prv hdr bytes h)
        (λ clear e.
          let offset = payload_offset hdr bytes in
          subst
            (λ n.
              Yields (λ (s : Step on). length s.bytes ≡ n)
                (parse_clear on flushing r sys hdr offset clear))
            e (length-parse_clear flushing r sys hdr offset clear))

  pub length-one_packet :
      (flushing : Bool) (r : Code) (sys : System W) (bytes : List ℕ)
      → 4 ≤ length bytes
      → Yields (λ (s : Step on). length s.bytes ≡ length bytes) (one_packet on flushing r sys bytes)
  unfolding one_packet
  length-one_packet flushing r sys bytes h =
      ground (arith, length-parse_packet flushing r sys (extract_ts_header bytes) bytes h)

-- A packet that is found has at least 188 bytes up to the end.
pub next_packet_room :
    (flushing : Bool) (unit : ℕ) (bytes : List ℕ) (k : ℕ)
    → 188 ≤ unit
    → next_packet flushing unit bytes ≡ some k
    → k + 188 ≤ length bytes
next_packet_room false unit bytes k h e = ground (arith, e, h, resync_room bytes unit k)
next_packet_room true unit bytes k h e = ground (arith, e, resync_force_room bytes unit k)
