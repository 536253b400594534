-- ===== src/Packet/Tests.antt =====
-- b1/arib_std_b1.c: the theorem on packet headers at one.
use recskapa.Base.{◌<◌, ◌≡◌, ◌%◌, arith, ◌∷◌, []}
use recskapa.Packet.Header.{extract_ts_header, byte1, byte3, extract_ts_header_fields}

extract_ts_header_fields_example :
    let h = extract_ts_header (71 ∷ 65 ∷ 2 ∷ 211 ∷ []) in
    (h.pid < 0x2000)
    × (h.transport_scrambling_control < 4)
    × (h.adaptation_field_control < 4)
    × (h.transport_error_indicator < 2)
    × (h.payload_unit_start_indicator < 2)
    × (h.transport_priority < 2)
    × (h.continuity_counter < 16)
    × (h.sync ≡ 71)
    × (byte1 h ≡ 65)
    × (h.pid % 256 ≡ 2)
    × (byte3 h ≡ 211)
extract_ts_header_fields_example =
    extract_ts_header_fields 71 65 2 211 []
      (omega arith, (omega arith, (omega arith, (omega arith, tt))))
