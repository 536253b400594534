-- ===== src/Packet/Header.antt =====
-- b1/ts_common_types.h and `extract_ts_header` of b1/arib_std_b1.c.
use recskapa.Base.{
  ℕ, ◌<◌, ◌≡◌, ◌+◌, ◌*◌, ◌/◌, ◌%◌, arith, get_or, List, bit_and, bit_or, ◌<<◌, ◌>>◌, IsByte, All,
  ◌∷◌, [],
}
use recskapa.Base.Bits.{and_mask, or_fields}

-- `TS_HEADER`.
pub record TsHeader : Type 0 where
  pub sync : ℕ
  pub transport_error_indicator : ℕ
  pub payload_unit_start_indicator : ℕ
  pub transport_priority : ℕ
  pub pid : ℕ
  pub transport_scrambling_control : ℕ
  pub adaptation_field_control : ℕ
  pub continuity_counter : ℕ

-- The header of the packet that begins at `src`.
unfoldable pub extract_ts_header : List ℕ → TsHeader
extract_ts_header src =
    let b = λ (i : ℕ). get_or src i 0 in
    record {
      sync = b 0;
      transport_error_indicator = bit_and (b 1 >> 7) 0x01;
      payload_unit_start_indicator = bit_and (b 1 >> 6) 0x01;
      transport_priority = bit_and (b 1 >> 5) 0x01;
      pid = bit_or (bit_and (b 1) 0x1f << 8) (b 2);
      transport_scrambling_control = bit_and (b 3 >> 6) 0x03;
      adaptation_field_control = bit_and (b 3 >> 4) 0x03;
      continuity_counter = bit_and (b 3) 0x0f;
    }

-- The second, third and fourth byte of the packet that has this header.
abbrev pub byte1 : TsHeader → ℕ
byte1 h =
    h.transport_error_indicator * 128
    + h.payload_unit_start_indicator * 64
    + h.transport_priority * 32
    + h.pid / 256

abbrev pub byte3 : TsHeader → ℕ
byte3 h =
    h.transport_scrambling_control * 64 + h.adaptation_field_control * 16 + h.continuity_counter

-- For four bytes, every field of the header fits its width, so that a packet identifier is an index
-- of the map with 0x2000 entries, and the four bytes can be had back from the fields.
pub extract_ts_header_fields :
    (b0 b1 b2 b3 : ℕ) (rest : List ℕ)
    → All IsByte (b0 ∷ b1 ∷ b2 ∷ b3 ∷ [])
    → let h = extract_ts_header (b0 ∷ b1 ∷ b2 ∷ b3 ∷ rest) in
      (h.pid < 0x2000)
      × (h.transport_scrambling_control < 4)
      × (h.adaptation_field_control < 4)
      × (h.transport_error_indicator < 2)
      × (h.payload_unit_start_indicator < 2)
      × (h.transport_priority < 2)
      × (h.continuity_counter < 16)
      × (h.sync ≡ b0)
      × (byte1 h ≡ b1)
      × (h.pid % 256 ≡ b2)
      × (byte3 h ≡ b3)
unfolding extract_ts_header
extract_ts_header_fields b0 b1 b2 b3 rest (h0, (h1, (h2, (h3, _)))) = omega (
  arith,
  and_mask 1 (b1 >> 7),
  and_mask 1 (b1 >> 6),
  and_mask 1 (b1 >> 5),
  and_mask 5 b1,
  or_fields 8 (bit_and b1 0x1f) b2 h2,
  and_mask 2 (b3 >> 6),
  and_mask 2 (b3 >> 4),
  and_mask 4 b3,
)
