-- ===== src/Section/Assembly.antt =====
-- b1/ts_section_parser.c and b1/ts_common_types.h: a section in its buffer, and how bytes are added
-- to it. The bytes from `raw` up to `tail` are a list, and `data` is its distance from `raw`.
pub mod Chunks
pub mod Length
pub mod Complete
use recskapa.Base.{
  ℕ, ◌+◌, ◌-◌, ltb, ◌==◌, if◌then◌else◌, length, get_or, take, bit_and, bit_or, ◌<<◌, ◌>>◌,
}
use recskapa.Base.{Option, some, none, List, [], ◌++◌, Bool, true, false}

-- `TS_SECTION_HEADER`.
pub record Header : Type 0 where
  pub table_id : ℕ
  pub section_syntax_indicator : ℕ
  pub private_indicator : ℕ
  pub section_length : ℕ
  pub table_id_extension : ℕ
  pub version_number : ℕ
  pub current_next_indicator : ℕ
  pub section_number : ℕ
  pub last_section_number : ℕ

-- `TS_SECTION`; `body` is `none` where `data` is NULL.
pub record Section : Type 0 where
  pub hdr : Header
  pub raw : List ℕ
  pub body : Option ℕ

abbrev pub max_raw_section_size : ℕ
max_raw_section_size = 4100

abbrev pub zero_header : Header
zero_header = record {
  table_id = 0;
  section_syntax_indicator = 0;
  private_indicator = 0;
  section_length = 0;
  table_id_extension = 0;
  version_number = 0;
  current_next_indicator = 0;
  section_number = 0;
  last_section_number = 0;
}

-- What `reset_section` leaves, and what `create_ts_section_elem` makes.
abbrev pub reset_section : Section
reset_section = record { hdr = zero_header; raw = []; body = none }

-- The fields that the first three bytes of a section hold.
abbrev pub short_fields : Header → ℕ → ℕ → ℕ → Header
short_fields hdr p0 p1 p2 = record hdr {
  table_id = p0;
  section_syntax_indicator = bit_and (p1 >> 7) 0x01;
  private_indicator = bit_and (p1 >> 6) 0x01;
  section_length = bit_and (bit_or (p1 << 8) p2) 0x0fff;
}

-- The fields that the next five bytes of a long header hold.
abbrev pub long_fields : Header → ℕ → ℕ → ℕ → ℕ → ℕ → Header
long_fields hdr p3 p4 p5 p6 p7 = record hdr {
  table_id_extension = bit_or (p3 << 8) p4;
  version_number = bit_and (p5 >> 1) 0x1f;
  current_next_indicator = bit_and p5 0x01;
  section_number = p6;
  last_section_number = p7;
}

-- A section of which too little is there keeps `data` at NULL.
unfoldable pub extract_ts_section_header : Section → Section
extract_ts_section_header sect =
    let p = λ (i : ℕ). get_or sect.raw i 0 in
    let size = length sect.raw in
    let hdr = short_fields sect.hdr (p 0) (p 1) (p 2) in
    if ltb size 3
    then record sect { body = none }
    else if hdr.section_syntax_indicator == 0
    then record sect { hdr = hdr; body = some 3 }
    else if ltb size 8
    then record sect { hdr = hdr; body = none }
    else record sect { hdr = long_fields hdr (p 3) (p 4) (p 5) (p 6) (p 7); body = some 8 }

-- Bytes behind the end of the section are cut off again.
unfoldable pub cut_section : Section → Section
cut_section sect = elim sect.body [
  | none ↦ sect
  | some _ ↦
      if ltb (sect.hdr.section_length + 3) (length sect.raw)
      then record sect { raw = take (sect.hdr.section_length + 3) sect.raw }
      else sect
]

-- The argument is the `size` bytes at `data`; at most as many as the buffer holds are copied.
unfoldable pub append_section_data : Section → List ℕ → Section
append_section_data sect bytes =
    let room = max_raw_section_size - length sect.raw in
    let n = if ltb (length bytes) room then length bytes else room in
    let filled = record sect { raw = sect.raw ++ take n bytes } in
    cut_section (elim sect.body [ none ↦ extract_ts_section_header filled | some _ ↦ filled ])

unfoldable pub check_section_complete : Section → Bool
check_section_complete sect = elim sect.body [
  | none ↦ false
  | some _ ↦ if ltb (length sect.raw) (sect.hdr.section_length + 3) then false else true
]
