-- ===== src/Section/Tests.antt =====
-- b1/ts_section_parser.c: the theorems at small inputs.
use recskapa.Base.{ℕ, ◌≡◌, ◌≢◌, ◌↔◌, refl, arith, true, some, none}
use recskapa.Base.{List, [], ◌∷◌, ◌++◌, take, length, All, IsByte, inl}
use recskapa.Packet.Header.{TsHeader}
use recskapa.Section.Crc.{crc32}
use recskapa.Section.Crc.Serial.{serial_from, crc32-eq-serial}
use recskapa.Section.Crc.Check.{spelled, crc32-eq-zero_iff}
use recskapa.Section.Assembly.{
  Section, reset_section, append_section_data, check_section_complete, extract_ts_section_header,
  cut_section,
}
use recskapa.Section.Assembly.Chunks.{append_all, append_all-eq-append}
use recskapa.Section.Assembly.Complete.{HoldsSection, append_complete}
use recskapa.Section.Parser.{Code, ok, Parser}
use recskapa.Section.Parser.Methods.{create_ts_section_parser, put, get, more_sections}
use recskapa.Section.Parser.Methods.Total.{put-runs}
use recskapa.Section.Parser.Methods.Account.{account, whole_sections}
use recskapa.Section.Parser.Methods.Reach.{created, by_put, IsSound, Reachable-IsSound}
use recskapa.Section.Parser.Methods.Codes.{Answer, put-codes}
use recskapa.Section.Parser.Methods.Deliver.{IsIntact, get-put}

-- A section of four bytes without a checksum, and a byte of stuffing.
abbrev small : List ℕ
small = 112 ∷ 48 ∷ 1 ∷ 171 ∷ 255 ∷ []

abbrev small_bytes : All IsByte small
small_bytes = (omega arith, (omega arith, (omega arith, (omega arith, (omega arith, tt)))))

abbrev small_holds : HoldsSection small
small_holds = (omega arith, inl refl, omega arith)

abbrev header : ℕ → TsHeader
header pid = record {
  sync = 71;
  transport_error_indicator = 0;
  payload_unit_start_indicator = 1;
  transport_priority = 0;
  pid = pid;
  transport_scrambling_control = 0;
  adaptation_field_control = 1;
  continuity_counter = 0;
}

small-IsIntact : IsIntact (append_section_data reset_section small)
unfolding append_section_data extract_ts_section_header cut_section
small-IsIntact = inl refl

crc32-eq-serial_example : crc32 small ≡ serial_from 0xffffffff small
crc32-eq-serial_example = crc32-eq-serial small small_bytes

crc32-eq-zero_iff_example :
    (crc32 ((112 ∷ 48 ∷ []) ++ (1 ∷ 2 ∷ 3 ∷ 4 ∷ [])) ≡ 0)
    ↔ (spelled 1 2 3 4 ≡ crc32 (112 ∷ 48 ∷ []))
crc32-eq-zero_iff_example =
    crc32-eq-zero_iff (112 ∷ 48 ∷ []) 1 2 3 4 (omega arith, (omega arith, tt))
      (omega arith, (omega arith, (omega arith, (omega arith, tt))))

append_all-eq-append_example :
    append_all reset_section ((112 ∷ 48 ∷ []) ∷ (1 ∷ []) ∷ (171 ∷ 255 ∷ []) ∷ [])
    ≡ append_section_data reset_section small
append_all-eq-append_example =
    append_all-eq-append (112 ∷ 48 ∷ []) ((1 ∷ []) ∷ (171 ∷ 255 ∷ []) ∷ [])

append_complete_example :
    (check_section_complete (append_section_data reset_section small) ≡ true ↔ HoldsSection small)
    × (HoldsSection small → (append_section_data reset_section small).raw ≡ take 4 small)
append_complete_example = append_complete small small_bytes

put-runs_example :
    put (λ id. true) (some create_ts_section_parser) (some (header 17)) (some (0 ∷ small)) ≢ none
put-runs_example =
    put-runs (λ id. true) (some create_ts_section_parser) (some (header 17)) (some (0 ∷ small))

-- The packet finishes one section and leaves none unfinished.
small-account :
    (length (account create_ts_section_parser (header 17) (0 ∷ small)).0 ≡ 1)
    × ((account create_ts_section_parser (header 17) (0 ∷ small)).1 ≡ 0)
unfolding create_ts_section_parser whole_sections append_section_data extract_ts_section_header
    cut_section more_sections check_section_complete
small-account = (refl, refl)

-- The state in which the small section is queued.
abbrev queued :
    (prv : Parser) × (sect : Section) × (put
        (λ id. true)
        (some create_ts_section_parser)
        (some (header 17))
        (some (0 ∷ small))
      ≡ some (ok, some prv))
    × ((get (some prv) true).0 ≡ ok)
    × ((get (some prv) true).1 ≡ some (record { id = 0; sect = sect }))
    × (sect.raw ≡ 112 ∷ 48 ∷ 1 ∷ 171 ∷ [])
unfolding more_sections
queued =
    get-put (λ id. true) (header 17) small refl (λ h. ground arith) small_bytes small_holds
      small-IsIntact refl

Reachable-IsSound_example : IsSound queued.0
Reachable-IsSound_example =
    Reachable-IsSound (λ id. true) queued.0
      (by_put create_ts_section_parser queued.0 (header 17) (0 ∷ small) ok queued.2 created)

get-put_example :
    (prv : Parser) × (sect : Section) × (put
        (λ id. true)
        (some create_ts_section_parser)
        (some (header 17))
        (some (0 ∷ small))
      ≡ some (ok, some prv))
    × ((get (some prv) true).0 ≡ ok)
    × ((get (some prv) true).1 ≡ some (record { id = 0; sect = sect }))
    × (sect.raw ≡ 112 ∷ 48 ∷ 1 ∷ 171 ∷ [])
unfolding more_sections
get-put_example =
    get-put (λ id. true) (header 17) small refl (λ h. ground arith) small_bytes small_holds
      small-IsIntact refl

-- A parser of another PID than the packet.
abbrev other_pid : Parser
other_pid = record create_ts_section_parser { pid = some 16 }

put-codes_example :
    (c : Code) × (prv' : Parser) × (put
        (λ id. true)
        (some other_pid)
        (some (header 17))
        (some (0 ∷ small))
      ≡ some (c, some prv'))
    × Answer other_pid (header 17) (0 ∷ small) (c, prv')
put-codes_example = put-codes (λ id. true) other_pid (header 17) (0 ∷ small)
