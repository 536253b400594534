-- ===== src/Decoder/Flow/Tests.antt =====
-- b1/arib_std_b1.c: the loops over the packets at two packets, and at a flush of wider units.
use recskapa.Base.{
  ℕ, ◌≡◌, ◌≢◌, refl, arith, take, drop, replicate, List, [], ◌∷◌, ◌++◌, none, Bool, true, false,
}
use recskapa.Card.{Scard}
use recskapa.Decoder.{ok}
use recskapa.Decoder.Flow.{proc_arib_std_b1, run_packets, packet_loop, one_packet}
use recskapa.Decoder.Flow.Clear.{is_clear, is_clear_run}
use recskapa.Decoder.Flow.Clear.Runs.{OnlyCounts, proc_arib_std_b1_clear}
use recskapa.Decoder.Methods.{create_arib_std_b1}
use recskapa.Decoder.Platform.{Platform, System, done, wild, out_of_fuel}
use recskapa.Decoder.Search.{find_pat, find_pmt, find_ecm}
use recskapa.Decoder.Search.Termination.{loops_end}
use recskapa.Packet.Header.{extract_ts_header}

abbrev no_limit : ℕ → Bool
no_limit n = true

abbrev silent_card : Scard ℕ
silent_card = record {
  establish_context = λ w. (none, w);
  list_readers = λ context w. (none, w);
  connect = λ context name w. ((false, 0), w);
  transmit = λ card cmd w. (none, w);
  disconnect = λ card w. w;
  release_context = λ context w. w;
}

abbrev pub platform : Platform ℕ
platform = record {
  scard = silent_card;
  malloc = no_limit;
  calloc = no_limit;
  memory = no_limit;
  res = record { scramble_key = []; return_code = 0 };
  stale = λ i. 0;
}

-- A packet of the identifier 0x100 that is not scrambled.
abbrev pub packet : List ℕ
packet = 0x47 ∷ 1 ∷ 0 ∷ 0x10 ∷ replicate 184 7

abbrev pub two_packets : System ℕ
two_packets = record {
  prv = record create_arib_std_b1 {
    sbuf = record { before = 0; bytes = packet ++ packet ++ (0x47 ∷ []); max = 512 };
  };
  bcas = none;
  world = 0;
}

proc_arib_std_b1_clear_example :
    (sys' : System ℕ) × (proc_arib_std_b1 platform two_packets ≡ done (ok, sys'))
    × (sys'.prv.dbuf.bytes ≡ [] ++ take 376 two_packets.prv.sbuf.bytes)
    × (sys'.prv.sbuf.bytes ≡ drop 376 two_packets.prv.sbuf.bytes)
    × (sys' ≡ record two_packets {
      prv = record create_arib_std_b1 {
        map = sys'.prv.map;
        dbuf = sys'.prv.dbuf;
        sbuf = sys'.prv.sbuf;
      };
    })
    × OnlyCounts two_packets.prv.map sys'.prv.map
unfolding is_clear is_clear_run extract_ts_header
proc_arib_std_b1_clear_example =
    proc_arib_std_b1_clear platform two_packets 2 (λ size. refl) (omega arith) refl refl

loops_end_example :
    (run_packets platform true two_packets ≢ out_of_fuel)
    × (find_pat platform two_packets ≢ out_of_fuel)
    × (find_pmt platform two_packets ≢ out_of_fuel)
    × (find_ecm platform two_packets ≢ out_of_fuel)
loops_end_example = loops_end platform true two_packets (omega arith)

-- The last packet of units of 192 bytes, whose last four bytes are missing; it is to be stripped.
abbrev null_packet : List ℕ
null_packet = 0x47 ∷ 0x1f ∷ 0xff ∷ 0x10 ∷ replicate 184 0xff

abbrev short_unit : System ℕ
short_unit = record two_packets { prv = record create_arib_std_b1 { strip = true } }

flush_steps_behind : packet_loop platform true 189 192 ok short_unit null_packet ≡ wild
unfolding packet_loop one_packet extract_ts_header
flush_steps_behind = refl
