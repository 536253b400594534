-- ===== src/Decoder/Glue/Tests.antt =====
-- decoder.c: two packets that come in two pieces, and a start without a reader.
use recskapa.Base.{ℕ, ◌≡◌, refl, arith, take, drop, List, [], ◌∷◌, ◌++◌, none, some, true}
use recskapa.Card.Methods.{create_b_cas_card, init, teardown}
use recskapa.Decoder.{ok}
use recskapa.Decoder.Flow.Clear.{is_clear, is_clear_run}
use recskapa.Decoder.Flow.Clear.Runs.{OnlyCounts}
use recskapa.Decoder.Flow.Tests.{platform, packet, two_packets}
use recskapa.Decoder.Glue.{b1_decode, b1_startup}
use recskapa.Decoder.Glue.Clear.{b1_decode_clear}
use recskapa.Decoder.Methods.{
  create_arib_std_b1, set_multi2_round_arib_std_b1, set_strip_arib_std_b1,
}
use recskapa.Decoder.Methods.Input.{set_b_cas_card_arib_std_b1}
use recskapa.Decoder.Pat.{new_program}
use recskapa.Decoder.Phase.{count_phases, check_pmt_complete, check_ecm_complete}
use recskapa.Decoder.Platform.{System, done}
use recskapa.Packet.Header.{extract_ts_header}

abbrev started : System ℕ
started = record two_packets {
  prv = record create_arib_std_b1 {
    program = record (new_program 1 0x300) { phase = 1 } ∷ [];
    sbuf = record { before = 0; bytes = packet; max = 512 };
  };
}

abbrev second_piece : List ℕ
second_piece = packet ++ (0x47 ∷ [])

b1_decode_clear_example :
    let input = packet ++ second_piece in
    (sys' : System ℕ) × (b1_decode platform started second_piece
      ≡ done (ok, some ([] ++ take 376 input), some sys'))
    × (sys'.prv.sbuf.bytes ≡ drop 376 input)
    × (sys'.prv.dbuf.bytes ≡ [])
    × (sys' ≡ record started {
      prv = record started.prv { map = sys'.prv.map; sbuf = sys'.prv.sbuf; dbuf = sys'.prv.dbuf };
    })
    × OnlyCounts started.prv.map sys'.prv.map
unfolding is_clear is_clear_run extract_ts_header check_pmt_complete check_ecm_complete count_phases
b1_decode_clear_example =
    b1_decode_clear platform started second_piece 2 (λ size. refl) (omega arith) (omega arith) refl
      (refl, refl, refl) refl

-- Without a reader there is no decoder.
no_reader : b1_startup platform true true true 4 true 0 ≡ done (none, 0)
unfolding b1_startup set_multi2_round_arib_std_b1 set_strip_arib_std_b1 set_b_cas_card_arib_std_b1
    init teardown create_b_cas_card
no_reader = refl
