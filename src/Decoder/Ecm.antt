-- ===== src/Decoder/Ecm.antt =====
-- b1/arib_std_b1.c: what the decoder does with an ECM, through the section parser, the card and the
-- cipher.
pub mod Keys
pub mod Locked
mod Tests
use recskapa.Base.{ℕ, ◌+◌, ◌-◌, ◌==◌, if◌then◌else◌, length, take, drop, List, Option, some, none}
use recskapa.Base.{Bool, true, false, ◌||◌}
use recskapa.Card.{Scard, EcmResult, InitStatus, Card, is_failure}
use recskapa.Card.Methods
use recskapa.Decoder.{
  Code, ok, warn_unpurchased_ecm, warn_ts_section_id_missmatch, no_enough_memory,
}
use recskapa.Decoder.{empty_b_cas_card, invalid_b_cas_status, ecm_proc_failure, ecm_parse_failure}
use recskapa.Decoder.{DecryptorElem}
use recskapa.Multi2.Handle.{
  Multi2, create_multi2, set_round, set_system_key, set_init_cbc, set_scramble_key,
  clear_scramble_key,
}
use recskapa.Section.Assembly.{Section}
use recskapa.Section.Parser.{Parser}
use recskapa.Section.Parser.Methods.{Handed, get, ret}

-- The bytes from `data` up to four before `tail`; `none` where `data` is NULL.
abbrev pub ecm_bytes : Section → Option (List ℕ)
ecm_bytes sect = elim sect.body [
  | none ↦ none
  | some offset ↦ let bytes = drop offset sect.raw in some (take (length bytes - 4) bytes)
]

abbrev pub is_purchased : ℕ → Bool
is_purchased return_code = return_code == 0x0800 || return_code == 0x0400 || return_code == 0x0200

-- A new cipher with what the card says of its system.
unfoldable pub set_up : InitStatus → ℕ → Option Multi2
set_up is multi2_round =
    let m1 = (set_system_key (some create_multi2) (some is.system_key)).1 in
    let m2 = (set_init_cbc m1 (some is.init_cbc)).1 in (set_round m2 multi2_round).1

-- How the handling ends: the Boolean is false where the source returns at once, without giving the
-- section back.
pub record Handling (W : Type 0) : Type 0 where
  pub code : Code
  pub gives_back : Bool
  pub dec : DecryptorElem
  pub bcas : Option Card
  pub world : W

-- `scard` and `malloc` are those of the card, `memory` is whether there is memory for a cipher, and
-- `res` what the variable of this name holds at first.
module _ {W : Type 0} (scard : Scard W) (malloc : ℕ → Bool) (memory : Bool) (res : EcmResult) where
  -- The part behind the card's answer.
  unfoldable pub use_answer : DecryptorElem → Option Card → ℕ → EcmResult → W → Handling W
  use_answer dec bcas multi2_round answer w =
      let key = some answer.scramble_key in
      let (checked, is) = Methods.get_init_status scard malloc bcas true in
      if is_purchased answer.return_code
      then elim dec.m2 [
        | some m2 ↦ record {
          code = ok;
          gives_back = true;
          dec = record dec { m2 = (set_scramble_key (some m2) key).1 };
          bcas = bcas;
          world = w;
        }
        | none ↦
            if memory
            then elim is [
              | none ↦ record {
                code = invalid_b_cas_status;
                gives_back = false;
                dec = record dec { m2 = some create_multi2 };
                bcas = bcas;
                world = w;
              }
              | some status ↦ record {
                code = ok;
                gives_back = true;
                dec = record dec { m2 = (set_scramble_key (set_up status multi2_round) key).1 };
                bcas = bcas;
                world = w;
              }
            ]
            else record {
              code = no_enough_memory;
              gives_back = false;
              dec = dec;
              bcas = bcas;
              world = w;
            }
      ]
      else record {
        code = warn_unpurchased_ecm;
        gives_back = true;
        dec = record dec {
          m2 = none;
          unpurchased = dec.unpurchased + 1;
          last_error = answer.return_code;
          locked = dec.locked + 1;
        };
        bcas = bcas;
        world = w;
      }

  -- The part between `get` and the label.
  unfoldable pub use_section : DecryptorElem → Card → ℕ → Section → W → Handling W
  use_section dec bcas multi2_round sect w =
      let (r, answer, bcas1, w1) =
        Methods.proc_ecm scard malloc (some bcas) (some res) (ecm_bytes sect) w in
      if sect.hdr.table_id == 0x82
      then if dec.locked == 0
        then if is_failure r
          then record {
            code = ecm_proc_failure;
            gives_back = true;
            dec = record dec { m2 = (clear_scramble_key dec.m2).1 };
            bcas = bcas1;
            world = w1;
          }
          else use_answer dec bcas1 multi2_round (elim answer [ none ↦ res | some a ↦ a ]) w1
        else record {
          code = warn_unpurchased_ecm;
          gives_back = true;
          dec = record dec { unpurchased = dec.unpurchased + 1 };
          bcas = some bcas;
          world = w;
        }
      else record {
        code = warn_ts_section_id_missmatch;
        gives_back = true;
        dec = dec;
        bcas = some bcas;
        world = w;
      }

  abbrev pub set_parser : DecryptorElem → Option Parser → DecryptorElem
  set_parser dec none = dec
  set_parser dec (some ecm) = record dec { ecm = ecm }

  -- Where `get` fails, it fills in no section.
  unfoldable pub proc_ecm :
      DecryptorElem → Option Card → ℕ → W → Code × DecryptorElem × Option Card × W
  proc_ecm dec none multi2_round w = (empty_b_cas_card, dec, none, w)
  proc_ecm dec (some bcas) multi2_round w =
      let (n, sect, ecm) = get (some dec.ecm) true in
      let dec1 = set_parser dec ecm in
      elim sect [
        | none ↦ (ecm_parse_failure, dec1, some bcas, w)
        | some handed ↦
            let h = use_section dec1 bcas multi2_round handed.sect w in
            let given = (ret (some h.dec.ecm) (some handed)).1 in
            (h.code, if h.gives_back then set_parser h.dec given else h.dec, h.bcas, h.world)
      ]
