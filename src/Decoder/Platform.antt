-- ===== src/Decoder/Platform.antt =====
-- b1/arib_std_b1.c: what the decoder runs on, its state with that of the card, and how a run ends.
use recskapa.Base.{ℕ, ◌==◌, if◌then◌else◌, List, Option, some, none, Bool, true, false}
use recskapa.Card.{Scard, EcmResult, Card}
use recskapa.Decoder.{Code, ok, warn_unpurchased_ecm, warn_ts_section_id_missmatch}
use recskapa.Decoder.{warn_broken_ts_section, Decoder}
use recskapa.Packet.Header.{TsHeader}
use recskapa.Section.Parser.{Parser, is_error}
use recskapa.Section.Parser.Methods.{put}

-- The reader's library; whether there is memory for a size, for an element of a parser, and for the
-- other objects by the number of requests before; what a variable that is not set holds, and what
-- lies behind the end of a section.
pub record Platform (W : Type 0) : Type 0 where
  pub scard : Scard W
  pub malloc : ℕ → Bool
  pub calloc : ℕ → Bool
  pub memory : ℕ → Bool
  pub res : EcmResult
  pub stale : ℕ → ℕ

pub record System (W : Type 0) : Type 0 where
  pub prv : Decoder
  pub bcas : Option Card
  pub world : W

-- `wild` is where the source follows a pointer to something else than what it takes it for, or to
-- nothing, or counts references below 0.
pub data Run (A : Type 0) : Type 0 where
  done : A → Run A
  wild out_of_fuel : Run A

abbrev pub with_result : {A B : Type 0} → Run A → (A → Run B) → Run B
with_result (done a) f = f a
with_result wild f = wild
with_result out_of_fuel f = out_of_fuel

-- Below 0.
abbrev pub is_negative : Code → Bool
is_negative ok = false
is_negative warn_unpurchased_ecm = false
is_negative warn_ts_section_id_missmatch = false
is_negative warn_broken_ts_section = false
is_negative _ = true

-- How a parser takes a payload: `put` failed, no section is there yet, or there is one.
pub data Fed : Type 0 where
  failed waits ready : Fed

-- `put` and `get_count`.
unfoldable pub feed : (ℕ → Bool) → Parser → TsHeader → List ℕ → Run (Fed × Parser)
feed calloc parser hdr payload = elim (put calloc (some parser) (some hdr) (some payload)) [
  | none ↦ out_of_fuel
  | some (c, none) ↦ done (failed, parser)
  | some (c, some parser') ↦
      done
        ((if is_error c then failed else if parser'.buff.count == 0 then waits else ready), parser')
]
