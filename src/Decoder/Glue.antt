-- ===== src/Decoder/Glue.antt =====
-- decoder.c: the decoder with its card.
pub mod Clear
pub mod Tests
use recskapa.Base.{ℕ, ◌==◌, if◌then◌else◌, not, List, Option, some, none, Bool, true, false, ◌||◌}
use recskapa.Card.{is_failure}
use recskapa.Card.Methods.{create_b_cas_card, init, release}
use recskapa.Decoder.{Code, Decoder}
use recskapa.Decoder.Methods.{
  create_arib_std_b1, set_multi2_round_arib_std_b1, set_strip_arib_std_b1, get_arib_std_b1,
  release_arib_std_b1,
}
use recskapa.Decoder.Methods.Input.{set_b_cas_card_arib_std_b1, put_arib_std_b1, flush_arib_std_b1}
use recskapa.Decoder.Platform.{Platform, System, Run, done, wild, with_result, is_negative}

module _ {W : Type 0} (on : Platform W) where
  -- `get` on the decoder with its card.
  abbrev pub get_output : Code × Option (System W) → Code × Option (List ℕ) × Option (System W)
  get_output (r, none) = (r, none, none)
  get_output (r, some sys) =
      let (r', out, b1) = get_arib_std_b1 (some sys.prv) true in
      let kept : Option (System W) = elim b1 [
        | none ↦ none
        | some prv ↦ some (record sys { prv = prv })
      ] in
      if is_negative r then (r, none, some sys) else (r', out, kept)

  unfoldable pub b1_decode : System W → List ℕ → Run (Code × Option (List ℕ) × Option (System W))
  b1_decode sys sbuf =
      with_result (put_arib_std_b1 on (some sys) (some sbuf)) (λ put. done (get_output put))

  unfoldable pub b1_finish : System W → Run (Code × Option (List ℕ) × Option (System W))
  b1_finish sys = with_result (flush_arib_std_b1 on (some sys)) (λ flush. done (get_output flush))

  -- What happens to the world when both objects are released.
  unfoldable pub b1_shutdown : System W → Run W
  b1_shutdown sys =
      with_result (release_arib_std_b1 (some sys.prv))
        (λ gone. done (release on.scard on.malloc sys.bcas sys.world))

  -- From `create_b_cas_card` on; where it fails, the reader stays as it is then.
  abbrev start_card : Decoder → Bool → W → Option (System W) × W
  start_card prv has_card w =
      let (n, bcas, w1) = init on.scard on.malloc (some create_b_cas_card) w in
      let (r, handle) =
        set_b_cas_card_arib_std_b1 on (some (record { prv = prv; bcas = none; world = w1 })) bcas in
      let w2 : W = elim handle [ none ↦ w1 | some sys ↦ sys.world ] in
      if not has_card
      then (none, w)
      else if is_failure n
      then (none, w1)
      else if is_negative r
      then (none, w2)
      else (handle, w2)

  -- The Booleans say whether there is memory for `decoder`, the decoder and the card; the first is
  -- not tested in the source.
  unfoldable pub b1_startup : Bool → Bool → Bool → ℕ → Bool → W → Run (Option (System W) × W)
  b1_startup false has_b1 has_card round strip w = wild
  b1_startup true has_b1 has_card round strip w =
      let (r1, b1) = set_multi2_round_arib_std_b1 (some create_arib_std_b1) round in
      let (r2, b2) = set_strip_arib_std_b1 b1 strip in
      if not has_b1 || is_negative r1 || is_negative r2
      then done (none, w)
      else elim b2 [ none ↦ done (none, w) | some prv ↦ done (start_card prv has_card w) ]
