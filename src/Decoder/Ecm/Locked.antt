-- ===== src/Decoder/Ecm/Locked.antt =====
-- b1/arib_std_b1.c: an ECM of a programme that is not purchased does not go to the card again.
use recskapa.Base.{ℕ, ◌≡◌, ◌≢◌, refl, arith, ◌==◌, if◌then◌else◌, Option, some, none}
use recskapa.Base.{Bool, true, false, Bool-cases, Option-cases, inl, inr}
use recskapa.Card.{Scard, EcmResult, Card}
use recskapa.Decoder.{Code, ok, DecryptorElem}
use recskapa.Decoder.Ecm.{use_section, set_parser, proc_ecm}
use recskapa.Section.Assembly.{Section}
use recskapa.Section.Parser.{Parser}
use recskapa.Section.Parser.Methods.{get, ret}

-- The card and the world are as they were, no key is set, and the lock stays.
abbrev pub IsSpared :
    {W : Type 0} → DecryptorElem → Card → W → Code × DecryptorElem × Option Card × W → Type 0
IsSpared dec bcas w (code, dec', bcas', w') =
    (code ≢ ok) × (dec'.m2 ≡ dec.m2) × (dec'.locked ≡ dec.locked) × (bcas' ≡ some bcas) × (w' ≡ w)

module _ {W : Type 0} (scard : Scard W) (malloc : ℕ → Bool) (memory : Bool) (res : EcmResult) where
  use_section_locked :
      (dec : DecryptorElem) (bcas : Card) (multi2_round : ℕ) (sect : Section) (w : W)
      → dec.locked ≢ 0
      → let h = use_section scard malloc memory res dec bcas multi2_round sect w in
        IsSpared dec bcas w (h.code, h.dec, h.bcas, h.world)
  unfolding use_section
  use_section_locked dec bcas multi2_round sect w locked =
      let closed : (dec.locked == 0) ≡ false = ground arith in
      elim (Bool-cases (sect.hdr.table_id == 0x82)) [
        | inr wrong ↦ rw wrong (λ e. absurd (ground (arith, e)), refl, refl, refl, refl)
        | inl right ↦ rw (right, closed) (λ e. absurd (ground (arith, e)), refl, refl, refl, refl)
      ]

  through_return :
      (dec dec' : DecryptorElem) (bcas : Card) (bcas' : Option Card) (w w' : W) (code : Code)
      (gives_back : Bool) (before after : Option Parser)
      → IsSpared (set_parser scard malloc memory res dec before) bcas w (code, dec', bcas', w')
      → IsSpared dec bcas w (
        code,
        if gives_back then set_parser scard malloc memory res dec' after else dec',
        bcas',
        w',
      )
  through_return dec dec' bcas bcas' w w' code true none none h = h
  through_return dec dec' bcas bcas' w w' code true none (some q) h = h
  through_return dec dec' bcas bcas' w w' code true (some p) none h = h
  through_return dec dec' bcas bcas' w w' code true (some p) (some q) h = h
  through_return dec dec' bcas bcas' w w' code false none after h = h
  through_return dec dec' bcas bcas' w w' code false (some p) after h = h

  -- Where the decryptor is locked, an ECM leaves the card and the world as they were, and the cipher
  -- and the lock too; the result is not 0.
  pub proc_ecm_locked :
      (dec : DecryptorElem) (bcas : Card) (multi2_round : ℕ) (w : W)
      → dec.locked ≢ 0
      → IsSpared dec bcas w (proc_ecm scard malloc memory res dec (some bcas) multi2_round w)
  unfolding proc_ecm
  proc_ecm_locked dec bcas multi2_round w locked =
      let (n, sect, ecm) = get (some dec.ecm) true in
      let dec1 = set_parser scard malloc memory res dec ecm in
      elim (Option-cases sect) [
        | inl nothing ↦
            rw (proc_ecm, nothing)
              (through_return dec dec bcas (some bcas) w w Code.ecm_parse_failure true none ecm
                (λ e. absurd (ground (arith, e)), refl, refl, refl, refl))
        | inr (handed, found) ↦
            let h = use_section scard malloc memory res dec1 bcas multi2_round handed.sect w in
            rw (proc_ecm, found)
              (through_return dec h.dec bcas h.bcas w h.world h.code h.gives_back ecm
                (ret (some h.dec.ecm) (some handed)).1
                (use_section_locked dec1 bcas multi2_round handed.sect w (still_locked ecm)))
      ]
    where
      still_locked : (ecm : Option Parser) → (set_parser scard malloc memory res dec ecm).locked ≢ 0
      still_locked none = locked
      still_locked (some p) = locked
