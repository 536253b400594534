-- ===== src/Card/Bytes.antt =====
-- b1/b_cas_card.c: commands and numbers as bytes.
use recskapa.Base.{◌↔◌, ℕ, ◌+◌, ◌*◌, ◌%◌, ◌^◌, ◌≤◌, ◌<◌, ◌≡◌, refl, ap, ◌∙◌, arith}
use recskapa.Base.{
  bit_and, bit_or, ◌<<◌, length, length-append, get_or, take, drop, take_append_exact,
}
use recskapa.Base.{List, [], ◌∷◌, ◌++◌, All, IsByte}
use recskapa.Base.Bits.{or_fields, and_mask}

abbrev pub initial_setting_conditions_cmd : List ℕ
initial_setting_conditions_cmd = 0x80 ∷ 0x5e ∷ 0x00 ∷ 0x00 ∷ 0x00 ∷ []

abbrev pub card_id_information_acquire_cmd : List ℕ
card_id_information_acquire_cmd = 0x80 ∷ 0x5e ∷ 0x00 ∷ 0x00 ∷ 0x00 ∷ []

abbrev pub ecm_receive_cmd_header : List ℕ
ecm_receive_cmd_header = 0x80 ∷ 0x34 ∷ 0x00 ∷ 0x00 ∷ []

abbrev pub b_cas_buffer_max : ℕ
b_cas_buffer_max = 4096

-- What is written to `dst`; its length is what the function returns.
unfoldable pub setup_ecm_receive_command : List ℕ → List ℕ
setup_ecm_receive_command src =
    ecm_receive_cmd_header ++ (bit_and (length src) 0xff ∷ src ++ (0 ∷ []))

unfoldable pub load_be_uint16 : List ℕ → ℕ
load_be_uint16 p = bit_or (get_or p 0 0 << 8) (get_or p 1 0)

-- The loop, on the bytes that follow.
unfoldable pub shift_in : ℕ → List ℕ → ℕ
shift_in r [] = r
shift_in r (b ∷ bs) = shift_in (bit_or (r << 8) b) bs

unfoldable pub load_be_uint48 : List ℕ → ℕ
load_be_uint48 p = shift_in (get_or p 0 0) (take 5 (drop 1 p))

-- The number that bytes spell behind the ones that spell `r`.
abbrev pub spells : ℕ → List ℕ → ℕ
spells r [] = r
spells r (b ∷ bs) = spells (r * 256 + b) bs

shift_in-spells : (r : ℕ) (bs : List ℕ) → All IsByte bs → shift_in r bs ≡ spells r bs
unfolding shift_in
shift_in-spells r [] h = refl
shift_in-spells r (b ∷ bs) h =
    ap (λ k. shift_in k bs) (or_fields 8 r b h.0) ∙ shift_in-spells (r * 256 + b) bs h.1

-- Six bytes are read as the number that they spell to the base 256, which has at most 48 bits.
pub load_be_uint48_lem :
    (b0 b1 b2 b3 b4 b5 : ℕ) (rest : List ℕ)
    → All IsByte (b0 ∷ b1 ∷ b2 ∷ b3 ∷ b4 ∷ b5 ∷ [])
    → let n = load_be_uint48 (b0 ∷ b1 ∷ b2 ∷ b3 ∷ b4 ∷ b5 ∷ rest) in
      (n ≡ ((((b0 * 256 + b1) * 256 + b2) * 256 + b3) * 256 + b4) * 256 + b5) × (n < 2 ^ 48)
unfolding load_be_uint48
load_be_uint48_lem b0 b1 b2 b3 b4 b5 rest (h0, (h1, (h2, (h3, (h4, (h5, _)))))) =
    let e = shift_in-spells b0 (b1 ∷ b2 ∷ b3 ∷ b4 ∷ b5 ∷ []) (h1, (h2, (h3, (h4, (h5, tt))))) in
    (e, omega (arith, e))

-- The command is longer than the ECM by 6, and fits the buffer of the card exactly if the ECM has at
-- most 4090 bytes; its fifth byte is the length of the ECM modulo 256, and the ECM stands whole
-- behind it.
pub setup_ecm_receive_command_lem :
    (src : List ℕ)
    → let cmd = setup_ecm_receive_command src in
      (length cmd ≡ length src + 6)
      × (length cmd ≤ b_cas_buffer_max ↔ length src ≤ 4090)
      × (get_or cmd 4 0 ≡ length src % 2 ^ 8)
      × (take (length src) (drop 5 cmd) ≡ src)
unfolding setup_ecm_receive_command
setup_ecm_receive_command_lem src =
    let size = length-append src (0 ∷ []) in
    (
      omega (arith, size),
      (λ h. omega (arith, size), λ h. omega (arith, size)),
      and_mask 8 (length src),
      take_append_exact (length src) src (0 ∷ []) refl,
    )
