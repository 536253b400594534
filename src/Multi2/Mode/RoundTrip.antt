-- ===== src/Multi2/Mode/RoundTrip.antt =====
-- b1/multi2.c: what one direction writes over a buffer, the other reads back.
use recskapa.Base.{
  ℕ, suc, ◌+◌, ◌<◌, bit_xor, u8, ◌≡◌, refl, length, ap, ap₂, ◌∙◌, IsByte, List, [], ◌∷◌, ◌++◌, All,
  arith,
}
use recskapa.Base.Bits.{xor_cancel, xor-lt}
use recskapa.Multi2.Word.{load_be_uint32, save_be_uint32, load-save, save-load, load-lt}
use recskapa.Multi2.Core.{CoreParam, CoreData, core_encrypt, core_decrypt}
use recskapa.Multi2.Core.Inverse.{decrypt-encrypt, encrypt-decrypt}
use recskapa.Multi2.Core.Width.{IsData, core_encrypt-IsData, core_decrypt-IsData}
use recskapa.Multi2.Mode.{xor_data, save_data, xor_tail, encrypt_from, decrypt_from}

xor_data_cancel : (a b : CoreData) → xor_data (xor_data a b) b ≡ a
unfolding xor_data
xor_data_cancel a b = rw (xor_cancel a.l b.l, xor_cancel a.r b.r)

xor_data-IsData : (a b : CoreData) → IsData a → IsData b → IsData (xor_data a b)
unfolding xor_data
xor_data-IsData a b ha hb = (xor-lt 32 _ _ ha.0 hb.0, xor-lt 32 _ _ ha.1 hb.1)

xor_byte_twice : (x t : ℕ) → IsByte x → IsByte t → u8 (bit_xor (u8 (bit_xor x t)) t) ≡ x
xor_byte_twice x t hx ht =
    let e : u8 (bit_xor x t) ≡ bit_xor x t = omega (arith, xor-lt 8 x t hx ht) in
    rw (e, xor_cancel x t) (omega arith)

xor_tail_twice :
    (xs tmp : List ℕ) → All IsByte xs → All IsByte tmp → xor_tail (xor_tail xs tmp) tmp ≡ xs
unfolding xor_tail
xor_tail_twice [] tmp hx ht = refl
xor_tail_twice (x ∷ xs) [] hx ht = refl
xor_tail_twice (x ∷ xs) (t ∷ tmp) hx ht =
    ap₂ ◌∷◌ (xor_byte_twice x t hx.0 ht.0) (xor_tail_twice xs tmp hx.1 ht.1)

save_data-IsByte : (s : CoreData) → All IsByte (save_data s)
unfolding save_data save_be_uint32
save_data-IsByte s = omega arith

-- The block that the first eight bytes make.
abbrev loaded : ℕ → ℕ → ℕ → ℕ → ℕ → ℕ → ℕ → ℕ → CoreData
loaded a b c d e f g h = record { l = load_be_uint32 a b c d; r = load_be_uint32 e f g h }

loaded-IsData : (a b c d e f g h : ℕ) → IsData (loaded a b c d e f g h)
loaded-IsData a b c d e f g h = (load-lt a b c d, load-lt e f g h)

saved-loaded :
    (a b c d e f g h : ℕ) (rest : List ℕ)
    → All IsByte (a ∷ b ∷ c ∷ d ∷ e ∷ f ∷ g ∷ h ∷ rest)
    → save_data (loaded a b c d e f g h) ≡ a ∷ b ∷ c ∷ d ∷ e ∷ f ∷ g ∷ h ∷ []
unfolding save_data
saved-loaded a b c d e f g h rest (ha, (hb, (hc, (hd, (he, (hf, (hg, (hh, _)))))))) =
    ap₂ ◌++◌ (save-load a b c d ha hb hc hd) (save-load e f g h he hf hg hh)

All_drop8 :
    (a b c d e f g h : ℕ) (rest : List ℕ)
    → All IsByte (a ∷ b ∷ c ∷ d ∷ e ∷ f ∷ g ∷ h ∷ rest)
    → All IsByte rest
All_drop8 a b c d e f g h rest (_, (_, (_, (_, (_, (_, (_, (_, p)))))))) = p

module _ (round : ℕ) (prm : CoreParam) where
  decrypt_from_saved :
      (cbc s : CoreData) (ys : List ℕ)
      → IsData s
      → decrypt_from round prm cbc (save_data s ++ ys)
        ≡ save_data (xor_data (core_decrypt round prm s) cbc) ++ decrypt_from round prm s ys
  unfolding decrypt_from save_data save_be_uint32
  decrypt_from_saved cbc s ys h = rw (load-save s.l h.0, load-save s.r h.1) refl

  encrypt_from_saved :
      (dst s : CoreData) (ys : List ℕ)
      → IsData s
      → let out = core_encrypt round prm (xor_data s dst) in
        encrypt_from round prm dst (save_data s ++ ys)
        ≡ save_data out ++ encrypt_from round prm out ys
  unfolding encrypt_from save_data save_be_uint32
  encrypt_from_saved dst s ys h = rw (load-save s.l h.0, load-save s.r h.1) refl

  -- A tail leaves the length of a buffer alone, so the other direction meets it as a tail too.
  decrypt_from_tail :
      (cbc : CoreData) (short : List ℕ)
      → length short < 8
      → let tmp = save_data (core_encrypt round prm cbc) in
        decrypt_from round prm cbc (xor_tail short tmp) ≡ xor_tail (xor_tail short tmp) tmp
  unfolding decrypt_from xor_tail save_data save_be_uint32
  decrypt_from_tail cbc (a ∷ b ∷ c ∷ d ∷ e ∷ f ∷ g ∷ h ∷ rest) lt = absurd (omega arith)
  decrypt_from_tail cbc short lt = refl

  encrypt_from_tail :
      (dst : CoreData) (short : List ℕ)
      → length short < 8
      → let tmp = save_data (core_encrypt round prm dst) in
        encrypt_from round prm dst (xor_tail short tmp) ≡ xor_tail (xor_tail short tmp) tmp
  unfolding encrypt_from xor_tail save_data save_be_uint32
  encrypt_from_tail dst (a ∷ b ∷ c ∷ d ∷ e ∷ f ∷ g ∷ h ∷ rest) lt = absurd (omega arith)
  encrypt_from_tail dst short lt = refl

  tail_twice :
      (s : CoreData) (short : List ℕ)
      → All IsByte short
      → let tmp = save_data (core_encrypt round prm s) in xor_tail (xor_tail short tmp) tmp ≡ short
  tail_twice s short bytes =
      xor_tail_twice short (save_data (core_encrypt round prm s)) bytes (save_data-IsByte _)

  pub decrypt_from-encrypt_from :
      (dst : CoreData) (bytes : List ℕ)
      → IsData dst
      → All IsByte bytes
      → decrypt_from round prm dst (encrypt_from round prm dst bytes) ≡ bytes
  unfolding encrypt_from
  decrypt_from-encrypt_from dst (a ∷ b ∷ c ∷ d ∷ e ∷ f ∷ g ∷ h ∷ rest) wide bytes =
      let src : CoreData = loaded a b c d e f g h in
      let src_wide : IsData src = loaded-IsData a b c d e f g h in
      let mixed = xor_data src dst in
      let out = core_encrypt round prm mixed in
      let out_wide : IsData out =
        core_encrypt-IsData round prm mixed (xor_data-IsData src dst src_wide wide) in
      decrypt_from_saved dst out (encrypt_from round prm out rest) out_wide
      ∙ ap₂ ◌++◌
          (ap save_data
              (ap (λ x. xor_data x dst) (decrypt-encrypt round prm mixed) ∙ xor_data_cancel src dst)
            ∙ saved-loaded a b c d e f g h rest bytes)
          (decrypt_from-encrypt_from out rest out_wide (All_drop8 a b c d e f g h rest bytes))
  decrypt_from-encrypt_from dst short wide bytes =
      decrypt_from_tail dst short (omega arith) ∙ tail_twice dst short bytes

  pub encrypt_from-decrypt_from :
      (cbc : CoreData) (bytes : List ℕ)
      → IsData cbc
      → All IsByte bytes
      → encrypt_from round prm cbc (decrypt_from round prm cbc bytes) ≡ bytes
  unfolding decrypt_from
  encrypt_from-decrypt_from cbc (a ∷ b ∷ c ∷ d ∷ e ∷ f ∷ g ∷ h ∷ rest) wide bytes =
      let src : CoreData = loaded a b c d e f g h in
      let src_wide : IsData src = loaded-IsData a b c d e f g h in
      let plain = xor_data (core_decrypt round prm src) cbc in
      let plain_wide : IsData plain =
        xor_data-IsData _ cbc (core_decrypt-IsData round prm src src_wide) wide in
      let back : core_encrypt round prm (xor_data plain cbc) ≡ src =
        ap (core_encrypt round prm) (xor_data_cancel _ cbc) ∙ encrypt-decrypt round prm src in
      encrypt_from_saved cbc plain (decrypt_from round prm src rest) plain_wide
      ∙ ap (λ x. save_data x ++ encrypt_from round prm x (decrypt_from round prm src rest)) back
      ∙ ap₂ ◌++◌ (saved-loaded a b c d e f g h rest bytes)
          (encrypt_from-decrypt_from src rest src_wide (All_drop8 a b c d e f g h rest bytes))
  encrypt_from-decrypt_from cbc short wide bytes =
      encrypt_from_tail cbc short (omega arith) ∙ tail_twice cbc short bytes

length-xor_tail : (xs tmp : List ℕ) → length (xor_tail xs tmp) ≡ length xs
unfolding xor_tail
length-xor_tail [] tmp = refl
length-xor_tail (x ∷ xs) [] = refl
length-xor_tail (x ∷ xs) (t ∷ tmp) = ap suc (length-xor_tail xs tmp)

length-save_data : (s : CoreData) (ys : List ℕ) → length (save_data s ++ ys) ≡ 8 + length ys
unfolding save_data save_be_uint32
length-save_data s ys = omega arith

module _ (round : ℕ) (prm : CoreParam) where
  pub length-encrypt_from :
      (dst : CoreData) (bytes : List ℕ) → length (encrypt_from round prm dst bytes) ≡ length bytes
  unfolding encrypt_from
  length-encrypt_from dst (a ∷ b ∷ c ∷ d ∷ e ∷ f ∷ g ∷ h ∷ rest) =
      length-save_data _ _
      ∙ omega (
        arith,
        length-encrypt_from (core_encrypt round prm (xor_data (loaded a b c d e f g h) dst)) rest,
      )
  length-encrypt_from dst short = length-xor_tail short _

  pub length-decrypt_from :
      (cbc : CoreData) (bytes : List ℕ) → length (decrypt_from round prm cbc bytes) ≡ length bytes
  unfolding decrypt_from
  length-decrypt_from cbc (a ∷ b ∷ c ∷ d ∷ e ∷ f ∷ g ∷ h ∷ rest) =
      length-save_data _ _ ∙ omega (arith, length-decrypt_from (loaded a b c d e f g h) rest)
  length-decrypt_from cbc short = length-xor_tail short _
