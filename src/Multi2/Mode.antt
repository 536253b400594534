-- ===== src/Multi2/Mode.antt =====
-- b1/multi2.c: the loops of `encrypt_multi2` and `decrypt_multi2` over the bytes of a buffer, and
-- the mask on the last bytes that do not fill a block.
pub mod RoundTrip
use recskapa.Base.{ℕ, bit_xor, u8, List, [], ◌∷◌, ◌++◌}
use recskapa.Multi2.Word.{load_be_uint32, save_be_uint32}
use recskapa.Multi2.Core.{CoreParam, CoreData, core_encrypt, core_decrypt}

-- `src.l ^ dst.l` and `src.r ^ dst.r`.
unfoldable pub xor_data : CoreData → CoreData → CoreData
xor_data a b = record { l = bit_xor a.l b.l; r = bit_xor a.r b.r }

unfoldable pub save_data : CoreData → List ℕ
save_data s = save_be_uint32 s.l ++ save_be_uint32 s.r

-- `p[i] = (uint8_t)(p[i] ^ tmp[i])` for the bytes that are left.
unfoldable pub xor_tail : List ℕ → List ℕ → List ℕ
xor_tail [] tmp = []
xor_tail (x ∷ xs) [] = x ∷ xs
xor_tail (x ∷ xs) (t ∷ tmp) = u8 (bit_xor x t) ∷ xor_tail xs tmp

module _ (round : ℕ) (prm : CoreParam) where
  -- What `encrypt_multi2` writes over the bytes from `p` on. `dst` is the last block written, or
  -- the initial value.
  unfoldable pub encrypt_from : CoreData → List ℕ → List ℕ
  encrypt_from dst (a ∷ b ∷ c ∷ d ∷ e ∷ f ∷ g ∷ h ∷ rest) =
      let src : CoreData = record { l = load_be_uint32 a b c d; r = load_be_uint32 e f g h } in
      let out = core_encrypt round prm (xor_data src dst) in save_data out ++ encrypt_from out rest
  encrypt_from dst short = xor_tail short (save_data (core_encrypt round prm dst))

  -- What `decrypt_multi2` writes over the bytes from `p` on. `cbc` is the last block read, or the
  -- initial value.
  unfoldable pub decrypt_from : CoreData → List ℕ → List ℕ
  decrypt_from cbc (a ∷ b ∷ c ∷ d ∷ e ∷ f ∷ g ∷ h ∷ rest) =
      let src : CoreData = record { l = load_be_uint32 a b c d; r = load_be_uint32 e f g h } in
      save_data (xor_data (core_decrypt round prm src) cbc) ++ decrypt_from src rest
  decrypt_from cbc short = xor_tail short (save_data (core_encrypt round prm cbc))
