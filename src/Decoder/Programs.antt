-- ===== src/Decoder/Programs.antt =====
-- b1/arib_std_b1.c: the array of programs. An index that is out of range has no program.
use recskapa.Base.{ℕ, zero, suc, List, [], ◌∷◌, Option, some, none}
use recskapa.Decoder.{Program}

unfoldable pub program_at : List Program → ℕ → Option Program
program_at [] n = none
program_at (pgrm ∷ rest) zero = some pgrm
program_at (pgrm ∷ rest) (suc n) = program_at rest n

-- An element of the array is written.
unfoldable pub set_program : List Program → ℕ → Program → List Program
set_program [] n new = []
set_program (pgrm ∷ rest) zero new = new ∷ rest
set_program (pgrm ∷ rest) (suc n) new = pgrm ∷ set_program rest n new
