-- ===== src/Record/Options.antt =====
-- recskapa.c: the words of two options. Characters are their codes in ASCII; -1 is `none`.
use recskapa.Base.{
  ℕ, ◌-◌, leb, ◌==◌, if◌then◌else◌, List, [], ◌∷◌, Bool, true, false, ◌&&◌, Option, some, none,
}

-- `toupper`, in the C locale.
abbrev toupper : ℕ → ℕ
toupper c = if leb 97 c && leb c 122 then c - 32 else c

abbrev same_word : List ℕ → List ℕ → Bool
same_word [] [] = true
same_word [] (d ∷ ds) = false
same_word (c ∷ cs) [] = false
same_word (c ∷ cs) (d ∷ ds) = toupper c == toupper d && same_word cs ds

-- H is 0, and V is 1.
pub parse_polarity : ℕ → Option ℕ
parse_polarity pol =
    if toupper pol == 72 then some 0 else if toupper pol == 86 then some 1 else none

-- JCSAT4B is 1, a tone, and JCSAT3A is 0.
pub parse_satellite : List ℕ → Option ℕ
parse_satellite sat =
    if same_word sat (74 ∷ 67 ∷ 83 ∷ 65 ∷ 84 ∷ 52 ∷ 66 ∷ [])
    then some 1
    else if same_word sat (74 ∷ 67 ∷ 83 ∷ 65 ∷ 84 ∷ 51 ∷ 65 ∷ [])
    then some 0
    else none
