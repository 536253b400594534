-- ===== src/Section/Assembly/Complete.antt =====
-- b1/ts_section_parser.c: when a section is complete, and what it then holds.
use recskapa.Base.{
  ℕ, zero, suc, ◌≢◌, ◌∷◌, ◌+◌, ◌*◌, ◌/◌, ◌%◌, ◌≤◌, ◌<◌, ◌≡◌, ◌↔◌, ◌⊎◌, refl, arith, ap, ap₂, ◌∙◌,
}
use recskapa.Base.{
  length, get_or, take, length-take, some, none, true, false, List, [], IsByte, All, All-take,
  Option-cases, inl, inr, bit_and, bit_or, ◌<<◌, ◌>>◌,
}
use recskapa.Base.Bits.{and_mask, or_fields}
use recskapa.Section.Assembly.{
  Section, reset_section, max_raw_section_size, append_section_data, check_section_complete,
}
use recskapa.Section.Assembly.{extract_ts_section_header, cut_section}
use recskapa.Section.Assembly.Chunks.{append_fresh, found, cut_some, cut_none}
use recskapa.Section.Assembly.Length.{take-take}

-- The bytes that a section which begins with `bytes` takes: the 12 bits that the second and third
-- byte end in, and three more.
abbrev pub section_size : List ℕ → ℕ
section_size bytes = (get_or bytes 1 0 * 256 + get_or bytes 2 0) % 4096 + 3

-- The first bit of the second byte.
abbrev pub is_long : List ℕ → ℕ
is_long bytes = get_or bytes 1 0 / 128 % 2

-- The bytes hold a whole section: its header and as many bytes as that says.
abbrev pub HoldsSection : List ℕ → Type 0
HoldsSection bytes =
    (3 ≤ length bytes)
    × ((is_long bytes ≡ 0) ⊎ (8 ≤ length bytes))
    × (section_size bytes ≤ length bytes)

get_or-IsByte : (bytes : List ℕ) (i : ℕ) → All IsByte bytes → get_or bytes i 0 < 256
get_or-IsByte [] i h = omega arith
get_or-IsByte (x ∷ xs) zero h = h.0
get_or-IsByte (x ∷ xs) (suc i) h = get_or-IsByte xs i h.1

found_size :
    (bytes : List ℕ) (k : ℕ)
    → All IsByte bytes
    → (found bytes).body ≡ some k
    → ((found bytes).hdr.section_length + 3 ≡ section_size bytes) × ((found bytes).raw ≡ bytes)
unfolding extract_ts_section_header
found_size bytes k hb e =
    let size : bit_and (bit_or (get_or bytes 1 0 << 8) (get_or bytes 2 0)) 4095 + 3
        ≡ section_size bytes =
      size_eq in
    ground arith
  where
    size_eq :
        bit_and (bit_or (get_or bytes 1 0 << 8) (get_or bytes 2 0)) 4095 + 3 ≡ section_size bytes
    size_eq = omega (
      arith,
      and_mask 12 (bit_or (get_or bytes 1 0 << 8) (get_or bytes 2 0)),
      or_fields 8 (get_or bytes 1 0) (get_or bytes 2 0) (get_or-IsByte bytes 2 hb),
    )

found-some :
    (bytes : List ℕ) (k : ℕ)
    → (found bytes).body ≡ some k
    → (3 ≤ length bytes) × ((is_long bytes ≡ 0) ⊎ (8 ≤ length bytes))
unfolding extract_ts_section_header
found-some bytes k e = ground (arith, and_mask 1 (get_or bytes 1 0 >> 7))

found-none :
    (bytes : List ℕ)
    → (found bytes).body ≡ none
    → (length bytes < 3) ⊎ ((is_long bytes ≢ 0) × (length bytes < 8))
unfolding extract_ts_section_header
found-none bytes e = ground (arith, and_mask 1 (get_or bytes 1 0 >> 7))

check-none : (sect : Section) → sect.body ≡ none → check_section_complete sect ≡ false
unfolding check_section_complete
check-none sect e = rw e

take_complete :
    (bytes : List ℕ) (k n : ℕ)
    → (found bytes).body ≡ some k
    → (found bytes).hdr.section_length + 3 ≡ n
    → (found bytes).raw ≡ bytes
    → (check_section_complete (cut_section (found bytes)) ≡ true ↔ n ≤ length bytes)
      × ((cut_section (found bytes)).raw ≡ take n bytes)
unfolding check_section_complete
take_complete bytes k n e size raw =
    let c : cut_section (found bytes) ≡ record (found bytes) { raw = take n bytes } =
      cut_some (found bytes) k e ∙ ap (λ t. record (found bytes) { raw = t }) (ap₂ take size raw) in
    rw (c, e) (ground (arith, length-take n bytes))

get_or-take : (n i : ℕ) (xs : List ℕ) → i < n → get_or (take n xs) i 0 ≡ get_or xs i 0
get_or-take zero i xs h = absurd (omega arith)
get_or-take (suc n) i [] h = refl
get_or-take (suc n) zero (x ∷ xs) h = refl
get_or-take (suc n) (suc i) (x ∷ xs) h = get_or-take n i xs (omega arith)

section_size-take :
    (xs : List ℕ)
    → (section_size (take max_raw_section_size xs) ≡ section_size xs)
      × (is_long (take max_raw_section_size xs) ≡ is_long xs)
section_size-take xs =
    let e1 = get_or-take max_raw_section_size 1 xs (omega arith) in
    let e2 = get_or-take max_raw_section_size 2 xs (omega arith) in
    (ap₂ (λ (p1 : ℕ) (p2 : ℕ). (p1 * 256 + p2) % 4096 + 3) e1 e2, ap (λ (p1 : ℕ). p1 / 128 % 2) e1)

-- A new section to which bytes are appended is complete exactly if they hold a whole section, and
-- then it is cut to the size that its header gives.
pub append_complete :
    (xs : List ℕ)
    → All IsByte xs
    → (check_section_complete (append_section_data reset_section xs) ≡ true ↔ HoldsSection xs)
      × (HoldsSection xs → (append_section_data reset_section xs).raw ≡ take (section_size xs) xs)
append_complete xs hb =
    let bytes : List ℕ = take max_raw_section_size xs in
    let (size, long) = section_size-take xs in
    let count = length-take max_raw_section_size xs in
    elim (Option-cases (found bytes).body) [
      | inl e ↦
          let few = found-none bytes e in
          let same = append_fresh xs ∙ cut_none (found bytes) e in
          let no : check_section_complete (append_section_data reset_section xs) ≡ false =
            ap check_section_complete same ∙ check-none (found bytes) e in
          (ground arith, λ h. absurd (ground arith))
      | inr (k, e) ↦
          let (size', raw) = found_size bytes k (All-take IsByte max_raw_section_size xs hb) e in
          let (done, cut) = take_complete bytes k (section_size xs) e (size' ∙ size) raw in
          let held = found-some bytes k e in
          rw (append_fresh xs) (
            ground arith,
            λ h. cut ∙ take-take (section_size xs) max_raw_section_size xs (omega arith),
          )
    ]
