-- ===== src/Section/Assembly/Chunks.antt =====
-- b1/ts_section_parser.c: the bytes of a section may come in any pieces.
use recskapa.Base.{ℕ, ◌+◌, ◌-◌, ◌≤◌, ◌<◌, ◌≡◌, sym, ap, ◌∙◌, arith}
use recskapa.Base.{
  length, get_or, take, length-take, length-append, take_all, Option-cases, inl, inr,
}
use recskapa.Base.{some, none, List, [], ◌∷◌, ◌++◌}
use mathlib.Core.List.{append-nil, append_assoc}
use recskapa.Section.Assembly.{Section, reset_section, max_raw_section_size}
use recskapa.Section.Assembly.{extract_ts_section_header, cut_section, append_section_data}
use recskapa.Section.Assembly.Length.{take-append, take_smaller, take_refill}
use recskapa.Section.Assembly.Length.{get_or-take_append, section_length-le}

-- What the header of a section that begins with `bytes` looks like.
abbrev pub found : List ℕ → Section
found bytes = extract_ts_section_header (record reset_section { raw = bytes })

abbrev fill : Section → List ℕ → Section
fill sect bytes = record sect {
  raw = sect.raw ++ take (max_raw_section_size - length sect.raw) bytes;
}

append_eq :
    (sect : Section) (bytes : List ℕ)
    → append_section_data sect bytes
      ≡ cut_section (elim sect.body [
        | none ↦ extract_ts_section_header (fill sect bytes)
        | some _ ↦ fill sect bytes
      ])
unfolding append_section_data
append_eq sect bytes =
    ap
      (λ t. cut_section (elim sect.body [
        | none ↦ extract_ts_section_header (record sect { raw = sect.raw ++ t })
        | some _ ↦ record sect { raw = sect.raw ++ t }
      ]))
      (take_smaller (max_raw_section_size - length sect.raw) bytes)

pub cut_none : (sect : Section) → sect.body ≡ none → cut_section sect ≡ sect
unfolding cut_section
cut_none sect e = rw e

pub cut_some :
    (sect : Section) (k : ℕ)
    → sect.body ≡ some k
    → cut_section sect ≡ record sect { raw = take (sect.hdr.section_length + 3) sect.raw }
unfolding cut_section
cut_some sect k e = ground (arith, take_all (sect.hdr.section_length + 3) sect.raw)

-- While nothing is found, less than eight bytes are there, and extraction starts afresh.
waiting_short :
    (bytes : List ℕ) → (found bytes).body ≡ none → (length bytes < 8) × ((found bytes).raw ≡ bytes)
unfolding extract_ts_section_header
waiting_short bytes e = ground arith

extract_again :
    (p q : List ℕ)
    → length p ≤ length q
    → (found p).body ≡ none
    → extract_ts_section_header (record (found p) { raw = q }) ≡ found q
unfolding extract_ts_section_header
extract_again p q more e = ground arith

-- Once the header is found, more bytes do not change it.
extract_more :
    (n : ℕ) (xs ys : List ℕ) (k : ℕ)
    → (found (take n xs)).body ≡ some k
    → found (take n (xs ++ ys)) ≡ record (found (take n xs)) { raw = take n (xs ++ ys) }
unfolding extract_ts_section_header
extract_more n xs ys k e = ground (
  arith,
  length-take n xs,
  length-take n (xs ++ ys),
  length-append xs ys,
  get_or-take_append n 0 xs ys 0,
  get_or-take_append n 1 xs ys 0,
  get_or-take_append n 2 xs ys 0,
  get_or-take_append n 3 xs ys 0,
  get_or-take_append n 4 xs ys 0,
  get_or-take_append n 5 xs ys 0,
  get_or-take_append n 6 xs ys 0,
  get_or-take_append n 7 xs ys 0,
)

found-length :
    (bytes : List ℕ) (k : ℕ)
    → (found bytes).body ≡ some k
    → ((found bytes).hdr.section_length ≤ 4095) × ((found bytes).raw ≡ bytes)
unfolding extract_ts_section_header
found-length bytes k e = ground (arith, section_length-le (get_or bytes 1 0) (get_or bytes 2 0))

pub append_fresh :
    (xs : List ℕ)
    → append_section_data reset_section xs ≡ cut_section (found (take max_raw_section_size xs))
append_fresh xs = append_eq reset_section xs

module _ (xs ys : List ℕ) where
  abbrev have : List ℕ
  have = take max_raw_section_size xs

  abbrev want : List ℕ
  want = take max_raw_section_size (xs ++ ys)

  -- More bytes while the header is still to come.
  append_waiting :
      (found have).body ≡ none
      → append_section_data (cut_section (found have)) ys ≡ cut_section (found want)
  append_waiting e =
      let (short, raw) = waiting_short have e in
      let filled : (found have).raw ++ take (max_raw_section_size - length (found have).raw) ys
          ≡ want =
        ap (λ t. t ++ take (max_raw_section_size - length t) ys) raw
        ∙ sym (take-append max_raw_section_size xs ys) in
      let grows : length have ≤ length want = omega (
        arith,
        length-take max_raw_section_size xs,
        length-take max_raw_section_size (xs ++ ys),
        length-append xs ys,
      ) in
      ap (λ s. append_section_data s ys) (cut_none (found have) e)
      ∙ append_eq (found have) ys
      ∙ ap
          (λ b. cut_section (elim b [
            | none ↦ extract_ts_section_header (fill (found have) ys)
            | some _ ↦ fill (found have) ys
          ]))
          e
      ∙ ap (λ t. cut_section (extract_ts_section_header (record (found have) { raw = t }))) filled
      ∙ ap cut_section (extract_again have want grows e)

  -- More bytes once the header is there.
  append_found :
      (k : ℕ)
      → (found have).body ≡ some k
      → append_section_data (cut_section (found have)) ys ≡ cut_section (found want)
  append_found k e =
      let (short, raw) = found-length have k e in
      let cut = (found have).hdr.section_length + 3 in
      let c = record (found have) { raw = take cut (found have).raw } in
      let refilled : take cut (c.raw ++ take (max_raw_section_size - length c.raw) ys)
          ≡ take cut want =
        ap (λ r. take cut (take cut r ++ take (max_raw_section_size - length (take cut r)) ys)) raw
        ∙ take_refill max_raw_section_size cut xs ys (omega arith) in
      ap (λ s. append_section_data s ys) (cut_some (found have) k e)
      ∙ append_eq c ys
      ∙ ap
          (λ b.
            cut_section
              (elim b [ none ↦ extract_ts_section_header (fill c ys) | some _ ↦ fill c ys ]))
          e
      ∙ cut_some (fill c ys) k e
      ∙ ap (λ r. record (found have) { raw = r }) refilled
      ∙ sym (cut_some (record (found have) { raw = want }) k e)
      ∙ ap cut_section (sym (extract_more max_raw_section_size xs ys k e))

-- Bytes that are appended to a section in two pieces make the section that they make in one.
pub append-append :
    (xs ys : List ℕ)
    → append_section_data (append_section_data reset_section xs) ys
      ≡ append_section_data reset_section (xs ++ ys)
append-append xs ys = elim (Option-cases (found (have xs ys)).body) [
  | inl e ↦
      ap (λ s. append_section_data s ys) (append_fresh xs)
      ∙ append_waiting xs ys e
      ∙ sym (append_fresh (xs ++ ys))
  | inr (k, e) ↦
      ap (λ s. append_section_data s ys) (append_fresh xs)
      ∙ append_found xs ys k e
      ∙ sym (append_fresh (xs ++ ys))
]

-- The payloads of a run of packets, appended one after the other.
pub append_all : Section → List (List ℕ) → Section
append_all sect [] = sect
append_all sect (c ∷ cs) = append_all (append_section_data sect c) cs

abbrev pub joined : List (List ℕ) → List ℕ
joined [] = []
joined (c ∷ cs) = c ++ joined cs

append_all_from :
    (xs : List ℕ) (chunks : List (List ℕ))
    → append_all (append_section_data reset_section xs) chunks
      ≡ append_section_data reset_section (xs ++ joined chunks)
unfolding append_all
append_all_from xs [] = ap (append_section_data reset_section) (sym (append-nil xs))
append_all_from xs (c ∷ cs) =
    ap (λ s. append_all s cs) (append-append xs c)
    ∙ append_all_from (xs ++ c) cs
    ∙ ap (append_section_data reset_section) (append_assoc xs c (joined cs))

-- However the bytes are cut into payloads, a new section ends up as if they had come in one: with
-- the same bytes, the same header and the same start of its data.
pub append_all-eq-append :
    (first : List ℕ) (chunks : List (List ℕ))
    → append_all reset_section (first ∷ chunks)
      ≡ append_section_data reset_section (first ++ joined chunks)
unfolding append_all
append_all-eq-append first chunks = append_all_from first chunks
