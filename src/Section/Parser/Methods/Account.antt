-- ===== src/Section/Parser/Methods/Account.antt =====
-- b1/ts_section_parser.c: which sections a packet finishes and whether it leaves one unfinished, and
-- what the counters of the parser make of them.
use recskapa.Base.{
  ℕ, zero, suc, ◌+◌, ◌≡◌, refl, ap, arith, sym, ltb, leb, ◌==◌, if◌then◌else◌, Bool-cases, inl, inr,
}
use recskapa.Base.{length, take, drop, List, [], ◌∷◌, ◌++◌, Option, some, none, Bool, true, false}
use recskapa.Base.{◌&&◌, not, length-append}
use recskapa.Packet.Header.{TsHeader}
use recskapa.Section.Crc.{crc32}
use recskapa.Section.Assembly.{Section, append_section_data, check_section_complete, reset_section}
use recskapa.Section.Parser.{
  Code, is_error, Elem, Parser, settle, put_exclude_section_start, drop_work, is_empty,
  cancel_elem_empty, cancel_elem_error, cancel_elem_same, commit_elem_updated, same_as_last,
}
use recskapa.Section.Parser.Methods.{more_sections}
use recskapa.Section.Parser.Methods.Moves.{settle-idle}

-- The section that is being assembled.
abbrev pub begun_section : Option Elem → Option Section
begun_section none = none
begun_section (some w) = some w.sect

-- What bytes that go on with a section that has begun make of it: the sections that are finished,
-- and what is still unfinished.
abbrev pub go_on : Option Section → List ℕ → List Section × Option Section
go_on none bytes = ([], none)
go_on (some sect) bytes =
    if is_empty sect.raw
    then ([], some sect)
    else if check_section_complete (append_section_data sect bytes)
    then (append_section_data sect bytes ∷ [], none)
    else ([], some (append_section_data sect bytes))

-- The whole sections that stand one behind the other at the start of bytes, up to the stuffing or
-- to one that is not whole. As many rounds as there are bytes are enough.
unfoldable pub whole_sections : ℕ → List ℕ → List Section
whole_sections zero bytes = []
whole_sections (suc fuel) bytes =
    let sect = append_section_data reset_section bytes in
    let rest = drop (length sect.raw) bytes in
    let later = whole_sections fuel rest in
    if check_section_complete sect then sect ∷ (if more_sections rest then later else []) else []

-- 1 if there are bytes of a section.
abbrev pub given_up : Option Section → ℕ
given_up none = 0
given_up (some sect) = if is_empty sect.raw then 0 else 1

-- The same for bytes with the start of a section: those before the pointer field's place go on with
-- the section that has begun, and new ones start there.
abbrev pub start_sections : Option Section → ℕ → List ℕ → List Section × ℕ
start_sections begun p0 rest =
    let (finished, unfinished) = if ltb 0 p0 then go_on begun (take p0 rest) else ([], begun) in
    let bytes = drop p0 rest in
    (finished ++ whole_sections (length bytes) bytes, given_up unfinished)

-- The sections that a packet finishes, and how many it leaves unfinished for good.
abbrev pub account : Parser → TsHeader → List ℕ → List Section × ℕ
account prv hdr [] = ([], 0)
account prv hdr (p0 ∷ rest) =
    let checked : Bool = elim prv.pid [ none ↦ true | some pid ↦ pid == hdr.pid ] in
    let begun = begun_section prv.work in
    if checked
    then (if hdr.payload_unit_start_indicator == 0
        then ((go_on begun (p0 ∷ rest)).0, 0)
        else if leb (length rest) p0
        then ([], given_up begun)
        else start_sections begun p0 rest)
    else ([], 0)

-- How many of the sections have a checksum, and a wrong one.
pub count_broken : List Section → ℕ
count_broken [] = 0
count_broken (sect ∷ sects) =
    (if not (sect.hdr.section_syntax_indicator == 0) && not (crc32 sect.raw == 0) then 1 else 0)
    + count_broken sects

-- The total grew by the sections that were finished and those given up, and the errors by the
-- finished ones with a wrong checksum and those given up.
abbrev pub Adds : Parser → Parser → List Section × ℕ → Type 0
Adds prv prv' sections =
    (prv'.stat.total ≡ prv.stat.total + length sections.0 + sections.1)
    × (prv'.stat.error ≡ prv.stat.error + count_broken sections.0 + sections.1)

count_broken-append :
    (xs ys : List Section) → count_broken (xs ++ ys) ≡ count_broken xs + count_broken ys
unfolding count_broken
count_broken-append [] ys = omega arith
count_broken-append (x ∷ xs) ys = omega (arith, count_broken-append xs ys)

pub Adds-trans :
    (a b c : Parser) (xs ys : List Section) (dropped : ℕ)
    → Adds a b (xs, dropped)
    → Adds b c (ys, 0)
    → Adds a c (xs ++ ys, dropped)
Adds-trans a b c xs ys dropped h k = (
  omega (arith, h.0, k.0, length-append xs ys),
  omega (arith, h.1, k.1, count_broken-append xs ys),
)

pub Adds-drop :
    (a b c : Parser) (xs : List Section) (dropped : ℕ)
    → Adds a b (xs, 0)
    → Adds b c ([], dropped)
    → Adds a c (xs, dropped)
unfolding count_broken
Adds-drop a b c xs dropped h k = (omega (arith, h.0, k.0), omega (arith, h.1, k.1))

pub settle-Adds : (prv : Parser) (w : Elem) → Adds prv (settle prv w).1 (w.sect ∷ [], 0)
unfolding settle cancel_elem_error cancel_elem_same commit_elem_updated count_broken
settle-Adds prv w =
    let broken : Bool =
      not (w.sect.hdr.section_syntax_indicator == 0) && not (crc32 w.sect.raw == 0) in
    elim (Bool-cases broken) [
      | inl e ↦ rw (settle, count_broken, e) (omega arith, omega arith)
      | inr e ↦ elim (Bool-cases (same_as_last prv w)) [
        | inl seen ↦ rw (settle, count_broken, e, seen) (omega arith, omega arith)
        | inr fresh ↦ rw (settle, count_broken, e, fresh) (omega arith, omega arith)
      ]
    ]

settle_is_fine : (prv : Parser) (w : Elem) → is_error (settle prv w).0 ≡ false
unfolding settle
settle_is_fine prv w = ground arith

pub exclude_from :
    (prv : Parser) (work : Option Elem) (bytes : List ℕ)
    → let prv0 : Parser = record prv { work = work } in
      let (r, prv1) = put_exclude_section_start prv0 bytes in
      let (finished, unfinished) = go_on (begun_section work) bytes in
      Adds prv prv1 (finished, 0) × (begun_section prv1.work ≡ unfinished) × (is_error r ≡ false)
unfolding put_exclude_section_start count_broken
exclude_from prv none bytes = ((omega arith, omega arith), refl, refl)
exclude_from prv (some w) bytes =
    let idle : Parser = record prv { work = none } in
    let sect : Section = append_section_data w.sect bytes in
    let w' : Elem = record w { sect = sect } in
    elim (Bool-cases (is_empty w.sect.raw)) [
      | inl e ↦ rw e ((omega arith, omega arith), refl, refl)
      | inr e ↦ elim (Bool-cases (check_section_complete sect)) [
        | inl done ↦
            rw (e, done)
              (
                settle-Adds idle w',
                ap begun_section (settle-idle idle w' refl),
                settle_is_fine idle w',
              )
        | inr part ↦ rw (e, part) ((omega arith, omega arith), refl, refl)
      ]
    ]

pub drop-Adds :
    (r : Code) (prv : Parser) → Adds prv (drop_work r prv).1 ([], given_up (begun_section prv.work))
unfolding drop_work cancel_elem_empty cancel_elem_error count_broken
drop-Adds r prv = ground arith

pub unchanged-Adds : (prv prv' : Parser) → prv'.stat ≡ prv.stat → Adds prv prv' ([], 0)
unfolding count_broken
unchanged-Adds prv prv' e = (omega (arith, ap (λ s. s.total) e), omega (arith, ap (λ s. s.error) e))

-- The first section is whole, and others follow it or not; or it is not whole.
pub whole_again :
    (fuel : ℕ) (bytes : List ℕ) (sect : Section)
    → sect ≡ append_section_data reset_section bytes
    → check_section_complete sect ≡ true
    → more_sections (drop (length sect.raw) bytes) ≡ true
    → whole_sections (suc fuel) bytes ≡ sect ∷ whole_sections fuel (drop (length sect.raw) bytes)
unfolding whole_sections
whole_again fuel bytes sect same done more = rw (whole_sections, sym same, done, more) refl

pub whole_last :
    (fuel : ℕ) (bytes : List ℕ) (sect : Section)
    → sect ≡ append_section_data reset_section bytes
    → check_section_complete sect ≡ true
    → more_sections (drop (length sect.raw) bytes) ≡ false
    → whole_sections (suc fuel) bytes ≡ sect ∷ []
unfolding whole_sections
whole_last fuel bytes sect same done last = rw (whole_sections, sym same, done, last) refl

pub whole_part :
    (fuel : ℕ) (bytes : List ℕ) (sect : Section)
    → sect ≡ append_section_data reset_section bytes
    → check_section_complete sect ≡ false
    → whole_sections (suc fuel) bytes ≡ []
unfolding whole_sections
whole_part fuel bytes sect same part = rw (whole_sections, sym same, part) refl
