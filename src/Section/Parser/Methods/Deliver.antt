-- ===== src/Section/Parser/Methods/Deliver.antt =====
-- b1/ts_section_parser.c: a section that comes whole behind the pointer field of a packet is handed
-- out.
use recskapa.Base.{ℕ, ◌≤◌, ◌≡◌, ◌≢◌, ◌⊎◌, refl, ap, ◌∙◌, arith}
use recskapa.Base.{leb, ◌==◌, length, length-take, take, drop, List, [], ◌∷◌, All, IsByte}
use recskapa.Base.{some, Bool, true, false}
use recskapa.Packet.Header.{TsHeader}
use recskapa.Section.Crc.{crc32}
use recskapa.Section.Assembly.{Section, reset_section, append_section_data, check_section_complete}
use recskapa.Section.Assembly.Complete.{HoldsSection, section_size, append_complete}
use recskapa.Section.Parser.{
  ok, Elem, Parser, settle, query_work_elem, drop_work, unref_list, put_ts_section_list_tail,
  is_empty, get_ts_section_list_head, find_elem, commit_elem_updated, same_as_last,
}
use recskapa.Section.Parser.Methods.Total.{loop_leave}
use recskapa.Section.Parser.Methods.{
  create_ts_section_parser, put, put_bytes, put_include_section_start, get, section_round,
  section_loop, leave, more_sections, worse,
}

-- A new parser that a packet of the PID has come to.
abbrev begun : ℕ → Parser
begun pid = record create_ts_section_parser { pid = some pid }

abbrev new_elem : List ℕ → Elem
new_elem xs = record { id = 0; sect = append_section_data reset_section xs; ref = 0 }

-- The section needs no checksum, or has the right one.
abbrev pub IsIntact : Section → Type 0
IsIntact sect = (sect.hdr.section_syntax_indicator ≡ 0) ⊎ (crc32 sect.raw ≡ 0)

first_query :
    (calloc : ℕ → Bool) (pid : ℕ)
    → calloc 0 ≡ true
    → query_work_elem calloc (begun pid)
      ≡ some (record { id = 0; sect = reset_section; ref = 0 }, record (begun pid) { next_id = 1 })
unfolding query_work_elem create_ts_section_parser find_elem
first_query calloc pid granted = rw granted refl

first_settle :
    (pid : ℕ) (sect : Section)
    → IsIntact sect
    → settle (record (begun pid) { next_id = 1 }) (record { id = 0; sect = sect; ref = 0 }) ≡ (
      ok,
      commit_elem_updated
          (record (begun pid) { next_id = 1 })
          (record { id = 0; sect = sect; ref = 0 }),
    )
unfolding settle same_as_last create_ts_section_parser
first_settle pid sect intact = ground arith

first_round :
    (calloc : ℕ → Bool) (pid : ℕ) (xs : List ℕ)
    → calloc 0 ≡ true
    → IsIntact (append_section_data reset_section xs)
    → check_section_complete (append_section_data reset_section xs) ≡ true
    → more_sections (drop (length (append_section_data reset_section xs).raw) xs) ≡ false
    → section_round calloc ok (begun pid) xs
      ≡ leave ok (commit_elem_updated (record (begun pid) { next_id = 1 }) (new_elem xs))
unfolding section_round worse
first_round calloc pid xs granted intact done last =
    rw
      (
        section_round,
        first_query calloc pid granted,
        first_settle pid (append_section_data reset_section xs) intact,
        done,
        last,
      )
      refl

-- The call comes to the loop.
first_put :
    (calloc : ℕ → Bool) (hdr : TsHeader) (xs : List ℕ) (prv : Parser)
    → hdr.payload_unit_start_indicator ≢ 0
    → 1 ≤ length xs
    → section_loop calloc (length xs) ok (begun hdr.pid) xs ≡ some (ok, prv)
    → put calloc (some create_ts_section_parser) (some hdr) (some (0 ∷ xs)) ≡ some (ok, some prv)
unfolding put put_bytes put_include_section_start drop_work create_ts_section_parser
first_put calloc hdr xs prv starts some_bytes e =
    let unit : (hdr.payload_unit_start_indicator == 0) ≡ false = ground arith in
    let rest : leb (length xs) 0 ≡ false = ground arith in
    rw (put, put_bytes, unit, put_include_section_start, rest, e) refl

first_get :
    (pid : ℕ) (e : Elem)
    → let prv : Parser = commit_elem_updated (record (begun pid) { next_id = 1 }) e in
      ((get (some prv) true).0 ≡ ok)
      × ((get (some prv) true).1 ≡ some (record { id = e.id; sect = e.sect }))
unfolding get get_ts_section_list_head commit_elem_updated create_ts_section_parser unref_list
    put_ts_section_list_tail is_empty
first_get pid e = (refl, refl)

-- A new parser gets the first packet of a PID, whose pointer field is 0. If the bytes behind hold a
-- whole section that is intact, with nothing but stuffing after it, and there is memory, then `put`
-- returns 0, and `get` then returns 0 and the section, which is cut to the size its header gives.
pub get-put :
    (calloc : ℕ → Bool) (hdr : TsHeader) (xs : List ℕ)
    → calloc 0 ≡ true
    → hdr.payload_unit_start_indicator ≢ 0
    → All IsByte xs
    → HoldsSection xs
    → IsIntact (append_section_data reset_section xs)
    → more_sections (drop (section_size xs) xs) ≡ false
    → (prv : Parser) × (sect : Section) × (put calloc
          (some create_ts_section_parser)
          (some hdr)
          (some (0 ∷ xs))
        ≡ some (ok, some prv))
      × ((get (some prv) true).0 ≡ ok)
      × ((get (some prv) true).1 ≡ some (record { id = 0; sect = sect }))
      × (sect.raw ≡ take (section_size xs) xs)
unfolding create_ts_section_parser
get-put calloc hdr [] granted starts bytes holds intact last = absurd (omega (arith, holds.0))
get-put calloc hdr (x ∷ xs) granted starts bytes holds intact last =
    let (complete, cut) = append_complete (x ∷ xs) bytes in
    let done = complete.1 holds in
    let raw = cut holds in
    let size : length (append_section_data reset_section (x ∷ xs)).raw ≡ section_size (x ∷ xs) =
      ap length raw ∙ omega (arith, length-take (section_size (x ∷ xs)) (x ∷ xs), holds) in
    let round =
      first_round calloc hdr.pid (x ∷ xs) granted intact done
        (ap (λ n. more_sections (drop n (x ∷ xs))) size ∙ last) in
    let prv : Parser =
      commit_elem_updated (record (begun hdr.pid) { next_id = 1 }) (new_elem (x ∷ xs)) in
    let got = first_get hdr.pid (new_elem (x ∷ xs)) in
    (
      prv,
      append_section_data reset_section (x ∷ xs),
      first_put calloc hdr (x ∷ xs) prv starts (omega (arith, holds.0))
          (loop_leave calloc (length xs) ok ok (begun hdr.pid) prv (x ∷ xs) round),
      got.0,
      got.1,
      raw,
    )
