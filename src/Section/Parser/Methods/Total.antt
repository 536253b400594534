-- ===== src/Section/Parser/Methods/Total.antt =====
-- b1/ts_section_parser.c: the loop over the sections of a packet ends.
use recskapa.Base.{ℕ, zero, suc, ◌≤◌, ◌≡◌, ◌≢◌, ◌<◌, ◌⊎◌, refl, ap, arith}
use recskapa.Base.{
  ltb, leb, if◌then◌else◌, length, take, drop, length-drop, List, [], ◌∷◌, Bool-cases, Option-cases,
  inl, inr,
}
use recskapa.Base.{Option, some, none, Bool, true}
use recskapa.Packet.Header.{TsHeader}
use recskapa.Section.Assembly.{Section, append_section_data, check_section_complete}
use recskapa.Section.Parser.{
  Code, ok, is_error, Parser, put_exclude_section_start, drop_work, query_work_elem,
}
use recskapa.Section.Parser.Methods.{
  section_loop, put_include_section_start, put_bytes, put, more_sections, Round, leave, again,
  section_round,
}

complete_length : (sect : Section) → check_section_complete sect ≡ true → 3 ≤ length sect.raw
unfolding check_section_complete
complete_length sect h = ground arith

more_sections-length : (bytes : List ℕ) → more_sections bytes ≡ true → 1 ≤ length bytes
unfolding more_sections
more_sections-length [] h = ground arith
more_sections-length (x ∷ xs) h = omega arith

pub Round-cases :
    (round : Round)
    → ((r : Code) × (prv : Parser) × (round ≡ leave r prv))
      ⊎ ((r : Code) × (prv : Parser) × (rest : List ℕ) × (round ≡ again r prv rest))
Round-cases (leave r prv) = inl (r, prv, refl)
Round-cases (again r prv rest) = inr (r, prv, rest, refl)

module _ (calloc : ℕ → Bool) where
  pub loop_leave :
      (fuel : ℕ) (r r' : Code) (prv prv' : Parser) (bytes : List ℕ)
      → section_round calloc r prv bytes ≡ leave r' prv'
      → section_loop calloc (suc fuel) r prv bytes ≡ some (r', prv')
  unfolding section_loop
  loop_leave fuel r r' prv prv' bytes e =
      ap
        (λ s. elim s [
          | leave c p ↦ some (c, p)
          | again c p rest ↦ section_loop calloc fuel c p rest
        ])
        e

  pub loop_again :
      (fuel : ℕ) (r r' : Code) (prv prv' : Parser) (bytes rest : List ℕ)
      → section_round calloc r prv bytes ≡ again r' prv' rest
      → section_loop calloc (suc fuel) r prv bytes ≡ section_loop calloc fuel r' prv' rest
  unfolding section_loop
  loop_again fuel r r' prv prv' bytes rest e =
      ap
        (λ s. elim s [
          | leave c p ↦ some (c, p)
          | again c p rest' ↦ section_loop calloc fuel c p rest'
        ])
        e

  -- Another round has fewer bytes, and some.
  pub section_round-shrinks :
      (r r' : Code) (prv prv' : Parser) (bytes rest : List ℕ)
      → 1 ≤ length bytes
      → section_round calloc r prv bytes ≡ again r' prv' rest
      → (1 ≤ length rest) × (length rest < length bytes)
  unfolding section_round
  section_round-shrinks r r' prv prv' bytes rest some_bytes e =
      elim (Option-cases (query_work_elem calloc prv)) [
        | inl none_left ↦ absurd (ground (arith, e, none_left))
        | inr ((w, prv1), found) ↦
            let sect : Section = append_section_data w.sect bytes in
            let left = length-drop (length sect.raw) bytes in
            ground (
              arith,
              e,
              found,
              left,
              complete_length sect,
              more_sections-length (drop (length sect.raw) bytes),
            )
      ]

  -- As much fuel as there are bytes is enough.
  section_loop-runs :
      (fuel : ℕ) (r : Code) (prv : Parser) (bytes : List ℕ)
      → 1 ≤ length bytes
      → length bytes ≤ fuel
      → section_loop calloc fuel r prv bytes ≢ none
  section_loop-runs zero r prv bytes some_bytes enough = absurd (omega arith)
  section_loop-runs (suc fuel) r prv bytes some_bytes enough =
      elim (Round-cases (section_round calloc r prv bytes)) [
        | inl (r', prv', e) ↦ rw (loop_leave fuel r r' prv prv' bytes e) (λ h. ground arith)
        | inr (r', prv', rest, e) ↦
            let (more, less) = section_round-shrinks r r' prv prv' bytes rest some_bytes e in
            rw (loop_again fuel r r' prv prv' bytes rest e)
              (section_loop-runs fuel r' prv' rest more (omega arith))
      ]

  put_include-runs :
      (pointer_field : ℕ) (prv : Parser) (rest : List ℕ)
      → put_include_section_start calloc pointer_field prv rest ≢ none
  unfolding put_include_section_start
  put_include-runs pointer_field prv rest =
      let before : Code × Parser =
        if ltb 0 pointer_field
        then put_exclude_section_start prv (take pointer_field rest)
        else (ok, prv) in
      let dropped : Code × Parser = drop_work before.0 before.1 in
      let bytes : List ℕ = drop pointer_field rest in
      elim (Bool-cases (leb (length rest) pointer_field)) [
        | inl e ↦ rw (put_include_section_start, e) (λ h. ground arith)
        | inr e ↦ elim (Bool-cases (is_error before.0)) [
          | inl bad ↦ rw (put_include_section_start, e, bad) (λ h. ground arith)
          | inr good ↦
              rw (put_include_section_start, e, good)
                (section_loop-runs (length bytes) dropped.0 dropped.1 bytes
                  (ground (arith, length-drop pointer_field rest)) (omega arith))
        ]
      ]

  -- On every state and all arguments, `put` ends with a code and a state.
  pub put-runs :
      (handle : Option Parser) (hdr : Option TsHeader) (bytes : Option (List ℕ))
      → put calloc handle hdr bytes ≢ none
  unfolding put put_bytes
  put-runs none hdr bytes h = ground arith
  put-runs (some prv) none bytes h = ground arith
  put-runs (some prv) (some hdr) none h = ground arith
  put-runs (some prv) (some hdr) (some []) h = ground arith
  put-runs (some prv) (some hdr) (some (p0 ∷ rest)) h =
      ground (arith, put_include-runs p0 (record prv { pid = some hdr.pid }) rest)
