-- ===== src/Section/Parser/Methods/OfData.antt =====
-- b1/ts_section_parser.c: the codes of a packet that is not refused, and the PID after it.
use mathlib.Core.Path.{subst}
use recskapa.Base.{
  ℕ, zero, suc, ◌≡◌, refl, ◌∙◌, arith, ltb, leb, if◌then◌else◌, Bool-cases, Option-cases, inl, inr,
}
use recskapa.Base.{length, take, drop, List, Option, some, none, Bool, true, false}
use recskapa.Section.Assembly.{Section, append_section_data, check_section_complete}
use recskapa.Section.Parser.{
  Code, ok, warn_crc_missmatch, warn_length_missmatch, no_enough_memory, invalid_param,
  invalid_ts_pid, no_section_data, is_error, Elem, Parser, settle, put_exclude_section_start,
  drop_work, query_work_elem, is_empty, find_elem, cancel_elem_empty, cancel_elem_error,
  cancel_elem_same, commit_elem_updated,
}
use recskapa.Section.Parser.Methods.{
  worse, more_sections, section_round, section_loop, put_include_section_start,
}
use recskapa.Section.Parser.Methods.Total.{loop_leave, loop_again}

-- The codes for a packet that is not refused.
abbrev pub is_of_data : Code → Bool
is_of_data ok = true
is_of_data warn_crc_missmatch = true
is_of_data warn_length_missmatch = true
is_of_data no_enough_memory = true
is_of_data _ = false

-- Such a code, and the PID unchanged.
abbrev pub IsOfData : Option ℕ → Code × Parser → Type 0
IsOfData pid result = (is_of_data result.0 ≡ true) × (result.1.pid ≡ pid)

settle-IsOfData : (prv : Parser) (w : Elem) → IsOfData prv.pid (settle prv w)
unfolding settle cancel_elem_error cancel_elem_same commit_elem_updated
settle-IsOfData prv w = ground arith

pub exclude-IsOfData :
    (prv : Parser) (bytes : List ℕ) → IsOfData prv.pid (put_exclude_section_start prv bytes)
unfolding put_exclude_section_start
exclude-IsOfData prv bytes = from prv.work
  where
    from :
        (work : Option Elem)
        → IsOfData prv.pid (put_exclude_section_start (record prv { work = work }) bytes)
    from none = (refl, refl)
    from (some w) =
        let sect : Section = append_section_data w.sect bytes in
        let w' : Elem = record w { sect = sect } in
        elim (Bool-cases (is_empty w.sect.raw)) [
          | inl e ↦ rw e (refl, refl)
          | inr e ↦ elim (Bool-cases (check_section_complete sect)) [
            | inl done ↦ rw (e, done) (settle-IsOfData (record prv { work = none }) w')
            | inr part ↦ rw (e, part) (refl, refl)
          ]
        ]

drop-IsOfData : (r : Code) (prv : Parser) → is_of_data r ≡ true → IsOfData prv.pid (drop_work r prv)
unfolding drop_work cancel_elem_empty cancel_elem_error
drop-IsOfData r prv h = ground arith

worse-is_of_data :
    (r c : Code) → is_of_data r ≡ true → is_of_data c ≡ true → is_of_data (worse r c) ≡ true
unfolding worse
worse-is_of_data r ok h k = h
worse-is_of_data r warn_crc_missmatch h k = refl
worse-is_of_data r warn_length_missmatch h k = refl
worse-is_of_data r no_enough_memory h k = refl
worse-is_of_data r invalid_param h k = k
worse-is_of_data r invalid_ts_pid h k = k
worse-is_of_data r no_section_data h k = k

abbrev pub Accepted : Option ℕ → Option (Code × Parser) → Type 0
Accepted pid none = Unit {0}
Accepted pid (some result) = IsOfData pid result

module _ (calloc : ℕ → Bool) where
  abbrev SamePid : Parser → Option (Elem × Parser) → Type 0
  SamePid prv none = Unit {0}
  SamePid prv (some (w, prv1)) = prv1.pid ≡ prv.pid

  query-SamePid : (prv : Parser) → SamePid prv (query_work_elem calloc prv)
  unfolding query_work_elem
  query-SamePid prv = elim (Option-cases (find_elem (λ e. ltb e.ref 1) prv.pool.elems)) [
    | inl e ↦ elim (Bool-cases (calloc prv.next_id)) [
      | inl granted ↦ rw (query_work_elem, e, granted) refl
      | inr refused ↦ rw (query_work_elem, e, refused) tt
    ]
    | inr (r, e) ↦ rw (query_work_elem, e) refl
  ]

  loop-Accepted :
      (fuel : ℕ) (r : Code) (prv : Parser) (bytes : List ℕ)
      → is_of_data r ≡ true
      → Accepted prv.pid (section_loop calloc fuel r prv bytes)
  unfolding section_loop section_round
  loop-Accepted zero r prv bytes fine = tt
  loop-Accepted (suc fuel) r prv bytes fine = elim (Option-cases (query_work_elem calloc prv)) [
    | inl e ↦
        rw (loop_leave calloc fuel r no_enough_memory prv prv bytes (rw (section_round, e) refl))
          (refl, refl)
    | inr ((w, prv1), e) ↦
        let same : prv1.pid ≡ prv.pid = subst (λ q. SamePid prv q) e (query-SamePid prv) in
        let sect : Section = append_section_data w.sect bytes in
        let w' : Elem = record w { sect = sect } in
        let (c, prv2) = settle prv1 w' in
        let rest : List ℕ = drop (length sect.raw) bytes in
        let settled : IsOfData prv1.pid (settle prv1 w') = settle-IsOfData prv1 w' in
        let worst : is_of_data (worse r c) ≡ true = worse-is_of_data r c fine settled.0 in
        let kept : prv2.pid ≡ prv.pid = settled.1 ∙ same in
        elim (Bool-cases (check_section_complete sect)) [
          | inl done ↦ elim (Bool-cases (more_sections rest)) [
            | inl more ↦
                rw
                  (loop_again calloc fuel r (worse r c) prv prv2 bytes rest
                    (rw (section_round, e, done, more) refl))
                  (subst (λ pid. Accepted pid (section_loop calloc fuel (worse r c) prv2 rest)) kept
                    (loop-Accepted fuel (worse r c) prv2 rest worst))
            | inr last ↦
                rw
                  (loop_leave calloc fuel r (worse r c) prv prv2 bytes
                    (rw (section_round, e, done, last) refl))
                  (worst, kept)
          ]
          | inr part ↦
              rw
                (loop_leave calloc fuel r ok prv (record prv1 { work = some w' }) bytes
                  (rw (section_round, e, part) refl))
                (refl, same)
        ]
  ]

  start_from :
      (prv : Parser) (before : Code × Parser) (bytes : List ℕ)
      → IsOfData prv.pid before
      → let (r, prv2) = drop_work before.0 before.1 in
        Accepted prv.pid (section_loop calloc (length bytes) r prv2 bytes)
  start_from prv before bytes (fine, same) =
      let (r, prv2) = drop_work before.0 before.1 in
      let dropped : IsOfData before.1.pid (drop_work before.0 before.1) =
        drop-IsOfData before.0 before.1 fine in
      subst (λ pid. Accepted pid (section_loop calloc (length bytes) r prv2 bytes))
        (dropped.1 ∙ same) (loop-Accepted (length bytes) r prv2 bytes dropped.0)

  pub include-Accepted :
      (p0 : ℕ) (prv : Parser) (rest : List ℕ)
      → Accepted prv.pid (put_include_section_start calloc p0 prv rest)
  unfolding put_include_section_start
  include-Accepted p0 prv rest =
      let before : Code × Parser =
        if ltb 0 p0 then put_exclude_section_start prv (take p0 rest) else (ok, prv) in
      let begun : IsOfData prv.pid before = elim (Bool-cases (ltb 0 p0)) [
        | inl e ↦ rw e (exclude-IsOfData prv (take p0 rest))
        | inr e ↦ rw e (refl, refl)
      ] in
      elim (Bool-cases (leb (length rest) p0)) [
        | inl e ↦ rw e (drop-IsOfData ok prv refl)
        | inr e ↦ elim (Bool-cases (is_error before.0)) [
          | inl bad ↦ rw (e, bad) begun
          | inr good ↦ rw (e, good) (start_from prv before (drop p0 rest) begun)
        ]
      ]
