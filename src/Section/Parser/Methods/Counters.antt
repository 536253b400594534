-- ===== src/Section/Parser/Methods/Counters.antt =====
-- b1/ts_section_parser.c: the counters through the loop over the sections of a packet, and after it.
use mathlib.Core.Path.{subst}
use recskapa.Base.{
  ℕ, zero, suc, ◌≡◌, ◌⊎◌, refl, ap, ltb, leb, ◌==◌, Bool-cases, Option-cases, inl, inr,
}
use recskapa.Base.{length, take, drop, List, [], ◌∷◌, ◌++◌, Option, some, none, Bool, true, false}
use recskapa.Packet.Header.{TsHeader}
use recskapa.Section.Assembly.{Section, append_section_data, check_section_complete, reset_section}
use recskapa.Section.Parser.{
  Code, ok, no_enough_memory, is_error, Elem, Parser, settle, put_exclude_section_start, drop_work,
  query_work_elem, find_elem,
}
use recskapa.Section.Parser.Methods.{
  worse, more_sections, section_round, section_loop, put_include_section_start, put_bytes,
}
use recskapa.Section.Parser.Methods.Total.{loop_leave, loop_again}
use recskapa.Section.Parser.Methods.Account.{
  Adds, Adds-drop, Adds-trans, account, begun_section, drop-Adds, exclude_from, given_up, go_on,
  settle-Adds, start_sections, unchanged-Adds, whole_again, whole_last, whole_part, whole_sections,
}

module _ (calloc : ℕ → Bool) where
  -- The call says that there is no memory, and there is none for some element.
  abbrev pub Refused : Code → Type 0
  Refused c = (c ≡ no_enough_memory) × ((id : ℕ) × (calloc id ≡ false))

  abbrev Fetched : Parser → Option (Elem × Parser) → Type 0
  Fetched prv none = (id : ℕ) × (calloc id ≡ false)
  Fetched prv (some (w, prv1)) = (w.sect ≡ reset_section) × (prv1.stat ≡ prv.stat)

  query-Fetched : (prv : Parser) → Fetched prv (query_work_elem calloc prv)
  unfolding query_work_elem
  query-Fetched prv = elim (Option-cases (find_elem (λ e. ltb e.ref 1) prv.pool.elems)) [
    | inl e ↦ elim (Bool-cases (calloc prv.next_id)) [
      | inl granted ↦ rw (query_work_elem, e, granted) (refl, refl)
      | inr refused ↦ rw (query_work_elem, e, refused) (prv.next_id, refused)
    ]
    | inr (r, e) ↦ rw (query_work_elem, e) (refl, refl)
  ]

  -- What the counters are after a call, if it ends.
  abbrev pub Tallied : Parser → List Section × ℕ → Option (Code × Parser) → Type 0
  Tallied prv sections none = Unit {0}
  Tallied prv sections (some (c, prv')) = Refused c ⊎ Adds prv prv' sections

  Tallied-trans :
      (a b : Parser) (xs ys : List Section) (dropped : ℕ) (result : Option (Code × Parser))
      → Adds a b (xs, dropped)
      → Tallied b (ys, 0) result
      → Tallied a (xs ++ ys, dropped) result
  Tallied-trans a b xs ys dropped none h k = tt
  Tallied-trans a b xs ys dropped (some (c, prv')) h (inl refused) = inl refused
  Tallied-trans a b xs ys dropped (some (c, prv')) h (inr k) =
      inr (Adds-trans a b prv' xs ys dropped h k)

  loop-Tallied :
      (fuel : ℕ) (r : Code) (prv : Parser) (bytes : List ℕ)
      → Tallied prv (whole_sections fuel bytes, 0) (section_loop calloc fuel r prv bytes)
  unfolding section_loop section_round
  loop-Tallied zero r prv bytes = tt
  loop-Tallied (suc fuel) r prv bytes = elim (Option-cases (query_work_elem calloc prv)) [
    | inl e ↦
        rw (loop_leave calloc fuel r no_enough_memory prv prv bytes (rw (section_round, e) refl))
          (inl (refl, subst (λ q. Fetched prv q) e (query-Fetched prv)))
    | inr ((w, prv1), e) ↦
        let fetched : Fetched prv (some (w, prv1)) =
          subst (λ q. Fetched prv q) e (query-Fetched prv) in
        let sect : Section = append_section_data w.sect bytes in
        let same : sect ≡ append_section_data reset_section bytes =
          ap (λ s. append_section_data s bytes) fetched.0 in
        let w' : Elem = record w { sect = sect } in
        let (c, prv2) = settle prv1 w' in
        let rest : List ℕ = drop (length sect.raw) bytes in
        let settled : Adds prv prv2 (sect ∷ [], 0) =
          Adds-trans prv prv1 prv2 [] (sect ∷ []) 0 (unchanged-Adds prv prv1 fetched.1)
            (settle-Adds prv1 w') in
        elim (Bool-cases (check_section_complete sect)) [
          | inl done ↦ elim (Bool-cases (more_sections rest)) [
            | inl more ↦
                rw
                  (
                    loop_again calloc fuel r (worse r c) prv prv2 bytes rest
                        (rw (section_round, e, done, more) refl),
                    whole_again fuel bytes sect same done more,
                  )
                  (Tallied-trans prv prv2 (sect ∷ []) (whole_sections fuel rest) 0
                    (section_loop calloc fuel (worse r c) prv2 rest) settled
                    (loop-Tallied fuel (worse r c) prv2 rest))
            | inr last ↦
                rw
                  (
                    loop_leave calloc fuel r (worse r c) prv prv2 bytes
                        (rw (section_round, e, done, last) refl),
                    whole_last fuel bytes sect same done last,
                  )
                  (inr settled)
          ]
          | inr part ↦
              rw
                (
                  loop_leave calloc fuel r ok prv (record prv1 { work = some w' }) bytes
                      (rw (section_round, e, part) refl),
                  whole_part fuel bytes sect same part,
                )
                (inr (unchanged-Adds prv (record prv1 { work = some w' }) fetched.1))
        ]
  ]

  -- A packet with the start of a section; `begun` is what came before the first section of it.
  start_from :
      (pointer_field : ℕ) (prv : Parser) (rest : List ℕ) (before : Code × Parser)
      (sections : List Section × Option Section)
      → Adds prv before.1 (sections.0, 0)
      → begun_section before.1.work ≡ sections.1
      → is_error before.0 ≡ false
      → let bytes = drop pointer_field rest in
        let (r, prv2) = drop_work before.0 before.1 in
        Tallied prv
          (sections.0 ++ whole_sections (length bytes) bytes, given_up sections.1)
          (section_loop calloc (length bytes) r prv2 bytes)
  start_from pointer_field prv rest before sections begun left fine =
      let bytes : List ℕ = drop pointer_field rest in
      let (r, prv2) = drop_work before.0 before.1 in
      let given : Adds before.1 prv2 ([], given_up sections.1) =
        subst (λ s. Adds before.1 prv2 ([], given_up s)) left (drop-Adds before.0 before.1) in
      Tallied-trans prv prv2 sections.0 (whole_sections (length bytes) bytes) (given_up sections.1)
        (section_loop calloc (length bytes) r prv2 bytes)
        (Adds-drop prv before.1 prv2 sections.0 (given_up sections.1) begun given)
        (loop-Tallied (length bytes) r prv2 bytes)

  include-Tallied :
      (p0 : ℕ) (prv : Parser) (rest : List ℕ)
      → leb (length rest) p0 ≡ false
      → Tallied prv
          (start_sections (begun_section prv.work) p0 rest)
          (put_include_section_start calloc p0 prv rest)
  unfolding put_include_section_start
  include-Tallied p0 prv rest enough =
      let begun = begun_section prv.work in
      let before : Code × Parser = put_exclude_section_start prv (take p0 rest) in
      let excluded = exclude_from prv prv.work (take p0 rest) in
      elim (Bool-cases (ltb 0 p0)) [
        | inl e ↦
            rw (put_include_section_start, enough, e, excluded.2)
              (start_from p0 prv rest before (go_on begun (take p0 rest)) excluded.0 excluded.1
                excluded.2)
        | inr e ↦
            rw (put_include_section_start, enough, e)
              (start_from p0 prv rest (ok, prv) ([], begun) (unchanged-Adds prv prv refl) refl refl)
      ]

  include_short :
      (p0 : ℕ) (prv : Parser) (rest : List ℕ)
      → leb (length rest) p0 ≡ true
      → put_include_section_start calloc p0 prv rest ≡ some (drop_work ok prv)
  unfolding put_include_section_start
  include_short p0 prv rest short = rw (put_include_section_start, short) refl

  -- The PID of a parser makes no difference to the counters.
  any_pid :
      (prv : Parser) (pid : Option ℕ) (sections : List Section × ℕ)
      (result : Option (Code × Parser))
      → Tallied (record prv { pid = pid }) sections result
      → Tallied prv sections result
  any_pid prv pid sections none h = tt
  any_pid prv pid sections (some (c, prv')) (inl refused) = inl refused
  any_pid prv pid sections (some (c, prv')) (inr h) = inr h

  pub bytes-Tallied :
      (prv : Parser) (hdr : TsHeader) (bytes : List ℕ)
      → Tallied prv (account prv hdr bytes) (put_bytes calloc prv hdr bytes)
  unfolding put_bytes
  bytes-Tallied prv hdr [] = inr (unchanged-Adds prv prv refl)
  bytes-Tallied prv hdr (p0 ∷ rest) =
      let checked : Bool = elim prv.pid [ none ↦ true | some pid ↦ pid == hdr.pid ] in
      let prv' : Parser = record prv { pid = some hdr.pid } in
      elim (Bool-cases checked) [
        | inl same ↦ elim (Bool-cases (hdr.payload_unit_start_indicator == 0)) [
          | inl e ↦ rw (same, e) (inr (exclude_from prv' prv.work (p0 ∷ rest)).0)
          | inr e ↦ elim (Bool-cases (leb (length rest) p0)) [
            | inl short ↦
                rw (same, e, include_short p0 prv' rest short, short) (inr (drop-Adds ok prv'))
            | inr enough ↦
                rw (same, e, enough)
                  (any_pid prv (some hdr.pid) (start_sections (begun_section prv.work) p0 rest)
                    (put_include_section_start calloc p0 prv' rest)
                    (include-Tallied p0 prv' rest enough))
          ]
        ]
        | inr other ↦ rw other (inr (unchanged-Adds prv prv refl))
      ]
