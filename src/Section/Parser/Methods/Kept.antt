-- ===== src/Section/Parser/Methods/Kept.antt =====
-- b1/ts_section_parser.c: what `put` keeps, through all rounds of its loop.
use recskapa.Base.{ℕ, zero, suc, ◌+◌, ◌≡◌, ◌⊎◌, refl, arith}
use recskapa.Base.{
  ltb, leb, ◌==◌, if◌then◌else◌, length, take, drop, List, [], ◌∷◌, Bool-cases, Option-cases, inl,
  inr,
}
use mathlib.Core.Path.{subst}
use recskapa.Base.{Option, some, none, Bool, true}
use recskapa.Packet.Header.{TsHeader}
use recskapa.Section.Assembly.{Section, append_section_data, check_section_complete, reset_section}
use recskapa.Section.Parser.{
  Code, ok, is_error, Elem, Parser, settle, put_exclude_section_start, drop_work, query_work_elem,
}
use recskapa.Section.Parser.{is_empty, find_elem, unlink_ts_section_list}
use recskapa.Section.Parser.{cancel_elem_empty, cancel_elem_error}
use recskapa.Section.Parser.Methods.{
  Round, leave, again, more_sections, section_round, section_loop, put_include_section_start,
  put_bytes, put,
}
use recskapa.Section.Parser.Methods.Total.{put-runs, loop_leave, loop_again, Round-cases}
use recskapa.Section.Parser.Methods.Owned.{Keeps, Keeps-refl, Keeps-trans, holding, tally-remove}
use recskapa.Section.Parser.Methods.Account.{account, Adds}
use recskapa.Section.Parser.Methods.Counters.{Refused, Tallied, bytes-Tallied}
use recskapa.Section.Parser.Methods.Moves.{
  cancel_empty-Keeps, cancel_error-Keeps, settle-Keeps, settle-idle,
}

fill-Keeps :
    (prv : Parser) (w : Elem) (sect : Section)
    → Keeps (holding prv w) (holding prv (record w { sect = sect }))
fill-Keeps prv w sect = record {
  same_places = λ id. refl;
  counted = λ h. h;
  queued = refl;
  classified = omega arith;
}

exclude_from :
    (prv : Parser) (work : Option Elem) (bytes : List ℕ)
    → let prv' : Parser = record prv { work = work } in
      Keeps prv' (put_exclude_section_start prv' bytes).1
unfolding put_exclude_section_start
exclude_from prv none bytes = Keeps-refl (record prv { work = none })
exclude_from prv (some w) bytes =
    let idle : Parser = record prv { work = none } in
    let sect : Section = append_section_data w.sect bytes in
    let w' : Elem = record w { sect = sect } in
    elim (Bool-cases (is_empty w.sect.raw)) [
      | inl e ↦ rw e (Keeps-refl (record prv { work = some w }))
      | inr e ↦ elim (Bool-cases (check_section_complete sect)) [
        | inl done ↦
            rw (e, done)
              (Keeps-trans (holding prv w) (holding prv w') (settle idle w').1
                (fill-Keeps prv w sect) (settle-Keeps idle w' refl))
        | inr part ↦ rw (e, part) (fill-Keeps prv w sect)
      ]
    ]

exclude-Keeps : (prv : Parser) (bytes : List ℕ) → Keeps prv (put_exclude_section_start prv bytes).1
exclude-Keeps prv bytes = exclude_from prv prv.work bytes

drop_from :
    (r : Code) (prv : Parser) (work : Option Elem)
    → let prv' : Parser = record prv { work = work } in Keeps prv' (drop_work r prv').1
unfolding drop_work
drop_from r prv none = Keeps-refl (record prv { work = none })
drop_from r prv (some w) =
    let idle : Parser = record prv { work = none } in
    elim (Bool-cases (is_empty w.sect.raw)) [
      | inl e ↦ rw e (cancel_empty-Keeps idle w refl)
      | inr e ↦ rw e (cancel_error-Keeps idle w refl)
    ]

drop-Keeps : (r : Code) (prv : Parser) → Keeps prv (drop_work r prv).1
drop-Keeps r prv = drop_from r prv prv.work

drop-idle : (r : Code) (prv : Parser) → (drop_work r prv).1.work ≡ none
unfolding drop_work cancel_elem_empty cancel_elem_error
drop-idle r prv = ground arith

abbrev Fetched : Parser → Option (Elem × Parser) → Type 0
Fetched prv none = Unit {0}
Fetched prv (some (w, prv1)) = Keeps prv (holding prv1 w) × (prv1.work ≡ none)

module _ (calloc : ℕ → Bool) where
  query-Keeps : (prv : Parser) → prv.work ≡ none → Fetched prv (query_work_elem calloc prv)
  unfolding unlink_ts_section_list query_work_elem
  query-Keeps prv idle = elim (Option-cases (find_elem (λ e. ltb e.ref 1) prv.pool.elems)) [
    | inl e ↦ elim (Bool-cases (calloc prv.next_id)) [
      | inl granted ↦ rw (query_work_elem, e, granted) (fresh, idle)
      | inr refused ↦ rw (query_work_elem, e, refused) tt
    ]
    | inr (r, e) ↦ rw (query_work_elem, e) (reused r e, idle)
  ]
    where
      fresh : Keeps prv (record prv {
        work = some (record { id = prv.next_id; sect = reset_section; ref = 0 });
        next_id = prv.next_id + 1;
      })
      fresh = record {
        same_places = λ id. ground (arith, idle);
        counted = λ h. h;
        queued = refl;
        classified = omega arith;
      }

      reused :
          (r : Elem)
          → find_elem (λ e. ltb e.ref 1) prv.pool.elems ≡ some r
          → Keeps prv (record prv {
            work = some (record r { sect = reset_section; ref = 0 });
            pool = unlink_ts_section_list prv.pool r.id;
          })
      reused r e = record {
        same_places =
            λ id. ground (arith, idle, tally-remove id (λ e. ltb e.ref 1) r prv.pool.elems e);
        counted = λ h. ground (arith, tally-remove 0 (λ e. ltb e.ref 1) r prv.pool.elems e);
        queued = refl;
        classified = omega arith;
      }

  abbrev Rounded : Parser → Round → Type 0
  Rounded prv (leave r prv') = Keeps prv prv'
  Rounded prv (again r prv' rest) = Keeps prv prv' × (prv'.work ≡ none)

  round-Keeps :
      (r : Code) (prv : Parser) (bytes : List ℕ)
      → prv.work ≡ none
      → Rounded prv (section_round calloc r prv bytes)
  unfolding section_round
  round-Keeps r prv bytes idle = elim (Option-cases (query_work_elem calloc prv)) [
    | inl e ↦ rw (section_round, e) (Keeps-refl prv)
    | inr ((w, prv1), e) ↦
        let sect : Section = append_section_data w.sect bytes in
        let w' : Elem = record w { sect = sect } in
        let rest : List ℕ = drop (length sect.raw) bytes in
        let fetched : Fetched prv (some (w, prv1)) =
          subst (λ q. Fetched prv q) e (query-Keeps prv idle) in
        let filled : Keeps prv (holding prv1 w') =
          Keeps-trans prv (holding prv1 w) (holding prv1 w') fetched.0 (fill-Keeps prv1 w sect) in
        let settled : Keeps prv (settle prv1 w').1 =
          Keeps-trans prv (holding prv1 w') (settle prv1 w').1 filled
            (settle-Keeps prv1 w' fetched.1) in
        elim (Bool-cases (check_section_complete sect)) [
          | inl done ↦ elim (Bool-cases (more_sections rest)) [
            | inl more ↦ rw (section_round, e, done, more) (settled, settle-idle prv1 w' fetched.1)
            | inr last ↦ rw (section_round, e, done, last) settled
          ]
          | inr part ↦ rw (section_round, e, part) filled
        ]
  ]

  -- What a call of `put` keeps, if it ends.
  abbrev Ended : Parser → Option (Code × Parser) → Type 0
  Ended prv none = Unit {0}
  Ended prv (some (r, prv')) = Keeps prv prv'

  Ended-trans :
      (a b : Parser) (result : Option (Code × Parser)) → Keeps a b → Ended b result → Ended a result
  Ended-trans a b none h k = tt
  Ended-trans a b (some (r, c)) h k = Keeps-trans a b c h k

  loop-Keeps :
      (fuel : ℕ) (r : Code) (prv : Parser) (bytes : List ℕ)
      → prv.work ≡ none
      → Ended prv (section_loop calloc fuel r prv bytes)
  unfolding section_loop
  loop-Keeps zero r prv bytes idle = tt
  loop-Keeps (suc fuel) r prv bytes idle = elim (Round-cases (section_round calloc r prv bytes)) [
    | inl (r', prv', e) ↦
        rw (loop_leave calloc fuel r r' prv prv' bytes e)
          (subst (λ x. Rounded prv x) e (round-Keeps r prv bytes idle))
    | inr (r', prv', rest, e) ↦
        let kept : Rounded prv (again r' prv' rest) =
          subst (λ x. Rounded prv x) e (round-Keeps r prv bytes idle) in
        rw (loop_again calloc fuel r r' prv prv' bytes rest e) (
          Ended-trans prv prv' (section_loop calloc fuel r' prv' rest) kept.0
            (loop-Keeps fuel r' prv' rest kept.1))
  ]

  include-Keeps :
      (pointer_field : ℕ) (prv : Parser) (rest : List ℕ)
      → Ended prv (put_include_section_start calloc pointer_field prv rest)
  unfolding put_include_section_start
  include-Keeps pointer_field prv rest =
      let before : Code × Parser =
        if ltb 0 pointer_field
        then put_exclude_section_start prv (take pointer_field rest)
        else (ok, prv) in
      let dropped : Code × Parser = drop_work before.0 before.1 in
      let bytes : List ℕ = drop pointer_field rest in
      let begun : Keeps prv before.1 = elim (Bool-cases (ltb 0 pointer_field)) [
        | inl e ↦ rw e (exclude-Keeps prv (take pointer_field rest))
        | inr e ↦ rw e (Keeps-refl prv)
      ] in
      elim (Bool-cases (leb (length rest) pointer_field)) [
        | inl e ↦ rw e (drop-Keeps ok prv)
        | inr e ↦ elim (Bool-cases (is_error before.0)) [
          | inl bad ↦ rw (e, bad) begun
          | inr good ↦
              rw (e, good)
                (Ended-trans prv dropped.1
                  (section_loop calloc (length bytes) dropped.0 dropped.1 bytes)
                  (Keeps-trans prv before.1 dropped.1 begun (drop-Keeps before.0 before.1))
                  (loop-Keeps (length bytes) dropped.0 dropped.1 bytes
                    (drop-idle before.0 before.1)))
        ]
      ]

  bytes-Keeps :
      (prv : Parser) (hdr : TsHeader) (bytes : List ℕ) → Ended prv (put_bytes calloc prv hdr bytes)
  unfolding put_bytes
  bytes-Keeps prv hdr [] = Keeps-refl prv
  bytes-Keeps prv hdr (p0 ∷ rest) =
      let checked : Bool = elim prv.pid [ none ↦ true | some pid ↦ pid == hdr.pid ] in
      let prv' : Parser = record prv { pid = some hdr.pid } in
      elim (Bool-cases checked) [
        | inl same ↦ elim (Bool-cases (hdr.payload_unit_start_indicator == 0)) [
          | inl e ↦ rw (same, e) (repid (exclude-Keeps prv' (p0 ∷ rest)))
          | inr e ↦
              rw (same, e)
                (Ended-trans prv prv' (put_include_section_start calloc p0 prv' rest)
                  (repid (Keeps-refl prv')) (include-Keeps p0 prv' rest))
        ]
        | inr other ↦ rw other (Keeps-refl prv)
      ]
    where
      repid : {q : Parser} → Keeps (record prv { pid = some hdr.pid }) q → Keeps prv q
      repid k = record {
        same_places = k.same_places;
        counted = k.counted;
        queued = k.queued;
        classified = k.classified;
      }

  pub put-Keeps :
      (prv : Parser) (hdr : TsHeader) (bytes : List ℕ)
      → (c : Code) × (prv' : Parser) × (put calloc (some prv) (some hdr) (some bytes)
          ≡ some (c, some prv'))
        × Keeps prv prv'
        × (Refused calloc c ⊎ Adds prv prv' (account prv hdr bytes))
  unfolding put
  put-Keeps prv hdr bytes = elim (Option-cases (put_bytes calloc prv hdr bytes)) [
    | inl e ↦ absurd (put-runs calloc (some prv) (some hdr) (some bytes) (rw (put, e) refl))
    | inr ((c, prv'), e) ↦ (
      c,
      prv',
      rw (put, e) refl,
      subst (λ x. Ended prv x) e (bytes-Keeps prv hdr bytes),
      subst (λ x. Tallied calloc prv (account prv hdr bytes) x) e
          (bytes-Tallied calloc prv hdr bytes),
    )
  ]
