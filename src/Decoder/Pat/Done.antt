-- ===== src/Decoder/Pat/Done.antt =====
-- b1/arib_std_b1.c: what the program association table leaves.
use mathlib.Core.Path.{subst}
use recskapa.Base.{ℕ, ◌+◌, ◌-◌, ◌*◌, ◌≤◌, ◌≡◌, ◌≢◌, ◌⊎◌, refl, arith, ◌==◌}
use recskapa.Base.{
  length, take, drop, List, [], Bool, true, false, Bool-cases, Option-cases, inl, inr, Option, some,
  none,
}
use recskapa.Decoder.{Code, ok, no_enough_memory, warn_ts_section_id_missmatch, pat_parse_failure}
use recskapa.Decoder.{pat, null, Decoder, set_map, zero_map}
use recskapa.Decoder.Cat.Counts.{HasData}
use recskapa.Decoder.Decryptor.Counted.{Counted}
use recskapa.Decoder.Ecm.{ecm_bytes}
use recskapa.Decoder.Pat.{Filling, fill_programs, use_pat, use_pat_section, proc_pat}
use recskapa.Section.Assembly.{Section}
use recskapa.Decoder.Pat.Entries.{HasPrograms, fill_programs-HasPrograms}
use recskapa.Decoder.Pat.Released.{Releasable, release_programs-Counted}
use recskapa.Section.Parser.Methods.{get, ret}

-- The entries of PMTs point to programs, and the entry of the table itself is set.
abbrev pub IsListed : Decoder → Type 0
IsListed prv = HasPrograms prv.program prv.map × ((prv.map 0x0000).type ≡ pat)

module _ (memory : ℕ → Bool) where
  -- Where there is memory for the array, the old programs can be released and the counts are right,
  -- the handling of the bytes ends. Then each entry of the type for PMTs points to a program of the
  -- new array that has its PMT there, and the programs are at most as many as the array has room for.
  pub use_pat-IsListed :
      (held : ℕ → ℕ) (prv : Decoder) (bytes : List ℕ)
      → memory prv.allocs ≡ true
      → Releasable prv prv.program
      → Counted held prv
      → (code : Code) × (prv' : Decoder) × (use_pat memory prv bytes ≡ some (code, prv'))
        × IsListed prv'
        × (4 * length prv'.program ≤ length bytes)
  unfolding use_pat
  use_pat-IsListed held prv bytes enough releasable c =
      let (prv1, released, c1) =
        release_programs-Counted held (record prv { allocs = prv.allocs + 1 }) prv.program
          releasable
          (record { exact = c.exact; points = c.points; fresh = c.fresh; alive = c.alive }) in
      let start : Filling = record {
        code = ok;
        work = [];
        map = λ pid. zero_map;
        allocs = prv1.allocs;
      } in
      let f = fill_programs memory start bytes in
      let (has, room) =
        fill_programs-HasPrograms memory start bytes (λ pid h. absurd (ground (arith, h))) in
      (
        f.code,
        record prv1 {
          program = f.work;
          map = set_map f.map 0x0000 (record (f.map 0x0000) { ref = 1; type = pat; target = null });
          allocs = f.allocs;
        },
        rw (use_pat, enough, released) refl,
        (
          λ i. elim (Bool-cases (i == 0x0000)) [
            | inl here ↦ rw here (λ h. absurd (ground (arith, h)))
            | inr elsewhere ↦ rw elsewhere (has i)
          ],
          refl,
        ),
        omega (arith, room),
      )

  use_pat_section-bytes :
      (prv : Decoder) (sect : Section) (bytes : List ℕ) (outcome : Option (Code × Decoder))
      → ecm_bytes sect ≡ some bytes
      → use_pat memory prv bytes ≡ outcome
      → use_pat_section memory prv sect ≡ outcome
  unfolding use_pat_section
  use_pat_section-bytes prv sect bytes outcome here used = rw (use_pat_section, here) used

  use_pat_refused :
      (prv : Decoder) (bytes : List ℕ)
      → memory prv.allocs ≡ false
      → use_pat memory prv bytes ≡ some (no_enough_memory, record prv { allocs = prv.allocs + 1 })
  unfolding use_pat
  use_pat_refused prv bytes short = rw (use_pat, short) refl

  -- Where a section that is handed out has its data, the old programs can be released and the counts
  -- are right, the handling of the table ends: either the programs and the map are as they were and
  -- the result is not 0, or each entry of the type for PMTs points to a program of the new array that
  -- has its PMT there, and the entry of the table itself is set.
  pub proc_pat-IsListed :
      (held : ℕ → ℕ) (prv : Decoder)
      → HasData (get prv.pat true).1
      → Releasable prv prv.program
      → Counted held prv
      → (code : Code) × (prv' : Decoder) × (proc_pat memory prv ≡ some (code, prv'))
        × (((prv'.program ≡ prv.program) × (prv'.map ≡ prv.map) × (code ≢ ok)) ⊎ IsListed prv')
  unfolding proc_pat
  proc_pat-IsListed held prv whole releasable c =
      let (n, sect, parser) = get prv.pat true in
      let prv1 : Decoder = record prv { pat = parser } in
      elim (Option-cases sect) [
        | inl nothing ↦ (
          pat_parse_failure,
          prv1,
          rw (proc_pat, nothing) refl,
          inl (refl, refl, λ e. absurd (ground (arith, e))),
        )
        | inr (handed, found) ↦
            let given = (ret parser (some handed)).1 in
            elim (Bool-cases (handed.sect.hdr.table_id == 0x00)) [
              | inr wrong ↦ (
                warn_ts_section_id_missmatch,
                record prv1 { pat = given },
                rw (proc_pat, found, wrong) refl,
                inl (refl, refl, λ e. absurd (ground (arith, e))),
              )
              | inl right ↦
                  let filled : handed.sect.body ≢ none = subst (λ x. HasData x) found whole in
                  elim (Option-cases handed.sect.body) [
                    | inl empty ↦ absurd (filled empty)
                    | inr (offset, at) ↦
                        let all = drop offset handed.sect.raw in
                        let bytes = take (length all - 4) all in
                        let here : ecm_bytes handed.sect ≡ some bytes = rw at refl in
                        elim (Bool-cases (memory prv.allocs)) [
                          | inr short ↦ (
                            no_enough_memory,
                            record prv1 { allocs = prv.allocs + 1; pat = given },
                            rw
                                (
                                  proc_pat,
                                  found,
                                  right,
                                  use_pat_section-bytes prv1 handed.sect bytes
                                      (some
                                        (no_enough_memory, record prv1 { allocs = prv.allocs + 1 }))
                                      here (use_pat_refused prv1 bytes short),
                                )
                                refl,
                            inl (refl, refl, λ e. absurd (ground (arith, e))),
                          )
                          | inl enough ↦
                              let (r, prv2, used, listed, room) =
                                use_pat-IsListed held prv1 bytes enough releasable (record {
                                  exact = c.exact;
                                  points = c.points;
                                  fresh = c.fresh;
                                  alive = c.alive;
                                }) in
                              (
                                r,
                                record prv2 { pat = given },
                                rw
                                    (
                                      proc_pat,
                                      found,
                                      right,
                                      use_pat_section-bytes prv1 handed.sect bytes (some (r, prv2))
                                          here used,
                                    )
                                    refl,
                                inr listed,
                              )
                        ]
                  ]
            ]
      ]
