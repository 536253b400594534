-- ===== src/Decoder/Pmt/Counts.antt =====
-- b1/arib_std_b1.c: the program map table keeps the counts of the decryptors.
use mathlib.Core.Path.{subst}
use recskapa.Base.{
  ℕ, zero, suc, ◌+◌, ◌≤◌, ◌<◌, ◌≡◌, refl, sym, arith, ltb, ◌==◌, if◌then◌else◌, bit_and,
}
use recskapa.Base.{
  All, length, drop, get_or, List, [], ◌∷◌, Bool, true, false, Bool-cases, Option-cases, inl, inr,
  Option, some, none,
}
use recskapa.Base.Bits.{and_mask}
use recskapa.Decoder.{Code, ok, no_enough_memory, warn_broken_ts_section, Program, Decoder}
use recskapa.Decoder.Decryptor.Counted.{Counted, no_one}
use recskapa.Decoder.Decryptor.Refs.{pid_max}
use recskapa.Decoder.Descriptor.{find_ca_descriptor_pid, find_ca_descriptor_pid_lt}
use recskapa.Decoder.Pmt.{read_pid, read_length, read_bytes, pmt_streams}
use recskapa.Decoder.Pmt.{use_pmt, use_pmt_section, set_pmt, store_program, proc_pmt}
use recskapa.Decoder.Pmt.Rounds.{is_ecm_of, IsFree, FitsIn}
use recskapa.Decoder.Programs.{program_at}
use recskapa.Section.Assembly.{Section}
use recskapa.Section.Parser.{Parser}
use recskapa.Section.Parser.Methods.{Handed, get, ret}
use recskapa.Stream.Elems.{StreamList}
use recskapa.Decoder.Pmt.Renewed.{InRange, with_decryptor_done}

module _ (memory : ℕ → Bool) (free : ℕ → Bool) where
  -- What the section says: its elementary streams have identifiers of the set, its ECMs have none.
  abbrev pub SectionFits : (ℕ → ℕ) → List ℕ → ℕ → Type 0
  SectionFits stale bytes ca_system_id =
      let length1 = read_length stale bytes 2 in
      let ecm_pid = find_ca_descriptor_pid (read_bytes stale bytes 4 length1) ca_system_id in
      ((j : ℕ) → free j ≡ true → is_ecm_of ecm_pid j ≡ false)
      × All (λ s. (free s.pid ≡ true) × ((j : ℕ) → free j ≡ true → is_ecm_of s.ecm_pid j ≡ false))
          (pmt_streams stale (length bytes) bytes (4 + length1) ca_system_id)

  in_range :
      (stale : ℕ → ℕ) (fuel : ℕ) (bytes : List ℕ) (i ca_system_id : ℕ)
      → All
          (λ s. (free s.pid ≡ true) × ((j : ℕ) → free j ≡ true → is_ecm_of s.ecm_pid j ≡ false))
          (pmt_streams stale fuel bytes i ca_system_id)
      → All (FitsIn free) (pmt_streams stale fuel bytes i ca_system_id)
  unfolding pmt_streams pid_max
  in_range stale zero bytes i ca_system_id h = tt
  in_range stale (suc fuel) bytes i ca_system_id h =
      elim (Bool-cases (ltb (i + 8) (length bytes))) [
        | inr at_end ↦ rw at_end tt
        | inl more ↦
            let length1 = read_length stale bytes (i + 3) in
            let (first, rest) =
              subst
                (λ (b : Bool).
                  All
                    (λ s.
                      (free s.pid ≡ true)
                      × ((j : ℕ) → free j ≡ true → is_ecm_of s.ecm_pid j ≡ false))
                    (if b
                      then record {
                        type = get_or bytes i (stale i);
                        pid = read_pid stale bytes (i + 1);
                        ecm_pid =
                            find_ca_descriptor_pid (read_bytes stale bytes (i + 5) length1)
                              ca_system_id;
                      }
                        ∷ pmt_streams stale fuel bytes (i + 5 + length1) ca_system_id
                      else []))
                more h in
            rw more (
              (
                and_mask_lt _,
                find_ca_descriptor_pid_lt (read_bytes stale bytes (i + 5) length1) ca_system_id,
                first.0,
                first.1,
              ),
              in_range stale fuel bytes (i + 5 + length1) ca_system_id rest,
            )
      ]
    where
      and_mask_lt : (n : ℕ) → bit_and n 0x1fff < 0x2000
      and_mask_lt n = omega (arith, and_mask 13 n)

  use_pmt_done :
      (held : ℕ → ℕ) (stale : ℕ → ℕ) (prv : Decoder) (pgrm : Program) (bytes : List ℕ)
      → InRange pgrm.old_strm.elems
      → SectionFits stale bytes prv.ca_system_id
      → IsFree free prv
      → Counted held prv
      → (r : Code) × (pgrm' : Program) × (prv' : Decoder) × (use_pmt memory stale prv pgrm bytes
          ≡ some (r, pgrm', prv'))
        × Counted held prv'
  unfolding use_pmt pid_max
  use_pmt_done held stale prv pgrm bytes range (apart, fits) is_free c =
      let pgrm1 : Program = record pgrm { pcr_pid = read_pid stale bytes 0 } in
      let length1 = read_length stale bytes 2 in
      let ecm_pid = find_ca_descriptor_pid (read_bytes stale bytes 4 length1) prv.ca_system_id in
      let found = pmt_streams stale (length bytes) bytes (4 + length1) prv.ca_system_id in
      let (added, pgrm2, prv2, e, c2) =
        with_decryptor_done memory free held prv pgrm1 ecm_pid found range
          (find_ca_descriptor_pid_lt (read_bytes stale bytes 4 length1) prv.ca_system_id) apart
          (in_range stale (length bytes) bytes (4 + length1) prv.ca_system_id fits) is_free c in
      elim (Bool-cases (ltb (length bytes) (8 + length1))) [
        | inl broken ↦ (warn_broken_ts_section, pgrm1, prv, rw (use_pmt, broken) refl, c)
        | inr whole ↦ elim (Bool-cases added) [
          | inl all_added ↦ (ok, pgrm2, prv2, rw (use_pmt, whole, e, all_added) refl, c2)
          | inr stopped ↦ (no_enough_memory, pgrm2, prv2, rw (use_pmt, whole, e, stopped) refl, c2)
        ]
      ]

  -- A section that is handed out has its data, and fits.
  abbrev pub HandedFits : (ℕ → ℕ) → ℕ → Option ℕ → List ℕ → Type 0
  HandedFits stale ca_system_id none raw = 1 ≤ 0
  HandedFits stale ca_system_id (some offset) raw = SectionFits stale (drop offset raw) ca_system_id

  abbrev pub GetFits : (ℕ → ℕ) → ℕ → Option Handed → Type 0
  GetFits stale ca_system_id none = Unit {0}
  GetFits stale ca_system_id (some handed) =
      HandedFits stale ca_system_id handed.sect.body handed.sect.raw

  use_pmt_section_done :
      (held : ℕ → ℕ) (stale : ℕ → ℕ) (prv : Decoder) (pgrm : Program) (sect : Section)
      → InRange pgrm.old_strm.elems
      → HandedFits stale prv.ca_system_id sect.body sect.raw
      → IsFree free prv
      → Counted held prv
      → (r : Code) × (pgrm' : Program) × (prv' : Decoder) × (use_pmt_section memory stale prv pgrm
            sect
          ≡ some (r, pgrm', prv'))
        × Counted held prv'
  use_pmt_section_done held stale prv pgrm sect range fits is_free c =
      elim (Option-cases sect.body) [
        | inl empty ↦
            let wrong : 1 ≤ 0 =
              subst (λ x. HandedFits stale prv.ca_system_id x sect.raw) empty fits in
            absurd (omega (arith, wrong))
        | inr (offset, at) ↦
            let (r, pgrm', prv', e, c') =
              use_pmt_done held stale prv pgrm (drop offset sect.raw) range
                (subst (λ x. HandedFits stale prv.ca_system_id x sect.raw) at fits) is_free c in
            (r, pgrm', prv', rw at e, c')
      ]

  old_strm_kept : (pgrm : Program) (p : Option Parser) → (set_pmt pgrm p).old_strm ≡ pgrm.old_strm
  old_strm_kept pgrm none = refl
  old_strm_kept pgrm (some p) = refl

  -- For a set of identifiers of which none has an entry of a PMT or of an ECM: where the elementary
  -- streams of the table are in the set and its ECMs are not, the streams that were given up before
  -- have identifiers below the number of identifiers and the counts are right, the handling of the
  -- table ends with 0, and leaves the counts right; so no pointer to a decryptor that is gone is
  -- followed on the way.
  pub proc_pmt-Counted :
      (stale : ℕ → ℕ) (prv : Decoder) (i : ℕ) (pgrm : Program)
      → program_at prv.program i ≡ some pgrm
      → GetFits stale prv.ca_system_id (get (some pgrm.pmt) true).1
      → InRange pgrm.old_strm.elems
      → IsFree free prv
      → Counted no_one prv
      → (prv' : Decoder) × (proc_pmt memory stale prv i ≡ some (ok, prv')) × Counted no_one prv'
  unfolding proc_pmt
  proc_pmt-Counted stale prv i pgrm here fits range is_free c =
      let (n, sect, parser) = get (some pgrm.pmt) true in
      let pgrm1 = set_pmt pgrm parser in
      elim (Option-cases sect) [
        | inl nothing ↦ (
          store_program prv i pgrm1,
          rw (proc_pmt, here, nothing) refl,
          record { exact = c.exact; points = c.points; fresh = c.fresh; alive = c.alive },
        )
        | inr (handed, found) ↦ elim (Bool-cases (handed.sect.hdr.table_id == 0x02)) [
          | inr wrong ↦ (
            store_program prv i (set_pmt pgrm1 (ret parser (some handed)).1),
            rw (proc_pmt, here, found, wrong) refl,
            record { exact = c.exact; points = c.points; fresh = c.fresh; alive = c.alive },
          )
          | inl right ↦
              let (r, pgrm2, prv2, e, c2) =
                use_pmt_section_done no_one stale prv pgrm1 handed.sect
                  (subst (λ (x : StreamList). InRange x.elems) (sym (old_strm_kept pgrm parser))
                    range)
                  (subst (λ x. GetFits stale prv.ca_system_id x) found fits) is_free c in
              (
                store_program prv2 i (set_pmt pgrm2 (ret parser (some handed)).1),
                rw (proc_pmt, here, found, right, e) refl,
                record { exact = c2.exact; points = c2.points; fresh = c2.fresh; alive = c2.alive },
              )
        ]
      ]
