-- ===== src/Decoder/Pat/Entries.antt =====
-- b1/arib_std_b1.c: the programs of the table and the entries of the map that point to them.
use recskapa.Base.{ℕ, zero, suc, ◌+◌, ◌*◌, ◌≤◌, ◌≡◌, refl, arith, ◌==◌, bit_and, bit_or, ◌<<◌}
use recskapa.Base.{
  length, length-append, List, [], ◌∷◌, ◌++◌, Bool, true, false, Bool-cases, inl, inr, some,
}
use recskapa.Decoder.{PidType, pmt, program, PidMap, Program, set_map}
use recskapa.Decoder.Programs.{program_at}
use recskapa.Decoder.Pat.{Filling, new_program, fill_programs}

abbrev pub is_pmt : PidType → Bool
is_pmt pmt = true
is_pmt _ = false

-- An entry of the type for PMTs points into the array, to a program that has its PMT there.
abbrev pub PointsToProgram : List Program → (ℕ → PidMap) → ℕ → Type 0
PointsToProgram work map pid =
    (j : ℕ) × (pgrm : Program) × ((map pid).target ≡ program j)
    × (program_at work j ≡ some pgrm)
    × (pgrm.pmt_pid ≡ pid)

abbrev pub HasPrograms : List Program → (ℕ → PidMap) → Type 0
HasPrograms work map = (pid : ℕ) → is_pmt (map pid).type ≡ true → PointsToProgram work map pid

program_at-append_old :
    (work : List Program) (new pgrm : Program) (j : ℕ)
    → program_at work j ≡ some pgrm
    → program_at (work ++ (new ∷ [])) j ≡ some pgrm
unfolding program_at
program_at-append_old [] new pgrm j e = absurd (ground (arith, e))
program_at-append_old (x ∷ xs) new pgrm zero e = e
program_at-append_old (x ∷ xs) new pgrm (suc j) e = program_at-append_old xs new pgrm j e

program_at-append_new :
    (work : List Program) (new : Program) → program_at (work ++ (new ∷ [])) (length work) ≡ some new
unfolding program_at
program_at-append_new [] new = refl
program_at-append_new (x ∷ xs) new = program_at-append_new xs new

append-HasPrograms :
    (work : List Program) (map : ℕ → PidMap) (new : Program)
    → HasPrograms work map
    → HasPrograms (work ++ (new ∷ [])) (
        set_map map new.pmt_pid
          (record (map new.pmt_pid) { type = pmt; target = program (length work) }))
append-HasPrograms work map new has i = elim (Bool-cases (i == new.pmt_pid)) [
  | inl here ↦
      rw here (λ h. (length work, new, refl, program_at-append_new work new, ground (arith, here)))
  | inr elsewhere ↦ rw elsewhere (λ h.
      let (j, pgrm, at, found, own) = has i h in
      (j, pgrm, at, program_at-append_old work new pgrm j found, own))
]

-- The programs are at most one for four bytes, so that they fit the array.
abbrev FillsWell : Filling → List ℕ → Filling → Type 0
FillsWell f bytes f' =
    HasPrograms f'.work f'.map × (4 * length f'.work ≤ 4 * length f.work + length bytes)

module _ (memory : ℕ → Bool) where
  pub fill_programs-HasPrograms :
      (f : Filling) (bytes : List ℕ)
      → HasPrograms f.work f.map
      → FillsWell f bytes (fill_programs memory f bytes)
  unfolding fill_programs
  fill_programs-HasPrograms f [] has = (has, omega arith)
  fill_programs-HasPrograms f (b0 ∷ []) has = (has, omega arith)
  fill_programs-HasPrograms f (b0 ∷ b1 ∷ []) has = (has, omega arith)
  fill_programs-HasPrograms f (b0 ∷ b1 ∷ b2 ∷ []) has = (has, omega arith)
  fill_programs-HasPrograms f (b0 ∷ b1 ∷ b2 ∷ b3 ∷ rest) has =
      let program_number = bit_or (b0 << 8) b1 in
      let new = new_program program_number (bit_and (bit_or (b2 << 8) b3) 0x1fff) in
      let (has_skipped, room_skipped) = fill_programs-HasPrograms f rest has in
      let (has_filled, room_filled) =
        fill_programs-HasPrograms
          (record f {
            work = f.work ++ (new ∷ []);
            map =
                set_map f.map new.pmt_pid
                  (record (f.map new.pmt_pid) { type = pmt; target = program (length f.work) });
            allocs = f.allocs + 1;
          })
          rest (append-HasPrograms f.work f.map new has) in
      let longer = length-append f.work (new ∷ []) in
      elim (Bool-cases (program_number == 0)) [
        | inl network ↦ rw network (has_skipped, omega (arith, room_skipped))
        | inr numbered ↦ elim (Bool-cases (memory f.allocs)) [
          | inl enough ↦ rw (numbered, enough) (has_filled, omega (arith, room_filled, longer))
          | inr short ↦ rw (numbered, short) (has, omega arith)
        ]
      ]
