-- ===== src/Decoder/Phase.antt =====
-- b1/arib_std_b1.c: whether all tables that are awaited were read. A phase is 0, 1 or 2 in the
-- source; the tests for a negative one are left out, since a phase is a natural number here.
use recskapa.Base.{ℕ, ◌+◌, ◌≤◌, ◌<◌, ◌≡◌, ◌⊎◌, ◌↔◌, inl, inr, refl, arith, ltb, ◌==◌, if◌then◌else◌}
use recskapa.Base.{List, [], ◌∷◌, Bool, true, false, Bool-cases}
use recskapa.Decoder.{DecryptorElem, Program, Decoder}

-- `num`.
pub record Num : Type 0 where
  pub num0 : ℕ
  pub num1 : ℕ
  pub num2 : ℕ

-- `num[n] += 1`, where a phase above 2 counts as 2.
abbrev pub count_phase : ℕ → Num → Num
count_phase n num =
    if ltb 2 n
    then record num { num2 = num.num2 + 1 }
    else if n == 2
    then record num { num2 = num.num2 + 1 }
    else if n == 1
    then record num { num1 = num.num1 + 1 }
    else record num { num0 = num.num0 + 1 }

-- The loop over the programs or the decryptors.
unfoldable pub count_phases : {A : Type 0} → (A → ℕ) → Num → List A → Num
count_phases phase num [] = num
count_phases phase num (x ∷ xs) = count_phases phase (count_phase (phase x) num) xs

abbrev pub is_complete : Num → Bool
is_complete num = if ltb 0 num.num2 then true else if ltb 0 num.num0 then false else true

abbrev no_phases : Num
no_phases = record { num0 = 0; num1 = 0; num2 = 0 }

unfoldable pub check_pmt_complete : Decoder → Bool
check_pmt_complete prv = is_complete (count_phases (λ pgrm. pgrm.phase) no_phases prv.program)

unfoldable pub check_ecm_complete : Decoder → Bool
check_ecm_complete prv = is_complete (count_phases (λ e. e.phase) no_phases prv.decrypt)

-- There is one of which a condition holds.
pub data Any {A : Type 0} (P : A → Type 0) : List A → Type 0 where
  first : (x : A) (xs : List A) → P x → Any P (x ∷ xs)
  later : (x : A) (xs : List A) → Any P xs → Any P (x ∷ xs)

first_or_later :
    {A : Type 0} (P : A → Type 0) (x : A) (xs : List A) → Any P (x ∷ xs) → P x ⊎ Any P xs
first_or_later P _ _ (first x xs h) = inl h
first_or_later P _ _ (later x xs h) = inr h

none_found : {A : Type 0} (P : A → Type 0) → ¬ (Any P [])
none_found P h = none_in [] h refl
  where
    none_in : {A : Type 0} {P : A → Type 0} (xs : List A) → Any P xs → ¬ (xs ≡ [])
    none_in _ (first x xs h) e = absurd (ground (arith, e))
    none_in _ (later x xs h) e = absurd (ground (arith, e))

count_phase-num2 : (n : ℕ) (num : Num) → 0 < (count_phase n num).num2 ↔ (0 < num.num2) ⊎ (2 ≤ n)
count_phase-num2 n num = ground arith

count_phase-num0 : (n : ℕ) (num : Num) → 0 < (count_phase n num).num0 ↔ (0 < num.num0) ⊎ (n ≡ 0)
count_phase-num0 n num = ground arith

-- A count is above 0 after the loop if it was before, or if a phase of its kind is there.
count_phases_field :
    {A : Type 0} (field : Num → ℕ) (P : ℕ → Type 0) (phase : A → ℕ)
    → ((n : ℕ) (num : Num) → 0 < field (count_phase n num) ↔ (0 < field num) ⊎ P n)
    → (num : Num) (xs : List A)
    → 0 < field (count_phases phase num xs) ↔ (0 < field num) ⊎ Any (λ x. P (phase x)) xs
unfolding count_phases
count_phases_field field P phase step num [] = (
  λ h. inl h,
  λ h. elim h [ inl before ↦ before | inr found ↦ absurd (none_found (λ x. P (phase x)) found) ],
)
count_phases_field field P phase step num (x ∷ xs) =
    let rest = count_phases_field field P phase step (count_phase (phase x) num) xs in
    let here = step (phase x) num in
    (
      λ h. elim (rest.0 h) [
        | inl before ↦ elim (here.0 before) [ inl b ↦ inl b | inr hit ↦ inr (first x xs hit) ]
        | inr found ↦ inr (later x xs found)
      ],
      λ h. rest.1 (elim h [
        | inl before ↦ inl (here.1 (inl before))
        | inr found ↦ elim (first_or_later (λ y. P (phase y)) x xs found) [
          | inl hit ↦ inl (here.1 (inr hit))
          | inr behind ↦ inr behind
        ]
      ]),
    )

-- What the two functions say of a list: a phase of 2 or more is there, or no phase is 0.
abbrev pub IsDone : {A : Type 0} → (A → ℕ) → List A → Type 0
IsDone phase xs = Any (λ x. 2 ≤ phase x) xs ⊎ (¬ (Any (λ x. phase x ≡ 0) xs))

complete_lem :
    {A : Type 0} (phase : A → ℕ) (xs : List A)
    → is_complete (count_phases phase no_phases xs) ≡ true ↔ IsDone phase xs
complete_lem phase xs =
    let num = count_phases phase no_phases xs in
    let two =
      count_phases_field (λ num. num.num2) (λ n. 2 ≤ n) phase count_phase-num2 no_phases xs in
    let none_yet =
      count_phases_field (λ num. num.num0) (λ n. n ≡ 0) phase count_phase-num0 no_phases xs in
    elim (Bool-cases (ltb 0 num.num2)) [
      | inl some_two ↦ (
        λ e. elim (two.0 (ground (arith, some_two))) [
          | inl b ↦ absurd (omega (arith, b))
          | inr found ↦ inl found
        ],
        λ done. rw some_two refl,
      )
      | inr no_two ↦ elim (Bool-cases (ltb 0 num.num0)) [
        | inl some_zero ↦ (
          λ e. absurd (ground (arith, e, no_two, some_zero)),
          λ done. elim done [
            | inl found ↦ absurd (ground (arith, no_two, two.1 (inr found)))
            | inr never ↦ elim (none_yet.0 (ground (arith, some_zero))) [
              | inl b ↦ absurd (omega (arith, b))
              | inr found ↦ absurd (never found)
            ]
          ],
        )
        | inr no_zero ↦ (
          λ e. inr (λ found. absurd (ground (arith, no_zero, none_yet.1 (inr found)))),
          λ done. rw (no_two, no_zero) refl,
        )
      ]
    ]

-- The search for PMTs and that for ECMs each end exactly if one was seen again after it was read, or
-- if all were read.
pub complete_iff :
    (prv : Decoder)
    → (check_pmt_complete prv ≡ true ↔ IsDone (λ (pgrm : Program). pgrm.phase) prv.program)
      × (check_ecm_complete prv ≡ true ↔ IsDone (λ (e : DecryptorElem). e.phase) prv.decrypt)
unfolding check_pmt_complete check_ecm_complete
complete_iff prv =
    (complete_lem (λ pgrm. pgrm.phase) prv.program, complete_lem (λ e. e.phase) prv.decrypt)
