-- ===== src/Decoder/Decryptor/SetTypes.antt =====
-- b1/arib_std_b1.c: the types that `set_decryptor` gives to the entries of other identifiers.
use recskapa.Base.{ℕ, ◌+◌, ◌≡◌, ◌⊎◌, sym, ◌∙◌, arith, ◌==◌}
use recskapa.Base.{
  Bool, false, ◌&&◌, Bool-cases, Option-cases, some-injective, inl, inr, Option, some,
}
use mathlib.Core.Path.{subst}
use recskapa.Decoder.{PidType, unknown, null, Decoder}
use recskapa.Decoder.Decryptor.{is_other, is_ecm, set_decryptor}
use recskapa.Decoder.Decryptor.Append.{appended}
use recskapa.Decoder.Decryptor.Set.{
  made, asked, left_entry, set_refused, set_made, set_found, set_nowhere, set_wrong,
}
use recskapa.Decoder.Decryptor.Types.{NoNew, drop_target-NoNew, target_cases}

-- No entry but one gets a type of a kind.
abbrev pub NoNewBut : (PidType → Bool) → ℕ → Decoder → Decoder → Type 0
NoNewBut kind pid prv prv' =
    (j : ℕ) → (j == pid) ≡ false → kind (prv.map j).type ≡ false → kind (prv'.map j).type ≡ false

module _ (memory : ℕ → Bool) (kind : PidType → Bool) (plain : kind unknown ≡ false) where
  left_entry-NoNew :
      (prv prv' : Decoder) (pid : ℕ) → left_entry prv pid ≡ some prv' → NoNew kind prv prv'
  left_entry-NoNew prv prv' pid e = elim (Bool-cases (is_other (prv.map pid).type)) [
    | inr alien ↦ λ j h. ground (arith, e, alien, h)
    | inl stream ↦
        drop_target-NoNew kind plain prv prv' (prv.map pid).target (ground (arith, e, stream))
  ]

  new-NoNewBut :
      (prv prv' : Decoder) (pid : ℕ) (r : Option ℕ)
      → (is_ecm (prv.map pid).type ≡ false) ⊎ ((prv.map pid).target ≡ null)
      → set_decryptor memory prv pid ≡ some (r, prv')
      → NoNewBut kind pid prv prv'
  new-NoNewBut prv prv' pid r free e j apart h =
      elim (Bool-cases (memory prv.allocs && memory (prv.allocs + 1))) [
        | inr short ↦
            let same = some-injective (sym (set_refused memory prv pid free short) ∙ e) in
            subst (λ (x : Option ℕ × Decoder). kind (x.1.map j).type ≡ false) same h
        | inl enough ↦
            let prv2 = appended (asked prv) (made prv pid) in
            elim (Option-cases (left_entry prv2 pid)) [
              | inl nowhere ↦
                  absurd (ground (arith, e, set_nowhere memory prv pid free enough nowhere))
              | inr (prv3, left) ↦
                  let same =
                    some-injective (sym (set_made memory prv prv3 pid free enough left) ∙ e) in
                  subst (λ (x : Option ℕ × Decoder). kind (x.1.map j).type ≡ false) same
                    (rw apart (left_entry-NoNew prv2 prv3 pid left j h))
            ]
      ]

  pub set_decryptor-NoNewBut :
      (prv prv' : Decoder) (pid : ℕ) (r : Option ℕ)
      → set_decryptor memory prv pid ≡ some (r, prv')
      → NoNewBut kind pid prv prv'
  set_decryptor-NoNewBut prv prv' pid r e = elim (Bool-cases (is_ecm (prv.map pid).type)) [
    | inr alien ↦ new-NoNewBut prv prv' pid r (inl alien) e
    | inl own ↦ elim (target_cases kind plain (prv.map pid).target) [
      | inl empty ↦ new-NoNewBut prv prv' pid r (inr empty) e
      | inr (inl (i, at)) ↦ absurd (ground (arith, e, set_wrong memory prv pid i own at))
      | inr (inr (id, at)) ↦
          let same = some-injective (sym (set_found memory prv pid id own at) ∙ e) in
          λ j apart h. subst (λ (x : Option ℕ × Decoder). kind (x.1.map j).type ≡ false) same h
    ]
  ]
