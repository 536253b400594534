-- ===== src/Decoder/Decryptor/Types.antt =====
-- b1/arib_std_b1.c: the types that the operations on decryptors give to the entries of the map.
use mathlib.Core.Path.{subst}
use recskapa.Base.{ℕ, ◌+◌, ◌-◌, ◌^◌, ◌%◌, ◌≡◌, ◌⊎◌, refl, sym, ◌∙◌, arith, ltb, ◌==◌}
use recskapa.Base.{
  List, [], ◌∷◌, Bool, true, false, Bool-cases, Option-cases, some-injective, inl, inr, Option,
  some, none,
}
use recskapa.Decoder.{PidType, unknown, Target, null, program, decryptor, PidMap, Decoder}
use recskapa.Decoder.Decryptor.{
  find_dec, is_other, drop_ref, drop_target, remove_decryptor, reset_entry, unref_stream, unref_all,
}
use recskapa.Decoder.Decryptor.{set_target, add_binding, bind_stream_decryptor}
use recskapa.Decoder.Decryptor.Counted.{replace}
use recskapa.Stream.Elems.{StreamElem, put_stream_list_tail}

-- No entry gets a type of a kind, if it is not of the kind.
abbrev pub NoNew : (PidType → Bool) → Decoder → Decoder → Type 0
NoNew kind prv prv' = (j : ℕ) → kind (prv.map j).type ≡ false → kind (prv'.map j).type ≡ false

module _ (kind : PidType → Bool) (plain : kind unknown ≡ false) where
  pub drop_ref-NoNew :
      (prv prv' : Decoder) (id : ℕ) → drop_ref prv id ≡ some prv' → NoNew kind prv prv'
  unfolding drop_ref remove_decryptor
  drop_ref-NoNew prv prv' id e j h = elim (Option-cases (find_dec id prv.decrypt)) [
    | inl nowhere ↦ absurd (ground (arith, e, nowhere))
    | inr (d, found) ↦ elim (Bool-cases (j == d.ecm_pid)) [
      | inl here ↦ ground (arith, e, found, here, h, plain)
      | inr elsewhere ↦ ground (arith, e, found, elsewhere, h)
    ]
  ]

  pub drop_target-NoNew :
      (prv prv' : Decoder) (target : Target)
      → drop_target prv target ≡ some prv'
      → NoNew kind prv prv'
  unfolding drop_target
  drop_target-NoNew prv prv' null e j h =
      subst (λ (x : Decoder). kind (x.map j).type ≡ false) (some-injective e) h
  drop_target-NoNew prv prv' (program i) e j h = absurd (ground (arith, e))
  drop_target-NoNew prv prv' (decryptor id) e j h = drop_ref-NoNew prv prv' id e j h

  unref_stream-NoNew :
      (prv prv' : Decoder) (pid : ℕ) → unref_stream prv pid ≡ some prv' → NoNew kind prv prv'
  unfolding unref_stream reset_entry
  unref_stream-NoNew prv prv' pid e j h =
      let entry : PidMap = prv.map pid in
      let ref : ℕ = (entry.ref + 2 ^ 32 - 1) % 2 ^ 32 in
      let prv1 : Decoder = replace prv pid (record entry { ref = ref }) in
      let here : (j == pid) ≡ true → kind entry.type ≡ false = λ same.
        let at : j ≡ pid = ground arith in subst (λ k. kind (prv.map k).type ≡ false) at h in
      elim (Bool-cases (ltb ref 1)) [
        | inr used ↦ ground (arith, e, used, h, here)
        | inl last ↦ elim (Bool-cases (is_other entry.type)) [
          | inr alien ↦ ground (arith, e, last, alien, h, plain)
          | inl stream ↦ elim (Option-cases (drop_target prv1 entry.target)) [
            | inl nowhere ↦ absurd (ground (arith, e, last, stream, nowhere))
            | inr (prv2, dropped) ↦
                let kept = drop_target-NoNew prv1 prv2 entry.target dropped j in
                ground (arith, e, last, stream, dropped, kept, h, here, plain)
          ]
        ]
      ]

  pub unref_all-NoNew :
      (prv prv' : Decoder) (elems : List StreamElem)
      → unref_all prv elems ≡ some prv'
      → NoNew kind prv prv'
  unfolding unref_all
  unref_all-NoNew prv prv' [] e j h = ground (arith, e, h)
  unref_all-NoNew prv prv' (strm ∷ rest) e j h = elim (Option-cases (unref_stream prv strm.pid)) [
    | inl nowhere ↦ absurd (ground (arith, e, nowhere))
    | inr (prv1, gone) ↦
        unref_all-NoNew
          (record prv1 {
            strm_pool = put_stream_list_tail prv1.strm_pool (record { pid = 0; type = 0 });
          })
          prv' rest (ground (arith, e, gone)) j (unref_stream-NoNew prv prv1 strm.pid gone j h)
  ]

  add_binding-NoNew :
      (prv prv' : Decoder) (pid : ℕ) (dec : Option ℕ)
      → add_binding prv pid dec ≡ some prv'
      → NoNew kind prv prv'
  unfolding add_binding set_target
  add_binding-NoNew prv prv' pid none e j h = ground (arith, e, h)
  add_binding-NoNew prv prv' pid (some id) e j h = elim (Option-cases (find_dec id prv.decrypt)) [
    | inl nowhere ↦ absurd (ground (arith, e, nowhere))
    | inr (d, found) ↦ elim (Bool-cases (j == pid)) [
      | inl same ↦
          let at : j ≡ pid = ground arith in
          ground (arith, e, found, same, subst (λ k. kind (prv.map k).type ≡ false) at h)
      | inr differ ↦ ground (arith, e, found, differ, h)
    ]
  ]

  set_target-NoNew :
      (prv : Decoder) (pid : ℕ) (target : Target) → NoNew kind prv (set_target prv pid target)
  unfolding set_target
  set_target-NoNew prv pid target j h = elim (Bool-cases (j == pid)) [
    | inl same ↦
        let at : j ≡ pid = ground arith in rw same (subst (λ k. kind (prv.map k).type ≡ false) at h)
    | inr differ ↦ rw differ h
  ]

  moved-NoNew :
      (prv prv' : Decoder) (pid old : ℕ) (dec : Option ℕ) (r : Option Decoder)
      → r ≡ some prv'
      → drop_ref prv old ≡ none ⊎ ((prv1 : Decoder) × (drop_ref prv old ≡ some prv1))
      → (elim (drop_ref prv old) [
        | none ↦ none
        | some prv1 ↦ add_binding (set_target prv1 pid null) pid dec
      ])
        ≡ r
      → NoNew kind prv prv'
  moved-NoNew prv prv' pid old dec r e (inl nowhere) same j h =
      absurd (ground (arith, e, nowhere, same))
  moved-NoNew prv prv' pid old dec r e (inr (prv1, dropped)) same j h =
      add_binding-NoNew (set_target prv1 pid null) prv' pid dec (ground (arith, e, dropped, same)) j
        (set_target-NoNew prv1 pid null j (drop_ref-NoNew prv prv1 old dropped j h))

  pub target_cases :
      (target : Target)
      → (target ≡ null) ⊎ ((i : ℕ) × (target ≡ program i)) ⊎ ((id : ℕ) × (target ≡ decryptor id))
  target_cases null = inl refl
  target_cases (program i) = inr (inl (i, refl))
  target_cases (decryptor id) = inr (inr (id, refl))

  pub bind_stream_decryptor-NoNew :
      (prv prv' : Decoder) (pid : ℕ) (dec : Option ℕ)
      → bind_stream_decryptor prv pid dec ≡ some prv'
      → NoNew kind prv prv'
  unfolding bind_stream_decryptor
  bind_stream_decryptor-NoNew prv prv' pid dec e = elim (target_cases (prv.map pid).target) [
    | inl empty ↦
        add_binding-NoNew prv prv' pid dec (sym (rw (bind_stream_decryptor, empty) refl) ∙ e)
    | inr (inl (i, at)) ↦ absurd (ground (arith, e, at))
    | inr (inr (old, at)) ↦ go dec old at e
  ]
    where
      go :
          (dec : Option ℕ) (old : ℕ)
          → (prv.map pid).target ≡ decryptor old
          → bind_stream_decryptor prv pid dec ≡ some prv'
          → NoNew kind prv prv'
      go none old at e =
          moved-NoNew prv prv' pid old none (some prv') refl (Option-cases (drop_ref prv old))
            (sym (rw (bind_stream_decryptor, at) refl) ∙ e)
      go (some id) old at e = elim (Bool-cases (id == old)) [
        | inl same ↦ λ j h. ground (arith, e, at, same, h)
        | inr differ ↦
            moved-NoNew prv prv' pid old (some id) (some prv') refl
              (Option-cases (drop_ref prv old))
              (sym (rw (bind_stream_decryptor, at, differ) refl) ∙ e)
      ]
