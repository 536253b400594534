-- ===== src/Decoder/Decryptor/Steps.antt =====
-- b1/arib_std_b1.c: dropping and adding a reference keep the counts.
use mathlib.Core.Path.{subst}
use recskapa.Base.{ℕ, ◌+◌, ◌-◌, ◌<◌, ◌≡◌, refl, sym, ap, arith, ◌==◌, if◌then◌else◌}
use recskapa.Base.{true, false, ◌&&◌, ◌||◌, Bool-cases, inl, inr, some}
use recskapa.Decoder.{
  PidType, unknown, pat, pmt, emm, cat, ecm, other, Target, null, program, decryptor, PidMap,
  DecryptorElem, Decoder, set_map,
}
use recskapa.Decoder.Decryptor.{
  find_dec, update_dec, unlink_dec, set_ref, is_other, is_ecm, is_decryptor,
}
use recskapa.Decoder.Decryptor.{drop_ref, remove_decryptor, add_binding, set_target}
use recskapa.Decoder.Decryptor.Refs.{pid_max, refs, hits-refs, find_dec-id, find_dec-update_same}
use recskapa.Decoder.Decryptor.Counted.{
  PointsTo, Counted, bump, replace, replace-Counted, update-Counted, unlink-Counted,
}

module _ (held : ℕ → ℕ) (prv : Decoder) (id : ℕ) (d : DecryptorElem) where
  -- The state in which the entry of the decryptor's own identifier is reset, if it is its entry.
  abbrev disowned : Decoder
  disowned =
      let entry = prv.map d.ecm_pid in
      record prv {
        map =
            if is_ecm entry.type && is_decryptor d.id entry.target
            then set_map prv.map d.ecm_pid (record entry { type = unknown; target = null })
            else prv.map;
      }

  disowned-Counted : find_dec id prv.decrypt ≡ some d → Counted held prv → Counted held disowned
  disowned-Counted found c =
      let entry = prv.map d.ecm_pid in
      elim (Bool-cases (is_ecm entry.type && is_decryptor d.id entry.target)) [
        | inl own ↦ rw own (
            replace-Counted held held prv d.ecm_pid (record entry { type = unknown; target = null })
              (c.fresh id d found).1 (λ j. ground (arith, own)) refl c)
        | inr alien ↦ rw alien c
      ]

  ecm_entry :
      (pid : ℕ) (type : PidType) (target : Target)
      → find_dec id prv.decrypt ≡ some d
      → is_decryptor id target ≡ true
      → is_ecm type ≡ true
      → PointsTo prv.decrypt pid type target
      → d.ecm_pid ≡ pid
  ecm_entry pid ecm (decryptor i) found at_dec at_ecm (d', found', own) =
      let same : i ≡ id = ground (arith, at_dec) in
      let e : d' ≡ d = ground (arith, found, found', ap (λ k. find_dec k prv.decrypt) same) in
      subst (λ (x : DecryptorElem). x.ecm_pid ≡ pid) e own
  ecm_entry pid ecm null found at_dec at_ecm points = absurd (ground (arith, at_dec))
  ecm_entry pid ecm (program i) found at_dec at_ecm points = absurd (ground (arith, at_dec))
  ecm_entry pid unknown target found at_dec at_ecm points = absurd (ground (arith, at_ecm))
  ecm_entry pid pat target found at_dec at_ecm points = absurd (ground (arith, at_ecm))
  ecm_entry pid pmt target found at_dec at_ecm points = absurd (ground (arith, at_ecm))
  ecm_entry pid emm target found at_dec at_ecm points = absurd (ground (arith, at_ecm))
  ecm_entry pid cat target found at_dec at_ecm points = absurd (ground (arith, at_ecm))
  ecm_entry pid other target found at_dec at_ecm points = absurd (ground (arith, at_ecm))

  unseen :
      (pid : ℕ)
      → pid < pid_max
      → find_dec id prv.decrypt ≡ some d
      → refs prv.map id pid_max ≡ 0
      → Counted held prv
      → (d.ecm_pid ≡ pid
          → (is_ecm (prv.map pid).type && is_decryptor id (prv.map pid).target) ≡ false)
      → (is_decryptor id (prv.map pid).target
          && (is_other (prv.map pid).type || is_ecm (prv.map pid).type))
        ≡ false
  unseen pid lt found none_left c h =
      let counted = hits-refs prv.map id pid pid_max lt in
      let own = ecm_entry pid (prv.map pid).type (prv.map pid).target found in
      let at = c.points pid lt in
      elim (Bool-cases (is_decryptor id (prv.map pid).target)) [
        | inr elsewhere ↦ rw elsewhere refl
        | inl here ↦ elim (Bool-cases (is_ecm (prv.map pid).type)) [
          | inl is ↦ let e = h (own here is at) in ground (arith, here, is, e)
          | inr not_ecm ↦ ground (arith, here, not_ecm, counted, none_left)
        ]
      ]

  alone :
      (pid : ℕ)
      → pid < pid_max
      → find_dec id prv.decrypt ≡ some d
      → refs prv.map id pid_max ≡ 0
      → Counted held prv
      → (is_decryptor id (disowned.map pid).target
          && (is_other (disowned.map pid).type || is_ecm (disowned.map pid).type))
        ≡ false
  alone pid lt found none_left c =
      let entry = prv.map d.ecm_pid in
      let name = find_dec-id id prv.decrypt d found in
      elim (Bool-cases (is_ecm entry.type && is_decryptor d.id entry.target)) [
        | inl own ↦ elim (Bool-cases (pid == d.ecm_pid)) [
          | inl same ↦ rw (own, same) refl
          | inr differ ↦
              rw (own, differ)
                (unseen pid lt found none_left c (λ e. absurd (ground (arith, differ, e))))
        ]
        | inr alien ↦ rw alien (
            unseen pid lt found none_left c (λ e.
              subst (λ k. (is_ecm (prv.map k).type && is_decryptor id (prv.map k).target) ≡ false) e
                (subst (λ k. (is_ecm entry.type && is_decryptor k entry.target) ≡ false) name
                  alien)))
      ]

-- Someone lets a reference go that they held.
pub drop_ref-Counted :
    (held : ℕ → ℕ) (prv : Decoder) (id : ℕ) (d : DecryptorElem)
    → find_dec id prv.decrypt ≡ some d
    → Counted (bump id held) prv
    → (prv' : Decoder) × (drop_ref prv id ≡ some prv') × Counted held prv'
unfolding drop_ref remove_decryptor
drop_ref-Counted held prv id d found c =
    let count = c.exact id d found in
    let name = find_dec-id id prv.decrypt d found in
    let positive : (d.ref == 0) ≡ false = ground (arith, count) in
    elim (Bool-cases (d.ref == 1)) [
      | inl last ↦
          let none_left : refs prv.map id pid_max ≡ 0 = ground (arith, count, last) in
          (
            remove_decryptor prv (set_ref 0 d),
            rw (drop_ref, found, positive, last) refl,
            subst
                (λ k.
                  Counted held
                    (record (disowned held prv id d) { decrypt = unlink_dec k prv.decrypt }))
                (sym name)
                (unlink-Counted (bump id held) held (disowned held prv id d) id
                  (λ pid lt. alone (bump id held) prv id d pid lt found none_left c)
                  (λ j differ. ground (arith, differ)) (ground (arith, count, last))
                  (disowned-Counted (bump id held) prv id d found c)),
          )
      | inr more ↦ (
        record prv { decrypt = update_dec id (set_ref (d.ref - 1)) prv.decrypt },
        rw (drop_ref, found, positive, more) refl,
        update-Counted (bump id held) held prv id (d.ref - 1) d found (ground (arith, count))
            (λ j differ. ground (arith, differ)) c,
      )
    ]

-- A pointer to nothing is bound to a decryptor.
pub add_binding-Counted :
    (held : ℕ → ℕ) (prv : Decoder) (pid : ℕ) (id : ℕ) (d : DecryptorElem)
    → pid < pid_max
    → (prv.map pid).type ≡ other
    → (prv.map pid).target ≡ null
    → find_dec id prv.decrypt ≡ some d
    → Counted held prv
    → (prv' : Decoder) × (add_binding prv pid (some id) ≡ some prv') × Counted held prv'
unfolding add_binding set_target
add_binding-Counted held prv pid id d lt is_stream empty found c =
    let entry : PidMap = record (prv.map pid) { target = decryptor id } in
    let raised : Decoder = record prv {
      decrypt = update_dec id (set_ref (d.ref + 1)) prv.decrypt;
    } in
    (
      replace raised pid entry,
      rw (add_binding, found) refl,
      replace-Counted (bump id held) held raised pid entry lt
          (λ j. ground (arith, is_stream, empty))
          (rw is_stream
            (set_ref (d.ref + 1) d, find_dec-update_same id (d.ref + 1) prv.decrypt d found))
          (update-Counted held (bump id held) prv id (d.ref + 1) d found (ground arith)
            (λ j differ. ground (arith, differ)) c),
    )
