-- ===== src/Decoder/Decryptor/Replaced.antt =====
-- b1/arib_std_b1.c: a reference is dropped and the entry that held it replaced.
use mathlib.Core.Path.{subst, fun_ext}
use recskapa.Base.{ℕ, ◌-◌, ◌≡◌, refl, sym, ap, ◌∙◌, arith, ◌==◌, if◌then◌else◌}
use recskapa.Base.{false, ◌&&◌, Bool-cases, some-injective, inl, inr, some}
use recskapa.Decoder.{unknown, null, PidMap, DecryptorElem, Decoder, set_map}
use recskapa.Decoder.Decryptor.{find_dec, update_dec, unlink_dec, set_ref, is_ecm, is_decryptor}
use recskapa.Decoder.Decryptor.{drop_ref, remove_decryptor}
use recskapa.Decoder.Decryptor.Counted.{Counted, bump, replace}
use recskapa.Decoder.Decryptor.Steps.{drop_ref-Counted}

-- What `remove_decryptor` does to the map.
abbrev removed : (ℕ → PidMap) → DecryptorElem → ℕ → PidMap
removed map dec =
    let entry = map dec.ecm_pid in
    if is_ecm entry.type && is_decryptor dec.id entry.target
    then set_map map dec.ecm_pid (record entry { type = unknown; target = null })
    else map

removed_at :
    (map : ℕ → PidMap) (dec : DecryptorElem) (pid : ℕ)
    → is_ecm (map pid).type ≡ false
    → removed map dec pid ≡ map pid
removed_at map dec pid h =
    let entry = map dec.ecm_pid in
    elim (Bool-cases (is_ecm entry.type && is_decryptor dec.id entry.target)) [
      | inr alien ↦ rw alien refl
      | inl own ↦ elim (Bool-cases (pid == dec.ecm_pid)) [
        | inl same ↦
            let e : dec.ecm_pid ≡ pid = ground arith in
            absurd (ground (arith, own, h, ap (λ k. is_ecm (map k).type) e))
        | inr differ ↦ rw (own, differ) refl
      ]
    ]

removed_replace :
    (map : ℕ → PidMap) (dec : DecryptorElem) (pid : ℕ) (entry : PidMap)
    → is_ecm (map pid).type ≡ false
    → is_ecm entry.type ≡ false
    → removed (set_map map pid entry) dec ≡ set_map (removed map dec) pid entry
removed_replace map dec pid entry h k = elim (Bool-cases (dec.ecm_pid == pid)) [
  | inl same ↦
      let e : dec.ecm_pid ≡ pid = ground arith in
      let alien : (is_ecm (map dec.ecm_pid).type && is_decryptor dec.id (map dec.ecm_pid).target)
          ≡ false =
        ground (arith, h, ap (λ n. is_ecm (map n).type) e) in
      rw (same, k, alien) refl
  | inr differ ↦
      elim (Bool-cases
        (is_ecm (map dec.ecm_pid).type && is_decryptor dec.id (map dec.ecm_pid).target)) [
          | inr alien ↦ rw (differ, alien) refl
          | inl own ↦ rw (differ, own) (fun_ext (λ i. at i differ))
        ]
]
  where
    at :
        (i : ℕ)
        → (dec.ecm_pid == pid) ≡ false
        → set_map
            (set_map map pid entry)
            dec.ecm_pid
            (record (map dec.ecm_pid) { type = unknown; target = null })
            i
          ≡ set_map
              (set_map map dec.ecm_pid (record (map dec.ecm_pid) { type = unknown; target = null }))
              pid
              entry
              i
    at i differ = elim (Bool-cases (i == pid)) [
      | inl here ↦ let there : (i == dec.ecm_pid) ≡ false = ground arith in rw (here, there) refl
      | inr elsewhere ↦ rw elsewhere refl
    ]

-- The reference of an entry is dropped, and the entry replaced by one that counts nothing.
pub drop_replaced :
    (held : ℕ → ℕ) (prv : Decoder) (pid id : ℕ) (d : DecryptorElem) (entry : PidMap)
    → is_ecm (prv.map pid).type ≡ false
    → is_ecm entry.type ≡ false
    → find_dec id prv.decrypt ≡ some d
    → Counted (bump id held) (replace prv pid entry)
    → (prv' : Decoder) × (drop_ref prv id ≡ some prv')
      × (prv'.map pid ≡ prv.map pid)
      × Counted held (replace prv' pid entry)
unfolding drop_ref remove_decryptor
drop_replaced held prv pid id d entry h k found c =
    let (after, dropped, counted) = drop_ref-Counted held (replace prv pid entry) id d found c in
    elim (Bool-cases (d.ref == 0)) [
      | inl zero_ref ↦ absurd (ground (arith, dropped, found, zero_ref))
      | inr positive ↦ elim (Bool-cases (d.ref == 1)) [
        | inl last ↦
            let same : remove_decryptor (replace prv pid entry) (set_ref 0 d) ≡ after =
              let e : drop_ref (replace prv pid entry) id
                  ≡ some (remove_decryptor (replace prv pid entry) (set_ref 0 d)) =
                rw (drop_ref, found, positive, last) refl in
              some-injective (sym e ∙ dropped) in
            (
              remove_decryptor prv (set_ref 0 d),
              rw (drop_ref, found, positive, last) refl,
              removed_at prv.map d pid h,
              subst
                  (λ m.
                    Counted held (record prv { map = m; decrypt = unlink_dec d.id prv.decrypt }))
                  (removed_replace prv.map d pid entry h k)
                  (subst (λ x. Counted held x) (sym same) counted),
            )
        | inr more ↦
            let same : record (replace prv pid entry) {
              decrypt = update_dec id (set_ref (d.ref - 1)) prv.decrypt;
            }
                ≡ after =
              let e : drop_ref (replace prv pid entry) id
                  ≡ some (record (replace prv pid entry) {
                    decrypt = update_dec id (set_ref (d.ref - 1)) prv.decrypt;
                  }) =
                rw (drop_ref, found, positive, more) refl in
              some-injective (sym e ∙ dropped) in
            (
              record prv { decrypt = update_dec id (set_ref (d.ref - 1)) prv.decrypt },
              rw (drop_ref, found, positive, more) refl,
              refl,
              subst (λ x. Counted held x) (sym same) counted,
            )
      ]
    ]
