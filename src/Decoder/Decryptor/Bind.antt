-- ===== src/Decoder/Decryptor/Bind.antt =====
-- b1/arib_std_b1.c: streams are bound to decryptors, and the counts stay right.
use mathlib.Core.Path.{subst}
use recskapa.Base.{ℕ, ◌-◌, ◌<◌, ◌≡◌, refl, sym, ap, ◌∙◌, arith, ◌==◌}
use recskapa.Base.{true, false, Bool-cases, Option-cases, inl, inr, Option, some, none}
use recskapa.Decoder.{other, null, decryptor, PidMap, DecryptorElem, Decoder}
use recskapa.Decoder.Decryptor.{find_dec}
use recskapa.Decoder.Decryptor.{
  drop_ref, remove_decryptor, add_binding, set_target, bind_stream_decryptor,
}
use recskapa.Decoder.Decryptor.Refs.{
  pid_max, find_dec-id, find_dec-update_other, find_dec-unlink_other,
}
use recskapa.Decoder.Decryptor.Counted.{Counted, bump, replace, replace-Counted}
use recskapa.Decoder.Decryptor.Steps.{add_binding-Counted}
use recskapa.Decoder.Decryptor.Replaced.{drop_replaced}
use recskapa.Decoder.Decryptor.Streams.{stream_target}

pub drop_ref-others :
    (prv prv' : Decoder) (old id : ℕ)
    → (old == id) ≡ false
    → drop_ref prv old ≡ some prv'
    → find_dec id prv'.decrypt ≡ find_dec id prv.decrypt
unfolding drop_ref remove_decryptor
drop_ref-others prv prv' old id differ e = elim (Option-cases (find_dec old prv.decrypt)) [
  | inl nowhere ↦ absurd (ground (arith, e, nowhere))
  | inr (d, found) ↦
      let name = find_dec-id old prv.decrypt d found in
      let differ' : (d.id == id) ≡ false = ground (arith, name, differ) in
      ground (
        arith,
        e,
        found,
        find_dec-update_other old id (d.ref - 1) prv.decrypt differ,
        find_dec-unlink_other d.id id prv.decrypt differ',
      )
]

bind_moved :
    (prv prv1 prv2 : Decoder) (pid old : ℕ) (dec : Option ℕ)
    → (prv.map pid).target ≡ decryptor old
    → ((id : ℕ) → dec ≡ some id → (id == old) ≡ false)
    → drop_ref prv old ≡ some prv1
    → add_binding (set_target prv1 pid null) pid dec ≡ some prv2
    → bind_stream_decryptor prv pid dec ≡ some prv2
unfolding bind_stream_decryptor
bind_moved prv prv1 prv2 pid old none at differ dropped added =
    rw (bind_stream_decryptor, at, dropped) added
bind_moved prv prv1 prv2 pid old (some id) at differ dropped added =
    rw (bind_stream_decryptor, at, dropped, differ id refl) added

bind_empty :
    (prv : Decoder) (pid : ℕ) (dec : Option ℕ)
    → (prv.map pid).target ≡ null
    → bind_stream_decryptor prv pid dec ≡ add_binding prv pid dec
unfolding bind_stream_decryptor
bind_empty prv pid dec at = rw (bind_stream_decryptor, at) refl

bind_same :
    (prv : Decoder) (pid id : ℕ)
    → (prv.map pid).target ≡ decryptor id
    → bind_stream_decryptor prv pid (some id) ≡ some prv
unfolding bind_stream_decryptor
bind_same prv pid id at =
    let same : (id == id) ≡ true = ground arith in rw (bind_stream_decryptor, at, same) refl

-- A pointer to nothing is bound to a decryptor that is in the list, or left as it is.
add_binding_any :
    (held : ℕ → ℕ) (prv : Decoder) (pid : ℕ) (dec : Option ℕ)
    → pid < pid_max
    → (prv.map pid).type ≡ other
    → (prv.map pid).target ≡ null
    → ((id : ℕ) → dec ≡ some id → (d : DecryptorElem) × (find_dec id prv.decrypt ≡ some d))
    → Counted held prv
    → (prv' : Decoder) × (add_binding prv pid dec ≡ some prv') × Counted held prv'
unfolding add_binding
add_binding_any held prv pid none lt stream empty live c = (prv, refl, c)
add_binding_any held prv pid (some id) lt stream empty live c =
    let (d, found) = live id refl in add_binding-Counted held prv pid id d lt stream empty found c

-- An entry that points to a decryptor is bound to another one, or to none.
rebind :
    (held : ℕ → ℕ) (prv : Decoder) (pid old : ℕ) (d : DecryptorElem) (dec : Option ℕ)
    → pid < pid_max
    → (prv.map pid).type ≡ other
    → (prv.map pid).target ≡ decryptor old
    → find_dec old prv.decrypt ≡ some d
    → ((id : ℕ) → dec ≡ some id → (id == old) ≡ false)
    → ((id : ℕ) → dec ≡ some id → (e : DecryptorElem) × (find_dec id prv.decrypt ≡ some e))
    → Counted held prv
    → (prv' : Decoder) × (bind_stream_decryptor prv pid dec ≡ some prv') × Counted held prv'
unfolding set_target
rebind held prv pid old d dec lt stream at found differ live c =
    let cleared : PidMap = record (prv.map pid) { target = null } in
    let gone : Counted (bump old held) (replace prv pid cleared) =
      replace-Counted held (bump old held) prv pid cleared lt (λ j. ground (arith, at, stream))
        (rw stream tt) c in
    let (prv1, dropped, kept, counted) =
      drop_replaced held prv pid old d cleared (rw stream refl) (rw stream refl) found gone in
    let cleared1 : Counted held (set_target prv1 pid null) =
      subst (λ (e : PidMap). Counted held (replace prv1 pid (record e { target = null })))
        (sym kept) counted in
    let here : ((set_target prv1 pid null).map pid).type ≡ other = ground (arith, kept, stream) in
    let empty : ((set_target prv1 pid null).map pid).target ≡ null = ground arith in
    let still : (id : ℕ)
        → dec ≡ some id
        → (e : DecryptorElem) × (find_dec id prv1.decrypt ≡ some e) =
      λ id is.
        let (e, was) = live id is in
        let apart : (old == id) ≡ false = ground (arith, differ id is) in
        (e, drop_ref-others prv prv1 old id apart dropped ∙ was) in
    let (prv2, added, counted2) =
      add_binding_any held (set_target prv1 pid null) pid dec lt here empty still cleared1 in
    (prv2, bind_moved prv prv1 prv2 pid old dec at differ dropped added, counted2)

-- Where the identifier is below the number of identifiers and has an entry of a stream, the counts
-- are right and the decryptor, if one is given, is in the list, binding the stream to it, or to
-- none, ends, and leaves the counts right.
pub bind_stream_decryptor-Counted :
    (held : ℕ → ℕ) (prv : Decoder) (pid : ℕ) (dec : Option ℕ)
    → pid < pid_max
    → (prv.map pid).type ≡ other
    → ((id : ℕ) → dec ≡ some id → (d : DecryptorElem) × (find_dec id prv.decrypt ≡ some d))
    → Counted held prv
    → (prv' : Decoder) × (bind_stream_decryptor prv pid dec ≡ some prv') × Counted held prv'
bind_stream_decryptor-Counted held prv pid dec lt stream live c =
    elim (stream_target prv.decrypt pid (prv.map pid).type (prv.map pid).target (rw stream refl)
      (c.points pid lt)) [
        | inl empty ↦
            let (prv1, added, counted) = add_binding_any held prv pid dec lt stream empty live c in
            (prv1, bind_empty prv pid dec empty ∙ added, counted)
        | inr (old, d, at, found) ↦ go dec old d at found live
      ]
  where
    go :
        (dec : Option ℕ) (old : ℕ) (d : DecryptorElem)
        → (prv.map pid).target ≡ decryptor old
        → find_dec old prv.decrypt ≡ some d
        → ((id : ℕ) → dec ≡ some id → (e : DecryptorElem) × (find_dec id prv.decrypt ≡ some e))
        → (prv' : Decoder) × (bind_stream_decryptor prv pid dec ≡ some prv') × Counted held prv'
    go none old d at found live =
        rebind held prv pid old d none lt stream at found (λ id e. absurd (ground (arith, e))) live
          c
    go (some id) old d at found live = elim (Bool-cases (id == old)) [
      | inl same ↦
          let e : id ≡ old = ground arith in
          (prv, bind_same prv pid id (at ∙ ap decryptor (sym e)), c)
      | inr differ ↦
          rebind held prv pid old d (some id) lt stream at found (λ j e. ground (arith, e, differ))
            live c
    ]
