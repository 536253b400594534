-- ===== src/Decoder/Decryptor/Append.antt =====
-- b1/arib_std_b1.c: a new decryptor is put into the list, and the counts stay right.
use mathlib.Core.Path.{subst}
use recskapa.Base.{ℕ, ◌+◌, ◌<◌, ◌≡◌, refl, sym, ap, ◌∙◌, arith, ◌==◌}
use recskapa.Base.{
  false, ◌&&◌, Bool-cases, Option-cases, some-injective, inl, inr, [], ◌∷◌, ◌++◌, some, none,
}
use recskapa.Decoder.{
  PidType, unknown, pat, pmt, emm, cat, ecm, other, Target, null, program, decryptor, DecryptorElem,
  Decoder,
}
use recskapa.Decoder.Decryptor.{find_dec, is_other, is_decryptor}
use recskapa.Decoder.Decryptor.Refs.{
  pid_max, refs, refs-none, find_dec-append_old, find_dec-append_new,
}
use recskapa.Decoder.Decryptor.Counted.{PointsTo, PointsTo-kept, Counted}

pub unused_id :
    (held : ℕ → ℕ) (prv : Decoder) → Counted held prv → find_dec prv.next_id prv.decrypt ≡ none
unused_id held prv c = elim (Option-cases (find_dec prv.next_id prv.decrypt)) [
  | inl nowhere ↦ nowhere
  | inr (d, found) ↦ absurd (omega (arith, (c.fresh prv.next_id d found).0))
]

pub hits_used :
    (held : ℕ → ℕ) (prv : Decoder) (type : PidType) (target : Target) (pid id : ℕ)
    → Counted held prv
    → PointsTo prv.decrypt pid type target
    → find_dec id prv.decrypt ≡ none
    → (is_other type && is_decryptor id target) ≡ false
hits_used held prv other (decryptor i) pid id c (d, found) unused = elim (Bool-cases (i == id)) [
  | inr differ ↦ differ
  | inl same ↦
      let e : i ≡ id = ground arith in
      absurd (ground (arith, found, unused, ap (λ k. find_dec k prv.decrypt) e))
]
hits_used held prv other null pid id c p unused = refl
hits_used held prv other (program i) pid id c p unused = refl
hits_used held prv unknown target pid id c p unused = refl
hits_used held prv pat target pid id c p unused = refl
hits_used held prv pmt target pid id c p unused = refl
hits_used held prv ecm target pid id c p unused = refl
hits_used held prv emm target pid id c p unused = refl
hits_used held prv cat target pid id c p unused = refl

-- A decryptor without references, at the next address.
abbrev pub appended : Decoder → DecryptorElem → Decoder
appended prv new = record prv { decrypt = prv.decrypt ++ (new ∷ []); next_id = prv.next_id + 1 }

pub appended_found :
    (held : ℕ → ℕ) (prv : Decoder) (new : DecryptorElem)
    → new.id ≡ prv.next_id
    → Counted held prv
    → find_dec prv.next_id (prv.decrypt ++ (new ∷ [])) ≡ some new
appended_found held prv new at c =
    subst (λ k. find_dec k (prv.decrypt ++ (new ∷ [])) ≡ some new) at
      (find_dec-append_new prv.decrypt new
        (subst (λ k. find_dec k prv.decrypt ≡ none) (sym at) (unused_id held prv c)))

appended_old :
    (held : ℕ → ℕ) (prv : Decoder) (new d : DecryptorElem) (j : ℕ)
    → new.id ≡ prv.next_id
    → Counted held prv
    → find_dec j prv.decrypt ≡ some d
    → find_dec j (prv.decrypt ++ (new ∷ [])) ≡ some d
appended_old held prv new d j at c found =
    let below = (c.fresh j d found).0 in
    find_dec-append_old j prv.decrypt new (ground (arith, below, at)) ∙ found

pub appended-Counted :
    (held : ℕ → ℕ) (prv : Decoder) (new : DecryptorElem)
    → new.id ≡ prv.next_id
    → new.ref ≡ 0
    → new.ecm_pid < pid_max
    → held prv.next_id ≡ 0
    → Counted held prv
    → Counted held (appended prv new)
appended-Counted held prv new at unref lt unheld c = record {
  exact = λ j e found. elim (Bool-cases (new.id == j)) [
    | inl same ↦
        let here : prv.next_id ≡ j = ground (arith, at) in
        let is : new ≡ e = some-injective (
          sym (appended_found held prv new at c)
          ∙ ap (λ k. find_dec k (prv.decrypt ++ (new ∷ []))) here
          ∙ found) in
        let count : refs prv.map prv.next_id pid_max ≡ 0 =
          refs-none prv.map prv.next_id pid_max (λ pid below.
            rw
              (hits_used held prv (prv.map pid).type (prv.map pid).target pid prv.next_id c
                (c.points pid below) (unused_id held prv c))
              refl) in
        subst (λ k. e.ref ≡ refs prv.map k pid_max + held k) here
          (omega (arith, count, unheld, unref, ap (λ (x : DecryptorElem). x.ref) is))
    | inr differ ↦ c.exact j e (sym (find_dec-append_old j prv.decrypt new differ) ∙ found)
  ];
  points = λ pid below.
      PointsTo-kept prv.decrypt (prv.decrypt ++ (new ∷ [])) pid (prv.map pid).type
        (prv.map pid).target (λ j e hit was. (e, appended_old held prv new e j at c was, refl))
        (c.points pid below);
  fresh = λ j e found. elim (Bool-cases (new.id == j)) [
    | inl same ↦
        let here : prv.next_id ≡ j = ground (arith, at) in
        let is : new ≡ e = some-injective (
          sym (appended_found held prv new at c)
          ∙ ap (λ k. find_dec k (prv.decrypt ++ (new ∷ []))) here
          ∙ found) in
        (omega (arith, here), subst (λ (x : DecryptorElem). x.ecm_pid < pid_max) is lt)
    | inr differ ↦
        let old = c.fresh j e (sym (find_dec-append_old j prv.decrypt new differ) ∙ found) in
        (omega (arith, old.0), old.1)
  ];
  alive = λ j held_j.
      let (d, found) = c.alive j held_j in (d, appended_old held prv new d j at c found);
}
