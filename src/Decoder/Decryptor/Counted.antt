-- ===== src/Decoder/Decryptor/Counted.antt =====
-- b1/arib_std_b1.c: a decryptor's count of references is the number of entries that refer to it.
use mathlib.Core.Path.{subst}
use recskapa.Base.{ℕ, ◌+◌, ◌≤◌, ◌<◌, ◌≡◌, ◌≢◌, refl, sym, ap, ◌∙◌, arith, ◌==◌, if◌then◌else◌}
use recskapa.Base.{true, false, ◌&&◌, ◌||◌, Bool-cases, inl, inr, List, some}
use recskapa.Decoder.{
  PidType, unknown, pat, pmt, emm, cat, ecm, other, Target, null, program, decryptor, PidMap,
  DecryptorElem, Decoder, set_map,
}
use recskapa.Decoder.Decryptor.{
  find_dec, update_dec, unlink_dec, set_ref, is_other, is_ecm, is_decryptor,
}
use recskapa.Decoder.Decryptor.Refs.{pid_max, hits, refs, refs-set}
use recskapa.Decoder.Decryptor.Refs.{
  find_dec-update_same, find_dec-update_other, find_dec-unlink_same, find_dec-unlink_other,
}

-- An entry of the type for streams points to a decryptor in the list or to nothing; one of the type
-- for an ECM does too, and then to the decryptor of its identifier. One for a PMT may point to
-- anything, and the others to nothing.
abbrev pub PointsTo : List DecryptorElem → ℕ → PidType → Target → Type 0
PointsTo ds pid other null = Unit {0}
PointsTo ds pid other (program i) = 1 ≤ 0
PointsTo ds pid other (decryptor id) = (d : DecryptorElem) × (find_dec id ds ≡ some d)
PointsTo ds pid ecm null = Unit {0}
PointsTo ds pid ecm (program i) = 1 ≤ 0
PointsTo ds pid ecm (decryptor id) =
    (d : DecryptorElem) × (find_dec id ds ≡ some d) × (d.ecm_pid ≡ pid)
PointsTo ds pid pmt target = Unit {0}
PointsTo ds pid _ target = target ≡ null

-- Where `held` counts the references that are not entries of the map.
pub record Counted (held : ℕ → ℕ) (prv : Decoder) : Type 0 where
  pub exact :
      (id : ℕ) (d : DecryptorElem)
      → find_dec id prv.decrypt ≡ some d
      → d.ref ≡ refs prv.map id pid_max + held id
  pub points :
      (pid : ℕ) → pid < pid_max → PointsTo prv.decrypt pid (prv.map pid).type (prv.map pid).target
  pub fresh :
      (id : ℕ) (d : DecryptorElem)
      → find_dec id prv.decrypt ≡ some d
      → (id < prv.next_id) × (d.ecm_pid < pid_max)
  pub alive : (id : ℕ) → held id ≢ 0 → (d : DecryptorElem) × (find_dec id prv.decrypt ≡ some d)

-- One more reference to a decryptor.
abbrev pub bump : ℕ → (ℕ → ℕ) → ℕ → ℕ
bump id held j = (if id == j then 1 else 0) + held j

abbrev pub no_one : ℕ → ℕ
no_one id = 0

abbrev pub replace : Decoder → ℕ → PidMap → Decoder
replace prv pid entry = record prv { map = set_map prv.map pid entry }

pointed_alive :
    (ds : List DecryptorElem) (pid id : ℕ) (type : PidType) (target : Target)
    → PointsTo ds pid type target
    → (is_other type && is_decryptor id target) ≡ true
    → (d : DecryptorElem) × (find_dec id ds ≡ some d)
pointed_alive ds pid id other (decryptor i) (d, found) hit =
    let e : i ≡ id = ground (arith, hit) in (d, subst (λ k. find_dec k ds ≡ some d) e found)
pointed_alive ds pid id other null p hit = absurd (ground (arith, hit))
pointed_alive ds pid id other (program i) p hit = absurd (ground (arith, hit))
pointed_alive ds pid id unknown target p hit = absurd (ground (arith, hit))
pointed_alive ds pid id pat target p hit = absurd (ground (arith, hit))
pointed_alive ds pid id pmt target p hit = absurd (ground (arith, hit))
pointed_alive ds pid id ecm target p hit = absurd (ground (arith, hit))
pointed_alive ds pid id emm target p hit = absurd (ground (arith, hit))
pointed_alive ds pid id cat target p hit = absurd (ground (arith, hit))

-- An entry is replaced, and what it no longer counts is held.
pub replace-Counted :
    (held held' : ℕ → ℕ) (prv : Decoder) (pid : ℕ) (entry : PidMap)
    → pid < pid_max
    → ((id : ℕ) → hits id entry + held' id ≡ hits id (prv.map pid) + held id)
    → PointsTo prv.decrypt pid entry.type entry.target
    → Counted held prv
    → Counted held' (replace prv pid entry)
replace-Counted held held' prv pid entry h moved new c = record {
  exact =
      λ id d e. omega (arith, c.exact id d e, moved id, refs-set prv.map id pid entry pid_max h);
  points = λ i lt. elim (Bool-cases (i == pid)) [
    | inl same ↦
        let e : i ≡ pid = ground arith in
        rw same (subst (λ k. PointsTo prv.decrypt k entry.type entry.target) (sym e) new)
    | inr differ ↦ rw differ (c.points i lt)
  ];
  fresh = c.fresh;
  alive = λ id held_id.
      let old = prv.map pid in
      elim (Bool-cases (is_other old.type && is_decryptor id old.target)) [
        | inl hit ↦ pointed_alive prv.decrypt pid id old.type old.target (c.points pid h) hit
        | inr miss ↦ c.alive id (λ e. held_id (ground (arith, moved id, miss, e)))
      ];
}

-- Pointers stay good where the decryptors that they point to stay.
pub PointsTo-kept :
    (ds ds' : List DecryptorElem) (pid : ℕ) (type : PidType) (target : Target)
    → ((id : ℕ) (d : DecryptorElem)
        → (is_decryptor id target && (is_other type || is_ecm type)) ≡ true
        → find_dec id ds ≡ some d
        → (d' : DecryptorElem) × (find_dec id ds' ≡ some d') × (d'.ecm_pid ≡ d.ecm_pid))
    → PointsTo ds pid type target
    → PointsTo ds' pid type target
PointsTo-kept ds ds' pid unknown target keep h = h
PointsTo-kept ds ds' pid pat target keep h = h
PointsTo-kept ds ds' pid pmt target keep h = tt
PointsTo-kept ds ds' pid emm target keep h = h
PointsTo-kept ds ds' pid cat target keep h = h
PointsTo-kept ds ds' pid other null keep h = tt
PointsTo-kept ds ds' pid other (program i) keep h = h
PointsTo-kept ds ds' pid other (decryptor id) keep (d, found) =
    let (d', found', same) = keep id d (ground arith) found in (d', found')
PointsTo-kept ds ds' pid ecm null keep h = tt
PointsTo-kept ds ds' pid ecm (program i) keep h = h
PointsTo-kept ds ds' pid ecm (decryptor id) keep (d, found, own) =
    let (d', found', same) = keep id d (ground arith) found in (d', found', same ∙ own)

find_dec-update :
    (id n j : ℕ) (ds : List DecryptorElem) (d : DecryptorElem)
    → find_dec j ds ≡ some d
    → (d' : DecryptorElem) × (find_dec j (update_dec id (set_ref n) ds) ≡ some d')
      × (d'.ecm_pid ≡ d.ecm_pid)
find_dec-update id n j ds d found = elim (Bool-cases (id == j)) [
  | inl same ↦
      let e : j ≡ id = ground arith in
      (
        set_ref n d,
        subst (λ k. find_dec k (update_dec id (set_ref n) ds) ≡ some (set_ref n d)) (sym e)
            (find_dec-update_same id n ds d (subst (λ k. find_dec k ds ≡ some d) e found)),
        refl,
      )
  | inr differ ↦ (d, find_dec-update_other id j n ds differ ∙ found, refl)
]

-- A count of references is changed, and what it no longer counts is not held any more.
pub update-Counted :
    (held held' : ℕ → ℕ) (prv : Decoder) (id n : ℕ) (d : DecryptorElem)
    → find_dec id prv.decrypt ≡ some d
    → n + held id ≡ d.ref + held' id
    → ((j : ℕ) → (id == j) ≡ false → held' j ≡ held j)
    → Counted held prv
    → Counted held' (record prv { decrypt = update_dec id (set_ref n) prv.decrypt })
update-Counted held held' prv id n d found moved others c = record {
  exact = λ j e found'. exact j e found';
  points = λ pid lt.
      PointsTo-kept prv.decrypt (update_dec id (set_ref n) prv.decrypt) pid (prv.map pid).type
        (prv.map pid).target (λ j e hit was. find_dec-update id n j prv.decrypt e was)
        (c.points pid lt);
  fresh = λ j e found'. fresh j e found';
  alive = λ j held_j. alive j held_j;
}
  where
    alive :
        (j : ℕ)
        → held' j ≢ 0
        → (e : DecryptorElem) × (find_dec j (update_dec id (set_ref n) prv.decrypt) ≡ some e)
    alive j held_j = elim (Bool-cases (id == j)) [
      | inl same ↦
          let at : id ≡ j = ground arith in
          let (e, found', own) =
            find_dec-update id n j prv.decrypt d
              (subst (λ k. find_dec k prv.decrypt ≡ some d) at found) in
          (e, found')
      | inr differ ↦
          let (e, was) = c.alive j (λ z. held_j (others j differ ∙ z)) in
          let (e', found', own) = find_dec-update id n j prv.decrypt e was in (e', found')
    ]

    exact :
        (j : ℕ) (e : DecryptorElem)
        → find_dec j (update_dec id (set_ref n) prv.decrypt) ≡ some e
        → e.ref ≡ refs prv.map j pid_max + held' j
    exact j e found' = elim (Bool-cases (id == j)) [
      | inl same ↦
          let at : j ≡ id = ground arith in
          let new : set_ref n d ≡ e = ground (
            arith,
            found',
            find_dec-update_same id n prv.decrypt d found,
            ap (λ k. find_dec k (update_dec id (set_ref n) prv.decrypt)) at,
          ) in
          let old = c.exact id d found in
          subst (λ (x : DecryptorElem). x.ref ≡ refs prv.map j pid_max + held' j) new
            (subst (λ (k : ℕ). n ≡ refs prv.map k pid_max + held' k) (sym at)
              (omega (arith, old, moved)))
      | inr differ ↦
          let old = c.exact j e (sym (find_dec-update_other id j n prv.decrypt differ) ∙ found') in
          omega (arith, old, others j differ)
    ]

    fresh :
        (j : ℕ) (e : DecryptorElem)
        → find_dec j (update_dec id (set_ref n) prv.decrypt) ≡ some e
        → (j < prv.next_id) × (e.ecm_pid < pid_max)
    fresh j e found' = elim (Bool-cases (id == j)) [
      | inl same ↦
          let at : j ≡ id = ground arith in
          let new : set_ref n d ≡ e = ground (
            arith,
            found',
            find_dec-update_same id n prv.decrypt d found,
            ap (λ k. find_dec k (update_dec id (set_ref n) prv.decrypt)) at,
          ) in
          (
            omega (arith, at, c.fresh id d found),
            subst (λ (x : DecryptorElem). x.ecm_pid < pid_max) new (c.fresh id d found).1,
          )
      | inr differ ↦ c.fresh j e (sym (find_dec-update_other id j n prv.decrypt differ) ∙ found')
    ]

unlink-other :
    (id j : ℕ) (ds : List DecryptorElem) (e : DecryptorElem)
    → find_dec j (unlink_dec id ds) ≡ some e
    → (id == j) ≡ false
unlink-other id j ds e found = elim (Bool-cases (id == j)) [
  | inl same ↦
      let at : j ≡ id = ground arith in
      absurd (
        ground
          (arith, found, find_dec-unlink_same id ds, ap (λ k. find_dec k (unlink_dec id ds)) at))
  | inr differ ↦ differ
]

-- A decryptor to which nothing points is taken out of the list.
pub unlink-Counted :
    (held held' : ℕ → ℕ) (prv : Decoder) (id : ℕ)
    → ((pid : ℕ)
        → pid < pid_max
        → (is_decryptor id (prv.map pid).target
            && (is_other (prv.map pid).type || is_ecm (prv.map pid).type))
          ≡ false)
    → ((j : ℕ) → (id == j) ≡ false → held' j ≡ held j)
    → held' id ≡ 0
    → Counted held prv
    → Counted held' (record prv { decrypt = unlink_dec id prv.decrypt })
unlink-Counted held held' prv id alone others let_go c = record {
  exact = λ j e found.
      let differ = unlink-other id j prv.decrypt e found in
      let old = c.exact j e (sym (find_dec-unlink_other id j prv.decrypt differ) ∙ found) in
      omega (arith, old, others j differ);
  points = λ pid lt.
      PointsTo-kept prv.decrypt (unlink_dec id prv.decrypt) pid (prv.map pid).type
        (prv.map pid).target
        (λ j e hit was.
          let differ : (id == j) ≡ false = elim (Bool-cases (id == j)) [
            | inl same ↦
                let at : j ≡ id = ground arith in
                absurd (
                  ground
                    (arith, hit, alone pid lt, ap (λ k. is_decryptor k (prv.map pid).target) at))
            | inr differ ↦ differ
          ] in
          (e, find_dec-unlink_other id j prv.decrypt differ ∙ was, refl))
        (c.points pid lt);
  fresh = λ j e found.
      let differ = unlink-other id j prv.decrypt e found in
      c.fresh j e (sym (find_dec-unlink_other id j prv.decrypt differ) ∙ found);
  alive = λ j held_j. elim (Bool-cases (id == j)) [
    | inl same ↦ let at : id ≡ j = ground arith in absurd (held_j (ap held' (sym at) ∙ let_go))
    | inr differ ↦
        let (e, was) = c.alive j (λ z. held_j (others j differ ∙ z)) in
        (e, find_dec-unlink_other id j prv.decrypt differ ∙ was)
  ];
}
