-- ===== src/Decoder/Decryptor/Set.antt =====
-- b1/arib_std_b1.c: the decryptor of an identifier is found or made, and the counts stay right.
use mathlib.Core.Path.{subst, fun_ext}
use recskapa.Base.{ℕ, ◌+◌, ◌<◌, ◌≡◌, ◌⊎◌, refl, ◌∙◌, arith, ◌==◌, if◌then◌else◌}
use recskapa.Base.{Bool, true, false, ◌&&◌, Bool-cases, inl, inr, List, Option, some, none}
use recskapa.Section.Parser.Methods.{create_ts_section_parser}
use recskapa.Decoder.{
  PidType, unknown, pat, pmt, emm, cat, ecm, other, Target, null, program, decryptor, PidMap,
  DecryptorElem, Decoder, set_map,
}
use recskapa.Decoder.Decryptor.{
  find_dec, is_other, is_ecm, is_decryptor, drop_target, set_decryptor,
}
use recskapa.Decoder.Decryptor.Refs.{pid_max, hits}
use recskapa.Decoder.Decryptor.Counted.{PointsTo, Counted, bump, replace, replace-Counted}
use recskapa.Decoder.Decryptor.Replaced.{drop_replaced}
use recskapa.Decoder.Decryptor.Streams.{stream_target, drop_target-null, drop_target-decryptor}
use recskapa.Decoder.Decryptor.Bind.{drop_ref-others}
use recskapa.Decoder.Decryptor.Append.{
  hits_used, unused_id, appended, appended_found, appended-Counted,
}

abbrev pub made : Decoder → ℕ → DecryptorElem
made prv pid = record {
  id = prv.next_id;
  ref = 0;
  phase = 0;
  locked = 0;
  ecm_pid = pid;
  ecm = create_ts_section_parser;
  m2 = none;
  unpurchased = 0;
  last_error = 0;
}

abbrev pub asked : Decoder → Decoder
asked prv = record prv { allocs = prv.allocs + 2 }

abbrev pub owned : PidMap → ℕ → PidMap
owned entry id = record entry { type = ecm; target = decryptor id }

-- The reference of the entry is dropped, if the source drops one.
abbrev pub left_entry : Decoder → ℕ → Option Decoder
left_entry prv pid =
    let entry = prv.map pid in
    if is_other entry.type then drop_target prv entry.target else some prv

pub set_map_twice :
    (map : ℕ → PidMap) (pid : ℕ) (x y : PidMap)
    → set_map (set_map map pid x) pid y ≡ set_map map pid y
set_map_twice map pid x y = fun_ext (λ i. ground arith)

ecm_target :
    (ds : List DecryptorElem) (pid : ℕ) (t : PidType) (target : Target)
    → is_ecm t ≡ true
    → PointsTo ds pid t target
    → (target ≡ null)
      ⊎ ((id : ℕ) × (d : DecryptorElem) × (target ≡ decryptor id)
          × (find_dec id ds ≡ some d)
          × (d.ecm_pid ≡ pid))
ecm_target ds pid ecm null h p = inl refl
ecm_target ds pid ecm (program i) h p = absurd (omega arith)
ecm_target ds pid ecm (decryptor id) h (d, found, own) = inr (id, d, refl, found, own)
ecm_target ds pid unknown target h p = absurd (ground (arith, h))
ecm_target ds pid pat target h p = absurd (ground (arith, h))
ecm_target ds pid pmt target h p = absurd (ground (arith, h))
ecm_target ds pid other target h p = absurd (ground (arith, h))
ecm_target ds pid emm target h p = absurd (ground (arith, h))
ecm_target ds pid cat target h p = absurd (ground (arith, h))

-- An entry that counts as no reference is given to a decryptor of its identifier.
owned-Counted :
    (held : ℕ → ℕ) (prv : Decoder) (pid n : ℕ) (new : DecryptorElem)
    → pid < pid_max
    → find_dec n prv.decrypt ≡ some new
    → new.ecm_pid ≡ pid
    → ((id : ℕ) → hits id (prv.map pid) ≡ 0)
    → Counted held prv
    → Counted held (replace prv pid (owned (prv.map pid) n))
owned-Counted held prv pid n new lt found own none_left c =
    replace-Counted held held prv pid (owned (prv.map pid) n) lt (λ id. omega (arith, none_left id))
      (new, found, own) c

-- The entry leaves what it refers to, and is given to a decryptor of its identifier.
left_entry-owned :
    (held : ℕ → ℕ) (prv : Decoder) (pid n : ℕ) (new : DecryptorElem)
    → pid < pid_max
    → find_dec n prv.decrypt ≡ some new
    → new.ecm_pid ≡ pid
    → (is_other (prv.map pid).type && is_decryptor n (prv.map pid).target) ≡ false
    → Counted held prv
    → (prv' : Decoder) × (left_entry prv pid ≡ some prv')
      × (find_dec n prv'.decrypt ≡ some new)
      × Counted held (replace prv' pid (owned (prv'.map pid) n))
left_entry-owned held prv pid n new lt found own apart c =
    let entry : PidMap = prv.map pid in
    elim (Bool-cases (is_other entry.type)) [
      | inr alien ↦ (
        prv,
        rw alien refl,
        found,
        owned-Counted held prv pid n new lt found own (λ id. rw alien refl) c,
      )
      | inl stream ↦
          elim (stream_target prv.decrypt pid entry.type entry.target stream (c.points pid lt)) [
            | inl empty ↦ (
              prv,
              rw stream (drop_target-null prv entry.target empty),
              found,
              owned-Counted held prv pid n new lt found own (λ id. rw (stream, empty) refl) c,
            )
            | inr (old, d, at, was) ↦
                let cleared : PidMap = record entry { type = unknown; target = null } in
                let differ : (old == n) ≡ false = ground (arith, apart, stream, at) in
                let gone : Counted (bump old held) (replace prv pid cleared) =
                  replace-Counted held (bump old held) prv pid cleared lt
                    (λ j. ground (arith, at, stream)) refl c in
                let (after, dropped, kept, counted) =
                  drop_replaced held prv pid old d cleared (ground (arith, stream)) refl was gone in
                let found' : find_dec n after.decrypt ≡ some new =
                  drop_ref-others prv after old n differ dropped ∙ found in
                let final : PidMap = owned (after.map pid) n in
                let c' : Counted held (replace (replace after pid cleared) pid final) =
                  replace-Counted held held (replace after pid cleared) pid final lt
                    (λ j. ground arith) (new, found', own) counted in
                (
                  after,
                  rw stream (drop_target-decryptor prv after entry.target old at dropped),
                  found',
                  subst (λ m. Counted held (record after { map = m }))
                      (set_map_twice after.map pid cleared final) c',
                )
          ]
    ]

module _ (memory : ℕ → Bool) where
  abbrev pub refused : Decoder → Decoder
  refused prv = record prv { allocs = prv.allocs + (if memory prv.allocs then 2 else 1) }

  pub set_refused :
      (prv : Decoder) (pid : ℕ)
      → (is_ecm (prv.map pid).type ≡ false) ⊎ ((prv.map pid).target ≡ null)
      → (memory prv.allocs && memory (prv.allocs + 1)) ≡ false
      → set_decryptor memory prv pid ≡ some (none, refused prv)
  unfolding set_decryptor
  set_refused prv pid (inl alien) short = rw (set_decryptor, alien, short) refl
  set_refused prv pid (inr empty) short = elim (Bool-cases (is_ecm (prv.map pid).type)) [
    | inl own ↦ rw (set_decryptor, own, empty, short) refl
    | inr alien ↦ rw (set_decryptor, alien, short) refl
  ]

  pub set_made :
      (prv prv' : Decoder) (pid : ℕ)
      → (is_ecm (prv.map pid).type ≡ false) ⊎ ((prv.map pid).target ≡ null)
      → (memory prv.allocs && memory (prv.allocs + 1)) ≡ true
      → left_entry (appended (asked prv) (made prv pid)) pid ≡ some prv'
      → set_decryptor memory prv pid
        ≡ some (some prv.next_id, replace prv' pid (owned (prv'.map pid) prv.next_id))
  unfolding set_decryptor
  set_made prv prv' pid (inl alien) enough left = rw (set_decryptor, alien, enough, left) refl
  set_made prv prv' pid (inr empty) enough left = elim (Bool-cases (is_ecm (prv.map pid).type)) [
    | inl own ↦ rw (set_decryptor, own, empty, enough, left) refl
    | inr alien ↦ rw (set_decryptor, alien, enough, left) refl
  ]

  -- The cases in which a pointer to something else is followed.
  pub set_nowhere :
      (prv : Decoder) (pid : ℕ)
      → (is_ecm (prv.map pid).type ≡ false) ⊎ ((prv.map pid).target ≡ null)
      → (memory prv.allocs && memory (prv.allocs + 1)) ≡ true
      → left_entry (appended (asked prv) (made prv pid)) pid ≡ none
      → set_decryptor memory prv pid ≡ none
  unfolding set_decryptor
  set_nowhere prv pid (inl alien) enough left = rw (set_decryptor, alien, enough, left) refl
  set_nowhere prv pid (inr empty) enough left = elim (Bool-cases (is_ecm (prv.map pid).type)) [
    | inl own ↦ rw (set_decryptor, own, empty, enough, left) refl
    | inr alien ↦ rw (set_decryptor, alien, enough, left) refl
  ]

  pub set_wrong :
      (prv : Decoder) (pid i : ℕ)
      → is_ecm (prv.map pid).type ≡ true
      → (prv.map pid).target ≡ program i
      → set_decryptor memory prv pid ≡ none
  unfolding set_decryptor
  set_wrong prv pid i own at = rw (set_decryptor, own, at) refl

  pub set_found :
      (prv : Decoder) (pid id : ℕ)
      → is_ecm (prv.map pid).type ≡ true
      → (prv.map pid).target ≡ decryptor id
      → set_decryptor memory prv pid ≡ some (some id, prv)
  unfolding set_decryptor
  set_found prv pid id own at = rw (set_decryptor, own, at) refl

  -- NULL is returned where a request for memory is refused, and an address is that of a decryptor of
  -- the list for the identifier.
  abbrev pub AnswersFor : Decoder → Decoder → ℕ → Option ℕ → Type 0
  AnswersFor prv prv' pid none = (memory prv.allocs && memory (prv.allocs + 1)) ≡ false
  AnswersFor prv prv' pid (some id) =
      (d : DecryptorElem) × (find_dec id prv'.decrypt ≡ some d) × (d.ecm_pid ≡ pid)

  -- A call ends, and leaves the counts right.
  abbrev pub Sets : (ℕ → ℕ) → Decoder → ℕ → Type 0
  Sets held prv pid =
      (r : Option ℕ) × (prv' : Decoder) × (set_decryptor memory prv pid ≡ some (r, prv'))
      × Counted held prv'
      × AnswersFor prv prv' pid r

  without_owner :
      (held : ℕ → ℕ) (prv : Decoder) (pid : ℕ)
      → pid < pid_max
      → held prv.next_id ≡ 0
      → (is_ecm (prv.map pid).type ≡ false) ⊎ ((prv.map pid).target ≡ null)
      → Counted held prv
      → Sets held prv pid
  without_owner held prv pid lt unheld free c =
      let c1 : Counted held (asked prv) = record {
        exact = c.exact;
        points = c.points;
        fresh = c.fresh;
        alive = c.alive;
      } in
      elim (Bool-cases (memory prv.allocs && memory (prv.allocs + 1))) [
        | inr short ↦ (
          none,
          refused prv,
          set_refused prv pid free short,
          record { exact = c.exact; points = c.points; fresh = c.fresh; alive = c.alive },
          short,
        )
        | inl enough ↦
            let new : DecryptorElem = made prv pid in
            let (prv', left, found, counted) =
              left_entry-owned held (appended (asked prv) new) pid prv.next_id new lt
                (appended_found held (asked prv) new refl c1) refl
                (hits_used held prv (prv.map pid).type (prv.map pid).target pid prv.next_id c
                  (c.points pid lt) (unused_id held prv c))
                (appended-Counted held (asked prv) new refl refl lt unheld c1) in
            (
              some prv.next_id,
              replace prv' pid (owned (prv'.map pid) prv.next_id),
              set_made prv prv' pid free enough left,
              counted,
              (new, found, refl),
            )
      ]

  -- Where the identifier is below the number of identifiers, no one holds the next address and the
  -- counts are right, the call ends and leaves them right; an address that it returns is that of a
  -- decryptor in the list for the identifier, and it returns NULL only where memory is refused.
  pub set_decryptor-Counted :
      (held : ℕ → ℕ) (prv : Decoder) (pid : ℕ)
      → pid < pid_max
      → held prv.next_id ≡ 0
      → Counted held prv
      → Sets held prv pid
  set_decryptor-Counted held prv pid lt unheld c = elim (Bool-cases (is_ecm (prv.map pid).type)) [
    | inr alien ↦ without_owner held prv pid lt unheld (inl alien) c
    | inl own ↦
        elim (ecm_target prv.decrypt pid (prv.map pid).type (prv.map pid).target own
          (c.points pid lt)) [
            | inl empty ↦ without_owner held prv pid lt unheld (inr empty) c
            | inr (id, d, at, found, same) ↦
                (some id, prv, set_found prv pid id own at, c, (d, found, same))
          ]
  ]
