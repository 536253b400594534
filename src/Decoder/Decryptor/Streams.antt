-- ===== src/Decoder/Decryptor/Streams.antt =====
-- b1/arib_std_b1.c: streams are given up, and the counts stay right.
use mathlib.Core.Path.{subst}
use recskapa.Base.{ℕ, ◌+◌, ◌-◌, ◌^◌, ◌%◌, ◌<◌, ◌≡◌, ◌⊎◌, refl, sym, ap, ◌∙◌, arith, ltb}
use recskapa.Base.{true, Bool-cases, inl, inr, All, List, [], ◌∷◌, some}
use recskapa.Decoder.{
  PidType, unknown, pat, pmt, emm, cat, ecm, other, Target, null, program, decryptor, PidMap,
  DecryptorElem, Decoder,
}
use recskapa.Decoder.Decryptor.{find_dec, is_other, drop_target, reset_entry}
use recskapa.Decoder.Decryptor.{drop_ref, unref_stream, unref_all}
use recskapa.Decoder.Decryptor.Refs.{pid_max}
use recskapa.Decoder.Decryptor.Counted.{PointsTo, Counted, bump, replace, replace-Counted}
use recskapa.Stream.Elems.{StreamElem, put_stream_list_tail}
use recskapa.Decoder.Decryptor.Replaced.{drop_replaced}

other_type : (t : PidType) → is_other t ≡ true → t ≡ other
other_type t h = ground (arith, h)

-- What the pointer of a stream's entry can be.
pub stream_target :
    (ds : List DecryptorElem) (pid : ℕ) (t : PidType) (target : Target)
    → is_other t ≡ true
    → PointsTo ds pid t target
    → (target ≡ null)
      ⊎ ((id : ℕ) × (d : DecryptorElem) × (target ≡ decryptor id) × (find_dec id ds ≡ some d))
stream_target ds pid other null h p = inl refl
stream_target ds pid other (program i) h p = absurd (omega arith)
stream_target ds pid other (decryptor id) h (d, found) = inr (id, d, refl, found)
stream_target ds pid unknown target h p = absurd (ground (arith, h))
stream_target ds pid pat target h p = absurd (ground (arith, h))
stream_target ds pid pmt target h p = absurd (ground (arith, h))
stream_target ds pid ecm target h p = absurd (ground (arith, h))
stream_target ds pid emm target h p = absurd (ground (arith, h))
stream_target ds pid cat target h p = absurd (ground (arith, h))

pub drop_target-null :
    (prv : Decoder) (target : Target) → target ≡ null → drop_target prv target ≡ some prv
unfolding drop_target
drop_target-null prv target e = ap (drop_target prv) e

pub drop_target-decryptor :
    (prv prv' : Decoder) (target : Target) (id : ℕ)
    → target ≡ decryptor id
    → drop_ref prv id ≡ some prv'
    → drop_target prv target ≡ some prv'
unfolding drop_target
drop_target-decryptor prv prv' target id e dropped = ap (drop_target prv) e ∙ dropped

abbrev emptied : PidMap → PidMap
emptied entry = record entry { type = unknown; ref = 0; target = null }

abbrev counted_down : Decoder → ℕ → Decoder
counted_down prv pid =
    let entry = prv.map pid in
    replace prv pid (record entry { ref = (entry.ref + 2 ^ 32 - 1) % 2 ^ 32 })

unref_last :
    (prv prv' : Decoder) (pid : ℕ)
    → ltb (((prv.map pid).ref + 2 ^ 32 - 1) % 2 ^ 32) 1 ≡ true
    → is_other (prv.map pid).type ≡ true
    → drop_target (counted_down prv pid) (prv.map pid).target ≡ some prv'
    → unref_stream prv pid ≡ some (reset_entry prv' pid)
unfolding unref_stream
unref_last prv prv' pid last stream dropped = rw (unref_stream, last, stream, dropped) refl

-- Where an identifier is below the number of identifiers and the counts are right, giving up a
-- stream ends, and leaves them right.
pub unref_stream-Counted :
    (held : ℕ → ℕ) (prv : Decoder) (pid : ℕ)
    → pid < pid_max
    → Counted held prv
    → (prv' : Decoder) × (unref_stream prv pid ≡ some prv') × Counted held prv'
unfolding unref_stream reset_entry
unref_stream-Counted held prv pid lt c =
    let entry : PidMap = prv.map pid in
    let ref : ℕ = (entry.ref + 2 ^ 32 - 1) % 2 ^ 32 in
    let prv1 : Decoder = replace prv pid (record entry { ref = ref }) in
    let c1 : Counted held prv1 =
      replace-Counted held held prv pid (record entry { ref = ref }) lt (λ j. refl)
        (c.points pid lt) c in
    let here : prv1.map pid ≡ record entry { ref = ref } = ground arith in
    elim (Bool-cases (ltb ref 1)) [
      | inr used ↦ (prv1, rw (unref_stream, used) refl, c1)
      | inl last ↦ elim (Bool-cases (is_other entry.type)) [
        | inr alien ↦ (
          reset_entry prv1 pid,
          rw (unref_stream, last, alien) refl,
          replace-Counted held held prv1 pid (emptied (prv1.map pid)) lt
              (λ j. ground (arith, alien, here)) refl c1,
        )
        | inl stream ↦
            elim (stream_target prv.decrypt pid entry.type entry.target stream (c.points pid lt)) [
              | inl empty ↦ (
                reset_entry prv1 pid,
                unref_last prv prv1 pid last stream (drop_target-null prv1 entry.target empty),
                replace-Counted held held prv1 pid (emptied (prv1.map pid)) lt
                    (λ j. ground (arith, empty, here)) refl c1,
              )
              | inr (id, d, at, found) ↦
                  let gone : Counted (bump id held) (replace prv1 pid (emptied entry)) =
                    replace-Counted held (bump id held) prv1 pid (emptied entry) lt
                      (λ j. ground (arith, at, stream, here)) refl c1 in
                  let (after, dropped, kept, counted) =
                    drop_replaced held prv1 pid id d (emptied entry)
                      (ground (arith, here, other_type entry.type stream)) refl found gone in
                  (
                    reset_entry after pid,
                    unref_last prv after pid last stream
                        (drop_target-decryptor prv1 after entry.target id at dropped),
                    subst (λ e. Counted held (replace after pid (emptied e))) (sym (kept ∙ here))
                        counted,
                  )
            ]
      ]
    ]

-- Where the identifiers of the streams are below the number of identifiers and the counts are right,
-- giving up a list of streams ends, and leaves them right.
pub unref_all-Counted :
    (held : ℕ → ℕ) (prv : Decoder) (elems : List StreamElem)
    → All (λ (strm : StreamElem). strm.pid < pid_max) elems
    → Counted held prv
    → (prv' : Decoder) × (unref_all prv elems ≡ some prv') × Counted held prv'
unfolding unref_all
unref_all-Counted held prv [] h c = (prv, refl, c)
unref_all-Counted held prv (strm ∷ rest) (lt, h) c =
    let (prv1, gone, c1) = unref_stream-Counted held prv strm.pid lt c in
    let pooled : Decoder = record prv1 {
      strm_pool = put_stream_list_tail prv1.strm_pool (record { pid = 0; type = 0 });
    } in
    let (prv2, all_gone, c2) =
      unref_all-Counted held pooled rest h
        (record { exact = c1.exact; points = c1.points; fresh = c1.fresh; alive = c1.alive }) in
    (prv2, rw (unref_all, gone) all_gone, c2)
