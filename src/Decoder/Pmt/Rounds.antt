-- ===== src/Decoder/Pmt/Rounds.antt =====
-- b1/arib_std_b1.c: the rounds of the loop over the elementary streams keep the counts.
use mathlib.Core.Path.{subst}
use recskapa.Base.{ℕ, ◌+◌, ◌<◌, ◌≡◌, ◌≢◌, refl, ap, ◌∙◌, arith, ◌==◌, if◌then◌else◌}
use recskapa.Base.{
  All, List, [], ◌∷◌, Bool, true, false, ◌&&◌, Bool-cases, Option-cases, some-injective, inl, inr,
  Option, some, none,
}
use recskapa.Decoder.{other, PidMap, DecryptorElem, Decoder}
use recskapa.Decoder.Decryptor.{find_dec, select_active_decryptor}
use recskapa.Decoder.Decryptor.Bind.{bind_stream_decryptor-Counted}
use recskapa.Decoder.Decryptor.Counted.{Counted, replace, replace-Counted}
use recskapa.Decoder.Decryptor.Refs.{pid_max}
use recskapa.Decoder.Decryptor.Set.{AnswersFor, set_decryptor-Counted}
use recskapa.Decoder.Decryptor.SetTypes.{set_decryptor-NoNewBut}
use recskapa.Decoder.Decryptor.Types.{NoNew, bind_stream_decryptor-NoNew}
use recskapa.Decoder.Pmt.{
  PmtStream, take_stream, count_ref, add_ecm_stream, is_ecm_pid, Adding, add_ecm, bind_stream,
  add_stream, add_streams,
}
use recskapa.Decoder.Pmt.Parts.{
  is_table, become_other, unheld, pooled, pooled-Counted, take_stream-pooled, add_ecm_stream-Adds,
}
use recskapa.Stream.Elems.{StreamList, put_stream_list_tail}

-- An address, if it is one, is that of a decryptor in the list.
abbrev pub IsLive : Option ℕ → List DecryptorElem → Type 0
IsLive dec ds = (id : ℕ) → dec ≡ some id → (d : DecryptorElem) × (find_dec id ds ≡ some d)

abbrev pub is_ecm_of : ℕ → ℕ → Bool
is_ecm_of ecm_pid j = is_ecm_pid ecm_pid && j == ecm_pid

-- No entry but that of the ECM is newly one of a table.
abbrev pub Untouched : ℕ → Decoder → Decoder → Type 0
Untouched ecm_pid prv prv' =
    (j : ℕ)
    → is_ecm_of ecm_pid j ≡ false
    → is_table (prv.map j).type ≡ false
    → is_table (prv'.map j).type ≡ false

select-IsLive :
    (dec0 dec1 : Option ℕ) (pid : ℕ) (ds : List DecryptorElem)
    → IsLive dec0 ds
    → IsLive dec1 ds
    → IsLive (select_active_decryptor dec0 dec1 pid) ds
unfolding select_active_decryptor
select-IsLive dec0 (some b) pid ds live0 live1 = live1
select-IsLive dec0 none pid ds live0 live1 = elim (Bool-cases (pid == 0x1fff)) [
  | inl clear ↦ rw clear (λ id e. absurd (ground (arith, e)))
  | inr other_pid ↦ rw other_pid live0
]

module _ (memory : ℕ → Bool) where
  add_ecm_done :
      (held : ℕ → ℕ) (prv : Decoder) (streams : StreamList) (ecm_pid : ℕ)
      → ecm_pid < pid_max
      → Counted held prv
      → (dec1 : Option ℕ) × (a : Adding) × (add_ecm memory prv streams ecm_pid ≡ some (dec1, a))
        × Counted held a.prv
        × IsLive dec1 a.prv.decrypt
        × Untouched ecm_pid prv a.prv
  unfolding add_ecm
  add_ecm_done held prv streams ecm_pid lt c = elim (Bool-cases (is_ecm_pid ecm_pid)) [
    | inr clear ↦ (
      none,
      record { added = true; streams = streams; prv = prv },
      rw (add_ecm, clear) refl,
      c,
      λ id e. absurd (ground (arith, e)),
      λ j apart h. h,
    )
    | inl scrambled ↦
        let (r, prv1, set, c1, answer) =
          set_decryptor-Counted memory held prv ecm_pid lt (unheld held prv c) c in
        let kept = set_decryptor-NoNewBut memory is_table refl prv prv1 ecm_pid r set in
        let untouched : Untouched ecm_pid prv prv1 =
          λ j apart h. kept j (ground (arith, apart, scrambled)) h in
        elim (Option-cases r) [
          | inl refused ↦ (
            none,
            record { added = false; streams = streams; prv = prv1 },
            rw (add_ecm, scrambled, set, refused) refl,
            c1,
            λ id e. absurd (ground (arith, e)),
            untouched,
          )
          | inr (id, given) ↦
              let (d, found, own) =
                subst (λ x. AnswersFor memory prv prv1 ecm_pid x) given answer in
              let (added, streams2, prv2) = add_ecm_stream memory prv1 streams ecm_pid in
              let (c2, same, no_new) = add_ecm_stream-Adds memory held prv1 streams ecm_pid lt c1 in
              (
                some id,
                record { added = added; streams = streams2; prv = prv2 },
                rw (add_ecm, scrambled, set, given) refl,
                c2,
                λ j e. (
                  d,
                  subst (λ k. find_dec k prv2.decrypt ≡ some d) (some-injective e)
                      (ap (find_dec id) same ∙ found),
                ),
                λ j apart h. no_new j (untouched j apart h),
              )
        ]
  ]

  bind_stream_done :
      (held : ℕ → ℕ) (prv : Decoder) (dec0 dec1 : Option ℕ) (streams : StreamList) (s : PmtStream)
      → s.pid < pid_max
      → is_table (prv.map s.pid).type ≡ false
      → IsLive dec0 prv.decrypt
      → IsLive dec1 prv.decrypt
      → Counted held prv
      → (a : Adding) × (bind_stream memory prv dec0 dec1 streams s ≡ some a)
        × Counted held a.prv
        × NoNew is_table prv a.prv
  unfolding bind_stream
  bind_stream_done held prv dec0 dec1 streams s lt free live0 live1 c =
      let (pool, allocs, taken) = take_stream-pooled memory prv s.pid s.type in
      let prv1 : Decoder = pooled prv pool allocs in
      let c1 = pooled-Counted held prv pool allocs c in
      let old : PidMap = prv.map s.pid in
      let entry : PidMap = record (count_ref old) { type = other } in
      let (points, same_hits) =
        become_other prv.decrypt s.pid old.type old.target free (c.points s.pid lt) in
      let c2 : Counted held (replace prv1 s.pid entry) =
        replace-Counted held held prv1 s.pid entry lt
          (λ id. ap (λ b. (if b then 1 else 0) + held id) (same_hits id)) points c1 in
      let dw = select_active_decryptor dec0 dec1 s.ecm_pid in
      let here : ((replace prv1 s.pid entry).map s.pid).type ≡ other = ground arith in
      let (prv2, bound, c3) =
        bind_stream_decryptor-Counted held (replace prv1 s.pid entry) s.pid dw lt here
          (select-IsLive dec0 dec1 s.ecm_pid prv.decrypt live0 live1) c2 in
      let kept =
        bind_stream_decryptor-NoNew is_table refl (replace prv1 s.pid entry) prv2 s.pid dw bound in
      elim (Option-cases (take_stream memory prv s.pid s.type).0) [
        | inl refused ↦ (
          record { added = false; streams = streams; prv = prv1 },
          rw (bind_stream, refused, taken) refl,
          c1,
          λ j h. h,
        )
        | inr (elem, given) ↦ (
          record { added = true; streams = put_stream_list_tail streams elem; prv = prv2 },
          rw (bind_stream, given, taken, bound) refl,
          c3,
          λ j h. kept j (elim (Bool-cases (j == s.pid)) [
            | inl same ↦ rw same refl
            | inr differ ↦ rw differ h
          ]),
        )
      ]

-- The identifiers of a set have no entries of tables.
abbrev pub IsFree : (ℕ → Bool) → Decoder → Type 0
IsFree free prv = (j : ℕ) → free j ≡ true → is_table (prv.map j).type ≡ false

-- A stream has an identifier of the set, and its ECM has none.
abbrev pub FitsIn : (ℕ → Bool) → PmtStream → Type 0
FitsIn free s =
    (s.pid < pid_max)
    × (s.ecm_pid < pid_max)
    × (free s.pid ≡ true)
    × ((j : ℕ) → free j ≡ true → is_ecm_of s.ecm_pid j ≡ false)

module _ (memory : ℕ → Bool) (free : ℕ → Bool) where
  add_stream_done :
      (held : ℕ → ℕ) (prv : Decoder) (dec0 : Option ℕ) (streams : StreamList) (s : PmtStream)
      → FitsIn free s
      → IsFree free prv
      → ((id : ℕ) → dec0 ≡ some id → held id ≢ 0)
      → Counted held prv
      → (a : Adding) × (add_stream memory prv dec0 streams s ≡ some a)
        × Counted held a.prv
        × IsFree free a.prv
  unfolding add_stream
  add_stream_done held prv dec0 streams s (lt, ecm_lt, mine, apart) is_free kept c =
      let (dec1, a, added, c1, live1, untouched) =
        add_ecm_done memory held prv streams s.ecm_pid ecm_lt c in
      let free1 : IsFree free a.prv = λ j h. untouched j (apart j h) (is_free j h) in
      elim (Bool-cases a.added) [
        | inr stopped ↦ (a, rw (add_stream, added, stopped) refl, c1, free1)
        | inl goes_on ↦
            let (b, bound, c2, no_new) =
              bind_stream_done memory held a.prv dec0 dec1 a.streams s lt (free1 s.pid mine)
                (λ id e. c1.alive id (kept id e)) live1 c1 in
            (b, rw (add_stream, added, goes_on) bound, c2, λ j h. no_new j (free1 j h))
      ]

  pub add_streams_done :
      (held : ℕ → ℕ) (prv : Decoder) (dec0 : Option ℕ) (streams : StreamList)
      (found : List PmtStream)
      → All (FitsIn free) found
      → IsFree free prv
      → ((id : ℕ) → dec0 ≡ some id → held id ≢ 0)
      → Counted held prv
      → (a : Adding) × (add_streams memory prv dec0 streams found ≡ some a)
        × Counted held a.prv
        × IsFree free a.prv
  unfolding add_streams
  add_streams_done held prv dec0 streams [] h is_free kept c =
      (record { added = true; streams = streams; prv = prv }, refl, c, is_free)
  add_streams_done held prv dec0 streams (s ∷ rest) (fits, h) is_free kept c =
      let (a, added, c1, free1) = add_stream_done held prv dec0 streams s fits is_free kept c in
      elim (Bool-cases a.added) [
        | inr stopped ↦ (a, rw (add_streams, added, stopped) refl, c1, free1)
        | inl goes_on ↦
            let (b, others, c2, free2) =
              add_streams_done held a.prv dec0 a.streams rest h free1 kept c1 in
            (b, rw (add_streams, added, goes_on) others, c2, free2)
      ]
