-- ===== src/Decoder/Pmt/Renewed.antt =====
-- b1/arib_std_b1.c: the streams of a program are given up and added again.
use mathlib.Core.Path.{subst}
use recskapa.Base.{ℕ, ◌+◌, ◌<◌, ◌≡◌, ◌≢◌, refl, ap, ◌∙◌, arith}
use recskapa.Base.{
  All, List, [], Bool, true, false, Bool-cases, Option-cases, some-injective, inl, inr, Option,
  some, none,
}
use recskapa.Decoder.{DecryptorElem, Program, Decoder}
use recskapa.Decoder.Decryptor.{find_dec, update_dec, set_ref, drop_ref, set_decryptor}
use recskapa.Decoder.Decryptor.Counted.{Counted, bump, update-Counted}
use recskapa.Decoder.Decryptor.Refs.{pid_max}
use recskapa.Decoder.Decryptor.Set.{AnswersFor, set_decryptor-Counted}
use recskapa.Decoder.Decryptor.SetTypes.{set_decryptor-NoNewBut}
use recskapa.Decoder.Decryptor.Steps.{drop_ref-Counted}
use recskapa.Decoder.Decryptor.Streams.{unref_all-Counted}
use recskapa.Decoder.Decryptor.Types.{unref_all-NoNew}
use recskapa.Decoder.Pmt.{PmtStream, is_ecm_pid, add_ecm_stream, renew_streams}
use recskapa.Decoder.Pmt.{hold_decryptor, with_decryptor}
use recskapa.Decoder.Pmt.Parts.{is_table, unheld, add_ecm_stream-Adds}
use recskapa.Decoder.Pmt.Rounds.{is_ecm_of, IsFree, FitsIn, add_streams_done}
use recskapa.Stream.Elems.{StreamElem, StreamList}

-- The streams that were given up before are below the number of identifiers.
abbrev pub InRange : List StreamElem → Type 0
InRange = All (λ (strm : StreamElem). strm.pid < pid_max)

module _ (memory : ℕ → Bool) (free : ℕ → Bool) where
  renew_streams_done :
      (held : ℕ → ℕ) (prv : Decoder) (pgrm : Program) (dec0 : Option ℕ) (ecm_pid : ℕ)
      (found : List PmtStream)
      → InRange pgrm.old_strm.elems
      → ecm_pid < pid_max
      → All (FitsIn free) found
      → IsFree free prv
      → ((id : ℕ) → dec0 ≡ some id → held id ≢ 0)
      → Counted held prv
      → (added : Bool) × (pgrm' : Program) × (prv' : Decoder) × (renew_streams memory prv pgrm dec0
            ecm_pid found
          ≡ some (added, pgrm', prv'))
        × Counted held prv'
  unfolding renew_streams
  renew_streams_done held prv pgrm dec0 ecm_pid found range lt fits is_free kept c =
      let empty : StreamList = record { elems = []; count = 0 } in
      let (prv1, gone, c1) = unref_all-Counted held prv pgrm.old_strm.elems range c in
      let free1 : IsFree free prv1 =
        λ j h. unref_all-NoNew is_table refl prv prv1 pgrm.old_strm.elems gone j (is_free j h) in
      let (added, streams, prv2) = add_ecm_stream memory prv1 empty ecm_pid in
      let (c2, same, no_new) = add_ecm_stream-Adds memory held prv1 empty ecm_pid lt c1 in
      elim (Bool-cases (is_ecm_pid ecm_pid)) [
        | inr clear ↦
            let (a, all_added, c3, free3) =
              add_streams_done memory free held prv1 dec0 empty found fits free1 kept c1 in
            (
              a.added,
              record pgrm { old_strm = pgrm.streams; streams = a.streams },
              a.prv,
              rw (renew_streams, gone, clear, all_added) refl,
              c3,
            )
        | inl scrambled ↦ elim (Bool-cases added) [
          | inr stopped ↦ (
            false,
            record pgrm { old_strm = pgrm.streams; streams = streams },
            prv2,
            rw (renew_streams, gone, scrambled, stopped) refl,
            c2,
          )
          | inl goes_on ↦
              let (a, all_added, c3, free3) =
                add_streams_done memory free held prv2 dec0 streams found fits
                  (λ j h. no_new j (free1 j h)) kept c2 in
              (
                a.added,
                record pgrm { old_strm = pgrm.streams; streams = a.streams },
                a.prv,
                rw (renew_streams, gone, scrambled, goes_on, all_added) refl,
                c3,
              )
        ]
      ]

  bump_held : (held : ℕ → ℕ) (id : ℕ) → bump id held id ≢ 0
  bump_held held id = λ e. ground (arith, e)

  with_held :
      (prv prv1 prv3 prv4 : Decoder) (pgrm pgrm' : Program) (ecm_pid id : ℕ) (d : DecryptorElem)
      (found : List PmtStream) (added : Bool)
      → is_ecm_pid ecm_pid ≡ true
      → set_decryptor memory prv ecm_pid ≡ some (some id, prv1)
      → find_dec id prv1.decrypt ≡ some d
      → renew_streams memory
          (record prv1 { decrypt = update_dec id (set_ref (d.ref + 1)) prv1.decrypt })
          pgrm
          (some id)
          ecm_pid
          found
        ≡ some (added, pgrm', prv3)
      → drop_ref prv3 id ≡ some prv4
      → with_decryptor memory prv pgrm ecm_pid found ≡ some (added, pgrm', prv4)
  unfolding with_decryptor hold_decryptor
  with_held prv prv1 prv3 prv4 pgrm pgrm' ecm_pid id d found added scrambled set live renewed
        dropped =
      rw (with_decryptor, scrambled, set, hold_decryptor, live, renewed, dropped) refl

  pub with_decryptor_done :
      (held : ℕ → ℕ) (prv : Decoder) (pgrm : Program) (ecm_pid : ℕ) (found : List PmtStream)
      → InRange pgrm.old_strm.elems
      → ecm_pid < pid_max
      → ((j : ℕ) → free j ≡ true → is_ecm_of ecm_pid j ≡ false)
      → All (FitsIn free) found
      → IsFree free prv
      → Counted held prv
      → (added : Bool) × (pgrm' : Program) × (prv' : Decoder) × (with_decryptor memory prv pgrm
            ecm_pid found
          ≡ some (added, pgrm', prv'))
        × Counted held prv'
  unfolding with_decryptor hold_decryptor
  with_decryptor_done held prv pgrm ecm_pid found range lt apart fits is_free c =
      elim (Bool-cases (is_ecm_pid ecm_pid)) [
        | inr clear ↦
            let (added, pgrm', prv', renewed, c') =
              renew_streams_done held prv pgrm none ecm_pid found range lt fits is_free
                (λ id e. absurd (ground (arith, e))) c in
            (added, pgrm', prv', rw (with_decryptor, clear) renewed, c')
        | inl scrambled ↦
            let (r, prv1, set, c1, answer) =
              set_decryptor-Counted memory held prv ecm_pid lt (unheld held prv c) c in
            let kept = set_decryptor-NoNewBut memory is_table refl prv prv1 ecm_pid r set in
            elim (Option-cases r) [
              | inl refused ↦
                  (false, pgrm, prv1, rw (with_decryptor, scrambled, set, refused) refl, c1)
              | inr (id, given) ↦
                  let (d, live, own) =
                    subst (λ x. AnswersFor memory prv prv1 ecm_pid x) given answer in
                  let prv2 : Decoder = record prv1 {
                    decrypt = update_dec id (set_ref (d.ref + 1)) prv1.decrypt;
                  } in
                  let c2 : Counted (bump id held) prv2 =
                    update-Counted held (bump id held) prv1 id (d.ref + 1) d live (ground arith)
                      (λ j differ. ground (arith, differ)) c1 in
                  let (added, pgrm', prv3, renewed, c3) =
                    renew_streams_done (bump id held) prv2 pgrm (some id) ecm_pid found range lt
                      fits (λ j h. kept j (ground (arith, apart j h, scrambled)) (is_free j h))
                      (λ j e.
                        subst (λ k. bump id held k ≢ 0) (some-injective e) (bump_held held id))
                      c2 in
                  let (d', live') = c3.alive id (bump_held held id) in
                  let (prv4, dropped, c4) = drop_ref-Counted held prv3 id d' live' c3 in
                  (
                    added,
                    pgrm',
                    prv4,
                    with_held prv prv1 prv3 prv4 pgrm pgrm' ecm_pid id d found added scrambled
                        (set ∙ ap (λ x. some (x, prv1)) given) live renewed dropped,
                    c4,
                  )
            ]
      ]
