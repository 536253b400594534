-- ===== src/Decoder/Pat/Released.antt =====
-- b1/arib_std_b1.c: the old programs are released, and the counts stay right.
use mathlib.Core.Path.{subst}
use recskapa.Base.{ℕ, ◌+◌, ◌-◌, ◌^◌, ◌%◌, ◌<◌, ◌≡◌, refl, arith, ltb, ◌==◌}
use recskapa.Base.{All, List, [], ◌∷◌, true, false, Bool-cases, Option-cases, inl, inr, some}
use recskapa.Decoder.{unknown, null, PidMap, Program, Decoder}
use recskapa.Decoder.Cat.Counts.{drop_target-is_other}
use recskapa.Decoder.Decryptor.{
  is_other, drop_target, reset_entry, unref_stream, unref_all, release_program,
}
use recskapa.Decoder.Decryptor.Counted.{Counted, replace, replace-Counted}
use recskapa.Decoder.Decryptor.Refs.{pid_max}
use recskapa.Decoder.Decryptor.Streams.{unref_all-Counted}
use recskapa.Decoder.Pat.{release_programs}
use recskapa.Stream.Elems.{StreamElem, put_stream_list_tail}

-- No entry becomes one of a stream.
abbrev pub NoNewStream : Decoder → Decoder → Type 0
NoNewStream prv prv' =
    (j : ℕ) → is_other (prv.map j).type ≡ false → is_other (prv'.map j).type ≡ false

unref_stream-NoNewStream :
    (prv prv' : Decoder) (pid : ℕ) → unref_stream prv pid ≡ some prv' → NoNewStream prv prv'
unfolding unref_stream reset_entry
unref_stream-NoNewStream prv prv' pid e j h =
    let entry : PidMap = prv.map pid in
    let ref : ℕ = (entry.ref + 2 ^ 32 - 1) % 2 ^ 32 in
    let prv1 : Decoder = replace prv pid (record entry { ref = ref }) in
    let here : (j == pid) ≡ true → is_other entry.type ≡ false = λ same.
      let at : j ≡ pid = ground arith in subst (λ k. is_other (prv.map k).type ≡ false) at h in
    elim (Bool-cases (ltb ref 1)) [
      | inr used ↦ ground (arith, e, used, h, here)
      | inl last ↦ elim (Bool-cases (is_other entry.type)) [
        | inr alien ↦ ground (arith, e, last, alien, h)
        | inl stream ↦ elim (Option-cases (drop_target prv1 entry.target)) [
          | inl nowhere ↦ absurd (ground (arith, e, last, stream, nowhere))
          | inr (prv2, dropped) ↦
              let kept = drop_target-is_other prv1 prv2 entry.target j dropped in
              ground (arith, e, last, stream, dropped, kept, h, here)
        ]
      ]
    ]

unref_all-NoNewStream :
    (prv prv' : Decoder) (elems : List StreamElem)
    → unref_all prv elems ≡ some prv'
    → NoNewStream prv prv'
unfolding unref_all
unref_all-NoNewStream prv prv' [] e j h = ground (arith, e, h)
unref_all-NoNewStream prv prv' (strm ∷ rest) e j h =
    elim (Option-cases (unref_stream prv strm.pid)) [
      | inl nowhere ↦ absurd (ground (arith, e, nowhere))
      | inr (prv1, gone) ↦
          unref_all-NoNewStream
            (record prv1 {
              strm_pool = put_stream_list_tail prv1.strm_pool (record { pid = 0; type = 0 });
            })
            prv' rest (ground (arith, e, gone)) j
            (unref_stream-NoNewStream prv prv1 strm.pid gone j h)
    ]

-- The identifiers of a program are below the number of identifiers.
abbrev pub IsInRange : Program → Type 0
IsInRange pgrm =
    All (λ (strm : StreamElem). strm.pid < pid_max) pgrm.old_strm.elems
    × All (λ (strm : StreamElem). strm.pid < pid_max) pgrm.streams.elems
    × (pgrm.pmt_pid < pid_max)

release_program-Counted :
    (held : ℕ → ℕ) (prv : Decoder) (pgrm : Program)
    → IsInRange pgrm
    → is_other (prv.map pgrm.pmt_pid).type ≡ false
    → Counted held prv
    → (prv' : Decoder) × (release_program prv pgrm ≡ some prv')
      × Counted held prv'
      × NoNewStream prv prv'
unfolding release_program reset_entry
release_program-Counted held prv pgrm (old, new, lt) apart c =
    let (prv1, gone1, c1) = unref_all-Counted held prv pgrm.old_strm.elems old c in
    let (prv2, gone2, c2) = unref_all-Counted held prv1 pgrm.streams.elems new c1 in
    let kept : NoNewStream prv prv2 = λ j h.
      unref_all-NoNewStream prv1 prv2 pgrm.streams.elems gone2 j
        (unref_all-NoNewStream prv prv1 pgrm.old_strm.elems gone1 j h) in
    let alien = kept pgrm.pmt_pid apart in
    (
      reset_entry prv2 pgrm.pmt_pid,
      rw (release_program, gone1, gone2) refl,
      replace-Counted held held prv2 pgrm.pmt_pid
          (record (prv2.map pgrm.pmt_pid) { type = unknown; ref = 0; target = null }) lt
          (λ id. rw alien refl) refl c2,
      λ j h. elim (Bool-cases (j == pgrm.pmt_pid)) [
        | inl here ↦ rw here refl
        | inr elsewhere ↦ rw elsewhere (kept j h)
      ],
    )

-- The programs are in range, and no PMT has an entry of a stream.
abbrev pub Releasable : Decoder → List Program → Type 0
Releasable prv pgrms =
    All (λ (pgrm : Program). IsInRange pgrm × (is_other (prv.map pgrm.pmt_pid).type ≡ false)) pgrms

kept_through :
    (prv prv' : Decoder) (pgrms : List Program)
    → NoNewStream prv prv'
    → Releasable prv pgrms
    → Releasable prv' pgrms
kept_through prv prv' [] kept h = tt
kept_through prv prv' (pgrm ∷ rest) kept ((range, apart), h) =
    ((range, kept pgrm.pmt_pid apart), kept_through prv prv' rest kept h)

pub release_programs-Counted :
    (held : ℕ → ℕ) (prv : Decoder) (pgrms : List Program)
    → Releasable prv pgrms
    → Counted held prv
    → (prv' : Decoder) × (release_programs prv pgrms ≡ some prv') × Counted held prv'
unfolding release_programs
release_programs-Counted held prv [] h c = (prv, refl, c)
release_programs-Counted held prv (pgrm ∷ rest) ((range, apart), h) c =
    let (prv1, gone, c1, kept) = release_program-Counted held prv pgrm range apart c in
    let (prv2, all_gone, c2) =
      release_programs-Counted held prv1 rest (kept_through prv prv1 rest kept h) c1 in
    (prv2, rw (release_programs, gone) all_gone, c2)
