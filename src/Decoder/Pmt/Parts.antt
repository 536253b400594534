-- ===== src/Decoder/Pmt/Parts.antt =====
-- b1/arib_std_b1.c: the parts of the program map table's handling that bind no stream.
use mathlib.Core.Path.{subst}
use recskapa.Base.{ℕ, ◌+◌, ◌<◌, ◌≡◌, refl, arith, ◌==◌}
use recskapa.Base.{List, Bool, true, false, ◌&&◌, Bool-cases, Option-cases, inl, inr}
use recskapa.Decoder.{
  PidType, unknown, pat, pmt, ecm, emm, cat, other, Target, null, program, decryptor, DecryptorElem,
  Decoder,
}
use recskapa.Decoder.Decryptor.{is_other, is_decryptor}
use recskapa.Decoder.Decryptor.Refs.{pid_max}
use recskapa.Decoder.Decryptor.Counted.{PointsTo, Counted, replace, replace-Counted}
use recskapa.Decoder.Decryptor.Types.{NoNew}
use recskapa.Decoder.Pmt.{take_stream, count_ref, add_ecm_stream}
use recskapa.Stream.Elems.{StreamList, get_stream_list_head, find_stream_list_elem}

-- The types whose pointers are not those of streams.
abbrev pub is_table : PidType → Bool
is_table ecm = true
is_table pmt = true
is_table _ = false

-- An entry of another type may become one of a stream.
pub become_other :
    (ds : List DecryptorElem) (pid : ℕ) (type : PidType) (target : Target)
    → is_table type ≡ false
    → PointsTo ds pid type target
    → PointsTo ds pid other target
      × ((id : ℕ) → is_decryptor id target ≡ (is_other type && is_decryptor id target))
become_other ds pid other target h p = (p, λ id. refl)
become_other ds pid ecm target h p = absurd (ground (arith, h))
become_other ds pid pmt target h p = absurd (ground (arith, h))
become_other ds pid unknown null h p = (tt, λ id. refl)
become_other ds pid unknown (program i) h p = absurd (ground (arith, p))
become_other ds pid unknown (decryptor id) h p = absurd (ground (arith, p))
become_other ds pid pat null h p = (tt, λ id. refl)
become_other ds pid pat (program i) h p = absurd (ground (arith, p))
become_other ds pid pat (decryptor id) h p = absurd (ground (arith, p))
become_other ds pid emm null h p = (tt, λ id. refl)
become_other ds pid emm (program i) h p = absurd (ground (arith, p))
become_other ds pid emm (decryptor id) h p = absurd (ground (arith, p))
become_other ds pid cat null h p = (tt, λ id. refl)
become_other ds pid cat (program i) h p = absurd (ground (arith, p))
become_other ds pid cat (decryptor id) h p = absurd (ground (arith, p))

-- No one holds an address that was not given out.
pub unheld : (held : ℕ → ℕ) (prv : Decoder) → Counted held prv → held prv.next_id ≡ 0
unheld held prv c = elim (Bool-cases (held prv.next_id == 0)) [
  | inl none_held ↦ ground arith
  | inr some_held ↦
      let (d, found) = c.alive prv.next_id (ground (arith, some_held)) in
      absurd (omega (arith, (c.fresh prv.next_id d found).0))
]

-- The same decryptors and entries, with another pool.
abbrev pub pooled : Decoder → StreamList → ℕ → Decoder
pooled prv pool allocs = record prv { strm_pool = pool; allocs = allocs }

pub pooled-Counted :
    (held : ℕ → ℕ) (prv : Decoder) (pool : StreamList) (allocs : ℕ)
    → Counted held prv
    → Counted held (pooled prv pool allocs)
pooled-Counted held prv pool allocs c = record {
  exact = c.exact;
  points = c.points;
  fresh = c.fresh;
  alive = c.alive;
}

module _ (memory : ℕ → Bool) where
  pub take_stream-pooled :
      (prv : Decoder) (pid type : ℕ)
      → (pool : StreamList) × (allocs : ℕ) × ((take_stream memory prv pid type).1
          ≡ pooled prv pool allocs)
  unfolding take_stream
  take_stream-pooled prv pid type = elim (Option-cases (get_stream_list_head prv.strm_pool)) [
    | inl empty ↦ (prv.strm_pool, prv.allocs + 1, rw (take_stream, empty) refl)
    | inr ((strm, pool), e) ↦ (pool, prv.allocs, rw (take_stream, e) refl)
  ]

  -- The counts are right, the decryptors are the same, and no entry is newly one of a table.
  abbrev pub Adds : (ℕ → ℕ) → Decoder → Decoder → Type 0
  Adds held prv prv' = Counted held prv' × (prv'.decrypt ≡ prv.decrypt) × NoNew is_table prv prv'

  ref_goes_up :
      (held : ℕ → ℕ) (prv : Decoder) (pid : ℕ)
      → pid < pid_max
      → Counted held prv
      → Adds held prv (replace prv pid (count_ref (prv.map pid)))
  ref_goes_up held prv pid lt c = (
    replace-Counted held held prv pid (count_ref (prv.map pid)) lt (λ id. refl) (c.points pid lt) c,
    refl,
    λ j h. elim (Bool-cases (j == pid)) [
      | inl same ↦
          let at : j ≡ pid = ground arith in
          rw same (subst (λ k. is_table (prv.map k).type ≡ false) at h)
      | inr differ ↦ rw differ h
    ],
  )

  pub add_ecm_stream-Adds :
      (held : ℕ → ℕ) (prv : Decoder) (list : StreamList) (pid : ℕ)
      → pid < pid_max
      → Counted held prv
      → Adds held prv (add_ecm_stream memory prv list pid).2
  unfolding add_ecm_stream
  add_ecm_stream-Adds held prv list pid lt c =
      let (pool, allocs, taken) = take_stream-pooled prv pid 0x0500 in
      elim (Option-cases (find_stream_list_elem list pid)) [
        | inr (old, found) ↦ rw (add_ecm_stream, found) (c, refl, λ j h. h)
        | inl new ↦ elim (Option-cases (take_stream memory prv pid 0x0500).0) [
          | inl refused ↦
              rw (add_ecm_stream, new, refused, taken)
                (pooled-Counted held prv pool allocs c, refl, λ j h. h)
          | inr (elem, given) ↦
              rw (add_ecm_stream, new, given, taken)
                (ref_goes_up held (pooled prv pool allocs) pid lt
                  (pooled-Counted held prv pool allocs c))
        ]
      ]
