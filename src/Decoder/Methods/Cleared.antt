-- ===== src/Decoder/Methods/Cleared.antt =====
-- b1/arib_std_b1.c: what `reset` leaves.
use recskapa.Base.{
  ℕ, ◌≡◌, ◌⊎◌, ◌==◌, ==_iff, refl, arith, All, List, [], ◌∷◌, some, none, Bool-cases, inl, inr,
}
use recskapa.Decoder.{ok, DecryptorElem, Decoder, zero_map}
use recskapa.Decoder.Decryptor.{find_dec, unlink_dec, remove_decryptor}
use recskapa.Decoder.Decryptor.Counted.{Counted, no_one}
use recskapa.Decoder.Methods.{remove_all, clear_rest, teardown, reset_arib_std_b1}
use recskapa.Stream.Elems.{clear_stream_list}
use recskapa.Stream.WorkBuffer.Append.{release_work_buffer_bytes}
use recskapa.Decoder.Pat.Released.{Releasable, release_programs-Counted}

IsIn : ℕ → List DecryptorElem → Type 0
IsIn id [] = ⊥
IsIn id (d ∷ ds) = (id ≡ d.id) ⊎ IsIn id ds

ids_more :
    (d : DecryptorElem) (ds xs : List DecryptorElem)
    → All (λ (x : DecryptorElem). IsIn x.id ds) xs
    → All (λ (x : DecryptorElem). IsIn x.id (d ∷ ds)) xs
unfolding IsIn
ids_more d ds [] h = tt
ids_more d ds (x ∷ xs) (here, h) = (inr here, ids_more d ds xs h)

ids_self : (ds : List DecryptorElem) → All (λ (x : DecryptorElem). IsIn x.id ds) ds
unfolding IsIn
ids_self [] = tt
ids_self (d ∷ ds) = (inl refl, ids_more d ds ds (ids_self ds))

unlink_dec_rest :
    (d : DecryptorElem) (ds xs : List DecryptorElem)
    → All (λ (x : DecryptorElem). IsIn x.id (d ∷ ds)) xs
    → All (λ (x : DecryptorElem). IsIn x.id ds) (unlink_dec d.id xs)
unfolding IsIn unlink_dec
unlink_dec_rest d ds [] h = tt
unlink_dec_rest d ds (x ∷ xs) (here, h) = elim (Bool-cases (x.id == d.id)) [
  | inl e ↦ rw (unlink_dec, e) (unlink_dec_rest d ds xs h)
  | inr e ↦
      rw (unlink_dec, e)
        (
          elim here [
            | inl same ↦ absurd (ground (arith, e, (==_iff x.id d.id).1 same))
            | inr later ↦ later
          ],
          unlink_dec_rest d ds xs h,
        )
]

none_in : (xs : List DecryptorElem) → All (λ (x : DecryptorElem). IsIn x.id []) xs → xs ≡ []
unfolding IsIn
none_in [] h = refl
none_in (x ∷ xs) (here, h) = absurd here

never_found :
    (ds : List DecryptorElem) (id : ℕ) (d : DecryptorElem) → ds ≡ [] → find_dec id ds ≡ some d → ⊥
unfolding find_dec
never_found [] id d e found = ground (arith, found)
never_found (x ∷ xs) id d e found = ground (arith, e)

remove_all_program :
    (prv : Decoder) (ds : List DecryptorElem) → (remove_all prv ds).program ≡ prv.program
unfolding remove_all remove_decryptor
remove_all_program prv [] = refl
remove_all_program prv (d ∷ ds) = remove_all_program (remove_decryptor prv d) ds

-- The loop over the decryptors leaves none.
remove_all_empty :
    (prv : Decoder) (ds : List DecryptorElem)
    → All (λ (x : DecryptorElem). IsIn x.id ds) prv.decrypt
    → (remove_all prv ds).decrypt ≡ []
unfolding remove_all remove_decryptor IsIn
remove_all_empty prv [] h = none_in prv.decrypt h
remove_all_empty prv (d ∷ ds) h =
    remove_all_empty (remove_decryptor prv d) ds (unlink_dec_rest d ds prv.decrypt h)

-- If the counts are right and the programs can be released, `reset` ends with 0 and follows no
-- pointer to a decryptor that is gone; no program, no decryptor and no input or output is left then,
-- every entry of the map is zero, and the counts are right.
pub reset_cleared :
    (prv : Decoder)
    → Releasable prv prv.program
    → Counted no_one prv
    → (prv' : Decoder) × (reset_arib_std_b1 (some prv) ≡ some (ok, some prv'))
      × (prv'.program ≡ [])
      × (prv'.decrypt ≡ [])
      × ((pid : ℕ) → prv'.map pid ≡ zero_map)
      × (prv'.sbuf.bytes ≡ [])
      × (prv'.dbuf.bytes ≡ [])
      × Counted no_one prv'
unfolding reset_arib_std_b1 teardown
reset_cleared prv h c =
    let prv1 : Decoder = record prv { unit_size = 0; sbuf_offset = 0; pat = none; cat = none } in
    let (prv2, gone, c2) =
      release_programs-Counted no_one prv1 prv.program h
        (record { exact = c.exact; points = c.points; fresh = c.fresh; alive = c.alive }) in
    let prv3 : Decoder = record prv2 {
      program = [];
      strm_pool = clear_stream_list prv2.strm_pool;
    } in
    let left = remove_all prv3 prv3.decrypt in
    let empty : left.decrypt ≡ [] = remove_all_empty prv3 prv3.decrypt (ids_self prv3.decrypt) in
    (
      clear_rest prv2,
      rw (reset_arib_std_b1, teardown, gone) refl,
      remove_all_program prv3 prv3.decrypt,
      empty,
      λ pid. refl,
      release_work_buffer_bytes left.sbuf,
      release_work_buffer_bytes left.dbuf,
      record {
        exact = λ id d found. absurd (never_found left.decrypt id d empty found);
        points = λ pid lt. refl;
        fresh = λ id d found. absurd (never_found left.decrypt id d empty found);
        alive = λ id held_id. absurd (held_id refl);
      },
    )
