-- ===== src/Decoder/Decryptor.antt =====
-- b1/arib_std_b1.c: the list of decryptors and the entries of the map that point to them. A result
-- is `none` where the source follows a pointer to something else than a decryptor that is in the
-- list, or counts references to one below 0.
pub mod Refs
pub mod Counted
pub mod Steps
pub mod Replaced
pub mod Streams
pub mod Types
pub mod Bind
pub mod Append
pub mod Set
pub mod SetTypes
use recskapa.Base.{
  ℕ, zero, suc, ◌+◌, ◌-◌, ◌^◌, ◌%◌, ltb, ◌==◌, if◌then◌else◌, List, [], ◌∷◌, ◌++◌, Bool, true,
  false, ◌&&◌, Option, some, none,
}
use recskapa.Section.Parser.Methods.{create_ts_section_parser}
use recskapa.Stream.Elems.{StreamElem, StreamList, put_stream_list_tail, clear_stream_list}
use recskapa.Decoder.{
  PidType, unknown, pat, pmt, ecm, emm, cat, other, Target, null, program, decryptor,
}
use recskapa.Decoder.{PidMap, DecryptorElem, Program, Decoder, set_map}

unfoldable pub find_dec : ℕ → List DecryptorElem → Option DecryptorElem
find_dec id [] = none
find_dec id (d ∷ ds) = if d.id == id then some d else find_dec id ds

unfoldable pub update_dec :
    ℕ → (DecryptorElem → DecryptorElem) → List DecryptorElem → List DecryptorElem
update_dec id f [] = []
update_dec id f (d ∷ ds) = (if d.id == id then f d else d) ∷ update_dec id f ds

unfoldable pub unlink_dec : ℕ → List DecryptorElem → List DecryptorElem
unlink_dec id [] = []
unlink_dec id (d ∷ ds) = if d.id == id then unlink_dec id ds else d ∷ unlink_dec id ds

abbrev pub is_ecm : PidType → Bool
is_ecm ecm = true
is_ecm _ = false

abbrev pub is_other : PidType → Bool
is_other other = true
is_other _ = false

abbrev pub is_decryptor : ℕ → Target → Bool
is_decryptor id (decryptor i) = i == id
is_decryptor id _ = false

abbrev pub set_ref : ℕ → DecryptorElem → DecryptorElem
set_ref n d = record d { ref = n }

unfoldable pub remove_decryptor : Decoder → DecryptorElem → Decoder
remove_decryptor prv dec =
    let entry = prv.map dec.ecm_pid in
    record prv {
      map =
          if is_ecm entry.type && is_decryptor dec.id entry.target
          then set_map prv.map dec.ecm_pid (record entry { type = unknown; target = null })
          else prv.map;
      decrypt = unlink_dec dec.id prv.decrypt;
    }

-- `dec->ref -= 1`, and the removal if no reference is left.
unfoldable pub drop_ref : Decoder → ℕ → Option Decoder
drop_ref prv id = elim (find_dec id prv.decrypt) [
  | none ↦ none
  | some d ↦
      if d.ref == 0
      then none
      else if d.ref == 1
      then some (remove_decryptor prv (set_ref 0 d))
      else some (record prv { decrypt = update_dec id (set_ref (d.ref - 1)) prv.decrypt })
]

-- `drop_ref` where the pointer is not NULL.
unfoldable pub drop_target : Decoder → Target → Option Decoder
drop_target prv null = some prv
drop_target prv (program i) = none
drop_target prv (decryptor id) = drop_ref prv id

unfoldable pub reset_entry : Decoder → ℕ → Decoder
reset_entry prv pid = record prv {
  map = set_map prv.map pid (record (prv.map pid) { type = unknown; ref = 0; target = null });
}

-- The count of an entry has 32 bits.
unfoldable pub unref_stream : Decoder → ℕ → Option Decoder
unref_stream prv pid =
    let entry = prv.map pid in
    let ref = (entry.ref + 2 ^ 32 - 1) % 2 ^ 32 in
    let prv1 = record prv { map = set_map prv.map pid (record entry { ref = ref }) } in
    if ltb ref 1
    then elim (if is_other entry.type then drop_target prv1 entry.target else some prv1) [
      | none ↦ none
      | some prv2 ↦ some (reset_entry prv2 pid)
    ]
    else some prv1

-- `memory` answers a request for memory by the number of requests before it.
module _ (memory : ℕ → Bool) where
  -- The address is `none` where the function returns NULL.
  unfoldable pub set_decryptor : Decoder → ℕ → Option (Option ℕ × Decoder)
  set_decryptor prv pid =
      let entry = prv.map pid in
      let new : DecryptorElem = record {
        id = prv.next_id;
        ref = 0;
        phase = 0;
        locked = 0;
        ecm_pid = pid;
        ecm = create_ts_section_parser;
        m2 = none;
        unpurchased = 0;
        last_error = 0;
      } in
      let prv2 = record prv {
        decrypt = prv.decrypt ++ (new ∷ []);
        next_id = prv.next_id + 1;
        allocs = prv.allocs + 2;
      } in
      let added : Option (Option ℕ × Decoder) =
        if memory prv.allocs && memory (prv.allocs + 1)
        then (elim (if is_other entry.type then drop_target prv2 entry.target else some prv2) [
          | none ↦ none
          | some prv3 ↦ some (
            some prv.next_id,
            record prv3 {
              map =
                  set_map prv3.map pid
                    (record (prv3.map pid) { type = ecm; target = decryptor prv.next_id });
            },
          )
        ])
        else some
            (none, record prv { allocs = prv.allocs + (if memory prv.allocs then 2 else 1) }) in
      if is_ecm entry.type
      then elim entry.target [
        | null ↦ added
        | program i ↦ none
        | decryptor id ↦ some (some id, prv)
      ]
      else added

-- `b` is the descriptor of the stream, `a` that of the program.
unfoldable pub select_active_decryptor : Option ℕ → Option ℕ → ℕ → Option ℕ
select_active_decryptor a (some b) pid = some b
select_active_decryptor a none pid = if pid == 0x1fff then none else a

unfoldable pub set_target : Decoder → ℕ → Target → Decoder
set_target prv pid target = record prv {
  map = set_map prv.map pid (record (prv.map pid) { target = target });
}

-- The part of `bind_stream_decryptor` that binds.
unfoldable pub add_binding : Decoder → ℕ → Option ℕ → Option Decoder
add_binding prv pid none = some prv
add_binding prv pid (some id) = elim (find_dec id prv.decrypt) [
  | none ↦ none
  | some d ↦ some (record (set_target prv pid (decryptor id)) {
    decrypt = update_dec id (set_ref (d.ref + 1)) prv.decrypt;
  })
]

unfoldable pub bind_stream_decryptor : Decoder → ℕ → Option ℕ → Option Decoder
bind_stream_decryptor prv pid dec = elim (prv.map pid).target [
  | null ↦ add_binding prv pid dec
  | program i ↦ none
  | decryptor old ↦
      let moved : Option Decoder = elim (drop_ref prv old) [
        | none ↦ none
        | some prv1 ↦ add_binding (set_target prv1 pid null) pid dec
      ] in
      elim dec [ none ↦ moved | some id ↦ if id == old then some prv else moved ]
]

-- The loop that gives the elements of a list back to the pool.
unfoldable pub unref_all : Decoder → List StreamElem → Option Decoder
unref_all prv [] = some prv
unref_all prv (strm ∷ rest) = elim (unref_stream prv strm.pid) [
  | none ↦ none
  | some prv1 ↦
      unref_all
        (record prv1 {
          strm_pool = put_stream_list_tail prv1.strm_pool (record { pid = 0; type = 0 });
        })
        rest
]

-- What is left of the program itself is freed by the caller.
unfoldable pub release_program : Decoder → Program → Option Decoder
release_program prv pgrm = elim (unref_all prv pgrm.old_strm.elems) [
  | none ↦ none
  | some prv1 ↦ elim (unref_all prv1 pgrm.streams.elems) [
    | none ↦ none
    | some prv2 ↦ some (reset_entry prv2 pgrm.pmt_pid)
  ]
]
