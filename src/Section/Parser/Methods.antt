-- ===== src/Section/Parser/Methods.antt =====
-- b1/ts_section_parser.c: the loop over the sections that begin in a packet, and the methods. A
-- handle is `none` where `private_data` returns NULL; other pointers are `none` where they are NULL.
pub mod Total
pub mod Owned
pub mod Moves
pub mod Account
pub mod Counters
pub mod OfData
pub mod Codes
pub mod Kept
pub mod Reach
pub mod Deliver
use recskapa.Base.{
  ℕ, zero, suc, ◌+◌, ◌-◌, ltb, leb, ◌==◌, if◌then◌else◌, length, take, drop, List, [], ◌∷◌,
}
use recskapa.Base.{Option, some, none, Bool, true, false, ◌&&◌, not}
use recskapa.Packet.Header.{TsHeader}
use recskapa.Section.Assembly.{
  Section, Header, zero_header, append_section_data, check_section_complete,
}
use recskapa.Section.Parser.{
  Code, ok, no_enough_memory, invalid_param, invalid_ts_pid, no_section_data, is_error,
}
use recskapa.Section.Parser.{
  clear_ts_section_list, Elem, SectionList, Stat, Parser, empty_list, is_empty,
}
use recskapa.Section.Parser.{get_ts_section_list_head, put_ts_section_list_tail}
use recskapa.Section.Parser.{settle, put_exclude_section_start, drop_work, query_work_elem}

abbrev zero_stat : Stat
zero_stat = record { total = 0; unique = 0; error = 0 }

-- What `create_ts_section_parser` returns if there is memory for it.
unfoldable pub create_ts_section_parser : Parser
create_ts_section_parser = record {
  pid = none;
  work = none;
  last = none;
  pool = empty_list;
  buff = empty_list;
  stat = zero_stat;
  next_id = 0;
}

-- What `teardown` leaves. Addresses are not used again.
pub teardown : Parser → Parser
teardown prv = record prv {
  pid = none;
  work = none;
  last = none;
  pool = clear_ts_section_list prv.pool;
  buff = clear_ts_section_list prv.buff;
  stat = zero_stat;
}

-- `(p < tail) && (p[0] != 0xff)`
unfoldable pub more_sections : List ℕ → Bool
more_sections [] = false
more_sections (x ∷ xs) = not (x == 0xff)

-- The code of a completed section: `r` stays what it was unless the checksum is wrong.
pub worse : Code → Code → Code
worse r ok = r
worse r c = c

-- How a round of the loop ends: with a `return` or the end of the loop, or with another round.
pub data Round : Type 0 where
  leave : Code → Parser → Round
  again : Code → Parser → List ℕ → Round

module _ (calloc : ℕ → Bool) where
  -- One round of the `do` loop, on the bytes from `p` up to `tail`.
  pub section_round : Code → Parser → List ℕ → Round
  section_round r prv bytes = elim (query_work_elem calloc prv) [
    | none ↦ leave no_enough_memory prv
    | some (w, prv1) ↦
        let w' = record w { sect = append_section_data w.sect bytes } in
        let (c, prv2) = settle prv1 w' in
        let rest = drop (length w'.sect.raw) bytes in
        if check_section_complete w'.sect
        then (if more_sections rest then again (worse r c) prv2 rest else leave (worse r c) prv2)
        else leave ok (record prv1 { work = some w' })
  ]

  -- The loop; `none` means that the fuel ran out.
  pub section_loop : ℕ → Code → Parser → List ℕ → Option (Code × Parser)
  section_loop zero r prv bytes = none
  section_loop (suc fuel) r prv bytes = elim (section_round r prv bytes) [
    | leave r' prv' ↦ some (r', prv')
    | again r' prv' rest ↦ section_loop fuel r' prv' rest
  ]

  -- The bytes behind the pointer field, which is the first argument.
  pub put_include_section_start : ℕ → Parser → List ℕ → Option (Code × Parser)
  put_include_section_start pointer_field prv rest =
      if leb (length rest) pointer_field
      then some (drop_work ok prv)
      else let (r, prv1) =
          if ltb 0 pointer_field
          then put_exclude_section_start prv (take pointer_field rest)
          else (ok, prv) in
        if is_error r
        then some (r, prv1)
        else let bytes = drop pointer_field rest in
          let (r', prv2) = drop_work r prv1 in section_loop (length bytes) r' prv2 bytes

  -- On a handle and a header; `data` points to the bytes of the list, which are `size` many.
  pub put_bytes : Parser → TsHeader → List ℕ → Option (Code × Parser)
  put_bytes prv hdr [] = some (invalid_param, prv)
  put_bytes prv hdr (p0 ∷ rest) =
      let checked : Bool = elim prv.pid [ none ↦ true | some pid ↦ pid == hdr.pid ] in
      let prv' = record prv { pid = some hdr.pid } in
      if checked
      then (if hdr.payload_unit_start_indicator == 0
          then some (put_exclude_section_start prv' (p0 ∷ rest))
          else put_include_section_start p0 prv' rest)
      else some (invalid_ts_pid, prv)

  -- `put_ts_section_parser`.
  pub put : Option Parser → Option TsHeader → Option (List ℕ) → Option (Code × Option Parser)
  put none hdr bytes = some (invalid_param, none)
  put (some prv) none bytes = some (invalid_param, some prv)
  put (some prv) (some hdr) none = some (invalid_param, some prv)
  put (some prv) (some hdr) (some bytes) = elim (put_bytes prv hdr bytes) [
    | none ↦ none
    | some (c, prv') ↦ some (c, some prv')
  ]

-- A copy of a section that is handed out: `raw`, `data` and `tail` point into the element with
-- the address `id`.
pub record Handed : Type 0 where
  pub id : ℕ
  pub sect : Section

-- `get_ts_section_parser`; the Boolean is false where the section to fill is NULL, and a section
-- of zeros is `none`.
unfoldable pub get : Option Parser → Bool → Code × Option Handed × Option Parser
get none out = (invalid_param, none, none)
get (some prv) false = (invalid_param, none, some prv)
get (some prv) true = elim (get_ts_section_list_head prv.buff) [
  | none ↦ (no_section_data, none, some prv)
  | some (w, buff') ↦ (
    ok,
    some (record { id = w.id; sect = w.sect }),
    some (record prv { buff = buff'; pool = put_ts_section_list_tail prv.pool w }),
  )
]

-- `data` as a pointer: the element and the distance in its buffer.
abbrev same_data : ℕ → Option ℕ → ℕ → Option ℕ → Bool
same_data i (some m) j (some n) = i == j && m == n
same_data i none j none = true
same_data i _ j _ = false

-- The search from the tail of the pool: whether one was found behind, and the elements with the
-- count of the one found let down.
pub ret_from : Handed → List Elem → List Elem × Bool
ret_from sect [] = ([], false)
ret_from sect (e ∷ es) =
    let (es', found) = ret_from sect es in
    if found
    then (e ∷ es', true)
    else if same_data e.id e.sect.body sect.id sect.sect.body
    then ((if ltb 0 e.ref then record e { ref = e.ref - 1 } else e) ∷ es', true)
    else (e ∷ es', false)

-- `ret_ts_section_parser`.
pub ret : Option Parser → Option Handed → Code × Option Parser
ret none sect = (invalid_param, none)
ret (some prv) none = (invalid_param, some prv)
ret (some prv) (some sect) =
    (ok, some (record prv { pool = record prv.pool { elems = (ret_from sect prv.pool.elems).0 } }))

-- `get_count_ts_section_parser`: a count, or a code below 0.
pub get_count : Option Parser → Option ℕ
get_count none = none
get_count (some prv) = some prv.buff.count

-- `reset_ts_section_parser`.
pub reset : Option Parser → Code × Option Parser
reset none = (invalid_param, none)
reset (some prv) = (ok, some (teardown prv))

-- `get_stat_ts_section_parser`.
pub get_stat : Option Parser → Code × Option Stat
get_stat none = (invalid_param, none)
get_stat (some prv) = (ok, some prv.stat)
