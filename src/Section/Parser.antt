-- ===== src/Section/Parser.antt =====
-- b1/ts_section_parser.c: the state of the parser and its private functions. An element keeps its
-- address as a number; `last` is such an address. The links of the two lists are the order of the
-- elements in them.
pub mod Methods
use recskapa.Base.{ℕ, ◌+◌, ◌-◌, ltb, ◌==◌, if◌then◌else◌, length, List, [], ◌∷◌, ◌++◌, map}
use recskapa.Base.{Option, some, none, Bool, true, false, ◌&&◌, not}
use recskapa.Section.Crc.{crc32}
use recskapa.Section.Assembly.{Section, reset_section, append_section_data, check_section_complete}

-- 0, and the codes of ts_section_parser_error_code.h.
pub data Code : Type 0 where
  ok warn_crc_missmatch warn_length_missmatch : Code
  invalid_param no_enough_memory invalid_ts_pid no_section_data : Code

-- The codes below 0.
abbrev pub is_error : Code → Bool
is_error ok = false
is_error warn_crc_missmatch = false
is_error warn_length_missmatch = false
is_error _ = true

-- `TS_SECTION_ELEM`; `ref` is never below 0, since it is tested before it is counted down.
pub record Elem : Type 0 where
  pub id : ℕ
  pub sect : Section
  pub ref : ℕ

-- `TS_SECTION_LIST`.
pub record SectionList : Type 0 where
  pub elems : List Elem
  pub count : ℕ

-- `TS_SECTION_PARSER_STAT`; the counters of 64 bits are taken not to overflow.
pub record Stat : Type 0 where
  pub total : ℕ
  pub unique : ℕ
  pub error : ℕ

-- `TS_SECTION_PARSER_PRIVATE_DATA`; a `pid` of -1 is `none`. `next_id` is the address that the next
-- element gets.
pub record Parser : Type 0 where
  pub pid : Option ℕ
  pub work : Option Elem
  pub last : Option ℕ
  pub pool : SectionList
  pub buff : SectionList
  pub stat : Stat
  pub next_id : ℕ

abbrev pub empty_list : SectionList
empty_list = record { elems = []; count = 0 }

pub is_empty {ℓ} : {A : Type ℓ} → List A → Bool
is_empty [] = true
is_empty (x ∷ xs) = false

pub bytes_eq : List ℕ → List ℕ → Bool
bytes_eq [] [] = true
bytes_eq [] (y ∷ ys) = false
bytes_eq (x ∷ xs) [] = false
bytes_eq (x ∷ xs) (y ∷ ys) = x == y && bytes_eq xs ys

-- The head of the elements, and the list without it.
unfoldable pub get_ts_section_list_head : SectionList → Option (Elem × SectionList)
get_ts_section_list_head list = elim list.elems [
  | [] ↦ none
  | e ∷ rest ↦
      some (e, record { elems = rest; count = if is_empty rest then 0 else list.count - 1 })
]

pub put_ts_section_list_tail : SectionList → Elem → SectionList
put_ts_section_list_tail list elem = record {
  elems = list.elems ++ (elem ∷ []);
  count = if is_empty list.elems then 1 else list.count + 1;
}

pub remove_elem : ℕ → List Elem → List Elem
remove_elem id [] = []
remove_elem id (e ∷ es) = if e.id == id then es else e ∷ remove_elem id es

pub unlink_ts_section_list : SectionList → ℕ → SectionList
unlink_ts_section_list list id = record {
  elems = remove_elem id list.elems;
  count = list.count - 1;
}

pub find_elem : (Elem → Bool) → List Elem → Option Elem
find_elem p [] = none
find_elem p (e ∷ es) = if p e then some e else find_elem p es

abbrev reset_elem : Elem → Elem
reset_elem e = record e { sect = reset_section; ref = 0 }

pub cancel_elem_empty : Parser → Elem → Parser
cancel_elem_empty prv elem = record prv {
  pool = put_ts_section_list_tail prv.pool (reset_elem elem);
}

pub cancel_elem_error : Parser → Elem → Parser
cancel_elem_error prv elem = record prv {
  pool = put_ts_section_list_tail prv.pool (reset_elem elem);
  stat = record prv.stat { total = prv.stat.total + 1; error = prv.stat.error + 1 };
}

pub cancel_elem_same : Parser → Elem → Parser
cancel_elem_same prv elem = record prv {
  pool = put_ts_section_list_tail prv.pool (reset_elem elem);
  stat = record prv.stat { total = prv.stat.total + 1 };
}

-- What `->ref` of the element at an address is counted down to, if it is above 0.
abbrev unref : ℕ → Elem → Elem
unref id e = if e.id == id && ltb 0 e.ref then record e { ref = e.ref - 1 } else e

pub unref_list : Option ℕ → SectionList → SectionList
unref_list none list = list
unref_list (some id) list = record list { elems = map (unref id) list.elems }

pub commit_elem_updated : Parser → Elem → Parser
commit_elem_updated prv elem = record prv {
  last = some elem.id;
  pool = unref_list prv.last prv.pool;
  buff = put_ts_section_list_tail (unref_list prv.last prv.buff) (record elem { ref = 2 });
  stat = record prv.stat { total = prv.stat.total + 1; unique = prv.stat.unique + 1 };
}

-- The element at an address: one that is in hand, or one of the lists.
pub elem_at : Parser → Elem → ℕ → Option Elem
elem_at prv w id = find_elem (λ e. e.id == id) (w ∷ (prv.pool.elems ++ prv.buff.elems))

-- `compare_elem_section(w, prv->last) == 0`.
pub same_as_last : Parser → Elem → Bool
same_as_last prv w = elim prv.last [
  | none ↦ false
  | some id ↦ elim (elem_at prv w id) [ none ↦ false | some e ↦ bytes_eq w.sect.raw e.sect.raw ]
]

-- What becomes of an element whose section is complete.
pub settle : Parser → Elem → Code × Parser
settle prv w =
    if not (w.sect.hdr.section_syntax_indicator == 0) && not (crc32 w.sect.raw == 0)
    then (warn_crc_missmatch, cancel_elem_error prv w)
    else if same_as_last prv w
    then (ok, cancel_elem_same prv w)
    else (ok, commit_elem_updated prv w)

-- `data` points to the bytes of the list.
pub put_exclude_section_start : Parser → List ℕ → Code × Parser
put_exclude_section_start prv bytes = elim prv.work [
  | none ↦ (ok, prv)
  | some w ↦
      if is_empty w.sect.raw
      then (ok, prv)
      else let w' = record w { sect = append_section_data w.sect bytes } in
        if check_section_complete w'.sect
        then settle (record prv { work = none }) w'
        else (ok, record prv { work = some w' })
]

-- What is left in `work` is given up: an unfinished section is an error.
pub drop_work : Code → Parser → Code × Parser
drop_work r prv = elim prv.work [
  | none ↦ (r, prv)
  | some w ↦
      if is_empty w.sect.raw
      then (r, cancel_elem_empty (record prv { work = none }) w)
      else (warn_length_missmatch, cancel_elem_error (record prv { work = none }) w)
]

-- The element at an address that `calloc` returned.
abbrev pub create_ts_section_elem : ℕ → Elem
create_ts_section_elem id = record { id = id; sect = reset_section; ref = 0 }

abbrev pub clear_ts_section_list : SectionList → SectionList
clear_ts_section_list list = empty_list

-- `calloc` answers whether the request for the element at an address succeeds.
module _ (calloc : ℕ → Bool) where
  pub query_work_elem : Parser → Option (Elem × Parser)
  query_work_elem prv = elim (find_elem (λ e. ltb e.ref 1) prv.pool.elems) [
    | some r ↦ some (reset_elem r, record prv { pool = unlink_ts_section_list prv.pool r.id })
    | none ↦
        if calloc prv.next_id
        then some (create_ts_section_elem prv.next_id, record prv { next_id = prv.next_id + 1 })
        else none
  ]
