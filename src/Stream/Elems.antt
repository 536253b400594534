-- ===== src/Stream/Elems.antt =====
-- b1/arib_std_b1.c: the lists of streams. The links are the order of the elements.
use recskapa.Base.{ℕ, ◌+◌, ◌-◌, ◌==◌, if◌then◌else◌, List, [], ◌∷◌, ◌++◌, Option, some, none}

pub record StreamElem : Type 0 where
  pub pid : ℕ
  pub type : ℕ

pub record StreamList : Type 0 where
  pub elems : List StreamElem
  pub count : ℕ

pub get_stream_list_head : StreamList → Option (StreamElem × StreamList)
get_stream_list_head list = elim list.elems [
  | [] ↦ none
  | e ∷ rest ↦
      some (e, record { elems = rest; count = elim rest [ [] ↦ 0 | _ ∷ _ ↦ list.count - 1 ] })
]

pub find_from : List StreamElem → ℕ → Option StreamElem
find_from [] pid = none
find_from (e ∷ es) pid = if e.pid == pid then some e else find_from es pid

pub find_stream_list_elem : StreamList → ℕ → Option StreamElem
find_stream_list_elem list pid = find_from list.elems pid

-- If there is memory.
pub create_stream_elem : ℕ → ℕ → StreamElem
create_stream_elem pid type = record { pid = pid; type = type }

pub put_stream_list_tail : StreamList → StreamElem → StreamList
put_stream_list_tail list elem = record {
  elems = list.elems ++ (elem ∷ []);
  count = elim list.elems [ [] ↦ 1 | _ ∷ _ ↦ list.count + 1 ];
}

pub clear_stream_list : StreamList → StreamList
clear_stream_list list = record { elems = []; count = 0 }
