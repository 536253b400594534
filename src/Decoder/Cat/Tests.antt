-- ===== src/Decoder/Cat/Tests.antt =====
-- b1/arib_std_b1.c: a conditional access table that takes the identifier of a stream for the EMMs.
use recskapa.Base.{◌≡◌, ◌↔◌, refl, arith, [], ◌∷◌, some, none, true}
use recskapa.Decoder.{Code, Program, DecryptorElem, Decoder}
use recskapa.Decoder.Cat.{proc_cat}
use recskapa.Decoder.Cat.Counts.{proc_cat-Counted}
use recskapa.Decoder.Decryptor.Counted.{Counted, no_one}
use recskapa.Decoder.Phase.{check_pmt_complete, check_ecm_complete, IsDone, complete_iff}
use recskapa.Decoder.Tests.{with_binding, with_binding-Counted}
use recskapa.Section.Assembly.{zero_header}
use recskapa.Section.Parser.{Elem, Parser, empty_list, get_ts_section_list_head}
use recskapa.Section.Parser.Methods.{get}

-- The table with a descriptor of the system 5 for the identifier 0x100.
abbrev cat_section : Elem
cat_section = record {
  id = 0;
  sect = record {
    hdr = record zero_header { table_id = 0x01 };
    raw =
        1 ∷ 0xb0 ∷ 15 ∷ 0xff ∷ 0xff ∷ 0xc1 ∷ 0 ∷ 0 ∷ 9 ∷ 4 ∷ 0 ∷ 5 ∷ 0xe1 ∷ 0 ∷ 1 ∷ 2 ∷ 3 ∷ 4 ∷ [];
    body = some 8;
  };
  ref = 1;
}

abbrev cat_parser : Parser
cat_parser = record {
  pid = some 0x0001;
  work = none;
  last = some 0;
  pool = empty_list;
  buff = record { elems = cat_section ∷ []; count = 1 };
  stat = record { total = 1; unique = 1; error = 0 };
  next_id = 1;
}

abbrev with_cat : Decoder
with_cat = record with_binding { cat = some cat_parser }

with_cat-Counted : Counted no_one with_cat
with_cat-Counted = record {
  exact = with_binding-Counted.exact;
  points = with_binding-Counted.points;
  fresh = with_binding-Counted.fresh;
  alive = with_binding-Counted.alive;
}

proc_cat-Counted_example :
    (code : Code) × (prv : Decoder) × (proc_cat with_cat ≡ some (code, prv)) × Counted no_one prv
unfolding get get_ts_section_list_head
proc_cat-Counted_example =
    proc_cat-Counted no_one with_cat refl (λ e. absurd (ground (arith, e))) with_cat-Counted

complete_iff_example :
    (check_pmt_complete with_binding ≡ true
      ↔ IsDone (λ (pgrm : Program). pgrm.phase) with_binding.program)
    × (check_ecm_complete with_binding ≡ true
        ↔ IsDone (λ (e : DecryptorElem). e.phase) with_binding.decrypt)
complete_iff_example = complete_iff with_binding
