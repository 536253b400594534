-- ===== src/Section/Parser/Methods/Moves.antt =====
-- b1/ts_section_parser.c: what becomes of an element in hand keeps the lists in order.
use recskapa.Base.{◌≡◌, refl, arith}
use recskapa.Base.{◌==◌, Bool-cases, inl, inr}
use recskapa.Base.{none, Bool, not, ◌&&◌}
use recskapa.Section.Crc.{crc32}
use recskapa.Section.Assembly.{reset_section}
use recskapa.Section.Parser.{Elem, SectionList, Parser, settle}
use recskapa.Section.Parser.{unref_list}
use recskapa.Section.Parser.{
  cancel_elem_empty, cancel_elem_error, cancel_elem_same, commit_elem_updated, same_as_last,
}
use recskapa.Section.Parser.Methods.Owned.{
  Keeps, tally-put, length-put, put_tail_facts, tally-unref_list, length-unref_list, holding,
}

pub cancel_empty-Keeps :
    (prv : Parser) (w : Elem) → prv.work ≡ none → Keeps (holding prv w) (cancel_elem_empty prv w)
unfolding cancel_elem_empty
cancel_empty-Keeps prv w idle = record {
  same_places =
      λ id. ground (arith, tally-put id prv.pool (record w { sect = reset_section; ref = 0 }));
  counted = λ h. ground (
    arith,
    (put_tail_facts prv.pool (record w { sect = reset_section; ref = 0 })).1,
    length-put prv.pool (record w { sect = reset_section; ref = 0 }),
  );
  queued = refl;
  classified = omega arith;
}

pub cancel_error-Keeps :
    (prv : Parser) (w : Elem) → prv.work ≡ none → Keeps (holding prv w) (cancel_elem_error prv w)
unfolding cancel_elem_error
cancel_error-Keeps prv w idle = record {
  same_places =
      λ id. ground (arith, tally-put id prv.pool (record w { sect = reset_section; ref = 0 }));
  counted = λ h. ground (
    arith,
    (put_tail_facts prv.pool (record w { sect = reset_section; ref = 0 })).1,
    length-put prv.pool (record w { sect = reset_section; ref = 0 }),
  );
  queued = refl;
  classified = omega arith;
}

cancel_same-Keeps :
    (prv : Parser) (w : Elem) → prv.work ≡ none → Keeps (holding prv w) (cancel_elem_same prv w)
unfolding cancel_elem_same
cancel_same-Keeps prv w idle = record {
  same_places =
      λ id. ground (arith, tally-put id prv.pool (record w { sect = reset_section; ref = 0 }));
  counted = λ h. ground (
    arith,
    (put_tail_facts prv.pool (record w { sect = reset_section; ref = 0 })).1,
    length-put prv.pool (record w { sect = reset_section; ref = 0 }),
  );
  queued = refl;
  classified = omega arith;
}

commit-Keeps :
    (prv : Parser) (w : Elem) → prv.work ≡ none → Keeps (holding prv w) (commit_elem_updated prv w)
unfolding commit_elem_updated
commit-Keeps prv w idle =
    let buff : SectionList = unref_list prv.last prv.buff in
    let last : Elem = record w { ref = 2 } in
    let pool_facts = length-unref_list prv.last prv.pool in
    let buff_facts = length-unref_list prv.last prv.buff in
    let grown = length-put buff last in
    record {
      same_places = λ id. ground (
        arith,
        tally-put id buff last,
        tally-unref_list id prv.last prv.buff,
        tally-unref_list id prv.last prv.pool,
      );
      counted = λ h. ground (arith, (put_tail_facts buff last).1, buff_facts, pool_facts, grown);
      queued = ground (arith, grown, buff_facts);
      classified = omega arith;
    }

pub settle-Keeps :
    (prv : Parser) (w : Elem) → prv.work ≡ none → Keeps (holding prv w) (settle prv w).1
unfolding settle
settle-Keeps prv w idle =
    let broken : Bool =
      not (w.sect.hdr.section_syntax_indicator == 0) && not (crc32 w.sect.raw == 0) in
    elim (Bool-cases broken) [
      | inl e ↦ rw (settle, e) (cancel_error-Keeps prv w idle)
      | inr e ↦ elim (Bool-cases (same_as_last prv w)) [
        | inl seen ↦ rw (settle, e, seen) (cancel_same-Keeps prv w idle)
        | inr fresh ↦ rw (settle, e, fresh) (commit-Keeps prv w idle)
      ]
    ]

pub settle-idle : (prv : Parser) (w : Elem) → prv.work ≡ none → (settle prv w).1.work ≡ none
unfolding settle cancel_elem_error cancel_elem_same commit_elem_updated
settle-idle prv w idle = ground (arith, idle)
