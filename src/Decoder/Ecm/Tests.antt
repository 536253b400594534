-- ===== src/Decoder/Ecm/Tests.antt =====
-- b1/arib_std_b1.c: an ECM that the card answers, and one that comes to a locked decryptor.
use recskapa.Base.{ℕ, ◌+◌, arith, replicate, [], ◌∷◌, ◌++◌, some, none, Bool, true}
use recskapa.Card.{Scard, EcmResult, Card}
use recskapa.Card.Methods.{zero_status}
use recskapa.Decoder.{DecryptorElem}
use recskapa.Decoder.Ecm.{proc_ecm}
use recskapa.Decoder.Ecm.Locked.{IsSpared, proc_ecm_locked}
use recskapa.Section.Assembly.{zero_header}
use recskapa.Section.Parser.{Elem, empty_list}

-- A card that answers the status word 0xc001 and counts the calls.
abbrev answering : Scard ℕ
answering = record {
  establish_context = λ w. (some 7, w);
  list_readers = λ context w. (some [], w);
  connect = λ context name w. ((true, 5), w);
  transmit = λ card cmd w. (some (replicate 18 1 ++ (0xc0 ∷ 1 ∷ 0 ∷ 0 ∷ [])), w + 1);
  disconnect = λ card w. w;
  release_context = λ context w. w;
}

abbrev enough : ℕ → Bool
enough size = true

abbrev on_stack : EcmResult
on_stack = record { scramble_key = replicate 16 0; return_code = 0 }

abbrev card : Card
card = record {
  mng = 7;
  card = 5;
  has_pool = true;
  reader = [];
  stat = zero_status;
  id = [];
  id_max = 16;
}

abbrev ecm_section : Elem
ecm_section = record {
  id = 0;
  sect = record {
    hdr = record zero_header { table_id = 0x82 };
    raw = 0x82 ∷ 0xb0 ∷ 10 ∷ 0 ∷ 0 ∷ 0xc1 ∷ 0 ∷ 0 ∷ 42 ∷ 1 ∷ 2 ∷ 3 ∷ 4 ∷ [];
    body = some 8;
  };
  ref = 1;
}

-- A decryptor whose parser has an ECM, and how often it is locked.
abbrev waiting : ℕ → DecryptorElem
waiting locked = record {
  id = 0;
  ref = 1;
  phase = 0;
  locked = locked;
  ecm_pid = 0x200;
  ecm = record {
    pid = some 0x200;
    work = none;
    last = some 0;
    pool = empty_list;
    buff = record { elems = ecm_section ∷ []; count = 1 };
    stat = record { total = 1; unique = 1; error = 0 };
    next_id = 1;
  };
  m2 = none;
  unpurchased = 0;
  last_error = 0;
}

proc_ecm_locked_example :
    IsSpared
      (waiting 1)
      card
      0
      (proc_ecm answering enough true on_stack (waiting 1) (some card) 4 0)
proc_ecm_locked_example =
    proc_ecm_locked answering enough true on_stack (waiting 1) card 4 0
      (λ e. absurd (omega (arith, e)))
