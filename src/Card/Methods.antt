-- ===== src/Card/Methods.antt =====
-- b1/b_cas_card.c: the methods of a card and what they call. A handle is `none` where
-- `private_data` returns NULL.
pub mod Ecm
pub mod Ready
use recskapa.Base.{
  ℕ, zero, suc, ◌+◌, ◌-◌, ◌*◌, ltb, ◌==◌, if◌then◌else◌, length, take, drop, replicate,
}
use recskapa.Base.{List, [], ◌∷◌, Option, some, none, Bool, true, false, ◌&&◌, ◌||◌, not}
use recskapa.Card.{Scard, Code, ok, invalid_parameter, not_initialized, no_smart_card_reader}
use recskapa.Card.{all_readers_connection_failed, no_enough_memory, transmit_failed}
use recskapa.Card.{InitStatus, EcmResult, Card}
use recskapa.Card.Bytes.{initial_setting_conditions_cmd, card_id_information_acquire_cmd}
use recskapa.Card.Bytes.{setup_ecm_receive_command, load_be_uint16, load_be_uint48}

abbrev pub zero_status : InitStatus
zero_status = record {
  system_key = replicate 32 0;
  init_cbc = replicate 8 0;
  bcas_card_id = 0;
  card_status = 0;
  ca_system_id = 0;
}

-- What `create_b_cas_card` returns if there is memory for it.
unfoldable pub create_b_cas_card : Card
create_b_cas_card = record {
  mng = 0;
  card = 0;
  has_pool = false;
  reader = [];
  stat = zero_status;
  id = [];
  id_max = 0;
}

-- What is read from the answer to the initial setting conditions.
unfoldable pub read_status : List ℕ → InitStatus
read_status p = record {
  system_key = take 32 (drop 8 p);
  init_cbc = take 8 (drop 8 p);
  bcas_card_id = load_be_uint48 (drop 2 p);
  card_status = load_be_uint16 (drop 40 p);
  ca_system_id = load_be_uint16 p;
}

-- The name that `reader` points to; at the end of the names it is empty.
abbrev pub reader_name : List (List ℕ) → List ℕ
reader_name [] = []
reader_name (name ∷ names) = name

abbrev all_ones : List ℕ → Bool
all_ones [] = true
all_ones (b ∷ bs) = b == 0xff && all_ones bs

-- The `switch` on the status word, with the key for the test in its default.
unfoldable pub return_code_of : ℕ → List ℕ → ℕ
return_code_of status key =
    if status == 0xc001
    then 0x0800
    else if status == 0xc000
    then 0xa901
    else if all_ones key
    then 0xa902
    else 0x0800

-- What is written to `dst` for an answer of the card.
unfoldable pub read_ecm : EcmResult → List ℕ → EcmResult
read_ecm dst p = if ltb (length p) 22 then record dst { return_code = 0xa103 } else record {
  scramble_key = take 16 p;
  return_code = return_code_of (load_be_uint16 (drop 18 p)) (take 16 p);
}

-- `malloc` answers whether a request of a size succeeds.
module _ {W : Type 0} (scard : Scard W) (malloc : ℕ → Bool) where
  unfoldable pub teardown : Card → W → Card × W
  teardown prv w =
      let w1 = if prv.card == 0 then w else scard.disconnect prv.card w in
      let w2 = if prv.mng == 0 then w1 else scard.release_context prv.mng w1 in
      (record prv { card = 0; mng = 0; has_pool = false; reader = []; id_max = 0 }, w2)

  unfoldable pub connect_card : Card → List ℕ → W → Bool × Card × W
  connect_card prv name w =
      let w1 = if prv.card == 0 then w else scard.disconnect prv.card w in
      let ((connected, card), w2) = scard.connect prv.mng name w1 in
      let prv1 = record prv { card = card } in
      let (answer, w3) = scard.transmit card initial_setting_conditions_cmd w2 in
      if connected
      then elim answer [
        | none ↦ (false, prv1, w3)
        | some p ↦
            if ltb (length p) 46
            then (false, prv1, w3)
            else (true, record prv1 { stat = read_status p }, w3)
      ]
      else (false, prv1, w2)

  -- The loop over the names.
  unfoldable pub connect_first : Card → List (List ℕ) → W → Card × W
  connect_first prv [] w = (record prv { reader = [] }, w)
  connect_first prv (name ∷ names) w =
      let (connected, prv1, w1) = connect_card prv name w in
      let rest = connect_first prv1 names w1 in
      if connected then (record prv1 { reader = name ∷ names }, w1) else rest

  -- The first call of `SCardListReaders` only asks for the size.
  unfoldable pub init : Option Card → W → Code × Option Card × W
  init none w = (invalid_parameter, none, w)
  init (some prv) w =
      let (prv0, w0) = teardown prv w in
      let (context, w1) = scard.establish_context w0 in
      elim context [
        | none ↦ (no_smart_card_reader, some prv0, w1)
        | some mng ↦
            let prv1 = record prv0 { mng = mng } in
            let (sized, w2) = scard.list_readers mng w1 in
            elim sized [
              | none ↦ (no_smart_card_reader, some prv1, w2)
              | some names ↦
                  let prv2 = record prv1 { has_pool = true; id_max = 16 } in
                  let (listed, w3) = scard.list_readers mng w2 in
                  if malloc (pool_size names)
                  then elim listed [
                    | none ↦ (no_smart_card_reader, some prv2, w3)
                    | some names' ↦
                        let (prv3, w4) = connect_first prv2 names' w3 in
                        if prv3.card == 0
                        then (all_readers_connection_failed, some prv3, w4)
                        else (ok, some prv3, w4)
                  ]
                  else (no_enough_memory, some prv1, w2)
            ]
      ]
    where
      -- The size of the names with their ends, and what the other buffers add.
      names_size : List (List ℕ) → ℕ
      names_size [] = 1
      names_size (name ∷ names) = length name + 1 + names_size names

      pool_size : List (List ℕ) → ℕ
      pool_size names = names_size names + 256 + 2 * 4096 + 8 * 16 + 40 * 16

  -- Released, an object is gone.
  unfoldable pub release : Option Card → W → W
  release none w = w
  release (some prv) w = (teardown prv w).1

  -- The Boolean is false where the pointer to fill is NULL.
  unfoldable pub get_init_status : Option Card → Bool → Code × Option InitStatus
  get_init_status none out = (invalid_parameter, none)
  get_init_status (some prv) false = (invalid_parameter, none)
  get_init_status (some prv) true =
      if prv.card == 0 then (not_initialized, none) else (ok, some prv.stat)

  -- Only the size changes here: the buffers are not modelled.
  pub change_id_max : Card → ℕ → Code × Card
  change_id_max prv max =
      if malloc max then (ok, record prv { id_max = max }) else (no_enough_memory, prv)

  unfoldable pub get_id : Option Card → Bool → W → Code × Option (List ℕ) × Option Card × W
  get_id none out w = (invalid_parameter, none, none, w)
  get_id (some prv) false w = (invalid_parameter, none, some prv, w)
  get_id (some prv) true w =
      let (answer, w1) = scard.transmit prv.card card_id_information_acquire_cmd w in
      if prv.card == 0 then (not_initialized, none, some prv, w) else elim answer [
        | none ↦ (transmit_failed, none, some prv, w1)
        | some p ↦
            let (changed, prv1) = if ltb prv.id_max 1 then change_id_max prv 5 else (ok, prv) in
            let id = load_be_uint48 (drop 2 p) ∷ [] in
            if ltb (length p) 46 then (transmit_failed, none, some prv, w1) else elim changed [
              | ok ↦ (ok, some id, some (record prv1 { id = id }), w1)
              | _ ↦ (no_enough_memory, none, some prv1, w1)
            ]
      ]

  unfoldable pub get_pwr_on_ctrl : Option Card → Code
  get_pwr_on_ctrl handle = invalid_parameter

  -- The `while` loop; the number is how often it may still go around.
  unfoldable pub retry_ecm : ℕ → List ℕ → Option (List ℕ) → Card → W → Option (List ℕ) × Card × W
  retry_ecm n src (some p) prv w = (some p, prv, w)
  retry_ecm zero src none prv w = (none, prv, w)
  retry_ecm (suc n) src none prv w =
      let (connected, prv1, w1) = connect_card prv (reader_name prv.reader) w in
      let (answer, w2) = scard.transmit prv1.card (setup_ecm_receive_command src) w1 in
      let sent : Option (List ℕ) × W = if connected then (answer, w2) else (none, w1) in
      retry_ecm n src sent.0 prv1 sent.1

  abbrev pub finish_ecm :
      EcmResult → Option (List ℕ) × Card × W → Code × Option EcmResult × Option Card × W
  finish_ecm dst (none, prv, w) = (transmit_failed, some dst, some prv, w)
  finish_ecm dst (some p, prv, w) = (ok, some (read_ecm dst p), some prv, w)

  -- `src` is the `len` bytes; `dst` is what the result was before.
  unfoldable pub proc_ecm :
      Option Card
      → Option EcmResult
      → Option (List ℕ)
      → W
      → Code × Option EcmResult × Option Card × W
  proc_ecm none dst src w = (invalid_parameter, dst, none, w)
  proc_ecm (some prv) none src w = (invalid_parameter, none, some prv, w)
  proc_ecm (some prv) (some dst) none w = (invalid_parameter, some dst, some prv, w)
  proc_ecm (some prv) (some dst) (some src) w =
      let (first, w1) = scard.transmit prv.card (setup_ecm_receive_command src) w in
      if ltb (length src) 1
      then (invalid_parameter, some dst, some prv, w)
      else if prv.card == 0
      then (not_initialized, some dst, some prv, w)
      else finish_ecm dst (retry_ecm 10 src first prv w1)
