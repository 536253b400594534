-- ===== src/Multi2/Handle.antt =====
-- b1/multi2.c and b1/multi2_error_code.h: the object behind `MULTI2` and its methods. A handle is
-- `none` where `private_data` returns NULL, which is for NULL and for a pointer to another object.
-- A method that updates the object returns it beside its status.
pub mod Flags
pub mod Cipher
pub mod Tests
use recskapa.Base.{ℕ, ◌+◌, ◌-◌, ◌^◌, ltb, ◌==◌, if◌then◌else◌, bit_and, bit_or, take, drop}
use recskapa.Base.{Option, some, none, List, ◌++◌, Bool, true, false}
use recskapa.Multi2.Word.{load_word}
use recskapa.Multi2.Core.{CoreParam, CoreData, core_schedule}
use recskapa.Multi2.Mode.{encrypt_from, decrypt_from}

-- 0, and the codes of multi2_error_code.h.
pub data Status : Type 0 where
  ok invalid_parameter unset_system_key unset_cbc_init unset_scramble_key : Status

-- `MULTI2_PRIVATE_DATA`; `scr` and `wrk` have the odd entry first. `round` is the bit pattern of
-- the `uint32_t`.
pub record Multi2 : Type 0 where
  pub ref_count : ℕ
  pub cbc_init : CoreData
  pub sys : CoreParam
  pub scr0 : CoreData
  pub scr1 : CoreData
  pub wrk0 : CoreParam
  pub wrk1 : CoreParam
  pub round : ℕ
  pub state : ℕ

abbrev pub cbc_init_set : ℕ
cbc_init_set = 1

abbrev pub system_key_set : ℕ
system_key_set = 2

abbrev pub scramble_key_set : ℕ
scramble_key_set = 4

abbrev pub zero_data : CoreData
zero_data = record { l = 0; r = 0 }

abbrev pub zero_param : CoreParam
zero_param = record {
  key0 = 0;
  key1 = 0;
  key2 = 0;
  key3 = 0;
  key4 = 0;
  key5 = 0;
  key6 = 0;
  key7 = 0;
}

-- What `calloc` and the assignments leave. That memory runs out is not modelled here.
unfoldable pub create_multi2 : Multi2
create_multi2 = record {
  ref_count = 1;
  cbc_init = zero_data;
  sys = zero_param;
  scr0 = zero_data;
  scr1 = zero_data;
  wrk0 = zero_param;
  wrk1 = zero_param;
  round = 4;
  state = 0;
}

-- `none` when the last reference is dropped and the object freed.
unfoldable pub release : Option Multi2 → Option Multi2
release none = none
release (some prv) =
    let left = prv.ref_count - 1 in
    if left == 0 then none else some (record prv { ref_count = left })

unfoldable pub add_ref : Option Multi2 → Status × Option Multi2
add_ref none = (invalid_parameter, none)
add_ref (some prv) = (ok, some (record prv { ref_count = prv.ref_count + 1 }))

unfoldable pub set_round : Option Multi2 → ℕ → Status × Option Multi2
set_round none val = (invalid_parameter, none)
set_round (some prv) val = (ok, some (record prv { round = val }))

-- The word that begins at byte `i` of what `val` points to.
abbrev word_at : List ℕ → ℕ → ℕ
word_at val i = load_word (drop i val)

abbrev pub load_param : List ℕ → CoreParam
load_param val = record {
  key0 = word_at val 0;
  key1 = word_at val 4;
  key2 = word_at val 8;
  key3 = word_at val 12;
  key4 = word_at val 16;
  key5 = word_at val 20;
  key6 = word_at val 24;
  key7 = word_at val 28;
}

abbrev pub load_data : List ℕ → ℕ → CoreData
load_data val i = record { l = word_at val i; r = word_at val (i + 4) }

-- `val` points to 32 bytes.
unfoldable pub set_system_key : Option Multi2 → Option (List ℕ) → Status × Option Multi2
set_system_key none val = (invalid_parameter, none)
set_system_key (some prv) none = (invalid_parameter, some prv)
set_system_key (some prv) (some val) =
    (ok, some (record prv { sys = load_param val; state = bit_or prv.state system_key_set }))

-- `val` points to 8 bytes.
unfoldable pub set_init_cbc : Option Multi2 → Option (List ℕ) → Status × Option Multi2
set_init_cbc none val = (invalid_parameter, none)
set_init_cbc (some prv) none = (invalid_parameter, some prv)
set_init_cbc (some prv) (some val) =
    (ok, some (record prv { cbc_init = load_data val 0; state = bit_or prv.state cbc_init_set }))

-- `val` points to 16 bytes.
unfoldable pub set_scramble_key : Option Multi2 → Option (List ℕ) → Status × Option Multi2
set_scramble_key none val = (invalid_parameter, none)
set_scramble_key (some prv) none = (invalid_parameter, some prv)
set_scramble_key (some prv) (some val) = (
  ok,
  some (record prv {
    scr0 = load_data val 0;
    scr1 = load_data val 8;
    wrk0 = core_schedule prv.sys (load_data val 0);
    wrk1 = core_schedule prv.sys (load_data val 8);
    state = bit_or prv.state scramble_key_set;
  }),
)

unfoldable pub clear_scramble_key : Option Multi2 → Status × Option Multi2
clear_scramble_key none = (invalid_parameter, none)
clear_scramble_key (some prv) = (
  ok,
  some (record prv {
    scr0 = zero_data;
    scr1 = zero_data;
    wrk0 = zero_param;
    wrk1 = zero_param;
    state = bit_and prv.state (2 ^ 32 - 1 - scramble_key_set);
  }),
)

-- The tests on `prv->state` with which `encrypt_multi2` and `decrypt_multi2` begin.
unfoldable pub check_state : ℕ → Status
check_state state =
    if state == bit_or (bit_or cbc_init_set system_key_set) scramble_key_set
    then ok
    else if bit_and state cbc_init_set == 0
    then unset_cbc_init
    else if bit_and state system_key_set == 0
    then unset_system_key
    else if bit_and state scramble_key_set == 0
    then unset_scramble_key
    else ok

-- The work key for the scrambling control bits.
abbrev pub select_key : Multi2 → ℕ → CoreParam
select_key prv type = if type == 2 then prv.wrk1 else prv.wrk0

-- The passes of a loop `for(i=0;i<round;i++)` whose bound is that pattern read as an `int32_t`.
abbrev pub passes : ℕ → ℕ
passes round = if ltb round (2 ^ 31) then round else 0

-- A size below 1 is refused, so a negative one is represented by 0. The bytes behind the first
-- `size` are not touched.
abbrev process :
    (ℕ → CoreParam → CoreData → List ℕ → List ℕ)
    → Option Multi2
    → ℕ
    → Option (List ℕ)
    → ℕ
    → Status × Option (List ℕ)
process from none type buf size = (invalid_parameter, buf)
process from (some prv) type none size = (invalid_parameter, none)
process from (some prv) type (some buf) size =
    if size == 0 then (invalid_parameter, some buf) else elim (check_state prv.state) [
      | ok ↦ (
        ok,
        some (
            from (passes prv.round) (select_key prv type) prv.cbc_init (take size buf)
            ++ drop size buf),
      )
      | e ↦ (e, some buf)
    ]

unfoldable pub encrypt : Option Multi2 → ℕ → Option (List ℕ) → ℕ → Status × Option (List ℕ)
encrypt = process encrypt_from

unfoldable pub decrypt : Option Multi2 → ℕ → Option (List ℕ) → ℕ → Status × Option (List ℕ)
decrypt = process decrypt_from
