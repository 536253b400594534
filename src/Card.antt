-- ===== src/Card.antt =====
-- b1/b_cas_card.c, b1/b_cas_card.h and b1/b_cas_card_error_code.h: the card behind a smart card
-- reader. The reader's library is the record `Scard`: each call takes the state of the world and
-- returns the next one. Memory is not looked at but for its sizes; freed memory is not modelled.
pub mod Bytes
pub mod Methods
mod Tests
use recskapa.Base.{ℕ, List, Option, Bool, true, false}

-- The calls of PC/SC that the source makes. `connect` returns whether it succeeded and the handle
-- that it left; `transmit` returns the bytes that the card answers, at most as many as asked for.
pub record Scard (W : Type 0) : Type 0 where
  pub establish_context : W → Option ℕ × W
  pub list_readers : ℕ → W → Option (List (List ℕ)) × W
  pub connect : ℕ → List ℕ → W → (Bool × ℕ) × W
  pub transmit : ℕ → List ℕ → W → Option (List ℕ) × W
  pub disconnect : ℕ → W → W
  pub release_context : ℕ → W → W

-- 0, and the codes of b_cas_card_error_code.h.
pub data Code : Type 0 where
  ok invalid_parameter not_initialized no_smart_card_reader : Code
  all_readers_connection_failed no_enough_memory transmit_failed : Code

-- Below 0.
abbrev pub is_failure : Code → Bool
is_failure ok = false
is_failure _ = true

-- `B_CAS_INIT_STATUS`.
pub record InitStatus : Type 0 where
  pub system_key : List ℕ
  pub init_cbc : List ℕ
  pub bcas_card_id : ℕ
  pub card_status : ℕ
  pub ca_system_id : ℕ

-- `B_CAS_ECM_RESULT`.
pub record EcmResult : Type 0 where
  pub scramble_key : List ℕ
  pub return_code : ℕ

-- `B_CAS_CARD_PRIVATE_DATA` without the power-on control data, which nothing fills. `reader` is the
-- names from the one that the field points to; `has_pool` is whether `pool` is not NULL.
pub record Card : Type 0 where
  pub mng : ℕ
  pub card : ℕ
  pub has_pool : Bool
  pub reader : List (List ℕ)
  pub stat : InitStatus
  pub id : List ℕ
  pub id_max : ℕ
