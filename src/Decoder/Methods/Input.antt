-- ===== src/Decoder/Methods/Input.antt =====
-- b1/arib_std_b1.c: the methods that work on the input or with the card.
use recskapa.Base.{ℕ, ◌*◌, ltb, if◌then◌else◌, List, [], ◌∷◌, Option, some, none, Bool, true, false}
use recskapa.Card
use recskapa.Card.{Card}
use recskapa.Card.Methods.{get_init_status, get_id}
use recskapa.Decoder.{Code, ok, invalid_param, no_enough_memory, non_ts_input_stream}
use recskapa.Decoder.{
  no_pat_in_head_16m, no_pmt_in_head_32m, no_ecm_in_head_32m, invalid_b_cas_status,
}
use recskapa.Decoder.{Decoder}
use recskapa.Decoder.Flow.{proc_arib_std_b1, run_packets}
use recskapa.Decoder.Phase.{check_pmt_complete, check_ecm_complete}
use recskapa.Decoder.Platform.{Platform, System, Run, done, with_result, is_negative}
use recskapa.Decoder.Search.{find_pat, find_pmt, find_ecm}
use recskapa.Stream.UnitSize.{select_unit_size}
use recskapa.Stream.WorkBuffer.{append_work_buffer}

-- `select_unit_size` on the state.
unfoldable pub set_unit_size : Decoder → Code × Decoder
set_unit_size prv = elim (select_unit_size prv.sbuf.bytes) [
  | none ↦ (non_ts_input_stream, prv)
  | some n ↦ (ok, record prv { unit_size = n })
]

-- Where the size of a unit is not known yet.
abbrev pub know_unit_size : Decoder → Code × Decoder
know_unit_size prv = if ltb prv.unit_size 188 then set_unit_size prv else (ok, prv)

-- `p_count` is at least 1.
abbrev pub has_programs : Decoder → Bool
has_programs prv = elim prv.program [ [] ↦ false | _ ∷ _ ↦ true ]

abbrev pub mega : ℕ
mega = 1024 * 1024

module _ {W : Type 0} (on : Platform W) where
  abbrev pub Outcome : Type 0
  Outcome = Run (Code × System W)

  -- The object of the card is `none` where the pointer is NULL.
  unfoldable pub set_b_cas_card_arib_std_b1 :
      Option (System W) → Option Card → Code × Option (System W)
  set_b_cas_card_arib_std_b1 none bcas = (invalid_param, none)
  set_b_cas_card_arib_std_b1 (some sys) none = (ok, some (record sys { bcas = none }))
  set_b_cas_card_arib_std_b1 (some sys) (some card) =
      let (n, status) = get_init_status on.scard on.malloc (some card) true in
      let sys1 = record sys { bcas = some card } in
      let (m, id, card', w') = get_id on.scard on.malloc (some card) true sys.world in
      elim status [
        | none ↦ (invalid_b_cas_status, some sys1)
        | some is ↦
            let sys2 = record sys {
              prv = record sys.prv { ca_system_id = is.ca_system_id };
              bcas = card';
              world = w';
            } in
            elim m [ Card.Code.ok ↦ (ok, some sys2) | _ ↦ (invalid_b_cas_status, some sys2) ]
      ]

  -- A step of `put`: nothing is searched where it is complete; the search gives up at a distance
  -- from the head, and `next` goes on where it completes.
  unfoldable pub search_stage :
      (Decoder → Bool) → (System W → Outcome) → ℕ → Code → (System W → Outcome) → System W → Outcome
  search_stage complete find limit code next sys =
      if complete sys.prv
      then next sys
      else with_result (find sys) (λ (n, sys1).
        if is_negative n
        then done (n, sys1)
        else if complete sys1.prv
        then next (record sys1 { prv = record sys1.prv { sbuf_offset = 0 } })
        else if ltb sys1.prv.sbuf_offset limit
        then done (ok, sys1)
        else done (code, sys1))

  -- From the search for the PAT on.
  unfoldable pub put_stages : System W → Outcome
  put_stages = search_stage has_programs (find_pat on) (16 * mega) no_pat_in_head_16m (
      search_stage check_pmt_complete (find_pmt on) (32 * mega) no_pmt_in_head_32m (
        search_stage check_ecm_complete (find_ecm on) (32 * mega) no_ecm_in_head_32m
          (proc_arib_std_b1 on)))

  unfoldable pub put_input : System W → List ℕ → Outcome
  put_input sys bytes =
      let (enough, sbuf) = append_work_buffer on.malloc sys.prv.sbuf bytes in
      let prv1 = record sys.prv { sbuf = sbuf } in
      let (n, prv2) = know_unit_size prv1 in
      let sys2 = record sys { prv = prv2 } in
      if enough
      then (if is_negative n
          then done (n, sys2)
          else if ltb prv2.unit_size 188
          then done (ok, sys2)
          else put_stages sys2)
      else done (no_enough_memory, record sys { prv = prv1 })

  unfoldable pub flush_bytes : System W → Outcome
  flush_bytes sys =
      let (n, prv1) = know_unit_size sys.prv in
      let sys1 = record sys { prv = prv1 } in
      if is_negative n
      then done (n, sys1)
      else with_result (proc_arib_std_b1 on sys1)
          (λ (r, sys2). if is_negative r then done (r, sys2) else run_packets on true sys2)

  abbrev pub keep_handle : Code × System W → Run (Code × Option (System W))
  keep_handle (r, sys) = done (r, some sys)

  -- The buffer is `none` where the pointer is NULL.
  unfoldable pub put_arib_std_b1 :
      Option (System W) → Option (List ℕ) → Run (Code × Option (System W))
  put_arib_std_b1 none buf = done (invalid_param, none)
  put_arib_std_b1 (some sys) none = done (invalid_param, some sys)
  put_arib_std_b1 (some sys) (some bytes) = with_result (put_input sys bytes) keep_handle

  unfoldable pub flush_arib_std_b1 : Option (System W) → Run (Code × Option (System W))
  flush_arib_std_b1 none = done (invalid_param, none)
  flush_arib_std_b1 (some sys) = with_result (flush_bytes sys) keep_handle
