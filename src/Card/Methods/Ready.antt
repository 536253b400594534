-- ===== src/Card/Methods/Ready.antt =====
-- b1/b_cas_card.c: a card that is connected has its buffers.
use recskapa.Base.{ℕ, zero, suc, ◌≡◌, ◌≢◌, refl, ◌∙◌, arith}
use recskapa.Base.{if◌then◌else◌, List, [], ◌∷◌}
use recskapa.Base.{Option, some, none, Bool, true}
use recskapa.Card.{Scard, no_enough_memory, EcmResult, Card}
use recskapa.Card.Bytes.{setup_ecm_receive_command}
use recskapa.Card.Methods.{
  create_b_cas_card, teardown, connect_card, connect_first, init, get_id, retry_ecm, change_id_max,
  proc_ecm, reader_name,
}

-- A card that has a handle has its buffers, with room for 16 numbers.
abbrev pub IsReady : Card → Type 0
IsReady prv = prv.card ≢ 0 → (prv.has_pool ≡ true) × (prv.id_max ≡ 16)

module _ {W : Type 0} (scard : Scard W) (malloc : ℕ → Bool) where
  connect_card-keeps :
      (prv : Card) (name : List ℕ) (w : W)
      → let prv' = (connect_card scard malloc prv name w).1 in
        (prv'.has_pool ≡ prv.has_pool) × (prv'.id_max ≡ prv.id_max)
  unfolding connect_card
  connect_card-keeps prv name w = ground arith

  connect_first-keeps :
      (prv : Card) (names : List (List ℕ)) (w : W)
      → let prv' = (connect_first scard malloc prv names w).0 in
        (prv'.has_pool ≡ prv.has_pool) × (prv'.id_max ≡ prv.id_max)
  unfolding connect_first
  connect_first-keeps prv [] w = (refl, refl)
  connect_first-keeps prv (name ∷ names) w =
      let (connected, prv1, w1) = connect_card scard malloc prv name w in
      ground (arith, connect_card-keeps prv name w, connect_first-keeps prv1 names w1)

  retry_ecm-keeps :
      (n : ℕ) (src : List ℕ) (answer : Option (List ℕ)) (prv : Card) (w : W)
      → let prv' = (retry_ecm scard malloc n src answer prv w).1 in
        (prv'.has_pool ≡ prv.has_pool) × (prv'.id_max ≡ prv.id_max)
  unfolding retry_ecm
  retry_ecm-keeps n src (some p) prv w = (refl, refl)
  retry_ecm-keeps zero src none prv w = (refl, refl)
  retry_ecm-keeps (suc n) src none prv w =
      let (connected, prv1, w1) = connect_card scard malloc prv (reader_name prv.reader) w in
      let (answer, w2) = scard.transmit prv1.card (setup_ecm_receive_command src) w1 in
      let sent : Option (List ℕ) × W = if connected then (answer, w2) else (none, w1) in
      let (pool, room) = connect_card-keeps prv (reader_name prv.reader) w in
      let (pool', room') = retry_ecm-keeps n src sent.0 prv1 sent.1 in (pool' ∙ pool, room' ∙ room)

  init-IsReady :
      (prv prv' : Card) (w : W) → (init scard malloc (some prv) w).1 ≡ some prv' → IsReady prv'
  unfolding init teardown
  init-IsReady prv prv' w e = grind (arith, connect_first-keeps)

  get_id-IsReady :
      (prv prv' : Card) (w : W)
      → (get_id scard malloc (some prv) true w).2 ≡ some prv'
      → IsReady prv
      → IsReady prv'
  unfolding get_id change_id_max
  get_id-IsReady prv prv' w e h = ground (arith, h)

  proc_ecm-IsReady :
      (prv prv' : Card) (dst : EcmResult) (src : List ℕ) (w : W)
      → (proc_ecm scard malloc (some prv) (some dst) (some src) w).2 ≡ some prv'
      → IsReady prv
      → IsReady prv'
  unfolding proc_ecm
  proc_ecm-IsReady prv prv' dst src w e h =
      let (first, w1) = scard.transmit prv.card (setup_ecm_receive_command src) w in
      ground (arith, h, retry_ecm-keeps 10 src first prv w1)

  -- The states of a card, from its creation on.
  pub data Reachable : Card → Type 0 where
    created : Reachable create_b_cas_card
    by_init :
        (prv prv' : Card) (w : W)
        → (init scard malloc (some prv) w).1 ≡ some prv'
        → Reachable prv
        → Reachable prv'
    by_get_id :
        (prv prv' : Card) (w : W)
        → (get_id scard malloc (some prv) true w).2 ≡ some prv'
        → Reachable prv
        → Reachable prv'
    by_proc_ecm :
        (prv prv' : Card) (dst : EcmResult) (src : List ℕ) (w : W)
        → (proc_ecm scard malloc (some prv) (some dst) (some src) w).2 ≡ some prv'
        → Reachable prv
        → Reachable prv'

  reached-IsReady : (prv : Card) → Reachable prv → IsReady prv
  unfolding create_b_cas_card
  reached-IsReady _ created = λ h. absurd (h refl)
  reached-IsReady _ (by_init prv prv' w e h) = init-IsReady prv prv' w e
  reached-IsReady _ (by_get_id prv prv' w e h) = get_id-IsReady prv prv' w e (reached-IsReady prv h)
  reached-IsReady _ (by_proc_ecm prv prv' dst src w e h) =
      proc_ecm-IsReady prv prv' dst src w e (reached-IsReady prv h)

  get_id_enough :
      (prv : Card) (w : W)
      → IsReady prv
      → (get_id scard malloc (some prv) true w).0 ≢ no_enough_memory
  unfolding get_id
  get_id_enough prv w h = λ e. ground (arith, h, e)

  -- Whatever the reader and the card answer, a card that has a handle has its buffers, with room for
  -- 16 numbers, in every state that calls of the methods lead to; so the branch of `get_id` that
  -- asks for more room is never taken, and it never fails for want of memory.
  pub Reachable-IsReady :
      (prv : Card)
      → Reachable prv
      → IsReady prv × ((w : W) → (get_id scard malloc (some prv) true w).0 ≢ no_enough_memory)
  Reachable-IsReady prv reached =
      (reached-IsReady prv reached, λ w. get_id_enough prv w (reached-IsReady prv reached))
