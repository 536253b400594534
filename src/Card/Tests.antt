-- ===== src/Card/Tests.antt =====
-- b1/b_cas_card.c: the theorems at a reader with one card, which does not answer at first.
use recskapa.Base.{ℕ, ◌+◌, ◌≤◌, ◌<◌, ◌≡◌, ◌≢◌, ◌↔◌, ◌⊎◌, refl, arith, ◌==◌, if◌then◌else◌}
use recskapa.Base.{List, [], ◌∷◌, length, take, drop, get_or, replicate, some, none, Bool, true}
use recskapa.Card.{Scard, ok, no_enough_memory, transmit_failed, EcmResult, Card}
use recskapa.Card.Bytes.{load_be_uint16, setup_ecm_receive_command, b_cas_buffer_max}
use recskapa.Card.Bytes.{setup_ecm_receive_command_lem}
use recskapa.Card.Methods.{
  create_b_cas_card, init, connect_card, connect_first, teardown, read_status, read_ecm, get_id,
  proc_ecm, retry_ecm,
}
use recskapa.Card.Methods.Ecm.{read_ecm_lem, Unanswered, try_ecm, proc_ecm_tries}
use recskapa.Card.Methods.Ready.{IsReady, created, by_init, Reachable-IsReady}

abbrev one_card : Scard ℕ
one_card = record {
  establish_context = λ w. (some 7, w + 1);
  list_readers = λ context w. (some ((82 ∷ []) ∷ []), w + 1);
  connect = λ context name w. ((true, 5), w + 1);
  transmit = λ card cmd w. (if w == 0 then none else some (replicate 46 0), w + 1);
  disconnect = λ card w. w + 1;
  release_context = λ context w. w + 1;
}

abbrev enough : ℕ → Bool
enough size = true

abbrev key : EcmResult
key = record { scramble_key = replicate 16 0; return_code = 0 }

abbrev zeros : List ℕ
zeros = replicate 46 0

abbrev connected : Card
connected = record {
  mng = 7;
  card = 5;
  has_pool = true;
  reader = (82 ∷ []) ∷ [];
  stat = read_status (replicate 46 0);
  id = [];
  id_max = 16;
}

init_connects : init one_card enough (some create_b_cas_card) 0 ≡ (ok, some connected, 5)
unfolding init connect_card connect_first teardown create_b_cas_card read_status
init_connects = refl

Reachable-IsReady_example :
    IsReady connected
    × ((w : ℕ) → (get_id one_card enough (some connected) true w).0 ≢ no_enough_memory)
unfolding init connect_card connect_first teardown create_b_cas_card read_status
Reachable-IsReady_example =
    Reachable-IsReady one_card enough connected (by_init create_b_cas_card connected 0 refl created)

proc_ecm_tries_example :
    (k : ℕ) × Unanswered one_card enough (1 ∷ []) connected 0 k
    × (let (answer, prv', w') = try_ecm one_card enough (1 ∷ []) connected 0 k in
        let result = proc_ecm one_card enough (some connected) (some key) (some (1 ∷ [])) 0 in
        ((k ≤ 10)
          × ((p : List ℕ) × (answer ≡ some p)
              × (result ≡ (ok, some (read_ecm key p), some prv', w'))))
        ⊎ ((k ≡ 10) × (answer ≡ none) × (result ≡ (transmit_failed, some key, some prv', w'))))
proc_ecm_tries_example =
    proc_ecm_tries one_card enough connected key (1 ∷ []) 0 (omega arith)
      (λ e. absurd (omega (arith, e)))

-- The first try is not answered, and the second one is.
answered_again :
    proc_ecm one_card enough (some connected) (some key) (some (1 ∷ [])) 0
    ≡ (ok, some (read_ecm key zeros), some connected, 5)
unfolding proc_ecm retry_ecm connect_card read_status
answered_again = refl

read_ecm_lem_example :
    let status = load_be_uint16 (drop 18 (zeros)) in
    ((22 ≤ 46)
      × ((read_ecm key (zeros)).scramble_key ≡ take 16 zeros)
      × ((read_ecm key (zeros)).return_code ≡ 0x0800
          ↔ (status ≡ 0xc001) ⊎ ((status ≢ 0xc000) × (take 16 zeros ≢ replicate 16 0xff))))
    ⊎ ((46 < 22)
        × ((read_ecm key (zeros)).scramble_key ≡ take 16 zeros)
        × ((read_ecm key (zeros)).return_code ≡ 0xa103))
read_ecm_lem_example = read_ecm_lem key (zeros)

setup_ecm_receive_command_lem_example :
    let cmd = setup_ecm_receive_command (1 ∷ 2 ∷ []) in
    (length cmd ≡ 8)
    × (length cmd ≤ b_cas_buffer_max ↔ 2 ≤ 4090)
    × (get_or cmd 4 0 ≡ 2)
    × (take 2 (drop 5 cmd) ≡ 1 ∷ 2 ∷ [])
setup_ecm_receive_command_lem_example = setup_ecm_receive_command_lem (1 ∷ 2 ∷ [])
