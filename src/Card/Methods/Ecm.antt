-- ===== src/Card/Methods/Ecm.antt =====
-- b1/b_cas_card.c: what `proc_ecm` returns on every branch, and how often it asks the card.
use mathlib.Core.Path.{subst}
use recskapa.Base.{
  length-take, ℕ, zero, suc, ◌+◌, ◌≤◌, Option-cases, ◌<◌, ◌≡◌, ◌≢◌, ◌↔◌, ◌⊎◌, inl, inr, refl, ap,
  ◌∙◌, arith,
}
use recskapa.Base.{
  ltb, ◌==◌, if◌then◌else◌, Bool-cases, length, take, drop, replicate, List, [], ◌∷◌,
}
use recskapa.Base.{Option, some, none, Bool, true, false}
use recskapa.Card.{Scard, ok, transmit_failed, EcmResult, Card}
use recskapa.Card.Bytes.{load_be_uint16, setup_ecm_receive_command}
use recskapa.Card.Methods.{
  read_ecm, return_code_of, all_ones, connect_card, retry_ecm, proc_ecm, reader_name, finish_ecm,
}

all_ones_iff : (bs : List ℕ) → all_ones bs ≡ true ↔ bs ≡ replicate (length bs) 0xff
all_ones_iff [] = (λ h. refl, λ h. refl)
all_ones_iff (b ∷ bs) = ground (arith, all_ones_iff bs)

-- For an answer of at least 22 bytes, the code says that the key may be used exactly if the status
-- word is 0xc001, or is not 0xc000 and the 16 bytes of the key are not all 0xff; the key is the
-- first 16 bytes. For a shorter answer the code is 0xa103 and the key is what it was.
pub read_ecm_lem :
    (dst : EcmResult) (p : List ℕ)
    → let status = load_be_uint16 (drop 18 p) in
      ((22 ≤ length p)
        × ((read_ecm dst p).scramble_key ≡ take 16 p)
        × ((read_ecm dst p).return_code ≡ 0x0800
            ↔ (status ≡ 0xc001) ⊎ ((status ≢ 0xc000) × (take 16 p ≢ replicate 16 0xff))))
      ⊎ ((length p < 22)
          × ((read_ecm dst p).scramble_key ≡ dst.scramble_key)
          × ((read_ecm dst p).return_code ≡ 0xa103))
unfolding read_ecm return_code_of
read_ecm_lem dst p =
    let ones : 22 ≤ length p → all_ones (take 16 p) ≡ true ↔ take 16 p ≡ replicate 16 0xff = λ h.
      let e : length (take 16 p) ≡ 16 = omega (arith, length-take 16 p) in
      subst (λ (n : ℕ). all_ones (take 16 p) ≡ true ↔ take 16 p ≡ replicate n 0xff) e
        (all_ones_iff (take 16 p)) in
    elim (Bool-cases (ltb (length p) 22)) [
      | inl short ↦ inr (ground arith, ground (arith, short), ground (arith, short))
      | inr long ↦
          let enough : 22 ≤ length p = ground arith in
          inl (enough, ground (arith, long), ground (arith, long, ones enough))
    ]

module _ {W : Type 0} (scard : Scard W) (malloc : ℕ → Bool) where
  -- The tries to have the card answer an ECM, from 0 on: what it answers, and the card and the world
  -- after it. Each but the first connects to the card again, and sends the command if it can.
  abbrev pub try_ecm : List ℕ → Card → W → ℕ → Option (List ℕ) × Card × W
  try_ecm src prv w zero =
      let (answer, w1) = scard.transmit prv.card (setup_ecm_receive_command src) w in
      (answer, prv, w1)
  try_ecm src prv w (suc n) =
      let (before, prv1, w1) = try_ecm src prv w n in
      let (connected, prv2, w2) = connect_card scard malloc prv1 (reader_name prv1.reader) w1 in
      let (answer, w3) = scard.transmit prv2.card (setup_ecm_receive_command src) w2 in
      let sent : Option (List ℕ) × W = if connected then (answer, w3) else (none, w2) in
      (sent.0, prv2, sent.1)

  -- No try before the `k`-th was answered.
  abbrev pub Unanswered : List ℕ → Card → W → ℕ → Type 0
  Unanswered src prv w k = (i : ℕ) → i < k → (try_ecm src prv w i).0 ≡ none

  -- The loop goes on from a try to the next.
  retry_step :
      (n : ℕ) (src : List ℕ) (prv : Card) (w : W) (i : ℕ)
      → let t = try_ecm src prv w i in
        let t' = try_ecm src prv w (suc i) in
        t.0 ≡ none
        → retry_ecm scard malloc (suc n) src t.0 t.1 t.2
          ≡ retry_ecm scard malloc n src t'.0 t'.1 t'.2
  unfolding retry_ecm
  retry_step n src prv w i e =
      let t = try_ecm src prv w i in ap (λ a. retry_ecm scard malloc (suc n) src a t.1 t.2) e

  -- The loop ends at once with an answer, and without one when no more tries are left.
  retry_end :
      (n : ℕ) (src : List ℕ) (t : Option (List ℕ) × Card × W)
      → (n ≡ 0) ⊎ ((p : List ℕ) × (t.0 ≡ some p))
      → retry_ecm scard malloc n src t.0 t.1 t.2 ≡ t
  unfolding retry_ecm
  retry_end n src (some p, prv, w) h = refl
  retry_end zero src (none, prv, w) h = refl
  retry_end (suc n) src (none, prv, w) (inl e) = absurd (omega (arith, e))
  retry_end (suc n) src (none, prv, w) (inr (p, e)) = absurd (cc e)

  -- The answer of a try, for which no one before it was answered: it has one, or it is the last one.
  abbrev pub IsDecided : List ℕ → Card → W → ℕ → ℕ → Type 0
  IsDecided src prv w bound k =
      Unanswered src prv w k
      × (((k ≤ bound) × ((p : List ℕ) × ((try_ecm src prv w k).0 ≡ some p)))
          ⊎ ((k ≡ bound) × ((try_ecm src prv w k).0 ≡ none)))

  Unanswered-suc :
      (src : List ℕ) (prv : Card) (w : W) (k : ℕ)
      → Unanswered src prv w k
      → (try_ecm src prv w k).0 ≡ none
      → Unanswered src prv w (suc k)
  Unanswered-suc src prv w k before e i h = elim (Nat-cases i k h) [
    | inl less ↦ before i less
    | inr same ↦ subst (λ (j : ℕ). (try_ecm src prv w j).0 ≡ none) same e
  ]
    where
      Nat-cases : (i k : ℕ) → i < suc k → (i < k) ⊎ (k ≡ i)
      Nat-cases i k h = omega (arith, h)

  retry_ecm_lem :
      (n : ℕ) (src : List ℕ) (prv : Card) (w : W) (i : ℕ)
      → Unanswered src prv w i
      → let t = try_ecm src prv w i in
        (k : ℕ) × IsDecided src prv w (i + n) k
        × (retry_ecm scard malloc n src t.0 t.1 t.2 ≡ try_ecm src prv w k)
  retry_ecm_lem zero src prv w i before =
      let t = try_ecm src prv w i in
      elim (Option-cases t.0) [
        | inl e ↦ (i, (before, inr (omega arith, e)), retry_end 0 src t (inl refl))
        | inr (p, e) ↦ (i, (before, inl (omega arith, (p, e))), retry_end 0 src t (inl refl))
      ]
  retry_ecm_lem (suc n) src prv w i before =
      let t = try_ecm src prv w i in
      elim (Option-cases t.0) [
        | inl e ↦
            let (k, (unanswered, last), ends) =
              retry_ecm_lem n src prv w (suc i) (Unanswered-suc src prv w i before e) in
            (k, (unanswered, ground (arith, last)), retry_step n src prv w i e ∙ ends)
        | inr (p, e) ↦
            (i, (before, inl (omega arith, (p, e))), retry_end (suc n) src t (inr (p, e)))
      ]

  -- An ECM of at least one byte is sent to a card with a handle at most eleven times, each time but
  -- the first after connecting to the card again, until it is answered. There is a try with none
  -- answered before it, such that either it is answered, and the result is what this answer says,
  -- with the card and the world as they are then; or it is the eleventh and is not answered, and the
  -- call fails with the result left as it was.
  pub proc_ecm_tries :
      (prv : Card) (dst : EcmResult) (src : List ℕ) (w : W)
      → 1 ≤ length src
      → prv.card ≢ 0
      → (k : ℕ) × Unanswered src prv w k
        × (let (answer, prv', w') = try_ecm src prv w k in
            let result = proc_ecm scard malloc (some prv) (some dst) (some src) w in
            ((k ≤ 10)
              × ((p : List ℕ) × (answer ≡ some p)
                  × (result ≡ (ok, some (read_ecm dst p), some prv', w'))))
            ⊎ ((k ≡ 10) × (answer ≡ none) × (result ≡ (transmit_failed, some dst, some prv', w'))))
  unfolding proc_ecm
  proc_ecm_tries prv dst src w long has_card =
      let short : ltb (length src) 1 ≡ false = ground arith in
      let open_card : (prv.card == 0) ≡ false = ground arith in
      let (k, (unanswered, last), ends) =
        retry_ecm_lem 10 src prv w 0 (λ i h. absurd (omega (arith, h))) in
      let (answer, prv', w') = try_ecm src prv w k in
      let result : proc_ecm scard malloc (some prv) (some dst) (some src) w
          ≡ finish_ecm scard malloc dst (answer, prv', w') =
        rw (proc_ecm, short, open_card) (ap (finish_ecm scard malloc dst) ends) in
      elim last [
        | inl (few, (p, e)) ↦ (
          k,
          unanswered,
          inl (few, (p, e, result ∙ ap (λ b. finish_ecm scard malloc dst (b, prv', w')) e)),
        )
        | inr (all, e) ↦ (
          k,
          unanswered,
          inr (all, e, result ∙ ap (λ b. finish_ecm scard malloc dst (b, prv', w')) e),
        )
      ]
