-- ===== src/Decoder/Decryptor/Refs.antt =====
-- b1/arib_std_b1.c: how many entries of the map refer to a decryptor, and the decryptors in the list.
use recskapa.Base.{ℕ, zero, suc, ◌+◌, ◌≤◌, ◌<◌, ◌≡◌, refl, ap, arith, ◌==◌, if◌then◌else◌}
use recskapa.Base.{false, ◌&&◌, Bool-cases, inl, inr, List, [], ◌∷◌, ◌++◌, some, none}
use recskapa.Decoder.{PidMap, DecryptorElem, set_map}
use recskapa.Decoder.Decryptor.{find_dec, update_dec, unlink_dec, set_ref, is_other, is_decryptor}

-- The number of packet identifiers.
unfoldable pub pid_max : ℕ
pid_max = 0x2000

-- 1 for an entry that counts as a reference.
abbrev pub hits : ℕ → PidMap → ℕ
hits id entry = if is_other entry.type && is_decryptor id entry.target then 1 else 0

-- The references among the identifiers below a number.
pub refs : (ℕ → PidMap) → ℕ → ℕ → ℕ
refs map id zero = 0
refs map id (suc n) = hits id (map n) + refs map id n

refs-set_out :
    (map : ℕ → PidMap) (id pid : ℕ) (entry : PidMap) (n : ℕ)
    → n ≤ pid
    → refs (set_map map pid entry) id n ≡ refs map id n
unfolding refs
refs-set_out map id pid entry zero h = refl
refs-set_out map id pid entry (suc n) h =
    let differ : (n == pid) ≡ false = ground arith in
    rw differ (ap (λ k. hits id (map n) + k) (refs-set_out map id pid entry n (omega arith)))

-- Replacing an entry moves the count by what the two entries count.
pub refs-set :
    (map : ℕ → PidMap) (id pid : ℕ) (entry : PidMap) (n : ℕ)
    → pid < n
    → refs (set_map map pid entry) id n + hits id (map pid) ≡ refs map id n + hits id entry
unfolding refs
refs-set map id pid entry zero h = absurd (omega arith)
refs-set map id pid entry (suc n) h = elim (Bool-cases (n == pid)) [
  | inl same ↦
      let e : n ≡ pid = ground arith in
      let below = refs-set_out map id pid entry n (omega arith) in
      let hit : hits id (map n) ≡ hits id (map pid) = ap (λ k. hits id (map k)) e in
      rw same (omega (arith, below, hit))
  | inr other ↦
      let below = refs-set map id pid entry n (ground arith) in rw other (omega (arith, below))
]

-- An entry that refers to a decryptor is counted.
pub hits-refs : (map : ℕ → PidMap) (id pid n : ℕ) → pid < n → hits id (map pid) ≤ refs map id n
unfolding refs
hits-refs map id pid zero h = absurd (omega arith)
hits-refs map id pid (suc n) h = elim (Bool-cases (n == pid)) [
  | inl same ↦ let e : n ≡ pid = ground arith in omega (arith, ap (λ k. hits id (map k)) e)
  | inr other ↦ let below = hits-refs map id pid n (ground arith) in omega (arith, below)
]

-- If no entry refers to a decryptor, none is counted.
pub refs-none :
    (map : ℕ → PidMap) (id n : ℕ)
    → ((pid : ℕ) → pid < n → hits id (map pid) ≡ 0)
    → refs map id n ≡ 0
unfolding refs
refs-none map id zero h = refl
refs-none map id (suc n) h =
    omega (arith, h n (omega arith), refs-none map id n (λ pid lt. h pid (omega arith)))

pub find_dec-id :
    (id : ℕ) (ds : List DecryptorElem) (d : DecryptorElem) → find_dec id ds ≡ some d → d.id ≡ id
unfolding find_dec
find_dec-id id [] d h = absurd (ground arith)
find_dec-id id (x ∷ xs) d h = elim (Bool-cases (x.id == id)) [
  | inl here ↦ ground (arith, h, here)
  | inr behind ↦ find_dec-id id xs d (ground (arith, h, behind))
]

pub find_dec-update_same :
    (id n : ℕ) (ds : List DecryptorElem) (d : DecryptorElem)
    → find_dec id ds ≡ some d
    → find_dec id (update_dec id (set_ref n) ds) ≡ some (set_ref n d)
unfolding find_dec update_dec
find_dec-update_same id n [] d h = absurd (ground arith)
find_dec-update_same id n (x ∷ xs) d h = elim (Bool-cases (x.id == id)) [
  | inl here ↦ ground (arith, h, here)
  | inr behind ↦ ground (arith, behind, find_dec-update_same id n xs d (ground (arith, h, behind)))
]

pub find_dec-update_other :
    (id j n : ℕ) (ds : List DecryptorElem)
    → (id == j) ≡ false
    → find_dec j (update_dec id (set_ref n) ds) ≡ find_dec j ds
unfolding find_dec update_dec
find_dec-update_other id j n [] h = refl
find_dec-update_other id j n (x ∷ xs) h = ground (arith, h, find_dec-update_other id j n xs h)

pub find_dec-unlink_same :
    (id : ℕ) (ds : List DecryptorElem) → find_dec id (unlink_dec id ds) ≡ none
unfolding find_dec unlink_dec
find_dec-unlink_same id [] = refl
find_dec-unlink_same id (x ∷ xs) = ground (arith, find_dec-unlink_same id xs)

pub find_dec-unlink_other :
    (id j : ℕ) (ds : List DecryptorElem)
    → (id == j) ≡ false
    → find_dec j (unlink_dec id ds) ≡ find_dec j ds
unfolding find_dec unlink_dec
find_dec-unlink_other id j [] h = refl
find_dec-unlink_other id j (x ∷ xs) h = ground (arith, h, find_dec-unlink_other id j xs h)

pub find_dec-append_old :
    (j : ℕ) (ds : List DecryptorElem) (new : DecryptorElem)
    → (new.id == j) ≡ false
    → find_dec j (ds ++ (new ∷ [])) ≡ find_dec j ds
unfolding find_dec
find_dec-append_old j [] new h = rw h refl
find_dec-append_old j (x ∷ xs) new h = ground (arith, find_dec-append_old j xs new h)

pub find_dec-append_new :
    (ds : List DecryptorElem) (new : DecryptorElem)
    → find_dec new.id ds ≡ none
    → find_dec new.id (ds ++ (new ∷ [])) ≡ some new
unfolding find_dec
find_dec-append_new [] new h = ground arith
find_dec-append_new (x ∷ xs) new h = elim (Bool-cases (x.id == new.id)) [
  | inl here ↦ absurd (ground (arith, h, here))
  | inr behind ↦ ground (arith, behind, find_dec-append_new xs new (ground (arith, h, behind)))
]
