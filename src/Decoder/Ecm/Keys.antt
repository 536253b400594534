-- ===== src/Decoder/Ecm/Keys.antt =====
-- b1/arib_std_b1.c: which keys a decryptor has after an ECM.
use recskapa.Base.{◌≡◌, ◌⊎◌, Option, some, none}
use recskapa.Card.{Card}
use recskapa.Card.Methods
use recskapa.Decoder.{Code, ok, warn_unpurchased_ecm}
use recskapa.Decoder.{invalid_b_cas_status, ecm_proc_failure}
use recskapa.Decoder.{DecryptorElem}
use recskapa.Multi2.Handle.{Multi2, Status, unset_scramble_key, check_state, create_multi2}
use recskapa.Section.Assembly.{Section}
use recskapa.Section.Parser.{Parser}

-- A cipher has the system key and the initial value.
abbrev HasSystem : Option Multi2 → Type 0
HasSystem none = Unit {0}
HasSystem (some m) = (m.state ≡ 3) ⊎ (m.state ≡ 7)

-- A locked decryptor has no cipher, and a cipher has the system key and the initial value.
abbrev pub IsKeyed : DecryptorElem → Type 0
IsKeyed dec = HasSystem dec.m2 × ((dec.locked ≡ 0) ⊎ (dec.m2 ≡ none))

-- The cipher after an ECM, by the result: it is ready on success, lacks the scramble key if the card
-- failed, and is gone if the programme is not purchased; else it is what it was, but for a status
-- that the card does not give.
abbrev pub CipherAfter : Code → Option Multi2 → Option Multi2 → Type 0
CipherAfter ok before after = (m : Multi2) × (after ≡ some m) × (check_state m.state ≡ Status.ok)
CipherAfter ecm_proc_failure before after =
    (after ≡ none) ⊎ ((m : Multi2) × (after ≡ some m) × (check_state m.state ≡ unset_scramble_key))
CipherAfter warn_unpurchased_ecm before after = after ≡ none
CipherAfter invalid_b_cas_status before after = (before ≡ none) × (after ≡ some create_multi2)
CipherAfter _ before after = after ≡ before

abbrev pub EcmDone : Code → DecryptorElem → DecryptorElem → Type 0
EcmDone code dec dec' =
    CipherAfter code dec.m2 dec'.m2 × (IsKeyed dec' ⊎ (code ≡ invalid_b_cas_status))
