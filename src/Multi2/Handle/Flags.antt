-- ===== src/Multi2/Handle/Flags.antt =====
-- b1/multi2.c: which keys an object holds after a sequence of calls, and what the cipher methods
-- answer then.
use recskapa.Base.{
  ℕ, bit_or, bit_and, ◌^◌, ◌-◌, ◌+◌, ◌≡◌, refl, ap, ◌∙◌, if◌then◌else◌, arith, IsWord, drop,
}
use recskapa.Base.{Bool, true, false, Option, some, none, List, [], ◌∷◌}
use recskapa.Multi2.Word.{load_word, load-lt}
use recskapa.Multi2.Core.Width.{IsData}
use recskapa.Multi2.Handle.{Multi2, create_multi2, Status, ok}
use recskapa.Multi2.Handle.{unset_system_key, unset_cbc_init, unset_scramble_key, check_state}
use recskapa.Multi2.Handle.{add_ref, set_round, set_system_key, set_init_cbc, set_scramble_key}
use recskapa.Multi2.Handle.{clear_scramble_key}

-- A call of one of the methods that set the object up.
pub data Call : Type 0 where
  ref : Call
  round : ℕ → Call
  system_key init_cbc scramble_key : Option (List ℕ) → Call
  clear : Call

unfoldable pub call : Option Multi2 → Call → Status × Option Multi2
call h ref = add_ref h
call h (round val) = set_round h val
call h (system_key val) = set_system_key h val
call h (init_cbc val) = set_init_cbc h val
call h (scramble_key val) = set_scramble_key h val
call h clear = clear_scramble_key h

unfoldable pub run : Option Multi2 → List Call → Option Multi2
run h [] = h
run h (c ∷ cs) = run (call h c).1 cs

-- The abstract state: which of the three keys are set.
pub record Keys : Type 0 where
  pub cbc : Bool
  pub sys : Bool
  pub scr : Bool

unfoldable pub hold : Keys → Call → Keys
hold k (system_key (some val)) = record k { sys = true }
hold k (init_cbc (some val)) = record k { cbc = true }
hold k (scramble_key (some val)) = record k { scr = true }
hold k clear = record k { scr = false }
hold k _ = k

unfoldable pub held : Keys → List Call → Keys
held k [] = k
held k (c ∷ cs) = held (hold k c) cs

abbrev pub no_keys : Keys
no_keys = record { cbc = false; sys = false; scr = false }

-- The answer that the three keys call for: the first that is missing, in this order.
abbrev pub answer : Keys → Status
answer k =
    if k.cbc
    then (if k.sys then (if k.scr then ok else unset_scramble_key) else unset_system_key)
    else unset_cbc_init

abbrev word : Bool → Bool → Bool → ℕ
word cbc sys scr = (if cbc then 1 else 0) + (if sys then 2 else 0) + (if scr then 4 else 0)

abbrev flags : Keys → ℕ
flags k = word k.cbc k.sys k.scr

load_word-lt : (bytes : List ℕ) → IsWord (load_word bytes)
load_word-lt [] = omega arith
load_word-lt (a ∷ []) = omega arith
load_word-lt (a ∷ b ∷ []) = omega arith
load_word-lt (a ∷ b ∷ c ∷ []) = omega arith
load_word-lt (a ∷ b ∷ c ∷ d ∷ rest) = load-lt a b c d

record Agrees (prv : Multi2) (k : Keys) : Type 0 where
  state : prv.state ≡ flags k
  wide : IsData prv.cbc_init

eq_everywhere :
    (f g : Bool → Bool → Bool → ℕ)
    → (f true true true ≡ g true true true)
      × (f true true false ≡ g true true false)
      × (f true false true ≡ g true false true)
      × (f true false false ≡ g true false false)
      × (f false true true ≡ g false true true)
      × (f false true false ≡ g false true false)
      × (f false false true ≡ g false false true)
      × (f false false false ≡ g false false false)
    → (b s c : Bool) → f b s c ≡ g b s c
eq_everywhere f g t true true true = t.0
eq_everywhere f g t true true false = t.1
eq_everywhere f g t true false true = t.2
eq_everywhere f g t true false false = t.3
eq_everywhere f g t false true true = t.4
eq_everywhere f g t false true false = t.5
eq_everywhere f g t false false true = t.6
eq_everywhere f g t false false false = t.7

-- Each bit is set or cleared alone: checked at the eight values of the word.
or_cbc : (b s c : Bool) → bit_or (word b s c) 1 ≡ word true s c
or_cbc b s c =
    eq_everywhere (λ b s c. bit_or (word b s c) 1) (λ b s c. word true s c)
      (refl, refl, refl, refl, refl, refl, refl, refl) b s c

or_sys : (b s c : Bool) → bit_or (word b s c) 2 ≡ word b true c
or_sys b s c =
    eq_everywhere (λ b s c. bit_or (word b s c) 2) (λ b s c. word b true c)
      (refl, refl, refl, refl, refl, refl, refl, refl) b s c

or_scr : (b s c : Bool) → bit_or (word b s c) 4 ≡ word b s true
or_scr b s c =
    eq_everywhere (λ b s c. bit_or (word b s c) 4) (λ b s c. word b s true)
      (refl, refl, refl, refl, refl, refl, refl, refl) b s c

and_scr : (b s c : Bool) → bit_and (word b s c) (2 ^ 32 - 1 - 4) ≡ word b s false
and_scr b s c =
    eq_everywhere (λ b s c. bit_and (word b s c) (2 ^ 32 - 1 - 4)) (λ b s c. word b s false)
      (refl, refl, refl, refl, refl, refl, refl, refl) b s c

-- After a call the object is still there, with the bits of the keys that it then holds.
Answered : Option Multi2 → Keys → Type 0
Answered h k = (m : Multi2) × (h ≡ some m) × Agrees m k

call-Answered :
    (c : Call) (m : Multi2) (k : Keys) → Agrees m k → Answered (call (some m) c).1 (hold k c)
unfolding Answered call hold add_ref set_round set_system_key set_init_cbc set_scramble_key
    clear_scramble_key
call-Answered ref m k a = (_, refl, record { state = a.state; wide = a.wide })
call-Answered (round val) m k a = (_, refl, record { state = a.state; wide = a.wide })
call-Answered (system_key none) m k a = (m, refl, a)
call-Answered (system_key (some val)) m k a = (
  _,
  refl,
  record { state = ap (λ x. bit_or x 2) a.state ∙ or_sys k.cbc k.sys k.scr; wide = a.wide },
)
call-Answered (init_cbc none) m k a = (m, refl, a)
call-Answered (init_cbc (some val)) m k a = (
  _,
  refl,
  record {
    state = ap (λ x. bit_or x 1) a.state ∙ or_cbc k.cbc k.sys k.scr;
    wide = (load_word-lt (drop 0 val), load_word-lt (drop 4 val));
  },
)
call-Answered (scramble_key none) m k a = (m, refl, a)
call-Answered (scramble_key (some val)) m k a = (
  _,
  refl,
  record { state = ap (λ x. bit_or x 4) a.state ∙ or_scr k.cbc k.sys k.scr; wide = a.wide },
)
call-Answered clear m k a = (
  _,
  refl,
  record {
    state = ap (λ x. bit_and x (2 ^ 32 - 1 - 4)) a.state ∙ and_scr k.cbc k.sys k.scr;
    wide = a.wide;
  },
)

run-Answered :
    (cs : List Call) (m : Multi2) (k : Keys) → Agrees m k → Answered (run (some m) cs) (held k cs)
unfolding Answered run held
run-Answered [] m k a = (m, refl, a)
run-Answered (c ∷ cs) m k a =
    let (m', e, a') = call-Answered c m k a in rw e (run-Answered cs m' (hold k c) a')

check_word :
    (b s c : Bool) → check_state (word b s c) ≡ answer (record { cbc = b; sys = s; scr = c })
unfolding check_state
check_word true true true = refl
check_word true true false = refl
check_word true false true = refl
check_word true false false = refl
check_word false true true = refl
check_word false true false = refl
check_word false false true = refl
check_word false false false = refl

-- After any sequence of calls on a new object, the tests of the cipher methods on its state answer
-- what the keys call for that the sequence has left set, the missing ones in the order initial
-- value, system key, scramble key, and the initial value is of two 32-bit words.
pub run-check_state :
    (cs : List Call)
    → (m : Multi2) × (run (some create_multi2) cs ≡ some m)
      × (check_state m.state ≡ answer (held no_keys cs))
      × IsData m.cbc_init
unfolding Answered create_multi2
run-check_state cs =
    let (m, e, a) =
      run-Answered cs create_multi2 no_keys
        (record { state = refl; wide = (omega arith, omega arith) }) in
    (m, e, ap check_state a.state ∙ check_word _ _ _, a.wide)
