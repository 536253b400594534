-- ===== src/Base/Bits.antt =====
-- Laws of the bit operations at variables, from the recursion on binary digits that they stand for.
use Prim.Native.Nat.{ℕ, zero, suc, ◌+◌, ◌-◌, ◌*◌, ◌/◌, ◌%◌, ◌^◌, ◌≤◌, ◌<◌, min, max}
use Prim.Native.Nat.{bit_and, bit_or, bit_xor, digits, differ}
use Prim.Native.Nat.{bit_and-bitwise, bit_or-bitwise, bit_xor-bitwise}
use mathlib.Core.Path.{◌≡◌, refl, sym, ap, ap₂, ◌∙◌}
use native.Mathlib.Omega.{arith}
use native.Mathlib.Nat.{
  pow-suc, one-le-pow, mod-lt, div-add-mod, mod-eq_of_lt, add-mul-mod_self_right,
}
use native.Mathlib.Nat.{div-one, mod-one, mul-one, mul_comm, div-div-eq-div-mul}

-- The fuel of `digits` does not matter once it covers the first operand.
digits_enough :
    (z : ℕ → ℕ) (f : ℕ → ℕ → ℕ) (n m a b : ℕ) → a ≤ n → a ≤ m → digits z f n a b ≡ digits z f m a b
digits_enough z f n m zero b p q = at_zero n ∙ back m
  where
    at_zero : (k : ℕ) → digits z f k zero b ≡ z b
    at_zero zero = refl
    at_zero (suc k) = refl

    back : (k : ℕ) → z b ≡ digits z f k zero b
    back zero = refl
    back (suc k) = refl
digits_enough z f zero m (suc a) b p q = absurd (omega arith)
digits_enough z f (suc n) zero (suc a) b p q = absurd (omega arith)
digits_enough z f (suc n) (suc m) (suc a) b p q =
    omega (arith, digits_enough z f n m (suc a / 2) (b / 2) (omega arith) (omega arith))

differ_digits : (x y : ℕ) → x < 2 → y < 2 → differ x y ≡ (x + y) % 2
differ_digits zero y hx hy = omega arith
differ_digits (suc zero) zero hx hy = omega arith
differ_digits (suc zero) (suc zero) hx hy = omega arith
differ_digits (suc zero) (suc (suc y)) hx hy = absurd (omega arith)
differ_digits (suc (suc x)) y hx hy = absurd (omega arith)

-- The lowest digit of each operation, and the rest.
pub xor-half : (a b : ℕ) → bit_xor a b ≡ bit_xor (a / 2) (b / 2) * 2 + (a % 2 + b % 2) % 2
xor-half zero b = omega (arith, bit_xor-bitwise 0 b, bit_xor-bitwise 0 (b / 2))
xor-half (suc a) b = omega (
  arith,
  bit_xor-bitwise (suc a) b,
  bit_xor-bitwise (suc a / 2) (b / 2),
  digits_enough (λ y. y) differ a (suc a / 2) (suc a / 2) (b / 2) (omega arith) (omega arith),
  differ_digits (suc a % 2) (b % 2) (omega arith) (omega arith),
)

pub or-half : (a b : ℕ) → bit_or a b ≡ bit_or (a / 2) (b / 2) * 2 + max (a % 2) (b % 2)
or-half zero b = omega (arith, bit_or-bitwise 0 b, bit_or-bitwise 0 (b / 2))
or-half (suc a) b = omega (
  arith,
  bit_or-bitwise (suc a) b,
  bit_or-bitwise (suc a / 2) (b / 2),
  digits_enough (λ y. y) max a (suc a / 2) (suc a / 2) (b / 2) (omega arith) (omega arith),
)

pub and-half : (a b : ℕ) → bit_and a b ≡ bit_and (a / 2) (b / 2) * 2 + min (a % 2) (b % 2)
and-half zero b = omega (arith, bit_and-bitwise 0 b, bit_and-bitwise 0 (b / 2))
and-half (suc a) b = omega (
  arith,
  bit_and-bitwise (suc a) b,
  bit_and-bitwise (suc a / 2) (b / 2),
  digits_enough (λ y. 0) min a (suc a / 2) (suc a / 2) (b / 2) (omega arith) (omega arith),
)

-- The recursions below go from the halves to the numbers, on a bound `n` of all operands.
xor_self_bound : (n a : ℕ) → a ≤ n → bit_xor a a ≡ 0
xor_self_bound zero zero h = bit_xor-bitwise 0 0
xor_self_bound zero (suc a) h = absurd (omega arith)
xor_self_bound (suc n) zero h = bit_xor-bitwise 0 0
xor_self_bound (suc n) (suc a) h =
    omega (arith, xor-half (suc a) (suc a), xor_self_bound n (suc a / 2) (omega arith))

pub zero-xor : (b : ℕ) → bit_xor 0 b ≡ b
zero-xor b = bit_xor-bitwise 0 b

xor_comm_bound : (n a b : ℕ) → a ≤ n → b ≤ n → bit_xor a b ≡ bit_xor b a
xor_comm_bound zero a b ha hb = let e : a ≡ b = omega arith in rw e
xor_comm_bound (suc n) a b ha hb = omega (
  arith,
  xor-half a b,
  xor-half b a,
  xor_comm_bound n (a / 2) (b / 2) (omega arith) (omega arith),
)

half_xor : (a b : ℕ) → bit_xor a b / 2 ≡ bit_xor (a / 2) (b / 2)
half_xor a b = omega (arith, xor-half a b)

xor_assoc_bound :
    (n a b c : ℕ) → a ≤ n → b ≤ n → c ≤ n → bit_xor (bit_xor a b) c ≡ bit_xor a (bit_xor b c)
xor_assoc_bound zero a b c ha hb hc =
    let ea : a ≡ 0 = omega arith in rw (ea, zero-xor b, zero-xor (bit_xor b c))
xor_assoc_bound (suc n) a b c ha hb hc = omega (
  arith,
  xor-half a b,
  xor-half b c,
  xor-half (bit_xor a b) c,
  xor-half a (bit_xor b c),
  ap (λ x. bit_xor x (c / 2)) (half_xor a b),
  ap (λ x. bit_xor (a / 2) x) (half_xor b c),
  xor_assoc_bound n (a / 2) (b / 2) (c / 2) (omega arith) (omega arith) (omega arith),
)

pub xor_comm : (a b : ℕ) → bit_xor a b ≡ bit_xor b a
xor_comm a b = xor_comm_bound (max a b) a b (omega arith) (omega arith)

pub xor_assoc : (a b c : ℕ) → bit_xor (bit_xor a b) c ≡ bit_xor a (bit_xor b c)
xor_assoc a b c = xor_assoc_bound (a + b + c) a b c (omega arith) (omega arith) (omega arith)

pub xor_self : (a : ℕ) → bit_xor a a ≡ 0
xor_self a = xor_self_bound a a (omega arith)

pub xor-zero : (a : ℕ) → bit_xor a 0 ≡ a
xor-zero a = xor_comm a 0 ∙ zero-xor a

-- Masking twice with the same value changes nothing.
pub xor_cancel : (a b : ℕ) → bit_xor (bit_xor a b) b ≡ a
xor_cancel a b = rw (xor_assoc a b b, xor_self b, xor-zero a)

pub xor_eq_zero : (a b : ℕ) → bit_xor a b ≡ 0 → a ≡ b
xor_eq_zero a b h = sym (xor_cancel a b) ∙ ap (λ x. bit_xor x b) h ∙ zero-xor b

-- Each operation stays within the width of its operands.
pub xor-lt : (k a b : ℕ) → a < 2 ^ k → b < 2 ^ k → bit_xor a b < 2 ^ k
xor-lt zero a b ha hb = let e : a ≡ b = omega arith in rw (e, xor_self b) (omega arith)
xor-lt (suc k) a b ha hb = omega (
  arith,
  pow-suc 2 k,
  xor-half a b,
  xor-lt k (a / 2) (b / 2) (omega (arith, pow-suc 2 k)) (omega (arith, pow-suc 2 k)),
)

pub or-lt : (k a b : ℕ) → a < 2 ^ k → b < 2 ^ k → bit_or a b < 2 ^ k
or-lt zero a b ha hb =
    let ea : a ≡ 0 = omega arith in let eb : b ≡ 0 = omega arith in rw (ea, eb) (omega arith)
or-lt (suc k) a b ha hb = omega (
  arith,
  pow-suc 2 k,
  or-half a b,
  or-lt k (a / 2) (b / 2) (omega (arith, pow-suc 2 k)) (omega (arith, pow-suc 2 k)),
)

or-zero_bound : (n a : ℕ) → a ≤ n → bit_or a 0 ≡ a
or-zero_bound n zero h = bit_or-bitwise 0 0
or-zero_bound zero (suc a) h = absurd (omega arith)
or-zero_bound (suc n) (suc a) h =
    omega (arith, or-half (suc a) 0, or-zero_bound n (suc a / 2) (omega arith))

and-zero_bound : (n a : ℕ) → a ≤ n → bit_and a 0 ≡ 0
and-zero_bound n zero h = bit_and-bitwise 0 0
and-zero_bound zero (suc a) h = absurd (omega arith)
and-zero_bound (suc n) (suc a) h =
    omega (arith, and-half (suc a) 0, and-zero_bound n (suc a / 2) (omega arith))

and-zero : (a : ℕ) → bit_and a 0 ≡ 0
and-zero a = and-zero_bound a a (omega arith)

pub or-zero : (a : ℕ) → bit_or a 0 ≡ a
or-zero a = or-zero_bound a a (omega arith)

mul-two-pow : (q k : ℕ) → q * 2 ^ suc k ≡ q * 2 ^ k * 2
mul-two-pow q k = omega (arith, ap (λ (t : ℕ). q * t) (pow-suc 2 k))

half_shift : (q k : ℕ) → q * 2 ^ suc k / 2 ≡ q * 2 ^ k
half_shift q k = omega (arith, mul-two-pow q k)

half_mask : (k : ℕ) → (2 ^ suc k - 1) / 2 ≡ 2 ^ k - 1
half_mask k = omega (arith, pow-suc 2 k, one-le-pow k 2)

mod_half : (k a : ℕ) → a % 2 ^ suc k ≡ a / 2 % 2 ^ k * 2 + a % 2
mod_half k a =
    let q = a / 2 / 2 ^ k in
    let r = a / 2 % 2 ^ k in
    let small : r < 2 ^ k = mod-lt (a / 2) (one-le-pow k 2 (omega arith)) in
    let split : a ≡ r * 2 + a % 2 + q * 2 ^ suc k =
      omega (arith, div-add-mod (a / 2) (2 ^ k), mul-two-pow q k) in
    ap (λ (t : ℕ). t % 2 ^ suc k) split
    ∙ add-mul-mod_self_right (r * 2 + a % 2) q (2 ^ suc k)
    ∙ mod-eq_of_lt (omega (arith, pow-suc 2 k))

-- A value shifted left by `k` bits, joined with one of at most `k` bits, is their sum.
pub or_fields : (k q r : ℕ) → r < 2 ^ k → bit_or (q * 2 ^ k) r ≡ q * 2 ^ k + r
or_fields zero q r h = let e : r ≡ 0 = omega arith in rw (e, or-zero (q * 2 ^ 0)) (omega arith)
or_fields (suc k) q r h = omega (
  arith,
  or-half (q * 2 ^ suc k) r,
  mul-two-pow q k,
  ap (λ (t : ℕ). bit_or t (r / 2)) (half_shift q k),
  or_fields k q (r / 2) (omega (arith, pow-suc 2 k)),
)

-- Exclusive or joins such fields too.
pub xor_fields : (k q r : ℕ) → r < 2 ^ k → bit_xor (q * 2 ^ k) r ≡ q * 2 ^ k + r
xor_fields zero q r h = let e : r ≡ 0 = omega arith in rw (e, xor-zero (q * 2 ^ 0)) (omega arith)
xor_fields (suc k) q r h = omega (
  arith,
  xor-half (q * 2 ^ suc k) r,
  mul-two-pow q k,
  ap (λ (t : ℕ). bit_xor t (r / 2)) (half_shift q k),
  xor_fields k q (r / 2) (omega (arith, pow-suc 2 k)),
)

-- Masking with `k` ones is the remainder by `2 ^ k`.
pub and_mask : (k a : ℕ) → bit_and a (2 ^ k - 1) ≡ a % 2 ^ k
and_mask zero a = and-zero a ∙ omega arith
and_mask (suc k) a = omega (
  arith,
  and-half a (2 ^ suc k - 1),
  pow-suc 2 k,
  one-le-pow k 2,
  ap (λ (t : ℕ). bit_and (a / 2) t) (half_mask k),
  and_mask k (a / 2),
  mod_half k a,
)

div_half : (k a : ℕ) → a / 2 ^ suc k ≡ a / 2 / 2 ^ k
div_half k a =
    ap (λ (t : ℕ). a / t) (pow-suc 2 k ∙ mul_comm (2 ^ k) 2) ∙ sym (div-div-eq-div-mul a 2 (2 ^ k))

half_mod : (k a : ℕ) → a % 2 ^ suc k / 2 ≡ a / 2 % 2 ^ k
half_mod k a = omega (arith, mod_half k a)

-- Exclusive or works on the high and the low bits apart.
pub xor-div : (k a b : ℕ) → bit_xor a b / 2 ^ k ≡ bit_xor (a / 2 ^ k) (b / 2 ^ k)
xor-div zero a b = rw (div-one a, div-one b, div-one (bit_xor a b))
xor-div (suc k) a b =
    div_half k (bit_xor a b)
    ∙ ap (λ (t : ℕ). t / 2 ^ k) (half_xor a b)
    ∙ xor-div k (a / 2) (b / 2)
    ∙ ap₂ bit_xor (sym (div_half k a)) (sym (div_half k b))

pub xor-mod : (k a b : ℕ) → bit_xor a b % 2 ^ k ≡ bit_xor (a % 2 ^ k) (b % 2 ^ k)
xor-mod zero a b = rw (mod-one a, mod-one b, mod-one (bit_xor a b), zero-xor 0)
xor-mod (suc k) a b = omega (
  arith,
  mod_half k (bit_xor a b),
  mod_half k a,
  mod_half k b,
  ap (λ (t : ℕ). t % 2 ^ k) (half_xor a b),
  xor-mod k (a / 2) (b / 2),
  xor-half (a % 2 ^ suc k) (b % 2 ^ suc k),
  xor-half a b,
  ap₂ bit_xor (half_mod k a) (half_mod k b),
)

pub xor-shift : (k a b : ℕ) → bit_xor (a * 2 ^ k) (b * 2 ^ k) ≡ bit_xor a b * 2 ^ k
xor-shift zero a b = ap₂ bit_xor (mul-one a) (mul-one b) ∙ sym (mul-one (bit_xor a b))
xor-shift (suc k) a b = omega (
  arith,
  xor-half (a * 2 ^ suc k) (b * 2 ^ suc k),
  mul-two-pow a k,
  mul-two-pow b k,
  mul-two-pow (bit_xor a b) k,
  ap₂ bit_xor (half_shift a k) (half_shift b k),
  xor-shift k a b,
)
