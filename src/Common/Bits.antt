-- ===== src/Common/Bits.antt =====
-- Laws of `&`, `|` and shifts at every width, from the digit recursion of the native operations.
use Prim.Native.Nat.{
  ℕ, zero, suc, ◌+◌, ◌-◌, ◌*◌, ◌/◌, ◌%◌, ◌^◌, ◌≤◌, ◌<◌, min, max, bit_and, bit_or, digits,
  bit_and-bitwise, bit_or-bitwise,
}
use mathlib.Core.Path.{◌≡◌, refl, sym, ap, ◌∙◌}
use native.Mathlib.Omega.{arith}
use native.Mathlib.Nat.{pow-suc, zero-add, mul_comm, div-add-mod, div-div-eq-div-mul}

-- Both operations go digit by digit: `rest` is what stands for the second number where the first is
-- used up.
module _ (rest : ℕ → ℕ) (op : ℕ → ℕ → ℕ) where
  digits-zero : (n y : ℕ) → digits rest op n 0 y ≡ rest y
  digits-zero zero y = refl
  digits-zero (suc n) y = refl

  -- The fuel does not matter where it is enough.
  digits_enough : (x y n k : ℕ) → x ≤ n → x ≤ k → digits rest op n x y ≡ digits rest op k x y
  digits_enough zero y n k _ _ = digits-zero n y ∙ sym (digits-zero k y)
  digits_enough (suc x) y zero k in_n in_k = absurd (omega arith)
  digits_enough (suc x) y (suc n) zero in_n in_k = absurd (omega arith)
  digits_enough (suc x) y (suc n) (suc k) in_n in_k =
      omega (arith, digits_enough (suc x / 2) (y / 2) n k (omega arith) (omega arith))

  digits_halves :
      (x y : ℕ)
      → digits rest op (suc x) (suc x) y
        ≡ digits rest op (suc x / 2) (suc x / 2) (y / 2) * 2 + op (suc x % 2) (y % 2)
  digits_halves x y =
      omega (arith, digits_enough (suc x / 2) (y / 2) x (suc x / 2) (omega arith) (omega arith))

and_zero_left : (y : ℕ) → bit_and 0 y ≡ 0
and_zero_left y = bit_and-bitwise 0 y

and_halves : (x y : ℕ) → min (x % 2) (y % 2) + bit_and (x / 2) (y / 2) * 2 ≡ bit_and x y
and_halves zero y = omega (arith, and_zero_left y, and_zero_left (y / 2))
and_halves (suc x) y =
    let whole = bit_and-bitwise (suc x) y in
    let half = bit_and-bitwise (suc x / 2) (y / 2) in
    omega (arith, whole, half, digits_halves (λ _. zero) min x y)

pub zero-bit_or : (y : ℕ) → bit_or 0 y ≡ y
zero-bit_or y = bit_or-bitwise 0 y

or_halves : (x y : ℕ) → max (x % 2) (y % 2) + bit_or (x / 2) (y / 2) * 2 ≡ bit_or x y
or_halves zero y = omega (arith, zero-bit_or y, zero-bit_or (y / 2))
or_halves (suc x) y =
    let whole = bit_or-bitwise (suc x) y in
    let half = bit_or-bitwise (suc x / 2) (y / 2) in
    omega (arith, whole, half, digits_halves (λ t. t) max x y)

and_zero_within : (bound x : ℕ) → x ≤ bound → bit_and x 0 ≡ 0
and_zero_within bound zero _ = refl
and_zero_within zero (suc x) le = absurd (omega arith)
and_zero_within (suc bound) (suc x) le =
    omega (arith, and_zero_within bound (suc x / 2) (omega arith), and_halves (suc x) 0)

pub bit_and-zero : (x : ℕ) → bit_and x 0 ≡ 0
bit_and-zero x = and_zero_within x x (omega arith)

pub bit_and-one : (x : ℕ) → bit_and x 1 ≡ x % 2
bit_and-one x = omega (arith, and_halves x 1, bit_and-zero (x / 2))

pub pow_pos : (k : ℕ) → 0 < 2 ^ k
pow_pos zero = omega arith
pow_pos (suc k) = omega (arith, pow-suc 2 k, pow_pos k)

pub pow-add : (a b : ℕ) → 2 ^ (a + b) ≡ 2 ^ a * 2 ^ b
pow-add zero b = rw zero-add (omega arith)
pow-add (suc a) b =
    let e : suc a + b ≡ suc (a + b) = omega arith in
    rw e (
      omega (
        arith,
        pow-suc 2 (a + b),
        pow-suc 2 a,
        pow-add a b,
        ap (λ (t : ℕ). t * 2 ^ b) (pow-suc 2 a),
      ))

-- Halving a shifted value shifts one place less.
half_shift : (c s : ℕ) → (c * 2 ^ suc s / 2 ≡ c * 2 ^ s) × (c * 2 ^ suc s % 2 ≡ 0)
half_shift c s =
    let e : c * 2 ^ suc s ≡ c * 2 ^ s * 2 = rw (pow-suc 2 s) (omega arith) in
    (omega (arith, e), omega (arith, e))

-- `r | (c << s)` is a sum where `r` has no bit from `s` on.
pub bit_or-shift : (s r c : ℕ) → r < 2 ^ s → bit_or r (c * 2 ^ s) ≡ r + c * 2 ^ s
bit_or-shift zero r c h =
    let e : r ≡ 0 = omega arith in
    let m : c * 2 ^ 0 ≡ c = omega arith in rw (e, m, zero-bit_or c) (omega arith)
bit_or-shift (suc s) r c h =
    let ih = bit_or-shift s (r / 2) c (omega (arith, pow-suc 2 s)) in
    let (q, m) = half_shift c s in
    sym (or_halves r (c * 2 ^ suc s)) ∙ rw (q, m, ih) (omega (arith, half_shift c s))

-- The low `n + m` digits are the low `n` and the `m` above them.
pub mod-mul_split : (a m n : ℕ) → 0 < m → 0 < n → a % (m * n) ≡ a % m + a / m % n * m
mod-mul_split a m n p q = omega (
  arith,
  div-add-mod a m,
  ap (λ (t : ℕ). m * t) (div-add-mod (a / m) n),
  ap (λ (t : ℕ). m * n * t) (div-div-eq-div-mul a m n),
  div-add-mod a (m * n),
)

-- `a & (2^k - 1)` is the low `k` bits.
pub bit_and-mask : (k a : ℕ) → bit_and a (2 ^ k - 1) ≡ a % 2 ^ k
bit_and-mask zero a = bit_and-zero a ∙ omega arith
bit_and-mask (suc k) a =
    let p = pow_pos k in
    let q : (2 ^ suc k - 1) / 2 ≡ 2 ^ k - 1 = omega (arith, pow-suc 2 k) in
    let m : (2 ^ suc k - 1) % 2 ≡ 1 = omega (arith, pow-suc 2 k) in
    sym (and_halves a (2 ^ suc k - 1))
    ∙ rw (q, m, bit_and-mask k (a / 2))
        (omega (
          arith,
          mod-mul_split a 2 (2 ^ k) (omega arith) p,
          ap (λ (t : ℕ). a % t) (pow-suc 2 k ∙ mul_comm (2 ^ k) 2),
        ))

-- `a & 2^k` is the bit at `k`, in its place.
pub bit_and-pow : (k a : ℕ) → bit_and a (2 ^ k) ≡ a / 2 ^ k % 2 * 2 ^ k
bit_and-pow zero a = bit_and-one a ∙ omega arith
bit_and-pow (suc k) a =
    let p = pow_pos k in
    let q : 2 ^ suc k / 2 ≡ 2 ^ k = omega (arith, pow-suc 2 k) in
    let m : 2 ^ suc k % 2 ≡ 0 = omega (arith, pow-suc 2 k) in
    let d : a / 2 / 2 ^ k ≡ a / 2 ^ suc k =
      div-div-eq-div-mul a 2 (2 ^ k) ∙ ap (λ (t : ℕ). a / t) (omega (arith, pow-suc 2 k)) in
    sym (and_halves a (2 ^ suc k))
    ∙ rw (q, m, bit_and-pow k (a / 2), d)
        (omega (arith, ap (λ (t : ℕ). a / 2 ^ suc k % 2 * t) (pow-suc 2 k)))

pub mod-pow_split : (a n m : ℕ) → a % 2 ^ (n + m) ≡ a % 2 ^ n + a / 2 ^ n % 2 ^ m * 2 ^ n
mod-pow_split a n m = rw (pow-add n m) (mod-mul_split a (2 ^ n) (2 ^ m) (pow_pos n) (pow_pos m))

pub div-pow_add : (a n m : ℕ) → a / 2 ^ n / 2 ^ m ≡ a / 2 ^ (n + m)
div-pow_add a n m = rw (pow-add n m) (div-div-eq-div-mul a (2 ^ n) (2 ^ m))
