-- ===== src/Air/Reader/Number.antt =====
-- A byte string as one number, little-endian: the abstract view of what a `BitReader` reads.
use native.Mathlib.Decide.{dec_lt}
use vulkan_cocoa_core.Common.{
  ℕ, zero, suc, ◌+◌, ◌-◌, ◌*◌, ◌/◌, ◌%◌, ◌^◌, ◌<◌, ◌≡◌, List, [], ◌∷◌, some, get_elem?, arith, sym,
  ap, ◌∙◌,
}
use vulkan_cocoa_core.Common.Bits.{div-pow_add}

abbrev pub IsBytes : List ℕ → Type 0
IsBytes [] = Unit
IsBytes (x ∷ xs) = (x < 256) × IsBytes xs

unfoldable pub number : List ℕ → ℕ
number [] = 0
number (x ∷ xs) = x + 256 * number xs

-- The `n` bits from `pos` on.
unfoldable pub bits_at : List ℕ → (pos n : ℕ) → ℕ
bits_at xs pos n = number xs / 2 ^ pos % 2 ^ n

bit_low : (p x n : ℕ) → p < 8 → (x + 256 * n) / 2 ^ p % 2 ≡ x / 2 ^ p % 2
bit_low zero x n h = omega arith
bit_low (suc zero) x n h = omega arith
bit_low (suc (suc zero)) x n h = omega arith
bit_low (suc (suc (suc zero))) x n h = omega arith
bit_low (suc (suc (suc (suc zero)))) x n h = omega arith
bit_low (suc (suc (suc (suc (suc zero))))) x n h = omega arith
bit_low (suc (suc (suc (suc (suc (suc zero)))))) x n h = omega arith
bit_low (suc (suc (suc (suc (suc (suc (suc zero))))))) x n h = omega arith
bit_low (suc (suc (suc (suc (suc (suc (suc (suc p)))))))) x n h = absurd (omega arith)

bit_high : (q x n : ℕ) → x < 256 → (x + 256 * n) / 2 ^ (8 + q) ≡ n / 2 ^ q
bit_high q x n h = sym (div-pow_add (x + 256 * n) 8 q) ∙ ap (λ (t : ℕ). t / 2 ^ q) (omega arith)

-- The bit at `p` of the number is a bit of the byte at `p / 8`.
pub byte_bit :
    (xs : List ℕ) (p : ℕ) {x : ℕ}
    → IsBytes xs
    → get_elem? xs (p / 8) ≡ some x
    → x / 2 ^ (p % 8) % 2 ≡ number xs / 2 ^ p % 2
unfolding number
byte_bit [] p bs e = cc
byte_bit (y ∷ ys) p {x} bs e = elim (dec_lt p 8) [
  | yes h ↦
      let z : p / 8 ≡ 0 = omega arith in
      let m : p % 8 ≡ p = omega arith in
      let same : y ≡ x = ground (arith, rw z at e) in rw (m, ← same, bit_low p y (number ys) h)
  | no h ↦
      let q = p - 8 in
      let s : p / 8 ≡ suc (q / 8) = omega arith in
      let m : p % 8 ≡ q % 8 = omega arith in
      let e' : p ≡ 8 + q = omega arith in
      rw m (
        byte_bit ys q bs.1 (rw s at e)
        ∙ ap (λ (t : ℕ). t % 2)
            (sym
              (ap (λ (t : ℕ). (y + 256 * number ys) / 2 ^ t) e' ∙ bit_high q y (number ys) bs.0)))
]
