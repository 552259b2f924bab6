-- ===== src/Air/Reader/Read.antt =====
-- `read` against the number that the bytes spell.
use vulkan_cocoa_core.Common.{
  List, ℕ, zero, suc, ◌+◌, ◌-◌, ◌*◌, ◌/◌, ◌%◌, ◌^◌, ◌≤◌, ◌<◌, ◌≡◌, length, get_elem?-some, arith,
  refl, ap, ◌∙◌, pos→ne_zero, lt→ltb, le→leb, le→ltb, bit_and, sym,
}
use native.Mathlib.Nat.{mod-lt, mod-eq_of_lt, pow-le-pow_right}
use vulkan_cocoa_core.Common.Bits.{
  bit_or-shift, bit_and-one, pow_pos, mod-pow_split, div-pow_add, pow-add,
}
use vulkan_cocoa_core.Machine.{Build, Run, usize_sub, ok, u64_shl}
use vulkan_cocoa_core.Air.Syntax.{AirParseError}
use vulkan_cocoa_core.Air.Reader.{BitReader, bits_remaining, read_bit, read_loop, read}
use vulkan_cocoa_core.Air.Reader.Number.{IsBytes, number, bits_at, byte_bit}

-- A reader at a position, and a run that ends there with a value.
abbrev pub at : List ℕ → ℕ → BitReader
at xs pos = record { bytes = xs; bit_pos = pos }

abbrev pub done : List ℕ → (v pos : ℕ) → Run AirParseError (ℕ × BitReader)
done xs v pos = ok (v, at xs pos)

pub done_eq : {xs : List ℕ} {v w p q : ℕ} → v ≡ w → p ≡ q → done xs v p ≡ done xs w q
done_eq e f = cc

-- Shifting a bit to a place below 64 loses nothing.
shl_bit :
    {E : Type 0} (b : Build) (v i : ℕ) → v ≤ 1 → i < 64 → u64_shl {E = E} b v i ≡ ok (v * 2 ^ i)
unfolding u64_shl
shl_bit b v i h k =
    let p : 2 ^ i ≤ 2 ^ 63 =
      pow-le-pow_right {n = 2} (omega arith) {i = i} {j = 63} (omega arith) in
    let m : v * 2 ^ i ≤ 1 * 2 ^ i = grind arith in
    let l : v * 2 ^ i < 2 ^ 64 = omega arith in rw (lt→ltb i 64 k) (ap ok (mod-eq_of_lt l))

-- The bits at a position are the first and those behind it.
bits_at-suc :
    (xs : List ℕ) (pos n : ℕ)
    → bits_at xs pos (suc n) ≡ bits_at xs pos 1 + 2 * bits_at xs (pos + 1) n
unfolding bits_at
bits_at-suc xs pos n =
    let e : suc n ≡ 1 + n = omega arith in
    rw (e, mod-pow_split (number xs / 2 ^ pos) 1 n, div-pow_add (number xs) pos 1) (omega arith)

bits_at-zero : (xs : List ℕ) (pos : ℕ) → bits_at xs pos 0 ≡ 0
unfolding bits_at
bits_at-zero xs pos = omega arith

pub bits_at-lt : (xs : List ℕ) (pos n : ℕ) → bits_at xs pos n < 2 ^ n
unfolding bits_at
bits_at-lt xs pos n = mod-lt (number xs / 2 ^ pos) (pow_pos n)

module _ (b : Build) (xs : List ℕ) (bytes : IsBytes xs) where
  read_bit_lem :
      (pos i result : ℕ)
      → pos < length xs * 8
      → i < 64
      → result < 2 ^ i
      → read_bit b i result (at xs pos) ≡ done xs (result + bits_at xs pos 1 * 2 ^ i) (pos + 1)
  unfolding read_bit bits_at
  read_bit_lem pos i result h k small =
      let (x, e) = get_elem?-some xs (pos / 8) (omega arith) in
      let bit : bit_and (x / 2 ^ (pos % 8)) 1 ≡ number xs / 2 ^ pos % 2 =
        bit_and-one (x / 2 ^ (pos % 8)) ∙ byte_bit xs pos bytes e in
      rw (
        e,
        read_bit,
        bit,
        shl_bit b (number xs / 2 ^ pos % 2) i (omega arith) k,
        bit_or-shift i result (number xs / 2 ^ pos % 2) small,
      )

  read_loop_lem :
      (n pos i result : ℕ)
      → pos + n ≤ length xs * 8
      → i + n ≤ 64
      → result < 2 ^ i
      → read_loop b n i result (at xs pos) ≡ done xs (result + bits_at xs pos n * 2 ^ i) (pos + n)
  unfolding read_loop
  read_loop_lem zero pos i result h k small =
      done_eq (omega (arith, ap (λ (t : ℕ). t * 2 ^ i) (bits_at-zero xs pos))) (omega arith)
  read_loop_lem (suc n) pos i result h k small =
      let bit = bits_at xs pos 1 in
      let two : 2 ^ (i + 1) ≡ 2 ^ i * 2 = pow-add i 1 in
      let low : bit < 2 = bits_at-lt xs pos 1 in
      let fits : bit * 2 ^ i ≤ 1 * 2 ^ i = grind arith in
      rw (read_bit_lem pos i result (omega arith) (omega arith) small) (
        read_loop_lem n (pos + 1) (i + 1) (result + bit * 2 ^ i) (omega arith) (omega arith)
          (omega arith)
        ∙ done_eq (rw (bits_at-suc xs pos n, two) (omega arith)) (omega arith))

  -- In range, `read` returns the next bits of the number and moves behind them.
  pub read_lem :
      (n pos : ℕ)
      → n ≤ 64
      → pos + n ≤ length xs * 8
      → read b n (at xs pos) ≡ done xs (bits_at xs pos n) (pos + n)
  unfolding read bits_remaining usize_sub
  read_lem zero pos k h = done_eq (sym (bits_at-zero xs pos)) (omega arith)
  read_lem (suc n) pos k h =
      rw
        (
          pos→ne_zero (suc n) (omega arith),
          le→leb pos (length xs * 8) (omega arith),
          le→ltb (length xs * 8 - pos) (suc n) (omega arith),
        )
        (read_loop_lem (suc n) pos 0 0 h (omega arith) (omega arith) ∙ done_eq (omega arith) refl)
