-- ===== src/Air/Parse/Ends.antt =====
-- On how `parse` of src/shader_jit/air_parser.rs ends.
use vulkan_cocoa_core.Common.{
  ℕ, zero, suc, ◌+◌, ◌-◌, ◌*◌, ◌<◌, ◌/◌, ◌%◌, ◌^◌, ◌≤◌, ◌≡◌, ◌≢◌, List, ◌++◌, Option, none, some,
  inl, inr, true, false, take_all, le→leb, lt→leb, le→ltb, pos→ne_zero, get_elem?-none, length,
  arith, ltb, leb, ◌==◌, not, refl, ap,
}
use vulkan_cocoa_core.Machine.{
  Build, checked, wrapping, ok, panic, out_of_fuel, subtract_overflow, usize_sub,
  index_out_of_bounds,
}
use vulkan_cocoa_core.Machine.Ensures.{
  Ensures, holds, rejected, Ensures-if, Ensures-bind, Ensures-allow, Ensures-self,
  Ensures-out_of_fuel, Ensures-panic,
}
use vulkan_cocoa_core.Air.Syntax.{
  enter_subblock, Blocks, AbbrevTable, raw_bitcode_magic, BitcodeWrapperHeader,
}
use vulkan_cocoa_core.Air.Reader.{
  BitReader, new, bits_remaining, read, read_loop, read_bit, align32,
}
use vulkan_cocoa_core.Air.Reader.Progress.{
  Allowed, Guarded, On, Past-here, bits_remaining-Ensures, read-Ensures,
}
use vulkan_cocoa_core.Air.Block.{push_block}
use vulkan_cocoa_core.Air.Block.Progress.{read_block_header-Moved, parse_block-Left}
use vulkan_cocoa_core.Air.Locate.{slice, locate_bitstream}
use vulkan_cocoa_core.Air.Locate.Found.{IsRaw, FoundIn, locate_bitstream-FoundIn}
use vulkan_cocoa_core.Air.Parse.{parse_top, parse_body, parse}

module _ (b : Build) {xs : List ℕ} where
  parse_top-Ensures :
      (fuel : ℕ) (top : Blocks) (table : AbbrevTable) {r : BitReader}
      → On xs r
      → length xs * 8 - r.bit_pos < fuel
      → Ensures (Allowed b xs) (λ _. Unit {0}) (parse_top b fuel top table r)
  unfolding parse_top
  parse_top-Ensures zero top table on h = absurd (omega arith)
  parse_top-Ensures (suc fuel) top table {r} on h =
      Ensures-bind (bits_remaining-Ensures b on) λ rem _.
        Ensures-if (leb 32 rem)
          (λ _. Ensures-bind (read-Ensures b 2 on) λ (id, r₁) (on₁, e, l).
            let end : r₁.bit_pos ≤ length xs * 8 = l (omega arith) in
            Ensures-if (not (id == enter_subblock)) (λ _. holds tt)
              λ _. Ensures-bind (read_block_header-Moved b (Past-here on₁)) λ ((bid, w), r₂) p₂.
                Ensures-bind (parse_block-Left b w bid table p₂.on) λ (block, table', r₃) p₃.
                  parse_top-Ensures fuel (push_block top block) table' p₃.on
                    (omega (arith, p₂.later, p₃.later)))
          (λ _. holds tt)

pub parse_body-Ensures :
    (b : Build) (xs : List ℕ) → Ensures (Allowed b xs) (λ _. Unit {0}) (parse_body b xs)
unfolding parse_body new
parse_body-Ensures b xs =
    parse_top-Ensures b (length xs * 8 + 1) _ _ (record { same = refl; inside = λ _. omega arith })
      (omega arith)

found-IsRaw : (xs : List ℕ) (a : List ℕ × Option BitcodeWrapperHeader) → FoundIn xs a → IsRaw a.0
found-IsRaw xs (inner, none) is = is.1
found-IsRaw xs (inner, some h) is = is.2

-- The body of what was located is the rest behind the magic.
body-slice :
    {E : Type 0} (xs : List ℕ) → (raw : IsRaw xs) → slice {E = E} 4 (length xs) xs ≡ ok raw.0
unfolding slice
body-slice xs (rest, e) = rw e (
    rw (le→leb 4 (length xs') (omega arith), le→leb (length xs') (length xs') (omega arith))
      (ap ok (rw (let n : length xs' - 4 ≡ length rest = omega arith in n) (take_all rest))))
  where
    xs' : List ℕ
    xs' = raw_bitcode_magic ++ rest

-- A guard on the located bytes is one on the body, which has four bytes less.
Guarded-rest :
    {b : Build} {inner inner' : List ℕ} (raw : IsRaw inner)
    → inner ≡ inner'
    → Guarded b inner'
    → Guarded b raw.0
Guarded-rest raw e (inl c) = inl c
Guarded-rest raw e (inr m) = inr (omega (arith, ap length e, ap length raw.1))

ok_eq :
    (xs : List ℕ) {a : List ℕ × Option BitcodeWrapperHeader} {inner : List ℕ}
    {header : Option BitcodeWrapperHeader}
    → locate_bitstream xs ≡ ok a
    → locate_bitstream xs ≡ ok (inner, header)
    → a.0 ≡ inner
ok_eq xs e f = cc (e, f)

parse-Ensures :
    (b : Build) (xs : List ℕ)
    → Ensures
        (λ p.
          (inner : List ℕ) (header : Option BitcodeWrapperHeader)
          → locate_bitstream xs ≡ ok (inner, header)
          → Guarded b inner
          → p ≢ index_out_of_bounds)
        (λ _. Unit {0})
        (parse b xs)
unfolding parse
parse-Ensures b xs =
    Ensures-if (ltb (length xs) 4) (λ _. rejected)
      λ _.
        Ensures-bind
          (Ensures-allow (Ensures-self (locate_bitstream-FoundIn xs)) (λ p no. absurd no))
          λ (inner, header) (found, is).
            let raw = found-IsRaw xs (inner, header) is in
            rw (body-slice inner raw) (
              Ensures-bind
                (Ensures-allow (parse_body-Ensures b raw.0) λ p safe inner' header' found' guard.
                  safe (Guarded-rest raw (ok_eq xs found found') guard))
                λ _ _. holds tt)

-- In either build and on any input, the loops of `parse` end.
pub parse-ne-out_of_fuel : (b : Build) (xs : List ℕ) → parse b xs ≢ out_of_fuel
parse-ne-out_of_fuel b xs = Ensures-out_of_fuel (parse-Ensures b xs)

-- A checked build never indexes its input out of bounds; nor does a wrapping one where the located
-- bitstream is a whole number of 32-bit words.
pub parse-ne-index_out_of_bounds :
    (b : Build) (xs : List ℕ) {inner : List ℕ} {header : Option BitcodeWrapperHeader}
    → locate_bitstream xs ≡ ok (inner, header)
    → Guarded b inner
    → parse b xs ≢ panic index_out_of_bounds
parse-ne-index_out_of_bounds b xs {inner} {header} found guard e =
    Ensures-panic (parse-Ensures b xs) e inner header found guard refl

module _ (fuel : ℕ) (top : Blocks) (table : AbbrevTable) where
  parse_top_past_end :
      (r : BitReader)
      → length r.bytes * 8 < r.bit_pos
      → r.bit_pos < length r.bytes * 8 + 32
      → (parse_top checked (suc fuel) top table r ≡ panic subtract_overflow)
        × (parse_top wrapping (suc fuel) top table r ≡ panic index_out_of_bounds)
  unfolding parse_top bits_remaining usize_sub read read_loop read_bit
  parse_top_past_end r past near =
      let total = length r.bytes * 8 in
      let left = total + 2 ^ 64 - r.bit_pos in
      let none_there = get_elem?-none r.bytes (r.bit_pos / 8) (omega arith) in
      let over : leb r.bit_pos total ≡ false = lt→leb r.bit_pos total past in
      let many : leb 32 left ≡ true = le→leb 32 left (omega arith) in
      let two : ltb left 2 ≡ false = le→ltb left 2 (omega arith) in
      (rw over, rw (over, many, two, none_there, read_bit))

  -- Where a block ends in a last word that is cut short, alignment passes the end of the input, and
  -- the next round of `parse` panics: by the subtraction in a checked build, and by reading outside
  -- the buffer in a wrapping one.
  pub parse_top-align32 :
      (r : BitReader)
      → r.bit_pos ≤ length r.bytes * 8
      → 0 < r.bit_pos % 32
      → length r.bytes * 8 < r.bit_pos + (32 - r.bit_pos % 32)
      → (parse_top checked (suc fuel) top table (align32 r) ≡ panic subtract_overflow)
        × (parse_top wrapping (suc fuel) top table (align32 r) ≡ panic index_out_of_bounds)
  unfolding align32
  parse_top-align32 r here cut past = rw (pos→ne_zero (r.bit_pos % 32) cut) (
      parse_top_past_end (record r { bit_pos = r.bit_pos + (32 - r.bit_pos % 32) }) past
        (omega arith))
