-- ===== src/Air/Reader.antt =====
-- `BitReader` of src/shader_jit/air_parser.rs. A slice has fewer than 2 ^ 61 bytes, so the product
-- `data.len() * 8` and the increments of `bit_pos` stay below 2 ^ 64.
pub mod Number
pub mod Read
pub mod Progress
pub mod Vbr
use vulkan_cocoa_core.Common.{
  ℕ, zero, suc, ◌+◌, ◌-◌, ◌*◌, ◌/◌, ◌%◌, ◌^◌, List, bit_and, bit_or, length, get_elem?, none, some,
  ◌==◌, ltb, if◌then◌else◌,
}
use vulkan_cocoa_core.Machine.{
  Build, Run, ok, err, panic, out_of_fuel, bind, index_out_of_bounds, usize_sub, u32_sub, u32_add,
  u64_shl,
}
use vulkan_cocoa_core.Air.Syntax.{AirParseError, unexpected_eof}

-- `bytes` is the field `data`.
pub record BitReader : Type 0 where
  pub bytes : List ℕ
  pub bit_pos : ℕ

-- A method on `&mut BitReader`: the reader is returned beside the result.
abbrev pub Parser : Type 0 → Type 0
Parser A = BitReader → Run AirParseError (A × BitReader)

abbrev pub pure : {A : Type 0} → A → Parser A
pure a r = ok (a, r)

infixl 5 ◌>>=◌ ◌>>◌
abbrev pub ◌>>=◌ : {A B : Type 0} → Parser A → (A → Parser B) → Parser B
◌>>=◌ m f r = bind (m r) λ (a, r'). f a r'

abbrev pub ◌>>◌ : {A B : Type 0} → Parser A → Parser B → Parser B
m >> k = m >>= λ _. k

-- An operation that does not touch the reader.
abbrev pub lift : {A : Type 0} → Run AirParseError A → Parser A
lift m r = bind m λ a. ok (a, r)

unfoldable pub new : List ℕ → BitReader
new bytes = record { bytes = bytes; bit_pos = 0 }

unfoldable pub bits_remaining : Build → BitReader → Run AirParseError ℕ
bits_remaining b r = usize_sub b (length r.bytes * 8) r.bit_pos

-- One round of the loop of `read`: the bit at `bit_pos`, put at place `i`.
unfoldable pub read_bit : Build → (i result : ℕ) → Parser ℕ
read_bit b i result r = elim (get_elem? r.bytes (r.bit_pos / 8)) [
  | none ↦ panic index_out_of_bounds
  | some byte ↦
      bind (u64_shl b (bit_and (byte / 2 ^ (r.bit_pos % 8)) 1) i)
        λ v. ok (bit_or result v, record r { bit_pos = r.bit_pos + 1 })
]

-- The loop of `read`, with the number of rounds left.
unfoldable pub read_loop : Build → ℕ → (i result : ℕ) → Parser ℕ
read_loop b zero i result r = ok (result, r)
read_loop b (suc n) i result r = (read_bit b i result >>= λ v. read_loop b n (i + 1) v) r

unfoldable pub read : Build → ℕ → Parser ℕ
read b num_bits r =
    if num_bits == 0
    then ok (0, r)
    else bind (bits_remaining b r) λ remaining.
      if ltb remaining num_bits then err unexpected_eof else read_loop b num_bits 0 0 r

-- The loop of `read_vbr`. Each round reads at least a bit, so there are at most as many as bits.
unfoldable pub vbr_loop : Build → ℕ → (width hi_mask shift result : ℕ) → Parser ℕ
vbr_loop b zero width hi_mask shift result r = out_of_fuel
vbr_loop b (suc fuel) width hi_mask shift result r = bind (read b width r) λ (piece, r').
    bind (u64_shl b (bit_and piece (hi_mask - 1)) shift) λ v.
      let more = bind (u32_sub b width 1) λ w.
        bind (u32_add b shift w)
          λ shift'. vbr_loop b fuel width hi_mask shift' (bit_or result v) r' in
      if bit_and piece hi_mask == 0 then ok (bit_or result v, r') else more

unfoldable pub read_vbr : Build → ℕ → Parser ℕ
read_vbr b width r = bind (u32_sub b width 1) λ w. bind (u64_shl b 1 w) λ hi_mask.
    bind (read b width r) λ (piece, r').
      let more =
        vbr_loop b (length r.bytes * 8 + 1) width hi_mask w (bit_and piece (hi_mask - 1)) r' in
      if bit_and piece hi_mask == 0 then ok (piece, r') else more

unfoldable pub align32 : BitReader → BitReader
align32 r =
    let rem = r.bit_pos % 32 in
    if rem == 0 then r else record r { bit_pos = r.bit_pos + (32 - rem) }
