-- ===== src/Air/Tests.antt =====
-- The theorems on the parser at concrete inputs, and runs of its code.
use vulkan_cocoa_core.Common.{
  ℕ, ◌≡◌, ◌≢◌, ◌↔◌, refl, List, [], ◌∷◌, ◌++◌, none, some, true, arith, inr,
}
use vulkan_cocoa_core.Machine.{
  checked, wrapping, ok, err, panic, out_of_fuel, subtract_overflow, index_out_of_bounds,
}
use vulkan_cocoa_core.Machine.Ensures.{Ensures}
use vulkan_cocoa_core.Air.Syntax.{
  raw_bitcode_magic, too_short, no_bitcode_magic, BitcodeWrapperHeader, kernel_entry_point,
  no_blocks,
}
use vulkan_cocoa_core.Air.Reader.{BitReader, read, read_vbr, align32}
use vulkan_cocoa_core.Air.Reader.Number.{bits_at, number}
use vulkan_cocoa_core.Air.Reader.Read.{at, done, read_lem}
use vulkan_cocoa_core.Air.Reader.Vbr.{vbr_pieces, read_vbr-vbr_pieces}
use vulkan_cocoa_core.Air.Reader.Progress.{Allowed}
use vulkan_cocoa_core.Air.Block.{parse_block}
use vulkan_cocoa_core.Air.Block.Progress.{Left, parse_block-Left}
use vulkan_cocoa_core.Air.Locate.{locate_bitstream, has_raw_magic, bytes_eq}
use vulkan_cocoa_core.Air.Locate.Found.{
  FoundIn, wrapper, locate_bitstream-FoundIn, locate_bitstream-wrapper,
}
use vulkan_cocoa_core.Air.Tags.{codes, scan_known_air_tags}
use vulkan_cocoa_core.Air.Tags.Occurs.{Occurs, has, tag_of, scan_known_air_tags_iff}
use vulkan_cocoa_core.Air.Parse.{parse_top, parse}
use vulkan_cocoa_core.Air.Parse.Ends.{
  parse-ne-out_of_fuel, parse-ne-index_out_of_bounds, parse_top-align32,
}

-- The magic and nine bytes: a subblock of id 8, whose first id ends it in the last byte.
abbrev cut_short : List ℕ
cut_short = raw_bitcode_magic ++ 0x21 ∷ 0x08 ∷ 0 ∷ 0 ∷ 0 ∷ 0 ∷ 0 ∷ 0 ∷ 0 ∷ []

abbrev whole : List ℕ
whole = cut_short ++ 0 ∷ 0 ∷ 0 ∷ []

parse-ne-out_of_fuel_example : parse checked cut_short ≢ out_of_fuel
parse-ne-out_of_fuel_example = parse-ne-out_of_fuel checked cut_short

parse-ne-index_out_of_bounds_example : parse wrapping whole ≢ panic index_out_of_bounds
unfolding locate_bitstream has_raw_magic bytes_eq
parse-ne-index_out_of_bounds_example =
    parse-ne-index_out_of_bounds wrapping whole {inner = whole} {header = none} refl (inr refl)

abbrev two_bytes : List ℕ
two_bytes = 0x4D ∷ 0x3C ∷ []

read_lem_example : read checked 5 (at two_bytes 6) ≡ done two_bytes (bits_at two_bytes 6 5) 11
read_lem_example =
    read_lem checked two_bytes (omega arith, (omega arith, tt)) 5 6 (omega arith) (omega arith)

read_vbr-vbr_pieces_example : read_vbr wrapping 4 (at two_bytes 0) ≡ done two_bytes 37 8
unfolding vbr_pieces bits_at number
read_vbr-vbr_pieces_example =
    read_vbr-vbr_pieces wrapping two_bytes (omega arith, (omega arith, tt)) 3 (omega arith) 20 0 37
      (omega arith) (omega arith) (refl, omega arith, (refl, omega arith, tt))

parse_block-Left_example :
    Ensures
      (Allowed checked two_bytes)
      (Left two_bytes 0)
      (parse_block checked 2 8 (record { blockinfo = [] }) (at two_bytes 0))
parse_block-Left_example =
    parse_block-Left checked {xs = two_bytes} 2 8 (record { blockinfo = [] }) {r = at two_bytes 0}
      (record { same = refl; inside = λ _. omega arith })

locate_bitstream-FoundIn_example : Ensures (λ _. ⊥) (FoundIn cut_short) (locate_bitstream cut_short)
locate_bitstream-FoundIn_example = locate_bitstream-FoundIn cut_short

abbrev header : BitcodeWrapperHeader
header = record { version = 1; offset = 21; size = 13; cpu_type = 7 }

locate_bitstream-wrapper_example :
    locate_bitstream (wrapper header (9 ∷ []) ++ (cut_short ++ 5 ∷ []))
    ≡ ok (cut_short, some header)
locate_bitstream-wrapper_example =
    locate_bitstream-wrapper header (9 ∷ []) cut_short (5 ∷ [])
      (record {
        version = omega arith;
        offset = omega arith;
        size = omega arith;
        cpu_type = omega arith;
      })
      refl refl (0x21 ∷ 0x08 ∷ 0 ∷ 0 ∷ 0 ∷ 0 ∷ 0 ∷ 0 ∷ 0 ∷ [], refl)

scan_known_air_tags_iff_example :
    (has kernel_entry_point (scan_known_air_tags (codes "x air.kernel")) ≡ true)
    ↔ Occurs (tag_of kernel_entry_point) (codes "x air.kernel")
scan_known_air_tags_iff_example = scan_known_air_tags_iff kernel_entry_point (codes "x air.kernel")

-- Nine bytes, of which the first 66 bits are read.
abbrev nine_bytes : BitReader
nine_bytes = record { bytes = 0 ∷ 0 ∷ 0 ∷ 0 ∷ 0 ∷ 0 ∷ 0 ∷ 0 ∷ 0 ∷ []; bit_pos = 66 }

parse_top-align32_example :
    (parse_top checked 73 no_blocks (record { blockinfo = [] }) (align32 nine_bytes)
      ≡ panic subtract_overflow)
    × (parse_top wrapping 73 no_blocks (record { blockinfo = [] }) (align32 nine_bytes)
        ≡ panic index_out_of_bounds)
parse_top-align32_example =
    parse_top-align32 72 no_blocks (record { blockinfo = [] }) nine_bytes (omega arith)
      (omega arith) (omega arith)

parse-short : parse checked (1 ∷ []) ≡ err too_short
unfolding parse
parse-short = refl

parse-no_magic : parse checked (1 ∷ 2 ∷ 3 ∷ 4 ∷ []) ≡ err no_bitcode_magic
unfolding parse locate_bitstream has_raw_magic bytes_eq
parse-no_magic = refl
