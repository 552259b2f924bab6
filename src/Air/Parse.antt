-- ===== src/Air/Parse.antt =====
-- `parse` of src/shader_jit/air_parser.rs.
pub mod Ends
use vulkan_cocoa_core.Common.{
  ℕ, zero, suc, ◌+◌, ◌*◌, List, length, drop, ltb, leb, ◌==◌, not, if◌then◌else◌,
}
use vulkan_cocoa_core.Machine.{Build, Run, ok, err, out_of_fuel, bind}
use vulkan_cocoa_core.Air.Syntax.{
  enter_subblock, AirParseError, too_short, AirModule, Blocks, no_blocks, AbbrevTable,
}
use vulkan_cocoa_core.Common.{[]}
use vulkan_cocoa_core.Air.Reader.{BitReader, new, bits_remaining, read}
use vulkan_cocoa_core.Air.Block.{push_block, read_block_header, parse_block}
use vulkan_cocoa_core.Air.Locate.{locate_bitstream, slice}
use vulkan_cocoa_core.Air.Tags.{scan_known_air_tags}

-- The loop of `parse`: the blocks at the top level, pushed behind `top_level`. Each round reads at
-- least a bit.
unfoldable pub parse_top : Build → ℕ → Blocks → AbbrevTable → BitReader → Run AirParseError Blocks
parse_top b zero top_level table r = out_of_fuel
parse_top b (suc fuel) top_level table r = bind (bits_remaining b r) λ remaining.
    let round = bind (read b 2 r) λ (abbrev_id, r₁).
      let next = bind (read_block_header b r₁) λ ((block_id, new_width), r₂).
        bind (parse_block b new_width block_id table r₂)
          λ (block, table', r₃). parse_top b fuel (push_block top_level block) table' r₃ in
      if not (abbrev_id == enter_subblock) then ok top_level else next in
    if leb 32 remaining then round else ok top_level

unfoldable pub parse_body : Build → List ℕ → Run AirParseError Blocks
unfolding parse_top
parse_body b body =
    parse_top b (length body * 8 + 1) no_blocks (record { blockinfo = [] }) (new body)

unfoldable pub parse : Build → List ℕ → Run AirParseError AirModule
parse b xs =
    if ltb (length xs) 4
    then err too_short
    else bind (locate_bitstream xs) λ (bitstream, wrapper).
      bind (slice 4 (length bitstream) bitstream) λ body. bind (parse_body b body) λ top_level.
        ok (record {
          wrapper = wrapper;
          detected_features = scan_known_air_tags body;
          blocks = top_level;
        })
