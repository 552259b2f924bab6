-- ===== src/Air/Syntax.antt =====
-- The data types and constants of src/shader_jit/air_parser.rs.
use Prim.Native.String.{String}
use vulkan_cocoa_core.Common.{ℕ, List, [], ◌∷◌, Option}

abbrev pub bitcode_wrapper_magic : ℕ
bitcode_wrapper_magic = 0x0B17C0DE

abbrev pub raw_bitcode_magic : List ℕ
raw_bitcode_magic = 0x42 ∷ 0x43 ∷ 0xC0 ∷ 0xDE ∷ []

abbrev pub end_block : ℕ
end_block = 0

abbrev pub enter_subblock : ℕ
enter_subblock = 1

abbrev pub define_abbrev : ℕ
define_abbrev = 2

abbrev pub unabbrev_record : ℕ
unabbrev_record = 3

abbrev pub first_application_abbrev : ℕ
first_application_abbrev = 4

abbrev pub blockinfo_block_id : ℕ
blockinfo_block_id = 0

abbrev pub blockinfo_code_setbid : ℕ
blockinfo_code_setbid = 1

pub data AirParseError : Type 0 where
  too_short no_bitcode_magic wrapper_out_of_bounds unexpected_eof : AirParseError
  malformed : String → AirParseError

pub record BitcodeWrapperHeader : Type 0 where
  pub version : ℕ
  pub offset : ℕ
  pub size : ℕ
  pub cpu_type : ℕ

pub data DetectedAirFeature : Type 0 where
  kernel_entry_point vertex_entry_point fragment_entry_point : DetectedAirFeature
  compile_options language_version argument_buffer_usage : DetectedAirFeature

pub record BitstreamRecord : Type 0 where
  pub abbrev_id : ℕ
  pub code : ℕ
  pub operands : List ℕ
  pub blob : List ℕ

-- `Blocks` is the `Vec<BitstreamBlock>` inside a block.
mutual
  pub data BitstreamBlock : Type 0 where
    bitstream_block : (block_id abbrev_width : ℕ) → List BitstreamRecord → Blocks → BitstreamBlock

  pub data Blocks : Type 0 where
    no_blocks : Blocks
    blocks : BitstreamBlock → Blocks → Blocks

pub record AirModule : Type 0 where
  pub wrapper : Option BitcodeWrapperHeader
  pub detected_features : List DetectedAirFeature
  pub blocks : Blocks

pub data AbbrevOp : Type 0 where
  literal fixed vbr : ℕ → AbbrevOp
  array char6 blob : AbbrevOp

pub record AbbrevDef : Type 0 where
  pub ops : List AbbrevOp

-- A `HashMap<u64, Vec<AbbrevDef>>` as an association list.
pub record AbbrevTable : Type 0 where
  pub blockinfo : List (ℕ × List AbbrevDef)
