-- ===== src/Jit/Tests.antt =====
-- The theorems on the compiler at concrete inputs.
use vulkan_cocoa_core.Common.{◌+◌, ◌≡◌, refl, [], ◌∷◌, some, none, true, arith}
use vulkan_cocoa_core.Machine.{checked, ok, u32_add, usize_sub}
use vulkan_cocoa_core.Air.Syntax.{
  raw_bitcode_magic, AirParseError, AirModule, argument_buffer_usage, bitstream_block, no_blocks,
  blocks,
}
use vulkan_cocoa_core.Air.Tags.{
  codes, contains, starts_with, scan_known_air_tags, features_in, tags,
}
use vulkan_cocoa_core.Air.Locate.{bytes_eq, locate_bitstream, has_raw_magic, slice}
use vulkan_cocoa_core.Air.Parse.{parse, parse_body, parse_top}
use vulkan_cocoa_core.Air.Reader
use vulkan_cocoa_core.Air.Reader.{bits_remaining}
use vulkan_cocoa_core.Jit.Utf8.{is_utf8, utf8_from, leading}
use vulkan_cocoa_core.Jit.Transforms
use vulkan_cocoa_core.Jit.Transforms.{
  State, transform_module, process_blocks, analyze_records, analyze_record_metadata, note_barrier,
  add_binding, names_binding, is_empty, is_binding_name, insert, uses_argument_buffers,
}
use vulkan_cocoa_core.Jit.Transforms.Barrier.{blocks_have_barrier, transform_module-barrier}
use vulkan_cocoa_core.Jit.Transforms.Bindings.{Numbered, blocks_names, transform_module-Numbered}
use vulkan_cocoa_core.Jit.Compile
use vulkan_cocoa_core.Jit.Compile.{spirv_words, compile_air_to_spirv, ok_or_none, patches_or_words}
use vulkan_cocoa_core.Jit.Compile.Words.{
  bytes_of_words, Compiled, bytes_of_words-spirv_words, compile_air_to_spirv-words,
}

-- A module with one block: a barrier that names a buffer.
abbrev sample : AirModule
sample = record {
  wrapper = none;
  detected_features = argument_buffer_usage ∷ [];
  blocks =
      blocks
        (bitstream_block 8 2
          (record { abbrev_id = 4; code = 5; operands = []; blob = codes "buffer_index" } ∷ [])
          no_blocks)
        no_blocks;
}

abbrev after : State
after = (
  record { binding_counter = 1 },
  record {
    transformed_spirv_patches = [];
    binding_map =
        (
          codes "buffer_index",
          record { set = 0; binding = 0; is_bindless = true; is_non_uniform = true },
        )
        ∷ [];
    requires_control_barrier_fix = true;
  },
)

transform-sample : transform_module {E = AirParseError} checked Transforms.new sample ≡ ok after
unfolding Transforms.new transform_module process_blocks analyze_records analyze_record_metadata
    note_barrier add_binding names_binding is_empty is_binding_name insert uses_argument_buffers
    is_utf8 utf8_from leading contains starts_with u32_add
transform-sample = refl

transform_module-barrier_example :
    after.1.requires_control_barrier_fix ≡ blocks_have_barrier sample.blocks
transform_module-barrier_example =
    transform_module-barrier {E = AirParseError} checked Transforms.new sample {s = after}
      transform-sample

transform_module-Numbered_example :
    Numbered 0 after
    × (after.0.binding_counter
        ≡ 0 + blocks_names (uses_argument_buffers sample.detected_features) sample.blocks)
unfolding Transforms.new
transform_module-Numbered_example =
    transform_module-Numbered {E = AirParseError} Transforms.new sample {s = after} transform-sample

bytes_of_words-spirv_words_example :
    bytes_of_words (spirv_words (1 ∷ 2 ∷ 3 ∷ 4 ∷ 5 ∷ [])) ≡ 1 ∷ 2 ∷ 3 ∷ 4 ∷ []
bytes_of_words-spirv_words_example =
    bytes_of_words-spirv_words (1 ∷ 2 ∷ 3 ∷ 4 ∷ 5 ∷ [])
      (omega arith, (omega arith, (omega arith, (omega arith, (omega arith, tt)))))

-- The magic alone: a module without blocks.
compile-magic :
    compile_air_to_spirv checked Compile.new raw_bitcode_magic
    ≡ ok (some (0xDEC04342 ∷ []), Compile.new)
unfolding Compile.new Transforms.new compile_air_to_spirv ok_or_none patches_or_words spirv_words
    parse parse_body parse_top Reader.new bits_remaining locate_bitstream has_raw_magic bytes_eq
    slice transform_module process_blocks scan_known_air_tags features_in tags contains starts_with
    usize_sub
compile-magic = refl

compile_air_to_spirv-words_example :
    Compiled (parse checked raw_bitcode_magic) raw_bitcode_magic (some (0xDEC04342 ∷ []))
compile_air_to_spirv-words_example =
    compile_air_to_spirv-words checked Compile.new raw_bitcode_magic {out = some (0xDEC04342 ∷ [])}
      {ctx' = Compile.new} compile-magic
