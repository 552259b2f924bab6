-- ===== src/Jit/Transforms.antt =====
-- src/shader_jit/transforms.rs. A `String` is its bytes, a `HashMap` an association list.
pub mod Barrier
pub mod Bindings
use vulkan_cocoa_core.Common.{
  ℕ, ◌+◌, List, [], ◌∷◌, Bool, true, false, ◌&&◌, ◌||◌, not, ◌==◌, if◌then◌else◌,
}
use vulkan_cocoa_core.Machine.{Build, Run, ok, bind, u32_add}
use vulkan_cocoa_core.Air.Syntax.{
  DetectedAirFeature, argument_buffer_usage, BitstreamRecord, BitstreamBlock, Blocks,
  bitstream_block, no_blocks, blocks, AirModule,
}
use vulkan_cocoa_core.Air.Locate.{bytes_eq}
use vulkan_cocoa_core.Air.Tags.{codes, contains}
use vulkan_cocoa_core.Jit.Utf8.{is_utf8}

pub record BindingModifier : Type 0 where
  pub set : ℕ
  pub binding : ℕ
  pub is_bindless : Bool
  pub is_non_uniform : Bool

abbrev pub BindingMap : Type 0
BindingMap = List (List ℕ × BindingModifier)

pub record PipelineTransformResult : Type 0 where
  pub transformed_spirv_patches : List ℕ
  pub binding_map : BindingMap
  pub requires_control_barrier_fix : Bool

abbrev pub default_result : PipelineTransformResult
default_result = record {
  transformed_spirv_patches = [];
  binding_map = [];
  requires_control_barrier_fix = false;
}

pub record AirTransformer : Type 0 where
  pub binding_counter : ℕ

unfoldable pub new : AirTransformer
new = record { binding_counter = 0 }

-- `HashMap::insert`: the value of a key that is there is replaced.
unfoldable pub insert : List ℕ → BindingModifier → BindingMap → BindingMap
unfolding bytes_eq
insert k v [] = (k, v) ∷ []
insert k v ((j, w) ∷ m) = if bytes_eq j k then (k, v) ∷ m else (j, w) ∷ insert k v m

-- The transformer and the result, both behind `&mut`.
abbrev pub State : Type 0
State = AirTransformer × PipelineTransformResult

unfoldable pub is_binding_name : List ℕ → Bool
is_binding_name name =
    contains (codes "argument_buffer") name || contains (codes "buffer_index") name

unfoldable pub is_empty : List ℕ → Bool
is_empty [] = true
is_empty (x ∷ xs) = false

-- A record whose blob names a binding.
unfoldable pub names_binding : (has_ab : Bool) → BitstreamRecord → Bool
names_binding has_ab record_ =
    has_ab && not (is_empty record_.blob) && is_utf8 record_.blob && is_binding_name record_.blob

-- The next number goes to the name of the blob.
unfoldable pub add_binding : {E : Type 0} → Build → List ℕ → State → Run E State
unfolding insert
add_binding b name (t, result) = bind (u32_add b t.binding_counter 1) λ counter. ok (
  record { binding_counter = counter },
  record result {
    binding_map =
        insert name
          (record {
            set = 0;
            binding = t.binding_counter;
            is_bindless = true;
            is_non_uniform = true;
          })
          result.binding_map;
  },
)

unfoldable pub note_barrier : BitstreamRecord → State → State
note_barrier record_ (t, result) =
    if record_.code == 5 || record_.code == 6
    then (t, record result { requires_control_barrier_fix = true })
    else (t, result)

unfoldable pub analyze_record_metadata :
    {E : Type 0} → Build → (has_ab : Bool) → BitstreamRecord → State → Run E State
unfolding note_barrier
analyze_record_metadata b has_ab record_ s =
    let s' = note_barrier record_ s in
    if names_binding has_ab record_ then add_binding b record_.blob s' else ok s'

unfoldable pub analyze_records :
    {E : Type 0} → Build → (has_ab : Bool) → List BitstreamRecord → State → Run E State
analyze_records b has_ab [] s = ok s
analyze_records b has_ab (record_ ∷ rs) s =
    bind (analyze_record_metadata b has_ab record_ s) λ s'. analyze_records b has_ab rs s'

unfoldable mutual
  pub process_block_transforms :
      {E : Type 0} → Build → (has_ab : Bool) → BitstreamBlock → State → Run E State
  process_block_transforms b has_ab (bitstream_block id width records subblocks) s =
      bind (analyze_records b has_ab records s) λ s'. process_blocks b has_ab subblocks s'

  pub process_blocks : {E : Type 0} → Build → (has_ab : Bool) → Blocks → State → Run E State
  process_blocks b has_ab no_blocks s = ok s
  process_blocks b has_ab (blocks x xs) s =
      bind (process_block_transforms b has_ab x s) λ s'. process_blocks b has_ab xs s'

unfoldable pub uses_argument_buffers : List DetectedAirFeature → Bool
uses_argument_buffers [] = false
uses_argument_buffers (argument_buffer_usage ∷ fs) = true
uses_argument_buffers (_ ∷ fs) = uses_argument_buffers fs

unfoldable pub transform_module : {E : Type 0} → Build → AirTransformer → AirModule → Run E State
transform_module b t air =
    process_blocks b (uses_argument_buffers air.detected_features) air.blocks (t, default_result)
