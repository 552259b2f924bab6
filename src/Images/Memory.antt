-- ===== src/Images/Memory.antt =====
-- `find_memory_type` of src/vulkan_backend/resource.rs.
pub mod First
use vulkan_cocoa_core.Common.{
  ℕ, zero, suc, ◌+◌, ◌-◌, ◌^◌, List, Bool, ◌&&◌, not, ◌==◌, get_elem?, none, some, bit_and,
  if◌then◌else◌,
}
use vulkan_cocoa_core.Machine.{Build, Run, ok, err, panic, bind, u32_shl, index_out_of_bounds}
use vulkan_cocoa_core.Images.Gpu.{ResourceError, no_memory_type, MemoryProperties}

-- `flags.contains(properties)`
unfoldable pub contains : (flags properties : ℕ) → Bool
contains flags properties = bit_and flags properties == properties

-- The rounds from `i` on, `n` of them.
unfoldable pub find_from :
    Build → MemoryProperties → (type_bits properties n i : ℕ) → Run ResourceError ℕ
find_from b mem_props type_bits properties zero i = err (no_memory_type type_bits properties)
find_from b mem_props type_bits properties (suc n) i =
    let rest = find_from b mem_props type_bits properties n (i + 1) in
    bind (u32_shl b 1 i) λ bit.
      let supported = not (bit_and type_bits bit == 0) in
      elim (get_elem? mem_props.memory_types i) [
        | none ↦ panic index_out_of_bounds
        | some flags ↦ if supported && contains flags properties then ok i else rest
      ]

unfoldable pub find_memory_type :
    Build → MemoryProperties → (type_bits properties : ℕ) → Run ResourceError ℕ
find_memory_type b mem_props type_bits properties =
    find_from b mem_props type_bits properties mem_props.memory_type_count 0
