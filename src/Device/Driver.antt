-- ===== src/Device/Driver.antt =====
-- What src/vulkan_backend/mod.rs asks the Vulkan driver for. The driver is not part of the
-- repository: `Driver` is a parameter of the model, with one field for each call. Handles are
-- numbers, and texts are their bytes, as `to_string_lossy` gives them.
use vulkan_cocoa_core.Common.{ℕ, List, [], ◌∷◌, Bool, false, ◌||◌}
use vulkan_cocoa_core.Machine.{Run, ok, err}
use vulkan_cocoa_core.Air.Locate.{bytes_eq}
use vulkan_cocoa_core.Air.Tags.{codes}

-- `vk` holds the code of a `vk::Result`.
pub data DeviceSelectionError : Type 0 where
  vk : ℕ → DeviceSelectionError
  no_devices no_suitable_device : DeviceSelectionError

-- What a call of the driver returns.
pub data Answer (A : Type 0) : Type 0 where
  answer : A → Answer A
  failed : ℕ → Answer A

-- The flags of a queue family that the code tests.
pub record QueueFamily : Type 0 where
  pub graphics : Bool
  pub compute : Bool
  pub transfer : Bool

pub data DeviceType : Type 0 where
  discrete_gpu integrated_gpu virtual_gpu cpu other : DeviceType

pub record MemoryHeap : Type 0 where
  pub device_local : Bool
  pub size : ℕ

pub record Properties : Type 0 where
  pub device_name : List ℕ
  pub device_type : DeviceType
  pub max_image_dimension2_d : ℕ

pub record Features : Type 0 where
  pub sampler_anisotropy : Bool
  pub shader_storage_image_extended_formats : Bool
  pub geometry_shader : Bool
  pub tessellation_shader : Bool

pub record MemoryProperties : Type 0 where
  pub memory_heap_count : ℕ
  pub memory_heaps : List MemoryHeap

-- The fields of `DeviceCreateInfo` that the code sets: one queue for each family listed.
pub record DeviceCreateInfo : Type 0 where
  pub queue_families : List ℕ
  pub enabled_extension_names : List (List ℕ)
  pub enabled_features : Features

pub record Driver : Type 0 where
  pub enumerate_physical_devices : Answer (List ℕ)
  pub properties : ℕ → Properties
  pub features : ℕ → Features
  pub memory_properties : ℕ → MemoryProperties
  pub extensions : ℕ → Answer (List (List ℕ))
  pub queue_families : ℕ → List QueueFamily
  pub surface_support : (pdevice idx surface : ℕ) → Answer Bool
  pub create_device : ℕ → DeviceCreateInfo → Answer ℕ
  pub device_queue : (device family : ℕ) → ℕ
  pub create_command_pool : (device family : ℕ) → Answer ℕ

-- `?` on a driver's answer.
unfoldable pub try_vk : {A : Type 0} → Answer A → Run DeviceSelectionError A
try_vk (answer a) = ok a
try_vk (failed e) = err (vk e)

-- `unwrap_or(false)`
unfoldable pub unwrap_or_false : Answer Bool → Bool
unwrap_or_false (answer c) = c
unwrap_or_false (failed e) = false

-- `HashSet::contains`
unfoldable pub has_extension : List ℕ → List (List ℕ) → Bool
has_extension name [] = false
has_extension name (x ∷ xs) = bytes_eq x name || has_extension name xs

abbrev pub ext_swapchain : List ℕ
ext_swapchain = codes "VK_KHR_swapchain"

abbrev pub required_device_extensions : List (List ℕ)
required_device_extensions = ext_swapchain ∷ []

abbrev pub preferred_device_extensions : List (List ℕ)
preferred_device_extensions =
    codes "VK_KHR_external_memory"
    ∷ codes "VK_KHR_external_memory_fd"
    ∷ codes "VK_EXT_external_memory_host"
    ∷ codes "VK_EXT_metal_objects"
    ∷ []
