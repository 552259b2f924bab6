-- ===== src/Images/Gpu.antt =====
-- What src/vulkan_backend/resource.rs asks of the Vulkan driver and of IOSurface: `Gpu` is a
-- parameter, with a field for each call. An answer may depend on how many calls were made before it.
-- Handles are numbers, with 0 for the null handle; flags are the bits of a number.
use vulkan_cocoa_core.Common.{ℕ, ◌+◌, List, [], ◌∷◌, ◌==◌, if◌then◌else◌}
use vulkan_cocoa_core.Machine.{ok, err}
use vulkan_cocoa_core.Machine.Stateful.{Stateful}
use vulkan_cocoa_core.Device.Driver.{Answer, answer, failed}

pub data ResourceError : Type 0 where
  vk : ℕ → ResourceError
  no_memory_type : (type_bits properties : ℕ) → ResourceError
  surface_lookup_failed zero_dimensions : ResourceError

pub record MemoryProperties : Type 0 where
  pub memory_type_count : ℕ
  pub memory_types : List ℕ

pub record MemoryRequirements : Type 0 where
  pub size : ℕ
  pub memory_type_bits : ℕ

-- What is chained to the info of an image.
pub data ImageSource : Type 0 where
  own_memory opaque_fd : ImageSource
  io_surface : ℕ → ImageSource

-- The fields of `ImageCreateInfo` that are not constant.
pub record ImageCreateInfo : Type 0 where
  pub source : ImageSource
  pub format : ℕ
  pub width : ℕ
  pub height : ℕ
  pub usage : ℕ

-- What is chained to the info of an allocation.
pub data MemorySource : Type 0 where
  fresh : MemorySource
  import_fd : ℕ → MemorySource

pub record MemoryAllocateInfo : Type 0 where
  pub source : MemorySource
  pub allocation_size : ℕ
  pub memory_type_index : ℕ

pub record Gpu : Type 0 where
  pub memory_properties : MemoryProperties
  pub create_image : (calls : ℕ) → ImageCreateInfo → Answer ℕ
  pub image_memory_requirements : (image : ℕ) → MemoryRequirements
  pub allocate_memory : (calls : ℕ) → MemoryAllocateInfo → Answer ℕ
  pub bind_image_memory : (calls image memory : ℕ) → Answer (Unit {0})
  pub create_image_view : (calls image format : ℕ) → Answer ℕ
  pub surface_lookup : (port : ℕ) → ℕ
  pub surface_width : (surface : ℕ) → ℕ
  pub surface_height : (surface : ℕ) → ℕ

-- The objects that were made and not yet destroyed, the last one first.
pub record Live : Type 0 where
  pub images : List ℕ
  pub memories : List ℕ
  pub views : List ℕ
  pub surfaces : List ℕ

pub record World : Type 0 where
  pub calls : ℕ
  pub live : Live

abbrev pub Method : Type 0 → Type 0
Method A = Stateful ResourceError World A

abbrev pub remove : ℕ → List ℕ → List ℕ
remove h [] = []
remove h (x ∷ xs) = if h == x then xs else x ∷ remove h xs

-- A call that makes an object, with `?`: `keep` tells where it is kept.
abbrev pub made : Answer ℕ → (keep : ℕ → Live → Live) → Method ℕ
made (answer h) keep w = (ok h, record { calls = w.calls + 1; live = keep h w.live })
made (failed e) keep w = (err (vk e), record w { calls = w.calls + 1 })

abbrev pub make : (ℕ → Answer ℕ) → (keep : ℕ → Live → Live) → Method ℕ
make f keep w = made (f w.calls) keep w

-- A call with `?` that makes nothing.
abbrev pub answered : {A : Type 0} → Answer A → Method A
answered (answer a) w = (ok a, record w { calls = w.calls + 1 })
answered (failed e) w = (err (vk e), record w { calls = w.calls + 1 })

abbrev pub call : {A : Type 0} → (ℕ → Answer A) → Method A
call f w = answered (f w.calls) w

abbrev pub keep_image : ℕ → Live → Live
keep_image h l = record l { images = h ∷ l.images }

abbrev pub keep_memory : ℕ → Live → Live
keep_memory h l = record l { memories = h ∷ l.memories }

abbrev pub keep_view : ℕ → Live → Live
keep_view h l = record l { views = h ∷ l.views }

abbrev pub keep_surface : ℕ → Live → Live
keep_surface h l = record l { surfaces = h ∷ l.surfaces }

abbrev pub drop_image : ℕ → Live → Live
drop_image h l = record l { images = remove h l.images }

abbrev pub drop_memory : ℕ → Live → Live
drop_memory h l = record l { memories = remove h l.memories }

abbrev pub drop_view : ℕ → Live → Live
drop_view h l = record l { views = remove h l.views }

abbrev pub drop_surface : ℕ → Live → Live
drop_surface h l = record l { surfaces = remove h l.surfaces }
