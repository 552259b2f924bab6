-- ===== src/Device/Logical.antt =====
-- `create_logical_device` and `build_shared_device` of src/vulkan_backend/mod.rs. The loaders of
-- extension functions and the instance, which only pass through, are left out of the shared device.
pub mod Request
use vulkan_cocoa_core.Common.{
  ℕ, List, [], ◌∷◌, ◌++◌, Option, Bool, not, ◌==◌, if◌then◌else◌, false, ◌&&◌, true,
}
use vulkan_cocoa_core.Machine.{Build, Run, ok, bind}
use vulkan_cocoa_core.Device.Driver.{
  Driver, DeviceSelectionError, DeviceCreateInfo, Features, try_vk, has_extension,
  required_device_extensions, preferred_device_extensions,
}
use vulkan_cocoa_core.Device.Queues.{QueueFamilyIndices}
use vulkan_cocoa_core.Device.Select.{Candidate, select_physical_device}

-- One queue of the graphics family, and one of the transfer family where it is another.
unfoldable pub queue_create_infos : QueueFamilyIndices → List ℕ
queue_create_infos queues =
    if not (queues.transfer == queues.graphics)
    then queues.graphics ∷ queues.transfer ∷ []
    else queues.graphics ∷ []

-- The extensions of `preferred` that are available.
unfoldable pub available : (preferred extensions : List (List ℕ)) → List (List ℕ)
available [] extensions = []
available (ext ∷ exts) extensions =
    let rest = available exts extensions in
    if has_extension ext extensions then ext ∷ rest else rest

unfoldable pub enabled_extensions : List (List ℕ) → List (List ℕ)
unfolding available
enabled_extensions extensions =
    required_device_extensions ++ available preferred_device_extensions extensions

-- `PhysicalDeviceFeatures::default()` has no feature.
unfoldable pub enabled_features : Features → Features
enabled_features supported = record {
  sampler_anisotropy = supported.sampler_anisotropy;
  shader_storage_image_extended_formats = supported.shader_storage_image_extended_formats;
  geometry_shader = false;
  tessellation_shader = false;
}

unfoldable pub device_create_info :
    Driver → (pdevice : ℕ) → QueueFamilyIndices → List (List ℕ) → DeviceCreateInfo
unfolding queue_create_infos enabled_extensions enabled_features
device_create_info d pdevice queues extensions = record {
  queue_families = queue_create_infos queues;
  enabled_extension_names = enabled_extensions extensions;
  enabled_features = enabled_features (d.features pdevice);
}

-- The device with its graphics queue and its transfer queue.
unfoldable pub create_logical_device :
    Driver
    → (pdevice : ℕ) → QueueFamilyIndices
    → List (List ℕ)
    → Run DeviceSelectionError (ℕ × ℕ × ℕ)
unfolding device_create_info try_vk
create_logical_device d pdevice queues extensions =
    bind (try_vk (d.create_device pdevice (device_create_info d pdevice queues extensions)))
      λ device.
        ok (device, d.device_queue device queues.graphics, d.device_queue device queues.transfer)

pub record SharedDevice : Type 0 where
  pub physical_device : ℕ
  pub device : ℕ
  pub graphics_queue : ℕ
  pub graphics_queue_family : ℕ
  pub transfer_queue : ℕ
  pub transfer_queue_family : ℕ
  pub command_pool : ℕ

unfoldable pub build_shared_device :
    Build → Driver → Option ℕ → Run DeviceSelectionError SharedDevice
unfolding try_vk
build_shared_device b d presentation_surface =
    bind (select_physical_device b d presentation_surface) λ c.
      bind (create_logical_device d c.physical_device c.queues c.available_extensions)
        λ (device, graphics_queue, transfer_queue).
          bind (try_vk (d.create_command_pool device c.queues.graphics)) λ command_pool.
            ok (record {
              physical_device = c.physical_device;
              device = device;
              graphics_queue = graphics_queue;
              graphics_queue_family = c.queues.graphics;
              transfer_queue = transfer_queue;
              transfer_queue_family = c.queues.transfer;
              command_pool = command_pool;
            })
