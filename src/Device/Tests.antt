-- ===== src/Device/Tests.antt =====
-- The theorems on device selection at a concrete driver.
use vulkan_cocoa_core.Common.{◌*◌, ◌<◌, ◌^◌, ◌≡◌, refl, [], ◌∷◌, some, true, false, arith, ◌==◌}
use vulkan_cocoa_core.Machine.{checked, ok, u64_add, add_overflow}
use vulkan_cocoa_core.Machine.Certain.{Certain}
use vulkan_cocoa_core.Air.Tags.{codes}
use vulkan_cocoa_core.Device.Driver.{
  Driver, answer, discrete_gpu, DeviceSelectionError, ext_swapchain, try_vk, has_extension,
  unwrap_or_false,
}
use vulkan_cocoa_core.Device.Queues.{
  pick_queue_families, pick_loop, pick_round, indices_of, is_better, is_none, supports_present,
  unwrap_or,
}
use vulkan_cocoa_core.Device.Queues.First.{
  families, presents, draws, first_from, is_dedicated, pick_queue_families-first,
}
use vulkan_cocoa_core.Device.Select.{
  Candidate, score_candidate, select_physical_device, candidates, consider, scored, local_bytes,
  any_missing, is_some, push_some, max_by_score, max_from, ok_or_unsuitable, type_score,
  feature_score, extension_score,
}
use vulkan_cocoa_core.Device.Select.Score.{score_candidate-lt}
use vulkan_cocoa_core.Device.Select.Best.{Outcome, select_physical_device-Outcome}
use vulkan_cocoa_core.Device.Logical.{device_create_info}
use vulkan_cocoa_core.Device.Logical.Request.{Valid, device_create_info-Valid}
use vulkan_cocoa_core.Air.Locate.{bytes_eq}

-- One GPU, with a graphics family that cannot present, one that can, and one for transfer only.
abbrev driver : Driver
driver = record {
  enumerate_physical_devices = answer (7 ∷ []);
  properties = λ p. record {
    device_name = codes "gpu";
    device_type = discrete_gpu;
    max_image_dimension2_d = 640;
  };
  features = λ p. record {
    sampler_anisotropy = true;
    shader_storage_image_extended_formats = false;
    geometry_shader = true;
    tessellation_shader = false;
  };
  memory_properties = λ p. record {
    memory_heap_count = 1;
    memory_heaps =
        record { device_local = true; size = 64 * 1024 * 1024 }
        ∷ record { device_local = true; size = 5 }
        ∷ [];
  };
  extensions = λ p. answer (ext_swapchain ∷ []);
  queue_families = λ p.
      record { graphics = true; compute = true; transfer = true }
      ∷ record { graphics = true; compute = false; transfer = true }
      ∷ record { graphics = false; compute = false; transfer = true }
      ∷ [];
  surface_support = λ p idx surface. answer (idx == 1);
  create_device = λ p info. answer 9;
  device_queue = λ device family. family;
  create_command_pool = λ device family. answer 4;
}

pick_queue_families-first_example :
    pick_queue_families driver 7 (some 3)
    ≡ families
        (first_from (presents (supports_present driver 7 (some 3))) 0 (driver.queue_families 7))
        (first_from draws 0 (driver.queue_families 7))
        (first_from is_dedicated 0 (driver.queue_families 7))
pick_queue_families-first_example = pick_queue_families-first driver 7 (some 3)

score_candidate-lt_example :
    Certain {E = DeviceSelectionError}
      (λ p. p ≡ add_overflow)
      (λ score. score < 2 ^ 63)
      (score_candidate checked driver 7 [])
score_candidate-lt_example =
    score_candidate-lt {E = DeviceSelectionError} checked driver 7 [] (omega arith)

select_physical_device-Outcome_example :
    Outcome checked driver (some 3) (select_physical_device checked driver (some 3))
select_physical_device-Outcome_example = select_physical_device-Outcome checked driver (some 3)

abbrev chosen : Candidate
chosen = record {
  physical_device = 7;
  score = 100611;
  name = codes "gpu";
  queues = record { graphics = 1; transfer = 2; graphics_supports_present = true };
  available_extensions = ext_swapchain ∷ [];
}

select-chosen : select_physical_device checked driver (some 3) ≡ ok chosen
unfolding select_physical_device candidates consider scored local_bytes any_missing is_some
    push_some max_by_score max_from ok_or_unsuitable type_score feature_score extension_score
    score_candidate u64_add try_vk has_extension bytes_eq pick_queue_families pick_loop pick_round
    indices_of is_better is_none supports_present unwrap_or unwrap_or_false
select-chosen = refl

device_create_info-Valid_example :
    Valid driver chosen (device_create_info driver 7 chosen.queues chosen.available_extensions)
device_create_info-Valid_example =
    device_create_info-Valid checked driver (some 3) {c = chosen} select-chosen
