-- ===== src/Images/Tests.antt =====
-- The theorems on images at a concrete driver.
use vulkan_cocoa_core.Common.{ℕ, zero, suc, ◌≡◌, refl, List, [], ◌∷◌, some, true, arith}
use vulkan_cocoa_core.Machine.{checked}
use vulkan_cocoa_core.Machine.Stateful.{Ends}
use vulkan_cocoa_core.Device.Driver.{answer}
use vulkan_cocoa_core.Render.Display.{Extent}
use vulkan_cocoa_core.Images.Gpu.{opaque_fd, own_memory, Gpu, World}
use vulkan_cocoa_core.Images.Memory.{find_memory_type}
use vulkan_cocoa_core.Images.Memory.First.{Found, Listed, find_memory_type-Found}
use vulkan_cocoa_core.Images.Image.{
  imported_usage, import_opaque_fd, GpuImage, destroy, create_color_attachment,
  import_from_mach_port,
}
use vulkan_cocoa_core.Images.Image.Lifetime.{NonNull, gone, destroy-destroy}
use vulkan_cocoa_core.Images.Image.Owned.{
  Owned, Left, image_info, create_color_attachment-Owned, import_opaque_fd-Owned,
}
use vulkan_cocoa_core.Images.Image.Surface.{LeftByImport, import_from_mach_port-Owned}

abbrev zeros : ℕ → List ℕ
zeros zero = []
zeros (suc n) = 0 ∷ zeros n

-- Three types, of which the last two are local to the device; an image may lie in the last.
abbrev gpu : Gpu
gpu = record {
  memory_properties = record { memory_type_count = 3; memory_types = 6 ∷ 1 ∷ 7 ∷ zeros 29 };
  create_image = λ n info. answer (suc n);
  image_memory_requirements = λ image. record { size = 4096; memory_type_bits = 5 };
  allocate_memory = λ n info. answer (suc n);
  bind_image_memory = λ n image memory. answer tt;
  create_image_view = λ n image format. answer (suc n);
  surface_lookup = λ port. port;
  surface_width = λ surface. 640;
  surface_height = λ surface. 480;
}

gpu-Listed : Listed gpu.memory_properties
gpu-Listed = record { places = refl; used = omega arith }

gpu-NonNull : NonNull gpu
gpu-NonNull = record { image = λ n info e. cc; view = λ n image format e. cc }

abbrev world : World
world = record {
  calls = 10;
  live = record { images = 1 ∷ []; memories = 2 ∷ []; views = 3 ∷ []; surfaces = [] };
}

abbrev size : Extent
size = record { width = 8; height = 6 }

abbrev image : GpuImage
image = record {
  image = 1;
  memory = some 2;
  view = 3;
  extent = size;
  format = 44;
  owns_memory = true;
}

find_memory_type-Found_example :
    Found gpu.memory_properties 5 1 (find_memory_type checked gpu.memory_properties 5 1)
find_memory_type-Found_example = find_memory_type-Found checked gpu.memory_properties 5 1 gpu-Listed

destroy-destroy_example :
    ((destroy image world.live).0 ≡ gone image)
    × (destroy (destroy image world.live).0 (destroy image world.live).1 ≡ destroy image world.live)
destroy-destroy_example = destroy-destroy image world.live

create_color_attachment-Owned_example :
    Ends
      (λ im w'. Owned world.live im w'.live × (im.extent ≡ size))
      (λ x w'.
        Left gpu 44
          (gpu.create_image world.calls (image_info size 44 own_memory 16))
          world.live
          x
          w'.live)
      (create_color_attachment checked gpu size 44 16 world)
create_color_attachment-Owned_example =
    create_color_attachment-Owned gpu gpu-NonNull world.live checked gpu-Listed size 44 16 world
      refl

import_from_mach_port-Owned_example :
    Ends
      (λ im w'. Owned world.live im w'.live)
      (λ e w'. LeftByImport world.live e w'.live)
      (import_from_mach_port gpu 9 44 16 world)
import_from_mach_port-Owned_example =
    import_from_mach_port-Owned gpu gpu-NonNull world.live 9 44 16 world refl

import_opaque_fd-Owned_example :
    Ends
      (λ im w'. Owned world.live im w'.live × (im.extent ≡ size))
      (λ x w'.
        Left gpu 44
          (gpu.create_image world.calls (image_info size 44 opaque_fd imported_usage))
          world.live
          x
          w'.live)
      (import_opaque_fd checked gpu 5 size 44 world)
import_opaque_fd-Owned_example =
    import_opaque_fd-Owned gpu gpu-NonNull world.live checked gpu-Listed size 44 5 world refl
