-- ===== src/Images/Image.antt =====
-- `GpuImage` of src/vulkan_backend/resource.rs: making, importing and destroying an image.
pub mod Lifetime
pub mod Owned
pub mod Surface
use vulkan_cocoa_core.Common.{
  ℕ, ◌%◌, ◌^◌, Bool, true, false, ◌||◌, ◌==◌, not, Option, none, some, bit_or, if◌then◌else◌,
}
use vulkan_cocoa_core.Machine.{Build, Run, ok, err}
use vulkan_cocoa_core.Machine.Stateful.{◌>>=◌, ◌>>◌, pure, fail, modify, lift, then_do}
use vulkan_cocoa_core.Render.Display.{Extent}
use vulkan_cocoa_core.Images.Gpu.{
  surface_lookup_failed, zero_dimensions, own_memory, opaque_fd, io_surface, ImageCreateInfo, fresh,
  import_fd, MemorySource, Gpu, Live, World, Method, make, call, keep_image, keep_memory, keep_view,
  keep_surface, drop_image, drop_memory, drop_view, drop_surface,
}
use vulkan_cocoa_core.Images.Memory.{find_memory_type}

pub record GpuImage : Type 0 where
  pub image : ℕ
  pub memory : Option ℕ
  pub view : ℕ
  pub extent : Extent
  pub format : ℕ
  pub owns_memory : Bool

unfoldable pub destroy_view : GpuImage → Live → GpuImage × Live
destroy_view im l =
    if not (im.view == 0) then (record im { view = 0 }, drop_view im.view l) else (im, l)

unfoldable pub destroy_image : GpuImage → Live → GpuImage × Live
destroy_image im l =
    if not (im.image == 0) then (record im { image = 0 }, drop_image im.image l) else (im, l)

unfoldable pub free_memory : GpuImage → Live → GpuImage × Live
free_memory im l =
    if im.owns_memory
    then elim im.memory [
      | none ↦ (im, l)
      | some mem ↦ (record im { memory = none }, drop_memory mem l)
    ]
    else (im, l)

unfoldable pub destroy : GpuImage → Live → GpuImage × Live
destroy im l =
    let (im₁, l₁) = destroy_view im l in let (im₂, l₂) = destroy_image im₁ l₁ in free_memory im₂ l₂

unfoldable pub make_view : Gpu → (image format : ℕ) → Method ℕ
make_view g image format = make (λ n. g.create_image_view n image format) keep_view

abbrev pub device_local : ℕ
device_local = 1

-- From the image that was created on: its memory and its view.
unfoldable pub back_image : Build → Gpu → MemorySource → (image : ℕ) → Extent → ℕ → Method GpuImage
back_image b g source image extent format = do
  type_index ← lift (
      find_memory_type b g.memory_properties (g.image_memory_requirements image).memory_type_bits
        device_local)
  memory ←
      make
        (λ n. g.allocate_memory n (record {
          source = source;
          allocation_size = (g.image_memory_requirements image).size;
          memory_type_index = type_index;
        }))
        keep_memory
  call (λ n. g.bind_image_memory n image memory)
  view ← make_view g image format
  pure (record {
    image = image;
    memory = some memory;
    view = view;
    extent = extent;
    format = format;
    owns_memory = true;
  })

unfoldable pub create_color_attachment : Build → Gpu → Extent → (format usage : ℕ) → Method GpuImage
create_color_attachment b g extent format usage = do
  image ←
      make
        (λ n. g.create_image n (record {
          source = own_memory;
          format = format;
          width = extent.width;
          height = extent.height;
          usage = usage;
        }))
        keep_image
  back_image b g fresh image extent format

-- `SAMPLED`, `TRANSFER_DST` and `COLOR_ATTACHMENT`. The source names the first `SAMPLED_BIT`, which
-- ash does not have; the flag of Vulkan that is so called is taken for it.
abbrev pub imported_usage : ℕ
imported_usage = bit_or (bit_or 4 2) 16

unfoldable pub import_opaque_fd : Build → Gpu → (fd : ℕ) → Extent → (format : ℕ) → Method GpuImage
import_opaque_fd b g fd extent format = do
  image ←
      make
        (λ n. g.create_image n (record {
          source = opaque_fd;
          format = format;
          width = extent.width;
          height = extent.height;
          usage = imported_usage;
        }))
        keep_image
  back_image b g (import_fd fd) image extent format

-- `as u32`
abbrev pub as_u32 : ℕ → ℕ
as_u32 n = n % 2 ^ 32

abbrev pub release_surface : ℕ → World → World
release_surface surface w = record w { live = drop_surface surface w.live }

-- Whether the image was created or not, the surface is released behind it.
unfoldable pub create_and_release : Gpu → (surface : ℕ) → ImageCreateInfo → Method ℕ
create_and_release g surface info w =
    let (r, w₁) = make (λ n. g.create_image n info) keep_image w in (r, release_surface surface w₁)

unfoldable pub import_surface : Gpu → (surface width height format usage : ℕ) → Method GpuImage
import_surface g surface width height format usage =
    if width == 0 || height == 0
    then (modify (release_surface surface) >> fail zero_dimensions)
    else (create_and_release g surface (record {
      source = io_surface surface;
      format = format;
      width = width;
      height = height;
      usage = usage;
    })
        >>= λ image. make_view g image format >>= λ view. pure (record {
          image = image;
          memory = none;
          view = view;
          extent = record { width = width; height = height };
          format = format;
          owns_memory = false;
        }))

-- The lookup of a port retains the surface that it gives.
unfoldable pub import_from_mach_port : Gpu → (port format usage : ℕ) → Method GpuImage
import_from_mach_port g port format usage w =
    let surface = g.surface_lookup port in
    if surface == 0
    then (err surface_lookup_failed, w)
    else import_surface g surface (as_u32 (g.surface_width surface))
        (as_u32 (g.surface_height surface)) format usage
        (record w { live = keep_surface surface w.live })
