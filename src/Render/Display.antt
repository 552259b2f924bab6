-- ===== src/Render/Display.antt =====
-- What src/vulkan_backend/state_machine.rs and swapchain.rs beside it ask of the driver: `Display` is
-- a parameter, with a field for each call. An answer may depend on how many calls were made before it. A `vk::Result` is the
-- absolute value of its code.
use vulkan_cocoa_core.Common.{ℕ, List, Bool}
use vulkan_cocoa_core.Device.Driver.{Answer}

abbrev pub max_frames_in_flight : ℕ
max_frames_in_flight = 3

abbrev pub u32_max : ℕ
u32_max = 4294967295

abbrev pub error_out_of_date : ℕ
error_out_of_date = 1000001004

abbrev pub not_ready : ℕ
not_ready = 1

abbrev pub timeout : ℕ
timeout = 2

abbrev pub suboptimal : ℕ
suboptimal = 1000001003

pub data SwapchainError : Type 0 where
  vk : ℕ → SwapchainError
  no_surface_formats no_present_modes zero_extent : SwapchainError

pub data WindowRenderState : Type 0 where
  uninitialized ready recreating lost : WindowRenderState

pub record Extent : Type 0 where
  pub width : ℕ
  pub height : ℕ

pub record Capabilities : Type 0 where
  pub current_extent : Extent
  pub min_image_extent : Extent
  pub max_image_extent : Extent
  pub min_image_count : ℕ
  pub max_image_count : ℕ

pub data Format : Type 0 where
  b8g8r8a8_srgb b8g8r8a8_unorm other_format : Format

-- `srgb_nonlinear` tells whether the color space is `SRGB_NONLINEAR`.
pub record SurfaceFormat : Type 0 where
  pub format : Format
  pub srgb_nonlinear : Bool

pub data PresentMode : Type 0 where
  mailbox immediate fifo other_mode : PresentMode

-- The fields of `SwapchainCreateInfoKHR` that are not constant.
pub record SwapchainCreateInfo : Type 0 where
  pub min_image_count : ℕ
  pub image_format : SurfaceFormat
  pub image_extent : Extent
  pub present_mode : PresentMode
  pub old_swapchain : ℕ

pub record Display : Type 0 where
  pub capabilities : (calls : ℕ) → Answer Capabilities
  pub formats : (calls : ℕ) → Answer (List SurfaceFormat)
  pub present_modes : (calls : ℕ) → Answer (List PresentMode)
  pub create_swapchain : (calls : ℕ) → SwapchainCreateInfo → Answer ℕ
  pub swapchain_images : (calls swapchain : ℕ) → Answer (List ℕ)
  pub create_image_view : (calls image : ℕ) → Answer ℕ
  pub create_render_pass : (calls : ℕ) → Format → Answer ℕ
  pub create_framebuffer : (calls render_pass view : ℕ) → Extent → Answer ℕ
  pub allocate_command_buffers : (calls count : ℕ) → Answer (List ℕ)
  pub create_semaphore : (calls : ℕ) → Answer ℕ
  pub create_fence : (calls : ℕ) → Answer ℕ
  pub wait_for_fence : (calls fence : ℕ) → Answer (Unit {0})
  pub fence_status : (calls fence : ℕ) → Answer Bool
  pub acquire_next_image : (calls swapchain semaphore : ℕ) → Answer (ℕ × Bool)
  pub reset_fence : (calls fence : ℕ) → Answer (Unit {0})
  pub queue_submit : (calls command_buffer fence : ℕ) → Answer (Unit {0})
  pub queue_present : (calls swapchain image_index : ℕ) → Answer Bool
