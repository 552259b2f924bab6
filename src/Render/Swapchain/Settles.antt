-- ===== src/Render/Swapchain/Settles.antt =====
-- `tick` of src/vulkan_backend/swapchain.rs on complete swapchains.
use vulkan_cocoa_core.Common.{ℕ, ◌<◌, ◌≤◌, ◌≡◌, refl, length, arith}
use vulkan_cocoa_core.Machine.{Build, add_overflow}
use vulkan_cocoa_core.Machine.Ensures.{Ensures, holds, Ensures-bind, u32_add-Ensures}
use vulkan_cocoa_core.Render.Display.{SwapchainError, Extent, Display, PresentMode, Capabilities}
use vulkan_cocoa_core.Render.Context.{Context}
use vulkan_cocoa_core.Render.Context.Leaves.{Leaves, Framed, Complete, Conforms}
use vulkan_cocoa_core.Render.Context.WellFormed.{build_by-Leaves}
use vulkan_cocoa_core.Render.Frame.Builds.{Builds, new_by-Leaves, present_by-Leaves}
use vulkan_cocoa_core.Render.Swapchain.{
  choose_image_count, choices, build_swapchain, new, submit_and_present,
}

choose_image_count-Ensures :
    (b : Build) (mode : PresentMode) (caps : Capabilities)
    → Ensures {E = SwapchainError}
        (λ p. p ≡ add_overflow)
        (λ n. n ≤ 3)
        (choose_image_count b mode caps)
unfolding choose_image_count
choose_image_count-Ensures b mode caps =
    Ensures-bind (u32_add-Ensures b caps.min_image_count 1 refl) λ n _. holds (omega arith)

module _ (b : Build) (d : Display) (gives : Conforms d) where
  builds : Builds d (build_swapchain b d)
  unfolding build_swapchain
  builds want_w want_h c fr =
      build_by-Leaves choices b d want_w want_h c (choose_image_count-Ensures b) gives fr

  -- Where the driver allocates as many command buffers as asked for and allows no least extent
  -- over the greatest, making a context panics at most by the overflow of the number of images,
  -- and a context that is made has a complete swapchain.
  pub new-Settles : (extent : Extent) → Leaves (λ _. Complete d) Framed (new b d extent)
  unfolding new
  new-Settles extent = new_by-Leaves d (build_swapchain b d) builds extent

  -- Where the driver allocates as many command buffers as asked for and allows no least extent
  -- over the greatest, presenting an image of a complete swapchain panics at most by the overflow
  -- of the number of images, and where it returns without an error the swapchain is complete.
  pub submit_and_present-Settles :
      (i : ℕ) (c : Context)
      → i < length c.images
      → Complete d c
      → Leaves (λ _. Complete d) Framed (submit_and_present b d i c)
  unfolding submit_and_present
  submit_and_present-Settles = present_by-Leaves d (build_swapchain b d) builds
