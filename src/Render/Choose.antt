-- ===== src/Render/Choose.antt =====
-- The choices of `build_swapchain` of src/vulkan_backend/state_machine.rs: format, mode, extent and
-- number of images.
use vulkan_cocoa_core.Common.{
  ℕ, List, [], ◌∷◌, Bool, true, false, ◌==◌, not, min, ltb, leb, if◌then◌else◌,
}
use vulkan_cocoa_core.Machine.{Build, Run, ok, panic, assertion_failed, bind, u32_add}
use vulkan_cocoa_core.Render.Display.{
  max_frames_in_flight, u32_max, Extent, Capabilities, b8g8r8a8_srgb, b8g8r8a8_unorm, other_format,
  SurfaceFormat, PresentMode, mailbox, immediate, fifo, other_mode,
}

unfoldable pub is_srgb : SurfaceFormat → Bool
is_srgb f = elim f.format [
  | b8g8r8a8_srgb ↦ f.srgb_nonlinear
  | b8g8r8a8_unorm ↦ false
  | other_format ↦ false
]

unfoldable pub is_unorm : SurfaceFormat → Bool
is_unorm f = elim f.format [ b8g8r8a8_srgb ↦ false | b8g8r8a8_unorm ↦ true | other_format ↦ false ]

-- `iter().find(..)`, or else a default.
unfoldable pub find_or : {A : Type 0} → (A → Bool) → A → List A → A
find_or test default [] = default
find_or test default (x ∷ xs) = if test x then x else find_or test default xs

-- The format of the surface's formats `f ∷ fs`.
unfoldable pub choose_format : SurfaceFormat → List SurfaceFormat → SurfaceFormat
unfolding find_or is_srgb is_unorm
choose_format f fs = find_or is_srgb (find_or is_unorm f (f ∷ fs)) (f ∷ fs)

unfoldable pub is_mailbox : PresentMode → Bool
is_mailbox mailbox = true
is_mailbox immediate = false
is_mailbox fifo = false
is_mailbox other_mode = false

unfoldable pub choose_mode : List PresentMode → PresentMode
unfolding find_or is_mailbox
choose_mode modes = find_or is_mailbox fifo modes

-- `x.clamp(low, high)`, which asserts that `low ≤ high`.
unfoldable pub clamp : {E : Type 0} → (low high x : ℕ) → Run E ℕ
clamp low high x =
    if leb low high
    then ok (if ltb x low then low else if ltb high x then high else x)
    else panic assertion_failed

unfoldable pub choose_extent : {E : Type 0} → Capabilities → (want_w want_h : ℕ) → Run E Extent
unfolding clamp
choose_extent caps want_w want_h =
    if not (caps.current_extent.width == u32_max)
    then ok caps.current_extent
    else bind (clamp caps.min_image_extent.width caps.max_image_extent.width want_w) λ width.
      bind (clamp caps.min_image_extent.height caps.max_image_extent.height want_h)
        λ height. ok (record { width = width; height = height })

-- `min(..)` of `x` with what it is kept to.
unfoldable pub choose_image_count : {E : Type 0} → Build → Capabilities → Run E ℕ
choose_image_count b caps = bind (u32_add b caps.min_image_count 1) λ count.
    let limited = if ltb 0 caps.max_image_count then min count caps.max_image_count else count in
    ok (min limited max_frames_in_flight)
