-- ===== src/Render/Frame/Minimized.antt =====
-- A window of no size under `tick` of src/vulkan_backend/state_machine.rs.
use vulkan_cocoa_core.Common.{
  ℕ, ◌+◌, ◌<◌, ◌≡◌, refl, ap, ◌∙◌, [], ◌∷◌, some, none, true, false, length, arith,
}
use vulkan_cocoa_core.Machine.{Build, err, panic, index_out_of_bounds, bind}
use vulkan_cocoa_core.Machine.Stateful.{then_do}
use vulkan_cocoa_core.Device.Driver.{answer}
use vulkan_cocoa_core.Render.Display.{
  zero_extent, recreating, Extent, Capabilities, SurfaceFormat, PresentMode, Display,
}
use vulkan_cocoa_core.Render.Choose.{choose_extent}
use vulkan_cocoa_core.Render.Context.{
  Context, destroy_swapchain_resources, non_empty_formats, non_empty_modes, non_zero_extent,
  build_by, build_swapchain,
}
use vulkan_cocoa_core.Render.Frame.{rebuild, recreate, after_acquire, draw_frame, tick}
use vulkan_cocoa_core.Render.Frame.Indexing.{index-ok, hand_out-panic}

-- The surface has no width, and the driver still acquires images of the swapchain that it has.
pub record NoSize (d : Display) : Type 0 where
  pub caps : Capabilities
  pub width : caps.current_extent.width ≡ 0
  pub format : SurfaceFormat
  pub mode : PresentMode
  pub image : ℕ
  pub capabilities : (n : ℕ) → d.capabilities n ≡ answer caps
  pub formats : (n : ℕ) → d.formats n ≡ answer (format ∷ [])
  pub modes : (n : ℕ) → d.present_modes n ≡ answer (mode ∷ [])
  pub waits : (n fence : ℕ) → d.wait_for_fence n fence ≡ answer tt
  pub resets : (n fence : ℕ) → d.reset_fence n fence ≡ answer tt
  pub acquires :
      (n swapchain semaphore : ℕ)
      → d.acquire_next_image n swapchain semaphore ≡ answer (image, false)

-- The context without its resources.
abbrev minimized : Context → Context
minimized c =
    record (destroy_swapchain_resources true (record c { pending = none; state = recreating })) {
      calls = c.calls + 1 + 1 + 1;
    }

module _ (b : Build) (d : Display) (flat : NoSize d) where
  extent-zero :
      (want_w want_h : ℕ)
      → bind (choose_extent flat.caps want_w want_h) non_zero_extent ≡ err zero_extent
  unfolding non_zero_extent choose_extent
  extent-zero want_w want_h = rw flat.width refl

  recreate-NoSize :
      (extent : Extent) (c : Context)
      → recreate b d extent (record c { pending = none }) ≡ (err zero_extent, minimized c)
  unfolding recreate rebuild build_swapchain build_by destroy_swapchain_resources non_empty_formats
      non_empty_modes
  recreate-NoSize extent c = rw (flat.capabilities c.calls) (
      rw (flat.formats (c.calls + 1))
        (rw (flat.modes (c.calls + 1 + 1)) (rw (extent-zero extent.width extent.height) refl)))

  -- Drawing with no command buffers, though an image is acquired.
  draw_frame-panic :
      (c : Context)
      → c.current_frame < length c.frames
      → c.command_buffers ≡ []
      → (draw_frame b d c).0 ≡ panic index_out_of_bounds
  unfolding draw_frame after_acquire
  draw_frame-panic c h none_ =
      let (frame, at) = index-ok c.frames c.current_frame h in
      let c₁ : Context = record c { calls = c.calls + 1 + 1 + 1 } in
      rw (at, then_do)
        (rw (flat.waits c.calls frame.in_flight) (
          rw (flat.acquires (c.calls + 1) c.swapchain frame.image_available, after_acquire)
            (rw (flat.resets (c.calls + 1 + 1) frame.in_flight)
              (hand_out-panic flat.image c₁ (omega (arith, ap length none_))))))

  -- Where the surface has no width and the driver otherwise answers as asked, a tick that takes a
  -- pending resize reports the zero extent, and the tick after it panics by an index out of bounds.
  pub tick-NoSize :
      (extent : Extent) (c : Context)
      → c.pending ≡ some extent
      → c.current_frame < length c.frames
      → ((tick b d c).0 ≡ err zero_extent)
        × ((tick b d (tick b d c).1).0 ≡ panic index_out_of_bounds)
  unfolding tick destroy_swapchain_resources
  tick-NoSize extent c some_ h =
      let first : tick b d c ≡ (err zero_extent, minimized c) =
        rw some_ (recreate-NoSize extent c) in
      let second : (tick b d (minimized c)).0 ≡ panic index_out_of_bounds =
        draw_frame-panic (minimized c) h refl in
      (ap (λ r. r.0) first, ap (λ r. (tick b d r.1).0) first ∙ second)
