-- ===== src/Render/Swapchain/Stale.antt =====
-- Where `tick` of src/vulkan_backend/swapchain.rs does not end.
use vulkan_cocoa_core.Common.{
  ℕ, zero, suc, ◌+◌, ◌%◌, ◌<◌, ◌≡◌, refl, ap, ◌∙◌, none, true, length, arith,
}
use vulkan_cocoa_core.Machine.{Build, out_of_fuel}
use vulkan_cocoa_core.Machine.Stateful.{then_do}
use vulkan_cocoa_core.Device.Driver.{answer, failed}
use vulkan_cocoa_core.Render.Display.{not_ready, Display}
use vulkan_cocoa_core.Render.Context.{Context, Method, TickOutcome}
use vulkan_cocoa_core.Render.Frame.Indexing.{index-ok}
use vulkan_cocoa_core.Render.Swapchain.{
  go_on, skip_frame, after_acquire, draw_frame, after_take, tick,
}

-- No image is ever ready, and all fences are signaled.
pub record Stuck (d : Display) : Type 0 where
  pub waits : (n fence : ℕ) → d.wait_for_fence n fence ≡ answer tt
  pub acquires :
      (n swapchain semaphore : ℕ) → d.acquire_next_image n swapchain semaphore ≡ failed not_ready
  pub signaled : (n fence : ℕ) → d.fence_status n fence ≡ answer true

module _ (b : Build) (d : Display) (stuck : Stuck d) where
  abbrev next_of : Context → ℕ
  next_of c = (c.current_frame + 1) % length c.frames

  skip_frame-Stuck :
      (again : Method TickOutcome) (c : Context)
      → next_of c < length c.frames
      → skip_frame d again c ≡ again (record c { calls = c.calls + 1; current_frame = next_of c })
  unfolding skip_frame go_on
  skip_frame-Stuck again c h =
      let (other, at) = index-ok c.frames (next_of c) h in
      rw (at, then_do) (rw (stuck.signaled c.calls other.in_flight, go_on) refl)

  draw_frame-Stuck :
      (again : Method TickOutcome) (c : Context)
      → c.current_frame < length c.frames
      → draw_frame b d again c ≡ skip_frame d again (record c { calls = c.calls + 1 + 1 })
  unfolding draw_frame after_acquire
  draw_frame-Stuck again c h =
      let (frame, at) = index-ok c.frames c.current_frame h in
      rw (at, then_do)
        (rw (stuck.waits c.calls frame.in_flight)
          (rw (stuck.acquires (c.calls + 1) c.swapchain frame.image_available, after_acquire) refl))

  -- While no image is ready and all fences are signaled, and no resize is pending, `tick` calls itself
  -- again for ever, however often it may: it runs out of every fuel.
  pub tick-Stuck :
      (fuel : ℕ) (c : Context)
      → c.pending ≡ none
      → length c.frames ≡ 3
      → c.current_frame < 3
      → (tick b d fuel c).0 ≡ out_of_fuel
  unfolding tick after_take
  tick-Stuck zero c idle frames current = refl
  tick-Stuck (suc fuel) c idle frames current =
      let small : next_of c < 3 = rw frames (omega arith) in
      let drawn = draw_frame-Stuck (tick b d fuel) c (omega (arith, frames)) in
      let skipped =
        skip_frame-Stuck (tick b d fuel) (record c { calls = c.calls + 1 + 1 })
          (omega (arith, frames, small)) in
      let rest =
        tick-Stuck fuel (record c { calls = c.calls + 1 + 1 + 1; current_frame = next_of c }) idle
          frames small in
      ap (λ o. (after_take b d (tick b d fuel) o c).0) idle ∙ ap (λ r. r.0) (drawn ∙ skipped) ∙ rest
