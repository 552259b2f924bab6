-- ===== src/Render/Swapchain/Tests.antt =====
-- The theorems on the context that does not wait, at a concrete driver.
use vulkan_cocoa_core.Common.{◌≡◌, refl, arith}
use vulkan_cocoa_core.Machine.{checked, out_of_fuel}
use vulkan_cocoa_core.Device.Driver.{failed}
use vulkan_cocoa_core.Render.Display.{Display, not_ready}
use vulkan_cocoa_core.Render.Context.Leaves.{Leaves, Framed, Complete}
use vulkan_cocoa_core.Render.Swapchain
use vulkan_cocoa_core.Render.Swapchain.{build_swapchain, after_acquire, is_immediate}
use vulkan_cocoa_core.Render.Swapchain.Settles.{new-Settles, submit_and_present-Settles}
use vulkan_cocoa_core.Render.Swapchain.Stale.{Stuck, tick-Stuck}
use vulkan_cocoa_core.Render.Tests.{display, display-Conforms, context, context-Complete}

new-Settles_example :
    Leaves
      (λ _. Complete display)
      Framed
      (Swapchain.new checked display (record { width = 8; height = 6 }))
new-Settles_example =
    new-Settles checked display display-Conforms (record { width = 8; height = 6 })

-- All images are with the presentation engine.
abbrev busy : Display
busy = record display { acquire_next_image = λ n swapchain semaphore. failed not_ready }

busy-Stuck : Stuck busy
busy-Stuck = record {
  waits = λ n fence. refl;
  acquires = λ n swapchain semaphore. refl;
  signaled = λ n fence. refl;
}

tick-Stuck_example : (Swapchain.tick checked busy 100 context).0 ≡ out_of_fuel
tick-Stuck_example = tick-Stuck checked busy busy-Stuck 100 context refl refl (omega arith)

submit_and_present-Settles_example :
    Leaves (λ _. Complete display) Framed (Swapchain.submit_and_present checked display 1 context)
submit_and_present-Settles_example =
    submit_and_present-Settles checked display display-Conforms 1 context (omega arith)
      context-Complete
