-- ===== src/Render/Frame.antt =====
-- `new`, `request_resize`, `tick` and `submit_and_present` of `WindowRenderContext`. A resize that is
-- requested while one is pending takes its place; it is written and taken in one step each.
pub mod Builds
pub mod Steps
pub mod Indexing
pub mod Life
pub mod Session
pub mod Minimized
use vulkan_cocoa_core.Common.{
  ℕ, ◌+◌, ◌%◌, List, [], ◌∷◌, Option, none, some, Bool, true, false, ◌||◌, ◌==◌, length, get_elem?,
  if◌then◌else◌,
}
use vulkan_cocoa_core.Machine.{Build, Run, ok, err, panic}
use vulkan_cocoa_core.Device.Driver.{Answer, answer, failed}
use vulkan_cocoa_core.Render.Display.{
  error_out_of_date, suboptimal, SwapchainError, vk, uninitialized, ready, recreating, Extent,
  other_format, Display,
}
use vulkan_cocoa_core.Machine.Stateful.{then_do, ◌>>=◌, ◌>>◌, pure, fail, modify, lift}
use vulkan_cocoa_core.Render.Context.{
  FrameSync, Context, TickOutcome, recreated, acquired, Method, call, index, build_swapchain,
}

unfoldable pub initial : Extent → Context
initial extent = record {
  calls = 0;
  log = [];
  swapchain = 0;
  images = [];
  image_views = [];
  framebuffers = [];
  render_pass = 0;
  command_buffers = [];
  frames = [];
  extent = extent;
  format = other_format;
  current_frame = 0;
  state = uninitialized;
  pending = none;
}

-- The methods for any way to build the swapchain.
abbrev pub Builder : Type 0
Builder = (want_w want_h : ℕ) → Method (Unit {0})

unfoldable pub new_by : Builder → Extent → Run SwapchainError (Unit {0}) × Context
new_by build extent =
    (build extent.width extent.height >> modify (λ c. record c { state = ready })) (initial extent)

-- The context is dropped where the result is an error.
unfoldable pub new : Build → Display → Extent → Run SwapchainError (Unit {0}) × Context
new b d extent = new_by (build_swapchain b d) extent

unfoldable pub request_resize : Extent → Context → Context
request_resize extent c = record c { pending = some extent }

-- Rebuild, between the two changes of `state`.
unfoldable pub rebuild : Builder → Extent → Method (Unit {0})
rebuild build extent = do
  modify (λ c. record c { state = recreating })
  build extent.width extent.height
  modify (λ c. record c { state = ready })

unfoldable pub recreate : Build → Display → Extent → Method TickOutcome
recreate b d extent = rebuild (build_swapchain b d) extent >> pure recreated

-- What `tick` hands out for an image.
unfoldable pub hand_out : (image_index : ℕ) → Method TickOutcome
hand_out i c =
    (lift (index c.command_buffers i) >>= λ cb.
    lift (index c.framebuffers i) >>= λ fb. pure (acquired i cb fb c.render_pass c.extent))
      c

-- From the answer of `acquire_next_image` on.
unfoldable pub after_acquire : Build → Display → FrameSync → Answer (ℕ × Bool) → Method TickOutcome
after_acquire b d frame (answer (i, false)) c =
    (call (λ n. d.reset_fence n frame.in_flight) >> hand_out i) c
after_acquire b d frame (answer (i, true)) c = recreate b d c.extent c
after_acquire b d frame (failed e) c =
    if e == error_out_of_date then recreate b d c.extent c else (err (vk e), c)

unfoldable pub draw_frame : Build → Display → Method TickOutcome
draw_frame b d c =
    (lift (index c.frames c.current_frame) >>= λ frame.
    call (λ n. d.wait_for_fence n frame.in_flight) >>= λ _. λ c'.
      after_acquire b d frame (d.acquire_next_image c'.calls c'.swapchain frame.image_available)
        (record c' { calls = c'.calls + 1 }))
      c

unfoldable pub tick : Build → Display → Method TickOutcome
tick b d c = elim c.pending [
  | some extent ↦ recreate b d extent (record c { pending = none })
  | none ↦ draw_frame b d c
]

-- From the answer of `queue_present` on, with the frame counter advanced.
unfoldable pub after_present : Builder → Answer Bool → Method (Unit {0})
after_present build (answer x) c = (ok tt, c)
after_present build (failed e) c =
    if e == error_out_of_date || e == suboptimal
    then build c.extent.width c.extent.height c
    else (err (vk e), c)

unfoldable pub present_by : Builder → Display → (image_index : ℕ) → Method (Unit {0})
present_by build d image_index c =
    (lift (index c.frames c.current_frame) >>= λ frame.
    lift (index c.command_buffers image_index) >>= λ cb.
    call (λ n. d.queue_submit n cb frame.in_flight) >>= λ _. λ c'.
      after_present build (d.queue_present c'.calls c'.swapchain image_index) (record c' {
        calls = c'.calls + 1;
        current_frame = (c'.current_frame + 1) % length c'.frames;
      }))
      c

unfoldable pub submit_and_present : Build → Display → (image_index : ℕ) → Method (Unit {0})
submit_and_present b d image_index = present_by (build_swapchain b d) d image_index
