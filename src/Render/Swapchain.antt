-- ===== src/Render/Swapchain.antt =====
-- `WindowRenderContext` of src/vulkan_backend/swapchain.rs, which shares the data and most of the
-- steps of state_machine.rs beside it: the choices, the acquisition of an image, which does not wait,
-- and the recursion of `tick` are its own. Each call of `tick` by itself takes one of fuel.
pub mod Rounds
pub mod Settles
pub mod Stale
pub mod Tests
use vulkan_cocoa_core.Common.{
  ℕ, zero, suc, ◌+◌, ◌%◌, List, Option, none, some, Bool, true, false, ◌||◌, ◌==◌, min, max, ltb,
  length, if◌then◌else◌,
}
use vulkan_cocoa_core.Machine.{Build, Run, ok, err, out_of_fuel, bind, u32_add}
use vulkan_cocoa_core.Machine.Stateful.{◌>>=◌, ◌>>◌, pure, lift}
use vulkan_cocoa_core.Device.Driver.{Answer, answer, failed}
use vulkan_cocoa_core.Render.Display.{
  max_frames_in_flight, error_out_of_date, suboptimal, not_ready, timeout, SwapchainError, vk,
  Extent, Capabilities, PresentMode, mailbox, immediate, fifo, other_mode, Display,
}
use vulkan_cocoa_core.Render.Objects.{Log}
use vulkan_cocoa_core.Render.Choose.{find_or, is_mailbox}
use vulkan_cocoa_core.Render.Context.{
  FrameSync, Context, TickOutcome, recreated, Method, Choices, build_by, call, index, drop_context,
}
use vulkan_cocoa_core.Render.Frame.{new_by, rebuild, hand_out, present_by}

unfoldable pub is_immediate : PresentMode → Bool
is_immediate mailbox = false
is_immediate immediate = true
is_immediate fifo = false
is_immediate other_mode = false

unfoldable pub choose_mode : List PresentMode → PresentMode
choose_mode modes = find_or is_mailbox (find_or is_immediate fifo modes) modes

-- `max(..)` and `min(..)` of what the surface allows.
unfoldable pub choose_image_count : {E : Type 0} → Build → PresentMode → Capabilities → Run E ℕ
choose_image_count b mode caps = bind (u32_add b caps.min_image_count 1) λ count.
    let limited = if ltb 0 caps.max_image_count then min count caps.max_image_count else count in
    let raised = max limited (if is_mailbox mode then 3 else 2) in
    ok (min raised max_frames_in_flight)

abbrev pub choices : Choices
choices = record { waits = false; mode = choose_mode; image_count = choose_image_count }

-- The source names the parts of its render pass without defining them; it is taken to be that of
-- state_machine.rs.
unfoldable pub build_swapchain : Build → Display → (want_w want_h : ℕ) → Method (Unit {0})
build_swapchain b d want_w want_h = build_by choices b d want_w want_h

unfoldable pub new : Build → Display → Extent → Run SwapchainError (Unit {0}) × Context
new b d extent = new_by (build_swapchain b d) extent

-- What `get_fence_status(..).unwrap_or(false)` decides: to go on with the next frame, or to give up.
unfoldable pub go_on : Answer Bool → Method TickOutcome → Method TickOutcome
go_on (answer true) again c = again c
go_on (answer false) again c = (err (vk timeout), c)
go_on (failed e) again c = (err (vk timeout), c)

-- Where no image is ready: the next frame's turn, if its fence is signaled.
unfoldable pub skip_frame : Display → (again : Method TickOutcome) → Method TickOutcome
skip_frame d again c =
    let next = (c.current_frame + 1) % length c.frames in
    (lift (index c.frames next) >>= λ frame. λ c'.
        go_on (d.fence_status c'.calls frame.in_flight)
          (λ c''. again (record c'' { current_frame = next })) (record c' { calls = c'.calls + 1 }))
      c

-- From the answer of `acquire_next_image` on.
unfoldable pub after_acquire :
    Build
    → Display
    → (again : Method TickOutcome) → FrameSync
    → Answer (ℕ × Bool)
    → Method TickOutcome
after_acquire b d again frame (answer (i, false)) c =
    (call (λ n. d.reset_fence n frame.in_flight) >> hand_out i) c
after_acquire b d again frame (answer (i, true)) c =
    (rebuild (build_swapchain b d) c.extent >> hand_out i) c
after_acquire b d again frame (failed e) c =
    if e == not_ready || e == timeout
    then skip_frame d again c
    else if e == error_out_of_date || e == suboptimal
    then (rebuild (build_swapchain b d) c.extent >> pure recreated) c
    else (err (vk e), c)

unfoldable pub draw_frame : Build → Display → (again : Method TickOutcome) → Method TickOutcome
draw_frame b d again c =
    (lift (index c.frames c.current_frame) >>= λ frame.
    call (λ n. d.wait_for_fence n frame.in_flight) >>= λ _. λ c'.
      after_acquire b d again frame
        (d.acquire_next_image c'.calls c'.swapchain frame.image_available)
        (record c' { calls = c'.calls + 1 }))
      c

-- From the answer of `pending_resize.take()` on.
unfoldable pub after_take :
    Build → Display → (again : Method TickOutcome) → Option Extent → Method TickOutcome
after_take b d again (some extent) c =
    (rebuild (build_swapchain b d) extent >> pure recreated) (record c { pending = none })
after_take b d again none c = draw_frame b d again c

unfoldable pub tick : Build → Display → (fuel : ℕ) → Method TickOutcome
tick b d zero c = (out_of_fuel, c)
tick b d (suc fuel) c = let again = tick b d fuel in after_take b d again c.pending c

unfoldable pub submit_and_present : Build → Display → (image_index : ℕ) → Method (Unit {0})
submit_and_present b d image_index = present_by (build_swapchain b d) d image_index

-- `drop`, as of the other context, without waiting a second time.
unfoldable pub drop : Context → Log
drop c = drop_context false c
