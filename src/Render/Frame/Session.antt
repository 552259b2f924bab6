-- ===== src/Render/Frame/Session.antt =====
-- A context from `new` to `drop`, with frames and resizes between: what
-- `WindowRenderContext`'s users do with it.
use vulkan_cocoa_core.Common.{true, refl, List, [], ◌∷◌}
use vulkan_cocoa_core.Machine.{Build, Run}
use vulkan_cocoa_core.Machine.Stateful.{then_do, ◌>>=◌, ◌>>◌, pure, modify}
use vulkan_cocoa_core.Render.Display.{SwapchainError, Extent, Display}
use vulkan_cocoa_core.Render.Objects.{
  swapchain_object, view_object, pass_object, framebuffer_object, buffer_object, semaphore_object,
  fence_object,
}
use vulkan_cocoa_core.Render.Context.{Context, Method, TickOutcome, recreated, acquired}
use vulkan_cocoa_core.Render.Context.Leaves.{
  Leaves, returns, Leaves-then, Leaves-map, Framed, Complete, Conforms,
}
use vulkan_cocoa_core.Render.Context.Balanced.{Balanced}
use vulkan_cocoa_core.Render.Context.Balanced.Rebuilt.{Handles}
use vulkan_cocoa_core.Render.Context.Balanced.Life.{
  AllGone, Within, drop_context-Within, Level-Balanced, drop_context-AllGone,
}
use vulkan_cocoa_core.Render.Frame.{initial, new, tick, submit_and_present, request_resize}
use vulkan_cocoa_core.Render.Frame.Builds.{Acquires, Drawn}
use vulkan_cocoa_core.Render.Frame.Steps.{new-Leaves, tick-Leaves, submit_and_present-Leaves}
use vulkan_cocoa_core.Render.Frame.Life.{
  AllLevel, AllCovers, Leaves-both, new-Gives, tick-Gives, submit_and_present-Gives,
}

-- The host asks for a size, or has a frame drawn.
pub data Act : Type 0 where
  resize : Extent → Act
  frame : Act

-- An image that `tick` hands out is presented.
unfoldable pub present_drawn : Build → Display → TickOutcome → Method (Unit {0})
present_drawn b d recreated = pure tt
present_drawn b d (acquired i command_buffer framebuffer render_pass extent) =
    submit_and_present b d i

unfoldable pub act : Build → Display → Act → Method (Unit {0})
act b d (resize extent) = modify (request_resize extent)
act b d frame = tick b d >>= present_drawn b d

unfoldable pub act_all : Build → Display → List Act → Method (Unit {0})
act_all b d [] = pure tt
act_all b d (a ∷ acts) = act b d a >> act_all b d acts

unfoldable pub session :
    Build → Display → Extent → List Act → Run SwapchainError (Unit {0}) × Context
session b d extent acts = then_do (new b d extent) λ _. act_all b d acts

initial-AllLevel : (extent : Extent) → AllLevel (initial extent)
unfolding initial
initial-AllLevel extent swapchain_object = refl
initial-AllLevel extent view_object = refl
initial-AllLevel extent pass_object = refl
initial-AllLevel extent framebuffer_object = refl
initial-AllLevel extent buffer_object = refl
initial-AllLevel extent semaphore_object = refl
initial-AllLevel extent fence_object = refl

-- What a session keeps, and what an error leaves.
abbrev Kept : Display → Context → Type 0
Kept d c = Complete d c × AllLevel c

abbrev Left : Context → Type 0
Left c = Framed c × AllCovers c

module _ (b : Build) (d : Display) (gives : Conforms d) (inside : Acquires d)
    (real : Handles d) where
  act-Kept : (a : Act) (c : Context) → Kept d c → Leaves (λ _. Kept d) Left (act b d a c)
  unfolding act present_drawn request_resize
  act-Kept (resize extent) c (is, level) = returns (
    record {
      listed = is.listed;
      views = is.views;
      framebuffers = is.framebuffers;
      command_buffers = is.command_buffers;
      frames = is.frames;
      current = is.current;
    },
    level,
  )
  act-Kept frame c (is, level) =
      Leaves-then
        (Leaves-both (tick-Leaves b d gives c inside is) (tick-Gives b d gives.ranged real c level))
        presented
    where
      presented :
          (o : TickOutcome) (c' : Context)
          → Drawn d o c' × AllLevel c'
          → Leaves (λ _. Kept d) Left (present_drawn b d o c')
      presented recreated c' (drawn, level') = returns (drawn.complete, level')
      presented (acquired i cb fb pass extent) c' (drawn, level') =
          Leaves-both (submit_and_present-Leaves b d gives i c' drawn.inside drawn.complete)
            (submit_and_present-Gives b d gives.ranged real i c' level')

  act_all-Kept :
      (acts : List Act) (c : Context) → Kept d c → Leaves (λ _. Kept d) Left (act_all b d acts c)
  unfolding act_all
  act_all-Kept [] c kept = returns kept
  act_all-Kept (a ∷ acts) c kept =
      Leaves-then (act-Kept a c kept) λ _ c' kept'. act_all-Kept acts c' kept'

  -- Where the driver allocates as many command buffers as asked for, allows no least extent over
  -- the greatest, acquires only images that it listed and gives no null handle, a session (making
  -- a context, then any sequence of resizes and of frames that are drawn and presented) panics at
  -- most by the overflow of the number of images; and where no step fails, the swapchain is
  -- complete, of every kind as many objects are held as were made and not destroyed, and when the
  -- context is dropped all are destroyed; where one fails, dropping the context destroys no more
  -- objects of a kind than were made.
  pub session-Balanced :
      (extent : Extent) (acts : List Act)
      → Leaves
          (λ _ c. Complete d c × Balanced c × AllGone true c)
          (λ c. Framed c × Within true c)
          (session b d extent acts)
  unfolding session
  session-Balanced extent acts =
      Leaves-map
        (Leaves-then
          (Leaves-both (new-Leaves b d gives extent)
            (new-Gives b d gives.ranged real extent (initial-AllLevel extent)))
          λ _ c kept. act_all-Kept acts c kept)
        (λ _ c (is, level). (is, Level-Balanced c level, drop_context-AllGone true c level))
        λ c (framed, covers). (framed, drop_context-Within true c covers)
