-- ===== src/Render/Frame/Steps.antt =====
-- Complete swapchains under `new`, `tick` and `submit_and_present`.
use vulkan_cocoa_core.Common.{
  ℕ, ◌+◌, ◌<◌, ◌≡◌, refl, Option, none, some, Bool, true, false, ◌==◌, length, arith, inl, inr,
  Bool-cases,
}
use vulkan_cocoa_core.Machine.{Build}
use vulkan_cocoa_core.Device.Driver.{Answer, answer, failed}
use vulkan_cocoa_core.Render.Display.{error_out_of_date, Extent, Display}
use vulkan_cocoa_core.Render.Context.{FrameSync, Context, build_swapchain}
use vulkan_cocoa_core.Render.Context.Leaves.{
  Leaves, returns, fails, Framed, Complete, Conforms, calls_at, call-Leaves, Leaves-then,
  Leaves-Calls, Leaves-lift,
}
use vulkan_cocoa_core.Render.Context.WellFormed.{build_swapchain-Leaves}
use vulkan_cocoa_core.Render.Frame.{
  new, recreate, after_acquire, draw_frame, tick, submit_and_present,
}
use vulkan_cocoa_core.Render.Frame.Builds.{
  Acquires, index-Ensures, Complete-Framed, Complete-calls_at, Drawn, hand_out-Leaves, Builds,
  rebuild-Leaves, new_by-Leaves, present_by-Leaves,
}

module _ (b : Build) (d : Display) (gives : Conforms d) where
  builds : Builds d (build_swapchain b d)
  builds want_w want_h c = build_swapchain-Leaves b d want_w want_h c gives

  -- Where the driver allocates as many command buffers as asked for and allows no least extent
  -- over the greatest, making a context panics at most by the overflow of the number of images,
  -- and a context that is made has a complete swapchain.
  pub new-Leaves : (extent : Extent) → Leaves (λ _. Complete d) Framed (new b d extent)
  unfolding new
  new-Leaves extent = new_by-Leaves d (build_swapchain b d) builds extent

  recreate-Leaves :
      (extent : Extent) (c : Context) → Framed c → Leaves (Drawn d) Framed (recreate b d extent c)
  unfolding recreate
  recreate-Leaves extent c fr =
      Leaves-then (rebuild-Leaves d (build_swapchain b d) builds extent c fr)
        λ _ c' is. returns (record { complete = is; inside = tt })

  after_acquire-Leaves :
      (frame : FrameSync) (a : Answer (ℕ × Bool)) (c : Context)
      → Complete d c
      → ((i : ℕ) (x : Bool) → a ≡ answer (i, x) → i < length c.images)
      → Leaves (Drawn d) Framed (after_acquire b d frame a c)
  unfolding after_acquire
  after_acquire-Leaves frame (answer (i, false)) c is near =
      Leaves-Calls _ c
        (call-Leaves (λ n. d.reset_fence n frame.in_flight) c
          (λ n. Complete-Framed d (Complete-calls_at d is n)))
        λ _ n _. hand_out-Leaves d i (calls_at n c) (Complete-calls_at d is n) (near i false refl)
  after_acquire-Leaves frame (answer (i, true)) c is near =
      recreate-Leaves c.extent c (Complete-Framed d is)
  after_acquire-Leaves frame (failed e) c is near = elim (Bool-cases (e == error_out_of_date)) [
    | inl h ↦ rw h (recreate-Leaves c.extent c (Complete-Framed d is))
    | inr h ↦ rw h (fails (Complete-Framed d is))
  ]

  draw_frame-Leaves :
      (c : Context) → Acquires d → Complete d c → Leaves (Drawn d) Framed (draw_frame b d c)
  unfolding draw_frame
  draw_frame-Leaves c inside is =
      Leaves-lift _ c
        (index-Ensures c.frames c.current_frame (omega (arith, is.frames, is.current)))
        (Complete-Framed d is)
        λ frame _.
          Leaves-Calls _ c
            (call-Leaves (λ n. d.wait_for_fence n frame.in_flight) c
              (λ n. Complete-Framed d (Complete-calls_at d is n)))
            λ _ n _.
              after_acquire-Leaves frame _ (calls_at (n.0 + 1, n.1) c)
                (Complete-calls_at d is (n.0 + 1, n.1))
                λ i x e.
                  inside is.listed.0 n.0 c.swapchain frame.image_available i x c.images is.listed.1
                    e

  -- Where the driver allocates as many command buffers as asked for, allows no least extent over
  -- the greatest, and acquires only images that it listed, a tick on a complete swapchain panics
  -- at most by the overflow of the number of images, and where it returns without an error the
  -- swapchain is complete, and an image that is handed out is one of its images.
  pub tick-Leaves : (c : Context) → Acquires d → Complete d c → Leaves (Drawn d) Framed (tick b d c)
  unfolding tick
  tick-Leaves c inside is = by_pending c.pending
    where
      by_pending :
          (o : Option Extent)
          → Leaves (Drawn d) Framed (elim o [
            | some extent ↦ recreate b d extent (record c { pending = none })
            | none ↦ draw_frame b d c
          ])
      by_pending none = draw_frame-Leaves c inside is
      by_pending (some extent) =
          recreate-Leaves extent (record c { pending = none })
            (record { some_or_all = inr is.frames; current = is.current })

  -- Where the driver allocates as many command buffers as asked for and allows no least extent
  -- over the greatest, presenting an image of a complete swapchain panics at most by the overflow
  -- of the number of images, and where it returns without an error the swapchain is complete.
  pub submit_and_present-Leaves :
      (i : ℕ) (c : Context)
      → i < length c.images
      → Complete d c
      → Leaves (λ _. Complete d) Framed (submit_and_present b d i c)
  unfolding submit_and_present
  submit_and_present-Leaves = present_by-Leaves d (build_swapchain b d) builds
