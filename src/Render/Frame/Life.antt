-- ===== src/Render/Frame/Life.antt =====
-- The objects of a context under `new`, `tick` and `submit_and_present`.
use vulkan_cocoa_core.Common.{
  arith, ℕ, Option, some, none, Bool, true, false, ◌||◌, ◌==◌, Bool-cases, inl, inr,
}
use vulkan_cocoa_core.Machine.{Build, Run, ok, err, panic, out_of_fuel, Panic}
use vulkan_cocoa_core.Machine.Stateful.{then_do}
use vulkan_cocoa_core.Device.Driver.{Answer, answer, failed}
use vulkan_cocoa_core.Render.Display.{
  SwapchainError, Extent, Display, error_out_of_date, suboptimal,
}
use vulkan_cocoa_core.Render.Objects.{Kind}
use vulkan_cocoa_core.Render.Context.{
  FrameSync, Context, Method, TickOutcome, result, index, build_swapchain,
}
use vulkan_cocoa_core.Render.Context.Leaves.{Ranged, Leaves, returns, fails, overflows}
use vulkan_cocoa_core.Render.Context.Balanced.Views.{Level, Covers}
use vulkan_cocoa_core.Render.Context.Balanced.Rebuilt.{Handles}
use vulkan_cocoa_core.Render.Context.Balanced.Life.{build_swapchain-Level}
use vulkan_cocoa_core.Render.Frame.{
  initial, new_by, new, rebuild, recreate, hand_out, after_acquire, draw_frame, tick, after_present,
  present_by, submit_and_present,
}

-- Of every kind, as many objects are held as were made and not destroyed.
abbrev pub AllLevel : Context → Type 0
AllLevel c = (k : Kind) → Level k c

-- Of every kind, what is held was made and not destroyed.
abbrev pub AllCovers : Context → Type 0
AllCovers c = (k : Kind) → Covers k c

level-AllCovers : (c : Context) → AllLevel c → AllCovers c
level-AllCovers c h k = omega (arith, h k)

-- Where the method returns, the objects are level; an error leaves what is held covered.
pub data Gives {A : Type 0} : Run SwapchainError A × Context → Type 0 where
  gives : {a : A} {c : Context} → AllLevel c → Gives (ok a, c)
  errs : {e : SwapchainError} {c : Context} → AllCovers c → Gives (err e, c)
  panics : {p : Panic} {c : Context} → Gives (panic p, c)
  runs_out : {c : Context} → Gives (out_of_fuel, c)

module _ {A : Type 0} where
  pub Gives-then :
      {B : Type 0} {r : Run SwapchainError A × Context} {f : A → Method B}
      → Gives r
      → ((a : A) (c : Context) → AllLevel c → Gives (f a c))
      → Gives (then_do r f)
  Gives-then (gives h) k = k _ _ h
  Gives-then (errs h) k = errs h
  Gives-then panics k = panics
  Gives-then runs_out k = runs_out

  pub Gives-lift : (r : Run SwapchainError A) (c : Context) → AllLevel c → Gives (r, c)
  Gives-lift (ok a) c h = gives h
  Gives-lift (err e) c h = errs (level-AllCovers c h)
  Gives-lift (panic p) c h = panics
  Gives-lift out_of_fuel c h = runs_out

  Leaves-Gives : {r : Run SwapchainError A × Context} → Leaves (λ _. AllLevel) AllCovers r → Gives r
  Leaves-Gives (returns h) = gives h
  Leaves-Gives (fails h) = errs h
  Leaves-Gives overflows = panics

  pub Leaves-both :
      {Q : A → Context → Type 0} {R : Context → Type 0} {r : Run SwapchainError A × Context}
      → Leaves Q R r
      → Gives r
      → Leaves (λ a c. Q a c × AllLevel c) (λ c. R c × AllCovers c) r
  Leaves-both (returns q) (gives h) = returns (q, h)
  Leaves-both (fails h) (errs g) = fails (h, g)
  Leaves-both overflows g = overflows

module _ (b : Build) (d : Display) (ranged : Ranged d) (real : Handles d) where
  build-Gives :
      (want_w want_h : ℕ) (c : Context) → AllLevel c → Gives (build_swapchain b d want_w want_h c)
  build-Gives want_w want_h c h =
      Leaves-Gives (build_swapchain-Level b d want_w want_h c ranged real h)

  rebuild-Gives :
      (extent : Extent) (c : Context) → AllLevel c → Gives (rebuild (build_swapchain b d) extent c)
  unfolding rebuild
  rebuild-Gives extent c h =
      Gives-then (build-Gives extent.width extent.height _ h) λ _ c' h'. gives h'

  hand_out-Gives : (i : ℕ) (c : Context) → AllLevel c → Gives (hand_out i c)
  unfolding hand_out
  hand_out-Gives i c h =
      Gives-then (Gives-lift (index c.command_buffers i) c h)
        λ cb c₁ h₁. Gives-then (Gives-lift (index c.framebuffers i) c₁ h₁) λ fb c₂ h₂. gives h₂

  recreate-Gives : (extent : Extent) (c : Context) → AllLevel c → Gives (recreate b d extent c)
  unfolding recreate
  recreate-Gives extent c h = Gives-then (rebuild-Gives extent c h) λ _ c' h'. gives h'

  after_acquire-Gives :
      (frame : FrameSync) (a : Answer (ℕ × Bool)) (c : Context)
      → AllLevel c
      → Gives (after_acquire b d frame a c)
  unfolding after_acquire
  after_acquire-Gives frame (answer (i, false)) c h =
      Gives-then (Gives-lift (result (d.reset_fence c.calls frame.in_flight)) _ h)
        λ _ c' h'. hand_out-Gives i c' h'
  after_acquire-Gives frame (answer (i, true)) c h = recreate-Gives c.extent c h
  after_acquire-Gives frame (failed e) c h = elim (Bool-cases (e == error_out_of_date)) [
    | inl t ↦ rw t (recreate-Gives c.extent c h)
    | inr f ↦ rw f (errs (level-AllCovers c h))
  ]

  draw_frame-Gives : (c : Context) → AllLevel c → Gives (draw_frame b d c)
  unfolding draw_frame
  draw_frame-Gives c h = Gives-then (Gives-lift (index c.frames c.current_frame) c h) λ frame c₁ h₁.
      Gives-then (Gives-lift (result (d.wait_for_fence c₁.calls frame.in_flight)) _ h₁)
        λ _ c₂ h₂. after_acquire-Gives frame _ _ h₂

  pub tick-Gives : (c : Context) → AllLevel c → Gives (tick b d c)
  unfolding tick
  tick-Gives c h = by_pending c.pending
    where
      by_pending :
          (o : Option Extent)
          → Gives {A = TickOutcome} (elim o [
            | some extent ↦ recreate b d extent (record c { pending = none })
            | none ↦ draw_frame b d c
          ])
      by_pending none = draw_frame-Gives c h
      by_pending (some extent) = recreate-Gives extent _ h

  pub new-Gives : (extent : Extent) → AllLevel (initial extent) → Gives (new b d extent)
  unfolding new new_by
  new-Gives extent h =
      Gives-then (build-Gives extent.width extent.height (initial extent) h) λ _ c' h'. gives h'

  after_present-Gives :
      (a : Answer Bool) (c : Context) → AllLevel c → Gives (after_present (build_swapchain b d) a c)
  unfolding after_present
  after_present-Gives (answer x) c h = gives h
  after_present-Gives (failed e) c h =
      elim (Bool-cases (e == error_out_of_date || e == suboptimal)) [
        | inl t ↦ rw t (build-Gives c.extent.width c.extent.height c h)
        | inr f ↦ rw f (errs (level-AllCovers c h))
      ]

  pub submit_and_present-Gives :
      (i : ℕ) (c : Context) → AllLevel c → Gives (submit_and_present b d i c)
  unfolding submit_and_present present_by
  submit_and_present-Gives i c h =
      Gives-then (Gives-lift (index c.frames c.current_frame) c h) λ frame c₁ h₁.
        Gives-then (Gives-lift (index c.command_buffers i) c₁ h₁) λ cb c₂ h₂.
          Gives-then (Gives-lift (result (d.queue_submit c₂.calls cb frame.in_flight)) _ h₂)
            λ _ c₃ h₃. after_present-Gives _ _ h₃
