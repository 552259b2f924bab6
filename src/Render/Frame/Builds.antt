-- ===== src/Render/Frame/Builds.antt =====
-- Complete swapchains under the methods for any way to build the swapchain.
use vulkan_cocoa_core.Common.{
  ℕ, zero, suc, ◌+◌, ◌%◌, ◌<◌, ◌≡◌, refl, List, [], ◌∷◌, Bool, ◌||◌, ◌==◌, length, arith, inl, inr,
  Bool-cases,
}
use vulkan_cocoa_core.Machine.{add_overflow}
use vulkan_cocoa_core.Machine.Ensures.{Ensures, holds}
use vulkan_cocoa_core.Device.Driver.{Answer, answer, failed}
use vulkan_cocoa_core.Render.Display.{error_out_of_date, suboptimal, recreating, Extent, Display}
use vulkan_cocoa_core.Render.Context.{Context, TickOutcome, recreated, acquired, index}
use vulkan_cocoa_core.Render.Context.Leaves.{
  Driven, Leaves, returns, fails, Framed, Complete, calls_at, call-Leaves, Leaves-then,
  Leaves-Calls, Leaves-lift,
}
use vulkan_cocoa_core.Render.Frame.{
  Builder, new_by, rebuild, present_by, initial, hand_out, after_present,
}

-- An acquired image is one of those that the driver listed for the swapchain.
abbrev pub Acquires : Display → Type 0
Acquires d =
    (n m swapchain semaphore i : ℕ) (suboptimal_ : Bool) (images : List ℕ)
    → d.swapchain_images n swapchain ≡ answer images
    → d.acquire_next_image m swapchain semaphore ≡ answer (i, suboptimal_)
    → i < length images

pub index-Ensures :
    {A : Type 0} (xs : List A) (i : ℕ)
    → i < length xs
    → Ensures (λ p. p ≡ add_overflow) (λ _. Unit {0}) (index xs i)
index-Ensures [] i h = absurd (omega arith)
index-Ensures (x ∷ xs) zero h = holds tt
index-Ensures (x ∷ xs) (suc i) h = index-Ensures xs i (omega arith)

module _ (d : Display) where
  pub Complete-Framed : {c : Context} → Complete d c → Framed c
  Complete-Framed is = record { some_or_all = inr is.frames; current = is.current }

  pub Complete-calls_at : {c : Context} → Complete d c → (n : Driven) → Complete d (calls_at n c)
  Complete-calls_at is n = record {
    listed = is.listed;
    views = is.views;
    framebuffers = is.framebuffers;
    command_buffers = is.command_buffers;
    frames = is.frames;
    current = is.current;
  }

-- What `tick` gives: an image that it hands out is one of the swapchain's.
abbrev pub Inside : TickOutcome → Context → Type 0
Inside recreated c = Unit
Inside (acquired i command_buffer framebuffer render_pass extent) c = i < length c.images

pub record Drawn (d : Display) (o : TickOutcome) (c : Context) : Type 0 where
  pub complete : Complete d c
  pub inside : Inside o c

pub hand_out-Leaves :
    (d : Display) (i : ℕ) (c : Context)
    → Complete d c
    → i < length c.images
    → Leaves (Drawn d) Framed (hand_out i c)
unfolding hand_out
hand_out-Leaves d i c is h =
    Leaves-lift _ c (index-Ensures c.command_buffers i (omega (arith, is.command_buffers)))
      (Complete-Framed d is)
      λ cb _.
        Leaves-lift _ c (index-Ensures c.framebuffers i (omega (arith, is.framebuffers)))
          (Complete-Framed d is) λ fb _. returns (record { complete = is; inside = h })

-- For any way to build the swapchain that completes it.
abbrev pub Builds : Display → Builder → Type 0
Builds d build =
    (want_w want_h : ℕ) (c : Context)
    → Framed c
    → Leaves (λ _. Complete d) Framed (build want_w want_h c)

module _ (d : Display) (build : Builder) (builds : Builds d build) where
  pub rebuild-Leaves :
      (extent : Extent) (c : Context)
      → Framed c
      → Leaves (λ _. Complete d) Framed (rebuild build extent c)
  unfolding rebuild
  rebuild-Leaves extent c fr =
      let c₀ : Context = record c { state = recreating } in
      let fr₀ : Framed c₀ = record { some_or_all = fr.some_or_all; current = fr.current } in
      Leaves-then (builds extent.width extent.height c₀ fr₀) λ _ c' is. returns (record {
        listed = is.listed;
        views = is.views;
        framebuffers = is.framebuffers;
        command_buffers = is.command_buffers;
        frames = is.frames;
        current = is.current;
      })

  pub new_by-Leaves : (extent : Extent) → Leaves (λ _. Complete d) Framed (new_by build extent)
  unfolding new_by initial
  new_by-Leaves extent =
      Leaves-then
        (builds extent.width extent.height (initial extent)
          (record { some_or_all = inl refl; current = omega arith }))
        λ _ c' is. returns (record {
          listed = is.listed;
          views = is.views;
          framebuffers = is.framebuffers;
          command_buffers = is.command_buffers;
          frames = is.frames;
          current = is.current;
        })

  after_present-Leaves :
      (a : Answer Bool) (c : Context)
      → Complete d c
      → Leaves (λ _. Complete d) Framed (after_present build a c)
  unfolding after_present
  after_present-Leaves (answer x) c is = returns is
  after_present-Leaves (failed e) c is =
      elim (Bool-cases (e == error_out_of_date || e == suboptimal)) [
        | inl h ↦ rw h (builds c.extent.width c.extent.height c (Complete-Framed d is))
        | inr h ↦ rw h (fails (Complete-Framed d is))
      ]

  pub present_by-Leaves :
      (i : ℕ) (c : Context)
      → i < length c.images
      → Complete d c
      → Leaves (λ _. Complete d) Framed (present_by build d i c)
  unfolding present_by
  present_by-Leaves i c near is =
      Leaves-lift _ c
        (index-Ensures c.frames c.current_frame (omega (arith, is.frames, is.current)))
        (Complete-Framed d is)
        λ frame _.
          Leaves-lift _ c (index-Ensures c.command_buffers i (omega (arith, is.command_buffers)))
            (Complete-Framed d is)
            λ cb _.
              Leaves-Calls _ c
                (call-Leaves (λ n. d.queue_submit n cb frame.in_flight) c
                  (λ n. Complete-Framed d (Complete-calls_at d is n)))
                λ _ n _.
                  after_present-Leaves (d.queue_present n.0 c.swapchain i)
                    (record c {
                      calls = n.0 + 1;
                      log = n.1;
                      current_frame = (c.current_frame + 1) % length c.frames;
                    })
                    (record {
                      listed = is.listed;
                      views = is.views;
                      framebuffers = is.framebuffers;
                      command_buffers = is.command_buffers;
                      frames = is.frames;
                      current = rw is.frames (omega arith);
                    })
