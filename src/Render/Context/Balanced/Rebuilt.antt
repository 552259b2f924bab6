-- ===== src/Render/Context/Balanced/Rebuilt.antt =====
-- The objects of a context under `build_swapchain`, on every path.
use vulkan_cocoa_core.Common.{
  ℕ, ◌+◌, ◌*◌, ◌≤◌, ◌≡◌, ◌≢◌, ap, ◌∙◌, ◌∷◌, Bool, true, false, length, arith,
}
use vulkan_cocoa_core.Machine.{Build, add_overflow}
use vulkan_cocoa_core.Machine.Ensures.{Ensures}
use vulkan_cocoa_core.Device.Driver.{answer}
use vulkan_cocoa_core.Render.Display.{
  Extent, Format, Display, SwapchainCreateInfo, PresentMode, Capabilities,
}
use vulkan_cocoa_core.Render.Objects.{
  Kind, swapchain_object, view_object, pass_object, framebuffer_object, buffer_object, Log,
  destroy_all, destroy_some, wait_idle, created, made, gone, one_of,
}
use vulkan_cocoa_core.Render.Context.{Context, Choices, destroy_swapchain_resources, build_by}
use vulkan_cocoa_core.Render.Context.Leaves.{Leaves, Ranged, calls_at, Driven, Leaves-lift}
use vulkan_cocoa_core.Render.Context.WellFormed.{formats-Ensures, modes-Ensures, extent-Ensures}
use vulkan_cocoa_core.Render.Context.Balanced.{
  some_handle, Grows, destroy_all-Grows, destroy_some-Grows, Adds, Adds-trans, same-Adds,
  Drives-then, call-Drives, make-Drives, some_handle-one,
}
use vulkan_cocoa_core.Render.Context.Balanced.Views.{
  Level, Bare, build_views-Level, Covers, Bare-Covers,
}

-- A call that succeeds does not give the null handle.
pub record Handles (d : Display) : Type 0 where
  pub swapchain : (n : ℕ) (info : SwapchainCreateInfo) → d.create_swapchain n info ≢ answer 0
  pub render_pass : (n : ℕ) (f : Format) → d.create_render_pass n f ≢ answer 0

wait_idle-Grows : (k : Kind) (waits : Bool) (log : Log) → Grows k log (wait_idle waits log) 0 0
wait_idle-Grows k true log = record { up = omega arith; down = omega arith }
wait_idle-Grows k false log = record { up = omega arith; down = omega arith }

module _ (k : Kind) where
  -- What destroying the resources of the swapchain adds to the log.
  pub destroy-Grows :
      (waits : Bool) (c : Context)
      → Grows k c.log (destroy_swapchain_resources waits c).log 0 (
          one_of k buffer_object * length c.command_buffers
          + one_of k framebuffer_object * length c.framebuffers
          + one_of k pass_object * some_handle c.render_pass
          + one_of k view_object * length c.image_views)
  unfolding destroy_swapchain_resources
  destroy-Grows waits c =
      let l₁ = wait_idle waits c.log in
      let l₂ = destroy_all buffer_object c.command_buffers l₁ in
      let l₃ = destroy_all framebuffer_object c.framebuffers l₂ in
      let l₄ = destroy_some pass_object c.render_pass l₃ in
      let g₁ = wait_idle-Grows k waits c.log in
      let g₂ = destroy_all-Grows k buffer_object c.command_buffers l₁ in
      let g₃ = destroy_all-Grows k framebuffer_object c.framebuffers l₂ in
      let g₄ = destroy_some-Grows k pass_object c.render_pass l₃ in
      let g₅ = destroy_all-Grows k view_object c.image_views l₄ in
      record {
        up = omega (arith, g₁.up, g₂.up, g₃.up, g₄.up, g₅.up);
        down = omega (arith, g₁.down, g₂.down, g₃.down, g₄.down, g₅.down);
      }

  destroy-Bare :
      (waits : Bool) (c : Context) → Level k c → Bare k (destroy_swapchain_resources waits c)
  unfolding destroy_swapchain_resources
  destroy-Bare waits c level =
      let g = destroy-Grows waits c in
      record {
        level = omega (arith, level, g.up, g.down);
        views = omega arith;
        pass = omega arith;
        framebuffers = omega arith;
        buffers = omega arith;
      }

  -- The new swapchain in place of the old one.
  replaced-Bare :
      (c : Context) (new : ℕ) (x : Driven) (extent : Extent) (format : Format)
      → Bare k c
      → x.1 ≡ made swapchain_object new ∷ c.log
      → new ≢ 0
      → Bare k (record c {
        calls = x.0;
        log = destroy_some swapchain_object c.swapchain x.1;
        swapchain = new;
        extent = extent;
        format = format;
      })
  replaced-Bare c new x extent format bare e real =
      let one : some_handle new ≡ 1 = some_handle-one new real in
      let g = destroy_some-Grows k swapchain_object c.swapchain x.1 in
      record {
        level = rw one (omega (arith, bare.level, ap (created k) e, ap (gone k) e, g.up, g.down));
        views = bare.views;
        pass = bare.pass;
        framebuffers = bare.framebuffers;
        buffers = bare.buffers;
      }

  pub build_by-Level :
      (ch : Choices) (b : Build) (d : Display) (want_w want_h : ℕ) (c : Context)
      → ((mode : PresentMode) (caps : Capabilities)
          → Ensures (λ p. p ≡ add_overflow) (λ n. n ≤ 3) (ch.image_count b mode caps))
      → Ranged d
      → Handles d
      → Level k c
      → Leaves (λ _. Level k) (Covers k) (build_by ch b d want_w want_h c)
  unfolding build_by
  build_by-Level ch b d want_w want_h c counts ranged real level =
      let c₀ : Context = destroy_swapchain_resources ch.waits c in
      let bare : Bare k c₀ = destroy-Bare ch.waits c level in
      let covers : (x : Driven) → Adds k c₀.log x.1 → Covers k (calls_at x c₀) =
        λ x. Bare-Covers k c₀ x bare in
      Drives-then k _ c₀ (call-Drives k d.capabilities c₀) covers λ caps x₁ (e₁, listed).
        let a₁ : Adds k c₀.log x₁.1 = same-Adds k e₁ in
        Drives-then k _ (calls_at x₁ c₀) (call-Drives k d.formats (calls_at x₁ c₀))
          (λ x adds. covers x (Adds-trans k a₁ adds))
          λ formats x₂ (e₂, _).
            let a₂ : Adds k c₀.log x₂.1 = same-Adds k (e₂ ∙ e₁) in
            Leaves-lift _ (calls_at x₂ c₀) (formats-Ensures formats) (covers x₂ a₂) λ chosen _.
              Drives-then k _ (calls_at x₂ c₀) (call-Drives k d.present_modes (calls_at x₂ c₀))
                (λ x adds. covers x (Adds-trans k a₂ adds))
                λ modes x₃ (e₃, _).
                  let a₃ : Adds k c₀.log x₃.1 = same-Adds k (e₃ ∙ e₂ ∙ e₁) in
                  Leaves-lift _ (calls_at x₃ c₀) (modes-Ensures ch.mode modes) (covers x₃ a₃)
                    λ mode _.
                      Leaves-lift _ (calls_at x₃ c₀)
                        (extent-Ensures caps want_w want_h (ranged c₀.calls caps listed))
                        (covers x₃ a₃)
                        λ extent _.
                          Leaves-lift _ (calls_at x₃ c₀) (counts mode caps) (covers x₃ a₃)
                            λ count _.
                              let info : SwapchainCreateInfo = record {
                                min_image_count = count;
                                image_format = chosen;
                                image_extent = extent;
                                present_mode = mode;
                                old_swapchain = c₀.swapchain;
                              } in
                              Drives-then k _ (calls_at x₃ c₀)
                                (make-Drives k swapchain_object (λ n. d.create_swapchain n info)
                                  (calls_at x₃ c₀))
                                (λ x adds. covers x (Adds-trans k a₃ adds))
                                λ new x₄ (e₄, got).
                                  build_views-Level k d extent chosen.format _ real.render_pass (
                                    replaced-Bare c₀ new x₄ extent chosen.format bare
                                      (e₄ ∙ ap (λ l. made swapchain_object new ∷ l) (e₃ ∙ e₂ ∙ e₁))
                                      λ z. real.swapchain x₃.0 info (got ∙ ap answer z))
