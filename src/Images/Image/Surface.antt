-- ===== src/Images/Image/Surface.antt =====
-- Importing a surface: it is released on every path.
use vulkan_cocoa_core.Common.{
  ℕ, ◌≡◌, ◌≢◌, inl, inr, sym, ap, ◌∙◌, subst, false, ◌||◌, ◌==◌, none, Bool-cases,
}
use vulkan_cocoa_core.Machine.Stateful.{Ends, returns, fails, Ends-then}
use vulkan_cocoa_core.Device.Driver.{Answer, answer, failed}
use vulkan_cocoa_core.Images.Gpu.{
  ResourceError, vk, io_surface, ImageCreateInfo, Gpu, Live, World, made, keep_image, keep_surface,
  drop_surface, surface_lookup_failed, zero_dimensions,
}
use vulkan_cocoa_core.Images.Image.{
  GpuImage, create_and_release, import_surface, import_from_mach_port, release_surface, as_u32,
}
use vulkan_cocoa_core.Images.Image.Lifetime.{NonNull, remove_head}
use vulkan_cocoa_core.Images.Image.Owned.{Owned, make_view-Ends}

-- What an error of an import leaves: nothing, or the image where the driver reports the error.
pub data LeftByImport (before : Live) : ResourceError → Live → Type 0 where
  untouched : {e : ResourceError} → LeftByImport before e before
  image_left : {c h : ℕ} → LeftByImport before (vk c) (keep_image h before)

release_keep : (surface : ℕ) (l : Live) → drop_surface surface (keep_surface surface l) ≡ l
release_keep surface l = ap (λ xs. record l { surfaces = xs }) (remove_head surface l.surfaces)

module _ (g : Gpu) (real : NonNull g) (before : Live) where
  abbrev Left : ResourceError → World → Type 0
  Left e w = LeftByImport before e w.live

  create_and_release-Ends :
      (surface : ℕ) (info : ImageCreateInfo) (w : World)
      → w.live ≡ keep_surface surface before
      → Ends
          (λ h w'. (h ≢ 0) × (w'.live ≡ keep_image h before))
          Left
          (create_and_release g surface info w)
  unfolding create_and_release
  create_and_release-Ends surface info w e =
      by_answer (g.create_image w.calls info) λ z. real.image w.calls info z
    where
      gone : drop_surface surface w.live ≡ before
      gone = ap (drop_surface surface) e ∙ release_keep surface before

      by_answer :
          (x : Answer ℕ)
          → x ≢ answer 0
          → Ends
              (λ h w'. (h ≢ 0) × (w'.live ≡ keep_image h before))
              Left
              ((made x keep_image w).0, release_surface surface (made x keep_image w).1)
      by_answer (answer h) has = returns ((λ z. has (ap answer z)), ap (keep_image h) gone)
      by_answer (failed c) has = fails (subst (LeftByImport before (vk c)) (sym gone) untouched)

  import_surface-Ends :
      (surface width height format usage : ℕ) (w : World)
      → w.live ≡ keep_surface surface before
      → Ends
          (λ im w'. Owned before im w'.live)
          Left
          (import_surface g surface width height format usage w)
  unfolding import_surface
  import_surface-Ends surface width height format usage w e =
      let gone : drop_surface surface w.live ≡ before =
        ap (drop_surface surface) e ∙ release_keep surface before in
      elim (Bool-cases (width == 0 || height == 0)) [
        | inl t ↦ rw t (fails (subst (LeftByImport before zero_dimensions) (sym gone) untouched))
        | inr f ↦ rw f (
            Ends-then
              (create_and_release-Ends surface
                (record {
                  source = io_surface surface;
                  format = format;
                  width = width;
                  height = height;
                  usage = usage;
                })
                w e)
              λ h w₁ (has, e₁).
                let im : GpuImage = record {
                  image = h;
                  memory = none;
                  view = 0;
                  extent = record { width = width; height = height };
                  format = format;
                  owns_memory = false;
                } in
                Ends-then
                  (make_view-Ends g real before im w₁ Left has e₁
                    λ c n _. subst (LeftByImport before (vk c)) (sym e₁) image_left)
                  λ v w₂ owned. returns owned)
      ]

  -- With a driver that gives no null handle, importing a surface never panics and releases it on every
  -- path: where it returns an image, the live objects are those of before and that image's, which
  -- destroying it gives back; an error leaves the objects of before, or these and the image.
  pub import_from_mach_port-Owned :
      (port format usage : ℕ) (w : World)
      → w.live ≡ before
      → Ends
          (λ im w'. Owned before im w'.live)
          (λ e w'. LeftByImport before e w'.live)
          (import_from_mach_port g port format usage w)
  unfolding import_from_mach_port
  import_from_mach_port-Owned port format usage w e =
      elim (Bool-cases (g.surface_lookup port == 0)) [
        | inl t ↦ rw t (fails (subst (LeftByImport before surface_lookup_failed) (sym e) untouched))
        | inr f ↦ rw f (
            import_surface-Ends (g.surface_lookup port)
              (as_u32 (g.surface_width (g.surface_lookup port)))
              (as_u32 (g.surface_height (g.surface_lookup port))) format usage _
              (ap (keep_surface (g.surface_lookup port)) e))
      ]
