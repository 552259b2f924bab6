-- ===== src/Images/Image/Owned.antt =====
-- What making an image takes, and what an error leaves behind.
use vulkan_cocoa_core.Common.{
  ℕ, ◌+◌, ◌≡◌, ◌≢◌, ◌⊎◌, inl, inr, refl, sym, ap, ◌∙◌, subst, true, some,
}
use vulkan_cocoa_core.Machine.{Build, Run}
use vulkan_cocoa_core.Machine.Stateful.{Ends, returns, fails, Ends-then, Ends-mono}
use vulkan_cocoa_core.Device.Driver.{Answer, answer, failed}
use vulkan_cocoa_core.Render.Display.{Extent}
use vulkan_cocoa_core.Images.Gpu.{
  ResourceError, vk, own_memory, opaque_fd, ImageSource, ImageCreateInfo, fresh, import_fd,
  MemorySource, MemoryAllocateInfo, Gpu, Live, World, made, answered, no_memory_type, keep_image,
  keep_memory, keep_view,
}
use vulkan_cocoa_core.Images.Memory.First.{Listed, Found, found, none_found, find_memory_type-Found}
use vulkan_cocoa_core.Images.Image.{
  GpuImage, destroy, make_view, device_local, back_image, create_color_attachment, imported_usage,
  import_opaque_fd,
}
use vulkan_cocoa_core.Images.Image.Lifetime.{holding, NonNull, destroy-holding}

-- The live objects are those of before and those of the image, which `destroy` gives back.
pub record Owned (before : Live) (im : GpuImage) (live : Live) : Type 0 where
  pub held : live ≡ holding im before
  pub given_back : (destroy im live).1 ≡ before

-- What an error leaves, by the call that failed: nothing where the image was not created; the image
-- where there is no memory type for it, or its memory was not allocated; and the image and that
-- memory where binding it, or making the view, failed.
pub data Left (g : Gpu) (format : ℕ) (created : Answer ℕ) (before : Live)
    : ResourceError → Live → Type 0 where
  nothing_left : {e : ℕ} → created ≡ failed e → Left g format created before (vk e) before
  no_type :
      {h type_bits properties : ℕ}
      → created ≡ answer h
      → Left g format created before (no_memory_type type_bits properties) (keep_image h before)
  not_allocated :
      {h e : ℕ} (n : ℕ) (info : MemoryAllocateInfo)
      → created ≡ answer h
      → g.allocate_memory n info ≡ failed e
      → Left g format created before (vk e) (keep_image h before)
  memory_left :
      {h m e : ℕ} (n n' : ℕ) (info : MemoryAllocateInfo)
      → created ≡ answer h
      → g.allocate_memory n info ≡ answer m
      → (g.bind_image_memory n' h m ≡ failed e) ⊎ (g.create_image_view n' h format ≡ failed e)
      → Left g format created before (vk e) (keep_memory m (keep_image h before))

abbrev pub image_info : Extent → (format : ℕ) → ImageSource → (usage : ℕ) → ImageCreateInfo
image_info extent format source usage = record {
  source = source;
  format = format;
  width = extent.width;
  height = extent.height;
  usage = usage;
}

module _ {R : ResourceError → World → Type 0} (w : World) where
  made-Ends :
      (x : Answer ℕ) (keep : ℕ → Live → Live)
      → ((e n : ℕ) → x ≡ failed e → R (vk e) (record w { calls = n }))
      → Ends (λ h w'. (x ≡ answer h) × (w'.live ≡ keep h w.live)) R (made x keep w)
  made-Ends (answer h) keep r = returns (refl, refl)
  made-Ends (failed e) keep r = fails (r e (w.calls + 1) refl)

  answered-Ends :
      {A : Type 0} (x : Answer A)
      → ((e n : ℕ) → x ≡ failed e → R (vk e) (record w { calls = n }))
      → Ends (λ _ w'. w'.live ≡ w.live) R (answered x w)
  answered-Ends (answer a) r = returns refl
  answered-Ends (failed e) r = fails (r e (w.calls + 1) refl)

  find_memory_type-Ends :
      {m : _} {type_bits properties : ℕ} {r : Run ResourceError ℕ}
      → Found m type_bits properties r
      → R (no_memory_type type_bits properties) w
      → Ends (λ _ w'. w'.live ≡ w.live) R (r, w)
  find_memory_type-Ends (found _ _ _) h = returns refl
  find_memory_type-Ends (none_found _) h = fails h

module _ (g : Gpu) (real : NonNull g) (before : Live) where
  -- What holds for an image of whatever kind, once its view is made.
  pub make_view-Ends :
      (im : GpuImage) (w : World) (R : ResourceError → World → Type 0)
      → im.image ≢ 0
      → w.live ≡ record (holding im before) { views = before.views }
      → ((e n : ℕ)
          → g.create_image_view w.calls im.image im.format ≡ failed e
          → R (vk e) (record w { calls = n }))
      → Ends
          (λ v w'. Owned before (record im { view = v }) w'.live)
          R
          (make_view g im.image im.format w)
  unfolding make_view
  make_view-Ends im w R has e r =
      Ends-mono (made-Ends w (g.create_image_view w.calls im.image im.format) keep_view r)
        λ v w' (made_, kept).
          let held : w'.live ≡ holding (record im { view = v }) before =
            kept ∙ ap (keep_view v) e in
          let v≢0 : v ≢ 0 = λ z. real.view w.calls im.image im.format (made_ ∙ ap answer z) in
          record {
            held = held;
            given_back =
                ap (λ l. (destroy (record im { view = v }) l).1) held
                ∙ destroy-holding (record im { view = v }) before has v≢0;
          }

  module _ (b : Build) (listed : Listed g.memory_properties) (extent : Extent) (format : ℕ) where
    back_image-Ends :
        (source : MemorySource) (image : ℕ) (created : Answer ℕ) (w : World)
        → created ≡ answer image
        → image ≢ 0
        → w.live ≡ keep_image image before
        → Ends
            (λ im w'. Owned before im w'.live × (im.extent ≡ extent))
            (λ x w'. Left g format created before x w'.live)
            (back_image b g source image extent format w)
    unfolding back_image
    back_image-Ends source image created w got has e =
        let with_image : (x : ResourceError) (l : Live)
            → l ≡ keep_image image before
            → Left g format created before x (keep_image image before)
            → Left g format created before x l =
          λ x l at. subst (Left g format created before x) (sym at) in
        Ends-then
          (find_memory_type-Ends w
            (find_memory_type-Found b g.memory_properties
              (g.image_memory_requirements image).memory_type_bits device_local listed)
            (with_image _ w.live e (no_type got)))
          λ i w₁ same₁.
            let e₁ = same₁ ∙ e in
            let info : MemoryAllocateInfo = record {
              source = source;
              allocation_size = (g.image_memory_requirements image).size;
              memory_type_index = i;
            } in
            Ends-then
              (made-Ends w₁ (g.allocate_memory w₁.calls info) keep_memory
                λ c n f. with_image (vk c) w₁.live e₁ (not_allocated w₁.calls info got f))
              λ m w₂ (allocated, kept).
                let with_memory : (x : ResourceError) (l : Live)
                    → l ≡ keep_memory m (keep_image image before)
                    → Left g format created before x (keep_memory m (keep_image image before))
                    → Left g format created before x l =
                  λ x l at. subst (Left g format created before x) (sym at) in
                let e₂ : w₂.live ≡ keep_memory m (keep_image image before) =
                  kept ∙ ap (keep_memory m) e₁ in
                Ends-then
                  (answered-Ends w₂ (g.bind_image_memory w₂.calls image m) λ c n f.
                    with_memory (vk c) w₂.live e₂
                      (memory_left w₁.calls w₂.calls info got allocated (inl f)))
                  λ _ w₃ same₃.
                    let e₃ = same₃ ∙ e₂ in
                    let im : GpuImage = record {
                      image = image;
                      memory = some m;
                      view = 0;
                      extent = extent;
                      format = format;
                      owns_memory = true;
                    } in
                    Ends-then
                      (make_view-Ends im w₃ _ has e₃ λ c n f.
                        with_memory (vk c) w₃.live e₃
                          (memory_left w₁.calls w₃.calls info got allocated (inr f)))
                      λ v w₄ owned. returns (owned, refl)

    -- With the memory types that Vulkan promises and a driver that gives no null handle, creating a
    -- color attachment never panics; destroying the image that it returns gives back all that it took;
    -- and what an error leaves is told by the call that failed: nothing for the creation of the image,
    -- the image where there is no memory type for it or allocating failed, and the image with the
    -- memory that was allocated where binding that or making the view failed.
    pub create_color_attachment-Owned :
        (usage : ℕ) (w : World)
        → w.live ≡ before
        → Ends
            (λ im w'. Owned before im w'.live × (im.extent ≡ extent))
            (λ x w'.
              Left g format
                (g.create_image w.calls (image_info extent format own_memory usage))
                before
                x
                w'.live)
            (create_color_attachment b g extent format usage w)
    unfolding create_color_attachment
    create_color_attachment-Owned usage w e =
        let created = g.create_image w.calls (image_info extent format own_memory usage) in
        Ends-then
          (made-Ends w created keep_image
            λ c n f. subst (Left g format created before (vk c)) (sym e) (nothing_left f))
          λ h w₁ (got, kept).
            back_image-Ends fresh h created w₁ got
              (λ z.
                real.image w.calls (image_info extent format own_memory usage) (got ∙ ap answer z))
              (kept ∙ ap (keep_image h) e)

    -- With the memory types that Vulkan promises and a driver that gives no null handle, an import
    -- from a file descriptor never panics; destroying the image that it returns gives back all that
    -- it took; and what an error leaves is told by the call that failed: nothing for the creation of
    -- the image, the image where there is no memory type for it or importing its memory failed, and
    -- the image with that memory where binding it or making the view failed.
    pub import_opaque_fd-Owned :
        (fd : ℕ) (w : World)
        → w.live ≡ before
        → Ends
            (λ im w'. Owned before im w'.live × (im.extent ≡ extent))
            (λ x w'.
              Left g format
                (g.create_image w.calls (image_info extent format opaque_fd imported_usage))
                before
                x
                w'.live)
            (import_opaque_fd b g fd extent format w)
    unfolding import_opaque_fd
    import_opaque_fd-Owned fd w e =
        let created = g.create_image w.calls (image_info extent format opaque_fd imported_usage) in
        Ends-then
          (made-Ends w created keep_image
            λ c n f. subst (Left g format created before (vk c)) (sym e) (nothing_left f))
          λ h w₁ (got, kept).
            back_image-Ends (import_fd fd) h created w₁ got
              (λ z.
                real.image w.calls (image_info extent format opaque_fd imported_usage)
                  (got ∙ ap answer z))
              (kept ∙ ap (keep_image h) e)
