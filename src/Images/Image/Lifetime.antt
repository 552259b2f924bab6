-- ===== src/Images/Image/Lifetime.antt =====
-- What `destroy` gives back of what making an image took.
use vulkan_cocoa_core.Common.{
  ℕ, ◌≡◌, ◌≢◌, inl, inr, refl, sym, ap, ◌∙◌, List, [], ◌∷◌, ◌++◌, Bool, true, false, ◌==◌, Option,
  none, some, if◌then◌else◌, ==_iff, Bool-cases, pos→ne_zero, zero_or_pos,
}
use vulkan_cocoa_core.Device.Driver.{answer}
use vulkan_cocoa_core.Render.Display.{Extent}
use vulkan_cocoa_core.Images.Gpu.{ImageCreateInfo, Gpu, Live, keep_image, keep_view, remove}
use vulkan_cocoa_core.Images.Image.{GpuImage, destroy_view, destroy_image, free_memory, destroy}

abbrev pub memory_of : GpuImage → List ℕ
memory_of im = if im.owns_memory then elim im.memory [ none ↦ [] | some m ↦ m ∷ [] ] else []

-- What an image owns, on top of other live objects.
abbrev pub holding : GpuImage → Live → Live
holding im l = record {
  images = im.image ∷ l.images;
  memories = memory_of im ++ l.memories;
  views = im.view ∷ l.views;
  surfaces = l.surfaces;
}

-- A call that succeeds does not give the null handle.
pub record NonNull (g : Gpu) : Type 0 where
  pub image : (n : ℕ) (info : ImageCreateInfo) → g.create_image n info ≢ answer 0
  pub view : (n im format : ℕ) → g.create_image_view n im format ≢ answer 0

pub remove_head : (h : ℕ) (xs : List ℕ) → remove h (h ∷ xs) ≡ xs
remove_head h xs = rw ((==_iff h h).1 refl) refl

ne→false : (n : ℕ) → n ≢ 0 → (n == 0) ≡ false
ne→false n h = elim (zero_or_pos n) [ inl z ↦ absurd (h z) | inr p ↦ pos→ne_zero n p ]

-- An image without its objects.
abbrev pub gone : GpuImage → GpuImage
gone im = record im { image = 0; memory = if im.owns_memory then none else im.memory; view = 0 }

module _ (l : Live) where
  destroy_view-gone : (im : GpuImage) → (destroy_view im l).0 ≡ record im { view = 0 }
  unfolding destroy_view
  destroy_view-gone im = elim (Bool-cases (im.view == 0)) [
    | inl h ↦
        let z : im.view ≡ 0 = (==_iff im.view 0).0 h in rw h (ap (λ v. record im { view = v }) z)
    | inr h ↦ rw h refl
  ]

  destroy_image-gone : (im : GpuImage) → (destroy_image im l).0 ≡ record im { image = 0 }
  unfolding destroy_image
  destroy_image-gone im = elim (Bool-cases (im.image == 0)) [
    | inl h ↦
        let z : im.image ≡ 0 = (==_iff im.image 0).0 h in rw h (ap (λ v. record im { image = v }) z)
    | inr h ↦ rw h refl
  ]

-- The cases of an image's memory.
module _ (image view : ℕ) (extent : Extent) (format : ℕ) (l : Live) where
  abbrev with_memory : Bool → Option ℕ → GpuImage
  with_memory owns memory = record {
    image = image;
    memory = memory;
    view = view;
    extent = extent;
    format = format;
    owns_memory = owns;
  }

  free_memory_cases :
      (o : Bool) (m : Option ℕ)
      → (free_memory (with_memory o m) l).0 ≡ with_memory o (if o then none else m)
  unfolding free_memory
  free_memory_cases true none = refl
  free_memory_cases true (some m) = refl
  free_memory_cases false m = refl

  free_memory_again :
      (o : Bool) (m : Option ℕ)
      → free_memory (with_memory o (if o then none else m)) l
        ≡ (with_memory o (if o then none else m), l)
  unfolding free_memory
  free_memory_again true m = refl
  free_memory_again false m = refl

  free_memory-memory_of :
      (o : Bool) (m : Option ℕ)
      → (free_memory
          (with_memory o m)
          (record l { memories = memory_of (with_memory o m) ++ l.memories })).1
        ≡ l
  unfolding free_memory
  free_memory-memory_of true none = refl
  free_memory-memory_of true (some m) =
      ap (λ xs. record l { memories = xs }) (remove_head m l.memories)
  free_memory-memory_of false m = refl

destroy-gone : (im : GpuImage) (l : Live) → (destroy im l).0 ≡ gone im
unfolding destroy
destroy-gone im l =
    let (im₁, l₁) = destroy_view im l in
    let (im₂, l₂) = destroy_image (destroy_view im l).0 (destroy_view im l).1 in
    free_memory_cases im₂.image im₂.view im₂.extent im₂.format l₂ im₂.owns_memory im₂.memory
    ∙ rw (destroy_image-gone l₁ im₁, destroy_view-gone l im) refl

gone-stays : (im : GpuImage) (l : Live) → destroy (gone im) l ≡ (gone im, l)
unfolding destroy destroy_view destroy_image
gone-stays im l = free_memory_again 0 0 im.extent im.format l im.owns_memory im.memory

-- An image that was destroyed is empty, and destroying it again changes nothing.
pub destroy-destroy :
    (im : GpuImage) (l : Live)
    → (destroy im l).0 ≡ gone im × (destroy (destroy im l).0 (destroy im l).1 ≡ destroy im l)
destroy-destroy im l =
    let e = destroy-gone im l in
    let l' = (destroy im l).1 in
    (e, ap (λ x. destroy x l') e ∙ gone-stays im l' ∙ ap (λ x. (x, l')) (sym e))

destroy_view-some :
    (im : GpuImage) (l : Live)
    → im.view ≢ 0
    → destroy_view im (keep_view im.view l) ≡ (record im { view = 0 }, l)
unfolding destroy_view
destroy_view-some im l h =
    rw (ne→false im.view h)
      (ap (λ xs. (record im { view = 0 }, record l { views = xs })) (remove_head im.view l.views))

destroy_image-some :
    (im : GpuImage) (l : Live)
    → im.image ≢ 0
    → destroy_image im (keep_image im.image l) ≡ (record im { image = 0 }, l)
unfolding destroy_image
destroy_image-some im l h =
    rw (ne→false im.image h) (
      ap (λ xs. (record im { image = 0 }, record l { images = xs }))
        (remove_head im.image l.images))

-- Destroying an image that has its objects gives back exactly what it owns.
pub destroy-holding :
    (im : GpuImage) (l : Live) → im.image ≢ 0 → im.view ≢ 0 → (destroy im (holding im l)).1 ≡ l
unfolding destroy
destroy-holding im l has_image has_view =
    let l₁ : Live = record l { memories = memory_of im ++ l.memories } in
    rw
      (
        destroy_view-some im (keep_image im.image l₁) has_view,
        destroy_image-some (record im { view = 0 }) l₁ has_image,
      )
      (free_memory-memory_of 0 0 im.extent im.format l im.owns_memory im.memory)
