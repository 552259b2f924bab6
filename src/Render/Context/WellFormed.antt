-- ===== src/Render/Context/WellFormed.antt =====
-- Building completes the swapchain.
use vulkan_cocoa_core.Common.{
  ℕ, zero, suc, ◌≤◌, ◌≡◌, refl, ap, ◌∙◌, List, [], ◌∷◌, ◌||◌, ◌==◌, length, arith, not, leb,
  Bool-cases, inl, inr,
}
use vulkan_cocoa_core.Machine.{Build, add_overflow, bind}
use vulkan_cocoa_core.Machine.Ensures.{
  Ensures, holds, rejected, Ensures-if, Ensures-bind, Ensures-allow, u32_add-Ensures,
}
use vulkan_cocoa_core.Device.Driver.{Answer, answer}
use vulkan_cocoa_core.Render.Display.{
  max_frames_in_flight, u32_max, SwapchainError, Extent, Format, Display, Capabilities,
  SurfaceFormat, PresentMode,
}
use vulkan_cocoa_core.Render.Choose.{choose_image_count, choose_extent, clamp}
use vulkan_cocoa_core.Render.Context.{
  FrameSync, Context, collect, destroy_swapchain_resources, make_frames, ensure_frames, build_views,
  Choices, choices, build_by, non_empty_formats, non_empty_modes, non_zero_extent, build_swapchain,
}
use vulkan_cocoa_core.Render.Objects.{
  Kind, swapchain_object, view_object, pass_object, framebuffer_object, buffer_object,
  semaphore_object, fence_object, made_all, destroy_some,
}
use vulkan_cocoa_core.Render.Context.Leaves.{
  Driven, make-Leaves, Leaves, returns, Leaves-then, Framed, Complete, Allocates, Conforms,
  calls_at, Calls, call-Leaves, Leaves-Calls, Framed-calls_at, Leaves-lift,
}

collect-Leaves :
    {A : Type 0} {R : Context → Type 0} (k : Kind) (f : A → ℕ → Answer ℕ) (xs : List A)
    (c : Context)
    → ((n : Driven) → R (calls_at n c))
    → Leaves (λ ys c'. Calls c c' × (length ys ≡ length xs)) R (collect k f xs c)
unfolding collect
collect-Leaves k f [] c r = returns ((_, refl), refl)
collect-Leaves k f (x ∷ xs) c r = Leaves-Calls _ c (make-Leaves k (f x) c r) λ y n _.
    Leaves-then (collect-Leaves k f xs (calls_at n c) r)
      λ ys c' ((m, e), l). returns ((m, e), ap suc l)

make_frames-Leaves :
    {R : Context → Type 0} (d : Display) (k : ℕ) (c : Context)
    → ((n : Driven) → R (calls_at n c))
    → Leaves (λ fs c'. Calls c c' × (length fs ≡ k)) R (make_frames d k c)
unfolding make_frames
make_frames-Leaves d zero c r = returns ((_, refl), refl)
make_frames-Leaves d (suc k) c r =
    Leaves-Calls _ c (make-Leaves semaphore_object d.create_semaphore c r) λ _ n₁ _.
      Leaves-Calls _ (calls_at n₁ c)
        (make-Leaves semaphore_object d.create_semaphore (calls_at n₁ c) r)
        λ _ n₂ _.
          Leaves-Calls _ (calls_at n₂ c) (make-Leaves fence_object d.create_fence (calls_at n₂ c) r)
            λ _ n₃ _.
              Leaves-then (make_frames-Leaves d k (calls_at n₃ c) r)
                λ fs c' ((m, e), l). returns ((m, e), ap suc l)

ensure_frames-Leaves :
    (d : Display) (c : Context)
    → Framed c
    → (n : ℕ) × (d.swapchain_images n c.swapchain ≡ answer c.images)
    → length c.image_views ≡ length c.images
    → length c.framebuffers ≡ length c.images
    → length c.command_buffers ≡ length c.images
    → Leaves (λ _. Complete d) Framed (ensure_frames d c)
unfolding ensure_frames
ensure_frames-Leaves d c fr listed v f cb = by_frames c.frames refl
  where
    by_frames :
        (fs : List FrameSync) → c.frames ≡ fs → Leaves (λ _. Complete d) Framed (ensure_frames d c)
    by_frames [] e =
        rw (e, ensure_frames)
          (Leaves-Calls _ c (make_frames-Leaves d max_frames_in_flight c (Framed-calls_at fr))
            λ fs n l. returns (record {
              listed = listed;
              views = v;
              framebuffers = f;
              command_buffers = cb;
              frames = l;
              current = fr.current;
            }))
    by_frames (x ∷ fs) e =
        rw (e, ensure_frames)
          (returns (record {
            listed = listed;
            views = v;
            framebuffers = f;
            command_buffers = cb;
            frames = elim fr.some_or_all [
              | inl z ↦ absurd (omega (arith, ap length e, z))
              | inr z ↦ z
            ];
            current = fr.current;
          }))

build_views-Leaves :
    (d : Display) (extent : Extent) (format : Format) (c : Context)
    → Allocates d
    → Framed c
    → Leaves (λ _. Complete d) Framed (build_views d extent format c.swapchain c)
unfolding build_views
build_views-Leaves d extent format c gives fr =
    let go : (c' : Context)
        → c'.frames ≡ c.frames
        → c'.current_frame ≡ c.current_frame
        → Framed c' =
      λ c' e e'. record { some_or_all = rw e fr.some_or_all; current = rw e' fr.current } in
    Leaves-Calls _ c
      (call-Leaves (λ n. d.swapchain_images n c.swapchain) c (λ n. go (calls_at n c) refl refl))
      λ images n₁ listed.
        let c₁ : Context = record c { calls = n₁.0; log = n₁.1; images = images } in
        Leaves-Calls _ c₁
          (collect-Leaves view_object (λ image n. d.create_image_view n image) images c₁
            (λ n. go (calls_at n c₁) refl refl))
          λ views n₂ lv.
            let c₂ : Context = record c₁ { calls = n₂.0; log = n₂.1; image_views = views } in
            Leaves-Calls _ c₂
              (make-Leaves pass_object (λ n. d.create_render_pass n format) c₂
                (λ n. go (calls_at n c₂) refl refl))
              λ pass n₃ _.
                let c₃ : Context = record c₂ { calls = n₃.0; log = n₃.1; render_pass = pass } in
                Leaves-Calls _ c₃
                  (collect-Leaves framebuffer_object
                    (λ view n. d.create_framebuffer n pass view extent) views c₃
                    (λ n. go (calls_at n c₃) refl refl))
                  λ fbs n₄ lf.
                    let c₄ : Context = record c₃ { calls = n₄.0; log = n₄.1; framebuffers = fbs } in
                    Leaves-Calls _ c₄
                      (call-Leaves (λ n. d.allocate_command_buffers n (length images)) c₄
                        (λ n. go (calls_at n c₄) refl refl))
                      λ cbs n₅ made.
                        let c₅ : Context = record c₄ {
                          calls = n₅.0;
                          log = made_all buffer_object cbs n₅.1;
                          command_buffers = cbs;
                        } in
                        ensure_frames-Leaves d c₅ (go c₅ refl refl) (c.calls, listed) lv (lf ∙ lv)
                          (gives n₄.0 (length images) cbs made)

pub choose_image_count-Ensures :
    (b : Build) (caps : Capabilities)
    → Ensures {E = SwapchainError} (λ p. p ≡ add_overflow) (λ n. n ≤ 3) (choose_image_count b caps)
unfolding choose_image_count
choose_image_count-Ensures b caps =
    Ensures-bind (u32_add-Ensures b caps.min_image_count 1 refl) λ n _. holds (omega arith)

pub formats-Ensures :
    (fs : List SurfaceFormat)
    → Ensures (λ p. p ≡ add_overflow) (λ _. Unit {0}) (non_empty_formats fs)
unfolding non_empty_formats
formats-Ensures [] = rejected
formats-Ensures (f ∷ fs) = holds tt

pub modes-Ensures :
    (choose : List PresentMode → PresentMode) (ms : List PresentMode)
    → Ensures (λ p. p ≡ add_overflow) (λ _. Unit {0}) (non_empty_modes choose ms)
unfolding non_empty_modes
modes-Ensures choose [] = rejected
modes-Ensures choose (m ∷ ms) = holds tt

non_zero_extent-Ensures :
    (e : Extent) → Ensures (λ p. p ≡ add_overflow) (λ _. Unit {0}) (non_zero_extent e)
unfolding non_zero_extent
non_zero_extent-Ensures e =
    Ensures-if (e.width == 0 || e.height == 0) (λ _. rejected) (λ _. holds tt)

clamp-ok :
    {E : Type 0} (low high x : ℕ)
    → low ≤ high
    → Ensures {E = E} (λ p. ⊥) (λ _. Unit {0}) (clamp low high x)
unfolding clamp
clamp-ok low high x h = elim (Bool-cases (leb low high)) [
  | inl t ↦ rw t (holds tt)
  | inr f ↦ absurd (ground (arith, h, f))
]

-- Where the least extent is at most the greatest, the assertion of `clamp` holds.
pub extent-Ensures :
    (caps : Capabilities) (want_w want_h : ℕ)
    → (caps.min_image_extent.width ≤ caps.max_image_extent.width)
      × (caps.min_image_extent.height ≤ caps.max_image_extent.height)
    → Ensures
        (λ p. p ≡ add_overflow)
        (λ _. Unit {0})
        (bind (choose_extent caps want_w want_h) non_zero_extent)
unfolding choose_extent
extent-Ensures caps want_w want_h (w, h) =
    Ensures-bind {P = λ _. Unit {0}}
      (Ensures-if (not (caps.current_extent.width == u32_max)) (λ _. holds tt)
        λ _. Ensures-bind (Ensures-allow (clamp-ok _ _ want_w w) λ p n. absurd n) λ width _.
          Ensures-bind (Ensures-allow (clamp-ok _ _ want_h h) λ p n. absurd n) λ height _. holds tt)
      λ e _. non_zero_extent-Ensures e

-- However the image count is chosen, if that panics at most by its overflow.
pub build_by-Leaves :
    (k : Choices) (b : Build) (d : Display) (want_w want_h : ℕ) (c : Context)
    → ((mode : PresentMode) (caps : Capabilities)
        → Ensures (λ p. p ≡ add_overflow) (λ n. n ≤ 3) (k.image_count b mode caps))
    → Conforms d
    → Framed c
    → Leaves (λ _. Complete d) Framed (build_by k b d want_w want_h c)
unfolding build_by destroy_swapchain_resources
build_by-Leaves k b d want_w want_h c counts gives fr =
    let go : (c' : Context)
        → c'.frames ≡ c.frames
        → c'.current_frame ≡ c.current_frame
        → Framed c' =
      λ c' e e'. record { some_or_all = rw e fr.some_or_all; current = rw e' fr.current } in
    let c₀ : Context = destroy_swapchain_resources k.waits c in
    let stays : (n : Driven) → Framed (calls_at n c₀) = λ n. go (calls_at n c₀) refl refl in
    Leaves-Calls _ c₀ (call-Leaves d.capabilities c₀ stays) λ caps n₁ listed.
      Leaves-Calls _ c₀ (call-Leaves d.formats (calls_at n₁ c₀) stays) λ formats n₂ _.
        Leaves-lift _ (calls_at n₂ c₀) (formats-Ensures formats) (stays n₂) λ chosen _.
          Leaves-Calls _ c₀ (call-Leaves d.present_modes (calls_at n₂ c₀) stays) λ modes n₃ _.
            Leaves-lift _ (calls_at n₃ c₀) (modes-Ensures k.mode modes) (stays n₃) λ mode _.
              Leaves-lift _ (calls_at n₃ c₀)
                (extent-Ensures caps want_w want_h (gives.ranged c₀.calls caps listed)) (stays n₃)
                λ extent _. Leaves-lift _ (calls_at n₃ c₀) (counts mode caps) (stays n₃) λ count _.
                  Leaves-Calls _ c₀
                    (make-Leaves swapchain_object
                      (λ n. d.create_swapchain n (record {
                        min_image_count = count;
                        image_format = chosen;
                        image_extent = extent;
                        present_mode = mode;
                        old_swapchain = c.swapchain;
                      }))
                      (calls_at n₃ c₀) stays)
                    λ new n₄ _.
                      let c₁ : Context = record c₀ {
                        calls = n₄.0;
                        log = destroy_some swapchain_object c.swapchain n₄.1;
                        swapchain = new;
                        extent = extent;
                        format = chosen.format;
                      } in
                      build_views-Leaves d extent chosen.format c₁ gives.allocates (go c₁ refl refl)

pub build_swapchain-Leaves :
    (b : Build) (d : Display) (want_w want_h : ℕ) (c : Context)
    → Conforms d
    → Framed c
    → Leaves (λ _. Complete d) Framed (build_swapchain b d want_w want_h c)
unfolding build_swapchain
build_swapchain-Leaves b d want_w want_h c =
    build_by-Leaves choices b d want_w want_h c λ mode caps. choose_image_count-Ensures b caps
