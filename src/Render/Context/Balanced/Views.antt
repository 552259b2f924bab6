-- ===== src/Render/Context/Balanced/Views.antt =====
-- The objects that the lists of a swapchain hold: views, framebuffers, command buffers and frames.
use native.Mathlib.Nat.{mul-suc}
use vulkan_cocoa_core.Common.{
  ℕ, ◌≤◌, zero, suc, ◌+◌, ◌*◌, ◌≡◌, ◌≢◌, refl, ap, ◌∙◌, List, [], ◌∷◌, length, arith,
}
use vulkan_cocoa_core.Device.Driver.{Answer, answer}
use vulkan_cocoa_core.Render.Display.{Extent, Format, Display, max_frames_in_flight}
use vulkan_cocoa_core.Render.Objects.{
  Kind, swapchain_object, view_object, pass_object, framebuffer_object, buffer_object,
  semaphore_object, fence_object, made_all, one_of, created, gone,
}
use vulkan_cocoa_core.Render.Context.{
  FrameSync, Context, collect, make_frames, ensure_frames, build_views,
}
use vulkan_cocoa_core.Render.Context.Leaves.{Leaves, returns, calls_at, Driven}
use vulkan_cocoa_core.Render.Context.Balanced.{
  some_handle, Grows, made_all-Grows, Adds, made-Adds, Adds-trans, Drives, Drives-then, call-Drives,
  make-Drives, some_handle-one,
}

module _ (k : Kind) where
  collect-Drives :
      {A : Type 0} (k' : Kind) (f : A → ℕ → Answer ℕ) (xs : List A) (c : Context)
      → Drives k (λ ys x. Grows k c.log x.1 (one_of k k' * length ys) 0) c (collect k' f xs c)
  unfolding collect
  collect-Drives k' f [] c =
      returns ((c.calls, c.log), refl, record { up = omega arith; down = omega arith })
  collect-Drives k' f (x ∷ xs) c =
      Drives-then k _ c (make-Drives k k' (f x) c) (λ n adds. (n, refl, adds))
        λ y n (e, _).
          let new : Adds k c.log n.1 = made-Adds k k' y c.log n.1 e in
          Drives-then k _ (calls_at n c) (collect-Drives k' f xs (calls_at n c))
            (λ m adds. (m, refl, Adds-trans k new adds))
            λ ys m grows. returns (
              m,
              refl,
              record {
                up =
                    grows.up
                    ∙ rw (mul-suc (one_of k k') (length ys)) (omega (arith, ap (created k) e));
                down = omega (arith, grows.down, ap (gone k) e);
              },
            )

  -- The semaphores and the fence of a frame.
  abbrev pub weight : ℕ
  weight = one_of k semaphore_object + one_of k semaphore_object + one_of k fence_object

  make_frames-Drives :
      (d : Display) (n : ℕ) (c : Context)
      → Drives k (λ fs x. Grows k c.log x.1 (weight * n) 0 × (length fs ≡ n)) c (make_frames d n c)
  unfolding make_frames
  make_frames-Drives d zero c =
      returns ((c.calls, c.log), refl, (record { up = omega arith; down = omega arith }, refl))
  make_frames-Drives d (suc n) c =
      Drives-then k _ c (make-Drives k semaphore_object d.create_semaphore c)
        (λ x adds. (x, refl, adds))
        λ h₁ x₁ (e₁, _).
          let a₁ : Adds k c.log x₁.1 = made-Adds k semaphore_object h₁ c.log x₁.1 e₁ in
          Drives-then k _ (calls_at x₁ c)
            (make-Drives k semaphore_object d.create_semaphore (calls_at x₁ c))
            (λ x adds. (x, refl, Adds-trans k a₁ adds))
            λ h₂ x₂ (e₂, _).
              let a₂ : Adds k c.log x₂.1 =
                Adds-trans k a₁ (made-Adds k semaphore_object h₂ x₁.1 x₂.1 e₂) in
              Drives-then k _ (calls_at x₂ c)
                (make-Drives k fence_object d.create_fence (calls_at x₂ c))
                (λ x adds. (x, refl, Adds-trans k a₂ adds))
                λ h₃ x₃ (e₃, _).
                  let a₃ : Adds k c.log x₃.1 =
                    Adds-trans k a₂ (made-Adds k fence_object h₃ x₂.1 x₃.1 e₃) in
                  Drives-then k _ (calls_at x₃ c) (make_frames-Drives d n (calls_at x₃ c))
                    (λ x adds. (x, refl, Adds-trans k a₃ adds))
                    λ fs x₄ (grows, l). returns (
                      x₄,
                      refl,
                      (
                        record {
                          up =
                              grows.up
                              ∙ rw (mul-suc weight n) (
                                  omega (
                                    arith,
                                    ap (created k) e₁,
                                    ap (created k) e₂,
                                    ap (created k) e₃,
                                  ));
                          down =
                              omega
                                (arith, grows.down, ap (gone k) e₁, ap (gone k) e₂, ap (gone k) e₃);
                        },
                        ap suc l,
                      ),
                    )

  -- What the context holds, by kinds.
  abbrev pub total : Context → ℕ
  total c =
      one_of k swapchain_object * some_handle c.swapchain
      + one_of k view_object * length c.image_views
      + one_of k pass_object * some_handle c.render_pass
      + one_of k framebuffer_object * length c.framebuffers
      + one_of k buffer_object * length c.command_buffers
      + weight * length c.frames

  abbrev pub Level : Context → Type 0
  Level c = created k c.log ≡ gone k c.log + total c

  -- What the context holds was made and not destroyed.
  abbrev pub Covers : Context → Type 0
  Covers c = gone k c.log + total c ≤ created k c.log

  ensure_frames-Level :
      (d : Display) (c : Context) → Level c → Leaves (λ _. Level) Covers (ensure_frames d c)
  unfolding ensure_frames
  ensure_frames-Level d c level = by_frames c.frames refl
    where
      by_frames :
          (fs : List FrameSync) → c.frames ≡ fs → Leaves (λ _. Level) Covers (ensure_frames d c)
      by_frames [] e =
          rw (e, ensure_frames)
            (Drives-then k _ c (make_frames-Drives d max_frames_in_flight c)
              (λ x adds. omega (arith, level, adds.up, adds.same))
              λ fs x (grows, l).
                let none_ : weight * length c.frames ≡ 0 = rw e (omega arith) in
                returns (rw l (omega (arith, grows.up, grows.down, level, none_))))
      by_frames (f ∷ fs) e = rw (e, ensure_frames) (returns level)

  -- Before the views are built: the context holds none of them.
  pub record Bare (c : Context) : Type 0 where
    pub level :
        created k c.log
        ≡ gone k c.log
          + (one_of k swapchain_object * some_handle c.swapchain + weight * length c.frames)
    pub views : one_of k view_object * length c.image_views ≡ 0
    pub pass : one_of k pass_object * some_handle c.render_pass ≡ 0
    pub framebuffers : one_of k framebuffer_object * length c.framebuffers ≡ 0
    pub buffers : one_of k buffer_object * length c.command_buffers ≡ 0

  -- Calls that fail before that leave what is held covered.
  pub Bare-Covers : (c : Context) (x : Driven) → Bare c → Adds k c.log x.1 → Covers (calls_at x c)
  Bare-Covers c x bare adds = omega (
    arith, bare.level, bare.views, bare.pass, bare.framebuffers, bare.buffers, adds.up, adds.same,
  )

  pub build_views-Level :
      (d : Display) (extent : Extent) (format : Format) (c : Context)
      → ((n : ℕ) (f : Format) → d.create_render_pass n f ≢ answer 0)
      → Bare c
      → Leaves (λ _. Level) Covers (build_views d extent format c.swapchain c)
  unfolding build_views
  build_views-Level d extent format c real bare =
      Drives-then k _ c (call-Drives k (λ n. d.swapchain_images n c.swapchain) c)
        (λ x. Bare-Covers c x bare)
        λ images x₁ (e₁, _).
          let c₁ : Context = record c { calls = x₁.0; log = x₁.1; images = images } in
          let l₁ : Level c₁ = omega (
            arith,
            bare.level,
            bare.views,
            bare.pass,
            bare.framebuffers,
            bare.buffers,
            ap (created k) e₁,
            ap (gone k) e₁,
          ) in
          Drives-then k _ c₁
            (collect-Drives view_object (λ image n. d.create_image_view n image) images c₁)
            (λ x adds. omega (arith, l₁, adds.up, adds.same))
            λ views x₂ g₂.
              let c₂ : Context = record c₁ { calls = x₂.0; log = x₂.1; image_views = views } in
              let l₂ : Level c₂ = omega (arith, l₁, bare.views, g₂.up, g₂.down) in
              Drives-then k _ c₂ (make-Drives k pass_object (λ n. d.create_render_pass n format) c₂)
                (λ x adds. omega (arith, l₂, adds.up, adds.same))
                λ pass x₃ (e₃, got).
                  let c₃ : Context = record c₂ { calls = x₃.0; log = x₃.1; render_pass = pass } in
                  let one : some_handle pass ≡ 1 =
                    some_handle-one pass (λ z. real c₂.calls format (got ∙ ap answer z)) in
                  let l₃ : Level c₃ =
                    rw one (omega (arith, l₂, bare.pass, ap (created k) e₃, ap (gone k) e₃)) in
                  Drives-then k _ c₃
                    (collect-Drives framebuffer_object
                      (λ view n. d.create_framebuffer n pass view extent) views c₃)
                    (λ x adds. omega (arith, l₃, adds.up, adds.same))
                    λ fbs x₄ g₄.
                      let c₄ : Context = record c₃ {
                        calls = x₄.0;
                        log = x₄.1;
                        framebuffers = fbs;
                      } in
                      let l₄ : Level c₄ = omega (arith, l₃, bare.framebuffers, g₄.up, g₄.down) in
                      Drives-then k _ c₄
                        (call-Drives k (λ n. d.allocate_command_buffers n (length images)) c₄)
                        (λ x adds. omega (arith, l₄, adds.up, adds.same))
                        λ cbs x₅ (e₅, _).
                          let g₅ = made_all-Grows k buffer_object cbs x₅.1 in
                          ensure_frames-Level d
                            (record c₄ {
                              calls = x₅.0;
                              log = made_all buffer_object cbs x₅.1;
                              command_buffers = cbs;
                            })
                            (omega (
                              arith,
                              l₄,
                              bare.buffers,
                              ap (created k) e₅,
                              ap (gone k) e₅,
                              g₅.up,
                              g₅.down,
                            ))
